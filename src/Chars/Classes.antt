-- ===== src/Chars/Classes.antt =====
-- How the character classes lie to one another.
use scheme2c.Prelude.{not, ℕ, ◌≡◌, ◌↔◌, ◌⊎◌, true, false, ◌&&◌, arith}
use scheme2c.Chars.{
  ℕ, Icu, Category, chrp_line_ending, chrp_u_line_ending, chr_linefeed, chr_nextline, chr_linesep,
  chr_ret, chrp_open_bracket, chrp_close_bracket, chrp_bracket, chrp_delim, chrp_letter,
  chrp_initial, chrp_subsequent,
}

-- A single character ends a line exactly when it is a line feed, a next line or a line separator; a
-- carriage return does so only as the first of a pair with a line feed or a next line.
pub chrp_line_ending_iff :
    (c d : ℕ)
    → ((chrp_line_ending c ≡ true) ↔ ((c ≡ chr_linefeed) ⊎ (c ≡ chr_nextline) ⊎ (c ≡ chr_linesep)))
      × ((chrp_u_line_ending chr_ret d ≡ true) ↔ ((d ≡ chr_linefeed) ⊎ (d ≡ chr_nextline)))
unfolding chrp_line_ending chrp_u_line_ending
chrp_line_ending_iff c d = ((ground arith, ground arith), (ground arith, ground arith))

-- No character both opens and closes a bracket, every bracket is a delimiter, and so is every
-- character that ends a line, if the library counts the line separator as white space.
pub chrp_delim_lem :
    (icu : Icu) (c : ℕ)
    → icu.is_white_space chr_linesep ≡ true
    → ((chrp_open_bracket c && chrp_close_bracket c) ≡ false)
      × (chrp_bracket c ≡ true → chrp_delim icu c ≡ true)
      × (chrp_line_ending c ≡ true → chrp_delim icu c ≡ true)
unfolding chrp_delim chrp_line_ending
chrp_delim_lem icu c h = (ground arith, ground arith, ground arith)

-- Letters start identifiers, and what starts an identifier can go on in one. A character of the
-- category "other punctuation" starts an identifier whatever its code, below 128 too.
pub identifier_classes :
    (icu : Icu) (c : ℕ)
    → ((chrp_letter c && not (chrp_initial icu c)) ≡ false)
      × ((chrp_initial icu c && not (chrp_subsequent icu c)) ≡ false)
      × ((icu.in_category c Category.other_punctuation && not (chrp_initial icu c)) ≡ false)
unfolding chrp_subsequent
identifier_classes icu c = (ground arith, ground arith, ground arith)
