-- ===== src/Chars.antt =====
-- Character classes of the lexer (src/charcat.c, inc/charcat.h). A character is a code point. What
-- the program asks of the ICU library is the parameter `Icu`.
pub mod Classes
pub mod Escapes
pub mod Radix
use scheme2c.Prelude.{
  ℕ, Bool, true, false, Option, none, some, List, [], ◌∷◌, ◌&&◌, ◌||◌, ◌==◌, leb, if◌then◌else◌,
}

-- The general categories that the program tests a character for.
pub data Category : Type 0 where
  letter symbol letter_number other_number dash_punctuation connector_punctuation other_punctuation
        nonspacing_mark decimal_number spacing_mark enclosing_mark :
      Category

pub record Icu : Type 0 where
  pub is_white_space : ℕ → Bool
  pub is_digit : ℕ → Bool
  pub is_xdigit : ℕ → Bool
  pub is_print : ℕ → Bool
  -- `U_GET_GC_MASK(ch) & mask`
  pub in_category : ℕ → Category → Bool
  -- `u_digit`: `none` for -1.
  pub digit : ℕ → ℕ → Option ℕ

abbrev pub chr_alarm : ℕ
chr_alarm = 0x07

abbrev pub chr_bksp : ℕ
chr_bksp = 0x08

abbrev pub chr_tab : ℕ
chr_tab = 0x09

abbrev pub chr_linefeed : ℕ
chr_linefeed = 0x0a

abbrev pub chr_vtab : ℕ
chr_vtab = 0x0b

abbrev pub chr_formfeed : ℕ
chr_formfeed = 0x0c

abbrev pub chr_ret : ℕ
chr_ret = 0x0d

abbrev pub chr_esc : ℕ
chr_esc = 0x1b

abbrev pub chr_space : ℕ
chr_space = 0x20

abbrev pub chr_del : ℕ
chr_del = 0x7f

abbrev pub chr_nextline : ℕ
chr_nextline = 0x85

abbrev pub chr_linesep : ℕ
chr_linesep = 0x2028

abbrev pub chr_parasep : ℕ
chr_parasep = 0x2029

abbrev pub chr_dblquot : ℕ
chr_dblquot = 0x22

abbrev pub chr_hash : ℕ
chr_hash = 0x23

abbrev pub chr_semicol : ℕ
chr_semicol = 0x3b

abbrev pub chr_slash : ℕ
chr_slash = 0x5c

abbrev pub chr_bar_ver : ℕ
chr_bar_ver = 0x7c

unfoldable pub chrp_line_ending : ℕ → Bool
chrp_line_ending ch = ch == chr_linefeed || ch == chr_nextline || ch == chr_linesep

-- On the first two units of a text.
unfoldable pub chrp_u_line_ending : ℕ → ℕ → Bool
unfolding chrp_line_ending
chrp_u_line_ending c0 c1 =
    chrp_line_ending c0 || c0 == chr_ret && (c1 == chr_linefeed || c1 == chr_nextline)

unfoldable pub chrp_open_bracket : ℕ → Bool
chrp_open_bracket ch = ch == b'{' || ch == b'(' || ch == b'['

unfoldable pub chrp_close_bracket : ℕ → Bool
chrp_close_bracket ch = ch == b'}' || ch == b')' || ch == b']'

unfoldable pub chrp_bracket : ℕ → Bool
unfolding chrp_open_bracket chrp_close_bracket
chrp_bracket ch = chrp_close_bracket ch || chrp_open_bracket ch

unfoldable pub chrp_letter : ℕ → Bool
chrp_letter ch = leb b'a' ch && leb ch b'z' || leb b'A' ch && leb ch b'Z'

unfoldable pub chrp_spec_initial : ℕ → Bool
chrp_spec_initial ch =
    ch == b'!'
    || ch == b'$'
    || ch == b'%'
    || ch == b'&'
    || ch == b'*'
    || ch == b'/'
    || ch == b':'
    || ch == b'<'
    || ch == b'='
    || ch == b'>'
    || ch == b'?'
    || ch == b'^'
    || ch == b'_'
    || ch == b'~'

unfoldable pub chrp_spec_subsequent : ℕ → Bool
chrp_spec_subsequent ch = ch == b'+' || ch == b'-' || ch == b'.' || ch == b'@'

unfoldable pub chrp_expmarker : ℕ → Bool
chrp_expmarker ch =
    ch == b'e'
    || ch == b'E'
    || ch == b's'
    || ch == b'S'
    || ch == b'd'
    || ch == b'D'
    || ch == b'f'
    || ch == b'F'
    || ch == b'l'
    || ch == b'L'

unfoldable pub chrp_num_precmarker : ℕ → Bool
chrp_num_precmarker ch = ch == b'i' || ch == b'e'

unfoldable pub chrp_num_afterhash : ℕ → Bool
unfolding chrp_num_precmarker
chrp_num_afterhash ch =
    chrp_num_precmarker ch
    || ch == b'D'
    || ch == b'd'
    || ch == b'X'
    || ch == b'x'
    || ch == b'O'
    || ch == b'o'
    || ch == b'B'
    || ch == b'b'

-- `none` is the failed assertion of the default case.
unfoldable pub chr_to_radix : ℕ → Option ℕ
chr_to_radix ch =
    if ch == b'D' || ch == b'd'
    then some 10
    else (if ch == b'X' || ch == b'x'
        then some 16
        else (if ch == b'O' || ch == b'o'
            then some 8
            else (if ch == b'B' || ch == b'b' then some 2 else none)))

-- `none` is -1.
unfoldable pub chr_from_esc : ℕ → Option ℕ
chr_from_esc ch =
    if ch == b'a'
    then some chr_alarm
    else (if ch == b'b'
        then some chr_bksp
        else (if ch == b't'
            then some chr_tab
            else (if ch == b'n'
                then some chr_linefeed
                else (if ch == b'v'
                    then some chr_vtab
                    else (if ch == b'f'
                        then some chr_formfeed
                        else (if ch == b'r'
                            then some chr_ret
                            else (if ch == chr_dblquot
                                then some chr_dblquot
                                else (if ch == chr_slash then some chr_slash else none))))))))

-- The text of the escape sequence; `none` is `NULL`.
unfoldable pub chr_to_esc : ℕ → Option (List ℕ)
chr_to_esc ch =
    if ch == chr_alarm
    then some (chr_slash ∷ b'a' ∷ [])
    else (if ch == chr_bksp
        then some (chr_slash ∷ b'b' ∷ [])
        else (if ch == chr_tab
            then some (chr_slash ∷ b't' ∷ [])
            else (if ch == chr_linefeed
                then some (chr_slash ∷ b'n' ∷ [])
                else (if ch == chr_vtab
                    then some (chr_slash ∷ b'v' ∷ [])
                    else (if ch == chr_formfeed
                        then some (chr_slash ∷ b'f' ∷ [])
                        else (if ch == chr_ret
                            then some (chr_slash ∷ b'r' ∷ [])
                            else (if ch == chr_dblquot
                                then some (chr_slash ∷ chr_dblquot ∷ [])
                                else (if ch == chr_slash
                                    then some (chr_slash ∷ chr_slash ∷ [])
                                    else none))))))))

module _ (icu : Icu) where
  open icu use {is_white_space, is_digit, is_xdigit, in_category}

  unfoldable pub chrp_whitespace : ℕ → Bool
  chrp_whitespace ch =
      is_white_space ch
      || ch == chr_tab
      || ch == chr_vtab
      || ch == chr_linefeed
      || ch == chr_ret
      || ch == chr_nextline

  unfoldable pub chrp_delim : ℕ → Bool
  unfolding chrp_bracket chrp_whitespace
  chrp_delim ch =
      chrp_bracket ch
      || chrp_whitespace ch
      || ch == chr_dblquot
      || ch == chr_semicol
      || ch == chr_hash

  -- `none` is the failed assertion of the default case.
  unfoldable pub chrp_rdigit : ℕ → ℕ → Option Bool
  chrp_rdigit radix ch =
      if radix == 2
      then some (ch == b'0' || ch == b'1')
      else (if radix == 8
          then some (leb b'0' ch && leb ch b'7')
          else (if radix == 10
              then some (is_digit ch)
              else (if radix == 16 then some (is_xdigit ch) else none)))

  unfoldable pub chrp_digit : ℕ → Bool
  chrp_digit ch = is_digit ch

  unfoldable pub chrp_constituent : ℕ → Bool
  unfolding chrp_letter
  chrp_constituent ch =
      chrp_letter ch
      || in_category ch Category.letter
      || in_category ch Category.symbol
      || in_category ch Category.letter_number
      || in_category ch Category.other_number
      || in_category ch Category.dash_punctuation
      || in_category ch Category.connector_punctuation
      || in_category ch Category.other_punctuation
      || in_category ch Category.nonspacing_mark

  unfoldable pub chrp_initial : ℕ → Bool
  unfolding chrp_constituent chrp_spec_initial
  chrp_initial ch = chrp_constituent ch || chrp_spec_initial ch

  unfoldable pub chrp_subsequent : ℕ → Bool
  unfolding chrp_initial chrp_digit chrp_spec_subsequent
  chrp_subsequent ch =
      chrp_initial ch
      || chrp_digit ch
      || chrp_spec_subsequent ch
      || in_category ch Category.decimal_number
      || in_category ch Category.spacing_mark
      || in_category ch Category.enclosing_mark

  unfoldable pub chrp_num_aftersign : ℕ → Bool
  unfolding chrp_digit
  chrp_num_aftersign ch = chrp_digit ch || ch == b'.' || ch == b'n' || ch == b'i'
