-- ===== src/Lexer.antt =====
-- The lexer of src/parse.c: `pars_read_lexeme` and `pars_next_lex`.
pub mod State
pub mod Identifier
pub mod Number
pub mod Names
pub mod Symb
pub mod Text
pub mod Cursor
pub mod Digits
pub mod Ascii
pub mod Decimal
pub mod Identifiers
pub mod Literals
pub mod CharNames
pub mod Begin
pub mod Signs
pub mod Spelling
pub mod Stream
pub mod Comments
pub mod Skipping
pub mod EndOfInput
use scheme2c.Prelude.{
  ℕ, zero, suc, ◌+◌, ◌-◌, ◌*◌, ◌%◌, ◌^◌, ◌≤◌, ◌<◌, ◌≡◌, Bool, true, false, not, ◌&&◌, ◌||◌, Option,
  none, some, List, [], ◌∷◌, ◌++◌, ◌==◌, if◌then◌else◌, leb, ltb, length, get_elem?, get_or, take,
}
use scheme2c.Lexer.State.{
  Unicode, Scanner, Outcome, done, thrown, assertion, out_of_fuel, Scan, pure, skip, ◌>>=◌, ◌>>◌,
  current, count, holds, is_char, is_eof, set_bufread, set_readp_ix, set_readp_back, delim,
  chrp_eofdelim, readch, readp, readch_first_notwhsp, readch_precise_asci, readp_precise_asci,
  lex_stop, lex_badlex, lex_error,
}
use scheme2c.Chars.{
  chrp_digit, chrp_num_aftersign, chrp_num_afterhash, chrp_whitespace, chrp_initial, chr_semicol,
  chr_dblquot, chr_hash, chr_slash, chr_bar_ver,
}
use scheme2c.Lexer.Identifier.{
  Lex, nihil, spec, skip_comment_line, skip_comment_nested, lex_read_identifier,
}
use scheme2c.Lexer.Number.{Reals, lex_read_number}
use scheme2c.Lexer.Symb
use scheme2c.Lexer.Text.{lex_read_char, lex_read_string}

module _ (u : Unicode) (reals : Reals) where
  -- `readch(vm, pr); return ...`
  abbrev sign : Lex → Scan Lex
  sign l = readch u >> pure l

  abbrev number_or_id : ℕ → Scan Lex
  number_or_id f = readch u >>= λ c.
      if holds (chrp_num_aftersign u.icu) c
      then lex_read_number u reals f
      else lex_read_identifier u f

  abbrev after_point : ℕ → Scan Lex
  after_point f = readch u >>= λ c.
      if chrp_eofdelim u c
      then pure Symb.point
      else (if holds (chrp_digit u.icu) c
          then lex_read_number u reals f
          else lex_read_identifier u f)

  abbrev after_unquote : Scan Lex
  after_unquote = readch u >>= λ c. if is_char b'@' c then sign Symb.splicing else pure Symb.unquote

  abbrev bad : ℕ → Scan Lex
  bad f = lex_error u f lex_badlex

  abbrev vu8 : ℕ → Scan Lex
  vu8 f = readch_precise_asci u (b'u' ∷ b'8' ∷ b'(' ∷ []) >>= λ r.
      if r then sign Symb.open_vu else bad f

  -- Behind `#`; `start` reads the lexeme behind a comment.
  unfoldable pub hash_lexeme : ℕ → (start : Scan Lex) → Option ℕ → Scan Lex
  hash_lexeme f start c =
      if holds (chrp_whitespace u.icu) c
      then bad f
      else (if holds chrp_num_afterhash c
          then lex_read_number u reals f
          else (if is_char b'\'' c || is_char b'`' c || is_char b',' c
              then readch u >> bad f
              else (if is_char b'(' c
                  then sign Symb.open_vec
                  else (if is_char b'v' c
                      then vu8 f
                      else (if is_char b't' c || is_char b'T' c
                          then sign Symb.truth
                          else (if is_char b'f' c || is_char b'F' c
                              then sign Symb.falsity
                              else (if is_char chr_slash c
                                  then lex_read_char u f
                                  else (if is_char chr_bar_ver c
                                      then set_bufread false >> skip_comment_nested u f >> start
                                      else (if is_char chr_semicol c
                                          then sign Symb.comment
                                          else readch u >> bad f)))))))))

  -- The rest of the characters that a lexeme can begin with.
  unfoldable pub lexeme_other : ℕ → (start : Scan Lex) → ℕ → Scan Lex
  lexeme_other f start c =
      if c == b'{' || c == b'}'
      then readch u >> lex_error u f lex_stop
      else (if c == chr_dblquot
          then lex_read_string u f
          else (if c == b'\''
              then sign Symb.quote
              else (if c == b'`'
                  then sign Symb.quasi
                  else (if c == b','
                      then after_unquote
                      else (if c == chr_hash
                          then (readch u >>= λ d. hash_lexeme f start d)
                          else (if chrp_initial u.icu c
                              then lex_read_identifier u f
                              else readch u >> bad f))))))

  -- The lexeme that begins with the character `c`.
  unfoldable pub lexeme_at : ℕ → (start : Scan Lex) → ℕ → Scan Lex
  lexeme_at f start c =
      if chrp_digit u.icu c
      then lex_read_number u reals f
      else (if c == b'+' || c == b'-'
          then number_or_id f
          else (if c == b'.'
              then after_point f
              else (if c == chr_semicol
                  then set_bufread false >> skip_comment_line u f >> start
                  else (if c == b'('
                      then sign Symb.open_ro
                      else (if c == b')'
                          then sign Symb.close_ro
                          else (if c == b'['
                              then sign Symb.open_sq
                              else (if c == b']'
                                  then sign Symb.close_sq
                                  else lexeme_other f start c)))))))

  -- `ss_clear` on the buffer, and `ss_add` of the current character.
  abbrev clear_buffer : Scan (Unit {0})
  clear_buffer s = done tt (record s { buflex = []; bufread = false })

  abbrev first_char : ℕ → Scan (Unit {0})
  first_char c s =
      done tt
        (record s { buflex = s.buflex ++ u.utf16 c; bufread = true; lexprefix = true; ixpref = 0 })

  abbrev begin : ℕ → Scan Lex → Option ℕ → Scan Lex
  begin f start none = pure nihil
  begin f start (some c) = first_char c >> lexeme_at f start c

  -- `f` is the fuel of the loops; a comment takes one more.
  unfoldable pub pars_read_lexeme : (f comments : ℕ) → Scan Lex
  pars_read_lexeme f zero s = out_of_fuel
  pars_read_lexeme f (suc n) s =
      let start : Scan Lex = pars_read_lexeme f n in
      let read : Scan Lex =
        clear_buffer >> readch_first_notwhsp u f >> current >>= λ c. begin f start c in
      if is_eof s.charcur then done nihil s else read s

  -- A bad lexeme is skipped: the exception is caught, and the next lexeme is read.
  unfoldable pub pars_next_lex : (f retries : ℕ) → Scan Lex
  pars_next_lex f zero s = out_of_fuel
  pars_next_lex f (suc n) s =
      let retry : Scan Lex = pars_next_lex f n in
      elim (pars_read_lexeme f f s) [
        | done l s' ↦ done l s'
        | thrown e s' ↦ if e == lex_badlex then retry s' else thrown e s'
        | assertion ↦ assertion
        | out_of_fuel ↦ out_of_fuel
      ]

-- `new_parser`, on the text of a port. The current character is a space.
unfoldable pub new_parser : List ℕ → Scanner
new_parser text = record {
  charcur = some b' ';
  port = text;
  buflex = [];
  ixpref = 0;
  charcount = 0;
  bufread = false;
  lexprefix = false;
  always_fatal = false;
  err_lex = false;
}
