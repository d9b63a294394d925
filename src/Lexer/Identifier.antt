-- ===== src/Lexer/Identifier.antt =====
-- What a lexeme is, comments, and identifiers (src/parse.c: `skip_comment_line`,
-- `skip_comment_nested`, `new_id_lex`, `lex_read_identifier`).
use scheme2c.Prelude.{
  ℕ, zero, suc, ◌+◌, ◌-◌, Bool, true, false, not, ◌&&◌, ◌||◌, Option, none, List, ◌==◌,
  if◌then◌else◌, length, get_or, take,
}
use scheme2c.Lexer.State.{
  Unicode, done, out_of_fuel, Scan, pure, ◌>>=◌, ◌>>◌, current, holds, is_char, is_eof, delim,
  chrp_eofdelim, readch, readp, lex_stop, lex_badlex, lex_error,
}
use scheme2c.Chars.{
  chrp_delim, chrp_initial, chrp_subsequent, chrp_line_ending, chr_parasep, chr_hash, chr_bar_ver,
}

-- The descriptor that the lexer returns. `nihil` is the null pointer at the end of the input; a real
-- is its bit pattern; a character is `none` if it is EOF_CHAR; strings and names are code units. The
-- symbol of a name is looked up elsewhere.
pub data Lex : Type 0 where
  nihil : Lex
  spec fixnum real : ℕ → Lex
  char : Option ℕ → Lex
  string ident : List ℕ → Lex

module _ (u : Unicode) where
  abbrev ends_line : Option ℕ → Bool
  ends_line c = is_eof c || holds chrp_line_ending c || is_char chr_parasep c

  -- The loop of `skip_comment_line`, which reads at least one character.
  unfoldable pub comment_line_loop : ℕ → Scan (Unit {0})
  comment_line_loop zero s = out_of_fuel
  comment_line_loop (suc f) s =
      let rest : Scan (Unit {0}) = comment_line_loop f in
      (readch u >>= λ c. if ends_line c then pure tt else rest) s

  unfoldable pub skip_comment_line : ℕ → Scan (Unit {0})
  skip_comment_line f = comment_line_loop f >> readch u >> pure tt

  abbrev opens : (prev cur : Option ℕ) → Bool
  opens prev cur = is_char chr_hash prev && is_char chr_bar_ver cur

  abbrev closes : (prev cur : Option ℕ) → Bool
  closes prev cur = is_char chr_bar_ver prev && is_char chr_hash cur

  -- The loop of `skip_comment_nested`: the number of comments that are open at its end.
  unfoldable pub comment_nested_loop : ℕ → (balance : ℕ) → (prev : Option ℕ) → Scan ℕ
  comment_nested_loop zero balance prev s = out_of_fuel
  comment_nested_loop (suc f) balance prev s =
      let rest : ℕ → Option ℕ → Scan ℕ = comment_nested_loop f in
      let turn : Scan ℕ = readch u >>= λ cur.
      let opened : ℕ = if opens prev cur then balance + 1 else balance in
      if closes prev cur
      then (if opened == 1 then pure 0 else rest (opened - 1) cur)
      else rest opened cur in
      if is_eof s.charcur then done balance s else turn s

  unfoldable pub skip_comment_nested : ℕ → Scan (Unit {0})
  skip_comment_nested f = do
    balance ← comment_nested_loop f 1 none
    readch u
    c ← current
    if is_eof c && not (balance == 0) then lex_error u f lex_stop else pure tt

  -- `new_id_lex`: a delimiter at the end of the buffer does not belong to the name.
  unfoldable pub without_delim : List ℕ → List ℕ
  without_delim text =
      if chrp_delim u.icu (get_or text (length text - 1) 0)
      then take (length text - 1) text
      else text

  unfoldable pub new_id_lex : Scan Lex
  new_id_lex s =
      done (ident (without_delim s.buflex)) (record s { buflex = without_delim s.buflex })

  -- The subsequent characters, up to a delimiter.
  unfoldable pub subsequent_loop : ℕ → Option ℕ → Scan (Unit {0})
  subsequent_loop zero ch s = out_of_fuel
  subsequent_loop (suc f) ch s =
      let rest : Scan (Unit {0}) = readp u >>= λ c. subsequent_loop f c in
      if chrp_eofdelim u ch
      then done tt s
      else (if holds (chrp_subsequent u.icu) ch then rest s else lex_error u f lex_badlex s)

  -- What is not one of the names `+`, `-` and `...`, behind its first character.
  unfoldable pub ordinary_id : ℕ → (checkini : Bool) → Option ℕ → Scan Lex
  ordinary_id f checkini ch =
      if checkini && not (holds (chrp_initial u.icu) ch)
      then lex_error u f lex_badlex
      else (do c ← readp u; subsequent_loop f c; new_id_lex)

  unfoldable pub lex_read_identifier : ℕ → Scan Lex
  lex_read_identifier f = do
    ch ← readp u
    if is_char b'+' ch
        then (readp u >>= λ c. if delim u c then new_id_lex else lex_error u f lex_badlex)
        else (if is_char b'-' ch
            then (readp u >>= λ c.
                if is_char b'>' c
                then ordinary_id f false c
                else (if chrp_eofdelim u c then new_id_lex else lex_error u f lex_badlex))
            else (if is_char b'.' ch
                then (do
                  c ← readp u
                  d ← if is_char b'.' c then readp u else pure c
                  e ← if is_char b'.' c && is_char b'.' d then readp u else pure d
                  if delim u e then new_id_lex else lex_error u f lex_badlex)
                else ordinary_id f true ch))
