-- ===== src/Lexer/Text.antt =====
-- Characters and strings (src/parse.c: `lex_read_char`, `lex_read_namedchar`, `lex_read_string`,
-- `new_string_lex`) and how they are printed (`oport_print_char`, and `bin_print_string` of
-- src/ioport.c). The new string has room for the whole lexeme, so its capacity is left out.
use scheme2c.Prelude.{
  ℕ, zero, suc, ◌%◌, ◌^◌, Bool, true, false, not, ◌&&◌, ◌||◌, Option, none, some, List, [], ◌∷◌,
  ◌++◌, ◌==◌, if◌then◌else◌, ltb, length,
}
use scheme2c.Lexer.State.{
  Unicode, done, assertion, out_of_fuel, Scan, pure, skip, ◌>>=◌, ◌>>◌, current, count, is_char,
  is_eof, set_readp_back, chrp_eofdelim, readp, readp_precise_asci, lex_badlex, lex_error,
}
use scheme2c.Chars.{
  chr_from_esc, chr_to_esc, chr_slash, chr_hash, chr_dblquot, chr_semicol, chr_ret, chr_linefeed,
  chr_alarm, chr_bksp, chr_tab, chr_vtab, chr_formfeed, chr_esc, chr_space, chr_del,
}
use scheme2c.Lexer.Names
use scheme2c.Lexer.Identifier.{Lex, char, string}
use scheme2c.Lexer.Number.{lex_read_digits, ss_read_digits}

-- The name that begins with the characters `ch` and `ch1`, and its character.
unfoldable pub named_char : (ch ch1 : Option ℕ) → Option (List ℕ × ℕ)
named_char ch ch1 =
    if is_char b'n' ch
    then (if is_char b'u' ch1
        then some (Names.nul, 0)
        else (if is_char b'e' ch1 then some (Names.newline, chr_linefeed) else none))
    else (if is_char b'a' ch
        then some (Names.alarm, chr_alarm)
        else (if is_char b'b' ch
            then some (Names.backspace, chr_bksp)
            else (if is_char b't' ch
                then some (Names.tab, chr_tab)
                else (if is_char b'l' ch
                    then some (Names.linefeed, chr_linefeed)
                    else (if is_char b'v' ch
                        then some (Names.vtab, chr_vtab)
                        else (if is_char b'p' ch
                            then some (Names.page, chr_formfeed)
                            else (if is_char b'r' ch
                                then some (Names.return, chr_ret)
                                else (if is_char b'e' ch
                                    then some (Names.esc, chr_esc)
                                    else (if is_char b's' ch
                                        then some (Names.space, chr_space)
                                        else (if is_char b'd' ch
                                            then some (Names.delete, chr_del)
                                            else none))))))))))

module _ (u : Unicode) where
  -- The assertions on the characters that led here read them.
  abbrev expect : ℕ → Scan (Unit {0})
  expect c = readp u >>= λ d. if is_char c d then skip else (λ s. assertion)

  unfoldable pub lex_read_namedchar : ℕ → List ℕ → (ch : ℕ) → Scan Lex
  lex_read_namedchar f name ch = do
    r ← readp_precise_asci u name
    c ← current
    if r && chrp_eofdelim u c then pure (char (some ch)) else lex_error u f lex_badlex

  unfoldable pub lex_read_hexchar : ℕ → Scan Lex
  lex_read_hexchar f = do
    set_readp_back 1
    x ← lex_read_digits u f 16
    n ← count
    c ← current
    if n == 0 || not (chrp_eofdelim u c) then lex_error u f lex_badlex else skip
    if u.is_unicode_char x then pure (char (some x)) else lex_error u f lex_badlex

  abbrev named : ℕ → Option (List ℕ × ℕ) → Scan Lex
  named f none = lex_error u f lex_badlex
  named f (some (name, ch)) = lex_read_namedchar f name ch

  -- Behind `#\`.
  unfoldable pub char_body : ℕ → (ch ch1 : Option ℕ) → Scan Lex
  char_body f ch ch1 =
      if chrp_eofdelim u ch1
      then pure (char ch)
      else (if is_char b'x' ch
          then lex_read_hexchar f
          else set_readp_back 2 >> named f (named_char ch ch1))

  unfoldable pub lex_read_char : ℕ → Scan Lex
  lex_read_char f = do
    expect chr_hash
    expect chr_slash
    ch ← readp u
    ch1 ← readp u
    char_body f ch ch1

  -- The loop of `lex_read_string`: whether the string is closed.
  unfoldable pub quote_loop : ℕ → (prev : Option ℕ) → Scan Bool
  quote_loop zero prev s = out_of_fuel
  quote_loop (suc f) prev s =
      let rest : Option ℕ → Scan Bool = quote_loop f in
      let turn : Scan Bool = readp u >>= λ ch.
      if is_char chr_dblquot ch && not (is_char chr_slash prev)
      then pure true
      else rest (if is_char chr_slash ch && is_char chr_slash prev then some chr_dblquot else ch) in
      if is_eof s.charcur then done false s else turn s

  -- `next i` is the character at `i` and the index behind it. `again` is the next turn of the loop
  -- of `new_string_lex`, at a character and the index behind it, with the text so far.
  module _ (f : ℕ) (text : List ℕ) (again : ℕ × ℕ → List ℕ → Scan (List ℕ)) where
    abbrev next : ℕ → ℕ × ℕ
    next i = u.next_char text i

    abbrev bad {ℓ} : {A : Type ℓ} → Scan A
    bad = lex_error u f lex_badlex

    unfoldable pub hex_escape : (out : List ℕ) → Option (ℕ × ℕ) → (from : ℕ) → Scan (List ℕ)
    hex_escape out none from s = out_of_fuel
    hex_escape out (some (end, n)) from s =
        (if end == from
            then bad
            else (if not ((next end).0 == chr_semicol)
                then bad
                else (if u.is_unicode_char (n % 2 ^ 32)
                    then again (next (next end).1) (out ++ u.utf16 (n % 2 ^ 32))
                    else bad)))
          s

    abbrev escaped : List ℕ → Option ℕ → ℕ → Scan (List ℕ)
    escaped out none i = bad
    escaped out (some x) i = again (next i) (out ++ u.utf16 x)

    -- Behind a backslash: `e` is the character there, and `i` the index behind it.
    unfoldable pub string_escape : (out : List ℕ) → ℕ × ℕ → Scan (List ℕ)
    string_escape out (e, i) =
        if e == b'x'
        then hex_escape out (ss_read_digits u f text 16 i 0) i
        else (if e == chr_ret
            then again (if (next i).0 == chr_linefeed then next (next i).1 else next i) out
            else (if e == chr_linefeed then again (next i) out else escaped out (chr_from_esc e) i))

    -- One turn, at the character `c` and the index `i` behind it.
    unfoldable pub string_turn : (out : List ℕ) → ℕ × ℕ → Scan (List ℕ)
    string_turn out (c, i) =
        if c == chr_ret
        then (if (next i).0 == chr_linefeed
            then again (next (next i).1) (out ++ u.utf16 chr_linefeed)
            else again (next i) (out ++ u.utf16 chr_ret))
        else (if c == chr_slash
            then string_escape out (next i)
            else (if c == chr_dblquot then pure out else again (next i) (out ++ u.utf16 c)))

  unfoldable pub string_loop : ℕ → List ℕ → ℕ × ℕ → (out : List ℕ) → Scan (List ℕ)
  string_loop zero text at out s = out_of_fuel
  string_loop (suc f) text at out s =
      let turn : Scan (List ℕ) = string_turn f text (string_loop f text) out at in
      if ltb at.1 (length text) then turn s else done out s

  unfoldable pub new_string_lex : ℕ → Scan Lex
  new_string_lex f s =
      (string_loop f s.buflex (u.next_char s.buflex 1) [] >>= λ text. pure (string text)) s

  unfoldable pub lex_read_string : ℕ → Scan Lex
  lex_read_string f = do
    expect chr_dblquot
    closed ← quote_loop f (some chr_dblquot)
    if closed then skip else lex_error u f lex_badlex
    readp u
    new_string_lex f

-- The names that `oport_print_char` writes, in the order of its cases.
abbrev pub char_names : List (ℕ × List ℕ)
char_names =
    (0, Names.nul)
    ∷ (chr_linefeed, Names.newline)
    ∷ (chr_alarm, Names.alarm)
    ∷ (chr_bksp, Names.backspace)
    ∷ (chr_tab, Names.tab)
    ∷ (chr_vtab, Names.vtab)
    ∷ (chr_formfeed, Names.page)
    ∷ (chr_ret, Names.return)
    ∷ (chr_esc, Names.esc)
    ∷ (chr_space, Names.space)
    ∷ (chr_del, Names.delete)
    ∷ []

abbrev pub find_name : ℕ → List (ℕ × List ℕ) → Option (List ℕ)
find_name ch [] = none
find_name ch ((c, name) ∷ rows) = if ch == c then some name else find_name ch rows

-- Printing. `hex` is the library's hexadecimal notation; the port takes code points.
module _ (icu_print : ℕ → Bool) (hex : ℕ → List ℕ) where
  abbrev pub name_or_hex : ℕ → Option (List ℕ) → List ℕ
  name_or_hex ch (some name) = name
  name_or_hex ch none = if icu_print ch then ch ∷ [] else hex ch

  unfoldable pub oport_print_char : ℕ → List ℕ
  oport_print_char ch = chr_hash ∷ chr_slash ∷ name_or_hex ch (find_name ch char_names)

  abbrev pub escape_or_char : ℕ → Option (List ℕ) → List ℕ
  escape_or_char ch (some esc) = esc
  escape_or_char ch none = if icu_print ch then ch ∷ [] else chr_slash ∷ b'x' ∷ hex ch

  unfoldable pub print_chars : List ℕ → List ℕ
  print_chars [] = []
  print_chars (c ∷ cs) = escape_or_char c (chr_to_esc c) ++ print_chars cs

  -- `bin_print_string`, on the characters of the string.
  unfoldable pub bin_print_string : List ℕ → List ℕ
  bin_print_string text = chr_dblquot ∷ print_chars text ++ (chr_dblquot ∷ [])
