-- ===== src/Lexer/Stream.antt =====
-- The lexer in front of the reader: a whole text as lexemes, and a text as a datum. The reader asks for
-- one lexeme after the other; the lexer does not depend on what the reader does with them.
use scheme2c.Prelude.{
  ℕ, zero, suc, ◌+◌, ◌*◌, ◌<◌, ◌≤◌, ◌≡◌, refl, ◌∙◌, Bool, true, false, List, [], ◌∷◌, ◌++◌, map,
  arith, length, ◌==◌, if◌then◌else◌,
}
use scheme2c.Lexer.State.{Unicode, Scanner, Scan, done, out_of_fuel, pure, ◌>>=◌}
use scheme2c.Lexer.Identifier.{Lex, nihil, spec, fixnum, ident}
use scheme2c.Lexer.Number.{Reals}
use scheme2c.Chars.{
  chrp_delim, chrp_whitespace, chrp_bracket, chrp_open_bracket, chrp_close_bracket,
}
use scheme2c.Lexer.Ascii.{Ascii, Ends}
use scheme2c.Lexer.Begin.{space_is_white, facing, Reads}
use scheme2c.Lexer.Signs.{open_ro}
use scheme2c.Lexer.Spelling.{
  Token, sign, integer, name, text, character, Writable, meaning, spell, cost, pars_next_lex-spell,
}
use scheme2c.Lexer.{pars_next_lex, pars_read_lexeme}
use scheme2c.Reader.Syntax.{Datum, Lexeme}
use scheme2c.Reader.Syntax as Syntax
use scheme2c.Reader.State.{Parser}
use scheme2c.Reader.State as Reading
use scheme2c.Reader.{pars_read_datum}
use scheme2c.Reader.Print.{print, Printable}
use scheme2c.Reader.RoundTrip.{pars_read_datum-print}

-- The special values as the reader distinguishes them.
abbrev pub special_lexeme : ℕ → Lexeme
special_lexeme n =
    if n == 20
    then Syntax.open_ro
    else (if n == 21
        then Syntax.close_ro
        else (if n == 22
            then Syntax.open_sq
            else (if n == 23
                then Syntax.close_sq
                else (if n == 24
                    then Syntax.open_vec
                    else (if n == 25
                        then Syntax.open_vu
                        else (if n == 28
                            then Syntax.comment
                            else (if n == 106
                                then Syntax.point
                                else (if n == 107
                                    then Syntax.quote
                                    else (if n == 108
                                        then Syntax.quasi
                                        else (if n == 109
                                            then Syntax.unquote
                                            else (if n == 110
                                                then Syntax.splicing
                                                else Syntax.special n)))))))))))

-- The lexemes as the reader sees them. `symbol_of` is the symbol of a name, and `atom_of` a number for
-- a real, a character or a string, which the reader passes on.
abbrev pub lexeme : (symbol_of : List ℕ → ℕ) → (atom_of : Lex → ℕ) → Lex → Lexeme
lexeme symbol_of atom_of nihil = Syntax.other_spec
lexeme symbol_of atom_of (spec n) = special_lexeme n
lexeme symbol_of atom_of (fixnum w) = Syntax.fixnum w
lexeme symbol_of atom_of (ident units) = Syntax.ident (symbol_of units)
lexeme symbol_of atom_of l = Syntax.atom (atom_of l)

-- Tokens with a space in front of each.
abbrev pub spaced : Unicode → (hex : ℕ → List ℕ) → List Token → List ℕ
spaced u hex [] = []
spaced u hex (t ∷ ts) = 0x20 ∷ (spell u hex t ++ spaced u hex ts)

abbrev pub AllWritable : Unicode → List Token → Type 0
AllWritable u [] = Unit {0}
AllWritable u (t ∷ ts) = Writable u t × AllWritable u ts

abbrev pub costs : List Token → ℕ
costs [] = 0
costs (t ∷ ts) = cost t + costs ts

module _ (u : Unicode) (reals : Reals) (f : ℕ) where
  abbrev or_end : Scan (List Lex) → Lex → Scan (List Lex)
  or_end rest nihil = pure []
  or_end rest l = rest >>= λ ls. pure (l ∷ ls)

  -- All lexemes up to the end of the input.
  unfoldable pub all_lexemes : (count : ℕ) → Scan (List Lex)
  all_lexemes zero s = out_of_fuel
  all_lexemes (suc n) s =
      let rest : Scan (List Lex) = all_lexemes n in
      (pars_next_lex u reals f f >>= λ l. or_end rest l) s

module _ (u : Unicode) (a : Ascii u) (reals : Reals) (hex : ℕ → List ℕ) where
  space_is_delim : chrp_delim u.icu 0x20 ≡ true
  unfolding chrp_delim chrp_whitespace chrp_bracket chrp_open_bracket chrp_close_bracket
  space_is_delim = rw a.blank

  Ends-spaced : (ts : List Token) → Ends u (spaced u hex ts)
  Ends-spaced [] = tt
  Ends-spaced (t ∷ ts) = (space_is_delim, omega arith)

  pars_next_lex-end :
      (f n : ℕ) (b : Scanner)
      → pars_next_lex u reals (suc f) (suc n) (facing b []) ≡ done nihil (facing b [])
  unfolding pars_next_lex pars_read_lexeme
  pars_next_lex-end f n b = refl

  meaning-collect :
      (t : Token) (f : ℕ) (rest : Scan (List Lex))
      → or_end u reals f rest (meaning t) ≡ (rest >>= λ ls. pure (meaning t ∷ ls))
  meaning-collect (sign open_ro) f rest = refl
  meaning-collect (sign _) f rest = refl
  meaning-collect (integer s v vs) f rest = refl
  meaning-collect (name c cs) f rest = refl
  meaning-collect (text cs) f rest = refl
  meaning-collect (character c) f rest = refl

  -- A text of tokens is read as the lexemes that they mean.
  pub all_lexemes-spaced :
      (ts : List Token) (f n : ℕ) (b : Scanner)
      → AllWritable u ts
      → costs ts + 2 < f
      → length ts < n
      → Reads (all_lexemes u reals f n (facing b (spaced u hex ts))) (map meaning ts) b []
  unfolding all_lexemes
  all_lexemes-spaced [] (suc f) (suc n) b w l k = rw (pars_next_lex-end f f b) (b, refl, refl)
  all_lexemes-spaced (t ∷ ts) (suc f) (suc n) b w l k =
      let r =
        pars_next_lex-spell u a reals hex (0x20 ∷ []) t (spaced u hex ts) (suc f) f b
          (space_is_white u a reals, tt) w.0 (Ends-spaced ts) (omega arith) in
      let more = all_lexemes-spaced ts (suc f) n r.0 w.1 (omega arith) (omega arith) in
      rw (r.1, meaning-collect t (suc f), more.1) (more.0, refl, more.2 ∙ r.2)
  all_lexemes-spaced ts zero n b w l k = elim l [ ]
  all_lexemes-spaced ts f zero b w l k = elim k [ ]

  -- Lexer and reader together: if tokens are written with spaces between them, and their lexemes are
  -- those of a printed datum, then the lexer reads them all without an error, and the reader makes
  -- that datum of them, sets no error bit and has no lexeme left.
  pub pars_read_datum-spaced :
      (symbol_of : List ℕ → ℕ) (atom_of : Lex → ℕ) (square : Bool) (d : Datum) (ts : List Token)
      (f g n : ℕ) (b : Scanner) (s : Parser)
      → Printable d
      → AllWritable u ts
      → map (lexeme symbol_of atom_of) (map meaning ts) ≡ print square d []
      → costs ts + 2 < f
      → length ts < n
      → 4 * length (print square d []) ≤ g
      → (end : Scanner) × (all_lexemes u reals f n (facing b (spaced u hex ts))
          ≡ done (map meaning ts) end)
        × (end.err_lex ≡ b.err_lex)
        × (pars_read_datum g (record s { input = map (lexeme symbol_of atom_of) (map meaning ts) })
            ≡ Reading.done d (record { input = []; err_lex = false; err_dat = false }))
  pars_read_datum-spaced symbol_of atom_of square d ts f g n b s p w e l k m =
      let r = all_lexemes-spaced ts f n b w l k in
      (facing r.0 [], r.1, r.2, rw e (pars_read_datum-print square d [] g s p m))
