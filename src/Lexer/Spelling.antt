-- ===== src/Lexer/Spelling.antt =====
-- Lexemes as they are written, and that the lexer reads them.
use mathlib.Core.List.{append_assoc}
use scheme2c.Prelude.{
  ℕ, zero, suc, ◌+◌, ◌<◌, ◌≡◌, refl, Bool, true, false, Option, none, some, List, [], ◌∷◌, ◌++◌,
  arith, length, ◌==◌,
}
use scheme2c.Chars.{
  chrp_whitespace, chrp_digit, chrp_delim, chrp_bracket, chrp_open_bracket, chrp_close_bracket,
  chrp_num_aftersign, chrp_num_afterhash, chrp_num_precmarker, chr_hash, chr_slash, chr_dblquot,
}
use scheme2c.Lexer.State.{Unicode, Scanner, Scan}
use scheme2c.Lexer.Identifier.{Lex, fixnum, ident, string, char}
use scheme2c.Lexer.Number.{Reals}
use scheme2c.Lexer.Cursor.{cursor, stopped}
use scheme2c.Lexer.Ascii.{Ascii, Ends, Ends-head}
use scheme2c.Lexer.Decimal.{decimals, Below10, sign_text, decimal_fixnum, lex_read_number-decimal}
use scheme2c.Lexer.Digits.{chars}
use scheme2c.Lexer.Identifiers.{Initial, Subsequent, lex_read_identifier-name}
use scheme2c.Lexer.Text.{
  print_chars, bin_print_string, oport_print_char, name_or_hex, find_name, char_names,
}
use scheme2c.Lexer.Literals.{AllPrintable, lex_read_string-bin_print_string}
use scheme2c.Lexer.CharNames.{Shown, lex_read_char-oport_print_char}
use scheme2c.Lexer.Begin.{facing, Reads, pars_read_lexeme-after, AllWhite, readch-second}
use scheme2c.Lexer.Signs.{
  Sign, open_ro, first, others, symbol, lexeme_at-sign, no_digit_below, no_white,
}
use scheme2c.Lexer.{lexeme_at, lexeme_other, hash_lexeme, pars_read_lexeme, pars_next_lex}

-- An integer has a first digit and others; a name a first character and others.
pub data Token : Type 0 where
  sign : Sign → Token
  integer : Option Bool → ℕ → List ℕ → Token
  name : ℕ → List ℕ → Token
  text : List ℕ → Token
  character : ℕ → Token

abbrev pub meaning : Token → Lex
meaning (sign s) = symbol s
meaning (integer s v vs) = fixnum (decimal_fixnum s (v ∷ vs))
meaning (name c cs) = ident (c ∷ cs)
meaning (text cs) = string cs
meaning (character c) = char (some c)

-- A character that begins an ordinary name, and nothing else.
pub record NameStart (u : Unicode) (c : ℕ) : Type 0 where
  pub initial : Initial u c
  pub no_digit : chrp_digit u.icu c ≡ false
  pub no_quote : (c == b'\'') ≡ false
  pub no_quasi : (c == b'`') ≡ false
  pub no_comma : (c == b',') ≡ false

-- The tokens that can be written.
abbrev pub Writable : Unicode → Token → Type 0
Writable u (sign s) = Unit {0}
Writable u (integer s v vs) = Below10 (v ∷ vs)
Writable u (name c cs) = NameStart u c × Subsequent u cs
Writable u (text cs) = AllPrintable u.icu.is_print cs
Writable u (character c) = Shown u.icu.is_print c

-- `hex` is what the C library prints for a number in hexadecimal notation.
abbrev pub spell : Unicode → (hex : ℕ → List ℕ) → Token → List ℕ
spell u hex (sign s) = first s ∷ others s
spell u hex (integer s v vs) = sign_text s ++ ((b'0' + v) ∷ chars (decimals vs))
spell u hex (name c cs) = c ∷ cs
spell u hex (text cs) = bin_print_string u.icu.is_print hex cs
spell u hex (character c) = oport_print_char u.icu.is_print hex c

-- Fuel for the loops within a token.
abbrev pub cost : Token → ℕ
cost (sign s) = 0
cost (integer s v vs) = length vs + 1
cost (name c cs) = length cs
cost (text cs) = length cs + length cs
cost (character c) = 0

abbrev sign_char : Bool → ℕ
sign_char false = b'+'
sign_char true = b'-'

first_graphic : (s : Sign) → (0x20 < first s) × (first s < 0x7f)
first_graphic open_ro = omega arith
first_graphic _ = omega arith

module _ (u : Unicode) where
  -- What is no delimiter is none of these characters.
  no_delim_tests :
      (c : ℕ)
      → chrp_delim u.icu c ≡ false
      → ((c == b'(') ≡ false)
        × ((c == b')') ≡ false)
        × ((c == b'[') ≡ false)
        × ((c == b']') ≡ false)
        × ((c == b'{') ≡ false)
        × ((c == b'}') ≡ false)
        × ((c == b'"') ≡ false)
        × ((c == b';') ≡ false)
        × ((c == b'#') ≡ false)
        × (chrp_whitespace u.icu c ≡ false)
  unfolding chrp_delim chrp_bracket chrp_open_bracket chrp_close_bracket
  no_delim_tests c h = (
    ground arith,
    ground arith,
    ground arith,
    ground arith,
    ground arith,
    ground arith,
    ground arith,
    ground arith,
    ground arith,
    ground arith,
  )

module _ (u : Unicode) (a : Ascii u) (reals : Reals) (hex : ℕ → List ℕ) where
  module _ (f : ℕ) (start : Scan Lex) (b : Scanner) (rest : List ℕ) (ends : Ends u rest) where
    lexeme_at-name :
        (c : ℕ) (cs : List ℕ)
        → NameStart u c
        → Subsequent u cs
        → length cs < f
        → Reads
            (lexeme_at u reals f start c (cursor b (some c) [] (c ∷ []) (cs ++ rest)))
            (ident (c ∷ cs))
            b
            rest
    unfolding lexeme_at lexeme_other
    lexeme_at-name c cs n p l =
        let i = n.initial in
        let t = no_delim_tests u c i.no_delim in
        rw
          (
            n.no_digit,
            i.no_plus,
            i.no_minus,
            i.no_point,
            t.7,
            t.0,
            t.1,
            t.2,
            t.3,
            t.4,
            t.5,
            t.6,
            n.no_quote,
            n.no_quasi,
            n.no_comma,
            t.8,
            i.initial,
            lex_read_identifier-name u a c cs rest i p ends f l b (some c),
          )
          (record (stopped b (c ∷ cs) rest) { buflex = c ∷ cs }, refl, refl)

    lexeme_at-integer :
        (v : ℕ) (vs : List ℕ)
        → Below10 (v ∷ vs)
        → length vs + 1 < f
        → Reads
            (lexeme_at u reals f start
              (b'0' + v)
              (cursor b (some (b'0' + v)) [] ((b'0' + v) ∷ []) (chars (decimals vs) ++ rest)))
            (fixnum (decimal_fixnum none (v ∷ vs)))
            b
            rest
    unfolding lexeme_at chrp_digit
    lexeme_at-integer v vs small l =
        rw
          (
            a.is_digits v small.0,
            lex_read_number-decimal u a reals none v vs rest small ends f l b (some (b'0' + v)),
          )
          (
            stopped (record b { charcount = suc (length (decimals vs)) })
                (chars (decimals (v ∷ vs))) rest,
            refl,
            refl,
          )

    lexeme_at-signed :
        (negative : Bool) (v : ℕ) (vs : List ℕ)
        → Below10 (v ∷ vs)
        → length vs + 1 < f
        → Reads
            (lexeme_at u reals f start (sign_char negative) (
              cursor b
                (some (sign_char negative))
                []
                (sign_char negative ∷ [])
                ((b'0' + v) ∷ chars (decimals vs) ++ rest)))
            (fixnum (decimal_fixnum (some negative) (v ∷ vs)))
            b
            rest
    unfolding lexeme_at chrp_num_aftersign chrp_digit
    lexeme_at-signed false v vs small l =
        rw
          (
            no_digit_below u a reals b'+' (omega arith) (omega arith),
            readch-second u a reals b'+' (b'0' + v) (chars (decimals vs) ++ rest) b (omega arith),
            a.is_digits v small.0,
            lex_read_number-decimal u a reals (some false) v vs rest small ends f l b
                (some (b'0' + v)),
          )
          (
            stopped (record b { charcount = suc (length (decimals vs)) })
                (b'+' ∷ chars (decimals (v ∷ vs))) rest,
            refl,
            refl,
          )
    lexeme_at-signed true v vs small l =
        rw
          (
            no_digit_below u a reals b'-' (omega arith) (omega arith),
            readch-second u a reals b'-' (b'0' + v) (chars (decimals vs) ++ rest) b (omega arith),
            a.is_digits v small.0,
            lex_read_number-decimal u a reals (some true) v vs rest small ends f l b
                (some (b'0' + v)),
          )
          (
            stopped (record b { charcount = suc (length (decimals vs)) })
                (b'-' ∷ chars (decimals (v ∷ vs))) rest,
            refl,
            refl,
          )

    lexeme_at-text :
        (cs : List ℕ)
        → AllPrintable u.icu.is_print cs
        → length cs + length cs < f
        → Reads
            (lexeme_at u reals f start chr_dblquot (
              cursor b
                (some chr_dblquot)
                []
                (chr_dblquot ∷ [])
                (print_chars u.icu.is_print hex cs ++ (chr_dblquot ∷ rest))))
            (string cs)
            b
            rest
    unfolding lexeme_at lexeme_other
    lexeme_at-text cs p l =
        rw
          (
            no_digit_below u a reals chr_dblquot (omega arith) (omega arith),
            lex_read_string-bin_print_string u a u.icu.is_print hex cs rest p
                (Ends-head u rest ends) f l b chr_dblquot,
          )
          (
            stopped b
                (((chr_dblquot ∷ []) ++ print_chars u.icu.is_print hex cs) ++ (chr_dblquot ∷ []))
                rest,
            refl,
            refl,
          )

    lexeme_at-character :
        (c : ℕ)
        → Shown u.icu.is_print c
        → Reads
            (lexeme_at u reals f start chr_hash (
              cursor b
                (some chr_hash)
                []
                (chr_hash ∷ [])
                (chr_slash ∷ name_or_hex u.icu.is_print hex c (find_name c char_names) ++ rest)))
            (char (some c))
            b
            rest
    unfolding lexeme_at lexeme_other hash_lexeme chrp_num_afterhash chrp_num_precmarker
    lexeme_at-character c p =
        let shown = name_or_hex u.icu.is_print hex c (find_name c char_names) in
        rw
          (
            no_digit_below u a reals chr_hash (omega arith) (omega arith),
            readch-second u a reals chr_hash chr_slash (shown ++ rest) b (omega arith),
            no_white u a reals chr_slash (omega arith) (omega arith),
            lex_read_char-oport_print_char u a u.icu.is_print hex c rest p ends f b
                (some chr_slash),
          )
          (stopped b ((chr_hash ∷ chr_slash ∷ []) ++ shown) rest, refl, refl)

  -- Each token is read at its first character.
  pars_read_lexeme-spell :
      (ws : List ℕ) (t : Token) (rest : List ℕ) (f n : ℕ) (b : Scanner)
      → AllWhite u ws
      → Writable u t
      → Ends u rest
      → length ws < f
      → cost t < f
      → Reads
          (pars_read_lexeme u reals f (suc n) (facing b (ws ++ (spell u hex t ++ rest))))
          (meaning t)
          b
          rest
  unfolding bin_print_string oport_print_char
  pars_read_lexeme-spell ws (sign s) rest f n b h w e k l =
      let bounds = first_graphic s in
      rw
        (pars_read_lexeme-after u a reals ws (first s) (others s ++ rest) f n b h (omega arith)
          (no_white u a reals (first s) bounds.0 bounds.1) k)
        (lexeme_at-sign u a reals f (pars_read_lexeme u reals f n) b rest e s)
  pars_read_lexeme-spell ws (integer none v vs) rest f n b h w e k l =
      rw
        (pars_read_lexeme-after u a reals ws (b'0' + v) (chars (decimals vs) ++ rest) f n b h
          (omega arith) (no_white u a reals (b'0' + v) (omega arith) (omega arith)) k)
        (lexeme_at-integer f (pars_read_lexeme u reals f n) b rest e v vs w l)
  pars_read_lexeme-spell ws (integer (some false) v vs) rest f n b h w e k l =
      rw
        (pars_read_lexeme-after u a reals ws b'+' ((b'0' + v) ∷ chars (decimals vs) ++ rest) f n b h
          (omega arith) (no_white u a reals b'+' (omega arith) (omega arith)) k)
        (lexeme_at-signed f (pars_read_lexeme u reals f n) b rest e false v vs w l)
  pars_read_lexeme-spell ws (integer (some true) v vs) rest f n b h w e k l =
      rw
        (pars_read_lexeme-after u a reals ws b'-' ((b'0' + v) ∷ chars (decimals vs) ++ rest) f n b h
          (omega arith) (no_white u a reals b'-' (omega arith) (omega arith)) k)
        (lexeme_at-signed f (pars_read_lexeme u reals f n) b rest e true v vs w l)
  pars_read_lexeme-spell ws (name c cs) rest f n b h w e k l =
      let i = w.0.initial in
      rw
        (pars_read_lexeme-after u a reals ws c (cs ++ rest) f n b h i.one_unit
          (no_delim_tests u c i.no_delim).9 k)
        (lexeme_at-name f (pars_read_lexeme u reals f n) b rest e c cs w.0 w.1 l)
  pars_read_lexeme-spell ws (text cs) rest f n b h w e k l =
      let shown = print_chars u.icu.is_print hex cs in
      rw
        (
          append_assoc shown (chr_dblquot ∷ []) rest,
          pars_read_lexeme-after u a reals ws chr_dblquot (shown ++ (chr_dblquot ∷ rest)) f n b h
              (omega arith) (no_white u a reals chr_dblquot (omega arith) (omega arith)) k,
        )
        (lexeme_at-text f (pars_read_lexeme u reals f n) b rest e cs w l)
  pars_read_lexeme-spell ws (character c) rest f n b h w e k l =
      let shown = name_or_hex u.icu.is_print hex c (find_name c char_names) in
      rw
        (pars_read_lexeme-after u a reals ws chr_hash (chr_slash ∷ shown ++ rest) f n b h
          (omega arith) (no_white u a reals chr_hash (omega arith) (omega arith)) k)
        (lexeme_at-character f (pars_read_lexeme u reals f n) b rest e c w)

  pub pars_next_lex-spell :
      (ws : List ℕ) (t : Token) (rest : List ℕ) (f n : ℕ) (b : Scanner)
      → AllWhite u ws
      → Writable u t
      → Ends u rest
      → length ws + cost t < f
      → Reads
          (pars_next_lex u reals f (suc n) (facing b (ws ++ (spell u hex t ++ rest))))
          (meaning t)
          b
          rest
  unfolding pars_next_lex
  pars_next_lex-spell ws t rest (suc f) n b h w e l =
      let r = pars_read_lexeme-spell ws t rest (suc f) f b h w e (omega arith) (omega arith) in
      rw (pars_next_lex, r.1) (r.0, refl, r.2)
  pars_next_lex-spell ws t rest zero n b h w e l = elim l [ ]
