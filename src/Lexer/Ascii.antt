-- ===== src/Lexer/Ascii.antt =====
-- What is relied on of the Unicode library at ASCII characters, and what follows for the classes.
use scheme2c.Prelude.{
  ℕ, ◌+◌, ◌<◌, ◌≡◌, refl, Bool-cases, inl, inr, Bool, true, false, ◌||◌, none, some, List, [], ◌∷◌,
  arith, ◌==◌,
}
use scheme2c.Chars.{chrp_delim, chrp_expmarker}
use scheme2c.Lexer.State.{Unicode, OneUnit, holds, is_char, chrp_eofdelim}
use scheme2c.Lexer.Cursor.{head, HeadIsUnit}

-- Graphic characters are no white space, `0` to `9` are decimal digits with their values, and no
-- delimiter is a decimal digit.
pub record Ascii (u : Unicode) : Type 0 where
  pub one : OneUnit u
  pub graphic : (c : ℕ) → 0x20 < c → c < 0x7f → u.icu.is_white_space c ≡ false
  pub blank : u.icu.is_white_space 0x20 ≡ true
  pub digits : (v : ℕ) → v < 10 → u.icu.digit (b'0' + v) 10 ≡ some v
  pub is_digits : (v : ℕ) → v < 10 → u.icu.is_digit (b'0' + v) ≡ true
  pub no_digits : (c : ℕ) → 0x20 < c → c < 0x7f → (c < b'0') → u.icu.is_digit c ≡ false
  pub no_letters : (c : ℕ) → b'9' < c → c < 0x7f → u.icu.is_digit c ≡ false
  pub delimiters : (c : ℕ) → chrp_delim u.icu c ≡ true → u.icu.digit c 10 ≡ none

-- A text that ends a lexeme: it is empty or begins with a delimiter.
abbrev pub Ends : Unicode → List ℕ → Type 0
Ends u [] = Unit {0}
Ends u (c ∷ cs) = (chrp_delim u.icu c ≡ true) × (c < 0xd800)

pub Ends-head : (u : Unicode) (rest : List ℕ) → Ends u rest → HeadIsUnit rest
Ends-head u [] e = tt
Ends-head u (c ∷ cs) e = e.1

pub Ends-eofdelim : (u : Unicode) (rest : List ℕ) → Ends u rest → chrp_eofdelim u (head rest) ≡ true
unfolding chrp_eofdelim
Ends-eofdelim u [] e = refl
Ends-eofdelim u (c ∷ cs) e = e.0

-- The graphic characters that are delimiters: brackets, and the three signs.
abbrev pub is_punctuation : ℕ → Bool
is_punctuation c =
    c == b'('
    || c == b')'
    || c == b'['
    || c == b']'
    || c == b'{'
    || c == b'}'
    || c == b'"'
    || c == b';'
    || c == b'#'

pub delim_graphic :
    {u : Unicode} (a : Ascii u) (c : ℕ)
    → 0x20 < c
    → c < 0x7f
    → is_punctuation c ≡ false
    → chrp_delim u.icu c ≡ false
unfolding chrp_delim
delim_graphic a c l h p = ground (arith, a.graphic c l h)

-- So a character behind a lexeme is none of those that the lexer looks for there.
pub Ends-is_char :
    {u : Unicode} (a : Ascii u) (rest : List ℕ) (c : ℕ)
    → Ends u rest
    → 0x20 < c
    → c < 0x7f
    → is_punctuation c ≡ false
    → is_char c (head rest) ≡ false
Ends-is_char a [] c e l h p = refl
Ends-is_char a (d ∷ ds) c e l h p = ground (arith, delim_graphic a c l h p)

-- An exponent marker is a letter.
letter : {u : Unicode} (a : Ascii u) (d : ℕ) → chrp_expmarker d ≡ true → chrp_delim u.icu d ≡ false
unfolding chrp_expmarker
letter a d m = delim_graphic a d (ground arith) (ground arith) (ground arith)

false_ne_true : (u : Unicode) (d : ℕ) → chrp_delim u.icu d ≡ false → chrp_delim u.icu d ≡ true → ⊥
false_ne_true u d e f = cc

pub Ends-expmarker :
    {u : Unicode} (a : Ascii u) (rest : List ℕ)
    → Ends u rest
    → holds chrp_expmarker (head rest) ≡ false
Ends-expmarker a [] e = refl
Ends-expmarker {u} a (d ∷ ds) e = elim (Bool-cases (chrp_expmarker d)) [
  | inr no_marker ↦ no_marker
  | inl marker ↦ absurd (false_ne_true u d (letter a d marker) e.0)
]
