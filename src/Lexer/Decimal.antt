-- ===== src/Lexer/Decimal.antt =====
-- Decimal integers: what `lex_read_number` makes of digits with or without a sign.
use mathlib.Core.List.{append-nil}
use scheme2c.Prelude.{
  ℕ, suc, ◌+◌, ◌%◌, ◌<◌, ◌≡◌, refl, ap, Bool, true, false, Option, none, some, List, [], ◌∷◌, ◌++◌,
  arith, length, ◌==◌, ◌⊎◌, inl, inr, if◌then◌else◌,
}
use scheme2c.Prelude.Word
use scheme2c.Builtins.Num.{wrap_fixnum}
use scheme2c.Lexer.State.{Unicode, Scanner, done, set_readp_ix}
use scheme2c.Lexer.Identifier.{fixnum}
use scheme2c.Lexer.Number.{
  Reals, whole, number_mantissa, number_exponent, number_value, number_body, number_prefix,
  number_sign, lex_read_number,
}
use scheme2c.Lexer.Cursor.{cursor, stopped, readp-reread, length-append_one, suc-sub-one}
use scheme2c.Lexer.Digits.{Digits, NoDigit, chars, numeral, lex_read_digits-reread}
use scheme2c.Lexer.Ascii.{Ascii, Ends, Ends-eofdelim, Ends-is_char, Ends-expmarker}

-- The digits of the values `vs`.
abbrev pub decimals : List ℕ → List (ℕ × ℕ)
decimals [] = []
decimals (v ∷ vs) = (b'0' + v, v) ∷ decimals vs

abbrev pub Below10 : List ℕ → Type 0
Below10 [] = Unit {0}
Below10 (v ∷ vs) = (v < 10) × Below10 vs

pub length-decimals : (vs : List ℕ) → length (decimals vs) ≡ length vs
length-decimals [] = refl
length-decimals (v ∷ vs) = ap suc (length-decimals vs)

module _ {u : Unicode} (a : Ascii u) where
  Digits-decimals : (vs : List ℕ) → Below10 vs → Digits u 10 (decimals vs)
  Digits-decimals [] b = tt
  Digits-decimals (v ∷ vs) b = (a.digits v b.0, omega arith, Digits-decimals vs b.1)

  NoDigit-Ends : (rest : List ℕ) → Ends u rest → NoDigit u 10 rest
  NoDigit-Ends [] e = tt
  NoDigit-Ends (c ∷ cs) e = (a.delimiters c e.0, e.1)

-- The number that decimal digits stand for, and its fixnum.
abbrev pub decimal : List ℕ → ℕ
decimal vs = numeral 10 0 (decimals vs)

suc-is_zero : (n : ℕ) → (suc n == 0) ≡ false
suc-is_zero n = ground arith

-- A sign as it is written, and whether it makes a number negative.
abbrev pub sign_text : Option Bool → List ℕ
sign_text none = []
sign_text (some false) = b'+' ∷ []
sign_text (some true) = b'-' ∷ []

abbrev pub is_minus : Option Bool → Bool
is_minus none = false
is_minus (some negative) = negative

-- The fixnum of a decimal integer.
abbrev pub decimal_fixnum : Option Bool → List ℕ → ℕ
decimal_fixnum sign vs =
    wrap_fixnum
      (if is_minus sign then Word.neg (decimal vs % Word.modulus) else decimal vs % Word.modulus)

no_digit_char : (v c : ℕ) → v < 10 → (c < b'0') ⊎ (b'9' < c) → (b'0' + v == c) ≡ false
no_digit_char v c l h = ground arith

module _ (u : Unicode) (a : Ascii u) (reals : Reals) where
  module _ (v : ℕ) (vs rest : List ℕ) (small : Below10 (v ∷ vs)) (ends : Ends u rest) (f : ℕ)
      (fuel : length vs + 1 < f) (b : Scanner) (c : Option ℕ) (pre : List ℕ) where
    number_mantissa-decimal :
        number_mantissa u reals f 10
          (cursor b c (pre ++ ((b'0' + v) ∷ [])) [] (chars (decimals vs) ++ rest))
        ≡ done (whole u reals (decimal (v ∷ vs) % Word.modulus) (suc (length (decimals vs)))) (
            stopped
              (record b { charcount = suc (length (decimals vs)) })
              (pre ++ chars (decimals (v ∷ vs)))
              rest)
    unfolding number_mantissa set_readp_ix
    number_mantissa-decimal = rw (
      append-nil (pre ++ ((b'0' + v) ∷ [])),
      length-append_one pre (b'0' + v),
      suc-sub-one (length pre),
      lex_read_digits-reread u a.one 10 (b'0' + v, v) (decimals vs) rest f b c pre
          (Digits-decimals a (v ∷ vs) small) (NoDigit-Ends a rest ends)
          (omega (arith, length-decimals vs)),
      Ends-is_char a rest b'.' ends (omega arith) (omega arith) refl,
      Ends-is_char a rest b'/' ends (omega arith) (omega arith) refl,
    )

    -- The whole number behind its sign.
    number_body-decimal :
        (negative : Bool)
        → number_body u reals f 10 true negative
            (cursor b c (pre ++ ((b'0' + v) ∷ [])) [] (chars (decimals vs) ++ rest))
          ≡ done
              (fixnum (
                wrap_fixnum (
                  if negative
                  then Word.neg (decimal (v ∷ vs) % Word.modulus)
                  else decimal (v ∷ vs) % Word.modulus)))
              (stopped
                (record b { charcount = suc (length (decimals vs)) })
                (pre ++ chars (decimals (v ∷ vs)))
                rest)
    unfolding number_body number_exponent number_value
    number_body-decimal negative = rw (
      number_mantissa-decimal,
      suc-is_zero (length (decimals vs)),
      Ends-expmarker a rest ends,
      Ends-is_char a rest b'+' ends (omega arith) (omega arith) refl,
      Ends-is_char a rest b'-' ends (omega arith) (omega arith) refl,
      Ends-is_char a rest b'@' ends (omega arith) (omega arith) refl,
      Ends-eofdelim u rest ends,
    )

  -- A decimal integer with or without a sign, in front of the end of the input or of a delimiter, is
  -- read as its value with 64-bit wrap-around, cut to the 63 bits of a fixnum, if the fuel is above the
  -- number of its digits. Its sign and first digit are in the buffer already, and the scanner then
  -- stands in front of what follows.
  pub lex_read_number-decimal :
      (sign : Option Bool) (v : ℕ) (vs rest : List ℕ)
      → Below10 (v ∷ vs)
      → Ends u rest
      → (f : ℕ) → length vs + 1 < f
      → (b : Scanner) (c : Option ℕ)
      → lex_read_number u reals f
          (cursor b c [] (sign_text sign ++ ((b'0' + v) ∷ [])) (chars (decimals vs) ++ rest))
        ≡ done (fixnum (decimal_fixnum sign (v ∷ vs))) (
            stopped
              (record b { charcount = suc (length (decimals vs)) })
              (sign_text sign ++ chars (decimals (v ∷ vs)))
              rest)
  unfolding lex_read_number number_prefix number_sign
  lex_read_number-decimal none v vs rest small ends f fuel b c =
      rw
        (
          readp-reread u a.one b c [] [] (chars (decimals vs) ++ rest) (b'0' + v) (omega arith),
          no_digit_char v b'#' small.0 (inl (omega arith)),
          no_digit_char v b'+' small.0 (inl (omega arith)),
          no_digit_char v b'-' small.0 (inl (omega arith)),
          no_digit_char v b'n' small.0 (inr (omega arith)),
          no_digit_char v b'i' small.0 (inr (omega arith)),
        )
        (number_body-decimal v vs rest small ends f fuel b (some (b'0' + v)) [] false)
  lex_read_number-decimal (some false) v vs rest small ends f fuel b c =
      rw
        (
          readp-reread u a.one b c [] ((b'0' + v) ∷ []) (chars (decimals vs) ++ rest) b'+'
              (omega arith),
          readp-reread u a.one b (some b'+') (b'+' ∷ []) [] (chars (decimals vs) ++ rest) (b'0' + v)
              (omega arith),
          no_digit_char v b'n' small.0 (inr (omega arith)),
          no_digit_char v b'i' small.0 (inr (omega arith)),
        )
        (number_body-decimal v vs rest small ends f fuel b (some (b'0' + v)) (b'+' ∷ []) false)
  lex_read_number-decimal (some true) v vs rest small ends f fuel b c =
      rw
        (
          readp-reread u a.one b c [] ((b'0' + v) ∷ []) (chars (decimals vs) ++ rest) b'-'
              (omega arith),
          readp-reread u a.one b (some b'-') (b'-' ∷ []) [] (chars (decimals vs) ++ rest) (b'0' + v)
              (omega arith),
          no_digit_char v b'n' small.0 (inr (omega arith)),
          no_digit_char v b'i' small.0 (inr (omega arith)),
        )
        (number_body-decimal v vs rest small ends f fuel b (some (b'0' + v)) (b'-' ∷ []) true)
