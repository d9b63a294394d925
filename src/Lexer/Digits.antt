-- ===== src/Lexer/Digits.antt =====
-- Runs of digits: what `lex_read_digits` reads.
use mathlib.Core.List.{append_assoc, append-nil}
use native.Mathlib.Nat.{add-zero, zero-add}
use scheme2c.Prelude.{
  ℕ, zero, suc, ◌+◌, ◌*◌, ◌%◌, ◌/◌, ◌<◌, ◌≡◌, ap, ◌∙◌, Option, none, some, List, [], ◌∷◌, ◌++◌,
  arith, length,
}
use scheme2c.Prelude.Word
use scheme2c.Lexer.State.{Unicode, OneUnit, Scanner, done}
use scheme2c.Lexer.Number.{digits_loop, lex_read_digits}
use scheme2c.Lexer.Cursor.{head, cursor, stopped, HeadIsUnit, readp-read, readp-reread}

-- Digits with their values.
abbrev pub Digits : Unicode → ℕ → List (ℕ × ℕ) → Type 0
Digits u radix [] = Unit {0}
Digits u radix (d ∷ ds) = (u.icu.digit d.0 radix ≡ some d.1) × (d.0 < 0xd800) × Digits u radix ds

abbrev pub chars : List (ℕ × ℕ) → List ℕ
chars [] = []
chars (d ∷ ds) = d.0 ∷ chars ds

-- What stands behind them: the end of the input, or no digit.
abbrev pub NoDigit : Unicode → ℕ → List ℕ → Type 0
NoDigit u radix [] = Unit {0}
NoDigit u radix (c ∷ cs) = (u.icu.digit c radix ≡ none) × (c < 0xd800)

-- The number that digits stand for, behind the number `acc`.
unfoldable pub numeral : (radix acc : ℕ) → List (ℕ × ℕ) → ℕ
numeral radix acc [] = acc
numeral radix acc (d ∷ ds) = numeral radix (acc * radix + d.1) ds

wrap_step : (x r v : ℕ) → Word.add (Word.mul (x % Word.modulus) r) v ≡ (x * r + v) % Word.modulus
wrap_step x r v =
    let whole : x ≡ x % Word.modulus + Word.modulus * (x / Word.modulus) = omega arith in
    let spread : x * r ≡ x % Word.modulus * r + Word.modulus * (x / Word.modulus * r) =
      ap (λ (t : ℕ). t * r) whole ∙ grind arith in
    omega (arith, spread)

add_suc : (m n : ℕ) → m + 1 + n ≡ m + suc n
add_suc m n = omega arith

module _ (u : Unicode) (one : OneUnit u) where
  pub NoDigit-head :
      (radix : ℕ) (ds : List (ℕ × ℕ)) (rest : List ℕ)
      → Digits u radix ds
      → NoDigit u radix rest
      → HeadIsUnit (chars ds ++ rest)
  NoDigit-head radix [] [] d n = tt
  NoDigit-head radix [] (c ∷ cs) d n = n.1
  NoDigit-head radix (x ∷ ds) rest d n = d.1

  -- The loop runs to the first character that is no digit.
  pub digits_loop-numeral :
      (radix : ℕ) (ds : List (ℕ × ℕ)) (rest : List ℕ) (f acc : ℕ) (b : Scanner) (pre : List ℕ)
      → Digits u radix ds
      → NoDigit u radix rest
      → length ds < f
      → digits_loop u f radix
          (head (chars ds ++ rest))
          (acc % Word.modulus)
          (stopped b pre (chars ds ++ rest))
        ≡ done
            (numeral radix acc ds % Word.modulus)
            (stopped (record b { charcount = b.charcount + length ds }) (pre ++ chars ds) rest)
  unfolding digits_loop numeral
  digits_loop-numeral radix [] [] (suc f) acc b pre d n l =
      rw (append-nil pre, append-nil pre, add-zero)
  digits_loop-numeral radix [] (c ∷ cs) (suc f) acc b pre d n l = rw (n.0, append-nil pre, add-zero)
  digits_loop-numeral radix (x ∷ ds) rest (suc f) acc b pre d n l =
      rw
        (
          d.0,
          readp-read u one (record b { charcount = b.charcount + 1 }) x.0 (pre ++ (x.0 ∷ []))
              (chars ds ++ rest) (NoDigit-head radix ds rest d.2 n),
          wrap_step acc radix x.1,
        )
        (digits_loop-numeral radix ds rest f (acc * radix + x.1)
            (record b { charcount = b.charcount + 1 }) (pre ++ (x.0 ∷ [])) d.2 n (omega arith)
          ∙ rw (append_assoc pre (x.0 ∷ []) (chars ds), add_suc b.charcount (length ds)))
  digits_loop-numeral radix _ _ zero acc b pre d n l = elim l [ ]

  -- With the first digit in the buffer: it is read again.
  pub lex_read_digits-reread :
      (radix : ℕ) (x : ℕ × ℕ) (ds : List (ℕ × ℕ)) (rest : List ℕ) (f : ℕ) (b : Scanner)
      (c : Option ℕ) (pre : List ℕ)
      → Digits u radix (x ∷ ds)
      → NoDigit u radix rest
      → length ds + 1 < f
      → lex_read_digits u f radix (cursor b c pre (x.0 ∷ []) (chars ds ++ rest))
        ≡ done
            (numeral radix 0 (x ∷ ds) % Word.modulus)
            (stopped (record b { charcount = suc (length ds) }) (pre ++ chars (x ∷ ds)) rest)
  unfolding lex_read_digits
  lex_read_digits-reread radix x ds rest (suc f) b c pre d n l =
      rw (readp-reread u one b c pre [] (chars ds ++ rest) x.0 d.1) (
        digits_loop-numeral radix (x ∷ ds) rest (suc f) 0 (record b { charcount = 0 }) pre d n
          (omega arith)
        ∙ rw (zero-add (suc (length ds))))
  lex_read_digits-reread radix x ds rest zero b c pre d n l = elim l [ ]
