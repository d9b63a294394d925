-- ===== src/Strings/Hash.antt =====
-- The hash code of a string: a polynomial of its text, cached.
use scheme2c.Prelude.{
  ℕ, ◌+◌, ◌*◌, ◌%◌, ◌^◌, ◌≡◌, refl, ap, ◌∙◌, ◌⊎◌, inl, inr, none, some, List, [], ◌∷◌, arith,
}
use scheme2c.Strings.{StringDatum, buf_hash_code, ss_hash_code}
use scheme2c.Strings.Text.{text}

-- The polynomial in 37 with the units as coefficients, the last the lowest.
abbrev pub polynomial : (high : ℕ) → List ℕ → ℕ
polynomial high [] = high
polynomial high (u ∷ us) = polynomial (high * 37 + u) us

buf_hash_code-polynomial :
    (prev : ℕ) (us : List ℕ) → buf_hash_code (prev % 2 ^ 30) us ≡ polynomial prev us % 2 ^ 30
unfolding buf_hash_code
buf_hash_code-polynomial prev [] = refl
buf_hash_code-polynomial prev (u ∷ us) =
    let step : (prev % 2 ^ 30 * 37 + u) % 2 ^ 30 ≡ (prev * 37 + u) % 2 ^ 30 = omega arith in
    ap (λ p. buf_hash_code p us) step ∙ buf_hash_code-polynomial (prev * 37 + u) us

-- The cache is empty or holds the code of the text.
abbrev pub Cached : StringDatum → Type 0
Cached s = (s.hash ≡ none) ⊎ (s.hash ≡ some (polynomial 0 (text s) % 2 ^ 30))

-- If the cache of a string is empty or right, `ss_hash_code` returns the polynomial of the text modulo
-- 2 ^ 30, the same whether it was cached or not, keeps the text, and leaves the code cached.
pub ss_hash_code-polynomial :
    (s : StringDatum)
    → Cached s
    → ((ss_hash_code s).0 ≡ polynomial 0 (text s) % 2 ^ 30)
      × ((text (ss_hash_code s).1 ≡ text s)
          × ((ss_hash_code s).1.hash ≡ some (polynomial 0 (text s) % 2 ^ 30)))
unfolding ss_hash_code
ss_hash_code-polynomial s (inl empty) =
    let code = buf_hash_code-polynomial 0 (text s) in rw empty (code, (refl, ap some code))
ss_hash_code-polynomial s (inr full) = rw full (refl, (refl, refl))
