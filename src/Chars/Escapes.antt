-- ===== src/Chars/Escapes.antt =====
-- Escape sequences of string literals.
use scheme2c.Prelude.{ℕ, ◌≡◌, ◌↔◌, some, [], ◌∷◌, arith}
use scheme2c.Chars.{ℕ, chr_from_esc, chr_to_esc, chr_slash}

-- The reader takes the letter after a backslash to the character `x` exactly when the printer writes
-- `x` as a backslash and that letter.
pub chr_from_esc-chr_to_esc :
    (c x : ℕ) → (chr_from_esc c ≡ some x) ↔ (chr_to_esc x ≡ some (chr_slash ∷ c ∷ []))
unfolding chr_from_esc chr_to_esc
chr_from_esc-chr_to_esc c x = (ground arith, ground arith)
