-- ===== src/Chars/Radix.antt =====
-- Number prefixes.
use scheme2c.Prelude.{ℕ, ◌<◌, ◌≡◌, ◌≢◌, true, false, Option, none, some, arith}
use scheme2c.Chars.{chr_to_radix, chrp_num_afterhash, chrp_num_precmarker, chrp_rdigit, Icu}

-- A radix is named, and `chrp_rdigit` has a case for it.
abbrev pub Supported : Icu → Option ℕ → (digit : ℕ) → Type 0
Supported icu none d = ⊥
Supported icu (some r) d = (r < 17) × (chrp_rdigit icu r d ≢ none)

-- A character that the lexer accepts after `#` in a number and that is no exactness mark names a
-- radix, at most 16, so `chr_to_radix` does not reach its failing assertion, and for that radix
-- `chrp_rdigit` does not reach its own.
pub chr_to_radix_total :
    (icu : Icu) (ch d : ℕ)
    → chrp_num_afterhash ch ≡ true
    → chrp_num_precmarker ch ≡ false
    → Supported icu (chr_to_radix ch) d
unfolding chr_to_radix chrp_num_afterhash chrp_rdigit
chr_to_radix_total icu ch d h p = ground arith
