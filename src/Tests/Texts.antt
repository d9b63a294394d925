-- ===== src/Tests/Texts.antt =====
-- Strings at concrete inputs.
use scheme2c.Prelude.{
  ℕ, ◌%◌, ◌^◌, ◌≡◌, refl, inl, inr, false, none, some, List, [], ◌∷◌, arith, ◌==◌, if◌then◌else◌,
}
use scheme2c.Strings.{StringDatum, Step, ss_add, ss_hash_code}
use scheme2c.Strings.Text.{Became, text, ss_add-text, ss_add_overruns}
use scheme2c.Strings.Hash.{polynomial, ss_hash_code-polynomial}

-- The units of a character: one, and for the character 66304 two.
abbrev utf16 : ℕ → List ℕ
utf16 ch = if ch == 66304 then 55296 ∷ 57088 ∷ [] else ch ∷ []

-- A full string.
abbrev ab : StringDatum
ab = record { buf = 97 ∷ 98 ∷ 0 ∷ []; len = 2; hash = some 5; const = false }

ss_add-text_example : Became (97 ∷ 98 ∷ 99 ∷ []) (ss_add utf16 ab 99)
ss_add-text_example = ss_add-text utf16 ab 99 (omega arith, refl) (omega arith) (inr refl)

-- A string with room for one unit.
abbrev a : StringDatum
a = record { buf = 97 ∷ 0 ∷ 0 ∷ []; len = 1; hash = none; const = false }

ss_add_overruns_example : ss_add utf16 a 66304 ≡ Step.overrun
ss_add_overruns_example = ss_add_overruns utf16 a 66304 55296 57088 (omega arith, refl) refl refl

ss_hash_code-polynomial_example :
    ((ss_hash_code a).0 ≡ polynomial 0 (97 ∷ []) % 2 ^ 30)
    × ((text (ss_hash_code a).1 ≡ 97 ∷ [])
        × ((ss_hash_code a).1.hash ≡ some (polynomial 0 (97 ∷ []) % 2 ^ 30)))
ss_hash_code-polynomial_example = ss_hash_code-polynomial a (inl refl)
