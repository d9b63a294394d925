-- ===== src/Descr/Codes.antt =====
-- Encoding a value as a descriptor and reading it back.
use scheme2c.Prelude.{ℕ, ◌%◌, ◌^◌, ◌<◌, ◌≡◌, true, ◌↔◌, arith}
use scheme2c.Prelude.Word.{modulus, fits_fixnum}
use scheme2c.Descr.{
  desc_from_fixnum, desc_to_fixnum, desc_is_fixnum, desc_from_char, desc_to_char, desc_is_char,
  desc_from_spec, desc_to_spec, desc_is_spec, desc_from_glob, desc_to_glob, desc_is_global,
  desc_from_local, desc_loc_fr, desc_loc_ix, desc_is_local, Word,
}

-- A `long` that is made a fixnum is tagged as one, and reads back as itself exactly when it lies
-- between -2 ^ 62 and 2 ^ 62 - 1.
pub desc_to_fixnum-desc_from_fixnum :
    (v : ℕ)
    → v < modulus
    → (desc_is_fixnum (desc_from_fixnum v) ≡ true)
      × ((desc_to_fixnum (desc_from_fixnum v) ≡ v) ↔ (fits_fixnum v ≡ true))
unfolding desc_is_fixnum desc_from_fixnum desc_to_fixnum
desc_to_fixnum-desc_from_fixnum v h = (ground arith, (ground arith, ground arith))

-- Every word with the tag of a fixnum is the code of the `long` that it reads as.
pub desc_from_fixnum-desc_to_fixnum :
    (d : Word)
    → d < modulus
    → desc_is_fixnum d ≡ true
    → (desc_from_fixnum (desc_to_fixnum d) ≡ d) × (fits_fixnum (desc_to_fixnum d) ≡ true)
unfolding desc_is_fixnum desc_from_fixnum desc_to_fixnum
desc_from_fixnum-desc_to_fixnum d h t = ground arith

-- Characters, special values and global indices read back as themselves below 2 ^ 26, and carry
-- their own tags.
pub small_codes :
    (v : ℕ)
    → v < 2 ^ 26
    → (desc_to_char (desc_from_char v) ≡ v)
      × (desc_to_spec (desc_from_spec v) ≡ v)
      × (desc_to_glob (desc_from_glob v) ≡ v)
      × (desc_is_char (desc_from_char v) ≡ true)
      × (desc_is_spec (desc_from_spec v) ≡ true)
      × (desc_is_global (desc_from_glob v) ≡ true)
unfolding desc_to_char desc_from_char desc_to_spec desc_from_spec desc_to_glob desc_from_glob
    desc_is_char desc_is_spec desc_is_global
small_codes v h = ground arith

-- A local reference reads back as its frame number modulo 256 and as its index, below 2 ^ 51, and
-- carries the tag of a local.
pub local_codes :
    (frame ix : ℕ)
    → ix < 2 ^ 51
    → (desc_loc_fr (desc_from_local frame ix) ≡ frame % 2 ^ 8)
      × (desc_loc_ix (desc_from_local frame ix) ≡ ix)
      × (desc_is_local (desc_from_local frame ix) ≡ true)
unfolding desc_loc_fr desc_from_local desc_loc_ix desc_is_local
local_codes frame ix h = ground arith
