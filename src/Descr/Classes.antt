-- ===== src/Descr/Classes.antt =====
-- The tests on descriptors exclude one another.
use scheme2c.Prelude.{◌==◌, if◌then◌else◌, ℕ, ◌+◌, ◌%◌, ◌≡◌, Bool, arith}
use scheme2c.Descr.{
  Word, desc_is_fixnum, desc_is_scp, desc_is_char, desc_is_spec, desc_is_local, desc_is_global,
  desc_is_tag,
}

abbrev pub bit : Bool → ℕ
bit b = if b then 1 else 0

-- How many of the seven tests of the header a word passes.
unfoldable pub classes : Word → ℕ
classes d =
    bit (desc_is_fixnum d)
    + bit (desc_is_scp d)
    + bit (desc_is_char d)
    + bit (desc_is_spec d)
    + bit (desc_is_local d)
    + bit (desc_is_global d)
    + bit (desc_is_tag d)

-- A word passes exactly one of the tests for fixnum, pointer, character, special value, local,
-- global and datum tag, unless its low three bits are 100: such a word passes none.
pub classes_lem : (d : Word) → classes d ≡ (if d % 8 == 4 then 0 else 1)
unfolding classes desc_is_fixnum desc_is_scp desc_is_char desc_is_spec desc_is_local desc_is_global
    desc_is_tag
classes_lem d = ground arith
