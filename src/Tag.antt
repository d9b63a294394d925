-- ===== src/Tag.antt =====
-- The tag word at the head of every heap object (inc/datum.h, and for the collector's bits
-- inc/memmgr.h and inc/vmdefs.h). Bit 0 is 1 unless the object was moved, when the whole word is its
-- new address; bits 3 to 5 say number, constant and non-terminal; 6 to 23 the type's index; 24 to 26
-- the collector's class; 27 old; 28 added to the remembered set; 29 to 31 the age; 32 to 63 a
-- reference count. The source works with masks; a mask of `w` ones at bit `s` selects
-- `tag / 2 ^ s % 2 ^ w`, and to set a bit that is 0 is to add it.
pub mod Fields
pub mod Init
use scheme2c.Prelude.{ℕ, ◌+◌, ◌-◌, ◌*◌, ◌/◌, ◌%◌, ◌^◌, Bool, ◌&&◌, not, ◌==◌, if◌then◌else◌}
use scheme2c.Prelude.Word.{add, shl}

abbrev pub Tag : Type 0
Tag = ℕ

-- `_getmasked_` with a mask of `w` ones at bit `s`.
abbrev pub get_masked : (s w : ℕ) → ℕ → ℕ
get_masked s w src = src / 2 ^ s % 2 ^ w

-- `_setmasked_`: the old field goes, the low `w` bits of the value come in.
abbrev pub set_masked : (s w : ℕ) → ℕ → ℕ → ℕ
set_masked s w src val = src - get_masked s w src * 2 ^ s + val % 2 ^ w * 2 ^ s

abbrev pub test_bit : ℕ → ℕ → Bool
test_bit s src = get_masked s 1 src == 1

-- `src | (1ul << s)`.
abbrev pub set_bit : ℕ → ℕ → ℕ
set_bit s src = if test_bit s src then src else src + 2 ^ s

-- Datum part.
unfoldable pub tag_from_typeix : ℕ → Tag
tag_from_typeix tix = shl tix 6 + 1

unfoldable pub tag_get_typeix : Tag → ℕ
tag_get_typeix t = get_masked 6 18 t

unfoldable pub tag_is_number : Tag → Bool
tag_is_number t = test_bit 3 t

unfoldable pub tag_is_const : Tag → Bool
tag_is_const t = test_bit 4 t

unfoldable pub tag_is_nonterm : Tag → Bool
tag_is_nonterm t = test_bit 5 t

-- `datum_set_const` on the tag.
unfoldable pub tag_set_const : Tag → Tag
tag_set_const t = set_bit 4 t

-- Collector's part.
unfoldable pub tag_get_gcclass : Tag → ℕ
tag_get_gcclass t = get_masked 24 3 t

unfoldable pub tag_set_gcclass : Tag → ℕ → Tag
tag_set_gcclass t c = set_masked 24 3 t c

unfoldable pub tag_is_generalcls : Tag → Bool
tag_is_generalcls t = get_masked 24 3 t == 0

unfoldable pub tag_is_old : Tag → Bool
tag_is_old t = test_bit 27 t

unfoldable pub tag_set_old : Tag → Tag
tag_set_old t = set_bit 27 t

unfoldable pub tag_is_young : Tag → Bool
unfolding tag_is_generalcls tag_is_old
tag_is_young t = tag_is_generalcls t && not (tag_is_old t)

unfoldable pub tag_is_added : Tag → Bool
tag_is_added t = test_bit 28 t

unfoldable pub tag_set_added : Tag → ℕ → Tag
tag_set_added t bit = set_masked 28 1 t bit

unfoldable pub tag_get_age : Tag → ℕ
tag_get_age t = get_masked 29 3 t

unfoldable pub tag_set_age : Tag → ℕ → Tag
tag_set_age t age = set_masked 29 3 t age

unfoldable pub tag_inc_age : Tag → Tag
tag_inc_age t = add t (2 ^ 29)

unfoldable pub tag_get_refc : Tag → ℕ
tag_get_refc t = get_masked 32 32 t

-- A moved object's tag is its new address.
unfoldable pub tag_is_forward : Tag → Bool
tag_is_forward t = not (t % 2 == 1)
