-- ===== src/Tag/Fields.antt =====
-- The fields of a tag are independent of one another.
use scheme2c.Prelude.{◌/◌, ℕ, ◌+◌, ◌%◌, ◌^◌, ◌<◌, ◌≡◌, true, false, arith}
use scheme2c.Prelude.Word.{modulus}
use scheme2c.Tag.{
  Tag, tag_get_typeix, tag_is_number, tag_is_const, tag_is_nonterm, tag_get_gcclass,
  tag_set_gcclass, tag_is_old, tag_set_old, tag_is_added, tag_set_added, tag_get_age, tag_inc_age,
  tag_get_refc, tag_is_forward,
}

-- The fields that describe the object are the same in both tags.
pub record SameDatum (t u : Tag) : Type 0 where
  pub typeix : tag_get_typeix t ≡ tag_get_typeix u
  pub number : tag_is_number t ≡ tag_is_number u
  pub constant : tag_is_const t ≡ tag_is_const u
  pub nonterm : tag_is_nonterm t ≡ tag_is_nonterm u
  pub forward : tag_is_forward t ≡ tag_is_forward u

-- Setting the class leaves the object's description, the old and added bits and the age alone, and
-- the class reads back modulo 8.
pub tag_set_gcclass_lem :
    (t c : ℕ)
    → (tag_get_gcclass (tag_set_gcclass t c) ≡ c % 8)
      × SameDatum (tag_set_gcclass t c) t
      × (tag_is_old (tag_set_gcclass t c) ≡ tag_is_old t)
      × (tag_is_added (tag_set_gcclass t c) ≡ tag_is_added t)
      × (tag_get_age (tag_set_gcclass t c) ≡ tag_get_age t)
unfolding tag_get_typeix tag_is_number tag_is_const tag_is_nonterm tag_get_gcclass tag_set_gcclass
    tag_is_old tag_is_added tag_get_age tag_is_forward
tag_set_gcclass_lem t c = ground arith

-- Marking an object as old and clearing its added bit, the collector's step of promotion, makes both
-- bits read so and keeps the class, the age and the object's description.
pub promote_lem :
    (t : ℕ)
    → (tag_is_old (tag_set_old (tag_set_added t 0)) ≡ true)
      × (tag_is_added (tag_set_old (tag_set_added t 0)) ≡ false)
      × (tag_get_gcclass (tag_set_old (tag_set_added t 0)) ≡ tag_get_gcclass t)
      × (tag_get_age (tag_set_old (tag_set_added t 0)) ≡ tag_get_age t)
      × SameDatum (tag_set_old (tag_set_added t 0)) t
unfolding tag_get_typeix tag_is_number tag_is_const tag_is_nonterm tag_get_gcclass tag_is_old
    tag_set_old tag_is_added tag_set_added tag_get_age tag_is_forward
promote_lem t = ground arith

-- The age goes up by one modulo 8, the carry at age 7 raises the reference count, and nothing else
-- changes.
pub tag_inc_age_lem :
    (t : ℕ)
    → t < modulus
    → SameDatum (tag_inc_age t) t
      × (tag_get_gcclass (tag_inc_age t) ≡ tag_get_gcclass t)
      × (tag_is_old (tag_inc_age t) ≡ tag_is_old t)
      × (tag_is_added (tag_inc_age t) ≡ tag_is_added t)
      × (tag_get_age (tag_inc_age t) ≡ (tag_get_age t + 1) % 8)
      × (tag_get_refc (tag_inc_age t) ≡ (tag_get_refc t + (tag_get_age t + 1) / 8) % 2 ^ 32)
unfolding tag_get_typeix tag_is_number tag_is_const tag_is_nonterm tag_get_gcclass tag_is_old
    tag_is_added tag_inc_age tag_get_age tag_get_refc tag_is_forward
tag_inc_age_lem t h = ground arith
