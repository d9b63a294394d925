-- ===== src/Tag/Init.antt =====
-- The tag that a type gives to its fresh instances: `type_init` of src/datum.c, and what the
-- allocators add to it.
use scheme2c.Prelude.{ℕ, ◌^◌, ◌<◌, ◌≡◌, Bool, true, false, if◌then◌else◌, arith}
use scheme2c.Tag.{
  Tag, test_bit, set_bit, tag_from_typeix, tag_get_typeix, tag_is_number, tag_is_const,
  tag_is_nonterm, tag_is_forward, tag_is_young, tag_is_added, tag_get_age, tag_set_gcclass,
  tag_set_old,
}

-- The category bits of a type that the tag repeats.
abbrev pub category_number : ℕ → Bool
category_number cat = test_bit 0 cat

abbrev pub category_const : ℕ → Bool
category_const cat = test_bit 4 cat

abbrev pub category_nonterm : ℕ → Bool
category_nonterm cat = test_bit 5 cat

unfoldable pub type_init : (tix category : ℕ) → Tag
unfolding tag_from_typeix
type_init tix category =
    let r = tag_from_typeix tix in
    let r = if category_const category then set_bit 4 r else r in
    let r = if category_nonterm category then set_bit 5 r else r in
    if category_number category then set_bit 3 r else r

-- The classes of memory, and the tags of objects that the permanent and the `malloc` allocators hand
-- out: the class is set and the object is marked as old.
abbrev pub gc_class_perm : ℕ
gc_class_perm = 1

abbrev pub gc_class_malloc : ℕ
gc_class_malloc = 2

abbrev pub gc_general : ℕ
gc_general = 0

unfoldable pub alloc_old_tag : ℕ → Tag → Tag
unfolding tag_set_old tag_set_gcclass
alloc_old_tag cls t = tag_set_old (tag_set_gcclass t cls)

unfoldable pub gc_mov_alloc_tag : Tag → Tag
unfolding tag_set_gcclass
gc_mov_alloc_tag t = tag_set_gcclass t gc_general

module _ (tix category : ℕ) (fits : tix < 2 ^ 18) where
  -- For a type index below 2 ^ 18 the tag gives the index back, repeats the three category bits, is
  -- no forwarding address, and describes a young object of the general class, not yet added and of
  -- age 0.
  pub type_init_lem :
      (tag_get_typeix (type_init tix category) ≡ tix)
      × (tag_is_number (type_init tix category) ≡ category_number category)
      × (tag_is_const (type_init tix category) ≡ category_const category)
      × (tag_is_nonterm (type_init tix category) ≡ category_nonterm category)
      × (tag_is_forward (type_init tix category) ≡ false)
      × (tag_is_young (type_init tix category) ≡ true)
      × (tag_is_added (type_init tix category) ≡ false)
      × (tag_get_age (type_init tix category) ≡ 0)
  unfolding type_init tag_get_typeix tag_is_number tag_is_const tag_is_nonterm tag_is_forward
      tag_is_young tag_is_added tag_get_age
  type_init_lem = ground arith
