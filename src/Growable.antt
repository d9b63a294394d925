-- ===== src/Growable.antt =====
-- The growing containers of src/datum.c: the stack `struct ArrayStackDatum` (`new_astk`, `astk_push`,
-- `astk_pop`) and the array list `struct ArrayListDatum` (`new_arlist`, `arlist_grow`, `arlist_add`,
-- `arlist_skip_at`, and the macros of inc/datum.h). Counts stay so small that doubling does not
-- overflow and that the `float` arithmetic of `arlist_grow` is exact (up to 2 ^ 24).
pub mod Content
pub mod Adding
use scheme2c.Prelude.{
  ℕ, zero, suc, ◌+◌, ◌-◌, ◌*◌, ◌/◌, ◌%◌, ◌^◌, ◌≤◌, ◌<◌, ◌≡◌, refl, sym, ap, ◌∙◌, ◌≢◌, ◌↔◌, ◌⊎◌, inl,
  inr, Bool, true, false, not, ◌&&◌, ◌||◌, Option, none, some, List, [], ◌∷◌, ◌++◌, map, arith, ltb,
  leb, ◌==◌, if◌then◌else◌, ltb→lt, lt→ltb, leb→le, ==_iff, Bool-cases, Option-cases, length,
  get_elem?, set, length-append, length-set, get_elem?-set_self, get_elem?-set_ne, take, replicate,
}
use scheme2c.Value.{Value, nihil}

-- How an operation ends: `overrun` is a write behind the end of the array, `assertion` a failed
-- `assert`, `out_of_range` the exception EXCEP_INDEX_OUT_OF_RANGE.
pub data Step {ℓ} (A : Type ℓ) : Type ℓ where
  ok : A → Step A
  overrun assertion out_of_range : Step A

-- The slots, as many as the capacity `count`, and `ptr`, the number in use.
pub record Stack : Type 0 where
  pub slots : List Value
  pub ptr : ℕ

unfoldable pub new_astk : (count : ℕ) → Stack
new_astk count = record { slots = replicate count nihil; ptr = 0 }

-- A write into an array.
abbrev pub put_slot : List Value → ℕ → Value → Step (List Value)
put_slot vs i v = if ltb i (length vs) then ok (set vs i v) else overrun

-- `memcpy` of the first `n` slots over those of a fresh array of `count` slots.
abbrev pub copied : (n count : ℕ) → List Value → List Value
copied n count vs = take n vs ++ replicate (count - n) nihil

abbrev pub with_slot : Step (List Value) → ℕ → Step Stack
with_slot (ok vs) ptr = ok (record { slots = vs; ptr = ptr })
with_slot overrun ptr = overrun
with_slot assertion ptr = assertion
with_slot out_of_range ptr = out_of_range

-- A full stack is copied into one of twice the capacity.
unfoldable pub astk_push : Stack → Value → Step Stack
astk_push s v =
    if ltb s.ptr (length s.slots)
    then with_slot (put_slot s.slots s.ptr v) (suc s.ptr)
    else (if s.ptr == length s.slots
        then with_slot (put_slot (copied s.ptr (2 * length s.slots) s.slots) s.ptr v) (suc s.ptr)
        else assertion)

abbrev pub read_slot : Option Value → Stack → Step (Value × Stack)
read_slot none s = overrun
read_slot (some v) s = ok (v, s)

unfoldable pub astk_pop : Stack → Step (Value × Stack)
astk_pop s =
    if s.ptr == 0
    then out_of_range
    else read_slot (get_elem? s.slots (s.ptr - 1)) (record s { ptr = s.ptr - 1 })

pub record ArrayList : Type 0 where
  pub data_slots : List Value
  pub index : ℕ

unfoldable pub new_arlist : (count : ℕ) → ArrayList
new_arlist count = record { data_slots = replicate count nihil; index = 0 }

-- `arlist_grow` by the factor 2.0: the whole old array is copied.
unfoldable pub arlist_grow : ArrayList → ArrayList
arlist_grow al = record al {
  data_slots = copied (length al.data_slots) (2 * length al.data_slots) al.data_slots;
}

abbrev pub added : Step (List Value) → ℕ → Step (ℕ × ArrayList)
added (ok vs) r = ok (r, record { data_slots = vs; index = suc r })
added overrun r = overrun
added assertion r = assertion
added out_of_range r = out_of_range

-- The index of the new item comes back.
unfoldable pub arlist_add : ArrayList → Value → Step (ℕ × ArrayList)
unfolding arlist_grow
arlist_add al d =
    let r = al.index in
    let grown = if leb (length al.data_slots) r then arlist_grow al else al in
    added (put_slot grown.data_slots r d) r

unfoldable pub arlist_skip_at : ArrayList → ℕ → Step ArrayList
arlist_skip_at al i =
    if leb al.index i && ltb i (length al.data_slots)
    then ok (record al { index = i })
    else assertion

abbrev pub read_item : Option Value → ArrayList → Step (Value × ArrayList)
read_item none al = overrun
read_item (some v) al = ok (v, al)

-- `arlist_pop` has no test: on an empty list the index wraps, and the read is out of the array.
unfoldable pub arlist_pop : ArrayList → Step (Value × ArrayList)
arlist_pop al =
    if al.index == 0
    then overrun
    else read_item (get_elem? al.data_slots (al.index - 1)) (record al { index = al.index - 1 })

unfoldable pub arlist_clear : ArrayList → ArrayList
arlist_clear al = record al { index = 0 }
