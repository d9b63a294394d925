-- ===== src/Value.antt =====
-- Values: what a descriptor stands for, one constructor for each tag of inc/datum.h. `nihil` is the
-- null pointer; `ptr p` is the object at address 8 * p, since the heap is aligned to 8 bytes.
pub mod Encode
use scheme2c.Prelude.{
  ℕ, zero, suc, ◌+◌, ◌-◌, ◌*◌, ◌/◌, ◌%◌, ◌^◌, ◌≤◌, ◌<◌, ◌≡◌, refl, sym, ap, ◌∙◌, ◌≢◌, ◌↔◌, ◌⊎◌, inl,
  inr, Bool, true, false, not, ◌&&◌, ◌||◌, Option, none, some, List, [], ◌∷◌, ◌++◌, map, arith, ltb,
  leb, ◌==◌, if◌then◌else◌, ltb→lt, lt→ltb, leb→le, ==_iff, Bool-cases, Option-cases, length,
  get_elem?, set, length-append, length-set, get_elem?-set_self, get_elem?-set_ne,
}
use native.Mathlib.Decide.{ℕ_discrete}

pub data Value : Type 0 where
  nihil : Value
  spec : ℕ → Value
  fixnum : ℕ → Value
  char : ℕ → Value
  local : (frame ix : ℕ) → Value
  global : ℕ → Value
  ptr : ℕ → Value

-- `d1 == d2` on descriptors.
abbrev pub value_eq : Value → Value → Bool
value_eq nihil nihil = true
value_eq (spec m) (spec n) = m == n
value_eq (fixnum m) (fixnum n) = m == n
value_eq (char m) (char n) = m == n
value_eq (local f i) (local g j) = f == g && i == j
value_eq (global m) (global n) = m == n
value_eq (ptr m) (ptr n) = m == n
value_eq _ _ = false

pub value_eq_iff : (v w : Value) → (value_eq v w ≡ true) ↔ (v ≡ w)
value_eq_iff nihil nihil = ground arith
value_eq_iff _ _ = ground arith

-- The special values of the language.
abbrev pub symb_nil : Value
symb_nil = spec 0

abbrev pub symb_undef : Value
symb_undef = spec 1

abbrev pub symb_t : Value
symb_t = spec 2

abbrev pub symb_f : Value
symb_f = spec 3

abbrev pub symb_void : Value
symb_void = spec 4

abbrev pub symb_eof : Value
symb_eof = spec 5

-- `desc_cond`
abbrev pub desc_cond : Bool → Value
desc_cond b = if b then symb_t else symb_f

-- `cl_end`: the end of a list is a null pointer or the empty list.
abbrev pub cl_end : Value → Bool
cl_end v = value_eq v nihil || value_eq v symb_nil
