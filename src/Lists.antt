-- ===== src/Lists.antt =====
-- The list routines of src/datum.c. A list is a chain of pairs that ends in the null pointer or in
-- the empty list; either kind of pair, plain or syntax, makes a link. Loops run on fuel: a list that
-- is a cycle exhausts any amount.
pub mod Spine
pub mod Length
pub mod Build
mod Writes
use scheme2c.Prelude.{
  ℕ, zero, suc, ◌+◌, ◌-◌, ◌*◌, ◌/◌, ◌%◌, ◌^◌, ◌≤◌, ◌<◌, ◌≡◌, refl, sym, ap, ◌∙◌, ◌≢◌, ◌↔◌, ◌⊎◌, inl,
  inr, Bool, true, false, not, ◌&&◌, ◌||◌, Option, none, some, List, [], ◌∷◌, ◌++◌, map, arith, ltb,
  leb, ◌==◌, if◌then◌else◌, ltb→lt, lt→ltb, leb→le, ==_iff, Bool-cases, Option-cases, length,
  get_elem?, set, length-append, length-set, get_elem?-set_self, get_elem?-set_ne,
}
use scheme2c.Value.{Value, nihil, ptr, symb_nil, cl_end}
use scheme2c.Prelude.Word.{neg}
use scheme2c.Heap.{
  Body, cons, syntax_cons, Obj, obj, Heap, update, dangling, Run, ok, panic, fault, out_of_fuel,
  Cmd, pure, ◌>>=◌, ◌>>◌, alloc, deref, datum_set_const, improper_list,
}

-- The two slots of a pair; `none` if the type has no car and cdr.
abbrev pub slots : Body → Option (Value × Value)
slots (cons a d) = some (a, d)
slots (syntax_cons a d pos) = some (a, d)
slots _ = none

unfoldable pub carcdr : Heap → Value → Option (Value × Value)
unfolding deref
carcdr h v = elim (deref h v) [ none ↦ none | some o ↦ slots o.body ]

abbrev pub is_some {ℓ} : {A : Type ℓ} → Option A → Bool
is_some none = false
is_some (some _) = true

unfoldable pub datum_is_carcdr : Heap → Value → Bool
unfolding carcdr
datum_is_carcdr h v = is_some (carcdr h v)

-- `new_cons`, and `CONSCAR`, whose cdr is the null pointer.
unfoldable pub new_cons : (car cdr : Value) → Cmd Value
unfolding alloc
new_cons car cdr = alloc (cons car cdr)

unfoldable pub conscar : Value → Cmd Value
unfolding new_cons
conscar car = new_cons car nihil

-- `FIELD_SET(c, cdr, d)` and `FIELD_SET(c, car, d)` on either kind of pair.
abbrev pub with_cdr : Body → Value → Option Body
with_cdr (cons a _) d = some (cons a d)
with_cdr (syntax_cons a _ pos) d = some (syntax_cons a d pos)
with_cdr _ d = none

abbrev pub with_car : Body → Value → Option Body
with_car (cons _ c) a = some (cons a c)
with_car (syntax_cons _ c pos) a = some (syntax_cons a c pos)
with_car _ a = none

-- The write of a new body into the object `o` at `p`.
abbrev pub put_body : ℕ → Obj → Option Body → Cmd (Unit {0})
put_body p o none h = fault dangling
put_body p o (some b) h = ok tt (record h { cell = update h.cell p (record o { body = b }) })

unfoldable pub set_cdr : Value → Value → Cmd (Unit {0})
set_cdr (ptr p) d h = elim (h.cell p) [
  | none ↦ fault dangling
  | some o ↦ put_body p o (with_cdr o.body d) h
]
set_cdr _ d h = fault dangling

unfoldable pub set_car : Value → Value → Cmd (Unit {0})
set_car (ptr p) a h = elim (h.cell p) [
  | none ↦ fault dangling
  | some o ↦ put_body p o (with_car o.body a) h
]
set_car _ a h = fault dangling

-- The loop of `cl_len` and of `cli_len`: the pairs passed, and the first value that is no pair.
unfoldable pub count_loop : ℕ → Heap → ℕ → Value → Option (ℕ × Value)
unfolding carcdr
count_loop zero h count p = none
count_loop (suc f) h count p = elim (carcdr h p) [
  | none ↦ some (count, p)
  | some (a, d) ↦ count_loop f h (count + 1) d
]

-- An improper list raises an exception.
unfoldable pub cl_len : ℕ → Value → Cmd ℕ
unfolding count_loop
cl_len f p h = elim (count_loop f h 0 p) [
  | none ↦ out_of_fuel
  | some (count, end) ↦ if cl_end end then ok count h else panic improper_list
]

-- The length as a `long`, negative for an improper list.
unfoldable pub cli_len : ℕ → Value → Cmd ℕ
unfolding count_loop
cli_len f p h = elim (count_loop f h 0 p) [
  | none ↦ out_of_fuel
  | some (count, end) ↦ ok (if cl_end end then count else neg count) h
]

unfoldable pub proper_loop : ℕ → Heap → Value → Option Value
unfolding carcdr
proper_loop zero h p = none
proper_loop (suc f) h p = elim (carcdr h p) [ none ↦ some p | some (a, d) ↦ proper_loop f h d ]

unfoldable pub clp_proper : ℕ → Value → Cmd Bool
unfolding proper_loop
clp_proper f p h = elim (proper_loop f h p) [ none ↦ out_of_fuel | some end ↦ ok (cl_end end) h ]

-- The walk to the last pair reads the cdr of a value that must be a pair.
unfoldable pub last_loop : ℕ → Value → Cmd Value
unfolding carcdr
last_loop zero cl h = out_of_fuel
last_loop (suc f) cl h = elim (carcdr h cl) [
  | none ↦ fault dangling
  | some (a, d) ↦ elim (carcdr h d) [ none ↦ ok cl h | some _ ↦ last_loop f d h ]
]

unfoldable pub cl_last : ℕ → Value → Cmd Value
unfolding last_loop
cl_last f cl = if cl_end cl then pure nihil else last_loop f cl

-- The loop of `args_to_cl`, `bin_list` and `bin_mulist`: each further argument gets a pair of its
-- own, made constant if `const` says so, which is hung behind the last one.
unfoldable pub list_pair : Bool → Value → Cmd Value
unfolding conscar datum_set_const
list_pair const x = do q ← conscar x; if const then datum_set_const q else pure tt; pure q

unfoldable pub append_pair : Bool → (prev x : Value) → Cmd Value
unfolding list_pair set_cdr
append_pair const prev x = do q ← list_pair const x; set_cdr prev q; pure q

unfoldable pub append_loop : Bool → Value → List Value → Cmd (Unit {0})
unfolding append_pair
append_loop const prev [] = pure tt
append_loop const prev (x ∷ xs) = do q ← append_pair const prev x; append_loop const q xs

unfoldable pub make_list : Bool → List Value → Cmd Value
unfolding list_pair append_loop
make_list const [] = pure symb_nil
make_list const (x ∷ xs) = do r ← list_pair const x; append_loop const r xs; pure r

-- The arguments are the slots from `from` up to `lim` of the array.
unfoldable pub args_to_cl : List Value → Cmd Value
unfolding make_list
args_to_cl args = make_list false args

unfoldable pub bin_list : List Value → Cmd Value
unfolding make_list
bin_list argv = make_list true argv

unfoldable pub bin_mulist : List Value → Cmd Value
unfolding make_list
bin_mulist argv = make_list false argv
