-- ===== src/Builtins/Args.antt =====
-- Arguments and type tests (inc/datum.h) that the groups share.
use scheme2c.Prelude.{ℕ, Bool, true, false, Option, none, some, List, get_elem?}
use scheme2c.Value.{Value, fixnum}
use scheme2c.Heap.{
  Body, cons, syntax_cons, real, vector, buffer, box, weak_box, string, identifier, symassoc,
  hashtable, other, Heap, bad_argv, ok, panic, fault, Cmd, deref, wrong_param,
}

-- `argv[i]`
abbrev pub arg : List Value → ℕ → Cmd Value
arg argv i h = elim (get_elem? argv i) [ none ↦ fault bad_argv | some v ↦ ok v h ]

abbrev pub Bin : Type 0
Bin = List Value → Cmd Value

-- `PANIC_BAD_ARG_ASCI`
abbrev pub bad_arg {ℓ} : {A : Type ℓ} → Cmd A
bad_arg h = panic wrong_param

abbrev pub typeix : Body → ℕ
typeix (real _) = 1
typeix (vector _) = 10
typeix (buffer _) = 11
typeix (cons _ _) = 13
typeix (syntax_cons _ _ _) = 14
typeix (identifier _ _ _) = 15
typeix (string _) = 17
typeix (hashtable _ _) = 18
typeix (symassoc _ _) = 21
typeix (weak_box _) = 28
typeix (box _) = 31
typeix (other tix) = tix

abbrev pub real_of : Body → Option ℕ
real_of (real d) = some d
real_of _ = none

abbrev pub elems_of : Body → Option (List Value)
elems_of (vector vs) = some vs
elems_of _ = none

abbrev pub boxed_of : Body → Option Value
boxed_of (box v) = some v
boxed_of (weak_box v) = some v
boxed_of _ = none

abbrev pub via {ℓ} : {A : Type ℓ} → (Body → Option A) → Heap → Value → Option A
via f h v = elim (deref h v) [ none ↦ none | some o ↦ f o.body ]

-- The value of a `real_scp`, the elements of a vector, the content of a box of either kind; `none`
-- where `datum_is_real`, `datum_is_vector` or `datum_is_box` fails.
unfoldable pub datum_real : Heap → Value → Option ℕ
unfolding deref
datum_real h v = via real_of h v

unfoldable pub datum_vector : Heap → Value → Option (List Value)
unfolding deref
datum_vector h v = via elems_of h v

unfoldable pub datum_box : Heap → Value → Option Value
unfolding deref
datum_box h v = via boxed_of h v

unfoldable pub datum_is_const : Heap → Value → Bool
unfolding deref
datum_is_const h v = elim (deref h v) [ none ↦ false | some o ↦ o.const ]

unfoldable pub datum_typeix : Heap → Value → Option ℕ
unfolding deref
datum_typeix h v = elim (deref h v) [ none ↦ none | some o ↦ some (typeix o.body) ]

abbrev pub is_fixnum : Value → Bool
is_fixnum (fixnum _) = true
is_fixnum _ = false
