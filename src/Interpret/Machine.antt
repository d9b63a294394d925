-- ===== src/Interpret/Machine.antt =====
-- The state of `icod_interpret` (src/interpret.c, inc/vmdefs.h), and its reads and writes of variables
-- (inc/__interpret.h). `locals`, `cl_top` and `fc` follow `fr_top`: FRAME_POP and FRAME_PUSH set them
-- from it, and nothing else does. An address stands for an object wherever the collector moves it.
use scheme2c.Prelude.{
  ℕ, ◌+◌, ◌-◌, Bool, Option, none, some, List, [], ◌∷◌, ◌++◌, ◌==◌, if◌then◌else◌, ltb, length,
  get_elem?, set, replicate,
}
use scheme2c.Value.{Value, nihil}
use scheme2c.Interpret.Command.{VarInfo}

-- struct ClosureDatum: `bin` is the number of a built-in procedure, `fcod` of a code object, and
-- `saved` are the vectors of variables that the closure keeps.
pub record Closure : Type 0 where
  pub argc : ℕ
  pub multiarg : Bool
  pub bin : Option ℕ
  pub fcod : ℕ
  pub saved : List ℕ

pub data Object : Type 0 where
  vector : List Value → Object
  closure : Closure → Object
  other : Object

-- Where control goes on: `ret_cc` is the label `final` or `interpret_ret`, the latter with `ret_ip`.
pub data Return : Type 0 where
  final : Return
  iret : (ret_ip : ℕ) → Return

-- struct FrameDatum with the frames above it: `closr` and `vars` are addresses. The frame that
-- `icod_interpret` begins with is its own upper frame.
pub data Frame : Type 0 where
  base : (closr vars : ℕ) → Frame
  frame : Return → (closr vars : ℕ) → (up : Frame) → Frame

abbrev pub closr : Frame → ℕ
closr (base c v) = c
closr (frame r c v u) = c

abbrev pub vars : Frame → ℕ
vars (base c v) = v
vars (frame r c v u) = v

abbrev pub up : Frame → Frame
up (base c v) = base c v
up (frame r c v u) = u

abbrev pub return_of : Frame → Return
return_of (base c v) = final
return_of (frame r c v u) = r

-- What built-in procedures can change as well.
pub record Store : Type 0 where
  pub objects : List Object
  pub globals : ℕ → Option Value

-- Where the next argument goes: `binargs` or a vector, at an index, or nowhere that an argument is
-- ever put.
pub data Place : Type 0 where
  in_binargs : ℕ → Place
  in_vector : (vec ix : ℕ) → Place
  nowhere : Place

pub record Machine : Type 0 where
  pub ip : ℕ
  pub fr_top : Frame
  pub rr : Value
  pub cl_c : Option ℕ
  pub c_locals : Option ℕ
  pub parg : Place
  pub binargs : List Value
  pub fargc : ℕ
  pub tailcall : Bool
  pub multy : Bool
  pub store : Store

-- One turn of the loop: it goes on, or the result is returned, or an exception ends it; `fault` is what
-- is undefined in C, a read or a write outside an object or through a null pointer.
pub data Turn : Type 0 where
  running : Machine → Turn
  finished : Value → Store → Turn
  panic : ℕ → Store → Turn
  fault : Turn

abbrev pub bad_argc : ℕ
bad_argc = 1200

abbrev pub bad_call : ℕ
bad_call = 1201

abbrev pub global_undef : ℕ
global_undef = 1204

abbrev pub global_dup : ℕ
global_dup = 1205

-- What a read gives.
pub data Got : Type 0 where
  got : Value → Got
  undefined : Got
  outside : Got

abbrev pub with_got : Got → Store → (Value → Turn) → Turn
with_got (got a) s k = k a
with_got undefined s k = panic global_undef s
with_got outside s k = fault

abbrev pub got_elem : Option Value → Got
got_elem none = outside
got_elem (some a) = got a

abbrev pub elem_of : Option Object → ℕ → Got
elem_of (some (vector vs)) ix = got_elem (get_elem? vs ix)
elem_of _ ix = outside

-- `vec_tail(vec)[ix]`
abbrev pub vec_get : Store → (vec ix : ℕ) → Got
vec_get s vec ix = elem_of (get_elem? s.objects vec) ix

abbrev pub written : Store → (vec : ℕ) → Option Object → (ix : ℕ) → Value → Option Store
written s vec (some (vector vs)) ix a =
    if ltb ix (length vs)
    then some (record s { objects = set s.objects vec (vector (set vs ix a)) })
    else none
written s vec _ ix a = none

-- VEC_SET
unfoldable pub vec_set : Store → (vec ix : ℕ) → Value → Option Store
vec_set s vec ix a = written s vec (get_elem? s.objects vec) ix a

abbrev pub stored : Machine → Option Store → Turn
stored m none = fault
stored m (some s) = running (record m { store = s })

abbrev pub closure_in : Option Object → Option Closure
closure_in (some (closure c)) = some c
closure_in _ = none

abbrev pub closure_at : Store → ℕ → Option Closure
closure_at s q = closure_in (get_elem? s.objects q)

abbrev pub saved_of : Option Closure → ℕ → Option ℕ
saved_of none i = none
saved_of (some c) i = get_elem? c.saved i

-- `closr_tail(cl_top)[fr - 1]`
abbrev pub kept_vec : Machine → (fr : ℕ) → Option ℕ
kept_vec m fr = if fr == 0 then none else saved_of (closure_at m.store (closr m.fr_top)) (fr - 1)

-- GET_VAR_L, GET_VAR_G, GET_VAR_K
unfoldable pub get_var_l : Machine → VarInfo → Got
get_var_l m v = vec_get m.store (vars m.fr_top) v.ix

abbrev pub global_got : Option Value → Got
global_got none = undefined
global_got (some a) = got a

unfoldable pub get_var_g : Machine → VarInfo → Got
get_var_g m v = global_got (m.store.globals v.ix)

abbrev pub kept_got : Machine → Option ℕ → ℕ → Got
kept_got m none ix = outside
kept_got m (some vec) ix = vec_get m.store vec ix

unfoldable pub get_var_k : Machine → VarInfo → Got
get_var_k m v = kept_got m (kept_vec m v.fr) v.ix

abbrev pub with_global : Store → ℕ → Value → Store
with_global s n a = record s { globals = λ i. if i == n then some a else s.globals i }

-- SET_VAR_L, SET_VAR_G, SET_VAR_K: the right-hand side is an expression of the macro's call.
unfoldable pub set_var_l : Machine → VarInfo → Got → Turn
set_var_l m v g = with_got g m.store (λ a. stored m (vec_set m.store (vars m.fr_top) v.ix a))

abbrev pub set_global : Machine → ℕ → Got → Option Value → Turn
set_global m n g none = panic global_undef m.store
set_global m n g (some _) =
    with_got g m.store (λ a. running (record m { store = with_global m.store n a }))

unfoldable pub set_var_g : Machine → VarInfo → Got → Turn
set_var_g m v g = set_global m v.ix g (m.store.globals v.ix)

abbrev pub set_kept : Machine → Option ℕ → ℕ → Got → Turn
set_kept m none ix g = fault
set_kept m (some vec) ix g = with_got g m.store (λ a. stored m (vec_set m.store vec ix a))

unfoldable pub set_var_k : Machine → VarInfo → Got → Turn
set_var_k m v g = set_kept m (kept_vec m v.fr) v.ix g

abbrev pub init_global : Machine → ℕ → Got → Option Value → Turn
init_global m n g (some _) = panic global_dup m.store
init_global m n g none =
    with_got g m.store (λ a. running (record m { store = with_global m.store n a }))

-- INIT_VARIX_G
unfoldable pub init_var_g : Machine → VarInfo → Got → Turn
init_var_g m v g = init_global m v.ix g (m.store.globals v.ix)

-- IPNEXT
abbrev pub ipnext : Turn → Turn
ipnext (running m) = running (record m { ip = m.ip + 1 })
ipnext t = t

-- `new_vec`: a fresh vector comes at the next address.
abbrev pub new_vec : Store → ℕ → Store
new_vec s count = record s { objects = s.objects ++ (vector (replicate count nihil) ∷ []) }
