-- ===== src/Interpret/Frames.antt =====
-- What a turn of `icod_interpret` (src/interpret.c) does to the chain of frames.
use scheme2c.Prelude.{
  set, ℕ, ◌+◌, ◌≡◌, refl, Bool, true, false, Option, none, some, if◌then◌else◌, length, ltb,
}
use scheme2c.Value.{Value, nihil, spec, fixnum, char, local, global, ptr, value_eq, symb_f}
use scheme2c.Interpret.Command.{VarInfo}
use scheme2c.Interpret.Machine.{
  iret, frame, iret, frame, vars, up, return_of, Store, Place, in_binargs, in_vector, nowhere,
  Machine, Turn, running, finished, panic, fault, Got, got, undefined, outside, with_got, stored,
  ipnext, vec_set, set_var_l, set_var_g, set_var_k, init_var_g, set_global, set_kept, init_global,
  kept_vec,
}
use scheme2c.Interpret.Run.{goto_lit, branch, pushed, arg_push}

-- The moves: a turn keeps the frames, a call puts one on top that returns behind the call, a call in
-- tail position puts one in the place of the top one, and a return takes the top one off and goes on
-- where it says.
pub data Move (m m' : Machine) : Type 0 where
  stay : m'.fr_top ≡ m.fr_top → Move m m'
  enter : (c v : ℕ) → m'.fr_top ≡ frame (iret (m.ip + 1)) c v m.fr_top → Move m m'
  replace : (c v : ℕ) → m'.fr_top ≡ frame (return_of m.fr_top) c v (up m.fr_top) → Move m m'
  leave : m'.fr_top ≡ up m.fr_top → return_of m.fr_top ≡ iret m'.ip → Move m m'

abbrev pub Moved : Machine → Turn → Type 0
Moved m (running m') = Move m m'
Moved m _ = Unit {0}

-- A turn that keeps the frames.
abbrev pub Kept : Machine → Turn → Type 0
Kept m (running m') = m'.fr_top ≡ m.fr_top
Kept m _ = Unit {0}

pub Kept-Moved : (m : Machine) (t : Turn) → Kept m t → Moved m t
Kept-Moved m (running m') k = stay k
Kept-Moved m (finished a s) k = tt
Kept-Moved m (panic e s) k = tt
Kept-Moved m fault k = tt

pub ipnext-Kept : (m : Machine) (t : Turn) → Kept m t → Kept m (ipnext t)
ipnext-Kept m (running m') k = k
ipnext-Kept m (finished a s) k = tt
ipnext-Kept m (panic e s) k = tt
ipnext-Kept m fault k = tt

pub with_got-Kept :
    (m : Machine) (g : Got) (s : Store) (k : Value → Turn)
    → ((a : Value) → Kept m (k a))
    → Kept m (with_got g s k)
with_got-Kept m (got a) s k h = h a
with_got-Kept m undefined s k h = tt
with_got-Kept m outside s k h = tt

stored-Kept : (m : Machine) (o : Option Store) → Kept m (stored m o)
stored-Kept m none = tt
stored-Kept m (some s) = refl

pub set_var_l-Kept : (m : Machine) (v : VarInfo) (g : Got) → Kept m (set_var_l m v g)
unfolding set_var_l
set_var_l-Kept m v g =
    with_got-Kept m g m.store (λ a. stored m (vec_set m.store (vars m.fr_top) v.ix a))
      (λ a. stored-Kept m (vec_set m.store (vars m.fr_top) v.ix a))

pub set_var_g-Kept : (m : Machine) (v : VarInfo) (g : Got) → Kept m (set_var_g m v g)
unfolding set_var_g
set_var_g-Kept m v g = defined (m.store.globals v.ix)
  where
    defined : (o : Option Value) → Kept m (set_global m v.ix g o)
    defined none = tt
    defined (some b) = with_got-Kept m g m.store _ (λ a. refl)

pub set_var_k-Kept : (m : Machine) (v : VarInfo) (g : Got) → Kept m (set_var_k m v g)
unfolding set_var_k
set_var_k-Kept m v g = kept (kept_vec m v.fr)
  where
    kept : (o : Option ℕ) → Kept m (set_kept m o v.ix g)
    kept none = tt
    kept (some vec) =
        with_got-Kept m g m.store (λ a. stored m (vec_set m.store vec v.ix a))
          (λ a. stored-Kept m (vec_set m.store vec v.ix a))

pub init_var_g-Kept : (m : Machine) (v : VarInfo) (g : Got) → Kept m (init_var_g m v g)
unfolding init_var_g
init_var_g-Kept m v g = defined (m.store.globals v.ix)
  where
    defined : (o : Option Value) → Kept m (init_global m v.ix g o)
    defined (some b) = tt
    defined none = with_got-Kept m g m.store _ (λ a. refl)

pub goto_lit-Kept : (m : Machine) (to : Value) → Kept m (goto_lit m to)
goto_lit-Kept m nihil = refl
goto_lit-Kept m (fixnum n) = refl
goto_lit-Kept m (spec n) = tt
goto_lit-Kept m (char n) = tt
goto_lit-Kept m (local f i) = tt
goto_lit-Kept m (global n) = tt
goto_lit-Kept m (ptr n) = tt

pub branch-Kept : (m : Machine) (g : Got) (to : Value) → Kept m (branch m g to)
branch-Kept m g to = with_got-Kept m g m.store _ (λ a. test (value_eq a symb_f))
  where
    test : (b : Bool) → Kept m (if b then goto_lit m to else ipnext (running m))
    test true = goto_lit-Kept m to
    test false = refl

pushed-Kept : (m : Machine) (a : Value) (p : Place) → Kept m (pushed m a p)
pushed-Kept m a (in_vector vec i) =
    stored-Kept (record m { parg = in_vector vec (i + 1) }) (vec_set m.store vec i a)
pushed-Kept m a nowhere = tt
pushed-Kept m a (in_binargs i) = test (ltb i (length m.binargs))
  where
    test :
        (b : Bool)
        → Kept m (
            if b
            then running (record m { binargs = set m.binargs i a; parg = in_binargs (i + 1) })
            else fault)
    test true = refl
    test false = tt

pub arg_push-Kept : (m : Machine) (g : Got) → Kept m (arg_push m g)
arg_push-Kept m g = with_got-Kept m g m.store _ (λ a. pushed-Kept m a m.parg)
