-- ===== src/Interpret/Run.antt =====
-- `icod_interpret` of src/interpret.c, one command at a time. A built-in procedure is a function of its
-- arguments and the store. A closure with a list of further arguments is left out: `fill_multiarg_vars`
-- writes bytes through a vector that PREP does not set, which here is a fault.
use scheme2c.Prelude.{
  ℕ, zero, suc, ◌+◌, Bool, true, false, not, ◌&&◌, ◌||◌, Option, none, some, List, [], ◌∷◌, ◌++◌,
  ◌==◌, if◌then◌else◌, leb, ltb, length, get_elem?, set, take, replicate,
}
use scheme2c.Value.{Value, nihil, fixnum, ptr, value_eq, symb_f, symb_void}
use scheme2c.Interpret.Command.{
  Vmi, set_l_d, set_l_l, set_l_g, set_l_k, set_l_r, set_k_d, set_k_l, set_k_g, set_k_k, set_k_r,
  set_g_d, set_g_l, set_g_g, set_g_k, set_g_r, def_d, def_g, def_r, if_l, if_g, if_k, if_r, jump,
  lmd, prep_l, prep_g, prep_k, prep_r, rprep_l, rprep_g, rprep_k, rprep_r, argpush_d, argpush_l,
  argpush_g, argpush_k, vm_call, retcall, ret_d, ret_l, ret_g, ret_k, ret_r, var_lit, var_var, var,
  lit, prep, vmi_mark,
}
use scheme2c.Interpret.Machine.{
  Closure, Object, closure, Return, final, iret, Frame, base, frame, closr, vars, up, return_of,
  Store, Place, in_binargs, in_vector, nowhere, Machine, Turn, running, finished, panic, fault,
  bad_argc, bad_call, Got, got, with_got, vec_set, stored, closure_at, get_var_l, get_var_g,
  get_var_k, set_var_l, set_var_g, set_var_k, init_var_g, ipnext, new_vec,
}

-- struct CodeDatum, as far as it is read here: `icod` are the commands, `fvc` the number of variables,
-- `frmax` of the frames that a closure keeps, `cached` the closure that was made beforehand.
pub record Fcode : Type 0 where
  pub icod : List Vmi
  pub argc : ℕ
  pub multiarg : Bool
  pub fvc : ℕ
  pub frmax : ℕ
  pub cached : Option ℕ

-- What a built-in procedure does.
pub data Ran : Type 0 where
  done : Value → Store → Ran
  raised : ℕ → Store → Ran

abbrev pub ran : Ran → (Value → Store → Turn) → Turn
ran (done a s) k = k a s
ran (raised e s) k = panic e s

-- `ip = desc_to_fixnum(lit)`; the null pointer is the word 0.
abbrev pub goto_lit : Machine → Value → Turn
goto_lit m (fixnum n) = running (record m { ip = n })
goto_lit m nihil = running (record m { ip = 0 })
goto_lit m _ = fault

abbrev pub branch : Machine → Got → Value → Turn
branch m g to =
    with_got g m.store (λ a. if value_eq a symb_f then goto_lit m to else ipnext (running m))

-- The vectors of the frames from `f` on.
abbrev pub frame_vars : ℕ → Frame → List ℕ
frame_vars zero f = []
frame_vars (suc n) f = vars f ∷ frame_vars n (up f)

-- FRAME_RETPOP, with the result in `rr`.
abbrev pub go_on : Machine → Value → Return → Turn
go_on m a final = finished a m.store
go_on m a (iret ip) = running (record m { rr = a; ip = ip; fr_top = up m.fr_top })

abbrev pub frame_retpop : Machine → Value → Turn
frame_retpop m a = go_on m a (return_of m.fr_top)

abbrev pub frame_ret : Machine → Got → Turn
frame_ret m g = with_got g m.store (λ a. frame_retpop m a)

-- `*parg++ = a`
abbrev pub pushed : Machine → Value → Place → Turn
pushed m a (in_binargs i) =
    if ltb i (length m.binargs)
    then running (record m { binargs = set m.binargs i a; parg = in_binargs (i + 1) })
    else fault
pushed m a (in_vector vec i) =
    stored (record m { parg = in_vector vec (i + 1) }) (vec_set m.store vec i a)
pushed m a nowhere = fault

abbrev pub arg_push : Machine → Got → Turn
arg_push m g = with_got g m.store (λ a. pushed m a m.parg)

abbrev pub is_bin : Option ℕ → Bool
is_bin none = false
is_bin (some _) = true

-- The arity test.
abbrev pub takes : Closure → ℕ → Bool
takes c fargc = (not c.multiarg && fargc == c.argc) || (c.multiarg && leb c.argc fargc)

module _ (code : List Fcode) (bin : ℕ → (argv : List Value) → Store → Ran) where
  abbrev pub varcount : Option Fcode → Option ℕ
  varcount none = none
  varcount (some fc) = some fc.fvc

  -- The vector for the arguments: `reuse` is the vector of a call to itself in tail position.
  abbrev pub make_locals : Machine → (reuse : Option ℕ) → Option ℕ → Turn
  make_locals m (some vec) n = running (record m { c_locals = some vec; parg = in_vector vec 0 })
  make_locals m none none = fault
  make_locals m none (some n) =
      let vec = length m.store.objects in
      running (record m { store = new_vec m.store n; c_locals = some vec; parg = in_vector vec 0 })

  abbrev pub prepare_closure : Machine → (q fargc : ℕ) → (tail : Bool) → Option Closure → Turn
  prepare_closure m q fargc tail none = panic bad_call m.store
  prepare_closure m q fargc tail (some c) =
      let self = tail && q == closr m.fr_top in
      let m' = record m {
        cl_c = some q;
        fargc = fargc;
        multy = c.multiarg;
        tailcall = if tail then self else m.tailcall;
      } in
      if not (takes c fargc)
      then panic bad_argc m.store
      else (if is_bin c.bin || c.multiarg
          then running (record m' { parg = in_binargs 0 })
          else make_locals m' (if self then some (vars m.fr_top) else none)
              (varcount (get_elem? code c.fcod)))

  abbrev pub prepare_value : Machine → (fargc : ℕ) → (tail : Bool) → Value → Turn
  prepare_value m fargc tail (ptr q) = prepare_closure m q fargc tail (closure_at m.store q)
  prepare_value m fargc tail _ = panic bad_call m.store

  -- The labels `prepare` and `rprepare`.
  unfoldable pub prepare : Machine → Got → (fargc : ℕ) → (tail : Bool) → Turn
  prepare m g fargc tail = ipnext (with_got g m.store (λ a. prepare_value m fargc tail a))

  -- `new_closure`, and the frames that are kept.
  abbrev pub closed : Machine → ℕ → Closure → ℕ → Turn
  closed m q c zero = running (record m { rr = ptr q })
  closed m q c (suc n) = running (record m {
    rr = ptr q;
    parg = nowhere;
    store = record m.store {
      objects = set m.store.objects q (closure (record c { saved = frame_vars (suc n) m.fr_top }));
    };
  })

  abbrev pub closed_at : Machine → ℕ → ℕ → Option Closure → Turn
  closed_at m q frmax none = fault
  closed_at m q frmax (some c) = closed m q c frmax

  abbrev pub fresh_closure : Fcode → ℕ → Closure
  fresh_closure fc k = record {
    argc = fc.argc;
    multiarg = fc.multiarg;
    bin = none;
    fcod = k;
    saved = [];
  }

  abbrev pub with_object : Machine → Object → Machine
  with_object m o = record m { store = record m.store { objects = m.store.objects ++ (o ∷ []) } }

  abbrev pub make_closure : Machine → ℕ → Fcode → Option ℕ → Turn
  make_closure m k fc (some q) = closed_at m q fc.frmax (closure_at m.store q)
  make_closure m k fc none =
      let c = fresh_closure fc k in
      closed (with_object m (closure c)) (length m.store.objects) c fc.frmax

  abbrev pub load_fcode : Machine → ℕ → Option Fcode → Turn
  load_fcode m k none = fault
  load_fcode m k (some fc) = make_closure m k fc fc.cached

  unfoldable pub load_closure : Machine → Value → Turn
  load_closure m (ptr k) = load_fcode m k (get_elem? code k)
  load_closure m _ = fault

  -- A call of a built-in procedure.
  abbrev pub call_bin : Machine → ℕ → (Machine → Value → Turn) → Turn
  call_bin m b k =
      ran (bin b (take m.fargc m.binargs) m.store) (λ a s. k (record m { store = s }) a)

  abbrev pub enter : Machine → (q : ℕ) → Return → (above : Frame) → Option ℕ → Turn
  enter m q r above none = fault
  enter m q r above (some vec) =
      running (record m { fr_top = frame r q vec above; cl_c = none; ip = 0 })

  abbrev pub call_closure : Machine → ℕ → Option ℕ → Turn
  call_closure m q (some b) = call_bin m b (λ m a. ipnext (running (record m { rr = a })))
  call_closure m q none =
      if m.multy
      then fault
      else enter (record m { c_locals = none }) q (iret (m.ip + 1)) m.fr_top m.c_locals

  abbrev pub bin_of : (ℕ → Option ℕ → Turn) → ℕ → Option Closure → Turn
  bin_of k q none = fault
  bin_of k q (some c) = k q c.bin

  abbrev pub called : Machine → (ℕ → Option ℕ → Turn) → Option ℕ → Turn
  called m k none = fault
  called m k (some q) = bin_of k q (closure_at m.store q)

  unfoldable pub exec_call : Machine → Turn
  exec_call m = called m (call_closure m) m.cl_c

  abbrev pub tail_closure : Machine → ℕ → Option ℕ → Turn
  tail_closure m q (some b) = call_bin m b frame_retpop
  tail_closure m q none =
      if m.multy
      then fault
      else (if m.tailcall
          then running (record m { ip = 0 })
          else enter m q (return_of m.fr_top) (up m.fr_top) m.c_locals)

  unfoldable pub exec_retcall : Machine → Turn
  exec_retcall m = called m (tail_closure m) m.cl_c

  -- The switch. A number that does not go with the structure does not occur.
  unfoldable pub exec : Machine → Vmi → Turn
  exec m (var_lit set_l_d v d) = ipnext (set_var_l m v (got d))
  exec m (var_var set_l_l v w) = ipnext (set_var_l m v (get_var_l m w))
  exec m (var_var set_l_g v w) = ipnext (set_var_l m v (get_var_g m w))
  exec m (var_var set_l_k v w) = ipnext (set_var_l m v (get_var_k m w))
  exec m (var set_l_r v) = ipnext (set_var_l m v (got m.rr))
  exec m (var_lit set_k_d v d) = set_var_k m v (got d)
  exec m (var_var set_k_l v w) = ipnext (set_var_k m v (get_var_l m w))
  exec m (var_var set_k_g v w) = ipnext (set_var_k m v (get_var_g m w))
  exec m (var_var set_k_k v w) = ipnext (set_var_k m v (get_var_k m w))
  exec m (var set_k_r v) = ipnext (set_var_k m v (got m.rr))
  exec m (var_lit set_g_d v d) = ipnext (set_var_g m v (got d))
  exec m (var_var set_g_l v w) = ipnext (set_var_g m v (get_var_l m w))
  exec m (var_var set_g_g v w) = ipnext (set_var_g m v (get_var_g m w))
  exec m (var_var set_g_k v w) = ipnext (set_var_g m v (get_var_k m w))
  exec m (var set_g_r v) = ipnext (set_var_g m v (got m.rr))
  exec m (var_lit def_d v d) = ipnext (init_var_g m v (got d))
  exec m (var_var def_g v w) = ipnext (init_var_g m v (get_var_g m w))
  exec m (var def_r v) = ipnext (init_var_g m v (got m.rr))
  exec m (var_lit if_l v to) = branch m (get_var_l m v) to
  exec m (var_lit if_g v to) = branch m (get_var_g m v) to
  exec m (var_lit if_k v to) = branch m (get_var_k m v) to
  exec m (lit if_r to) = branch m (got m.rr) to
  exec m (lit jump to) = goto_lit m to
  exec m (lit lmd d) = ipnext (load_closure m d)
  exec m (prep prep_l v n) = prepare m (get_var_l m v) n false
  exec m (prep prep_g v n) = prepare m (get_var_g m v) n false
  exec m (prep prep_k v n) = prepare m (get_var_k m v) n false
  exec m (prep prep_r v n) = prepare m (got m.rr) n false
  exec m (prep rprep_l v n) = prepare m (get_var_l m v) n true
  exec m (prep rprep_g v n) = prepare m (get_var_g m v) n true
  exec m (prep rprep_k v n) = prepare m (get_var_k m v) n true
  exec m (prep rprep_r v n) = prepare m (got m.rr) n true
  exec m (lit argpush_d d) = ipnext (arg_push m (got d))
  exec m (var argpush_l v) = ipnext (arg_push m (get_var_l m v))
  exec m (var argpush_g v) = ipnext (arg_push m (get_var_g m v))
  exec m (var argpush_k v) = ipnext (arg_push m (get_var_k m v))
  exec m (vmi_mark vm_call) = exec_call m
  exec m (vmi_mark retcall) = exec_retcall m
  exec m (lit ret_d d) = frame_ret m (got d)
  exec m (var ret_l v) = frame_ret m (get_var_l m v)
  exec m (var ret_g v) = frame_ret m (get_var_g m v)
  exec m (var ret_k v) = frame_ret m (get_var_k m v)
  exec m (vmi_mark ret_r) = frame_ret m (got m.rr)
  exec m _ = fault

  -- `while(ip < ipmax)`: behind the last command the result is in `rr`.
  abbrev pub exec_at : Machine → Option Vmi → Turn
  exec_at m none = finished m.rr m.store
  exec_at m (some cmd) = exec m cmd

  abbrev pub icod_of : Option Fcode → Option (List Vmi)
  icod_of none = none
  icod_of (some fc) = some fc.icod

  abbrev pub fcode_of : Option Closure → Option Fcode
  fcode_of none = none
  fcode_of (some c) = get_elem? code c.fcod

  abbrev pub step_in : Machine → Option (List Vmi) → Turn
  step_in m none = fault
  step_in m (some icod) = exec_at m (get_elem? icod m.ip)

  unfoldable pub step : Machine → Turn
  step m = step_in m (icod_of (fcode_of (closure_at m.store (closr m.fr_top))))

  -- At most `n` turns.
  unfoldable pub run : (n : ℕ) → Turn → Turn
  run (suc n) (running m) = run n (step m)
  run _ t = t

  -- The state that `icod_interpret` begins with, for a code object whose closure is at `q`.
  abbrev pub begin : Store → (q fvc : ℕ) → Machine
  begin s q fvc = record {
    ip = 0;
    fr_top = base q (length s.objects);
    rr = symb_void;
    cl_c = none;
    c_locals = none;
    parg = nowhere;
    binargs = replicate 512 nihil;
    fargc = 0;
    tailcall = false;
    multy = false;
    store = new_vec s fvc;
  }
