-- ===== src/Interpret/Moves.antt =====
-- Every turn of `icod_interpret` (src/interpret.c) is one of the four moves of frames.
use scheme2c.Prelude.{
  take, ◌||◌, ℕ, zero, suc, ◌+◌, ◌≡◌, refl, ap, inl, inr, Bool, true, false, ◌&&◌, Bool-cases,
  Option, none, some, List, ◌==◌, if◌then◌else◌, get_elem?, length,
}
use scheme2c.Value.{Value, nihil, spec, fixnum, char, local, global, ptr}
use scheme2c.Interpret.Command.{
  Vmi, set_l_d, set_l_l, set_l_g, set_l_k, set_l_r, set_k_d, set_k_l, set_k_g, set_k_k, set_k_r,
  set_g_d, set_g_l, set_g_g, set_g_k, set_g_r, def_d, def_g, def_r, if_l, if_g, if_k, if_r, jump,
  lmd, prep_l, prep_g, prep_k, prep_r, rprep_l, rprep_g, rprep_k, rprep_r, argpush_d, argpush_l,
  argpush_g, argpush_k, vm_call, retcall, ret_d, ret_l, ret_g, ret_k, ret_r, var_lit, var_var, var,
  lit, prep, vmi_mark,
}
use scheme2c.Interpret.Machine.{
  get_var_l, get_var_g, get_var_k, closr, final, iret, closure, closure_at, Closure, Return, iret,
  vars, up, return_of, Store, Machine, running, fault, Got, got, undefined, outside, with_got,
  ipnext,
}
use scheme2c.Interpret.Run
use scheme2c.Interpret.Run.{
  frame_retpop, done, raised, ran, tail_closure, exec_retcall, exec, step, step_in, exec_at,
  icod_of, fcode_of, go_on, load_closure, prepare, frame_ret, ran, exec_call, Ran, Fcode, takes,
  is_bin, varcount, make_locals, prepare_closure, prepare_value, closed, closed_at, make_closure,
  load_fcode, fresh_closure, with_object, call_bin, call_closure, bin_of, called, tail_closure,
  icod_of, fcode_of, goto_lit, branch, pushed, arg_push,
}
use scheme2c.Interpret.Frames.{
  stay, enter, replace, leave, Moved, Kept, Kept-Moved, ipnext-Kept, with_got-Kept, set_var_l-Kept,
  set_var_g-Kept, set_var_k-Kept, init_var_g-Kept, goto_lit-Kept, branch-Kept, arg_push-Kept,
}

module _ (code : List Fcode) (bin : ℕ → (argv : List Value) → Store → Ran) where
  make_locals-Kept : (m : Machine) (r n : Option ℕ) → Kept m (make_locals code bin m r n)
  make_locals-Kept m (some vec) n = refl
  make_locals-Kept m none none = tt
  make_locals-Kept m none (some n) = refl

  prepare_closure-Kept :
      (m : Machine) (q fargc : ℕ) (tail : Bool) (c : Option Closure)
      → Kept m (prepare_closure code bin m q fargc tail c)
  prepare_closure-Kept m q fargc tail none = tt
  prepare_closure-Kept m q fargc tail (some c) = elim (Bool-cases (takes c fargc)) [
    | inr wrong ↦ rw wrong tt
    | inl right ↦ elim (Bool-cases (is_bin c.bin || c.multiarg)) [
      | inl many ↦ rw (right, many) refl
      | inr one ↦
          rw (right, one)
            (make_locals-Kept
              (record m {
                cl_c = some q;
                fargc = fargc;
                multy = c.multiarg;
                tailcall = if tail then tail && q == closr m.fr_top else m.tailcall;
              })
              (if tail && q == closr m.fr_top then some (vars m.fr_top) else none)
              (varcount code bin (get_elem? code c.fcod)))
    ]
  ]

  prepare_value-Kept :
      (m : Machine) (n : ℕ) (tail : Bool) (a : Value) → Kept m (prepare_value code bin m n tail a)
  prepare_value-Kept m n tail (ptr q) = prepare_closure-Kept m q n tail (closure_at m.store q)
  prepare_value-Kept m n tail nihil = tt
  prepare_value-Kept m n tail (spec k) = tt
  prepare_value-Kept m n tail (fixnum k) = tt
  prepare_value-Kept m n tail (char k) = tt
  prepare_value-Kept m n tail (local f i) = tt
  prepare_value-Kept m n tail (global k) = tt

  prepare-Kept :
      (m : Machine) (g : Got) (n : ℕ) (tail : Bool) → Kept m (prepare code bin m g n tail)
  unfolding prepare
  prepare-Kept m g n tail =
      ipnext-Kept m (with_got g m.store (λ a. prepare_value code bin m n tail a))
        (with_got-Kept m g m.store _ (λ a. prepare_value-Kept m n tail a))

  closed-Kept :
      (m m' : Machine) (q : ℕ) (c : Closure) (n : ℕ)
      → m'.fr_top ≡ m.fr_top
      → Kept m (closed code bin m' q c n)
  closed-Kept m m' q c zero e = e
  closed-Kept m m' q c (suc n) e = e

  closed_at-Kept :
      (m : Machine) (q n : ℕ) (c : Option Closure) → Kept m (closed_at code bin m q n c)
  closed_at-Kept m q n none = tt
  closed_at-Kept m q n (some c) = closed-Kept m m q c n refl

  make_closure-Kept :
      (m : Machine) (k : ℕ) (fc : Fcode) (o : Option ℕ) → Kept m (make_closure code bin m k fc o)
  make_closure-Kept m k fc (some q) = closed_at-Kept m q fc.frmax (closure_at m.store q)
  make_closure-Kept m k fc none =
      let c = fresh_closure code bin fc k in
      closed-Kept m (with_object code bin m (closure c)) (length m.store.objects) c fc.frmax refl

  load_fcode-Kept : (m : Machine) (k : ℕ) (fc : Option Fcode) → Kept m (load_fcode code bin m k fc)
  load_fcode-Kept m k none = tt
  load_fcode-Kept m k (some fc) = make_closure-Kept m k fc fc.cached

  load_closure-Kept : (m : Machine) (d : Value) → Kept m (load_closure code bin m d)
  unfolding load_closure
  load_closure-Kept m (ptr k) = load_fcode-Kept m k (get_elem? code k)
  load_closure-Kept m nihil = tt
  load_closure-Kept m (spec k) = tt
  load_closure-Kept m (fixnum k) = tt
  load_closure-Kept m (char k) = tt
  load_closure-Kept m (local f i) = tt
  load_closure-Kept m (global k) = tt

  -- A return, from a state with the frames of `m`.
  go_on-Moved :
      (m m' : Machine) (a : Value) (r : Return)
      → m'.fr_top ≡ m.fr_top
      → return_of m.fr_top ≡ r
      → Moved m (go_on m' a r)
  go_on-Moved m m' a final e h = tt
  go_on-Moved m m' a (iret ip) e h = leave (ap up e) h

  frame_ret-Moved : (m : Machine) (g : Got) → Moved m (frame_ret m g)
  frame_ret-Moved m (got a) = go_on-Moved m m a (return_of m.fr_top) refl refl
  frame_ret-Moved m undefined = tt
  frame_ret-Moved m outside = tt

  call_closure-Moved : (m : Machine) (q : ℕ) (b : Option ℕ) → Moved m (call_closure code bin m q b)
  call_closure-Moved m q (some b) = of_ran (bin b (take m.fargc m.binargs) m.store)
    where
      of_ran :
          (r : Ran) → Moved m (ran r (λ a s. ipnext (running (record m { rr = a; store = s }))))
      of_ran (done a s) = stay refl
      of_ran (raised e s) = tt
  call_closure-Moved m q none = test m.multy
    where
      entered :
          (o : Option ℕ)
          → Moved m
              (Run.enter code bin (record m { c_locals = none }) q (iret (m.ip + 1)) m.fr_top o)
      entered none = tt
      entered (some vec) = enter q vec refl

      test :
          (b : Bool)
          → Moved m (
              if b
              then fault
              else Run.enter code bin
                  (record m { c_locals = none })
                  q
                  (iret (m.ip + 1))
                  m.fr_top
                  m.c_locals)
      test true = tt
      test false = entered m.c_locals

  exec_call-Moved : (m : Machine) → Moved m (exec_call code bin m)
  unfolding exec_call
  exec_call-Moved m = at m.cl_c
    where
      of_closure :
          (q : ℕ) (c : Option Closure) → Moved m (bin_of code bin (call_closure code bin m) q c)
      of_closure q none = tt
      of_closure q (some c) = call_closure-Moved m q c.bin

      at : (o : Option ℕ) → Moved m (called code bin m (call_closure code bin m) o)
      at none = tt
      at (some q) = of_closure q (closure_at m.store q)

  tail_closure-Moved : (m : Machine) (q : ℕ) (b : Option ℕ) → Moved m (tail_closure code bin m q b)
  tail_closure-Moved m q (some b) = of_ran (bin b (take m.fargc m.binargs) m.store)
    where
      of_ran : (r : Ran) → Moved m (ran r (λ a s. frame_retpop (record m { store = s }) a))
      of_ran (done a s) = go_on-Moved m (record m { store = s }) a (return_of m.fr_top) refl refl
      of_ran (raised e s) = tt
  tail_closure-Moved m q none = test m.multy m.tailcall
    where
      replaced :
          (o : Option ℕ) → Moved m (Run.enter code bin m q (return_of m.fr_top) (up m.fr_top) o)
      replaced none = tt
      replaced (some vec) = replace q vec refl

      test :
          (many self : Bool)
          → Moved m (
              if many
              then fault
              else (if self
                  then running (record m { ip = 0 })
                  else Run.enter code bin m q (return_of m.fr_top) (up m.fr_top) m.c_locals))
      test true self = tt
      test false true = stay refl
      test false false = replaced m.c_locals

  exec_retcall-Moved : (m : Machine) → Moved m (exec_retcall code bin m)
  unfolding exec_retcall
  exec_retcall-Moved m = at m.cl_c
    where
      of_closure :
          (q : ℕ) (c : Option Closure) → Moved m (bin_of code bin (tail_closure code bin m) q c)
      of_closure q none = tt
      of_closure q (some c) = tail_closure-Moved m q c.bin

      at : (o : Option ℕ) → Moved m (called code bin m (tail_closure code bin m) o)
      at none = tt
      at (some q) = of_closure q (closure_at m.store q)

  -- Every command moves the frames in one of the four ways.
  pub exec-Moved : (m : Machine) (cmd : Vmi) → Moved m (exec code bin m cmd)
  unfolding exec
  exec-Moved m (var_lit set_l_d v d) = Kept-Moved m _ (ipnext-Kept m _ (set_var_l-Kept m v (got d)))
  exec-Moved m (var_var set_l_l v w) =
      Kept-Moved m _ (ipnext-Kept m _ (set_var_l-Kept m v (get_var_l m w)))
  exec-Moved m (var_var set_l_g v w) =
      Kept-Moved m _ (ipnext-Kept m _ (set_var_l-Kept m v (get_var_g m w)))
  exec-Moved m (var_var set_l_k v w) =
      Kept-Moved m _ (ipnext-Kept m _ (set_var_l-Kept m v (get_var_k m w)))
  exec-Moved m (var set_l_r v) = Kept-Moved m _ (ipnext-Kept m _ (set_var_l-Kept m v (got m.rr)))
  exec-Moved m (var_lit set_k_d v d) = Kept-Moved m _ (set_var_k-Kept m v (got d))
  exec-Moved m (var_var set_k_l v w) =
      Kept-Moved m _ (ipnext-Kept m _ (set_var_k-Kept m v (get_var_l m w)))
  exec-Moved m (var_var set_k_g v w) =
      Kept-Moved m _ (ipnext-Kept m _ (set_var_k-Kept m v (get_var_g m w)))
  exec-Moved m (var_var set_k_k v w) =
      Kept-Moved m _ (ipnext-Kept m _ (set_var_k-Kept m v (get_var_k m w)))
  exec-Moved m (var set_k_r v) = Kept-Moved m _ (ipnext-Kept m _ (set_var_k-Kept m v (got m.rr)))
  exec-Moved m (var_lit set_g_d v d) = Kept-Moved m _ (ipnext-Kept m _ (set_var_g-Kept m v (got d)))
  exec-Moved m (var_var set_g_l v w) =
      Kept-Moved m _ (ipnext-Kept m _ (set_var_g-Kept m v (get_var_l m w)))
  exec-Moved m (var_var set_g_g v w) =
      Kept-Moved m _ (ipnext-Kept m _ (set_var_g-Kept m v (get_var_g m w)))
  exec-Moved m (var_var set_g_k v w) =
      Kept-Moved m _ (ipnext-Kept m _ (set_var_g-Kept m v (get_var_k m w)))
  exec-Moved m (var set_g_r v) = Kept-Moved m _ (ipnext-Kept m _ (set_var_g-Kept m v (got m.rr)))
  exec-Moved m (var_lit def_d v d) = Kept-Moved m _ (ipnext-Kept m _ (init_var_g-Kept m v (got d)))
  exec-Moved m (var_var def_g v w) =
      Kept-Moved m _ (ipnext-Kept m _ (init_var_g-Kept m v (get_var_g m w)))
  exec-Moved m (var def_r v) = Kept-Moved m _ (ipnext-Kept m _ (init_var_g-Kept m v (got m.rr)))
  exec-Moved m (var_lit if_l v to) = Kept-Moved m _ (branch-Kept m (get_var_l m v) to)
  exec-Moved m (var_lit if_g v to) = Kept-Moved m _ (branch-Kept m (get_var_g m v) to)
  exec-Moved m (var_lit if_k v to) = Kept-Moved m _ (branch-Kept m (get_var_k m v) to)
  exec-Moved m (lit if_r to) = Kept-Moved m _ (branch-Kept m (got m.rr) to)
  exec-Moved m (lit jump to) = Kept-Moved m _ (goto_lit-Kept m to)
  exec-Moved m (lit lmd d) = Kept-Moved m _ (ipnext-Kept m _ (load_closure-Kept m d))
  exec-Moved m (prep prep_l v n) = Kept-Moved m _ (prepare-Kept m (get_var_l m v) n false)
  exec-Moved m (prep prep_g v n) = Kept-Moved m _ (prepare-Kept m (get_var_g m v) n false)
  exec-Moved m (prep prep_k v n) = Kept-Moved m _ (prepare-Kept m (get_var_k m v) n false)
  exec-Moved m (prep prep_r v n) = Kept-Moved m _ (prepare-Kept m (got m.rr) n false)
  exec-Moved m (prep rprep_l v n) = Kept-Moved m _ (prepare-Kept m (get_var_l m v) n true)
  exec-Moved m (prep rprep_g v n) = Kept-Moved m _ (prepare-Kept m (get_var_g m v) n true)
  exec-Moved m (prep rprep_k v n) = Kept-Moved m _ (prepare-Kept m (get_var_k m v) n true)
  exec-Moved m (prep rprep_r v n) = Kept-Moved m _ (prepare-Kept m (got m.rr) n true)
  exec-Moved m (lit argpush_d d) = Kept-Moved m _ (ipnext-Kept m _ (arg_push-Kept m (got d)))
  exec-Moved m (var argpush_l v) =
      Kept-Moved m _ (ipnext-Kept m _ (arg_push-Kept m (get_var_l m v)))
  exec-Moved m (var argpush_g v) =
      Kept-Moved m _ (ipnext-Kept m _ (arg_push-Kept m (get_var_g m v)))
  exec-Moved m (var argpush_k v) =
      Kept-Moved m _ (ipnext-Kept m _ (arg_push-Kept m (get_var_k m v)))
  exec-Moved m (vmi_mark vm_call) = exec_call-Moved m
  exec-Moved m (vmi_mark retcall) = exec_retcall-Moved m
  exec-Moved m (lit ret_d d) = frame_ret-Moved m (got d)
  exec-Moved m (var ret_l v) = frame_ret-Moved m (get_var_l m v)
  exec-Moved m (var ret_g v) = frame_ret-Moved m (get_var_g m v)
  exec-Moved m (var ret_k v) = frame_ret-Moved m (get_var_k m v)
  exec-Moved m (vmi_mark ret_r) = frame_ret-Moved m (got m.rr)
  exec-Moved m _ = tt

  exec_at-Moved : (m : Machine) (cmd : Option Vmi) → Moved m (exec_at code bin m cmd)
  exec_at-Moved m none = tt
  exec_at-Moved m (some cmd) = exec-Moved m cmd

  step_in-Moved : (m : Machine) (icod : Option (List Vmi)) → Moved m (step_in code bin m icod)
  step_in-Moved m none = tt
  step_in-Moved m (some icod) = exec_at-Moved m (get_elem? icod m.ip)

  pub step-Moved : (m : Machine) → Moved m (step code bin m)
  unfolding step
  step-Moved m =
      step_in-Moved m (icod_of code bin (fcode_of code bin (closure_at m.store (closr m.fr_top))))
