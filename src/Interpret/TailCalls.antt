-- ===== src/Interpret/TailCalls.antt =====
-- A procedure that calls itself in tail position (src/interpret.c: RPREP, ARGPUSH, RETCALL).
use scheme2c.Interpret.Kept.{vec_set-Wrote, same_closure}
use scheme2c.Interpret.Turns.{run-from, step-exec, icod_at}
use scheme2c.Interpret.Run.{run, step, exec, exec_retcall, prepare, Ran, Fcode}
use scheme2c.Interpret.Machine.{
  got, get_var_g, get_var_l, vec_set, closure_at, running, Machine, in_vector, Store, vars, closr,
  vector, Object, Closure,
}
use scheme2c.Prelude.{
  zero, suc, get_elem?-set_self, ◌∙◌, ap, lt→ltb, arith, none, some, true, get_elem?, set, length,
  ◌+◌, ◌<◌, ◌^◌, ◌%◌, ◌==◌, ℕ, ◌≡◌, refl, false, List, [], ◌∷◌,
}
use scheme2c.Value.{Value, ptr, global, local}
use scheme2c.Interpret.Command.{
  VarInfo, var_info, ident, Expr, Lcod, ret, Vmi, prep, rprep_g, var, argpush_l, vmi_mark, retcall,
}
use scheme2c.Interpret.Create.{Made, made, icod_create, icod_loop, icod_instr, icod_add_call}
use scheme2c.Interpret.Encode.{vmi_argpush, vmi_prep_x}

-- The linear code of `(define (f a b) (f b a))`: identifiers at the addresses `p`, `q` and `r`.
abbrev pub swapping : (n p q r : ℕ) → List Lcod
swapping n p q r =
    ret (Expr.call (ident p (global n)) (ident q (local 0 1) ∷ ident r (local 0 0) ∷ [])) ∷ []

abbrev swapping_icod : ℕ → List Vmi
swapping_icod n =
    prep rprep_g (var_info 0 n) 2
    ∷ var argpush_l (var_info 0 1)
    ∷ var argpush_l (var_info 0 0)
    ∷ vmi_mark retcall
    ∷ []

icod_create-swapping :
    (n p q r : ℕ)
    → icod_create (swapping n p q r)
      ≡ made (record { icod = swapping_icod n; prevmark = false; pending = [] })
unfolding icod_create icod_loop icod_instr icod_add_call vmi_argpush vmi_prep_x
icod_create-swapping n p q r = refl

abbrev icod_of_made : Made → List Vmi
icod_of_made (made s) = s.icod
icod_of_made _ = []

vec_set-in :
    (s : Store) (vec ix : ℕ) (a : Value) (vs : List Value)
    → get_elem? s.objects vec ≡ some (vector vs)
    → ix < length vs
    → vec_set s vec ix a ≡ some (record s { objects = set s.objects vec (vector (set vs ix a)) })
unfolding vec_set
vec_set-in s vec ix a vs h l = rw (h, lt→ltb ix (length vs) l) refl

in_list : (os : List Object) (i : ℕ) (o : Object) → get_elem? os i ≡ some o → i < length os
in_list [] i o h = absurd (cc)
in_list (x ∷ os) zero o h = omega arith
in_list (x ∷ os) (suc i) o h = omega (arith, in_list os i o h)

==-refl : (n : ℕ) → (n == n) ≡ true
==-refl n = ground arith

module _ (code : List Fcode) (bin : ℕ → (argv : List Value) → Store → Ran) where
  argpush_l-step :
      (m : Machine) (icod : List Vmi) (v : VarInfo) (vec i : ℕ) (a : Value) (s : Store)
      → icod_at code bin m ≡ some icod
      → get_elem? icod m.ip ≡ some (var argpush_l v)
      → m.parg ≡ in_vector vec i
      → get_var_l m v ≡ got a
      → vec_set m.store vec i a ≡ some s
      → step code bin m
        ≡ running (record m { parg = in_vector vec (i + 1); store = s; ip = m.ip + 1 })
  unfolding exec
  argpush_l-step m icod v vec i a s h g p r w =
      step-exec code bin m icod (var argpush_l v) h g ∙ rw (r, p, w) refl

  -- The procedure is about to run its commands, in a call with the arguments `a` and `b`.
  pub record Swapping (m : Machine) (n : ℕ) (a b : Value) (rest : List Value) : Type 0 where
    pub p : ℕ
    pub q : ℕ
    pub r : ℕ
    pub commands : icod_at code bin m ≡ some (icod_of_made (icod_create (swapping n p q r)))
    pub at_start : m.ip ≡ 0
    pub in_range : n < 2 ^ 32
    pub itself : m.store.globals n ≡ some (ptr (closr m.fr_top))
    pub c : Closure
    pub is_closure : closure_at m.store (closr m.fr_top) ≡ some c
    pub two : c.argc ≡ 2
    pub fixed : c.multiarg ≡ false
    pub no_bin : c.bin ≡ none
    pub locals : get_elem? m.store.objects (vars m.fr_top) ≡ some (vector (a ∷ b ∷ rest))

  abbrev prepared : Machine → Machine
  prepared m = record m {
    cl_c = some (closr m.fr_top);
    fargc = 2;
    multy = false;
    tailcall = true;
    c_locals = some (vars m.fr_top);
    parg = in_vector (vars m.fr_top) 0;
    ip = 1;
  }

  prepare_self :
      (m : Machine) (n : ℕ) (a b : Value) (rest : List Value)
      → Swapping m n a b rest
      → step code bin m ≡ running (prepared m)
  unfolding exec prepare get_var_g
  prepare_self m n a b rest w =
      let small : n % 2 ^ 32 ≡ n = omega (arith, w.in_range) in
      step-exec code bin m (swapping_icod n) (prep rprep_g (var_info 0 n) 2)
        (w.commands ∙ ap (λ x. some (icod_of_made x)) (icod_create-swapping n w.p w.q w.r))
        (rw w.at_start refl)
      ∙ rw
          (
            small,
            w.itself,
            w.is_closure,
            w.fixed,
            w.two,
            w.no_bin,
            ==-refl (closr m.fr_top),
            w.at_start,
          )
          refl

  -- Its second argument goes into the first variable before the first variable is read for the second:
  -- after four turns the procedure begins again, in the same frame, with `b` for both of its variables,
  -- where the call `(f b a)` should give it `b` and `a`.
  pub tail_call_overwrites :
      (m : Machine) (n : ℕ) (a b : Value) (rest : List Value)
      → Swapping m n a b rest
      → (m' : Machine) × (run code bin 4 (running m) ≡ running m')
        × (m'.ip ≡ 0)
        × (m'.fr_top ≡ m.fr_top)
        × (get_elem? m'.store.objects (vars m'.fr_top) ≡ some (vector (b ∷ b ∷ rest)))
  unfolding exec exec_retcall get_var_l run
  tail_call_overwrites m n a b rest w =
      let f = m.fr_top in
      let vec = vars f in
      let icod = swapping_icod n in
      let commands =
        w.commands ∙ ap (λ x. some (icod_of_made x)) (icod_create-swapping n w.p w.q w.r) in
      let listed = in_list m.store.objects vec (vector (a ∷ b ∷ rest)) w.locals in
      let m1 = prepared m in
      let s2 : Store = record m.store {
        objects = set m.store.objects vec (vector (b ∷ b ∷ rest));
      } in
      let wrote2 = vec_set-in m.store vec 0 b (a ∷ b ∷ rest) w.locals (omega arith) in
      let there2 = get_elem?-set_self m.store.objects vec (vector (b ∷ b ∷ rest)) listed in
      let m2 = record m1 { parg = in_vector vec 1; store = s2; ip = 2 } in
      let step2 : step code bin m1 ≡ running m2 =
        argpush_l-step m1 icod (var_info 0 1) vec 0 b s2 commands refl refl (rw w.locals refl)
          wrote2 in
      let same2 =
        same_closure code bin m.store s2 vec 0 (closr f) b
          (vec_set-Wrote m.store s2 vec 0 b wrote2) in
      let s3 : Store = record s2 { objects = set s2.objects vec (vector (b ∷ b ∷ rest)) } in
      let wrote3 = vec_set-in s2 vec 1 b (b ∷ b ∷ rest) there2 (omega arith) in
      let m3 = record m2 { parg = in_vector vec 2; store = s3; ip = 3 } in
      let commands2 : icod_at code bin m2 ≡ some icod = rw same2 commands in
      let step3 : step code bin m2 ≡ running m3 =
        argpush_l-step m2 icod (var_info 0 0) vec 1 b s3 commands2 refl refl (rw there2 refl)
          wrote3 in
      let same3 =
        same_closure code bin s2 s3 vec 1 (closr f) b (vec_set-Wrote s2 s3 vec 1 b wrote3)
        ∙ same2 in
      let commands3 : icod_at code bin m3 ≡ some icod = rw same3 commands in
      let m4 = record m3 { ip = 0 } in
      let step4 : step code bin m3 ≡ running m4 =
        step-exec code bin m3 icod (vmi_mark retcall) commands3 refl
        ∙ rw (same3, w.is_closure, w.no_bin) refl in
      (
        m4,
        run-from code bin 3 m m1 (prepare_self m n a b rest w)
            ∙ run-from code bin 2 m1 m2 step2
            ∙ run-from code bin 1 m2 m3 step3
            ∙ run-from code bin 0 m3 m4 step4,
        refl,
        refl,
        get_elem?-set_self s2.objects vec (vector (b ∷ b ∷ rest))
            (in_list s2.objects vec (vector (b ∷ b ∷ rest)) there2),
      )
