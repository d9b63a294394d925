-- ===== src/Interpret/Kept.antt =====
-- The variables that closures keep (src/interpret.c: LAMBDA, GET_VAR_K, SET_VAR_K).
use scheme2c.Prelude.{
  ◌∙◌, ℕ, zero, suc, ◌<◌, ◌≡◌, refl, sym, ap, inl, inr, Bool-cases, Option, none, some, List, [],
  ◌∷◌, arith, ltb, lt→ltb, ltb→lt, length, get_elem?, set, length-set, get_elem?-set_self,
}
use mathlib.Core.Path.{subst}
use scheme2c.Value.{Value}
use scheme2c.Interpret.Command.{set_k_d, var_lit, VarInfo, Vmi}
use scheme2c.Interpret.Machine.{
  Object, vector, closure, other, closr, Store, Machine, running, fault, got, written, vec_set,
  stored, closure_in, closure_at, kept_vec, set_kept, set_var_k,
}
use scheme2c.Interpret.Turns.{icod_at, step-exec, run-fixed, run-from}
use scheme2c.Interpret.Run.{run, Fcode, Ran, exec, step}

-- A write to a vector leaves the closures alone.
pub closure_in-set :
    (os : List Object) (vec q : ℕ) (vs ws : List Value)
    → get_elem? os vec ≡ some (vector vs)
    → closure_in (get_elem? (set os vec (vector ws)) q) ≡ closure_in (get_elem? os q)
closure_in-set [] vec q vs ws h = refl
closure_in-set (vector us ∷ os) zero zero vs ws h = refl
closure_in-set (closure c ∷ os) zero zero vs ws h = absurd (cc)
closure_in-set (other ∷ os) zero zero vs ws h = refl
closure_in-set (o ∷ os) zero (suc q) vs ws h = refl
closure_in-set (o ∷ os) (suc vec) zero vs ws h = refl
closure_in-set (o ∷ os) (suc vec) (suc q) vs ws h = closure_in-set os vec q vs ws h

set-set {ℓ} : {A : Type ℓ} (xs : List A) (i : ℕ) (a b : A) → set (set xs i a) i b ≡ set xs i b
set-set [] i a b = refl
set-set (x ∷ xs) zero a b = refl
set-set (x ∷ xs) (suc i) a b = ap (λ ys. x ∷ ys) (set-set xs i a b)

-- What a write that succeeds has done.
pub record Wrote (s : Store) (vec ix : ℕ) (a : Value) (s' : Store) : Type 0 where
  pub before : List Value
  pub there : get_elem? s.objects vec ≡ some (vector before)
  pub in_range : ix < length before
  pub after : s' ≡ record s { objects = set s.objects vec (vector (set before ix a)) }

some_ne : (s : Store) → none ≡ some s → ⊥
some_ne s e = cc

some-injective : (s s' : Store) → some s ≡ some s' → s ≡ s'
some-injective s s' e = cc

pub vec_set-Wrote :
    (s s' : Store) (vec ix : ℕ) (a : Value) → vec_set s vec ix a ≡ some s' → Wrote s vec ix a s'
unfolding vec_set
vec_set-Wrote s s' vec ix a e = at (get_elem? s.objects vec) refl e
  where
    at :
        (o : Option Object)
        → get_elem? s.objects vec ≡ o
        → written s vec o ix a ≡ some s'
        → Wrote s vec ix a s'
    at none h e = absurd (some_ne s' e)
    at (some (closure c)) h e = absurd (some_ne s' e)
    at (some other) h e = absurd (some_ne s' e)
    at (some (vector vs)) h e = elim (Bool-cases (ltb ix (length vs))) [
      | inl small ↦ record {
        before = vs;
        there = h;
        in_range = ltb→lt ix (length vs) small;
        after = sym (some-injective _ s' (rw small at e));
      }
      | inr large ↦ absurd (some_ne s' (rw large at e))
    ]

-- The value is there, and writing it again changes nothing.
pub Wrote-again :
    (s s' : Store) (vec ix : ℕ) (a : Value) → Wrote s vec ix a s' → vec_set s' vec ix a ≡ some s'
unfolding vec_set
Wrote-again s s' vec ix a w =
    let o = vector (set w.before ix a) in
    let there = get_elem?-set_self s.objects vec o (in_list s.objects vec w.there) in
    let small =
      lt→ltb ix (length (set w.before ix a))
        (omega (arith, w.in_range, length-set w.before ix a)) in
    subst (λ t. vec_set t vec ix a ≡ some t) (sym w.after)
      (rw (there, small, set-set w.before ix a a, set-set s.objects vec o o) refl)
  where
    in_list : (os : List Object) (i : ℕ) → get_elem? os i ≡ some (vector w.before) → i < length os
    in_list [] i h = absurd (cc)
    in_list (x ∷ os) zero h = omega arith
    in_list (x ∷ os) (suc i) h = omega (arith, in_list os i h)

module _ (code : List Fcode) (bin : ℕ → (argv : List Value) → Store → Ran) where
  -- What SET_VAR_K has done if it succeeds.
  record Kept (m : Machine) (v : VarInfo) (a : Value) (m' : Machine) : Type 0 where
    vec : ℕ
    store' : Store
    is_kept : kept_vec m v.fr ≡ some vec
    sets : vec_set m.store vec v.ix a ≡ some store'
    result : m' ≡ record m { store = store' }

  fault_ne : (m : Machine) → fault ≡ running m → ⊥
  fault_ne m e = cc

  running-injective : (m m' : Machine) → running m ≡ running m' → m ≡ m'
  running-injective m m' e = cc

  set_var_k-Kept :
      (m m' : Machine) (v : VarInfo) (a : Value)
      → set_var_k m v (got a) ≡ running m'
      → Kept m v a m'
  unfolding set_var_k
  set_var_k-Kept m m' v a e = kept (kept_vec m v.fr) refl e
    where
      store :
          (vec : ℕ) (o : Option Store)
          → kept_vec m v.fr ≡ some vec
          → vec_set m.store vec v.ix a ≡ o
          → stored m o ≡ running m'
          → Kept m v a m'
      store vec none h g e = absurd (fault_ne m' e)
      store vec (some s) h g e = record {
        vec = vec;
        store' = s;
        is_kept = h;
        sets = g;
        result = sym (running-injective _ m' e);
      }

      kept :
          (o : Option ℕ)
          → kept_vec m v.fr ≡ o
          → set_kept m o v.ix (got a) ≡ running m'
          → Kept m v a m'
      kept none h e = absurd (fault_ne m' e)
      kept (some vec) h e = store vec (vec_set m.store vec v.ix a) h refl e

  -- The closure on top is the same behind a write to a vector.
  pub same_closure :
      (s s' : Store) (vec ix q : ℕ) (a : Value)
      → Wrote s vec ix a s'
      → closure_at s' q ≡ closure_at s q
  same_closure s s' vec ix q a w =
      subst (λ t. closure_at t q ≡ closure_at s q) (sym w.after)
        (closure_in-set s.objects vec q w.before (set w.before ix a) w.there)

  again :
      (m : Machine) (v : VarInfo) (a : Value) (vec : ℕ) (s : Store)
      → kept_vec m v.fr ≡ some vec
      → vec_set m.store vec v.ix a ≡ some s
      → set_var_k (record m { store = s }) v (got a) ≡ running (record m { store = s })
  unfolding set_var_k
  again m v a vec s h g =
      let w = vec_set-Wrote m.store s vec v.ix a g in
      rw
        (
          same_closure m.store s vec v.ix (closr m.fr_top) a w,
          h,
          Wrote-again m.store s vec v.ix a w,
        )
        refl

  -- If the command at hand is SET_K_D and the write succeeds, then the loop writes that value for ever:
  -- whatever the number of turns, it is still running, in the state behind the write, at the same
  -- command.
  pub set_k_d_endless :
      (m m' : Machine) (icod : List Vmi) (v : VarInfo) (d : Value)
      → icod_at code bin m ≡ some icod
      → get_elem? icod m.ip ≡ some (var_lit set_k_d v d)
      → set_var_k m v (got d) ≡ running m'
      → (n : ℕ) → (run code bin (suc n) (running m) ≡ running m') × (m'.ip ≡ m.ip)
  unfolding exec
  set_k_d_endless m m' icod v d h g e n =
      let k = set_var_k-Kept m m' v d e in
      let after = record m { store = k.store' } in
      let w = vec_set-Wrote m.store k.store' k.vec v.ix d k.sets in
      let first : step code bin m ≡ running after =
        step-exec code bin m icod (var_lit set_k_d v d) h g ∙ e ∙ ap running k.result in
      let same : icod_at code bin after ≡ some icod =
        rw (same_closure m.store k.store' k.vec v.ix (closr m.fr_top) d w) h in
      let next : step code bin after ≡ running after =
        step-exec code bin after icod (var_lit set_k_d v d) same g
        ∙ again m v d k.vec k.store' k.is_kept k.sets in
      (
        run-from code bin n m after first
            ∙ run-fixed code bin n after next
            ∙ ap running (sym k.result),
        ap (λ x. x.ip) k.result,
      )
