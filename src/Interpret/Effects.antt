-- ===== src/Interpret/Effects.antt =====
-- The commands of src/interpret.c by the operands that they were made from.
use scheme2c.Prelude.{ℕ, ◌≡◌, refl, inl, inr, Bool, true, false, Option, none, some, List}
use mathlib.Core.Option
use scheme2c.Value.{Value}
use scheme2c.Interpret.Command.{
  VarInfo, Cat, cat_l, cat_g, cat_k, Operand, descr_of, resolved, value_cat, varinf_value, var_lit,
  var_var, var, prep,
}
use scheme2c.Interpret.Encode.{
  set_code, set_d_code, set_r_code, vmi_set_xy, vmi_set_xr, ret_code, vmi_ret_x, argpush_code,
  vmi_argpush, prep_code, vmi_prep_x, if_code, vmi_if_x,
}
use scheme2c.Interpret.Machine.{Machine, got, ipnext}
use scheme2c.Interpret.Run.{Fcode, Ran, branch, frame_ret, arg_push, prepare, exec}
use scheme2c.Interpret.Machine.{Store}
use scheme2c.Interpret.Operands.{
  denoted, assigned, InUint, IsVar, is_kept, kept_var, get_by, put_by, IsVar-Means, IsVar-cases,
  advanced,
}

module _ (code : List Fcode) (bin : ℕ → (argv : List Value) → Store → Ran) where
  set_code-exec :
      (m : Machine) (c k : Cat) (x y : VarInfo)
      → exec code bin m (var_var (set_code c k) x y) ≡ ipnext (put_by c m x (get_by k m y))
  unfolding exec
  set_code-exec m cat_l cat_l x y = refl
  set_code-exec m cat_l cat_g x y = refl
  set_code-exec m cat_l cat_k x y = refl
  set_code-exec m cat_g cat_l x y = refl
  set_code-exec m cat_g cat_g x y = refl
  set_code-exec m cat_g cat_k x y = refl
  set_code-exec m cat_k cat_l x y = refl
  set_code-exec m cat_k cat_g x y = refl
  set_code-exec m cat_k cat_k x y = refl

  set_d_code-exec :
      (m : Machine) (c : Cat) (x : VarInfo) (d : Value)
      → exec code bin m (var_lit (set_d_code c) x d) ≡ advanced (is_kept c) (put_by c m x (got d))
  unfolding exec
  set_d_code-exec m cat_l x d = refl
  set_d_code-exec m cat_g x d = refl
  set_d_code-exec m cat_k x d = refl

  set_r_code-exec :
      (m : Machine) (c : Cat) (x : VarInfo)
      → exec code bin m (var (set_r_code c) x) ≡ ipnext (put_by c m x (got m.rr))
  unfolding exec
  set_r_code-exec m cat_l x = refl
  set_r_code-exec m cat_g x = refl
  set_r_code-exec m cat_k x = refl

  ret_code-exec :
      (m : Machine) (c : Cat) (x : VarInfo)
      → exec code bin m (var (ret_code c) x) ≡ frame_ret m (get_by c m x)
  unfolding exec
  ret_code-exec m cat_l x = refl
  ret_code-exec m cat_g x = refl
  ret_code-exec m cat_k x = refl

  argpush_code-exec :
      (m : Machine) (c : Cat) (x : VarInfo)
      → exec code bin m (var (argpush_code c) x) ≡ ipnext (arg_push m (get_by c m x))
  unfolding exec
  argpush_code-exec m cat_l x = refl
  argpush_code-exec m cat_g x = refl
  argpush_code-exec m cat_k x = refl

  prep_code-exec :
      (m : Machine) (tail : Bool) (c : Cat) (x : VarInfo) (n : ℕ)
      → exec code bin m (prep (prep_code tail c) x n) ≡ prepare code bin m (get_by c m x) n tail
  unfolding exec
  prep_code-exec m true cat_l x n = refl
  prep_code-exec m true cat_g x n = refl
  prep_code-exec m true cat_k x n = refl
  prep_code-exec m false cat_l x n = refl
  prep_code-exec m false cat_g x n = refl
  prep_code-exec m false cat_k x n = refl

  if_code-exec :
      (m : Machine) (c : Cat) (x : VarInfo) (to : Value)
      → exec code bin m (var_lit (if_code c) x to) ≡ branch m (get_by c m x) to
  unfolding exec
  if_code-exec m cat_l x to = refl
  if_code-exec m cat_g x to = refl
  if_code-exec m cat_k x to = refl

  -- Whether an assignment stays at its own index: that of a literal to a kept variable.
  abbrev pub stays : (x : Value) → (y : Option Cat) → Bool
  stays x none = kept_var x
  stays x (some _) = false

  -- An assignment makes a command that assigns what the right-hand side denotes to the variable that
  -- the left-hand side denotes, and goes on behind itself unless it `stays`.
  pub vmi_set_xy-exec :
      (m : Machine) (x y : Operand)
      → IsVar (resolved x)
      → InUint (resolved x)
      → InUint (resolved y)
      → Option.map (exec code bin m) (vmi_set_xy x y)
        ≡ some (
            advanced
              (stays (resolved x) (value_cat (resolved y)))
              (assigned m (resolved x) (denoted m y)))
  unfolding vmi_set_xy
  vmi_set_xy-exec m x y i u w =
      let (c, l) = IsVar-Means (resolved x) i u in
      let x' = varinf_value (resolved x) in
      let y' = varinf_value (resolved y) in
      elim (IsVar-cases (resolved y)) [
        | inl j ↦
            let (k, r) = IsVar-Means (resolved y) j w in
            rw
              (
                l.is_cat,
                r.is_cat,
                set_code-exec m c k x' y',
                r.reads m (descr_of y),
                l.assigns m (denoted m y),
              )
              refl
        | inr (e, d) ↦
            rw
              (
                l.is_cat,
                e,
                l.keeps,
                d m (descr_of y),
                set_d_code-exec m c x' (descr_of y),
                l.assigns m (got (descr_of y)),
              )
              refl
      ]

  pub vmi_set_xr-exec :
      (m : Machine) (x : Operand)
      → IsVar (resolved x)
      → InUint (resolved x)
      → Option.map (exec code bin m) (vmi_set_xr x)
        ≡ some (ipnext (assigned m (resolved x) (got m.rr)))
  unfolding vmi_set_xr
  vmi_set_xr-exec m x i u =
      let (c, l) = IsVar-Means (resolved x) i u in
      rw (l.is_cat, set_r_code-exec m c (varinf_value (resolved x)), l.assigns m (got m.rr)) refl

  -- The other commands with one operand use what the operand denotes, whichever of the kinds of
  -- variables it is: a return and an argument, which take a literal too and then use itself, and the
  -- preparation of a call and a branch, which are made of variables only.
  pub operand_commands :
      (m : Machine) (x : Operand) (n : ℕ) (tail : Bool) (to : Value)
      → InUint (resolved x)
      → (exec code bin m (vmi_ret_x x) ≡ frame_ret m (denoted m x))
        × (exec code bin m (vmi_argpush x) ≡ ipnext (arg_push m (denoted m x)))
        × (Option.map (exec code bin m) (vmi_prep_x x n tail)
            ≡ Option.map (λ _. prepare code bin m (denoted m x) n tail) (value_cat (resolved x)))
        × (Option.map (exec code bin m) (vmi_if_x x to)
            ≡ Option.map (λ _. branch m (denoted m x) to) (value_cat (resolved x)))
  unfolding vmi_ret_x vmi_argpush vmi_prep_x vmi_if_x exec
  operand_commands m x n tail to u = elim (IsVar-cases (resolved x)) [
    | inl i ↦
        let (c, l) = IsVar-Means (resolved x) i u in
        let v = varinf_value (resolved x) in
        (
          rw (l.is_cat, ret_code-exec m c v, l.reads m (descr_of x)) refl,
          rw (l.is_cat, argpush_code-exec m c v, l.reads m (descr_of x)) refl,
          rw (l.is_cat, prep_code-exec m tail c v n, l.reads m (descr_of x)) refl,
          rw (l.is_cat, if_code-exec m c v to, l.reads m (descr_of x)) refl,
        )
    | inr (e, d) ↦
        (rw (e, d m (descr_of x)) refl, rw (e, d m (descr_of x)) refl, rw e refl, rw e refl)
  ]
