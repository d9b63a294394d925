-- ===== src/Interpret/Targets.antt =====
-- The command that a jump of `icod_create` (src/interpret.c) goes to.
use scheme2c.Prelude.{
  if◌then◌else◌, ℕ, ◌-◌, ◌<◌, ◌≡◌, refl, sym, ap, ◌∙◌, Bool, true, false, Bool-cases, inl, inr,
  Option, none, some, List, [], ◌∷◌, ◌==◌, ==_iff, arith, length, get_elem?, set, length-set,
  length-take, length-append, get_elem?-take, get_elem?-set_self, get_elem?-set_ne,
}
use mathlib.Core.Path.{subst}
use scheme2c.Value.{Value, nihil, fixnum, ptr}
use scheme2c.Interpret.Command.{
  VarInfo, Cat, cat_l, cat_g, cat_k, var_cat, varinf_set, descr_of, Operand, Expr, operand, lambda,
  Vmi, lit, lmd, var_lit, var_var, var, prep, Lcod, ret, mark, if_not, jmp,
}
use scheme2c.Interpret.Command as Command
use scheme2c.Interpret.Encode.{
  vmi_set_xy, vmi_set_xr, vmi_def_xy, vmi_def_xr, vmi_ret_x, vmi_prep_x, vmi_if_x, vmi_jmp,
  vmi_ret_r, vmi_call, vmi_retcall,
}
use scheme2c.Interpret.Create.{
  Icod, Made, made, fatal, assertion, made_from, icod_add, add_made, is_set_of, top_of, removes,
  without_top, icod_add_lmd, push_args, icod_add_call, with_lit, patched, patch_with, find_pending,
  rem_pending, marked, mark_at, waits, add_jump, add_expr, add_ret, icod_instr, icod_loop,
}
use scheme2c.Interpret.Walk.{Holds, Closed, add_made-Holds, push_args-Holds, icod_loop-Holds}
use scheme2c.Interpret.Jumps.{get_elem?-before, get_elem?-end}
use scheme2c.Interpret.Lasting.{
  shape, first_expr, first_ret, first_command, Lasting, prep_x-Lasting, if_x-Lasting,
  set_xy-Lasting, def_xy-Lasting, first_expr-Lasting, first_ret-Lasting, shape-is_set_of,
  with_lit-shape,
}

-- The command at an index, without its literal.
abbrev Stays : ℕ → Option Vmi → Icod → Type 0
Stays n o s = (shape (get_elem? s.icod n) ≡ o) × (n < length s.icod)

module _ (n : ℕ) (o : Option Vmi) (lasting : Lasting o) where
  Stays-adds : (s : Icod) (x : Vmi) → Stays n o s → Stays n o (icod_add s x)
  Stays-adds s x (e, l) =
      (rw (get_elem?-before s.icod (x ∷ []) n l) e, omega (arith, l, length-append s.icod (x ∷ [])))

  Stays-pops :
      (s : Icod) (fr ix : ℕ)
      → is_set_of (top_of s.icod) fr ix ≡ true
      → Stays n o s
      → Stays n o (without_top s)
  Stays-pops s fr ix t (e, l) = elim (Bool-cases (n == (length s.icod - 1))) [
    | inr differs ↦
        let below : n < length s.icod - 1 = ground arith in
        (
          rw (get_elem?-take (length s.icod - 1) n s.icod below) e,
          omega (arith, below, length-take (length s.icod - 1) s.icod),
        )
    | inl same ↦
        let at_top = ap (λ j. get_elem? s.icod j) ((==_iff n (length s.icod - 1)).0 same) in
        absurd (
          true_ne (
            sym t
            ∙ ap (λ p. is_set_of p fr ix) (sym at_top)
            ∙ sym (shape-is_set_of (get_elem? s.icod n) fr ix)
            ∙ ap (λ p. is_set_of p fr ix) e
            ∙ lasting fr ix))
  ]
    where
      true_ne : true ≡ false → ⊥
      true_ne q = cc

  Stays-marks :
      (s : Icod) (m i : ℕ) (x y : Vmi)
      → find_pending m s.pending ≡ some i
      → get_elem? s.icod i ≡ some x
      → with_lit x (fixnum (length s.icod)) ≡ some y
      → Stays n o s
      → Stays n o
          (record { icod = set s.icod i y; prevmark = true; pending = rem_pending m s.pending })
  Stays-marks s m i x y f g h (e, l) = (at_n, omega (arith, l, length-set s.icod i y))
    where
      at_n : shape (get_elem? (set s.icod i y) n) ≡ o
      at_n = elim (Bool-cases (n == i)) [
        | inr differs ↦ rw (get_elem?-set_ne s.icod {i = i} {j = n} y (λ q. ground arith)) e
        | inl same ↦
            let at = (==_iff n i).0 same in
            ap (λ j. shape (get_elem? (set s.icod i y) j)) at
            ∙ ap shape (get_elem?-set_self s.icod i y (omega (arith, at, l)))
            ∙ with_lit-shape x y (fixnum (length s.icod)) h
            ∙ ap shape (sym g)
            ∙ ap (λ j. shape (get_elem? s.icod j)) (sym at)
            ∙ e
      ]

  Stays-Closed : Closed (Stays n o)
  Stays-Closed = record {
    adds = Stays-adds;
    pops = Stays-pops;
    jumps = λ s m x h k. Stays-adds (waits s m) x k;
    marks = Stays-marks;
  }

bind-Holds :
    {P : Icod → Type 0} (Q : Icod → Type 0) (t : Made) (k : Icod → Made)
    → Holds P t
    → ((s : Icod) → P s → Holds Q (k s))
    → Holds Q (made_from t k)
bind-Holds Q (made s) k h f = f s h
bind-Holds Q fatal k h f = tt
bind-Holds Q assertion k h f = tt

map-Holds : {P Q : Icod → Type 0} (t : Made) → ((s : Icod) → P s → Q s) → Holds P t → Holds Q t
map-Holds (made s) f h = f s h
map-Holds fatal f h = tt
map-Holds assertion f h = tt

-- Directly behind a mark no command is taken off.
removes-marked : (s : Icod) (x : Operand) → s.prevmark ≡ true → removes s x ≡ false
removes-marked s (Command.datum (Value.local fr ix)) e = rw e refl
removes-marked s (Command.datum nihil) e = refl
removes-marked s (Command.datum (Value.spec n)) e = refl
removes-marked s (Command.datum (fixnum n)) e = refl
removes-marked s (Command.datum (Value.char n)) e = refl
removes-marked s (Command.datum (Value.global n)) e = refl
removes-marked s (Command.datum (ptr n)) e = refl
removes-marked s (Command.ident p v) e = refl

-- What stands at the end of the commands of `s` in a later state.
abbrev Next : Icod → Option Vmi → Icod → Type 0
Next s o t = Stays (length s.icod) (shape o) t

Next-add : (s : Icod) (x : Vmi) → Next s (some x) (icod_add s x)
Next-add s x = (ap shape (get_elem?-end s.icod x), omega (arith, length-append s.icod (x ∷ [])))

Next-add_made : (s : Icod) (o : Option Vmi) → Holds (Next s o) (add_made s o)
Next-add_made s none = tt
Next-add_made s (some x) = Next-add s x

Next-Closed : (s : Icod) (o : Option Vmi) → Lasting o → Closed (Next s o)
Next-Closed s o h =
    Stays-Closed (length s.icod) (shape o) (λ fr ix. shape-is_set_of o fr ix ∙ h fr ix)

Next-call :
    (s : Icod) (p : Operand) (args : List Operand) (tail : Bool)
    → s.prevmark ≡ true
    → Holds (Next s (vmi_prep_x p (length args) tail)) (icod_add_call s p args tail)
unfolding icod_add_call
Next-call s p args tail e =
    let first = vmi_prep_x p (length args) tail in
    let c = Next-Closed s first (prep_x-Lasting p (length args) tail) in
    rw (removes-marked s p e) (
      bind-Holds _ (add_made s first) _ (Next-add_made s first) (λ t h.
        c.adds (push_args t args) (if tail then vmi_retcall else vmi_call)
          (push_args-Holds c t args h)))

Next-expr :
    (s : Icod) (r : Expr) (simple : Operand → Option Vmi) (through : Option Vmi)
    → s.prevmark ≡ true
    → Holds (Next s (first_expr r simple)) (add_expr s r simple through)
Next-expr s (operand y) simple through e = Next-add_made s (simple y)
Next-expr s (lambda k) simple through e =
    add_made-Holds (Next-Closed s (some (lit lmd (ptr k))) (λ fr ix. refl)) (icod_add_lmd s k)
      through (Next-add s (lit lmd (ptr k)))
Next-expr s (Expr.call p args) simple through e =
    bind-Holds _ (icod_add_call s p args false) _ (Next-call s p args false e) (λ t h.
      add_made-Holds
        (Next-Closed s (vmi_prep_x p (length args) false) (prep_x-Lasting p (length args) false)) t
        through h)

Next-ret : (s : Icod) (r : Expr) → s.prevmark ≡ true → Holds (Next s (first_ret r)) (add_ret s r)
Next-ret s (operand y) e = Next-add s (vmi_ret_x y)
Next-ret s (lambda k) e =
    let c = Next-Closed s (some (lit lmd (ptr k))) (λ fr ix. refl) in
    c.adds (icod_add_lmd s k) vmi_ret_r (Next-add s (lit lmd (ptr k)))
Next-ret s (Expr.call p args) e = Next-call s p args true e

Next-jump : (s : Icod) (m : ℕ) (o : Option Vmi) → Holds (Next s o) (add_jump s m o)
Next-jump s m o = Next-add_made (waits s m) o

-- A mark adds no command.
abbrev Marked : Icod → Icod → Type 0
Marked s t = (t.prevmark ≡ true) × (length t.icod ≡ length s.icod)

marked-Marked :
    (s : Icod) (m i : ℕ) (o : Option Vmi) → Holds (Marked s) (marked s m (patched s.icod i o))
marked-Marked s m i none = tt
marked-Marked s m i (some y) = (refl, length-set s.icod i y)

patched-Marked :
    (s : Icod) (m i : ℕ) (o : Option Vmi)
    → Holds (Marked s) (marked s m (patch_with s.icod i (fixnum (length s.icod)) o))
patched-Marked s m i none = tt
patched-Marked s m i (some x) = marked-Marked s m i (with_lit x (fixnum (length s.icod)))

mark_at-Marked : (s : Icod) (m : ℕ) (o : Option ℕ) → Holds (Marked s) (mark_at s m o)
mark_at-Marked s m none = tt
mark_at-Marked s m (some i) = patched-Marked s m i (get_elem? s.icod i)

get_elem?-length {ℓ} : {A : Type ℓ} (xs : List A) → get_elem? xs (length xs) ≡ none
get_elem?-length [] = refl
get_elem?-length (x ∷ xs) = get_elem?-length xs

abbrev pub At : ℕ → List Lcod → Icod → Type 0
At n ls t = shape (get_elem? t.icod n) ≡ shape (first_command ls)

-- What an instruction puts behind a mark stays there, whatever instructions follow.
followed :
    (s : Icod) (o : Option Vmi) (t : Made) (ls : List Lcod)
    → Lasting o
    → Holds (Next s o) t
    → Holds
        (λ u. shape (get_elem? u.icod (length s.icod)) ≡ shape o)
        (made_from t (λ u. icod_loop u ls))
followed s o t ls h n =
    bind-Holds _ t (λ u. icod_loop u ls) n
      (λ u g. map-Holds (icod_loop u ls) (λ v k. k.0) (icod_loop-Holds (Next-Closed s o h) ls u g))

pub icod_loop-At :
    (ls : List Lcod) (s : Icod) → s.prevmark ≡ true → Holds (At (length s.icod) ls) (icod_loop s ls)
unfolding icod_loop icod_instr
icod_loop-At [] s e = ap shape (get_elem?-length s.icod)
icod_loop-At (mark m ∷ ls) s e =
    bind-Holds _ (mark_at s m (find_pending m s.pending)) (λ t. icod_loop t ls)
      (mark_at-Marked s m (find_pending m s.pending))
      (λ t h. subst (λ n. Holds (At n ls) (icod_loop t ls)) h.1 (icod_loop-At ls t h.0))
icod_loop-At (Command.set x r ∷ ls) s e =
    followed s (first_expr r (vmi_set_xy x)) (add_expr s r (vmi_set_xy x) (vmi_set_xr x)) ls
      (first_expr-Lasting r (vmi_set_xy x) (set_xy-Lasting x))
      (Next-expr s r (vmi_set_xy x) (vmi_set_xr x) e)
icod_loop-At (Command.def x r ∷ ls) s e =
    followed s (first_expr r (vmi_def_xy x)) (add_expr s r (vmi_def_xy x) (vmi_def_xr x)) ls
      (first_expr-Lasting r (vmi_def_xy x) (def_xy-Lasting x))
      (Next-expr s r (vmi_def_xy x) (vmi_def_xr x) e)
icod_loop-At (ret r ∷ ls) s e =
    followed s (first_ret r) (add_ret s r) ls (first_ret-Lasting r) (Next-ret s r e)
icod_loop-At (Command.call p args ∷ ls) s e =
    followed s (vmi_prep_x p (length args) false) (icod_add_call s p args false) ls
      (prep_x-Lasting p (length args) false) (Next-call s p args false e)
icod_loop-At (if_not x m ∷ ls) s e = rw (removes-marked s x e) (
    followed s (vmi_if_x x nihil) (add_jump s m (vmi_if_x x nihil)) ls (if_x-Lasting x)
      (Next-jump s m (vmi_if_x x nihil)))
icod_loop-At (jmp m ∷ ls) s e =
    followed s (some (vmi_jmp nihil)) (add_jump s m (some (vmi_jmp nihil))) ls (λ fr ix. refl)
      (Next-jump s m (some (vmi_jmp nihil)))
