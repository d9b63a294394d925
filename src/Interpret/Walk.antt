-- ===== src/Interpret/Walk.antt =====
-- What every step of `icod_create` (src/interpret.c) keeps, the whole of it keeps.
use scheme2c.Prelude.{
  ℕ, ◌≡◌, refl, Bool, true, false, not, ◌&&◌, inl, inr, Bool-cases, Option, none, some, List, [],
  ◌∷◌, leb, length, get_elem?, set, if◌then◌else◌,
}
use scheme2c.Value.{Value, nihil, fixnum, local, global, spec, char, ptr}
use scheme2c.Interpret.Command.{
  Cat, varinf_set, var_cat, Operand, ident, datum, Expr, operand, lambda, Lcod, ret, mark, if_not,
  jmp, Vmi, var_lit, lit, lmd,
}
use mathlib.Core.Path.{subst}
use scheme2c.Interpret.Command as Command
use scheme2c.Interpret.Encode.{
  vmi_set_xy, vmi_set_xr, vmi_def_xy, vmi_def_xr, vmi_ret_x, vmi_argpush, vmi_prep_x, vmi_prep_r,
  vmi_if_x, vmi_if_r, vmi_jmp, vmi_ret_r, vmi_call, vmi_retcall, by_cat, if_code,
}
use scheme2c.Interpret.Create.{
  Icod, Made, made, fatal, assertion, made_from, icod_add, add_made, is_set_of, top_of, removes,
  without_top, icod_add_lmd, push_args, icod_add_call, with_lit, patched, patch_with, find_pending,
  rem_pending, marked, mark_at, waits, add_jump, add_expr, add_ret, icod_instr, icod_loop,
}

-- A command with a literal, as the jumps have one.
abbrev pub has_lit : Option Vmi → Bool
has_lit (some (lit op d)) = true
has_lit (some (var_lit op v d)) = true
has_lit _ = false

abbrev pub Holds : (P : Icod → Type 0) → Made → Type 0
Holds P (made s) = P s
Holds P _ = Unit {0}

pub record Closed (P : Icod → Type 0) : Type 0 where
  pub adds : (s : Icod) (x : Vmi) → P s → P (icod_add s x)
  pub pops :
      (s : Icod) (fr ix : ℕ) → is_set_of (top_of s.icod) fr ix ≡ true → P s → P (without_top s)
  pub jumps :
      (s : Icod) (m : ℕ) (x : Vmi) → has_lit (some x) ≡ true → P s → P (icod_add (waits s m) x)
  pub marks :
      (s : Icod) (m i : ℕ) (x y : Vmi)
      → find_pending m s.pending ≡ some i
      → get_elem? s.icod i ≡ some x
      → with_lit x (fixnum (length s.icod)) ≡ some y
      → P s
      → P (record { icod = set s.icod i y; prevmark = true; pending = rem_pending m s.pending })

module _ {P : Icod → Type 0} (c : Closed P) where
  from-Holds :
      (t : Made) (k : Icod → Made)
      → Holds P t
      → ((s : Icod) → P s → Holds P (k s))
      → Holds P (made_from t k)
  from-Holds (made s) k h f = f s h
  from-Holds fatal k h f = tt
  from-Holds assertion k h f = tt

  pub add_made-Holds : (s : Icod) (o : Option Vmi) → P s → Holds P (add_made s o)
  add_made-Holds s none h = tt
  add_made-Holds s (some x) h = c.adds s x h

  pub push_args-Holds : (s : Icod) (xs : List Operand) → P s → P (push_args s xs)
  push_args-Holds s [] h = h
  push_args-Holds s (x ∷ xs) h =
      push_args-Holds (icod_add s (vmi_argpush x)) xs (c.adds s (vmi_argpush x) h)

  set_of-and : (a b d : Bool) → ((a && b) && d) ≡ true → d ≡ true
  set_of-and true true d e = e
  set_of-and true false d e = absurd (cc)
  set_of-and false b d e = absurd (cc)

  pop-Holds : (s : Icod) (x : Operand) → removes s x ≡ true → P s → P (without_top s)
  pop-Holds s (datum (local fr ix)) e h =
      c.pops s fr ix
        (set_of-and (not s.prevmark) (leb 2 (length s.icod)) (is_set_of (top_of s.icod) fr ix) e) h
  pop-Holds s (datum nihil) e h = absurd (cc)
  pop-Holds s (datum (spec n)) e h = absurd (cc)
  pop-Holds s (datum (fixnum n)) e h = absurd (cc)
  pop-Holds s (datum (char n)) e h = absurd (cc)
  pop-Holds s (datum (global n)) e h = absurd (cc)
  pop-Holds s (datum (ptr n)) e h = absurd (cc)
  pop-Holds s (ident p v) e h = absurd (cc)

  call-Holds :
      (s : Icod) (p : Operand) (args : List Operand) (tail : Bool)
      → P s
      → Holds P (icod_add_call s p args tail)
  unfolding icod_add_call
  call-Holds s p args tail h = elim (Bool-cases (removes s p)) [
    | inl pop ↦ rw pop (
        c.adds (push_args (icod_add (without_top s) (vmi_prep_r (length args) tail)) args)
          (if tail then vmi_retcall else vmi_call)
          (push_args-Holds (icod_add (without_top s) (vmi_prep_r (length args) tail)) args
            (c.adds (without_top s) (vmi_prep_r (length args) tail) (pop-Holds s p pop h))))
    | inr keep ↦ rw keep (
        from-Holds (add_made s (vmi_prep_x p (length args) tail)) _
          (add_made-Holds s (vmi_prep_x p (length args) tail) h)
          (λ t g.
            c.adds (push_args t args) (if tail then vmi_retcall else vmi_call)
              (push_args-Holds t args g)))
  ]

  expr-Holds :
      (s : Icod) (e : Expr) (simple : Operand → Option Vmi) (through : Option Vmi)
      → P s
      → Holds P (add_expr s e simple through)
  expr-Holds s (operand y) simple through h = add_made-Holds s (simple y) h
  expr-Holds s (lambda k) simple through h =
      add_made-Holds (icod_add_lmd s k) through (c.adds s (lit lmd (ptr k)) h)
  expr-Holds s (Expr.call p args) simple through h =
      from-Holds (icod_add_call s p args false) _ (call-Holds s p args false h)
        (λ t g. add_made-Holds t through g)

  ret-Holds : (s : Icod) (e : Expr) → P s → Holds P (add_ret s e)
  ret-Holds s (operand y) h = c.adds s (vmi_ret_x y) h
  ret-Holds s (lambda k) h = c.adds (icod_add_lmd s k) vmi_ret_r (c.adds s (lit lmd (ptr k)) h)
  ret-Holds s (Expr.call p args) h = call-Holds s p args true h

  jump-Holds :
      (s : Icod) (m : ℕ) (o : Option Vmi)
      → ((x : Vmi) → o ≡ some x → has_lit (some x) ≡ true)
      → P s
      → Holds P (add_jump s m o)
  jump-Holds s m none l h = tt
  jump-Holds s m (some x) l h = c.jumps s m x (l x refl) h

  mark-Holds : (s : Icod) (m : ℕ) → P s → Holds P (mark_at s m (find_pending m s.pending))
  mark-Holds s m h = at (find_pending m s.pending) refl
    where
      lits :
          (i : ℕ) (x : Vmi) (o : Option Vmi)
          → find_pending m s.pending ≡ some i
          → get_elem? s.icod i ≡ some x
          → with_lit x (fixnum (length s.icod)) ≡ o
          → Holds P (marked s m (patched s.icod i o))
      lits i x none e f g = tt
      lits i x (some y) e f g = c.marks s m i x y e f g h

      cmds :
          (i : ℕ) (o : Option Vmi)
          → find_pending m s.pending ≡ some i
          → get_elem? s.icod i ≡ o
          → Holds P (marked s m (patch_with s.icod i (fixnum (length s.icod)) o))
      cmds i none e f = tt
      cmds i (some x) e f = lits i x (with_lit x (fixnum (length s.icod))) e f refl

      at : (o : Option ℕ) → find_pending m s.pending ≡ o → Holds P (mark_at s m o)
      at none e = tt
      at (some i) e = cmds i (get_elem? s.icod i) e refl

  if_x-lit : (x : Operand) (to : Value) (y : Vmi) → vmi_if_x x to ≡ some y → has_lit (some y) ≡ true
  unfolding vmi_if_x
  if_x-lit x to y e = by (var_cat x) e
    where
      by :
          (o : Option Cat)
          → by_cat (λ k. var_lit (if_code k) (varinf_set x) to) o ≡ some y
          → has_lit (some y) ≡ true
      by none e = absurd (cc)
      by (some k) e = subst (λ o. has_lit o ≡ true) e refl

  lit-lit : (x y : Vmi) → has_lit (some x) ≡ true → some x ≡ some y → has_lit (some y) ≡ true
  lit-lit x y h e = subst (λ o. has_lit o ≡ true) e h

  pub icod_instr-Holds : (s : Icod) (l : Lcod) → P s → Holds P (icod_instr s l)
  unfolding icod_instr
  icod_instr-Holds s (Command.set x r) h = expr-Holds s r (vmi_set_xy x) (vmi_set_xr x) h
  icod_instr-Holds s (Command.def x r) h = expr-Holds s r (vmi_def_xy x) (vmi_def_xr x) h
  icod_instr-Holds s (ret r) h = ret-Holds s r h
  icod_instr-Holds s (Command.call p args) h = call-Holds s p args false h
  icod_instr-Holds s (mark m) h = mark-Holds s m h
  icod_instr-Holds s (jmp m) h =
      jump-Holds s m (some (vmi_jmp nihil)) (λ x e. lit-lit (vmi_jmp nihil) x refl e) h
  icod_instr-Holds s (if_not x m) h = elim (Bool-cases (removes s x)) [
    | inl pop ↦ rw pop (
        jump-Holds (without_top s) m (some (vmi_if_r nihil))
          (λ y e. lit-lit (vmi_if_r nihil) y refl e) (pop-Holds s x pop h))
    | inr keep ↦ rw keep (jump-Holds s m (vmi_if_x x nihil) (λ y e. if_x-lit x nihil y e) h)
  ]

  pub icod_loop-Holds : (ls : List Lcod) (s : Icod) → P s → Holds P (icod_loop s ls)
  unfolding icod_loop
  icod_loop-Holds [] s h = h
  icod_loop-Holds (l ∷ ls) s h =
      from-Holds (icod_instr s l) (λ t. icod_loop t ls) (icod_instr-Holds s l h)
        (λ t g. icod_loop-Holds ls t g)
