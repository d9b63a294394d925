-- ===== src/Interpret/Marks.antt =====
-- The marks of linear code, and the jumps to them (src/interpret.c: `icod_create`).
use scheme2c.Prelude.{
  length-set, ℕ, suc, ◌-◌, ◌<◌, ◌≡◌, ◌≢◌, refl, sym, ap, ◌∙◌, true, Bool-cases, inl, inr, Option,
  none, some, List, [], ◌∷◌, ◌++◌, ◌==◌, arith, length, get_elem?, set, get_elem?-take,
  get_elem?-set_self, get_elem?-set_ne,
}
use mathlib.Core.Path.{subst}
use scheme2c.Value.{Value, fixnum}
use scheme2c.Interpret.Command.{Vmi, lit, var_lit, Lcod, mark}
use scheme2c.Interpret.Create.{
  Icod, Made, made, fatal, assertion, made_from, icod_add, is_set_of, top_of, without_top, with_lit,
  find_pending, rem_pending, waits, icod_instr, icod_loop, no_icod, icod_create,
}
use scheme2c.Interpret.Lasting.{shape, first_command}
use scheme2c.Interpret.Targets.{At, icod_loop-At}
use scheme2c.Interpret.Walk.{has_lit, Holds, Closed, icod_loop-Holds}
use scheme2c.Interpret.Jumps.{
  Waiting, Sound, get_elem?-before, below_top, with_lit-has_lit, in_range, Sound-Closed,
}

-- The command at an index is not waiting for a mark.
abbrev pub Absent : ℕ → List (ℕ × ℕ) → Type 0
Absent i [] = Unit {0}
Absent i ((k, j) ∷ ps) = (j ≢ i) × Absent i ps

Absent-rem : (i m : ℕ) (ps : List (ℕ × ℕ)) → Absent i ps → Absent i (rem_pending m ps)
Absent-rem i m [] a = tt
Absent-rem i m ((k, j) ∷ ps) a = elim (Bool-cases (k == m)) [
  | inl same ↦ rw same (Absent-rem i m ps a.1)
  | inr differs ↦ rw differs (a.0, Absent-rem i m ps a.1)
]

-- All that wait stand below the bound.
Waiting-Absent :
    (icod : List Vmi) (b i : ℕ) (ps : List (ℕ × ℕ)) → Waiting icod b ps → b < suc i → Absent i ps
Waiting-Absent icod b i [] w l = tt
Waiting-Absent icod b i ((k, j) ∷ ps) w l =
    (λ e. omega (arith, w.0, e), Waiting-Absent icod j i ps w.2 (omega (arith, w.0)))

found_below :
    (icod : List Vmi) (b m i : ℕ) (ps : List (ℕ × ℕ))
    → Waiting icod b ps
    → find_pending m ps ≡ some i
    → (i < b) × (has_lit (get_elem? icod i) ≡ true)
found_below icod b m i [] w e = absurd (cc)
found_below icod b m i ((k, j) ∷ ps) w e = elim (Bool-cases (k == m)) [
  | inl same ↦ subst (λ n. (n < b) × (has_lit (get_elem? icod n) ≡ true)) (here same) (w.0, w.1)
  | inr differs ↦
      let (l, h) = found_below icod j m i ps w.2 (rw differs at e) in (omega (arith, w.0), h)
]
  where
    here : (k == m) ≡ true → j ≡ i
    here same = some_inj (rw same at e)
      where
        some_inj : some j ≡ some i → j ≡ i
        some_inj q = cc

-- The command that waited for a mark waits for no other.
found_once :
    (icod : List Vmi) (b m i : ℕ) (ps : List (ℕ × ℕ))
    → Waiting icod b ps
    → find_pending m ps ≡ some i
    → Absent i (rem_pending m ps)
found_once icod b m i [] w e = tt
found_once icod b m i ((k, j) ∷ ps) w e = elim (Bool-cases (k == m)) [
  | inl same ↦
      rw same (
        Absent-rem i m ps (Waiting-Absent icod j i ps w.2 (omega (arith, some_inj (rw same at e)))))
  | inr differs ↦
      let below = (found_below icod j m i ps w.2 (rw differs at e)).0 in
      rw differs (λ q. omega (arith, below, q), found_once icod j m i ps w.2 (rw differs at e))
]
  where
    some_inj : some j ≡ some i → j ≡ i
    some_inj q = cc

-- A command that is not waiting stays as it is.
abbrev pub Fixed : (i : ℕ) → (x : Vmi) → Icod → Type 0
Fixed i x s = (get_elem? s.icod i ≡ some x) × Absent i s.pending

module _ (i : ℕ) (x : Vmi) (has : has_lit (some x) ≡ true) where
  Fixed-adds : (s : Icod) (y : Vmi) → Fixed i x s → Fixed i x (icod_add s y)
  Fixed-adds s y (e, a) = (rw (get_elem?-before s.icod (y ∷ []) i (in_range s.icod i x e)) e, a)

  Fixed-pops :
      (s : Icod) (fr ix : ℕ)
      → is_set_of (top_of s.icod) fr ix ≡ true
      → Fixed i x s
      → Fixed i x (without_top s)
  Fixed-pops s fr ix t (e, a) =
      let h = ap has_lit e ∙ has in
      let l = below_top s.icod fr ix i t h (in_range s.icod i x e) in
      (rw (get_elem?-take (length s.icod - 1) i s.icod l) e, a)

  Fixed-jumps :
      (s : Icod) (m : ℕ) (y : Vmi)
      → has_lit (some y) ≡ true
      → Fixed i x s
      → Fixed i x (icod_add (waits s m) y)
  Fixed-jumps s m y h (e, a) =
      let l = in_range s.icod i x e in
      (
        rw (get_elem?-before s.icod (y ∷ []) i l) e,
        (λ q. omega (arith, l, q), Absent-rem i m s.pending a),
      )

  found_other : (m j : ℕ) (ps : List (ℕ × ℕ)) → Absent i ps → find_pending m ps ≡ some j → j ≢ i
  found_other m j [] a e = absurd (cc)
  found_other m j ((k, n) ∷ ps) a e = elim (Bool-cases (k == m)) [
    | inl same ↦ subst (λ o. o ≢ i) (some_inj (rw same at e)) a.0
    | inr differs ↦ found_other m j ps a.1 (rw differs at e)
  ]
    where
      some_inj : some n ≡ some j → n ≡ j
      some_inj q = cc

  Fixed-marks :
      (s : Icod) (m j : ℕ) (y z : Vmi)
      → find_pending m s.pending ≡ some j
      → get_elem? s.icod j ≡ some y
      → with_lit y (fixnum (length s.icod)) ≡ some z
      → Fixed i x s
      → Fixed i x
          (record { icod = set s.icod j z; prevmark = true; pending = rem_pending m s.pending })
  Fixed-marks s m j y z f g h (e, a) = (
    rw (get_elem?-set_ne s.icod {i = j} {j = i} z (found_other m j s.pending a f)) e,
    Absent-rem i m s.pending a,
  )

  Fixed-Closed : Closed (Fixed i x)
  Fixed-Closed = record {
    adds = Fixed-adds;
    pops = Fixed-pops;
    jumps = Fixed-jumps;
    marks = Fixed-marks;
  }

icod_loop-append :
    (xs ys : List Lcod) (s : Icod)
    → icod_loop s (xs ++ ys) ≡ made_from (icod_loop s xs) (λ t. icod_loop t ys)
unfolding icod_loop
icod_loop-append [] ys s = refl
icod_loop-append (x ∷ xs) ys s = first (icod_loop-append xs ys) (icod_instr s x)
  where
    first :
        ((u : Icod) → icod_loop u (xs ++ ys) ≡ made_from (icod_loop u xs) (λ t. icod_loop t ys))
        → (t : Made)
        → made_from t (λ u. icod_loop u (xs ++ ys))
          ≡ made_from (made_from t (λ u. icod_loop u xs)) (λ u. icod_loop u ys)
    first more (made u) = more u
    first more fatal = refl
    first more assertion = refl

Holds-made : (P : Icod → Type 0) (t : Made) (s : Icod) → t ≡ made s → Holds P t → P s
Holds-made P t s e h = subst (Holds P) e h

-- A command with a literal, and with another one.
with_another :
    (o : Option Vmi) (to : Value)
    → has_lit o ≡ true
    → (x : Vmi) × (y : Vmi) × (o ≡ some x) × (with_lit x to ≡ some y)
with_another none to h = absurd (cc)
with_another (some (lit op d)) to h = (lit op d, lit op to, refl, refl)
with_another (some (var_lit op v d)) to h = (var_lit op v d, var_lit op v to, refl, refl)
with_another (some _) to h = absurd (cc)

-- A mark in the linear code, with the code in front of it encoded and a command there that waits for
-- it: in the whole code that command is at the same index with the number of the commands in front of
-- the mark for its literal, and at that number stands the first command of the instruction behind the
-- mark (further marks left out; no command if there is no instruction), its own literal aside. So the
-- jump goes to what the mark stands before, whatever follows: commands that are taken off later, or
-- that other marks change, are neither of these two.
pub marks_resolved :
    (before after : List Lcod) (m i : ℕ) (s1 s : Icod)
    → icod_create before ≡ made s1
    → find_pending m s1.pending ≡ some i
    → icod_create (before ++ (mark m ∷ after)) ≡ made s
    → (x : Vmi) × (y : Vmi) × (get_elem? s1.icod i ≡ some x)
      × (with_lit x (fixnum (length s1.icod)) ≡ some y)
      × (get_elem? s.icod i ≡ some y)
      × (shape (get_elem? s.icod (length s1.icod)) ≡ shape (first_command after))
unfolding icod_create icod_loop icod_instr
marks_resolved before after m i s1 s e f g =
    let w =
      Holds-made Sound (icod_loop no_icod before) s1 e
        (icod_loop-Holds Sound-Closed before no_icod tt) in
    let below = found_below s1.icod (length s1.icod) m i s1.pending w f in
    let to = fixnum (length s1.icod) in
    let (x, y, at_i, new) = with_another (get_elem? s1.icod i) to below.1 in
    let s2 : Icod = record {
      icod = set s1.icod i y;
      prevmark = true;
      pending = rem_pending m s1.pending;
    } in
    let whole : icod_loop s2 after ≡ made s =
      sym (rw (f, at_i, new) refl)
      ∙ sym (ap (λ t. made_from t (λ u. icod_loop u (mark m ∷ after))) e)
      ∙ sym (icod_loop-append before (mark m ∷ after) no_icod)
      ∙ g in
    let fixed : Fixed i y s2 = (
      get_elem?-set_self s1.icod i y below.0,
      found_once s1.icod (length s1.icod) m i s1.pending w f,
    ) in
    let kept =
      Holds-made (Fixed i y) (icod_loop s2 after) s whole
        (icod_loop-Holds (Fixed-Closed i y (with_lit-has_lit x y to new)) after s2 fixed) in
    let target =
      Holds-made (At (length s2.icod) after) (icod_loop s2 after) s whole
        (icod_loop-At after s2 refl) in
    (x, y, at_i, new, kept.0, subst (λ n. At n after s) (length-set s1.icod i y) target)
