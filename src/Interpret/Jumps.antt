-- ===== src/Interpret/Jumps.antt =====
-- Where the jumps of `icod_create` (src/interpret.c) go.
use scheme2c.Prelude.{
  ℕ, zero, suc, ◌-◌, ◌<◌, ◌≤◌, ◌≡◌, refl, sym, ap, ◌∙◌, true, false, Bool-cases, inl, inr, Option,
  none, some, List, [], ◌∷◌, ◌++◌, ◌==◌, ==_iff, arith, length, get_elem?, set, take, length-append,
  length-set, length-take, get_elem?-take, get_elem?-set_self, get_elem?-set_ne,
}
use mathlib.Core.Path.{subst}
use scheme2c.Value.{Value, fixnum}
use scheme2c.Interpret.Command.{Vmi, lit, var_lit}
use scheme2c.Interpret.Create.{
  Icod, icod_add, is_set_of, top_of, without_top, with_lit, find_pending, rem_pending, waits,
}
use scheme2c.Interpret.Walk.{has_lit, Closed}

-- The commands that wait for a mark: they are there, have a literal, and their indices go down.
abbrev pub Waiting : List Vmi → (bound : ℕ) → List (ℕ × ℕ) → Type 0
Waiting icod b [] = Unit {0}
Waiting icod b ((k, i) ∷ ps) = (i < b) × (has_lit (get_elem? icod i) ≡ true) × Waiting icod i ps

abbrev pub Sound : Icod → Type 0
Sound s = Waiting s.icod (length s.icod) s.pending

pub get_elem?-before {ℓ} :
    {A : Type ℓ} (xs ys : List A) (i : ℕ) → i < length xs → get_elem? (xs ++ ys) i ≡ get_elem? xs i
get_elem?-before [] ys i h = elim h [ ]
get_elem?-before (x ∷ xs) ys zero h = refl
get_elem?-before (x ∷ xs) ys (suc i) h = get_elem?-before xs ys i (omega arith)

pub get_elem?-end {ℓ} :
    {A : Type ℓ} (xs : List A) (y : A) → get_elem? (xs ++ (y ∷ [])) (length xs) ≡ some y
get_elem?-end [] y = refl
get_elem?-end (x ∷ xs) y = get_elem?-end xs y

pub Waiting-weaken :
    (icod : List Vmi) (a b : ℕ) (ps : List (ℕ × ℕ)) → a ≤ b → Waiting icod a ps → Waiting icod b ps
Waiting-weaken icod a b [] l w = tt
Waiting-weaken icod a b ((k, i) ∷ ps) l w = (omega (arith, w.0), w.1, w.2)

pub Waiting-rem :
    (icod : List Vmi) (b m : ℕ) (ps : List (ℕ × ℕ))
    → Waiting icod b ps
    → Waiting icod b (rem_pending m ps)
Waiting-rem icod b m [] w = tt
Waiting-rem icod b m ((k, i) ∷ ps) w = elim (Bool-cases (k == m)) [
  | inl same ↦ rw same (
      Waiting-weaken icod i b (rem_pending m ps) (omega (arith, w.0)) (Waiting-rem icod i m ps w.2))
  | inr differs ↦ rw differs (w.0, w.1, Waiting-rem icod i m ps w.2)
]

-- Commands that agree below the bound.
Waiting-agree :
    (icod other : List Vmi) (b : ℕ) (ps : List (ℕ × ℕ))
    → ((i : ℕ) → i < b → has_lit (get_elem? icod i) ≡ true → has_lit (get_elem? other i) ≡ true)
    → Waiting icod b ps
    → Waiting other b ps
Waiting-agree icod other b [] f w = tt
Waiting-agree icod other b ((k, i) ∷ ps) f w =
    (w.0, f i w.0 w.1, Waiting-agree icod other i ps (λ j l h. f j (omega (arith, w.0)) h) w.2)

top_no_lit : (o : Option Vmi) (fr ix : ℕ) → is_set_of o fr ix ≡ true → has_lit o ≡ false
top_no_lit none fr ix e = refl
top_no_lit (some (lit op d)) fr ix e = absurd (cc)
top_no_lit (some (var_lit op v d)) fr ix e = absurd (cc)
top_no_lit (some _) fr ix e = refl

pub below_top :
    (icod : List Vmi) (fr ix i : ℕ)
    → is_set_of (top_of icod) fr ix ≡ true
    → has_lit (get_elem? icod i) ≡ true
    → i < length icod
    → i < length icod - 1
below_top icod fr ix i e h l = elim (Bool-cases (i == (length icod - 1))) [
  | inr differs ↦ ground arith
  | inl same ↦
      let at_top = ap (λ j. has_lit (get_elem? icod j)) ((==_iff i (length icod - 1)).0 same) in
      let no_lit = sym h ∙ at_top ∙ top_no_lit (top_of icod) fr ix e in absurd (true_ne no_lit)
]
  where
    true_ne : true ≡ false → ⊥
    true_ne e = cc

Waiting-below :
    (icod : List Vmi) (b n : ℕ) (ps : List (ℕ × ℕ))
    → ((i : ℕ) → i < b → has_lit (get_elem? icod i) ≡ true → i < n)
    → Waiting icod b ps
    → Waiting icod n ps
Waiting-below icod b n [] f w = tt
Waiting-below icod b n ((k, i) ∷ ps) f w = (f i w.0 w.1, w.1, w.2)

pub with_lit-has_lit : (x y : Vmi) (to : Value) → with_lit x to ≡ some y → has_lit (some y) ≡ true
with_lit-has_lit (lit op d) y to e = subst (λ o. has_lit o ≡ true) e refl
with_lit-has_lit (var_lit op v d) y to e = subst (λ o. has_lit o ≡ true) e refl
with_lit-has_lit _ y to e = absurd (cc)

pub in_range {ℓ} :
    {A : Type ℓ} (xs : List A) (i : ℕ) (x : A) → get_elem? xs i ≡ some x → i < length xs
in_range [] i x e = absurd (cc)
in_range (y ∷ ys) zero x e = omega arith
in_range (y ∷ ys) (suc i) x e = omega (arith, in_range ys i x e)

Sound-adds : (s : Icod) (x : Vmi) → Sound s → Sound (icod_add s x)
Sound-adds s x w =
    Waiting-weaken (s.icod ++ (x ∷ [])) (length s.icod) (length (s.icod ++ (x ∷ []))) s.pending
      (omega (arith, length-append s.icod (x ∷ [])))
      (Waiting-agree s.icod (s.icod ++ (x ∷ [])) (length s.icod) s.pending
        (λ i l h. rw (get_elem?-before s.icod (x ∷ []) i l) h) w)

Sound-pops :
    (s : Icod) (fr ix : ℕ)
    → is_set_of (top_of s.icod) fr ix ≡ true
    → Sound s
    → Sound (without_top s)
Sound-pops s fr ix e w =
    let n = length s.icod - 1 in
    let shorter =
      Waiting-agree s.icod (take n s.icod) n s.pending (λ i l h. rw (get_elem?-take n i s.icod l) h)
        (Waiting-below s.icod (length s.icod) n s.pending (λ i l h. below_top s.icod fr ix i e h l)
          w) in
    subst (λ b. Waiting (take n s.icod) b s.pending) (omega (arith, length-take n s.icod)) shorter

Sound-jumps :
    (s : Icod) (m : ℕ) (x : Vmi)
    → has_lit (some x) ≡ true
    → Sound s
    → Sound (icod_add (waits s m) x)
Sound-jumps s m x h w = (
  omega (arith, length-append s.icod (x ∷ [])),
  rw (get_elem?-end s.icod x) h,
  Waiting-rem (s.icod ++ (x ∷ [])) (length s.icod) m s.pending (
      Waiting-agree s.icod (s.icod ++ (x ∷ [])) (length s.icod) s.pending
        (λ i l h. rw (get_elem?-before s.icod (x ∷ []) i l) h) w),
)

set-has_lit :
    (icod : List Vmi) (i j : ℕ) (y : Vmi)
    → has_lit (some y) ≡ true
    → j < length icod
    → has_lit (get_elem? icod j) ≡ true
    → has_lit (get_elem? (set icod i y) j) ≡ true
set-has_lit icod i j y h l e = elim (Bool-cases (j == i)) [
  | inl same ↦ let at = (==_iff j i).0 same in rw (sym at, get_elem?-set_self icod j y l) h
  | inr differs ↦ rw (get_elem?-set_ne icod {i = i} {j = j} y (λ q. ground arith)) e
]

Sound-marks :
    (s : Icod) (m i : ℕ) (x y : Vmi)
    → find_pending m s.pending ≡ some i
    → get_elem? s.icod i ≡ some x
    → with_lit x (fixnum (length s.icod)) ≡ some y
    → Sound s
    → Sound (record { icod = set s.icod i y; prevmark = true; pending = rem_pending m s.pending })
Sound-marks s m i x y e f g w =
    subst (λ b. Waiting (set s.icod i y) b (rem_pending m s.pending)) (sym (length-set s.icod i y))
      (Waiting-rem (set s.icod i y) (length s.icod) m s.pending (
        Waiting-agree s.icod (set s.icod i y) (length s.icod) s.pending
          (λ j l h. set-has_lit s.icod i j y (with_lit-has_lit x y (fixnum (length s.icod)) g) l h)
          w))

pub Sound-Closed : Closed Sound
Sound-Closed = record {
  adds = Sound-adds;
  pops = Sound-pops;
  jumps = Sound-jumps;
  marks = Sound-marks;
}
