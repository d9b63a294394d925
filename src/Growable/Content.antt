-- ===== src/Growable/Content.antt =====
-- The containers as sequences of their items, which forget the capacity.
use scheme2c.Prelude.{
  take-append_self, take-take, get_elem?-append_self, get_elem?-take, ℕ, zero, suc, ◌-◌, ◌*◌, ◌≤◌,
  ◌<◌, ◌≡◌, refl, sym, ap, ◌∙◌, inl, inr, true, false, some, List, [], ◌∷◌, ◌++◌, arith, ltb, ◌==◌,
  ltb→lt, lt→ltb, Bool-cases, length, get_elem?, length-append, length-set, take, replicate,
  take-set, take-append, length-take, length-replicate,
}
use mathlib.Core.Path.{subst}
use scheme2c.Value.{Value, nihil}
use scheme2c.Growable.{
  Step, with_slot, Stack, ok, out_of_range, put_slot, copied, astk_push, astk_pop,
}

-- The items, the top last.
abbrev pub items : Stack → List Value
items s = take s.ptr s.slots

abbrev pub Sound : Stack → Type 0
Sound s = (s.ptr ≤ length s.slots) × (0 < length s.slots)

abbrev pub Pushed : (before : List Value) → Value → Step Stack → Type 0
Pushed xs v (ok s) = (items s ≡ xs ++ (v ∷ [])) × Sound s
Pushed xs v _ = ⊥

pub length-copied :
    (n count : ℕ) (vs : List Value) → n ≤ length vs → n ≤ count → length (copied n count vs) ≡ count
length-copied n count vs h k = omega (
  arith,
  length-append (take n vs) (replicate (count - n) nihil),
  length-take n vs,
  length-replicate (count - n) nihil,
)

written :
    (vs : List Value) (ptr : ℕ) (v : Value)
    → ptr < length vs
    → Pushed (take ptr vs) v (with_slot (put_slot vs ptr v) (suc ptr))
written vs ptr v h =
    let e = lt→ltb ptr (length vs) h in
    let l = length-set vs ptr v in rw e (take-set vs ptr v h, (omega arith, omega arith))

-- A push on a stack of sound state never fails: it adds the value at the top, behind the other items
-- in their order, whether the stack had room or was copied into a larger one, and the state is sound
-- again.
pub astk_push-items : (s : Stack) (v : Value) → Sound s → Pushed (items s) v (astk_push s v)
unfolding astk_push
astk_push-items s v sound = elim (Bool-cases (ltb s.ptr (length s.slots))) [
  | inl room ↦
      let h = ltb→lt s.ptr (length s.slots) room in
      let l = length-set s.slots s.ptr v in
      rw room (take-set s.slots s.ptr v h, (omega arith, omega arith))
  | inr full ↦
      let e : s.ptr ≡ length s.slots = ground arith in
      let at_end : (s.ptr == length s.slots) ≡ true = ground arith in
      let c = copied s.ptr (2 * length s.slots) s.slots in
      let l = length-copied s.ptr (2 * length s.slots) s.slots (omega arith) (omega arith) in
      let kept =
        take-append s.ptr s.slots (replicate (2 * length s.slots - s.ptr) nihil) (omega arith) in
      rw (full, at_end)
        (subst (λ xs. Pushed xs v (with_slot (put_slot c s.ptr v) (suc s.ptr))) kept
          (written c s.ptr v (omega arith)))
]

abbrev pub Popped : (below : List Value) → Value → Step (Value × Stack) → Type 0
Popped xs v (ok r) = (r.0 ≡ v) × ((items r.1 ≡ xs) × Sound r.1)
Popped xs v _ = ⊥

-- The last of the first items of an array, and what is below it.
pub take-last :
    (slots : List Value) (n : ℕ) (xs : List Value) (v : Value)
    → suc n ≤ length slots
    → take (suc n) slots ≡ xs ++ (v ∷ [])
    → n ≡ length xs
    → (get_elem? slots n ≡ some v) × (take n slots ≡ xs)
take-last slots n xs v h e len = (
  sym (get_elem?-take (suc n) n slots (omega arith))
      ∙ ap (λ ys. get_elem? ys n) e
      ∙ ap (λ m. get_elem? (xs ++ (v ∷ [])) m) len
      ∙ get_elem?-append_self xs v,
  sym (take-take n slots)
      ∙ ap (take n) e
      ∙ ap (λ m. take m (xs ++ (v ∷ []))) len
      ∙ take-append_self xs (v ∷ []),
)

popped :
    (slots : List Value) (n : ℕ) (xs : List Value) (v : Value)
    → suc n ≤ length slots
    → take (suc n) slots ≡ xs ++ (v ∷ [])
    → Popped xs v (astk_pop (record { slots = slots; ptr = suc n }))
unfolding astk_pop
popped slots n xs v h e =
    let whole = ap length e in
    let len : n ≡ length xs = omega (arith, length-take (suc n) slots, length-append xs (v ∷ [])) in
    let (there, below) = take-last slots n xs v h e len in
    let zero_not : (suc n == 0) ≡ false = ground arith in
    let back : suc n - 1 ≡ n = omega arith in
    rw (zero_not, back, there) (refl, (below, (omega arith, omega arith)))

-- A pop from a stack of sound state whose top is `v` takes `v` and leaves the items below it in their
-- order, in a sound state; from an empty stack it is an exception. With `astk_push-items`: what was
-- pushed last is popped first.
pub astk_pop-items :
    (s : Stack) (xs : List Value) (v : Value)
    → Sound s
    → items s ≡ xs ++ (v ∷ [])
    → Popped xs v (astk_pop s) × (astk_pop (record s { ptr = 0 }) ≡ out_of_range)
unfolding astk_pop
astk_pop-items s xs v sound e = (at s.ptr sound.0 e, refl)
  where
    at :
        (n : ℕ)
        → n ≤ length s.slots
        → take n s.slots ≡ xs ++ (v ∷ [])
        → Popped xs v (astk_pop (record { slots = s.slots; ptr = n }))
    at zero h e =
        let l = ap length e in let z : ⊥ = omega (arith, length-append xs (v ∷ [])) in elim z [ ]
    at (suc n) h e = popped s.slots n xs v h e
