-- ===== src/Growable/Adding.antt =====
-- The array list as the sequence of its items, which forgets the capacity.
use scheme2c.Prelude.{
  take-set, take-append, ℕ, suc, ◌-◌, ◌*◌, ◌≤◌, ◌<◌, ◌≡◌, refl, sym, ap, ◌∙◌, inl, inr, List, [],
  ◌∷◌, ◌++◌, arith, leb, lt→ltb, Bool-cases, length, length-set, ◌==◌, zero, false, length-append,
  take, replicate, length-take, length-replicate,
}
use mathlib.Core.Path.{subst}
use mathlib.Core.List.{append_assoc, append-nil}
use scheme2c.Value.{Value, nihil}
use scheme2c.Growable.{
  arlist_pop, Step, ArrayList, ok, overrun, assertion, out_of_range, added, put_slot, copied,
  new_arlist, arlist_add, arlist_grow,
}
use scheme2c.Growable.Content.{take-last, length-copied}

abbrev pub items : ArrayList → List Value
items al = take al.index al.data_slots

abbrev pub Sound : ArrayList → Type 0
Sound al = (al.index ≤ length al.data_slots) × (0 < length al.data_slots)

abbrev pub Added : (before : List Value) → Value → Step (ℕ × ArrayList) → Type 0
Added xs d (ok r) = (r.0 ≡ length xs) × ((items r.1 ≡ xs ++ (d ∷ [])) × Sound r.1)
Added xs d _ = ⊥

written :
    (vs : List Value) (i : ℕ) (d : Value)
    → i < length vs
    → Added (take i vs) d (added (put_slot vs i d) i)
written vs i d h =
    let e = lt→ltb i (length vs) h in
    let l = length-set vs i d in
    rw e (omega (arith, length-take i vs), (take-set vs i d h, (omega arith, omega arith)))

-- `arlist_add` on a list of sound state never fails: the new item stands behind the others, which keep
-- their order and their indices, the index that it returns is the new item's, and the state is sound
-- again, whether the array had room or was grown.
pub arlist_add-items :
    (al : ArrayList) (d : Value) → Sound al → Added (items al) d (arlist_add al d)
unfolding arlist_add arlist_grow
arlist_add-items al d sound = elim (Bool-cases (leb (length al.data_slots) al.index)) [
  | inl full ↦
      let n = length al.data_slots in
      let e : al.index ≡ n = ground arith in
      let c = copied n (2 * n) al.data_slots in
      let l = length-copied n (2 * n) al.data_slots (omega arith) (omega arith) in
      let kept = take-append n al.data_slots (replicate (2 * n - n) nihil) (omega arith) in
      rw full (
        subst (λ xs. Added xs d (added (put_slot c al.index d) al.index))
          (ap (λ m. take m c) e ∙ kept ∙ ap (λ m. take m al.data_slots) (sym e))
          (written c al.index d (omega arith)))
  | inr room ↦ rw room (written al.data_slots al.index d (ground arith))
]

abbrev forget : Step (ℕ × ArrayList) → Step ArrayList
forget (ok r) = ok r.1
forget overrun = overrun
forget assertion = assertion
forget out_of_range = out_of_range

abbrev pub add_all : Step ArrayList → List Value → Step ArrayList
add_all st [] = st
add_all (ok al) (v ∷ vs) = add_all (forget (arlist_add al v)) vs
add_all overrun (v ∷ vs) = overrun
add_all assertion (v ∷ vs) = assertion
add_all out_of_range (v ∷ vs) = out_of_range

abbrev pub Holds : List Value → Step ArrayList → Type 0
Holds xs (ok al) = (items al ≡ xs) × Sound al
Holds xs _ = ⊥

add_all-Holds :
    (st : Step ArrayList) (xs vs : List Value) → Holds xs st → Holds (xs ++ vs) (add_all st vs)
add_all-Holds (ok al) xs [] p = subst (λ ys. Holds ys (ok al)) (sym (append-nil xs)) p
add_all-Holds (ok al) xs (v ∷ vs) p =
    subst (λ ys. Holds ys (add_all (forget (arlist_add al v)) vs)) (append_assoc xs (v ∷ []) vs)
      (add_all-Holds (forget (arlist_add al v)) (xs ++ (v ∷ [])) vs
        (one (arlist_add al v) (arlist_add-items al v p.1)))
  where
    one : (r : Step (ℕ × ArrayList)) → Added (items al) v r → Holds (xs ++ (v ∷ [])) (forget r)
    one (ok r) q = (q.1.0 ∙ ap (λ ys. ys ++ (v ∷ [])) p.0, q.1.1)
    one overrun q = elim q [ ]
    one assertion q = elim q [ ]
    one out_of_range q = elim q [ ]
add_all-Holds overrun xs vs p = elim p [ ]
add_all-Holds assertion xs vs p = elim p [ ]
add_all-Holds out_of_range xs vs p = elim p [ ]

-- Any number of items that are added one by one to a new list of a capacity that is not 0 are all in it,
-- in their order, however often the array had to grow. With capacity 0 the first `arlist_add` writes
-- behind the end of the array, since doubling the capacity gives 0 again.
pub new_arlist-add_all :
    (capacity : ℕ) (vs : List Value) (v : Value)
    → Holds vs (add_all (ok (new_arlist (suc capacity))) vs)
      × (arlist_add (new_arlist 0) v ≡ overrun)
unfolding new_arlist arlist_add arlist_grow
new_arlist-add_all capacity vs v =
    let l = length-replicate capacity nihil in
    (add_all-Holds (ok (new_arlist (suc capacity))) [] vs (refl, (omega arith, omega arith)), refl)

abbrev pub Popped : (below : List Value) → Value → Step (Value × ArrayList) → Type 0
Popped xs v (ok r) = (r.0 ≡ v) × ((items r.1 ≡ xs) × Sound r.1)
Popped xs v _ = ⊥

popped :
    (slots : List Value) (n : ℕ) (xs : List Value) (v : Value)
    → suc n ≤ length slots
    → take (suc n) slots ≡ xs ++ (v ∷ [])
    → Popped xs v (arlist_pop (record { data_slots = slots; index = suc n }))
unfolding arlist_pop
popped slots n xs v h e =
    let whole = ap length e in
    let len : n ≡ length xs = omega (arith, length-take (suc n) slots, length-append xs (v ∷ [])) in
    let (there, below) = take-last slots n xs v h e len in
    let zero_not : (suc n == 0) ≡ false = ground arith in
    let back : suc n - 1 ≡ n = omega arith in
    rw (zero_not, back, there) (refl, (below, (omega arith, omega arith)))

-- `arlist_pop` on a list of sound state takes the last item and leaves the others.
pub arlist_pop-items :
    (al : ArrayList) (xs : List Value) (v : Value)
    → Sound al
    → items al ≡ xs ++ (v ∷ [])
    → Popped xs v (arlist_pop al)
arlist_pop-items al xs v sound e = at al.index sound.0 e
  where
    at :
        (n : ℕ)
        → n ≤ length al.data_slots
        → take n al.data_slots ≡ xs ++ (v ∷ [])
        → Popped xs v (arlist_pop (record { data_slots = al.data_slots; index = n }))
    at zero h e =
        let l = ap length e in let z : ⊥ = omega (arith, length-append xs (v ∷ [])) in elim z [ ]
    at (suc n) h e = popped al.data_slots n xs v h e
