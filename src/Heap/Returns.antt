-- ===== src/Heap/Returns.antt =====
-- Total correctness of a command: it raises nothing, ends, and leaves a postcondition.
use scheme2c.Prelude.{ℕ, ◌≤◌, ◌<◌, ◌≡◌, refl, ◌∙◌, arith}
use scheme2c.Heap.{Heap, Run, ok, Cmd, and_then}

-- The postcondition speaks of the result and of the heap at the end.
pub data Returns {ℓ κ} {A : Type ℓ} (Post : A → Heap → Type κ) : Run A → Type (ℓ ⊔ κ) where
  returns : {result : A} {final : Heap} (post : Post result final) → Returns Post (ok result final)

-- A sequence returns if its first command does and the rest does from there.
pub Returns-bind {ℓ κ ℓ' κ'} :
    {A : Type ℓ} {Post : A → Heap → Type κ} {B : Type ℓ'} {End : B → Heap → Type κ'} {first : Run A}
    {rest : A → Cmd B} (ran : Returns Post first)
    (goes_on : (result : A) (mid : Heap) (post : Post result mid) → Returns End (rest result mid))
    → Returns End (and_then first rest)
Returns-bind (returns {result} {final} post) goes_on = goes_on result final post

-- What follows from the postcondition may stand in its place.
pub Returns-mono {ℓ κ κ'} :
    {A : Type ℓ} {Post : A → Heap → Type κ} {Weaker : A → Heap → Type κ'} {run : Run A}
    (ran : Returns Post run)
    (follows : (result : A) (final : Heap) (post : Post result final) → Weaker result final)
    → Returns Weaker run
Returns-mono (returns {result} {final} post) follows = returns (follows result final post)

-- `g` has every object that `h` had below its next address, unchanged, and more.
pub record Extends (h g : Heap) : Type 0 where
  pub grows : h.next ≤ g.next
  pub keeps : (q : ℕ) → q < h.next → g.cell q ≡ h.cell q

pub Extends-refl : (h : Heap) → Extends h h
Extends-refl h = record { grows = omega arith; keeps = λ q l. refl }

pub Extends-trans : {f g h : Heap} → Extends f g → Extends g h → Extends f h
Extends-trans p q = record {
  grows = omega arith;
  keeps = λ a l. q.keeps a (omega arith) ∙ p.keeps a l;
}
