-- ===== src/Interpret/Calls.antt =====
-- Calls and returns of `icod_interpret` (src/interpret.c) over any number of turns.
use scheme2c.Prelude.{ℕ, zero, suc, ◌+◌, ◌≤◌, ◌≡◌, refl, sym, ap, ◌∙◌, ◌⊎◌, inl, inr, List, arith}
use mathlib.Core.Path.{subst}
use scheme2c.Value.{Value}
use scheme2c.Interpret.Machine.{
  Return, final, iret, Frame, base, frame, up, return_of, Store, Machine, Turn, running, finished,
  panic, fault,
}
use scheme2c.Interpret.Run.{Fcode, Ran, step, run}
use scheme2c.Interpret.Frames.{Move, Moved, stay, enter, replace, leave}
use scheme2c.Interpret.Moves.{step-Moved}

-- Among the frames from here on is one that returns to the frame `f` at the command `k`.
abbrev pub Within : (f : Frame) → (k : ℕ) → Frame → Type 0
Within f k (base c v) = ⊥
Within f k (frame r c v u) = ((r ≡ iret k) × (u ≡ f)) ⊎ Within f k u

abbrev pub Returned : (f : Frame) → (k : ℕ) → Machine → Type 0
Returned f k m = (m.fr_top ≡ f) × (m.ip ≡ k)

abbrev WithinTurn : (f : Frame) → (k : ℕ) → Turn → Type 0
WithinTurn f k (running m) = Within f k m.fr_top
WithinTurn f k _ = Unit {0}

ip_of : Return → ℕ
ip_of final = 0
ip_of (iret ip) = ip

replaced :
    (f : Frame) (k c v : ℕ) (top : Frame)
    → Within f k top
    → Within f k (frame (return_of top) c v (up top))
replaced f k c v (base c' v') w = elim w [ ]
replaced f k c v (frame r c' v' u) w = w

left :
    (f : Frame) (k ip : ℕ) (top : Frame)
    → Within f k top
    → return_of top ≡ iret ip
    → Within f k (up top) ⊎ ((up top ≡ f) × (ip ≡ k))
unfolding ip_of
left f k ip (base c v) w e = elim w [ ]
left f k ip (frame r c v u) (inl (h, g)) e = inr (g, ap ip_of (sym e ∙ h))
left f k ip (frame r c v u) (inr w) e = inl w

pub Move-Within :
    (f : Frame) (k : ℕ) (m m' : Machine)
    → Move m m'
    → Within f k m.fr_top
    → Within f k m'.fr_top ⊎ Returned f k m'
Move-Within f k m m' (stay e) w = inl (subst (Within f k) (sym e) w)
Move-Within f k m m' (enter c v e) w = inl (subst (Within f k) (sym e) (inr w))
Move-Within f k m m' (replace c v e) w =
    inl (subst (Within f k) (sym e) (replaced f k c v m.fr_top w))
Move-Within f k m m' (leave e h) w = elim (left f k m'.ip m.fr_top w h) [
  | inl still ↦ inl (subst (Within f k) (sym e) still)
  | inr (g, i) ↦ inr (e ∙ g, i)
]

module _ (code : List Fcode) (bin : ℕ → (argv : List Value) → Store → Ran) where
  -- Some turn up to the `n`-th ends in a state with the frame `f` on top, at the command `k`.
  abbrev pub Returns : (f : Frame) → (k n : ℕ) → Turn → Type 0
  Returns f k n t =
      (i : ℕ) × (i ≤ n) × (r : Machine) × (run code bin i t ≡ running r) × Returned f k r

  run-zero : (m : Machine) → run code bin 0 (running m) ≡ running m
  unfolding run
  run-zero m = refl

  run-suc :
      (n : ℕ) (m : Machine) → run code bin (suc n) (running m) ≡ run code bin n (step code bin m)
  unfolding run
  run-suc n m = refl

  -- What has ended does not go on.
  run-ended :
      (n : ℕ) (a : Value) (e : ℕ) (s : Store)
      → (run code bin n (finished a s) ≡ finished a s)
        × (run code bin n (panic e s) ≡ panic e s)
        × (run code bin n fault ≡ fault)
  unfolding run
  run-ended zero a e s = (refl, refl, refl)
  run-ended (suc n) a e s = (refl, refl, refl)

  finished_ne : (a : Value) (s : Store) (m : Machine) → finished a s ≡ running m → ⊥
  finished_ne a s m e = cc

  panic_ne : (x : ℕ) (s : Store) (m : Machine) → panic x s ≡ running m → ⊥
  panic_ne x s m e = cc

  fault_ne : (m : Machine) → fault ≡ running m → ⊥
  fault_ne m e = cc

  Returns-later :
      (f : Frame) (k n : ℕ) (m : Machine)
      → Returns f k n (step code bin m)
      → Returns f k (suc n) (running m)
  Returns-later f k n m (i, l, r, e, g) = (suc i, omega arith, r, run-suc i m ∙ e, g)

  -- A call is still going on or it has returned.
  pub run-Within :
      (n : ℕ) (f : Frame) (k : ℕ) (m m' : Machine)
      → Within f k m.fr_top
      → run code bin n (running m) ≡ running m'
      → Within f k m'.fr_top ⊎ Returns f k n (running m)
  run-Within zero f k m m' w e = inl (subst (λ t. WithinTurn f k t) (sym (run-zero m) ∙ e) w)
  run-Within (suc n) f k m m' w e =
      elim (behind (run-Within n f k) (step code bin m) (step-Moved code bin m)
        (sym (run-suc n m) ∙ e)) [ inl still ↦ inl still | inr r ↦ inr (Returns-later f k n m r) ]
    where
      behind :
          ((a b : Machine)
            → Within f k a.fr_top
            → run code bin n (running a) ≡ running b
            → Within f k b.fr_top ⊎ Returns f k n (running a))
          → (t : Turn) → Moved m t
          → run code bin n t ≡ running m'
          → Within f k m'.fr_top ⊎ Returns f k n t
      behind more (running m1) move e = elim (Move-Within f k m m1 move w) [
        | inl still ↦ more m1 m' still e
        | inr r ↦ inr (0, omega arith, m1, run-zero m1, r)
      ]
      behind more (finished a s) move e =
          absurd (finished_ne a s m' (sym (run-ended n a 0 s).0 ∙ e))
      behind more (panic x s) move e = absurd (panic_ne x s m' (sym (run-ended n m.rr x s).1 ∙ e))
      behind more fault move e = absurd (fault_ne m' (sym (run-ended n m.rr 0 m.store).2 ∙ e))

  -- If a turn of the loop calls a closure, that is, puts a frame on top which returns behind the
  -- command, then after any number of further turns either that frame, or one that took its place by a
  -- call in tail position, is still there, or at some turn before the caller's frame was on top again,
  -- with the same variables and the same frames above, at the command behind the call.
  pub call-Returns :
      (m m1 m' : Machine) (c v n : ℕ)
      → step code bin m ≡ running m1
      → m1.fr_top ≡ frame (iret (m.ip + 1)) c v m.fr_top
      → run code bin n (running m1) ≡ running m'
      → Within m.fr_top (m.ip + 1) m'.fr_top ⊎ Returns m.fr_top (m.ip + 1) n (running m1)
  call-Returns m m1 m' c v n e h r =
      run-Within n m.fr_top (m.ip + 1) m1 m'
        (subst (Within m.fr_top (m.ip + 1)) (sym h) (inl (refl, refl))) r
