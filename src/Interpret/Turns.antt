-- ===== src/Interpret/Turns.antt =====
-- The turns of `icod_interpret` (src/interpret.c) one after the other.
use scheme2c.Prelude.{ℕ, zero, suc, ◌≡◌, refl, Option, some, List, get_elem?}
use scheme2c.Value.{Value}
use scheme2c.Interpret.Command.{Vmi}
use scheme2c.Interpret.Machine.{closr, Store, Machine, running, closure_at}
use scheme2c.Interpret.Run.{Fcode, Ran, exec, icod_of, fcode_of, step, run}

module _ (code : List Fcode) (bin : ℕ → (argv : List Value) → Store → Ran) where
  -- The commands that the loop reads.
  abbrev pub icod_at : Machine → Option (List Vmi)
  icod_at m = icod_of code bin (fcode_of code bin (closure_at m.store (closr m.fr_top)))

  pub step-exec :
      (m : Machine) (icod : List Vmi) (cmd : Vmi)
      → icod_at m ≡ some icod
      → get_elem? icod m.ip ≡ some cmd
      → step code bin m ≡ exec code bin m cmd
  unfolding step
  step-exec m icod cmd h g = rw (h, g) refl

  pub run-fixed :
      (n : ℕ) (m : Machine) → step code bin m ≡ running m → run code bin n (running m) ≡ running m
  unfolding run
  run-fixed zero m e = refl
  run-fixed (suc n) m e = rw e (run-fixed n m e)

  pub run-from :
      (n : ℕ) (m m' : Machine)
      → step code bin m ≡ running m'
      → run code bin (suc n) (running m) ≡ run code bin n (running m')
  unfolding run
  run-from n m m' e = rw e refl
