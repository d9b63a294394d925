-- ===== src/Lists/Length.antt =====
-- Lengths.
use scheme2c.Prelude.{
  ℕ, zero, suc, ◌+◌, ◌<◌, ◌≡◌, refl, none, some, List, arith, if◌then◌else◌, length,
}
use scheme2c.Value.{Value, cl_end}
use scheme2c.Prelude.Word.{neg}
use scheme2c.Heap.{Heap, ok, panic, out_of_fuel, improper_list}
use scheme2c.Lists.{carcdr, count_loop, cl_len, cli_len, clp_proper, proper_loop}
use scheme2c.Lists.Spine.{Spine, stop, link, count_loop-Spine}

module _ {h : Heap} where
  proper_loop-Spine :
      (f : ℕ) {end v : Value} {xs : List (ℕ × Value)}
      → Spine h end v xs
      → length xs < f
      → proper_loop f h v ≡ some end
  unfolding proper_loop
  proper_loop-Spine zero s fuel = absurd (omega arith)
  proper_loop-Spine (suc f) (stop e) fuel = ground arith
  proper_loop-Spine (suc f) (link e s) fuel = ground (arith, proper_loop-Spine f s)

  -- With more fuel than the list has pairs, the three length functions return and change nothing:
  -- `clp_proper` says whether the value behind the last pair ends a list, `cl_len` returns the number
  -- of pairs of such a list and raises an exception on another, and `cli_len` returns that number,
  -- negated if the list is improper.
  pub lengths_lem :
      (f : ℕ) {end v : Value} {xs : List (ℕ × Value)}
      → Spine h end v xs
      → length xs < f
      → (clp_proper f v h ≡ ok (cl_end end) h)
        × (cl_len f v h ≡ (if cl_end end then ok (length xs) h else panic improper_list))
        × (cli_len f v h ≡ ok (if cl_end end then length xs else neg (length xs)) h)
  unfolding clp_proper cl_len cli_len
  lengths_lem f s fuel = ground (arith, count_loop-Spine f 0 s fuel, proper_loop-Spine f s fuel)

-- A set of pairs that is closed under cdr, such as a cycle.
abbrev pub Endless : Heap → (Value → Type 0) → Type 0
Endless h S = (v : Value) → S v → (a : Value) × (d : Value) × (carcdr h v ≡ some (a, d)) × S d

module _ (h : Heap) (S : Value → Type 0) (closed : Endless h S) where
  count_loop-Endless : (f count : ℕ) (v : Value) → S v → count_loop f h count v ≡ none
  unfolding count_loop
  count_loop-Endless zero count v s = refl
  count_loop-Endless (suc f) count v s =
      let (a, d, e, s') = closed v s in rw (e, count_loop) (count_loop-Endless f (count + 1) d s')

  proper_loop-Endless : (f : ℕ) (v : Value) → S v → proper_loop f h v ≡ none
  unfolding proper_loop
  proper_loop-Endless zero v s = refl
  proper_loop-Endless (suc f) v s =
      let (a, d, e, s') = closed v s in rw (e, proper_loop) (proper_loop-Endless f d s')

  -- On a list whose cdrs never leave a set of pairs the three length functions do not end: no amount
  -- of fuel is enough.
  pub lengths_endless :
      (f : ℕ) (v : Value)
      → S v
      → (clp_proper f v h ≡ out_of_fuel)
        × (cl_len f v h ≡ out_of_fuel)
        × (cli_len f v h ≡ out_of_fuel)
  unfolding clp_proper cl_len cli_len
  lengths_endless f v s = ground (arith, count_loop-Endless f 0 v s, proper_loop-Endless f v s)
