-- ===== src/Lists/Spine.antt =====
-- The spine of a list: the pairs that its cdrs lead through, and the value behind the last.
use scheme2c.Prelude.{ℕ, zero, suc, ◌+◌, ◌<◌, ◌≡◌, none, some, List, [], ◌∷◌, arith, length}
use scheme2c.Value.{Value, ptr}
use scheme2c.Heap.{Heap}
use scheme2c.Lists.{carcdr, count_loop}

-- Address and car of each pair, in order, up to the value `end`, which is no pair.
pub data Spine (h : Heap) (end : Value) : Value → List (ℕ × Value) → Type 0 where
  stop : carcdr h end ≡ none → Spine h end end []
  link :
      {p : ℕ} {a d : Value} {xs : List (ℕ × Value)}
      → carcdr h (ptr p) ≡ some (a, d)
      → Spine h end d xs
      → Spine h end (ptr p) ((p, a) ∷ xs)

module _ {h : Heap} where
  pub count_loop-Spine :
      (f : ℕ) {end v : Value} {xs : List (ℕ × Value)} (count : ℕ)
      → Spine h end v xs
      → length xs < f
      → count_loop f h count v ≡ some (count + length xs, end)
  unfolding count_loop
  count_loop-Spine zero count s fuel = absurd (omega arith)
  count_loop-Spine (suc f) count (stop e) fuel = ground arith
  count_loop-Spine (suc f) count (link e s) fuel = ground (arith, count_loop-Spine f (count + 1) s)
