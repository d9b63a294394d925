-- ===== src/Builtins/Num/Order.antt =====
-- Comparisons.
use scheme2c.Prelude.{ℕ, ◌≡◌, refl, Bool, true, false, ◌&&◌, List, [], ◌∷◌, ◌++◌, arith}
use scheme2c.Value.{Value, desc_cond, symb_f}
use scheme2c.Heap.{Heap, ok}
use scheme2c.Builtins.Num.{
  bin_num_greater, bin_num_greatereq, bin_num_eq, bin_num_lesseq, bin_num_less, bin_num_compare,
  Double, compare_loop,
}
use scheme2c.Builtins.Num.Sum.{Doubles, none_left, long, double}

-- Each number stands in the relation to the next.
abbrev pub ordered : (ℕ → ℕ → Bool) → List ℕ → Bool
ordered rel [] = true
ordered rel (d ∷ []) = true
ordered rel (d ∷ e ∷ es) = rel d e && ordered rel (e ∷ es)

module _ (c : Double) (h : Heap) where
  compare_loop-ordered :
      (rel : ℕ → ℕ → Bool) (d : ℕ) {vs : List Value} {ds : List ℕ}
      → Doubles c h vs ds
      → compare_loop c rel d vs h ≡ ok (desc_cond (ordered rel (d ∷ ds))) h
  unfolding compare_loop
  compare_loop-ordered rel d none_left = refl
  compare_loop-ordered rel d (long w ds) = ground (arith, compare_loop-ordered rel (c.of_long w) ds)
  compare_loop-ordered rel d (double {d = e} is ds) = ground (arith, compare_loop-ordered rel e ds)

  compare_loop_out_of_order :
      (rel : ℕ → ℕ → Bool) (d : ℕ) (rest : List Value) {vs : List Value} {ds : List ℕ}
      → Doubles c h vs ds
      → ordered rel (d ∷ ds) ≡ false
      → compare_loop c rel d (vs ++ rest) h ≡ ok symb_f h
  unfolding compare_loop
  compare_loop_out_of_order rel d rest none_left n = cc
  compare_loop_out_of_order rel d rest (long w ds) n =
      ground (arith, compare_loop_out_of_order rel (c.of_long w) rest ds)
  compare_loop_out_of_order rel d rest (double {d = e} is ds) n =
      ground (arith, compare_loop_out_of_order rel e rest ds)

bin_num_compare-ordered :
    (c : Double) (h : Heap) (rel : ℕ → ℕ → Bool) {v : Value} {d : ℕ} {vs : List Value} {ds : List ℕ}
    → Doubles c h (v ∷ vs) (d ∷ ds)
    → bin_num_compare c rel (v ∷ vs) h ≡ ok (desc_cond (ordered rel (d ∷ ds))) h
unfolding bin_num_compare
bin_num_compare-ordered c h rel (long w ds) = compare_loop-ordered c h rel (c.of_long w) ds
bin_num_compare-ordered c h rel (double {d} is ds) =
    ground (arith, compare_loop-ordered c h rel d ds)

-- The comparison of the arguments' `double` values, in the order in which they stand: each of the
-- five functions on one number or more says whether each stands in its relation to the next, and
-- changes nothing.
pub comparisons_ordered :
    (c : Double) (h : Heap) (v : Value) {d : ℕ} {vs : List Value} {ds : List ℕ}
    → Doubles c h (v ∷ vs) (d ∷ ds)
    → (bin_num_less c (v ∷ vs) h ≡ ok (desc_cond (ordered c.less (d ∷ ds))) h)
      × (bin_num_lesseq c (v ∷ vs) h ≡ ok (desc_cond (ordered c.less_eq (d ∷ ds))) h)
      × (bin_num_eq c (v ∷ vs) h ≡ ok (desc_cond (ordered c.equal (d ∷ ds))) h)
      × (bin_num_greatereq c (v ∷ vs) h
          ≡ ok (desc_cond (ordered (λ a b. c.less_eq b a) (d ∷ ds))) h)
      × (bin_num_greater c (v ∷ vs) h ≡ ok (desc_cond (ordered (λ a b. c.less b a) (d ∷ ds))) h)
unfolding bin_num_less bin_num_lesseq bin_num_eq bin_num_greatereq bin_num_greater
comparisons_ordered c h v ds = (
  bin_num_compare-ordered c h c.less ds,
  bin_num_compare-ordered c h c.less_eq ds,
  bin_num_compare-ordered c h c.equal ds,
  bin_num_compare-ordered c h (λ a b. c.less_eq b a) ds,
  bin_num_compare-ordered c h (λ a b. c.less b a) ds,
)

less_stops_at :
    (c : Double) (h : Heap) {v : Value} (rest : List Value) {d : ℕ} {vs : List Value} {ds : List ℕ}
    → Doubles c h (v ∷ vs) (d ∷ ds)
    → ordered c.less (d ∷ ds) ≡ false
    → bin_num_compare c c.less (v ∷ (vs ++ rest)) h ≡ ok symb_f h
unfolding bin_num_compare
less_stops_at c h rest (long w ds) n = compare_loop_out_of_order c h c.less (c.of_long w) rest ds n
less_stops_at c h rest (double {d} is ds) n =
    ground (arith, compare_loop_out_of_order c h c.less d rest ds n)

-- Behind numbers of which some two neighbours are out of order a comparison does not look: `<`
-- returns `#f` whatever the further arguments are, numbers or not.
pub less_stops :
    (c : Double) (h : Heap) (v : Value) (rest : List Value) {d : ℕ} {vs : List Value} {ds : List ℕ}
    → Doubles c h (v ∷ vs) (d ∷ ds)
    → ordered c.less (d ∷ ds) ≡ false
    → bin_num_less c (v ∷ (vs ++ rest)) h ≡ ok symb_f h
unfolding bin_num_less
less_stops c h v rest ds n = less_stops_at c h rest ds n
