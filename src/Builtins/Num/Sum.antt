-- ===== src/Builtins/Num/Sum.antt =====
-- Sums and products.
use scheme2c.Prelude.{
  ℕ, ◌+◌, ◌*◌, ◌/◌, ◌%◌, ◌<◌, ◌≡◌, refl, ap, ◌∙◌, none, some, List, [], ◌∷◌, ◌++◌, map, arith,
}
use mathlib.Core.List.{append-nil}
use native.Mathlib.Nat.{mul_assoc}
use scheme2c.Prelude.Word.{modulus}
use scheme2c.Value.{Value, fixnum, ptr}
use scheme2c.Heap.{real, Heap, ok, panic, wrong_param, alloc, Cmd}
use scheme2c.Builtins.Args.{datum_real}
use scheme2c.Builtins.Num.{
  Double, fix, dbl, wrap_fixnum, bin_num_ret, bin_num_arg, num_loop, bin_num_plus, bin_num_mult,
  long_plus, long_times,
}

abbrev pub sum : List ℕ → ℕ
sum [] = 0
sum (w ∷ ws) = w + sum ws

abbrev pub product : List ℕ → ℕ
product [] = 1
product (w ∷ ws) = w * product ws

abbrev pub fold : (ℕ → ℕ → ℕ) → ℕ → List ℕ → ℕ
fold op d [] = d
fold op d (e ∷ es) = fold op (op d e) es

mul-mod : (a b : ℕ) → (a % modulus) * b % modulus ≡ a * b % modulus
mul-mod a b =
    let split : a ≡ a % modulus + a / modulus * modulus = omega arith in
    omega (arith, ap (λ (t : ℕ). t * b) split)

module _ (c : Double) (h : Heap) where
  -- Arguments that are numbers, with what each is as a `double`.
  pub data Doubles : List Value → List ℕ → Type 0 where
    none_left : Doubles [] []
    long :
        {vs : List Value} {ds : List ℕ} (w : ℕ)
        → Doubles vs ds
        → Doubles (fixnum w ∷ vs) (c.of_long w ∷ ds)
    double :
        {vs : List Value} {ds : List ℕ} {p d : ℕ}
        → datum_real h (ptr p) ≡ some d
        → Doubles vs ds
        → Doubles (ptr p ∷ vs) (d ∷ ds)

  plus_longs :
      (r : ℕ) (ws : List ℕ) (vs : List Value)
      → r < modulus
      → num_loop c (long_plus c) c.plus (fix r) (map fixnum ws ++ vs) h
        ≡ num_loop c (long_plus c) c.plus (fix ((r + sum ws) % modulus)) vs h
  unfolding num_loop
  plus_longs r [] vs l = ap (λ n. num_loop c (long_plus c) c.plus (fix n) vs h) (omega arith)
  plus_longs r (w ∷ ws) vs l =
      plus_longs ((r + w) % modulus) ws vs (omega arith)
      ∙ ap (λ n. num_loop c (long_plus c) c.plus (fix n) vs h) (omega arith)

  times_longs :
      (r : ℕ) (ws : List ℕ) (vs : List Value)
      → r < modulus
      → num_loop c (long_times c) c.times (fix r) (map fixnum ws ++ vs) h
        ≡ num_loop c (long_times c) c.times (fix ((r * product ws) % modulus)) vs h
  unfolding num_loop
  times_longs r [] vs l = ap (λ n. num_loop c (long_times c) c.times (fix n) vs h) (omega arith)
  times_longs r (w ∷ ws) vs l =
      times_longs ((r * w) % modulus) ws vs (omega arith)
      ∙ ap (λ n. num_loop c (long_times c) c.times (fix n) vs h)
          (mul-mod (r * w) (product ws) ∙ ap (λ n. n % modulus) (mul_assoc r w (product ws)))

  num_loop-Doubles :
      (long_op : ℕ → ℕ → Cmd ℕ) (op : ℕ → ℕ → ℕ) (r : ℕ) {vs : List Value} {ds : List ℕ}
      → Doubles vs ds
      → num_loop c long_op op (dbl r) vs h ≡ ok (dbl (fold op r ds)) h
  unfolding num_loop
  num_loop-Doubles long_op op r none_left = refl
  num_loop-Doubles long_op op r (long w ds) = num_loop-Doubles long_op op (op r (c.of_long w)) ds
  num_loop-Doubles long_op op r (double {p} {d} e ds) =
      ground (arith, num_loop-Doubles long_op op (op r d) ds)

first_double :
    (c : Double) (h : Heap) (p r : ℕ) {d : ℕ} {vs : List Value} {ds : List ℕ}
    → datum_real h (ptr p) ≡ some d
    → Doubles c h vs ds
    → num_loop c (long_plus c) c.plus (fix (r % modulus)) (ptr p ∷ vs) h
      ≡ ok (dbl (fold c.plus (c.plus (c.of_long (r % modulus)) d) ds)) h
unfolding num_loop
first_double c h p r {d} e ds =
    ground
      (arith, num_loop-Doubles c h (long_plus c) c.plus (c.plus (c.of_long (r % modulus)) d) ds)

plus_all :
    (c : Double) (h : Heap) (ws : List ℕ)
    → num_loop c (long_plus c) c.plus (fix 0) (map fixnum ws) h ≡ ok (fix (sum ws % modulus)) h
unfolding num_loop
plus_all c h ws =
    rw append-nil at (plus_longs c h 0 ws [] (omega arith)) ∙ ap (λ n. ok (fix n) h) (omega arith)

times_all :
    (c : Double) (h : Heap) (ws : List ℕ)
    → num_loop c (long_times c) c.times (fix 1) (map fixnum ws) h
      ≡ ok (fix (product ws % modulus)) h
unfolding num_loop
times_all c h ws =
    rw append-nil at (times_longs c h 1 ws [] (omega arith)) ∙ ap (λ n. ok (fix n) h) (omega arith)

-- `+` on fixnums alone returns their sum as a `long`, modulo 2 ^ 64, cut down to a fixnum, and `*`
-- their product. Neither changes the heap.
pub longs_lem :
    (c : Double) (ws : List ℕ) (h : Heap)
    → (bin_num_plus c (map fixnum ws) h ≡ ok (fixnum (wrap_fixnum (sum ws % modulus))) h)
      × (bin_num_mult c (map fixnum ws) h ≡ ok (fixnum (wrap_fixnum (product ws % modulus))) h)
unfolding bin_num_plus bin_num_mult bin_num_ret
longs_lem c ws h = (rw (plus_all c h ws), rw (times_all c h ws))

-- When the first real stands behind the fixnums `ws`, `+` sums those as `long`s, converts that sum
-- once, and goes on in `double`: the result is a new real with that value.
pub mixed_sum :
    (c : Double) (h : Heap) (ws : List ℕ) (p d : ℕ) {vs : List Value} {ds : List ℕ}
    → datum_real h (ptr p) ≡ some d
    → Doubles c h vs ds
    → bin_num_plus c (map fixnum ws ++ ptr p ∷ vs) h
      ≡ alloc (real (fold c.plus (c.plus (c.of_long (sum ws % modulus)) d) ds)) h
unfolding bin_num_plus bin_num_ret
mixed_sum c h ws p d {vs} e ds =
    let zero_sum : 0 + sum ws ≡ sum ws = omega arith in
    let start = plus_longs c h 0 ws (ptr p ∷ vs) (omega arith) in
    rw (start, zero_sum, first_double c h p (sum ws) e ds)

-- `+` raises the exception for a wrong argument at the first argument that is neither a fixnum nor a
-- real, whatever follows it.
pub plus_panics :
    (c : Double) (h : Heap) (ws : List ℕ) (p : ℕ) (rest : List Value)
    → datum_real h (ptr p) ≡ none
    → bin_num_plus c (map fixnum ws ++ ptr p ∷ rest) h ≡ panic wrong_param
unfolding bin_num_plus
plus_panics c h ws p rest e =
    rw (plus_longs c h 0 ws (ptr p ∷ rest) (omega arith)) (rw (e, num_loop, bin_num_arg))
