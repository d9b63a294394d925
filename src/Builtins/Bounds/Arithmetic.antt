-- ===== src/Builtins/Bounds/Arithmetic.antt =====
-- Arithmetic and comparisons.
use scheme2c.Prelude.{ℕ, Bool, false, List, [], ◌∷◌, arith}
use scheme2c.Value.{desc_cond, Value}
use scheme2c.Heap.{Heap, Cmd, pure}
use scheme2c.Builtins.Num.{
  Unum, fix, dbl, bin_num_arg, num_step, num_loop, bin_num_real, compare_loop, bin_num_compare,
  bin_num_ret, minus_rest, divide_rest, long_plus, long_times, long_minus, long_divide, Double,
  bin_num_plus, bin_num_mult, bin_num_minus, bin_num_div, bin_num_sqrt,
}
use scheme2c.Builtins.Bounds.{InBounds, InBounds-bind, InBounds-if}

-- The loops of the arithmetic.
module _ (c : Double) where
  pub in_bin_num_arg : (res : Unum) (v : Value) (h : Heap) → InBounds (bin_num_arg c res v h)
  unfolding bin_num_arg
  in_bin_num_arg (fix r) v h = ground arith
  in_bin_num_arg (dbl r) v h = ground arith

  pub in_num_step :
      (long_op : ℕ → ℕ → Cmd ℕ) (double_op : ℕ → ℕ → ℕ) (res arg : Unum) (h : Heap)
      → ((a b : ℕ) (k : Heap) → InBounds (long_op a b k))
      → InBounds (num_step c long_op double_op res arg h)
  unfolding num_step
  in_num_step long_op double_op (fix r) (fix w) h op =
      InBounds-bind (long_op r w h) (λ s. pure (fix s)) (op r w h) (λ _ _. tt)
  in_num_step long_op double_op (fix r) (dbl d) h op = tt
  in_num_step long_op double_op (dbl r) (fix w) h op = tt
  in_num_step long_op double_op (dbl r) (dbl d) h op = tt

  pub in_num_loop :
      (long_op : ℕ → ℕ → Cmd ℕ) (double_op : ℕ → ℕ → ℕ) (res : Unum) (vs : List Value) (h : Heap)
      → ((a b : ℕ) (k : Heap) → InBounds (long_op a b k))
      → InBounds (num_loop c long_op double_op res vs h)
  unfolding num_loop num_step
  in_num_loop long_op double_op res [] h op = tt
  in_num_loop long_op double_op res (v ∷ vs) h op =
      InBounds-bind (bin_num_arg c res v h) _ (in_bin_num_arg res v h) (λ ra k.
        InBounds-bind (num_step c long_op double_op ra.0 ra.1 k)
          (λ s. num_loop c long_op double_op s vs) (in_num_step long_op double_op ra.0 ra.1 k op)
          (λ s m. in_num_loop long_op double_op s vs m op))

  pub in_bin_num_real : (v : Value) (h : Heap) → InBounds (bin_num_real c v h)
  unfolding bin_num_real
  in_bin_num_real v h = ground arith

  pub in_compare_loop :
      (rel : ℕ → ℕ → Bool) (d : ℕ) (vs : List Value) (h : Heap)
      → InBounds (compare_loop c rel d vs h)
  unfolding compare_loop
  in_compare_loop rel d [] h = tt
  in_compare_loop rel d (v ∷ vs) h =
      InBounds-bind (bin_num_real c v h) _ (in_bin_num_real v h) (λ e k.
        InBounds-if (rel d e) (compare_loop c rel e vs) (pure (desc_cond false)) k
          (in_compare_loop rel e vs k) tt)

  pub in_bin_num_compare :
      (rel : ℕ → ℕ → Bool) (v : Value) (vs : List Value) (h : Heap)
      → InBounds (bin_num_compare c rel (v ∷ vs) h)
  unfolding bin_num_compare
  in_bin_num_compare rel v vs h =
      InBounds-bind (bin_num_real c v h) (λ d. compare_loop c rel d vs) (in_bin_num_real v h)
        (λ d k. in_compare_loop rel d vs k)

  pub in_bin_num_ret : (u : Unum) (h : Heap) → InBounds (bin_num_ret u h)
  unfolding bin_num_ret
  in_bin_num_ret (fix w) h = tt
  in_bin_num_ret (dbl d) h = ground arith

  pub in_long_divide : (a b : ℕ) (h : Heap) → InBounds (long_divide c a b h)
  unfolding long_divide
  in_long_divide a b h = ground arith

  pub in_bin_num_plus : (vs : List Value) (h : Heap) → InBounds (bin_num_plus c vs h)
  unfolding bin_num_plus
  in_bin_num_plus vs h =
      InBounds-bind (num_loop c (long_plus c) c.plus (fix 0) vs h) bin_num_ret
        (in_num_loop (long_plus c) c.plus (fix 0) vs h (λ _ _ _. tt)) in_bin_num_ret

  pub in_bin_num_mult : (vs : List Value) (h : Heap) → InBounds (bin_num_mult c vs h)
  unfolding bin_num_mult
  in_bin_num_mult vs h =
      InBounds-bind (num_loop c (long_times c) c.times (fix 1) vs h) bin_num_ret
        (in_num_loop (long_times c) c.times (fix 1) vs h (λ _ _ _. tt)) in_bin_num_ret

  pub in_minus_rest : (u : Unum) (vs : List Value) (h : Heap) → InBounds (minus_rest c u vs h)
  unfolding minus_rest
  in_minus_rest u [] h = tt
  in_minus_rest u (v ∷ vs) h = in_num_loop (long_minus c) c.minus u (v ∷ vs) h (λ _ _ _. tt)

  pub in_divide_rest : (u : Unum) (vs : List Value) (h : Heap) → InBounds (divide_rest c u vs h)
  unfolding divide_rest
  in_divide_rest u [] h = tt
  in_divide_rest u (v ∷ vs) h = in_num_loop (long_divide c) c.divide u (v ∷ vs) h in_long_divide

  pub in_bin_num_minus :
      (v : Value) (vs : List Value) (h : Heap) → InBounds (bin_num_minus c (v ∷ vs) h)
  unfolding bin_num_minus
  in_bin_num_minus v vs h =
      InBounds-bind (bin_num_arg c (fix 0) v h) _ (in_bin_num_arg (fix 0) v h) (λ u k.
        InBounds-bind (minus_rest c u.1 vs k) bin_num_ret (in_minus_rest u.1 vs k) in_bin_num_ret)

  pub in_bin_num_div :
      (v : Value) (vs : List Value) (h : Heap) → InBounds (bin_num_div c (v ∷ vs) h)
  unfolding bin_num_div
  in_bin_num_div v vs h =
      InBounds-bind (bin_num_arg c (fix 0) v h) _ (in_bin_num_arg (fix 0) v h) (λ u k.
        InBounds-bind (divide_rest c u.1 vs k) bin_num_ret (in_divide_rest u.1 vs k) in_bin_num_ret)

  pub in_bin_num_sqrt : (v : Value) (h : Heap) → InBounds (bin_num_sqrt c (v ∷ []) h)
  unfolding bin_num_sqrt
  in_bin_num_sqrt v h = let l = in_bin_num_real v h in ground arith
