-- ===== src/Builtins/Num.antt =====
-- Arithmetic: `bin_num_plus` and its like. A number is a fixnum, whose 63 bits the code widens to a
-- `long`, or a real. Floating-point arithmetic is the parameter `Double`, over 64-bit patterns. An
-- overflow of `long` arithmetic is undefined in C; it wraps here, as on the machine.
pub mod Sum
pub mod Order
pub mod Divide
use scheme2c.Prelude.{
  ℕ, ◌-◌, ◌/◌, Bool, true, false, none, some, List, [], ◌∷◌, ◌==◌, if◌then◌else◌,
}
use scheme2c.Prelude.Word
use scheme2c.Prelude.Word.{modulus, is_negative}
use scheme2c.Descr.{desc_from_fixnum, desc_to_fixnum}
use scheme2c.Value.{Value, fixnum, desc_cond}
use scheme2c.Heap.{real, division, ok, fault, Cmd, pure, ◌>>=◌, alloc}
use scheme2c.Builtins.Args.{arg, Bin, bad_arg, datum_real}

-- The operations of `double` that the program uses; `a > b` is `b < a`, and `a >= b` is `b <= a`.
pub record Double : Type 0 where
  pub of_long : ℕ → ℕ
  pub plus : ℕ → ℕ → ℕ
  pub minus : ℕ → ℕ → ℕ
  pub times : ℕ → ℕ → ℕ
  pub divide : ℕ → ℕ → ℕ
  pub negate : ℕ → ℕ
  pub sqrt : ℕ → ℕ
  pub one : ℕ
  pub less : ℕ → ℕ → Bool
  pub less_eq : ℕ → ℕ → Bool
  pub equal : ℕ → ℕ → Bool

-- `unum_t` with the type that it holds at the moment.
pub data Unum : Type 0 where
  fix : ℕ → Unum
  dbl : ℕ → Unum

-- `_BIN_NUM_RET`: the fixnum keeps the low 63 bits of the result.
unfoldable pub wrap_fixnum : ℕ → ℕ
unfolding desc_to_fixnum desc_from_fixnum
wrap_fixnum w = desc_to_fixnum (desc_from_fixnum w)

unfoldable pub bin_num_ret : Unum → Cmd Value
unfolding wrap_fixnum alloc
bin_num_ret (fix w) = pure (fixnum (wrap_fixnum w))
bin_num_ret (dbl d) = alloc (real d)

-- The quotient of two `long`s, rounded towards zero.
unfoldable pub magnitude : ℕ → ℕ
magnitude w = if is_negative w then modulus - w else w

unfoldable pub long_div : ℕ → ℕ → ℕ
unfolding magnitude
long_div a b =
    let q = magnitude a / magnitude b in
    if is_negative a
    then (if is_negative b then q else Word.neg q)
    else (if is_negative b then Word.neg q else q)

-- `argv` from index 1 on.
abbrev behind : List Value → List Value
behind [] = []
behind (_ ∷ vs) = vs

module _ (c : Double) where
  -- `_BIN_NUM_ARG`: once a real was seen the accumulator and each argument are reals.
  unfoldable pub bin_num_arg : (res : Unum) → Value → Cmd (Unum × Unum)
  unfolding datum_real
  bin_num_arg (fix r) (fixnum w) h = ok (fix r, fix w) h
  bin_num_arg (dbl r) (fixnum w) h = ok (dbl r, dbl (c.of_long w)) h
  bin_num_arg (fix r) v h = elim (datum_real h v) [
    | none ↦ bad_arg h
    | some d ↦ ok (dbl (c.of_long r), dbl d) h
  ]
  bin_num_arg (dbl r) v h = elim (datum_real h v) [
    | none ↦ bad_arg h
    | some d ↦ ok (dbl r, dbl d) h
  ]

  -- One accumulation: the operation on two longs or on two reals. The accumulator and the argument
  -- have one type by then.
  unfoldable pub num_step :
      (long_op : ℕ → ℕ → Cmd ℕ) (double_op : ℕ → ℕ → ℕ) → Unum → Unum → Cmd Unum
  num_step long_op double_op (fix r) (fix w) = do s ← long_op r w; pure (fix s)
  num_step long_op double_op (dbl r) (dbl d) = pure (dbl (double_op r d))
  num_step long_op double_op (fix r) (dbl d) = pure (fix r)
  num_step long_op double_op (dbl r) (fix w) = pure (dbl r)

  -- The loop of the four operations, from an accumulator over the arguments that are left.
  unfoldable pub num_loop :
      (long_op : ℕ → ℕ → Cmd ℕ) (double_op : ℕ → ℕ → ℕ) → Unum → List Value → Cmd Unum
  unfolding bin_num_arg num_step
  num_loop long_op double_op res [] = pure res
  num_loop long_op double_op res (v ∷ vs) = do
    (r, a) ← bin_num_arg res v
    s ← num_step long_op double_op r a
    num_loop long_op double_op s vs

  abbrev pub long_plus : ℕ → ℕ → Cmd ℕ
  long_plus a b = pure (Word.add a b)

  abbrev pub long_times : ℕ → ℕ → Cmd ℕ
  long_times a b = pure (Word.mul a b)

  abbrev pub long_minus : ℕ → ℕ → Cmd ℕ
  long_minus a b = pure (Word.sub a b)

  -- A zero divisor is undefined in C.
  unfoldable pub long_divide : ℕ → ℕ → Cmd ℕ
  unfolding long_div
  long_divide a b h = if b == 0 then fault division else ok (long_div a b) h

  unfoldable pub bin_num_plus : Bin
  unfolding num_loop bin_num_ret
  bin_num_plus argv = do r ← num_loop long_plus c.plus (fix 0) argv; bin_num_ret r

  unfoldable pub bin_num_mult : Bin
  unfolding num_loop bin_num_ret
  bin_num_mult argv = do r ← num_loop long_times c.times (fix 1) argv; bin_num_ret r

  unfoldable pub negate_num : Unum → Unum
  negate_num (fix w) = fix (Word.neg w)
  negate_num (dbl d) = dbl (c.negate d)

  unfoldable pub invert_num : Unum → Unum
  invert_num (fix w) = dbl (c.divide c.one (c.of_long w))
  invert_num (dbl d) = dbl (c.divide c.one d)

  -- With one argument `-` negates it; else the loop starts from the first argument.
  unfoldable pub minus_rest : Unum → List Value → Cmd Unum
  unfolding negate_num num_loop
  minus_rest first [] = pure (negate_num first)
  minus_rest first (v ∷ vs) = num_loop long_minus c.minus first (v ∷ vs)

  unfoldable pub bin_num_minus : Bin
  unfolding bin_num_arg minus_rest bin_num_ret
  bin_num_minus argv = do
    v ← arg argv 0
    (_, first) ← bin_num_arg (fix 0) v
    r ← minus_rest first (behind argv)
    bin_num_ret r

  unfoldable pub divide_rest : Unum → List Value → Cmd Unum
  unfolding invert_num num_loop long_divide
  divide_rest first [] = pure (invert_num first)
  divide_rest first (v ∷ vs) = num_loop long_divide c.divide first (v ∷ vs)

  unfoldable pub bin_num_div : Bin
  unfolding bin_num_arg divide_rest bin_num_ret
  bin_num_div argv = do
    v ← arg argv 0
    (_, first) ← bin_num_arg (fix 0) v
    r ← divide_rest first (behind argv)
    bin_num_ret r

  -- `_BIN_NUM_REAL`: a number as a `double`.
  unfoldable pub bin_num_real : Value → Cmd ℕ
  unfolding datum_real
  bin_num_real (fixnum w) h = ok (c.of_long w) h
  bin_num_real v h = elim (datum_real h v) [ none ↦ bad_arg h | some d ↦ ok d h ]

  -- The loop of the comparisons stops at the first pair that is out of order, and does not look at
  -- the arguments behind it.
  unfoldable pub compare_loop : (rel : ℕ → ℕ → Bool) → (prev : ℕ) → List Value → Cmd Value
  unfolding bin_num_real
  compare_loop rel prev [] = pure (desc_cond true)
  compare_loop rel prev (v ∷ vs) = do
    d ← bin_num_real v
    let rest = compare_loop rel d vs
    if rel prev d then rest else pure (desc_cond false)

  unfoldable pub bin_num_compare : (rel : ℕ → ℕ → Bool) → Bin
  unfolding compare_loop
  bin_num_compare rel [] = arg [] 0
  bin_num_compare rel (v ∷ vs) = do d ← bin_num_real v; compare_loop rel d vs

  unfoldable pub bin_num_less : Bin
  unfolding bin_num_compare
  bin_num_less = bin_num_compare c.less

  unfoldable pub bin_num_lesseq : Bin
  unfolding bin_num_compare
  bin_num_lesseq = bin_num_compare c.less_eq

  unfoldable pub bin_num_eq : Bin
  unfolding bin_num_compare
  bin_num_eq = bin_num_compare c.equal

  unfoldable pub bin_num_greatereq : Bin
  unfolding bin_num_compare
  bin_num_greatereq = bin_num_compare (λ a b. c.less_eq b a)

  unfoldable pub bin_num_greater : Bin
  unfolding bin_num_compare
  bin_num_greater = bin_num_compare (λ a b. c.less b a)

  unfoldable pub bin_num_sqrt : Bin
  unfolding bin_num_real alloc
  bin_num_sqrt argv = do v ← arg argv 0; d ← bin_num_real v; alloc (real (c.sqrt d))
