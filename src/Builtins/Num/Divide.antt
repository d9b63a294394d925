-- ===== src/Builtins/Num/Divide.antt =====
-- Integer division as `bin_num_div` of src/libr.c does it.
use scheme2c.Prelude.{
  ℕ, ◌/◌, ◌^◌, zero, suc, ◌<◌, ◌≡◌, refl, ◌∙◌, Bool, true, false, List, [], ◌∷◌, ◌++◌, ◌==◌, arith,
  map,
}
use mathlib.Core.List.{append-nil}
use native.Mathlib.Nat.{zero-div, div-le_self}
use scheme2c.Prelude.Word
use scheme2c.Descr.{desc_from_fixnum, desc_to_fixnum}
use scheme2c.Value.{Value, fixnum}
use scheme2c.Heap.{Heap, ok, fault, division}
use scheme2c.Builtins.Num.{
  Double, fix, bin_num_div, wrap_fixnum, long_div, magnitude, num_loop, bin_num_arg, num_step,
  long_divide, divide_rest, bin_num_ret,
}

-- An integer by whether it is negative and by its magnitude, and the `long` that stands for it.
abbrev pub Integer : Type 0
Integer = Bool × ℕ

abbrev pub long_of : Integer → ℕ
long_of (false, p) = p
long_of (true, p) = Word.neg p

abbrev pub opposite : Bool → Bool → Bool
opposite false t = t
opposite true false = true
opposite true true = false

-- The magnitudes are divided and rounded down, so the quotient is rounded towards zero.
abbrev pub quotient : Integer → List Integer → Integer
quotient n [] = n
quotient n (d ∷ ds) = quotient (opposite n.0 d.0, n.1 / d.1) ds

abbrev pub Small : Integer → Type 0
Small n = n.1 < 2 ^ 62

abbrev pub Divisors : List Integer → Type 0
Divisors [] = Unit {0}
Divisors (d ∷ ds) = (0 < d.1) × Small d × Divisors ds

magnitude-long_of : (n : Integer) → Small n → magnitude (long_of n) ≡ n.1
unfolding magnitude
magnitude-long_of (false, p) l = ground arith
magnitude-long_of (true, p) l = ground arith

long_of-positive : (p : ℕ) → Small (false, p) → Word.is_negative (long_of (false, p)) ≡ false
long_of-positive p l = ground arith

long_of-negative : (p : ℕ) → 0 < p → Small (true, p) → Word.is_negative (long_of (true, p)) ≡ true
long_of-negative p z l = ground arith

long_of-zero : (s : Bool) → long_of (s, 0) ≡ 0
long_of-zero false = refl
long_of-zero true = refl

long_div-quotient :
    (n d : Integer)
    → Small n
    → 0 < d.1
    → Small d
    → long_div (long_of n) (long_of d) ≡ long_of (opposite n.0 d.0, n.1 / d.1)
unfolding long_div
long_div-quotient (false, p) (false, q) l z k =
    rw
      (
        magnitude-long_of (false, p) l,
        magnitude-long_of (false, q) k,
        long_of-positive p l,
        long_of-positive q k,
      )
      refl
long_div-quotient (false, p) (true, q) l z k =
    rw
      (
        magnitude-long_of (false, p) l,
        magnitude-long_of (true, q) k,
        long_of-positive p l,
        long_of-negative q z k,
      )
      refl
long_div-quotient (true, zero) (false, q) l z k =
    rw (magnitude-long_of (false, q) k, long_of-positive q k, zero-div q) refl
long_div-quotient (true, zero) (true, q) l z k =
    rw (magnitude-long_of (true, q) k, long_of-negative q z k, zero-div q) refl
long_div-quotient (true, suc p) (false, q) l z k =
    rw
      (
        magnitude-long_of (true, suc p) l,
        magnitude-long_of (false, q) k,
        long_of-negative (suc p) (omega arith) l,
        long_of-positive q k,
      )
      refl
long_div-quotient (true, suc p) (true, q) l z k =
    rw
      (
        magnitude-long_of (true, suc p) l,
        magnitude-long_of (true, q) k,
        long_of-negative (suc p) (omega arith) l,
        long_of-negative q z k,
      )
      refl

wrap_fixnum-long_of : (n : Integer) → Small n → wrap_fixnum (long_of n) ≡ long_of n
unfolding wrap_fixnum desc_to_fixnum desc_from_fixnum
wrap_fixnum-long_of (false, p) l = ground arith
wrap_fixnum-long_of (true, p) l = ground arith

quotient-Small : (n d : Integer) → Small n → 0 < d.1 → n.1 / d.1 < 2 ^ 62
quotient-Small n d l z = omega (arith, l, div-le_self n.1 d.1)

quotient-Small_all :
    (n : Integer) (ds : List Integer) → Small n → Divisors ds → Small (quotient n ds)
quotient-Small_all n [] l k = l
quotient-Small_all n (d ∷ ds) l k =
    quotient-Small_all (opposite n.0 d.0, n.1 / d.1) ds (quotient-Small n d l k.0) k.2

long_of-no_zero : (d : Integer) → 0 < d.1 → Small d → (long_of d == 0) ≡ false
long_of-no_zero (false, q) z k = ground arith
long_of-no_zero (true, q) z k = ground arith

abbrev pub fixnums : List Integer → List Value
fixnums ds = map (λ d. fixnum (long_of d)) ds

module _ (c : Double) (h : Heap) where
  divide_all :
      (n : Integer) (ds : List Integer) (vs : List Value)
      → Small n
      → Divisors ds
      → num_loop c (long_divide c) c.divide (fix (long_of n)) (fixnums ds ++ vs) h
        ≡ num_loop c (long_divide c) c.divide (fix (long_of (quotient n ds))) vs h
  unfolding num_loop bin_num_arg num_step long_divide
  divide_all n [] vs l k = refl
  divide_all n (d ∷ ds) vs l k =
      rw (long_of-no_zero d k.0 k.1, long_div-quotient n d l k.0 k.1)
        (divide_all (opposite n.0 d.0, n.1 / d.1) ds vs (quotient-Small n d l k.0) k.2)

  divide_zero :
      (w : ℕ) (vs : List Value)
      → num_loop c (long_divide c) c.divide (fix w) (fixnum 0 ∷ vs) h ≡ fault division
  unfolding num_loop bin_num_arg num_step long_divide
  divide_zero w vs = refl

  divide_rest-zero :
      (n : Integer) (ds : List Integer) (vs : List Value)
      → Small n
      → Divisors ds
      → divide_rest c (fix (long_of n)) (fixnums ds ++ (fixnum 0 ∷ vs)) h ≡ fault division
  unfolding divide_rest
  divide_rest-zero n [] vs l k = divide_zero (long_of n) vs
  divide_rest-zero n (d ∷ ds) vs l k =
      divide_all n (d ∷ ds) (fixnum 0 ∷ vs) l k ∙ divide_zero (long_of (quotient n (d ∷ ds))) vs

  -- `/` on two or more fixnums, none of the divisors 0, divides the first by each of the others in turn:
  -- the magnitudes are divided and rounded down, and the result is negative where an odd number of the
  -- arguments is. The heap stays as it is. A divisor 0 in any place behind such divisors divides by
  -- zero, whatever stands behind it: the code has no test. The magnitudes are less than 2 ^ 62.
  pub divide_longs :
      (n d : Integer) (ds es : List Integer) (vs : List Value)
      → Small n
      → Divisors (d ∷ ds)
      → Divisors es
      → (bin_num_div c (fixnum (long_of n) ∷ fixnums (d ∷ ds)) h
          ≡ ok (fixnum (long_of (quotient n (d ∷ ds)))) h)
        × (bin_num_div c (fixnum (long_of n) ∷ (fixnums es ++ (fixnum 0 ∷ vs))) h ≡ fault division)
  unfolding bin_num_div bin_num_arg divide_rest bin_num_ret num_loop
  divide_longs n d ds es vs l k z =
      let whole = rw append-nil at (divide_all n (d ∷ ds) [] l k) in
      (
        rw (whole, wrap_fixnum-long_of (quotient n (d ∷ ds)) (quotient-Small_all n (d ∷ ds) l k))
            refl,
        rw (divide_rest-zero n es vs l z) refl,
      )
