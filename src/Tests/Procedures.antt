-- ===== src/Tests/Procedures.antt =====
-- Lists and the built-in procedures on a small heap.
use scheme2c.Prelude.{
  ◌++◌, ℕ, zero, suc, ◌+◌, ◌-◌, ◌*◌, ◌/◌, ◌%◌, ◌≡◌, refl, ap, ◌⊎◌, true, false, Option, none, some,
  List, [], ◌∷◌, arith, ltb, leb, ◌==◌, get_elem?,
}
use scheme2c.Prelude.Word.{modulus}
use scheme2c.Value.{nihil, fixnum, ptr, symb_nil, symb_f, desc_cond}
use scheme2c.Heap.{Heap, Obj, obj, cons, vector, real, ok, fault, out_of_fuel, bad_argv, division}
use scheme2c.Heap.Returns.{Returns}
use scheme2c.Lists.{carcdr, clp_proper, cl_len, cli_len, bin_list, bin_mulist, args_to_cl}
use scheme2c.Lists.Spine.{Spine, stop, link}
use scheme2c.Lists.Length.{Endless, lengths_endless}
use scheme2c.Lists.Build.{Listed, lists_of_args}
use scheme2c.Builtins.Args.{datum_real}
use scheme2c.Builtins.Logic.{bin_and, bin_or}
use scheme2c.Builtins.Logic.Laws.{and_or_lem}
use scheme2c.Builtins.Pairs.{bin_car}
use scheme2c.Builtins.Vectors.{bin_vector_set}
use scheme2c.Builtins.Vectors.Laws.{WroteElem, bin_vector_set-WroteElem}
use scheme2c.Builtins.Num.{
  Double, bin_num_plus, bin_num_mult, bin_num_div, bin_num_less, bin_num_lesseq, bin_num_eq,
  bin_num_greatereq, bin_num_greater, wrap_fixnum,
}
use scheme2c.Builtins.Num.Sum.{none_left, long, double, sum, product, longs_lem}
use scheme2c.Builtins.Num.Order.{ordered, comparisons_ordered}
use scheme2c.Builtins.Num.Divide.{divide_longs, long_of, fixnums, quotient}
use scheme2c.Builtins.Call.{call, new_bin}
use scheme2c.Builtins.Bounds.{InBounds}
use scheme2c.Builtins.Bounds.Library.{call-InBounds}

-- At 1 and 2 a list of two pairs, at 3 and 4 a mutable and a constant vector, at 5 a real, at 6 a
-- constant pair, at 7 a pair that is its own cdr.
abbrev objects : List Obj
objects =
    obj false (cons (fixnum 7) (ptr 2))
    ∷ obj false (cons (fixnum 8) nihil)
    ∷ obj false (vector (fixnum 7 ∷ fixnum 8 ∷ []))
    ∷ obj true (vector (fixnum 7 ∷ []))
    ∷ obj false (real 42)
    ∷ obj true (cons (fixnum 7) nihil)
    ∷ obj false (cons (fixnum 7) (ptr 7))
    ∷ []

abbrev cells : ℕ → Option Obj
cells zero = none
cells (suc p) = get_elem? objects p

abbrev heap : Heap
heap = record { next = 8; cell = cells }

-- Numbers in place of floating-point numbers.
abbrev pub doubles : Double
doubles = record {
  of_long = λ w. w;
  plus = λ a b. a + b;
  minus = λ a b. a - b;
  times = λ a b. a * b;
  divide = λ a b. a / b;
  negate = λ a. a;
  sqrt = λ a. a;
  one = 1;
  less = ltb;
  less_eq = leb;
  equal = λ a b. a == b;
}

spine : Spine heap nihil (ptr 1) ((1, fixnum 7) ∷ (2, fixnum 8) ∷ [])
unfolding carcdr
spine = link refl (link refl (stop refl))

cycle : Endless heap (λ v. v ≡ ptr 7)
unfolding carcdr
cycle v e = (fixnum 7, ptr 7, ap (carcdr heap) e, refl)

lengths_endless_example :
    (clp_proper 9 (ptr 7) heap ≡ out_of_fuel)
    × (cl_len 9 (ptr 7) heap ≡ out_of_fuel)
    × (cli_len 9 (ptr 7) heap ≡ out_of_fuel)
lengths_endless_example = lengths_endless heap (λ v. v ≡ ptr 7) cycle 9 (ptr 7) refl

lists_of_args_example :
    Returns (Listed true (fixnum 1 ∷ fixnum 2 ∷ []) heap) (bin_list (fixnum 1 ∷ fixnum 2 ∷ []) heap)
    × Returns
        (Listed false (fixnum 1 ∷ fixnum 2 ∷ []) heap)
        (bin_mulist (fixnum 1 ∷ fixnum 2 ∷ []) heap)
    × Returns
        (Listed false (fixnum 1 ∷ fixnum 2 ∷ []) heap)
        (args_to_cl (fixnum 1 ∷ fixnum 2 ∷ []) heap)
    × (bin_list [] heap ≡ ok symb_nil heap)
    × (bin_mulist [] heap ≡ ok symb_nil heap)
    × (args_to_cl [] heap ≡ ok symb_nil heap)
lists_of_args_example = lists_of_args (fixnum 1) (fixnum 2 ∷ []) heap

and_or_lem_example :
    (bin_and (fixnum 1 ∷ symb_f ∷ []) heap ≡ ok symb_f heap)
    × (bin_or (fixnum 1 ∷ symb_f ∷ []) heap ≡ ok (fixnum 1) heap)
    × (bin_or [] heap ≡ ok symb_f heap)
    × (bin_and [] heap ≡ fault bad_argv)
and_or_lem_example = and_or_lem (fixnum 1) (symb_f ∷ []) heap

bin_vector_set-WroteElem_example :
    Returns
      (WroteElem heap 3 1 (fixnum 7 ∷ fixnum 8 ∷ []) (fixnum 9) (omega arith))
      (bin_vector_set (ptr 3 ∷ fixnum 1 ∷ fixnum 9 ∷ []) heap)
bin_vector_set-WroteElem_example =
    bin_vector_set-WroteElem heap 3 1 (fixnum 7 ∷ fixnum 8 ∷ []) (fixnum 9) (omega arith) refl
      (omega arith)

longs_lem_example :
    (bin_num_plus doubles (fixnum 7 ∷ fixnum 8 ∷ []) heap
      ≡ ok (fixnum (wrap_fixnum (sum (7 ∷ 8 ∷ []) % modulus))) heap)
    × (bin_num_mult doubles (fixnum 7 ∷ fixnum 8 ∷ []) heap
        ≡ ok (fixnum (wrap_fixnum (product (7 ∷ 8 ∷ []) % modulus))) heap)
longs_lem_example = longs_lem doubles (7 ∷ 8 ∷ []) heap

the_real : datum_real heap (ptr 5) ≡ some 42
unfolding datum_real
the_real = refl

comparisons_ordered_example :
    (bin_num_less doubles (fixnum 7 ∷ ptr 5 ∷ []) heap
      ≡ ok (desc_cond (ordered ltb (7 ∷ 42 ∷ []))) heap)
    × (bin_num_lesseq doubles (fixnum 7 ∷ ptr 5 ∷ []) heap
        ≡ ok (desc_cond (ordered leb (7 ∷ 42 ∷ []))) heap)
    × (bin_num_eq doubles (fixnum 7 ∷ ptr 5 ∷ []) heap
        ≡ ok (desc_cond (ordered (λ a b. a == b) (7 ∷ 42 ∷ []))) heap)
    × (bin_num_greatereq doubles (fixnum 7 ∷ ptr 5 ∷ []) heap
        ≡ ok (desc_cond (ordered (λ a b. leb b a) (7 ∷ 42 ∷ []))) heap)
    × (bin_num_greater doubles (fixnum 7 ∷ ptr 5 ∷ []) heap
        ≡ ok (desc_cond (ordered (λ a b. ltb b a) (7 ∷ 42 ∷ []))) heap)
comparisons_ordered_example =
    comparisons_ordered doubles heap (fixnum 7) (long 7 (double the_real none_left))

-- -7 is divided by 2; in the second division a 0 stands behind the 2.
divide_longs_example :
    (bin_num_div doubles (fixnum (long_of (true, 7)) ∷ fixnums ((false, 2) ∷ [])) heap
      ≡ ok (fixnum (long_of (quotient (true, 7) ((false, 2) ∷ [])))) heap)
    × (bin_num_div doubles
          (fixnum (long_of (true, 7)) ∷ (fixnums ((false, 2) ∷ []) ++ (fixnum 0 ∷ [])))
          heap
        ≡ fault division)
divide_longs_example =
    divide_longs doubles heap (true, 7) (false, 2) [] ((false, 2) ∷ []) [] (omega arith)
      (omega arith, omega arith, tt) (omega arith, omega arith, tt)

call-InBounds_example :
    InBounds (call (new_bin 1 bin_car) (ptr 1 ∷ fixnum 9 ∷ []) heap)
    ⊎ ((bin_car ≡ bin_and) × ((ptr 1 ∷ fixnum 9 ∷ []) ≡ []))
call-InBounds_example =
    call-InBounds doubles 5 24 (new_bin 1 bin_car) (ptr 1 ∷ fixnum 9 ∷ []) heap refl
