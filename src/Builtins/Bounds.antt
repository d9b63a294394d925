-- ===== src/Builtins/Bounds.antt =====
-- Runs that read no argument that is not there.
pub mod Simple
pub mod Walks
pub mod Arithmetic
pub mod Library
use scheme2c.Prelude.{
  ℕ, zero, suc, ◌≡◌, Bool, true, false, List, [], ◌∷◌, arith, leb, if◌then◌else◌, length,
}
use scheme2c.Value.{desc_cond, Value}
use scheme2c.Heap.{
  dangling, division, Heap, Run, ok, panic, fault, out_of_fuel, bad_argv, Cmd, and_then, pure, ◌>>◌,
}
use scheme2c.Builtins.Args.{arg}
use scheme2c.Builtins.Logic.{
  bin_or, bin_not, bin_eqv, bin_numberp, bin_realp, bin_fixnump, bin_type_ix, bin_vectorp,
  bin_pairp, bin_nullp, bin_listp, bin_make_immutable, bin_assert,
}
use scheme2c.Builtins.Pairs.{
  bin_cons, bin_pair, bin_set_car, bin_set_cdr, bin_car, bin_cdr, bin_caar, bin_cddr, bin_cadr,
  bin_length, bin_ilength, bin_quote, bin_unquote, bin_unquote_splicing, bin_list_last,
}
use scheme2c.Builtins.Vectors.{
  bin_vector_set, bin_vector_ref, bin_vector_length, bin_make_vector, bin_vector, bin_box, bin_wbox,
  bin_unbox, bin_unboxif,
}
use scheme2c.Builtins.Num.{
  Unum, fix, dbl, bin_num_arg, num_step, num_loop, bin_num_real, compare_loop, bin_num_compare,
  bin_num_ret, minus_rest, divide_rest, long_plus, long_times, long_minus, long_divide, Double,
  bin_num_plus, bin_num_mult, bin_num_minus, bin_num_div, bin_num_sqrt,
}
use scheme2c.Lists.{
  last_loop, list_pair, append_pair, append_loop, make_list, set_cdr, cl_last, append_pair,
  append_loop, cl_last, bin_list, bin_mulist,
}

-- The run reads no argument that is not there.
abbrev pub InBounds {ℓ} : {A : Type ℓ} → Run A → Type 0
InBounds (fault bad_argv) = ⊥
InBounds _ = Unit {0}

pub InBounds-bind {ℓ κ} :
    {A : Type ℓ} {B : Type κ} (r : Run A) (k : A → Cmd B)
    → InBounds r
    → ((a : A) (h : Heap) → InBounds (k a h))
    → InBounds (and_then r k)
InBounds-bind (ok a h) k p q = q a h
InBounds-bind (panic c) k p q = tt
InBounds-bind (fault bad_argv) k p q = p
InBounds-bind (fault dangling) k p q = tt
InBounds-bind (fault division) k p q = tt
InBounds-bind out_of_fuel k p q = tt

pub InBounds-if {ℓ} :
    {A : Type ℓ} (b : Bool) (m n : Cmd A) (h : Heap)
    → InBounds (m h)
    → InBounds (n h)
    → InBounds ((if b then m else n) h)
InBounds-if true m n h p q = p
InBounds-if false m n h p q = q

pub in_arg :
    (vs : List Value) (i : ℕ) (h : Heap) → leb (length vs) i ≡ false → InBounds (arg vs i h)
in_arg [] i h e = ground arith
in_arg (v ∷ vs) zero h e = tt
in_arg (v ∷ vs) (suc i) h e = in_arg vs i h (ground arith)
