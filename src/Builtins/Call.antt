-- ===== src/Builtins/Call.antt =====
-- The library that `libr_init` of src/libr.c binds to global names, and the call of a built-in
-- procedure: the test of the number of arguments that the interpreter makes at a PREP command, and the
-- call. Entries whose procedures are not modelled are not listed. The interpreter's array of arguments
-- has DEF_BINARGS_SZ places, which is not modelled: a call is taken to have at most as many arguments.
use scheme2c.Prelude.{
  ℕ, Bool, true, false, not, ◌&&◌, ◌||◌, List, [], ◌∷◌, leb, ◌==◌, if◌then◌else◌, length,
}
use scheme2c.Heap.{panic}
use scheme2c.Builtins.Args.{Bin}
use scheme2c.Builtins.Logic.{
  bin_and, bin_or, bin_not, bin_eqv, bin_numberp, bin_realp, bin_fixnump, bin_type_ix, bin_vectorp,
  bin_pairp, bin_nullp, bin_listp, bin_make_immutable, bin_assert,
}
use scheme2c.Builtins.Pairs.{
  bin_cons, bin_pair, bin_set_car, bin_set_cdr, bin_car, bin_cdr, bin_caar, bin_cddr, bin_cadr,
  bin_length, bin_ilength, bin_quote, bin_unquote, bin_unquote_splicing, bin_list_last,
}
use scheme2c.Builtins.Vectors.{
  bin_vector_set, bin_vector_ref, bin_vector_length, bin_make_vector, bin_vector, bin_box, bin_wbox,
  bin_unbox, bin_unboxif,
}
use scheme2c.Builtins.Num.{
  Double, bin_num_plus, bin_num_mult, bin_num_minus, bin_num_div, bin_num_less, bin_num_lesseq,
  bin_num_eq, bin_num_greatereq, bin_num_greater, bin_num_sqrt,
}
use scheme2c.Lists.{bin_list, bin_mulist}

-- A closure of a built-in procedure: `new_bin` and `new_bin_multy`.
pub record Closure : Type 0 where
  pub multy : Bool
  pub argc : ℕ
  pub bin : Bin

abbrev pub bad_argc : ℕ
bad_argc = 1200

-- The test at a PREP command, and then the call on the arguments.
unfoldable pub call : Closure → Bin
call c argv h =
    let fargc = length argv in
    if (not c.multy && fargc == c.argc) || (c.multy && leb c.argc fargc)
    then c.bin argv h
    else panic bad_argc

abbrev pub new_bin : ℕ → Bin → Closure
new_bin argc bin = record { multy = false; argc = argc; bin = bin }

abbrev pub new_bin_multy : ℕ → Bin → Closure
new_bin_multy argc bin = record { multy = true; argc = argc; bin = bin }

-- The entries, in the order of the source; `f` is the fuel of the list loops.
abbrev pub libr_init : Double → (f : ℕ) → List Closure
libr_init c f =
    new_bin_multy 1 bin_numberp
    ∷ new_bin_multy 1 bin_realp
    ∷ new_bin_multy 1 bin_fixnump
    ∷ new_bin_multy 0 (bin_num_plus c)
    ∷ new_bin_multy 0 (bin_num_mult c)
    ∷ new_bin_multy 1 (bin_num_minus c)
    ∷ new_bin_multy 1 (bin_num_div c)
    ∷ new_bin 1 (bin_num_sqrt c)
    ∷ new_bin_multy 2 (bin_num_less c)
    ∷ new_bin_multy 2 (bin_num_eq c)
    ∷ new_bin_multy 2 (bin_num_lesseq c)
    ∷ new_bin_multy 2 (bin_num_greater c)
    ∷ new_bin_multy 2 (bin_num_greatereq c)
    ∷ new_bin 2 bin_eqv
    ∷ new_bin_multy 0 bin_and
    ∷ new_bin_multy 0 bin_or
    ∷ new_bin 1 bin_not
    ∷ new_bin 1 bin_type_ix
    ∷ new_bin_multy 0 bin_list
    ∷ new_bin_multy 0 bin_mulist
    ∷ new_bin 2 bin_cons
    ∷ new_bin 2 bin_pair
    ∷ new_bin 2 bin_set_car
    ∷ new_bin 2 bin_set_cdr
    ∷ new_bin 1 bin_car
    ∷ new_bin 1 bin_cdr
    ∷ new_bin 1 bin_caar
    ∷ new_bin 1 bin_cadr
    ∷ new_bin 1 bin_cddr
    ∷ new_bin 1 (bin_listp f)
    ∷ new_bin 1 bin_nullp
    ∷ new_bin 1 bin_pairp
    ∷ new_bin 1 (bin_length f)
    ∷ new_bin 1 (bin_ilength f)
    ∷ new_bin 1 (bin_list_last f)
    ∷ new_bin 1 bin_quote
    ∷ new_bin 1 bin_unquote
    ∷ new_bin 1 (bin_unquote_splicing f)
    ∷ new_bin 3 bin_vector_set
    ∷ new_bin 2 bin_vector_ref
    ∷ new_bin 1 bin_vector_length
    ∷ new_bin_multy 1 bin_make_vector
    ∷ new_bin 1 bin_vectorp
    ∷ new_bin_multy 0 bin_vector
    ∷ new_bin 1 bin_box
    ∷ new_bin 1 bin_wbox
    ∷ new_bin 1 bin_unbox
    ∷ new_bin 1 bin_unboxif
    ∷ new_bin 1 bin_make_immutable
    ∷ new_bin 2 bin_assert
    ∷ []
