-- ===== src/Builtins/Bounds/Simple.antt =====
-- Procedures of logic, pairs, vectors and boxes that take a fixed number of arguments, or any number.
use scheme2c.Prelude.{List, [], ◌∷◌, arith}
use scheme2c.Value.{Value}
use scheme2c.Heap.{Heap}
use scheme2c.Builtins.Logic.{
  bin_or, bin_not, bin_eqv, bin_numberp, bin_realp, bin_fixnump, bin_type_ix, bin_vectorp,
  bin_pairp, bin_nullp, bin_make_immutable, bin_assert,
}
use scheme2c.Builtins.Pairs.{
  bin_cons, bin_pair, bin_set_car, bin_set_cdr, bin_car, bin_cdr, bin_caar, bin_cddr, bin_cadr,
  bin_quote, bin_unquote,
}
use scheme2c.Builtins.Vectors.{
  bin_vector_set, bin_vector_ref, bin_vector_length, bin_make_vector, bin_vector, bin_box, bin_wbox,
  bin_unbox, bin_unboxif,
}
use scheme2c.Builtins.Bounds.{InBounds, in_arg}

pub in_bin_not : (v : Value) (h : Heap) → InBounds (bin_not (v ∷ []) h)
unfolding bin_not
in_bin_not v h = ground arith

pub in_bin_type_ix : (v : Value) (h : Heap) → InBounds (bin_type_ix (v ∷ []) h)
unfolding bin_type_ix
in_bin_type_ix v h = ground arith

pub in_bin_car : (v : Value) (h : Heap) → InBounds (bin_car (v ∷ []) h)
unfolding bin_car
in_bin_car v h = ground arith

pub in_bin_cdr : (v : Value) (h : Heap) → InBounds (bin_cdr (v ∷ []) h)
unfolding bin_cdr
in_bin_cdr v h = ground arith

pub in_bin_caar : (v : Value) (h : Heap) → InBounds (bin_caar (v ∷ []) h)
unfolding bin_caar
in_bin_caar v h = ground arith

pub in_bin_cadr : (v : Value) (h : Heap) → InBounds (bin_cadr (v ∷ []) h)
unfolding bin_cadr
in_bin_cadr v h = ground arith

pub in_bin_cddr : (v : Value) (h : Heap) → InBounds (bin_cddr (v ∷ []) h)
unfolding bin_cddr
in_bin_cddr v h = ground arith

pub in_bin_nullp : (v : Value) (h : Heap) → InBounds (bin_nullp (v ∷ []) h)
unfolding bin_nullp
in_bin_nullp v h = ground arith

pub in_bin_pairp : (v : Value) (h : Heap) → InBounds (bin_pairp (v ∷ []) h)
unfolding bin_pairp
in_bin_pairp v h = ground arith

pub in_bin_quote : (v : Value) (h : Heap) → InBounds (bin_quote (v ∷ []) h)
unfolding bin_quote
in_bin_quote v h = ground arith

pub in_bin_unquote : (v : Value) (h : Heap) → InBounds (bin_unquote (v ∷ []) h)
unfolding bin_unquote
in_bin_unquote v h = ground arith

pub in_bin_vector_length : (v : Value) (h : Heap) → InBounds (bin_vector_length (v ∷ []) h)
unfolding bin_vector_length
in_bin_vector_length v h = ground arith

pub in_bin_vectorp : (v : Value) (h : Heap) → InBounds (bin_vectorp (v ∷ []) h)
unfolding bin_vectorp
in_bin_vectorp v h = ground arith

pub in_bin_box : (v : Value) (h : Heap) → InBounds (bin_box (v ∷ []) h)
unfolding bin_box
in_bin_box v h = ground arith

pub in_bin_wbox : (v : Value) (h : Heap) → InBounds (bin_wbox (v ∷ []) h)
unfolding bin_wbox
in_bin_wbox v h = ground arith

pub in_bin_unbox : (v : Value) (h : Heap) → InBounds (bin_unbox (v ∷ []) h)
unfolding bin_unbox
in_bin_unbox v h = ground arith

pub in_bin_unboxif : (v : Value) (h : Heap) → InBounds (bin_unboxif (v ∷ []) h)
unfolding bin_unboxif
in_bin_unboxif v h = ground arith

pub in_bin_make_immutable : (v : Value) (h : Heap) → InBounds (bin_make_immutable (v ∷ []) h)
unfolding bin_make_immutable
in_bin_make_immutable v h = ground arith

pub in_bin_eqv : (v w : Value) (h : Heap) → InBounds (bin_eqv (v ∷ w ∷ []) h)
unfolding bin_eqv
in_bin_eqv v w h = ground arith

pub in_bin_cons : (v w : Value) (h : Heap) → InBounds (bin_cons (v ∷ w ∷ []) h)
unfolding bin_cons
in_bin_cons v w h = ground arith

pub in_bin_pair : (v w : Value) (h : Heap) → InBounds (bin_pair (v ∷ w ∷ []) h)
unfolding bin_pair
in_bin_pair v w h = ground arith

pub in_bin_set_car : (v w : Value) (h : Heap) → InBounds (bin_set_car (v ∷ w ∷ []) h)
unfolding bin_set_car
in_bin_set_car v w h = ground arith

pub in_bin_set_cdr : (v w : Value) (h : Heap) → InBounds (bin_set_cdr (v ∷ w ∷ []) h)
unfolding bin_set_cdr
in_bin_set_cdr v w h = ground arith

pub in_bin_assert : (v w : Value) (h : Heap) → InBounds (bin_assert (v ∷ w ∷ []) h)
unfolding bin_assert
in_bin_assert v w h = ground arith

pub in_bin_vector_ref : (v w : Value) (h : Heap) → InBounds (bin_vector_ref (v ∷ w ∷ []) h)
unfolding bin_vector_ref
in_bin_vector_ref v w h = grind (arith, in_arg)

pub in_bin_vector_set : (v w x : Value) (h : Heap) → InBounds (bin_vector_set (v ∷ w ∷ x ∷ []) h)
unfolding bin_vector_set
in_bin_vector_set v w x h = ground arith

pub in_bin_make_vector :
    (v : Value) (vs : List Value) (h : Heap) → InBounds (bin_make_vector (v ∷ vs) h)
unfolding bin_make_vector
in_bin_make_vector v [] h = ground arith
in_bin_make_vector v (w ∷ []) h = ground arith
in_bin_make_vector v (w ∷ x ∷ vs) h = ground arith

pub in_bin_vector : (vs : List Value) (h : Heap) → InBounds (bin_vector vs h)
unfolding bin_vector
in_bin_vector vs h = ground arith

pub in_predicates :
    (v : Value) (vs : List Value) (h : Heap)
    → InBounds (bin_numberp (v ∷ vs) h)
      × InBounds (bin_realp (v ∷ vs) h)
      × InBounds (bin_fixnump (v ∷ vs) h)
unfolding bin_numberp bin_realp bin_fixnump
in_predicates v vs h = (ground arith, ground arith, ground arith)

pub in_bin_or : (vs : List Value) (h : Heap) → InBounds (bin_or vs h)
unfolding bin_or
in_bin_or [] h = tt
in_bin_or (v ∷ vs) h = ground (arith, in_bin_or vs h)
