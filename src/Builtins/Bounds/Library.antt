-- ===== src/Builtins/Bounds/Library.antt =====
-- The arity that the library states for a procedure keeps it inside its argument array.
use scheme2c.Prelude.{
  ℕ, zero, suc, ◌≡◌, refl, ap, ◌⊎◌, inl, inr, none, some, List, [], ◌∷◌, arith, get_elem?,
}
use mathlib.Core.Path.{subst}
use scheme2c.Value.{Value}
use scheme2c.Heap.{Heap}
use scheme2c.Builtins.Args.{Bin}
use scheme2c.Builtins.Logic.{
  bin_and, bin_or, bin_not, bin_eqv, bin_numberp, bin_realp, bin_fixnump, bin_type_ix, bin_vectorp,
  bin_pairp, bin_nullp, bin_listp, bin_make_immutable, bin_assert,
}
use scheme2c.Builtins.Logic.Laws.{and_or_lem}
use scheme2c.Builtins.Pairs.{
  bin_cons, bin_pair, bin_set_car, bin_set_cdr, bin_car, bin_cdr, bin_caar, bin_cddr, bin_cadr,
  bin_length, bin_ilength, bin_quote, bin_unquote, bin_unquote_splicing, bin_list_last,
}
use scheme2c.Builtins.Vectors.{
  bin_vector_set, bin_vector_ref, bin_vector_length, bin_make_vector, bin_vector, bin_box, bin_wbox,
  bin_unbox, bin_unboxif,
}
use scheme2c.Builtins.Num.{
  Double, bin_num_plus, bin_num_mult, bin_num_minus, bin_num_div, bin_num_less, bin_num_lesseq,
  bin_num_eq, bin_num_greatereq, bin_num_greater, bin_num_sqrt,
}
use scheme2c.Lists.{bin_list, bin_mulist}
use scheme2c.Builtins.Call.{Closure, call, new_bin, new_bin_multy, libr_init}
use scheme2c.Builtins.Bounds.{InBounds}
use scheme2c.Builtins.Bounds.Simple.{
  in_bin_not, in_bin_type_ix, in_bin_car, in_bin_cdr, in_bin_caar, in_bin_cadr, in_bin_cddr,
  in_bin_nullp, in_bin_pairp, in_bin_quote, in_bin_unquote, in_bin_vector_length, in_bin_vectorp,
  in_bin_box, in_bin_wbox, in_bin_unbox, in_bin_unboxif, in_bin_make_immutable, in_bin_eqv,
  in_bin_cons, in_bin_pair, in_bin_set_car, in_bin_set_cdr, in_bin_assert, in_bin_vector_ref,
  in_bin_vector_set, in_bin_make_vector, in_bin_vector, in_predicates, in_bin_or,
}
use scheme2c.Builtins.Bounds.Walks.{in_list_walks, in_lists, in_bin_list_last}
use scheme2c.Builtins.Bounds.Arithmetic.{
  in_bin_num_plus, in_bin_num_mult, in_bin_num_minus, in_bin_num_div, in_bin_num_sqrt,
  in_bin_num_compare,
}

-- A call stays inside the array, unless it is one of `and` with no argument.
abbrev Stays : Closure → Type 0
Stays cl =
    (argv : List Value) (h : Heap) → InBounds (call cl argv h) ⊎ ((cl.bin ≡ bin_and) × (argv ≡ []))

one : (b : Bin) → ((v : Value) (h : Heap) → InBounds (b (v ∷ []) h)) → Stays (new_bin 1 b)
unfolding call
one b p [] h = inl tt
one b p (v ∷ []) h = inl (p v h)
one b p (v ∷ w ∷ vs) h = inl (ground arith)

two : (b : Bin) → ((v w : Value) (h : Heap) → InBounds (b (v ∷ w ∷ []) h)) → Stays (new_bin 2 b)
unfolding call
two b p [] h = inl tt
two b p (v ∷ []) h = inl tt
two b p (v ∷ w ∷ []) h = inl (p v w h)
two b p (v ∷ w ∷ x ∷ vs) h = inl (ground arith)

three :
    (b : Bin) → ((v w x : Value) (h : Heap) → InBounds (b (v ∷ w ∷ x ∷ []) h)) → Stays (new_bin 3 b)
unfolding call
three b p [] h = inl tt
three b p (v ∷ []) h = inl tt
three b p (v ∷ w ∷ []) h = inl tt
three b p (v ∷ w ∷ x ∷ []) h = inl (p v w x h)
three b p (v ∷ w ∷ x ∷ y ∷ vs) h = inl (ground arith)

many0 : (b : Bin) → ((vs : List Value) (h : Heap) → InBounds (b vs h)) → Stays (new_bin_multy 0 b)
unfolding call
many0 b p vs h = let q = p vs h in inl (ground arith)

many1 :
    (b : Bin)
    → ((v : Value) (vs : List Value) (h : Heap) → InBounds (b (v ∷ vs) h))
    → Stays (new_bin_multy 1 b)
unfolding call
many1 b p [] h = inl tt
many1 b p (v ∷ vs) h = let q = p v vs h in inl (ground arith)

many2 :
    (b : Bin)
    → ((v : Value) (vs : List Value) (h : Heap) → InBounds (b (v ∷ vs) h))
    → Stays (new_bin_multy 2 b)
unfolding call
many2 b p [] h = inl tt
many2 b p (v ∷ vs) h = let q = p v vs h in inl (ground arith)

and_entry : Stays (new_bin_multy 0 bin_and)
unfolding call
and_entry [] h = inr (refl, refl)
and_entry (v ∷ vs) h = let q = (and_or_lem v vs h).0 in inl (ground arith)

module _ (c : Double) (v : Value) (vs : List Value) (h : Heap) where
  in_less : InBounds (bin_num_less c (v ∷ vs) h)
  unfolding bin_num_less
  in_less = in_bin_num_compare c c.less v vs h

  in_eq : InBounds (bin_num_eq c (v ∷ vs) h)
  unfolding bin_num_eq
  in_eq = in_bin_num_compare c c.equal v vs h

  in_lesseq : InBounds (bin_num_lesseq c (v ∷ vs) h)
  unfolding bin_num_lesseq
  in_lesseq = in_bin_num_compare c c.less_eq v vs h

  in_greater : InBounds (bin_num_greater c (v ∷ vs) h)
  unfolding bin_num_greater
  in_greater = in_bin_num_compare c (λ a b. c.less b a) v vs h

  in_greatereq : InBounds (bin_num_greatereq c (v ∷ vs) h)
  unfolding bin_num_greatereq
  in_greatereq = in_bin_num_compare c (λ a b. c.less_eq b a) v vs h

infixr 5 ◌&◌
-- Each closure of the list has the property.
data Every (P : Closure → Type 0) : List Closure → Type 0 where
  end : Every P []
  ◌&◌ : {x : Closure} {xs : List Closure} → P x → Every P xs → Every P (x ∷ xs)

Every-get :
    (P : Closure → Type 0) (xs : List Closure) (i : ℕ) (cl : Closure)
    → Every P xs
    → get_elem? xs i ≡ some cl
    → P cl
Every-get P [] i cl all e = let z : ⊥ = ground arith in elim z [ ]
Every-get P (x ∷ xs) zero cl (p & ps) e = subst P (ap (λ o. elim o [ none ↦ x | some y ↦ y ]) e) p
Every-get P (x ∷ xs) (suc i) cl (p & ps) e = Every-get P xs i cl ps e

libr_init-Every : (c : Double) (f : ℕ) → Every Stays (libr_init c f)
libr_init-Every c f =
    many1 bin_numberp (λ v vs h. (in_predicates v vs h).0)
    & many1 bin_realp (λ v vs h. (in_predicates v vs h).1)
    & many1 bin_fixnump (λ v vs h. (in_predicates v vs h).2)
    & many0 (bin_num_plus c) (in_bin_num_plus c)
    & many0 (bin_num_mult c) (in_bin_num_mult c)
    & many1 (bin_num_minus c) (in_bin_num_minus c)
    & many1 (bin_num_div c) (in_bin_num_div c)
    & one (bin_num_sqrt c) (in_bin_num_sqrt c)
    & many2 (bin_num_less c) (in_less c)
    & many2 (bin_num_eq c) (in_eq c)
    & many2 (bin_num_lesseq c) (in_lesseq c)
    & many2 (bin_num_greater c) (in_greater c)
    & many2 (bin_num_greatereq c) (in_greatereq c)
    & two bin_eqv in_bin_eqv
    & and_entry
    & many0 bin_or in_bin_or
    & one bin_not in_bin_not
    & one bin_type_ix in_bin_type_ix
    & many0 bin_list (λ vs h. (in_lists vs h).0)
    & many0 bin_mulist (λ vs h. (in_lists vs h).1)
    & two bin_cons in_bin_cons
    & two bin_pair in_bin_pair
    & two bin_set_car in_bin_set_car
    & two bin_set_cdr in_bin_set_cdr
    & one bin_car in_bin_car
    & one bin_cdr in_bin_cdr
    & one bin_caar in_bin_caar
    & one bin_cadr in_bin_cadr
    & one bin_cddr in_bin_cddr
    & one (bin_listp f) (λ v h. (in_list_walks f v h).0)
    & one bin_nullp in_bin_nullp
    & one bin_pairp in_bin_pairp
    & one (bin_length f) (λ v h. (in_list_walks f v h).1)
    & one (bin_ilength f) (λ v h. (in_list_walks f v h).2)
    & one (bin_list_last f) (in_bin_list_last f)
    & one bin_quote in_bin_quote
    & one bin_unquote in_bin_unquote
    & one (bin_unquote_splicing f) (λ v h. (in_list_walks f v h).3)
    & three bin_vector_set in_bin_vector_set
    & two bin_vector_ref in_bin_vector_ref
    & one bin_vector_length in_bin_vector_length
    & many1 bin_make_vector in_bin_make_vector
    & one bin_vectorp in_bin_vectorp
    & many0 bin_vector in_bin_vector
    & one bin_box in_bin_box
    & one bin_wbox in_bin_wbox
    & one bin_unbox in_bin_unbox
    & one bin_unboxif in_bin_unboxif
    & one bin_make_immutable in_bin_make_immutable
    & two bin_assert in_bin_assert
    & end

-- A call of a built-in procedure of the library, with any arguments and from any heap, is refused for
-- the number of its arguments or reads none of them outside the argument array: in all 50 modelled
-- entries but `and`, and there too unless it is called with no argument.
pub call-InBounds :
    (c : Double) (f i : ℕ) (cl : Closure) (argv : List Value) (h : Heap)
    → get_elem? (libr_init c f) i ≡ some cl
    → InBounds (call cl argv h) ⊎ ((cl.bin ≡ bin_and) × (argv ≡ []))
call-InBounds c f i cl argv h e =
    Every-get Stays (libr_init c f) i cl (libr_init-Every c f) e argv h
