-- ===== src/Builtins/Logic.antt =====
-- Logic and predicates: `bin_and`, `bin_or`, `bin_not`, `bin_eqv` and the tests of types.
pub mod Laws
use scheme2c.Prelude.{
  ℕ, zero, suc, ◌+◌, ◌-◌, ◌*◌, ◌/◌, ◌%◌, ◌^◌, ◌≤◌, ◌<◌, ◌≡◌, refl, sym, ap, ◌∙◌, ◌≢◌, ◌↔◌, ◌⊎◌, inl,
  inr, Bool, true, false, not, ◌&&◌, ◌||◌, Option, none, some, List, [], ◌∷◌, ◌++◌, map, arith, ltb,
  leb, ◌==◌, if◌then◌else◌, ltb→lt, lt→ltb, leb→le, ==_iff, Bool-cases, Option-cases, length,
  get_elem?, set, length-append, length-set, get_elem?-set_self, get_elem?-set_ne,
}
use scheme2c.Value.{
  Value, nihil, fixnum, symb_nil, symb_t, symb_f, symb_void, value_eq, desc_cond, cl_end,
}
use scheme2c.Heap.{
  Heap, bad_argv, ok, panic, fault, Cmd, pure, ◌>>=◌, ◌>>◌, datum_set_const, vm_assert,
}
use scheme2c.Lists.{datum_is_carcdr, is_some, clp_proper}
use scheme2c.Builtins.Args.{
  arg, Bin, datum_real, datum_vector, datum_is_const, datum_typeix, is_fixnum,
}

-- `argv[argc - 1]`: with no argument that is a read outside the array.
last_arg : Bin
last_arg [] h = fault bad_argv
last_arg (x ∷ xs) h = arg (x ∷ xs) (length xs) h

-- The loop stops at the first `#f`.
and_loop : List Value → List Value → Cmd Value
unfolding last_arg
and_loop argv [] = last_arg argv
and_loop argv (x ∷ xs) =
    let rest = and_loop argv xs in if value_eq x symb_f then pure symb_f else rest

unfoldable pub bin_and : Bin
unfolding and_loop
bin_and argv = and_loop argv argv

unfoldable pub bin_or : Bin
bin_or [] = pure symb_f
bin_or (x ∷ xs) = let rest = bin_or xs in if value_eq x symb_f then rest else pure x

unfoldable pub bin_not : Bin
bin_not argv = do d ← arg argv 0; pure (if value_eq d symb_f then symb_t else symb_f)

unfoldable pub bin_eqv : Bin
bin_eqv argv = do a ← arg argv 0; b ← arg argv 1; pure (desc_cond (value_eq a b))

-- `TAG_BITMASK_NUMBER` is set for the numeric types, of which instances are made only of reals.
unfoldable pub bin_numberp : Bin
unfolding datum_real
bin_numberp argv = do
  d ← arg argv 0
  λ h. ok (desc_cond (is_fixnum d || is_some (datum_real h d))) h

unfoldable pub bin_realp : Bin
unfolding datum_real
bin_realp argv = do d ← arg argv 0; λ h. ok (desc_cond (is_some (datum_real h d))) h

unfoldable pub bin_fixnump : Bin
bin_fixnump argv = do d ← arg argv 0; pure (desc_cond (is_fixnum d))

unfoldable pub bin_type_ix : Bin
unfolding datum_typeix
bin_type_ix argv = do
  d ← arg argv 0
  λ h. elim (datum_typeix h d) [ none ↦ ok symb_f h | some t ↦ ok (fixnum t) h ]

unfoldable pub bin_vectorp : Bin
unfolding datum_vector
bin_vectorp argv = do d ← arg argv 0; λ h. ok (desc_cond (is_some (datum_vector h d))) h

unfoldable pub bin_pairp : Bin
unfolding datum_is_carcdr
bin_pairp argv = do d ← arg argv 0; λ h. ok (desc_cond (datum_is_carcdr h d)) h

unfoldable pub bin_nullp : Bin
bin_nullp argv = do d ← arg argv 0; pure (desc_cond (cl_end d))

unfoldable pub bin_listp : ℕ → Bin
unfolding clp_proper
bin_listp f argv = do d ← arg argv 0; b ← clp_proper f d; pure (desc_cond b)

-- Only a heap object is made constant; anything else is returned as it is.
unfoldable pub bin_make_immutable : Bin
unfolding datum_set_const datum_typeix
bin_make_immutable argv = do
  d ← arg argv 0
  λ h. elim (datum_typeix h d) [ none ↦ ok d h | some _ ↦ (datum_set_const d >> pure d) h ]

-- The second argument is read where the first one is #f, to print it; what is printed before the
-- exception is not modelled.
unfoldable pub bin_assert : Bin
bin_assert argv = do
  d ← arg argv 0
  let failed : Cmd Value = do _ ← arg argv 1; λ h. panic vm_assert
  if value_eq d symb_f then failed else pure symb_void
