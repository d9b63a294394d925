-- ===== src/Builtins/Vectors.antt =====
-- Vectors and boxes: `bin_vector_set` and its like.
pub mod Laws
use scheme2c.Prelude.{
  ℕ, zero, suc, ◌+◌, ◌-◌, ◌*◌, ◌/◌, ◌%◌, ◌^◌, ◌≤◌, ◌<◌, ◌≡◌, refl, sym, ap, ◌∙◌, ◌≢◌, ◌↔◌, ◌⊎◌, inl,
  inr, Bool, true, false, not, ◌&&◌, ◌||◌, Option, none, some, List, [], ◌∷◌, ◌++◌, map, arith, ltb,
  leb, ◌==◌, if◌then◌else◌, ltb→lt, lt→ltb, leb→le, ==_iff, Bool-cases, Option-cases, length,
  get_elem?, set, length-append, length-set, get_elem?-set_self, get_elem?-set_ne,
}
use scheme2c.Prelude.Word.{is_negative}
use scheme2c.Value.{Value, nihil, fixnum, ptr, symb_void}
use scheme2c.Heap.{
  vector, box, weak_box, Obj, obj, Heap, update, dangling, ok, fault, Cmd, pure, ◌>>=◌, ◌>>◌, alloc,
}
use scheme2c.Builtins.Args.{arg, Bin, bad_arg, datum_vector, datum_box, datum_is_const}

abbrev pub replicate {ℓ} : {A : Type ℓ} → ℕ → A → List A
replicate zero a = []
replicate (suc n) a = a ∷ replicate n a

-- An argument that must be a fixnum, as a `long`.
fixnum_of : Value → Cmd ℕ
fixnum_of (fixnum w) = pure w
fixnum_of _ = bad_arg

vector_of : Value → Cmd (List Value)
unfolding datum_vector
vector_of v h = elim (datum_vector h v) [ none ↦ bad_arg h | some vs ↦ ok vs h ]

-- The write of element `i` of a vector with the elements `vs`.
put_elem : Value → List Value → ℕ → Value → Cmd (Unit {0})
put_elem (ptr p) vs i x h = elim (h.cell p) [
  | none ↦ fault dangling
  | some o ↦ ok tt (record h { cell = update h.cell p (record o { body = vector (set vs i x) }) })
]
put_elem _ vs i x h = fault dangling

unfoldable pub bin_vector_set : Bin
unfolding vector_of fixnum_of put_elem datum_is_const
bin_vector_set argv = do
  vec ← arg argv 0
  ix ← arg argv 1
  vs ← vector_of vec
  λ h.
      if datum_is_const h vec
      then bad_arg h
      else (do
        i ← fixnum_of ix
        if is_negative i || leb (length vs) i
            then bad_arg
            else do x ← arg argv 2; put_elem vec vs i x; pure symb_void)
          h

unfoldable pub bin_vector_ref : Bin
unfolding vector_of fixnum_of
bin_vector_ref argv = do
  vec ← arg argv 0
  ix ← arg argv 1
  vs ← vector_of vec
  i ← fixnum_of ix
  if is_negative i || leb (length vs) i then bad_arg else arg vs i

unfoldable pub bin_vector_length : Bin
unfolding vector_of
bin_vector_length argv = do vec ← arg argv 0; vs ← vector_of vec; pure (fixnum (length vs))

-- The element count of `make-vector`: a fixnum that is not negative.
count_of : Value → Cmd ℕ
unfolding fixnum_of
count_of v = do w ← fixnum_of v; if is_negative w then bad_arg else pure w

-- The elements of a vector that is not filled are null pointers.
unfoldable pub bin_make_vector : Bin
unfolding count_of alloc
bin_make_vector [] = arg [] 0
bin_make_vector (count ∷ []) = do n ← count_of count; alloc (vector (replicate n nihil))
bin_make_vector (count ∷ fill ∷ []) = do n ← count_of count; alloc (vector (replicate n fill))
bin_make_vector (count ∷ fill ∷ more ∷ _) = bad_arg

unfoldable pub bin_vector : Bin
unfolding alloc
bin_vector argv = alloc (vector argv)

unfoldable pub bin_box : Bin
unfolding alloc
bin_box argv = do v ← arg argv 0; alloc (box v)

unfoldable pub bin_wbox : Bin
unfolding alloc
bin_wbox argv = do v ← arg argv 0; alloc (weak_box v)

unfoldable pub bin_unbox : Bin
unfolding datum_box
bin_unbox argv = do d ← arg argv 0; λ h. elim (datum_box h d) [ none ↦ bad_arg h | some v ↦ ok v h ]

unfoldable pub bin_unboxif : Bin
unfolding datum_box
bin_unboxif argv = do d ← arg argv 0; λ h. elim (datum_box h d) [ none ↦ ok d h | some v ↦ ok v h ]
