-- ===== src/Builtins/Vectors/Laws.antt =====
-- Reading a vector after a write.
use scheme2c.Prelude.{
  ℕ, zero, suc, ◌≤◌, ◌<◌, ◌≡◌, refl, ap, ◌∙◌, ◌≢◌, ◌⊎◌, Bool, true, false, Option, none, some, List,
  [], ◌∷◌, arith, length, get_elem?, set, length-set, get_elem?-set_self, get_elem?-set_ne,
}
use scheme2c.Prelude.Word.{sign_bit}
use scheme2c.Value.{Value, ptr, fixnum, symb_void}
use scheme2c.Heap.{Heap, Cmd, obj, vector, ok, panic, wrong_param, update}
use native.Mathlib.Decide.{dec_lt}
use scheme2c.Heap.Returns.{Returns, returns}
use scheme2c.Heap.Writes.{update_self, update_ne}
use scheme2c.Builtins.Vectors.{bin_vector_set, bin_vector_ref, bin_vector_length}

get_elem?-eq-none {ℓ} : {A : Type ℓ} (xs : List A) (i : ℕ) → length xs ≤ i → get_elem? xs i ≡ none
get_elem?-eq-none [] i l = refl
get_elem?-eq-none (x ∷ xs) zero l = absurd (omega arith)
get_elem?-eq-none (x ∷ xs) (suc i) l = get_elem?-eq-none xs i (omega arith)

get_elem?-eq-some {ℓ} :
    {A : Type ℓ} (xs : List A) (i : ℕ) → i < length xs → (v : A) × (get_elem? xs i ≡ some v)
get_elem?-eq-some [] i l = absurd (omega arith)
get_elem?-eq-some (x ∷ xs) zero l = (x, refl)
get_elem?-eq-some (x ∷ xs) (suc i) l = get_elem?-eq-some xs i (omega arith)

-- What a read at a `long` gives: the element there, or the exception for a wrong argument.
abbrev pub elem_or_panic : Option Value → Cmd Value
elem_or_panic none h = panic wrong_param
elem_or_panic (some v) h = ok v h

-- `vector-ref` on a vector, constant or not, of at most 2 ^ 63 elements returns the element at an
-- index in range and changes nothing; at any other `long`, negative or too large, it raises the
-- exception for a wrong argument.
pub bin_vector_ref-get_elem? :
    (h : Heap) (p i : ℕ) (vs : List Value) (c : Bool)
    → h.cell p ≡ some (obj c (vector vs))
    → length vs ≤ sign_bit
    → bin_vector_ref (ptr p ∷ fixnum i ∷ []) h ≡ elem_or_panic (get_elem? vs i) h
unfolding bin_vector_ref
bin_vector_ref-get_elem? h p i vs c e small = elim (dec_lt i (length vs)) [
  | yes l ↦ let (v, is) = get_elem?-eq-some vs i l in ground arith
  | no l ↦ let is = get_elem?-eq-none vs i (omega arith) in ground arith
]

module _ (h : Heap) (p i : ℕ) (vs : List Value) (x : Value) (small : length vs ≤ sign_bit) where
  -- After `vector-set!` on a mutable vector at an index in range: the index reads the new element,
  -- every other index what it read before, the length is the same, and so is every other object.
  pub record WroteElem (v : Value) (g : Heap) : Type 0 where
    pub void : v ≡ symb_void
    pub here : bin_vector_ref (ptr p ∷ fixnum i ∷ []) g ≡ ok x g
    pub elsewhere :
        (j : ℕ)
        → i ≢ j
        → bin_vector_ref (ptr p ∷ fixnum j ∷ []) g ≡ elem_or_panic (get_elem? vs j) g
    pub same_length : bin_vector_length (ptr p ∷ []) g ≡ ok (fixnum (length vs)) g
    pub others : (q : ℕ) → q ≢ p → g.cell q ≡ h.cell q

  -- `vector-set!` on a mutable vector of at most 2 ^ 63 elements, at an index in range, writes that
  -- element and nothing else.
  pub bin_vector_set-WroteElem :
      h.cell p ≡ some (obj false (vector vs))
      → i < length vs
      → Returns WroteElem (bin_vector_set (ptr p ∷ fixnum i ∷ x ∷ []) h)
  unfolding bin_vector_set bin_vector_length
  bin_vector_set-WroteElem e l =
      let g : Heap = record h { cell = update h.cell p (obj false (vector (set vs i x))) } in
      let run : bin_vector_set (ptr p ∷ fixnum i ∷ x ∷ []) h ≡ ok symb_void g = ground arith in
      let now : g.cell p ≡ some (obj false (vector (set vs i x))) = update_self h.cell p _ in
      let len : length (set vs i x) ≡ length vs = length-set vs i x in
      let read = λ (j : ℕ). bin_vector_ref-get_elem? g p j (set vs i x) false now (omega arith) in
      rw run (
        returns (record {
          void = refl;
          here = read i ∙ ap (λ o. elem_or_panic o g) (get_elem?-set_self vs i x l);
          elsewhere = λ j n. read j ∙ ap (λ o. elem_or_panic o g) (get_elem?-set_ne vs x n);
          same_length = ground arith;
          others = λ q n. update_ne h.cell p _ q n;
        }))

-- `vector-set!` raises the exception for a wrong argument on a constant vector, and on a mutable one
-- of at most 2 ^ 63 elements at a `long` that is no index of it.
pub bin_vector_set_panics :
    (h : Heap) (p i : ℕ) (vs : List Value) (x : Value) (c : Bool)
    → h.cell p ≡ some (obj c (vector vs))
    → (c ≡ true) ⊎ (length vs ≤ i)
    → bin_vector_set (ptr p ∷ fixnum i ∷ x ∷ []) h ≡ panic wrong_param
unfolding bin_vector_set
bin_vector_set_panics h p i vs x c e why = ground arith
