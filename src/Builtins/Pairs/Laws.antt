-- ===== src/Builtins/Pairs/Laws.antt =====
-- Laws of pairs.
use scheme2c.Prelude.{
  ℕ, suc, ◌<◌, ◌≡◌, refl, ◌≢◌, Bool, true, false, some, List, [], ◌∷◌, arith, if◌then◌else◌, length,
}
use scheme2c.Value.{Value, ptr, fixnum, symb_void, cl_end}
use scheme2c.Heap.{Heap, obj, cons, ok, panic, alloc, wrong_param, vm_assert, update}
use scheme2c.Heap.Returns.{Returns, returns, Extends}
use scheme2c.Heap.Writes.{update_self, datum_set_const-obj}
use scheme2c.Lists.Spine.{Spine, link}
use scheme2c.Lists.Length.{lengths_lem}
use scheme2c.Prelude.Word.{sign_bit, neg}
use scheme2c.Builtins.Pairs.{
  bin_ilength, bin_cons, bin_pair, bin_car, bin_cdr, bin_set_car, bin_set_cdr, bin_length,
}

-- The selectors on a plain pair.
selectors :
    (h : Heap) (p : ℕ) (c : Bool) (a d : Value)
    → h.cell p ≡ some (obj c (cons a d))
    → (bin_car (ptr p ∷ []) h ≡ ok a h) × (bin_cdr (ptr p ∷ []) h ≡ ok d h)
unfolding bin_car bin_cdr
selectors h p c a d e = ground arith

-- A new pair, that the selectors read and the older objects do not notice.
pub record NewPair (a d : Value) (c : Bool) (h : Heap) (v : Value) (g : Heap) : Type 0 where
  pub address : v ≡ ptr h.next
  pub extends : Extends h g
  pub cell : g.cell h.next ≡ some (obj c (cons a d))
  pub car : bin_car (v ∷ []) g ≡ ok a g
  pub cdr : bin_cdr (v ∷ []) g ≡ ok d g

-- `cons` makes a constant pair and `pair` a mutable one, in a fresh object; `car` and `cdr` read its
-- two parts back, and every older object is as it was.
pub new_pairs :
    (a d : Value) (h : Heap)
    → Returns (NewPair a d true h) (bin_cons (a ∷ d ∷ []) h)
      × Returns (NewPair a d false h) (bin_pair (a ∷ d ∷ []) h)
unfolding bin_cons bin_pair alloc
new_pairs a d h =
    let g : Heap = record h {
      next = suc h.next;
      cell = update h.cell h.next (obj false (cons a d));
    } in
    let k : Heap = record g { cell = update g.cell h.next (obj true (cons a d)) } in
    let (kar, kdr) = selectors k h.next true a d (update_self g.cell h.next _) in
    let (gar, gdr) = selectors g h.next false a d (update_self h.cell h.next _) in
    (
      rw (datum_set_const-obj g h.next false (cons a d) (update_self h.cell h.next _)) (
          returns (record {
            address = refl;
            extends = record { grows = omega arith; keeps = λ q l. ground arith };
            cell = update_self g.cell h.next _;
            car = kar;
            cdr = kdr;
          })),
      returns (record {
        address = refl;
        extends = record { grows = omega arith; keeps = λ q l. ground arith };
        cell = update_self h.cell h.next _;
        car = gar;
        cdr = gdr;
      }),
    )

-- After a write into the pair at `p`: its parts are now `a` and `d`, and no other object changed.
pub record Wrote (p : ℕ) (a d : Value) (h : Heap) (v : Value) (g : Heap) : Type 0 where
  pub void : v ≡ symb_void
  pub car : bin_car (ptr p ∷ []) g ≡ ok a g
  pub cdr : bin_cdr (ptr p ∷ []) g ≡ ok d g
  pub others : (q : ℕ) → q ≢ p → g.cell q ≡ h.cell q

module _ (h : Heap) (p : ℕ) (a d v : Value) where
  -- On a mutable pair `set-car!` and `set-cdr!` replace the one part, so that the selectors read the
  -- new value there and the old one in the other part, and change no other object.
  pub set_parts :
      h.cell p ≡ some (obj false (cons a d))
      → Returns (Wrote p v d h) (bin_set_car (ptr p ∷ v ∷ []) h)
        × Returns (Wrote p a v h) (bin_set_cdr (ptr p ∷ v ∷ []) h)
  unfolding bin_set_car bin_set_cdr
  set_parts e =
      let g : Heap = record h { cell = update h.cell p (obj false (cons v d)) } in
      let k : Heap = record h { cell = update h.cell p (obj false (cons a v)) } in
      let (gar, gdr) = selectors g p false v d (update_self h.cell p _) in
      let (kar, kdr) = selectors k p false a v (update_self h.cell p _) in
      let car_eq : bin_set_car (ptr p ∷ v ∷ []) h ≡ ok symb_void g = ground arith in
      let cdr_eq : bin_set_cdr (ptr p ∷ v ∷ []) h ≡ ok symb_void k = ground arith in
      (
        rw car_eq
            (returns (record { void = refl; car = gar; cdr = gdr; others = λ q n. ground arith })),
        rw cdr_eq
            (returns (record { void = refl; car = kar; cdr = kdr; others = λ q n. ground arith })),
      )

  -- On a constant pair both raise the exception for a wrong argument.
  pub set_parts_const :
      h.cell p ≡ some (obj true (cons a d))
      → (bin_set_car (ptr p ∷ v ∷ []) h ≡ panic wrong_param)
        × (bin_set_cdr (ptr p ∷ v ∷ []) h ≡ panic wrong_param)
  unfolding bin_set_car bin_set_cdr
  set_parts_const e = ground arith

-- With more fuel than the list has pairs, `length` of a list of at least one pair and fewer than
-- 2 ^ 63 returns their number if the list is proper and raises an exception if it is not, `ilength`
-- returns the number or its negation, and neither changes the heap.
pub bin_length-length :
    (f : ℕ) (h : Heap) {end v : Value} {x : ℕ × Value} {xs : List (ℕ × Value)}
    → Spine h end v (x ∷ xs)
    → length (x ∷ xs) < f
    → length (x ∷ xs) < sign_bit
    → (bin_length f (v ∷ []) h
        ≡ (if cl_end end then ok (fixnum (length (x ∷ xs))) h else panic vm_assert))
      × (bin_ilength f (v ∷ []) h
          ≡ ok (fixnum (if cl_end end then length (x ∷ xs) else neg (length (x ∷ xs)))) h)
unfolding bin_length bin_ilength
bin_length-length f h (link e s) fuel small = ground (arith, lengths_lem f (link e s) fuel)
