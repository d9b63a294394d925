-- ===== src/Hashtable/Row.antt =====
-- One row of a table as an association list.
use scheme2c.Prelude.{
  ℕ, ◌≡◌, refl, inl, inr, Bool, true, none, some, List, [], ◌∷◌, arith, if◌then◌else◌, Bool-cases,
}
use scheme2c.Value.{Value}
use scheme2c.Hashtable.{Pair, find_node, unlink_node, replace_node}

-- What the closures of a table must satisfy: `eq` is an equivalence, and equal keys have one hash code.
pub record Lawful (hash : Value → ℕ) (eq : Value → Value → Bool) : Type 0 where
  pub eq_refl : (a : Value) → eq a a ≡ true
  pub eq_sym : (a b : Value) → eq a b ≡ true → eq b a ≡ true
  pub eq_trans : (a b c : Value) → eq a b ≡ true → eq b c ≡ true → eq a c ≡ true
  pub hash_eq : (a b : Value) → eq a b ≡ true → hash a ≡ hash b

-- No two nodes of a row have equal keys.
abbrev pub Distinct : (eq : Value → Value → Bool) → List Pair → Type 0
Distinct eq [] = Unit {0}
Distinct eq (p ∷ ps) = (find_node eq p.0 ps ≡ none) × Distinct eq ps

module _ (hash : Value → ℕ) (eq : Value → Value → Bool) (law : Lawful hash eq) where
  pub find-replace :
      (pair : Pair) (key : Value) (ps : List Pair) (old : Pair)
      → find_node eq pair.0 ps ≡ some old
      → find_node eq key (replace_node eq pair ps)
        ≡ (if eq key pair.0 then some pair else find_node eq key ps)
  unfolding find_node replace_node
  find-replace pair key [] old f = ground arith
  find-replace pair key (p ∷ ps) old f =
      let down = law.eq_trans key p.0 pair.0 in
      let back = law.eq_sym pair.0 p.0 in
      let turn = law.eq_sym key pair.0 in
      let over = law.eq_trans pair.0 key p.0 in
      elim (Bool-cases (eq pair.0 p.0)) [
        | inl same ↦ ground arith
        | inr other ↦
            let f' : find_node eq pair.0 ps ≡ some old = ground arith in
            let ih = find-replace pair key ps old f' in ground arith
      ]

  -- A key that is not there has no equal key there.
  find-none :
      (a b : Value) (ps : List Pair)
      → eq a b ≡ true
      → find_node eq a ps ≡ none
      → find_node eq b ps ≡ none
  unfolding find_node
  find-none a b [] e f = refl
  find-none a b (p ∷ ps) e f =
      let over = law.eq_trans a b p.0 e in
      let f' : find_node eq a ps ≡ none = ground arith in
      let ih = find-none a b ps e f' in ground arith

  pub find-unlink :
      (k key : Value) (ps : List Pair)
      → Distinct eq ps
      → find_node eq key (unlink_node eq k ps) ≡ (if eq key k then none else find_node eq key ps)
  unfolding find_node unlink_node
  find-unlink k key [] d = ground arith
  find-unlink k key (p ∷ ps) d =
      let ih = find-unlink k key ps d.1 in
      let turn = law.eq_sym key k in
      let over = law.eq_trans k key p.0 in
      elim (Bool-cases (eq k p.0)) [
        | inl same ↦ elim (Bool-cases (eq key k)) [
          | inl e ↦
              let across = law.eq_sym key p.0 (law.eq_trans key k p.0 e same) in
              let gone = find-none p.0 key ps across d.0 in rw (same, e, gone)
          | inr e ↦
              let apart = law.eq_trans key p.0 k in let flip = law.eq_sym k p.0 in ground arith
        ]
        | inr other ↦ ground arith
      ]

  pub Distinct-replace :
      (pair : Pair) (ps : List Pair) (old : Pair)
      → find_node eq pair.0 ps ≡ some old
      → Distinct eq ps
      → Distinct eq (replace_node eq pair ps)
  unfolding find_node replace_node
  Distinct-replace pair [] old f d = tt
  Distinct-replace pair (p ∷ ps) old f d = elim (Bool-cases (eq pair.0 p.0)) [
    | inl same ↦ rw same (find-none p.0 pair.0 ps (law.eq_sym pair.0 p.0 same) d.0, d.1)
    | inr other ↦
        let f' : find_node eq pair.0 ps ≡ some old = ground arith in
        let moved = find-replace pair p.0 ps old f' in
        let turn = law.eq_sym p.0 pair.0 in
        let absent = d.0 in
        let first : find_node eq p.0 (replace_node eq pair ps) ≡ none = ground arith in
        rw other (first, Distinct-replace pair ps old f' d.1)
  ]

  pub Distinct-unlink :
      (k : Value) (ps : List Pair) → Distinct eq ps → Distinct eq (unlink_node eq k ps)
  unfolding find_node unlink_node
  Distinct-unlink k [] d = tt
  Distinct-unlink k (p ∷ ps) d = elim (Bool-cases (eq k p.0)) [
    | inl same ↦ rw same d.1
    | inr other ↦
        let kept = find-unlink k p.0 ps d.1 in
        let absent = d.0 in
        let first : find_node eq p.0 (unlink_node eq k ps) ≡ none = ground arith in
        rw other (first, Distinct-unlink k ps d.1)
  ]
