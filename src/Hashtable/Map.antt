-- ===== src/Hashtable/Map.antt =====
-- A table as a finite map.
use mathlib.Core.Option
use scheme2c.Prelude.{
  ℕ, zero, suc, ◌%◌, ◌<◌, ◌≡◌, refl, sym, ap, ◌∙◌, ◌⊎◌, inl, inr, Bool, true, false, Option, none,
  some, List, [], ◌∷◌, arith, ◌==◌, if◌then◌else◌, Bool-cases, Option-cases, length, get_elem?, set,
  length-set,
}
use native.Mathlib.Nat.{mod-lt}
use scheme2c.Heap.{Heap}
use scheme2c.Lists.{carcdr}
use scheme2c.Value.{nihil, Value}
use scheme2c.Hashtable.{
  division, no_hash, repeated_put, old_result, bad_field, is_negative, Hashtable, Pair, Step, ok,
  htb_getix, htb_putpair, htb_put, htb_rem, find_node, unlink_node, replace_node, with_row,
}
use scheme2c.Hashtable.Row.{
  Lawful, Distinct, find-replace, find-unlink, Distinct-replace, Distinct-unlink,
}
use mathlib.Core.Path.{subst}

abbrev pub row_at : List (List Pair) → ℕ → List Pair
row_at [] i = []
row_at (r ∷ rs) zero = r
row_at (r ∷ rs) (suc i) = row_at rs i

row_at-get :
    (rows : List (List Pair)) (i : ℕ) → i < length rows → get_elem? rows i ≡ some (row_at rows i)
row_at-get [] i h = elim h [ ]
row_at-get (r ∷ rs) zero h = refl
row_at-get (r ∷ rs) (suc i) h = row_at-get rs i (omega arith)

row_at-set :
    (rows : List (List Pair)) (i j : ℕ) (r : List Pair)
    → i < length rows
    → row_at (set rows i r) j ≡ (if j == i then r else row_at rows j)
row_at-set [] i j r h = elim h [ ]
row_at-set (x ∷ xs) zero zero r h = ground arith
row_at-set (x ∷ xs) zero (suc j) r h = ground arith
row_at-set (x ∷ xs) (suc i) zero r h = ground arith
row_at-set (x ∷ xs) (suc i) (suc j) r h = let ih = row_at-set xs i j r (omega arith) in ground arith

module _ (hash : Value → ℕ) (eq : Value → Value → Bool) (law : Lawful hash eq) where
  -- The pair that a table holds for a key.
  abbrev pub lookup : Hashtable → Value → Option Pair
  lookup t key = find_node eq key (row_at t.rows (hash key % length t.rows))

  -- A row changed so that it answers like `f` on the keys of the row answers in the whole table.
  lookup-with_row :
      (t : Hashtable) (k key : Value) (row : List Pair) (a : Option Pair)
      → 0 < length t.rows
      → ((x : Value)
          → find_node eq x row
            ≡ (if eq x k then a else find_node eq x (row_at t.rows (hash k % length t.rows))))
      → lookup (with_row hash eq t (hash k % length t.rows) row) key
        ≡ (if eq key k then a else lookup t key)
  lookup-with_row t k key row a n same =
      let i = hash k % length t.rows in
      let j = hash key % length t.rows in
      let eq_length = length-set t.rows i row in
      let at_j = row_at-set t.rows i j row (mod-lt (hash k) n) in
      let at_key = same key in rw (eq_length, at_j) (chosen (Bool-cases (j == i)))
    where
      chosen :
          (hash key % length t.rows == hash k % length t.rows ≡ true)
            ⊎ (hash key % length t.rows == hash k % length t.rows ≡ false)
          → find_node eq key (
              if hash key % length t.rows == hash k % length t.rows
              then row
              else row_at t.rows (hash key % length t.rows))
            ≡ (if eq key k then a else lookup t key)
      chosen (inl e) =
          let e' : hash key % length t.rows ≡ hash k % length t.rows = ground arith in
          ap (λ b. find_node eq key (if b then row else row_at t.rows (hash key % length t.rows))) e
          ∙ same key
          ∙ ap (λ m. if eq key k then a else find_node eq key (row_at t.rows m)) (sym e')
      chosen (inr e) =
          ap (λ b. find_node eq key (if b then row else row_at t.rows (hash key % length t.rows))) e
          ∙ ap (λ b. if b then a else lookup t key) (sym (apart (eq key k) refl))
        where
          apart : (b : Bool) → eq key k ≡ b → eq key k ≡ false
          apart false g = g
          apart true g =
              let h = ap (λ m. m % length t.rows) (law.hash_eq key k g) in
              let z : ⊥ = ground arith in elim z [ ]

-- The run ended without an error, with a result and a table of which `P` holds.
abbrev pub Ended {ℓ} : {A : Type ℓ} → Step A → (A → Hashtable → Type 0) → Type 0
Ended (ok a t) P = P a t
Ended _ P = ⊥

-- The cdr of the key of an old pair, if the key is a pair; a null pointer without an old pair.
abbrev pub old_cdr : Heap → Option Pair → Option Value
old_cdr h none = some nihil
old_cdr h (some old) = Option.map (λ s. s.1) (carcdr h old.0)

-- The run ended with this value and a table of which `P` holds, or read a field of what is no pair
-- where there is no value.
abbrev pub Replaced : Step Value → Option Value → (Hashtable → Type 0) → Type 0
Replaced (ok v t) o P = (o ≡ some v) × P t
Replaced bad_field o P = o ≡ none
Replaced _ o P = ⊥

module _ (hash : Value → ℕ) (eq : Value → Value → Bool) (law : Lawful hash eq) where
  -- On a table with rows that allows it, `htb_putpair` returns the pair that the table held for the
  -- key, if any, and changes the table as a map: keys equal to the pair's key have the new pair, all
  -- others what they had. The closures of the table are lawful and the hash code is not negative.
  pub htb_putpair-lookup :
      (t : Hashtable) (pair : Pair) (key : Value)
      → 0 < length t.rows
      → is_negative (hash pair.0) ≡ false
      → t.no_reput ≡ false
      → Ended (htb_putpair hash eq pair t) (λ old t'.
        (old ≡ lookup hash eq law t pair.0)
        × (lookup hash eq law t' key
            ≡ (if eq key pair.0 then some pair else lookup hash eq law t key)))
  unfolding htb_putpair htb_getix find_node
  htb_putpair-lookup t pair key n pos again =
      let row = row_at t.rows (hash pair.0 % length t.rows) in
      let there = row_at-get t.rows (hash pair.0 % length t.rows) (mod-lt (hash pair.0) n) in
      elim (Option-cases (find_node eq pair.0 row)) [
        | inl f ↦
            let answer =
              lookup-with_row hash eq law t pair.0 key (pair ∷ row) (some pair) n
                (λ x. find-cons x pair row) in
            rw (pos, there, f) (refl, answer)
        | inr (old, f) ↦
            let answer =
              lookup-with_row hash eq law t pair.0 key (replace_node eq pair row) (some pair) n
                (λ x. find-replace hash eq law pair x row old f) in
            rw (pos, there, f, again) (refl, answer)
      ]
    where
      find-cons :
          (x : Value) (p : Pair) (ps : List Pair)
          → find_node eq x (p ∷ ps) ≡ (if eq x p.0 then some p else find_node eq x ps)
      find-cons x p ps = refl

  -- On a table with rows, none of which holds two pairs with equal keys, `htb_rem` returns the pair
  -- that the table held for the key, if any, and changes the table as a map: keys equal to the given
  -- one are gone, all others have what they had. The closures of the table are lawful and the hash
  -- code is not negative.
  pub htb_rem-lookup :
      (t : Hashtable) (k key : Value)
      → 0 < length t.rows
      → is_negative (hash k) ≡ false
      → Distinct eq (row_at t.rows (hash k % length t.rows))
      → Ended (htb_rem hash eq k t) (λ old t'.
        (old ≡ lookup hash eq law t k)
        × (lookup hash eq law t' key ≡ (if eq key k then none else lookup hash eq law t key)))
  unfolding htb_rem htb_getix
  htb_rem-lookup t k key n pos d =
      let row = row_at t.rows (hash k % length t.rows) in
      let there = row_at-get t.rows (hash k % length t.rows) (mod-lt (hash k) n) in
      let answer =
        lookup-with_row hash eq law t k key (unlink_node eq k row) none n
          (λ x. find-unlink hash eq law k x row d) in
      rw (pos, there) (refl, answer)

  -- If no row of a table holds two pairs with equal keys, none does after `htb_putpair` or `htb_rem`.
  -- The table has rows and allows a key again, its closures are lawful, and the hash codes of both
  -- keys are not negative.
  pub updates-Distinct :
      (t : Hashtable) (pair : Pair) (k : Value) (i : ℕ)
      → 0 < length t.rows
      → is_negative (hash pair.0) ≡ false
      → is_negative (hash k) ≡ false
      → t.no_reput ≡ false
      → ((j : ℕ) → Distinct eq (row_at t.rows j))
      → Ended (htb_putpair hash eq pair t) (λ old t'. Distinct eq (row_at t'.rows i))
        × Ended (htb_rem hash eq k t) (λ old t'. Distinct eq (row_at t'.rows i))
  unfolding htb_putpair htb_rem htb_getix
  updates-Distinct t pair k i n pos posk again d = (put, rem)
    where
      written :
          (j : ℕ) (row : List Pair)
          → j < length t.rows
          → Distinct eq row
          → Distinct eq (row_at (set t.rows j row) i)
      written j row h e = subst (Distinct eq) (sym (row_at-set t.rows j i row h)) (chosen (i == j))
        where
          chosen : (b : Bool) → Distinct eq (if b then row else row_at t.rows i)
          chosen true = e
          chosen false = d i

      put : Ended (htb_putpair hash eq pair t) (λ old t'. Distinct eq (row_at t'.rows i))
      put =
          let j = hash pair.0 % length t.rows in
          let h = mod-lt (hash pair.0) n in
          let there = row_at-get t.rows j h in
          elim (Option-cases (find_node eq pair.0 (row_at t.rows j))) [
            | inl f ↦ rw (pos, there, f) (written j (pair ∷ row_at t.rows j) h (f, d j))
            | inr (old, f) ↦
                rw (pos, there, f, again)
                  (written j (replace_node eq pair (row_at t.rows j)) h
                    (Distinct-replace hash eq law pair (row_at t.rows j) old f (d j)))
          ]

      rem : Ended (htb_rem hash eq k t) (λ old t'. Distinct eq (row_at t'.rows i))
      rem =
          let j = hash k % length t.rows in
          let h = mod-lt (hash k) n in
          let there = row_at-get t.rows j h in
          rw (posk, there)
            (written j (unlink_node eq k (row_at t.rows j)) h
              (Distinct-unlink hash eq law k (row_at t.rows j) (d j)))

  -- `htb_put` changes a table as `htb_putpair` does. What it returns for the old value is a null pointer
  -- with a new key, and with a key that the table holds it is the cdr of the old key, not the old value;
  -- where the old key is no pair, it reads a field of what is no pair. The table has rows and allows a
  -- key again, its closures are lawful, and the hash code is not negative.
  pub htb_put-old :
      (h : Heap) (t : Hashtable) (key value other : Value)
      → 0 < length t.rows
      → is_negative (hash key) ≡ false
      → t.no_reput ≡ false
      → Replaced (htb_put hash eq h key value t) (old_cdr h (lookup hash eq law t key)) (λ t'.
        lookup hash eq law t' other
        ≡ (if eq other key then some (key, value) else lookup hash eq law t other))
  unfolding htb_put
  htb_put-old h t key value other n pos again =
      returned (htb_putpair hash eq (key, value) t)
        (htb_putpair-lookup t (key, value) other n pos again)
    where
      After : Hashtable → Type 0
      After t' =
          lookup hash eq law t' other
          ≡ (if eq other key then some (key, value) else lookup hash eq law t other)

      returned :
          (r : Step (Option Pair))
          → Ended r (λ old t'. (old ≡ lookup hash eq law t key) × After t')
          → Replaced (old_result hash eq h r) (old_cdr h (lookup hash eq law t key)) After
      returned (ok none t') e = (ap (old_cdr h) (sym e.0), e.1)
      returned (ok (some old) t') e =
          subst (λ o. Replaced (old_result hash eq h (ok (some old) t')) (old_cdr h o) After) e.0
            (read (carcdr h old.0))
        where
          read :
              (o : Option (Value × Value))
              → Replaced
                  (elim o [ none ↦ bad_field | some s ↦ ok s.1 t' ])
                  (Option.map (λ s. s.1) o)
                  After
          read none = refl
          read (some s) = (refl, e.1)
      returned division e = elim e [ ]
      returned no_hash e = elim e [ ]
      returned repeated_put e = elim e [ ]
      returned bad_field e = elim e [ ]
