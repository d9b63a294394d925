-- ===== src/Hashtable.antt =====
-- The hash table of src/datum.c: rows of nodes, each of which holds a pair of a key and a value. A
-- table carries two closures of its own, which are parameters here: `hash`, as a `long`, and `eq`, on
-- a key and the key of a pair. A closure that is given a pair takes its car.
pub mod Row
pub mod Map
use scheme2c.Prelude.{
  ℕ, zero, suc, ◌+◌, ◌-◌, ◌*◌, ◌/◌, ◌%◌, ◌^◌, ◌≤◌, ◌<◌, ◌≡◌, refl, sym, ap, ◌∙◌, ◌≢◌, ◌↔◌, ◌⊎◌, inl,
  inr, Bool, true, false, not, ◌&&◌, ◌||◌, Option, none, some, List, [], ◌∷◌, ◌++◌, map, arith, ltb,
  leb, ◌==◌, if◌then◌else◌, ltb→lt, lt→ltb, leb→le, ==_iff, Bool-cases, Option-cases, length,
  get_elem?, set, length-append, length-set, get_elem?-set_self, get_elem?-set_ne,
}
use scheme2c.Prelude.Word.{is_negative}
use scheme2c.Value.{Value, nihil}
use scheme2c.Heap.{Heap}
use scheme2c.Lists.{carcdr}

-- A node's pair.
abbrev pub Pair : Type 0
Pair = Value × Value

-- The rows, the first node first, and the bit HTB_BITM_NO_REPUT.
pub record Hashtable : Type 0 where
  pub rows : List (List Pair)
  pub no_reput : Bool

-- How an operation ends: `division` is a remainder by the number of rows of a table without rows,
-- `no_hash` an exception for a negative hash code, `repeated_put` EXCEP_HTB_REPEATED_PUT, and
-- `bad_field` a read of a field of a value that is no pair.
pub data Step {ℓ} (A : Type ℓ) : Type ℓ where
  ok : A → Hashtable → Step A
  division no_hash repeated_put bad_field : Step A

-- `new_htb`: empty rows.
abbrev pub empty_rows : ℕ → List (List Pair)
empty_rows zero = []
empty_rows (suc n) = [] ∷ empty_rows n

unfoldable pub new_htb : (count : ℕ) → Hashtable
new_htb count = record { rows = empty_rows count; no_reput = false }

module _ (eq : Value → Value → Bool) where
  -- The loop of `_htb_getnode`: the first node with an equal key.
  unfoldable pub find_node : Value → List Pair → Option Pair
  find_node key [] = none
  find_node key (p ∷ ps) = if eq key p.0 then some p else find_node key ps

  -- With `rem` that node is unlinked.
  unfoldable pub unlink_node : Value → List Pair → List Pair
  unlink_node key [] = []
  unlink_node key (p ∷ ps) = if eq key p.0 then ps else p ∷ unlink_node key ps

  -- `FIELD_SET(nod, car, pair)` on that node.
  unfoldable pub replace_node : Pair → List Pair → List Pair
  replace_node pair [] = []
  replace_node pair (p ∷ ps) = if eq pair.0 p.0 then pair ∷ ps else p ∷ replace_node pair ps

module _ (hash : Value → ℕ) (eq : Value → Value → Bool) where
  -- `htb_getix`: the row of a key.
  unfoldable pub htb_getix {ℓ} :
      {A : Type ℓ} → Hashtable → Value → (ℕ → List Pair → Step A) → Step A
  htb_getix t key k =
      if is_negative (hash key)
      then no_hash
      else elim (get_elem? t.rows (hash key % length t.rows)) [
        | none ↦ division
        | some row ↦ k (hash key % length t.rows) row
      ]

  abbrev pub with_row : Hashtable → ℕ → List Pair → Hashtable
  with_row t i row = record t { rows = set t.rows i row }

  -- `htb_getpair`, and `htb_get`, which gives the pair's cdr or a null pointer.
  unfoldable pub htb_getpair : Value → Hashtable → Step (Option Pair)
  unfolding htb_getix find_node
  htb_getpair key t = htb_getix t key (λ i row. ok (find_node eq key row) t)

  abbrev pub value_of : Option Pair → Value
  value_of none = nihil
  value_of (some p) = p.1

  unfoldable pub htb_get : Value → Hashtable → Step Value
  unfolding htb_getix find_node
  htb_get key t = htb_getix t key (λ i row. ok (value_of (find_node eq key row)) t)

  -- `htb_putpair`: the old pair comes back, if there was one.
  unfoldable pub htb_putpair : Pair → Hashtable → Step (Option Pair)
  unfolding htb_getix find_node replace_node
  htb_putpair pair t = htb_getix t pair.0 (λ i row. elim (find_node eq pair.0 row) [
    | none ↦ ok none (with_row t i (pair ∷ row))
    | some old ↦
        if t.no_reput then repeated_put else ok (some old) (with_row t i (replace_node eq pair row))
  ])

  -- `htb_rem`: the pair that was removed.
  unfoldable pub htb_rem : Value → Hashtable → Step (Option Pair)
  unfolding htb_getix find_node unlink_node
  htb_rem key t =
      htb_getix t key (λ i row. ok (find_node eq key row) (with_row t i (unlink_node eq key row)))

  -- `htb_put` reads, for an old pair `d`, `CDR(CAR(d))`, the cdr of the old key.
  abbrev pub old_result : Heap → Step (Option Pair) → Step Value
  old_result h (ok none t) = ok nihil t
  old_result h (ok (some old) t) = elim (carcdr h old.0) [ none ↦ bad_field | some s ↦ ok s.1 t ]
  old_result h division = division
  old_result h no_hash = no_hash
  old_result h repeated_put = repeated_put
  old_result h bad_field = bad_field

  unfoldable pub htb_put : Heap → (key value : Value) → Hashtable → Step Value
  unfolding htb_putpair
  htb_put h key value t = old_result h (htb_putpair (key, value) t)
