-- ===== src/Tests/Containers.antt =====
-- Stacks, array lists and hash tables at concrete inputs.
use scheme2c.Prelude.{
  ℕ, zero, suc, ◌≡◌, refl, sym, ap, ◌∙◌, false, none, some, [], ◌∷◌, arith, if◌then◌else◌,
}
use scheme2c.Value.{Value, fixnum, spec, value_eq, value_eq_iff}
use scheme2c.Heap.{Heap}
use scheme2c.Growable.{Stack, ArrayList, Step, new_arlist, arlist_add, astk_push, astk_pop}
use scheme2c.Growable.Content.{Pushed, Popped, astk_push-items, astk_pop-items}
use scheme2c.Growable.Adding.{Added, Holds, add_all, arlist_add-items, new_arlist-add_all}
use scheme2c.Hashtable.{Hashtable, htb_put, htb_putpair, htb_rem, find_node}
use scheme2c.Hashtable.Row.{Lawful, Distinct}
use scheme2c.Hashtable.Map.{
  Ended, lookup, row_at, htb_putpair-lookup, htb_rem-lookup, updates-Distinct, htb_put-old,
  Replaced, old_cdr,
}

-- A full stack.
abbrev full : Stack
full = record { slots = fixnum 1 ∷ fixnum 2 ∷ []; ptr = 2 }

astk_push-items_example : Pushed (fixnum 1 ∷ fixnum 2 ∷ []) (fixnum 3) (astk_push full (fixnum 3))
astk_push-items_example = astk_push-items full (fixnum 3) (omega arith, omega arith)

astk_pop-items_example :
    Popped (fixnum 1 ∷ []) (fixnum 2) (astk_pop full)
    × (astk_pop (record full { ptr = 0 }) ≡ Step.out_of_range)
astk_pop-items_example =
    astk_pop-items full (fixnum 1 ∷ []) (fixnum 2) (omega arith, omega arith) refl

abbrev full_list : ArrayList
full_list = record { data_slots = fixnum 1 ∷ fixnum 2 ∷ []; index = 2 }

arlist_add-items_example :
    Added (fixnum 1 ∷ fixnum 2 ∷ []) (fixnum 3) (arlist_add full_list (fixnum 3))
arlist_add-items_example = arlist_add-items full_list (fixnum 3) (omega arith, omega arith)

new_arlist-add_all_example :
    Holds
      (fixnum 1 ∷ fixnum 2 ∷ fixnum 3 ∷ [])
      (add_all (Step.ok (new_arlist 1)) (fixnum 1 ∷ fixnum 2 ∷ fixnum 3 ∷ []))
    × (arlist_add (new_arlist 0) (fixnum 9) ≡ Step.overrun)
new_arlist-add_all_example = new_arlist-add_all 0 (fixnum 1 ∷ fixnum 2 ∷ fixnum 3 ∷ []) (fixnum 9)

-- Fixnums are their own hash codes.
abbrev code : Value → ℕ
code (fixnum w) = w
code _ = 0

lawful : Lawful code value_eq
lawful = record {
  eq_refl = λ a. (value_eq_iff a a).1 refl;
  eq_sym = λ a b e. (value_eq_iff b a).1 (sym ((value_eq_iff a b).0 e));
  eq_trans = λ a b c e f. (value_eq_iff a c).1 ((value_eq_iff a b).0 e ∙ (value_eq_iff b c).0 f);
  hash_eq = λ a b e. ap code ((value_eq_iff a b).0 e);
}

-- Two rows, of which one holds the keys 1 and 3.
abbrev table : Hashtable
table = record { rows = [] ∷ ((fixnum 1, spec 2) ∷ (fixnum 3, spec 3) ∷ []) ∷ []; no_reput = false }

htb_putpair-lookup_example : Ended (htb_putpair code value_eq (fixnum 3, spec 4) table) (λ old t.
    (old ≡ lookup code value_eq lawful table (fixnum 3))
    × (lookup code value_eq lawful t (fixnum 5) ≡ (
        if value_eq (fixnum 5) (fixnum 3)
        then some (fixnum 3, spec 4)
        else lookup code value_eq lawful table (fixnum 5))))
htb_putpair-lookup_example =
    htb_putpair-lookup code value_eq lawful table (fixnum 3, spec 4) (fixnum 5) (omega arith) refl
      refl

row-Distinct : Distinct value_eq (row_at table.rows 1)
unfolding find_node
row-Distinct = (refl, (refl, tt))

htb_rem-lookup_example : Ended (htb_rem code value_eq (fixnum 1) table) (λ old t.
    (old ≡ lookup code value_eq lawful table (fixnum 1))
    × (lookup code value_eq lawful t (fixnum 3) ≡ (
        if value_eq (fixnum 3) (fixnum 1)
        then none
        else lookup code value_eq lawful table (fixnum 3))))
htb_rem-lookup_example =
    htb_rem-lookup code value_eq lawful table (fixnum 1) (fixnum 3) (omega arith) refl row-Distinct

rows-Distinct : (j : ℕ) → Distinct value_eq (row_at table.rows j)
unfolding find_node
rows-Distinct zero = tt
rows-Distinct (suc zero) = (refl, (refl, tt))
rows-Distinct (suc (suc j)) = tt

updates-Distinct_example :
    Ended
      (htb_putpair code value_eq (fixnum 3, spec 4) table)
      (λ old t. Distinct value_eq (row_at t.rows 1))
    × Ended (htb_rem code value_eq (fixnum 1) table) (λ old t. Distinct value_eq (row_at t.rows 1))
updates-Distinct_example =
    updates-Distinct code value_eq lawful table (fixnum 3, spec 4) (fixnum 1) 1 (omega arith) refl
      refl refl rows-Distinct

abbrev no_objects : Heap
no_objects = record { next = 1; cell = λ _. none }

htb_put-old_example :
    Replaced
      (htb_put code value_eq no_objects (fixnum 3) (spec 4) table)
      (old_cdr no_objects (lookup code value_eq lawful table (fixnum 3)))
      (λ t. lookup code value_eq lawful t (fixnum 1) ≡ (
        if value_eq (fixnum 1) (fixnum 3)
        then some (fixnum 3, spec 4)
        else lookup code value_eq lawful table (fixnum 1)))
htb_put-old_example =
    htb_put-old code value_eq lawful no_objects table (fixnum 3) (spec 4) (fixnum 1) (omega arith)
      refl refl
