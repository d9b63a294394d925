-- ===== src/Lists/Build.antt =====
-- Building a list from arguments.
use scheme2c.Prelude.{
  ℕ, suc, ◌≤◌, ◌<◌, ◌≡◌, refl, ◌∙◌, ◌≢◌, Bool, true, false, some, List, [], ◌∷◌, arith,
}
use scheme2c.Value.{Value, nihil, ptr, symb_nil}
use scheme2c.Heap.{Heap, obj, cons, alloc, update, ok}
use scheme2c.Heap.Returns.{Returns, returns, Returns-bind, Returns-mono, Extends}
use scheme2c.Heap.Writes.{update_self, update_ne, datum_set_const-obj}
use scheme2c.Lists.Writes.{set_cdr-cons}
use scheme2c.Lists.{
  list_pair, append_pair, list_pair, append_pair, append_loop, make_list, bin_list, bin_mulist,
  args_to_cl,
}

-- Plain pairs at addresses from `lo` on, constant as `c` says, with the given cars, up to a null
-- pointer.
pub data Built (h : Heap) (c : Bool) (lo : ℕ) : Value → List Value → Type 0 where
  nil : Built h c lo nihil []
  pair :
      {p : ℕ} {a d : Value} {xs : List Value}
      → lo ≤ p
      → h.cell p ≡ some (obj c (cons a d))
      → Built h c lo d xs
      → Built h c lo (ptr p) (a ∷ xs)

pub Built-le :
    {h : Heap} {c : Bool} (lo : ℕ) {lo' : ℕ} {v : Value} {xs : List Value}
    → Built h c lo' v xs
    → lo ≤ lo'
    → Built h c lo v xs
Built-le lo nil le = nil
Built-le lo (pair l e b) le = pair (omega arith) e (Built-le lo b le)

-- What the loop leaves, started behind the pair at `p`.
abbrev Appended : Bool → ℕ → Value → List Value → Heap → Unit {0} → Heap → Type 0
Appended c p a args h _ g =
    Built g c p (ptr p) (a ∷ args)
    × (h.next ≤ g.next)
    × ((q : ℕ) → q < h.next → q ≢ p → g.cell q ≡ h.cell q)

-- A fresh pair.
record Fresh (c : Bool) (x : Value) (h : Heap) (q : Value) (g : Heap) : Type 0 where
  address : q ≡ ptr h.next
  next : g.next ≡ suc h.next
  fresh : g.cell h.next ≡ some (obj c (cons x nihil))
  same : (q : ℕ) → q < h.next → g.cell q ≡ h.cell q

list_pair-Fresh : (c : Bool) (x : Value) (h : Heap) → Returns (Fresh c x h) (list_pair c x h)
unfolding list_pair alloc
list_pair-Fresh false x h =
    returns
      (record { address = refl; next = refl; fresh = ground arith; same = λ q b. ground arith })
list_pair-Fresh true x h =
    rw
      (datum_set_const-obj
        (record h { next = suc h.next; cell = update h.cell h.next (obj false (cons x nihil)) })
        h.next false (cons x nihil) (update_self h.cell h.next _))
      (returns
        (record { address = refl; next = refl; fresh = ground arith; same = λ q b. ground arith }))

-- One turn: a fresh pair, and the link to it.
record Linked (c : Bool) (p : ℕ) (a x : Value) (h : Heap) (q : Value) (g : Heap) : Type 0 where
  address : q ≡ ptr h.next
  next : g.next ≡ suc h.next
  fresh : g.cell h.next ≡ some (obj c (cons x nihil))
  prev : g.cell p ≡ some (obj c (cons a (ptr h.next)))
  same : (q : ℕ) → q < h.next → q ≢ p → g.cell q ≡ h.cell q

append_pair-Linked :
    (c : Bool) (x : Value) {h : Heap} (p : ℕ) {a : Value}
    → h.cell p ≡ some (obj c (cons a nihil))
    → p < h.next
    → Returns (Linked c p a x h) (append_pair c (ptr p) x h)
unfolding append_pair
append_pair-Linked c x {h} p {a} e l = Returns-bind (list_pair-Fresh c x h) λ q g k.
    rw (k.address, set_cdr-cons g p c a nihil (ptr h.next) (k.same p l ∙ e))
      (returns (record {
        address = refl;
        next = k.next;
        fresh = update_ne g.cell p _ h.next (omega arith) ∙ k.fresh;
        prev = update_self g.cell p _;
        same = λ r b n. update_ne g.cell p _ r n ∙ k.same r b;
      }))

append_loop-Built :
    (c : Bool) (args : List Value) {h : Heap} {p : ℕ} {a : Value}
    → h.cell p ≡ some (obj c (cons a nihil))
    → p < h.next
    → Returns (Appended c p a args h) (append_loop c (ptr p) args h)
unfolding append_loop
append_loop-Built c [] e l = returns (pair (omega arith) e nil, omega arith, λ q b n. refl)
append_loop-Built c (x ∷ xs) {h} {p} {a} e l = Returns-bind (append_pair-Linked c x p e l) λ q g k.
    rw k.address (
      Returns-mono (append_loop-Built c xs k.fresh (omega arith)) λ _ g' (built, grows, same). (
        pair (omega arith) (same p (omega arith) (omega arith) ∙ k.prev)
            (Built-le p built (omega arith)),
        omega arith,
        λ r b n. same r (omega arith) (omega arith) ∙ k.same r b n,
      ))

-- The list of the arguments: fresh pairs, and every older object as it was.
abbrev pub Listed : Bool → List Value → Heap → Value → Heap → Type 0
Listed c args h v g = Built g c h.next v args × Extends h g

make_list-Listed :
    (c : Bool) (a : Value) (args : List Value) (h : Heap)
    → Returns (Listed c (a ∷ args) h) (make_list c (a ∷ args) h)
unfolding make_list
make_list-Listed c a args h = Returns-bind (list_pair-Fresh c a h) λ q g k. rw k.address (
    Returns-bind (append_loop-Built c args k.fresh (omega arith)) λ _ g' (built, grows, same).
      returns (
        built,
        record {
          grows = omega arith;
          keeps = λ r b. same r (omega arith) (omega arith) ∙ k.same r b;
        },
      ))

-- `bin_list`, `bin_mulist` and `args_to_cl` return a list whose cars are the arguments in order, ended
-- by a null pointer, each pair fresh and constant for `bin_list` only, and leave every older object
-- as it was. With no arguments they return the empty list and allocate nothing.
pub lists_of_args :
    (a : Value) (args : List Value) (h : Heap)
    → Returns (Listed true (a ∷ args) h) (bin_list (a ∷ args) h)
      × Returns (Listed false (a ∷ args) h) (bin_mulist (a ∷ args) h)
      × Returns (Listed false (a ∷ args) h) (args_to_cl (a ∷ args) h)
      × (bin_list [] h ≡ ok symb_nil h)
      × (bin_mulist [] h ≡ ok symb_nil h)
      × (args_to_cl [] h ≡ ok symb_nil h)
unfolding bin_list bin_mulist args_to_cl
lists_of_args a args h = (
  make_list-Listed true a args h,
  make_list-Listed false a args h,
  make_list-Listed false a args h,
  refl,
  refl,
  refl,
)
