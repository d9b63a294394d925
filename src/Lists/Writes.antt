-- ===== src/Lists/Writes.antt =====
-- What a write into a plain pair does.
use scheme2c.Prelude.{ℕ, ◌≡◌, Bool, some}
use scheme2c.Heap.{Heap, obj, cons, update, ok}
use scheme2c.Value.{Value, ptr}
use scheme2c.Lists.{set_cdr}

pub set_cdr-cons :
    (h : Heap) (p : ℕ) (c : Bool) (a d v : Value)
    → h.cell p ≡ some (obj c (cons a d))
    → set_cdr (ptr p) v h ≡ ok tt (record h { cell = update h.cell p (obj c (cons a v)) })
unfolding set_cdr
set_cdr-cons h p c a d v e = rw (e, set_cdr)
