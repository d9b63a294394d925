-- ===== src/Heap/Writes.antt =====
-- What single writes do, in the form in which proofs rewrite by them.
use scheme2c.Prelude.{ℕ, ◌≡◌, ◌≢◌, Bool, true, Option, some, arith}
use scheme2c.Heap.{Heap, Obj, obj, Body, update, ok, datum_set_const}
use scheme2c.Value.{ptr}

pub update_self : (f : ℕ → Option Obj) (p : ℕ) (o : Obj) → update f p o p ≡ some o
update_self f p o = ground arith

pub update_ne : (f : ℕ → Option Obj) (p : ℕ) (o : Obj) (q : ℕ) → q ≢ p → update f p o q ≡ f q
update_ne f p o q n = ground arith

pub datum_set_const-obj :
    (h : Heap) (p : ℕ) (c : Bool) (b : Body)
    → h.cell p ≡ some (obj c b)
    → datum_set_const (ptr p) h ≡ ok tt (record h { cell = update h.cell p (obj true b) })
unfolding datum_set_const
datum_set_const-obj h p c b e = rw (e, datum_set_const)
