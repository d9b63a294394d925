-- ===== src/Builtins/Bounds/Walks.antt =====
-- Procedures that walk along a list or build one.
use scheme2c.Prelude.{ℕ, zero, suc, Bool, true, false, List, [], ◌∷◌, arith}
use scheme2c.Value.{Value}
use scheme2c.Heap.{Heap, pure, ◌>>◌}
use scheme2c.Builtins.Logic.{bin_listp}
use scheme2c.Builtins.Pairs.{bin_length, bin_ilength, bin_unquote_splicing, bin_list_last}
use scheme2c.Lists.{
  last_loop, list_pair, append_pair, append_loop, make_list, set_cdr, cl_last, append_pair,
  append_loop, cl_last, bin_list, bin_mulist,
}
use scheme2c.Builtins.Bounds.{InBounds, InBounds-bind}

-- The procedures that walk along a list.
pub in_last_loop : (f : ℕ) (v : Value) (h : Heap) → InBounds (last_loop f v h)
unfolding last_loop
in_last_loop zero v h = tt
in_last_loop (suc f) v h =
    let ih : (w : Value) (k : Heap) → InBounds (last_loop f w k) = in_last_loop f in grind arith

pub in_bin_list_last : (f : ℕ) (v : Value) (h : Heap) → InBounds (bin_list_last f (v ∷ []) h)
unfolding bin_list_last cl_last
in_bin_list_last f v h = let l = in_last_loop f v h in ground arith

pub in_list_walks :
    (f : ℕ) (v : Value) (h : Heap)
    → InBounds (bin_listp f (v ∷ []) h)
      × InBounds (bin_length f (v ∷ []) h)
      × InBounds (bin_ilength f (v ∷ []) h)
      × InBounds (bin_unquote_splicing f (v ∷ []) h)
unfolding bin_listp bin_length bin_ilength bin_unquote_splicing
in_list_walks f v h = (ground arith, ground arith, ground arith, ground arith)

pub in_list_pair : (const : Bool) (x : Value) (h : Heap) → InBounds (list_pair const x h)
unfolding list_pair
in_list_pair true x h = ground arith
in_list_pair false x h = ground arith

pub in_set_cdr : (v d : Value) (h : Heap) → InBounds (set_cdr v d h)
unfolding set_cdr
in_set_cdr v d h = ground arith

pub in_append_loop :
    (const : Bool) (prev : Value) (vs : List Value) (h : Heap)
    → InBounds (append_loop const prev vs h)
unfolding append_loop append_pair
in_append_loop const prev [] h = tt
in_append_loop const prev (v ∷ vs) h =
    InBounds-bind (append_pair const prev v h) (λ q. append_loop const q vs)
      (InBounds-bind (list_pair const v h) (λ q. set_cdr prev q >> pure q) (in_list_pair const v h)
        (λ q k. InBounds-bind (set_cdr prev q k) (λ _. pure q) (in_set_cdr prev q k) (λ _ _. tt)))
      (λ q k. in_append_loop const q vs k)

pub in_make_list : (const : Bool) (vs : List Value) (h : Heap) → InBounds (make_list const vs h)
unfolding make_list
in_make_list const [] h = tt
in_make_list const (v ∷ vs) h =
    InBounds-bind (list_pair const v h) (λ r. append_loop const r vs >> pure r)
      (in_list_pair const v h)
      (λ r k.
        InBounds-bind (append_loop const r vs k) (λ _. pure r) (in_append_loop const r vs k)
          (λ _ _. tt))

pub in_lists : (vs : List Value) (h : Heap) → InBounds (bin_list vs h) × InBounds (bin_mulist vs h)
unfolding bin_list bin_mulist
in_lists vs h = (in_make_list true vs h, in_make_list false vs h)
