-- ===== src/Builtins/Pairs.antt =====
-- Pairs and lists: `bin_cons`, `bin_car` and their like.
pub mod Laws
use scheme2c.Prelude.{
  ℕ, zero, suc, ◌+◌, ◌-◌, ◌*◌, ◌/◌, ◌%◌, ◌^◌, ◌≤◌, ◌<◌, ◌≡◌, refl, sym, ap, ◌∙◌, ◌≢◌, ◌↔◌, ◌⊎◌, inl,
  inr, Bool, true, false, not, ◌&&◌, ◌||◌, Option, none, some, List, [], ◌∷◌, ◌++◌, map, arith, ltb,
  leb, ◌==◌, if◌then◌else◌, ltb→lt, lt→ltb, leb→le, ==_iff, Bool-cases, Option-cases, length,
  get_elem?, set, length-append, length-set, get_elem?-set_self, get_elem?-set_ne,
}
use scheme2c.Prelude.Word.{is_negative}
use scheme2c.Value.{Value, nihil, fixnum, symb_nil, symb_void, value_eq}
use scheme2c.Heap.{
  identifier, Heap, ok, panic, fault, Cmd, pure, ◌>>=◌, ◌>>◌, deref, datum_set_const, vm_assert,
}
use scheme2c.Lists.{
  carcdr, datum_is_carcdr, new_cons, conscar, set_car, set_cdr, cli_len, clp_proper, cl_last,
}
use scheme2c.Builtins.Args.{arg, Bin, bad_arg, datum_is_const}

-- The car and the cdr of a value that must be a pair.
pair_of : Value → Cmd (Value × Value)
unfolding carcdr
pair_of v h = elim (carcdr h v) [ none ↦ bad_arg h | some s ↦ ok s h ]

unfoldable pub bin_cons : Bin
unfolding new_cons datum_set_const
bin_cons argv = do a ← arg argv 0; b ← arg argv 1; r ← new_cons a b; datum_set_const r; pure r

-- `pair` makes a mutable one.
unfoldable pub bin_pair : Bin
unfolding new_cons
bin_pair argv = do a ← arg argv 0; b ← arg argv 1; new_cons a b

-- `set-car!` and `set-cdr!` refuse a constant pair.
unfoldable pub bin_set_car : Bin
unfolding datum_is_carcdr datum_is_const set_car
bin_set_car argv = do
  c ← arg argv 0
  d ← arg argv 1
  λ h.
      if not (datum_is_carcdr h c) || datum_is_const h c
      then bad_arg h
      else (set_car c d >> pure symb_void) h

unfoldable pub bin_set_cdr : Bin
unfolding datum_is_carcdr datum_is_const set_cdr
bin_set_cdr argv = do
  c ← arg argv 0
  d ← arg argv 1
  λ h.
      if not (datum_is_carcdr h c) || datum_is_const h c
      then bad_arg h
      else (set_cdr c d >> pure symb_void) h

unfoldable pub bin_car : Bin
unfolding pair_of
bin_car argv = do d ← arg argv 0; (a, _) ← pair_of d; pure a

unfoldable pub bin_cdr : Bin
unfolding pair_of
bin_cdr argv = do d ← arg argv 0; (_, b) ← pair_of d; pure b

unfoldable pub bin_caar : Bin
unfolding pair_of
bin_caar argv = do d ← arg argv 0; (a, _) ← pair_of d; (r, _) ← pair_of a; pure r

unfoldable pub bin_cddr : Bin
unfolding pair_of
bin_cddr argv = do d ← arg argv 0; (_, b) ← pair_of d; (_, r) ← pair_of b; pure r

unfoldable pub bin_cadr : Bin
unfolding pair_of
bin_cadr argv = do d ← arg argv 0; (_, b) ← pair_of d; (r, _) ← pair_of b; pure r

-- `length` raises an exception on what is no pair, and another on an improper list.
unfoldable pub bin_length : ℕ → Bin
unfolding datum_is_carcdr cli_len
bin_length f argv = do
  d ← arg argv 0
  λ h.
      if not (datum_is_carcdr h d)
      then bad_arg h
      else (do l ← cli_len f d; if is_negative l then (λ h. panic vm_assert) else pure (fixnum l)) h

unfoldable pub bin_ilength : ℕ → Bin
unfolding datum_is_carcdr cli_len
bin_ilength f argv = do
  d ← arg argv 0
  λ h. if not (datum_is_carcdr h d) then bad_arg h else (do l ← cli_len f d; pure (fixnum l)) h

-- A syntax identifier is quoted as its symbol.
unfoldable pub bin_quote : Bin
unfolding deref
bin_quote argv = do
  d ← arg argv 0
  λ h. elim (deref h d) [
    | none ↦ ok d h
    | some o ↦ elim o.body [ identifier pos symbol var ↦ ok symbol h | _ ↦ ok d h ]
  ]

unfoldable pub bin_unquote : Bin
unfolding datum_is_carcdr conscar
bin_unquote argv = do d ← arg argv 0; λ h. if datum_is_carcdr h d then conscar d h else ok d h

unfoldable pub bin_unquote_splicing : ℕ → Bin
unfolding clp_proper
bin_unquote_splicing f argv = do d ← arg argv 0; b ← clp_proper f d; if b then pure d else bad_arg

-- `list-last` takes the empty list or a pair.
unfoldable pub bin_list_last : ℕ → Bin
unfolding datum_is_carcdr cl_last
bin_list_last f argv = do
  d ← arg argv 0
  λ h.
      if value_eq d symb_nil || datum_is_carcdr h d
      then (do r ← cl_last f d; pure (if value_eq r nihil then symb_nil else r)) h
      else bad_arg h
