-- ===== src/Interpret/Closures.antt =====
-- The closures that LAMBDA makes (src/interpret.c), and what a call of one reads.
use scheme2c.Prelude.{
  length-append, false, ◌∙◌, ◌==◌, ◌-◌, ◌++◌, ℕ, zero, suc, ◌<◌, ◌≡◌, refl, sym, ap, none, some,
  List, [], ◌∷◌, arith, length, get_elem?, get_elem?-set_self,
}
use scheme2c.Value.{ptr, Value}
use scheme2c.Interpret.Machine.{vars, up, Frame, closure, closr, Store, Machine, running, kept_vec}
use scheme2c.Interpret.Run.{
  fresh_closure, closed, with_object, frame_vars, load_closure, Fcode, Ran,
}

-- The frame `n` above.
abbrev pub frame_up : ℕ → Frame → Frame
frame_up zero f = f
frame_up (suc n) f = frame_up n (up f)

frame_vars-frame_up :
    (n i : ℕ) (f : Frame) → i < n → get_elem? (frame_vars n f) i ≡ some (vars (frame_up i f))
frame_vars-frame_up zero i f l = elim l [ ]
frame_vars-frame_up (suc n) zero f l = refl
frame_vars-frame_up (suc n) (suc i) f l = frame_vars-frame_up n i (up f) (omega arith)

suc-is_zero : (n : ℕ) → (suc n == 0) ≡ false
suc-is_zero n = ground arith

suc-sub : (n : ℕ) → suc n - 1 ≡ n
suc-sub n = omega arith

module _ (code : List Fcode) (bin : ℕ → (argv : List Value) → Store → Ran) where
  -- The state behind LAMBDA, and what later calls read.
  load_closure-made :
      (m : Machine) (k : ℕ) (fc : Fcode)
      → get_elem? code k ≡ some fc
      → fc.cached ≡ none
      → (m' : Machine) × (load_closure code bin m (ptr k) ≡ running m')
        × (m'.rr ≡ ptr (length m.store.objects))
        × ((called : Machine) (i : ℕ)
            → get_elem? called.store.objects (length m.store.objects)
              ≡ get_elem? m'.store.objects (length m.store.objects)
            → closr called.fr_top ≡ length m.store.objects
            → i < fc.frmax
            → kept_vec called (suc i) ≡ some (vars (frame_up i m.fr_top)))
  unfolding load_closure
  load_closure-made m k fc h fresh = rw (h, fresh) (made fc.frmax)
    where
      made :
          (n : ℕ)
          → (m' : Machine) × (closed code bin
                (with_object code bin m (closure (fresh_closure code bin fc k)))
                (length m.store.objects)
                (fresh_closure code bin fc k)
                n
              ≡ running m')
            × (m'.rr ≡ ptr (length m.store.objects))
            × ((called : Machine) (i : ℕ)
                → get_elem? called.store.objects (length m.store.objects)
                  ≡ get_elem? m'.store.objects (length m.store.objects)
                → closr called.fr_top ≡ length m.store.objects
                → i < n
                → kept_vec called (suc i) ≡ some (vars (frame_up i m.fr_top)))
      made zero = (_, refl, refl, λ called i e f l. elim l [ ])
      made (suc n) = (
        _,
        refl,
        refl,
        λ called i e f l.
            rw
              (
                suc-is_zero i,
                suc-sub i,
                f,
                e,
                get_elem?-set_self (m.store.objects ++ (closure (fresh_closure code bin fc k) ∷ []))
                    (length m.store.objects)
                    (closure (record (fresh_closure code bin fc k) {
                      saved = frame_vars (suc n) m.fr_top;
                    }))
                    (omega (
                      arith,
                      length-append m.store.objects (closure (fresh_closure code bin fc k) ∷ []),
                    )),
              )
              (frame_vars-frame_up (suc n) i m.fr_top l),
      )

  turn-injective : (m m' : Machine) → running m ≡ running m' → m ≡ m'
  turn-injective m m' e = cc

  -- The closure that LAMBDA makes of a code object without a cached one: when it runs, in any later state
  -- with a frame of this closure on top and with its object as LAMBDA left it, whatever else is in the
  -- store, its variable of depth `i + 1` is read in the vector of the frame that was `i` frames above the
  -- top one when the closure was made, that is, for `i` above 0 in a frame of the callers at that time.
  pub load_closure-kept_vec :
      (m m' called : Machine) (k i : ℕ) (fc : Fcode)
      → get_elem? code k ≡ some fc
      → fc.cached ≡ none
      → load_closure code bin m (ptr k) ≡ running m'
      → get_elem? called.store.objects (length m.store.objects)
        ≡ get_elem? m'.store.objects (length m.store.objects)
      → closr called.fr_top ≡ length m.store.objects
      → i < fc.frmax
      → (m'.rr ≡ ptr (length m.store.objects))
        × (kept_vec called (suc i) ≡ some (vars (frame_up i m.fr_top)))
  load_closure-kept_vec m m' called k i fc h fresh e s q l =
      let (made, runs, rr, keeps) = load_closure-made m k fc h fresh in
      let same = turn-injective m' made (sym e ∙ runs) in
      (
        ap (λ x. x.rr) same ∙ rr,
        keeps called i (s ∙ ap (λ x. get_elem? x.store.objects (length m.store.objects)) same) q l,
      )
