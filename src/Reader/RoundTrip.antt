-- ===== src/Reader/RoundTrip.antt =====
-- The reader gives back each datum that was printed as lexemes.
use scheme2c.Prelude.{
  ℕ, zero, suc, ◌*◌, ◌≤◌, ◌≡◌, refl, sym, ap, ◌∙◌, Bool, false, some, List, [], ◌∷◌, ◌++◌, arith,
  lt→ltb, length,
}
use mathlib.Core.Path.{subst}
use mathlib.Core.List.{append_assoc, append-nil}
use scheme2c.Reader.Syntax.{
  Datum, null, pair, vector, bytes, Lexeme, close_ro, special, fixnum, atom, ident,
}
use scheme2c.Reader.State.{caught, Parser, done, next_lex}
use scheme2c.Reader.Print.{Bytes, print, print_rest, fixnums, closing, Printable, PrintableRest}
use scheme2c.Reader.Lengths.{length-fixnums, length-print, length-print_rest}
use scheme2c.Reader.Sorts.{whole, Ready, closer, Ready-step, whole-step}
use scheme2c.Reader.{
  pars_read_datum, cl_to_vu8, Sort, vec, vu8, read_datum, read_compound, close, finish,
}
use scheme2c.Reader.Turns.{
  before, turn, kind, read_datum-nil, read_compound-closer, read_compound-point,
}

-- What a parser with the error bits `el` and `ed` reads of lists in brackets of the kind `square`.
module _ (square el ed : Bool) where
  abbrev fixnum_items : List ℕ → List Datum
  fixnum_items [] = []
  fixnum_items (b ∷ bs) = fixnum b ∷ fixnum_items bs

  cl_to_vu8-fixnum_items : (bs : List ℕ) → Bytes bs → cl_to_vu8 (fixnum_items bs) ≡ some bs
  unfolding cl_to_vu8
  cl_to_vu8-fixnum_items [] p = refl
  cl_to_vu8-fixnum_items (b ∷ bs) p =
      let ih = cl_to_vu8-fixnum_items bs p.1 in rw (lt→ltb b 256 p.0, ih)

  finish-fixnum_items :
      (bs : List ℕ) (ls : List Lexeme)
      → Bytes bs
      → finish vu8 (fixnum_items bs) null (before square el ed ls)
        ≡ done (bytes bs) (before square el ed ls)
  unfolding finish
  finish-fixnum_items bs ls p = rw (cl_to_vu8-fixnum_items bs p, finish)

  -- The components of a byte vector are read up to the closing bracket.
  read_compound-fixnums :
      (bs : List ℕ) (f : ℕ) (items : List Datum) (ls : List Lexeme)
      → 4 * length (fixnums bs (close_ro ∷ ls)) ≤ f
      → read_compound f vu8 items (before square el ed (fixnums bs (close_ro ∷ ls)))
        ≡ finish vu8 (items ++ fixnum_items bs) null (before square el ed ls)
  unfolding read_datum next_lex close
  read_compound-fixnums bs zero items ls le =
      let l = length-fixnums bs (close_ro ∷ ls) in let z : ⊥ = omega arith in elim z [ ]
  read_compound-fixnums bs (suc zero) items ls le =
      let l = length-fixnums bs (close_ro ∷ ls) in let z : ⊥ = omega arith in elim z [ ]
  read_compound-fixnums [] (suc (suc f)) items ls le =
      ap (λ xs. finish vu8 xs null (before square el ed ls)) (sym (append-nil items))
  read_compound-fixnums (b ∷ bs) (suc (suc zero)) items ls le =
      let z : ⊥ = omega arith in elim z [ ]
  read_compound-fixnums (b ∷ bs) (suc (suc (suc f))) items ls le =
      let ih = read_compound-fixnums bs (suc f) (items ++ (fixnum b ∷ [])) ls (omega arith) in
      ih
      ∙ ap (λ xs. finish vu8 xs null (before square el ed ls))
          (append_assoc items (fixnum b ∷ []) (fixnum_items bs))

  mutual
    unfolding read_datum next_lex finish cl_to_vu8

    pub read_datum-print_at :
        (d : Datum) (f : ℕ) (ls : List Lexeme)
        → Printable d
        → 4 * length (print square d ls) ≤ suc f
        → read_datum f (before square el ed (print square d ls)) ≡ done d (before square el ed ls)
    read_datum-print_at null f ls p le = elim p [ ]
    read_datum-print_at d zero ls p le =
        let l = length-print square d ls p in let z : ⊥ = omega arith in elim z [ ]
    read_datum-print_at d (suc zero) ls p le =
        let l = length-print square d ls p in let z : ⊥ = omega arith in elim z [ ]
    read_datum-print_at (special zero) (suc (suc zero)) ls p le =
        let z : ⊥ = omega arith in elim z [ ]
    read_datum-print_at (special zero) (suc (suc (suc zero))) ls p le =
        let z : ⊥ = omega arith in elim z [ ]
    read_datum-print_at (special zero) (suc (suc (suc (suc f)))) ls p le =
        read_datum-nil square el ed square f ls
    read_datum-print_at (special (suc n)) (suc (suc f)) ls p le = ground arith
    read_datum-print_at (fixnum n) (suc (suc f)) ls p le = refl
    read_datum-print_at (atom n) (suc (suc f)) ls p le = refl
    read_datum-print_at (ident n) (suc (suc f)) ls p le = refl
    read_datum-print_at (bytes bs) (suc (suc f)) ls p le =
        read_compound-fixnums bs f [] ls (omega arith) ∙ finish-fixnum_items bs ls p
    read_datum-print_at (vector items) (suc (suc f)) ls p le =
        read_compound-print_rest items vec f [] ls p.1 p.0 (omega arith)
    read_datum-print_at (pair a d) (suc (suc zero)) ls p le =
        let l = length-print square a (print_rest square d (closing square ∷ ls)) p.0 in
        let z : ⊥ = omega arith in elim z [ ]
    read_datum-print_at (pair a d) (suc (suc (suc zero))) ls p le =
        let l = length-print square a (print_rest square d (closing square ∷ ls)) p.0 in
        let z : ⊥ = omega arith in elim z [ ]
    read_datum-print_at (pair a d) (suc (suc (suc (suc f)))) ls p le =
        let L = print_rest square d (closing square ∷ ls) in
        let l = length-print square a L p.0 in
        let first = read_datum-print_at a (suc f) L p.0 (omega arith) in
        let k = kind square el ed square in
        let bound : 4 * length (print_rest square d (closing square ∷ ls)) ≤ f = omega arith in
        k.opens (suc (suc f)) (print square a L)
        ∙ turn square el ed a f k.sort [] L p.0 first
        ∙ ap
            (λ c.
              read_compound f k.sort (a ∷ []) (before square el ed (print_rest square d (c ∷ ls))))
            k.closes
        ∙ read_compound-print_rest d k.sort f (a ∷ []) ls p.1 (k.ready a d)
            (subst (λ c. 4 * length (print_rest square d (c ∷ ls)) ≤ f) k.closes bound)
        ∙ ap (λ w. done w (before square el ed ls)) (k.value a d)

    read_compound-print_rest :
        (d : Datum) (sort : Sort) (f : ℕ) (items : List Datum) (ls : List Lexeme)
        → PrintableRest d
        → Ready sort items d
        → 4 * length (print_rest square d (closer sort ∷ ls)) ≤ f
        → read_compound f sort items (before square el ed (print_rest square d (closer sort ∷ ls)))
          ≡ done (whole sort items d) (before square el ed ls)
    read_compound-print_rest d sort zero items ls p r le =
        let l = length-print_rest square d (closer sort ∷ ls) p in
        let z : ⊥ = omega arith in elim z [ ]
    read_compound-print_rest d sort (suc zero) items ls p r le =
        let l = length-print_rest square d (closer sort ∷ ls) p in
        let z : ⊥ = omega arith in elim z [ ]
    read_compound-print_rest null sort (suc (suc f)) items ls p r le =
        read_compound-closer square el ed sort f items ls r
    read_compound-print_rest (pair a d) sort (suc (suc f)) items ls p r le =
        let L = print_rest square d (closer sort ∷ ls) in
        let l = length-print square a L p.0 in
        let first = read_datum-print_at a (suc f) L p.0 (omega arith) in
        turn square el ed a f sort items L p.0 first
        ∙ read_compound-print_rest d sort f (items ++ (a ∷ [])) ls p.1 (Ready-step sort items a d r)
            (omega arith)
        ∙ ap (λ w. done w (before square el ed ls)) (whole-step sort items a d)
    read_compound-print_rest (special zero) sort (suc (suc f)) items ls p r le =
        let inner = read_datum-print_at (special zero) f (closer sort ∷ ls) p (omega arith) in
        read_compound-point square el ed sort f items (special zero)
          (print square (special zero) (closer sort ∷ ls)) ls r refl inner
    read_compound-print_rest (special (suc n)) sort (suc (suc f)) items ls p r le =
        let inner = read_datum-print_at (special (suc n)) f (closer sort ∷ ls) p (omega arith) in
        read_compound-point square el ed sort f items (special (suc n))
          (print square (special (suc n)) (closer sort ∷ ls)) ls r refl inner
    read_compound-print_rest (fixnum n) sort (suc (suc f)) items ls p r le =
        let inner = read_datum-print_at (fixnum n) f (closer sort ∷ ls) p (omega arith) in
        read_compound-point square el ed sort f items (fixnum n)
          (print square (fixnum n) (closer sort ∷ ls)) ls r refl inner
    read_compound-print_rest (atom n) sort (suc (suc f)) items ls p r le =
        let inner = read_datum-print_at (atom n) f (closer sort ∷ ls) p (omega arith) in
        read_compound-point square el ed sort f items (atom n)
          (print square (atom n) (closer sort ∷ ls)) ls r refl inner
    read_compound-print_rest (ident n) sort (suc (suc f)) items ls p r le =
        let inner = read_datum-print_at (ident n) f (closer sort ∷ ls) p (omega arith) in
        read_compound-point square el ed sort f items (ident n)
          (print square (ident n) (closer sort ∷ ls)) ls r refl inner
    read_compound-print_rest (vector is) sort (suc (suc f)) items ls p r le =
        let inner = read_datum-print_at (vector is) f (closer sort ∷ ls) p (omega arith) in
        read_compound-point square el ed sort f items (vector is)
          (print square (vector is) (closer sort ∷ ls)) ls r refl inner
    read_compound-print_rest (bytes bs) sort (suc (suc f)) items ls p r le =
        let inner = read_datum-print_at (bytes bs) f (closer sort ∷ ls) p (omega arith) in
        read_compound-point square el ed sort f items (bytes bs)
          (print square (bytes bs) (closer sort ∷ ls)) ls r refl inner

-- `pars_read_datum` reads from the lexemes of a printed datum that datum, takes no lexeme more, and sets
-- no error bit, whether the lists are printed in round or in square brackets, and whatever lexemes
-- follow: fuel of four times the number of lexemes is enough. The datum has a printed form: no null
-- pointer but behind the last item, bytes below 256, and no special values but the reader's own.
pub pars_read_datum-print :
    (square : Bool) (d : Datum) (ls : List Lexeme) (f : ℕ) (s : Parser)
    → Printable d
    → 4 * length (print square d ls) ≤ f
    → pars_read_datum f (record s { input = print square d ls })
      ≡ done d (record { input = ls; err_lex = false; err_dat = false })
unfolding pars_read_datum
pars_read_datum-print square d ls f s p le =
    ap caught (read_datum-print_at square false false d f ls p (omega arith))
