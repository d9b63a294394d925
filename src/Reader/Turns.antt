-- ===== src/Reader/Turns.antt =====
-- Single turns of the loop of a compound at printed lexemes.
use scheme2c.Prelude.{
  ℕ, zero, suc, ◌≡◌, refl, ap, ◌∙◌, Bool, true, false, List, [], ◌∷◌, ◌++◌, arith, if◌then◌else◌,
}
use scheme2c.Reader.Syntax.{
  Datum, null, pair, vector, bytes, Lexeme, point, special, fixnum, atom, ident,
}
use scheme2c.Reader.State.{Parser, done, and_then, next_lex, lex_error, parse_dat_stop}
use scheme2c.Reader.Print.{opening, print, closing, proper, Printable}
use scheme2c.Reader.Sorts.{whole, Ready, closer}
use scheme2c.Reader.{
  Read, Sort, list_round, list_square, vec, vu8, read_datum, read_compound, close, after_point,
  finish, is_null,
}

-- What a parser with the error bits `el` and `ed` reads of lists in brackets of the kind `square`.
module _ (square el ed : Bool) where
  abbrev pub before : List Lexeme → Parser
  before ls = record { input = ls; err_lex = el; err_dat = ed }

  abbrev pub go_on : ℕ → Sort → List Datum → Datum → Read Datum
  go_on f sort items d =
      if is_null d then lex_error parse_dat_stop else read_compound f sort (items ++ (d ∷ []))

  -- A turn of the loop at a printed datum reads that datum.
  item-print :
      (a : Datum) (f : ℕ) (sort : Sort) (items : List Datum) (ls : List Lexeme)
      → Printable a
      → read_compound (suc (suc f)) sort items (before (print square a ls))
        ≡ and_then (read_datum (suc f) (before (print square a ls))) (go_on f sort items)
  unfolding read_datum next_lex
  item-print null f sort items ls p = elim p [ ]
  item-print (special zero) f sort items ls p = ground arith
  item-print (special (suc n)) f sort items ls p = refl
  item-print (fixnum n) f sort items ls p = refl
  item-print (atom n) f sort items ls p = refl
  item-print (ident n) f sort items ls p = refl
  item-print (pair a d) f sort items ls p = ground arith
  item-print (vector d) f sort items ls p = refl
  item-print (bytes bs) f sort items ls p = refl

  -- A closing bracket ends a list.
  pub read_compound-closer :
      (sort : Sort) (f : ℕ) (items : List Datum) (ls : List Lexeme)
      → Ready sort items null
      → read_compound (suc (suc f)) sort items (before (closer sort ∷ ls))
        ≡ done (whole sort items null) (before ls)
  unfolding read_datum next_lex close finish
  read_compound-closer vec f items ls r = refl
  read_compound-closer vu8 f items ls r = elim r [ ]
  read_compound-closer list_round f [] ls r = ground arith
  read_compound-closer list_round f (x ∷ xs) ls r = refl
  read_compound-closer list_square f [] ls r = ground arith
  read_compound-closer list_square f (x ∷ xs) ls r = refl

  -- A point and a datum in front of the closing bracket end a list with that datum.
  pub read_compound-point :
      (sort : Sort) (f : ℕ) (items : List Datum) (d : Datum) (l ls : List Lexeme)
      → Ready sort items d
      → proper d ≡ false
      → read_datum f (before l) ≡ done d (before (closer sort ∷ ls))
      → read_compound (suc (suc f)) sort items (before (point ∷ l))
        ≡ done (whole sort items d) (before ls)
  unfolding read_datum next_lex after_point close finish
  read_compound-point vec f items d l ls r q e = ground arith
  read_compound-point vu8 f items d l ls r q e = elim r [ ]
  read_compound-point list_round f [] d l ls r q e = ground arith
  read_compound-point list_round f (x ∷ xs) d l ls r q e = cc
  read_compound-point list_square f [] d l ls r q e = ground arith
  read_compound-point list_square f (x ∷ xs) d l ls r q e = cc

  -- How a printed list is read as one of a sort.
  pub record Kind (b : Bool) : Type 0 where
    pub sort : Sort
    pub closes : closing b ≡ closer sort
    pub opens :
        (f : ℕ) (ls : List Lexeme)
        → read_datum (suc (suc f)) (before (opening b ∷ ls)) ≡ read_compound f sort [] (before ls)
    pub ready : (a d : Datum) → Ready sort (a ∷ []) d
    pub value : (a d : Datum) → whole sort (a ∷ []) d ≡ pair a d

  unfoldable pub kind : (b : Bool) → Kind b
  unfolding read_datum next_lex
  kind true = record {
    sort = list_square;
    closes = refl;
    opens = λ f ls. refl;
    ready = λ a d. refl;
    value = λ a d. refl;
  }
  kind false = record {
    sort = list_round;
    closes = refl;
    opens = λ f ls. refl;
    ready = λ a d. refl;
    value = λ a d. refl;
  }

  pub read_datum-nil :
      (b : Bool) (f : ℕ) (ls : List Lexeme)
      → read_datum (suc (suc (suc (suc f)))) (before (opening b ∷ closing b ∷ ls))
        ≡ done (Datum.special 0) (before ls)
  unfolding read_datum next_lex close finish
  read_datum-nil true f ls = refl
  read_datum-nil false f ls = refl

  pub turn :
      (a : Datum) (f : ℕ) (sort : Sort) (items : List Datum) (ls : List Lexeme)
      → Printable a
      → read_datum (suc f) (before (print square a ls)) ≡ done a (before ls)
      → read_compound (suc (suc f)) sort items (before (print square a ls))
        ≡ read_compound f sort (items ++ (a ∷ [])) (before ls)
  turn null f sort items ls p e = elim p [ ]
  turn (special n) f sort items ls p e =
      item-print (special n) f sort items ls p ∙ ap (λ r. and_then r (go_on f sort items)) e
  turn (fixnum n) f sort items ls p e =
      item-print (fixnum n) f sort items ls p ∙ ap (λ r. and_then r (go_on f sort items)) e
  turn (atom n) f sort items ls p e =
      item-print (atom n) f sort items ls p ∙ ap (λ r. and_then r (go_on f sort items)) e
  turn (ident n) f sort items ls p e =
      item-print (ident n) f sort items ls p ∙ ap (λ r. and_then r (go_on f sort items)) e
  turn (pair a d) f sort items ls p e =
      item-print (pair a d) f sort items ls p ∙ ap (λ r. and_then r (go_on f sort items)) e
  turn (vector d) f sort items ls p e =
      item-print (vector d) f sort items ls p ∙ ap (λ r. and_then r (go_on f sort items)) e
  turn (bytes bs) f sort items ls p e =
      item-print (bytes bs) f sort items ls p ∙ ap (λ r. and_then r (go_on f sort items)) e
