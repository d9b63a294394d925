-- ===== src/Reader/Fuel.antt =====
-- The reader ends: each call reads a lexeme before it calls itself again.
use scheme2c.Prelude.{
  ℕ, zero, suc, ◌+◌, ◌*◌, ◌≤◌, ◌<◌, ◌≡◌, refl, Bool, true, false, not, Option, none, some, List, [],
  ◌∷◌, ◌++◌, arith, if◌then◌else◌, length,
}
use scheme2c.Reader.Syntax.{
  Datum, Lexeme, open_ro, close_ro, open_sq, close_sq, open_vec, open_vu, point, quote, quasi,
  unquote, splicing, comment, lex_stop, bad_lex, special, fixnum, atom, ident, symb_quote,
  symb_quasi, symb_unquote, symb_splicing,
}
use scheme2c.Reader.State.{
  Parser, Outcome, done, thrown, out_of_fuel, Read, and_then, next_lex, is_caught, read_lex, caught,
}
use scheme2c.Reader.{
  self_evaluating, null, Sort, read_datum, match_datum, read_quoted, read_compound, compound_item,
  pars_read_datum, list_round, list_square, vec, vu8, is_null, is_comment, close, after_point,
  finish, is_list, nonempty,
}

-- The run ended, with no more than `n` lexemes left if it returned, and with an exception that
-- `pars_read_datum` catches if it threw.
abbrev pub Ends {ℓ} : {A : Type ℓ} → ℕ → Outcome A → Type 0
Ends n (done a s) = length s.input ≤ n
Ends n (thrown e s) = is_caught e ≡ true
Ends n out_of_fuel = ⊥

Ends-mono {ℓ} : {A : Type ℓ} (m : ℕ) {n : ℕ} (r : Outcome A) → Ends n r → n ≤ m → Ends m r
Ends-mono m (done a s) e l = omega arith
Ends-mono m (thrown c s) e l = e
Ends-mono m out_of_fuel e l = elim e [ ]

Ends-bind {ℓ κ} :
    {A : Type ℓ} {B : Type κ} (m n : ℕ) (r : Outcome A) (k : A → Read B)
    → Ends m r
    → ((a : A) (s : Parser) → length s.input ≤ m → Ends n (k a s))
    → Ends n (and_then r k)
Ends-bind m n (done a s) k e next = next a s e
Ends-bind m n (thrown c s) k e next = e
Ends-bind m n out_of_fuel k e next = elim e [ ]

Ends-choice {ℓ} :
    {A : Type ℓ} (n : ℕ) (b : Bool) (x y : Outcome A)
    → Ends n x
    → Ends n y
    → Ends n (if b then x else y)
Ends-choice n true x y p q = p
Ends-choice n false x y p q = q

Ends-if {ℓ} :
    {A : Type ℓ} (n : ℕ) (b : Bool) (x y : Read A) (s : Parser)
    → Ends n (x s)
    → Ends n (y s)
    → Ends n ((if b then x else y) s)
Ends-if n true x y s p q = p
Ends-if n false x y s p q = q

-- Reading a lexeme shortens the input unless it is empty.
Ends-next_lex :
    {B : Type 0} (n : ℕ) (k : Option Lexeme → Read B) (s : Parser)
    → length s.input ≤ n
    → ((t : Parser) → length t.input ≤ n → Ends n (k none t))
    → ((l : Lexeme) (t : Parser) → suc (length t.input) ≤ n → Ends n (k (some l) t))
    → Ends n (and_then (next_lex s) k)
unfolding next_lex
Ends-next_lex n k s le at_end at_lexeme = go s.input s le le
  where
    go :
        (ls : List Lexeme) (t : Parser)
        → length t.input ≤ n
        → length ls ≤ n
        → Ends n (and_then (read_lex ls t) k)
    go [] t e l = at_end t e
    go (lex_stop ∷ ls) t e l = refl
    go (bad_lex ∷ ls) t e l =
        go ls (record t { input = ls; err_lex = true }) (omega arith) (omega arith)
    go (x ∷ ls) t e l = at_lexeme x (record t { input = ls }) l

Ends-finish :
    (sort : Sort) (items : List Datum) (end : Datum) (s : Parser)
    → Ends (length s.input) (finish sort items end s)
unfolding finish
Ends-finish vec items end s = omega arith
Ends-finish vu8 items end s = ground arith
Ends-finish list_round [] end s = omega arith
Ends-finish list_round (x ∷ xs) end s = omega arith
Ends-finish list_square [] end s = omega arith
Ends-finish list_square (x ∷ xs) end s = omega arith

Ends-close :
    (sort : Sort) (round : Bool) (items : List Datum) (end : Datum) (s : Parser)
    → Ends (length s.input) (close sort round items end s)
unfolding close
Ends-close list_round true items end s = Ends-finish list_round items end s
Ends-close list_round false items end s = refl
Ends-close list_square true items end s = refl
Ends-close list_square false items end s = Ends-finish list_square items end s
Ends-close vec true items end s = Ends-finish vec items end s
Ends-close vec false items end s = refl
Ends-close vu8 true items end s = Ends-finish vu8 items end s
Ends-close vu8 false items end s = refl

Ends-after_point :
    (sort : Sort) (items : List Datum) (end : Datum) (l : Option Lexeme) (s : Parser)
    → Ends (length s.input) (after_point sort items end l s)
unfolding after_point
Ends-after_point sort items end none s = refl
Ends-after_point sort items end (some close_ro) s = Ends-close sort true items end s
Ends-after_point sort items end (some close_sq) s = Ends-close sort false items end s
Ends-after_point sort items end (some _) s = refl

none-Ends :
    (f : ℕ) (sort : Sort) (items : List Datum) (s : Parser) (n : ℕ)
    → 0 < f
    → Ends n (compound_item f sort items none s)
unfolding compound_item
none-Ends zero sort items s n l = absurd (omega arith)
none-Ends (suc f) sort items s n l = refl

-- Fuel for each function, over the number of lexemes left.
mutual
  unfolding read_datum

  read_datum-Ends :
      (f : ℕ) (s : Parser) → 4 * length s.input < f → Ends (length s.input) (read_datum f s)
  read_datum-Ends zero s l = absurd (omega arith)
  read_datum-Ends (suc f) s l =
      Ends-next_lex (length s.input) _ s (omega arith) (λ t e. e)
        (λ x t e. Ends-mono _ _ (match_datum-Ends f x t (omega arith)) (omega arith))

  match_datum-Ends :
      (f : ℕ) (x : Lexeme) (s : Parser)
      → 4 * length s.input + 2 < f
      → Ends (length s.input) (match_datum f x s)
  match_datum-Ends zero x s l = absurd (omega arith)
  match_datum-Ends (suc f) open_ro s l = read_compound-Ends f list_round [] s (omega arith)
  match_datum-Ends (suc f) open_sq s l = read_compound-Ends f list_square [] s (omega arith)
  match_datum-Ends (suc f) open_vec s l = read_compound-Ends f vec [] s (omega arith)
  match_datum-Ends (suc f) open_vu s l = read_compound-Ends f vu8 [] s (omega arith)
  match_datum-Ends (suc f) quote s l = read_quoted-Ends f symb_quote s (omega arith)
  match_datum-Ends (suc f) quasi s l = read_quoted-Ends f symb_quasi s (omega arith)
  match_datum-Ends (suc f) unquote s l = read_quoted-Ends f symb_unquote s (omega arith)
  match_datum-Ends (suc f) splicing s l = read_quoted-Ends f symb_splicing s (omega arith)
  match_datum-Ends (suc f) comment s l =
      Ends-bind (length s.input) (length s.input) _ _ (read_datum-Ends f s (omega arith)) (λ d t e.
        Ends-if (length s.input) (is_null d) _ (read_datum f) t refl
          (Ends-mono _ _ (read_datum-Ends f t (omega arith)) e))
  match_datum-Ends (suc f) (special n) s l =
      Ends-choice (length s.input) (self_evaluating n) _ _ (omega arith) refl
  match_datum-Ends (suc f) (fixnum n) s l = omega arith
  match_datum-Ends (suc f) (atom n) s l = omega arith
  match_datum-Ends (suc f) (ident n) s l = omega arith
  match_datum-Ends (suc f) _ s l = refl

  read_quoted-Ends :
      (f q : ℕ) (s : Parser)
      → 4 * length s.input + 1 < f
      → Ends (length s.input) (read_quoted f q s)
  read_quoted-Ends zero q s l = absurd (omega arith)
  read_quoted-Ends (suc f) q s l =
      Ends-bind (length s.input) (length s.input) _ _ (read_datum-Ends f s (omega arith))
        (λ d t e. Ends-if (length s.input) (is_null d) _ _ t refl e)

  read_compound-Ends :
      (f : ℕ) (sort : Sort) (items : List Datum) (s : Parser)
      → 4 * length s.input + 1 < f
      → Ends (length s.input) (read_compound f sort items s)
  read_compound-Ends zero sort items s l = absurd (omega arith)
  read_compound-Ends (suc f) sort items s l =
      Ends-next_lex (length s.input) _ s (omega arith)
        (λ t e. none-Ends f sort items t (length s.input) (omega arith))
        (λ x t e.
          Ends-if (length s.input) (is_comment (some x)) _ (compound_item f sort items (some x)) t
            (Ends-bind (length t.input) (length s.input) _ _ (read_datum-Ends f t (omega arith))
              (λ d u e'.
                Ends-next_lex (length s.input) (compound_item f sort items) u (omega arith)
                  (λ v e''. none-Ends f sort items v (length s.input) (omega arith))
                  (λ y v e''.
                    Ends-mono _ _ (compound_item-Ends f sort items y v (omega arith))
                      (omega arith))))
            (Ends-mono _ _ (compound_item-Ends f sort items x t (omega arith)) (omega arith)))

  compound_item-Ends :
      (f : ℕ) (sort : Sort) (items : List Datum) (l : Lexeme) (s : Parser)
      → 4 * length s.input + 3 < f
      → Ends (length s.input) (compound_item f sort items (some l) s)
  compound_item-Ends zero sort items x s l = absurd (omega arith)
  compound_item-Ends (suc f) sort items point s l = Ends-choice _ (not (is_list sort)) _ _ refl (
      Ends-choice _ (not (nonempty items)) _ _ refl (
        Ends-bind (length s.input) (length s.input) _ _ (read_datum-Ends f s (omega arith))
          (λ end t e.
            Ends-next_lex (length s.input) _ t e
              (λ u e'. Ends-mono _ _ (Ends-after_point sort items end none u) (omega arith))
              (λ y u e'.
                Ends-mono _ _ (Ends-after_point sort items end (some y) u) (omega arith)))))
  compound_item-Ends (suc f) sort items close_ro s l = Ends-close sort true items null s
  compound_item-Ends (suc f) sort items close_sq s l = Ends-close sort false items null s
  compound_item-Ends (suc f) sort items x s l =
      Ends-bind (length s.input) (length s.input) _ _ (match_datum-Ends f x s (omega arith))
        (λ d t e.
          Ends-if (length s.input) (is_null d) _ (read_compound f sort (items ++ (d ∷ []))) t refl
            (Ends-mono _ _ (read_compound-Ends f sort (items ++ (d ∷ [])) t (omega arith)) e))

caught_total :
    (n : ℕ) (r : Outcome Datum) → Ends n r → (d : Datum) × (t : Parser) × (caught r ≡ done d t)
caught_total n (done d s) e = (d, s, refl)
caught_total n (thrown c s) e = (null, s, rw e)
caught_total n out_of_fuel e = elim e [ ]

-- `pars_read_datum` on any input of `n` lexemes, with fuel above 4 * n, returns: it does not loop, and
-- no exception leaves it.
pub pars_read_datum_total :
    (f : ℕ) (s : Parser)
    → 4 * length s.input < f
    → (d : Datum) × (t : Parser) × (pars_read_datum f s ≡ done d t)
unfolding pars_read_datum
pars_read_datum_total f s l =
    let start : Parser = record s { err_lex = false; err_dat = false } in
    caught_total (length s.input) (read_datum f start) (read_datum-Ends f start l)
