-- ===== src/Reader.antt =====
-- The reader of data (src/parse.c from `pars_next_lex` on): recursive descent over the lexemes that
-- the lexer delivers. An exception leaves the parser's state as it is at the throw.
pub mod Syntax
pub mod State
pub mod Fuel
pub mod Print
pub mod Lengths
pub mod Sorts
pub mod Turns
pub mod RoundTrip
pub mod Errors
use scheme2c.Prelude.{
  ℕ, zero, suc, ◌+◌, ◌-◌, ◌*◌, ◌/◌, ◌%◌, ◌^◌, ◌≤◌, ◌<◌, ◌≡◌, refl, sym, ap, ◌∙◌, ◌≢◌, ◌↔◌, ◌⊎◌, inl,
  inr, Bool, true, false, not, ◌&&◌, ◌||◌, Option, none, some, List, [], ◌∷◌, ◌++◌, map, arith, ltb,
  leb, ◌==◌, if◌then◌else◌, ltb→lt, lt→ltb, leb→le, ==_iff, Bool-cases, Option-cases, length,
  get_elem?, set, length-append, length-set, get_elem?-set_self, get_elem?-set_ne,
}
use mathlib.Core.Option
use scheme2c.Reader.Syntax.{
  Datum, null, pair, vector, bytes, chain, Lexeme, open_ro, close_ro, open_sq, close_sq, open_vec,
  open_vu, point, quote, quasi, unquote, splicing, comment, other_spec, lex_stop, special, fixnum,
  atom, ident, symb_quote, symb_quasi, symb_unquote, symb_splicing,
}
use scheme2c.Reader.State.{
  Parser, Outcome, done, thrown, out_of_fuel, Read, pure, ◌>>=◌, ◌>>◌, next_lex, lex_error,
  parse_dat, parse_dat_stop, parse_lex_stop, dat_error, caught,
}

-- `sort` of `syn_read_compound`, with the bits that it sets.
pub data Sort : Type 0 where
  list_round list_square vec vu8 : Sort

abbrev pub is_list : Sort → Bool
is_list list_round = true
is_list list_square = true
is_list _ = false

abbrev pub is_round : Sort → Bool
is_round list_square = false
is_round _ = true

-- `cl_to_vu8`: the bytes, or `none` if some component is no fixnum from 0 to 255.
unfoldable pub cl_to_vu8 : List Datum → Option (List ℕ)
cl_to_vu8 [] = some []
cl_to_vu8 (fixnum w ∷ xs) = if ltb w 256 then Option.map (λ bs. w ∷ bs) (cl_to_vu8 xs) else none
cl_to_vu8 (_ ∷ xs) = none

-- What `syn_read_compound` makes of the items and of the value behind the last: `SYMB_NIL` for no
-- list. A byte vector with a bad component is an error that does not throw. The constant bit that the
-- result is given has no place in `Datum`.
unfoldable pub finish : Sort → List Datum → (end : Datum) → Read Datum
unfolding cl_to_vu8
finish vec items end = pure (vector (chain items null))
finish vu8 items end = elim (cl_to_vu8 items) [
  | none ↦ dat_error >> pure (Datum.special 0)
  | some bs ↦ pure (bytes bs)
]
finish _ [] end = pure (Datum.special 0)
finish _ (x ∷ xs) end = pure (chain (x ∷ xs) end)

-- A closing bracket must be of the kind of the opening one.
unfoldable pub close : Sort → (round : Bool) → List Datum → (end : Datum) → Read Datum
unfolding finish
close sort round items end =
    if round && not (is_round sort)
    then lex_error parse_dat
    else (if not round && is_round sort then lex_error parse_dat else finish sort items end)

-- Behind the datum that follows a point only a closing bracket may stand.
unfoldable pub after_point : Sort → List Datum → (end : Datum) → Option Lexeme → Read Datum
unfolding close
after_point sort items end (some close_ro) = close sort true items end
after_point sort items end (some close_sq) = close sort false items end
after_point sort items end _ = lex_error parse_dat_stop

abbrev pub nonempty : List Datum → Bool
nonempty [] = false
nonempty (_ ∷ _) = true

-- What is no compound and no abbreviation: an end is the null pointer.
abbrev pub is_null : Datum → Bool
is_null null = true
is_null _ = false

abbrev pub is_comment : Option Lexeme → Bool
is_comment (some comment) = true
is_comment _ = false

-- `SYMB_UNDEF`, `SYMB_T`, `SYMB_F`, `SYMB_VOID` and `SYMB_EOF`, which are data of their own.
abbrev pub self_evaluating : ℕ → Bool
self_evaluating n = leb 1 n && leb n 5

unfoldable mutual
  -- `syn_read_datum`
  pub read_datum : ℕ → Read Datum
  read_datum zero s = out_of_fuel
  read_datum (suc f) s =
      (next_lex >>= λ l. elim l [ none ↦ pure null | some x ↦ match_datum f x ]) s

  -- `syn_match_datum`, at the lexeme that was read last.
  pub match_datum : ℕ → Lexeme → Read Datum
  match_datum zero l s = out_of_fuel
  match_datum (suc f) (special n) s =
      if self_evaluating n then done (Datum.special n) s else lex_error parse_dat_stop s
  match_datum (suc f) open_ro s = read_compound f list_round [] s
  match_datum (suc f) open_sq s = read_compound f list_square [] s
  match_datum (suc f) open_vec s = read_compound f vec [] s
  match_datum (suc f) open_vu s = read_compound f vu8 [] s
  match_datum (suc f) quote s = read_quoted f symb_quote s
  match_datum (suc f) quasi s = read_quoted f symb_quasi s
  match_datum (suc f) unquote s = read_quoted f symb_unquote s
  match_datum (suc f) splicing s = read_quoted f symb_splicing s
  match_datum (suc f) comment s =
      (read_datum f >>= λ d. if is_null d then lex_error parse_dat_stop else read_datum f) s
  match_datum (suc f) (fixnum w) s = done (Datum.fixnum w) s
  match_datum (suc f) (atom a) s = done (Datum.atom a) s
  match_datum (suc f) (ident n) s = done (Datum.ident n) s
  match_datum (suc f) _ s = lex_error parse_dat_stop s

  -- The branch of `syn_match_datum` for a quotation lexeme.
  pub read_quoted : ℕ → ℕ → Read Datum
  read_quoted zero q s = out_of_fuel
  read_quoted (suc f) q s =
      (read_datum f >>= λ d.
      if is_null d then lex_error parse_dat_stop else pure (pair (Datum.ident q) (pair d null)))
        s

  -- The loop of `syn_read_compound`, with the items read so far.
  pub read_compound : ℕ → Sort → List Datum → Read Datum
  read_compound zero sort items s = out_of_fuel
  read_compound (suc f) sort items s =
      (next_lex >>= λ l.
      let skip : Read Datum =
        read_datum f >>= λ _. next_lex >>= λ l'. compound_item f sort items l' in
      if is_comment l then skip else compound_item f sort items l)
        s

  -- The rest of a turn, at a lexeme behind an optional comment.
  pub compound_item : ℕ → Sort → List Datum → Option Lexeme → Read Datum
  compound_item zero sort items l s = out_of_fuel
  compound_item (suc f) sort items none s = lex_error parse_dat_stop s
  compound_item (suc f) sort items (some point) s =
      if not (is_list sort)
      then lex_error parse_dat_stop s
      else (if not (nonempty items)
          then lex_error parse_dat_stop s
          else (read_datum f >>= λ end. next_lex >>= λ l. after_point sort items end l) s)
  compound_item (suc f) sort items (some close_ro) s = close sort true items null s
  compound_item (suc f) sort items (some close_sq) s = close sort false items null s
  compound_item (suc f) sort items (some x) s =
      (match_datum f x >>= λ d.
      if is_null d then lex_error parse_dat_stop else read_compound f sort (items ++ (d ∷ [])))
        s

-- `pars_read_datum`: the error bits are cleared, and the three exceptions of the parser end in a null
-- pointer.
unfoldable pub pars_read_datum : ℕ → Read Datum
unfolding read_datum
pars_read_datum f s = caught (read_datum f (record s { err_lex = false; err_dat = false }))
