-- ===== src/Reader/Syntax.antt =====
-- Lexemes and data.
use scheme2c.Prelude.{ℕ, ◌≡◌, refl, ap, List, [], ◌∷◌, ◌++◌}

-- The special symbols that the lexer returns as lexemes, and the rest: self-evaluating special
-- values, fixnums, other atoms (reals, strings, characters), identifiers. `lex_stop` stands where
-- the lexer throws EXCEP_PARSE_LEX_STOP, `bad_lex` where it throws EXCEP_PARSE_LEX_BADLEX.
pub data Lexeme : Type 0 where
  open_ro close_ro open_sq close_sq open_vec open_vu point quote quasi unquote splicing comment :
      Lexeme
  other_spec lex_stop bad_lex : Lexeme
  special fixnum atom ident : ℕ → Lexeme

-- What the reader builds. A list is a chain of pairs up to `null`, the null pointer; a vector holds
-- its elements as such a chain. `special 0` is the empty list.
pub data Datum : Type 0 where
  null : Datum
  special fixnum atom ident : ℕ → Datum
  pair : (car cdr : Datum) → Datum
  vector : Datum → Datum
  bytes : List ℕ → Datum

abbrev pub chain : List Datum → Datum → Datum
chain [] end = end
chain (x ∷ xs) end = pair x (chain xs end)

-- The symbols behind the abbreviations.
abbrev pub symb_quote : ℕ
symb_quote = 60

abbrev pub symb_quasi : ℕ
symb_quasi = 61

abbrev pub symb_unquote : ℕ
symb_unquote = 62

abbrev pub symb_splicing : ℕ
symb_splicing = 63

pub chain-append :
    (xs : List Datum) (x end : Datum) → chain (xs ++ (x ∷ [])) end ≡ chain xs (pair x end)
chain-append [] x end = refl
chain-append (y ∷ ys) x end = ap (pair y) (chain-append ys x end)
