-- ===== src/Reader/Print.antt =====
-- Data as lexemes: an independent description of what the reader accepts.
use scheme2c.Prelude.{◌≤◌, ℕ, zero, suc, ◌<◌, ◌≡◌, Bool, true, false, List, [], ◌∷◌, if◌then◌else◌}
use scheme2c.Reader.Syntax.{
  Datum, null, pair, vector, bytes, Lexeme, open_ro, close_ro, open_sq, close_sq, open_vec, open_vu,
  point, special, fixnum, atom, ident,
}

-- The lexemes of some bytes in front of others.
abbrev pub fixnums : List ℕ → List Lexeme → List Lexeme
fixnums [] ls = ls
fixnums (b ∷ bs) ls = fixnum b ∷ fixnums bs ls

abbrev pub opening : Bool → Lexeme
opening square = if square then open_sq else open_ro

abbrev pub closing : Bool → Lexeme
closing square = if square then close_sq else close_ro

-- The lexemes of a datum in front of others, with every list in square brackets if `square` says so,
-- else in round ones.
module _ (square : Bool) where
  abbrev mutual
    pub print : Datum → List Lexeme → List Lexeme
    print null ls = ls
    print (special zero) ls = opening square ∷ closing square ∷ ls
    print (special (suc n)) ls = special (suc n) ∷ ls
    print (fixnum w) ls = fixnum w ∷ ls
    print (atom a) ls = atom a ∷ ls
    print (ident n) ls = ident n ∷ ls
    print (pair a d) ls = opening square ∷ print a (print_rest d (closing square ∷ ls))
    print (vector items) ls = open_vec ∷ print_rest items (close_ro ∷ ls)
    print (bytes bs) ls = open_vu ∷ fixnums bs (close_ro ∷ ls)

    -- What follows in a list: the further items, or a point and the value behind the last.
    pub print_rest : Datum → List Lexeme → List Lexeme
    print_rest null ls = ls
    print_rest (pair a d) ls = print a (print_rest d ls)
    print_rest (special zero) ls = point ∷ opening square ∷ closing square ∷ ls
    print_rest (special (suc n)) ls = point ∷ special (suc n) ∷ ls
    print_rest (fixnum w) ls = point ∷ fixnum w ∷ ls
    print_rest (atom a) ls = point ∷ atom a ∷ ls
    print_rest (ident n) ls = point ∷ ident n ∷ ls
    print_rest (vector items) ls = point ∷ open_vec ∷ print_rest items (close_ro ∷ ls)
    print_rest (bytes bs) ls = point ∷ open_vu ∷ fixnums bs (close_ro ∷ ls)

-- Bytes are below 256.
abbrev pub Bytes : List ℕ → Type 0
Bytes [] = Unit {0}
Bytes (b ∷ bs) = (b < 256) × Bytes bs

-- A chain of items up to a null pointer.
abbrev pub proper : Datum → Bool
proper null = true
proper (pair _ d) = proper d
proper _ = false

-- Data with a printed form: no null pointer but behind the last item of a list or a vector, whose
-- items end there, and no special values but the empty list and those that the reader accepts.
abbrev mutual
  pub Printable : Datum → Type 0
  Printable null = ⊥
  Printable (pair a d) = Printable a × PrintableRest d
  Printable (vector items) = (proper items ≡ true) × PrintableRest items
  Printable (bytes bs) = Bytes bs
  Printable (special n) = n ≤ 5
  Printable (fixnum n) = Unit {0}
  Printable (atom n) = Unit {0}
  Printable (ident n) = Unit {0}

  pub PrintableRest : Datum → Type 0
  PrintableRest null = Unit {0}
  PrintableRest (pair a d) = Printable a × PrintableRest d
  PrintableRest (vector items) = (proper items ≡ true) × PrintableRest items
  PrintableRest (bytes bs) = Bytes bs
  PrintableRest (special n) = n ≤ 5
  PrintableRest (fixnum n) = Unit {0}
  PrintableRest (atom n) = Unit {0}
  PrintableRest (ident n) = Unit {0}
