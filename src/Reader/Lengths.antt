-- ===== src/Reader/Lengths.antt =====
-- A printed datum has a lexeme at least, behind which the lexemes that follow stand.
use scheme2c.Prelude.{ℕ, zero, suc, ◌≤◌, ◌<◌, Bool, List, [], ◌∷◌, arith, length}
use scheme2c.Reader.Syntax.{
  Datum, null, pair, vector, bytes, Lexeme, close_ro, special, fixnum, atom, ident,
}
use scheme2c.Reader.Print.{print, print_rest, fixnums, closing, Printable, PrintableRest}

pub length-fixnums : (bs : List ℕ) (ls : List Lexeme) → length ls ≤ length (fixnums bs ls)
length-fixnums [] ls = omega arith
length-fixnums (b ∷ bs) ls = let ih = length-fixnums bs ls in omega arith

module _ (square : Bool) where
  mutual
    pub length-print :
        (d : Datum) (ls : List Lexeme) → Printable d → length ls < length (print square d ls)
    length-print null ls p = elim p [ ]
    length-print (special zero) ls p = omega arith
    length-print (special (suc n)) ls p = omega arith
    length-print (fixnum n) ls p = omega arith
    length-print (atom n) ls p = omega arith
    length-print (ident n) ls p = omega arith
    length-print (pair a d) ls p =
        let rest = length-print_rest d (closing square ∷ ls) p.1 in
        let first = length-print a (print_rest square d (closing square ∷ ls)) p.0 in omega arith
    length-print (vector items) ls p =
        let rest = length-print_rest items (close_ro ∷ ls) p.1 in omega arith
    length-print (bytes bs) ls p = let rest = length-fixnums bs (close_ro ∷ ls) in omega arith

    pub length-print_rest :
        (d : Datum) (ls : List Lexeme)
        → PrintableRest d
        → length ls ≤ length (print_rest square d ls)
    length-print_rest null ls p = omega arith
    length-print_rest (special zero) ls p = omega arith
    length-print_rest (special (suc n)) ls p = omega arith
    length-print_rest (fixnum n) ls p = omega arith
    length-print_rest (atom n) ls p = omega arith
    length-print_rest (ident n) ls p = omega arith
    length-print_rest (pair a d) ls p =
        let rest = length-print_rest d ls p.1 in
        let first = length-print a (print_rest square d ls) p.0 in omega arith
    length-print_rest (vector items) ls p =
        let rest = length-print_rest items (close_ro ∷ ls) p.1 in omega arith
    length-print_rest (bytes bs) ls p = let rest = length-fixnums bs (close_ro ∷ ls) in omega arith
