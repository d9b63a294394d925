-- ===== src/Reader/Sorts.antt =====
-- The sorts of compounds that a printed datum is read as, and what they make of the items.
use scheme2c.Prelude.{◌≡◌, refl, ap, true, List, [], ◌∷◌, ◌++◌}
use scheme2c.Reader.Syntax.{Datum, pair, vector, chain, chain-append, Lexeme, close_ro, close_sq}
use scheme2c.Reader.Print.{proper}
use scheme2c.Reader.{Sort, list_round, list_square, vec, vu8, nonempty}

-- The value of a list of the kind `sort` with items read before its rest.
abbrev pub whole : Sort → List Datum → Datum → Datum
whole vec items d = vector (chain items d)
whole _ items d = chain items d

-- A list has an item before its rest, and a vector no end but a null pointer.
abbrev pub Ready : Sort → List Datum → Datum → Type 0
Ready vec items d = proper d ≡ true
Ready vu8 items d = ⊥
Ready list_round items d = nonempty items ≡ true
Ready list_square items d = nonempty items ≡ true

abbrev pub closer : Sort → Lexeme
closer list_square = close_sq
closer _ = close_ro

nonempty-append : (items : List Datum) (d : Datum) → nonempty (items ++ (d ∷ [])) ≡ true
nonempty-append [] d = refl
nonempty-append (x ∷ xs) d = refl

pub Ready-step :
    (sort : Sort) (items : List Datum) (a d : Datum)
    → Ready sort items (pair a d)
    → Ready sort (items ++ (a ∷ [])) d
Ready-step vec items a d r = r
Ready-step vu8 items a d r = elim r [ ]
Ready-step list_round items a d r = nonempty-append items a
Ready-step list_square items a d r = nonempty-append items a

pub whole-step :
    (sort : Sort) (items : List Datum) (a d : Datum)
    → whole sort (items ++ (a ∷ [])) d ≡ whole sort items (pair a d)
whole-step vec items a d = ap vector (chain-append items a d)
whole-step vu8 items a d = chain-append items a d
whole-step list_round items a d = chain-append items a d
whole-step list_square items a d = chain-append items a d
