-- ===== src/Reader/Errors.antt =====
-- How the reader ends on malformed data, and what it makes of comments.
use scheme2c.Prelude.{
  ℕ, zero, suc, ◌+◌, ◌-◌, ◌*◌, ◌≤◌, ◌≡◌, refl, ap, ◌∙◌, Bool, true, false, not, List, [], ◌∷◌,
  arith, length,
}
use mathlib.Core.Path.{subst}
use scheme2c.Reader.Syntax.{Datum, null, Lexeme, comment}
use scheme2c.Reader.State.{Parser, done, thrown, next_lex, caught, parse_dat, parse_dat_stop}
use scheme2c.Reader.Print.{print, opening, closing, Printable}
use scheme2c.Reader.RoundTrip.{read_datum-print_at}
use scheme2c.Reader.Turns.{kind, turn}
use scheme2c.Reader.Lengths.{length-print}
use scheme2c.Reader.{finish, is_null, read_datum, read_compound, close, pars_read_datum}

module _ (el ed : Bool) where
  abbrev at_input : List Lexeme → Parser
  at_input ls = record { input = ls; err_lex = el; err_dat = ed }

-- A closing bracket of the other kind, or the end of the input.
wrong_closer :
    (b el ed : Bool) (f : ℕ) (items : List Datum) (ls : List Lexeme)
    → (read_compound
          (suc (suc f))
          (kind b el ed b).sort
          items
          (at_input el ed (closing (not b) ∷ ls))
        ≡ thrown parse_dat (at_input el true ls))
      × (read_compound (suc (suc f)) (kind b el ed b).sort items (at_input el ed [])
          ≡ thrown parse_dat_stop (at_input el true []))
unfolding read_datum next_lex kind close
wrong_closer true el ed f items ls = (refl, refl)
wrong_closer false el ed f items ls = (refl, refl)

abbrev Rejects : (square : Bool) (d : Datum) (ls : List Lexeme) (f : ℕ) → Parser → Type 0
Rejects square d ls f s =
    (pars_read_datum f
        (record s { input = opening square ∷ print square d (closing (not square) ∷ ls) })
      ≡ done null (at_input false true ls))
    × (pars_read_datum f (record s { input = opening square ∷ print square d [] })
        ≡ done null (at_input false true []))

rejected :
    (square : Bool) (d : Datum) (ls : List Lexeme) (f : ℕ) (s : Parser)
    → Printable d
    → 4 * length (print square d (closing (not square) ∷ ls)) ≤ 4 + f
    → 4 * length (print square d []) ≤ 4 + f
    → Rejects square d ls (suc (suc (suc (suc (suc (suc f)))))) s
unfolding pars_read_datum
rejected square d ls f s p long short =
    let k = kind square false false square in
    let read : (l : List Lexeme)
        → 4 * length (print square d l) ≤ 4 + f
        → read_datum (suc (suc (suc (suc (suc (suc f))))))
            (at_input false false (opening square ∷ print square d l))
          ≡ read_compound (suc (suc f)) k.sort (d ∷ []) (at_input false false l) =
      λ l b.
        k.opens (suc (suc (suc (suc f)))) (print square d l)
        ∙ turn square false false d (suc (suc f)) k.sort [] l p
            (read_datum-print_at square false false d (suc (suc (suc f))) l p (omega arith)) in
    let ends = wrong_closer square false false f (d ∷ []) in
    (
      ap caught (read (closing (not square) ∷ ls) long ∙ (ends ls).0),
      ap caught (read [] short ∙ (ends ls).1),
    )

-- The brackets of a list with one item, a printed datum, must be of the same kind. With a closing
-- bracket of the other kind behind the item, and at the end of the input there, `pars_read_datum`
-- gives a null pointer and sets the datum error bit and no lexeme error bit; what follows a wrong
-- bracket is left to read. Fuel of four times the number of lexemes, and two more, is enough.
pub malformed_lists :
    (square : Bool) (d : Datum) (ls : List Lexeme) (f : ℕ) (s : Parser)
    → Printable d
    → 4 * length (print square d (closing (not square) ∷ ls)) + 2 ≤ f
    → 4 * length (print square d []) + 2 ≤ f
    → (pars_read_datum f
          (record s { input = opening square ∷ print square d (closing (not square) ∷ ls) })
        ≡ done null (record { input = ls; err_lex = false; err_dat = true }))
      × (pars_read_datum f (record s { input = opening square ∷ print square d [] })
          ≡ done null (record { input = []; err_lex = false; err_dat = true }))
malformed_lists square d ls f s p long short =
    let l = length-print square d [] p in
    let e : suc (suc (suc (suc (suc (suc (f - 6)))))) ≡ f = omega arith in
    subst (λ g. Rejects square d ls g s) e
      (rejected square d ls (f - 6) s p (omega arith) (omega arith))

is_null-Printable : (d : Datum) → Printable d → is_null d ≡ false
is_null-Printable d p = ground arith

read_datum-comment :
    (c : Datum) (f : ℕ) (el ed : Bool) (from to : List Lexeme)
    → Printable c
    → read_datum f (at_input el ed from) ≡ done c (at_input el ed to)
    → read_datum (suc (suc f)) (at_input el ed (comment ∷ from)) ≡ read_datum f (at_input el ed to)
unfolding read_datum next_lex
read_datum-comment c f el ed from to p e = rw (e, is_null-Printable c p)

-- A comment `#;` and the printed datum behind it are skipped: in front of a printed datum the reader
-- gives that datum, as if they were not there.
pub commented :
    (square : Bool) (c d : Datum) (ls : List Lexeme) (f : ℕ) (s : Parser)
    → Printable c
    → Printable d
    → 4 * length (print square c (print square d ls)) + 2 ≤ f
    → pars_read_datum f (record s { input = comment ∷ print square c (print square d ls) })
      ≡ done d (record { input = ls; err_lex = false; err_dat = false })
unfolding pars_read_datum
commented square c d ls zero s p q le =
    let l = length-print square c (print square d ls) p in let z : ⊥ = omega arith in elim z [ ]
commented square c d ls (suc zero) s p q le =
    let l = length-print square c (print square d ls) p in let z : ⊥ = omega arith in elim z [ ]
commented square c d ls (suc (suc f)) s p q le =
    let l = length-print square c (print square d ls) p in
    let skipped = read_datum-print_at square false false c f (print square d ls) p (omega arith) in
    let datum = read_datum-print_at square false false d f ls q (omega arith) in
    ap caught (
      read_datum-comment c f false false (print square c (print square d ls)) (print square d ls) p
        skipped
      ∙ datum)

one_comment :
    (b el ed : Bool) (c : Datum) (f : ℕ) (from ls : List Lexeme)
    → read_datum (suc f) (at_input el ed from) ≡ done c (at_input el ed (closing b ∷ ls))
    → read_datum (suc (suc (suc (suc f)))) (at_input el ed (opening b ∷ comment ∷ from))
      ≡ done (Datum.special 0) (at_input el ed ls)
unfolding read_datum next_lex close finish
one_comment true el ed c f from ls e = cc
one_comment false el ed c f from ls e = cc

two_comments :
    (b el ed : Bool) (c d : Datum) (f : ℕ) (from mid ls : List Lexeme)
    → Printable d
    → read_datum (suc (suc (suc (suc f)))) (at_input el ed from)
      ≡ done c (at_input el ed (comment ∷ mid))
    → read_datum (suc (suc f)) (at_input el ed mid) ≡ done d (at_input el ed (closing b ∷ ls))
    → read_datum
        (suc (suc (suc (suc (suc (suc (suc f)))))))
        (at_input el ed (opening b ∷ comment ∷ from))
      ≡ thrown parse_dat_stop (at_input el true ls)
unfolding read_datum next_lex
two_comments true el ed c d f from mid ls q e g = rw (e, g, is_null-Printable d q)
two_comments false el ed c d f from mid ls q e g = rw (e, g, is_null-Printable d q)

abbrev Comments : (square : Bool) (c d : Datum) (ls : List Lexeme) (f : ℕ) → Parser → Type 0
Comments square c d ls f s =
    (pars_read_datum f
        (record s { input = opening square ∷ comment ∷ print square c (closing square ∷ ls) })
      ≡ done (Datum.special 0) (at_input false false ls))
    × (pars_read_datum f (record s {
      input =
          opening square
          ∷ comment
          ∷ print square c (comment ∷ print square d (closing square ∷ ls));
    })
        ≡ done null (at_input false true ls))

read-Comments :
    (square : Bool) (c d : Datum) (ls : List Lexeme) (f : ℕ) (s : Parser)
    → Printable c
    → Printable d
    → 4 * length (print square c (comment ∷ print square d (closing square ∷ ls))) ≤ 5 + f
    → 4 * length (print square c (closing square ∷ ls)) ≤ 5 + f
    → Comments square c d ls (suc (suc (suc (suc (suc (suc (suc f))))))) s
unfolding pars_read_datum
read-Comments square c d ls f s p q long short =
    let mid = print square d (closing square ∷ ls) in
    let lc = length-print square c (comment ∷ mid) p in
    let one =
      read_datum-print_at square false false c (suc (suc (suc (suc f)))) (closing square ∷ ls) p
        (omega arith) in
    let two =
      read_datum-print_at square false false c (suc (suc (suc (suc f)))) (comment ∷ mid) p
        (omega arith) in
    let inner =
      read_datum-print_at square false false d (suc (suc f)) (closing square ∷ ls) q
        (omega arith) in
    (
      ap caught (
          one_comment square false false c (suc (suc (suc f)))
            (print square c (closing square ∷ ls)) ls one),
      ap caught (
          two_comments square false false c d f (print square c (comment ∷ mid)) mid ls q two
            inner),
    )

-- In a list that has no items behind the comments, the reader skips one `#;` comment and gives the
-- empty list, but it rejects two of them in succession: it gives a null pointer and sets the datum
-- error bit. The printed data behind `#;` are `c` and `d`.
pub comments_in_list :
    (square : Bool) (c d : Datum) (ls : List Lexeme) (f : ℕ) (s : Parser)
    → Printable c
    → Printable d
    → 4 * length (print square c (comment ∷ print square d (closing square ∷ ls))) + 4 ≤ f
    → 4 * length (print square c (closing square ∷ ls)) + 4 ≤ f
    → (pars_read_datum f
          (record s { input = opening square ∷ comment ∷ print square c (closing square ∷ ls) })
        ≡ done (Datum.special 0) (record { input = ls; err_lex = false; err_dat = false }))
      × (pars_read_datum f (record s {
        input =
            opening square
            ∷ comment
            ∷ print square c (comment ∷ print square d (closing square ∷ ls));
      })
          ≡ done null (record { input = ls; err_lex = false; err_dat = true }))
comments_in_list square c d ls f s p q long short =
    let lc = length-print square c (comment ∷ print square d (closing square ∷ ls)) p in
    let ld = length-print square d (closing square ∷ ls) q in
    let e : suc (suc (suc (suc (suc (suc (suc (f - 7))))))) ≡ f = omega arith in
    subst (λ g. Comments square c d ls g s) e
      (read-Comments square c d ls (f - 7) s p q (omega arith) (omega arith))
