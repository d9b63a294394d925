-- ===== src/Tests/Reading.antt =====
-- The reader at `(7 (x . #t) #vu8(1 2))` and at malformed data.
use scheme2c.Prelude.{◌≡◌, true, false, List, [], ◌∷◌, arith}
use scheme2c.Reader.Syntax.{Datum, Lexeme, null, close_ro, ident}
use scheme2c.Reader.State.{Parser, done}
use scheme2c.Reader.Print.{print, opening, closing}
use scheme2c.Reader.{pars_read_datum}
use scheme2c.Reader.Fuel.{pars_read_datum_total}
use scheme2c.Reader.RoundTrip.{pars_read_datum-print}
use scheme2c.Reader.Errors.{malformed_lists, comments_in_list}

abbrev sample : Datum
sample = Datum.pair (Datum.fixnum 7) (
    Datum.pair (Datum.pair (Datum.ident 30) (Datum.special 2))
      (Datum.pair (Datum.bytes (1 ∷ 2 ∷ [])) null))

abbrev rest : List Lexeme
rest = close_ro ∷ ident 5 ∷ []

-- A parser behind an earlier error.
abbrev parser : List Lexeme → Parser
parser ls = record { input = ls; err_lex = true; err_dat = true }

pars_read_datum-print_example :
    pars_read_datum 100 (parser (print false sample rest))
    ≡ done sample (record { input = rest; err_lex = false; err_dat = false })
pars_read_datum-print_example =
    pars_read_datum-print false sample rest 100 (parser [])
      (tt, ((tt, omega arith), ((omega arith, (omega arith, tt)), tt))) (omega arith)

pars_read_datum_total_example :
    (d : Datum) × (t : Parser) × (pars_read_datum 100 (parser (print true sample rest)) ≡ done d t)
pars_read_datum_total_example =
    pars_read_datum_total 100 (parser (print true sample rest)) (omega arith)

malformed_lists_example :
    (pars_read_datum 20
        (parser (opening false ∷ print false (Datum.fixnum 7) (closing true ∷ rest)))
      ≡ done null (record { input = rest; err_lex = false; err_dat = true }))
    × (pars_read_datum 20 (parser (opening false ∷ print false (Datum.fixnum 7) []))
        ≡ done null (record { input = []; err_lex = false; err_dat = true }))
malformed_lists_example =
    malformed_lists false (Datum.fixnum 7) rest 20 (parser []) tt (omega arith) (omega arith)

comments_in_list_example :
    (pars_read_datum 60 (
        parser
          (opening false ∷ Lexeme.comment ∷ print false (Datum.fixnum 7) (closing false ∷ rest)))
      ≡ done (Datum.special 0) (record { input = rest; err_lex = false; err_dat = false }))
    × (pars_read_datum 60 (
          parser (
            opening false
            ∷ Lexeme.comment
            ∷ print false
                (Datum.fixnum 7)
                (Lexeme.comment ∷ print false (Datum.fixnum 8) (closing false ∷ rest))))
        ≡ done null (record { input = rest; err_lex = false; err_dat = true }))
comments_in_list_example =
    comments_in_list false (Datum.fixnum 7) (Datum.fixnum 8) rest 60 (parser []) tt tt (omega arith)
      (omega arith)
