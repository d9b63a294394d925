-- ===== src/Reader/State.antt =====
-- The parser's state and the commands of the reader.
use scheme2c.Prelude.{ℕ, Bool, true, ◌||◌, Option, none, some, List, [], ◌∷◌, ◌==◌, if◌then◌else◌}
use scheme2c.Reader.Syntax.{Lexeme, lex_stop, bad_lex, Datum, null}

-- The lexemes still to come, and the error bits of `ParserDatum`.
pub record Parser : Type 0 where
  pub input : List Lexeme
  pub err_lex : Bool
  pub err_dat : Bool

-- `thrown` is an exception with its code.
pub data Outcome {ℓ} (A : Type ℓ) : Type ℓ where
  done : A → Parser → Outcome A
  thrown : ℕ → Parser → Outcome A
  out_of_fuel : Outcome A

abbrev pub Read {ℓ} : Type ℓ → Type ℓ
Read A = Parser → Outcome A

module _ {ℓ} {A : Type ℓ} where
  abbrev pub pure : A → Read A
  pure a s = done a s

  abbrev pub and_then {κ} : {B : Type κ} → Outcome A → (A → Read B) → Outcome B
  and_then (done a s) k = k a s
  and_then (thrown e s) k = thrown e s
  and_then out_of_fuel k = out_of_fuel

  infixl 5 ◌>>=◌ ◌>>◌
  abbrev pub ◌>>=◌ {κ} : {B : Type κ} → Read A → (A → Read B) → Read B
  (m >>= k) s = and_then (m s) k

  abbrev pub ◌>>◌ {κ} : {B : Type κ} → Read A → Read B → Read B
  (m >> n) s = and_then (m s) (λ _. n)

abbrev pub parse_lex_stop : ℕ
parse_lex_stop = 950

abbrev pub parse_dat : ℕ
parse_dat = 952

abbrev pub parse_dat_stop : ℕ
parse_dat_stop = 953

-- `lex_error_u` with an exception of the reader: the bit is set, then it throws.
abbrev pub lex_error {ℓ} : {A : Type ℓ} → ℕ → Read A
lex_error code s = thrown code (record s { err_dat = true })

-- With PARS_DAT_ERROR, which is negative, it only sets the bit.
abbrev pub dat_error : Read (Unit {0})
dat_error s = done tt (record s { err_dat = true })

-- `pars_next_lex`: `none` at the end of the input. Behind a bad lexeme, whose exception sets the error
-- bit, it tries again.
abbrev pub read_lex : List Lexeme → Parser → Outcome (Option Lexeme)
read_lex [] s = done none s
read_lex (lex_stop ∷ ls) s = thrown parse_lex_stop (record s { input = ls; err_lex = true })
read_lex (bad_lex ∷ ls) s = read_lex ls (record s { input = ls; err_lex = true })
read_lex (l ∷ ls) s = done (some l) (record s { input = ls })

unfoldable pub next_lex : Read (Option Lexeme)
next_lex s = read_lex s.input s

-- The exceptions that `pars_read_datum` catches.
abbrev pub is_caught : ℕ → Bool
is_caught e = e == parse_dat_stop || e == parse_dat || e == parse_lex_stop

abbrev pub caught : Outcome Datum → Outcome Datum
caught (done d s) = done d s
caught (thrown e s) = if is_caught e then done null s else thrown e s
caught out_of_fuel = out_of_fuel
