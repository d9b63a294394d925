-- ===== src/Tests/Lexing.antt =====
-- The lexer on ASCII texts.
use scheme2c.Prelude.{
  ℕ, zero, suc, ◌+◌, ◌-◌, ◌≡◌, Bool, true, false, ◌&&◌, ◌||◌, Option, none, some, List, [], ◌∷◌,
  ◌++◌, arith, leb, ltb, ◌==◌, if◌then◌else◌, get_or, get_elem?, refl, ap, map, inl, inr,
}
use scheme2c.Chars.{
  Icu, chrp_delim, chrp_bracket, chrp_open_bracket, chrp_close_bracket, chrp_whitespace,
}
use scheme2c.Lexer.Ascii.{Ascii}
use scheme2c.Tests.Procedures.{doubles}
use scheme2c.Chars.{chrp_initial, chrp_constituent, chrp_letter, chrp_digit, chr_to_esc}
use scheme2c.Lexer.State.{Unicode, OneUnit, Scanner, done, thrown, lex_stop}
use scheme2c.Lexer.Number.{Reals, lex_read_number}
use scheme2c.Lexer.Identifier.{Lex, skip_comment_nested}
use scheme2c.Lexer.Cursor.{cursor, stopped}
use scheme2c.Lexer.Begin.{AllWhite, space_is_white, facing}
use scheme2c.Lexer.Signs.{open_ro, close_ro}
use scheme2c.Lexer.Spelling.{Token, sign, name, integer, meaning, NameStart}
use scheme2c.Lexer.Decimal.{decimal_fixnum, sign_text, lex_read_number-decimal}
use scheme2c.Lexer.Names
use scheme2c.Lexer.Text.{
  print_chars, lex_read_string, lex_read_char, name_or_hex, find_name, char_names,
}
use scheme2c.Lexer.Literals.{AllPrintable, lex_read_string-bin_print_string}
use scheme2c.Lexer.CharNames.{lex_read_char-oport_print_char}
use scheme2c.Lexer.Comments.{Comment, plain, nested, comment_text}
use scheme2c.Lexer.Skipping.{quiet, skip_comment_nested-touching, pars_read_lexeme-comment}
use scheme2c.Lexer.Stream.{all_lexemes, spaced, lexeme, pars_read_datum-spaced}
use scheme2c.Lexer.{pars_read_lexeme, new_parser}
use scheme2c.Reader.Syntax.{Datum}
use scheme2c.Reader.State as Reading
use scheme2c.Reader.{pars_read_datum}

abbrev within : ℕ → ℕ → ℕ → Bool
within a b c = leb a c && leb c b

abbrev value_in : ℕ → ℕ → ℕ → ℕ → ℕ → Option ℕ
value_in lo hi from radix c =
    if within lo hi c && ltb (c - lo + from) radix then some (c - lo + from) else none

abbrev or_else : Option ℕ → Option ℕ → Option ℕ
or_else (some a) _ = some a
or_else none o = o

abbrev ascii : Icu
ascii = record {
  is_white_space = λ c. c == b' ';
  is_digit = within b'0' b'9';
  is_xdigit = λ c. within b'0' b'9' c || within b'a' b'f' c;
  is_print = within 0x20 0x7e;
  in_category = λ c k. false;
  digit = λ c radix.
      or_else (value_in b'0' b'9' 0 radix c)
        (or_else (value_in b'a' b'z' 10 radix c) (value_in b'A' b'Z' 10 radix c));
}

abbrev unicode : Unicode
unicode = record {
  icu = ascii;
  utf16 = λ c. c ∷ [];
  next_char = λ text i. (get_or text i 0, suc i);
  is_unicode_char = λ c. ltb c 0xd800;
}

abbrev reals : Reals
reals = record {
  double = doubles;
  of_ulong = λ w. w;
  pow = λ r e. 1;
  zero_real = 0;
  nan = 0;
  infinity = 0;
}

get_or-get_elem? : (xs : List ℕ) (i c : ℕ) → get_elem? xs i ≡ some c → get_or xs i 0 ≡ c
get_or-get_elem? [] i c h = absurd (cc)
get_or-get_elem? (x ∷ xs) zero c h = cc
get_or-get_elem? (x ∷ xs) (suc i) c h = get_or-get_elem? xs i c h

one_unit : OneUnit unicode
one_unit = record {
  writes = λ ch l. refl;
  reads = λ text i ch l h. ap (λ c. (c, suc i)) (get_or-get_elem? text i ch h);
}

delimiter : (c : ℕ) → chrp_delim ascii c ≡ true → ascii.digit c 10 ≡ none
unfolding chrp_delim chrp_bracket chrp_open_bracket chrp_close_bracket chrp_whitespace
delimiter c h = ground arith

laws : Ascii unicode
laws = record {
  one = one_unit;
  graphic = λ c l h. ground arith;
  blank = refl;
  digits = λ v l. ground arith;
  is_digits = λ v l. ground arith;
  no_digits = λ c l h k. ground arith;
  no_letters = λ c l h. ground arith;
  delimiters = delimiter;
}

closes : chrp_delim ascii b')' ≡ true
unfolding chrp_delim chrp_bracket chrp_open_bracket chrp_close_bracket
closes = refl

-- Hexadecimal notation is not needed for what is printed here.
abbrev hex : ℕ → List ℕ
hex n = []

start : Scanner
start = new_parser []

-- `(f -42)` and its datum.
abbrev tokens : List Token
tokens = sign open_ro ∷ name b'f' [] ∷ integer (some true) 4 (2 ∷ []) ∷ sign close_ro ∷ []

abbrev symbol_of : List ℕ → ℕ
symbol_of units = 30

abbrev atom_of : Lex → ℕ
atom_of l = 0

abbrev datum : Datum
datum =
    Datum.pair (Datum.ident 30)
      (Datum.pair (Datum.fixnum (decimal_fixnum (some true) (4 ∷ 2 ∷ []))) Datum.null)

name_start : NameStart unicode b'f'
unfolding chrp_initial chrp_constituent chrp_letter chrp_delim chrp_bracket chrp_open_bracket
    chrp_close_bracket chrp_whitespace chrp_digit
name_start = record {
  initial = record {
    initial = refl;
    no_delim = refl;
    one_unit = omega arith;
    no_plus = refl;
    no_minus = refl;
    no_point = refl;
  };
  no_digit = refl;
  no_quote = refl;
  no_quasi = refl;
  no_comma = refl;
}

pars_read_datum-spaced_example :
    (end : Scanner) × (all_lexemes unicode reals 20 9 (facing start (spaced unicode hex tokens))
      ≡ done (map meaning tokens) end)
    × (end.err_lex ≡ start.err_lex)
    × (pars_read_datum 100 (record {
      input = map (lexeme symbol_of atom_of) (map meaning tokens);
      err_lex = true;
      err_dat = true;
    })
        ≡ Reading.done datum (record { input = []; err_lex = false; err_dat = false }))
pars_read_datum-spaced_example =
    pars_read_datum-spaced unicode laws reals hex symbol_of atom_of false datum tokens 20 100 9
      start (record { input = []; err_lex = true; err_dat = true }) (tt, (tt, tt))
      (tt, ((name_start, tt), ((omega arith, (omega arith, tt)), (tt, tt)))) refl (omega arith)
      (omega arith) (omega arith)

abbrev two_spaces : List ℕ
two_spaces = 0x20 ∷ 0x20 ∷ []

spaces : AllWhite unicode two_spaces
spaces = (space_is_white unicode laws reals, (space_is_white unicode laws reals, tt))

-- The text `a"` with a line feed.
abbrev sample : List ℕ
sample = b'a' ∷ b'"' ∷ 0x0a ∷ []

sample_printable : AllPrintable ascii.is_print sample
unfolding chr_to_esc
sample_printable = (
  (inr (refl, refl), omega arith),
  ((inl (b'"', refl), omega arith), ((inl (b'n', refl), omega arith), tt)),
)

lex_read_string-bin_print_string_example :
    lex_read_string unicode 20 (
      cursor start
        (some b'"')
        []
        (b'"' ∷ [])
        (print_chars ascii.is_print hex sample ++ (b'"' ∷ b')' ∷ [])))
    ≡ done (Lex.string sample) (
        stopped start
          (((b'"' ∷ []) ++ print_chars ascii.is_print hex sample) ++ (b'"' ∷ []))
          (b')' ∷ []))
lex_read_string-bin_print_string_example =
    lex_read_string-bin_print_string unicode laws ascii.is_print hex sample (b')' ∷ [])
      sample_printable (omega arith) 20 (omega arith) start b'"'

lex_read_char-oport_print_char_example :
    lex_read_char unicode 20 (
      cursor start none []
        (b'#' ∷ 0x5c ∷ [])
        (name_or_hex ascii.is_print hex 0x0a (find_name 0x0a char_names) ++ (b')' ∷ [])))
    ≡ done (Lex.char (some 0x0a)) (
        stopped start
          ((b'#' ∷ 0x5c ∷ []) ++ name_or_hex ascii.is_print hex 0x0a (find_name 0x0a char_names))
          (b')' ∷ []))
lex_read_char-oport_print_char_example =
    lex_read_char-oport_print_char unicode laws ascii.is_print hex 0x0a (b')' ∷ [])
      (inl (Names.newline, refl)) (closes, omega arith) 20 start none

lex_read_number-decimal_example :
    lex_read_number unicode reals 20
      (cursor start none [] (sign_text (some true) ++ (b'4' ∷ [])) (b'2' ∷ b')' ∷ []))
    ≡ done
        (Lex.fixnum (decimal_fixnum (some true) (4 ∷ 2 ∷ [])))
        (stopped (record start { charcount = 2 }) (b'-' ∷ b'4' ∷ b'2' ∷ []) (b')' ∷ []))
lex_read_number-decimal_example =
    lex_read_number-decimal unicode laws reals (some true) 4 (2 ∷ []) (b')' ∷ [])
      (omega arith, (omega arith, tt)) (closes, omega arith) 20 (omega arith) start none

-- `a#|b|#c`
abbrev remark : Comment
remark = plain b'a' (nested (plain b'b' Comment.end) (plain b'c' Comment.end))

pars_read_lexeme-comment_example :
    (b' : Scanner) × (pars_read_lexeme unicode reals 20 3 (
        facing start
          (two_spaces ++ (b'#' ∷ b'|' ∷ (comment_text remark ++ (b'|' ∷ b'#' ∷ b'x' ∷ [])))))
      ≡ pars_read_lexeme unicode reals 20 2 (facing b' (b'x' ∷ [])))
    × (b'.err_lex ≡ start.err_lex)
pars_read_lexeme-comment_example =
    pars_read_lexeme-comment unicode laws reals two_spaces remark (b'x' ∷ []) 20 2 start spaces
      (refl, refl, (refl, refl, (refl, refl, tt), (refl, refl, tt))) (omega arith) (omega arith)

skip_comment_nested-touching_example :
    skip_comment_nested unicode 20 (
      facing (quiet unicode start) (
        b'|'
        ∷ b'#'
        ∷ b'|'
        ∷ (comment_text (plain b'a' Comment.end) ++ (b'|' ∷ b'#' ∷ b'|' ∷ b'#' ∷ b'x' ∷ []))))
    ≡ thrown lex_stop (record (facing (quiet unicode start) []) { err_lex = true })
skip_comment_nested-touching_example =
    skip_comment_nested-touching unicode (plain b'a' Comment.end) (b'x' ∷ []) (refl, refl, tt) refl
      (refl, refl, tt) 20 start (omega arith)
