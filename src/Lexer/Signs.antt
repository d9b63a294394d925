-- ===== src/Lexer/Signs.antt =====
-- Brackets, quotations and the other signs that are lexemes.
use scheme2c.Prelude.{ℕ, ◌<◌, ◌≡◌, refl, true, false, some, List, [], ◌∷◌, ◌++◌, arith}
use scheme2c.Chars.{chrp_whitespace, chrp_digit, chrp_num_afterhash, chrp_num_precmarker}
use scheme2c.Lexer.State.{Unicode, Scanner, Scan, done, pure, ◌>>◌, readch, readch_precise_asci}
use scheme2c.Lexer.Identifier.{Lex}
use scheme2c.Lexer.Symb
use scheme2c.Lexer.Number.{Reals}
use scheme2c.Lexer.Cursor.{cursor}
use scheme2c.Lexer.Ascii.{Ascii, Ends, Ends-eofdelim, Ends-is_char}
use scheme2c.Lexer.Begin.{Reads, readch-facing}
use scheme2c.Lexer.{lexeme_at, lexeme_other, hash_lexeme}

pub data Sign : Type 0 where
  open_ro close_ro open_sq close_sq open_vec open_vu point quote quasi unquote splicing comment
        truth falsity :
      Sign

-- How a sign is written: its first character, and the rest.
abbrev pub first : Sign → ℕ
first open_ro = b'('
first close_ro = b')'
first open_sq = b'['
first close_sq = b']'
first open_vec = b'#'
first open_vu = b'#'
first point = b'.'
first quote = b'\''
first quasi = b'`'
first unquote = b','
first splicing = b','
first comment = b'#'
first truth = b'#'
first falsity = b'#'

abbrev pub others : Sign → List ℕ
others open_vec = b'(' ∷ []
others open_vu = b'v' ∷ b'u' ∷ b'8' ∷ b'(' ∷ []
others splicing = b'@' ∷ []
others comment = b';' ∷ []
others truth = b't' ∷ []
others falsity = b'f' ∷ []
others _ = []

abbrev pub symbol : Sign → Lex
symbol open_ro = Symb.open_ro
symbol close_ro = Symb.close_ro
symbol open_sq = Symb.open_sq
symbol close_sq = Symb.close_sq
symbol open_vec = Symb.open_vec
symbol open_vu = Symb.open_vu
symbol point = Symb.point
symbol quote = Symb.quote
symbol quasi = Symb.quasi
symbol unquote = Symb.unquote
symbol splicing = Symb.splicing
symbol comment = Symb.comment
symbol truth = Symb.truth
symbol falsity = Symb.falsity

module _ (u : Unicode) (a : Ascii u) (reals : Reals) where
  pub no_digit_below : (c : ℕ) → 0x20 < c → c < b'0' → chrp_digit u.icu c ≡ false
  unfolding chrp_digit
  no_digit_below c l h = a.no_digits c l (omega arith) h

  pub no_digit_above : (c : ℕ) → b'9' < c → c < 0x7f → chrp_digit u.icu c ≡ false
  unfolding chrp_digit
  no_digit_above c l h = a.no_letters c l h

  pub no_white : (c : ℕ) → 0x20 < c → c < 0x7f → chrp_whitespace u.icu c ≡ false
  unfolding chrp_whitespace
  no_white c l h = ground (arith, a.graphic c l h)

  module _ (f : ℕ) (start : Scan Lex) (b : Scanner) (rest : List ℕ) (ends : Ends u rest) where
    -- The state behind the first character of a sign.
    abbrev begun : Sign → Scanner
    begun s = cursor b (some (first s)) [] (first s ∷ []) (others s ++ rest)

    -- One more read ends a sign.
    last_read :
        (l : Lex) (c : ℕ) (b' : Scanner)
        → Reads ((readch u >> pure l) (record b' { charcur = some c; port = rest })) l b' rest
    last_read l c b' = let r = readch-facing u rest b' c in rw r.1 (r.0, refl, r.2)

    -- Behind the characters `c` and `d`.
    abbrev second : (c d : ℕ) → Scanner
    second c d = record b { buflex = c ∷ u.utf16 d; ixpref = 0; bufread = true; lexprefix = true }

    second_read :
        (c d : ℕ) (port : List ℕ)
        → readch u (cursor b (some c) [] (c ∷ []) (d ∷ port))
          ≡ done (some d) (record (second c d) { charcur = some d; port = port })
    unfolding readch
    second_read c d port = refl

    abbrev behind_vu8 : Scanner
    behind_vu8 = record (second b'#' b'v') {
      buflex = (((b'#' ∷ u.utf16 b'v') ++ u.utf16 b'u') ++ u.utf16 b'8') ++ u.utf16 b'(';
    }

    vu8_read :
        readch_precise_asci u
          (b'u' ∷ b'8' ∷ b'(' ∷ [])
          (record (second b'#' b'v') { charcur = some b'v'; port = b'u' ∷ b'8' ∷ b'(' ∷ rest })
        ≡ done true (record behind_vu8 { charcur = some b'('; port = rest })
    unfolding readch_precise_asci readch
    vu8_read = refl

    pub lexeme_at-sign :
        (s : Sign) → Reads (lexeme_at u reals f start (first s) (begun s)) (symbol s) b rest
    unfolding lexeme_at lexeme_other hash_lexeme chrp_num_afterhash chrp_num_precmarker
    lexeme_at-sign open_ro =
        rw (no_digit_below b'(' (omega arith) (omega arith))
          (last_read Symb.open_ro b'(' (begun open_ro))
    lexeme_at-sign close_ro =
        rw (no_digit_below b')' (omega arith) (omega arith))
          (last_read Symb.close_ro b')' (begun close_ro))
    lexeme_at-sign open_sq =
        rw (no_digit_above b'[' (omega arith) (omega arith))
          (last_read Symb.open_sq b'[' (begun open_sq))
    lexeme_at-sign close_sq =
        rw (no_digit_above b']' (omega arith) (omega arith))
          (last_read Symb.close_sq b']' (begun close_sq))
    lexeme_at-sign quote =
        rw (no_digit_below b'\'' (omega arith) (omega arith))
          (last_read Symb.quote b'\'' (begun quote))
    lexeme_at-sign quasi =
        rw (no_digit_above b'`' (omega arith) (omega arith))
          (last_read Symb.quasi b'`' (begun quasi))
    lexeme_at-sign unquote =
        let r = readch-facing u rest (begun unquote) b',' in
        rw
          (
            no_digit_below b',' (omega arith) (omega arith),
            r.1,
            Ends-is_char a rest b'@' ends (omega arith) (omega arith) refl,
          )
          (r.0, refl, r.2)
    lexeme_at-sign point =
        let r = readch-facing u rest (begun point) b'.' in
        rw (no_digit_below b'.' (omega arith) (omega arith), r.1, Ends-eofdelim u rest ends)
          (r.0, refl, r.2)
    lexeme_at-sign splicing =
        rw (no_digit_below b',' (omega arith) (omega arith), second_read b',' b'@' rest)
          (last_read Symb.splicing b'@' (second b',' b'@'))
    lexeme_at-sign open_vec =
        rw
          (
            no_digit_below b'#' (omega arith) (omega arith),
            second_read b'#' b'(' rest,
            no_white b'(' (omega arith) (omega arith),
          )
          (last_read Symb.open_vec b'(' (second b'#' b'('))
    lexeme_at-sign comment =
        rw
          (
            no_digit_below b'#' (omega arith) (omega arith),
            second_read b'#' b';' rest,
            no_white b';' (omega arith) (omega arith),
          )
          (last_read Symb.comment b';' (second b'#' b';'))
    lexeme_at-sign truth =
        rw
          (
            no_digit_below b'#' (omega arith) (omega arith),
            second_read b'#' b't' rest,
            no_white b't' (omega arith) (omega arith),
          )
          (last_read Symb.truth b't' (second b'#' b't'))
    lexeme_at-sign falsity =
        rw
          (
            no_digit_below b'#' (omega arith) (omega arith),
            second_read b'#' b'f' rest,
            no_white b'f' (omega arith) (omega arith),
          )
          (last_read Symb.falsity b'f' (second b'#' b'f'))
    lexeme_at-sign open_vu =
        rw
          (
            no_digit_below b'#' (omega arith) (omega arith),
            second_read b'#' b'v' (b'u' ∷ b'8' ∷ b'(' ∷ rest),
            no_white b'v' (omega arith) (omega arith),
            vu8_read,
          )
          (last_read Symb.open_vu b'(' behind_vu8)
