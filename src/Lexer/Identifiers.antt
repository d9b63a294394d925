-- ===== src/Lexer/Identifiers.antt =====
-- Ordinary identifiers: what `lex_read_identifier` makes of an initial character and subsequent ones.
use mathlib.Core.List.{append_assoc, append-nil}
use scheme2c.Prelude.{
  ℕ, zero, suc, ◌<◌, ◌≡◌, refl, ◌∙◌, true, false, Option, List, [], ◌∷◌, ◌++◌, arith, length, ◌==◌,
  get_or, take-append_self,
}
use scheme2c.Chars.{chrp_delim, chrp_initial, chrp_subsequent}
use scheme2c.Lexer.State.{Unicode, Scanner, done, chrp_eofdelim}
use scheme2c.Lexer.Identifier.{
  ident, subsequent_loop, ordinary_id, without_delim, new_id_lex, lex_read_identifier,
}
use scheme2c.Lexer.Cursor.{
  head, cursor, stopped, with_head, HeadIsUnit, readp-read, readp-reread, length-append_one,
  suc-sub-one,
}
use scheme2c.Lexer.Ascii.{Ascii, Ends, Ends-head, Ends-eofdelim}

-- Characters that may follow in a name.
abbrev pub Subsequent : Unicode → List ℕ → Type 0
Subsequent u [] = Unit {0}
Subsequent u (c ∷ cs) =
    ((chrp_subsequent u.icu c ≡ true) × (chrp_delim u.icu c ≡ false) × (c < 0xd800))
    × Subsequent u cs

-- A character that begins an ordinary name.
pub record Initial (u : Unicode) (c : ℕ) : Type 0 where
  pub initial : chrp_initial u.icu c ≡ true
  pub no_delim : chrp_delim u.icu c ≡ false
  pub one_unit : c < 0xd800
  pub no_plus : (c == b'+') ≡ false
  pub no_minus : (c == b'-') ≡ false
  pub no_point : (c == b'.') ≡ false

get_or-append_mid : (cs : List ℕ) (d : ℕ) → get_or (cs ++ (d ∷ [])) (length cs) 0 ≡ d
get_or-append_mid [] d = refl
get_or-append_mid (c ∷ cs) d = get_or-append_mid cs d

module _ (u : Unicode) (a : Ascii u) where
  Subsequent-head : (cs rest : List ℕ) → Subsequent u cs → Ends u rest → HeadIsUnit (cs ++ rest)
  Subsequent-head [] rest p e = Ends-head u rest e
  Subsequent-head (c ∷ cs) rest p e = p.0.2

  subsequent_loop-name :
      (cs rest : List ℕ)
      → Subsequent u cs
      → Ends u rest
      → (f : ℕ) → length cs < f
      → (b : Scanner) (pre : List ℕ)
      → subsequent_loop u f (head (cs ++ rest)) (stopped b pre (cs ++ rest))
        ≡ done tt (stopped b (pre ++ cs) rest)
  unfolding subsequent_loop chrp_eofdelim
  subsequent_loop-name [] rest p e (suc f) l b pre = rw (Ends-eofdelim u rest e, append-nil pre)
  subsequent_loop-name (c ∷ cs) rest p e (suc f) l b pre =
      rw
        (
          p.0.1,
          p.0.0,
          readp-read u a.one b c (pre ++ (c ∷ [])) (cs ++ rest) (Subsequent-head cs rest p.1 e),
        )
        (subsequent_loop-name cs rest p.1 e f (omega arith) b (pre ++ (c ∷ []))
          ∙ rw (append_assoc pre (c ∷ []) cs))
  subsequent_loop-name cs rest p e zero l b pre = elim l [ ]

  last_no_delim :
      (c : ℕ) (cs : List ℕ)
      → chrp_delim u.icu c ≡ false
      → Subsequent u cs
      → chrp_delim u.icu (get_or (c ∷ cs) (length cs) 0) ≡ false
  last_no_delim c [] n p = n
  last_no_delim c (d ∷ ds) n p = last_no_delim d ds p.0.1 p.1

  without_delim-name :
      (c : ℕ) (cs rest : List ℕ)
      → chrp_delim u.icu c ≡ false
      → Subsequent u cs
      → Ends u rest
      → without_delim u (with_head (c ∷ cs) rest) ≡ (c ∷ cs)
  unfolding without_delim
  without_delim-name c cs [] n p e = rw (suc-sub-one (length cs), last_no_delim c cs n p)
  without_delim-name c cs (d ∷ ds) n p e = rw (
    length-append_one cs d,
    suc-sub-one (suc (length cs)),
    get_or-append_mid cs d,
    e.0,
    take-append_self cs (d ∷ []),
  )

  -- A name is read up to the delimiter behind it.
  pub lex_read_identifier-name :
      (c : ℕ) (cs rest : List ℕ)
      → Initial u c
      → Subsequent u cs
      → Ends u rest
      → (f : ℕ) → length cs < f
      → (b : Scanner) (k : Option ℕ)
      → lex_read_identifier u f (cursor b k [] (c ∷ []) (cs ++ rest))
        ≡ done (ident (c ∷ cs)) (record (stopped b (c ∷ cs) rest) { buflex = c ∷ cs })
  unfolding lex_read_identifier ordinary_id new_id_lex
  lex_read_identifier-name c cs rest i p e f l b k =
      rw
        (
          readp-reread u a.one b k [] [] (cs ++ rest) c i.one_unit,
          i.no_plus,
          i.no_minus,
          i.no_point,
          i.initial,
          readp-read u a.one b c (c ∷ []) (cs ++ rest) (Subsequent-head cs rest p e),
          subsequent_loop-name cs rest p e f l b (c ∷ []),
        )
        (rw (append-nil (with_head (c ∷ cs) rest), without_delim-name c cs rest i.no_delim p e))
