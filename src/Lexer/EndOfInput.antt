-- ===== src/Lexer/EndOfInput.antt =====
-- The names `+`, `-` and `...` as the last lexeme of the input, with no character behind them.
use scheme2c.Prelude.{
  ℕ, suc, ◌≡◌, refl, Bool, true, false, ◌&&◌, none, some, [], ◌∷◌, arith, if◌then◌else◌,
}
use scheme2c.Lexer.State.{
  Unicode, Scanner, Outcome, done, thrown, readch, lex_error, lex_stop, lex_badlex,
  readch_first_delim, read_until, chrp_eofdelim,
}
use scheme2c.Lexer.Identifier.{Lex, ident, lex_read_identifier, new_id_lex, without_delim}
use scheme2c.Lexer.Number.{Reals}
use scheme2c.Lexer.Ascii.{Ascii, delim_graphic}
use scheme2c.Lexer.Cursor.{cursor, stopped, readp-read, readp-reread}
use scheme2c.Lexer.Signs.{no_white, no_digit_below}
use scheme2c.Lexer.Begin.{facing, Reads, pars_read_lexeme-begin, readch-second}
use scheme2c.Lexer.{lexeme_at, pars_read_lexeme}

-- A run ends in an exception of the lexer, with the error bit set.
abbrev pub Fails : Outcome Lex → Bool → Type 0
Fails run fatal =
    (s : Scanner) × (run ≡ thrown (if fatal then lex_stop else lex_badlex) s) × (s.err_lex ≡ true)

and-true : (x : Bool) → (x && true) ≡ x
and-true true = refl
and-true false = refl

module _ (u : Unicode) (a : Ascii u) (reals : Reals) where
  lex_error-end :
      (f : ℕ) (s : Scanner)
      → lex_error {A = Lex} u (suc f) lex_badlex (facing s [])
        ≡ thrown
            (if s.always_fatal then lex_stop else lex_badlex)
            (record (facing s []) { err_lex = true })
  unfolding lex_error readch_first_delim read_until
  lex_error-end f s = rw (and-true s.always_fatal)

  read_at_end :
      (c : ℕ) (b : Scanner)
      → readch u (cursor b (some c) [] (c ∷ []) []) ≡ done none (cursor b none [] (c ∷ []) [])
  unfolding readch
  read_at_end c b = refl

  plus_at_end :
      (f n : ℕ) (b : Scanner)
      → Fails
          (pars_read_lexeme u reals (suc (suc f)) (suc n) (facing b (0x20 ∷ b'+' ∷ [])))
          b.always_fatal
  unfolding lexeme_at lex_read_identifier
  plus_at_end f n b = (
    record (stopped b (b'+' ∷ []) []) { err_lex = true },
    rw (
      pars_read_lexeme-begin u a reals b'+' [] f n b (omega arith)
          (no_white u a reals b'+' (omega arith) (omega arith)),
      no_digit_below u a reals b'+' (omega arith) (omega arith),
      read_at_end b'+' b,
      readp-reread u a.one b none [] [] [] b'+' (omega arith),
      readp-read u a.one b b'+' (b'+' ∷ []) [] tt,
      lex_error-end (suc f) (stopped b (b'+' ∷ []) []),
    ),
    refl,
  )

  minus_at_end :
      (f n : ℕ) (b : Scanner)
      → Reads
          (pars_read_lexeme u reals (suc (suc f)) (suc n) (facing b (0x20 ∷ b'-' ∷ [])))
          (ident (b'-' ∷ []))
          b
          []
  unfolding lexeme_at lex_read_identifier new_id_lex without_delim chrp_eofdelim
  minus_at_end f n b =
      rw
        (
          pars_read_lexeme-begin u a reals b'-' [] f n b (omega arith)
              (no_white u a reals b'-' (omega arith) (omega arith)),
          no_digit_below u a reals b'-' (omega arith) (omega arith),
          read_at_end b'-' b,
          readp-reread u a.one b none [] [] [] b'-' (omega arith),
          readp-read u a.one b b'-' (b'-' ∷ []) [] tt,
          delim_graphic a b'-' (omega arith) (omega arith) refl,
        )
        (stopped b (b'-' ∷ []) [], refl, refl)

  dots_at_end :
      (f n : ℕ) (b : Scanner)
      → Fails
          (pars_read_lexeme u reals
            (suc (suc f))
            (suc n)
            (facing b (0x20 ∷ b'.' ∷ b'.' ∷ b'.' ∷ [])))
          b.always_fatal
  unfolding lexeme_at lex_read_identifier chrp_eofdelim
  dots_at_end f n b =
      let dots = b'.' ∷ b'.' ∷ b'.' ∷ [] in
      (
        record (stopped b dots []) { err_lex = true },
        rw (
          pars_read_lexeme-begin u a reals b'.' (b'.' ∷ b'.' ∷ []) f n b (omega arith)
              (no_white u a reals b'.' (omega arith) (omega arith)),
          no_digit_below u a reals b'.' (omega arith) (omega arith),
          readch-second u a reals b'.' b'.' (b'.' ∷ []) b (omega arith),
          delim_graphic a b'.' (omega arith) (omega arith) refl,
          no_digit_below u a reals b'.' (omega arith) (omega arith),
          readp-reread u a.one b (some b'.') [] (b'.' ∷ []) (b'.' ∷ []) b'.' (omega arith),
          readp-reread u a.one b (some b'.') (b'.' ∷ []) [] (b'.' ∷ []) b'.' (omega arith),
          readp-read u a.one b b'.' (b'.' ∷ b'.' ∷ []) (b'.' ∷ []) (omega arith),
          readp-read u a.one b b'.' dots [] tt,
          lex_error-end (suc f) (stopped b dots []),
        ),
        refl,
      )

  -- At the end of the input `-` is read as a name, but `+` and `...` end in an error of the lexer: the
  -- tests behind these two ask for a delimiter and do not accept the end of the input.
  pub names_at_end :
      (f n : ℕ) (b : Scanner)
      → Reads
          (pars_read_lexeme u reals (suc (suc f)) (suc n) (facing b (0x20 ∷ b'-' ∷ [])))
          (ident (b'-' ∷ []))
          b
          []
        × Fails
            (pars_read_lexeme u reals (suc (suc f)) (suc n) (facing b (0x20 ∷ b'+' ∷ [])))
            b.always_fatal
        × Fails
            (pars_read_lexeme u reals
              (suc (suc f))
              (suc n)
              (facing b (0x20 ∷ b'.' ∷ b'.' ∷ b'.' ∷ [])))
            b.always_fatal
  names_at_end f n b = (minus_at_end f n b, plus_at_end f n b, dots_at_end f n b)
