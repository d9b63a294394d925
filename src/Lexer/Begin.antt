-- ===== src/Lexer/Begin.antt =====
-- How `pars_read_lexeme` comes to the first character of a lexeme, and single reads by `readch`.
use scheme2c.Prelude.{
  zero, length, arith, ℕ, suc, ◌<◌, ◌≡◌, refl, true, false, some, List, [], ◌∷◌, ◌++◌,
  if◌then◌else◌,
}
use scheme2c.Chars.{chrp_whitespace}
use scheme2c.Lexer.State.{Unicode, Scanner, Outcome, done, readch, read_until, readch_first_notwhsp}
use scheme2c.Lexer.Number.{Reals}
use scheme2c.Lexer.Cursor.{head, tail, cursor}
use scheme2c.Lexer.Ascii.{Ascii}
use scheme2c.Lexer.{lexeme_at, pars_read_lexeme}

-- The lexer stands at the first character of a text, or at the end of the input.
abbrev pub facing : Scanner → List ℕ → Scanner
facing b text = record b { charcur = head text; port = tail text }

-- A run ends in front of `rest` with a result, and raises no error bit.
abbrev pub Reads {ℓ} : {A : Type ℓ} → Outcome A → A → Scanner → List ℕ → Type ℓ
Reads run result b rest =
    (b' : Scanner) × (run ≡ done result (facing b' rest)) × (b'.err_lex ≡ b.err_lex)

-- What is read is not put in the buffer.
abbrev unread : Scanner → Scanner
unread s = record s { bufread = false }

-- Each character is white space.
abbrev pub AllWhite : Unicode → List ℕ → Type 0
AllWhite u [] = Unit {0}
AllWhite u (w ∷ ws) = (chrp_whitespace u.icu w ≡ true) × AllWhite u ws

module _ (u : Unicode) where
  pub readch-facing :
      (rest : List ℕ) (b : Scanner) (c : ℕ)
      → Reads (readch u (record b { charcur = some c; port = rest })) (head rest) b rest
  unfolding readch
  readch-facing [] b c = (b, refl, refl)
  readch-facing (x ∷ rest) b c =
      (record b { buflex = if b.bufread then b.buflex ++ u.utf16 x else b.buflex }, refl, refl)

module _ (u : Unicode) (a : Ascii u) (reals : Reals) where
  pub space_is_white : chrp_whitespace u.icu 0x20 ≡ true
  unfolding chrp_whitespace
  space_is_white = rw a.blank

  -- White space, which is not put in the buffer, is skipped up to another character.
  read_until-white :
      (ws : List ℕ) (c : ℕ) (cs : List ℕ) (f : ℕ) (s : Scanner)
      → AllWhite u ws
      → chrp_whitespace u.icu c ≡ false
      → length ws < f
      → readch_first_notwhsp u f (facing (unread s) (ws ++ (c ∷ cs)))
        ≡ done tt (facing (unread s) (c ∷ cs))
  unfolding readch_first_notwhsp read_until readch
  read_until-white [] c cs (suc f) s w n l = rw n refl
  read_until-white (x ∷ []) c cs (suc (suc f)) s w n l = rw (w.0, n) refl
  read_until-white (x ∷ []) c cs (suc zero) s w n l = absurd (omega arith)
  read_until-white (x ∷ y ∷ ws) c cs (suc f) s w n l =
      rw w.0 (read_until-white (y ∷ ws) c cs f s w.1 n (omega arith))
  read_until-white ws c cs zero s w n l = elim l [ ]

  -- White space in front of a lexeme is skipped, and its first character is put in the buffer.
  pub pars_read_lexeme-after :
      (ws : List ℕ) (c : ℕ) (cs : List ℕ) (f n : ℕ) (b : Scanner)
      → AllWhite u ws
      → c < 0xd800
      → chrp_whitespace u.icu c ≡ false
      → length ws < f
      → pars_read_lexeme u reals f (suc n) (facing b (ws ++ (c ∷ cs)))
        ≡ lexeme_at u reals f (pars_read_lexeme u reals f n) c (cursor b (some c) [] (c ∷ []) cs)
  unfolding pars_read_lexeme
  pars_read_lexeme-after [] c cs f n b w l h k =
      rw (read_until-white [] c cs f (record b { buflex = [] }) w h k, a.one.writes c l) refl
  pars_read_lexeme-after (x ∷ ws) c cs f n b w l h k =
      rw (read_until-white (x ∷ ws) c cs f (record b { buflex = [] }) w h k, a.one.writes c l) refl

  -- The same behind a single space.
  pub pars_read_lexeme-begin :
      (c : ℕ) (cs : List ℕ) (f n : ℕ) (b : Scanner)
      → c < 0xd800
      → chrp_whitespace u.icu c ≡ false
      → pars_read_lexeme u reals (suc (suc f)) (suc n) (facing b (0x20 ∷ c ∷ cs))
        ≡ lexeme_at u reals
            (suc (suc f))
            (pars_read_lexeme u reals (suc (suc f)) n)
            c
            (cursor b (some c) [] (c ∷ []) cs)
  pars_read_lexeme-begin c cs f n b l w =
      pars_read_lexeme-after (0x20 ∷ []) c cs (suc (suc f)) n b (space_is_white, tt) l w
        (omega arith)

  -- A second character is put behind the first.
  pub readch-second :
      (c d : ℕ) (port : List ℕ) (b : Scanner)
      → d < 0xd800
      → readch u (cursor b (some c) [] (c ∷ []) (d ∷ port))
        ≡ done (some d) (cursor b (some d) [] (c ∷ d ∷ []) port)
  unfolding readch
  readch-second c d port b l = rw (a.one.writes d l)
