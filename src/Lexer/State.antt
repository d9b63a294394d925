-- ===== src/Lexer/State.antt =====
-- The lexer's state (`ParserDatum` of inc/parse.h without text positions and messages), and its
-- characters: `readch`, `readp`, `set_readp_ix` and the loops that skip (src/parse.c). The port is the
-- list of the code points that it still delivers. What the program takes from the ICU library is the
-- parameter `Unicode`. A loop runs on fuel.
use scheme2c.Prelude.{
  ℕ, zero, suc, ◌-◌, ◌<◌, ◌≡◌, Bool, true, false, not, ◌&&◌, ◌||◌, Option, none, some, List, [],
  ◌∷◌, ◌++◌, ◌==◌, if◌then◌else◌, leb, length, get_elem?,
}
use scheme2c.Chars.{Icu, chrp_delim, chrp_whitespace}

-- `utf16` is UTF_APPEND_CHAR_UNSAFE, the code units of a character; `next_char` is
-- UTF_NEXT_CHAR_UNSAFE, the character at an index of a text and the index behind it.
pub record Unicode : Type 0 where
  pub icu : Icu
  pub utf16 : ℕ → List ℕ
  pub next_char : List ℕ → ℕ → ℕ × ℕ
  pub is_unicode_char : ℕ → Bool

-- Code points of one code unit, the only ones for which the library's behaviour is relied on.
pub record OneUnit (u : Unicode) : Type 0 where
  pub writes : (ch : ℕ) → ch < 0xd800 → u.utf16 ch ≡ (ch ∷ [])
  pub reads :
      (text : List ℕ) (i ch : ℕ)
      → ch < 0xd800
      → get_elem? text i ≡ some ch
      → u.next_char text i ≡ (ch, suc i)

-- `charcur` is `none` at the end of the input (EOF_CHAR); `buflex` holds code units.
pub record Scanner : Type 0 where
  pub charcur : Option ℕ
  pub port : List ℕ
  pub buflex : List ℕ
  pub ixpref : ℕ
  pub charcount : ℕ
  pub bufread : Bool
  pub lexprefix : Bool
  pub always_fatal : Bool
  pub err_lex : Bool

-- `thrown` is an exception with its code, `assertion` a failed `assert`.
pub data Outcome {ℓ} (A : Type ℓ) : Type ℓ where
  done : A → Scanner → Outcome A
  thrown : ℕ → Scanner → Outcome A
  assertion out_of_fuel : Outcome A

abbrev pub Scan {ℓ} : Type ℓ → Type ℓ
Scan A = Scanner → Outcome A

module _ {ℓ} {A : Type ℓ} where
  abbrev pub pure : A → Scan A
  pure a s = done a s

  abbrev pub and_then {κ} : {B : Type κ} → Outcome A → (A → Scan B) → Outcome B
  and_then (done a s) k = k a s
  and_then (thrown e s) k = thrown e s
  and_then assertion k = assertion
  and_then out_of_fuel k = out_of_fuel

  infixl 5 ◌>>=◌ ◌>>◌
  abbrev pub ◌>>=◌ {κ} : {B : Type κ} → Scan A → (A → Scan B) → Scan B
  (m >>= k) s = and_then (m s) k

  abbrev pub ◌>>◌ {κ} : {B : Type κ} → Scan A → Scan B → Scan B
  (m >> n) s = and_then (m s) (λ _. n)

abbrev pub skip : Scan (Unit {0})
skip s = done tt s

-- `pr->charcur` and `pr->charcount`
abbrev pub current : Scan (Option ℕ)
current s = done s.charcur s

abbrev pub count : Scan ℕ
count s = done s.charcount s

-- A test of a character, which EOF_CHAR does not pass; the classes of the library hold of no
-- negative code point.
abbrev pub holds : (ℕ → Bool) → Option ℕ → Bool
holds p none = false
holds p (some c) = p c

abbrev pub is_char : ℕ → Option ℕ → Bool
is_char c o = holds (λ d. d == c) o

abbrev pub is_eof : Option ℕ → Bool
is_eof none = true
is_eof (some _) = false

-- `PARS_BITM_BUFREAD` and `PARS_BITM_LEXPREFIX`
abbrev pub set_bufread : Bool → Scan (Unit {0})
set_bufread b s = done tt (record s { bufread = b })

-- The index of the next character of the prefix; counted from the end of the buffer by
-- `set_readp_back`, where the source gives a negative number.
unfoldable pub set_readp_ix : ℕ → Scan (Unit {0})
set_readp_ix i s = done tt (record s { lexprefix = true; ixpref = i })

unfoldable pub set_readp_back : ℕ → Scan (Unit {0})
set_readp_back k s = done tt (record s { lexprefix = true; ixpref = length s.buflex - k })

module _ (u : Unicode) where
  abbrev pub delim : Option ℕ → Bool
  delim o = holds (chrp_delim u.icu) o

  -- `chrp_eofdelim`
  unfoldable pub chrp_eofdelim : Option ℕ → Bool
  chrp_eofdelim none = true
  chrp_eofdelim (some c) = chrp_delim u.icu c

  -- A character read from the port is appended to the buffer on demand.
  abbrev pub received : List ℕ → Scanner → Outcome (Option ℕ)
  received [] s = done none (record s { charcur = none })
  received (c ∷ cs) s = done (some c) (record s {
    charcur = some c;
    port = cs;
    buflex = if s.bufread then s.buflex ++ u.utf16 c else s.buflex;
  })

  unfoldable pub readch : Scan (Option ℕ)
  readch s = if is_eof s.charcur then done none s else received s.port s

  -- The next character of the prefix, which is in the buffer.
  abbrev pub reread : Scan (Option ℕ)
  reread s = done (some (u.next_char s.buflex s.ixpref).0) (record s {
    charcur = some (u.next_char s.buflex s.ixpref).0;
    ixpref = (u.next_char s.buflex s.ixpref).1;
  })

  unfoldable pub readp : Scan (Option ℕ)
  readp s =
      if s.lexprefix
      then (if leb (length s.buflex) s.ixpref
          then (readch >>= λ c. if is_eof c then pure none else reread) s
          else reread s)
      else readch s

  -- `readch` until the end of the input or until the test holds.
  unfoldable pub read_until : ℕ → (ℕ → Bool) → Scan (Unit {0})
  read_until zero stop s = out_of_fuel
  read_until (suc f) stop s =
      let rest : Scan (Unit {0}) = readch >> read_until f stop in
      if is_eof s.charcur || holds stop s.charcur then done tt s else rest s

  unfoldable pub readch_first_notwhsp : ℕ → Scan (Unit {0})
  readch_first_notwhsp f = read_until f (λ c. not (chrp_whitespace u.icu c))

  unfoldable pub readch_first_delim : ℕ → Scan (Unit {0})
  readch_first_delim f = read_until f (chrp_delim u.icu)

  -- `readch_precise_asci`: the characters of a text, as far as they agree.
  unfoldable pub readch_precise_asci : List ℕ → Scan Bool
  readch_precise_asci [] s = done true s
  readch_precise_asci (a ∷ rest) s =
      if is_eof s.charcur
      then done true s
      else (readch >>= λ c. if is_char a c then readch_precise_asci rest else pure false) s

  -- The loop of `readp_precise_asci`, and the function, which reads on behind the text.
  unfoldable pub precise_loop : List ℕ → Scan Bool
  precise_loop [] s = done true s
  precise_loop (a ∷ rest) s =
      if is_eof s.charcur
      then done true s
      else (readp >>= λ c. if is_char a c then precise_loop rest else pure false) s

  unfoldable pub readp_precise_asci : List ℕ → Scan Bool
  readp_precise_asci asci = do r ← precise_loop asci; if r then readp >> pure true else pure false

abbrev pub lex_stop : ℕ
lex_stop = 950

abbrev pub lex_badlex : ℕ
lex_badlex = 951

-- `lex_error_u` with an exception of the lexer: it reads on to a delimiter, sets the error bit and
-- throws; the bit ALWAYSFATAL turns a bad lexeme into a stop.
unfoldable pub lex_error {ℓ} : {A : Type ℓ} → Unicode → ℕ → ℕ → Scan A
lex_error u f excep = do
  readch_first_delim u f
  λ s.
      thrown (if s.always_fatal && excep == lex_badlex then lex_stop else excep)
        (record s { err_lex = true })
