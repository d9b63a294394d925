-- ===== src/Lexer/CharNames.antt =====
-- Characters: what is printed is read back.
use mathlib.Core.List.{append_assoc, append-nil}
use scheme2c.Prelude.{
  ℕ, ◌<◌, ◌≡◌, refl, sym, ◌∙◌, ◌⊎◌, inl, inr, Bool, true, false, ◌&&◌, Bool-cases, ==_iff, Option,
  none, some, List, [], ◌∷◌, ◌++◌, arith, ◌==◌, leb,
}
use scheme2c.Chars.{chr_hash, chr_slash, chrp_delim}
use scheme2c.Lexer.State.{
  Unicode, Scanner, done, is_eof, precise_loop, readp_precise_asci, set_readp_back, chrp_eofdelim,
}
use scheme2c.Lexer.Identifier.{char}
use scheme2c.Lexer.Text.{
  named_char, lex_read_namedchar, char_body, lex_read_char, name_or_hex, find_name, char_names,
}
use scheme2c.Lexer.Cursor.{cursor, stopped, HeadIsUnit, readp-read, readp-reread}
use scheme2c.Lexer.Ascii.{Ascii, Ends, Ends-head, Ends-eofdelim, is_punctuation, delim_graphic}

-- A character that is printed by a name or as itself.
abbrev pub Shown : (ℕ → Bool) → ℕ → Type 0
Shown icu_print ch =
    ((name : List ℕ) × (find_name ch char_names ≡ some name))
    ⊎ ((find_name ch char_names ≡ none) × (icu_print ch ≡ true) × (ch < 0xd800))

abbrev letter : ℕ → Bool
letter c = leb b'a' c && leb c b'z'

abbrev letters : List ℕ → Bool
letters [] = true
letters (c ∷ cs) = letter c && letters cs

-- A name of letters that the reader takes to the character `ch`.
abbrev Names : ℕ → List ℕ → Type 0
Names ch (a ∷ b ∷ cs) =
    (named_char (some a) (some b) ≡ some (a ∷ b ∷ cs, ch))
    × (letters (a ∷ b ∷ cs) ≡ true)
    × ((a == b'x') ≡ false)
Names ch _ = ⊥

abbrev AllNames : List (ℕ × List ℕ) → Type 0
AllNames [] = Unit {0}
AllNames ((c, name) ∷ rows) = Names c name × AllNames rows

char_names-AllNames : AllNames char_names
unfolding named_char
char_names-AllNames = (
  (refl, refl, refl),
  (
    (refl, refl, refl),
    (
      (refl, refl, refl),
      (
        (refl, refl, refl),
        (
          (refl, refl, refl),
          (
            (refl, refl, refl),
            (
              (refl, refl, refl),
              (
                (refl, refl, refl),
                ((refl, refl, refl), ((refl, refl, refl), ((refl, refl, refl), tt))),
              ),
            ),
          ),
        ),
      ),
    ),
  ),
)

some_inj : (m n : List ℕ) → some m ≡ some n → m ≡ n
some_inj m n h = cc

Names-find_name :
    (rows : List (ℕ × List ℕ))
    → AllNames rows
    → (ch : ℕ) (name : List ℕ) → find_name ch rows ≡ some name
    → Names ch name
Names-find_name [] g ch name h = absurd (cc)
Names-find_name ((c, n) ∷ rows) g ch name h = elim (Bool-cases (ch == c)) [
  | inl same ↦
      let is_key : ch ≡ c = (==_iff ch c).0 same in
      let is_name : n ≡ name = some_inj n name (rw same at h) in rw (is_key, sym is_name) g.0
  | inr other ↦ Names-find_name rows g.1 ch name (rw other at h)
]

letter-graphic : (c : ℕ) → letter c ≡ true → (0x20 < c) × (c < 0x7f) × (is_punctuation c ≡ false)
letter-graphic c h = (ground arith, ground arith, ground arith)

abbrev last_or : ℕ → List ℕ → ℕ
last_or c [] = c
last_or c (d ∷ ds) = last_or d ds

self : (n : ℕ) → (n == n) ≡ true
self n = ground arith

letter-one_unit : (c : ℕ) → letter c ≡ true → c < 0xd800
letter-one_unit c h = ground arith

letters-cons :
    (c : ℕ) (cs : List ℕ) → letters (c ∷ cs) ≡ true → (letter c ≡ true) × (letters cs ≡ true)
letters-cons c cs h = ground arith

abbrev opening : List ℕ
opening = chr_hash ∷ chr_slash ∷ []

module _ (u : Unicode) (a : Ascii u) where
  letter-no_delim : (c : ℕ) → letter c ≡ true → chrp_delim u.icu c ≡ false
  letter-no_delim c h = let g = letter-graphic c h in delim_graphic a c g.0 g.1 g.2

  -- Letters that the port delivers agree with the name.
  precise_loop-letters :
      (ns rest : List ℕ) (b : Scanner) (c : ℕ) (pre : List ℕ)
      → letters ns ≡ true
      → precise_loop u ns (cursor b (some c) pre [] (ns ++ rest))
        ≡ done true (cursor b (some (last_or c ns)) (pre ++ ns) [] rest)
  unfolding precise_loop
  precise_loop-letters [] rest b c pre h = rw (append-nil pre, append-nil pre)
  precise_loop-letters (n ∷ ns) rest b c pre h =
      let both = letters-cons n ns h in
      rw (readp-read u a.one b c pre (n ∷ (ns ++ rest)) (letter-one_unit n both.0), self n)
        (precise_loop-letters ns rest b n (pre ++ (n ∷ [])) both.1
          ∙ rw (append_assoc pre (n ∷ []) ns))

  -- A name whose first two letters are read again.
  readp_precise_asci-name :
      (x y : ℕ) (ns rest : List ℕ) (b : Scanner) (c : Option ℕ) (pre : List ℕ)
      → letters (x ∷ y ∷ ns) ≡ true
      → HeadIsUnit rest
      → is_eof c ≡ false
      → readp_precise_asci u (x ∷ y ∷ ns) (cursor b c pre (x ∷ y ∷ []) (ns ++ rest))
        ≡ done true (stopped b (pre ++ (x ∷ y ∷ ns)) rest)
  unfolding readp_precise_asci precise_loop
  readp_precise_asci-name x y ns rest b c pre h l e =
      let first = letters-cons x (y ∷ ns) h in
      let second = letters-cons y ns first.1 in
      rw (
        e,
        readp-reread u a.one b c pre (y ∷ []) (ns ++ rest) x (letter-one_unit x first.0),
        self x,
        readp-reread u a.one b (some x) (pre ++ (x ∷ [])) [] (ns ++ rest) y
            (letter-one_unit y second.0),
        self y,
        precise_loop-letters ns rest b y ((pre ++ (x ∷ [])) ++ (y ∷ [])) second.1,
        append_assoc (pre ++ (x ∷ [])) (y ∷ []) ns,
        append_assoc pre (x ∷ []) (y ∷ ns),
        readp-read u a.one b (last_or y ns) (pre ++ (x ∷ y ∷ ns)) rest l,
      )

  lex_read_namedchar-name :
      (x y : ℕ) (ns rest : List ℕ) (ch : ℕ) (f : ℕ) (b : Scanner)
      → letters (x ∷ y ∷ ns) ≡ true
      → Ends u rest
      → lex_read_namedchar u f (x ∷ y ∷ ns) ch (cursor b (some y) opening (x ∷ y ∷ []) (ns ++ rest))
        ≡ done (char (some ch)) (stopped b (opening ++ (x ∷ y ∷ ns)) rest)
  unfolding lex_read_namedchar
  lex_read_namedchar-name x y ns rest ch f b h e = rw (
    readp_precise_asci-name x y ns rest b (some y) opening h (Ends-head u rest e) refl,
    Ends-eofdelim u rest e,
  )

  -- The two characters behind `#\` are read, and decide.
  lex_read_char-named :
      (ch : ℕ) (name : List ℕ)
      → Names ch name
      → (rest : List ℕ) (f : ℕ) (b : Scanner) (c : Option ℕ) → Ends u rest
      → lex_read_char u f (cursor b c [] opening (name ++ rest))
        ≡ done (char (some ch)) (stopped b (opening ++ name) rest)
  unfolding lex_read_char char_body set_readp_back chrp_eofdelim
  lex_read_char-named ch [] n rest f b c e = elim n [ ]
  lex_read_char-named ch (x ∷ []) n rest f b c e = elim n [ ]
  lex_read_char-named ch (x ∷ y ∷ ns) n rest f b c e =
      let first = letters-cons x (y ∷ ns) n.1 in
      let second = letters-cons y ns first.1 in
      rw
        (
          readp-reread u a.one b c [] (chr_slash ∷ []) ((x ∷ y ∷ ns) ++ rest) chr_hash
              (omega arith),
          readp-reread u a.one b (some chr_hash) (chr_hash ∷ []) [] ((x ∷ y ∷ ns) ++ rest) chr_slash
              (omega arith),
          readp-read u a.one b chr_slash opening (x ∷ (y ∷ ns) ++ rest) (letter-one_unit x first.0),
          readp-read u a.one b x (opening ++ (x ∷ [])) (y ∷ (ns ++ rest))
              (letter-one_unit y second.0),
          letter-no_delim y second.0,
          n.2,
          n.0,
        )
        (lex_read_namedchar-name x y ns rest ch f b n.1 e)

  module _ (icu_print : ℕ → Bool) (hex : ℕ → List ℕ) where
    -- A character that has a name, or is printable and below 0xd800, is read back from what
    -- `oport_print_char` writes, in front of the end of the input or of a delimiter.
    pub lex_read_char-oport_print_char :
        (ch : ℕ) (rest : List ℕ)
        → Shown icu_print ch
        → Ends u rest
        → (f : ℕ) (b : Scanner) (c : Option ℕ)
        → lex_read_char u f
            (cursor b c [] opening (name_or_hex icu_print hex ch (find_name ch char_names) ++ rest))
          ≡ done
              (char (some ch))
              (stopped b (opening ++ name_or_hex icu_print hex ch (find_name ch char_names)) rest)
    unfolding lex_read_char char_body
    lex_read_char-oport_print_char ch rest (inl (name, h)) e f b c = rw h (
        lex_read_char-named ch name (Names-find_name char_names char_names-AllNames ch name h) rest
          f b c e)
    lex_read_char-oport_print_char ch rest (inr (h, p, l)) e f b c = rw (
      h,
      p,
      readp-reread u a.one b c [] (chr_slash ∷ []) (ch ∷ rest) chr_hash (omega arith),
      readp-reread u a.one b (some chr_hash) (chr_hash ∷ []) [] (ch ∷ rest) chr_slash (omega arith),
      readp-read u a.one b chr_slash opening (ch ∷ rest) l,
      readp-read u a.one b ch (opening ++ (ch ∷ [])) rest (Ends-head u rest e),
      Ends-eofdelim u rest e,
    )
