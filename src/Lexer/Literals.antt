-- ===== src/Lexer/Literals.antt =====
-- String literals: what is printed is read back.
use mathlib.Core.List.{append_assoc, append-nil}
use scheme2c.Prelude.{
  ℕ, zero, suc, ◌+◌, ◌<◌, ◌≤◌, ◌≡◌, refl, sym, ap, ◌∙◌, ◌⊎◌, inl, inr, Bool, true, false, not, ◌&&◌,
  Option, none, some, List, [], ◌∷◌, ◌++◌, arith, length, ◌==◌, if◌then◌else◌, lt→ltb,
  length-append,
}
use scheme2c.Chars.{chr_from_esc, chr_to_esc, chr_slash, chr_dblquot, chr_ret, chr_linefeed}
use scheme2c.Chars.Escapes.{chr_from_esc-chr_to_esc}
use scheme2c.Lexer.State.{Unicode, Scanner, Outcome, done, is_char}
use scheme2c.Lexer.Identifier.{string}
use scheme2c.Lexer.Text.{
  quote_loop, string_loop, string_turn, string_escape, new_string_lex, lex_read_string, print_chars,
  escape_or_char,
}
use scheme2c.Lexer.Cursor.{
  cursor, stopped, with_head, HeadIsUnit, readp-read, readp-reread, length-append_one,
  get_elem?-append_mid, get_elem?-append_second, length-append_two,
}
use scheme2c.Lexer.Ascii.{Ascii}

-- A character that is printed as an escape letter or as itself, and not by its code.
abbrev pub Printable : (ℕ → Bool) → ℕ → Type 0
Printable icu_print c =
    (((e : ℕ) × (chr_to_esc c ≡ some (chr_slash ∷ e ∷ [])))
      ⊎ ((chr_to_esc c ≡ none) × (icu_print c ≡ true)))
    × (c < 0xd800)

abbrev pub AllPrintable : (ℕ → Bool) → List ℕ → Type 0
AllPrintable icu_print [] = Unit {0}
AllPrintable icu_print (c ∷ cs) = Printable icu_print c × AllPrintable icu_print cs

-- How such a character stands in a literal.
data Piece (c : ℕ) : List ℕ → Type 0 where
  escape :
      (e : ℕ)
      → chr_from_esc e ≡ some c
      → (e == b'x') ≡ false
      → (e == chr_ret) ≡ false
      → (e == chr_linefeed) ≡ false
      → e < 0xd800
      → Piece c (chr_slash ∷ e ∷ [])
  plain :
      (c == chr_ret) ≡ false
      → (c == chr_slash) ≡ false
      → (c == chr_dblquot) ≡ false
      → Piece c (c ∷ [])

escape_letter :
    (e c : ℕ)
    → chr_from_esc e ≡ some c
    → ((e == b'x') ≡ false)
      × ((e == chr_ret) ≡ false)
      × ((e == chr_linefeed) ≡ false)
      × (e < 0xd800)
unfolding chr_from_esc
escape_letter e c h = (ground arith, ground arith, ground arith, ground arith)

no_escape :
    (c : ℕ)
    → chr_to_esc c ≡ none
    → ((c == chr_ret) ≡ false) × ((c == chr_slash) ≡ false) × ((c == chr_dblquot) ≡ false)
unfolding chr_to_esc
no_escape c h = (ground arith, ground arith, ground arith)

module _ (icu_print : ℕ → Bool) (hex : ℕ → List ℕ) where
  Piece-escape_or_char :
      (c : ℕ) → Printable icu_print c → Piece c (escape_or_char icu_print hex c (chr_to_esc c))
  Piece-escape_or_char c (inl (e, h), l) =
      let back = (chr_from_esc-chr_to_esc e c).1 h in
      let letter = escape_letter e c back in
      rw h (escape e back letter.0 letter.1 letter.2 letter.3)
  Piece-escape_or_char c (inr (h, p), l) =
      let other = no_escape c h in rw (h, p) (plain other.0 other.1 other.2)

module _ (u : Unicode) (a : Ascii u) where
  -- A character that does not close the string is passed.
  quote_loop-step :
      (x : ℕ) (rest : List ℕ) (f : ℕ) (b : Scanner) (pre : List ℕ) (k : ℕ) (prev : Option ℕ)
      → x < 0xd800
      → (x == chr_dblquot && not (is_char chr_slash prev)) ≡ false
      → quote_loop u (suc f) prev (cursor b (some k) pre [] (x ∷ rest))
        ≡ quote_loop u f
            (if x == chr_slash && is_char chr_slash prev then some chr_dblquot else some x)
            (cursor b (some x) (pre ++ (x ∷ [])) [] rest)
  unfolding quote_loop
  quote_loop-step x rest f b pre k prev l stop = rw (readp-read u a.one b k pre (x ∷ rest) l, stop)

  quote_loop-Piece :
      {c : ℕ} {piece : List ℕ}
      → Piece c piece
      → c < 0xd800
      → (rest : List ℕ) (f : ℕ) (b : Scanner) (pre : List ℕ) (k : ℕ) (prev : Option ℕ)
      → is_char chr_slash prev ≡ false
      → (result : Outcome Bool)
      → ((g : ℕ) (j : ℕ) (next : Option ℕ)
          → f ≤ g
          → is_char chr_slash next ≡ false
          → quote_loop u g next (cursor b (some j) (pre ++ piece) [] rest) ≡ result)
      → quote_loop u (suc (suc f)) prev (cursor b (some k) pre [] (piece ++ rest)) ≡ result
  quote_loop-Piece {c} (plain r s q) l rest f b pre k prev h result ih =
      quote_loop-step c rest (suc f) b pre k prev l (rw q refl)
      ∙ rw s (ih (suc f) c (some c) (omega arith) s)
  quote_loop-Piece (escape e back x r n l) _ rest f b pre k prev h result ih =
      rw
        (
          quote_loop-step chr_slash (e ∷ rest) (suc f) b pre k prev (omega arith) refl,
          h,
          quote_loop-step e rest f b (pre ++ (chr_slash ∷ [])) chr_slash (some chr_slash) l
              (ground arith),
          append_assoc pre (chr_slash ∷ []) (e ∷ []),
        )
        (ih f e (if e == chr_slash && true then some chr_dblquot else some e) (omega arith)
          (ground arith))

  module _ (icu_print : ℕ → Bool) (hex : ℕ → List ℕ) where
    abbrev printed : List ℕ → List ℕ
    printed text = print_chars icu_print hex text

    -- The closing quotation mark is found.
    quote_loop-printed :
        (text rest : List ℕ)
        → AllPrintable icu_print text
        → (f : ℕ) (b : Scanner) (pre : List ℕ) (k : ℕ) (prev : Option ℕ)
        → length text + length text < f
        → is_char chr_slash prev ≡ false
        → quote_loop u f prev (cursor b (some k) pre [] (printed text ++ (chr_dblquot ∷ rest)))
          ≡ done true
              (cursor b (some chr_dblquot) (pre ++ printed text ++ (chr_dblquot ∷ [])) [] rest)
    unfolding print_chars quote_loop
    quote_loop-printed [] rest p (suc f) b pre k prev l h =
        rw (readp-read u a.one b k pre (chr_dblquot ∷ rest) (omega arith), h, append-nil pre)
    quote_loop-printed (c ∷ cs) rest p (suc (suc f)) b pre k prev l h =
        let piece = escape_or_char icu_print hex c (chr_to_esc c) in
        rw
          (
            append_assoc piece (printed cs) (chr_dblquot ∷ rest),
            sym (append_assoc pre piece (printed cs)),
          )
          (quote_loop-Piece (Piece-escape_or_char icu_print hex c p.0) p.0.1
            (printed cs ++ (chr_dblquot ∷ rest)) f b pre k prev h
            (done true (
              cursor b (some chr_dblquot) (((pre ++ piece) ++ printed cs) ++ (chr_dblquot ∷ [])) []
                rest))
            (λ g j next le nonslash.
              quote_loop-printed cs rest p.1 g b (pre ++ piece) j next (omega arith) nonslash))
    quote_loop-printed (c ∷ cs) rest p (suc zero) b pre k prev l h = absurd (omega arith)
    quote_loop-printed _ rest p zero b pre k prev l h = elim l [ ]

  -- The text of the literal is taken over piece by piece.
  string_loop-Piece :
      {c : ℕ} {piece : List ℕ}
      → Piece c piece
      → c < 0xd800
      → (pre post : List ℕ) (f : ℕ) (out : List ℕ) (s : Scanner) → 0 < length post
      → string_loop u
          (suc f)
          (pre ++ (piece ++ post))
          (u.next_char (pre ++ (piece ++ post)) (length pre))
          out
          s
        ≡ string_loop u f
            (pre ++ (piece ++ post))
            (u.next_char (pre ++ (piece ++ post)) (length (pre ++ piece)))
            (out ++ (c ∷ []))
            s
  unfolding string_loop string_turn string_escape
  string_loop-Piece {c} (plain r q d) l pre post f out s pos = rw (
    a.one.reads (pre ++ (c ∷ post)) (length pre) c l (get_elem?-append_mid pre post c),
    lt→ltb (suc (length pre)) (length (pre ++ (c ∷ post)))
        (omega (arith, length-append pre (c ∷ post))),
    r,
    q,
    d,
    a.one.writes c l,
    length-append_one pre c,
  )
  string_loop-Piece {c} (escape e back x r n le) l pre post f out s pos =
      rw
        (
          a.one.reads (pre ++ (chr_slash ∷ e ∷ post)) (length pre) chr_slash (omega arith)
              (get_elem?-append_mid pre (e ∷ post) chr_slash),
          lt→ltb (suc (length pre)) (length (pre ++ (chr_slash ∷ e ∷ post)))
              (omega (arith, length-append pre (chr_slash ∷ e ∷ post))),
          a.one.reads (pre ++ (chr_slash ∷ e ∷ post)) (suc (length pre)) e le
              (get_elem?-append_second pre post chr_slash e),
          x,
          r,
          n,
          back,
          length-append_two pre chr_slash e,
        )
        (ap
          (λ units.
            string_loop u f (pre ++ (chr_slash ∷ e ∷ post))
              (u.next_char (pre ++ (chr_slash ∷ e ∷ post)) (suc (suc (length pre)))) (out ++ units)
              s)
          (a.one.writes c l))

  -- A closing quotation mark ends the text, whether something stands behind it or not.
  string_loop-end :
      (pre post : List ℕ) (f : ℕ) (out : List ℕ) (s : Scanner)
      → string_loop u
          (suc f)
          (pre ++ (chr_dblquot ∷ post))
          (u.next_char (pre ++ (chr_dblquot ∷ post)) (length pre))
          out
          s
        ≡ done out s
  unfolding string_loop string_turn
  string_loop-end pre post f out s =
      rw
        (a.one.reads (pre ++ (chr_dblquot ∷ post)) (length pre) chr_dblquot (omega arith)
          (get_elem?-append_mid pre post chr_dblquot))
        (ground arith)

  module _ (icu_print : ℕ → Bool) (hex : ℕ → List ℕ) where
    string_loop-printed :
        (text : List ℕ)
        → AllPrintable icu_print text
        → (pre post : List ℕ) (f : ℕ) (out : List ℕ) (s : Scanner) → length text < f
        → (all : List ℕ) → all ≡ pre ++ (print_chars icu_print hex text ++ (chr_dblquot ∷ post))
        → string_loop u f all (u.next_char all (length pre)) out s ≡ done (out ++ text) s
    unfolding print_chars
    string_loop-printed [] p pre post (suc f) out s l all e =
        rw (e, append-nil out) (string_loop-end pre post f out s)
    string_loop-printed (c ∷ cs) p pre post (suc f) out s l all e =
        let piece = escape_or_char icu_print hex c (chr_to_esc c) in
        let more = print_chars icu_print hex cs ++ (chr_dblquot ∷ post) in
        let whole : all ≡ pre ++ (piece ++ more) =
          e
          ∙ ap (λ t. pre ++ t)
              (append_assoc piece (print_chars icu_print hex cs) (chr_dblquot ∷ post)) in
        let step =
          string_loop-Piece (Piece-escape_or_char icu_print hex c p.0) p.0.1 pre more f out s
            (omega (arith, length-append (print_chars icu_print hex cs) (chr_dblquot ∷ post))) in
        rw (whole, step)
          (string_loop-printed cs p.1 (pre ++ piece) post f (out ++ (c ∷ [])) s (omega arith)
              (pre ++ (piece ++ more)) (sym (append_assoc pre piece more))
            ∙ rw (append_assoc out (c ∷ []) cs))
    string_loop-printed text p pre post zero out s l all e = elim l [ ]

    -- What the buffer holds behind the literal.
    abbrev behind : List ℕ → List ℕ
    behind [] = []
    behind (d ∷ ds) = d ∷ []

    buffered :
        (text rest : List ℕ)
        → with_head (((chr_dblquot ∷ []) ++ text) ++ (chr_dblquot ∷ [])) rest ++ []
          ≡ (chr_dblquot ∷ []) ++ (text ++ (chr_dblquot ∷ behind rest))
    buffered text [] = rw (append-nil (text ++ (chr_dblquot ∷ [])))
    buffered text (d ∷ ds) = rw (
      append-nil ((text ++ (chr_dblquot ∷ [])) ++ (d ∷ [])),
      append_assoc text (chr_dblquot ∷ []) (d ∷ []),
    )

    -- A string of which each character is below 0xd800 and has an escape letter or is printable is
    -- read back from what `bin_print_string` writes, if the fuel is above twice its length; the opening
    -- quotation mark is in the buffer already, and the first character behind has one code unit.
    pub lex_read_string-bin_print_string :
        (text rest : List ℕ)
        → AllPrintable icu_print text
        → HeadIsUnit rest
        → (f : ℕ) → length text + length text < f
        → (b : Scanner) (c : ℕ)
        → lex_read_string u f (
            cursor b
              (some c)
              []
              (chr_dblquot ∷ [])
              (print_chars icu_print hex text ++ (chr_dblquot ∷ rest)))
          ≡ done (string text) (
              stopped b
                (((chr_dblquot ∷ []) ++ print_chars icu_print hex text) ++ (chr_dblquot ∷ []))
                rest)
    unfolding lex_read_string new_string_lex
    lex_read_string-bin_print_string text rest p h f l b c =
        let shown = print_chars icu_print hex text in
        rw (
          readp-reread u a.one b (some c) [] [] (shown ++ (chr_dblquot ∷ rest)) chr_dblquot
              (omega arith),
          quote_loop-printed icu_print hex text rest p f b (chr_dblquot ∷ []) chr_dblquot
              (some chr_dblquot) l refl,
          readp-read u a.one b chr_dblquot (((chr_dblquot ∷ []) ++ shown) ++ (chr_dblquot ∷ []))
              rest h,
          string_loop-printed text p (chr_dblquot ∷ []) (behind rest) f []
              (stopped b (((chr_dblquot ∷ []) ++ shown) ++ (chr_dblquot ∷ [])) rest) (omega arith)
              (with_head (((chr_dblquot ∷ []) ++ shown) ++ (chr_dblquot ∷ [])) rest ++ [])
              (buffered shown rest),
        )
