-- ===== src/Lexer/Skipping.antt =====
-- What `skip_comment_nested` and `skip_comment_line` of src/parse.c skip.
use mathlib.Core.List.{append_assoc}
use scheme2c.Prelude.{
  ℕ, zero, suc, ◌+◌, ◌-◌, ◌<◌, ◌≤◌, ◌≡◌, refl, true, false, ◌||◌, ◌&&◌, Option, none, some, List,
  [], ◌∷◌, ◌++◌, arith, length, ◌==◌, length-append,
}
use scheme2c.Chars.{chr_hash, chr_bar_ver, chr_parasep, chrp_line_ending}
use scheme2c.Lexer.State.{
  Unicode, Scanner, done, thrown, readch, is_eof, lex_error, lex_stop, readch_first_delim,
  read_until, is_char,
}
use scheme2c.Lexer.Identifier.{
  comment_nested_loop, skip_comment_nested, comment_line_loop, skip_comment_line,
}
use scheme2c.Lexer.Cursor.{head, suc-sub-one}
use scheme2c.Chars.{chrp_num_afterhash, chrp_num_precmarker}
use scheme2c.Lexer.Number.{Reals}
use scheme2c.Lexer.Ascii.{Ascii}
use scheme2c.Lexer.Cursor.{cursor}
use scheme2c.Lexer.Signs.{no_white, no_digit_below}
use scheme2c.Lexer.{lexeme_at, lexeme_other, hash_lexeme, pars_read_lexeme}
use scheme2c.Lexer.Begin.{facing, AllWhite, pars_read_lexeme-after, readch-second}
use scheme2c.Lexer.Comments.{
  end, nested, plain, Comment, comment_text, begins_nested, Separate, Follows, Follows-plain,
  Follows-inner, Follows-rest, Follows-start, AllPlain, NoLineEnd, and-false, not_last, add-sub,
}

module _ (u : Unicode) where
  -- Comments are read with the buffer off.
  abbrev pub quiet : Scanner → Scanner
  quiet b = record b { bufread = false }

  readch-quiet :
      (b : Scanner) (k c : ℕ) (cs : List ℕ)
      → readch u (facing (quiet b) (k ∷ c ∷ cs)) ≡ done (some c) (facing (quiet b) (c ∷ cs))
  unfolding readch
  readch-quiet b k c cs = refl

  -- A turn of the loop at the character `c`, which neither opens nor closes a comment.
  loop-other :
      (f balance : ℕ) (prev : Option ℕ) (b : Scanner) (k c : ℕ) (cs : List ℕ)
      → 0 < f
      → (is_char chr_hash prev && (c == chr_bar_ver)) ≡ false
      → (is_char chr_bar_ver prev && (c == chr_hash)) ≡ false
      → comment_nested_loop u f balance prev (facing (quiet b) (k ∷ c ∷ cs))
        ≡ comment_nested_loop u (f - 1) balance (some c) (facing (quiet b) (c ∷ cs))
  unfolding comment_nested_loop
  loop-other (suc f) balance prev b k c cs pos o e = rw (suc-sub-one f, readch-quiet b k c cs, o, e)
  loop-other zero balance prev b k c cs pos o e = elim pos [ ]

  loop-open :
      (f balance : ℕ) (b : Scanner) (k : ℕ) (cs : List ℕ)
      → 0 < f
      → comment_nested_loop u f balance (some chr_hash) (facing (quiet b) (k ∷ chr_bar_ver ∷ cs))
        ≡ comment_nested_loop u
            (f - 1)
            (balance + 1)
            (some chr_bar_ver)
            (facing (quiet b) (chr_bar_ver ∷ cs))
  unfolding comment_nested_loop
  loop-open (suc f) balance b k cs pos = rw (suc-sub-one f, readch-quiet b k chr_bar_ver cs)
  loop-open zero balance b k cs pos = elim pos [ ]

  loop-close :
      (f balance : ℕ) (b : Scanner) (k : ℕ) (cs : List ℕ)
      → 0 < f
      → 0 < balance
      → comment_nested_loop u f
          (balance + 1)
          (some chr_bar_ver)
          (facing (quiet b) (k ∷ chr_hash ∷ cs))
        ≡ comment_nested_loop u (f - 1) balance (some chr_hash) (facing (quiet b) (chr_hash ∷ cs))
  unfolding comment_nested_loop
  loop-close (suc f) balance b k cs _ pos =
      rw (suc-sub-one f, readch-quiet b k chr_hash cs, not_last balance pos, add-sub balance)
  loop-close zero balance b k cs pos _ = elim pos [ ]

  loop-last :
      (f : ℕ) (b : Scanner) (k : ℕ) (cs : List ℕ)
      → 0 < f
      → comment_nested_loop u f 1 (some chr_bar_ver) (facing (quiet b) (k ∷ chr_hash ∷ cs))
        ≡ done 0 (facing (quiet b) (chr_hash ∷ cs))
  unfolding comment_nested_loop
  loop-last (suc f) b k cs pos = rw (readch-quiet b k chr_hash cs)
  loop-last zero b k cs pos = elim pos [ ]

  -- The loop passes a text and is as before, with some fuel used.
  Passes : (f balance : ℕ) (prev : Option ℕ) (b : Scanner) (k : ℕ) (text more : List ℕ) → Type 0
  Passes f balance prev b k text more =
      (g : ℕ) × (last : ℕ) × (prev' : Option ℕ) × (comment_nested_loop u f balance prev
          (facing (quiet b) (k ∷ (text ++ more)))
        ≡ comment_nested_loop u g balance prev' (facing (quiet b) (last ∷ more)))
      × (f ≤ g + length text)
      × (is_char chr_hash prev' ≡ false)

  loop-text :
      (t : Comment)
      → Separate t
      → (f balance : ℕ) (prev : Option ℕ) (b : Scanner) (k : ℕ) (more : List ℕ)
      → length (comment_text t) < f
      → 0 < balance
      → Follows prev t
      → Passes f balance prev b k (comment_text t) more
  unfolding Passes
  loop-text end w f balance prev b k more l pos h = (f, k, prev, refl, omega arith, h)
  loop-text (plain c t) w f balance prev b k more l pos h =
      let (g, last, prev', e, le, n) =
        loop-text t w.2 (f - 1) balance (some c) b c more (omega arith) pos
          (Follows-plain c t w.0 w.1) in
      (
        g,
        last,
        prev',
        rw
            (loop-other f balance prev b k c (comment_text t ++ more) (omega arith)
              (rw w.1 (ground arith)) (rw w.0 (ground arith)))
            e,
        omega arith,
        n,
      )
  loop-text (nested inner t) w f balance prev b k more l pos h =
      let after = chr_bar_ver ∷ chr_hash ∷ (comment_text t ++ more) in
      let size = length-append (comment_text inner) (chr_bar_ver ∷ chr_hash ∷ comment_text t) in
      let (g, last, p, e, le, n) =
        loop-text inner w.2 (f - 1 - 1) (balance + 1) (some chr_bar_ver) b chr_bar_ver after
          (omega (arith, size)) (omega arith) (Follows-inner inner w.0) in
      let (g', last', p', e', le', n') =
        loop-text t w.3 (g - 1 - 1) balance (some chr_hash) b chr_hash more (omega (arith, size))
          pos (Follows-rest t w.1) in
      (
        g',
        last',
        p',
        rw
            (
              append_assoc (comment_text inner) (chr_bar_ver ∷ chr_hash ∷ comment_text t) more,
              loop-other f balance prev b k chr_hash (chr_bar_ver ∷ (comment_text inner ++ after))
                  (omega arith) (ground arith) (rw h refl),
              loop-open (f - 1) balance b chr_hash (comment_text inner ++ after)
                  (omega (arith, size)),
              e,
              loop-other g (balance + 1) p b last chr_bar_ver (chr_hash ∷ (comment_text t ++ more))
                  (omega (arith, size)) (rw n refl) (ground arith),
              loop-close (g - 1) balance b chr_bar_ver (comment_text t ++ more)
                  (omega (arith, size)) pos,
            )
            e',
        omega (arith, size),
        n',
      )

  readch-last :
      (b : Scanner) (k : ℕ) (rest : List ℕ)
      → readch u (facing (quiet b) (k ∷ rest)) ≡ done (head rest) (facing (quiet b) rest)
  unfolding readch
  readch-last b k [] = refl
  readch-last b k (c ∷ cs) = refl

  readch-end : (b : Scanner) → readch u (facing b []) ≡ done none (facing b [])
  unfolding readch
  readch-end b = refl

  -- A whole comment, from the `|` that opens it.
  pub skip_comment_nested-text :
      (t : Comment)
      → Separate t
      → (f : ℕ) (b : Scanner) (rest : List ℕ) → length (comment_text t) + 2 < f
      → skip_comment_nested u f
          (facing (quiet b) (chr_bar_ver ∷ (comment_text t ++ (chr_bar_ver ∷ chr_hash ∷ rest))))
        ≡ done tt (facing (quiet b) rest)
  unfolding skip_comment_nested Passes
  skip_comment_nested-text t w f b rest l =
      let (g, last, p, e, le, n) =
        loop-text t w f 1 none b chr_bar_ver (chr_bar_ver ∷ chr_hash ∷ rest) (omega arith)
          (omega arith) (Follows-start t) in
      rw (
        e,
        loop-other g 1 p b last chr_bar_ver (chr_hash ∷ rest) (omega arith) (rw n refl)
            (ground arith),
        loop-last (g - 1) b chr_bar_ver rest (omega arith),
        readch-last b chr_hash rest,
        and-false (is_eof (head rest)),
      )

  -- Two comments that end together.
  loop-plain :
      (rest : List ℕ)
      → AllPlain rest
      → (f : ℕ) (b : Scanner) (k : ℕ) (prev : Option ℕ) → length rest + 1 < f
      → comment_nested_loop u f 1 prev (facing (quiet b) (k ∷ rest)) ≡ done 1 (facing (quiet b) [])
  unfolding comment_nested_loop
  loop-plain [] w (suc (suc f)) b k prev l =
      rw (
        readch-last b k [],
        and-false (is_char chr_bar_ver prev),
        and-false (is_char chr_hash prev),
      )
  loop-plain (c ∷ cs) w f b k prev l =
      rw
        (loop-other f 1 prev b k c cs (omega arith) (rw w.1 (and-false (is_char chr_hash prev)))
          (rw w.0 (and-false (is_char chr_bar_ver prev))))
        (loop-plain cs w.2 (f - 1) b c (some c) (omega arith))
  loop-plain [] w (suc zero) b k prev l = absurd (omega arith)
  loop-plain [] w zero b k prev l = elim l [ ]

  -- If a nested comment stands at the end of another, with nothing between the two closing signs, then
  -- the comment is not closed: with plain text behind, the lexer reads to the end of the input, sets its
  -- error bit and throws EXCEP_PARSE_LEX_STOP. The `#` of the first sign and the `|` of the second are
  -- taken for an opening sign. The inner comment does not begin with a further one.
  pub skip_comment_nested-touching :
      (inner : Comment) (rest : List ℕ)
      → Separate inner
      → begins_nested inner ≡ false
      → AllPlain rest
      → (f : ℕ) (b : Scanner) → length (comment_text inner) + length rest + 8 < f
      → skip_comment_nested u f (
          facing (quiet b) (
            chr_bar_ver
            ∷ chr_hash
            ∷ chr_bar_ver
            ∷ (comment_text inner ++ (chr_bar_ver ∷ chr_hash ∷ chr_bar_ver ∷ chr_hash ∷ rest))))
        ≡ thrown lex_stop (record (facing (quiet b) []) { err_lex = true })
  unfolding skip_comment_nested Passes lex_error readch_first_delim read_until
  skip_comment_nested-touching inner rest w h r (suc f) b l =
      let close = chr_bar_ver ∷ chr_hash ∷ rest in
      let after = chr_bar_ver ∷ chr_hash ∷ close in
      let (g, last, p, e, le, n) =
        loop-text inner w (suc f - 1 - 1) 2 (some chr_bar_ver) b chr_bar_ver after (omega arith)
          (omega arith) (Follows-inner inner h) in
      rw (
        loop-other (suc f) 1 none b chr_bar_ver chr_hash
            (chr_bar_ver ∷ (comment_text inner ++ after)) (omega arith) refl refl,
        loop-open (suc f - 1) 1 b chr_hash (comment_text inner ++ after) (omega arith),
        e,
        loop-other g 2 p b last chr_bar_ver (chr_hash ∷ close) (omega arith) (rw n refl)
            (ground arith),
        loop-close (g - 1) 1 b chr_bar_ver close (omega arith) (omega arith),
        loop-open (g - 1 - 1) 1 b chr_hash (chr_hash ∷ rest) (omega arith),
        loop-close (g - 1 - 1 - 1) 1 b chr_bar_ver rest (omega arith) (omega arith),
        loop-plain rest r (g - 1 - 1 - 1 - 1) b chr_hash (some chr_hash) (omega arith),
        readch-end (quiet b),
        and-false b.always_fatal,
      )
  skip_comment_nested-touching inner rest w h r zero b l = elim l [ ]

  -- The loop of a comment up to the end of its line.
  comment_line_loop-line :
      (line : List ℕ)
      → NoLineEnd line
      → (eol : ℕ) (rest : List ℕ) → (chrp_line_ending eol || eol == chr_parasep) ≡ true
      → (f : ℕ) (b : Scanner) (k : ℕ) → length line < f
      → comment_line_loop u f (facing (quiet b) (k ∷ (line ++ (eol ∷ rest))))
        ≡ done tt (facing (quiet b) (eol ∷ rest))
  unfolding comment_line_loop
  comment_line_loop-line [] w eol rest e (suc f) b k l = rw (readch-quiet b k eol rest, e)
  comment_line_loop-line (c ∷ cs) w eol rest e (suc f) b k l =
      rw (readch-quiet b k c (cs ++ (eol ∷ rest)), w.0)
        (comment_line_loop-line cs w.1 eol rest e f b c (omega arith))
  comment_line_loop-line line w eol rest e zero b k l = elim l [ ]

  -- A comment up to the end of its line.
  pub skip_comment_line-line :
      (line : List ℕ)
      → NoLineEnd line
      → (eol : ℕ) (rest : List ℕ) → (chrp_line_ending eol || eol == chr_parasep) ≡ true
      → (f : ℕ) (b : Scanner) (k : ℕ) → length line < f
      → skip_comment_line u f (facing (quiet b) (k ∷ (line ++ (eol ∷ rest))))
        ≡ done tt (facing (quiet b) rest)
  unfolding skip_comment_line
  skip_comment_line-line line w eol rest e f b k l =
      rw (comment_line_loop-line line w eol rest e f b k l, readch-last b eol rest)

module _ (u : Unicode) (a : Ascii u) (reals : Reals) where
  -- Any white space and a nested comment are skipped: the lexeme is the one behind the comment, and the
  -- error bit stays. The comment's text is of characters other than `#` and `|` and of comments within,
  -- to any depth, of which none begins with another and each has a character behind it; the fuel is
  -- above the length of the text plus 4, and above that of the white space.
  pub pars_read_lexeme-comment :
      (ws : List ℕ) (t : Comment) (rest : List ℕ) (f n : ℕ) (b : Scanner)
      → AllWhite u ws
      → Separate t
      → length ws < f
      → length (comment_text t) + 4 < f
      → (b' : Scanner) × (pars_read_lexeme u reals f (suc n) (
            facing b (
              ws ++ (chr_hash ∷ chr_bar_ver ∷ (comment_text t ++ (chr_bar_ver ∷ chr_hash ∷ rest)))))
          ≡ pars_read_lexeme u reals f n (facing b' rest))
        × (b'.err_lex ≡ b.err_lex)
  unfolding lexeme_at lexeme_other hash_lexeme chrp_num_afterhash chrp_num_precmarker
  pars_read_lexeme-comment ws t rest f n b h w k l =
      let more = comment_text t ++ (chr_bar_ver ∷ chr_hash ∷ rest) in
      let b' = quiet u (cursor b none [] (chr_hash ∷ chr_bar_ver ∷ []) []) in
      (
        b',
        rw (
          pars_read_lexeme-after u a reals ws chr_hash (chr_bar_ver ∷ more) f n b h (omega arith)
              (no_white u a reals chr_hash (omega arith) (omega arith)) k,
          no_digit_below u a reals chr_hash (omega arith) (omega arith),
          readch-second u a reals chr_hash chr_bar_ver more b (omega arith),
          no_white u a reals chr_bar_ver (omega arith) (omega arith),
          skip_comment_nested-text u t w f b' rest (omega arith),
        ),
        refl,
      )
