-- ===== src/Lexer/Cursor.antt =====
-- States of the lexer within a lexeme: the buffer is read again up to a cursor, and the port delivers
-- the rest. Characters have one code unit.
use mathlib.Core.List.{append_assoc, append-nil}
use scheme2c.Prelude.{
  ℕ, suc, ◌-◌, ◌<◌, ◌≡◌, refl, true, false, Option, none, some, List, [], ◌∷◌, ◌++◌, arith, length,
  get_elem?, length-append, leb,
}
use scheme2c.Lexer.State.{Unicode, OneUnit, Scanner, done, readch, readp}

abbrev pub head : List ℕ → Option ℕ
head [] = none
head (c ∷ cs) = some c

abbrev pub tail : List ℕ → List ℕ
tail [] = []
tail (c ∷ cs) = cs

-- Behind `pre` in the buffer comes `post`, and then what the port delivers.
abbrev pub cursor : Scanner → Option ℕ → (pre post port : List ℕ) → Scanner
cursor b c pre post port = record b {
  charcur = c;
  port = port;
  buflex = pre ++ post;
  ixpref = length pre;
  bufread = true;
  lexprefix = true;
}

-- `text` with a character that was read from the port behind it, if there was one.
abbrev pub with_head : (text rest : List ℕ) → List ℕ
with_head text [] = text
with_head text (c ∷ cs) = text ++ (c ∷ [])

-- The first character of `rest`, if there is one, was read from the port behind `pre`.
abbrev pub stopped : Scanner → (pre rest : List ℕ) → Scanner
stopped b pre rest = cursor b (head rest) (with_head pre rest) [] (tail rest)

-- The first character of a text has one code unit.
abbrev pub HeadIsUnit : List ℕ → Type 0
HeadIsUnit [] = Unit {0}
HeadIsUnit (c ∷ cs) = c < 0xd800

pub get_elem?-append_mid :
    (xs ys : List ℕ) (y : ℕ) → get_elem? (xs ++ (y ∷ ys)) (length xs) ≡ some y
get_elem?-append_mid [] ys y = refl
get_elem?-append_mid (x ∷ xs) ys y = get_elem?-append_mid xs ys y

pub get_elem?-append_second :
    (xs ys : List ℕ) (x y : ℕ) → get_elem? (xs ++ (x ∷ y ∷ ys)) (suc (length xs)) ≡ some y
get_elem?-append_second [] ys x y = refl
get_elem?-append_second (z ∷ xs) ys x y = get_elem?-append_second xs ys x y

pub length-append_two :
    (xs : List ℕ) (x y : ℕ) → length (xs ++ (x ∷ y ∷ [])) ≡ suc (suc (length xs))
length-append_two xs x y = omega (arith, length-append xs (x ∷ y ∷ []))

pub length-append_one : (xs : List ℕ) (y : ℕ) → length (xs ++ (y ∷ [])) ≡ suc (length xs)
length-append_one xs y = omega (arith, length-append xs (y ∷ []))

pub suc-sub-one : (n : ℕ) → suc n - 1 ≡ n
suc-sub-one n = omega arith

append_one : (xs ys : List ℕ) (y : ℕ) → (xs ++ (y ∷ [])) ++ ys ≡ xs ++ (y ∷ ys)
append_one xs ys y = append_assoc xs (y ∷ []) ys

full : (pre : List ℕ) → leb (length (pre ++ [])) (length pre) ≡ true
full pre = rw (append-nil pre) (ground arith)

module _ (u : Unicode) (one : OneUnit u) where
  -- A character of the buffer is read again.
  pub readp-reread :
      (b : Scanner) (c : Option ℕ) (pre post port : List ℕ) (x : ℕ)
      → x < 0xd800
      → readp u (cursor b c pre (x ∷ post) port)
        ≡ done (some x) (cursor b (some x) (pre ++ (x ∷ [])) post port)
  unfolding readp
  readp-reread b c pre post port x h =
      let e : leb (length (pre ++ (x ∷ post))) (length pre) ≡ false =
        rw (length-append pre (x ∷ post)) (ground arith) in
      rw (
        e,
        one.reads (pre ++ (x ∷ post)) (length pre) x h (get_elem?-append_mid pre post x),
        append_one pre post x,
        length-append_one pre x,
      )

  -- A character is read from the port, or the end of the input is met.
  pub readp-read :
      (b : Scanner) (c : ℕ) (pre rest : List ℕ)
      → HeadIsUnit rest
      → readp u (cursor b (some c) pre [] rest) ≡ done (head rest) (stopped b pre rest)
  unfolding readp readch
  readp-read b c pre [] h = rw (full pre)
  readp-read b c pre (x ∷ rest) h = rw (
    full pre,
    one.writes x h,
    append-nil pre,
    one.reads (pre ++ (x ∷ [])) (length pre) x h (get_elem?-append_mid pre [] x),
    append-nil (pre ++ (x ∷ [])),
    length-append_one pre x,
  )
