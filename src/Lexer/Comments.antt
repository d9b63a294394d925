-- ===== src/Lexer/Comments.antt =====
-- The texts of the comments that src/parse.c skips.
use scheme2c.Prelude.{
  ℕ, ◌+◌, ◌-◌, ◌<◌, ◌≡◌, refl, Bool, true, false, ◌||◌, ◌&&◌, Option, none, some, List, [], ◌∷◌,
  ◌++◌, arith, ◌==◌,
}
use scheme2c.Chars.{chr_hash, chr_bar_ver, chr_parasep, chrp_line_ending}
use scheme2c.Lexer.State.{is_char}

-- The text of a comment: plain characters and comments within it.
pub data Comment : Type 0 where
  end : Comment
  plain : ℕ → Comment → Comment
  nested : (inner rest : Comment) → Comment

abbrev pub comment_text : Comment → List ℕ
comment_text end = []
comment_text (plain c t) = c ∷ comment_text t
comment_text (nested inner t) =
    chr_hash ∷ chr_bar_ver ∷ (comment_text inner ++ (chr_bar_ver ∷ chr_hash ∷ comment_text t))

abbrev pub begins_nested : Comment → Bool
begins_nested (nested _ _) = true
begins_nested _ = false

abbrev pub begins_plain : Comment → Bool
begins_plain (plain _ _) = true
begins_plain _ = false

-- No `#` and no `|` among the plain characters; a comment within the text does not begin with another,
-- and has a plain character behind it.
abbrev pub Separate : Comment → Type 0
Separate end = Unit {0}
Separate (plain c t) = ((c == chr_hash) ≡ false) × ((c == chr_bar_ver) ≡ false) × Separate t
Separate (nested inner t) =
    (begins_nested inner ≡ false) × (begins_plain t ≡ true) × Separate inner × Separate t

-- What stands in front of a text must not make its first character an opening or a closing.
abbrev pub Follows : Option ℕ → Comment → Type 0
Follows prev end = is_char chr_hash prev ≡ false
Follows prev (plain c t) = Unit {0}
Follows prev (nested inner t) = is_char chr_bar_ver prev ≡ false

pub Follows-plain :
    (c : ℕ) (t : Comment)
    → (c == chr_hash) ≡ false
    → (c == chr_bar_ver) ≡ false
    → Follows (some c) t
Follows-plain c end n m = n
Follows-plain c (plain d t) n m = tt
Follows-plain c (nested i t) n m = m

pub Follows-inner : (t : Comment) → begins_nested t ≡ false → Follows (some chr_bar_ver) t
Follows-inner end h = refl
Follows-inner (plain c t) h = tt
Follows-inner (nested i t) h = absurd (cc)

pub Follows-rest : (t : Comment) → begins_plain t ≡ true → Follows (some chr_hash) t
Follows-rest end h = absurd (cc)
Follows-rest (plain c t) h = tt
Follows-rest (nested i t) h = absurd (cc)

pub Follows-start : (t : Comment) → Follows none t
Follows-start end = refl
Follows-start (plain c t) = tt
Follows-start (nested i t) = refl

-- Neither `#` nor `|`.
abbrev pub AllPlain : List ℕ → Type 0
AllPlain [] = Unit {0}
AllPlain (c ∷ cs) = ((c == chr_hash) ≡ false) × ((c == chr_bar_ver) ≡ false) × AllPlain cs

-- No character that ends a line.
abbrev pub NoLineEnd : List ℕ → Type 0
NoLineEnd [] = Unit {0}
NoLineEnd (c ∷ cs) = ((chrp_line_ending c || c == chr_parasep) ≡ false) × NoLineEnd cs

pub and-false : (x : Bool) → (x && false) ≡ false
and-false true = refl
and-false false = refl

pub not_last : (n : ℕ) → 0 < n → (n + 1 == 1) ≡ false
not_last n h = ground arith

pub add-sub : (n : ℕ) → n + 1 - 1 ≡ n
add-sub n = omega arith
