-- ===== src/Strings.antt =====
-- The growing strings of src/datum.c (`new_string`, `ss_clear`, `ss_enlarge`, `ss_add`, `ss_dec`,
-- `ss_hash_code`): a buffer of UTF-16 code units with a terminating 0, a length, and a cached hash
-- code. Buffers have an even number of bytes, so the model counts units. What is behind the copied part
-- of a new buffer is not read before it is written; here it is 0.
pub mod Text
pub mod Hash
use scheme2c.Prelude.{
  ℕ, zero, suc, ◌+◌, ◌-◌, ◌*◌, ◌/◌, ◌%◌, ◌^◌, ◌≤◌, ◌<◌, ◌≡◌, refl, sym, ap, ◌∙◌, ◌≢◌, ◌↔◌, ◌⊎◌, inl,
  inr, Bool, true, false, not, ◌&&◌, ◌||◌, Option, none, some, List, [], ◌∷◌, ◌++◌, map, arith, ltb,
  leb, ◌==◌, if◌then◌else◌, ltb→lt, lt→ltb, leb→le, ==_iff, Bool-cases, Option-cases, length,
  get_elem?, set, length-append, length-set, get_elem?-set_self, get_elem?-set_ne, take, replicate,
}

pub record StringDatum : Type 0 where
  pub buf : List ℕ
  pub len : ℕ
  -- `none` is NO_HASH.
  pub hash : Option ℕ
  pub const : Bool

-- `overrun` is a write behind the end of the buffer, `assertion` a failed `assert`.
pub data Step : Type 0 where
  ok : StringDatum → Step
  overrun assertion : Step

-- `new_string`: room for `uclen` units and the terminator.
unfoldable pub new_string : (uclen : ℕ) → StringDatum
new_string uclen = record { buf = replicate (suc uclen) 0; len = 0; hash = none; const = false }

-- `ss_capac`, the units that fit in front of the terminator.
unfoldable pub ss_capac : StringDatum → ℕ
ss_capac s = length s.buf - 1

-- Writes from the index `i` on.
unfoldable pub put_units : List ℕ → (i : ℕ) → List ℕ → Option (List ℕ)
put_units buf i [] = some buf
put_units buf i (v ∷ vs) = if ltb i (length buf) then put_units (set buf i v) (suc i) vs else none

-- `ss_enlarge`, to `ncap` bytes.
unfoldable pub ss_enlarge : StringDatum → (ncap : ℕ) → StringDatum
ss_enlarge s ncap = record s { buf = take s.len s.buf ++ replicate (ncap / 2 - s.len) 0 }

abbrev pub terminated : StringDatum → (len : ℕ) → Option (List ℕ) → Step
terminated s len none = overrun
terminated s len (some buf) = ok (record s { buf = buf; len = len; hash = none })

-- `ss_add`: the units of the character, which UTF_APPEND_CHAR_UNSAFE of the Unicode library writes, and
-- then the terminator.
unfoldable pub ss_add : (utf16 : ℕ → List ℕ) → StringDatum → (ch : ℕ) → Step
unfolding ss_capac ss_enlarge put_units
ss_add utf16 s ch =
    let k = ss_capac s in
    let room = if leb k s.len then ss_enlarge s ((k + 8) * 2) else s in
    let end = s.len + length (utf16 ch) in
    if s.const
    then assertion
    else terminated room end (put_units room.buf s.len (utf16 ch ++ (0 ∷ [])))

-- `ss_dec` shortens a string.
unfoldable pub ss_dec : StringDatum → (dec : ℕ) → Step
unfolding put_units
ss_dec s dec =
    if s.const
    then assertion
    else (if ltb s.len dec
        then assertion
        else terminated s (s.len - dec) (put_units s.buf (s.len - dec) (0 ∷ [])))

unfoldable pub ss_clear : StringDatum → Step
unfolding put_units
ss_clear s = if s.const then assertion else terminated s 0 (put_units s.buf 0 (0 ∷ []))

-- `buf_hash_code` of an even number of bytes; an `int` holds 30 bits of it, so that the multiplication
-- wraps above them.
unfoldable pub buf_hash_code : (prev : ℕ) → List ℕ → ℕ
buf_hash_code prev [] = prev
buf_hash_code prev (u ∷ us) = buf_hash_code ((prev * 37 + u) % 2 ^ 30) us

abbrev pub cached : Option ℕ → StringDatum → ℕ × StringDatum
cached (some code) s = (code, s)
cached none s = (
  buf_hash_code 0 (take s.len s.buf),
  record s { hash = some (buf_hash_code 0 (take s.len s.buf)) },
)

-- `ss_hash_code` computes the code once.
unfoldable pub ss_hash_code : StringDatum → ℕ × StringDatum
unfolding buf_hash_code
ss_hash_code s = cached s.hash s
