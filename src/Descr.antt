-- ===== src/Descr.antt =====
-- Descriptors (inc/datum.h): a machine word that is a fixnum, a character, a special value (a
-- symbol), a local or global variable reference, or the address of a heap object. Each is told from
-- the others by its low bits. The source writes `(x << k) | tag` with a tag below 2 ^ k; the two
-- parts share no bit, so the model writes the sum.
pub mod Classes
pub mod Codes
use scheme2c.Prelude.{ℕ, ◌+◌, ◌*◌, ◌/◌, ◌%◌, ◌^◌, Bool, ◌&&◌, not, ◌==◌, ltb}
use scheme2c.Prelude.Word.{shl, shr, sar}

abbrev pub Word : Type 0
Word = ℕ

abbrev pub tag_spec : ℕ
tag_spec = 6

abbrev pub tag_local : ℕ
tag_local = 14

abbrev pub tag_global : ℕ
tag_global = 30

abbrev pub tag_char : ℕ
tag_char = 22

abbrev pub tag_datum_tag : ℕ
tag_datum_tag = 2

-- The constructors of descriptors.
unfoldable pub desc_from_fixnum : ℕ → Word
desc_from_fixnum v = shl v 1 + 1

unfoldable pub desc_from_char : ℕ → Word
desc_from_char v = shl v 5 + tag_char

unfoldable pub desc_from_spec : ℕ → Word
desc_from_spec ix = shl ix 5 + tag_spec

unfoldable pub desc_from_glob : ℕ → Word
desc_from_glob ix = shl ix 5 + tag_global

-- The frame number keeps eight bits, at 5 to 12; the index stands from bit 13 on.
unfoldable pub desc_from_local : (frame ix : ℕ) → Word
desc_from_local frame ix = frame % 2 ^ 8 * 2 ^ 5 + shl ix 13 + tag_local

-- What they read back.
unfoldable pub desc_to_fixnum : Word → ℕ
desc_to_fixnum d = sar d 1

-- The cast to `UChar32` keeps 32 bits.
unfoldable pub desc_to_char : Word → ℕ
desc_to_char d = sar d 5 % 2 ^ 32

unfoldable pub desc_to_spec : Word → ℕ
desc_to_spec d = shr d 5

unfoldable pub desc_to_glob : Word → ℕ
desc_to_glob d = shr d 5

unfoldable pub desc_loc_ix : Word → ℕ
desc_loc_ix d = shr d 13

unfoldable pub desc_loc_fr : Word → ℕ
desc_loc_fr d = shr d 5 % 2 ^ 8

-- The tests on the low bits.
unfoldable pub desc_is_fixnum : Word → Bool
desc_is_fixnum d = d % 2 == 1

unfoldable pub desc_is_scp : Word → Bool
desc_is_scp d = d % 8 == 0

unfoldable pub scp_valid : Word → Bool
unfolding desc_is_scp
scp_valid d = desc_is_scp d && not (d == 0)

unfoldable pub desc_is_char : Word → Bool
desc_is_char d = d % 32 == tag_char

unfoldable pub desc_is_spec : Word → Bool
desc_is_spec d = d % 32 == tag_spec

unfoldable pub desc_is_local : Word → Bool
desc_is_local d = d % 32 == tag_local

unfoldable pub desc_is_global : Word → Bool
desc_is_global d = d % 32 == tag_global

unfoldable pub desc_is_tag : Word → Bool
desc_is_tag d = d % 8 == tag_datum_tag

-- The special values below ten: nil, undefined, true, false, void and end of file.
unfoldable pub desc_is_specval : Word → Bool
unfolding desc_is_spec desc_to_spec
desc_is_specval d = desc_is_spec d && ltb (desc_to_spec d) 10
