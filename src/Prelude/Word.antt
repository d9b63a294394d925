-- ===== src/Prelude/Word.antt =====
-- 64-bit machine words (`long` and `ulong` on the platform the program is written for): a word is a
-- number below 2 ^ 64, and a `long` is read off it in two's complement.
use Prim.Native.Nat.{ℕ, ◌+◌, ◌-◌, ◌*◌, ◌/◌, ◌%◌, ◌^◌}
use mathlib.Core.Bool.{Bool}
use scheme2c.Prelude.Tests.{ltb, leb, if◌then◌else◌}

-- 2 ^ 64, and the least negative pattern.
abbrev pub modulus : ℕ
modulus = 2 ^ 64

abbrev pub sign_bit : ℕ
sign_bit = 2 ^ 63

abbrev pub is_negative : ℕ → Bool
is_negative w = leb sign_bit w

abbrev pub add : ℕ → ℕ → ℕ
add a b = (a + b) % modulus

abbrev pub sub : ℕ → ℕ → ℕ
sub a b = (a + (modulus - b)) % modulus

abbrev pub mul : ℕ → ℕ → ℕ
mul a b = (a * b) % modulus

abbrev pub neg : ℕ → ℕ
neg a = (modulus - a) % modulus

-- `x << k`, `x >> k` on unsigned words.
abbrev pub shl : ℕ → ℕ → ℕ
shl x k = (x * 2 ^ k) % modulus

abbrev pub shr : ℕ → ℕ → ℕ
shr x k = x / 2 ^ k

-- `x >> k` on a `long`: the sign bit is copied into the k places on the left.
abbrev pub sar : ℕ → ℕ → ℕ
sar x k = if is_negative x then x / 2 ^ k + (modulus - modulus / 2 ^ k) else x / 2 ^ k

-- The `long`s that survive the loss of one bit on the left: -2 ^ 62 up to 2 ^ 62 - 1.
abbrev pub fits_fixnum : ℕ → Bool
fits_fixnum w = if is_negative w then leb (modulus - 2 ^ 62) w else ltb w (2 ^ 62)
