-- ===== src/Lexer/Number.antt =====
-- Numbers (src/parse.c: `lex_read_digits`, `ss_read_digits`, `lex_read_sdigits`, `lex_read_fract`,
-- `lex_read_number`). Integers are 64-bit words that wrap; the arithmetic of doubles is a parameter.
use scheme2c.Prelude.{
  ℕ, zero, suc, ◌+◌, ◌-◌, Bool, true, false, not, ◌&&◌, ◌||◌, Option, none, some, List, [], ◌∷◌,
  ◌==◌, if◌then◌else◌,
}
use scheme2c.Lexer.State.{
  Unicode, done, assertion, out_of_fuel, Scan, pure, skip, ◌>>=◌, ◌>>◌, current, count, holds,
  is_char, is_eof, set_readp_ix, set_readp_back, delim, chrp_eofdelim, readp, readp_precise_asci,
  lex_badlex, lex_error,
}
use scheme2c.Prelude.Word
use scheme2c.Chars.{chrp_num_afterhash, chrp_num_precmarker, chrp_expmarker, chr_to_radix, chr_hash}
use scheme2c.Builtins.Num.{Double, wrap_fixnum}
use scheme2c.Lexer.Identifier.{Lex, fixnum, real}

-- What the lexer asks of doubles besides the operations of the numeric library: `pow` has an integer
-- base and the exponent as a `long`.
pub record Reals : Type 0 where
  pub double : Double
  pub of_ulong : ℕ → ℕ
  pub pow : ℕ → ℕ → ℕ
  pub zero_real : ℕ
  pub nan : ℕ
  pub infinity : ℕ

module _ (u : Unicode) where
  abbrev digit_of : ℕ → Option ℕ → Option ℕ
  digit_of radix none = none
  digit_of radix (some c) = u.icu.digit c radix

  abbrev set_count : ℕ → Scan (Unit {0})
  set_count n s = done tt (record s { charcount = n })

  -- The loop of `lex_read_digits`, at the character `ch`.
  unfoldable pub digits_loop : ℕ → (radix : ℕ) → Option ℕ → (result : ℕ) → Scan ℕ
  digits_loop zero radix ch result s = out_of_fuel
  digits_loop (suc f) radix ch result s =
      let rest : Option ℕ → ℕ → Scan ℕ = digits_loop f radix in
      if is_eof s.charcur then done result s else elim (digit_of radix ch) [
        | none ↦ done result s
        | some dig ↦
            (set_count (s.charcount + 1) >> readp u >>= λ c.
            rest c (Word.add (Word.mul result radix) dig))
              s
      ]

  unfoldable pub lex_read_digits : ℕ → (radix : ℕ) → Scan ℕ
  lex_read_digits f radix = do ch ← readp u; set_count 0; digits_loop f radix ch 0

  -- `ss_read_digits`, on a text from the index `c` on: the index behind the digits, and the number.
  unfoldable pub ss_read_digits : ℕ → List ℕ → (radix : ℕ) → (c n : ℕ) → Option (ℕ × ℕ)
  ss_read_digits zero buf radix c n = none
  ss_read_digits (suc f) buf radix c n =
      let rest : ℕ → ℕ → Option (ℕ × ℕ) = ss_read_digits f buf radix in
      elim (u.icu.digit (u.next_char buf c).0 radix) [
        | none ↦ some (c, n)
        | some dig ↦ rest (u.next_char buf c).1 (Word.add (Word.mul n radix) dig)
      ]

  unfoldable pub lex_read_sdigits : ℕ → (radix : ℕ) → Scan ℕ
  lex_read_sdigits f radix = do
    ch ← readp u
    if is_char b'-' ch || is_char b'+' ch then readp u >> skip else skip
    set_readp_back 1
    r ← lex_read_digits f radix
    pure (if is_char b'-' ch then Word.neg r else r)

module _ (u : Unicode) (reals : Reals) where
  open reals use {double, of_ulong, pow, zero_real, nan, infinity}

  abbrev sum : ℕ → ℕ → ℕ
  sum = double.plus

  abbrev product : ℕ → ℕ → ℕ
  product = double.times

  -- The digits behind the point: each is scaled by a negative power of the radix.
  unfoldable pub fract_loop : ℕ → (radix : ℕ) → Option ℕ → (result : ℕ) → Scan ℕ
  fract_loop zero radix ch result s = out_of_fuel
  fract_loop (suc f) radix ch result s =
      let rest : Option ℕ → ℕ → Scan ℕ = fract_loop f radix in
      let n : ℕ = s.charcount + 1 in
      if is_eof s.charcur then done result s else elim (digit_of u radix ch) [
        | none ↦ done result s
        | some dig ↦
            (set_count u n >> readp u >>= λ c.
            rest c (sum result (product (double.of_long dig) (pow radix (Word.neg n)))))
              s
      ]

  unfoldable pub lex_read_fract : ℕ → (radix : ℕ) → Scan ℕ
  lex_read_fract f radix = do ch ← readp u; set_count u 0; fract_loop f radix ch zero_real

-- The prefix read so far: no radix is 0.
pub record Prefix : Type 0 where
  pub radix : ℕ
  pub exact : Bool
  pub wasprec : Bool

abbrev pub no_prefix : Prefix
no_prefix = record { radix = 0; exact = true; wasprec = false }

abbrev pub with_radix : Prefix → Option ℕ → Scan Prefix
with_radix p none s = assertion
with_radix p (some r) s = done (record p { radix = r }) s

module _ (u : Unicode) where
  abbrev bad {ℓ} : {A : Type ℓ} → ℕ → Scan A
  bad f = lex_error u f lex_badlex

  -- One marker behind a `#`. A radix or an exactness that the prefix has already is an error.
  unfoldable pub number_marker : ℕ → Prefix → Option ℕ → Scan Prefix
  number_marker f p none = bad f
  number_marker f p (some c) =
      if not (chrp_num_afterhash c)
      then bad f
      else (if chrp_num_precmarker c
          then (if p.wasprec then bad f else pure (record p { exact = c == b'e'; wasprec = true }))
          else (if p.radix == 0 then with_radix p (chr_to_radix c) else bad f))

  -- Behind the first marker there may be a second.
  unfoldable pub second_marker : ℕ → Prefix → Option ℕ → Scan (Prefix × Option ℕ)
  second_marker f p ch =
      if is_char chr_hash ch
      then (do m ← readp u; q ← number_marker f p m; c ← readp u; pure (q, c))
      else pure (p, ch)

  -- At most two markers, and the character behind them.
  unfoldable pub number_prefix : ℕ → Scan (Prefix × Option ℕ)
  number_prefix f = readp u >>= λ ch.
      if is_char chr_hash ch
      then (do m ← readp u; p ← number_marker f no_prefix m; c ← readp u; second_marker f p c)
      else pure (no_prefix, ch)

  -- The sign, and the character behind it.
  unfoldable pub number_sign : Option ℕ → Scan (Bool × Option ℕ)
  number_sign ch =
      if is_char b'+' ch
      then (readp u >>= λ c. pure (false, c))
      else (if is_char b'-' ch then (readp u >>= λ c. pure (true, c)) else pure (false, ch))

-- The parts of a number that were read.
pub record Parts : Type 0 where
  pub mnt : ℕ
  pub wasmnt : Bool
  pub frac : ℕ
  pub wasfrac : Bool
  pub den : ℕ
  pub wasden : Bool
  pub ex : ℕ
  pub wasex : Bool

module _ (u : Unicode) (reals : Reals) where
  open reals use {double, of_ulong, pow, zero_real, nan, infinity}

  abbrev pub whole : ℕ → ℕ → Parts
  whole mnt n = record {
    mnt = mnt;
    wasmnt = not (n == 0);
    frac = zero_real;
    wasfrac = false;
    den = 0;
    wasden = false;
    ex = 0;
    wasex = false;
  }

  -- What may follow the digits: a fraction behind a point, or a denominator.
  unfoldable pub number_point : ℕ → (radix : ℕ) → Parts → Scan Parts
  number_point f radix p = do
    frac ← lex_read_fract u reals f radix
    k ← count
    pure (record p { frac = frac; wasfrac = not (k == 0) })

  unfoldable pub number_slash : ℕ → (radix : ℕ) → Parts → Scan Parts
  number_slash f radix p = do
    if p.wasmnt then skip else lex_error u f lex_badlex
    den ← lex_read_digits u f radix
    k ← count
    if k == 0 then lex_error u f lex_badlex else pure (record p { den = den; wasden = true })

  -- The character that was read last is read again, as the first digit.
  unfoldable pub number_mantissa : ℕ → (radix : ℕ) → Scan Parts
  number_mantissa f radix = do
    λ s. set_readp_ix (s.ixpref - 1) s
    mnt ← lex_read_digits u f radix
    n ← count
    ch ← current
    if is_char b'.' ch
        then number_point f radix (whole mnt n)
        else (if is_char b'/' ch then number_slash f radix (whole mnt n) else pure (whole mnt n))

  unfoldable pub number_exponent : ℕ → (radix : ℕ) → Parts → Scan Parts
  number_exponent f radix p = do
    ch ← current
    if holds chrp_expmarker ch
        then (do
          ex ← lex_read_sdigits u f radix
          k ← count
          if k == 0 then lex_error u f lex_badlex else pure (record p { ex = ex; wasex = true }))
        else pure p

  abbrev pub sign_real : Bool → ℕ
  sign_real negative = double.of_long (if negative then Word.neg 1 else 1)

  -- The result: a fixnum if the number is an exact integer, else a real.
  unfoldable pub number_value : (radix : ℕ) → (exact negative : Bool) → Parts → Lex
  number_value radix exact negative p =
      let whole : ℕ =
        if p.wasden
        then double.divide (double.of_long p.mnt) (of_ulong p.den)
        else double.plus (double.of_long p.mnt) p.frac in
      if p.wasmnt && not p.wasfrac && not p.wasex && not p.wasden && exact
      then fixnum (wrap_fixnum (if negative then Word.neg p.mnt else p.mnt))
      else real (double.times (double.times whole (sign_real negative)) (pow radix p.ex))

  -- `nan.0` and `inf.0` behind their first letter.
  unfoldable pub number_named : ℕ → (rest : List ℕ) → (value : ℕ) → Scan Lex
  number_named f rest value = do
    r ← readp_precise_asci u rest
    c ← current
    if r && delim u c then pure (real value) else lex_error u f lex_badlex

  unfoldable pub number_body : ℕ → (radix : ℕ) → (exact negative : Bool) → Scan Lex
  number_body f radix exact negative = do
    p ← number_mantissa f radix
    if p.wasmnt || p.wasfrac then skip else lex_error u f lex_badlex
    q ← number_exponent f radix p
    c ← current
    if is_char b'+' c || is_char b'-' c || is_char b'@' c || not (chrp_eofdelim u c)
        then lex_error u f lex_badlex
        else pure (number_value radix exact negative q)

  unfoldable pub lex_read_number : ℕ → Scan Lex
  lex_read_number f = do
    (p, ch) ← number_prefix u f
    (negative, c) ← number_sign u ch
    let radix = if p.radix == 0 then 10 else p.radix
    if is_char b'n' c
        then number_named f (b'a' ∷ b'n' ∷ b'.' ∷ b'0' ∷ []) (double.times (sign_real negative) nan)
        else (if is_char b'i' c
            then number_named f (b'n' ∷ b'f' ∷ b'.' ∷ b'0' ∷ [])
                (double.times (sign_real negative) infinity)
            else number_body f radix p.exact negative)
