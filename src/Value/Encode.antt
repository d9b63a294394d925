-- ===== src/Value/Encode.antt =====
-- Values as words: the encoding of inc/datum.h loses nothing on the values that fit it, so a
-- comparison of descriptors is a comparison of values.
use scheme2c.Prelude.{◌*◌, ◌/◌, ◌^◌, ◌<◌, ◌≡◌, refl, ap, ◌↔◌, true, arith, if◌then◌else◌}
use scheme2c.Prelude.Word.{modulus, fits_fixnum}
use scheme2c.Descr.{
  Word, desc_from_spec, desc_from_fixnum, desc_from_char, desc_from_local, desc_from_glob,
  desc_to_spec, desc_to_fixnum, desc_to_char, desc_loc_fr, desc_loc_ix, desc_to_glob,
  desc_is_fixnum, desc_is_spec, desc_is_char, desc_is_local, desc_is_global, scp_valid,
}
use scheme2c.Value.{Value, nihil, spec, fixnum, char, local, global, ptr}

unfoldable pub encode : Value → Word
unfolding desc_from_spec desc_from_fixnum desc_from_char desc_from_local desc_from_glob
encode nihil = 0
encode (spec n) = desc_from_spec n
encode (fixnum v) = desc_from_fixnum v
encode (char c) = desc_from_char c
encode (local f i) = desc_from_local f i
encode (global n) = desc_from_glob n
encode (ptr p) = 8 * p

-- The ranges that the encoding has room for: 63 bits for a fixnum, a code point of 26 bits, 8 bits
-- for a frame.
abbrev pub Fits : Value → Type 0
Fits nihil = Unit
Fits (spec n) = n < 2 ^ 26
Fits (fixnum v) = (v < modulus) × (fits_fixnum v ≡ true)
Fits (char c) = c < 2 ^ 26
Fits (local f i) = (f < 2 ^ 8) × (i < 2 ^ 51)
Fits (global n) = n < 2 ^ 26
Fits (ptr p) = (0 < p) × (8 * p < modulus)

-- The reading of a word by the tests of the header, in turn.
unfoldable pub decode : Word → Value
unfolding desc_to_spec desc_to_fixnum desc_to_char desc_loc_fr desc_loc_ix desc_to_glob
    desc_is_fixnum desc_is_spec desc_is_char desc_is_local desc_is_global scp_valid
decode d =
    if desc_is_fixnum d
    then fixnum (desc_to_fixnum d)
    else (if desc_is_spec d
        then spec (desc_to_spec d)
        else (if desc_is_char d
            then char (desc_to_char d)
            else (if desc_is_local d
                then local (desc_loc_fr d) (desc_loc_ix d)
                else (if desc_is_global d
                    then global (desc_to_glob d)
                    else (if scp_valid d then ptr (d / 8) else nihil)))))

-- A value in range reads back from its descriptor as itself.
pub decode-encode : (v : Value) → Fits v → decode (encode v) ≡ v
unfolding decode encode
decode-encode nihil h = refl
decode-encode _ h = ground arith

-- Two values in range have the same descriptor exactly when they are the same.
pub encode_iff : (v w : Value) → Fits v → Fits w → (encode v ≡ encode w) ↔ (v ≡ w)
encode_iff v w hv hw = (λ e. cc (decode-encode v hv, decode-encode w hw), λ e. ap encode e)
