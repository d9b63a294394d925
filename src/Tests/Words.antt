-- ===== src/Tests/Words.antt =====
-- Descriptors, tags and characters at concrete inputs.
use scheme2c.Prelude.{
  ℕ, ◌+◌, ◌-◌, ◌*◌, ◌/◌, ◌%◌, ◌^◌, ◌≡◌, refl, ◌↔◌, true, false, ◌&&◌, none, arith, leb, ◌==◌,
}
use scheme2c.Prelude.Word.{fits_fixnum}
use scheme2c.Descr.{desc_is_fixnum, desc_from_fixnum, desc_to_fixnum}
use scheme2c.Descr.Codes.{desc_to_fixnum-desc_from_fixnum}
use scheme2c.Value.{local}
use scheme2c.Value.Encode.{encode, decode, decode-encode}
use scheme2c.Tag.{tag_is_old, tag_is_added, tag_get_gcclass, tag_get_age, tag_inc_age, tag_get_refc}
use scheme2c.Tag.Fields.{SameDatum, tag_inc_age_lem}
use scheme2c.Chars.{chrp_num_afterhash, chrp_num_precmarker, Icu}

-- The smallest fixnum, -2 ^ 62.
desc_to_fixnum-desc_from_fixnum_example :
    (desc_is_fixnum (desc_from_fixnum (2 ^ 64 - 2 ^ 62)) ≡ true)
    × ((desc_to_fixnum (desc_from_fixnum (2 ^ 64 - 2 ^ 62)) ≡ 2 ^ 64 - 2 ^ 62)
        ↔ (fits_fixnum (2 ^ 64 - 2 ^ 62) ≡ true))
desc_to_fixnum-desc_from_fixnum_example =
    desc_to_fixnum-desc_from_fixnum (2 ^ 64 - 2 ^ 62) (omega arith)

decode-encode_example : decode (encode (local 3 1000)) ≡ local 3 1000
decode-encode_example = decode-encode (local 3 1000) (omega arith, omega arith)

-- A young pair of age 7.
abbrev tag : ℕ
tag = 7 * 2 ^ 29 + 13 * 2 ^ 6 + 1

tag_inc_age_lem_example :
    SameDatum (tag_inc_age tag) tag
    × (tag_get_gcclass (tag_inc_age tag) ≡ tag_get_gcclass tag)
    × (tag_is_old (tag_inc_age tag) ≡ tag_is_old tag)
    × (tag_is_added (tag_inc_age tag) ≡ tag_is_added tag)
    × (tag_get_age (tag_inc_age tag) ≡ (tag_get_age tag + 1) % 8)
    × (tag_get_refc (tag_inc_age tag) ≡ (tag_get_refc tag + (tag_get_age tag + 1) / 8) % 2 ^ 32)
tag_inc_age_lem_example = tag_inc_age_lem tag (omega arith)

-- The library on ASCII alone.
abbrev ascii : Icu
ascii = record {
  is_white_space = λ c. c == 32;
  is_digit = λ c. leb 48 c && leb c 57;
  is_xdigit = λ c. leb 48 c && leb c 57;
  is_print = λ c. leb 32 c && leb c 126;
  in_category = λ c k. c == 37;
  digit = λ c r. none;
}

hexadecimal : chrp_num_afterhash 120 ≡ true
unfolding chrp_num_afterhash
hexadecimal = refl

no_exactness : chrp_num_precmarker 120 ≡ false
unfolding chrp_num_precmarker
no_exactness = refl
