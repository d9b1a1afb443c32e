-- ===== src/Tests/Utfs.antt =====
-- source/unistr.c: conversions of names between UTF-16 and UTF-8.
use libntfs.Prelude.{
  ℕ, ◌≡◌, refl, arith, List, [], ◌∷◌, some, none, All, length, ltb, if◌then◌else◌,
}
use libntfs.Utf.{
  ok, eilseq, enametoolong, size_one, size_step, size_loop, size_end, utf16_to_utf8_size,
  encode_one, encode_step, encode_loop, utf16_to_utf8, size8_loop, utf8_to_unicode, units_of,
  decode_utf8, utf8_to_utf16,
}
use libntfs.Utf.Points.{IsUnit}
use libntfs.Utf.Measured.{utf16_to_utf8_size-length}
use libntfs.Utf.RoundTrip.{utf8_to_utf16-utf16_to_utf8}

-- A letter, an umlaut, a euro sign, a pair, and a half without another.
abbrev name : List ℕ
name = 0x41 ∷ 0xe4 ∷ 0x20ac ∷ 0xd83d ∷ 0xde00 ∷ 0xd800 ∷ []

abbrev name_bytes : List ℕ
name_bytes =
    0x41 ∷ 0xc3 ∷ 0xa4 ∷ 0xe2 ∷ 0x82 ∷ 0xac ∷ 0xf0 ∷ 0x9f ∷ 0x98 ∷ 0x80 ∷ 0xed ∷ 0xa0 ∷ 0x80 ∷ []

name-IsUnit : All IsUnit name
name-IsUnit = (
  (omega arith, omega arith),
  (
    (omega arith, omega arith),
    (
      (omega arith, omega arith),
      ((omega arith, omega arith), ((omega arith, omega arith), ((omega arith, omega arith), tt))),
    ),
  ),
)

converts : utf16_to_utf8 1024 name none ≡ ok name_bytes
unfolding utf16_to_utf8 size_end size_loop size_step size_one encode_loop encode_step encode_one
converts = refl

-- A byte too few, with the terminator.
refuses : utf16_to_utf8 1024 name (some 13) ≡ enametoolong
unfolding utf16_to_utf8 size_end size_loop size_step size_one encode_loop encode_step encode_one
refuses = refl

-- A sequence that is longer than it needs to be.
overlong : utf8_to_utf16 1024 (0xe0 ∷ 0x81 ∷ 0x81 ∷ []) ≡ eilseq
unfolding utf8_to_utf16 size8_loop decode_utf8 utf8_to_unicode units_of
overlong = refl

utf8_to_utf16-utf16_to_utf8_example : utf8_to_utf16 1024 name_bytes ≡ ok name
utf8_to_utf16-utf16_to_utf8_example =
    utf8_to_utf16-utf16_to_utf8 1024 name name_bytes none name-IsUnit (omega arith) converts

utf16_to_utf8_size-length_example : utf16_to_utf8_size name 14 ≡ (
    if ltb (length (encode_loop 0 name)) 14 then ok (length (encode_loop 0 name)) else enametoolong)
utf16_to_utf8_size-length_example = utf16_to_utf8_size-length 14 name name-IsUnit
