-- ===== src/Utf/Decoded.antt =====
-- source/unistr.c: ntfs_utf8_to_utf16 on the bytes of values.
use libntfs.Prelude.{
  ℕ, zero, suc, ◌+◌, ◌*◌, ◌/◌, ◌%◌, ◌^◌, ◌≤◌, ◌<◌, ◌≡◌, inl, inr, refl, ◌∙◌, ap, arith, List, [],
  ◌∷◌, ◌++◌, true, false, Bool-cases, All, length, length-append, drop, drop-append_length, ltb,
  leb,
}
use libntfs.Utf.{ok, char, utf8_to_unicode, is_next, units_of, decode_utf8}
use libntfs.Utf.Points.{bytes_of, concat_map}
use libntfs.Utf.Encoded.{IsPoint}

next_true : (n : ℕ) → is_next (0x80 + n % 64) ≡ true
next_true n = ground arith

sequence_two :
    (p : ℕ) (s : List ℕ)
    → 0x80 ≤ p
    → p < 0x800
    → utf8_to_unicode ((0xc0 + p / 64 % 64) ∷ (0x80 + p % 64) ∷ s) ≡ char p 2
unfolding utf8_to_unicode
sequence_two p s low high =
    let b0 = 0xc0 + p / 64 % 64 in
    let a : ltb b0 0x80 ≡ false = ground (arith, low, high) in
    let b : ltb b0 0xc2 ≡ false = ground (arith, low, high) in
    let c : ltb b0 0xe0 ≡ true = ground (arith, low, high) in
    rw (a, b, c, next_true p, utf8_to_unicode) (ap (λ wc. char wc 2) (omega (arith, low, high)))

sequence_three :
    (p : ℕ) (s : List ℕ)
    → 0x800 ≤ p
    → p < 0x10000
    → utf8_to_unicode ((0xe0 + p / 4096) ∷ (0x80 + p / 64 % 64) ∷ (0x80 + p % 64) ∷ s) ≡ char p 3
unfolding utf8_to_unicode
sequence_three p s low high =
    let b0 = 0xe0 + p / 4096 in
    let a : ltb b0 0x80 ≡ false = ground (arith, low, high) in
    let b : ltb b0 0xc2 ≡ false = ground (arith, low, high) in
    let c : ltb b0 0xe0 ≡ false = ground (arith, low, high) in
    let d : ltb b0 0xf0 ≡ true = ground (arith, low, high) in
    let value : b0 % 16 * 4096 + (0x80 + p / 64 % 64) % 64 * 64 + (0x80 + p % 64) % 64 ≡ p =
      omega (arith, low, high) in
    let e : leb 0x800 p ≡ true = ground (arith, low) in
    rw (a, b, c, d, next_true (p / 64), next_true p, value, e, utf8_to_unicode) refl

sequence_four :
    (p : ℕ) (s : List ℕ)
    → 0x10000 ≤ p
    → p < 0x110000
    → utf8_to_unicode
        ((0xf0 + p / 2 ^ 18) ∷ (0x80 + p / 4096 % 64) ∷ (0x80 + p / 64 % 64) ∷ (0x80 + p % 64) ∷ s)
      ≡ char p 4
unfolding utf8_to_unicode
sequence_four p s low high =
    let b0 = 0xf0 + p / 2 ^ 18 in
    let a : ltb b0 0x80 ≡ false = ground (arith, low, high) in
    let b : ltb b0 0xc2 ≡ false = ground (arith, low, high) in
    let c : ltb b0 0xe0 ≡ false = ground (arith, low, high) in
    let d : ltb b0 0xf0 ≡ false = ground (arith, low, high) in
    let f : ltb b0 0xf5 ≡ true = ground (arith, low, high) in
    let value : b0 % 8 * 2 ^ 18
          + (0x80 + p / 4096 % 64) % 64 * 4096
          + (0x80 + p / 64 % 64) % 64 * 64
          + (0x80 + p % 64) % 64
        ≡ p =
      omega (arith, low, high) in
    let e : leb p 0x10ffff ≡ true = ground (arith, high) in
    let g : leb 0x10000 p ≡ true = ground (arith, low) in
    rw
      (
        a,
        b,
        c,
        d,
        f,
        next_true (p / 4096),
        next_true (p / 64),
        next_true p,
        value,
        e,
        g,
        utf8_to_unicode,
      )
      refl

-- The value of a sequence is read back, with its length.
sequence-bytes_of :
    (p : ℕ) (s : List ℕ)
    → IsPoint p
    → utf8_to_unicode (bytes_of p ++ s) ≡ char p (length (bytes_of p))
unfolding utf8_to_unicode bytes_of
sequence-bytes_of p s (pos, small) = elim (Bool-cases (ltb p 0x80)) [
  | inl a ↦ rw (a, bytes_of) (rw (a, utf8_to_unicode) refl)
  | inr a ↦ elim (Bool-cases (ltb p 0x800)) [
    | inl b ↦ rw (a, b, bytes_of) (sequence_two p s (ground (arith, a)) (ground (arith, b)))
    | inr b ↦ elim (Bool-cases (ltb p 0x10000)) [
      | inl c ↦ rw (a, b, c, bytes_of) (sequence_three p s (ground (arith, b)) (ground (arith, c)))
      | inr c ↦ rw (a, b, c, bytes_of) (sequence_four p s (ground (arith, c)) small)
    ]
  ]
]

decode_char :
    (fuel : ℕ) (t : List ℕ) (wc m : ℕ) (outs : List ℕ)
    → utf8_to_unicode t ≡ char wc m
    → decode_utf8 fuel (drop m t) ≡ ok outs
    → decode_utf8 (suc fuel) t ≡ ok (units_of wc ++ outs)
unfolding decode_utf8
decode_char fuel t wc m outs h k = rw (h, decode_utf8) (rw (k, decode_utf8) refl)

pub length-bytes_of : (p : ℕ) → 0 < length (bytes_of p)
unfolding bytes_of
length-bytes_of p = elim (Bool-cases (ltb p 0x80)) [
  | inl a ↦ rw (a, bytes_of) (omega arith)
  | inr a ↦ elim (Bool-cases (ltb p 0x800)) [
    | inl b ↦ rw (a, b, bytes_of) (omega arith)
    | inr b ↦ elim (Bool-cases (ltb p 0x10000)) [
      | inl c ↦ rw (a, b, c, bytes_of) (omega arith)
      | inr c ↦ rw (a, b, c, bytes_of) (omega arith)
    ]
  ]
]

pub decode_utf8-bytes_of :
    (fuel : ℕ) (ps : List ℕ)
    → All IsPoint ps
    → length (concat_map bytes_of ps) < fuel
    → decode_utf8 fuel (concat_map bytes_of ps) ≡ ok (concat_map units_of ps)
unfolding concat_map decode_utf8 utf8_to_unicode
decode_utf8-bytes_of zero ps points h = absurd (omega (arith, h))
decode_utf8-bytes_of (suc fuel) [] points h = refl
decode_utf8-bytes_of (suc fuel) (p ∷ ps) points h =
    let rest = concat_map bytes_of ps in
    decode_char fuel (bytes_of p ++ rest) p (length (bytes_of p)) (concat_map units_of ps)
      (sequence-bytes_of p rest points.0)
      (ap (decode_utf8 fuel) (drop-append_length (bytes_of p) rest)
        ∙ decode_utf8-bytes_of fuel ps points.1
            (omega (arith, h, length-append (bytes_of p) rest, length-bytes_of p)))
