-- ===== src/Utf/Encoded.antt =====
-- source/unistr.c: the bytes that ntfs_utf16_to_utf8 writes are those of the values of the units.
use libntfs.Prelude.{
  ℕ, ◌^◌, ◌<◌, subst, ◌≡◌, inl, inr, refl, sym, ◌∙◌, ap, arith, List, [], ◌∷◌, ◌++◌, append_assoc,
  append-nil, true, false, Bool-cases, All, ◌==◌,
}
use libntfs.Utf.{is_low, three_bytes, four_bytes, encode_one, encode_step, encode_loop, units_of}
use libntfs.Utf.Points.{
  bytes_of, concat_map, is_half, pair_of, waiting, points, IsUnit, IsHalf, encode_one-half,
  encode_one-bytes_of, half-bytes_of, low_range, IsHalf-range, pair-bytes_of, unit-units_of,
  pair-units_of,
}

-- The ways a string goes on, behind no half or behind one.
pub record Steps (P : ℕ → List ℕ → Type 0) : Type 0 where
  pub ends : P 0 []
  pub ends_half : (h : ℕ) → IsHalf h → P h []
  pub half : (c : ℕ) (ins : List ℕ) → IsHalf c → P c ins → P 0 (c ∷ ins)
  pub unit : (c : ℕ) (ins : List ℕ) → IsUnit c → is_half c ≡ false → P 0 ins → P 0 (c ∷ ins)
  pub pair : (h c : ℕ) (ins : List ℕ) → IsHalf h → is_low c ≡ true → P 0 ins → P h (c ∷ ins)
  pub single :
      (h c : ℕ) (ins : List ℕ)
      → IsHalf h
      → IsUnit c
      → is_low c ≡ false
      → P 0 (c ∷ ins)
      → P h (c ∷ ins)

module _ (P : ℕ → List ℕ → Type 0) (steps : Steps P) where
  both_of : (ins : List ℕ) → All IsUnit ins → P 0 ins × ((h : ℕ) → IsHalf h → P h ins)
  both_of [] units = (steps.ends, steps.ends_half)
  both_of (c ∷ ins) (u, units) =
      let (p0, ph) = both_of ins units in
      let first = first_of c ins u p0 ph in
      (
        first,
        λ h is_half. elim (Bool-cases (is_low c)) [
          | inl low ↦ steps.pair h c ins is_half low p0
          | inr other ↦ steps.single h c ins is_half u other first
        ],
      )
    where
      first_of :
          (c : ℕ) (ins : List ℕ)
          → IsUnit c
          → P 0 ins
          → ((h : ℕ) → IsHalf h → P h ins)
          → P 0 (c ∷ ins)
      first_of c ins u p0 ph = elim (Bool-cases (is_half c)) [
        | inl h ↦ steps.half c ins (IsHalf-range c h) (ph c (IsHalf-range c h))
        | inr other ↦ steps.unit c ins u other p0
      ]

  pub by_steps : (ins : List ℕ) → All IsUnit ins → P 0 ins
  by_steps ins units = (both_of ins units).0

half_true : (c : ℕ) → IsHalf c → is_half c ≡ true
half_true c h = ground (arith, h.0, h.1)

half_not_zero : (c : ℕ) → IsHalf c → (c == 0) ≡ false
half_not_zero c h = ground (arith, h.0)

unit_not_zero : (c : ℕ) → 0 < c → (c == 0) ≡ false
unit_not_zero c h = ground (arith, h)

points-half : (c : ℕ) (ins : List ℕ) → IsHalf c → points 0 (c ∷ ins) ≡ points c ins
unfolding points
points-half c ins h = rw (half_true c h, points) refl

points-unit : (c : ℕ) (ins : List ℕ) → is_half c ≡ false → points 0 (c ∷ ins) ≡ c ∷ points 0 ins
unfolding points
points-unit c ins h = rw (h, points) refl

points-pair :
    (h c : ℕ) (ins : List ℕ)
    → IsHalf h
    → is_low c ≡ true
    → points h (c ∷ ins) ≡ pair_of h c ∷ points 0 ins
unfolding points
points-pair h c ins half low = rw (half_not_zero h half, low, points) refl

points-single :
    (h c : ℕ) (ins : List ℕ)
    → IsHalf h
    → is_low c ≡ false
    → points h (c ∷ ins) ≡ h ∷ points 0 (c ∷ ins)
unfolding points
points-single h c ins half low = rw (half_not_zero h half, low, points) refl

points-end : (h : ℕ) → IsHalf h → points h [] ≡ h ∷ []
unfolding points
points-end h half = rw (half_not_zero h half, points) refl

pub encode_loop-next :
    (h c : ℕ) (ins : List ℕ)
    → 0 < c
    → encode_loop h (c ∷ ins) ≡ (encode_step h c).0 ++ encode_loop (encode_step h c).1 ins
unfolding encode_loop
encode_loop-next h c ins pos = rw (unit_not_zero c pos, encode_loop) refl

pub encode_loop-pair :
    (h c : ℕ) (ins : List ℕ)
    → IsHalf h
    → is_low c ≡ true
    → 0 < c
    → encode_loop h (c ∷ ins) ≡ four_bytes h c ++ encode_loop 0 ins
unfolding encode_step
encode_loop-pair h c ins half low pos =
    let step : encode_step h c ≡ (four_bytes h c, 0) =
      rw (half_not_zero h half, low, encode_step) refl in
    encode_loop-next h c ins pos ∙ ap (λ r. r.0 ++ encode_loop r.1 ins) step

pub encode_loop-single :
    (h c : ℕ) (ins : List ℕ)
    → IsHalf h
    → is_low c ≡ false
    → 0 < c
    → encode_loop h (c ∷ ins) ≡ three_bytes h ++ encode_loop 0 (c ∷ ins)
unfolding encode_step
encode_loop-single h c ins half low pos =
    let step : encode_step h c ≡ (three_bytes h ++ (encode_one c).0, (encode_one c).1) =
      rw (half_not_zero h half, low, encode_step) refl in
    encode_loop-next h c ins pos
    ∙ ap (λ r. r.0 ++ encode_loop r.1 ins) step
    ∙ append_assoc (three_bytes h) (encode_one c).0 (encode_loop (encode_one c).1 ins)
    ∙ ap (λ bytes. three_bytes h ++ bytes) (sym (encode_loop-next 0 c ins pos))

-- The bytes are those of the values.
abbrev Encodes : ℕ → List ℕ → Type 0
Encodes h ins = encode_loop h ins ≡ concat_map bytes_of (points h ins)

encodes : Steps Encodes
unfolding encode_loop concat_map encode_step points
encodes = record {
  ends = refl;
  ends_half = λ h half.
      ends_in_half h half
      ∙ sym (
          ap (concat_map bytes_of) (points-end h half)
          ∙ append-nil (bytes_of h)
          ∙ half-bytes_of h half);
  half = λ c ins half eq.
      encode_loop-next 0 c ins (omega (arith, half.0))
      ∙ ap (λ r. r.0 ++ encode_loop r.1 ins) (encode_one-half c half)
      ∙ eq
      ∙ sym (ap (concat_map bytes_of) (points-half c ins half));
  unit = λ c ins u other eq.
      encode_loop-next 0 c ins u.0
      ∙ ap (λ r. r.0 ++ encode_loop r.1 ins) (encode_one-bytes_of c u other)
      ∙ ap (λ bytes. bytes_of c ++ bytes) eq
      ∙ sym (ap (concat_map bytes_of) (points-unit c ins other));
  pair = λ h c ins half low eq.
      let range = low_range c low in
      encode_loop-pair h c ins half low (omega (arith, range.0))
      ∙ ap (λ bytes. four_bytes h c ++ bytes) eq
      ∙ ap (λ bytes. bytes ++ concat_map bytes_of (points 0 ins))
          (sym (pair-bytes_of h c half range))
      ∙ sym (ap (concat_map bytes_of) (points-pair h c ins half low));
  single = λ h c ins half u other eq.
      encode_loop-single h c ins half other u.0
      ∙ ap (λ bytes. three_bytes h ++ bytes) eq
      ∙ ap (λ bytes. bytes ++ concat_map bytes_of (points 0 (c ∷ ins))) (sym (half-bytes_of h half))
      ∙ sym (ap (concat_map bytes_of) (points-single h c ins half other));
}
  where
    ends_in_half : (h : ℕ) → IsHalf h → encode_loop h [] ≡ three_bytes h
    ends_in_half h half = rw (half_not_zero h half, encode_loop) refl

pub encode_loop-points :
    (ins : List ℕ) → All IsUnit ins → encode_loop 0 ins ≡ concat_map bytes_of (points 0 ins)
encode_loop-points ins units = by_steps Encodes encodes ins units

-- The units of the values are those of the string.
abbrev Decomposes : ℕ → List ℕ → Type 0
Decomposes h ins = concat_map units_of (points h ins) ≡ waiting h ins

waiting-half : (h : ℕ) (ins : List ℕ) → IsHalf h → waiting h ins ≡ h ∷ ins
waiting-half h ins half = rw (half_not_zero h half) refl

small_half : (h : ℕ) → IsHalf h → h < 2 ^ 16
small_half h half = omega (arith, half.1)

decomposes : Steps Decomposes
unfolding concat_map points
decomposes = record {
  ends = refl;
  ends_half = λ h half.
      ap (concat_map units_of) (points-end h half)
      ∙ append-nil (units_of h)
      ∙ unit-units_of h (small_half h half)
      ∙ sym (waiting-half h [] half);
  half = λ c ins half eq.
      ap (concat_map units_of) (points-half c ins half) ∙ eq ∙ waiting-half c ins half;
  unit = λ c ins u other eq.
      ap (concat_map units_of) (points-unit c ins other)
      ∙ ap (λ units. units ++ concat_map units_of (points 0 ins)) (unit-units_of c u.1)
      ∙ ap (λ units. c ∷ units) eq;
  pair = λ h c ins half low eq.
      ap (concat_map units_of) (points-pair h c ins half low)
      ∙ ap (λ units. units ++ concat_map units_of (points 0 ins))
          (pair-units_of h c half (low_range c low))
      ∙ ap (λ units. h ∷ c ∷ units) eq
      ∙ sym (waiting-half h (c ∷ ins) half);
  single = λ h c ins half u other eq.
      ap (concat_map units_of) (points-single h c ins half other)
      ∙ ap (λ units. units ++ concat_map units_of (points 0 (c ∷ ins)))
          (unit-units_of h (small_half h half))
      ∙ ap (λ units. h ∷ units) eq
      ∙ sym (waiting-half h (c ∷ ins) half);
}

pub concat_map-points : (ins : List ℕ) → All IsUnit ins → concat_map units_of (points 0 ins) ≡ ins
concat_map-points ins units = by_steps Decomposes decomposes ins units

-- The values are characters of Unicode, or halves.
abbrev pub IsPoint : ℕ → Type 0
IsPoint p = (0 < p) × (p < 0x110000)

abbrev Points : ℕ → List ℕ → Type 0
Points h ins = All IsPoint (points h ins)

valid : Steps Points
unfolding points
valid = record {
  ends = tt;
  ends_half = λ h half.
      subst (All IsPoint) (sym (points-end h half))
        ((omega (arith, half.0), omega (arith, half.1)), tt);
  half = λ c ins half ps. subst (All IsPoint) (sym (points-half c ins half)) ps;
  unit = λ c ins u other ps.
      subst (All IsPoint) (sym (points-unit c ins other)) ((u.0, omega (arith, u.1)), ps);
  pair = λ h c ins half low ps.
      let range = low_range c low in
      subst (All IsPoint) (sym (points-pair h c ins half low))
        ((omega arith, omega (arith, half.0, half.1, range.0, range.1)), ps);
  single = λ h c ins half u other ps.
      subst (All IsPoint) (sym (points-single h c ins half other))
        ((omega (arith, half.0), omega (arith, half.1)), ps);
}

pub points-IsPoint : (ins : List ℕ) → All IsUnit ins → All IsPoint (points 0 ins)
points-IsPoint ins units = by_steps Points valid ins units
