-- ===== src/Utf/Measured.antt =====
-- source/unistr.c: utf16_to_utf8_size against the bytes that ntfs_utf16_to_utf8 writes.
use native.Mathlib.Nat.{add-zero, zero-add}
use libntfs.Prelude.{
  ℕ, ◌+◌, ◌<◌, ◌≡◌, ◌⊎◌, inl, inr, refl, sym, ◌∙◌, ap, arith, List, [], ◌∷◌, ◌++◌, Bool, true,
  false, not, Bool-cases, All, length, length-append, ltb, ◌==◌, if◌then◌else◌,
}
use libntfs.Utf.{
  Converted, ok, enametoolong, is_low, size_one, size_step, size_loop, size_end, utf16_to_utf8_size,
  three_bytes, four_bytes, encode_step, encode_loop,
}
use libntfs.Utf.Points.{bytes_of, is_half, IsUnit, IsHalf, encode_one-half, encode_one-bytes_of}
use libntfs.Utf.Encoded.{Steps, by_steps, encode_loop-next, encode_loop-pair, encode_loop-single}

-- What the size of the bytes decides.
verdict : ℕ → ℕ → Converted ℕ
verdict limit total = if ltb total limit then ok total else enametoolong

module _ (limit : ℕ) where
  -- The size that the loop ends with, from a count on.
  abbrev Counts : ℕ → List ℕ → Type 0
  Counts h ins =
      (count : ℕ)
      → size_end limit (size_loop limit count (not (h == 0)) ins)
        ≡ verdict limit (count + length (encode_loop h ins))

  ended :
      (count : ℕ) (surrog : Bool)
      → ltb count limit ≡ false
      → size_end limit (count, surrog) ≡ enametoolong
  unfolding size_end
  ended count true h = rw (h, size_end) (rw h refl)
  ended count false h = rw (h, size_end) refl

  -- Above the limit every string is too long.
  too_long :
      (count : ℕ) (surrog : Bool) (ins : List ℕ)
      → ltb count limit ≡ false
      → size_end limit (size_loop limit count surrog ins) ≡ enametoolong
  unfolding size_end size_loop size_step
  too_long count surrog [] h = ended count surrog h
  too_long count surrog (c ∷ ins) h = by_zero (Bool-cases (c == 0))
    where
      by_zero :
          ((c == 0) ≡ true) ⊎ ((c == 0) ≡ false)
          → size_end limit (size_loop limit count surrog (c ∷ ins)) ≡ enametoolong
      by_zero (inl z) = rw (z, size_loop, size_step) (ended count surrog h)
      by_zero (inr z) = rw (z, h, size_loop, size_step) (ended count surrog h)

  verdict_long : (count n : ℕ) → ltb count limit ≡ false → verdict limit (count + n) ≡ enametoolong
  unfolding verdict
  verdict_long count n h =
      let over : ltb (count + n) limit ≡ false = ground (arith, h) in rw (over, verdict) refl

  -- A round of the loop below the limit.
  size_next :
      (count : ℕ) (surrog : Bool) (c : ℕ) (ins : List ℕ) (count' : ℕ) (surrog' : Bool)
      → size_step limit count surrog c ≡ (true, count', surrog')
      → size_loop limit count surrog (c ∷ ins) ≡ size_loop limit count' surrog' ins
  unfolding size_loop
  size_next count surrog c ins count' surrog' h = rw (h, size_loop) refl

  size_one-half : (count c : ℕ) → IsHalf c → size_one count c ≡ (true, count, true)
  unfolding size_one
  size_one-half count c (low, high) =
      let a : ltb c 0x80 ≡ false = ground (arith, low) in
      let b : ltb c 0x800 ≡ false = ground (arith, low) in
      let d : ltb c 0xd800 ≡ false = ground (arith, low) in
      let e : ltb c 0xdc00 ≡ true = ground (arith, high) in rw (a, b, d, e, size_one) refl

  size_one-unit :
      (count c : ℕ)
      → IsUnit c
      → is_half c ≡ false
      → size_one count c ≡ (true, count + length (bytes_of c), false)
  unfolding size_one bytes_of
  size_one-unit count c (pos, small) h = elim (Bool-cases (ltb c 0x80)) [
    | inl a ↦ rw (a, size_one, bytes_of) refl
    | inr a ↦ elim (Bool-cases (ltb c 0x800)) [
      | inl b ↦ rw (a, b, size_one, bytes_of) refl
      | inr b ↦
          let s : ltb c 0x10000 ≡ true = ground (arith, small) in
          elim (Bool-cases (ltb c 0xd800)) [
            | inl d ↦ rw (a, b, s, d, size_one, bytes_of) refl
            | inr d ↦
                let e : ltb c 0xdc00 ≡ false = ground (arith, h, d) in
                rw (a, b, s, d, e, size_one, bytes_of) refl
          ]
    ]
  ]

  unit_step :
      (count c : ℕ)
      → 0 < c
      → ltb count limit ≡ true
      → size_step limit count false c ≡ size_one count c
  unfolding size_step
  unit_step count c pos h =
      let z : (c == 0) ≡ false = ground (arith, pos) in rw (z, h, size_step) refl

  -- A round that adds the bytes of what it passes.
  Counts-next :
      (h c : ℕ) (ins : List ℕ) (h' n : ℕ)
      → ((count : ℕ)
          → ltb count limit ≡ true
          → size_step limit count (not (h == 0)) c ≡ (true, count + n, not (h' == 0)))
      → length (encode_loop h (c ∷ ins)) ≡ n + length (encode_loop h' ins)
      → Counts h' ins
      → Counts h (c ∷ ins)
  Counts-next h c ins h' n step len counts count = elim (Bool-cases (ltb count limit)) [
    | inr over ↦
        too_long count (not (h == 0)) (c ∷ ins) over
        ∙ sym (verdict_long count (length (encode_loop h (c ∷ ins))) over)
    | inl below ↦
        ap (size_end limit)
          (size_next count (not (h == 0)) c ins (count + n) (not (h' == 0)) (step count below))
        ∙ counts (count + n)
        ∙ ap (verdict limit) (omega (arith, len))
  ]

  waits : (h : ℕ) → IsHalf h → not (h == 0) ≡ true
  waits h half = let z : (h == 0) ≡ false = ground (arith, half.0) in ap not z

  end_single : (count : ℕ) → size_end limit (count, true) ≡ verdict limit (count + 3)
  unfolding size_end verdict
  end_single count = elim (Bool-cases (ltb count limit)) [
    | inl below ↦ rw (below, size_end, verdict) refl
    | inr over ↦
        let far : ltb (count + 3) limit ≡ false = ground (arith, over) in
        ended count true over ∙ sym (rw (far, verdict) refl)
  ]

  pair_step :
      (count c : ℕ)
      → is_low c ≡ true
      → ltb count limit ≡ true
      → size_step limit count true c ≡ (true, count + 4, false)
  unfolding size_step
  pair_step count c low h =
      let z : (c == 0) ≡ false = ground (arith, low) in rw (z, h, low, size_step) refl

  -- The unit behind a half that has no other is looked at again.
  again :
      (count c : ℕ) (ins : List ℕ)
      → 0 < c
      → is_low c ≡ false
      → ltb count limit ≡ true
      → ltb (count + 3) limit ≡ true
      → size_loop limit count true (c ∷ ins) ≡ size_loop limit (count + 3) false (c ∷ ins)
  unfolding size_loop size_step
  again count c ins pos low h k =
      let z : (c == 0) ≡ false = ground (arith, pos) in
      let step : size_step limit count true c ≡ size_step limit (count + 3) false c =
        rw (z, h, low, k, size_step) refl in
      rw (step, size_loop) refl

  stops :
      (count c : ℕ) (ins : List ℕ)
      → 0 < c
      → is_low c ≡ false
      → ltb count limit ≡ true
      → ltb (count + 3) limit ≡ false
      → size_loop limit count true (c ∷ ins) ≡ (count + 3, false)
  unfolding size_loop size_step
  stops count c ins pos low h k =
      let z : (c == 0) ≡ false = ground (arith, pos) in
      let step : size_step limit count true c ≡ (false, count + 3, false) =
        rw (z, h, low, k, size_step) refl in
      rw (step, size_loop) refl

  single-Counts :
      (h c : ℕ) (ins : List ℕ)
      → IsHalf h
      → IsUnit c
      → is_low c ≡ false
      → Counts 0 (c ∷ ins)
      → Counts h (c ∷ ins)
  single-Counts h c ins half u other counts count =
      let len : length (encode_loop h (c ∷ ins)) ≡ 3 + length (encode_loop 0 (c ∷ ins)) =
        ap length (encode_loop-single h c ins half other u.0)
        ∙ length-append (three_bytes h) (encode_loop 0 (c ∷ ins)) in
      ap (λ b. size_end limit (size_loop limit count b (c ∷ ins))) (waits h half)
      ∙ elim (Bool-cases (ltb count limit)) [
        | inr over ↦
            too_long count true (c ∷ ins) over
            ∙ sym (verdict_long count (length (encode_loop h (c ∷ ins))) over)
        | inl below ↦ elim (Bool-cases (ltb (count + 3) limit)) [
          | inl k ↦
              ap (size_end limit) (again count c ins u.0 other below k)
              ∙ counts (count + 3)
              ∙ ap (verdict limit) (omega (arith, len))
          | inr k ↦
              ap (size_end limit) (stops count c ins u.0 other below k)
              ∙ ended (count + 3) false k
              ∙ sym (verdict_long (count + 3) (length (encode_loop 0 (c ∷ ins))) k)
              ∙ ap (verdict limit) (omega (arith, len))
        ]
      ]

  counted : Steps Counts
  unfolding size_loop encode_loop encode_step size_end verdict
  counted = record {
    ends = λ count. ap (verdict limit) (sym (add-zero count));
    ends_half = λ h half count.
        ap (λ b. size_end limit (count, b)) (waits h half)
        ∙ end_single count
        ∙ ap (verdict limit) (sym (ap (λ bytes. count + length bytes) (ends_in_half h half)));
    half = λ c ins half counts.
        Counts-next 0 c ins c 0
          (λ count below.
            unit_step count c (omega (arith, half.0)) below
            ∙ size_one-half count c half
            ∙ ap (λ n. (true, n, true)) (sym (add-zero count))
            ∙ ap (λ b. (true, count + 0, b)) (sym (waits c half)))
          (ap length (
              encode_loop-next 0 c ins (omega (arith, half.0))
              ∙ ap (λ r. r.0 ++ encode_loop r.1 ins) (encode_one-half c half))
            ∙ omega arith)
          counts;
    unit = λ c ins u other counts.
        Counts-next 0 c ins 0 (length (bytes_of c))
          (λ count below. unit_step count c u.0 below ∙ size_one-unit count c u other)
          (ap length (
              encode_loop-next 0 c ins u.0
              ∙ ap (λ r. r.0 ++ encode_loop r.1 ins) (encode_one-bytes_of c u other))
            ∙ length-append (bytes_of c) (encode_loop 0 ins))
          counts;
    pair = λ h c ins half low counts.
        Counts-next h c ins 0 4
          (λ count below.
            ap (λ b. size_step limit count b c) (waits h half) ∙ pair_step count c low below)
          (ap length (encode_loop-pair h c ins half low (ground (arith, low)))
            ∙ length-append (four_bytes h c) (encode_loop 0 ins))
          counts;
    single = single-Counts;
  }
    where
      ends_in_half : (h : ℕ) → IsHalf h → encode_loop h [] ≡ three_bytes h
      ends_in_half h half =
          let z : (h == 0) ≡ false = ground (arith, half.0) in rw (z, encode_loop) refl

-- Of a string of 16-bit units with no terminator among them, surrogates paired or not, utf16_to_utf8_size returns
-- the number of the bytes that ntfs_utf16_to_utf8 writes for it, if the buffer has one byte more at least, and
-- ENAMETOOLONG otherwise: what is written fits the buffer, with the terminator.
pub utf16_to_utf8_size-length :
    (limit : ℕ) (ins : List ℕ)
    → All IsUnit ins
    → utf16_to_utf8_size ins limit ≡ (
        if ltb (length (encode_loop 0 ins)) limit
        then ok (length (encode_loop 0 ins))
        else enametoolong)
unfolding verdict
utf16_to_utf8_size-length limit ins units =
    by_steps (Counts limit) (counted limit) ins units 0
    ∙ ap (verdict limit) (zero-add (length (encode_loop 0 ins)))
