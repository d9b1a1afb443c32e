-- ===== src/Utf/Sizes.antt =====
-- source/unistr.c: utf8_to_utf16_size on the bytes of values.
use native.Mathlib.Nat.{add-zero}
use libntfs.Prelude.{
  ℕ, zero, suc, ◌+◌, ◌≤◌, ◌<◌, ◌≡◌, inl, inr, refl, sym, ◌∙◌, ap, arith, List, [], ◌∷◌, ◌++◌, true,
  false, Bool-cases, All, length, length-append, ltb, leb, ◌==◌,
}
use libntfs.Utf.{ok, size8_loop, units_of}
use libntfs.Utf.Points.{bytes_of, concat_map}
use libntfs.Utf.Decoded.{length-bytes_of}
use libntfs.Utf.Encoded.{IsPoint}

units_short : (p : ℕ) → ltb p 0x10000 ≡ true → length (units_of p) ≡ 1
unfolding units_of
units_short p h = rw (h, units_of) refl

units_long : (p : ℕ) → ltb p 0x10000 ≡ false → length (units_of p) ≡ 2
unfolding units_of
units_long p h = rw (h, units_of) refl

module _ (path_max : ℕ) where
  size8-nil : (fuel count : ℕ) → size8_loop path_max fuel [] count ≡ ok count
  unfolding size8_loop
  size8-nil zero count = refl
  size8-nil (suc fuel) count = refl

  module _ (fuel count : ℕ) (room : count + 1 < path_max) where
    size8_one :
        (b : ℕ) (s : List ℕ)
        → b < 0xc0
        → size8_loop path_max (suc fuel) (b ∷ s) count ≡ size8_loop path_max fuel s (count + 1)
    unfolding size8_loop
    size8_one b s h =
        let a : leb path_max (count + 1) ≡ false = ground (arith, room) in
        let c : ltb b 0xc0 ≡ true = ground (arith, h) in rw (a, c, size8_loop) refl

    size8_two :
        (b b1 : ℕ) (s : List ℕ)
        → 0xc0 ≤ b
        → b < 0xe0
        → size8_loop path_max (suc fuel) (b ∷ b1 ∷ s) count ≡ size8_loop path_max fuel s (count + 1)
    unfolding size8_loop
    size8_two b b1 [] h k =
        let a : leb path_max (count + 1) ≡ false = ground (arith, room) in
        let c : ltb b 0xc0 ≡ false = ground (arith, h) in
        let d : leb 0xf5 b ≡ false = ground (arith, k) in
        rw (a, c, d, size8_loop) (sym (size8-nil fuel (count + 1)))
    size8_two b b1 (x ∷ s) h k =
        let a : leb path_max (count + 1) ≡ false = ground (arith, room) in
        let c : ltb b 0xc0 ≡ false = ground (arith, h) in
        let d : leb 0xf5 b ≡ false = ground (arith, k) in
        let e : leb (length (b1 ∷ x ∷ s)) 1 ≡ false = ground arith in
        let f : ltb b 0xe0 ≡ true = ground (arith, k) in rw (a, c, d, e, f, size8_loop) refl

    size8_three :
        (b b1 b2 : ℕ) (s : List ℕ)
        → 0xe0 ≤ b
        → b < 0xf0
        → size8_loop path_max (suc fuel) (b ∷ b1 ∷ b2 ∷ s) count
          ≡ size8_loop path_max fuel s (count + 1)
    unfolding size8_loop
    size8_three b b1 b2 [] h k =
        let a : leb path_max (count + 1) ≡ false = ground (arith, room) in
        let c : ltb b 0xc0 ≡ false = ground (arith, h) in
        let d : leb 0xf5 b ≡ false = ground (arith, k) in
        let e : ltb b 0xe0 ≡ false = ground (arith, h) in
        rw (a, c, d, e, size8_loop) (sym (size8-nil fuel (count + 1)))
    size8_three b b1 b2 (x ∷ s) h k =
        let a : leb path_max (count + 1) ≡ false = ground (arith, room) in
        let c : ltb b 0xc0 ≡ false = ground (arith, h) in
        let d : leb 0xf5 b ≡ false = ground (arith, k) in
        let e : leb (length (b1 ∷ b2 ∷ x ∷ s)) 1 ≡ false = ground arith in
        let f : ltb b 0xe0 ≡ false = ground (arith, h) in
        let g : (length (b1 ∷ b2 ∷ x ∷ s) == 2) ≡ false = ground arith in
        let i : ltb b 0xf0 ≡ true = ground (arith, k) in rw (a, c, d, e, f, g, i, size8_loop) refl

    size8_four :
        (b b1 b2 b3 : ℕ) (s : List ℕ)
        → count + 2 < path_max
        → 0xf0 ≤ b
        → b < 0xf5
        → size8_loop path_max (suc fuel) (b ∷ b1 ∷ b2 ∷ b3 ∷ s) count
          ≡ size8_loop path_max fuel s (count + 2)
    unfolding size8_loop
    size8_four b b1 b2 b3 s more h k =
        let a : leb path_max (count + 1) ≡ false = ground (arith, room) in
        let c : ltb b 0xc0 ≡ false = ground (arith, h) in
        let d : leb 0xf5 b ≡ false = ground (arith, k) in
        let e : leb (length (b1 ∷ b2 ∷ b3 ∷ s)) 1 ≡ false = ground arith in
        let f : ltb b 0xe0 ≡ false = ground (arith, h) in
        let g : (length (b1 ∷ b2 ∷ b3 ∷ s) == 2) ≡ false = ground arith in
        let i : ltb b 0xf0 ≡ false = ground (arith, h) in
        let j : leb path_max (count + 2) ≡ false = ground (arith, more) in
        rw (a, c, d, e, f, g, i, j, size8_loop) refl

  -- A value counts its units.
  size8-bytes_of :
      (fuel count p : ℕ) (s : List ℕ)
      → IsPoint p
      → count + length (units_of p) < path_max
      → size8_loop path_max (suc fuel) (bytes_of p ++ s) count
        ≡ size8_loop path_max fuel s (count + length (units_of p))
  unfolding bytes_of units_of
  size8-bytes_of fuel count p s (pos, small) room = elim (Bool-cases (ltb p 0x80)) [
    | inl a ↦
        let u : ltb p 0x10000 ≡ true = ground (arith, a) in
        let less : count + 1 < path_max = omega (arith, room, units_short p u) in
        rw (a, u, bytes_of, units_of) (size8_one fuel count less p s (ground (arith, a)))
    | inr a ↦ elim (Bool-cases (ltb p 0x800)) [
      | inl b ↦
          let u : ltb p 0x10000 ≡ true = ground (arith, b) in
          let less : count + 1 < path_max = omega (arith, room, units_short p u) in
          rw (a, b, u, bytes_of, units_of)
            (size8_two fuel count less _ _ s (omega arith) (ground (arith, b)))
      | inr b ↦ elim (Bool-cases (ltb p 0x10000)) [
        | inl c ↦
            let less : count + 1 < path_max = omega (arith, room, units_short p c) in
            rw (a, b, c, bytes_of, units_of)
              (size8_three fuel count less _ _ _ s (omega arith) (ground (arith, c)))
        | inr c ↦
            let less : count + 2 < path_max = omega (arith, room, units_long p c) in
            rw (a, b, c, bytes_of, units_of)
              (size8_four fuel count (omega (arith, less)) _ _ _ _ s less (omega arith)
                (omega (arith, small)))
      ]
    ]
  ]

  pub size8_loop-bytes_of :
      (fuel count : ℕ) (ps : List ℕ)
      → All IsPoint ps
      → length (concat_map bytes_of ps) ≤ fuel
      → count + length (concat_map units_of ps) < path_max
      → size8_loop path_max fuel (concat_map bytes_of ps) count
        ≡ ok (count + length (concat_map units_of ps))
  unfolding concat_map
  size8_loop-bytes_of fuel count [] points h room =
      size8-nil fuel count ∙ ap ok (sym (add-zero count))
  size8_loop-bytes_of zero count (p ∷ ps) points h room =
      absurd
        (omega (arith, h, length-append (bytes_of p) (concat_map bytes_of ps), length-bytes_of p))
  size8_loop-bytes_of (suc fuel) count (p ∷ ps) points h room =
      let units = length-append (units_of p) (concat_map units_of ps) in
      size8-bytes_of fuel count p (concat_map bytes_of ps) points.0 (omega (arith, room, units))
      ∙ size8_loop-bytes_of fuel (count + length (units_of p)) ps points.1
          (omega (arith, h, length-append (bytes_of p) (concat_map bytes_of ps), length-bytes_of p))
          (omega (arith, room, units))
      ∙ ap ok (omega (arith, units))
