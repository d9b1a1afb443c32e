-- ===== src/Utf/Points.antt =====
-- source/unistr.c: ntfs_utf16_to_utf8 against the values that the units of a string stand for.
use libntfs.Prelude.{
  ℕ, ◌+◌, ◌-◌, ◌*◌, ◌/◌, ◌%◌, ◌^◌, ◌≤◌, ◌<◌, ◌≡◌, ◌⊎◌, inl, inr, refl, ◌∙◌, ap, arith, List, [],
  ◌∷◌, ◌++◌, ◌&&◌, Bool, true, false, Bool-cases, ltb, leb, ◌==◌, if◌then◌else◌,
}
use libntfs.Utf.{is_low, two_bytes, three_bytes, four_bytes, encode_one, units_of}

-- The bytes of a value.
unfoldable pub bytes_of : ℕ → List ℕ
bytes_of wc =
    if ltb wc 0x80
    then wc ∷ []
    else (if ltb wc 0x800
        then two_bytes wc
        else (if ltb wc 0x10000
            then three_bytes wc
            else (0xf0 + wc / 2 ^ 18)
              ∷ (0x80 + wc / 4096 % 64)
              ∷ (0x80 + wc / 64 % 64)
              ∷ (0x80 + wc % 64)
              ∷ []))

unfoldable pub concat_map : (ℕ → List ℕ) → List ℕ → List ℕ
concat_map f [] = []
concat_map f (x ∷ xs) = f x ++ concat_map f xs

abbrev pub is_half : ℕ → Bool
is_half c = leb 0xd800 c && ltb c 0xdc00

abbrev pub pair_of : ℕ → ℕ → ℕ
pair_of halfpair c = 0x10000 + (halfpair - 0xd800) * 1024 + (c - 0xdc00)

-- The units behind a half that waits for another.
abbrev pub waiting : ℕ → List ℕ → List ℕ
waiting halfpair ins = if halfpair == 0 then ins else halfpair ∷ ins

-- The values that the units stand for; a half without another stands for itself.
unfoldable pub points : ℕ → List ℕ → List ℕ
points halfpair [] = waiting halfpair []
points halfpair (c ∷ ins) =
    let behind = points 0 ins in
    let half = points c ins in
    let one = if is_half c then half else c ∷ behind in
    if halfpair == 0
    then one
    else (if is_low c then pair_of halfpair c ∷ behind else halfpair ∷ one)

-- Units of 16 bits, and no terminator among them.
abbrev pub IsUnit : ℕ → Type 0
IsUnit c = (0 < c) × (c < 2 ^ 16)

abbrev pub IsHalf : ℕ → Type 0
IsHalf c = (0xd800 ≤ c) × (c < 0xdc00)

abbrev pub IsWaiting : ℕ → Type 0
IsWaiting halfpair = (halfpair ≡ 0) ⊎ IsHalf halfpair

pub encode_one-half : (c : ℕ) → IsHalf c → encode_one c ≡ ([], c)
unfolding encode_one
encode_one-half c (low, high) =
    let a : ltb c 0x80 ≡ false = ground (arith, low) in
    let b : ltb c 0x800 ≡ false = ground (arith, low) in
    let d : ltb c 0xd800 ≡ false = ground (arith, low) in
    let e : ltb c 0xdc00 ≡ true = ground (arith, high) in rw (a, b, d, e, encode_one) refl

pub encode_one-bytes_of : (c : ℕ) → IsUnit c → is_half c ≡ false → encode_one c ≡ (bytes_of c, 0)
unfolding encode_one bytes_of
encode_one-bytes_of c (pos, small) h = elim (Bool-cases (ltb c 0x80)) [
  | inl a ↦ rw (a, encode_one, bytes_of) refl
  | inr a ↦ elim (Bool-cases (ltb c 0x800)) [
    | inl b ↦ rw (a, b, encode_one, bytes_of) refl
    | inr b ↦
        let s : ltb c 0x10000 ≡ true = ground (arith, small) in
        elim (Bool-cases (ltb c 0xd800)) [
          | inl d ↦ rw (a, b, s, d, encode_one, bytes_of) refl
          | inr d ↦
              let e : ltb c 0xdc00 ≡ false = ground (arith, h, d) in
              rw (a, b, s, d, e, encode_one, bytes_of) refl
        ]
  ]
]

pub half-bytes_of : (c : ℕ) → IsHalf c → bytes_of c ≡ three_bytes c
unfolding bytes_of
half-bytes_of c (low, high) =
    let a : ltb c 0x80 ≡ false = ground (arith, low) in
    let b : ltb c 0x800 ≡ false = ground (arith, low) in
    let d : ltb c 0x10000 ≡ true = ground (arith, high) in rw (a, b, d, bytes_of) refl

pub low_range : (c : ℕ) → is_low c ≡ true → (0xdc00 ≤ c) × (c < 0xe000)
low_range c h = ground (arith, h)

pub IsHalf-range : (c : ℕ) → is_half c ≡ true → IsHalf c
IsHalf-range c h = ground (arith, h)

cons_eq : (a b : ℕ) (xs ys : List ℕ) → a ≡ b → xs ≡ ys → a ∷ xs ≡ b ∷ ys
cons_eq a b xs ys h k = ap (λ x. x ∷ xs) h ∙ ap (λ zs. b ∷ zs) k

pub pair-bytes_of :
    (halfpair c : ℕ)
    → IsHalf halfpair
    → (0xdc00 ≤ c) × (c < 0xe000)
    → bytes_of (pair_of halfpair c) ≡ four_bytes halfpair c
unfolding bytes_of
pair-bytes_of halfpair c (low, high) (low', high') =
    let wc = pair_of halfpair c in
    let a : ltb wc 0x80 ≡ false = ground arith in
    let b : ltb wc 0x800 ≡ false = ground arith in
    let d : ltb wc 0x10000 ≡ false = ground arith in
    rw (a, b, d, bytes_of)
      (cons_eq _ _ _ _ (omega (arith, low, high, low', high')) (
        cons_eq _ _ _ _ (omega (arith, low, high, low', high')) (
          cons_eq _ _ _ _ (omega (arith, low, high, low', high'))
            (cons_eq _ _ _ _ (omega (arith, low, high, low', high')) refl))))

pub unit-units_of : (c : ℕ) → c < 2 ^ 16 → units_of c ≡ c ∷ []
unfolding units_of
unit-units_of c h = let a : ltb c 0x10000 ≡ true = ground (arith, h) in rw (a, units_of) refl

pub pair-units_of :
    (halfpair c : ℕ)
    → IsHalf halfpair
    → (0xdc00 ≤ c) × (c < 0xe000)
    → units_of (pair_of halfpair c) ≡ halfpair ∷ c ∷ []
unfolding units_of
pair-units_of halfpair c (low, high) (low', high') =
    let a : ltb (pair_of halfpair c) 0x10000 ≡ false = ground arith in
    rw (a, units_of)
      (cons_eq _ _ _ _ (omega (arith, low, high, low', high'))
        (cons_eq _ _ _ _ (omega (arith, low, high, low', high')) refl))
