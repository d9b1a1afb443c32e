-- ===== src/Bootsect/Powers.antt =====
-- source/bootsect.c: the test `x & (x - 1)` and ffs find powers of two.
use libntfs.Prelude.{
  ℕ, zero, suc, ◌+◌, ◌-◌, ◌*◌, ◌/◌, ◌%◌, ◌^◌, ◌≤◌, ◌<◌, min, ◌≡◌, refl, sym, ◌∙◌, ap, arith, inl,
  inr, ◌⊎◌, ◌==◌, false, Bool-cases,
}
use Prim.Native.Nat.{bit_and, digits, bit_and-bitwise}
use native.Mathlib.Nat.{pow-suc}
use libntfs.Bootsect.{ffs_loop, bits_of, is_no_power}

both : ℕ → ℕ → ℕ → ℕ
both fuel a b = digits (λ y. 0) min fuel a b

-- Any two amounts of fuel that cover the first number's digits.
both_enough : (k l a b : ℕ) → a ≤ k → a ≤ l → both k a b ≡ both l a b
unfolding both
both_enough zero zero a b h1 h2 = refl
both_enough zero (suc l) zero b h1 h2 = refl
both_enough zero (suc l) (suc a) b h1 h2 = absurd (omega (arith, h1))
both_enough (suc k) zero zero b h1 h2 = refl
both_enough (suc k) zero (suc a) b h1 h2 = absurd (omega (arith, h2))
both_enough (suc k) (suc l) zero b h1 h2 = refl
both_enough (suc k) (suc l) (suc a) b h1 h2 =
    rw (both_enough k l (suc a / 2) (b / 2) (omega (arith, h1)) (omega (arith, h2))) refl

bit_and_as_both : (a b : ℕ) → bit_and a b ≡ both a a b
unfolding both
bit_and_as_both a b = bit_and-bitwise a b

-- The lowest digit, and the others.
low_digit :
    (a b : ℕ) → bit_and (suc a) b ≡ bit_and (suc a / 2) (b / 2) * 2 + min (suc a % 2) (b % 2)
unfolding both
low_digit a b =
    bit_and_as_both (suc a) b
    ∙ ap (λ n. n * 2 + min (suc a % 2) (b % 2))
        (both_enough a (suc a / 2) (suc a / 2) (b / 2) (omega arith) (omega arith)
          ∙ sym (bit_and_as_both (suc a / 2) (b / 2)))

bit_and_self : (bound x : ℕ) → x ≤ bound → bit_and x x ≡ x
bit_and_self bound zero h = refl
bit_and_self zero (suc x) h = absurd (omega (arith, h))
bit_and_self (suc bound) (suc x) h =
    omega (arith, low_digit x (suc x), bit_and_self bound (suc x / 2) (omega (arith, h)))

even_halves : (x : ℕ) → suc x % 2 ≡ 0 → bit_and (suc x) x ≡ bit_and (suc x / 2) (suc x / 2 - 1) * 2
even_halves x h =
    let half : x / 2 ≡ suc x / 2 - 1 = omega (arith, h) in
    omega (arith, low_digit x x, ap (bit_and (suc x / 2)) half, h)

odd_half : (x : ℕ) → suc x % 2 ≡ 1 → bit_and (suc x) x ≡ x
odd_half x h =
    let half : x / 2 ≡ suc x / 2 = omega (arith, h) in
    omega (
      arith,
      low_digit x x,
      ap (bit_and (suc x / 2)) half,
      bit_and_self x (suc x / 2) (omega arith),
      h,
    )

abbrev IsPower : ℕ → ℕ → Type 0
IsPower bits x = (0 < ffs_loop bits x) × (x ≡ 2 ^ (ffs_loop bits x - 1))

double_power : (x f : ℕ) → 0 < f → x / 2 ≡ 2 ^ (f - 1) → x % 2 ≡ 0 → x ≡ 2 ^ (suc f - 1)
double_power x zero pos h even = absurd (omega (arith, pos))
double_power x (suc f) pos h even =
    let lower : suc f - 1 ≡ f = omega arith in
    let upper : suc (suc f) - 1 ≡ suc f = omega arith in
    omega (arith, pow-suc 2 f, h, even, ap (λ k. 2 ^ k) lower, ap (λ k. 2 ^ k) upper)

ffs-even :
    (bits x : ℕ) → suc x % 2 ≡ 0 → ffs_loop (suc bits) (suc x) ≡ suc (ffs_loop bits (suc x / 2))
unfolding ffs_loop
ffs-even bits x h = ground (arith, h)

ffs-odd : (bits x : ℕ) → suc x % 2 ≡ 1 → ffs_loop (suc bits) (suc x) ≡ 1
unfolding ffs_loop
ffs-odd bits x h = ground (arith, h)

one_of_odd : (x : ℕ) → suc x % 2 ≡ 1 → bit_and (suc x) x ≡ 0 → suc x ≡ 1
one_of_odd x h e = omega (arith, odd_half x h, e)

parity : (x : ℕ) → (x % 2 ≡ 0) ⊎ (x % 2 ≡ 1)
parity x = elim (Bool-cases (x % 2 == 0)) [
  | inl e ↦ inl (ground arith)
  | inr e ↦ inr (ground arith)
]

ffs-IsPower : (bits x : ℕ) → x < 2 ^ bits → 0 < x → bit_and x (x - 1) ≡ 0 → IsPower bits x
ffs-IsPower bits zero h pos e = absurd (omega (arith, pos))
ffs-IsPower zero (suc x) h pos e = absurd (omega (arith, h))
ffs-IsPower (suc bits) (suc x) h pos e =
    let before : x ≡ suc x - 1 = omega arith in
    let clear = ap (bit_and (suc x)) before ∙ e in
    elim (parity (suc x)) [
      | inl even ↦
          let (found, power) =
            ffs-IsPower bits (suc x / 2) (omega (arith, pow-suc 2 bits, h)) (omega (arith, even))
              (omega (arith, even_halves x even, clear)) in
          rw (ffs-even bits x even)
            (omega arith, double_power (suc x) (ffs_loop bits (suc x / 2)) found power even)
      | inr odd ↦ rw (ffs-odd bits x odd) (omega arith, one_of_odd x odd clear)
    ]

pub ffs_le : (bits x : ℕ) → ffs_loop bits x ≤ bits
unfolding ffs_loop
ffs_le zero x = omega arith
ffs_le (suc bits) x = ground (arith, ffs_le bits (x / 2))

pub ffs_pos : (bits x : ℕ) → x < 2 ^ bits → 0 < x → 0 < ffs_loop bits x
unfolding ffs_loop
ffs_pos zero x h pos = absurd (omega (arith, h, pos))
ffs_pos (suc bits) x h pos = elim (Bool-cases (x % 2 == 1)) [
  | inl odd ↦ ground (arith, pos, odd)
  | inr even ↦ ground (arith, pos, even)
]

-- The lowest bit is not above the number.
ffs-le_twice : (bits x : ℕ) → x < 2 ^ bits → 0 < x → 2 ^ ffs_loop bits x ≤ 2 * x
ffs-le_twice bits zero h pos = absurd (omega (arith, pos))
ffs-le_twice zero (suc x) h pos = absurd (omega (arith, h))
ffs-le_twice (suc bits) (suc x) h pos = elim (parity (suc x)) [
  | inl even ↦
      let smaller =
        ffs-le_twice bits (suc x / 2) (omega (arith, pow-suc 2 bits, h)) (omega (arith, even)) in
      rw (ffs-even bits x even)
        (omega (arith, pow-suc 2 (ffs_loop bits (suc x / 2)), smaller, even))
  | inr odd ↦ rw (ffs-odd bits x odd) (omega arith)
]

pub bits_of-le : (x : ℕ) → x < 2 ^ 32 → 0 < x → 2 ^ bits_of x ≤ x
unfolding bits_of
bits_of-le x h pos =
    let f = ffs_loop 32 x in
    let found = ffs_pos 32 x h pos in
    let lower : (f + 255) % 256 ≡ f - 1 = omega (arith, ffs_le 32 x, found) in
    let upper : suc (f - 1) ≡ f = omega (arith, found) in
    omega (
      arith,
      ffs-le_twice 32 x h pos,
      ap (λ k. 2 ^ k) lower,
      ap (λ k. 2 ^ k) upper,
      pow-suc 2 (f - 1),
    )

-- What the two tests of a size leave: it is 0, or the power of two whose exponent is stored.
pub is_no_power-bits_of : (x : ℕ) → x < 2 ^ 32 → 0 < x → is_no_power x ≡ false → x ≡ 2 ^ bits_of x
unfolding is_no_power bits_of
is_no_power-bits_of x h pos e =
    let (found, power) = ffs-IsPower 32 x h pos (ground (arith, e)) in
    power ∙ ap (λ k. 2 ^ k) (omega (arith, ffs_le 32 x, found))
