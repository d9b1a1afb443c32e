-- ===== src/Prelude/Bits.antt =====
-- The bit operations of the program on a byte, as arithmetic: each is checked by evaluation on all
-- 256 values.
use Prim.Native.Nat.{ℕ, zero, suc, ◌*◌, ◌/◌, ◌%◌, ◌<◌, bit_and, bit_or}
use mathlib.Core.Path.{◌≡◌, refl}
use mathlib.Core.Bool.{Bool, true, false}
use native.Mathlib.Omega.{arith}
use libntfs.Prelude.Tests.{◌==◌, if◌then◌else◌}

-- Two operations agree on the numbers below `count`.
module _ (left right : ℕ → ℕ) where
  same_on : ℕ → Bool
  same_on zero = true
  same_on (suc count) =
      let smaller = same_on count in if left count == right count then smaller else false

  same_on_sound :
      (count : ℕ) → same_on count ≡ true → (byte : ℕ) → byte < count → left byte ≡ right byte
  unfolding same_on
  same_on_sound zero all byte h = absurd (omega arith)
  same_on_sound (suc count) all byte h = ground (arith, same_on_sound count (ground arith) byte)

pub bit_and_low : (x : ℕ) → x < 256 → bit_and x 0xf ≡ x % 16
unfolding same_on
bit_and_low = same_on_sound _ _ 256 refl

pub bit_and_high : (x : ℕ) → x < 256 → bit_and x 0xf0 ≡ x / 16 * 16
unfolding same_on
bit_and_high = same_on_sound _ _ 256 refl

pub bit_or_join : (x : ℕ) → x < 256 → bit_or (x / 16 * 16) (x % 16) ≡ x
unfolding same_on
bit_or_join = same_on_sound _ _ 256 refl
