-- ===== src/Prelude/Word.antt =====
-- C integers as bit patterns. An `s64` is its pattern, a number below 2 ^ 64; a signed comparison
-- shifts both sides by 2 ^ 63. Signed overflow is modelled as the two's complement wrap.
use Prim.Native.Nat.{ℕ, ◌+◌, ◌-◌, ◌*◌, ◌/◌, ◌%◌, ◌^◌, ◌<◌}
use mathlib.Core.Bool.{Bool}
use libntfs.Prelude.Tests.{ltb, leb, if◌then◌else◌}

abbrev pub IsS64 : ℕ → Type 0
IsS64 n = n < 2 ^ 64

-- The patterns of the numbers 0 .. 2 ^ 63 - 1.
abbrev pub IsNonneg : ℕ → Type 0
IsNonneg n = n < 2 ^ 63

abbrev pub minus : ℕ → ℕ
minus n = 2 ^ 64 - n

abbrev pub is_neg : ℕ → Bool
is_neg n = leb (2 ^ 63) n

-- Signed `a < b`.
abbrev pub slt : ℕ → ℕ → Bool
slt a b = ltb ((a + 2 ^ 63) % 2 ^ 64) ((b + 2 ^ 63) % 2 ^ 64)

abbrev pub add64 : ℕ → ℕ → ℕ
add64 a b = (a + b) % 2 ^ 64

abbrev pub sub64 : ℕ → ℕ → ℕ
sub64 a b = (a + 2 ^ 64 - b) % 2 ^ 64

-- `n << k`
abbrev pub shl64 : ℕ → ℕ → ℕ
shl64 n k = n * 2 ^ k % 2 ^ 64

-- The arithmetic shift `n >> 8`.
abbrev pub asr8 : ℕ → ℕ
asr8 n = if is_neg n then n / 256 + 255 * 2 ^ 56 else n / 256

-- `(s8)x`, extended to 64 bits.
abbrev pub sext8 : ℕ → ℕ
sext8 x = if ltb x 128 then x else x + (2 ^ 64 - 256)

-- The arithmetic shift `n >> k`.
abbrev pub asr64 : ℕ → ℕ → ℕ
asr64 n k = if is_neg n then 2 ^ 64 - 1 - (2 ^ 64 - 1 - n) / 2 ^ k else n / 2 ^ k
