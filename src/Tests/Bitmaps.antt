-- ===== src/Tests/Bitmaps.antt =====
-- source/bitmap.c on a concrete field of bits.
use libntfs.Prelude.{some_inj, ℕ, ◌≡◌, arith, [], ◌∷◌, some, zero, suc, ◌==◌, if◌then◌else◌}
use libntfs.Bitmap.{BitField, bit_set, bit_get, bit_get_and_set, was}
use libntfs.Bitmap.Laws.{IsBytes, bit_set-bit_get}

abbrev field : BitField
field = 0x81 ∷ 0xff ∷ []

field-IsBytes : IsBytes field
field-IsBytes zero byte h = omega (arith, some_inj 0x81 byte h)
field-IsBytes (suc zero) byte h = omega (arith, some_inj 0xff byte h)
field-IsBytes (suc (suc i)) byte h = absurd (cc)

bit_set-bit_get_example :
    (after : BitField) × (old : ℕ) × (bit_set field 11 0 ≡ some after)
    × (bit_get after 7 ≡ (if 11 == 7 then some 0 else bit_get field 7))
    × (bit_get field 11 ≡ some old)
    × (bit_get_and_set field 11 0 ≡ was old after)
bit_set-bit_get_example =
    bit_set-bit_get field 11 7 0 field-IsBytes (omega arith) (omega arith) (omega arith)
