-- ===== src/Bitmap.antt =====
-- source/bitmap.c: single bits of a field of bits, a list of bytes. `bitmap` is not NULL; `none` is
-- an access behind the end.
pub mod Laws
use libntfs.Prelude.{
  ℕ, ◌+◌, ◌-◌, ◌*◌, ◌/◌, ◌%◌, ◌^◌, List, Option, none, some, Bool, get_elem?, set, ltb, ◌==◌,
  if◌then◌else◌,
}
use Prim.Native.Nat.{bit_and, bit_or, bit_xor}

abbrev pub BitField : Type 0
BitField = List ℕ

-- `bit & 7`, and `1 << (bit & 7)`
abbrev pub mask_of : ℕ → ℕ
mask_of bit = 2 ^ (bit % 8)

-- `byte & ~mask` and `byte | mask`
unfoldable pub clear_in : ℕ → ℕ → ℕ
clear_in byte mask = bit_and byte (255 - mask)

unfoldable pub set_in : ℕ → ℕ → ℕ
set_in byte mask = bit_or byte mask

unfoldable pub toggle_in : ℕ → ℕ → ℕ
toggle_in byte mask = bit_xor byte mask

unfoldable pub bit_in : ℕ → ℕ → ℕ
bit_in byte shift = bit_and (byte / 2 ^ shift) 1

unfoldable pub bit_set : BitField → ℕ → ℕ → Option BitField
bit_set bitmap bit new_value =
    if ltb 1 new_value then some bitmap else elim (get_elem? bitmap (bit / 8)) [
      | none ↦ none
      | some byte ↦ some (
          set bitmap (bit / 8)
            (if new_value == 0 then clear_in byte (mask_of bit) else set_in byte (mask_of bit)))
    ]

unfoldable pub bit_get : BitField → ℕ → Option ℕ
bit_get bitmap bit = elim (get_elem? bitmap (bit / 8)) [
  | none ↦ none
  | some byte ↦ some (bit_in byte (bit % 8))
]

-- -1, with the field as it was, or the old bit and the field.
pub data GetAndSet : Type 0 where
  invalid : BitField → GetAndSet
  was : ℕ → BitField → GetAndSet
  fault : GetAndSet

unfoldable pub bit_get_and_set : BitField → ℕ → ℕ → GetAndSet
bit_get_and_set bitmap bit new_value =
    if ltb 1 new_value then invalid bitmap else elim (get_elem? bitmap (bit / 8)) [
      | none ↦ fault
      | some byte ↦ was (bit_in byte (bit % 8)) (
          if new_value == bit_in byte (bit % 8)
          then bitmap
          else set bitmap (bit / 8) (toggle_in byte (mask_of bit)))
    ]
