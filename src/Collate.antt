-- ===== src/Collate.antt =====
-- source/collate.c: the collation functions of index entries. The data are lists of bytes, shorter
-- than 2 ^ 31 of them, and their lengths are those of the lists.
pub mod Words
pub mod Order
pub mod Reversed
use libntfs.Prelude.{
  ℕ, zero, suc, ◌+◌, ◌-◌, ◌*◌, ◌/◌, ◌%◌, ◌^◌, List, [], ◌∷◌, Option, none, some, Bool, true, false,
  ◌&&◌, ◌||◌, not, length, get_elem?, drop, min, ltb, ◌==◌, if◌then◌else◌,
}
use Prim.Native.Nat.{compare, Ordering}
use libntfs.Names.{Name, case_sensitive, names_full_collate}

abbrev pub Bytes : Type 0
Bytes = List ℕ

-- The int that a collation returns: -1, 0 or 1, NTFS_COLLATION_ERROR, or another one, as its pattern
-- of 32 bits; or an access outside the data.
pub data Collated : Type 0 where
  collates : Ordering → Collated
  collation_error : Collated
  other : ℕ → Collated
  fault : Collated

abbrev pub from_option : Option Ordering → Collated
from_option none = fault
from_option (some o) = collates o

abbrev pub minus_one : ℕ
minus_one = 2 ^ 32 - 1

-- NTFS_COLLATION_ERROR is -2.
abbrev pub from_int : ℕ → Collated
from_int rc =
    if rc == 0
    then collates Ordering.eq
    else (if rc == 1
        then collates Ordering.gt
        else (if rc == minus_one
            then collates Ordering.lt
            else (if rc == 2 ^ 32 - 2 then collation_error else other rc)))

-- `if (!rc && (data1_len != data2_len))`
unfoldable pub by_length : ℕ → ℕ → ℕ → ℕ
by_length len1 len2 rc =
    if rc == 0 && not (len1 == len2) then (if ltb len1 len2 then minus_one else 1) else rc

-- `memcmp data1 data2 n` is the int that memcmp of the C library returns.
unfoldable pub collate_binary : (Bytes → Bytes → ℕ → ℕ) → Bytes → Bytes → Collated
collate_binary memcmp data1 data2 = from_int (
    by_length (length data1) (length data2)
      (memcmp data1 data2 (min (length data1) (length data2))))

unfoldable pub le32_to_cpup : Bytes → Option ℕ
le32_to_cpup [] = none
le32_to_cpup (a ∷ []) = none
le32_to_cpup (a ∷ b ∷ []) = none
le32_to_cpup (a ∷ b ∷ c ∷ []) = none
le32_to_cpup (a ∷ b ∷ c ∷ d ∷ p) = some (a + 0x100 * b + 0x10000 * c + 0x1000000 * d)

unfoldable pub three_way : ℕ → ℕ → Ordering
three_way d1 d2 = if ltb d1 d2 then Ordering.lt else (if d1 == d2 then Ordering.eq else Ordering.gt)

-- The pair of numbers at the two pointers.
unfoldable pub read_pair : Bytes → Bytes → Option (ℕ × ℕ)
read_pair p1 p2 = elim (le32_to_cpup p1) [
  | none ↦ none
  | some d1 ↦ elim (le32_to_cpup p2) [ none ↦ none | some d2 ↦ some (d1, d2) ]
]

abbrev pub three_way_pair : Option (ℕ × ℕ) → Collated
three_way_pair none = fault
three_way_pair (some (d1, d2)) = collates (three_way d1 d2)

unfoldable pub collate_ntofs_ulong : Bytes → Bytes → Collated
collate_ntofs_ulong data1 data2 =
    if not (length data1 == length data2) || not (length data1 == 4)
    then collation_error
    else three_way_pair (read_pair data1 data2)

-- The loop, with the rounds that `len` allows behind the present one.
unfoldable pub ulongs_loop : ℕ → Bytes → Bytes → Option (ℕ × ℕ)
ulongs_loop zero p1 p2 = read_pair p1 p2
ulongs_loop (suc more) p1 p2 =
    let rest = ulongs_loop more (drop 4 p1) (drop 4 p2) in
    elim (read_pair p1 p2) [
      | none ↦ none
      | some (d1, d2) ↦ if d1 == d2 then rest else some (d1, d2)
    ]

unfoldable pub collate_ntofs_ulongs : Bytes → Bytes → Collated
collate_ntofs_ulongs data1 data2 =
    if not (length data1 == length data2) || (length data1 == 0) || not (length data1 % 4 == 0)
    then collation_error
    else three_way_pair (ulongs_loop (length data1 / 4 - 1) data1 data2)

unfoldable pub collate_second : Option (ℕ × ℕ) → Collated
collate_second none = fault
collate_second (some (d1, d2)) =
    if ltb d1 d2
    then collates Ordering.lt
    else (if ltb d2 d1 then collates Ordering.gt else collates Ordering.eq)

unfoldable pub collate_hashes : Bytes → Bytes → Option (ℕ × ℕ) → Collated
collate_hashes p1 p2 none = fault
collate_hashes p1 p2 (some (d1, d2)) =
    let second = collate_second (read_pair (drop 4 p1) (drop 4 p2)) in
    if ltb d1 d2 then collates Ordering.lt else (if ltb d2 d1 then collates Ordering.gt else second)

unfoldable pub collate_ntofs_security_hash : Bytes → Bytes → Collated
collate_ntofs_security_hash data1 data2 =
    if not (length data1 == length data2) || not (length data1 == 8)
    then collation_error
    else collate_hashes data1 data2 (read_pair data1 data2)

-- `n` little endian characters at a pointer.
unfoldable pub characters : ℕ → Bytes → Option Name
characters zero p = some []
characters (suc n) [] = none
characters (suc n) (low ∷ []) = none
characters (suc n) (low ∷ high ∷ p) = elim (characters n p) [
  | none ↦ none
  | some name ↦ some ((low + 0x100 * high) ∷ name)
]

-- The name of a FILE_NAME_ATTR: its length in characters stands at 0x40, and it starts at 0x42.
unfoldable pub file_name : Bytes → Option Name
file_name attr = elim (get_elem? attr 0x40) [ none ↦ none | some n ↦ characters n (drop 0x42 attr) ]

-- `upcase` is the volume's table.
unfoldable pub collate_file_name : List ℕ → Bytes → Bytes → Collated
collate_file_name upcase data1 data2 = elim (file_name data1) [
  | none ↦ fault
  | some name1 ↦ elim (file_name data2) [
    | none ↦ fault
    | some name2 ↦ from_option (names_full_collate name1 name2 case_sensitive upcase)
  ]
]

pub data CollationRules : Type 0 where
  collation_binary : CollationRules
  collation_file_name : CollationRules
  collation_unicode_string : CollationRules
  collation_ntofs_ulong : CollationRules
  collation_ntofs_sid : CollationRules
  collation_ntofs_security_hash : CollationRules
  collation_ntofs_ulongs : CollationRules

-- `none` is NULL, with EOPNOTSUPP.
unfoldable pub get_collate_function :
    (Bytes → Bytes → ℕ → ℕ) → List ℕ → CollationRules → Option (Bytes → Bytes → Collated)
get_collate_function memcmp upcase collation_binary = some (collate_binary memcmp)
get_collate_function memcmp upcase collation_file_name = some (collate_file_name upcase)
get_collate_function memcmp upcase collation_unicode_string = none
get_collate_function memcmp upcase collation_ntofs_ulong = some collate_ntofs_ulong
get_collate_function memcmp upcase collation_ntofs_sid = none
get_collate_function memcmp upcase collation_ntofs_security_hash = some collate_ntofs_security_hash
get_collate_function memcmp upcase collation_ntofs_ulongs = some collate_ntofs_ulongs
