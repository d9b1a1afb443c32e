-- ===== src/Mst.antt =====
-- source/mst.c: multi sector transfer protection. An NTFS record is the list of its 16-bit words,
-- each as the little endian number that it stands for, so le16_to_cpu is the identity.
pub mod Loops
pub mod RoundTrip
use libntfs.Prelude.{
  ℕ, zero, suc, ◌+◌, ◌-◌, ◌^◌, ◌*◌, ◌/◌, ◌%◌, List, Option, none, some, Bool, true, false, ◌&&◌,
  ◌||◌, not, get_elem?, set, length, ltb, leb, ◌==◌, if◌then◌else◌,
}

abbrev pub NtfsRecord : Type 0
NtfsRecord = List ℕ

abbrev pub ntfs_block_size : ℕ
ntfs_block_size = 512

-- What a function leaves: 0, or -1 with EINVAL or EIO, each with the record as it is then; `fault`
-- is an access outside the record.
pub data Fixup : Type 0 where
  done : NtfsRecord → Fixup
  einval : NtfsRecord → Fixup
  eio : NtfsRecord → Fixup
  fault : Fixup

unfoldable pub is_valid_record : ℕ → ℕ → ℕ → Bool
is_valid_record size usa_ofs usa_count =
    size % ntfs_block_size == 0
    && (usa_ofs % 2 == 0)
    && (usa_count == 1 + size / ntfs_block_size)
    && leb (usa_ofs + usa_count * 2) (ntfs_block_size - 2)

-- A store, `none` outside the record.
abbrev pub store : NtfsRecord → ℕ → ℕ → Option NtfsRecord
store b i v = if ltb i (length b) then some (set b i v) else none

infixl 5 ◌>>=◌
abbrev pub ◌>>=◌ {ℓ κ} : {A : Type ℓ} {B : Type κ} → Option A → (A → Option B) → Option B
none >>= f = none
some a >>= f = f a

-- The rounds of `while (--usa_count)`.
abbrev pub rounds : ℕ → ℕ
rounds usa_count = (usa_count + 0xffff) % 2 ^ 16

-- The first word that is protected.
abbrev pub first_data : ℕ
first_data = ntfs_block_size / 2 - 1

abbrev pub block_words : ℕ
block_words = ntfs_block_size / 2

-- "Check for incomplete multi sector transfer(s)."
unfoldable pub check_loop : ℕ → ℕ → ℕ → NtfsRecord → Option Bool
check_loop zero data_pos usn b = some true
check_loop (suc left) data_pos usn b = do
  x ← get_elem? b data_pos
  let more = check_loop left (data_pos + block_words) usn b
  if x == usn then more else some false

-- The loop of ntfs_mst_post_read_fixup_warn and of ntfs_mst_post_write_fixup.
unfoldable pub restore_loop : ℕ → ℕ → ℕ → NtfsRecord → Option NtfsRecord
restore_loop zero usa_pos data_pos b = some b
restore_loop (suc left) usa_pos data_pos b = do
  x ← get_elem? b (usa_pos + 1)
  b' ← store b data_pos x
  restore_loop left (usa_pos + 1) (data_pos + block_words) b'

-- The loop of ntfs_mst_pre_write_fixup.
unfoldable pub protect_loop : ℕ → ℕ → ℕ → ℕ → NtfsRecord → Option NtfsRecord
protect_loop zero usa_pos data_pos usn b = some b
protect_loop (suc left) usa_pos data_pos usn b = do
  x ← get_elem? b data_pos
  b' ← store b (usa_pos + 1) x
  b'' ← store b' data_pos usn
  protect_loop left (usa_pos + 1) (data_pos + block_words) usn b''

-- The words of the header: the magic in words 0 and 1, then usa_ofs and usa_count.
abbrev pub usa_ofs_of : NtfsRecord → Option ℕ
usa_ofs_of b = get_elem? b 2

abbrev pub usa_count_of : NtfsRecord → Option ℕ
usa_count_of b = get_elem? b 3

abbrev pub baad_low : ℕ
baad_low = 0x4142

abbrev pub baad_high : ℕ
baad_high = 0x4441

-- `b->magic = magic_BAAD`
abbrev pub set_baad : NtfsRecord → NtfsRecord
set_baad b = set (set b 0 baad_low) 1 baad_high

abbrev pub restored : Option NtfsRecord → Fixup
restored none = fault
restored (some b) = done b

-- Behind the test of the record: the check of all sectors, and the restoring.
unfoldable pub deprotect : NtfsRecord → ℕ → ℕ → ℕ → Option Bool → Fixup
deprotect b usa_ofs usa_count usn none = fault
deprotect b usa_ofs usa_count usn (some false) = eio (set_baad b)
deprotect b usa_ofs usa_count usn (some true) =
    restored (restore_loop (rounds usa_count) (usa_ofs / 2) first_data b)

unfoldable pub read_fields : NtfsRecord → Option (ℕ × ℕ)
read_fields b = do usa_ofs ← usa_ofs_of b; usa_count ← usa_count_of b; some (usa_ofs, usa_count)

unfoldable pub post_read_sectors : NtfsRecord → ℕ → ℕ → Option ℕ → Fixup
post_read_sectors b usa_ofs usa_count none = fault
post_read_sectors b usa_ofs usa_count (some usn) =
    deprotect b usa_ofs usa_count usn (check_loop (rounds usa_count) first_data usn b)

unfoldable pub post_read_fixup : NtfsRecord → ℕ → Fixup
post_read_fixup b size = elim (read_fields b) [
  | none ↦ fault
  | some (usa_ofs, usa_count) ↦
      if is_valid_record size usa_ofs usa_count
      then post_read_sectors b usa_ofs usa_count (get_elem? b (usa_ofs / 2))
      else einval b
]

-- ntfs_is_baad_record and ntfs_is_hole_record.
unfoldable pub is_unusable : NtfsRecord → Option Bool
is_unusable b = do
  low ← get_elem? b 0
  high ← get_elem? b 1
  some ((low == baad_low && (high == baad_high)) || (low == 0x4f48 && (high == 0x454c)))

-- "Cyclically increment the update sequence number (skipping 0 and -1, i.e. 0xffff)."
unfoldable pub next_usn : ℕ → ℕ
next_usn old = let usn = (old + 1) % 2 ^ 16 in if usn == 0xffff || usn == 0 then 1 else usn

unfoldable pub protect : NtfsRecord → ℕ → ℕ → Option NtfsRecord
protect b usa_ofs usa_count = do
  old ← get_elem? b (usa_ofs / 2)
  b' ← store b (usa_ofs / 2) (next_usn old)
  protect_loop (rounds usa_count) (usa_ofs / 2) first_data (next_usn old) b'

-- `b` is not NULL.
unfoldable pub pre_write_fixup : NtfsRecord → ℕ → Fixup
pre_write_fixup b size = elim (is_unusable b) [
  | none ↦ fault
  | some true ↦ einval b
  | some false ↦ elim (read_fields b) [
    | none ↦ fault
    | some (usa_ofs, usa_count) ↦
        if is_valid_record size usa_ofs usa_count
        then restored (protect b usa_ofs usa_count)
        else einval b
  ]
]

unfoldable pub post_write_fixup : NtfsRecord → Fixup
post_write_fixup b = elim (read_fields b) [
  | none ↦ fault
  | some (usa_ofs, usa_count) ↦
      restored (restore_loop (rounds usa_count) (usa_ofs / 2) first_data b)
]
