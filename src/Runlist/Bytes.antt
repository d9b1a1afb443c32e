-- ===== src/Runlist/Bytes.antt =====
-- source/runlist.c: ntfs_write_significant_bytes, ntfs_get_nr_significant_bytes and the loops of
-- ntfs_mapping_pairs_decompress_i that read a signed number back.
pub mod Counting
pub mod RoundTrip
use libntfs.Prelude.{ℕ, zero, suc, ◌+◌, ◌-◌, ◌*◌, ◌/◌, ◌%◌, ◌^◌}
use libntfs.Prelude.{
  ◌≡◌, ◌⊎◌, inl, inr, refl, Option, none, some, List, [], ◌∷◌, Bool, ◌||◌, get_elem?, leb, ◌==◌,
  if◌then◌else◌,
}
use libntfs.Prelude.Word.{add64, asr8, is_neg, minus, sext8, shl64, slt}

-- The test `(l > 0x7f) || (l < -0x80)` of the writer's loop.
unfoldable pub needs_more : ℕ → Bool
needs_more l = slt 0x7f l || slt l (minus 0x80)

-- What is stored from a place on: all the bytes, or, where the buffer is too small, the ones in
-- front of the return of -1 with ENOSPC.
pub data Writing : Type 0 where
  written : List ℕ → Writing
  cut_off : List ℕ → Writing

-- `*dst++ = l` in front of the rest.
abbrev pub behind : ℕ → Writing → Writing
behind x (written bs) = written (x ∷ bs)
behind x (cut_off bs) = cut_off (x ∷ bs)

-- `room` is the number of bytes from `dst` to `dst_max`, that one included.
unfoldable pub write_significant_bytes : ℕ → ℕ → Writing
write_significant_bytes zero l = cut_off []
write_significant_bytes (suc room) l =
    let more = behind (l % 256) (write_significant_bytes room (asr8 l)) in
    if needs_more l then more else written (l % 256 ∷ [])

-- The `do` loop of ntfs_get_nr_significant_bytes, with the rounds that are left: `l` is below
-- 2 ^ 57 at its start, so eight are enough.
unfoldable pub count_bytes : ℕ → ℕ → ℕ → ℕ
count_bytes zero i l = i
count_bytes (suc fuel) i l =
    let more = count_bytes fuel (i + 1) (l / 256) in if l / 256 == 0 then i + 1 else more

unfoldable pub get_nr_significant_bytes : ℕ → ℕ
get_nr_significant_bytes n =
    let l = if is_neg n then 2 ^ 64 - 1 - n else n in
    if leb 128 l then count_bytes 8 1 (l / 2 ^ 7) else 1

-- `for (; i > lo; i--) acc = (acc << 8) + buf[i]` from `i = lo + n`. `none` is a read behind the
-- end of the attribute.
unfoldable pub read_loop : List ℕ → ℕ → ℕ → ℕ → Option ℕ
read_loop buf lo zero acc = some acc
read_loop buf lo (suc n) acc = elim (get_elem? buf (lo + suc n)) [
  | none ↦ none
  | some x ↦ read_loop buf lo n (add64 (shl64 acc 8) x)
]

-- The number whose bytes are buf[lo + 1] .. buf[lo + n + 1], lowest first.
unfoldable pub read_significant_bytes : List ℕ → ℕ → ℕ → Option ℕ
read_significant_bytes buf lo n = elim (get_elem? buf (lo + suc n)) [
  | none ↦ none
  | some x ↦ read_loop buf lo n (sext8 x)
]

pub Writing-cases :
    (w : Writing) → ((bs : List ℕ) × (w ≡ cut_off bs)) ⊎ ((bs : List ℕ) × (w ≡ written bs))
Writing-cases (written bs) = inr (bs, refl)
Writing-cases (cut_off bs) = inl (bs, refl)
