-- ===== src/Compress.antt =====
-- source/compress.c: ntfs_decompress. A compression block is the list of its bytes, and `out` the bytes
-- that are written to the destination so far, so that its length is the position there.
pub mod Ends
pub mod Outcome
use libntfs.Prelude.{
  ℕ, zero, suc, ◌+◌, ◌-◌, ◌*◌, ◌/◌, ◌%◌, ◌^◌, List, [], ◌∷◌, ◌++◌, Option, none, some, Bool, true,
  false, ◌||◌, length, get_elem?, get_or, take, drop, replicate, ltb, leb, ◌==◌, if◌then◌else◌,
}

-- What a function ends with: a result, EOVERFLOW, a read or a write outside the buffers, or no end of
-- a loop within the fuel.
pub data Decompressed (A : Type 0) : Type 0 where
  ok : A → Decompressed A
  overflow : Decompressed A
  fault : Decompressed A
  no_end : Decompressed A

unfoldable pub and_then : {A B : Type 0} → Decompressed A → (A → Decompressed B) → Decompressed B
and_then (ok a) next = next a
and_then overflow next = overflow
and_then fault next = fault
and_then no_end next = no_end

abbrev pub ntfs_sb_size : ℕ
ntfs_sb_size = 0x1000

-- The position in the compression block, and the bytes written.
abbrev pub Progress : Type 0
Progress = ℕ × List ℕ

-- le16_to_cpup at a position.
unfoldable pub le16_at : List ℕ → ℕ → Decompressed ℕ
le16_at cbs cb = elim (get_elem? cbs cb) [
  | none ↦ fault
  | some low ↦ elim (get_elem? cbs (cb + 1)) [ none ↦ fault | some high ↦ ok (low + high * 2 ^ 8) ]
]

-- The loop that counts lg, on an i of 16 bits.
unfoldable pub log2_loop : ℕ → ℕ → ℕ
log2_loop zero i = 0
log2_loop (suc bits) i = let rest = log2_loop bits (i / 2) in if leb 0x10 i then suc rest else 0

-- Copying bytes from behind, one after the other.
unfoldable pub copy_back : ℕ → ℕ → List ℕ → List ℕ
copy_back zero back out = out
copy_back (suc n) back out = copy_back n (back + 1) (out ++ (get_or out back 0 ∷ []))

module _ (cbs : List ℕ) (dest_size : ℕ) where
  unfoldable pub symbol : ℕ → List ℕ → Decompressed Progress
  symbol cb out = elim (get_elem? cbs cb) [
    | none ↦ fault
    | some byte ↦ if leb dest_size (length out) then fault else ok (cb + 1, out ++ (byte ∷ []))
  ]

  -- A phrase token; the sub-block of the destination starts at `start`.
  unfoldable pub phrase_of : ℕ → ℕ → List ℕ → ℕ → Decompressed Progress
  phrase_of start cb out pt =
      let lg = log2_loop 16 (length out - start - 1) in
      let back = pt / 2 ^ (12 - lg) + 1 in
      let len = pt % 2 ^ (12 - lg) + 3 in
      if ltb (length out) (start + back) || ltb (start + ntfs_sb_size) (length out + len)
      then overflow
      else ok (cb + 2, copy_back len (length out - back) out)

  unfoldable pub phrase : ℕ → ℕ → List ℕ → Decompressed Progress
  phrase start cb out =
      if length out == start then overflow else and_then (le16_at cbs cb) (phrase_of start cb out)

  -- The loop on the eight tokens of a tag.
  unfoldable pub tokens : ℕ → ℕ → ℕ → ℕ → ℕ → List ℕ → Decompressed Progress
  tokens start cb_sb_end zero tag cb out = ok (cb, out)
  tokens start cb_sb_end (suc left) tag cb out =
      if leb cb_sb_end cb || ltb (start + ntfs_sb_size) (length out)
      then ok (cb, out)
      else and_then (if tag % 2 == 0 then symbol cb out else phrase start cb out)
          (λ r. tokens start cb_sb_end left (tag / 2) r.0 r.1)

  -- do_next_tag
  unfoldable pub next_tag : ℕ → ℕ → ℕ → ℕ → List ℕ → Decompressed Progress
  next_tag start cb_sb_end zero cb out = no_end
  next_tag start cb_sb_end (suc fuel) cb out =
      if cb == cb_sb_end
      then ok (cb, out ++ replicate (start + ntfs_sb_size - length out) 0)
      else (if ltb cb_sb_end cb || ltb (start + ntfs_sb_size) (length out)
          then overflow
          else (elim (get_elem? cbs cb) [
            | none ↦ fault
            | some tag ↦
                and_then (tokens start cb_sb_end 8 tag (cb + 1) out)
                  (λ r. next_tag start cb_sb_end fuel r.0 r.1)
          ]))

  abbrev pub completed : List ℕ → Decompressed (List ℕ)
  completed out = ok (out ++ replicate (dest_size - length out) 0)

  -- A sub-block with its header. A round of do_next_tag passes a byte at least.
  unfoldable pub sub_block : ℕ → List ℕ → ℕ → Decompressed Progress
  sub_block cb out header =
      let cb_sb_end = cb + header % 0x1000 + 3 in
      if ltb dest_size (length out + ntfs_sb_size)
        || ltb (length cbs) (cb + 6)
        || ltb (length cbs) cb_sb_end
      then overflow
      else (if header / 0x8000 % 2 == 1
          then next_tag (length out) cb_sb_end (length cbs + 1) (cb + 2) out
          else (if cb_sb_end - (cb + 2) == ntfs_sb_size
              then ok (cb + 2 + ntfs_sb_size, out ++ take ntfs_sb_size (drop (cb + 2) cbs))
              else overflow))

  -- do_next_sb
  unfoldable pub next_sb : ℕ → ℕ → List ℕ → Decompressed (List ℕ)
  next_sb zero cb out = no_end
  next_sb (suc fuel) cb out =
      if cb == length cbs
      then completed out
      else and_then (le16_at cbs cb) (λ header.
        if header == 0 || (length out == dest_size)
        then completed out
        else and_then (sub_block cb out header) (λ r. next_sb fuel r.0 r.1))

  -- A sub-block has three bytes at least.
  unfoldable pub decompress : Decompressed (List ℕ)
  decompress = next_sb (length cbs + 1) 0 []
