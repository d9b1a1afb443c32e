-- ===== src/PageCache/Values.antt =====
-- source/cache2.c, source/bit_ops.h: reading and writing little endian numbers in a sector, and the
-- destructor. A number of bytes is not negative.
use libntfs.Prelude.{
  ℕ, zero, suc, ◌+◌, ◌-◌, ◌*◌, ◌/◌, ◌%◌, ◌^◌, ◌≤◌, ◌<◌, ◌≡◌, ◌⊎◌, inl, inr, refl, sym, ◌∙◌, ap,
  arith, List, [], ◌∷◌, length, get_elem?, take, drop, ltb, ◌==◌, if◌then◌else◌,
}
use libntfs.PageCache.{Sector, DiscInterface, State, Ended, ok, failed, fault, no_end, overwrite}
use libntfs.PageCache.Calls.{read_partial_sector, write_partial_sector, cache_flush}
use libntfs.PageCache.Invariant.{IsDisc, Represents}
use libntfs.PageCache.Evicted.{SameGeometry}
use libntfs.PageCache.Arrays.{put, put-Within}
use libntfs.PageCache.Partials.{Transfers}
use libntfs.PageCache.Parts.{reads_part, writes_part}

abbrev pub u8array_to_u8 : List ℕ → Ended ℕ
u8array_to_u8 [] = fault
u8array_to_u8 (a ∷ bytes) = ok a

abbrev pub u8array_to_u16 : List ℕ → Ended ℕ
u8array_to_u16 [] = fault
u8array_to_u16 (a ∷ []) = fault
u8array_to_u16 (a ∷ b ∷ bytes) = ok (a + b * 2 ^ 8)

abbrev pub u8array_to_u32 : List ℕ → Ended ℕ
u8array_to_u32 [] = fault
u8array_to_u32 (a ∷ []) = fault
u8array_to_u32 (a ∷ b ∷ []) = fault
u8array_to_u32 (a ∷ b ∷ c ∷ []) = fault
u8array_to_u32 (a ∷ b ∷ c ∷ d ∷ bytes) = ok (a + b * 2 ^ 8 + c * 2 ^ 16 + d * 2 ^ 24)

abbrev pub u16_to_u8array : ℕ → List ℕ
u16_to_u8array value = value % 2 ^ 8 ∷ value / 2 ^ 8 % 2 ^ 8 ∷ []

abbrev pub u32_to_u8array : ℕ → List ℕ
u32_to_u8array value =
    value % 2 ^ 8 ∷ value / 2 ^ 8 % 2 ^ 8 ∷ value / 2 ^ 16 % 2 ^ 8 ∷ value / 2 ^ 24 % 2 ^ 8 ∷ []

-- The switch on the number of bytes, behind the reading into four bytes.
abbrev pub value_of : ℕ → List ℕ → Ended ℕ
value_of num_bytes buf =
    if ltb 4 num_bytes
    then fault
    else (if num_bytes == 1
        then u8array_to_u8 buf
        else (if num_bytes == 2
            then u8array_to_u16 buf
            else (if num_bytes == 4 then u8array_to_u32 buf else failed)))

module _ {D : Type 0} (io : DiscInterface D) where
  unfoldable pub read_little_endian_value : State D → ℕ → ℕ → ℕ → Ended ℕ × State D
  read_little_endian_value s sector offset num_bytes =
      let (got, s') = read_partial_sector io s sector offset num_bytes in
      elim got [
        | ok buf ↦ (value_of num_bytes buf, s')
        | failed ↦ (failed, s')
        | fault ↦ (fault, s')
        | no_end ↦ (no_end, s')
      ]

  unfoldable pub write_little_endian_value : State D → ℕ → ℕ → ℕ → ℕ → Ended (List ℕ) × State D
  write_little_endian_value s value sector offset size =
      if size == 1
      then write_partial_sector io s sector offset (value % 2 ^ 8 ∷ [])
      else (if size == 2
          then write_partial_sector io s sector offset (u16_to_u8array value)
          else (if size == 4
              then write_partial_sector io s sector offset (u32_to_u8array value)
              else (failed, s)))

  -- What is left of the state when the memory is freed: the disc.
  abbrev pub cache_destructor : State D → D
  cache_destructor s = (cache_flush io s).1.disc

take-overwrite :
    (xs ys : List ℕ) → length ys ≤ length xs → take (length ys) (overwrite xs 0 ys) ≡ ys
unfolding overwrite
take-overwrite xs [] h = refl
take-overwrite [] (y ∷ ys) h = absurd (omega (arith, h))
take-overwrite (x ∷ xs) (y ∷ ys) h = ap (λ zs. y ∷ zs) (take-overwrite xs ys (omega (arith, h)))

-- What was stored at an offset.
take-drop-overwrite :
    (xs : List ℕ) (offset : ℕ) (ys : List ℕ)
    → offset + length ys ≤ length xs
    → take (length ys) (drop offset (overwrite xs offset ys)) ≡ ys
unfolding overwrite
take-drop-overwrite xs zero ys h = take-overwrite xs ys (omega (arith, h))
take-drop-overwrite [] (suc offset) ys h = absurd (omega (arith, h))
take-drop-overwrite (x ∷ xs) (suc offset) ys h = take-drop-overwrite xs offset ys (omega (arith, h))

module _ {D : Type 0} {io : DiscInterface D} (disc : IsDisc io) where
  module _ (f : ℕ → Sector) (s : State D) (R : Represents disc f s) (sector offset : ℕ)
      (buffer : List ℕ) (below : sector < s.cache.end_of_partition)
      (fits : offset + length buffer ≤ s.cache.bytes_per_sector)
      (full : s.cache.bytes_per_sector ≤ length (f sector)) where
    abbrev behind : State D
    behind = (write_partial_sector io s sector offset buffer).1

    abbrev new : ℕ → Sector
    new = put f sector (overwrite (f sector) offset buffer ∷ [])

    new_bytes : take (length buffer) (drop offset (new sector)) ≡ buffer
    new_bytes =
        ap (λ bytes. take (length buffer) (drop offset bytes))
          (put-Within f sector (overwrite (f sector) offset buffer ∷ []) sector
            (overwrite (f sector) offset buffer) (omega arith)
            (ap (get_elem? (overwrite (f sector) offset buffer ∷ [])) (self sector)))
        ∙ take-drop-overwrite (f sector) offset buffer (omega (arith, fits, full))
      where
        self : (n : ℕ) → n - n ≡ 0
        self n = omega arith

    written :
        (r : Ended (List ℕ)) (s1 : State D)
        → Transfers disc f [] new s r s1
        → r ≡ ok []
        → Represents disc new s1 × SameGeometry s.cache s1.cache
    written (ok out) s1 (eq, R1, same) h = (R1, same)
    written failed s1 t h = absurd (cc)
    written fault s1 t h = absurd (cc)
    written no_end s1 t h = absurd (cc)

    read_back :
        (r : Ended (List ℕ)) (s1 s2 : State D) (bytes : List ℕ)
        → Transfers disc new (take (length buffer) (drop offset (new sector))) new s1 r s2
        → r ≡ ok bytes
        → bytes ≡ buffer
    read_back (ok out) s1 s2 bytes (eq, R2, same) h = ok_inj h ∙ eq ∙ new_bytes
      where
        ok_inj : {a b : List ℕ} → ok a ≡ ok b → b ≡ a
        ok_inj h = cc
    read_back failed s1 s2 bytes t h = absurd (cc)
    read_back fault s1 s2 bytes t h = absurd (cc)
    read_back no_end s1 s2 bytes t h = absurd (cc)

    pub read_partial-write_partial :
        (bytes : List ℕ)
        → (write_partial_sector io s sector offset buffer).0 ≡ ok []
        → (read_partial_sector io behind sector offset (length buffer)).0 ≡ ok bytes
        → bytes ≡ buffer
    read_partial-write_partial bytes wrote got =
        let (R1, same) =
          written (write_partial_sector io s sector offset buffer).0 behind
            (writes_part disc f s sector offset buffer R below fits) wrote in
        read_back (read_partial_sector io behind sector offset (length buffer)).0 behind
          (read_partial_sector io behind sector offset (length buffer)).1 bytes
          (reads_part disc new behind sector offset (length buffer) R1
            (omega (arith, below, same.same_end)) (omega (arith, fits, same.same_bytes)))
          got

  module _ (s : State D) (sector offset num_bytes v : ℕ) where
    value_read :
        (got : Ended (List ℕ))
        → (read_partial_sector io s sector offset num_bytes).0 ≡ got
        → (read_little_endian_value io s sector offset num_bytes).0 ≡ ok v
        → (bytes : List ℕ) × ((read_partial_sector io s sector offset num_bytes).0 ≡ ok bytes)
          × (value_of num_bytes bytes ≡ ok v)
    unfolding read_little_endian_value
    value_read (ok bytes) eq h =
        let step : read_little_endian_value io s sector offset num_bytes
            ≡ (value_of num_bytes bytes, (read_partial_sector io s sector offset num_bytes).1) =
          rw (eq, read_little_endian_value) refl in
        (bytes, eq, sym (ap (λ r. r.0) step) ∙ h)
    value_read failed eq h =
        let step : read_little_endian_value io s sector offset num_bytes
            ≡ (failed, (read_partial_sector io s sector offset num_bytes).1) =
          rw (eq, read_little_endian_value) refl in
        let wrong : failed ≡ ok v = sym (ap (λ r. r.0) step) ∙ h in absurd (cc)
    value_read fault eq h =
        let step : read_little_endian_value io s sector offset num_bytes
            ≡ (fault, (read_partial_sector io s sector offset num_bytes).1) =
          rw (eq, read_little_endian_value) refl in
        let wrong : fault ≡ ok v = sym (ap (λ r. r.0) step) ∙ h in absurd (cc)
    value_read no_end eq h =
        let step : read_little_endian_value io s sector offset num_bytes
            ≡ (no_end, (read_partial_sector io s sector offset num_bytes).1) =
          rw (eq, read_little_endian_value) refl in
        let wrong : no_end ≡ ok v = sym (ap (λ r. r.0) step) ∙ h in absurd (cc)

-- The sizes of the numbers, with their bytes.
bytes_of : ℕ → ℕ → List ℕ
bytes_of size value =
    if size == 1
    then value % 2 ^ 8 ∷ []
    else (if size == 2 then u16_to_u8array value else u32_to_u8array value)

abbrev pub IsSize : ℕ → Type 0
IsSize size = (size ≡ 1) ⊎ (size ≡ 2) ⊎ (size ≡ 4)

value_of-bytes_of :
    (size value : ℕ)
    → IsSize size
    → value_of size (bytes_of size value) ≡ ok (value % 2 ^ (8 * size))
unfolding bytes_of
value_of-bytes_of size value (inl h) = rw h refl
value_of-bytes_of size value (inr (inl h)) = rw h (ap ok (two value))
  where
    two : (v : ℕ) → v % 2 ^ 8 + v / 2 ^ 8 % 2 ^ 8 * 2 ^ 8 ≡ v % 2 ^ 16
    two v = omega arith
value_of-bytes_of size value (inr (inr h)) = rw h (ap ok (four value))
  where
    four :
        (v : ℕ)
        → v % 2 ^ 8
            + v / 2 ^ 8 % 2 ^ 8 * 2 ^ 8
            + v / 2 ^ 16 % 2 ^ 8 * 2 ^ 16
            + v / 2 ^ 24 % 2 ^ 8 * 2 ^ 24
          ≡ v % 2 ^ 32
    four v = omega arith

length-bytes_of : (size value : ℕ) → IsSize size → length (bytes_of size value) ≡ size
unfolding bytes_of
length-bytes_of size value (inl h) = rw h refl
length-bytes_of size value (inr (inl h)) = rw h refl
length-bytes_of size value (inr (inr h)) = rw h refl

write_value :
    {D : Type 0} (io : DiscInterface D) (s : State D) (value sector offset size : ℕ)
    → IsSize size
    → write_little_endian_value io s value sector offset size
      ≡ write_partial_sector io s sector offset (bytes_of size value)
unfolding write_little_endian_value bytes_of
write_value io s value sector offset size (inl h) = rw h refl
write_value io s value sector offset size (inr (inl h)) = rw h refl
write_value io s value sector offset size (inr (inr h)) = rw h refl

ok_inj : (a b : ℕ) → ok a ≡ ok b → b ≡ a
ok_inj a b h = cc

-- Of a cache that stands for an array of full sectors, over a disc that keeps its contract: if
-- _NTFS_cache_writeLittleEndianValue stores a number in one, two or four bytes of a sector of the partition and
-- _NTFS_cache_readLittleEndianValue then reads so many bytes from there, and both succeed, the number read is the
-- one that was stored, modulo 2 to the number of bits.
pub read_value-write_value :
    {D : Type 0} {io : DiscInterface D} (disc : IsDisc io) (f : ℕ → Sector) (s : State D)
    (value sector offset size v : ℕ)
    → Represents disc f s
    → sector < s.cache.end_of_partition
    → offset + size ≤ s.cache.bytes_per_sector
    → s.cache.bytes_per_sector ≤ length (f sector)
    → IsSize size
    → (write_little_endian_value io s value sector offset size).0 ≡ ok []
    → (read_little_endian_value io
        (write_little_endian_value io s value sector offset size).1
        sector
        offset
        size).0
      ≡ ok v
    → v ≡ value % 2 ^ (8 * size)
read_value-write_value {io = io} disc f s value sector offset size v R below fits full is_size wrote
      got =
    let buffer = bytes_of size value in
    let len = length-bytes_of size value is_size in
    let same = write_value io s value sector offset size is_size in
    let s1 = (write_partial_sector io s sector offset buffer).1 in
    let got1 : (read_little_endian_value io s1 sector offset size).0 ≡ ok v =
      ap (λ r. (read_little_endian_value io r.1 sector offset size).0) (sym same) ∙ got in
    let (bytes, read, value_eq) =
      value_read disc s1 sector offset size v (read_partial_sector io s1 sector offset size).0 refl
        got1 in
    let back =
      read_partial-write_partial disc f s R sector offset buffer below (omega (arith, fits, len))
        full bytes (sym (ap (λ r. r.0) same) ∙ wrote)
        (ap (λ n. (read_partial_sector io s1 sector offset n).0) len ∙ read) in
    ok_inj _ v
      (sym (value_of-bytes_of size value is_size) ∙ ap (value_of size) (sym back) ∙ value_eq)
