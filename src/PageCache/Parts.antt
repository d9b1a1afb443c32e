-- ===== src/PageCache/Parts.antt =====
-- source/cache2.c: _NTFS_cache_readPartialSector, _NTFS_cache_writePartialSector and
-- _NTFS_cache_eraseWritePartialSector on the array that the cache stands for.
use libntfs.Prelude.{
  ℕ, ◌+◌, ◌-◌, ◌≤◌, ◌<◌, subst, ◌≡◌, inr, refl, sym, arith, List, [], ◌∷◌, some, true, false,
  length, get_elem?, take, drop, replicate, ltb,
}
use libntfs.PageCache.{Sector, DiscInterface, CacheEntry, State, ok, overwrite}
use libntfs.PageCache.Calls.{
  store_sector, read_partial_sector, write_partial_sector, erase_write_partial_sector,
}
use libntfs.PageCache.Invariant.{IsDisc, Has, Represents}
use libntfs.PageCache.Arrays.{put}
use libntfs.PageCache.Partials.{
  Transfers, partial-Transfers, sector_of_ok, opened, store_sector-Represents, store_same,
}

module _ {D : Type 0} {io : DiscInterface D} (disc : IsDisc io) where
  -- The sector in the page is the array's.
  cached_sector :
      (f : ℕ → Sector) (s : State D) (i : ℕ) (e : CacheEntry) (sector : ℕ)
      → Represents disc f s
      → get_elem? s.cache.entries i ≡ some e
      → Has e sector
      → get_elem? e.cache (sector - e.sector) ≡ some (f sector)
  cached_sector f s i e sector R at has =
      (R.pages.page i e at).cached sector has (inr (omega arith))

  pub reads_part :
      (f : ℕ → Sector) (s : State D) (sector offset size : ℕ)
      → Represents disc f s
      → sector < s.cache.end_of_partition
      → offset + size ≤ s.cache.bytes_per_sector
      → Transfers disc f
          (take size (drop offset (f sector)))
          f
          s
          (read_partial_sector io s sector offset size).0
          (read_partial_sector io s sector offset size).1
  unfolding read_partial_sector
  reads_part f s sector offset size R below fits =
      let inside : ltb s.cache.bytes_per_sector (offset + size) ≡ false = ground (arith, fits) in
      rw (inside, read_partial_sector)
        (partial-Transfers disc f sector false s _ (take size (drop offset (f sector))) f
          (λ i e s1 at has R1 same.
            subst (λ r. Transfers disc f (take size (drop offset (f sector))) f s r.0 r.1)
              (sym (
                sector_of_ok disc e sector (λ bytes. (ok (take size (drop offset bytes)), s1)) s1
                  (f sector) (cached_sector f s1 i e sector R1 at has)))
              (refl, R1, same))
          R below)

  pub writes_part :
      (f : ℕ → Sector) (s : State D) (sector offset : ℕ) (buffer : List ℕ)
      → Represents disc f s
      → sector < s.cache.end_of_partition
      → offset + length buffer ≤ s.cache.bytes_per_sector
      → Transfers disc f []
          (put f sector (overwrite (f sector) offset buffer ∷ []))
          s
          (write_partial_sector io s sector offset buffer).0
          (write_partial_sector io s sector offset buffer).1
  unfolding write_partial_sector
  writes_part f s sector offset buffer R below fits =
      let inside : ltb s.cache.bytes_per_sector (offset + length buffer) ≡ false =
        ground (arith, fits) in
      let new = overwrite (f sector) offset buffer in
      rw (inside, write_partial_sector)
        (partial-Transfers disc f sector false s _ [] (put f sector (new ∷ []))
          (λ i e s1 at has R1 same.
            subst (λ r. Transfers disc f [] (put f sector (new ∷ [])) s r.0 r.1)
              (sym (
                sector_of_ok disc e sector
                  (λ bytes. (ok [], store_sector io i e sector (overwrite bytes offset buffer) s1))
                  s1 (f sector) (cached_sector f s1 i e sector R1 at has)))
              (
                refl,
                store_sector-Represents disc f s1 i e sector new
                    (opened disc f s1 sector (sector + 1) R1) at has,
                store_same disc s s1 i e sector new same,
              ))
          R below)

  pub erases_part :
      (f : ℕ → Sector) (s : State D) (sector offset : ℕ) (buffer : List ℕ)
      → Represents disc f s
      → sector < s.cache.end_of_partition
      → offset + length buffer ≤ s.cache.bytes_per_sector
      → Transfers disc f []
          (put f sector (overwrite (replicate s.cache.bytes_per_sector 0) offset buffer ∷ []))
          s
          (erase_write_partial_sector io s sector offset buffer).0
          (erase_write_partial_sector io s sector offset buffer).1
  unfolding erase_write_partial_sector
  erases_part f s sector offset buffer R below fits =
      let inside : ltb s.cache.bytes_per_sector (offset + length buffer) ≡ false =
        ground (arith, fits) in
      let new = overwrite (replicate s.cache.bytes_per_sector 0) offset buffer in
      rw (inside, erase_write_partial_sector)
        (partial-Transfers disc f sector true s _ [] (put f sector (new ∷ []))
          (λ i e s1 at has R1 same. (
            refl,
            store_sector-Represents disc f s1 i e sector new R1 at has,
            store_same disc s s1 i e sector new same,
          ))
          R below)

-- Of a cache that stands for an array of sectors, over a disc that keeps its contract, the calls on a part of a
-- sector of the partition that fits the sector end: _NTFS_cache_readPartialSector returns those bytes of the
-- array's sector, _NTFS_cache_writePartialSector stores the buffer in the array's sector, and
-- _NTFS_cache_eraseWritePartialSector stores it in a sector of zeros; or they report a failure of the disc, and the
-- cache stands for the same array.
pub partial_sectors-Transfers :
    {D : Type 0} {io : DiscInterface D} (disc : IsDisc io) (f : ℕ → Sector) (s : State D)
    (sector offset : ℕ) (buffer : List ℕ)
    → Represents disc f s
    → sector < s.cache.end_of_partition
    → offset + length buffer ≤ s.cache.bytes_per_sector
    → Transfers disc f
        (take (length buffer) (drop offset (f sector)))
        f
        s
        (read_partial_sector io s sector offset (length buffer)).0
        (read_partial_sector io s sector offset (length buffer)).1
      × Transfers disc f []
          (put f sector (overwrite (f sector) offset buffer ∷ []))
          s
          (write_partial_sector io s sector offset buffer).0
          (write_partial_sector io s sector offset buffer).1
      × Transfers disc f []
          (put f sector (overwrite (replicate s.cache.bytes_per_sector 0) offset buffer ∷ []))
          s
          (erase_write_partial_sector io s sector offset buffer).0
          (erase_write_partial_sector io s sector offset buffer).1
partial_sectors-Transfers disc f s sector offset buffer R below fits = (
  reads_part disc f s sector offset (length buffer) R below fits,
  writes_part disc f s sector offset buffer R below fits,
  erases_part disc f s sector offset buffer R below fits,
)
