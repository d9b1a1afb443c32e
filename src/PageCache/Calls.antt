-- ===== src/PageCache/Calls.antt =====
-- source/cache2.c: the calls of the cache. `is_dma` tells for each number of sectors already
-- transferred whether the place in the caller's buffer behind them is a DMA address.
use libntfs.Prelude.{
  ℕ, zero, suc, ◌+◌, ◌-◌, ◌*◌, ◌/◌, ◌%◌, List, [], ◌∷◌, ◌++◌, none, some, Bool, true, false, ◌&&◌,
  length, get_elem?, set, take, drop, replicate, ltb, ◌==◌, if◌then◌else◌,
}
use libntfs.PageCache.{
  Sector, DiscInterface, CacheEntry, Cache, State, Ended, ok, failed, fault, no_end, mark,
  overwrite, free_entry,
}
use libntfs.PageCache.Pages.{get_page, find_page, write_back, with_entry}

-- The sectors that pass the cache by.
unfoldable pub direct_sectors : Bool → Cache → ℕ → ℕ → ℕ
direct_sectors is_dma c sector num_sectors =
    if is_dma && (sector % c.sectors_per_page == 0)
    then (elim (find_page c sector num_sectors) [
      | none ↦ num_sectors / c.sectors_per_page * c.sectors_per_page
      | some e ↦ if ltb sector e.sector then e.sector - sector else 0
    ])
    else 0

-- The sectors of a page that a call transfers.
abbrev pub in_page : CacheEntry → ℕ → ℕ → ℕ
in_page e sector num_sectors =
    if ltb num_sectors (e.count - (sector - e.sector))
    then num_sectors
    else e.count - (sector - e.sector)

module _ {D : Type 0} (io : DiscInterface D) (is_dma : ℕ → Bool) where
  -- The loop of _NTFS_cache_readSectors; `out` has the sectors read so far.
  unfoldable pub read_loop : ℕ → State D → ℕ → ℕ → List Sector → Ended (List Sector) × State D
  read_loop fuel s sector zero out = (ok out, s)
  read_loop zero s sector (suc num) out = (no_end, s)
  read_loop (suc fuel) s sector (suc num) out =
      elim (direct_sectors (is_dma (length out)) s.cache sector (suc num)) [
        | zero ↦
            let (got, s') = get_page io s sector (suc num) false in
            elim got [
              | ok i ↦ elim (get_elem? s'.cache.entries i) [
                | none ↦ (fault, s')
                | some e ↦
                    let n = in_page e sector (suc num) in
                    read_loop fuel s' (sector + n) (suc num - n)
                      (out ++ take n (drop (sector - e.sector) e.cache))
              ]
              | failed ↦ (failed, s')
              | fault ↦ (fault, s')
              | no_end ↦ (no_end, s')
            ]
        | suc n ↦
            let (got, disc) = DiscInterface.read_sectors io s.disc sector (suc n) in
            elim got [
              | none ↦ (failed, record s { disc = disc })
              | some sectors ↦
                  read_loop fuel (record s { disc = disc }) (sector + suc n) (suc num - suc n)
                    (out ++ sectors)
            ]
      ]

  -- Each round reads a sector at least.
  unfoldable pub cache_read_sectors : State D → ℕ → ℕ → Ended (List Sector) × State D
  cache_read_sectors s sector num_sectors = read_loop num_sectors s sector num_sectors []

  -- The loop of _NTFS_cache_writeSectors; `done` sectors are written, and `from` has the others. A
  -- mask of 64 sectors takes a shift by 64.
  unfoldable pub write_loop : ℕ → State D → ℕ → ℕ → List Sector → Ended (Unit {0}) × State D
  write_loop fuel s sector done [] = (ok tt, s)
  write_loop zero s sector done (x ∷ from) = (no_end, s)
  write_loop (suc fuel) s sector done (x ∷ from) =
      elim (direct_sectors (is_dma done) s.cache sector (length (x ∷ from))) [
        | zero ↦
            let (got, s') = get_page io s sector (length (x ∷ from)) true in
            elim got [
              | ok i ↦ elim (get_elem? s'.cache.entries i) [
                | none ↦ (fault, s')
                | some e ↦
                    let at = sector - e.sector in
                    let n = in_page e sector (length (x ∷ from)) in
                    let e' = record e {
                      cache = overwrite e.cache at (take n (x ∷ from));
                      dirty = mark e.dirty at n;
                    } in
                    let s'' = record s' { cache = with_entry s'.cache i e' } in
                    let rest = write_loop fuel s'' (sector + n) (done + n) (drop n (x ∷ from)) in
                    if ltb n 64 then rest else (fault, s')
              ]
              | failed ↦ (failed, s')
              | fault ↦ (fault, s')
              | no_end ↦ (no_end, s')
            ]
        | suc n ↦
            let (good, disc) =
              DiscInterface.write_sectors io s.disc sector (take (suc n) (x ∷ from)) in
            let rest =
              write_loop fuel (record s { disc = disc }) (sector + suc n) (done + suc n)
                (drop (suc n) (x ∷ from)) in
            if good then rest else (failed, record s { disc = disc })
      ]

  unfoldable pub cache_write_sectors : State D → ℕ → List Sector → Ended (Unit {0}) × State D
  cache_write_sectors s sector buffer = write_loop (length buffer) s sector 0 buffer

abbrev pub free_all : List CacheEntry → List CacheEntry
free_all [] = []
free_all (e ∷ entries) = free_entry e ∷ free_all entries

module _ {D : Type 0} (io : DiscInterface D) where
  -- The pages from `i` on; false if one cannot be written.
  unfoldable pub flush_loop : ℕ → List CacheEntry → State D → Bool × State D
  flush_loop i [] s = (true, s)
  flush_loop i (e ∷ entries) s =
      let (wrote, s') = write_back io i e s in
      elim wrote [ none ↦ (false, s') | some e' ↦ flush_loop (suc i) entries s' ]

  unfoldable pub cache_flush : State D → Bool × State D
  cache_flush s =
      let (wrote, s') = flush_loop 0 s.cache.entries s in
      if wrote
      then (let (good, disc) = DiscInterface.flush io s'.disc in (good, record s' { disc = disc }))
      else (false, s')

  -- What _NTFS_cache_flush returns is passed over.
  unfoldable pub cache_invalidate : State D → State D
  cache_invalidate s =
      let s' = (cache_flush s).1 in
      record s' { cache = record s'.cache { entries = free_all s'.cache.entries } }

  -- The page of one sector, with its place in it.
  unfoldable pub partial :
      State D
      → ℕ
      → Bool
      → (ℕ → CacheEntry → State D → Ended (List ℕ) × State D)
      → Ended (List ℕ) × State D
  partial s sector write then_do =
      let (got, s') = get_page io s sector 1 write in
      elim got [
        | ok i ↦ elim (get_elem? s'.cache.entries i) [
          | none ↦ (fault, s')
          | some e ↦ then_do i e s'
        ]
        | failed ↦ (failed, s')
        | fault ↦ (fault, s')
        | no_end ↦ (no_end, s')
      ]

  abbrev pub sector_of :
      CacheEntry → ℕ → (Sector → Ended (List ℕ) × State D) → State D → Ended (List ℕ) × State D
  sector_of e sector then_do s = elim (get_elem? e.cache (sector - e.sector)) [
    | none ↦ (fault, s)
    | some bytes ↦ then_do bytes
  ]

  unfoldable pub read_partial_sector : State D → ℕ → ℕ → ℕ → Ended (List ℕ) × State D
  read_partial_sector s sector offset size =
      if ltb s.cache.bytes_per_sector (offset + size)
      then (failed, s)
      else partial s sector false
          (λ i e s'. sector_of e sector (λ bytes. (ok (take size (drop offset bytes)), s')) s')

  -- The sector of the page becomes `bytes`, and dirty.
  abbrev pub store_sector : ℕ → CacheEntry → ℕ → Sector → State D → State D
  store_sector i e sector bytes s = record s {
    cache = with_entry s.cache i (record e {
      cache = set e.cache (sector - e.sector) bytes;
      dirty = mark e.dirty (sector - e.sector) 1;
    });
  }

  unfoldable pub write_partial_sector : State D → ℕ → ℕ → List ℕ → Ended (List ℕ) × State D
  write_partial_sector s sector offset buffer =
      if ltb s.cache.bytes_per_sector (offset + length buffer)
      then (failed, s)
      else partial s sector false (λ i e s'.
        sector_of e sector
          (λ bytes. (ok [], store_sector i e sector (overwrite bytes offset buffer) s')) s')

  unfoldable pub erase_write_partial_sector : State D → ℕ → ℕ → List ℕ → Ended (List ℕ) × State D
  erase_write_partial_sector s sector offset buffer =
      if ltb s.cache.bytes_per_sector (offset + length buffer)
      then (failed, s)
      else partial s sector true (λ i e s'. (
        ok [],
        store_sector i e sector (overwrite (replicate s.cache.bytes_per_sector 0) offset buffer) s',
      ))
