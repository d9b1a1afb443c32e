-- ===== src/PageCache/Pages.antt =====
-- source/cache2.c: finding, evicting and loading a page.
use libntfs.Prelude.{
  ℕ, suc, ◌+◌, ◌-◌, ◌*◌, ◌/◌, ◌%◌, ◌^◌, List, [], ◌∷◌, Option, none, some, Bool, true, false, not,
  ◌&&◌, ◌||◌, get_elem?, set, take, drop, ltb, leb, ◌==◌, if◌then◌else◌,
}
use libntfs.PageCache.{
  Sector, DiscInterface, CacheEntry, Cache, State, Ended, ok, failed, fault, cache_free, uint_max,
  clean, is_dirty, first_dirty, last_dirty, overwrite, free_entry,
}

abbrev pub contains : CacheEntry → ℕ → Bool
contains e sector = leb e.sector sector && ltb sector (e.sector + e.count)

-- The page that has the sector, or the one to replace, and whether that is free.
pub data Scan : Type 0 where
  hit : ℕ → Scan
  miss : Bool → ℕ → Scan

-- The loop of _NTFS_cache_getPage from the page `i` on.
unfoldable pub scan : ℕ → List CacheEntry → ℕ → Bool → ℕ → ℕ → Scan
scan sector [] i found_free old_used old_access = miss found_free old_used
scan sector (e ∷ entries) i found_free old_used old_access =
    let is_free = e.sector == cache_free in
    let better = not found_free && (is_free || ltb e.last_access old_access) in
    let rest =
      scan sector entries (suc i) (if better then is_free else found_free)
        (if better then i else old_used) (if better then e.last_access else old_access) in
    if contains e sector then hit i else rest

-- accessTime()
abbrev pub access_time : Cache → ℕ
access_time c = (c.access_counter + 1) % 2 ^ 32

-- The page is used now.
unfoldable pub accessed : Cache → ℕ → CacheEntry → Cache
accessed c i e = record c {
  entries = set c.entries i (record e { last_access = access_time c });
  access_counter = access_time c;
}

abbrev pub with_entry : Cache → ℕ → CacheEntry → Cache
with_entry c i e = record c { entries = set c.entries i e }

-- The sectors of the page that are read, from which on and how many; `none` if all of it is written.
unfoldable pub to_read : Bool → ℕ → ℕ → ℕ → Option (ℕ × ℕ)
to_read false sector num_sectors count = some (0, count)
to_read true sector num_sectors count =
    if sector == 0
    then (if num_sectors == count then none else some (num_sectors, count - num_sectors))
    else (if sector + num_sectors == count then some (0, count - num_sectors) else some (0, count))

-- The sectors between the first dirty one and the last.
abbrev pub dirty_part : CacheEntry → List Sector
dirty_part e = take (last_dirty e.dirty - first_dirty e.dirty) (drop (first_dirty e.dirty) e.cache)

module _ {D : Type 0} (io : DiscInterface D) where
  -- Writing the dirty sectors of the page back; `none` is a failure of the disc.
  unfoldable pub write_back : ℕ → CacheEntry → State D → Option CacheEntry × State D
  write_back i e s =
      if is_dirty e.dirty
      then (let (good, disc) =
            DiscInterface.write_sectors io s.disc (e.sector + first_dirty e.dirty) (dirty_part e) in
          if good
          then (
            some (record e { dirty = clean }),
            record { cache = with_entry s.cache i (record e { dirty = clean }); disc = disc },
          )
          else (none, record s { disc = disc }))
      else (some e, s)

  -- What follows the reading of the page; `e` has its new place.
  unfoldable pub loaded :
      ℕ → CacheEntry → ℕ → Option (List Sector) × D → State D → Ended ℕ × State D
  loaded i e sec (none, disc) s =
      (failed, record { cache = with_entry s.cache i (free_entry e); disc = disc })
  loaded i e sec (some sectors, disc) s = (
    ok i,
    record {
      cache = accessed s.cache i (record e { cache = overwrite e.cache sec sectors });
      disc = disc;
    },
  )

  -- "align base sector to page size", and the loading; `e` is clean.
  unfoldable pub load : ℕ → CacheEntry → ℕ → ℕ → Bool → State D → Ended ℕ × State D
  load i e sector num_sectors write s =
      let c = s.cache in
      let base = sector / c.sectors_per_page * c.sectors_per_page in
      let left = c.end_of_partition - base in
      let count = if ltb c.sectors_per_page left then c.sectors_per_page else left in
      let at = sector - base in
      let num = if ltb (count - at) num_sectors then count - at else num_sectors in
      let placed = record e { sector = base; count = count } in
      elim (to_read write at num count) [
        | none ↦ (ok i, record s { cache = accessed c i placed })
        | some (sec, n) ↦
            loaded i placed sec (DiscInterface.read_sectors io s.disc (base + sec) n) s
      ]

  unfoldable pub after_write_back :
      ℕ → ℕ → ℕ → Bool → Option CacheEntry × State D → Ended ℕ × State D
  after_write_back i sector num_sectors write (none, s) = (failed, s)
  after_write_back i sector num_sectors write (some e, s) = load i e sector num_sectors write s

  -- A page is replaced. A free one is not written back.
  unfoldable pub replace : Bool → ℕ → ℕ → ℕ → Bool → Option CacheEntry → State D → Ended ℕ × State D
  replace found_free i sector num_sectors write none s = (fault, s)
  replace found_free i sector num_sectors write (some e) s =
      after_write_back i sector num_sectors write
        (if found_free then (some e, s) else write_back i e s)

  unfoldable pub use_page : ℕ → Option CacheEntry → State D → Ended ℕ × State D
  use_page i none s = (fault, s)
  use_page i (some e) s = (ok i, record s { cache = accessed s.cache i e })

  unfoldable pub get_page : State D → ℕ → ℕ → Bool → Ended ℕ × State D
  get_page s sector num_sectors write = elim (scan sector s.cache.entries 0 false 0 uint_max) [
    | hit i ↦ use_page i (get_elem? s.cache.entries i) s
    | miss found_free i ↦
        replace found_free i sector num_sectors write (get_elem? s.cache.entries i) s
  ]

-- `entry`, the page found so far, and its sector `lowest`.
unfoldable pub find_loop : List CacheEntry → ℕ → ℕ → Option CacheEntry → ℕ → Option CacheEntry
find_loop [] sector count entry lowest = entry
find_loop (e ∷ entries) sector count entry lowest =
    let intersect =
      if ltb e.sector sector
      then ltb (sector - e.sector) e.count
      else ltb (e.sector - sector) count in
    let better = not (e.sector == cache_free) && intersect && ltb e.sector lowest in
    find_loop entries sector count (if better then some e else entry)
      (if better then e.sector else lowest)

-- _NTFS_cache_findPage
unfoldable pub find_page : Cache → ℕ → ℕ → Option CacheEntry
find_page c sector count = find_loop c.entries sector count none cache_free
