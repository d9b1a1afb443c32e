-- ===== src/PageCache/Invariant.antt =====
-- source/cache2.c: what a cache has to satisfy to stand for an array of sectors, over a disc that
-- keeps its contract.
use libntfs.Prelude.{ℕ, ◌+◌, ◌-◌, ◌*◌, ◌/◌, ◌≤◌, ◌<◌, ◌≡◌, ◌⊎◌, List, some, true, length, get_elem?}
use libntfs.PageCache.{
  Sector, DiscInterface, CacheEntry, Cache, State, cache_free, first_dirty, last_dirty,
}

-- The sectors `from` up to `to`, and all others.
abbrev pub Within : ℕ → ℕ → ℕ → Type 0
Within from to k = (from ≤ k) × (k < to)

abbrev pub Outside : ℕ → ℕ → ℕ → Type 0
Outside from to k = (k < from) ⊎ (to ≤ k)

-- The contract of a disc: a read changes nothing, and returns what the disc has; a write stores the
-- buffer, or fails and may have changed the sectors it is about; a flush changes nothing.
pub record IsDisc {D : Type 0} (io : DiscInterface D) : Type 0 where
  pub content : D → ℕ → Sector
  pub read_keeps :
      (d : D) (sector n k : ℕ)
      → content (DiscInterface.read_sectors io d sector n).1 k ≡ content d k
  pub read_length :
      (d : D) (sector n : ℕ) (out : List Sector)
      → (DiscInterface.read_sectors io d sector n).0 ≡ some out
      → length out ≡ n
  pub reads :
      (d : D) (sector n : ℕ) (out : List Sector) (j : ℕ)
      → (DiscInterface.read_sectors io d sector n).0 ≡ some out
      → j < n
      → get_elem? out j ≡ some (content d (sector + j))
  pub write_keeps :
      (d : D) (sector : ℕ) (buffer : List Sector) (k : ℕ)
      → Outside sector (sector + length buffer) k
      → content (DiscInterface.write_sectors io d sector buffer).1 k ≡ content d k
  pub writes :
      (d : D) (sector : ℕ) (buffer : List Sector) (j : ℕ) (x : Sector)
      → (DiscInterface.write_sectors io d sector buffer).0 ≡ true
      → get_elem? buffer j ≡ some x
      → content (DiscInterface.write_sectors io d sector buffer).1 (sector + j) ≡ x
  pub flush_keeps : (d : D) (k : ℕ) → content (DiscInterface.flush io d).1 k ≡ content d k

-- The page has the sector.
abbrev pub Has : CacheEntry → ℕ → Type 0
Has e k = Within e.sector (e.sector + e.count) k

-- The sector of the page is not written back when the page is evicted.
abbrev pub Stored : CacheEntry → ℕ → Type 0
Stored e k = Outside (e.sector + first_dirty e.dirty) (e.sector + last_dirty e.dirty) k

-- The page is a page of the partition, or has no sector.
pub record IsPlaced (spp end : ℕ) (e : CacheEntry) : Type 0 where
  pub of_page : (k : ℕ) → Has e k → (k < end) × (k / spp * spp ≡ e.sector)
  pub whole : (k : ℕ) → k < end → k / spp * spp ≡ e.sector → Has e k
  pub room : e.count ≤ spp
  pub buffer : spp ≤ length e.cache
  pub bits : length e.dirty ≡ 64
  pub inside : last_dirty e.dirty ≤ e.count

-- The page stands for the sectors `f`, but for those from `from` up to `to`; the disc has `g`.
pub record IsPage (spp end : ℕ) (g f : ℕ → Sector) (from to : ℕ) (e : CacheEntry) : Type 0 where
  pub placed : IsPlaced spp end e
  pub cached : (k : ℕ) → Has e k → Outside from to k → get_elem? e.cache (k - e.sector) ≡ some (f k)
  pub stored : (k : ℕ) → Has e k → Stored e k → g k ≡ f k

pub record Pages (spp end : ℕ) (g f : ℕ → Sector) (from to : ℕ) (entries : List CacheEntry)
    : Type 0 where
  pub page : (i : ℕ) (e : CacheEntry) → get_elem? entries i ≡ some e → IsPage spp end g f from to e
  pub apart :
      (i j : ℕ) (e a : CacheEntry) (k : ℕ)
      → get_elem? entries i ≡ some e
      → get_elem? entries j ≡ some a
      → Has e k
      → Has a k
      → i ≡ j
  pub rest :
      (k : ℕ)
      → k < end
      → ((i : ℕ) (e : CacheEntry) → get_elem? entries i ≡ some e → ¬ Has e k)
      → g k ≡ f k

-- The geometry of a cache: 1 to 64 sectors a page, and a page at least.
pub record IsCache (c : Cache) : Type 0 where
  pub some_sectors : 0 < c.sectors_per_page
  pub few_sectors : c.sectors_per_page ≤ 64
  pub end_small : c.end_of_partition ≤ cache_free
  pub some_pages : 0 < length c.entries

module _ {D : Type 0} {io : DiscInterface D} (disc : IsDisc io) where
  -- The cache over the disc stands for `f`, but for the sectors from `from` up to `to`.
  pub record RepresentsBut (from to : ℕ) (f : ℕ → Sector) (s : State D) : Type 0 where
    pub geometry : IsCache s.cache
    pub pages :
        Pages s.cache.sectors_per_page s.cache.end_of_partition
          (disc.content s.disc)
          f
          from
          to
          s.cache.entries

  abbrev pub Represents : (ℕ → Sector) → State D → Type 0
  Represents f s = RepresentsBut 0 0 f s
