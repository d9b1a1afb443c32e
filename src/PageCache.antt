-- ===== src/PageCache.antt =====
-- source/cache2.c and source/cache2.h: the cache of pages of sectors between the device's driver and
-- the disc. The disc interface and SYS_IsDMAAddress are parameters. A page's buffer is the list of its
-- sectors and a sector the list of its bytes; the mask of the dirty sectors is the list of its 64 bits,
-- lowest first. Sums of sectors do not wrap: a partition ends before the largest sec_t.
pub mod Pages
pub mod Arrays
pub mod Calls
pub mod Direct
pub mod Evicted
pub mod Flushed
pub mod Got
pub mod Loading
pub mod History
pub mod Invalidated
pub mod Invariant
pub mod Partials
pub mod Parts
pub mod Places
pub mod ReadSteps
pub mod Reads
pub mod Replaced
pub mod Scans
pub mod Stores
pub mod Values
pub mod WriteSteps
pub mod Writes
pub mod Loaded
pub mod Masks
use libntfs.Prelude.{
  ℕ, zero, suc, ◌+◌, ◌-◌, ◌*◌, ◌/◌, ◌%◌, ◌^◌, List, [], ◌∷◌, ◌++◌, Option, none, some, Bool, true,
  false, not, ◌&&◌, ◌||◌, length, get_elem?, set, take, drop, replicate, ltb, leb, ◌==◌,
  if◌then◌else◌,
}

abbrev pub Sector : Type 0
Sector = List ℕ

-- `readSectors`, `writeSectors` and `flush` of a DISC_INTERFACE, over the state of the disc.
pub record DiscInterface (D : Type 0) : Type 0 where
  pub read_sectors : D → ℕ → ℕ → Option (List Sector) × D
  pub write_sectors : D → ℕ → List Sector → Bool × D
  pub flush : D → Bool × D

pub record CacheEntry : Type 0 where
  pub sector : ℕ
  pub count : ℕ
  pub last_access : ℕ
  pub dirty : List Bool
  pub cache : List Sector

-- `access_counter` is the static variable accessCounter.
pub record Cache : Type 0 where
  pub end_of_partition : ℕ
  pub sectors_per_page : ℕ
  pub bytes_per_sector : ℕ
  pub entries : List CacheEntry
  pub access_counter : ℕ

pub record State (D : Type 0) : Type 0 where
  pub cache : Cache
  pub disc : D

-- What a function ends with: true, or a page; false, or NULL; an access outside the pages, or a shift
-- that C leaves undefined; no end of the loop within the fuel.
pub data Ended (A : Type 0) : Type 0 where
  ok : A → Ended A
  failed : Ended A
  fault : Ended A
  no_end : Ended A

-- The largest sec_t, if that has 32 bits.
abbrev pub cache_free : ℕ
cache_free = 2 ^ 32 - 1

abbrev pub uint_max : ℕ
uint_max = 2 ^ 32 - 1

abbrev pub clean : List Bool
clean = replicate 64 false

-- `dirty != 0`, ffsll(dirty) - 1 and flsll(dirty).
abbrev pub is_dirty : List Bool → Bool
is_dirty [] = false
is_dirty (true ∷ bits) = true
is_dirty (false ∷ bits) = is_dirty bits

abbrev pub first_dirty : List Bool → ℕ
first_dirty [] = 0
first_dirty (true ∷ bits) = 0
first_dirty (false ∷ bits) = suc (first_dirty bits)

unfoldable pub last_dirty : List Bool → ℕ
last_dirty [] = 0
last_dirty (bit ∷ bits) =
    let rest = last_dirty bits in if rest == 0 then (if bit then 1 else 0) else suc rest

-- `dirty |= ((1ULL << n) - 1) << sec`
unfoldable pub mark : List Bool → ℕ → ℕ → List Bool
mark [] sec n = []
mark (bit ∷ bits) zero zero = bit ∷ bits
mark (bit ∷ bits) zero (suc n) = true ∷ mark bits zero n
mark (bit ∷ bits) (suc sec) n = bit ∷ mark bits sec n

-- memcpy to a place in a buffer.
unfoldable pub overwrite {ℓ} : {A : Type ℓ} → List A → ℕ → List A → List A
overwrite [] at from = []
overwrite (x ∷ xs) zero [] = x ∷ xs
overwrite (x ∷ xs) zero (y ∷ ys) = y ∷ overwrite xs zero ys
overwrite (x ∷ xs) (suc at) from = x ∷ overwrite xs at from

abbrev pub free_entry : CacheEntry → CacheEntry
free_entry e = record e { sector = cache_free; count = 0; last_access = 0; dirty = clean }

-- The pages of a new cache.
abbrev pub fresh_entries : ℕ → List (List Sector) → List CacheEntry
fresh_entries zero buffers = []
fresh_entries (suc n) [] = []
fresh_entries (suc n) (b ∷ buffers) =
    record { sector = cache_free; count = 0; last_access = 0; dirty = clean; cache = b }
    ∷ fresh_entries n buffers

-- `buffers` has what ntfs_align returns for each page. The sizes are as the partition gives them.
unfoldable pub constructor : ℕ → ℕ → ℕ → ℕ → List (List Sector) → Option Cache
constructor number_of_pages sectors_per_page end_of_partition bytes_per_sector buffers =
    if number_of_pages == 0 || (sectors_per_page == 0)
    then none
    else some (record {
      end_of_partition = end_of_partition;
      sectors_per_page =
          if ltb sectors_per_page 32
          then 32
          else (if ltb 64 sectors_per_page then 64 else sectors_per_page);
      bytes_per_sector = bytes_per_sector;
      entries = fresh_entries (if ltb number_of_pages 4 then 4 else number_of_pages) buffers;
      access_counter = 0;
    })
