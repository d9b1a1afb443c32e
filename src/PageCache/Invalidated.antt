-- ===== src/PageCache/Invalidated.antt =====
-- source/cache2.c: _NTFS_cache_invalidate, and the cache that _NTFS_cache_constructor returns.
use libntfs.Prelude.{
  ℕ, zero, suc, ◌≤◌, ◌<◌, subst, ◌≡◌, inl, inr, refl, sym, ◌∙◌, ap, arith, List, [], ◌∷◌, some,
  none, true, false, ◌||◌, Bool-cases, All, length, get_elem?, some_inj, ltb, ◌==◌, if◌then◌else◌,
}
use libntfs.PageCache.{
  Sector, DiscInterface, CacheEntry, Cache, cache_free, clean, last_dirty, fresh_entries,
  constructor,
}
use libntfs.PageCache.Invariant.{IsDisc, IsPage, Pages, Represents}
use libntfs.PageCache.Places.{free_entry-IsPlaced, clean-last_dirty_zero}

-- A page that has no sector, with the buffer of one.
record IsFree (spp : ℕ) (e : CacheEntry) : Type 0 where
  sector_free : e.sector ≡ cache_free
  no_sector : e.count ≡ 0
  not_dirty : e.dirty ≡ clean
  large : spp ≤ length e.cache

free-IsPage :
    (spp end : ℕ) (g f : ℕ → Sector) (e : CacheEntry)
    → end ≤ cache_free
    → IsFree spp e
    → IsPage spp end g f 0 0 e
free-IsPage spp end g f e small free =
    let placed = free_entry-IsPlaced spp end e small free.large in
    record {
      placed = record {
        of_page = λ k h. absurd (omega (arith, h.0, h.1, free.no_sector));
        whole = λ k low same. absurd (
            omega (
              arith,
              (placed.whole k low (same ∙ free.sector_free)).0,
              (placed.whole k low (same ∙ free.sector_free)).1,
            ));
        room = omega (arith, free.no_sector);
        buffer = free.large;
        bits = ap length free.not_dirty;
        inside =
            subst (λ bits. last_dirty bits ≤ e.count) (sym free.not_dirty)
              (omega (arith, clean-last_dirty_zero));
      };
      cached = λ k h. absurd (omega (arith, h.0, h.1, free.no_sector));
      stored = λ k h. absurd (omega (arith, h.0, h.1, free.no_sector));
    }

-- Pages that have no sector stand for what the disc has.
free-Pages :
    (spp end : ℕ) (g : ℕ → Sector) (entries : List CacheEntry)
    → end ≤ cache_free
    → ((i : ℕ) (e : CacheEntry) → get_elem? entries i ≡ some e → IsFree spp e)
    → Pages spp end g g 0 0 entries
free-Pages spp end g entries small free = record {
  page = λ i e at. free-IsPage spp end g g e small (free i e at);
  apart = λ i j e a k at at' h. absurd (omega (arith, h.0, h.1, (free i e at).no_sector));
  rest = λ k low none_has. refl;
}

-- The size of a page that the constructor chooses, and the number of pages.
abbrev pub page_size : ℕ → ℕ
page_size n = if ltb n 32 then 32 else (if ltb 64 n then 64 else n)

abbrev pub page_number : ℕ → ℕ
page_number n = if ltb n 4 then 4 else n

fresh-IsFree :
    (spp n : ℕ) (buffers : List (List Sector))
    → All (λ b. spp ≤ length b) buffers
    → (i : ℕ) (e : CacheEntry) → get_elem? (fresh_entries n buffers) i ≡ some e
    → IsFree spp e
fresh-IsFree spp zero buffers large i e at = absurd (cc)
fresh-IsFree spp (suc n) [] large i e at = absurd (cc)
fresh-IsFree spp (suc n) (b ∷ buffers) large zero e at =
    subst (IsFree spp)
      (some_inj
        (record { sector = cache_free; count = 0; last_access = 0; dirty = clean; cache = b }) e at)
      (record { sector_free = refl; no_sector = refl; not_dirty = refl; large = large.0 })
fresh-IsFree spp (suc n) (b ∷ buffers) large (suc i) e at =
    fresh-IsFree spp n buffers large.1 i e at

length-fresh_entries :
    (n : ℕ) (buffers : List (List Sector))
    → 0 < n
    → 0 < length buffers
    → 0 < length (fresh_entries n buffers)
length-fresh_entries zero buffers h k = absurd (omega (arith, h))
length-fresh_entries (suc n) [] h k = absurd (omega (arith, k))
length-fresh_entries (suc n) (b ∷ buffers) h k = omega arith

page_size_bounds : (n : ℕ) → (0 < page_size n) × (page_size n ≤ 64)
page_size_bounds n = ground arith

page_number_positive : (n : ℕ) → 0 < page_number n
page_number_positive n = ground arith

constructor_lem :
    (pages spp end bytes : ℕ) (buffers : List (List Sector)) (c : Cache)
    → constructor pages spp end bytes buffers ≡ some c
    → record {
      end_of_partition = end;
      sectors_per_page = page_size spp;
      bytes_per_sector = bytes;
      entries = fresh_entries (page_number pages) buffers;
      access_counter = 0;
    }
      ≡ c
unfolding constructor
constructor_lem pages spp end bytes buffers c h = elim (Bool-cases (pages == 0 || (spp == 0))) [
  | inl none_of ↦ absurd (none_made none_of h)
  | inr some_of ↦ some_inj _ c (sym (made some_of) ∙ h)
]
  where
    none_made :
        (pages == 0 || (spp == 0)) ≡ true → constructor pages spp end bytes buffers ≡ some c → ⊥
    none_made none_of h =
        let nothing : constructor pages spp end bytes buffers ≡ none =
          rw (none_of, constructor) refl in
        let wrong : none ≡ some c = sym nothing ∙ h in absurd (cc)

    made :
        (pages == 0 || (spp == 0)) ≡ false
        → constructor pages spp end bytes buffers
          ≡ some (record {
            end_of_partition = end;
            sectors_per_page = page_size spp;
            bytes_per_sector = bytes;
            entries = fresh_entries (page_number pages) buffers;
            access_counter = 0;
          })
    made some_of = rw (some_of, constructor) refl

-- Over a disc that keeps its contract, the cache that _NTFS_cache_constructor returns for a partition that ends
-- before the largest sector number, with a buffer for each page that is large enough, stands for what the disc has.
pub constructor-Represents :
    {D : Type 0} {io : DiscInterface D} (disc : IsDisc io) (d : D) (pages spp end bytes : ℕ)
    (buffers : List (List Sector)) (c : Cache)
    → end ≤ cache_free
    → page_number pages ≤ length buffers
    → All (λ b. page_size spp ≤ length b) buffers
    → constructor pages spp end bytes buffers ≡ some c
    → Represents disc (disc.content d) (record { cache = c; disc = d })
constructor-Represents disc d pages spp end bytes buffers c small some_of large made =
    let (pos, below) = page_size_bounds spp in
    subst (λ c. Represents disc (disc.content d) (record { cache = c; disc = d }))
      (constructor_lem pages spp end bytes buffers c made)
      (record {
        geometry = record {
          some_sectors = pos;
          few_sectors = below;
          end_small = small;
          some_pages =
              length-fresh_entries (page_number pages) buffers (page_number_positive pages)
                (omega (arith, page_number_positive pages, some_of));
        };
        pages =
            free-Pages (page_size spp) end (disc.content d)
              (fresh_entries (page_number pages) buffers) small
              (fresh-IsFree (page_size spp) (page_number pages) buffers large);
      })
