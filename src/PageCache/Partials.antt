-- ===== src/PageCache/Partials.antt =====
-- source/cache2.c: the calls that read and write a part of one sector.
use libntfs.Prelude.{
  ℕ, zero, suc, ◌+◌, ◌-◌, ◌<◌, subst, ◌≡◌, inr, refl, sym, ap, arith, List, [], ◌∷◌, some, Bool,
  get_elem?, set, if◌then◌else◌,
}
use libntfs.PageCache.{
  Sector, DiscInterface, CacheEntry, State, Ended, ok, failed, fault, no_end, overwrite, mark,
}
use libntfs.PageCache.Pages.{get_page, with_entry}
use libntfs.PageCache.Calls.{in_page, partial, sector_of, store_sector}
use libntfs.PageCache.Invariant.{IsDisc, Has, RepresentsBut, Represents}
use libntfs.PageCache.Evicted.{SameGeometry}
use libntfs.PageCache.Loading.{Got}
use libntfs.PageCache.Got.{get_page-Got}
use libntfs.PageCache.Arrays.{put}
use libntfs.PageCache.Stores.{stored_in-Represents}

set-overwrite : {A : Type 0} (xs : List A) (i : ℕ) (x : A) → overwrite xs i (x ∷ []) ≡ set xs i x
unfolding overwrite
set-overwrite [] i x = refl
set-overwrite (y ∷ []) zero x = refl
set-overwrite (y ∷ z ∷ xs) zero x = refl
set-overwrite (y ∷ xs) (suc i) x = ap (λ ys. y ∷ ys) (set-overwrite xs i x)

one_sector : (e : CacheEntry) (sector : ℕ) → Has e sector → in_page e sector 1 ≡ 1
one_sector e sector h = ground (arith, h)

module _ {D : Type 0} {io : DiscInterface D} (disc : IsDisc io) where
  -- What a call on one sector does to a cache that stands for `f`: it returns `bytes`, and the cache
  -- stands for `f'`; or it fails, and the cache stands for `f`.
  abbrev pub Transfers :
      (ℕ → Sector) → List ℕ → (ℕ → Sector) → State D → Ended (List ℕ) → State D → Type 0
  Transfers f bytes f' s (ok out) s' =
      (out ≡ bytes) × Represents disc f' s' × SameGeometry s.cache s'.cache
  Transfers f bytes f' s failed s' = Represents disc f s' × SameGeometry s.cache s'.cache
  Transfers f bytes f' s fault s' = ⊥
  Transfers f bytes f' s no_end s' = ⊥

  module _ (f : ℕ → Sector) (sector : ℕ) (write : Bool) (s : State D)
      (then_do : ℕ → CacheEntry → State D → Ended (List ℕ) × State D) where
    partial_ok :
        (i : ℕ) (e : CacheEntry)
        → (get_page io s sector 1 write).0 ≡ ok i
        → get_elem? (get_page io s sector 1 write).1.cache.entries i ≡ some e
        → partial io s sector write then_do ≡ then_do i e (get_page io s sector 1 write).1
    unfolding partial
    partial_ok i e got at = rw (got, partial) (rw (at, partial) refl)

    partial_failed :
        (get_page io s sector 1 write).0 ≡ failed
        → partial io s sector write then_do ≡ (failed, (get_page io s sector 1 write).1)
    unfolding partial
    partial_failed got = rw (got, partial) refl

    module _ (bytes : List ℕ) (f' : ℕ → Sector)
        (does : (i : ℕ) (e : CacheEntry) (s1 : State D)
          → get_elem? s1.cache.entries i ≡ some e
          → Has e sector
          → RepresentsBut disc (if write then sector else 0) (if write then sector + 1 else 0) f s1
          → SameGeometry s.cache s1.cache
          → Transfers f bytes f' s (then_do i e s1).0 (then_do i e s1).1) where
      by-Got :
          (got : Ended ℕ)
          → (get_page io s sector 1 write).0 ≡ got
          → Got disc f sector 1 write s got (get_page io s sector 1 write).1
          → Transfers f bytes f' s
              (partial io s sector write then_do).0
              (partial io s sector write then_do).1
      by-Got (ok i) eq (e, at, has, R, same) =
          subst (λ r. Transfers f bytes f' s r.0 r.1) (sym (partial_ok i e eq at))
            (does i e (get_page io s sector 1 write).1 at has
              (subst
                (λ n.
                  RepresentsBut disc (if write then sector else 0) (if write then sector + n else 0)
                    f (get_page io s sector 1 write).1)
                (one_sector e sector has) R)
              same)
      by-Got failed eq h = subst (λ r. Transfers f bytes f' s r.0 r.1) (sym (partial_failed eq)) h
      by-Got fault eq h = absurd h
      by-Got no_end eq h = absurd h

      pub partial-Transfers :
          Represents disc f s
          → sector < s.cache.end_of_partition
          → Transfers f bytes f' s
              (partial io s sector write then_do).0
              (partial io s sector write then_do).1
      partial-Transfers R below =
          by-Got (get_page io s sector 1 write).0 refl
            (get_page-Got disc f sector 1 write s R below)

  pub sector_of_ok :
      (e : CacheEntry) (sector : ℕ) (then_do : Sector → Ended (List ℕ) × State D) (s : State D)
      (bytes : Sector)
      → get_elem? e.cache (sector - e.sector) ≡ some bytes
      → sector_of io e sector then_do s ≡ then_do bytes
  sector_of_ok e sector then_do s bytes at = rw (at, sector_of) refl

  -- A cache without a hole has one where it may be written.
  pub opened :
      (f : ℕ → Sector) (s : State D) (from to : ℕ)
      → Represents disc f s
      → RepresentsBut disc from to f s
  opened f s from to R = record {
    geometry = R.geometry;
    pages = record {
      page = λ i e at.
          let page = R.pages.page i e at in
          record {
            placed = page.placed;
            cached = λ k h out. page.cached k h (inr (omega arith));
            stored = page.stored;
          };
      apart = R.pages.apart;
      rest = R.pages.rest;
    };
  }

  pub store_sector-Represents :
      (f : ℕ → Sector) (s : State D) (i : ℕ) (e : CacheEntry) (sector : ℕ) (bytes : Sector)
      → RepresentsBut disc sector (sector + 1) f s
      → get_elem? s.cache.entries i ≡ some e
      → Has e sector
      → Represents disc (put f sector (bytes ∷ [])) (store_sector io i e sector bytes s)
  store_sector-Represents f s i e sector bytes R at has =
      subst
        (λ sectors. Represents disc (put f sector (bytes ∷ [])) (record s {
          cache =
              with_entry s.cache i
                (record e { cache = sectors; dirty = mark e.dirty (sector - e.sector) 1 });
        }))
        (set-overwrite e.cache (sector - e.sector) bytes)
        (stored_in-Represents disc f s i e sector (bytes ∷ []) R at has (omega arith)
          (omega (arith, has.0, has.1)))

  pub store_same :
      (s s1 : State D) (i : ℕ) (e : CacheEntry) (sector : ℕ) (bytes : Sector)
      → SameGeometry s.cache s1.cache
      → SameGeometry s.cache (store_sector io i e sector bytes s1).cache
  store_same s s1 i e sector bytes same = record {
    same_end = same.same_end;
    same_spp = same.same_spp;
    same_bytes = same.same_bytes;
  }
