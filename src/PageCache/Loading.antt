-- ===== src/PageCache/Loading.antt =====
-- source/cache2.c: the page that _NTFS_cache_getPage returns has the sector if it is loaded.
use libntfs.Prelude.{
  ℕ, ◌+◌, ◌-◌, ◌≤◌, ◌<◌, subst, ◌≡◌, inl, inr, refl, sym, ◌∙◌, ap, arith, List, Option, some, none,
  Bool, Option-cases, get_elem?, set, length-set, get_elem?-set_self, lt_of_get_elem?, ltb,
  if◌then◌else◌,
}
use libntfs.PageCache.{
  Sector, DiscInterface, CacheEntry, Cache, State, Ended, ok, failed, fault, no_end, free_entry,
}
use libntfs.PageCache.Pages.{access_time, accessed, to_read, loaded, load}
use libntfs.PageCache.Calls.{in_page}
use libntfs.PageCache.Invariant.{IsDisc, Has, IsPage, Pages, IsCache, RepresentsBut, Represents}
use libntfs.PageCache.Places.{placed_at, placed_at-Has}
use libntfs.PageCache.Evicted.{SameGeometry, with_entry-IsCache}
use libntfs.PageCache.Loaded.{
  hole_from, hole_to, used, used-IsPage, filled, IsReplaceable, new-Pages, freed-Pages,
  unread-IsPage, filled-IsPage,
}

pub same_trans : {a b c : Cache} → SameGeometry a b → SameGeometry b c → SameGeometry a c
same_trans h k = record {
  same_end = k.same_end ∙ h.same_end;
  same_spp = k.same_spp ∙ h.same_spp;
  same_bytes = k.same_bytes ∙ h.same_bytes;
}

module _ {D : Type 0} {io : DiscInterface D} (disc : IsDisc io) where
  -- What _NTFS_cache_getPage does to a cache that stands for `f`: the page has the sector, and the
  -- cache stands for `f` but for what is about to be written; or the call failed, and it stands for `f`.
  abbrev pub Got : (ℕ → Sector) → ℕ → ℕ → Bool → State D → Ended ℕ → State D → Type 0
  Got f sector num write s (ok i) s' =
      (e : CacheEntry) × (get_elem? s'.cache.entries i ≡ some e)
      × Has e sector
      × RepresentsBut disc (hole_from write sector) (hole_to write sector (in_page e sector num)) f
          s'
      × SameGeometry s.cache s'.cache
  Got f sector num write s failed s' = Represents disc f s' × SameGeometry s.cache s'.cache
  Got f sector num write s fault s' = ⊥
  Got f sector num write s no_end s' = ⊥

  pub accessed_same : (c : Cache) (i : ℕ) (e : CacheEntry) → SameGeometry c (accessed c i e)
  unfolding accessed
  accessed_same c i e = record { same_end = refl; same_spp = refl; same_bytes = refl }

  pub accessed-IsCache : (c : Cache) (i : ℕ) (e : CacheEntry) → IsCache c → IsCache (accessed c i e)
  unfolding accessed
  accessed-IsCache c i e h = record {
    some_sectors = h.some_sectors;
    few_sectors = h.few_sectors;
    end_small = h.end_small;
    some_pages = omega (arith, h.some_pages, length-set c.entries i (used e (access_time c)));
  }

  in_page_same :
      (num room : ℕ) → (if ltb room num then room else num) ≡ (if ltb num room then num else room)
  in_page_same num room = ground arith

  in_page_fits :
      (at num count : ℕ)
      → at < count
      → at + (if ltb (count - at) num then count - at else num) ≤ count
  in_page_fits at num count h = ground (arith, h)

  -- The page that a call loads.
  abbrev asked : Cache → ℕ → CacheEntry → CacheEntry
  asked c sector e = placed_at c.sectors_per_page c.end_of_partition sector e

  abbrev part : Cache → ℕ → ℕ → CacheEntry → ℕ
  part c sector num e =
      if ltb ((asked c sector e).count - (sector - (asked c sector e).sector)) num
      then (asked c sector e).count - (sector - (asked c sector e).sector)
      else num

  abbrev parts : Cache → ℕ → ℕ → Bool → CacheEntry → Option (ℕ × ℕ)
  parts c sector num write e =
      to_read write (sector - (asked c sector e).sector) (part c sector num e)
        (asked c sector e).count

  load-none :
      (i : ℕ) (e : CacheEntry) (sector num : ℕ) (write : Bool) (s : State D)
      → parts s.cache sector num write e ≡ none
      → load io i e sector num write s
        ≡ (ok i, record s { cache = accessed s.cache i (asked s.cache sector e) })
  unfolding load
  load-none i e sector num write s h = rw (h, load) refl

  load-some :
      (i : ℕ) (e : CacheEntry) (sector num : ℕ) (write : Bool) (s : State D) (sec n : ℕ)
      → parts s.cache sector num write e ≡ some (sec, n)
      → load io i e sector num write s
        ≡ loaded io i
            (asked s.cache sector e)
            sec
            (DiscInterface.read_sectors io s.disc ((asked s.cache sector e).sector + sec) n)
            s
  unfolding load
  load-some i e sector num write s sec n h = rw (h, load) refl

  module _ (f : ℕ → Sector) (i : ℕ) (e : CacheEntry) (sector num : ℕ) (write : Bool) (s : State D)
      (geometry : IsCache s.cache)
      (v : IsReplaceable s.cache.sectors_per_page s.cache.end_of_partition
        (disc.content s.disc)
        f
        s.cache.entries
        i
        e
        sector) where
    new_at : sector - (asked s.cache sector e).sector < (asked s.cache sector e).count
    new_at =
        let has =
          placed_at-Has s.cache.sectors_per_page s.cache.end_of_partition sector e v.some_sectors
            v.below in
        omega (arith, has.0, has.1)

    fits :
        sector - (asked s.cache sector e).sector + part s.cache sector num e
        ≤ (asked s.cache sector e).count
    fits =
        in_page_fits (sector - (asked s.cache sector e).sector) num (asked s.cache sector e).count
          new_at

    Got-new :
        (e' : CacheEntry) (d : D)
        → e'.sector ≡ (asked s.cache sector e).sector
        → e'.count ≡ (asked s.cache sector e).count
        → ((k : ℕ) → disc.content d k ≡ disc.content s.disc k)
        → IsPage s.cache.sectors_per_page s.cache.end_of_partition
            (disc.content d)
            f
            (hole_from write sector)
            (hole_to write sector (part s.cache sector num e))
            e'
        → Got f sector num write s (ok i) (record { cache = accessed s.cache i e'; disc = d })
    unfolding accessed
    Got-new e' d same_sector same_count keeps page =
        let time = access_time s.cache in
        let has =
          placed_at-Has s.cache.sectors_per_page s.cache.end_of_partition sector e v.some_sectors
            v.below in
        let hole : hole_to write sector (part s.cache sector num e)
            ≡ hole_to write sector (in_page e' sector num) =
          ap (hole_to write sector) (
            in_page_same num
              ((asked s.cache sector e).count - (sector - (asked s.cache sector e).sector))
            ∙ ap (λ room. if ltb num room then num else room)
                (omega (arith, same_sector, same_count))) in
        (
          used e' time,
          get_elem?-set_self s.cache.entries i (used e' time)
              (lt_of_get_elem? s.cache.entries i e v.at),
          (omega (arith, has.0, same_sector), omega (arith, has.1, same_sector, same_count)),
          record {
            geometry = accessed-IsCache s.cache i e' geometry;
            pages =
                subst
                  (λ to.
                    Pages s.cache.sectors_per_page s.cache.end_of_partition (disc.content d) f
                      (hole_from write sector) to (set s.cache.entries i (used e' time)))
                  hole
                  (new-Pages v keeps (hole_from write sector) _ (used e' time)
                    (λ k h. (
                      omega (arith, h.0, same_sector),
                      omega (arith, h.1, same_sector, same_count),
                    ))
                    (used-IsPage e' time page));
          },
          accessed_same s.cache i e',
        )

    loaded-Got :
        (sec n : ℕ) (out : Option (List Sector))
        → parts s.cache sector num write e ≡ some (sec, n)
        → (DiscInterface.read_sectors io s.disc ((asked s.cache sector e).sector + sec) n).0 ≡ out
        → (r : Ended ℕ × State D)
        → loaded io i
            (asked s.cache sector e)
            sec
            (
              out,
              (DiscInterface.read_sectors io s.disc ((asked s.cache sector e).sector + sec) n).1,
            )
            s
          ≡ r
        → Got f sector num write s r.0 r.1
    unfolding loaded
    loaded-Got sec n none h got r eq =
        let base = (asked s.cache sector e).sector in
        subst (λ r. Got f sector num write s r.0 r.1) eq
          (
            record {
              geometry =
                  with_entry-IsCache disc s.cache i (free_entry (asked s.cache sector e)) geometry;
              pages = freed-Pages v (disc.read_keeps s.disc (base + sec) n);
            },
            record { same_end = refl; same_spp = refl; same_bytes = refl },
          )
    loaded-Got sec n (some sectors) h got r eq =
        let base = (asked s.cache sector e).sector in
        let keeps = disc.read_keeps s.disc (base + sec) n in
        subst (λ r. Got f sector num write s r.0 r.1) eq
          (Got-new (filled (asked s.cache sector e) sec sectors) _ refl refl keeps (
            filled-IsPage v write (part s.cache sector num e) fits _ sec n sectors keeps h
              (disc.read_length s.disc (base + sec) n sectors got)
              (λ j less. disc.reads s.disc (base + sec) n sectors j got less)))

    pub load-Got :
        (r : Ended ℕ × State D)
        → load io i e sector num write s ≡ r
        → Got f sector num write s r.0 r.1
    load-Got r eq = elim (Option-cases (parts s.cache sector num write e)) [
      | inl h ↦
          subst (λ r. Got f sector num write s r.0 r.1)
            (sym (load-none i e sector num write s h) ∙ eq)
            (Got-new (asked s.cache sector e) s.disc refl refl (λ k. refl)
              (unread-IsPage v write (part s.cache sector num e) fits h))
      | inr ((sec, n), h) ↦
          loaded-Got sec n
            (DiscInterface.read_sectors io s.disc ((asked s.cache sector e).sector + sec) n).0 h
            refl r (sym (load-some i e sector num write s sec n h) ∙ eq)
    ]
