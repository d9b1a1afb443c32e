-- ===== src/PageCache/Got.antt =====
-- source/cache2.c: _NTFS_cache_getPage returns a page that has the sector.
use libntfs.Prelude.{
  ℕ, ◌<◌, subst, ◌≡◌, inl, inr, refl, sym, ◌∙◌, ap, arith, Option, some, none, Bool, true, false,
  Bool-cases, get_elem?, get_elem?-set_self, lt_of_get_elem?, some_inj, ltb,
}
use libntfs.PageCache.{
  Sector, DiscInterface, CacheEntry, State, Ended, ok, failed, fault, no_end, cache_free, uint_max,
  last_dirty,
}
use libntfs.PageCache.Pages.{
  Scan, hit, miss, scan, access_time, accessed, write_back, load, after_write_back, replace,
  use_page, get_page,
}
use libntfs.PageCache.Invariant.{IsDisc, Has, Represents}
use libntfs.PageCache.Replaced.{set-Pages}
use libntfs.PageCache.Scans.{HasNone, Scanned, scan-Scanned}
use libntfs.PageCache.Evicted.{SameGeometry, WrittenBack, write_back-WrittenBack, same_all}
use libntfs.PageCache.Loaded.{used, used-IsPage, IsReplaceable}
use libntfs.PageCache.Loading.{same_trans, Got, accessed_same, accessed-IsCache, load-Got}

module _ {D : Type 0} {io : DiscInterface D} (disc : IsDisc io) where
  -- A call that goes on from a state that stands for the same sectors.
  Got-from :
      (f : ℕ → Sector) (sector num : ℕ) (write : Bool) (s s1 : State D) (r : Ended ℕ) (s2 : State D)
      → SameGeometry s.cache s1.cache
      → Got disc f sector num write s1 r s2
      → Got disc f sector num write s r s2
  Got-from f sector num write s s1 (ok i) s2 same (e, at, has, R, same') =
      (e, at, has, R, same_trans same same')
  Got-from f sector num write s s1 failed s2 same (R, same') = (R, same_trans same same')
  Got-from f sector num write s s1 fault s2 same h = h
  Got-from f sector num write s s1 no_end s2 same h = h

  module _ (f : ℕ → Sector) (s : State D) (R : Represents disc f s) (sector num : ℕ) (write : Bool)
      (below : sector < s.cache.end_of_partition) where
    replaceable :
        (i : ℕ) (e : CacheEntry)
        → get_elem? s.cache.entries i ≡ some e
        → last_dirty e.dirty ≡ 0
        → HasNone s.cache.entries sector
        → IsReplaceable s.cache.sectors_per_page s.cache.end_of_partition
            (disc.content s.disc)
            f
            s.cache.entries
            i
            e
            sector
    replaceable i e at is_clean none_has = record {
      pages = R.pages;
      at = at;
      is_clean = is_clean;
      some_sectors = R.geometry.some_sectors;
      small = R.geometry.end_small;
      below = below;
      none_has = none_has;
    }

  module _ (f : ℕ → Sector) (sector num : ℕ) (write : Bool) (s : State D) (R : Represents disc f s)
      (below : sector < s.cache.end_of_partition) where
    -- A free page has no dirty sector.
    free_clean :
        (i : ℕ) (e : CacheEntry)
        → get_elem? s.cache.entries i ≡ some e
        → e.sector ≡ cache_free
        → last_dirty e.dirty ≡ 0
    free_clean i e at free =
        let placed = (R.pages.page i e at).placed in
        elim (Bool-cases (ltb 0 e.count)) [
          | inr h ↦ ground (arith, h, placed.inside)
          | inl h ↦
              let low = (placed.of_page e.sector (omega arith, ground (arith, h))).0 in
              absurd (omega (arith, low, free, R.geometry.end_small))
        ]

    after-Got :
        (i : ℕ) (r : Option CacheEntry × State D)
        → WrittenBack disc f i s r
        → HasNone s.cache.entries sector
        → Got disc f sector num write s
            (after_write_back io i sector num write r).0
            (after_write_back io i sector num write r).1
    unfolding after_write_back
    after-Got i (none, s1) w none_has = (w.represents, w.same)
    after-Got i (some e, s1) w none_has =
        let (at, is_clean) = w.is_clean e refl in
        let low : sector < s1.cache.end_of_partition = omega (arith, below, w.same.same_end) in
        let r = load io i e sector num write s1 in
        Got-from f sector num write s s1 r.0 r.1 w.same (
          load-Got disc f i e sector num write s1 w.represents.geometry
            (replaceable f s1 w.represents sector num write low i e at is_clean
              (w.none_has sector none_has))
            r refl)

    replace-Got :
        (found_free : Bool) (i : ℕ) (e : CacheEntry)
        → get_elem? s.cache.entries i ≡ some e
        → (found_free ≡ true → e.sector ≡ cache_free)
        → HasNone s.cache.entries sector
        → Got disc f sector num write s
            (replace io found_free i sector num write (some e) s).0
            (replace io found_free i sector num write (some e) s).1
    unfolding replace
    replace-Got true i e at free none_has =
        after-Got i (some e, s)
          (record {
            represents = R;
            none_has = λ k h. h;
            same = same_all disc s.cache;
            others = λ j ne. refl;
            is_clean = λ a eq.
                let same = some_inj e a eq in
                (at ∙ eq, subst (λ x. last_dirty x.dirty ≡ 0) same (free_clean i e at (free refl)));
          })
          none_has
    replace-Got false i e at free none_has =
        after-Got i (write_back io i e s) (write_back-WrittenBack disc f i e s R at) none_has

    use-Got :
        (i : ℕ) (e : CacheEntry)
        → get_elem? s.cache.entries i ≡ some e
        → Has e sector
        → Got disc f sector num write s (use_page io i (some e) s).0 (use_page io i (some e) s).1
    unfolding use_page accessed
    use-Got i e at has =
        let time = access_time s.cache in
        let page = R.pages.page i e at in
        (
          used e time,
          get_elem?-set_self s.cache.entries i (used e time)
              (lt_of_get_elem? s.cache.entries i e at),
          has,
          record {
            geometry = accessed-IsCache disc s.cache i e R.geometry;
            pages =
                set-Pages R.pages at
                  (used-IsPage e time (record {
                    placed = page.placed;
                    cached = λ k h out. page.cached k h (inr (omega arith));
                    stored = page.stored;
                  }))
                  (λ k h h'. (refl, refl)) (λ k h out. inr (omega arith))
                  (λ j a k ne there h h'. ne (R.pages.apart i j e a k at there h' h))
                  (λ k low h h'. absurd (h' h));
          },
          accessed_same disc s.cache i e,
        )

    get_hit :
        (i : ℕ) (e : CacheEntry)
        → scan sector s.cache.entries 0 false 0 uint_max ≡ hit i
        → get_elem? s.cache.entries i ≡ some e
        → get_page io s sector num write ≡ use_page io i (some e) s
    unfolding get_page
    get_hit i e eq at = rw (eq, get_page) (ap (λ o. use_page io i o s) at)

    get_miss :
        (found_free : Bool) (i : ℕ) (e : CacheEntry)
        → scan sector s.cache.entries 0 false 0 uint_max ≡ miss found_free i
        → get_elem? s.cache.entries i ≡ some e
        → get_page io s sector num write ≡ replace io found_free i sector num write (some e) s
    unfolding get_page
    get_miss found_free i e eq at =
        rw (eq, get_page) (ap (λ o. replace io found_free i sector num write o s) at)

    Scanned-Got :
        (found : Scan)
        → scan sector s.cache.entries 0 false 0 uint_max ≡ found
        → Scanned s.cache.entries sector found
        → Got disc f sector num write s
            (get_page io s sector num write).0
            (get_page io s sector num write).1
    unfolding get_page
    Scanned-Got (hit i) eq (e, at, has) =
        subst (λ r. Got disc f sector num write s r.0 r.1) (sym (get_hit i e eq at))
          (use-Got i e at has)
    Scanned-Got (miss found_free i) eq (e, at, free, none_has) =
        subst (λ r. Got disc f sector num write s r.0 r.1) (sym (get_miss found_free i e eq at))
          (replace-Got found_free i e at free none_has)

    pub get_page-Got :
        Got disc f sector num write s
          (get_page io s sector num write).0
          (get_page io s sector num write).1
    get_page-Got =
        Scanned-Got (scan sector s.cache.entries 0 false 0 uint_max) refl
          (scan-Scanned s.cache.entries sector R.geometry.some_pages)
