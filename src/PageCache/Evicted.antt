-- ===== src/PageCache/Evicted.antt =====
-- source/cache2.c: writing the dirty sectors of a page back leaves what the cache stands for.
use libntfs.Prelude.{
  ℕ, ◌+◌, ◌-◌, subst, ◌≡◌, ◌≢◌, inl, inr, refl, sym, ◌∙◌, ap, arith, List, Option, some, none, Bool,
  true, false, Bool-cases, length, get_elem?, set, set_same, drop, length-set, length-take,
  length-drop, get_elem?-take, get_elem?-drop, get_elem?-set_self, get_elem?-set_ne,
  lt_of_get_elem?, some_inj,
}
use libntfs.PageCache.{
  Sector, DiscInterface, CacheEntry, Cache, State, clean, is_dirty, first_dirty, last_dirty,
}
use libntfs.PageCache.Pages.{with_entry, dirty_part, write_back}
use libntfs.PageCache.Invariant.{
  Within, Outside, IsDisc, Has, Stored, IsPlaced, IsPage, Pages, IsCache, Represents,
}
use libntfs.PageCache.Masks.{clean-last_dirty}
use libntfs.PageCache.Replaced.{Within-cases, in_set, set-Pages}
use libntfs.PageCache.Scans.{HasNone}
use libntfs.PageCache.Places.{clean-last_dirty_zero}

-- The same pages, of another state of the cache.
pub record SameGeometry (c c' : Cache) : Type 0 where
  pub same_end : c'.end_of_partition ≡ c.end_of_partition
  pub same_spp : c'.sectors_per_page ≡ c.sectors_per_page
  pub same_bytes : c'.bytes_per_sector ≡ c.bytes_per_sector

length-dirty_part :
    (spp end : ℕ) (e : CacheEntry)
    → IsPlaced spp end e
    → length (dirty_part e) ≡ last_dirty e.dirty - first_dirty e.dirty
length-dirty_part spp end e p =
    let first = first_dirty e.dirty in
    let last = last_dirty e.dirty in
    omega (
      arith,
      length-take (last - first) (drop first e.cache),
      length-drop first e.cache,
      p.inside,
      p.room,
      p.buffer,
    )

-- The range of the disc that is written is that of the sectors that are not stored.
written_Outside :
    (sector first last len k : ℕ)
    → len ≡ last - first
    → Outside (sector + first) (sector + last) k
    → Outside (sector + first) (sector + first + len) k
written_Outside sector first last len k e h =
    elim (Within-cases (sector + first) (sector + first + len) k) [
      | inr out ↦ out
      | inl (low, high) ↦ absurd (ground (arith, e, h, low, high))
    ]

module _ {D : Type 0} {io : DiscInterface D} (disc : IsDisc io) where
  -- The disc behind the write.
  abbrev behind : CacheEntry → State D → D
  behind e s =
      (DiscInterface.write_sectors io s.disc (e.sector + first_dirty e.dirty) (dirty_part e)).1

  abbrev goes_well : CacheEntry → State D → Bool
  goes_well e s =
      (DiscInterface.write_sectors io s.disc (e.sector + first_dirty e.dirty) (dirty_part e)).0

  module _ (spp end : ℕ) (f : ℕ → Sector) (e : CacheEntry) (s : State D)
      (page : IsPage spp end (disc.content s.disc) f 0 0 e) where
    behind-Stored : (k : ℕ) → Stored e k → disc.content (behind e s) k ≡ disc.content s.disc k
    behind-Stored k h = disc.write_keeps s.disc (e.sector + first_dirty e.dirty) (dirty_part e) k (
        written_Outside e.sector (first_dirty e.dirty) (last_dirty e.dirty) _ k
          (length-dirty_part spp end e page.placed) h)

    behind_away : (k : ℕ) → ¬ Has e k → disc.content (behind e s) k ≡ disc.content s.disc k
    behind_away k h =
        elim (Within-cases (e.sector + first_dirty e.dirty) (e.sector + last_dirty e.dirty) k) [
          | inr out ↦ behind-Stored k out
          | inl (low, high) ↦
              absurd (h (omega (arith, low), omega (arith, high, page.placed.inside)))
        ]

    behind_written :
        (k : ℕ)
        → goes_well e s ≡ true
        → Has e k
        → Within (e.sector + first_dirty e.dirty) (e.sector + last_dirty e.dirty) k
        → disc.content (behind e s) k ≡ f k
    behind_written k good has (low, high) =
        let first = first_dirty e.dirty in
        let last = last_dirty e.dirty in
        let j = k - (e.sector + first) in
        let value : get_elem? (dirty_part e) j ≡ some (f k) =
          get_elem?-take (last - first) (drop first e.cache) j (omega (arith, low, high))
          ∙ get_elem?-drop first e.cache j
          ∙ ap (λ n. get_elem? e.cache n) (omega (arith, low))
          ∙ page.cached k has (inr (omega arith)) in
        ap (disc.content (behind e s)) (omega (arith, low))
        ∙ disc.writes s.disc (e.sector + first) (dirty_part e) j (f k) good value

    cleaned-IsPage :
        goes_well e s ≡ true
        → IsPage spp end (disc.content (behind e s)) f 0 0 (record e { dirty = clean })
    cleaned-IsPage good = record {
      placed = record {
        of_page = page.placed.of_page;
        whole = page.placed.whole;
        room = page.placed.room;
        buffer = page.placed.buffer;
        bits = refl;
        inside = omega (arith, clean-last_dirty_zero);
      };
      cached = page.cached;
      stored = λ k has out.
          elim (Within-cases (e.sector + first_dirty e.dirty) (e.sector + last_dirty e.dirty) k) [
            | inl range ↦ behind_written k good has range
            | inr out ↦ behind-Stored k out ∙ page.stored k has out
          ];
    }

    failed-IsPage : IsPage spp end (disc.content (behind e s)) f 0 0 e
    failed-IsPage = record {
      placed = page.placed;
      cached = page.cached;
      stored = λ k has out. behind-Stored k out ∙ page.stored k has out;
    }

  -- What write_back leaves of page `i`.
  pub record WrittenBack (f : ℕ → Sector) (i : ℕ) (s : State D) (r : Option CacheEntry × State D)
      : Type 0 where
    pub represents : Represents disc f r.1
    pub none_has : (k : ℕ) → HasNone s.cache.entries k → HasNone r.1.cache.entries k
    pub same : SameGeometry s.cache r.1.cache
    pub others : (j : ℕ) → i ≢ j → get_elem? r.1.cache.entries j ≡ get_elem? s.cache.entries j
    pub is_clean :
        (e : CacheEntry)
        → r.0 ≡ some e
        → (get_elem? r.1.cache.entries i ≡ some e) × (last_dirty e.dirty ≡ 0)

  wb_clean :
      (i : ℕ) (e : CacheEntry) (s : State D)
      → is_dirty e.dirty ≡ false
      → write_back io i e s ≡ (some e, s)
  unfolding write_back
  wb_clean i e s h = rw (h, write_back) refl

  wb_good :
      (i : ℕ) (e : CacheEntry) (s : State D)
      → is_dirty e.dirty ≡ true
      → goes_well e s ≡ true
      → write_back io i e s ≡ (
        some (record e { dirty = clean }),
        record { cache = with_entry s.cache i (record e { dirty = clean }); disc = behind e s },
      )
  unfolding write_back
  wb_good i e s h good = rw (h, write_back) (rw (good, write_back) refl)

  wb_bad :
      (i : ℕ) (e : CacheEntry) (s : State D)
      → is_dirty e.dirty ≡ true
      → goes_well e s ≡ false
      → write_back io i e s ≡ (none, record s { disc = behind e s })
  unfolding write_back
  wb_bad i e s h bad = rw (h, write_back) (rw (bad, write_back) refl)

  pub same_all : (c : Cache) → SameGeometry c c
  same_all c = record { same_end = refl; same_spp = refl; same_bytes = refl }

  pub with_entry-IsCache :
      (c : Cache) (i : ℕ) (e : CacheEntry) → IsCache c → IsCache (with_entry c i e)
  with_entry-IsCache c i e h = record {
    some_sectors = h.some_sectors;
    few_sectors = h.few_sectors;
    end_small = h.end_small;
    some_pages = omega (arith, h.some_pages, length-set c.entries i e);
  }

  -- Setting a page to one of the same sectors leaves the sectors that no page has.
  pub set-HasNone :
      (entries : List CacheEntry) (i : ℕ) (e e' : CacheEntry)
      → get_elem? entries i ≡ some e
      → ((k : ℕ) → Has e' k → Has e k)
      → (k : ℕ) → HasNone entries k
      → HasNone (set entries i e') k
  set-HasNone entries i e e' at same k none_has j a has h = elim (in_set entries i j e' a has) [
    | inl (eq, ea) ↦ none_has i e at (same k (subst (λ x. Has x k) (sym ea) h))
    | inr (ne, was) ↦ none_has j a was h
  ]

  module _ (f : ℕ → Sector) (i : ℕ) (e : CacheEntry) (s : State D) (R : Represents disc f s)
      (at : get_elem? s.cache.entries i ≡ some e) where
    wb-Pages :
        (e' : CacheEntry)
        → ((k : ℕ) → Has e' k → Has e k)
        → ((k : ℕ) → Has e k → Has e' k)
        → IsPage s.cache.sectors_per_page s.cache.end_of_partition
            (disc.content (behind e s))
            f
            0
            0
            e'
        → Pages s.cache.sectors_per_page s.cache.end_of_partition
            (disc.content (behind e s))
            f
            0
            0
            (set s.cache.entries i e')
    wb-Pages e' le ge new =
        set-Pages R.pages at new (λ k h h'. (behind_away _ _ f e s (R.pages.page i e at) k h, refl))
          (λ k h out. inr (omega arith))
          (λ j a k ne has h h'. ne (R.pages.apart i j e a k at has (le k h') h))
          (λ k below h h'. absurd (h' (ge k h)))

    pub write_back-WrittenBack : WrittenBack f i s (write_back io i e s)
    write_back-WrittenBack = elim (Bool-cases (is_dirty e.dirty)) [
      | inr h ↦ subst (WrittenBack f i s) (sym (wb_clean i e s h)) (record {
        represents = R;
        none_has = λ k h. h;
        same = same_all s.cache;
        others = λ j ne. refl;
        is_clean = λ a eq.
            let same = some_inj e a eq in
            (at ∙ eq, subst (λ x. last_dirty x.dirty ≡ 0) same (clean-last_dirty e.dirty h));
      })
      | inl h ↦ elim (Bool-cases (goes_well e s)) [
        | inl good ↦ subst (WrittenBack f i s) (sym (wb_good i e s h good)) (record {
          represents = record {
            geometry = with_entry-IsCache s.cache i _ R.geometry;
            pages =
                wb-Pages (record e { dirty = clean }) (λ k h. h) (λ k h. h)
                  (cleaned-IsPage _ _ f e s (R.pages.page i e at) good);
          };
          none_has = set-HasNone s.cache.entries i e _ at (λ k h. h);
          same = record { same_end = refl; same_spp = refl; same_bytes = refl };
          others = λ j ne. get_elem?-set_ne s.cache.entries _ ne;
          is_clean = λ a eq.
              let same = some_inj (record e { dirty = clean }) a eq in
              (
                get_elem?-set_self s.cache.entries i _ (lt_of_get_elem? s.cache.entries i e at)
                    ∙ eq,
                subst (λ x. last_dirty x.dirty ≡ 0) same clean-last_dirty_zero,
              );
        })
        | inr bad ↦ subst (WrittenBack f i s) (sym (wb_bad i e s h bad)) (record {
          represents = record {
            geometry = R.geometry;
            pages =
                subst (Pages _ _ (disc.content (behind e s)) f 0 0)
                  (set_same s.cache.entries i e at)
                  (wb-Pages e (λ k h. h) (λ k h. h)
                    (failed-IsPage _ _ f e s (R.pages.page i e at)));
          };
          none_has = λ k h. h;
          same = record { same_end = refl; same_spp = refl; same_bytes = refl };
          others = λ j ne. refl;
          is_clean = λ a eq. absurd (cc);
        })
      ]
    ]
