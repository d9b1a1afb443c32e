-- ===== src/PageCache/Stores.antt =====
-- source/cache2.c: storing into a page, or past the cache, stores into the array that the cache stands for.
use libntfs.Prelude.{
  ℕ, ◌+◌, ◌-◌, ◌≤◌, ◌<◌, ◌≡◌, inl, inr, refl, sym, ◌∙◌, ap, arith, List, some, length, get_elem?,
  get_elem?-in_range,
}
use libntfs.PageCache.{Sector, DiscInterface, CacheEntry, State, cache_free, mark, overwrite}
use libntfs.PageCache.Pages.{with_entry}
use libntfs.PageCache.Invariant.{
  Within, Outside, IsDisc, Has, Stored, IsPage, RepresentsBut, Represents,
}
use libntfs.PageCache.Masks.{
  length-mark, last_dirty-mark, first_dirty-mark, mark-first_dirty, mark-last_dirty,
  last_dirty-mark_le, length-overwrite, overwrite_before, overwrite_behind, overwrite_within,
}
use libntfs.PageCache.Replaced.{Within-cases, set-Pages}
use libntfs.PageCache.Scans.{HasNone}
use libntfs.PageCache.Evicted.{with_entry-IsCache}
use libntfs.PageCache.Arrays.{put, put-Outside, put-Within}

-- The page with the buffer stored.
abbrev pub stored_in : CacheEntry → ℕ → List Sector → CacheEntry
stored_in e sector buffer = record e {
  cache = overwrite e.cache (sector - e.sector) buffer;
  dirty = mark e.dirty (sector - e.sector) (length buffer);
}

module _ (spp end : ℕ) (g f : ℕ → Sector) (e : CacheEntry) (sector : ℕ) (buffer : List Sector)
    (few : spp ≤ 64) (some_of : 0 < length buffer) (has : Has e sector)
    (fits : sector - e.sector + length buffer ≤ e.count)
    (page : IsPage spp end g f sector (sector + length buffer) e) where
  -- What is not dirty now was not, and is not stored.
  unmarked :
      (k : ℕ)
      → Stored (stored_in e sector buffer) k
      → Stored e k × Outside sector (sector + length buffer) k
  unmarked k h =
      let at = sector - e.sector in
      let n = length buffer in
      let bits = page.placed.bits in
      let first_le = first_dirty-mark e.dirty at n in
      let last_ge = last_dirty-mark e.dirty at n in
      let low =
        mark-first_dirty e.dirty at n some_of
          (omega (arith, bits, fits, some_of, page.placed.room, few)) in
      let high =
        mark-last_dirty e.dirty at n some_of (omega (arith, bits, fits, page.placed.room, few)) in
      elim h [
        | inl l ↦ (inl (omega (arith, l, first_le)), inl (omega (arith, l, low, has.0)))
        | inr l ↦ (inr (omega (arith, l, last_ge)), inr (omega (arith, l, high, has.0)))
      ]

  cached_now :
      (k : ℕ)
      → Has e k
      → get_elem? (overwrite e.cache (sector - e.sector) buffer) (k - e.sector)
        ≡ some (put f sector buffer k)
  cached_now k h = elim (Within-cases sector (sector + length buffer) k) [
    | inr out ↦
        untouched k h out ∙ page.cached k h out ∙ ap some (sym (put-Outside f sector buffer k out))
    | inl (low, high) ↦
        let (x, at) = get_elem?-in_range buffer (k - sector) (omega (arith, low, high)) in
        overwrite_within e.cache (sector - e.sector) buffer (k - e.sector)
          (omega (arith, low, has.0)) (omega (arith, low, high, has.0))
          (omega (arith, h.0, h.1, page.placed.room, page.placed.buffer))
        ∙ ap (λ j. get_elem? buffer j) (shift e.sector sector k has.0 low)
        ∙ at
        ∙ ap some (sym (put-Within f sector buffer k x low at))
  ]
    where
      shift :
          (base sector k : ℕ) → base ≤ sector → sector ≤ k → k - base - (sector - base) ≡ k - sector
      shift base sector k h l = omega (arith, h, l)

      untouched :
          (k : ℕ)
          → Has e k
          → Outside sector (sector + length buffer) k
          → get_elem? (overwrite e.cache (sector - e.sector) buffer) (k - e.sector)
            ≡ get_elem? e.cache (k - e.sector)
      untouched k h (inl l) =
          overwrite_before e.cache (sector - e.sector) buffer (k - e.sector)
            (omega (arith, l, h.0, has.0))
      untouched k h (inr l) =
          overwrite_behind e.cache (sector - e.sector) buffer (k - e.sector)
            (omega (arith, l, has.0))

  stored_in-IsPage : IsPage spp end g (put f sector buffer) 0 0 (stored_in e sector buffer)
  stored_in-IsPage = record {
    placed = record {
      of_page = page.placed.of_page;
      whole = page.placed.whole;
      room = page.placed.room;
      buffer =
          omega (arith, page.placed.buffer, length-overwrite e.cache (sector - e.sector) buffer);
      bits = length-mark e.dirty (sector - e.sector) (length buffer) ∙ page.placed.bits;
      inside =
          last_dirty-mark_le e.dirty (sector - e.sector) (length buffer) e.count page.placed.inside
            fits;
    };
    cached = λ k h out. cached_now k h;
    stored = λ k h out.
        let (was, away) = unmarked k out in
        page.stored k h was ∙ sym (put-Outside f sector buffer k away);
  }

module _ {D : Type 0} {io : DiscInterface D} (disc : IsDisc io) where
  -- A page that is about to be written has been.
  pub stored_in-Represents :
      (f : ℕ → Sector) (s : State D) (i : ℕ) (e : CacheEntry) (sector : ℕ) (buffer : List Sector)
      → RepresentsBut disc sector (sector + length buffer) f s
      → get_elem? s.cache.entries i ≡ some e
      → Has e sector
      → 0 < length buffer
      → sector - e.sector + length buffer ≤ e.count
      → Represents disc
          (put f sector buffer)
          (record s { cache = with_entry s.cache i (stored_in e sector buffer) })
  stored_in-Represents f s i e sector buffer R at has some_of fits = record {
    geometry = with_entry-IsCache disc s.cache i (stored_in e sector buffer) R.geometry;
    pages =
        set-Pages R.pages at
          (stored_in-IsPage _ _ (disc.content s.disc) f e sector buffer R.geometry.few_sectors
            some_of has fits (R.pages.page i e at))
          (λ k h h'. (refl, put-Outside f sector buffer k (outside k h))) (λ k h out. outside k h)
          (λ j a k ne there h h'. ne (R.pages.apart i j e a k at there h' h))
          (λ k low h h'. absurd (h' h));
  }
    where
      outside : (k : ℕ) → ¬ Has e k → Outside sector (sector + length buffer) k
      outside k h = elim (Within-cases sector (sector + length buffer) k) [
        | inr out ↦ out
        | inl (low, high) ↦ absurd (h (omega (arith, low, has.0), omega (arith, high, fits, has.0)))
      ]

  -- The disc has other sectors where no page is, and so has the array.
  pub past-Represents :
      (f f' : ℕ → Sector) (s : State D) (d : D) (from to : ℕ)
      → Represents disc f s
      → ((k : ℕ) → Within from to k → k < cache_free → HasNone s.cache.entries k)
      → ((k : ℕ) → Outside from to k → (disc.content d k ≡ disc.content s.disc k) × (f' k ≡ f k))
      → ((k : ℕ) → Within from to k → disc.content d k ≡ f' k)
      → Represents disc f' (record s { disc = d })
  past-Represents f f' s d from to R none_has away same = record {
    geometry = R.geometry;
    pages = record {
      page = λ i e at.
          let page = R.pages.page i e at in
          let out : (k : ℕ) → Has e k → Outside from to k = λ k h. elim (Within-cases from to k) [
            | inr out ↦ out
            | inl range ↦
                let low = (page.placed.of_page k h).0 in
                absurd (none_has k range (omega (arith, low, R.geometry.end_small)) i e at h)
          ] in
          record {
            placed = page.placed;
            cached = λ k h hole. page.cached k h hole ∙ ap some (sym (away k (out k h)).1);
            stored =
                λ k h clean. let (eg, ef) = away k (out k h) in eg ∙ page.stored k h clean ∙ sym ef;
          };
      apart = R.pages.apart;
      rest = λ k low uncovered. elim (Within-cases from to k) [
        | inl range ↦ same k range
        | inr out ↦ let (eg, ef) = away k out in eg ∙ R.pages.rest k low uncovered ∙ sym ef
      ];
    };
  }
