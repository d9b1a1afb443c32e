-- ===== src/PageCache/Loaded.antt =====
-- source/cache2.c: a page that _NTFS_cache_getPage loads in place of another.
use libntfs.Prelude.{
  ℕ, ◌+◌, ◌-◌, ◌≤◌, ◌<◌, ◌≡◌, inr, refl, sym, ◌∙◌, ap, arith, List, some, none, Bool, true, false,
  length, get_elem?, set, if◌then◌else◌,
}
use libntfs.PageCache.{Sector, CacheEntry, cache_free, last_dirty, overwrite, free_entry}
use libntfs.PageCache.Pages.{to_read}
use libntfs.PageCache.Invariant.{Outside, Has, IsPlaced, IsPage, Pages}
use libntfs.PageCache.Masks.{length-overwrite, overwrite_within}
use libntfs.PageCache.Replaced.{set-Pages}
use libntfs.PageCache.Scans.{HasNone}
use libntfs.PageCache.Places.{
  placed_at, placed_at-Has, placed_at-IsPlaced, free_entry-IsPlaced, to_read_covers,
  to_read_nothing,
}

-- The sectors that a call for `n` sectors of a page is about to write.
abbrev pub hole_from : Bool → ℕ → ℕ
hole_from write sector = if write then sector else 0

abbrev pub hole_to : Bool → ℕ → ℕ → ℕ
hole_to write sector n = if write then sector + n else 0

hole_shift :
    (write : Bool) (base sector n k : ℕ)
    → base ≤ sector
    → base ≤ k
    → Outside (hole_from write sector) (hole_to write sector n) k
    → Outside (hole_from write (sector - base)) (hole_to write (sector - base) n) (k - base)
hole_shift false base sector n k low h out = inr (omega arith)
hole_shift true base sector n k low h out = ground (arith, low, h, out)

-- The page in its new place, which only the last use tells from what the source has.
abbrev pub used : CacheEntry → ℕ → CacheEntry
used e time = record e { last_access = time }

pub used-IsPage :
    {spp end : ℕ} {g f : ℕ → Sector} {from to : ℕ} (e : CacheEntry) (time : ℕ)
    → IsPage spp end g f from to e
    → IsPage spp end g f from to (used e time)
used-IsPage e time page = record {
  placed = record {
    of_page = page.placed.of_page;
    whole = page.placed.whole;
    room = page.placed.room;
    buffer = page.placed.buffer;
    bits = page.placed.bits;
    inside = page.placed.inside;
  };
  cached = page.cached;
  stored = page.stored;
}

-- The page with sectors that were read.
abbrev pub filled : CacheEntry → ℕ → List Sector → CacheEntry
filled e sec sectors = record e { cache = overwrite e.cache sec sectors }

-- Page `i` can be replaced by the one of the sector, which no page has.
pub record IsReplaceable (spp end : ℕ) (g f : ℕ → Sector) (entries : List CacheEntry) (i : ℕ)
    (e : CacheEntry) (sector : ℕ) : Type 0 where
  pub pages : Pages spp end g f 0 0 entries
  pub at : get_elem? entries i ≡ some e
  pub is_clean : last_dirty e.dirty ≡ 0
  pub some_sectors : 0 < spp
  pub small : end ≤ cache_free
  pub below : sector < end
  pub none_has : HasNone entries sector

module _ {spp end : ℕ} {g f : ℕ → Sector} {entries : List CacheEntry} {i : ℕ} {e : CacheEntry}
    {sector : ℕ} (v : IsReplaceable spp end g f entries i e sector) where
  abbrev new : CacheEntry
  new = placed_at spp end sector e

  old_stored : (k : ℕ) → Has e k → g k ≡ f k
  old_stored k h = (v.pages.page i e v.at).stored k h (inr (omega (arith, v.is_clean, h.0)))

  pub new-IsPlaced : IsPlaced spp end new
  new-IsPlaced =
      let old = (v.pages.page i e v.at).placed in
      placed_at-IsPlaced spp end sector e v.some_sectors old.buffer old.bits v.is_clean

  new_has : Has new sector
  new_has = placed_at-Has spp end sector e v.some_sectors v.below

  new_alone :
      (j : ℕ) (a : CacheEntry) (k : ℕ) → get_elem? entries j ≡ some a → Has a k → ¬ Has new k
  new_alone j a k has h h' =
      let placed = (v.pages.page j a has).placed in
      let same = sym (new-IsPlaced.of_page k h').1 ∙ (placed.of_page k h).1 in
      v.none_has j a has
        (placed.whole sector v.below ((new-IsPlaced.of_page sector new_has).1 ∙ same))

  -- No page has a sector of the new one, so the disc has it.
  pub new_on_disc : (k : ℕ) → Has new k → g k ≡ f k
  new_on_disc k h =
      v.pages.rest k (new-IsPlaced.of_page k h).0 (λ j a has l. new_alone j a k has l h)

  module _ {g' : ℕ → Sector} (keeps : (k : ℕ) → g' k ≡ g k) where
    pub new-Pages :
        (from to : ℕ) (e' : CacheEntry)
        → ((k : ℕ) → Has e' k → Has new k)
        → IsPage spp end g' f from to e'
        → Pages spp end g' f from to (set entries i e')
    new-Pages from to e' le page =
        set-Pages v.pages v.at page (λ k h h'. (keeps k, refl)) (λ k h out. inr (omega arith))
          (λ j a k ne has h h'. new_alone j a k has h (le k h'))
          (λ k low h h'. keeps k ∙ old_stored k h)

    pub freed-Pages : Pages spp end g' f 0 0 (set entries i (free_entry new))
    freed-Pages =
        let placed = free_entry-IsPlaced spp end new v.small new-IsPlaced.buffer in
        new-Pages 0 0 (free_entry new) (λ k h. absurd (omega (arith, h.0, h.1)))
          (record {
            placed = placed;
            cached = λ k h. absurd (omega (arith, h.0, h.1));
            stored = λ k h. absurd (omega (arith, h.0, h.1));
          })

  module _ (write : Bool) (num : ℕ) (fits : sector - new.sector + num ≤ new.count) where
    pub unread-IsPage :
        to_read write (sector - new.sector) num new.count ≡ none
        → IsPage spp end g f (hole_from write sector) (hole_to write sector num) new
    unread-IsPage h = record {
      placed = new-IsPlaced;
      cached = λ k has out. absurd (
          to_read_nothing write (sector - new.sector) num new.count (k - new.sector) h fits
            (omega (arith, has.0, has.1))
            (hole_shift write new.sector sector num k new_has.0 has.0 out));
      stored = λ k has out. new_on_disc k has;
    }

    filled_cached :
        (sec n : ℕ) (sectors : List Sector)
        → to_read write (sector - new.sector) num new.count ≡ some (sec, n)
        → length sectors ≡ n
        → ((j : ℕ) → j < n → get_elem? sectors j ≡ some (g (new.sector + sec + j)))
        → (k : ℕ) → Has new k
        → Outside (hole_from write sector) (hole_to write sector num) k
        → get_elem? (overwrite e.cache sec sectors) (k - new.sector) ≡ some (f k)
    filled_cached sec n sectors h len has_all k has out =
        let ((low, high), inside) =
          to_read_covers write (sector - new.sector) num new.count sec n (k - new.sector) h fits
            (omega (arith, has.0, has.1))
            (hole_shift write new.sector sector num k new_has.0 has.0 out) in
        let j = k - new.sector - sec in
        overwrite_within e.cache sec sectors (k - new.sector) low (omega (arith, high, len))
          (omega (arith, high, inside, new-IsPlaced.room, new-IsPlaced.buffer))
        ∙ has_all j (omega (arith, low, high))
        ∙ ap (λ n. some (g n)) (omega (arith, low, has.0))
        ∙ ap some (new_on_disc k has)

    pub filled-IsPage :
        (g' : ℕ → Sector) (sec n : ℕ) (sectors : List Sector)
        → ((k : ℕ) → g' k ≡ g k)
        → to_read write (sector - new.sector) num new.count ≡ some (sec, n)
        → length sectors ≡ n
        → ((j : ℕ) → j < n → get_elem? sectors j ≡ some (g (new.sector + sec + j)))
        → IsPage spp end g' f
            (hole_from write sector)
            (hole_to write sector num)
            (filled new sec sectors)
    filled-IsPage g' sec n sectors keeps h len has_all = record {
      placed = record {
        of_page = new-IsPlaced.of_page;
        whole = new-IsPlaced.whole;
        room = new-IsPlaced.room;
        buffer = omega (arith, new-IsPlaced.buffer, length-overwrite e.cache sec sectors);
        bits = new-IsPlaced.bits;
        inside = new-IsPlaced.inside;
      };
      cached = filled_cached sec n sectors h len has_all;
      stored = λ k has out. keeps k ∙ new_on_disc k has;
    }
