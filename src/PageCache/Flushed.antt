-- ===== src/PageCache/Flushed.antt =====
-- source/cache2.c: _NTFS_cache_flush and _NTFS_cache_invalidate.
use native.Mathlib.Nat.{add-zero}
use libntfs.Prelude.{
  ℕ, suc, ◌+◌, ◌-◌, ◌≤◌, ◌<◌, subst, ◌≡◌, inl, inr, refl, sym, ◌∙◌, ap, arith, List, [], ◌∷◌,
  Option, some, none, Bool, true, false, Bool-cases, get_elem?, some_inj, ltb, ◌==◌, eq_of_test,
  ne_of_test,
}
use libntfs.PageCache.{Sector, DiscInterface, CacheEntry, State, last_dirty, uint_max}
use libntfs.PageCache.Pages.{Scan, hit, miss, scan, write_back}
use libntfs.PageCache.Calls.{flush_loop, cache_flush}
use libntfs.PageCache.Invariant.{IsDisc, Represents}
use libntfs.PageCache.Scans.{Scanned, scan-Scanned}
use libntfs.PageCache.Evicted.{SameGeometry, same_all, WrittenBack, write_back-WrittenBack}
use libntfs.PageCache.Loading.{same_trans}
use libntfs.PageCache.Reads.{same_content}

-- No page has a dirty sector.
abbrev pub IsClean : List CacheEntry → Type 0
IsClean entries = (j : ℕ) (e : CacheEntry) → get_elem? entries j ≡ some e → last_dirty e.dirty ≡ 0

suc_add : (i j : ℕ) → suc i + j ≡ i + suc j
suc_add i j = omega arith

module _ {D : Type 0} {io : DiscInterface D} (disc : IsDisc io) where
  -- If no page is dirty, the disc has the array.
  pub clean_on_disc :
      (f : ℕ → Sector) (s : State D)
      → Represents disc f s
      → IsClean s.cache.entries
      → (k : ℕ) → k < s.cache.end_of_partition
      → disc.content s.disc k ≡ f k
  clean_on_disc f s R is_clean k low =
      by_scan (scan k s.cache.entries 0 false 0 uint_max)
        (scan-Scanned s.cache.entries k R.geometry.some_pages)
    where
      by_scan : (found : Scan) → Scanned s.cache.entries k found → disc.content s.disc k ≡ f k
      by_scan (hit i) (e, at, has) =
          (R.pages.page i e at).stored k has (inr (omega (arith, has.0, is_clean i e at)))
      by_scan (miss found_free i) (e, at, free, none_has) = R.pages.rest k low none_has

  -- What the loop leaves of a cache that stands for `f`.
  abbrev Flushes : (ℕ → Sector) → State D → Bool × State D → Type 0
  Flushes f s r =
      Represents disc f r.1
      × SameGeometry s.cache r.1.cache
      × (r.0 ≡ true → IsClean r.1.cache.entries)

  flush_step :
      (i : ℕ) (e : CacheEntry) (entries : List CacheEntry) (s : State D) (e' : CacheEntry)
      → (write_back io i e s).0 ≡ some e'
      → flush_loop io i (e ∷ entries) s ≡ flush_loop io (suc i) entries (write_back io i e s).1
  unfolding flush_loop
  flush_step i e entries s e' h = rw (h, flush_loop) refl

  flush_stop :
      (i : ℕ) (e : CacheEntry) (entries : List CacheEntry) (s : State D)
      → (write_back io i e s).0 ≡ none
      → flush_loop io i (e ∷ entries) s ≡ (false, (write_back io i e s).1)
  unfolding flush_loop
  flush_stop i e entries s h = rw (h, flush_loop) refl

  loop-Flushes :
      (f : ℕ → Sector) (i : ℕ) (entries : List CacheEntry) (s : State D)
      → Represents disc f s
      → ((j : ℕ) → get_elem? s.cache.entries (i + j) ≡ get_elem? entries j)
      → ((j : ℕ) (e : CacheEntry)
          → j < i
          → get_elem? s.cache.entries j ≡ some e
          → last_dirty e.dirty ≡ 0)
      → Flushes f s (flush_loop io i entries s)
  unfolding flush_loop
  loop-Flushes f i [] s R same before = (
    R,
    same_all disc s.cache,
    λ h j e at. elim (Bool-cases (ltb j i)) [
      | inl l ↦ before j e (ground (arith, l)) at
      | inr l ↦
          let there : get_elem? s.cache.entries j ≡ none =
            ap (λ n. get_elem? s.cache.entries n) (back i j (ground (arith, l))) ∙ same (j - i) in
          let wrong : some e ≡ none = sym at ∙ there in absurd (cc)
    ],
  )
    where
      back : (i j : ℕ) → i ≤ j → j ≡ i + (j - i)
      back i j h = omega (arith, h)
  loop-Flushes f i (e ∷ entries) s R same before =
      let at : get_elem? s.cache.entries i ≡ some e =
        ap (λ n. get_elem? s.cache.entries n) (sym (add-zero i)) ∙ same 0 in
      let w = write_back-WrittenBack disc f i e s R at in
      by_wrote (λ s1 R1 same1 before1. loop-Flushes f (suc i) entries s1 R1 same1 before1)
        (write_back io i e s).0 refl w
    where
      by_wrote :
          ((s1 : State D)
            → Represents disc f s1
            → ((j : ℕ) → get_elem? s1.cache.entries (suc i + j) ≡ get_elem? entries j)
            → ((j : ℕ) (a : CacheEntry)
                → j < suc i
                → get_elem? s1.cache.entries j ≡ some a
                → last_dirty a.dirty ≡ 0)
            → Flushes f s1 (flush_loop io (suc i) entries s1))
          → (wrote : Option CacheEntry) → (write_back io i e s).0 ≡ wrote
          → WrittenBack disc f i s (write_back io i e s)
          → Flushes f s (flush_loop io i (e ∷ entries) s)
      by_wrote all none h w =
          subst (Flushes f s) (sym (flush_stop i e entries s h))
            (w.represents, w.same, λ wrong. absurd (cc))
      by_wrote all (some e') h w =
          let s1 = (write_back io i e s).1 in
          let (at', is_clean) = w.is_clean e' h in
          let (R', same', clean') =
            all s1 w.represents
              (λ j.
                w.others (suc i + j) (λ eq. omega (arith, eq))
                ∙ ap (λ n. get_elem? s.cache.entries n) (suc_add i j)
                ∙ same (suc j))
              (λ j a less at. elim (Bool-cases (i == j)) [
                | inl eq ↦
                    subst (λ x. last_dirty x.dirty ≡ 0)
                      (some_inj e' a
                        (sym at' ∙ ap (λ n. get_elem? s1.cache.entries n) (eq_of_test i j eq) ∙ at))
                      is_clean
                | inr ne ↦
                    before j a (ground (arith, less, ne))
                      (sym (w.others j (ne_of_test i j ne)) ∙ at)
              ]) in
          subst (Flushes f s) (sym (flush_step i e entries s e' h))
            (R', same_trans w.same same', clean')

  flush_bad :
      (s : State D)
      → (flush_loop io 0 s.cache.entries s).0 ≡ false
      → cache_flush io s ≡ (false, (flush_loop io 0 s.cache.entries s).1)
  unfolding cache_flush
  flush_bad s h = rw (h, cache_flush) refl

  -- The state behind the loop, and behind the disc's own flush.
  abbrev looped : State D → State D
  looped s = (flush_loop io 0 s.cache.entries s).1

  abbrev flushed : State D → State D
  flushed s = record (looped s) { disc = (DiscInterface.flush io (looped s).disc).1 }

  flush_good :
      (s : State D)
      → (flush_loop io 0 s.cache.entries s).0 ≡ true
      → cache_flush io s ≡ ((DiscInterface.flush io (looped s).disc).0, flushed s)
  unfolding cache_flush
  flush_good s h = rw (h, cache_flush) refl

  all_flushed :
      (f : ℕ → Sector) (s : State D)
      → Represents disc f s
      → Flushes f s (flush_loop io 0 s.cache.entries s)
  all_flushed f s R =
      loop-Flushes f 0 s.cache.entries s R
        (λ j. ap (λ n. get_elem? s.cache.entries n) (omega arith))
        (λ j e less. absurd (omega (arith, less)))

  pub flush-Flushes :
      (f : ℕ → Sector) (s : State D) → Represents disc f s → Flushes f s (cache_flush io s)
  flush-Flushes f s R =
      let (R', same, is_clean) = all_flushed f s R in
      elim (Bool-cases (flush_loop io 0 s.cache.entries s).0) [
        | inl good ↦ subst (Flushes f s) (sym (flush_good s good)) (
          same_content disc f (looped s) _ (disc.flush_keeps (looped s).disc) R',
          record {
            same_end = same.same_end;
            same_spp = same.same_spp;
            same_bytes = same.same_bytes;
          },
          λ h. is_clean good,
        )
        | inr bad ↦ subst (Flushes f s) (sym (flush_bad s bad)) (R', same, λ wrong. absurd (cc))
      ]

-- Of a cache that stands for an array of sectors, over a disc that keeps its contract, _NTFS_cache_flush leaves a
-- cache that stands for the same array, whether or not a write fails; if it returns true, the disc has the array's
-- sectors of the partition.
pub cache_flush-on_disc :
    {D : Type 0} {io : DiscInterface D} (disc : IsDisc io) (f : ℕ → Sector) (s : State D)
    → Represents disc f s
    → Represents disc f (cache_flush io s).1
      × ((cache_flush io s).0 ≡ true
          → (k : ℕ) → k < s.cache.end_of_partition
          → disc.content (cache_flush io s).1.disc k ≡ f k)
cache_flush-on_disc {io = io} disc f s R =
    let (R', same, is_clean) = flush-Flushes disc f s R in
    (
      R',
      λ h k low.
          clean_on_disc disc f (cache_flush io s).1 R' (is_clean h) k
            (omega (arith, low, same.same_end)),
    )
