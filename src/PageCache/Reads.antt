-- ===== src/PageCache/Reads.antt =====
-- source/cache2.c: _NTFS_cache_readSectors returns the sectors that the cache stands for.
use libntfs.Prelude.{
  ℕ, zero, suc, ◌+◌, ◌-◌, ◌≤◌, ◌<◌, subst, ◌≡◌, inr, refl, sym, ◌∙◌, ap, arith, List, [], ◌++◌,
  append-nil, append_assoc, Option, some, none, Bool, false, length, get_elem?, take, drop,
  get_elem?-take, get_elem?-drop, length-take, length-drop,
}
use libntfs.PageCache.{Sector, DiscInterface, CacheEntry, State, Ended, ok, failed, fault, no_end}
use libntfs.PageCache.Pages.{get_page}
use libntfs.PageCache.Calls.{in_page, read_loop, cache_read_sectors}
use libntfs.PageCache.Invariant.{IsDisc, Has, Represents}
use libntfs.PageCache.Direct.{PassesBy, direct_sectors-PassesBy}
use libntfs.PageCache.Evicted.{SameGeometry, same_all}
use libntfs.PageCache.Loading.{Got, same_trans}
use libntfs.PageCache.Got.{get_page-Got}
use libntfs.PageCache.Arrays.{slice, slice-append, slice_of}
use libntfs.PageCache.ReadSteps.{passed, step_page, step_failed, step_direct, step_error}

pub in_page_room :
    (e : CacheEntry) (sector num : ℕ)
    → Has e sector
    → 0 < num
    → (0 < in_page e sector num)
      × (in_page e sector num ≤ num)
      × (sector - e.sector + in_page e sector num ≤ e.count)
in_page_room e sector num h pos = ground (arith, h, pos)

module _ {D : Type 0} {io : DiscInterface D} (disc : IsDisc io) where
  -- A disc in another state, with the same sectors.
  pub same_content :
      (f : ℕ → Sector) (s : State D) (d : D)
      → ((k : ℕ) → disc.content d k ≡ disc.content s.disc k)
      → Represents disc f s
      → Represents disc f (record s { disc = d })
  same_content f s d keeps R = record {
    geometry = R.geometry;
    pages = record {
      page = λ i e at.
          let page = R.pages.page i e at in
          record {
            placed = page.placed;
            cached = page.cached;
            stored = λ k has out. keeps k ∙ page.stored k has out;
          };
      apart = R.pages.apart;
      rest = λ k low none_has. keeps k ∙ R.pages.rest k low none_has;
    };
  }

  -- What the call does to a cache that stands for `f`: it returns the sectors, or fails, and the
  -- cache stands for the same.
  abbrev pub Reads : (ℕ → Sector) → List Sector → State D → Ended (List Sector) → State D → Type 0
  Reads f sectors s (ok out) s' =
      (out ≡ sectors) × Represents disc f s' × SameGeometry s.cache s'.cache
  Reads f sectors s failed s' = Represents disc f s' × SameGeometry s.cache s'.cache
  Reads f sectors s fault s' = ⊥
  Reads f sectors s no_end s' = ⊥

  Reads-from :
      (f : ℕ → Sector) (sectors sectors' : List Sector) (s s1 : State D) (r : Ended (List Sector))
      (s2 : State D)
      → sectors' ≡ sectors
      → SameGeometry s.cache s1.cache
      → Reads f sectors' s1 r s2
      → Reads f sectors s r s2
  Reads-from f sectors sectors' s s1 (ok out) s2 eq same (got, R, same') =
      (got ∙ eq, R, same_trans same same')
  Reads-from f sectors sectors' s s1 failed s2 eq same (R, same') = (R, same_trans same same')
  Reads-from f sectors sectors' s s1 fault s2 eq same h = h
  Reads-from f sectors sectors' s s1 no_end s2 eq same h = h

  module _ (is_dma : ℕ → Bool) (f : ℕ → Sector) where
    -- The loop, on all arguments.
    abbrev LoopReads : ℕ → State D → ℕ → ℕ → List Sector → Type 0
    LoopReads fuel s sector num out =
        Reads f (out ++ slice f sector num) s (read_loop io is_dma fuel s sector num out).0
          (read_loop io is_dma fuel s sector num out).1

    -- The rest of the loop behind `n` sectors.
    joined :
        (sector num n : ℕ) (out sectors : List Sector)
        → n ≤ num
        → sectors ≡ slice f sector n
        → (out ++ sectors) ++ slice f (sector + n) (num - n) ≡ out ++ slice f sector num
    joined sector num n out sectors h eq =
        append_assoc out sectors (slice f (sector + n) (num - n))
        ∙ ap (λ xs. out ++ xs)
            (ap (λ xs. xs ++ slice f (sector + n) (num - n)) eq
              ∙ slice-append f sector n (num - n)
              ∙ ap (slice f sector) (omega (arith, h)))

    page_slice :
        (s : State D) (i : ℕ) (e : CacheEntry) (sector num : ℕ)
        → Represents disc f s
        → get_elem? s.cache.entries i ≡ some e
        → Has e sector
        → 0 < num
        → take (in_page e sector num) (drop (sector - e.sector) e.cache)
          ≡ slice f sector (in_page e sector num)
    page_slice s i e sector num R at has pos =
        let page = R.pages.page i e at in
        let n = in_page e sector num in
        let (some_of, few, fits) = in_page_room e sector num has pos in
        slice_of f sector n (take n (drop (sector - e.sector) e.cache))
          (omega (
            arith,
            length-take n (drop (sector - e.sector) e.cache),
            length-drop (sector - e.sector) e.cache,
            fits,
            page.placed.room,
            page.placed.buffer,
          ))
          (λ j less.
            get_elem?-take n (drop (sector - e.sector) e.cache) j less
            ∙ get_elem?-drop (sector - e.sector) e.cache j
            ∙ ap (λ k. get_elem? e.cache k) (shift e.sector sector j has.0)
            ∙ page.cached (sector + j)
                (omega (arith, has.0), omega (arith, less, fits, has.0, has.1)) (inr (omega arith)))
      where
        shift : (base sector j : ℕ) → base ≤ sector → sector - base + j ≡ sector + j - base
        shift base sector j h = omega (arith, h)

    direct_slice :
        (s : State D) (sector n : ℕ) (sectors : List Sector)
        → Represents disc f s
        → PassesBy s.cache sector n n
        → sector + n ≤ s.cache.end_of_partition
        → (DiscInterface.read_sectors io s.disc sector n).0 ≡ some sectors
        → sectors ≡ slice f sector n
    direct_slice s sector n sectors R pass inside got =
        slice_of f sector n sectors (disc.read_length s.disc sector n sectors got) (λ j less.
          disc.reads s.disc sector n sectors j got less
          ∙ ap some (
              R.pages.rest (sector + j) (omega (arith, less, inside)) (
                pass.uncached (sector + j) (omega arith, omega (arith, less))
                  (omega (arith, less, inside, R.geometry.end_small)))))

    -- The loop on fuel, whatever it starts from.
    abbrev AllReads : ℕ → Type 0
    AllReads fuel =
        (s : State D) (sector num : ℕ) (out : List Sector)
        → num ≤ fuel
        → Represents disc f s
        → sector + num ≤ s.cache.end_of_partition
        → LoopReads fuel s sector num out

    -- The loop behind one of its steps.
    goes_on :
        (fuel : ℕ) (all : AllReads fuel) (s s1 : State D) (sector num n : ℕ)
        (out sectors : List Sector)
        → suc num ≤ suc fuel
        → 0 < n
        → n ≤ suc num
        → sector + suc num ≤ s.cache.end_of_partition
        → Represents disc f s1
        → SameGeometry s.cache s1.cache
        → sectors ≡ slice f sector n
        → read_loop io is_dma (suc fuel) s sector (suc num) out
          ≡ read_loop io is_dma fuel s1 (sector + n) (suc num - n) (out ++ sectors)
        → LoopReads (suc fuel) s sector (suc num) out
    goes_on fuel all s s1 sector num n out sectors enough pos few inside R same eq step =
        subst (λ r. Reads f (out ++ slice f sector (suc num)) s r.0 r.1) (sym step)
          (Reads-from f _ _ s s1 _ _ (joined sector (suc num) n out sectors few eq) same (
            all s1 (sector + n) (suc num - n) (out ++ sectors) (omega (arith, enough, pos)) R
              (omega (arith, inside, few, same.same_end))))

    page-Reads :
        (fuel : ℕ) (all : AllReads fuel) (s : State D) (sector num : ℕ) (out : List Sector)
        (got : Ended ℕ)
        → suc num ≤ suc fuel
        → sector + suc num ≤ s.cache.end_of_partition
        → passed io is_dma s sector (suc num) out ≡ 0
        → (get_page io s sector (suc num) false).0 ≡ got
        → Got disc f sector (suc num) false s got (get_page io s sector (suc num) false).1
        → LoopReads (suc fuel) s sector (suc num) out
    page-Reads fuel all s sector num out (ok i) enough inside none_pass eq (e, at, has, R, same) =
        let s1 = (get_page io s sector (suc num) false).1 in
        let (some_of, few, fits) = in_page_room e sector (suc num) has (omega arith) in
        goes_on fuel all s s1 sector num (in_page e sector (suc num)) out _ enough some_of few
          inside R same (page_slice s1 i e sector (suc num) R at has (omega arith))
          (step_page io is_dma fuel s sector num out i e none_pass eq at)
    page-Reads fuel all s sector num out failed enough inside none_pass eq h =
        subst (λ r. Reads f (out ++ slice f sector (suc num)) s r.0 r.1)
          (sym (step_failed io is_dma fuel s sector num out none_pass eq)) h
    page-Reads fuel all s sector num out fault enough inside none_pass eq h = absurd h
    page-Reads fuel all s sector num out no_end enough inside none_pass eq h = absurd h

    pass-Reads :
        (fuel : ℕ) (all : AllReads fuel) (s : State D) (sector num : ℕ) (out : List Sector) (n : ℕ)
        (got : Option (List Sector))
        → suc num ≤ suc fuel
        → Represents disc f s
        → sector + suc num ≤ s.cache.end_of_partition
        → passed io is_dma s sector (suc num) out ≡ suc n
        → PassesBy s.cache sector (suc num) (suc n)
        → (DiscInterface.read_sectors io s.disc sector (suc n)).0 ≡ got
        → LoopReads (suc fuel) s sector (suc num) out
    pass-Reads fuel all s sector num out n none enough R inside some_pass pass eq =
        let keeps = disc.read_keeps s.disc sector (suc n) in
        subst (λ r. Reads f (out ++ slice f sector (suc num)) s r.0 r.1)
          (sym (step_error io is_dma fuel s sector num out n some_pass eq))
          (same_content f s _ keeps R, same_all disc s.cache)
    pass-Reads fuel all s sector num out n (some sectors) enough R inside some_pass pass eq =
        let keeps = disc.read_keeps s.disc sector (suc n) in
        goes_on fuel all s _ sector num (suc n) out sectors enough (omega arith) pass.not_more
          inside (same_content f s _ keeps R) (same_all disc s.cache)
          (direct_slice s sector (suc n) sectors R
            (record { not_more = omega arith; uncached = pass.uncached })
            (omega (arith, inside, pass.not_more)) eq)
          (step_direct io is_dma fuel s sector num out n sectors some_pass eq)

    by_pass :
        (fuel : ℕ) (all : AllReads fuel) (s : State D) (sector num : ℕ) (out : List Sector) (n : ℕ)
        → suc num ≤ suc fuel
        → Represents disc f s
        → sector + suc num ≤ s.cache.end_of_partition
        → passed io is_dma s sector (suc num) out ≡ n
        → PassesBy s.cache sector (suc num) n
        → LoopReads (suc fuel) s sector (suc num) out
    by_pass fuel all s sector num out zero enough R inside eq pass =
        page-Reads fuel all s sector num out (get_page io s sector (suc num) false).0 enough inside
          eq refl (get_page-Got disc f sector (suc num) false s R (omega (arith, inside)))
    by_pass fuel all s sector num out (suc n) enough R inside eq pass =
        pass-Reads fuel all s sector num out n _ enough R inside eq pass refl

    nothing-Reads :
        (fuel : ℕ) (s : State D) (sector : ℕ) (out : List Sector)
        → Represents disc f s
        → LoopReads fuel s sector 0 out
    unfolding read_loop slice
    nothing-Reads zero s sector out R = (sym (append-nil out), R, same_all disc s.cache)
    nothing-Reads (suc fuel) s sector out R = (sym (append-nil out), R, same_all disc s.cache)

    loop-Reads : (fuel : ℕ) → AllReads fuel
    loop-Reads fuel s sector zero out enough R inside = nothing-Reads fuel s sector out R
    loop-Reads zero s sector (suc num) out enough R inside = absurd (omega (arith, enough))
    loop-Reads (suc fuel) s sector (suc num) out enough R inside =
        by_pass fuel (loop-Reads fuel) s sector num out (passed io is_dma s sector (suc num) out)
          enough R inside refl
          (direct_sectors-PassesBy (is_dma (length out)) s.cache sector (suc num) (omega arith))

-- Of a cache that stands for an array of sectors, over a disc that keeps its contract, a call of
-- _NTFS_cache_readSectors for sectors of the partition ends: it returns the sectors of the array, whichever of
-- them are cached, dirty, or transferred past the cache, or it reports a failure of the disc, and in both cases
-- the cache stands for the same array.
pub cache_read_sectors-Reads :
    {D : Type 0} {io : DiscInterface D} (disc : IsDisc io) (is_dma : ℕ → Bool) (f : ℕ → Sector)
    (s : State D) (sector num_sectors : ℕ)
    → Represents disc f s
    → sector + num_sectors ≤ s.cache.end_of_partition
    → Reads disc f
        (slice f sector num_sectors)
        s
        (cache_read_sectors io is_dma s sector num_sectors).0
        (cache_read_sectors io is_dma s sector num_sectors).1
unfolding cache_read_sectors
cache_read_sectors-Reads disc is_dma f s sector num_sectors R inside =
    loop-Reads disc is_dma f num_sectors s sector num_sectors [] (omega arith) R inside
