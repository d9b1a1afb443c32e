-- ===== src/PageCache/Writes.antt =====
-- source/cache2.c: _NTFS_cache_writeSectors stores into the array that the cache stands for.
use libntfs.Prelude.{
  ℕ, zero, suc, ◌+◌, ◌-◌, ◌≤◌, ◌<◌, subst, ◌≡◌, inl, inr, refl, sym, ◌∙◌, ap, arith, List, [], ◌∷◌,
  Bool, true, false, length, get_elem?-in_range, take, drop, length-take, length-drop, ltb,
  Bool-cases, fun_ext,
}
use libntfs.PageCache.{
  Sector, DiscInterface, State, Ended, ok, failed, fault, no_end, mark, overwrite,
}
use libntfs.PageCache.Pages.{with_entry}
use libntfs.PageCache.Calls.{in_page, write_loop, cache_write_sectors}
use libntfs.PageCache.Invariant.{Outside, IsDisc, RepresentsBut, Represents}
use libntfs.PageCache.Direct.{PassesBy, direct_sectors-PassesBy}
use libntfs.PageCache.Evicted.{SameGeometry, same_all}
use libntfs.PageCache.Loading.{Got, same_trans}
use libntfs.PageCache.Got.{get_page-Got}
use libntfs.PageCache.Arrays.{put, put-Outside, put-Within, put-take-drop}
use libntfs.PageCache.Reads.{in_page_room}
use libntfs.PageCache.Stores.{stored_in-Represents, past-Represents}
use libntfs.PageCache.WriteSteps.{
  torn, torn-Outside, torn-Within, passed, page_got, with_stored, step_page, step_fault,
  step_failed, past, step_direct,
}

module _ {D : Type 0} {io : DiscInterface D} (disc : IsDisc io) where
  -- What the call does to a cache that stands for `f`: the buffer is stored, or the call fails, and at
  -- most the sectors that it is about have changed; or it stores 64 sectors in a page, a shift by 64.
  abbrev pub Writes : (ℕ → Sector) → ℕ → List Sector → State D → Ended (Unit {0}) → State D → Type 0
  Writes f sector buffer s (ok done) s' =
      Represents disc (put f sector buffer) s' × SameGeometry s.cache s'.cache
  Writes f sector buffer s failed s' =
      (f' : ℕ → Sector) × Represents disc f' s'
      × ((k : ℕ) → Outside sector (sector + length buffer) k → f' k ≡ f k)
      × SameGeometry s.cache s'.cache
  Writes f sector buffer s fault s' = (s.cache.sectors_per_page ≡ 64) × (64 ≤ length buffer)
  Writes f sector buffer s no_end s' = ⊥

  -- The rest of a buffer, behind its first `n` sectors.
  Writes-from :
      (f : ℕ → Sector) (sector n : ℕ) (buffer : List Sector) (s s1 : State D) (r : Ended (Unit {0}))
      (s2 : State D)
      → n ≤ length buffer
      → SameGeometry s.cache s1.cache
      → Writes (put f sector (take n buffer)) (sector + n) (drop n buffer) s1 r s2
      → Writes f sector buffer s r s2
  Writes-from f sector n buffer s s1 (ok done) s2 few same (R, same') = (
    subst (λ g. Represents disc g s2) (put-take-drop f sector n buffer few) R,
    same_trans same same',
  )
  Writes-from f sector n buffer s s1 failed s2 few same (f', R, away, same') = (
    f',
    R,
    λ k out.
        away k (outside_rest k out) ∙ put-Outside f sector (take n buffer) k (outside_part k out),
    same_trans same same',
  )
    where
      outside_rest :
          (k : ℕ)
          → Outside sector (sector + length buffer) k
          → Outside (sector + n) (sector + n + length (drop n buffer)) k
      outside_rest k (inl h) = inl (omega (arith, h))
      outside_rest k (inr h) = inr (omega (arith, h, few, length-drop n buffer))

      outside_part :
          (k : ℕ)
          → Outside sector (sector + length buffer) k
          → Outside sector (sector + length (take n buffer)) k
      outside_part k (inl h) = inl h
      outside_part k (inr h) = inr (omega (arith, h, few, length-take n buffer))
  Writes-from f sector n buffer s s1 fault s2 few same (full, large) =
      (omega (arith, full, same.same_spp), omega (arith, large, length-drop n buffer))
  Writes-from f sector n buffer s s1 no_end s2 few same h = h

  module _ (is_dma : ℕ → Bool) where
    abbrev LoopWrites : (ℕ → Sector) → ℕ → State D → ℕ → ℕ → List Sector → Type 0
    LoopWrites f fuel s sector done buffer =
        Writes f sector buffer s (write_loop io is_dma fuel s sector done buffer).0
          (write_loop io is_dma fuel s sector done buffer).1

    -- The loop on fuel, whatever it starts from.
    abbrev AllWrites : ℕ → Type 0
    AllWrites fuel =
        (f : ℕ → Sector) (s : State D) (sector done : ℕ) (buffer : List Sector)
        → length buffer ≤ fuel
        → Represents disc f s
        → sector + length buffer ≤ s.cache.end_of_partition
        → LoopWrites f fuel s sector done buffer

    goes_on :
        (f : ℕ → Sector) (fuel : ℕ) (all : AllWrites fuel) (s s1 : State D) (sector done n : ℕ)
        (buffer : List Sector)
        → length buffer ≤ suc fuel
        → 0 < n
        → n ≤ length buffer
        → sector + length buffer ≤ s.cache.end_of_partition
        → Represents disc (put f sector (take n buffer)) s1
        → SameGeometry s.cache s1.cache
        → write_loop io is_dma (suc fuel) s sector done buffer
          ≡ write_loop io is_dma fuel s1 (sector + n) (done + n) (drop n buffer)
        → LoopWrites f (suc fuel) s sector done buffer
    goes_on f fuel all s s1 sector done n buffer enough pos few inside R same step =
        subst (λ r. Writes f sector buffer s r.0 r.1) (sym step)
          (Writes-from f sector n buffer s s1 _ _ few same (
            all (put f sector (take n buffer)) s1 (sector + n) (done + n) (drop n buffer)
              (omega (arith, enough, pos, length-drop n buffer)) R
              (omega (arith, inside, few, same.same_end, length-drop n buffer))))

    full_page :
        (s s1 : State D) (same : SameGeometry s.cache s1.cache) (n count at size : ℕ)
        → s1.cache.sectors_per_page ≤ 64
        → count ≤ s1.cache.sectors_per_page
        → at + n ≤ count
        → n ≤ size
        → 64 ≤ n
        → (s.cache.sectors_per_page ≡ 64) × (64 ≤ size)
    full_page s s1 same n count at size few room fits below large =
        (omega (arith, same.same_spp, few, room, fits, large), omega (arith, below, large))

    page-Writes :
        (f : ℕ → Sector) (fuel : ℕ) (all : AllWrites fuel) (s : State D) (sector done : ℕ)
        (x : Sector) (from : List Sector) (got : Ended ℕ)
        → length (x ∷ from) ≤ suc fuel
        → sector + length (x ∷ from) ≤ s.cache.end_of_partition
        → passed io is_dma s sector done (x ∷ from) ≡ 0
        → (page_got io is_dma s sector (x ∷ from)).0 ≡ got
        → Got disc f sector
            (length (x ∷ from))
            true
            s
            got
            (page_got io is_dma s sector (x ∷ from)).1
        → LoopWrites f (suc fuel) s sector done (x ∷ from)
    page-Writes f fuel all s sector done x from (ok i) enough inside none_pass eq
          (e, at, has, R, same) =
        let buffer = x ∷ from in
        let s1 = (page_got io is_dma s sector buffer).1 in
        let n = in_page e sector (length buffer) in
        let (some_of, few, fits) = in_page_room e sector (length buffer) has (omega arith) in
        let room = (R.pages.page i e at).placed.room in
        let taken : length (take n buffer) ≡ n = omega (arith, length-take n buffer, few) in
        let stored =
          goes_on f fuel all s (with_stored io is_dma s1 i e sector n buffer) sector done n buffer
            enough some_of few inside
            (subst
              (λ m. Represents disc (put f sector (take n buffer)) (record s1 {
                cache = with_entry s1.cache i (record e {
                  cache = overwrite e.cache (sector - e.sector) (take n buffer);
                  dirty = mark e.dirty (sector - e.sector) m;
                });
              }))
              taken
              (stored_in-Represents disc f s1 i e sector (take n buffer)
                (subst (λ m. RepresentsBut disc sector (sector + m) f s1) (sym taken) R) at has
                (omega (arith, taken, some_of)) (omega (arith, taken, fits))))
            (record {
              same_end = same.same_end;
              same_spp = same.same_spp;
              same_bytes = same.same_bytes;
            }) in
        elim (Bool-cases (ltb n 64)) [
          | inl small ↦
              stored (step_page io is_dma fuel s sector done x from i e none_pass eq at small)
          | inr large ↦
              subst
                (λ r.
                  Writes f sector buffer s r
                    (write_loop io is_dma (suc fuel) s sector done buffer).1)
                (sym (step_fault io is_dma fuel s sector done x from i e none_pass eq at large))
                (full_page s s1 same n e.count (sector - e.sector) (length buffer)
                  R.geometry.few_sectors room fits few (ground (arith, large)))
        ]
    page-Writes f fuel all s sector done x from failed enough inside none_pass eq (R, same) =
        subst (λ r. Writes f sector (x ∷ from) s r.0 r.1)
          (sym (step_failed io is_dma fuel s sector done x from none_pass eq))
          (f, R, λ k out. refl, same)
    page-Writes f fuel all s sector done x from fault enough inside none_pass eq h = absurd h
    page-Writes f fuel all s sector done x from no_end enough inside none_pass eq h = absurd h

    past_good :
        (f : ℕ → Sector) (s : State D) (sector n : ℕ) (buffer : List Sector)
        → Represents disc f s
        → n ≤ length buffer
        → PassesBy s.cache sector (length buffer) n
        → (past io is_dma s sector n buffer).0 ≡ true
        → Represents disc
            (put f sector (take n buffer))
            (record s { disc = (past io is_dma s sector n buffer).1 })
    past_good f s sector n buffer R few pass good =
        let part = take n buffer in
        let taken : length part ≡ n = omega (arith, length-take n buffer, few) in
        past-Represents disc f (put f sector part) s _ sector (sector + n) R pass.uncached
          (λ k out.
            let away = subst (λ m. Outside sector (sector + m) k) (sym taken) out in
            (disc.write_keeps s.disc sector part k away, put-Outside f sector part k away))
          (λ k (low, high).
            let (x, at) = get_elem?-in_range part (k - sector) (omega (arith, low, high, taken)) in
            ap (disc.content (past io is_dma s sector n buffer).1) (omega (arith, low))
            ∙ disc.writes s.disc sector part (k - sector) x good at
            ∙ sym (put-Within f sector part k x low at))

    past_bad :
        (f : ℕ → Sector) (s : State D) (sector n : ℕ) (buffer : List Sector)
        → Represents disc f s
        → n ≤ length buffer
        → PassesBy s.cache sector (length buffer) n
        → Writes f sector buffer s failed (record s { disc = (past io is_dma s sector n buffer).1 })
    past_bad f s sector n buffer R few pass =
        let d = (past io is_dma s sector n buffer).1 in
        let g = torn f (disc.content d) sector (sector + n) in
        (
          g,
          past-Represents disc f g s d sector (sector + n) R pass.uncached
              (λ k out. (
                disc.write_keeps s.disc sector (take n buffer) k (beyond k out),
                torn-Outside f (disc.content d) sector (sector + n) k out,
              ))
              (λ k range. torn-Within f (disc.content d) sector (sector + n) k range),
          λ k out. torn-Outside f (disc.content d) sector (sector + n) k (wider k out),
          same_all disc s.cache,
        )
      where
        beyond :
            (k : ℕ)
            → Outside sector (sector + n) k
            → Outside sector (sector + length (take n buffer)) k
        beyond k (inl h) = inl h
        beyond k (inr h) = inr (omega (arith, h, few, length-take n buffer))

        wider : (k : ℕ) → Outside sector (sector + length buffer) k → Outside sector (sector + n) k
        wider k (inl h) = inl h
        wider k (inr h) = inr (omega (arith, h, few))

    past-Writes :
        (f : ℕ → Sector) (fuel : ℕ) (all : AllWrites fuel) (s : State D) (sector done : ℕ)
        (x : Sector) (from : List Sector) (n : ℕ) (good : Bool)
        → length (x ∷ from) ≤ suc fuel
        → Represents disc f s
        → sector + length (x ∷ from) ≤ s.cache.end_of_partition
        → passed io is_dma s sector done (x ∷ from) ≡ suc n
        → PassesBy s.cache sector (length (x ∷ from)) (suc n)
        → (past io is_dma s sector (suc n) (x ∷ from)).0 ≡ good
        → LoopWrites f (suc fuel) s sector done (x ∷ from)
    past-Writes f fuel all s sector done x from n true enough R inside some_pass pass eq =
        goes_on f fuel all s _ sector done (suc n) (x ∷ from) enough (omega arith) pass.not_more
          inside (past_good f s sector (suc n) (x ∷ from) R pass.not_more pass eq)
          (same_all disc s.cache)
          (step_direct io is_dma fuel s sector done x from n true some_pass eq)
    past-Writes f fuel all s sector done x from n false enough R inside some_pass pass eq =
        subst (λ r. Writes f sector (x ∷ from) s r.0 r.1)
          (sym (step_direct io is_dma fuel s sector done x from n false some_pass eq))
          (past_bad f s sector (suc n) (x ∷ from) R pass.not_more pass)

    by_pass :
        (f : ℕ → Sector) (fuel : ℕ) (all : AllWrites fuel) (s : State D) (sector done : ℕ)
        (x : Sector) (from : List Sector) (n : ℕ)
        → length (x ∷ from) ≤ suc fuel
        → Represents disc f s
        → sector + length (x ∷ from) ≤ s.cache.end_of_partition
        → passed io is_dma s sector done (x ∷ from) ≡ n
        → PassesBy s.cache sector (length (x ∷ from)) n
        → LoopWrites f (suc fuel) s sector done (x ∷ from)
    by_pass f fuel all s sector done x from zero enough R inside eq pass =
        page-Writes f fuel all s sector done x from (page_got io is_dma s sector (x ∷ from)).0
          enough inside eq refl
          (get_page-Got disc f sector (length (x ∷ from)) true s R (omega (arith, inside)))
    by_pass f fuel all s sector done x from (suc n) enough R inside eq pass =
        past-Writes f fuel all s sector done x from n _ enough R inside eq pass refl

    nothing-Writes :
        (f : ℕ → Sector) (fuel : ℕ) (s : State D) (sector done : ℕ)
        → Represents disc f s
        → LoopWrites f fuel s sector done []
    unfolding write_loop put
    nothing-Writes f fuel s sector done R = (
      subst (λ g. Represents disc g s) (fun_ext (λ k. sym (put-Outside f sector [] k (always k))))
          R,
      same_all disc s.cache,
    )
      where
        always : (k : ℕ) → Outside sector (sector + 0) k
        always k = elim (Bool-cases (ltb k sector)) [
          | inl h ↦ inl (ground (arith, h))
          | inr h ↦ inr (ground (arith, h))
        ]

    loop-Writes : (fuel : ℕ) → AllWrites fuel
    loop-Writes fuel f s sector done [] enough R inside = nothing-Writes f fuel s sector done R
    loop-Writes zero f s sector done (x ∷ from) enough R inside = absurd (omega (arith, enough))
    loop-Writes (suc fuel) f s sector done (x ∷ from) enough R inside =
        by_pass f fuel (loop-Writes fuel) s sector done x from
          (passed io is_dma s sector done (x ∷ from)) enough R inside refl
          (direct_sectors-PassesBy (is_dma done) s.cache sector (length (x ∷ from)) (omega arith))

-- Of a cache that stands for an array of sectors, over a disc that keeps its
-- contract, a call of _NTFS_cache_writeSectors for sectors of the partition ends: the cache stands for the array
-- with the buffer stored, or the call reports a failure of the disc, and the cache stands for an array that
-- differs from the old one at most in the sectors that the call is about, or a page has 64 sectors, the buffer
-- as many at least, and the call does what C leaves undefined, a shift by 64.
pub cache_write_sectors-Writes :
    {D : Type 0} {io : DiscInterface D} (disc : IsDisc io) (is_dma : ℕ → Bool) (f : ℕ → Sector)
    (s : State D) (sector : ℕ) (buffer : List Sector)
    → Represents disc f s
    → sector + length buffer ≤ s.cache.end_of_partition
    → Writes disc f sector buffer s
        (cache_write_sectors io is_dma s sector buffer).0
        (cache_write_sectors io is_dma s sector buffer).1
unfolding cache_write_sectors
cache_write_sectors-Writes disc is_dma f s sector buffer R inside =
    loop-Writes disc is_dma (length buffer) f s sector 0 buffer (omega arith) R inside
