-- ===== src/PageCache/WriteSteps.antt =====
-- source/cache2.c: the rounds of the loop of _NTFS_cache_writeSectors.
use libntfs.Prelude.{
  ℕ, suc, ◌+◌, ◌-◌, ◌≡◌, ◌⊎◌, inl, inr, refl, List, ◌∷◌, some, Bool, true, false, length, get_elem?,
  take, drop, ltb, if◌then◌else◌,
}
use libntfs.PageCache.{
  Sector, DiscInterface, CacheEntry, State, Ended, ok, failed, fault, mark, overwrite,
}
use libntfs.PageCache.Pages.{with_entry, get_page}
use libntfs.PageCache.Calls.{direct_sectors, in_page, write_loop}
use libntfs.PageCache.Invariant.{Within, Outside}
use libntfs.PageCache.Replaced.{Within-cases, Outside-not}

-- The array behind a write that failed.
pick : {from to k : ℕ} → Within from to k ⊎ Outside from to k → Sector → Sector → Sector
pick (inl range) x y = x
pick (inr out) x y = y

pub torn : (ℕ → Sector) → (ℕ → Sector) → ℕ → ℕ → ℕ → Sector
torn f g from to k = pick (Within-cases from to k) (g k) (f k)

pub torn-Outside : (f g : ℕ → Sector) (from to k : ℕ) → Outside from to k → torn f g from to k ≡ f k
unfolding torn pick
torn-Outside f g from to k out = outside (Within-cases from to k)
  where
    outside : (c : Within from to k ⊎ Outside from to k) → pick c (g k) (f k) ≡ f k
    outside (inl range) = absurd (Outside-not from to k out range)
    outside (inr h) = refl

pub torn-Within : (f g : ℕ → Sector) (from to k : ℕ) → Within from to k → g k ≡ torn f g from to k
unfolding torn pick
torn-Within f g from to k range = within (Within-cases from to k)
  where
    within : (c : Within from to k ⊎ Outside from to k) → g k ≡ pick c (g k) (f k)
    within (inl h) = refl
    within (inr out) = absurd (Outside-not from to k out range)

module _ {D : Type 0} (io : DiscInterface D) (is_dma : ℕ → Bool) where
  abbrev pub passed : State D → ℕ → ℕ → List Sector → ℕ
  passed s sector done buffer = direct_sectors (is_dma done) s.cache sector (length buffer)

  abbrev pub page_got : State D → ℕ → List Sector → Ended ℕ × State D
  page_got s sector buffer = get_page io s sector (length buffer) true

  -- The state with `n` sectors of the buffer in page `i`.
  abbrev pub with_stored : State D → ℕ → CacheEntry → ℕ → ℕ → List Sector → State D
  with_stored s i e sector n buffer = record s {
    cache = with_entry s.cache i (record e {
      cache = overwrite e.cache (sector - e.sector) (take n buffer);
      dirty = mark e.dirty (sector - e.sector) n;
    });
  }

  pub step_page :
      (fuel : ℕ) (s : State D) (sector done : ℕ) (x : Sector) (from : List Sector) (i : ℕ)
      (e : CacheEntry)
      → passed s sector done (x ∷ from) ≡ 0
      → (page_got s sector (x ∷ from)).0 ≡ ok i
      → get_elem? (page_got s sector (x ∷ from)).1.cache.entries i ≡ some e
      → ltb (in_page e sector (length (x ∷ from))) 64 ≡ true
      → write_loop io is_dma (suc fuel) s sector done (x ∷ from)
        ≡ write_loop io is_dma fuel
            (with_stored
              (page_got s sector (x ∷ from)).1
              i
              e
              sector
              (in_page e sector (length (x ∷ from)))
              (x ∷ from))
            (sector + in_page e sector (length (x ∷ from)))
            (done + in_page e sector (length (x ∷ from)))
            (drop (in_page e sector (length (x ∷ from))) (x ∷ from))
  unfolding write_loop
  step_page fuel s sector done x from i e none_pass got at small =
      rw (none_pass, write_loop)
        (rw (got, write_loop) (rw (at, write_loop) (rw (small, write_loop) refl)))

  -- The mask of a whole page of 64 sectors.
  pub step_fault :
      (fuel : ℕ) (s : State D) (sector done : ℕ) (x : Sector) (from : List Sector) (i : ℕ)
      (e : CacheEntry)
      → passed s sector done (x ∷ from) ≡ 0
      → (page_got s sector (x ∷ from)).0 ≡ ok i
      → get_elem? (page_got s sector (x ∷ from)).1.cache.entries i ≡ some e
      → ltb (in_page e sector (length (x ∷ from))) 64 ≡ false
      → (write_loop io is_dma (suc fuel) s sector done (x ∷ from)).0 ≡ fault
  unfolding write_loop
  step_fault fuel s sector done x from i e none_pass got at large =
      rw (none_pass, write_loop)
        (rw (got, write_loop) (rw (at, write_loop) (rw (large, write_loop) refl)))

  pub step_failed :
      (fuel : ℕ) (s : State D) (sector done : ℕ) (x : Sector) (from : List Sector)
      → passed s sector done (x ∷ from) ≡ 0
      → (page_got s sector (x ∷ from)).0 ≡ failed
      → write_loop io is_dma (suc fuel) s sector done (x ∷ from)
        ≡ (failed, (page_got s sector (x ∷ from)).1)
  unfolding write_loop
  step_failed fuel s sector done x from none_pass got =
      rw (none_pass, write_loop) (rw (got, write_loop) refl)

  -- The disc behind a write past the cache.
  abbrev pub past : State D → ℕ → ℕ → List Sector → Bool × D
  past s sector n buffer = DiscInterface.write_sectors io s.disc sector (take n buffer)

  pub step_direct :
      (fuel : ℕ) (s : State D) (sector done : ℕ) (x : Sector) (from : List Sector) (n : ℕ)
      (good : Bool)
      → passed s sector done (x ∷ from) ≡ suc n
      → (past s sector (suc n) (x ∷ from)).0 ≡ good
      → write_loop io is_dma (suc fuel) s sector done (x ∷ from) ≡ (
          if good
          then write_loop io is_dma fuel
              (record s { disc = (past s sector (suc n) (x ∷ from)).1 })
              (sector + suc n)
              (done + suc n)
              (drop (suc n) (x ∷ from))
          else (failed, record s { disc = (past s sector (suc n) (x ∷ from)).1 }))
  unfolding write_loop
  step_direct fuel s sector done x from n good some_pass eq =
      rw (some_pass, write_loop) (rw (eq, write_loop) refl)
