-- ===== src/PageCache/ReadSteps.antt =====
-- source/cache2.c: the rounds of the loop of _NTFS_cache_readSectors.
use libntfs.Prelude.{
  ℕ, suc, ◌+◌, ◌-◌, ◌≡◌, refl, List, ◌++◌, some, none, Bool, false, length, get_elem?, take, drop,
}
use libntfs.PageCache.{Sector, DiscInterface, CacheEntry, State, ok, failed}
use libntfs.PageCache.Pages.{get_page}
use libntfs.PageCache.Calls.{direct_sectors, in_page, read_loop}

module _ {D : Type 0} (io : DiscInterface D) (is_dma : ℕ → Bool) where
  abbrev pub passed : State D → ℕ → ℕ → List Sector → ℕ
  passed s sector num out = direct_sectors (is_dma (length out)) s.cache sector num

  pub step_page :
      (fuel : ℕ) (s : State D) (sector num : ℕ) (out : List Sector) (i : ℕ) (e : CacheEntry)
      → passed s sector (suc num) out ≡ 0
      → (get_page io s sector (suc num) false).0 ≡ ok i
      → get_elem? (get_page io s sector (suc num) false).1.cache.entries i ≡ some e
      → read_loop io is_dma (suc fuel) s sector (suc num) out
        ≡ read_loop io is_dma fuel
            (get_page io s sector (suc num) false).1
            (sector + in_page e sector (suc num))
            (suc num - in_page e sector (suc num))
            (out ++ take (in_page e sector (suc num)) (drop (sector - e.sector) e.cache))
  unfolding read_loop
  step_page fuel s sector num out i e none_pass got at =
      rw (none_pass, read_loop) (rw (got, read_loop) (rw (at, read_loop) refl))

  pub step_failed :
      (fuel : ℕ) (s : State D) (sector num : ℕ) (out : List Sector)
      → passed s sector (suc num) out ≡ 0
      → (get_page io s sector (suc num) false).0 ≡ failed
      → read_loop io is_dma (suc fuel) s sector (suc num) out
        ≡ (failed, (get_page io s sector (suc num) false).1)
  unfolding read_loop
  step_failed fuel s sector num out none_pass got =
      rw (none_pass, read_loop) (rw (got, read_loop) refl)

  pub step_direct :
      (fuel : ℕ) (s : State D) (sector num : ℕ) (out : List Sector) (n : ℕ) (sectors : List Sector)
      → passed s sector (suc num) out ≡ suc n
      → (DiscInterface.read_sectors io s.disc sector (suc n)).0 ≡ some sectors
      → read_loop io is_dma (suc fuel) s sector (suc num) out
        ≡ read_loop io is_dma fuel
            (record s { disc = (DiscInterface.read_sectors io s.disc sector (suc n)).1 })
            (sector + suc n)
            (suc num - suc n)
            (out ++ sectors)
  unfolding read_loop
  step_direct fuel s sector num out n sectors some_pass got =
      rw (some_pass, read_loop) (rw (got, read_loop) refl)

  pub step_error :
      (fuel : ℕ) (s : State D) (sector num : ℕ) (out : List Sector) (n : ℕ)
      → passed s sector (suc num) out ≡ suc n
      → (DiscInterface.read_sectors io s.disc sector (suc n)).0 ≡ none
      → read_loop io is_dma (suc fuel) s sector (suc num) out
        ≡ (failed, record s { disc = (DiscInterface.read_sectors io s.disc sector (suc n)).1 })
  unfolding read_loop
  step_error fuel s sector num out n some_pass got =
      rw (some_pass, read_loop) (rw (got, read_loop) refl)
