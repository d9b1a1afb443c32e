-- ===== src/PageCache/Direct.antt =====
-- source/cache2.c: the sectors that a call transfers past the cache are in no page.
use libntfs.Prelude.{
  ℕ, zero, suc, ◌+◌, ◌-◌, ◌*◌, ◌/◌, ◌%◌, ◌≤◌, ◌<◌, subst, ◌≡◌, inl, inr, refl, sym, arith, List, [],
  ◌∷◌, Option, some, none, Bool, true, false, not, ◌&&◌, Bool-cases, get_elem?, some_inj, ltb, ◌==◌,
  if◌then◌else◌,
}
use libntfs.PageCache.{CacheEntry, Cache, cache_free}
use libntfs.PageCache.Pages.{find_loop, find_page}
use libntfs.PageCache.Calls.{direct_sectors}
use libntfs.PageCache.Invariant.{Within, Has}
use libntfs.PageCache.Scans.{HasNone}

-- The sector of the page found so far.
abbrev lowest_of : Option CacheEntry → ℕ
lowest_of none = cache_free
lowest_of (some e) = e.sector

-- The page found so far starts in the range, or before it.
abbrev StartsBefore : ℕ → Option CacheEntry → Type 0
StartsBefore to none = Unit
StartsBefore to (some e) = e.sector < to

abbrev meets : CacheEntry → ℕ → ℕ → Bool
meets e sector count =
    if ltb e.sector sector then ltb (sector - e.sector) e.count else ltb (e.sector - sector) count

abbrev better : CacheEntry → ℕ → ℕ → ℕ → Bool
better e sector count lowest =
    not (e.sector == cache_free) && meets e sector count && ltb e.sector lowest

Has-meets :
    (e : CacheEntry) (sector count k : ℕ)
    → Has e k
    → Within sector (sector + count) k
    → meets e sector count ≡ true
Has-meets e sector count k (h1, h2) (h3, h4) = ground (arith, h1, h2, h3, h4)

better-lowest :
    (e : CacheEntry) (sector count lowest : ℕ)
    → better e sector count lowest ≡ false
    → meets e sector count ≡ true
    → e.sector < cache_free
    → lowest ≤ e.sector
better-lowest e sector count lowest h m l = elim (Bool-cases (ltb e.sector lowest)) [
  | inr less ↦ ground (arith, less)
  | inl less ↦
      let real : (e.sector == cache_free) ≡ false = ground (arith, l) in
      absurd (true_false (e.sector == cache_free) _ _ real m less h)
]
  where
    true_false : (a b c : Bool) → a ≡ false → b ≡ true → c ≡ true → (not a && b && c) ≡ false → ⊥
    true_false true b c p q r s = absurd (cc)
    true_false false false c p q r s = absurd (cc)
    true_false false true false p q r s = absurd (cc)
    true_false false true true p q r s = absurd (cc)

better-less :
    (e : CacheEntry) (sector count lowest : ℕ)
    → better e sector count lowest ≡ true
    → e.sector < lowest
better-less e sector count lowest h = ground (arith, h)

better-StartsBefore :
    (e : CacheEntry) (sector count lowest : ℕ)
    → 0 < count
    → better e sector count lowest ≡ true
    → e.sector < sector + count
better-StartsBefore e sector count lowest pos h = ground (arith, h, pos)

module _ (sector count : ℕ) where
  -- What the loop finds: a page that starts before every page that has a sector of the range.
  record Finds (entries : List CacheEntry) (lowest : ℕ) (found : Option CacheEntry) : Type 0 where
    no_higher : lowest_of found ≤ lowest
    lower :
        (j : ℕ) (e : CacheEntry) (k : ℕ)
        → get_elem? entries j ≡ some e
        → Has e k
        → k < cache_free
        → Within sector (sector + count) k
        → lowest_of found ≤ e.sector
    starts : StartsBefore (sector + count) found

  lower_cons :
      (e : CacheEntry) (entries : List CacheEntry) (found : Option CacheEntry)
      → ((k : ℕ)
          → Has e k
          → k < cache_free
          → Within sector (sector + count) k
          → lowest_of found ≤ e.sector)
      → ((j : ℕ) (a : CacheEntry) (k : ℕ)
          → get_elem? entries j ≡ some a
          → Has a k
          → k < cache_free
          → Within sector (sector + count) k
          → lowest_of found ≤ a.sector)
      → (j : ℕ) (a : CacheEntry) (k : ℕ) → get_elem? (e ∷ entries) j ≡ some a
      → Has a k
      → k < cache_free
      → Within sector (sector + count) k
      → lowest_of found ≤ a.sector
  lower_cons e entries found head tail zero a k at has below range =
      let same = some_inj e a at in
      subst (λ x. lowest_of found ≤ x.sector) same
        (head k (subst (λ x. Has x k) (sym same) has) below range)
  lower_cons e entries found head tail (suc j) a k at has below range =
      tail j a k at has below range

  find_more :
      (e : CacheEntry) (entries : List CacheEntry) (lowest : ℕ) (found : Option CacheEntry)
      (b : Bool)
      → better e sector count lowest ≡ b
      → Finds entries (if b then e.sector else lowest) found
      → Finds (e ∷ entries) lowest found
  find_more e entries lowest found true h rest = record {
    no_higher = omega (arith, rest.no_higher, better-less e sector count lowest h);
    lower = lower_cons e entries found (λ k has below range. rest.no_higher) rest.lower;
    starts = rest.starts;
  }
  find_more e entries lowest found false h rest = record {
    no_higher = rest.no_higher;
    lower =
        lower_cons e entries found
          (λ k has below range. omega (
            arith,
            rest.no_higher,
            better-lowest e sector count lowest h (Has-meets e sector count k has range)
                (omega (arith, has.0, below)),
          ))
          rest.lower;
    starts = rest.starts;
  }

  starts_next :
      (e : CacheEntry) (entry : Option CacheEntry) (lowest : ℕ) (b : Bool)
      → better e sector count lowest ≡ b
      → 0 < count
      → StartsBefore (sector + count) entry
      → StartsBefore (sector + count) (if b then some e else entry)
  starts_next e entry lowest true h pos s = better-StartsBefore e sector count lowest pos h
  starts_next e entry lowest false h pos s = s

  lowest_next :
      (e : CacheEntry) (entry : Option CacheEntry) (lowest : ℕ) (b : Bool)
      → lowest ≡ lowest_of entry
      → (if b then e.sector else lowest) ≡ lowest_of (if b then some e else entry)
  lowest_next e entry lowest true h = refl
  lowest_next e entry lowest false h = h

  find_loop-Finds :
      (entries : List CacheEntry) (entry : Option CacheEntry) (lowest : ℕ)
      → 0 < count
      → lowest ≡ lowest_of entry
      → StartsBefore (sector + count) entry
      → Finds entries lowest (find_loop entries sector count entry lowest)
  unfolding find_loop
  find_loop-Finds [] entry lowest pos same starts = record {
    no_higher = omega (arith, same);
    lower = λ j a k at has below range. absurd (cc);
    starts = starts;
  }
  find_loop-Finds (e ∷ entries) entry lowest pos same starts =
      find_more e entries lowest _ (better e sector count lowest) refl (
        find_loop-Finds entries (if better e sector count lowest then some e else entry)
          (if better e sector count lowest then e.sector else lowest) pos
          (lowest_next e entry lowest (better e sector count lowest) same)
          (starts_next e entry lowest (better e sector count lowest) refl pos starts))

  find_page-Finds : (c : Cache) → 0 < count → Finds c.entries cache_free (find_page c sector count)
  unfolding find_page
  find_page-Finds c pos = find_loop-Finds c.entries none cache_free pos refl tt

-- So many sectors of the call, and none of them in a page.
pub record PassesBy (c : Cache) (sector count n : ℕ) : Type 0 where
  pub not_more : n ≤ count
  pub uncached : (k : ℕ) → Within sector (sector + n) k → k < cache_free → HasNone c.entries k

nothing_passes : (c : Cache) (sector count : ℕ) → PassesBy c sector count 0
nothing_passes c sector count = record {
  not_more = omega arith;
  uncached = λ k h below. absurd (omega (arith, h.0, h.1));
}

abbrev direct_of : Cache → ℕ → ℕ → Option CacheEntry → ℕ
direct_of c sector count none = count / c.sectors_per_page * c.sectors_per_page
direct_of c sector count (some e) = if ltb sector e.sector then e.sector - sector else 0

direct_sectors_lem :
    (is_dma : Bool) (c : Cache) (sector count : ℕ)
    → direct_sectors is_dma c sector count ≡ (
        if is_dma && (sector % c.sectors_per_page == 0)
        then direct_of c sector count (find_page c sector count)
        else 0)
unfolding direct_sectors
direct_sectors_lem is_dma c sector count = elim (find_page c sector count) [
  | none ↦ refl
  | some e ↦ refl
]

direct_of-PassesBy :
    (c : Cache) (sector count : ℕ) (found : Option CacheEntry)
    → Finds sector count c.entries cache_free found
    → PassesBy c sector count (direct_of c sector count found)
direct_of-PassesBy c sector count none finds = record {
  not_more = omega arith;
  uncached = λ k h below j a at has.
      omega (arith, has.0, below, finds.lower j a k at has below (h.0, omega (arith, h.1)));
}
direct_of-PassesBy c sector count (some e) finds = elim (Bool-cases (ltb sector e.sector)) [
  | inr h ↦ rw h (nothing_passes c sector count)
  | inl h ↦ rw h (record {
    not_more = ground (arith, h, finds.starts);
    uncached = λ k l below j a at has.
        let high : sector < e.sector = ground (arith, h) in
        omega (
          arith,
          has.0,
          l.1,
          high,
          finds.lower j a k at has below (l.0, omega (arith, l.1, high, finds.starts)),
        );
  })
]

pub direct_sectors-PassesBy :
    (is_dma : Bool) (c : Cache) (sector count : ℕ)
    → 0 < count
    → PassesBy c sector count (direct_sectors is_dma c sector count)
direct_sectors-PassesBy is_dma c sector count pos =
    subst (PassesBy c sector count) (sym (direct_sectors_lem is_dma c sector count))
      (by_test (is_dma && (sector % c.sectors_per_page == 0)))
  where
    by_test :
        (b : Bool)
        → PassesBy c sector count
            (if b then direct_of c sector count (find_page c sector count) else 0)
    by_test true =
        direct_of-PassesBy c sector count (find_page c sector count)
          (find_page-Finds sector count c pos)
    by_test false = nothing_passes c sector count
