-- ===== src/PageCache/Scans.antt =====
-- source/cache2.c: what the loops of _NTFS_cache_getPage and _NTFS_cache_findPage find.
use libntfs.Prelude.{
  ℕ, suc, ◌+◌, ◌-◌, ◌≤◌, ◌<◌, subst, ◌≡◌, inl, inr, refl, sym, ◌∙◌, ap, arith, List, [], ◌∷◌, some,
  none, Bool, true, false, not, ◌&&◌, ◌||◌, Bool-cases, length, get_elem?, some_inj, eq_of_test,
  and_true, ltb, leb, ◌==◌, if◌then◌else◌,
}
use libntfs.PageCache.{CacheEntry, cache_free, uint_max}
use libntfs.PageCache.Pages.{contains, Scan, hit, miss, scan}
use libntfs.PageCache.Invariant.{Has}

contains-Has : (e : CacheEntry) (sector : ℕ) → contains e sector ≡ true → Has e sector
contains-Has e sector h =
    let (low, high) = and_true (leb e.sector sector) (ltb sector (e.sector + e.count)) h in
    (ground (arith, low), ground (arith, high))

contains_not : (e : CacheEntry) (sector : ℕ) → contains e sector ≡ false → ¬ Has e sector
contains_not e sector h (low, high) = ground (arith, h, low, high)

-- No page has the sector.
abbrev pub HasNone : List CacheEntry → ℕ → Type 0
HasNone entries k = (j : ℕ) (e : CacheEntry) → get_elem? entries j ≡ some e → ¬ Has e k

-- What the result of the loop says of the pages.
abbrev pub Scanned : List CacheEntry → ℕ → Scan → Type 0
Scanned entries sector (hit i) = (e : CacheEntry) × (get_elem? entries i ≡ some e) × Has e sector
Scanned entries sector (miss found_free i) =
    (e : CacheEntry) × (get_elem? entries i ≡ some e)
    × (found_free ≡ true → e.sector ≡ cache_free)
    × HasNone entries sector

-- The page to replace, as far as the loop has come.
abbrev Victim : List CacheEntry → Bool → ℕ → Type 0
Victim entries found_free i =
    (e : CacheEntry) × (get_elem? entries i ≡ some e) × (found_free ≡ true → e.sector ≡ cache_free)

scan_hit :
    (sector : ℕ) (e : CacheEntry) (entries : List CacheEntry) (i : ℕ) (found_free : Bool)
    (old_used old_access : ℕ)
    → contains e sector ≡ true
    → scan sector (e ∷ entries) i found_free old_used old_access ≡ hit i
unfolding scan
scan_hit sector e entries i found_free old_used old_access h = rw (h, scan) refl

abbrev better : CacheEntry → Bool → ℕ → Bool
better e found_free old_access =
    not found_free && ((e.sector == cache_free) || ltb e.last_access old_access)

scan_next :
    (sector : ℕ) (e : CacheEntry) (entries : List CacheEntry) (i : ℕ) (found_free : Bool)
    (old_used old_access : ℕ)
    → contains e sector ≡ false
    → scan sector (e ∷ entries) i found_free old_used old_access
      ≡ scan sector entries
          (suc i)
          (if better e found_free old_access then e.sector == cache_free else found_free)
          (if better e found_free old_access then i else old_used)
          (if better e found_free old_access then e.last_access else old_access)
unfolding scan
scan_next sector e entries i found_free old_used old_access h = rw (h, scan) refl

Victim-next :
    (all : List CacheEntry) (b : Bool) (e : CacheEntry) (i : ℕ) (found_free : Bool) (old_used : ℕ)
    → get_elem? all i ≡ some e
    → Victim all found_free old_used
    → Victim all (if b then e.sector == cache_free else found_free) (if b then i else old_used)
Victim-next all true e i found_free old_used h v =
    (e, h, λ free. eq_of_test e.sector cache_free free)
Victim-next all false e i found_free old_used h v = v

module _ (all : List CacheEntry) (sector : ℕ) where
  none_left :
      (i : ℕ)
      → ((j : ℕ) → get_elem? all (i + j) ≡ none)
      → ((j : ℕ) (e : CacheEntry) → j < i → get_elem? all j ≡ some e → ¬ Has e sector)
      → HasNone all sector
  none_left i end before j e h = elim (Bool-cases (ltb j i)) [
    | inl l ↦ before j e (ground (arith, l)) h
    | inr l ↦
        let at = end (j - i) in
        let same = ap (λ n. get_elem? all n) (back i j (ground (arith, l))) in
        let wrong : some e ≡ none = sym h ∙ same ∙ at in absurd (cc)
  ]
    where
      back : (i j : ℕ) → i ≤ j → j ≡ i + (j - i)
      back i j h = omega (arith, h)

  scan_from :
      (entries : List CacheEntry) (i : ℕ) (found_free : Bool) (old_used old_access : ℕ)
      → ((j : ℕ) → get_elem? all (i + j) ≡ get_elem? entries j)
      → ((j : ℕ) (e : CacheEntry) → j < i → get_elem? all j ≡ some e → ¬ Has e sector)
      → Victim all found_free old_used
      → Scanned all sector (scan sector entries i found_free old_used old_access)
  unfolding scan
  scan_from [] i found_free old_used old_access same before (e, at, free) =
      (e, at, free, none_left i same before)
  scan_from (e ∷ entries) i found_free old_used old_access same before victim =
      let here : get_elem? all i ≡ some e = ap (λ n. get_elem? all n) (omega arith) ∙ same 0 in
      elim (Bool-cases (contains e sector)) [
        | inl h ↦
            subst (Scanned all sector)
              (sym (scan_hit sector e entries i found_free old_used old_access h))
              (e, here, contains-Has e sector h)
        | inr h ↦
            subst (Scanned all sector)
              (sym (scan_next sector e entries i found_free old_used old_access h))
              (scan_from entries (suc i) _ _ _
                (λ j. ap (λ n. get_elem? all n) (suc_add i j) ∙ same (suc j))
                (λ j a below at. elim (Bool-cases (j == i)) [
                  | inl eq ↦
                      subst (λ x. ¬ Has x sector)
                        (some_inj e a
                          (sym here ∙ ap (λ n. get_elem? all n) (sym (eq_of_test j i eq)) ∙ at))
                        (contains_not e sector h)
                  | inr ne ↦ before j a (ground (arith, below, ne)) at
                ])
                (Victim-next all (better e found_free old_access) e i found_free old_used here
                  victim))
      ]
    where
      suc_add : (i j : ℕ) → suc i + j ≡ i + suc j
      suc_add i j = omega arith

pub scan-Scanned :
    (entries : List CacheEntry) (sector : ℕ)
    → 0 < length entries
    → Scanned entries sector (scan sector entries 0 false 0 uint_max)
scan-Scanned [] sector h = absurd (omega (arith, h))
scan-Scanned (e ∷ entries) sector h =
    scan_from (e ∷ entries) sector (e ∷ entries) 0 false 0 uint_max
      (λ j. ap (λ n. get_elem? (e ∷ entries) n) (omega arith))
      (λ j a below. absurd (omega (arith, below))) (e, refl, λ wrong. absurd (cc))
