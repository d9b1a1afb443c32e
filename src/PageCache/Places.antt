-- ===== src/PageCache/Places.antt =====
-- source/cache2.c: where _NTFS_cache_getPage places a page, and what it reads of it.
use native.Mathlib.Nat.{div-eq_of_lt-le, lt-div-mul-add, div-mul-le_self}
use libntfs.Prelude.{
  ℕ, ◌+◌, ◌-◌, ◌*◌, ◌/◌, ◌≤◌, ◌<◌, ◌≡◌, refl, ap, arith, some, none, Bool, true, false, length, ltb,
  if◌then◌else◌,
}
use libntfs.PageCache.{CacheEntry, cache_free, clean, last_dirty, free_entry}
use libntfs.PageCache.Pages.{to_read}
use libntfs.PageCache.Invariant.{Within, Outside, Has, IsPlaced}

base_of : (spp q k : ℕ) → q * spp ≤ k → k < q * spp + spp → k / spp * spp ≡ q * spp
base_of spp q k h l = ap (λ n. n * spp) (div-eq_of_lt-le spp h (omega (arith, l, next_base)))
  where
    next_base : (q + 1) * spp ≡ q * spp + spp
    next_base = omega arith

base_le : (spp k : ℕ) → k / spp * spp ≤ k
base_le spp k = div-mul-le_self k spp

base_next : (spp k : ℕ) → 0 < spp → k < k / spp * spp + spp
base_next spp k h = lt-div-mul-add h

-- The size of the page at `base`.
abbrev pub page_count : ℕ → ℕ → ℕ → ℕ
page_count spp end base = if ltb spp (end - base) then spp else end - base

abbrev pub placed_at : ℕ → ℕ → ℕ → CacheEntry → CacheEntry
placed_at spp end sector e = record e {
  sector = sector / spp * spp;
  count = page_count spp end (sector / spp * spp);
}

count_le : (spp rest : ℕ) → (if ltb spp rest then spp else rest) ≤ spp
count_le spp rest = ground arith

count_room : (spp rest j : ℕ) → j < spp → j < rest → j < (if ltb spp rest then spp else rest)
count_room spp rest j h l = ground (arith, h, l)

count_rest : (spp rest j : ℕ) → j < (if ltb spp rest then spp else rest) → j < rest
count_rest spp rest j h = ground (arith, h)

pub placed_at-Has :
    (spp end sector : ℕ) (e : CacheEntry)
    → 0 < spp
    → sector < end
    → Has (placed_at spp end sector e) sector
placed_at-Has spp end sector e h l =
    let base = sector / spp * spp in
    let low = base_le spp sector in
    let high = base_next spp sector h in
    let fits =
      count_room spp (end - base) (sector - base) (omega (arith, low, high))
        (omega (arith, low, l)) in
    (low, omega (arith, low, fits))

pub placed_at-IsPlaced :
    (spp end sector : ℕ) (e : CacheEntry)
    → 0 < spp
    → spp ≤ length e.cache
    → length e.dirty ≡ 64
    → last_dirty e.dirty ≡ 0
    → IsPlaced spp end (placed_at spp end sector e)
placed_at-IsPlaced spp end sector e h size bits none_dirty =
    let base = sector / spp * spp in
    record {
      of_page = λ k (low, high).
          let less = count_rest spp (end - base) (k - base) (omega (arith, low, high)) in
          let small = count_le spp (end - base) in
          (omega (arith, low, less), base_of spp (sector / spp) k low (omega (arith, high, small)));
      whole = λ k below same.
          let low = base_le spp k in
          let high = base_next spp k h in
          let fits =
            count_room spp (end - base) (k - base) (omega (arith, same, high, low))
              (omega (arith, same, below, low)) in
          (omega (arith, same, low), omega (arith, same, low, fits));
      room = count_le spp (end - base);
      buffer = size;
      bits = bits;
      inside = omega (arith, none_dirty);
    }

pub clean-last_dirty_zero : last_dirty clean ≡ 0
unfolding last_dirty
clean-last_dirty_zero = refl

pub free_entry-IsPlaced :
    (spp end : ℕ) (e : CacheEntry)
    → end ≤ cache_free
    → spp ≤ length e.cache
    → IsPlaced spp end (free_entry e)
free_entry-IsPlaced spp end e small size = record {
  of_page = λ k h. absurd (omega (arith, h.0, h.1));
  whole = λ k below same. absurd (omega (arith, below, small, base_le spp k, same));
  room = omega arith;
  buffer = size;
  bits = refl;
  inside = omega (arith, clean-last_dirty_zero);
}

-- What is read: all that is not written.
pub to_read_covers :
    (write : Bool) (at num count sec n j : ℕ)
    → to_read write at num count ≡ some (sec, n)
    → at + num ≤ count
    → j < count
    → Outside (if write then at else 0) (if write then at + num else 0) j
    → Within sec (sec + n) j × (sec + n ≤ count)
unfolding to_read
to_read_covers false at num count sec n j e h l out = ground (arith, e, h, l)
to_read_covers true at num count sec n j e h l out = ground (arith, e, h, l, out)

-- Nothing is read only if all is written.
pub to_read_nothing :
    (write : Bool) (at num count j : ℕ)
    → to_read write at num count ≡ none
    → at + num ≤ count
    → j < count
    → ¬ Outside (if write then at else 0) (if write then at + num else 0) j
unfolding to_read
to_read_nothing false at num count j e h l out = absurd (cc)
to_read_nothing true at num count j e h l out = ground (arith, e, h, l, out)
