-- ===== src/Runlist/Bytes/Counting.antt =====
-- source/runlist.c: how many bytes ntfs_get_nr_significant_bytes counts, step by step.
use libntfs.Prelude.{ℕ, zero, suc, ◌+◌, ◌-◌, ◌/◌, ◌%◌, ◌^◌, ◌≤◌, ◌<◌, ◌≡◌, refl, arith}
use libntfs.Prelude.{true, false, leb→le, ap, sym, ◌∙◌, leb, if◌then◌else◌}
use libntfs.Prelude.Word.{IsS64, add64, asr8, is_neg, sext8, shl64}
use libntfs.Runlist.Bytes.{needs_more, count_bytes, get_nr_significant_bytes}

-- The magnitude whose bytes ntfs_get_nr_significant_bytes counts.
abbrev pub magnitude : ℕ → ℕ
magnitude n = if is_neg n then 2 ^ 64 - 1 - n else n

pub count_bytes_start : (f i l : ℕ) → count_bytes f (i + 1) l ≡ count_bytes f i l + 1
unfolding count_bytes
count_bytes_start zero i l = refl
count_bytes_start (suc f) i l = ground (arith, count_bytes_start f (i + 1) (l / 256))

pub count_bytes_fuel :
    (f i l : ℕ) → l < 256 ^ suc f → count_bytes (suc (suc f)) i l ≡ count_bytes (suc f) i l
unfolding count_bytes
count_bytes_fuel zero i l h = ground arith
count_bytes_fuel (suc f) i l h = ground (arith, count_bytes_fuel f (i + 1) (l / 256))

pub count_bytes-le : (k f i l : ℕ) → l < 256 ^ suc k → count_bytes f i l ≤ i + suc k
unfolding count_bytes
count_bytes-le k zero i l h = omega arith
count_bytes-le zero (suc f) i l h = ground arith
count_bytes-le (suc k) (suc f) i l h = ground (arith, count_bytes-le k f (i + 1) (l / 256))

pub le-count_bytes : (f i l : ℕ) → i ≤ count_bytes f i l
unfolding count_bytes
le-count_bytes zero i l = omega arith
le-count_bytes (suc f) i l = ground (arith, le-count_bytes f (i + 1) (l / 256))

pub get_nr_significant_bytes_bounds :
    (n : ℕ) → IsS64 n → (1 ≤ get_nr_significant_bytes n) × (get_nr_significant_bytes n ≤ 8)
unfolding get_nr_significant_bytes
get_nr_significant_bytes_bounds n h =
    ground
      (arith, le-count_bytes 8 1 (magnitude n / 2 ^ 7), count_bytes-le 6 8 1 (magnitude n / 2 ^ 7))

abbrev pub nr_of : ℕ → ℕ
nr_of u = if leb 128 u then count_bytes 8 1 (u / 2 ^ 7) else 1

pub nr_of_step : (u : ℕ) → u < 2 ^ 63 → 128 ≤ u → nr_of u ≡ 1 + nr_of (u / 256)
unfolding count_bytes
nr_of_step u h k =
    ground (arith, count_bytes_start 7 1 (u / 128 / 256), count_bytes_fuel 6 1 (u / 128 / 256))

pub magnitude-asr8 :
    (n : ℕ) → IsS64 n → (magnitude (asr8 n) ≡ magnitude n / 256) × (magnitude n < 2 ^ 63)
magnitude-asr8 n h = ground arith

pub needs_more-magnitude : (n : ℕ) → IsS64 n → needs_more n ≡ leb 128 (magnitude n)
unfolding needs_more
needs_more-magnitude n h = ground arith

pub nr_as_magnitude : (n : ℕ) → get_nr_significant_bytes n ≡ nr_of (magnitude n)
unfolding get_nr_significant_bytes
nr_as_magnitude n = refl

pub nr_step :
    (n : ℕ)
    → IsS64 n
    → needs_more n ≡ true
    → get_nr_significant_bytes n ≡ 1 + get_nr_significant_bytes (asr8 n)
nr_step n h more =
    nr_as_magnitude n
    ∙ nr_of_step (magnitude n) (magnitude-asr8 n h).1
        (leb→le _ _ (sym (needs_more-magnitude n h) ∙ more))
    ∙ ap (λ u. 1 + nr_of u) (sym (magnitude-asr8 n h).0)
    ∙ ap (λ u. 1 + u) (sym (nr_as_magnitude (asr8 n)))

pub nr_last : (n : ℕ) → IsS64 n → needs_more n ≡ false → get_nr_significant_bytes n ≡ 1
nr_last n h last = ground (arith, nr_as_magnitude n, needs_more-magnitude n h)

pub asr8-IsS64 : (n : ℕ) → IsS64 n → IsS64 (asr8 n)
asr8-IsS64 n h = ground arith

-- One step of the value.
pub value_last : (n : ℕ) → IsS64 n → needs_more n ≡ false → sext8 (n % 256) ≡ n
unfolding needs_more
value_last n h last = ground arith

pub value_step : (n : ℕ) → IsS64 n → add64 (shl64 (asr8 n) 8) (n % 256) ≡ n
value_step n h = ground arith
