-- ===== src/PageCache/Masks.antt =====
-- source/cache2.c: the mask of the dirty sectors of a page, and the copying into its buffer.
use libntfs.Prelude.{
  ℕ, zero, suc, ◌+◌, ◌-◌, ◌≤◌, ◌<◌, ◌≡◌, refl, ◌∙◌, ap, arith, List, [], ◌∷◌, Bool, true, false,
  length, get_elem?, ◌==◌, if◌then◌else◌,
}
use libntfs.PageCache.{is_dirty, first_dirty, last_dirty, mark, overwrite}

pub length-mark : (bits : List Bool) (sec n : ℕ) → length (mark bits sec n) ≡ length bits
unfolding mark
length-mark [] sec n = refl
length-mark (b ∷ bits) zero zero = refl
length-mark (b ∷ bits) zero (suc n) = ap suc (length-mark bits zero n)
length-mark (b ∷ bits) (suc sec) n = ap suc (length-mark bits sec n)

last_dirty-cons :
    (b : Bool) (bits : List Bool)
    → last_dirty (b ∷ bits)
      ≡ (if last_dirty bits == 0 then (if b then 1 else 0) else suc (last_dirty bits))
unfolding last_dirty
last_dirty-cons b bits = refl

last_dirty_bound :
    (b c : Bool) (bits cs : List Bool)
    → last_dirty bits ≤ last_dirty cs
    → (b ≡ true → c ≡ true)
    → last_dirty (b ∷ bits) ≤ last_dirty (c ∷ cs)
last_dirty_bound true true bits cs h k =
    ground (arith, h, last_dirty-cons true bits, last_dirty-cons true cs)
last_dirty_bound true false bits cs h k = let wrong = k refl in absurd (cc)
last_dirty_bound false c bits cs h k =
    ground (arith, h, last_dirty-cons false bits, last_dirty-cons c cs)

-- Marking loses no mark.
pub last_dirty-mark :
    (bits : List Bool) (sec n : ℕ) → last_dirty bits ≤ last_dirty (mark bits sec n)
unfolding mark
last_dirty-mark [] sec n = omega arith
last_dirty-mark (b ∷ bits) zero zero = omega arith
last_dirty-mark (b ∷ bits) zero (suc n) =
    last_dirty_bound b true bits (mark bits zero n) (last_dirty-mark bits zero n) (λ e. refl)
last_dirty-mark (b ∷ bits) (suc sec) n =
    last_dirty_bound b b bits (mark bits sec n) (last_dirty-mark bits sec n) (λ e. e)

pub first_dirty-mark :
    (bits : List Bool) (sec n : ℕ) → first_dirty (mark bits sec n) ≤ first_dirty bits
unfolding mark
first_dirty-mark [] sec n = omega arith
first_dirty-mark (b ∷ bits) zero zero = omega arith
first_dirty-mark (b ∷ bits) zero (suc n) = omega arith
first_dirty-mark (true ∷ bits) (suc sec) n = omega arith
first_dirty-mark (false ∷ bits) (suc sec) n = omega (arith, first_dirty-mark bits sec n)

-- Every sector that is marked lies between the first dirty one and the last.
pub mark-first_dirty :
    (bits : List Bool) (sec n : ℕ) → 0 < n → sec < length bits → first_dirty (mark bits sec n) ≤ sec
unfolding mark
mark-first_dirty [] sec n h k = absurd (omega (arith, k))
mark-first_dirty (b ∷ bits) zero zero h k = absurd (omega (arith, h))
mark-first_dirty (b ∷ bits) zero (suc n) h k = omega arith
mark-first_dirty (true ∷ bits) (suc sec) n h k = omega arith
mark-first_dirty (false ∷ bits) (suc sec) n h k =
    omega (arith, mark-first_dirty bits sec n h (omega (arith, k)))

pub mark-last_dirty :
    (bits : List Bool) (sec n : ℕ)
    → 0 < n
    → sec + n ≤ length bits
    → sec + n ≤ last_dirty (mark bits sec n)
unfolding mark
mark-last_dirty [] sec n h k = absurd (omega (arith, h, k))
mark-last_dirty (b ∷ bits) zero zero h k = absurd (omega (arith, h))
mark-last_dirty (b ∷ bits) zero (suc zero) h k =
    ground (arith, last_dirty-cons true (mark bits zero zero))
mark-last_dirty (b ∷ bits) zero (suc (suc n)) h k = ground (
  arith,
  last_dirty-cons true (mark bits zero (suc n)),
  mark-last_dirty bits zero (suc n) (omega arith) (omega (arith, k)),
)
mark-last_dirty (b ∷ bits) (suc sec) n h k =
    ground (
      arith,
      h,
      last_dirty-cons b (mark bits sec n),
      mark-last_dirty bits sec n h (omega (arith, k)),
    )

-- No mark lies behind those that are set and those that were.
pub last_dirty-mark_le :
    (bits : List Bool) (sec n count : ℕ)
    → last_dirty bits ≤ count
    → sec + n ≤ count
    → last_dirty (mark bits sec n) ≤ count
unfolding mark
last_dirty-mark_le [] sec n count h k = h
last_dirty-mark_le (b ∷ bits) zero zero count h k = h
last_dirty-mark_le (b ∷ bits) zero (suc n) count h k = ground (
  arith,
  h,
  k,
  last_dirty-cons b bits,
  last_dirty-cons true (mark bits zero n),
  last_dirty-mark_le bits zero n (count - 1) (ground (arith, h, last_dirty-cons b bits))
      (omega (arith, k)),
)
last_dirty-mark_le (true ∷ bits) (suc sec) n count h k = ground (
  arith,
  h,
  k,
  last_dirty-cons true bits,
  last_dirty-cons true (mark bits sec n),
  last_dirty-mark_le bits sec n (count - 1) (ground (arith, h, last_dirty-cons true bits))
      (omega (arith, k)),
)
last_dirty-mark_le (false ∷ bits) (suc sec) n count h k = ground (
  arith,
  h,
  k,
  last_dirty-cons false bits,
  last_dirty-cons false (mark bits sec n),
  last_dirty-mark_le bits sec n (count - 1) (ground (arith, h, last_dirty-cons false bits))
      (omega (arith, k)),
)

last_dirty-nil : last_dirty [] ≡ 0
unfolding last_dirty
last_dirty-nil = refl

pub clean-last_dirty : (bits : List Bool) → is_dirty bits ≡ false → last_dirty bits ≡ 0
clean-last_dirty [] h = last_dirty-nil
clean-last_dirty (true ∷ bits) h = absurd (cc)
clean-last_dirty (false ∷ bits) h =
    ground (arith, last_dirty-cons false bits, clean-last_dirty bits h)

shift : (j : ℕ) → suc (j - 0) ≡ suc j - 0
shift j = omega arith

module _ {ℓ} {A : Type ℓ} where
  pub length-overwrite :
      (xs : List A) (at : ℕ) (ys : List A) → length (overwrite xs at ys) ≡ length xs
  unfolding overwrite
  length-overwrite [] at ys = refl
  length-overwrite (x ∷ xs) zero [] = refl
  length-overwrite (x ∷ xs) zero (y ∷ ys) = ap suc (length-overwrite xs zero ys)
  length-overwrite (x ∷ xs) (suc at) ys = ap suc (length-overwrite xs at ys)

  pub overwrite_before :
      (xs : List A) (at : ℕ) (ys : List A) (j : ℕ)
      → j < at
      → get_elem? (overwrite xs at ys) j ≡ get_elem? xs j
  unfolding overwrite
  overwrite_before [] at ys j h = refl
  overwrite_before (x ∷ xs) zero ys j h = absurd (omega (arith, h))
  overwrite_before (x ∷ xs) (suc at) ys zero h = refl
  overwrite_before (x ∷ xs) (suc at) ys (suc j) h = overwrite_before xs at ys j (omega (arith, h))

  pub overwrite_behind :
      (xs : List A) (at : ℕ) (ys : List A) (j : ℕ)
      → at + length ys ≤ j
      → get_elem? (overwrite xs at ys) j ≡ get_elem? xs j
  unfolding overwrite
  overwrite_behind [] at ys j h = refl
  overwrite_behind (x ∷ xs) zero [] j h = refl
  overwrite_behind (x ∷ xs) zero (y ∷ ys) zero h = absurd (omega (arith, h))
  overwrite_behind (x ∷ xs) zero (y ∷ ys) (suc j) h =
      overwrite_behind xs zero ys j (omega (arith, h))
  overwrite_behind (x ∷ xs) (suc at) ys zero h = absurd (omega (arith, h))
  overwrite_behind (x ∷ xs) (suc at) ys (suc j) h = overwrite_behind xs at ys j (omega (arith, h))

  pub overwrite_within :
      (xs : List A) (at : ℕ) (ys : List A) (j : ℕ)
      → at ≤ j
      → j < at + length ys
      → j < length xs
      → get_elem? (overwrite xs at ys) j ≡ get_elem? ys (j - at)
  unfolding overwrite
  overwrite_within [] at ys j h k l = absurd (omega (arith, l))
  overwrite_within (x ∷ xs) zero [] j h k l = absurd (omega (arith, k))
  overwrite_within (x ∷ xs) zero (y ∷ ys) zero h k l = refl
  overwrite_within (x ∷ xs) zero (y ∷ ys) (suc j) h k l =
      overwrite_within xs zero ys j (omega arith) (omega (arith, k)) (omega (arith, l))
      ∙ ap (λ i. get_elem? (y ∷ ys) i) (shift j)
  overwrite_within (x ∷ xs) (suc at) ys zero h k l = absurd (omega (arith, h))
  overwrite_within (x ∷ xs) (suc at) ys (suc j) h k l =
      overwrite_within xs at ys j (omega (arith, h)) (omega (arith, k)) (omega (arith, l))
      ∙ ap (λ i. get_elem? ys i) (omega arith)
