-- ===== src/PageCache/Arrays.antt =====
-- source/cache2.c: the array of sectors that a cache stands for; its specification.
use native.Mathlib.Nat.{add-zero, zero-add, suc-add}
use libntfs.Prelude.{
  ℕ, zero, suc, ◌+◌, ◌-◌, ◌≤◌, ◌<◌, fun_ext, ◌≡◌, inl, inr, refl, sym, ◌∙◌, ap, arith, List, [],
  ◌∷◌, ◌++◌, some, true, false, Bool-cases, length, get_elem?, get_or, some_inj, take, drop,
  get_elem?-take, get_elem?-drop, get_elem?-in_range, length-take, length-drop, ltb, if◌then◌else◌,
}
use libntfs.PageCache.{Sector}
use libntfs.PageCache.Invariant.{Outside}
use libntfs.PageCache.Replaced.{Within-cases}

-- The sectors of the array from one on.
unfoldable pub slice : (ℕ → Sector) → ℕ → ℕ → List Sector
slice f sector zero = []
slice f sector (suc n) = f sector ∷ slice f (suc sector) n

-- The array with the buffer stored at a sector.
unfoldable pub put : (ℕ → Sector) → ℕ → List Sector → ℕ → Sector
put f sector buffer k = if ltb k sector then f k else get_or buffer (k - sector) (f k)

suc_add : (n m : ℕ) → suc n + m ≡ n + suc m
suc_add n m = omega arith

pub slice-append :
    (f : ℕ → Sector) (sector n m : ℕ)
    → slice f sector n ++ slice f (sector + n) m ≡ slice f sector (n + m)
unfolding slice
slice-append f sector zero m =
    ap (λ s. slice f s m) (add-zero sector) ∙ ap (λ k. slice f sector k) (sym (zero-add m))
slice-append f sector (suc n) m =
    ap (λ xs. f sector ∷ xs)
      (ap (λ s. slice f (suc sector) n ++ slice f s m) (sym (suc_add sector n))
        ∙ slice-append f (suc sector) n m)
    ∙ ap (λ k. slice f sector k) (sym (suc-add n m))

-- A list of which every element is the array's.
pub slice_of :
    (f : ℕ → Sector) (sector n : ℕ) (xs : List Sector)
    → length xs ≡ n
    → ((j : ℕ) → j < n → get_elem? xs j ≡ some (f (sector + j)))
    → xs ≡ slice f sector n
unfolding slice
slice_of f sector zero [] len h = refl
slice_of f sector (suc n) [] len h = absurd (omega (arith, len))
slice_of f sector zero (x ∷ xs) len h = absurd (omega (arith, len))
slice_of f sector (suc n) (x ∷ xs) len h =
    let head : x ≡ f sector =
      some_inj x (f sector) (h 0 (omega arith) ∙ ap (λ k. some (f k)) (omega arith)) in
    let tail =
      slice_of f (suc sector) n xs (omega (arith, len)) (λ j less.
        h (suc j) (omega (arith, less)) ∙ ap (λ k. some (f k)) (sym (suc_add sector j))) in
    ap (λ y. y ∷ xs) head ∙ ap (λ ys. f sector ∷ ys) tail

get_or_out : (xs : List Sector) (j : ℕ) (d : Sector) → length xs ≤ j → get_or xs j d ≡ d
get_or_out [] j d h = refl
get_or_out (x ∷ xs) zero d h = absurd (omega (arith, h))
get_or_out (x ∷ xs) (suc j) d h = get_or_out xs j d (omega (arith, h))

get_or_in : (xs : List Sector) (j : ℕ) (d x : Sector) → get_elem? xs j ≡ some x → get_or xs j d ≡ x
get_or_in [] j d x h = absurd (cc)
get_or_in (y ∷ xs) zero d x h = some_inj y x h
get_or_in (y ∷ xs) (suc j) d x h = get_or_in xs j d x h

pub put-Outside :
    (f : ℕ → Sector) (sector : ℕ) (buffer : List Sector) (k : ℕ)
    → Outside sector (sector + length buffer) k
    → put f sector buffer k ≡ f k
unfolding put
put-Outside f sector buffer k (inl h) =
    let low : ltb k sector ≡ true = ground (arith, h) in rw (low, put) refl
put-Outside f sector buffer k (inr h) =
    let high : ltb k sector ≡ false = ground (arith, h) in
    rw (high, put) (get_or_out buffer (k - sector) (f k) (omega (arith, h)))

pub put-Within :
    (f : ℕ → Sector) (sector : ℕ) (buffer : List Sector) (k : ℕ) (x : Sector)
    → sector ≤ k
    → get_elem? buffer (k - sector) ≡ some x
    → put f sector buffer k ≡ x
unfolding put
put-Within f sector buffer k x h at =
    let high : ltb k sector ≡ false = ground (arith, h) in
    rw (high, put) (get_or_in buffer (k - sector) (f k) x at)

back : (sector n k : ℕ) → sector + n ≤ k → n + (k - (sector + n)) ≡ k - sector
back sector n k h = omega (arith, h)

-- Storing a buffer in two pieces.
pub put-take-drop :
    (f : ℕ → Sector) (sector n : ℕ) (buffer : List Sector)
    → n ≤ length buffer
    → put (put f sector (take n buffer)) (sector + n) (drop n buffer) ≡ put f sector buffer
put-take-drop f sector n buffer h = fun_ext (λ k. at k)
  where
    taken : length (take n buffer) ≡ n
    taken = omega (arith, length-take n buffer, h)

    dropped : length (drop n buffer) ≡ length buffer - n
    dropped = omega (arith, length-drop n buffer)

    at :
        (k : ℕ)
        → put (put f sector (take n buffer)) (sector + n) (drop n buffer) k ≡ put f sector buffer k
    at k = elim (Within-cases sector (sector + length buffer) k) [
      | inr out ↦
          put-Outside (put f sector (take n buffer)) (sector + n) (drop n buffer) k
            (ground (arith, out, h, dropped))
          ∙ put-Outside f sector (take n buffer) k (ground (arith, out, h, taken))
          ∙ sym (put-Outside f sector buffer k out)
      | inl (low, high) ↦
          let (x, has) = get_elem?-in_range buffer (k - sector) (omega (arith, low, high)) in
          elim (Bool-cases (ltb k (sector + n))) [
            | inl less ↦
                put-Outside (put f sector (take n buffer)) (sector + n) (drop n buffer) k
                  (inl (ground (arith, less)))
                ∙ put-Within f sector (take n buffer) k x low
                    (get_elem?-take n buffer (k - sector) (ground (arith, low, less)) ∙ has)
                ∙ sym (put-Within f sector buffer k x low has)
            | inr more ↦
                put-Within (put f sector (take n buffer)) (sector + n) (drop n buffer) k x
                  (ground (arith, more))
                  (get_elem?-drop n buffer (k - (sector + n))
                    ∙ ap (λ j. get_elem? buffer j) (back sector n k (ground (arith, more)))
                    ∙ has)
                ∙ sym (put-Within f sector buffer k x low has)
          ]
    ]
