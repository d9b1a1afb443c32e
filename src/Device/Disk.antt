-- ===== src/Device/Disk.antt =====
-- source/device.c: ntfs_pread on a driver that serves the bytes of a disk in pieces of any size.
use libntfs.Prelude.{
  ℕ, ◌⊎◌, inl, inr, zero, suc, ◌+◌, ◌-◌, ◌<◌, ◌≤◌, ◌≡◌, refl, sym, ◌∙◌, ap, arith, List, [], ◌∷◌,
  ◌++◌, append-nil, append_assoc, some, length, take, drop, ◌||◌, false,
}
use libntfs.Prelude.Word.{is_neg, IsNonneg}
use libntfs.Device.{got, Driver, pread_loop, ntfs_pread}

-- The contract of the driver's pread: at least one byte where the disk has one, no more than
-- asked for, and the disk's.
pub record Serves {S : Type 0} (disk : List ℕ) (pread : Driver S) : Type 0 where
  pub piece : S → ℕ → ℕ → ℕ
  pub answers :
      (state : S) (pos count : ℕ)
      → (pread state pos count).0 ≡ got (take (piece state pos count) (drop pos disk))
  pub at_most : (state : S) (pos count : ℕ) → piece state pos count ≤ count
  pub progress : (state : S) (pos count : ℕ) → 0 < count → 0 < piece state pos count

suc_add : (n m : ℕ) → suc n + m ≡ suc (n + m)
suc_add n m = omega arith

drop_empty : (n : ℕ) → drop {A = ℕ} n [] ≡ []
drop_empty zero = refl
drop_empty (suc n) = refl

pub drop-drop : (n m : ℕ) (xs : List ℕ) → drop (n + m) xs ≡ drop m (drop n xs)
drop-drop zero m xs = ap (λ k. drop k xs) (omega arith)
drop-drop (suc n) m [] = ap (λ k. drop k []) (suc_add n m) ∙ sym (drop_empty m)
drop-drop (suc n) m (x ∷ xs) = ap (λ k. drop k (x ∷ xs)) (suc_add n m) ∙ drop-drop n m xs

take_pieces :
    (n c : ℕ) (xs : List ℕ)
    → n ≤ c
    → take n xs ++ take (c - length (take n xs)) (drop (length (take n xs)) xs) ≡ take c xs
take_pieces zero c xs h = ap (λ k. take k xs) (omega arith)
take_pieces (suc n) c [] h = ap (λ k. take k []) (omega arith)
take_pieces (suc n) zero (x ∷ xs) h = absurd (omega (arith, h))
take_pieces (suc n) (suc c) (x ∷ xs) h =
    ap (λ ys. x ∷ ys)
      (ap (λ k. take n xs ++ take k (drop (length (take n xs)) xs)) (omega arith)
        ∙ take_pieces n c xs (omega (arith, h)))

length-take_le : (n : ℕ) (xs : List ℕ) → length (take n xs) ≤ n
length-take_le zero xs = omega arith
length-take_le (suc n) [] = omega arith
length-take_le (suc n) (x ∷ xs) = omega (arith, length-take_le n xs)

-- Nothing is served only where the disk has nothing.
take_nothing : (n c : ℕ) (xs : List ℕ) → 0 < n → take n xs ≡ [] → take c xs ≡ []
take_nothing zero c xs pos h = absurd (omega (arith, pos))
take_nothing (suc n) zero xs pos h = refl
take_nothing (suc n) (suc c) [] pos h = refl
take_nothing (suc n) (suc c) (x ∷ xs) pos h = absurd (cc)

pieces_join :
    (buffer bytes disk : List ℕ) (pos n c : ℕ)
    → n ≤ c
    → take n (drop pos disk) ≡ bytes
    → (buffer ++ bytes) ++ take (c - length bytes) (drop (pos + length bytes) disk)
      ≡ buffer ++ take c (drop pos disk)
pieces_join buffer bytes disk pos n c h e =
    append_assoc buffer bytes _
    ∙ ap (λ b. buffer ++ b)
        (ap (λ ys. bytes ++ take (c - length bytes) ys) (drop-drop pos (length bytes) disk)
          ∙ ap (λ b. b ++ take (c - length b) (drop (length b) (drop pos disk))) (sym e)
          ∙ take_pieces n c (drop pos disk) h)

pub list_cases : (xs : List ℕ) → (xs ≡ []) ⊎ ((x : ℕ) × (ys : List ℕ) × (xs ≡ x ∷ ys))
list_cases [] = inl refl
list_cases (x ∷ ys) = inr (x, ys, refl)

module _ {S : Type 0} (pread : Driver S) where
  ends_at :
      (fuel : ℕ) (state : S) (pos count : ℕ) (buffer : List ℕ)
      → (pread state pos (suc count)).0 ≡ got []
      → pread_loop pread (suc fuel) state pos (suc count) buffer
        ≡ some (got buffer, (pread state pos (suc count)).1)
  unfolding pread_loop
  ends_at fuel state pos count buffer h = rw (h, pread_loop) refl

  goes_on :
      (fuel : ℕ) (state : S) (pos count : ℕ) (buffer : List ℕ) (x : ℕ) (rest : List ℕ)
      → (pread state pos (suc count)).0 ≡ got (x ∷ rest)
      → pread_loop pread (suc fuel) state pos (suc count) buffer
        ≡ pread_loop pread fuel
            (pread state pos (suc count)).1
            (pos + length (x ∷ rest))
            (suc count - length (x ∷ rest))
            (buffer ++ (x ∷ rest))
  unfolding pread_loop
  goes_on fuel state pos count buffer x rest h = rw (h, pread_loop) refl

  module _ (disk : List ℕ) (serves : Serves disk pread) where
    loop-reads :
        (fuel : ℕ) (state : S) (pos count : ℕ) (buffer : List ℕ)
        → count ≤ fuel
        → (state' : S) × (pread_loop pread fuel state pos count buffer
            ≡ some (got (buffer ++ take count (drop pos disk)), state'))
    unfolding pread_loop
    loop-reads fuel state pos zero buffer h =
        (state, ap (λ b. some (got b, state)) (sym (append-nil buffer)))
    loop-reads zero state pos (suc count) buffer h = absurd (omega (arith, h))
    loop-reads (suc fuel) state pos (suc count) buffer h =
        let n = serves.piece state pos (suc count) in
        let answer = serves.answers state pos (suc count) in
        elim (list_cases (take n (drop pos disk))) [
          | inl e ↦ (
            (pread state pos (suc count)).1,
            ends_at fuel state pos count buffer (answer ∙ ap got e)
                ∙ ap (λ b. some (got b, (pread state pos (suc count)).1))
                    (sym (append-nil buffer)
                      ∙ ap (λ b. buffer ++ b)
                          (sym (
                            take_nothing n (suc count) (drop pos disk)
                              (serves.progress state pos (suc count) (omega arith)) e))),
          )
          | inr (x, rest, e) ↦
              let (state', r) =
                loop-reads fuel (pread state pos (suc count)).1 (pos + length (x ∷ rest))
                  (suc count - length (x ∷ rest)) (buffer ++ (x ∷ rest)) (omega (arith, h)) in
              (
                state',
                goes_on fuel state pos count buffer x rest (answer ∙ ap got e)
                    ∙ r
                    ∙ ap (λ b. some (got b, state'))
                        (pieces_join buffer (x ∷ rest) disk pos n (suc count)
                          (serves.at_most state pos (suc count)) e),
              )
        ]

-- Of a driver that serves a disk in pieces of any size, ntfs_pread returns, for a position and a
-- count that are not negative: as many bytes of the
-- disk from the position on as were asked for, or as there are. The loop ends.
pub ntfs_pread-Serves :
    {S : Type 0} (disk : List ℕ) (pread : Driver S) (state : S) (pos count : ℕ)
    → Serves disk pread
    → IsNonneg pos
    → IsNonneg count
    → (state' : S) × (ntfs_pread pread state pos count
        ≡ some (got (take count (drop pos disk)), state'))
unfolding ntfs_pread
ntfs_pread-Serves disk pread state pos count serves h1 h2 =
    let valid : (is_neg count || is_neg pos) ≡ false = ground (arith, h1, h2) in
    rw valid (loop-reads pread disk serves count state pos count [] (omega arith))
