-- ===== src/Device/Runs/Stored.antt =====
-- source/runlist.c: ntfs_rl_pread against the bytes that a runlist stands for.
use libntfs.Prelude.{
  ℕ, leb, zero, suc, ◌+◌, ◌-◌, ◌*◌, ◌^◌, ◌<◌, ◌≤◌, ◌≡◌, ◌⊎◌, inl, inr, refl, ◌∙◌, ap, arith, min,
  List, [], ◌∷◌, ◌++◌, some, true, false, not, length, take, drop, replicate, ◌&&◌, ◌==◌,
  if◌then◌else◌, Bool-cases, length-take, length-drop, length-replicate, length-append,
}
use libntfs.Prelude.Word.{is_neg, slt, add64, shl64}
use libntfs.Runlist.{RunlistElement, Runlist, lcn_hole}
use libntfs.Device.Runs.{seek_run}

module _ (bits : ℕ) (disk : List ℕ) where
  abbrev pub run_size : RunlistElement → ℕ
  run_size e = e.length * 2 ^ bits

  -- The bytes of a run: zeros for a hole, else the disk's.
  abbrev pub run_bytes : RunlistElement → List ℕ
  run_bytes e =
      if is_neg e.lcn
      then replicate (run_size e) 0
      else take (run_size e) (drop (e.lcn * 2 ^ bits) disk)

  -- The bytes of a runlist, up to its terminator.
  unfoldable pub contents : Runlist → List ℕ
  contents [] = []
  contents (e ∷ rl) = let rest = contents rl in if e.length == 0 then [] else run_bytes e ++ rest

  -- A run that is a hole or lies on the disk, and ends below 2 ^ 63 bytes.
  pub record IsStoredRun (e : RunlistElement) : Type 0 where
    pub positive : 0 < run_size e
    pub small : run_size e < 2 ^ 63
    pub placed :
        (e.lcn ≡ lcn_hole)
        ⊎ ((is_neg e.lcn ≡ false) × (e.lcn * 2 ^ bits + run_size e ≤ length disk))

  -- All runs up to the terminator are.
  unfoldable pub IsStored : Runlist → Type 0
  IsStored [] = ⊥
  IsStored (e ∷ rl) = (e.length ≡ 0) ⊎ ((0 < e.length) × IsStoredRun e × IsStored rl)

  pub length-run_bytes : (e : RunlistElement) → IsStoredRun e → length (run_bytes e) ≡ run_size e
  length-run_bytes e s = elim s.placed [
    | inl hole ↦ rw hole (length-replicate (run_size e) 0)
    | inr (real, placed) ↦ rw real (
        length-take (run_size e) (drop (e.lcn * 2 ^ bits) disk)
        ∙ omega (arith, length-drop (e.lcn * 2 ^ bits) disk, placed))
  ]

  pub contents-run :
      (e : RunlistElement) (rl : Runlist)
      → 0 < e.length
      → contents (e ∷ rl) ≡ run_bytes e ++ contents rl
  unfolding contents
  contents-run e rl h =
      let some_of : (e.length == 0) ≡ false = ground (arith, h) in rw (some_of, contents) refl

  pub contents-end : (e : RunlistElement) (rl : Runlist) → e.length ≡ 0 → contents (e ∷ rl) ≡ []
  unfolding contents
  contents-end e rl h =
      let empty : (e.length == 0) ≡ true = ground (arith, h) in rw (empty, contents) refl

  pub length-contents :
      (e : RunlistElement) (rl : Runlist)
      → 0 < e.length
      → IsStoredRun e
      → length (contents (e ∷ rl)) ≡ run_size e + length (contents rl)
  length-contents e rl h s =
      ap length (contents-run e rl h)
      ∙ length-append (run_bytes e) (contents rl)
      ∙ ap (λ n. n + length (contents rl)) (length-run_bytes e s)

pub shl64_small : (n bits : ℕ) → n * 2 ^ bits < 2 ^ 63 → shl64 n bits ≡ n * 2 ^ bits
shl64_small n bits h = omega (arith, h)

drop_behind : (n : ℕ) (xs ys : List ℕ) → length xs ≤ n → drop n (xs ++ ys) ≡ drop (n - length xs) ys
drop_behind n [] ys h = ap (λ k. drop k ys) (omega arith)
drop_behind zero (x ∷ xs) ys h = absurd (omega (arith, h))
drop_behind (suc n) (x ∷ xs) ys h =
    drop_behind n xs ys (omega (arith, h)) ∙ ap (λ k. drop k ys) (omega arith)

-- A piece that starts in the first list.
pub take_across :
    (count ofs k : ℕ) (xs ys : List ℕ)
    → k ≡ min count (length xs - ofs)
    → ofs ≤ length xs
    → take count (drop ofs (xs ++ ys)) ≡ take k (drop ofs xs) ++ take (count - k) ys
take_across count zero zero [] ys e h = ap (λ n. take n ys) (omega arith)
take_across count zero (suc k) [] ys e h = absurd (omega (arith, e))
take_across zero zero zero (x ∷ xs) ys e h = refl
take_across zero zero (suc k) (x ∷ xs) ys e h = absurd (omega (arith, e))
take_across (suc count) zero zero (x ∷ xs) ys e h = absurd (omega (arith, e))
take_across (suc count) zero (suc k) (x ∷ xs) ys e h =
    ap (λ zs. x ∷ zs)
      (take_across count zero k xs ys (omega (arith, e)) (omega arith)
        ∙ ap (λ n. take k xs ++ take n ys) (omega arith))
take_across count (suc ofs) k [] ys e h = absurd (omega (arith, h))
take_across count (suc ofs) k (x ∷ xs) ys e h =
    take_across count ofs k xs ys (omega (arith, e)) (omega (arith, h))

module _ (bits : ℕ) (disk : List ℕ) where
  -- The first run, if there is one, has bytes behind `ofs`.
  unfoldable pub StartsIn : ℕ → Runlist → Type 0
  StartsIn ofs [] = ⊥
  StartsIn ofs (e ∷ rl) = (e.length ≡ 0) ⊎ (ofs < run_size bits disk e)

  pub record Sought (rl : Runlist) (ofs pos : ℕ) : Type 0 where
    pub runs : Runlist
    pub start : ℕ
    pub finds : seek_run bits rl ofs pos ≡ some (runs, start)
    pub stored : IsStored bits disk runs
    pub before : start ≤ pos
    pub within : StartsIn (pos - start) runs
    pub same :
        drop (pos - ofs) (contents bits disk rl) ≡ drop (pos - start) (contents bits disk runs)
    pub ends : ofs + length (contents bits disk rl) ≡ start + length (contents bits disk runs)

  seek_stop :
      (e : RunlistElement) (rl : Runlist) (ofs pos : ℕ)
      → (not (e.length == 0) && not (slt pos (add64 ofs (shl64 e.length bits)))) ≡ false
      → seek_run bits (e ∷ rl) ofs pos ≡ some (e ∷ rl, ofs)
  unfolding seek_run
  seek_stop e rl ofs pos h = rw (h, seek_run) refl

  seek_next :
      (e : RunlistElement) (rl : Runlist) (ofs pos : ℕ)
      → (not (e.length == 0) && not (slt pos (add64 ofs (shl64 e.length bits)))) ≡ true
      → seek_run bits (e ∷ rl) ofs pos ≡ seek_run bits rl (add64 ofs (shl64 e.length bits)) pos
  unfolding seek_run
  seek_next e rl ofs pos h = rw (h, seek_run) refl

  test_true :
      (len size ofs pos : ℕ)
      → 0 < len
      → pos < 2 ^ 63
      → ofs + size < 2 ^ 63
      → ofs + size ≤ pos
      → (not (len == 0) && not (slt pos (add64 ofs size))) ≡ true
  test_true len size ofs pos h1 h2 h3 h4 = ground (arith, h1, h2, h3, h4)

  test_false :
      (len size ofs pos : ℕ)
      → pos < 2 ^ 63
      → ofs + size < 2 ^ 63
      → pos < ofs + size
      → (not (len == 0) && not (slt pos (add64 ofs size))) ≡ false
  test_false len size ofs pos h2 h3 h4 = ground (arith, h2, h3, h4)

  pub seek_run-Sought :
      (rl : Runlist) (ofs pos : ℕ)
      → IsStored bits disk rl
      → ofs ≤ pos
      → pos < ofs + length (contents bits disk rl)
      → ofs + length (contents bits disk rl) < 2 ^ 63
      → Sought rl ofs pos
  unfolding IsStored StartsIn
  seek_run-Sought [] ofs pos stored h k low = absurd stored
  seek_run-Sought (e ∷ rl) ofs pos (inl end) h k low =
      absurd (omega (arith, h, k, ap length (contents-end bits disk e rl end)))
  seek_run-Sought (e ∷ rl) ofs pos (inr (some_of, run, stored)) h k low =
      let size = run_size bits disk e in
      let long = length-contents bits disk e rl some_of run in
      let shifted = shl64_small e.length bits run.small in
      elim (Bool-cases (leb (ofs + size) pos)) [
        | inl past ↦
            let next : add64 ofs (shl64 e.length bits) ≡ ofs + size =
              omega (arith, shifted, long, low) in
            let s =
              seek_run-Sought rl (ofs + size) pos stored (ground (arith, past))
                (omega (arith, k, long)) (omega (arith, low, long)) in
            let bytes = length-run_bytes bits disk e run in
            let left : pos - ofs - length (run_bytes bits disk e) ≡ pos - (ofs + size) =
              omega (arith, bytes) in
            record {
              runs = s.runs;
              start = s.start;
              finds =
                  seek_next e rl ofs pos (
                    test_true e.length (shl64 e.length bits) ofs pos some_of (omega (arith, k, low))
                      (omega (arith, shifted, long, low)) (ground (arith, past, shifted)))
                  ∙ ap (λ n. seek_run bits rl n pos) next
                  ∙ s.finds;
              stored = s.stored;
              before = s.before;
              within = s.within;
              same =
                  ap (drop (pos - ofs)) (contents-run bits disk e rl some_of)
                  ∙ drop_behind (pos - ofs) (run_bytes bits disk e) (contents bits disk rl)
                      (ground (arith, past, bytes))
                  ∙ ap (λ n. drop n (contents bits disk rl)) left
                  ∙ s.same;
              ends = omega (arith, long, s.ends);
            }
        | inr here ↦ record {
          runs = e ∷ rl;
          start = ofs;
          finds = seek_stop e rl ofs pos (
              test_false e.length (shl64 e.length bits) ofs pos (omega (arith, k, low))
                (omega (arith, shifted, long, low)) (ground (arith, here, shifted)));
          stored = inr (some_of, run, stored);
          before = h;
          within = inr (ground (arith, here, h));
          same = refl;
          ends = refl;
        }
      ]
