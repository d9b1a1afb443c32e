-- ===== src/Device/Runs/Reads.antt =====
-- source/runlist.c: what ntfs_rl_pread reads.
use libntfs.Prelude.{
  ℕ, zero, suc, ◌+◌, ◌-◌, ◌*◌, ◌^◌, ◌<◌, ◌≤◌, ◌≡◌, inl, inr, refl, sym, ◌∙◌, ap, arith, min, List,
  [], ◌∷◌, ◌++◌, some, true, false, length, take, drop, replicate, ◌==◌, length-take, length-drop,
}
use libntfs.Prelude.Word.{is_neg, add64, sub64, shl64, IsNonneg}
use libntfs.Runlist.{RunlistElement, Runlist, lcn_hole}
use libntfs.Device.{got, Driver}
use libntfs.Device.Disk.{Serves, ntfs_pread-Serves, drop-drop, list_cases}
use libntfs.Device.Runs.{answers, smin, retry, read_runs}
use libntfs.Device.Runs.Stored.{run_size, run_bytes, shl64_small}

take_zeros :
    (t ofs size : ℕ) → ofs + t ≤ size → take {A = ℕ} t (drop ofs (replicate size 0)) ≡ replicate t 0
take_zeros zero ofs size h = refl
take_zeros (suc t) zero zero h = absurd (omega (arith, h))
take_zeros (suc t) zero (suc size) h = ap (λ xs. 0 ∷ xs) (take_zeros t zero size (omega (arith, h)))
take_zeros (suc t) (suc ofs) zero h = absurd (omega (arith, h))
take_zeros (suc t) (suc ofs) (suc size) h = take_zeros (suc t) ofs size (omega (arith, h))

take_inside :
    (t ofs size : ℕ) (xs : List ℕ)
    → ofs + t ≤ size
    → take t (drop ofs (take size xs)) ≡ take t (drop ofs xs)
take_inside zero ofs size xs h = refl
take_inside (suc t) ofs zero xs h = absurd (omega (arith, h))
take_inside (suc t) zero (suc size) [] h = refl
take_inside (suc t) (suc ofs) (suc size) [] h = refl
take_inside (suc t) zero (suc size) (x ∷ xs) h =
    ap (λ ys. x ∷ ys) (take_inside t zero size xs (omega (arith, h)))
take_inside (suc t) (suc ofs) (suc size) (x ∷ xs) h =
    take_inside (suc t) ofs size xs (omega (arith, h))

pub smin_lem :
    (count size ofs : ℕ)
    → count < 2 ^ 63
    → size < 2 ^ 63
    → ofs < size
    → smin count (sub64 size ofs) ≡ min count (size - ofs)
smin_lem count size ofs h1 h2 h3 = ground (arith, h1, h2, h3)

module _ {S : Type 0} (pread : Driver S) (bits fuel : ℕ) where
  pub step_done :
      (rl : Runlist) (state : S) (ofs count : ℕ) (buffer : List ℕ)
      → count ≡ 0
      → read_runs pread fuel bits rl state ofs count buffer ≡ answers (got buffer) state
  unfolding read_runs
  step_done [] state ofs count buffer h =
      let no_more : (count == 0) ≡ true = ground (arith, h) in rw (no_more, read_runs) refl
  step_done (e ∷ rl) state ofs count buffer h =
      let no_more : (count == 0) ≡ true = ground (arith, h) in rw (no_more, read_runs) refl

  step_hole :
      (e : RunlistElement) (rl : Runlist) (state : S) (ofs count t : ℕ) (buffer : List ℕ)
      → 0 < count
      → 0 < e.length
      → e.lcn ≡ lcn_hole
      → smin count (sub64 (shl64 e.length bits) ofs) ≡ t
      → read_runs pread fuel bits (e ∷ rl) state ofs count buffer
        ≡ read_runs pread fuel bits rl state 0 (sub64 count t) (buffer ++ replicate t 0)
  unfolding read_runs
  step_hole e rl state ofs count t buffer h k hole same =
      let more : (count == 0) ≡ false = ground (arith, h) in
      let some_of : (e.length == 0) ≡ false = ground (arith, k) in
      let negative : is_neg e.lcn ≡ true = ground (arith, hole) in
      let is_hole : (e.lcn == lcn_hole) ≡ true = ground (arith, hole) in
      rw (more, some_of, negative, is_hole, read_runs)
        (ap (λ n. read_runs pread fuel bits rl state 0 (sub64 count n) (buffer ++ replicate n 0))
          same)

  step_disk :
      (e : RunlistElement) (rl : Runlist) (state state' : S) (ofs count t x : ℕ)
      (more buffer : List ℕ)
      → 0 < count
      → 0 < e.length
      → is_neg e.lcn ≡ false
      → smin count (sub64 (shl64 e.length bits) ofs) ≡ t
      → retry pread fuel state (add64 (shl64 e.lcn bits) ofs) t ≡ some (got (x ∷ more), state')
      → read_runs pread fuel bits (e ∷ rl) state ofs count buffer
        ≡ read_runs pread fuel bits rl state' 0
            (sub64 count (length (x ∷ more)))
            (buffer ++ (x ∷ more))
  unfolding read_runs
  step_disk e rl state state' ofs count t x more buffer h k real same read =
      let some_left : (count == 0) ≡ false = ground (arith, h) in
      let some_of : (e.length == 0) ≡ false = ground (arith, k) in
      let reads = ap (retry pread fuel state (add64 (shl64 e.lcn bits) ofs)) same ∙ read in
      rw (some_left, some_of, real, read_runs) (rw (reads, read_runs) refl)

module _ {S : Type 0} (pread : Driver S) (disk : List ℕ) (serves : Serves disk pread)
    (bits fuel : ℕ) where
  retry-reads :
      (state : S) (pos count : ℕ)
      → IsNonneg pos
      → IsNonneg count
      → (state' : S) × (retry pread (suc fuel) state pos count
          ≡ some (got (take count (drop pos disk)), state'))
  unfolding retry
  retry-reads state pos count h1 h2 =
      let (state', e) = ntfs_pread-Serves disk pread state pos count serves h1 h2 in
      (state', rw (e, retry) refl)

  -- One run, from `ofs` on.
  unfoldable pub OneRun : RunlistElement → Runlist → S → ℕ → ℕ → ℕ → List ℕ → Type 0
  OneRun e rl state ofs count t buffer =
      (state' : S) × (read_runs pread (suc fuel) bits (e ∷ rl) state ofs count buffer
        ≡ read_runs pread (suc fuel) bits rl state' 0 (count - t)
            (buffer ++ take t (drop ofs (run_bytes bits disk e))))

  pub hole-OneRun :
      (e : RunlistElement) (rl : Runlist) (state : S) (ofs count t : ℕ) (buffer : List ℕ)
      → 0 < count
      → count < 2 ^ 63
      → 0 < e.length
      → e.lcn ≡ lcn_hole
      → smin count (sub64 (shl64 e.length bits) ofs) ≡ t
      → t ≤ count
      → ofs + t ≤ run_size bits disk e
      → OneRun e rl state ofs count t buffer
  unfolding OneRun
  hole-OneRun e rl state ofs count t buffer h low k hole same few inside =
      let negative : is_neg e.lcn ≡ true = ground (arith, hole) in
      let rest : sub64 count t ≡ count - t = omega (arith, few, low) in
      (
        state,
        step_hole pread bits (suc fuel) e rl state ofs count t buffer h k hole same
            ∙ ap (λ n. read_runs pread (suc fuel) bits rl state 0 n (buffer ++ replicate t 0)) rest
            ∙ ap (λ b. read_runs pread (suc fuel) bits rl state 0 (count - t) (buffer ++ b))
                (sym (rw negative (take_zeros t ofs (run_size bits disk e) inside))),
      )

  pub disk-OneRun :
      (e : RunlistElement) (rl : Runlist) (state : S) (ofs count t : ℕ) (buffer : List ℕ)
      → 0 < count
      → count < 2 ^ 63
      → 0 < e.length
      → is_neg e.lcn ≡ false
      → e.lcn * 2 ^ bits + run_size bits disk e ≤ length disk
      → length disk < 2 ^ 63
      → smin count (sub64 (shl64 e.length bits) ofs) ≡ t
      → 0 < t
      → t ≤ count
      → ofs + t ≤ run_size bits disk e
      → OneRun e rl state ofs count t buffer
  unfolding OneRun
  disk-OneRun e rl state ofs count t buffer h low k real placed fits same some_read few inside =
      let at = e.lcn * 2 ^ bits in
      let place : add64 (shl64 e.lcn bits) ofs ≡ at + ofs =
        omega (arith, shl64_small e.lcn bits (omega (arith, placed, fits)), inside, placed, fits) in
      let (state', read) =
        retry-reads state (at + ofs) t (omega (arith, inside, placed, fits))
          (omega (arith, few, low)) in
      let bytes = take t (drop (at + ofs) disk) in
      let long : length bytes ≡ t =
        length-take t (drop (at + ofs) disk)
        ∙ omega (arith, length-drop (at + ofs) disk, inside, placed) in
      let as_run : bytes ≡ take t (drop ofs (run_bytes bits disk e)) =
        ap (take t) (drop-drop at ofs disk)
        ∙ sym (rw real (take_inside t ofs (run_size bits disk e) (drop at disk) inside)) in
      elim (list_cases bytes) [
        | inl none_read ↦ absurd (omega (arith, long, some_read, ap length none_read))
        | inr (x, more, cons) ↦
            let count_left : sub64 count (length (x ∷ more)) ≡ count - t =
              omega (arith, long, ap length cons, few, low) in
            (
              state',
              step_disk pread bits (suc fuel) e rl state state' ofs count t x more buffer h k real
                    same
                    (ap (λ p. retry pread (suc fuel) state p t) place
                      ∙ read
                      ∙ ap (λ b. some (got b, state')) cons)
                  ∙ ap (λ n. read_runs pread (suc fuel) bits rl state' 0 n (buffer ++ (x ∷ more)))
                      count_left
                  ∙ ap (λ b. read_runs pread (suc fuel) bits rl state' 0 (count - t) (buffer ++ b))
                      (sym cons ∙ as_run),
            )
      ]
