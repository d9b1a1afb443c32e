-- ===== src/Device/Runs/Whole.antt =====
-- source/runlist.c: all of ntfs_rl_pread.
use libntfs.Prelude.{
  ℕ, zero, suc, ◌+◌, ◌-◌, ◌^◌, ◌<◌, ◌≤◌, ◌≡◌, inl, inr, refl, sym, ◌∙◌, ap, arith, min, List, [],
  ◌∷◌, ◌++◌, append-nil, append_assoc, some, false, length, take, drop, ◌||◌, ◌==◌,
}
use libntfs.Prelude.Word.{is_neg, sub64, IsNonneg}
use libntfs.Runlist.{RunlistElement, Runlist}
use libntfs.Device.{got, Driver}
use libntfs.Device.Disk.{Serves}
use libntfs.Device.Runs.{answers, seek_run, smin, read_runs, read_from, rl_pread}
use libntfs.Device.Runs.Stored.{
  run_size, run_bytes, contents, IsStoredRun, IsStored, length-run_bytes, contents-run,
  contents-end, length-contents, shl64_small, take_across, StartsIn, seek_run-Sought,
}
use libntfs.Device.Runs.Reads.{smin_lem, step_done, OneRun, hole-OneRun, disk-OneRun}

module _ {S : Type 0} (pread : Driver S) (disk : List ℕ) (serves : Serves disk pread)
    (low : length disk < 2 ^ 63) (bits fuel : ℕ) where
  run-OneRun :
      (e : RunlistElement) (rl : Runlist) (state : S) (ofs count : ℕ) (buffer : List ℕ)
      → 0 < count
      → count < 2 ^ 63
      → 0 < e.length
      → IsStoredRun bits disk e
      → ofs < run_size bits disk e
      → OneRun pread disk serves bits fuel e rl state ofs count
          (min count (run_size bits disk e - ofs))
          buffer
  run-OneRun e rl state ofs count buffer h few k run inside =
      let size = run_size bits disk e in
      let same =
        ap (λ n. smin count (sub64 n ofs)) (shl64_small e.length bits run.small)
        ∙ smin_lem count size ofs few run.small inside in
      elim run.placed [
        | inl hole ↦
            hole-OneRun pread disk serves bits fuel e rl state ofs count (min count (size - ofs))
              buffer h few k hole same (omega arith) (omega (arith, inside))
        | inr (real, placed) ↦
            disk-OneRun pread disk serves bits fuel e rl state ofs count (min count (size - ofs))
              buffer h few k real placed low same (omega (arith, h, inside)) (omega arith)
              (omega (arith, inside))
      ]

  starts : (rl : Runlist) → IsStored bits disk rl → StartsIn bits disk 0 rl
  unfolding IsStored StartsIn
  starts [] h = h
  starts (e ∷ rl) (inl end) = inl end
  starts (e ∷ rl) (inr (some_of, run, rest)) = inr run.positive

  Reads : Runlist → S → ℕ → ℕ → List ℕ → Type 0
  Reads rl state ofs count buffer =
      (state' : S) × (read_runs pread (suc fuel) bits rl state ofs count buffer
        ≡ answers (got (buffer ++ take count (drop ofs (contents bits disk rl)))) state')

  joined :
      (e : RunlistElement) (rl : Runlist) (ofs count : ℕ) (buffer : List ℕ)
      → 0 < e.length
      → IsStoredRun bits disk e
      → ofs < run_size bits disk e
      → (buffer ++ take (min count (run_size bits disk e - ofs)) (drop ofs (run_bytes bits disk e)))
          ++ take (count - min count (run_size bits disk e - ofs)) (contents bits disk rl)
        ≡ buffer ++ take count (drop ofs (contents bits disk (e ∷ rl)))
  joined e rl ofs count buffer some_of run inside =
      let t = min count (run_size bits disk e - ofs) in
      let long = length-run_bytes bits disk e run in
      append_assoc buffer (take t (drop ofs (run_bytes bits disk e)))
        (take (count - t) (contents bits disk rl))
      ∙ ap (λ b. buffer ++ b)
          (sym (
              take_across count ofs t (run_bytes bits disk e) (contents bits disk rl)
                (omega (arith, long)) (omega (arith, long, inside)))
            ∙ ap (λ b. take count (drop ofs b)) (sym (contents-run bits disk e rl some_of)))

  nothing_left :
      (rl : Runlist) (state : S) (ofs : ℕ) (buffer : List ℕ) → Reads rl state ofs 0 buffer
  unfolding Reads
  nothing_left rl state ofs buffer = (
    state,
    step_done pread bits (suc fuel) rl state ofs 0 buffer refl
        ∙ ap (λ b. answers (got b) state) (sym (append-nil buffer)),
  )

  read_runs-Reads :
      (rl : Runlist) (state : S) (ofs count : ℕ) (buffer : List ℕ)
      → IsStored bits disk rl
      → StartsIn bits disk ofs rl
      → ofs + count ≤ length (contents bits disk rl)
      → length (contents bits disk rl) < 2 ^ 63
      → Reads rl state ofs count buffer
  unfolding IsStored StartsIn OneRun Reads
  read_runs-Reads rl state ofs zero buffer stored start all short = nothing_left rl state ofs buffer
  read_runs-Reads [] state ofs (suc count) buffer stored start all short = absurd stored
  read_runs-Reads (e ∷ rl) state ofs (suc count) buffer (inl end) start all short =
      absurd (omega (arith, all, ap length (contents-end bits disk e rl end)))
  read_runs-Reads (e ∷ rl) state ofs (suc count) buffer (inr (some_of, run, stored)) (inl end) all
        short =
      absurd (omega (arith, some_of, end))
  read_runs-Reads (e ∷ rl) state ofs (suc count) buffer (inr (some_of, run, stored)) (inr inside)
        all short =
      let size = run_size bits disk e in
      let t = min (suc count) (size - ofs) in
      let long = length-contents bits disk e rl some_of run in
      let (state1, e1) =
        run-OneRun e rl state ofs (suc count) buffer (omega arith) (omega (arith, all, short))
          some_of run inside in
      let (state2, e2) =
        read_runs-Reads rl state1 0 (suc count - t)
          (buffer ++ take t (drop ofs (run_bytes bits disk e))) stored (starts rl stored)
          (omega (arith, all, long, inside)) (omega (arith, short, long)) in
      (
        state2,
        e1
            ∙ e2
            ∙ ap (λ b. answers (got b) state2)
                (joined e rl ofs (suc count) buffer some_of run inside),
      )

rl_pread-some :
    {S : Type 0} (pread : Driver S) (fuel bits : ℕ) (rl runs : Runlist) (state : S)
    (pos count start : ℕ)
    → IsNonneg pos
    → IsNonneg count
    → 0 < count
    → seek_run bits rl 0 pos ≡ some (runs, start)
    → rl_pread pread fuel bits rl state pos count
      ≡ read_runs pread fuel bits runs state (sub64 pos start) count []
unfolding rl_pread read_from
rl_pread-some pread fuel bits rl runs state pos count start h1 h2 h3 e =
    let valid : (is_neg pos || is_neg count) ≡ false = ground (arith, h1, h2) in
    let some_asked : (count == 0) ≡ false = ground (arith, h3) in
    rw (valid, some_asked, e, rl_pread, read_from) refl

rl_pread-none :
    {S : Type 0} (pread : Driver S) (fuel bits : ℕ) (rl : Runlist) (state : S) (pos : ℕ)
    → IsNonneg pos
    → rl_pread pread fuel bits rl state pos 0 ≡ answers (got []) state
unfolding rl_pread
rl_pread-none pread fuel bits rl state pos h =
    let valid : is_neg pos ≡ false = ground (arith, h) in rw (valid, rl_pread) refl

-- Of a runlist whose runs are holes or lie on a disk that the driver serves in pieces of any size,
-- ntfs_rl_pread returns the bytes that the runs stand for, from the position on, as many as were
-- asked for, if the runs have that many; the disk and the runs together are shorter than 2 ^ 63
-- bytes each.
pub rl_pread-contents :
    {S : Type 0} (pread : Driver S) (disk : List ℕ) (fuel bits : ℕ) (rl : Runlist) (state : S)
    (pos count : ℕ)
    → Serves disk pread
    → length disk < 2 ^ 63
    → IsStored bits disk rl
    → length (contents bits disk rl) < 2 ^ 63
    → pos + count ≤ length (contents bits disk rl)
    → (state' : S) × (rl_pread pread (suc fuel) bits rl state pos count
        ≡ answers (got (take count (drop pos (contents bits disk rl)))) state')
unfolding Reads
rl_pread-contents pread disk fuel bits rl state pos zero serves low stored short all =
    (state, rl_pread-none pread (suc fuel) bits rl state pos (omega (arith, short, all)))
rl_pread-contents pread disk fuel bits rl state pos (suc count) serves low stored short all =
    let s =
      seek_run-Sought bits disk rl 0 pos stored (omega arith) (omega (arith, all))
        (omega (arith, short)) in
    let all_of_it : pos - 0 ≡ pos = omega arith in
    let before : sub64 pos s.start ≡ pos - s.start = omega (arith, s.before, short, all) in
    let (state', e) =
      read_runs-Reads pread disk serves low bits fuel s.runs state (pos - s.start) (suc count) []
        s.stored s.within (omega (arith, all, s.ends, s.before)) (omega (arith, s.ends, short)) in
    (
      state',
      rl_pread-some pread (suc fuel) bits rl s.runs state pos (suc count) s.start
            (omega (arith, short, all)) (omega (arith, short, all)) (omega arith) s.finds
          ∙ ap (λ n. read_runs pread (suc fuel) bits s.runs state n (suc count) []) before
          ∙ e
          ∙ ap (λ b. answers (got (take (suc count) b)) state')
              (sym s.same ∙ ap (λ n. drop n (contents bits disk rl)) all_of_it),
    )
