-- ===== src/Device/Runs.antt =====
-- source/runlist.c: ntfs_rl_pread, over ntfs_pread. The volume and the runlist are not NULL.
pub mod Stored
pub mod Reads
pub mod Whole
use libntfs.Prelude.{
  ℕ, zero, suc, ◌+◌, ◌-◌, List, [], ◌∷◌, ◌++◌, Option, none, some, Bool, true, false, not, length,
  replicate, ◌||◌, ◌&&◌, ◌==◌, if◌then◌else◌,
}
use libntfs.Prelude.Word.{is_neg, slt, add64, sub64, shl64}
use libntfs.Runlist.{RunlistElement, Runlist, Errno, einval, eio, enospc, erange, eintr, lcn_hole}
use libntfs.Device.{Answer, got, failed, Driver, ntfs_pread}

-- What a call leaves: its answer with the driver's state; no end of the retries within the fuel; or
-- an access behind the runlist.
pub data Reading (S : Type 0) : Type 0 where
  answers : Answer → S → Reading S
  no_end : Reading S
  outside : Reading S

-- "Seek in @rl to the run containing @pos."
unfoldable pub seek_run : ℕ → Runlist → ℕ → ℕ → Option (Runlist × ℕ)
seek_run bits [] ofs pos = none
seek_run bits (e ∷ rl) ofs pos =
    let rest = seek_run bits rl (add64 ofs (shl64 e.length bits)) pos in
    if not (e.length == 0) && not (slt pos (add64 ofs (shl64 e.length bits)))
    then rest
    else some (e ∷ rl, ofs)

-- The signed minimum.
abbrev pub smin : ℕ → ℕ → ℕ
smin a b = if slt a b then a else b

-- "rl_err_out": the bytes read so far, or the error.
abbrev pub give_up : Errno → List ℕ → Answer
give_up err [] = failed err
give_up err (x ∷ buffer) = got (x ∷ buffer)

abbrev pub is_eintr : Errno → Bool
is_eintr einval = false
is_eintr eio = false
is_eintr enospc = false
is_eintr erange = false
is_eintr eintr = true

module _ {S : Type 0} (pread : Driver S) where
  -- The call of ntfs_pread, repeated while it is interrupted.
  unfoldable pub retry : ℕ → S → ℕ → ℕ → Option (Answer × S)
  retry zero state pos to_read = none
  retry (suc fuel) state pos to_read = elim (ntfs_pread pread state pos to_read) [
    | none ↦ none
    | some (answer, state') ↦ elim answer [
      | got bytes ↦ some (got bytes, state')
      | failed e ↦ if is_eintr e then retry fuel state' pos to_read else some (failed e, state')
    ]
  ]

  -- The loop over the runs; `buffer` has the `total` bytes read so far.
  unfoldable pub read_runs : ℕ → ℕ → Runlist → S → ℕ → ℕ → List ℕ → Reading S
  read_runs fuel bits [] state ofs count buffer =
      if count == 0 then answers (got buffer) state else outside
  read_runs fuel bits (e ∷ rl) state ofs count buffer =
      let to_read = smin count (sub64 (shl64 e.length bits) ofs) in
      let behind_hole =
        read_runs fuel bits rl state 0 (sub64 count to_read) (buffer ++ replicate to_read 0) in
      let from_disk : Reading S = elim (retry fuel state (add64 (shl64 e.lcn bits) ofs) to_read) [
        | none ↦ no_end
        | some (answer, state') ↦ elim answer [
          | got bytes ↦ elim bytes [
            | [] ↦ answers (give_up eio buffer) state'
            | x ∷ more ↦
                read_runs fuel bits rl state' 0 (sub64 count (length (x ∷ more)))
                  (buffer ++ (x ∷ more))
          ]
          | failed err ↦ answers (give_up err buffer) state'
        ]
      ] in
      if count == 0
      then answers (got buffer) state
      else (if e.length == 0
          then answers (give_up eio buffer) state
          else (if is_neg e.lcn
              then (if e.lcn == lcn_hole then behind_hole else answers (give_up eio buffer) state)
              else from_disk))

  unfoldable pub read_from : ℕ → ℕ → S → ℕ → ℕ → Option (Runlist × ℕ) → Reading S
  read_from fuel bits state pos count none = outside
  read_from fuel bits state pos count (some (rl, ofs)) =
      read_runs fuel bits rl state (sub64 pos ofs) count []

  -- `fuel` bounds the calls for one run.
  unfoldable pub rl_pread : ℕ → ℕ → Runlist → S → ℕ → ℕ → Reading S
  rl_pread fuel bits rl state pos count =
      if is_neg pos || is_neg count
      then answers (failed einval) state
      else (if count == 0
          then answers (got []) state
          else read_from fuel bits state pos count (seek_run bits rl 0 pos))
