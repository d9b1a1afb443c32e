-- ===== src/Device.antt =====
-- source/device.c: ntfs_pread. The driver's pread is a parameter: a function of its own state,
-- the position and the count. The buffer is not NULL, and is the list of the bytes read.
pub mod Disk
pub mod Runs
use libntfs.Prelude.{
  ℕ, zero, suc, ◌+◌, ◌-◌, List, [], ◌∷◌, ◌++◌, Option, none, some, length, ◌||◌, ◌==◌,
  if◌then◌else◌,
}
use libntfs.Prelude.Word.{is_neg}
use libntfs.Runlist.{Errno, einval}

-- What the driver's pread answers: bytes, no more than asked for and none at the end of the device, or
-- -1.
pub data Answer : Type 0 where
  got : List ℕ → Answer
  failed : Errno → Answer

abbrev pub Driver : Type 0 → Type 0
Driver S = S → ℕ → ℕ → Answer × S

module _ {S : Type 0} (pread : Driver S) where
  -- "If EOF or error return number of bytes read", else the error.
  abbrev pub on_error : Errno → List ℕ → S → Answer × S
  on_error e [] state = (failed e, state)
  on_error e (x ∷ buffer) state = (got (x ∷ buffer), state)

  -- The loop; `buffer` has the bytes read so far. `none` is a loop that runs out of fuel.
  unfoldable pub pread_loop : ℕ → S → ℕ → ℕ → List ℕ → Option (Answer × S)
  pread_loop fuel state pos zero buffer = some (got buffer, state)
  pread_loop zero state pos (suc count) buffer = none
  pread_loop (suc fuel) state pos (suc count) buffer =
      let (answer, state') = pread state pos (suc count) in
      elim answer [
        | got bytes ↦ elim bytes [
          | [] ↦ some (got buffer, state')
          | x ∷ rest ↦
              pread_loop fuel state' (pos + length (x ∷ rest)) (suc count - length (x ∷ rest))
                (buffer ++ (x ∷ rest))
        ]
        | failed e ↦ some (on_error e buffer state')
      ]

  -- Each round reads a byte, so `count` rounds are enough.
  unfoldable pub ntfs_pread : S → ℕ → ℕ → Option (Answer × S)
  ntfs_pread state pos count =
      if is_neg count || is_neg pos
      then some (failed einval, state)
      else pread_loop count state pos count []
