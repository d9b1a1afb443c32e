-- ===== src/Tests/Devices.antt =====
-- source/device.c and ntfs_rl_pread on a driver that serves a disk byte by byte.
use libntfs.Prelude.{
  ℕ, ◌≤◌, inl, inr, zero, suc, ◌<◌, ◌≡◌, refl, arith, List, [], ◌∷◌, some, take, drop,
}
use libntfs.Runlist.{Runlist, lcn_hole, lcn_enoent}
use libntfs.Device.Runs.{answers, rl_pread}
use libntfs.Device.Runs.Stored.{contents, IsStored}
use libntfs.Device.Runs.Whole.{rl_pread-contents}
use libntfs.Device.{got, Driver, ntfs_pread}
use libntfs.Device.Disk.{Serves, ntfs_pread-Serves}

abbrev disk : List ℕ
disk = 11 ∷ 12 ∷ 13 ∷ 14 ∷ 15 ∷ []

abbrev one_at_most : ℕ → ℕ
one_at_most zero = 0
one_at_most (suc count) = 1

-- Its state counts the calls.
abbrev bytewise : Driver ℕ
bytewise calls pos count = (got (take (one_at_most count) (drop pos disk)), suc calls)

one_at_most_le : (count : ℕ) → one_at_most count ≤ count
one_at_most_le zero = omega arith
one_at_most_le (suc count) = omega arith

one_at_most_pos : (count : ℕ) → 0 < count → 0 < one_at_most count
one_at_most_pos zero h = h
one_at_most_pos (suc count) h = omega arith

bytewise-Serves : Serves disk bytewise
bytewise-Serves = record {
  piece = λ calls pos count. one_at_most count;
  answers = λ calls pos count. refl;
  at_most = λ calls pos count. one_at_most_le count;
  progress = λ calls pos count. one_at_most_pos count;
}

ntfs_pread-Serves_example :
    (calls : ℕ) × (ntfs_pread bytewise 0 1 3 ≡ some (got (take 3 (drop 1 disk)), calls))
ntfs_pread-Serves_example =
    ntfs_pread-Serves disk bytewise 0 1 3 bytewise-Serves (omega arith) (omega arith)

-- With clusters of 2 bytes: cluster 1, a hole of one cluster, and cluster 0.
abbrev runs : Runlist
runs =
    record { vcn = 0; lcn = 1; length = 1 }
    ∷ record { vcn = 1; lcn = lcn_hole; length = 1 }
    ∷ record { vcn = 2; lcn = 0; length = 1 }
    ∷ record { vcn = 3; lcn = lcn_enoent; length = 0 }
    ∷ []

runs-IsStored : IsStored 1 disk runs
unfolding IsStored
runs-IsStored = inr (
  omega arith,
  record { positive = omega arith; small = omega arith; placed = inr (refl, omega arith) },
  inr (
    omega arith,
    record { positive = omega arith; small = omega arith; placed = inl refl },
    inr (
      omega arith,
      record { positive = omega arith; small = omega arith; placed = inr (refl, omega arith) },
      inl refl,
    ),
  ),
)

rl_pread-contents_example :
    (calls : ℕ) × (rl_pread bytewise 1 1 runs 0 1 4
      ≡ answers (got (take 4 (drop 1 (contents 1 disk runs)))) calls)
unfolding contents
rl_pread-contents_example =
    rl_pread-contents bytewise disk 0 1 runs 0 1 4 bytewise-Serves (omega arith) runs-IsStored
      (omega arith) (omega arith)

contents_test : contents 1 disk runs ≡ 13 ∷ 14 ∷ 0 ∷ 0 ∷ 11 ∷ 12 ∷ []
unfolding contents
contents_test = refl
