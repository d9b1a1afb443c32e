-- ===== src/Bootsect/Accepted.antt =====
-- source/bootsect.c: what ntfs_boot_sector_is_ntfs says of the numbers that are parsed.
use libntfs.Prelude.{
  ℕ, ◌-◌, ◌*◌, ◌%◌, ◌^◌, ◌≤◌, ◌<◌, ◌≡◌, ◌≢◌, ◌⊎◌, refl, sym, ◌∙◌, ap, arith, inl, inr, ◌==◌, ltb,
  leb, Bool, true, false, not, ◌&&◌, ◌||◌, Bool-cases,
}
use native.Mathlib.Nat.{mul-le-mul, mul-pos, mul_comm, one-le-pow, pow-le-pow_right}
use libntfs.Runlist.{Outcome, ok, fault}
use libntfs.Bootsect.{
  NtfsBootSector, sectors_per_cluster_ok, record_clusters_ok, real_sectors_per_cluster,
  cluster_size_ok, reserved_are_zero, mft_places_ok, boot_sector_is_ntfs, record_size,
}

-- What ntfs_boot_sector_is_ntfs says of the numbers that ntfs_boot_sector_parse uses.
pub record IsAccepted (b : NtfsBootSector) : Type 0 where
  pub sector : (256 ≤ b.bpb.bytes_per_sector) × (b.bpb.bytes_per_sector ≤ 4096)
  pub code : sectors_per_cluster_ok b.bpb.sectors_per_cluster ≡ true
  pub cluster :
      cluster_size_ok b.bpb.bytes_per_sector (real_sectors_per_cluster b.bpb.sectors_per_cluster)
      ≡ true
  pub mft_record : record_clusters_ok b.clusters_per_mft_record ≡ true
  pub index_record : record_clusters_ok b.clusters_per_index_record ≡ true
  pub places : mft_places_ok b ≡ true

all_eight :
    (a b c d e f g h : Bool)
    → (a && b && c && d && e && f && g && h) ≡ true
    → (b ≡ true) × (c ≡ true) × (d ≡ true) × (f ≡ true) × (g ≡ true) × (h ≡ true)
all_eight true true true true true true true true q = (refl, refl, refl, refl, refl, refl)
all_eight true true true true true true true false q = absurd (cc)
all_eight true true true true true true false h q = absurd (cc)
all_eight true true true true true false g h q = absurd (cc)
all_eight true true true true false f g h q = absurd (cc)
all_eight true true true false e f g h q = absurd (cc)
all_eight true true false d e f g h q = absurd (cc)
all_eight true false c d e f g h q = absurd (cc)
all_eight false b c d e f g h q = absurd (cc)

sector_bounds : (x : ℕ) → not (ltb x 256 || ltb 4096 x) ≡ true → (256 ≤ x) × (x ≤ 4096)
sector_bounds x h = (ground (arith, h), ground (arith, h))

pub is_ntfs-IsAccepted : (b : NtfsBootSector) → boot_sector_is_ntfs b ≡ true → IsAccepted b
unfolding boot_sector_is_ntfs
is_ntfs-IsAccepted b h =
    let (sector, code, cluster, mft_record, index_record, places) =
      all_eight (b.oem_id == 0x202020205346544e)
        (not (ltb b.bpb.bytes_per_sector 256 || ltb 4096 b.bpb.bytes_per_sector))
        (sectors_per_cluster_ok b.bpb.sectors_per_cluster)
        (cluster_size_ok b.bpb.bytes_per_sector
          (real_sectors_per_cluster b.bpb.sectors_per_cluster))
        (reserved_are_zero b.bpb) (record_clusters_ok b.clusters_per_mft_record)
        (record_clusters_ok b.clusters_per_index_record) (mft_places_ok b) h in
    record {
      sector = sector_bounds b.bpb.bytes_per_sector sector;
      code = code;
      cluster = cluster;
      mft_record = mft_record;
      index_record = index_record;
      places = places;
    }

-- The number of sectors that a code means, where a u16 holds it.
pub record IsCode (code spc : ℕ) : Type 0 where
  pub real : real_sectors_per_cluster code ≡ ok spc
  pub positive : 0 < spc
  pub small : spc < 2 ^ 16

negative_codes :
    (code : ℕ) → sectors_per_cluster_ok code ≡ true → 128 < code → (240 ≤ code) × (code ≤ 253)
unfolding sectors_per_cluster_ok
negative_codes code h high = (ground (arith, h, high), ground (arith, h, high))

positive_codes : (code : ℕ) → sectors_per_cluster_ok code ≡ true → 0 < code
unfolding sectors_per_cluster_ok
positive_codes code h = ground (arith, h)

power_bounds : (k : ℕ) → k ≤ 15 → (0 < 2 ^ k) × (2 ^ k < 2 ^ 16)
power_bounds k h =
    (one-le-pow k 2 (omega arith), omega (arith, pow-le-pow_right {n = 2} (omega arith) h))

real-low : (code : ℕ) → code ≤ 128 → real_sectors_per_cluster code ≡ ok code
unfolding real_sectors_per_cluster
real-low code h = ground (arith, h)

real-high :
    (code : ℕ)
    → 240 < code
    → code ≤ 253
    → real_sectors_per_cluster code ≡ ok (2 ^ (256 - code) % 2 ^ 16)
unfolding real_sectors_per_cluster
real-high code h low = ground (arith, h, low)

pub IsCode-cases :
    (code : ℕ) → sectors_per_cluster_ok code ≡ true → code ≢ 240 → (spc : ℕ) × IsCode code spc
IsCode-cases code h ne = elim (Bool-cases (ltb 128 code)) [
  | inl high ↦
      let (above, below) = negative_codes code h (ground (arith, high)) in
      let (positive, small) = power_bounds (256 - code) (omega (arith, above, ne)) in
      (
        2 ^ (256 - code) % 2 ^ 16,
        record {
          real = real-high code (omega (arith, above, ne)) below;
          positive = omega (arith, positive, small);
          small = omega arith;
        },
      )
  | inr low ↦ (
    code,
    record {
      real = real-low code (ground (arith, low));
      positive = positive_codes code h;
      small = ground (arith, low);
    },
  )
]

pub record IsSized (outcome : Outcome ℕ) : Type 0 where
  pub size : ℕ
  pub is_ok : outcome ≡ ok size
  pub positive : 0 < size
  pub small : size < 2 ^ 32

record-low :
    (c bits : ℕ)
    → c ≤ 64
    → bits ≤ 21
    → c * 2 ^ bits < 2 ^ 31
    → record_size c bits ≡ ok (c * 2 ^ bits)
unfolding record_size
record-low c bits h k small = ground (arith, h, k, small)

record-high : (c bits : ℕ) → 0xe1 < c → c ≤ 0xf7 → record_size c bits ≡ ok (2 ^ (256 - c))
unfolding record_size
record-high c bits h k = ground (arith, h, k)

record_codes :
    (c : ℕ) → record_clusters_ok c ≡ true → ((0xe1 ≤ c) × (c ≤ 0xf7)) ⊎ ((0 < c) × (c ≤ 64))
unfolding record_clusters_ok
record_codes c h = elim (Bool-cases (ltb c 0xe1 || ltb 0xf7 c)) [
  | inl out ↦ inr (ground (arith, h, out), ground (arith, h, out))
  | inr within ↦ inl (ground (arith, within), ground (arith, within))
]

pub record-IsSized :
    (c bits : ℕ) → record_clusters_ok c ≡ true → c ≢ 0xe1 → bits ≤ 21 → IsSized (record_size c bits)
record-IsSized c bits h ne k = elim (record_codes c h) [
  | inl (low, high) ↦
      let up =
        pow-le-pow_right {n = 2} (omega arith) {i = 256 - c} {j = 30} (omega (arith, low, ne)) in
      record {
        size = 2 ^ (256 - c);
        is_ok = record-high c bits (omega (arith, low, ne)) high;
        positive = one-le-pow (256 - c) 2 (omega arith);
        small = omega (arith, up);
      }
  | inr (positive, low) ↦
      let up =
        mul-le-mul {n₁ = c} {m₁ = 2 ^ bits} {n₂ = 64} {m₂ = 2 ^ 21} low
          (pow-le-pow_right {n = 2} (omega arith) k) in
      let down =
        mul-le-mul {n₁ = 1} {m₁ = 1} {n₂ = c} {m₂ = 2 ^ bits} positive
          (one-le-pow bits 2 (omega arith)) in
      record {
        size = c * 2 ^ bits;
        is_ok = record-low c bits low k (omega (arith, up));
        positive = omega (arith, down);
        small = omega (arith, up);
      }
]

-- A size that is not undefined is not the one of the code 0xe1.
pub record-code : (c bits size : ℕ) → record_size c bits ≡ ok size → c ≢ 0xe1
unfolding record_size
record-code c bits size h e = fault_ne-ok size (sym (ap (λ c. record_size c bits) e) ∙ h)
  where
    fault_ne-ok : (size : ℕ) → fault ≢ ok size
    fault_ne-ok size q = absurd (cc)

-- The size of a cluster of an accepted boot sector.
pub record IsClustered (b : NtfsBootSector) (spc : ℕ) : Type 0 where
  pub positive : 0 < spc * b.bpb.bytes_per_sector
  pub maximal : spc * b.bpb.bytes_per_sector ≤ 2 ^ 21

cluster_fits :
    (bytes spc : ℕ) → cluster_size_ok bytes (ok spc) ≡ true → bytes * spc % 2 ^ 32 ≤ 2 ^ 21
unfolding cluster_size_ok
cluster_fits bytes spc h = ground (arith, h)

pub accepted-IsClustered :
    (b : NtfsBootSector) (spc : ℕ)
    → IsAccepted b
    → IsCode b.bpb.sectors_per_cluster spc
    → IsClustered b spc
accepted-IsClustered b spc a c =
    let bytes = b.bpb.bytes_per_sector in
    let fits = cluster_fits bytes spc (ap (cluster_size_ok bytes) (sym c.real) ∙ a.cluster) in
    let up =
      mul-le-mul {n₁ = bytes} {m₁ = spc} {n₂ = 4096} {m₂ = 2 ^ 16} a.sector.1
        (omega (arith, c.small)) in
    let down = mul-pos {m = spc} {n = bytes} c.positive (omega (arith, a.sector.0)) in
    record { positive = down; maximal = omega (arith, mul_comm bytes spc, fits, up) }

-- The exponent of such a size.
pub exponent_le : (k : ℕ) → 2 ^ k ≤ 2 ^ 21 → k ≤ 21
exponent_le k h = elim (Bool-cases (leb k 21)) [
  | inl low ↦ ground (arith, low)
  | inr high ↦ absurd (
      omega
        (arith, h, pow-le-pow_right {n = 2} (omega arith) {i = 22} {j = k} (ground (arith, high))))
]
