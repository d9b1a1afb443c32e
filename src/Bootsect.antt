-- ===== src/Bootsect.antt =====
-- source/bootsect.c: the test of a boot sector, and the volume that is set up from it. The fields
-- are those of source/layout.h: unsigned ones as their values, signed ones as their patterns.
pub mod Powers
pub mod Accepted
pub mod Overflow
pub mod Parse
pub mod Volume
use libntfs.Prelude.{
  ℕ, zero, suc, ◌+◌, ◌-◌, ◌*◌, ◌/◌, ◌%◌, ◌^◌, Bool, true, false, not, ◌&&◌, ◌||◌, ltb, leb, ◌==◌,
  if◌then◌else◌, Option,
}
use Prim.Native.Nat.{bit_and}
use libntfs.Prelude.Word.{is_neg, slt, asr64}
use libntfs.Runlist.{Outcome, ok, fails, fault, einval}

pub record BiosParameterBlock : Type 0 where
  pub bytes_per_sector : ℕ
  pub sectors_per_cluster : ℕ
  pub reserved_sectors : ℕ
  pub fats : ℕ
  pub root_entries : ℕ
  pub sectors : ℕ
  pub sectors_per_fat : ℕ
  pub large_sectors : ℕ

pub record NtfsBootSector : Type 0 where
  pub oem_id : ℕ
  pub bpb : BiosParameterBlock
  pub number_of_sectors : ℕ
  pub mft_lcn : ℕ
  pub mftmirr_lcn : ℕ
  pub clusters_per_mft_record : ℕ
  pub clusters_per_index_record : ℕ

abbrev pub ntfs_max_cluster_size : ℕ
ntfs_max_cluster_size = 2097152

-- The cases 1, 2, 4 and so on up to 0x40 of a `switch`.
abbrev pub is_small_power : ℕ → Bool
is_small_power c =
    c == 1 || (c == 2) || (c == 4) || (c == 8) || (c == 0x10) || (c == 0x20) || (c == 0x40)

unfoldable pub sectors_per_cluster_ok : ℕ → Bool
sectors_per_cluster_ok code =
    is_small_power code || (code == 128) || not (ltb code 240 || ltb 253 code)

unfoldable pub record_clusters_ok : ℕ → Bool
record_clusters_ok c = not (ltb c 0xe1 || ltb 0xf7 c) || is_small_power c

-- A shift by 32 or more is undefined. The result is stored in a u16.
unfoldable pub real_sectors_per_cluster : ℕ → Outcome ℕ
real_sectors_per_cluster code =
    if ltb 128 code
    then (if ltb (256 - code) 32 then ok (2 ^ (256 - code) % 2 ^ 16) else fault)
    else ok code

unfoldable pub cluster_size_ok : ℕ → Outcome ℕ → Bool
cluster_size_ok bytes_per_sector (ok spc) =
    leb (bytes_per_sector * spc % 2 ^ 32) ntfs_max_cluster_size
cluster_size_ok bytes_per_sector (fails e) = false
cluster_size_ok bytes_per_sector fault = false

unfoldable pub reserved_are_zero : BiosParameterBlock → Bool
reserved_are_zero bpb =
    bpb.reserved_sectors == 0
    && (bpb.root_entries == 0)
    && (bpb.sectors == 0)
    && (bpb.sectors_per_fat == 0)
    && (bpb.large_sectors == 0)
    && (bpb.fats == 0)

-- `(s64)lcn <= 0`
abbrev pub not_positive : ℕ → Bool
not_positive lcn = is_neg lcn || (lcn == 0)

unfoldable pub mft_places_ok : NtfsBootSector → Bool
mft_places_ok b =
    not (not_positive b.mft_lcn || not_positive b.mftmirr_lcn || (b.mft_lcn == b.mftmirr_lcn))

unfoldable pub boot_sector_is_ntfs : NtfsBootSector → Bool
boot_sector_is_ntfs b =
    b.oem_id == 0x202020205346544e
    && not (ltb b.bpb.bytes_per_sector 256 || ltb 4096 b.bpb.bytes_per_sector)
    && sectors_per_cluster_ok b.bpb.sectors_per_cluster
    && cluster_size_ok b.bpb.bytes_per_sector (real_sectors_per_cluster b.bpb.sectors_per_cluster)
    && reserved_are_zero b.bpb
    && record_clusters_ok b.clusters_per_mft_record
    && record_clusters_ok b.clusters_per_index_record
    && mft_places_ok b

-- ffs of the C library, on numbers of `bits` bits.
unfoldable pub ffs_loop : ℕ → ℕ → ℕ
ffs_loop zero x = 0
ffs_loop (suc bits) x =
    let rest = ffs_loop bits (x / 2) in if x == 0 then 0 else (if x % 2 == 1 then 1 else suc rest)

abbrev pub ffs : ℕ → ℕ
ffs x = ffs_loop 32 x

-- `ffs(x) - 1` in a u8.
unfoldable pub bits_of : ℕ → ℕ
bits_of x = (ffs x + 255) % 256

-- `x & (x - 1)` is not 0. At 0 it is 0.
unfoldable pub is_no_power : ℕ → Bool
is_no_power x = not (bit_and x (x - 1) == 0)

infixl 5 ◌>>=◌
unfoldable pub ◌>>=◌ {ℓ κ} : {A : Type ℓ} {B : Type κ} → Outcome A → (A → Outcome B) → Outcome B
ok a >>= f = f a
fails e >>= f = fails e
fault >>= f = fault

-- `if (wrong) return -1;`
unfoldable pub refuse_if {ℓ} : {A : Type ℓ} → Bool → Outcome A → Outcome A
refuse_if wrong rest = if wrong then fails einval else rest

-- The members of ntfs_volume that are set.
pub record NtfsVolume : Type 0 where
  pub sector_size : ℕ
  pub sector_size_bits : ℕ
  pub nr_clusters : ℕ
  pub mft_lcn : ℕ
  pub mftmirr_lcn : ℕ
  pub cluster_size : ℕ
  pub cluster_size_bits : ℕ
  pub mft_record_size : ℕ
  pub mft_record_size_bits : ℕ
  pub indx_record_size : ℕ
  pub indx_record_size_bits : ℕ
  pub mftmirr_size : ℕ

-- The size of a record of `c` clusters, or of 2 ^ -c bytes. A shift of an int to 2 ^ 31 or more is
-- undefined.
unfoldable pub record_size : ℕ → ℕ → Outcome ℕ
record_size c cluster_size_bits =
    if ltb 127 c
    then (if ltb (256 - c) 31 then ok (2 ^ (256 - c)) else fault)
    else (if ltb cluster_size_bits 32 && ltb (c * 2 ^ cluster_size_bits) (2 ^ 31)
        then ok (c * 2 ^ cluster_size_bits)
        else fault)

unfoldable pub mirror_size : ℕ → ℕ → Outcome ℕ
mirror_size cluster_size mft_record_size =
    if leb cluster_size (4 * mft_record_size % 2 ^ 32)
    then ok 4
    else (if mft_record_size == 0 then fault else ok (cluster_size / mft_record_size))

-- `sectors >> (ffs(sectors_per_cluster) - 1)`
unfoldable pub count_clusters : ℕ → ℕ → Outcome ℕ
count_clusters sectors spc = if ffs spc == 0 then fault else ok (asr64 sectors (ffs spc - 1))

abbrev pub lcn_outside : ℕ → ℕ → Bool
lcn_outside lcn nr_clusters = is_neg lcn || slt nr_clusters lcn

-- `(sectors - 1) << vol->sector_size_bits`, of an s64: undefined where `sectors` is negative, and
-- where the result is 2 ^ 63 or more.
unfoldable pub last_sector : ℕ → ℕ → Outcome ℕ
last_sector sectors bits =
    if is_neg sectors
      || (sectors == 0)
      || not (ltb bits 64)
      || not (ltb ((sectors - 1) * 2 ^ bits) (2 ^ 63))
    then fault
    else ok ((sectors - 1) * 2 ^ bits)

-- From the size of a cluster on.
unfoldable pub parse_sizes : NtfsBootSector → ℕ → ℕ → ℕ → Outcome NtfsVolume
parse_sizes bs sector_size nr_clusters cluster_size = refuse_if (is_no_power cluster_size) (do
  mft_record_size ← record_size bs.clusters_per_mft_record (bits_of cluster_size)
  refuse_if (is_no_power mft_record_size) (do
    indx_record_size ← record_size bs.clusters_per_index_record (bits_of cluster_size)
    mftmirr_size ← mirror_size cluster_size mft_record_size
    ok (record {
      sector_size = sector_size;
      sector_size_bits = bits_of sector_size;
      nr_clusters = nr_clusters;
      mft_lcn = bs.mft_lcn;
      mftmirr_lcn = bs.mftmirr_lcn;
      cluster_size = cluster_size;
      cluster_size_bits = bits_of cluster_size;
      mft_record_size = mft_record_size;
      mft_record_size_bits = bits_of mft_record_size;
      indx_record_size = indx_record_size;
      indx_record_size_bits = bits_of indx_record_size;
      mftmirr_size = mftmirr_size;
    })))

-- `seek_fails pos` tells that the device's seek to `pos` returns -1.
unfoldable pub boot_sector_parse : (ℕ → Bool) → NtfsBootSector → Outcome NtfsVolume
boot_sector_parse seek_fails bs = do
  spc ← real_sectors_per_cluster bs.bpb.sectors_per_cluster
  refuse_if (is_no_power spc) (
      refuse_if (bs.number_of_sectors == 0) (do
        pos ← last_sector bs.number_of_sectors (bits_of bs.bpb.bytes_per_sector)
        refuse_if (seek_fails pos) (do
          nr_clusters ← count_clusters bs.number_of_sectors spc
          refuse_if (lcn_outside bs.mft_lcn nr_clusters || lcn_outside bs.mftmirr_lcn nr_clusters) (
              parse_sizes bs bs.bpb.bytes_per_sector nr_clusters (spc * bs.bpb.bytes_per_sector)))))
