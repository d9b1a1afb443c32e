-- ===== src/Tests/Bootsects.antt =====
-- source/bootsect.c on concrete boot sectors.
use libntfs.Prelude.{ℕ, ◌≡◌, ◌≢◌, refl, arith, true, false, Bool}
use libntfs.Runlist.{ok, fault}
use libntfs.Bootsect.{
  ◌>>=◌, NtfsBootSector, NtfsVolume, sectors_per_cluster_ok, record_clusters_ok,
  real_sectors_per_cluster, cluster_size_ok, reserved_are_zero, mft_places_ok, boot_sector_is_ntfs,
  ffs_loop, bits_of, is_no_power, refuse_if, record_size, mirror_size, count_clusters, last_sector,
  parse_sizes, boot_sector_parse,
}
use libntfs.Bootsect.Parse.{parse-ne-fault}
use libntfs.Bootsect.Volume.{IsSetUp, parse-IsSetUp}
use libntfs.Bootsect.Overflow.{parse-fault}

-- Sectors of 512 bytes, and the code for the sectors of a cluster.
abbrev sector_with : ℕ → NtfsBootSector
sector_with code = record {
  oem_id = 0x202020205346544e;
  bpb = record {
    bytes_per_sector = 512;
    sectors_per_cluster = code;
    reserved_sectors = 0;
    fats = 0;
    root_entries = 0;
    sectors = 0;
    sectors_per_fat = 0;
    large_sectors = 0;
  };
  number_of_sectors = 204800;
  mft_lcn = 4;
  mftmirr_lcn = 12800;
  clusters_per_mft_record = 0xf6;
  clusters_per_index_record = 1;
}

abbrev seeks_all : ℕ → Bool
seeks_all pos = false

volume : NtfsVolume
volume = record {
  sector_size = 512;
  sector_size_bits = 9;
  nr_clusters = 25600;
  mft_lcn = 4;
  mftmirr_lcn = 12800;
  cluster_size = 4096;
  cluster_size_bits = 12;
  mft_record_size = 1024;
  mft_record_size_bits = 10;
  indx_record_size = 4096;
  indx_record_size_bits = 12;
  mftmirr_size = 4;
}

is_accepted : boot_sector_is_ntfs (sector_with 8) ≡ true
unfolding boot_sector_is_ntfs sectors_per_cluster_ok record_clusters_ok real_sectors_per_cluster
    cluster_size_ok reserved_are_zero mft_places_ok
is_accepted = refl

is_parsed : boot_sector_parse seeks_all (sector_with 8) ≡ ok volume
unfolding volume ◌>>=◌ ffs_loop bits_of is_no_power refuse_if record_size mirror_size count_clusters
    last_sector parse_sizes boot_sector_parse real_sectors_per_cluster
is_parsed = refl

wrapped_accepted : boot_sector_is_ntfs (sector_with 240) ≡ true
unfolding boot_sector_is_ntfs sectors_per_cluster_ok record_clusters_ok real_sectors_per_cluster
    cluster_size_ok reserved_are_zero mft_places_ok
wrapped_accepted = refl

parse-ne-fault_example : boot_sector_parse seeks_all (sector_with 8) ≢ fault
parse-ne-fault_example =
    parse-ne-fault seeks_all (sector_with 8) is_accepted (λ e. absurd (omega arith))
      (λ e. absurd (omega arith)) (λ e. absurd (omega arith)) (omega arith)

parse-IsSetUp_example : IsSetUp (sector_with 8) volume
parse-IsSetUp_example =
    parse-IsSetUp seeks_all (sector_with 8) volume is_accepted (λ e. absurd (omega arith))
      (omega arith) is_parsed

parse-fault_example : boot_sector_parse seeks_all (sector_with 240) ≡ fault
parse-fault_example =
    parse-fault seeks_all (sector_with 240) wrapped_accepted refl (λ e. absurd (omega arith))
      (λ pos. refl)
