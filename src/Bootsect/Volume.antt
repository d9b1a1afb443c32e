-- ===== src/Bootsect/Volume.antt =====
-- source/bootsect.c: the members of the volume that ntfs_boot_sector_parse sets up.
use libntfs.Prelude.{
  ℕ, ◌-◌, ◌*◌, ◌^◌, ◌≤◌, ◌<◌, ◌≡◌, ◌≢◌, refl, sym, ◌∙◌, ap, arith, ◌==◌, Bool, true, false, ◌||◌,
  if◌then◌else◌, inl, inr, Bool-cases,
}
use mathlib.Core.Path.{subst}
use native.Mathlib.Nat.{div-le_self}
use libntfs.Prelude.Word.{is_neg, asr64, IsS64}
use libntfs.Runlist.{ok, fault}
use libntfs.Bootsect.{
  NtfsBootSector, NtfsVolume, real_sectors_per_cluster, boot_sector_is_ntfs, ffs, bits_of,
  is_no_power, record_size, count_clusters, lcn_outside, mft_places_ok, parse_sizes,
  boot_sector_parse,
}
use libntfs.Bootsect.Powers.{is_no_power-bits_of}
use libntfs.Bootsect.Accepted.{
  IsAccepted, is_ntfs-IsAccepted, IsCode, IsCode-cases, record-IsSized, record-code,
  accepted-IsClustered,
}
use libntfs.Bootsect.Parse.{ok_of_bind, ok_of_refuse, ok_inj, cluster_bits}

record Sizes (b : NtfsBootSector) (sector_size nr_clusters cluster_size : ℕ) (vol : NtfsVolume)
    : Type 0 where
  sector : vol.sector_size ≡ sector_size
  clusters : vol.nr_clusters ≡ nr_clusters
  places : (vol.mft_lcn ≡ b.mft_lcn) × (vol.mftmirr_lcn ≡ b.mftmirr_lcn)
  cluster : (vol.cluster_size ≡ cluster_size) × (vol.cluster_size_bits ≡ bits_of cluster_size)
  cluster_power : is_no_power cluster_size ≡ false
  mft : record_size b.clusters_per_mft_record (bits_of cluster_size) ≡ ok vol.mft_record_size
  mft_bits : vol.mft_record_size_bits ≡ bits_of vol.mft_record_size
  mft_power : is_no_power vol.mft_record_size ≡ false

volume_inj : (v w : NtfsVolume) → ok v ≡ ok w → v ≡ w
volume_inj v w h = cc

parse_sizes-Sizes :
    (b : NtfsBootSector) (sector_size nr_clusters cluster_size : ℕ) (vol : NtfsVolume)
    → parse_sizes b sector_size nr_clusters cluster_size ≡ ok vol
    → Sizes b sector_size nr_clusters cluster_size vol
unfolding parse_sizes
parse_sizes-Sizes b sector_size nr_clusters cluster_size vol h = ok_of_refuse _ _ vol h (λ power h1.
    ok_of_bind _ _ vol h1 (λ mft e1 h2. ok_of_refuse _ _ vol h2 (λ mft_power h3.
      ok_of_bind _ _ vol h3 (λ index e2 h4. ok_of_bind _ _ vol h4 (λ mirror e3 h5.
        let same = sym (volume_inj _ vol h5) in
        record {
          sector = ap (λ v. v.sector_size) same;
          clusters = ap (λ v. v.nr_clusters) same;
          places = (ap (λ v. v.mft_lcn) same, ap (λ v. v.mftmirr_lcn) same);
          cluster = (ap (λ v. v.cluster_size) same, ap (λ v. v.cluster_size_bits) same);
          cluster_power = power;
          mft = e1 ∙ ap ok (sym (ap (λ v. v.mft_record_size) same));
          mft_bits =
              ap (λ v. v.mft_record_size_bits) same
              ∙ ap bits_of (sym (ap (λ v. v.mft_record_size) same));
          mft_power = ap is_no_power (ap (λ v. v.mft_record_size) same) ∙ mft_power;
        })))))

-- What stands in front of the sizes.
record Checked (b : NtfsBootSector) (vol : NtfsVolume) : Type 0 where
  spc : ℕ
  nr_clusters : ℕ
  real : real_sectors_per_cluster b.bpb.sectors_per_cluster ≡ ok spc
  some_sectors : (b.number_of_sectors == 0) ≡ false
  counted : count_clusters b.number_of_sectors spc ≡ ok nr_clusters
  within : (lcn_outside b.mft_lcn nr_clusters || lcn_outside b.mftmirr_lcn nr_clusters) ≡ false
  sizes : Sizes b b.bpb.bytes_per_sector nr_clusters (spc * b.bpb.bytes_per_sector) vol

parse-Checked :
    (seek_fails : ℕ → Bool) (b : NtfsBootSector) (vol : NtfsVolume)
    → boot_sector_parse seek_fails b ≡ ok vol
    → Checked b vol
unfolding boot_sector_parse
parse-Checked seek_fails b vol h = ok_of_bind _ _ vol h (λ spc e1 h1.
    ok_of_refuse _ _ vol h1 (λ power h2. ok_of_refuse _ _ vol h2 (λ sized h3.
      ok_of_bind _ _ vol h3 (λ pos e2 h4. ok_of_refuse _ _ vol h4 (λ sought h5.
        ok_of_bind _ _ vol h5 (λ nr_clusters e3 h6. ok_of_refuse _ _ vol h6 (λ within h7. record {
          spc = spc;
          nr_clusters = nr_clusters;
          real = e1;
          some_sectors = sized;
          counted = e3;
          within = within;
          sizes = parse_sizes-Sizes b _ nr_clusters _ vol h7;
        })))))))

asr64_small : (n k : ℕ) → IsS64 n → IsS64 (asr64 n k)
asr64_small n k h = elim (Bool-cases (is_neg n)) [
  | inl e ↦ rw e (omega arith)
  | inr e ↦ rw e (omega (arith, h, div-le_self n (2 ^ k)))
]

counted_value : (none_set : Bool) (n nr : ℕ) → (if none_set then fault else ok n) ≡ ok nr → n ≡ nr
counted_value true n nr h = absurd (cc)
counted_value false n nr h = ok_inj n nr h

count_clusters-small :
    (sectors spc nr_clusters : ℕ)
    → IsS64 sectors
    → count_clusters sectors spc ≡ ok nr_clusters
    → IsS64 nr_clusters
unfolding count_clusters
count_clusters-small sectors spc nr_clusters h e =
    omega (arith, counted_value _ _ nr_clusters e, asr64_small sectors (ffs spc - 1) h)

or_false : (a b : Bool) → (a || b) ≡ false → (a ≡ false) × (b ≡ false)
or_false true b h = absurd (cc)
or_false false b h = (refl, h)

inside : (lcn nr : ℕ) → IsS64 nr → lcn_outside lcn nr ≡ false → (lcn ≤ nr) × (nr < 2 ^ 63)
inside lcn nr h k = (ground (arith, h, k), ground (arith, h, k))

places_ok :
    (b : NtfsBootSector)
    → mft_places_ok b ≡ true
    → (0 < b.mft_lcn) × (0 < b.mftmirr_lcn) × (b.mft_lcn ≢ b.mftmirr_lcn)
unfolding mft_places_ok
places_ok b h = (ground (arith, h), ground (arith, h), λ e. ground (arith, h, e))

-- The volume of an accepted boot sector.
pub record IsSetUp (b : NtfsBootSector) (vol : NtfsVolume) : Type 0 where
  pub sector : vol.sector_size ≡ b.bpb.bytes_per_sector
  pub cluster_power : vol.cluster_size ≡ 2 ^ vol.cluster_size_bits
  pub cluster_maximal : vol.cluster_size ≤ 2 ^ 21
  pub record_power : vol.mft_record_size ≡ 2 ^ vol.mft_record_size_bits
  pub mft : (0 < vol.mft_lcn) × (vol.mft_lcn ≤ vol.nr_clusters)
  pub mirror : (0 < vol.mftmirr_lcn) × (vol.mftmirr_lcn ≤ vol.nr_clusters)
  pub apart : vol.mft_lcn ≢ vol.mftmirr_lcn
  pub countable : vol.nr_clusters < 2 ^ 63

set_up :
    (b : NtfsBootSector) (vol : NtfsVolume) (spc nr_clusters : ℕ)
    → IsAccepted b
    → IsCode b.bpb.sectors_per_cluster spc
    → IsS64 nr_clusters
    → (lcn_outside b.mft_lcn nr_clusters || lcn_outside b.mftmirr_lcn nr_clusters) ≡ false
    → Sizes b b.bpb.bytes_per_sector nr_clusters (spc * b.bpb.bytes_per_sector) vol
    → IsSetUp b vol
set_up b vol spc nr_clusters a c small within sizes =
    let size = spc * b.bpb.bytes_per_sector in
    let k = accepted-IsClustered b spc a c in
    let (mft_in, mirror_in) = or_false _ _ within in
    let (first, below) = inside b.mft_lcn nr_clusters small mft_in in
    let (second, _) = inside b.mftmirr_lcn nr_clusters small mirror_in in
    let (pos, pos', apart) = places_ok b a.places in
    let r =
      record-IsSized b.clusters_per_mft_record _ a.mft_record
        (record-code b.clusters_per_mft_record _ vol.mft_record_size sizes.mft)
        (cluster_bits b spc k sizes.cluster_power) in
    let same = ok_inj _ _ (sym r.is_ok ∙ sizes.mft) in
    record {
      sector = sizes.sector;
      cluster_power =
          sizes.cluster.0
          ∙ is_no_power-bits_of size (omega (arith, k.maximal)) k.positive sizes.cluster_power
          ∙ ap (λ n. 2 ^ n) (sym sizes.cluster.1);
      cluster_maximal = omega (arith, sizes.cluster.0, k.maximal);
      record_power =
          is_no_power-bits_of vol.mft_record_size (omega (arith, same, r.small))
            (omega (arith, same, r.positive)) sizes.mft_power
          ∙ ap (λ n. 2 ^ n) (sym sizes.mft_bits);
      mft = (
        omega (arith, pos, sizes.places.0),
        omega (arith, first, sizes.places.0, sizes.clusters),
      );
      mirror = (
        omega (arith, pos', sizes.places.1),
        omega (arith, second, sizes.places.1, sizes.clusters),
      );
      apart = λ e. apart (sym sizes.places.0 ∙ e ∙ sizes.places.1);
      countable = omega (arith, below, sizes.clusters);
    }

-- When ntfs_boot_sector_parse sets up a volume from an accepted boot sector whose code for the
-- sectors of a cluster is not 240: the cluster size is at most 2 MiB, it and the size of an mft
-- record are the powers of two that the stored exponents tell, and the mft and its mirror have
-- different places, neither in front of cluster 1 nor behind the number of clusters.
pub parse-IsSetUp :
    (seek_fails : ℕ → Bool) (b : NtfsBootSector) (vol : NtfsVolume)
    → boot_sector_is_ntfs b ≡ true
    → b.bpb.sectors_per_cluster ≢ 240
    → IsS64 b.number_of_sectors
    → boot_sector_parse seek_fails b ≡ ok vol
    → IsSetUp b vol
parse-IsSetUp seek_fails b vol accepted ne signed h =
    let a = is_ntfs-IsAccepted b accepted in
    let (spc, c) = IsCode-cases b.bpb.sectors_per_cluster a.code ne in
    let k = parse-Checked seek_fails b vol h in
    let same = ok_inj _ _ (sym k.real ∙ c.real) in
    set_up b vol spc k.nr_clusters a c
      (count_clusters-small b.number_of_sectors k.spc k.nr_clusters signed k.counted) k.within
      (subst (λ n. Sizes b b.bpb.bytes_per_sector k.nr_clusters (n * b.bpb.bytes_per_sector) vol)
        same k.sizes)
