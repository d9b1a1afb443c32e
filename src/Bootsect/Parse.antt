-- ===== src/Bootsect/Parse.antt =====
-- source/bootsect.c: the volume that is set up from an accepted boot sector.
use libntfs.Prelude.{
  ℕ, ◌-◌, ◌==◌, ◌*◌, ◌^◌, ◌≤◌, ◌<◌, ◌≡◌, ◌≢◌, refl, sym, ◌∙◌, arith, Bool, true, false,
}
use libntfs.Runlist.{Outcome, ok, fails, fault}
use libntfs.Bootsect.{
  ◌>>=◌, NtfsBootSector, boot_sector_is_ntfs, bits_of, is_no_power, refuse_if, mirror_size,
  count_clusters, last_sector, parse_sizes, boot_sector_parse,
}
use libntfs.Bootsect.Powers.{is_no_power-bits_of, ffs_le, ffs_pos, bits_of-le}
use native.Mathlib.Nat.{mul-le-mul}
use libntfs.Bootsect.Accepted.{
  IsAccepted, is_ntfs-IsAccepted, IsCode-cases, record-IsSized, IsClustered, accepted-IsClustered,
  exponent_le,
}

-- A chain that succeeds, taken apart.
pub ok_of_bind :
    {A B P : Type 0} (m : Outcome A) (f : A → Outcome B) (b : B)
    → m >>= f ≡ ok b
    → ((a : A) → m ≡ ok a → f a ≡ ok b → P)
    → P
unfolding ◌>>=◌
ok_of_bind (ok a) f b h k = k a refl h
ok_of_bind (fails e) f b h k = absurd (cc)
ok_of_bind fault f b h k = absurd (cc)

pub ok_of_refuse :
    {A P : Type 0} (wrong : Bool) (rest : Outcome A) (a : A)
    → refuse_if wrong rest ≡ ok a
    → (wrong ≡ false → rest ≡ ok a → P)
    → P
unfolding refuse_if
ok_of_refuse true rest a h k = absurd (cc)
ok_of_refuse false rest a h k = k refl h

-- A chain that does not fault.
bind_no-fault :
    {A B : Type 0} (m : Outcome A) (f : A → Outcome B)
    → m ≢ fault
    → ((a : A) → m ≡ ok a → f a ≢ fault)
    → m >>= f ≢ fault
unfolding ◌>>=◌
bind_no-fault (ok a) f h k = k a refl
bind_no-fault (fails e) f h k = λ q. absurd (cc)
bind_no-fault fault f h k = absurd (h refl)

refuse_no-fault :
    {A : Type 0} (wrong : Bool) (rest : Outcome A)
    → (wrong ≡ false → rest ≢ fault)
    → refuse_if wrong rest ≢ fault
unfolding refuse_if
refuse_no-fault true rest h = λ q. absurd (cc)
refuse_no-fault false rest h = h refl

value_no-fault : {A : Type 0} (a : A) → ok a ≢ fault
value_no-fault a q = absurd (cc)

bits_of-small : (x : ℕ) → x < 2 ^ 32 → 0 < x → bits_of x < 64
unfolding bits_of
bits_of-small x h pos = omega (arith, ffs_le 32 x, ffs_pos 32 x h pos)

last_sector-defined :
    (sectors bits : ℕ)
    → 0 < sectors
    → sectors < 2 ^ 63
    → bits < 64
    → (sectors - 1) * 2 ^ bits < 2 ^ 63
    → last_sector sectors bits ≢ fault
unfolding last_sector
last_sector-defined sectors bits pos signed few below q = ground (arith, pos, signed, few, below, q)

last_sector-ok :
    (sectors x : ℕ)
    → 256 ≤ x
    → x ≤ 4096
    → (sectors - 1) * x < 2 ^ 63
    → (sectors == 0) ≡ false
    → last_sector sectors (bits_of x) ≢ fault
last_sector-ok sectors x low high below some_sectors =
    let lower =
      mul-le-mul {n₁ = sectors - 1} {m₁ = 256} {n₂ = sectors - 1} {m₂ = x} (omega arith) low in
    let upper =
      mul-le-mul {n₁ = sectors - 1} {m₁ = 2 ^ bits_of x} {n₂ = sectors - 1} {m₂ = x} (omega arith)
        (bits_of-le x (omega (arith, high)) (omega (arith, low))) in
    last_sector-defined sectors (bits_of x) (ground (arith, some_sectors))
      (omega (arith, lower, below)) (bits_of-small x (omega (arith, high)) (omega (arith, low)))
      (omega (arith, upper, below))

count_clusters-ok : (sectors spc : ℕ) → spc < 2 ^ 32 → 0 < spc → count_clusters sectors spc ≢ fault
unfolding count_clusters
count_clusters-ok sectors spc h pos q = ground (arith, ffs_pos 32 spc h pos, q)

mirror_size-ok : (cluster_size size : ℕ) → 0 < size → mirror_size cluster_size size ≢ fault
unfolding mirror_size
mirror_size-ok cluster_size size pos q = ground (arith, pos, q)

ok_ne-fault : (m : Outcome ℕ) (a : ℕ) → m ≡ ok a → m ≢ fault
ok_ne-fault m a h q = absurd (cc)

pub ok_inj : (a b : ℕ) → ok a ≡ ok b → a ≡ b
ok_inj a b h = cc

-- The exponent of the cluster size that the parser accepts.
pub cluster_bits :
    (b : NtfsBootSector) (spc : ℕ)
    → IsClustered b spc
    → is_no_power (spc * b.bpb.bytes_per_sector) ≡ false
    → bits_of (spc * b.bpb.bytes_per_sector) ≤ 21
cluster_bits b spc k power =
    let size = spc * b.bpb.bytes_per_sector in
    let e = is_no_power-bits_of size (omega (arith, k.maximal)) k.positive power in
    exponent_le (bits_of size) (omega (arith, e, k.maximal))

parse_sizes-ne-fault :
    (b : NtfsBootSector) (spc nr_clusters : ℕ)
    → IsAccepted b
    → b.clusters_per_mft_record ≢ 0xe1
    → b.clusters_per_index_record ≢ 0xe1
    → IsClustered b spc
    → parse_sizes b b.bpb.bytes_per_sector nr_clusters (spc * b.bpb.bytes_per_sector) ≢ fault
unfolding parse_sizes
parse_sizes-ne-fault b spc nr_clusters a ne_mft ne_index k = refuse_no-fault _ _ (λ power.
    let bits = cluster_bits b spc k power in
    let mft = record-IsSized b.clusters_per_mft_record _ a.mft_record ne_mft bits in
    let index = record-IsSized b.clusters_per_index_record _ a.index_record ne_index bits in
    bind_no-fault _ _ (ok_ne-fault _ _ mft.is_ok) (λ size e. refuse_no-fault _ _ (λ mft_power.
      bind_no-fault _ _ (ok_ne-fault _ _ index.is_ok) (λ index_size f.
        bind_no-fault _ _
          (mirror_size-ok _ size (omega (arith, mft.positive, ok_inj _ _ (sym mft.is_ok ∙ e))))
          (λ mirror g. value_no-fault _)))))

-- On an accepted boot sector whose code for the sectors of a cluster is not 240, whose codes for the
-- clusters of a record are not 0xe1, and whose last sector starts before byte 2 ^ 63,
-- ntfs_boot_sector_parse does nothing that C leaves undefined: no shift is too wide or by a
-- negative amount, none is of a negative number or overflows, and nothing is divided by 0.
pub parse-ne-fault :
    (seek_fails : ℕ → Bool) (b : NtfsBootSector)
    → boot_sector_is_ntfs b ≡ true
    → b.bpb.sectors_per_cluster ≢ 240
    → b.clusters_per_mft_record ≢ 0xe1
    → b.clusters_per_index_record ≢ 0xe1
    → (b.number_of_sectors - 1) * b.bpb.bytes_per_sector < 2 ^ 63
    → boot_sector_parse seek_fails b ≢ fault
unfolding boot_sector_parse
parse-ne-fault seek_fails b accepted ne ne_mft ne_index below =
    let a = is_ntfs-IsAccepted b accepted in
    let (spc, c) = IsCode-cases b.bpb.sectors_per_cluster a.code ne in
    bind_no-fault _ _ (ok_ne-fault _ spc c.real) (λ spc' e.
      let same = ok_inj _ _ (sym e ∙ c.real) in
      refuse_no-fault _ _ (λ power. refuse_no-fault _ _ (λ sized.
        bind_no-fault _ _
          (last_sector-ok b.number_of_sectors b.bpb.bytes_per_sector a.sector.0 a.sector.1 below
            sized)
          (λ pos f. refuse_no-fault _ _ (λ sought.
            bind_no-fault _ _
              (count_clusters-ok b.number_of_sectors spc' (omega (arith, same, c.small))
                (omega (arith, same, c.positive)))
              (λ nr_clusters g. refuse_no-fault _ _ (λ within. rw same (
                parse_sizes-ne-fault b spc nr_clusters a ne_mft ne_index
                  (accepted-IsClustered b spc a c)))))))))
