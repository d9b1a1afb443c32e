-- ===== src/Bootsect/Overflow.antt =====
-- source/bootsect.c: the code 240 for the sectors of a cluster, which is 2 ^ 16 in a u16.
use libntfs.Prelude.{
  inl, inr, ◌⊎◌, if◌then◌else◌, ℕ, ◌≡◌, ◌≢◌, refl, ◌∙◌, ap, arith, Bool, true, false,
}
use libntfs.Runlist.{Outcome, ok, fails, fault}
use libntfs.Bootsect.{
  ◌>>=◌, NtfsBootSector, real_sectors_per_cluster, boot_sector_is_ntfs, bits_of, is_no_power,
  refuse_if, count_clusters, last_sector, boot_sector_parse, ffs_loop,
}

either :
    (wrong : Bool) (n : ℕ) (r : Outcome ℕ)
    → r ≡ (if wrong then fault else ok n)
    → (r ≡ fault) ⊎ ((pos : ℕ) × (r ≡ ok pos))
either true n r h = inl h
either false n r h = inr (n, h)

last_sector-cases :
    (sectors bits : ℕ)
    → (last_sector sectors bits ≡ fault) ⊎ ((pos : ℕ) × (last_sector sectors bits ≡ ok pos))
unfolding last_sector
last_sector-cases sectors bits = either _ _ _ refl

wraps : real_sectors_per_cluster 240 ≡ ok 0
unfolding real_sectors_per_cluster
wraps = refl

no_clusters : (sectors : ℕ) → count_clusters sectors 0 ≡ fault
unfolding count_clusters ffs_loop
no_clusters sectors = refl

zero_passes : is_no_power 0 ≡ false
unfolding is_no_power
zero_passes = refl

go_on : {A : Type 0} (wrong : Bool) (rest : Outcome A) → wrong ≡ false → refuse_if wrong rest ≡ rest
unfolding refuse_if
go_on true rest h = absurd (cc)
go_on false rest h = refl

on_ok : {A B : Type 0} (m : Outcome A) (f : A → Outcome B) (a : A) → m ≡ ok a → m >>= f ≡ f a
unfolding ◌>>=◌
on_ok (ok x) f a h = ap f (same x a h)
  where
    same : {A : Type 0} (x y : A) → ok x ≡ ok y → x ≡ y
    same x y e = cc
on_ok (fails e) f a h = absurd (cc)
on_ok fault f a h = absurd (cc)

on_fault : {A B : Type 0} (m : Outcome A) (f : A → Outcome B) → m ≡ fault → m >>= f ≡ fault
unfolding ◌>>=◌
on_fault (ok x) f h = absurd (cc)
on_fault (fails e) f h = absurd (cc)
on_fault fault f h = refl

-- For a boot sector that is accepted with the code 240 for the sectors of a cluster, and a number
-- of sectors other than 0, ntfs_boot_sector_parse does what C leaves undefined, if the device
-- seeks everywhere.
pub parse-fault :
    (seek_fails : ℕ → Bool) (b : NtfsBootSector)
    → boot_sector_is_ntfs b ≡ true
    → b.bpb.sectors_per_cluster ≡ 240
    → b.number_of_sectors ≢ 0
    → ((pos : ℕ) → seek_fails pos ≡ false)
    → boot_sector_parse seek_fails b ≡ fault
unfolding boot_sector_parse
parse-fault seek_fails b accepted code some_sectors seeks =
    on_ok _ _ 0 (ap real_sectors_per_cluster code ∙ wraps)
    ∙ go_on _ _ zero_passes
    ∙ go_on _ _ (ground (arith, some_sectors))
    ∙ elim (last_sector-cases b.number_of_sectors (bits_of b.bpb.bytes_per_sector)) [
      | inl f ↦ on_fault _ _ f
      | inr (pos, at) ↦
          on_ok _ _ pos at ∙ go_on _ _ (seeks pos) ∙ on_fault _ _ (no_clusters b.number_of_sectors)
    ]
