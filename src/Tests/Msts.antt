-- ===== src/Tests/Msts.antt =====
-- source/mst.c on a concrete record.
use libntfs.Prelude.{
  ℕ, ◌+◌, ◌*◌, ◌/◌, ◌<◌, ◌≡◌, refl, arith, length, get_elem?, set, replicate, some,
}
use libntfs.Mst.{
  NtfsRecord, is_valid_record, is_unusable, pre_write_fixup, post_read_fixup, post_write_fixup,
  next_usn, set_baad, done, eio,
}
use libntfs.Mst.RoundTrip.{IsSound, IsOutside, pre_write-post_read, post_read-torn}

-- One sector, with its update sequence array at byte 48.
abbrev record_of_one : NtfsRecord
record_of_one = set (set (set (replicate 256 0x1111) 2 48) 3 2) 24 7

record_of_one-IsSound : IsSound record_of_one 512 48 2
unfolding is_valid_record
record_of_one-IsSound = record {
  words = refl;
  at_ofs = refl;
  at_count = refl;
  valid = refl;
  behind = omega arith;
}

pre_write-post_read_example :
    (b' : NtfsRecord) × (b'' : NtfsRecord) × (pre_write_fixup record_of_one 512 ≡ done b')
    × ((j : ℕ) → j < 512 / 512 → get_elem? b' (255 + 256 * j) ≡ some (next_usn 7))
    × (post_read_fixup b' 512 ≡ done b'')
    × (post_write_fixup b' ≡ done b'')
    × (length b'' ≡ length record_of_one)
    × ((i : ℕ) → IsOutside (48 / 2) (512 / 512) i → get_elem? b'' i ≡ get_elem? record_of_one i)
unfolding is_unusable
pre_write-post_read_example =
    pre_write-post_read record_of_one 512 48 2 7 record_of_one-IsSound refl refl

post_read-torn_example : post_read_fixup record_of_one 512 ≡ eio (set_baad record_of_one)
post_read-torn_example =
    post_read-torn record_of_one 512 48 2 7 0 0x1111 record_of_one-IsSound refl (omega arith) refl
      (λ e. absurd (omega arith))
