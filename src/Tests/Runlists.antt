-- ===== src/Tests/Runlists.antt =====
-- source/runlist.c on concrete runlists.
use libntfs.Prelude.{
  ℕ, subst, ◌+◌, ◌-◌, ◌*◌, ◌≤◌, ◌<◌, ◌≡◌, ◌≢◌, refl, arith, List, [], ◌∷◌, ◌++◌, length, none, some,
  true, ltb, if◌then◌else◌, inl, inr,
}
use mathlib.Core.Option.{some-injective}
use libntfs.Prelude.Word.{minus}
use libntfs.Runlist.{
  RunlistElement, Runlist, ok, fails, fault, eio, IsRun, IsTerminator, IsRunlist, lcn_hole,
  lcn_enoent,
}
use libntfs.Runlist.Bytes.{
  written, write_significant_bytes, get_nr_significant_bytes, read_significant_bytes, needs_more,
  count_bytes, read_loop,
}
use libntfs.Runlist.Bytes.RoundTrip.{read-write}
use libntfs.Runlist.Lookup.{vcn_to_lcn}
use libntfs.Runlist.Lookup.Spec.{lcn_at, vcn_to_lcn-lcn_at}
use libntfs.Runlist.Truncate.{
  truncate, truncate_loop, cut, clusters, truncate_lem, truncate_refuses,
}
use libntfs.Runlist.Pairs.{
  mapping_pairs_build, skip_to, build_from, build_runs, encode_run, header,
  get_size_for_mapping_pairs,
}
use libntfs.Runlist.Pairs.Decompress.{
  AttrRecord, Volume, num_clusters, low, high, has_lcn, decode_length, decode_lcn, decode_loop, put,
  store, finish, after_loop, new_runlist,
}
use libntfs.Runlist.Pairs.Round.{IsMapped}
use libntfs.Runlist.Pairs.Builds.{pairs_size, end_of}
use libntfs.Runlist.Pairs.Whole.{
  BuildsWhole, IsBaseExtent, with_pairs, get_size-build, build-decompress,
}
use libntfs.Runlist.Pairs.Safety.{build-fits}
use libntfs.Runlist.Pairs.Decoded.{IsDecoded, new_runlist-IsDecoded, decode_length-fault}
use libntfs.Runlist.Pairs.Ends.{new_runlist-ne-none}

abbrev two_runs : List RunlistElement
two_runs =
    record { vcn = 0; lcn = 1000; length = 4 }
    ∷ record { vcn = 4; lcn = lcn_hole; length = 300 }
    ∷ record { vcn = 304; lcn = 500; length = 8 }
    ∷ []

abbrev last : RunlistElement
last = record { vcn = 312; lcn = lcn_enoent; length = 0 }

abbrev small : Runlist
small = two_runs ++ (last ∷ [])

small-IsRunlist : IsRunlist 0 small
small-IsRunlist = inr (
  record {
    starts = refl;
    positive = omega arith;
    ends = omega arith;
    clusters = inl (omega arith);
  },
  inr (
    record { starts = refl; positive = omega arith; ends = omega arith; clusters = inr (inl refl) },
    inr (
      record {
        starts = refl;
        positive = omega arith;
        ends = omega arith;
        clusters = inl (omega arith);
      },
      inl (record { starts = refl; empty = refl; low = omega arith; negative = omega arith }),
    ),
  ),
)

first-IsRun : IsRun 0 (record { vcn = 0; lcn = 1000; length = 4 })
first-IsRun = record {
  starts = refl;
  positive = omega arith;
  ends = omega arith;
  clusters = inl (omega arith);
}

two_runs-IsMapped : IsMapped 0 two_runs
two_runs-IsMapped = (
  first-IsRun,
  omega arith,
  (
    record { starts = refl; positive = omega arith; ends = omega arith; clusters = inr (inl refl) },
    omega arith,
    (
      record {
        starts = refl;
        positive = omega arith;
        ends = omega arith;
        clusters = inl (omega arith);
      },
      omega arith,
      tt,
    ),
  ),
)

last-IsTerminator : IsTerminator (end_of 0 two_runs) last
unfolding end_of
last-IsTerminator = omega arith

vcn_to_lcn-lcn_at_example : vcn_to_lcn (some small) (0 + 310) ≡ ok (lcn_at small 310)
vcn_to_lcn-lcn_at_example = vcn_to_lcn-lcn_at 0 310 small small-IsRunlist (omega arith)

lookup_in_run : (lcn_at small 310 ≡ 506) × (lcn_at small 20 ≡ lcn_hole)
unfolding lcn_at
lookup_in_run = (refl, refl)

truncate_lem_example :
    (out : Runlist) × (truncate (some small) (0 + 100) ≡ ok out)
    × IsRunlist 0 out
    × ((j : ℕ) → lcn_at out j ≡ (if ltb j 100 then lcn_at small j else lcn_enoent))
unfolding clusters
truncate_lem_example = truncate_lem 0 100 small small-IsRunlist (omega arith) (omega arith)

cut_in_hole :
    truncate (some small) 100
    ≡ ok (
        record { vcn = 0; lcn = 1000; length = 4 }
        ∷ record { vcn = 4; lcn = lcn_hole; length = 96 }
        ∷ record { vcn = 100; lcn = lcn_enoent; length = 0 }
        ∷ last
        ∷ [])
unfolding truncate truncate_loop cut
cut_in_hole = refl

truncate_refuses_example : truncate (some small) 312 ≡ fails eio
unfolding clusters
truncate_refuses_example =
    truncate_refuses 0 312 small small-IsRunlist (omega arith) (inr (omega arith))

read-write_example :
    (bs : List ℕ) × (write_significant_bytes 4 (minus 300) ≡ written bs)
    × (length bs ≡ get_nr_significant_bytes (minus 300))
    × (length bs ≤ 8)
    × (read_significant_bytes (0x21 ∷ 7 ∷ [] ++ (bs ++ (9 ∷ []))) 1 (length bs - 1)
        ≡ some (minus 300))
unfolding get_nr_significant_bytes count_bytes
read-write_example =
    read-write (minus 300) 4 1 (0x21 ∷ 7 ∷ []) (9 ∷ []) (omega arith) (omega arith) (omega arith)

written_negative : write_significant_bytes 4 (minus 300) ≡ written (0xd4 ∷ 0xfe ∷ [])
unfolding write_significant_bytes needs_more
written_negative = refl

abbrev whole : List ℕ
whole = 0x21 ∷ 4 ∷ 0xe8 ∷ 3 ∷ 0x02 ∷ 0x2c ∷ 1 ∷ 0x21 ∷ 8 ∷ 0x0c ∷ 0xfe ∷ 0 ∷ []

built :
    mapping_pairs_build 3 64 (some small) 0
    ≡ ok (record { ret = none; dst = whole; stop_rl = some (some (last ∷ [])) })
unfolding mapping_pairs_build skip_to build_from build_runs encode_run header
    write_significant_bytes needs_more
built = refl

pairs_fit : 1 + pairs_size 3 0 two_runs ≤ 4096
unfolding pairs_size get_nr_significant_bytes count_bytes
pairs_fit = omega arith

pairs_fit_64 : pairs_size 3 0 two_runs < 64
unfolding pairs_size get_nr_significant_bytes count_bytes
pairs_fit_64 = omega arith

get_size-build_example :
    (size : ℕ) × (dst : List ℕ) × (get_size_for_mapping_pairs 3 (some small) 0 4096 ≡ ok size)
    × BuildsWhole 3 size small last dst
    × (length dst ≡ size)
get_size-build_example =
    get_size-build two_runs last 3 4096 two_runs-IsMapped last-IsTerminator pairs_fit

abbrev volume : Volume
volume = record { cluster_size = 4096; cluster_size_bits = 12 }

abbrev attribute : AttrRecord
attribute = record {
  non_resident = true;
  lowest_vcn = 0;
  highest_vcn = 311;
  allocated_size = 312 * 4096;
  mapping_pairs = none;
}

attribute-IsBaseExtent : IsBaseExtent volume attribute (end_of 0 two_runs)
unfolding end_of num_clusters
attribute-IsBaseExtent = record {
  non_resident = refl;
  base = refl;
  highest = inr refl;
  allocated = refl;
}

build-decompress_example :
    (dst : List ℕ) × BuildsWhole 3 64 small last dst
    × (new_runlist volume (with_pairs attribute (dst ++ (1 ∷ 2 ∷ []))) ≡ some (ok small))
build-decompress_example =
    build-decompress volume attribute 3 64 two_runs last (1 ∷ 2 ∷ []) two_runs-IsMapped
      (omega arith) last-IsTerminator refl pairs_fit_64 attribute-IsBaseExtent

build-fits_example : length whole ≤ 64
build-fits_example =
    build-fits 3 64 0 (some small)
      (record { ret = none; dst = whole; stop_rl = some (some (last ∷ [])) }) (omega arith) built

new_runlist-ne-none_example : new_runlist volume (with_pairs attribute whole) ≢ none
new_runlist-ne-none_example = new_runlist-ne-none volume (with_pairs attribute whole)

decoded : new_runlist volume (with_pairs attribute whole) ≡ some (ok small)
unfolding new_runlist after_loop decode_loop decode_length decode_lcn has_lcn low high
    read_significant_bytes read_loop finish num_clusters put store
decoded = refl

new_runlist-IsDecoded_example : IsDecoded small
new_runlist-IsDecoded_example =
    new_runlist-IsDecoded volume (with_pairs attribute whole) small (omega arith)
      (λ buf e. subst (λ b. length b < 65534) (some-injective whole buf e) (omega arith)) decoded

decode_length-fault_example : decode_length 2 (2 ∷ 7 ∷ []) ≡ fault
unfolding low
decode_length-fault_example = decode_length-fault 2 (7 ∷ []) refl

-- Behind place 65535 the list is written over from its front.
wraps : (put (record { rl = two_runs; rlpos = 65535 }) last).rlpos ≡ 0
unfolding put
wraps = refl

overwrites :
    (put (record { rl = two_runs; rlpos = 0 }) last).rl
    ≡ last
      ∷ record { vcn = 4; lcn = lcn_hole; length = 300 }
      ∷ record { vcn = 304; lcn = 500; length = 8 }
      ∷ []
unfolding put store
overwrites = refl
