-- ===== src/Runlist/Pairs.antt =====
-- source/runlist.c: the mapping pairs array. ntfs_mapping_pairs_build and
-- ntfs_get_size_for_mapping_pairs, and the part that both share.
pub mod Decompress
pub mod Places
pub mod OnePair
pub mod Round
pub mod Builds
pub mod Whole
pub mod Safety
pub mod Ends
pub mod Decoded
use Prim.Native.Nat.{bit_or}
use libntfs.Prelude.{
  ℕ, ◌+◌, ◌-◌, ◌*◌, ◌%◌, List, [], ◌∷◌, ◌++◌, length, Option, none, some, Bool, true, false, ◌==◌,
  ◌||◌, ◌&&◌, not, ltb, leb, if◌then◌else◌,
}
use libntfs.Prelude.Word.{add64, sub64, is_neg, slt}
use libntfs.Runlist.{
  RunlistElement, Runlist, Outcome, ok, fails, fault, Errno, einval, eio, enospc, lcn_hole,
  lcn_rl_not_mapped,
}
use libntfs.Runlist.Bytes.{
  Writing, written, cut_off, write_significant_bytes, get_nr_significant_bytes,
}

-- "Skip to runlist element containing @start_vcn."
unfoldable pub skip_to : Runlist → ℕ → Outcome Runlist
skip_to [] start_vcn = fault
skip_to (e ∷ []) start_vcn = if e.length == 0 then ok (e ∷ []) else fault
skip_to (e ∷ n ∷ rl) start_vcn =
    let more = skip_to (n ∷ rl) start_vcn in
    if e.length == 0 then ok (e ∷ n ∷ rl) else if slt start_vcn n.vcn then ok (e ∷ n ∷ rl) else more

-- The test behind the skipping: the element found does not hold `start_vcn`.
abbrev pub misses : RunlistElement → ℕ → Bool
misses e start_vcn = (e.length == 0 && slt e.vcn start_vcn) || slt start_vcn e.vcn

-- The label err_out.
abbrev pub bad_run : RunlistElement → Errno
bad_run e = if e.lcn == lcn_rl_not_mapped then einval else eio

abbrev pub is_bad : RunlistElement → Bool
is_bad e = is_neg e.length || slt e.lcn lcn_hole

-- A hole is stored without an lcn from NTFS 3.0 on.
abbrev pub stores_lcn : ℕ → ℕ → Bool
stores_lcn major_ver lcn = not (is_neg lcn) || ltb major_ver 3

-- The first, partial run is handled from `delta` clusters behind its start.
abbrev pub advance : ℕ → ℕ → ℕ
advance lcn delta = if is_neg lcn then lcn else add64 lcn delta

-- `*dst = lcn_len << 4 | len_len`
unfoldable pub header : ℕ → ℕ → ℕ
header lcn_len len_len = bit_or (lcn_len * 16) len_len % 256

-- The bytes of one run at `dst`, with `room` bytes from there to the end of the buffer; or the ones
-- behind `dst` that are stored before the jump to size_err. `lcn` is the number that is written behind the length, if any.
unfoldable pub encode_run : ℕ → ℕ → Option ℕ → Writing
encode_run room run_length none = elim (write_significant_bytes (room - 1) run_length) [
  | cut_off bytes ↦ cut_off bytes
  | written len_bytes ↦
      if leb room (length len_bytes + 0 + 1)
      then cut_off len_bytes
      else written (header 0 (length len_bytes) ∷ len_bytes)
]
encode_run room run_length (some lcn) = elim (write_significant_bytes (room - 1) run_length) [
  | cut_off bytes ↦ cut_off bytes
  | written len_bytes ↦ elim (write_significant_bytes (room - 1 - length len_bytes) lcn) [
    | cut_off bytes ↦ cut_off (len_bytes ++ bytes)
    | written lcn_bytes ↦
        if leb room (length len_bytes + length lcn_bytes + 1)
        then cut_off (len_bytes ++ lcn_bytes)
        else written (header (length lcn_bytes) (length len_bytes) ∷ len_bytes ++ lcn_bytes)
  ]
]

-- `dst` is all that the function has written to the buffer, the terminating zero included, and
-- behind it the bytes of a pair that did not fit. `stop_rl` is what is stored there, if anything is: NULL or a part of the runlist.
pub record Built : Type 0 where
  pub ret : Option Errno
  pub dst : List ℕ
  pub stop_rl : Option (Option Runlist)

-- The label size_err, with the bytes that are stored behind `dst`.
abbrev pub size_err : List ℕ → List ℕ → Runlist → Built
size_err out bytes rl = record {
  ret = some enospc;
  dst = out ++ (0 ∷ bytes);
  stop_rl = some (some rl);
}

abbrev pub refused : Errno → List ℕ → Built
refused e out = record { ret = some e; dst = out; stop_rl = none }

-- "Do the full runs." The outcome `fault` is a read behind the end of the runlist.
unfoldable pub build_runs : ℕ → ℕ → ℕ → Runlist → List ℕ → Outcome Built
build_runs major_ver prev_lcn room [] out = fault
build_runs major_ver prev_lcn room (e ∷ rl) out =
    if e.length == 0
    then ok (record { ret = none; dst = out ++ (0 ∷ []); stop_rl = some (some (e ∷ rl)) })
    else if is_bad e
    then ok (refused (bad_run e) out)
    else (elim (encode_run room e.length
        (if stores_lcn major_ver e.lcn then some (sub64 e.lcn prev_lcn) else none)) [
          | cut_off bytes ↦ ok (size_err out bytes (e ∷ rl))
          | written pair ↦
              build_runs major_ver (if stores_lcn major_ver e.lcn then e.lcn else prev_lcn)
                (room - length pair) rl (out ++ pair)
        ])

-- "Do the first partial run if present.", then the others.
unfoldable pub build_from : ℕ → ℕ → Runlist → ℕ → Outcome Built
build_from major_ver dst_len [] start_vcn = fault
build_from major_ver dst_len (e ∷ rl) start_vcn =
    let delta = sub64 start_vcn e.vcn in
    let lcn = advance e.lcn delta in
    if misses e start_vcn
    then ok (refused einval [])
    else if slt e.vcn start_vcn
    then (if is_bad e
        then ok (refused (bad_run e) [])
        else (elim (encode_run dst_len (sub64 e.length delta)
            (if stores_lcn major_ver e.lcn then some lcn else none)) [
              | cut_off bytes ↦ ok (size_err [] bytes (e ∷ rl))
              | written pair ↦
                  build_runs major_ver (if stores_lcn major_ver e.lcn then lcn else 0)
                    (dst_len - length pair) rl pair
            ]))
    else build_runs major_ver 0 dst_len (e ∷ rl) []

unfoldable pub mapping_pairs_build : ℕ → ℕ → Option Runlist → ℕ → Outcome Built
mapping_pairs_build major_ver dst_len none start_vcn =
    if is_neg start_vcn || not (start_vcn == 0)
    then ok (refused einval [])
    else if ltb dst_len 1
    then ok (record { ret = some enospc; dst = []; stop_rl = some none })
    else ok (record { ret = none; dst = 0 ∷ []; stop_rl = some none })
mapping_pairs_build major_ver dst_len (some rl) start_vcn =
    if is_neg start_vcn then ok (refused einval []) else (elim (skip_to rl start_vcn) [
      | ok found ↦ build_from major_ver dst_len found start_vcn
      | fails e ↦ fails e
      | fault ↦ fault
    ])

-- "Do the full runs.", while `rls` does not pass `max_size`.
unfoldable pub size_runs : ℕ → ℕ → ℕ → Runlist → ℕ → Outcome ℕ
size_runs major_ver max_size prev_lcn [] rls = fault
size_runs major_ver max_size prev_lcn (e ∷ rl) rls =
    let stored = stores_lcn major_ver e.lcn in
    let more = size_runs major_ver max_size (if stored then e.lcn else prev_lcn) rl (
      rls
      + 1
      + get_nr_significant_bytes e.length
      + (if stored then get_nr_significant_bytes (sub64 e.lcn prev_lcn) else 0)) in
    if e.length == 0 || ltb max_size rls
    then ok rls
    else if is_bad e
    then fails (bad_run e)
    else more

unfoldable pub size_from : ℕ → ℕ → Runlist → ℕ → Outcome ℕ
size_from major_ver max_size [] start_vcn = fault
size_from major_ver max_size (e ∷ rl) start_vcn =
    let delta = sub64 start_vcn e.vcn in
    let lcn = advance e.lcn delta in
    let stored = stores_lcn major_ver e.lcn in
    if misses e start_vcn
    then fails einval
    else if slt e.vcn start_vcn
    then (if is_bad e
        then fails (bad_run e)
        else size_runs major_ver max_size (if stored then lcn else 0) rl (
            1
            + 1
            + get_nr_significant_bytes (sub64 e.length delta)
            + (if stored then get_nr_significant_bytes lcn else 0)))
    else size_runs major_ver max_size 0 (e ∷ rl) 1

unfoldable pub get_size_for_mapping_pairs : ℕ → Option Runlist → ℕ → ℕ → Outcome ℕ
get_size_for_mapping_pairs major_ver none start_vcn max_size =
    if is_neg start_vcn || not (start_vcn == 0) then fails einval else ok 1
get_size_for_mapping_pairs major_ver (some rl) start_vcn max_size =
    if is_neg start_vcn then fails einval else (elim (skip_to rl start_vcn) [
      | ok found ↦ size_from major_ver max_size found start_vcn
      | fails e ↦ fails e
      | fault ↦ fault
    ])
