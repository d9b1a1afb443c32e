-- ===== src/Runlist/Lookup.antt =====
-- source/runlist.c: ntfs_rl_vcn_to_lcn, ntfs_rl_sparse and ntfs_rl_get_compressed_size.
pub mod Spec
use libntfs.Prelude.{
  ℕ, ◌+◌, List, [], ◌∷◌, Option, none, some, Bool, true, false, ◌==◌, not, ltb, leb, if◌then◌else◌,
}
use libntfs.Prelude.Word.{add64, sub64, is_neg, slt, shl64}
use libntfs.Runlist.{
  RunlistElement, Runlist, Outcome, ok, fails, fault, einval, lcn_hole, lcn_rl_not_mapped,
  lcn_enoent, lcn_einval,
}

-- What the run that holds `vcn` says of it.
abbrev pub lcn_in_run : RunlistElement → ℕ → ℕ
lcn_in_run e vcn = if is_neg e.lcn then e.lcn else add64 e.lcn (sub64 vcn e.vcn)

-- The loop over the elements, and what follows it on the terminator.
unfoldable pub vcn_to_lcn_loop : Runlist → ℕ → Outcome ℕ
vcn_to_lcn_loop [] vcn = fault
vcn_to_lcn_loop (e ∷ []) vcn =
    if e.length == 0 then ok (if is_neg e.lcn then e.lcn else lcn_enoent) else fault
vcn_to_lcn_loop (e ∷ n ∷ rl) vcn =
    let more = vcn_to_lcn_loop (n ∷ rl) vcn in
    if e.length == 0
    then ok (if is_neg e.lcn then e.lcn else lcn_enoent)
    else if slt vcn n.vcn
    then ok (lcn_in_run e vcn)
    else more

-- `none` is a NULL runlist.
unfoldable pub vcn_to_lcn : Option Runlist → ℕ → Outcome ℕ
vcn_to_lcn none vcn = if is_neg vcn then ok lcn_einval else ok lcn_rl_not_mapped
vcn_to_lcn (some []) vcn = if is_neg vcn then ok lcn_einval else fault
vcn_to_lcn (some (e ∷ rl)) vcn =
    if is_neg vcn
    then ok lcn_einval
    else if slt vcn e.vcn
    then ok lcn_enoent
    else vcn_to_lcn_loop (e ∷ rl) vcn

unfoldable pub sparse_loop : Runlist → Outcome Bool
sparse_loop [] = fault
sparse_loop (e ∷ rl) =
    let more = sparse_loop rl in
    if e.length == 0
    then ok false
    else if is_neg e.lcn
    then (if e.lcn == lcn_hole then ok true else fails einval)
    else more

-- `true` and `false` are the returned 1 and 0.
unfoldable pub sparse : Option Runlist → Outcome Bool
sparse none = fails einval
sparse (some rl) = sparse_loop rl

unfoldable pub compressed_loop : Runlist → ℕ → Outcome ℕ
compressed_loop [] ret = fault
compressed_loop (e ∷ rl) ret =
    let skips = compressed_loop rl ret in
    let adds = compressed_loop rl (add64 ret e.length) in
    if e.length == 0
    then ok ret
    else if is_neg e.lcn
    then (if e.lcn == lcn_hole then skips else fails einval)
    else adds

unfoldable pub get_compressed_size : ℕ → Option Runlist → Outcome ℕ
get_compressed_size cluster_size_bits none = fails einval
get_compressed_size cluster_size_bits (some rl) = elim (compressed_loop rl 0) [
  | ok ret ↦ ok (shl64 ret cluster_size_bits)
  | fails e ↦ fails e
  | fault ↦ fault
]
