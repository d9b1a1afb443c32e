-- ===== src/Runlist/Pairs/Decompress.antt =====
-- source/runlist.c: ntfs_mapping_pairs_decompress_i, up to where it hands an old runlist and the
-- new one to ntfs_runlists_merge.
use Prim.Native.Nat.{bit_and}
use libntfs.Prelude.{
  ℕ, zero, suc, ◌+◌, ◌-◌, ◌/◌, ◌%◌, ◌^◌, List, [], ◌∷◌, length, drop, Option, none, some, Bool,
  true, false, ◌==◌, ◌||◌, ◌&&◌, not, ltb, if◌then◌else◌,
}
use libntfs.Prelude.Word.{asr64, add64, sub64, is_neg, slt, minus}
use libntfs.Runlist.{
  RunlistElement, Runlist, Outcome, ok, fails, fault, reads, ◌>>=◌, einval, eio, lcn_hole,
  lcn_rl_not_mapped, lcn_enoent,
}
use libntfs.Runlist.Bytes.{read_significant_bytes}

-- What the function reads of the attribute: the fields of its header, and its bytes from
-- `mapping_pairs_offset` to `attr->length` (`none`: the offset lies behind the end).
pub record AttrRecord : Type 0 where
  pub non_resident : Bool
  pub lowest_vcn : ℕ
  pub highest_vcn : ℕ
  pub allocated_size : ℕ
  pub mapping_pairs : Option (List ℕ)

pub record Volume : Type 0 where
  pub cluster_size : ℕ
  pub cluster_size_bits : ℕ

unfoldable pub low : ℕ → ℕ
low head = bit_and head 0xf

unfoldable pub high : ℕ → ℕ
high head = bit_and (head / 2 ^ 4) 0xf

-- The run length of the pair at the front of `buf`, whose first byte is `head`.
unfoldable pub decode_length : ℕ → List ℕ → Outcome ℕ
decode_length head buf =
    let bytes = reads (read_significant_bytes buf 0 (low head - 1)) in
    let deltaxcn =
      if low head == 0
      then ok (minus 1)
      else if ltb (length buf) (low head)
      then fails eio
      else bytes in
    deltaxcn >>= λ d. if is_neg d then fails eio else ok d

unfoldable pub has_lcn : ℕ → Bool
has_lcn head = not (bit_and head 0xf0 == 0)

-- The lcn of the pair, from the one before; `none` is a hole.
unfoldable pub decode_lcn : ℕ → List ℕ → ℕ → ℕ → Outcome (Option ℕ)
decode_lcn head buf run_length lcn =
    let bytes = reads (read_significant_bytes buf (low head) (high head - 1)) in
    let deltaxcn = if ltb (length buf) (low head + high head) then fails eio else bytes in
    if not (has_lcn head)
    then ok none
    else (deltaxcn >>= λ d.
        let lcn' = add64 lcn d in
        if slt lcn' (minus 1)
        then fails eio
        else if not (lcn' == minus 1) && run_length == 0
        then fails eio
        else ok (some lcn'))

-- The array of elements, as far as it is written, and the u16 that is the place of the next one.
pub record Runs : Type 0 where
  pub rl : List RunlistElement
  pub rlpos : ℕ

-- `rl[rlpos] = e`
unfoldable pub store : List RunlistElement → ℕ → RunlistElement → List RunlistElement
store [] rlpos e = e ∷ []
store (x ∷ rl) zero e = e ∷ rl
store (x ∷ rl) (suc rlpos) e = x ∷ store rl rlpos e

-- The element, and `rlpos++`: the place behind 65535 is 0.
unfoldable pub put : Runs → RunlistElement → Runs
put out e = record { rl = store out.rl out.rlpos e; rlpos = (out.rlpos + 1) % 2 ^ 16 }

-- The next element. At a zero-sized hole the place stays, and what follows writes over it.
abbrev pub enter : Runs → ℕ → ℕ → ℕ → Runs
enter out vcn lcn run_length =
    if run_length == 0 then out else put out (record { vcn = vcn; lcn = lcn; length = run_length })

abbrev pub or_lcn : Option ℕ → ℕ → ℕ
or_lcn none d = d
or_lcn (some lcn) d = lcn

-- The loop over the pairs, from `buf` on, with fuel: each round takes a byte at least. The result
-- is the vcn behind the runs and the runs; `none` says that the fuel was used up.
unfoldable pub decode_loop : ℕ → List ℕ → ℕ → ℕ → Runs → Option (Outcome (ℕ × Runs))
decode_loop zero buf vcn lcn out = none
decode_loop (suc fuel) [] vcn lcn out = some (fails eio)
decode_loop (suc fuel) (head ∷ rest) vcn lcn out = elim (head == 0) [
  | true ↦ some (ok (vcn, out))
  | false ↦ elim (decode_length head (head ∷ rest)) [
    | ok run_length ↦ elim (decode_lcn head (head ∷ rest) run_length lcn) [
      | ok new_lcn ↦
          decode_loop fuel (drop (low head + high head + 1) (head ∷ rest)) (add64 vcn run_length)
            (or_lcn new_lcn lcn) (enter out vcn (or_lcn new_lcn lcn_hole) run_length)
      | fails e ↦ some (fails e)
      | fault ↦ some fault
    ]
    | fails e ↦ some (fails e)
    | fault ↦ some fault
  ]
]

-- `num_clusters` of the base extent.
unfoldable pub num_clusters : Volume → AttrRecord → ℕ
num_clusters vol attr =
    asr64 (sub64 (add64 attr.allocated_size vol.cluster_size) 1) vol.cluster_size_bits

abbrev pub terminator : ℕ → ℕ → RunlistElement
terminator vcn lcn = record { vcn = vcn; lcn = lcn; length = 0 }

abbrev pub unmapped : ℕ → ℕ → RunlistElement
unmapped vcn run_length = record { vcn = vcn; lcn = lcn_rl_not_mapped; length = run_length }

-- What follows the loop: the test of `highest_vcn` and the end of the list.
unfoldable pub finish : Volume → AttrRecord → ℕ → Runs → Outcome Runlist
finish vol attr vcn out =
    let total = num_clusters vol attr in
    if not (attr.highest_vcn == 0) && not (sub64 vcn 1 == attr.highest_vcn)
    then fails eio
    else if not (attr.lowest_vcn == 0)
    then ok (put out (terminator vcn lcn_rl_not_mapped)).rl
    else if slt vcn total
    then ok
        (put (put out (unmapped vcn (sub64 total vcn)))
          (terminator (add64 vcn (sub64 total vcn)) lcn_enoent)).rl
    else if slt total vcn
    then fails eio
    else ok (put out (terminator vcn lcn_enoent)).rl

-- The unmapped element in front of an extent that does not begin at cluster 0.
abbrev pub start_runs : ℕ → Runs
start_runs vcn =
    if vcn == 0
    then record { rl = []; rlpos = 0 }
    else record { rl = unmapped 0 vcn ∷ []; rlpos = 1 }

unfoldable pub after_loop :
    Volume → AttrRecord → Option (Outcome (ℕ × Runs)) → Option (Outcome Runlist)
after_loop vol attr none = none
after_loop vol attr (some (ok (vcn, out))) = some (finish vol attr vcn out)
after_loop vol attr (some (fails e)) = some (fails e)
after_loop vol attr (some fault) = some fault

-- The runlist of the attribute alone. `none` would be a loop that uses up its fuel.
unfoldable pub new_runlist : Volume → AttrRecord → Option (Outcome Runlist)
unfolding after_loop
new_runlist vol attr =
    if not attr.non_resident || is_neg attr.lowest_vcn
    then some (fails einval)
    else (elim attr.mapping_pairs [
      | none ↦ some (fails eio)
      | some buf ↦
          after_loop vol attr
            (decode_loop (suc (length buf)) buf attr.lowest_vcn 0 (start_runs attr.lowest_vcn))
    ])
