-- ===== src/Runlist/Pairs/Whole.antt =====
-- ntfs_get_size_for_mapping_pairs, ntfs_mapping_pairs_build and ntfs_mapping_pairs_decompress on
-- a whole runlist that starts at cluster 0.
use libntfs.Prelude.{
  ℕ, suc, refl, ◌+◌, ◌^◌, ◌≤◌, ◌<◌, ◌≡◌, ◌≢◌, ap, ◌∙◌, arith, List, [], ◌∷◌, ◌++◌, length, none,
  some, true, false, ◌==◌, ltb, if◌then◌else◌, not, ◌&&◌, Bool-cases, inl, inr, ◌⊎◌, length-append,
  append_assoc,
}
use libntfs.Prelude.Word.{sub64, slt}
use libntfs.Runlist.{
  RunlistElement, Runlist, ok, IsRun, IsTerminator, lcn_rl_not_mapped, lcn_enoent,
}
use libntfs.Runlist.Bytes.{get_nr_significant_bytes}
use libntfs.Runlist.Pairs.{
  skip_to, build_runs, build_from, mapping_pairs_build, size_runs, size_from,
  get_size_for_mapping_pairs, stores_lcn, is_bad,
}
use libntfs.Runlist.Pairs.Decompress.{
  AttrRecord, Volume, num_clusters, decode_loop, terminator, finish, new_runlist, Runs, put,
}
use libntfs.Runlist.Pairs.OnePair.{stored_bytes}
use libntfs.Runlist.Pairs.Round.{IsMapped, change, lcn_after}
use libntfs.Runlist.Pairs.Places.{put_all, put-append, put_all-append}
use libntfs.Runlist.Pairs.Builds.{pairs_size, end_of, build_runs-Builds}

end_of-low : (v : ℕ) (rs : List RunlistElement) → IsMapped v rs → v < 2 ^ 63 → end_of v rs < 2 ^ 63
unfolding end_of
end_of-low v [] m h = h
end_of-low v (e ∷ rs) (r, mapped, m) h = end_of-low (v + e.length) rs m r.ends

skip_to-terminator :
    (v : ℕ) (t : RunlistElement) → IsTerminator v t → skip_to (t ∷ []) 0 ≡ ok (t ∷ [])
unfolding skip_to
skip_to-terminator v t is = ground arith

skip_to-run :
    (e n : RunlistElement) (rl : Runlist)
    → IsRun 0 e
    → n.vcn ≡ 0 + e.length
    → skip_to (e ∷ n ∷ rl) 0 ≡ ok (e ∷ n ∷ rl)
unfolding skip_to
skip_to-run e n rl r next = ground arith

-- Nothing is skipped for cluster 0.
skip_to-start :
    (rs : List RunlistElement) (t : RunlistElement)
    → IsMapped 0 rs
    → IsTerminator (end_of 0 rs) t
    → skip_to (rs ++ (t ∷ [])) 0 ≡ ok (rs ++ (t ∷ []))
unfolding end_of
skip_to-start [] t m is = skip_to-terminator 0 t is
skip_to-start (e ∷ []) t (r, mapped, m) is = skip_to-run e t [] r is.starts
skip_to-start (e ∷ n ∷ rs) t (r, mapped, (rn, m2, m)) is =
    skip_to-run e n (rs ++ (t ∷ [])) r rn.starts

-- There is no partial run.
build_from-start :
    (rs : List RunlistElement) (t : RunlistElement) (major_ver dst_len : ℕ)
    → IsMapped 0 rs
    → IsTerminator (end_of 0 rs) t
    → build_from major_ver dst_len (rs ++ (t ∷ [])) 0
      ≡ build_runs major_ver 0 dst_len (rs ++ (t ∷ [])) []
unfolding build_from end_of
build_from-start [] t major_ver dst_len m is = ground arith
build_from-start (e ∷ rs) t major_ver dst_len (r, mapped, m) is = ground arith

size_from-start :
    (rs : List RunlistElement) (t : RunlistElement) (major_ver max_size : ℕ)
    → IsMapped 0 rs
    → IsTerminator (end_of 0 rs) t
    → size_from major_ver max_size (rs ++ (t ∷ [])) 0
      ≡ size_runs major_ver max_size 0 (rs ++ (t ∷ [])) 1
unfolding size_from end_of
size_from-start [] t major_ver max_size m is = ground arith
size_from-start (e ∷ rs) t major_ver max_size (r, mapped, m) is = ground arith

size_runs-end :
    (major_ver max_size prev rls v : ℕ) (t : RunlistElement)
    → IsTerminator v t
    → size_runs major_ver max_size prev (t ∷ []) rls ≡ ok rls
unfolding size_runs
size_runs-end major_ver max_size prev rls v t is =
    rw (let e : (t.length == 0) ≡ true = ground arith in e)

size_runs-step :
    (major_ver max_size prev rls v : ℕ) (e : RunlistElement) (rl : Runlist)
    → IsRun v e
    → e.lcn ≢ lcn_rl_not_mapped
    → rls ≤ max_size
    → size_runs major_ver max_size prev (e ∷ rl) rls
      ≡ size_runs major_ver max_size (lcn_after major_ver prev e) rl (
          rls
          + 1
          + get_nr_significant_bytes e.length
          + (if stores_lcn major_ver e.lcn then get_nr_significant_bytes (sub64 e.lcn prev) else 0))
unfolding size_runs
size_runs-step major_ver max_size prev rls v e rl r mapped fits = rw (going, short, good)
  where
    going : (e.length == 0) ≡ false
    going = ground arith

    short : ltb max_size rls ≡ false
    short = ground arith

    good : is_bad e ≡ false
    good = ground arith

stored_bytes-change :
    (major_ver prev : ℕ) (e : RunlistElement)
    → (if stores_lcn major_ver e.lcn then get_nr_significant_bytes (sub64 e.lcn prev) else 0)
      ≡ stored_bytes (change major_ver prev e)
stored_bytes-change major_ver prev e = elim (Bool-cases (stores_lcn major_ver e.lcn)) [
  | inl kept ↦ rw kept
  | inr dropped ↦ rw dropped
]

size_runs-pairs_size :
    (major_ver max_size prev rls v : ℕ) (rs : List RunlistElement) (t : RunlistElement)
    → IsMapped v rs
    → IsTerminator (end_of v rs) t
    → rls + pairs_size major_ver prev rs ≤ max_size
    → size_runs major_ver max_size prev (rs ++ (t ∷ [])) rls
      ≡ ok (rls + pairs_size major_ver prev rs)
unfolding pairs_size end_of
size_runs-pairs_size major_ver max_size prev rls v [] t m is fits =
    size_runs-end major_ver max_size prev rls v t is ∙ ap ok (omega arith)
size_runs-pairs_size major_ver max_size prev rls v (e ∷ rs) t (r, mapped, m) is fits =
    size_runs-step major_ver max_size prev rls v e (rs ++ (t ∷ [])) r mapped (omega arith)
    ∙ rw (stored_bytes-change major_ver prev e) (
        size_runs-pairs_size major_ver max_size (lcn_after major_ver prev e) _ (v + e.length) rs t m
          is (omega arith)
        ∙ ap ok (omega arith))

-- What the builder leaves in the buffer is a whole array: it ends in the zero byte.
abbrev pub BuildsWhole : ℕ → ℕ → Runlist → RunlistElement → List ℕ → Type 0
BuildsWhole major_ver dst_len rl t dst =
    mapping_pairs_build major_ver dst_len (some rl) 0
    ≡ ok (record { ret = none; dst = dst; stop_rl = some (some (t ∷ [])) })

build-start :
    (rs : List RunlistElement) (t : RunlistElement) (major_ver dst_len : ℕ)
    → IsMapped 0 rs
    → IsTerminator (end_of 0 rs) t
    → mapping_pairs_build major_ver dst_len (some (rs ++ (t ∷ []))) 0
      ≡ build_runs major_ver 0 dst_len (rs ++ (t ∷ [])) []
unfolding mapping_pairs_build
build-start rs t major_ver dst_len m is =
    rw (skip_to-start rs t m is, mapping_pairs_build) (build_from-start rs t major_ver dst_len m is)

size-start :
    (rs : List RunlistElement) (t : RunlistElement) (major_ver max_size : ℕ)
    → IsMapped 0 rs
    → IsTerminator (end_of 0 rs) t
    → get_size_for_mapping_pairs major_ver (some (rs ++ (t ∷ []))) 0 max_size
      ≡ size_runs major_ver max_size 0 (rs ++ (t ∷ [])) 1
unfolding get_size_for_mapping_pairs
size-start rs t major_ver max_size m is =
    rw (skip_to-start rs t m is, get_size_for_mapping_pairs)
      (size_from-start rs t major_ver max_size m is)

-- For a runlist from cluster 0 on that is mapped or sparse throughout, and every NTFS version, if
-- max_size is not less than the size of the whole mapping pairs array, the terminating byte
-- included: ntfs_get_size_for_mapping_pairs gives a size, and into a buffer of just that size
-- ntfs_mapping_pairs_build succeeds and fills it to the last byte.
pub get_size-build :
    (rs : List RunlistElement) (t : RunlistElement) (major_ver max_size : ℕ)
    → IsMapped 0 rs
    → IsTerminator (end_of 0 rs) t
    → 1 + pairs_size major_ver 0 rs ≤ max_size
    → (size : ℕ) × (dst : List ℕ) × (get_size_for_mapping_pairs major_ver
          (some (rs ++ (t ∷ [])))
          0
          max_size
        ≡ ok size)
      × BuildsWhole major_ver size (rs ++ (t ∷ [])) t dst
      × (length dst ≡ size)
get_size-build rs t major_ver max_size m is fits =
    let (bs, b) =
      build_runs-Builds major_ver 0 0 (1 + pairs_size major_ver 0 rs) rs t [] m is (omega arith)
        (omega arith) in
    (
      1 + pairs_size major_ver 0 rs,
      bs ++ (0 ∷ []),
      size-start rs t major_ver max_size m is
          ∙ size_runs-pairs_size major_ver max_size 0 1 0 rs t m is fits,
      build-start rs t major_ver _ m is ∙ b.0,
      omega (arith, length-append bs (0 ∷ []), b.1),
    )

-- The header fields of the base extent of a runlist that ends at `end`.
pub record IsBaseExtent (vol : Volume) (attr : AttrRecord) (end : ℕ) : Type 0 where
  pub non_resident : attr.non_resident ≡ true
  pub base : attr.lowest_vcn ≡ 0
  pub highest : (attr.highest_vcn ≡ 0) ⊎ (attr.highest_vcn ≡ sub64 end 1)
  pub allocated : num_clusters vol attr ≡ end

finish-base :
    (vol : Volume) (attr : AttrRecord) (end : ℕ) (out : Runs) (t : RunlistElement)
    → IsBaseExtent vol attr end
    → IsTerminator end t
    → t.lcn ≡ lcn_enoent
    → finish vol attr end out ≡ ok (put out t).rl
unfolding finish
finish-base vol attr end out t b is code =
    rw (b.allocated, b.base, highest_ok, same) (ap (λ x. ok (put out x).rl) whole)
  where
    highest_ok : (not (attr.highest_vcn == 0) && not (sub64 end 1 == attr.highest_vcn)) ≡ false
    highest_ok = ground arith

    same : slt end end ≡ false
    same = ground arith

    whole : terminator end lcn_enoent ≡ t
    whole = ground arith

-- The attribute with these mapping pairs.
abbrev pub with_pairs : AttrRecord → List ℕ → AttrRecord
with_pairs attr pairs = record attr { mapping_pairs = some pairs }

allocated_of :
    (vol : Volume) (attr : AttrRecord) (pairs : List ℕ) (end : ℕ)
    → num_clusters vol attr ≡ end
    → num_clusters vol (with_pairs attr pairs) ≡ end
unfolding num_clusters
allocated_of vol attr pairs end h = h

abbrev no_runs : Runs
no_runs = record { rl = []; rlpos = 0 }

new_runlist-decoded :
    (vol : Volume) (attr : AttrRecord) (end : ℕ) (pairs : List ℕ) (out : Runs)
    → IsBaseExtent vol attr end
    → decode_loop (suc (length pairs)) pairs 0 0 no_runs ≡ some (ok (end, out))
    → new_runlist vol (with_pairs attr pairs) ≡ some (finish vol (with_pairs attr pairs) end out)
unfolding new_runlist
new_runlist-decoded vol attr end pairs out b e = rw (b.non_resident, b.base, e, new_runlist)

-- For a runlist from cluster 0 on of fewer than 65536 runs that is mapped or sparse throughout and
-- ends in LCN_ENOENT, and every NTFS version: into a buffer with room for the array ntfs_mapping_pairs_build writes it,
-- and ntfs_mapping_pairs_decompress turns the attribute that holds it, whatever follows the array
-- there, back into the same runlist, if the attribute's header describes the base extent.
pub build-decompress :
    (vol : Volume) (attr : AttrRecord) (major_ver dst_len : ℕ)
    → (rs : List RunlistElement) (t : RunlistElement) (behind : List ℕ) → IsMapped 0 rs
    → length rs < 2 ^ 16
    → IsTerminator (end_of 0 rs) t
    → t.lcn ≡ lcn_enoent
    → pairs_size major_ver 0 rs < dst_len
    → IsBaseExtent vol attr (end_of 0 rs)
    → (dst : List ℕ) × BuildsWhole major_ver dst_len (rs ++ (t ∷ [])) t dst
      × (new_runlist vol (with_pairs attr (dst ++ behind)) ≡ some (ok (rs ++ (t ∷ []))))
build-decompress vol attr major_ver dst_len rs t behind m few is code fits b =
    let (stored, at) = put_all-append no_runs rs refl (omega (arith, few)) in
    let (bs, built) = build_runs-Builds major_ver 0 0 dst_len rs t [] m is (omega arith) fits in
    let pairs : List ℕ = (bs ++ (0 ∷ [])) ++ behind in
    let split : pairs ≡ bs ++ (0 ∷ behind) = append_assoc bs (0 ∷ []) behind in
    let short : length bs ≤ length pairs =
      omega (arith, ap length split, length-append bs (0 ∷ behind)) in
    (
      bs ++ (0 ∷ []),
      build-start rs t major_ver dst_len m is ∙ built.0,
      new_runlist-decoded vol attr (end_of 0 rs) pairs (put_all no_runs rs) b (
            ap (λ p. decode_loop (suc (length pairs)) p 0 0 no_runs) split
            ∙ built.2 (length pairs) behind no_runs short)
          ∙ ap some (
              finish-base vol (with_pairs attr pairs) (end_of 0 rs) (put_all no_runs rs) t
                (record {
                  non_resident = b.non_resident;
                  base = b.base;
                  highest = b.highest;
                  allocated = allocated_of vol attr pairs _ b.allocated;
                })
                is code
              ∙ ap ok (put-append (put_all no_runs rs) t at ∙ ap (λ r. r ++ (t ∷ [])) stored)),
    )
