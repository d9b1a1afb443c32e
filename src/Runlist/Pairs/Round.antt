-- ===== src/Runlist/Pairs/Round.antt =====
-- One round of the decoder's loop on the bytes of one run.
use libntfs.Prelude.{
  ℕ, suc, ◌+◌, ◌^◌, ◌≤◌, ◌<◌, ◌≡◌, ◌≢◌, ap, ◌∙◌, arith, List, [], ◌∷◌, ◌++◌, length, drop, Option,
  none, some, false, ◌==◌, if◌then◌else◌, Bool-cases, inl, inr, ◌⊎◌,
}
use libntfs.Prelude.Word.{IsS64, add64, sub64, minus}
use libntfs.Runlist.{RunlistElement, ok, IsRun, lcn_hole, lcn_rl_not_mapped}
use libntfs.Runlist.Bytes.{get_nr_significant_bytes}
use libntfs.Runlist.Bytes.Counting.{get_nr_significant_bytes_bounds}
use libntfs.Runlist.Pairs.{header, stores_lcn}
use libntfs.Runlist.Pairs.Decompress.{
  low, high, decode_length, decode_lcn, decode_loop, or_lcn, Runs, put,
}
use libntfs.Runlist.Pairs.OnePair.{
  Encoded, header_fields, decode_length-pair, decode_lcn-hole, decode_lcn-clusters, drop-pair,
}

-- Runs from `v` on, all of them mapped or holes.
abbrev pub IsMapped : ℕ → List RunlistElement → Type 0
IsMapped v [] = Unit {0}
IsMapped v (e ∷ rs) = IsRun v e × (e.lcn ≢ lcn_rl_not_mapped) × IsMapped (v + e.length) rs

decode_loop_step :
    (fuel head : ℕ) (rest buf : List ℕ) (vcn lcn n : ℕ) (l : Option ℕ) (out : Runs)
    → 1 ≤ head
    → 0 < n
    → decode_length head (head ∷ rest) ≡ ok n
    → decode_lcn head (head ∷ rest) n lcn ≡ ok l
    → drop (low head + high head + 1) (head ∷ rest) ≡ buf
    → decode_loop (suc fuel) (head ∷ rest) vcn lcn out
      ≡ decode_loop fuel buf
          (add64 vcn n)
          (or_lcn l lcn)
          (put out (record { vcn = vcn; lcn = or_lcn l lcn_hole; length = n }))
unfolding decode_loop
decode_loop_step fuel head rest buf vcn lcn n l out hh hn el ec ed =
    rw (not_end, el, ec, ed, is_run, decode_loop)
  where
    not_end : (head == 0) ≡ false
    not_end = ground arith

    is_run : (n == 0) ≡ false
    is_run = ground arith

-- The change of the lcn that is stored for a run, and the lcn before the next one.
abbrev pub change : ℕ → ℕ → RunlistElement → Option ℕ
change major_ver prev e = if stores_lcn major_ver e.lcn then some (sub64 e.lcn prev) else none

abbrev pub lcn_after : ℕ → ℕ → RunlistElement → ℕ
lcn_after major_ver prev e = if stores_lcn major_ver e.lcn then e.lcn else prev

restore_lcn : (prev l : ℕ) → IsS64 prev → IsS64 l → add64 prev (sub64 l prev) ≡ l
restore_lcn prev l hp hl = omega arith

run_lcn :
    (v : ℕ) (e : RunlistElement)
    → IsRun v e
    → e.lcn ≢ lcn_rl_not_mapped
    → (e.lcn < 2 ^ 63) ⊎ (e.lcn ≡ minus 1)
run_lcn v e r mapped = ground arith

few_bytes :
    (n : ℕ) (bs : List ℕ)
    → IsS64 n
    → length bs ≡ get_nr_significant_bytes n
    → (1 ≤ length bs) × (length bs ≤ 8)
few_bytes n bs h e = omega (arith, get_nr_significant_bytes_bounds n h)

round_hole :
    (room n fuel v prev : ℕ) (bytes rest : List ℕ) (acc : Runs)
    → 0 < n
    → n < 2 ^ 63
    → Encoded room n none bytes
    → decode_loop (suc fuel) (bytes ++ rest) v prev acc
      ≡ decode_loop fuel rest
          (add64 v n)
          prev
          (put acc (record { vcn = v; lcn = lcn_hole; length = n }))
round_hole room n fuel v prev bytes rest acc pos nonneg c =
    let few = few_bytes n c.lb (omega arith) c.size in
    let no_c : length c.cb ≡ 0 = ap length c.lcn in
    let few_c : length c.cb ≤ 8 = omega arith in
    rw c.is_pair (
      decode_loop_step fuel (header (length c.cb) (length c.lb)) (c.lb ++ c.cb ++ rest) rest v prev
        n none acc (header_fields (length c.cb) (length c.lb) (omega arith) few.0 (omega arith)).3
        pos
        (decode_length-pair c.lb c.cb rest few.1 few.0 few_c (rw c.value nonneg) ∙ ap ok c.value)
        (decode_lcn-hole c.lb c.cb rest few.1 few.0 few_c n prev no_c)
        (drop-pair c.lb c.cb rest few.1 few.0 few_c))

round_clusters :
    (room n d fuel v prev : ℕ) (bytes rest : List ℕ) (acc : Runs)
    → 0 < n
    → n < 2 ^ 63
    → IsS64 d
    → (add64 prev d < 2 ^ 63) ⊎ (add64 prev d ≡ minus 1)
    → Encoded room n (some d) bytes
    → decode_loop (suc fuel) (bytes ++ rest) v prev acc
      ≡ decode_loop fuel rest
          (add64 v n)
          (add64 prev d)
          (put acc (record { vcn = v; lcn = add64 prev d; length = n }))
round_clusters room n d fuel v prev bytes rest acc pos nonneg hd valid c =
    let few = few_bytes n c.lb (omega arith) c.size in
    let some_c = few_bytes d c.cb hd (c.lcn.1) in
    rw c.is_pair (
      decode_loop_step fuel (header (length c.cb) (length c.lb)) (c.lb ++ c.cb ++ rest) rest v prev
        n (some (add64 prev d)) acc
        (header_fields (length c.cb) (length c.lb) (omega arith) few.0 (omega arith)).3 pos
        (decode_length-pair c.lb c.cb rest few.1 few.0 some_c.1 (rw c.value nonneg) ∙ ap ok c.value)
        (decode_lcn-clusters c.lb c.cb rest few.1 few.0 some_c.1 n prev some_c.0 pos
            (rw (c.lcn.0) valid)
          ∙ ap (λ t. ok (some (add64 prev t))) (c.lcn.0))
        (drop-pair c.lb c.cb rest few.1 few.0 some_c.1))

-- One round of the decoder on the bytes of one run.
pub decode_round :
    (major_ver v prev room fuel : ℕ) (e : RunlistElement) (bytes rest : List ℕ) (acc : Runs)
    → IsRun v e
    → e.lcn ≢ lcn_rl_not_mapped
    → IsS64 prev
    → Encoded room e.length (change major_ver prev e) bytes
    → decode_loop (suc fuel) (bytes ++ rest) v prev acc
      ≡ decode_loop fuel rest (v + e.length) (lcn_after major_ver prev e) (put acc e)
decode_round major_ver v prev room fuel e bytes rest acc r mapped hp c =
    let valid = run_lcn v e r mapped in
    let hl : IsS64 e.lcn = omega arith in
    let sum : add64 v e.length ≡ v + e.length = omega arith in
    let back : add64 prev (sub64 e.lcn prev) ≡ e.lcn = restore_lcn prev e.lcn hp hl in
    elim (Bool-cases (stores_lcn major_ver e.lcn)) [
      | inl kept ↦
          let c' : Encoded room e.length (some (sub64 e.lcn prev)) bytes = rw kept at c in
          let whole : ◌≡◌ {A = RunlistElement} (record { vcn = v; lcn = e.lcn; length = e.length })
              e =
            ground arith in
          rw kept (
            round_clusters room e.length (sub64 e.lcn prev) fuel v prev bytes rest acc r.positive
              (omega arith) (omega arith) (rw back valid) c'
            ∙ rw (sum, back, whole))
      | inr dropped ↦
          let c' : Encoded room e.length none bytes = rw dropped at c in
          let hole : e.lcn ≡ lcn_hole = ground arith in
          let whole : ◌≡◌ {A = RunlistElement}
              (record { vcn = v; lcn = lcn_hole; length = e.length }) e =
            ground arith in
          rw dropped (
            round_hole room e.length fuel v prev bytes rest acc r.positive (omega arith) c'
            ∙ rw (sum, whole))
    ]
