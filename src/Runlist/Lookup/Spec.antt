-- ===== src/Runlist/Lookup/Spec.antt =====
-- The runlist as a map from cluster numbers, by the lengths of its runs alone.
use libntfs.Prelude.{ℕ, ◌+◌, ◌-◌, ◌^◌, ◌≤◌, ◌<◌, ◌≡◌, arith}
use libntfs.Prelude.{[], ◌∷◌, some, ◌==◌, ltb, if◌then◌else◌, sym, ap, ◌∙◌, inl, inr}
use libntfs.Prelude.Word.{is_neg}
use native.Mathlib.Decide.{dec_lt}
use libntfs.Runlist.{RunlistElement, Runlist, ok, IsRun, IsTerminator, IsRunlist, lcn_enoent}
use libntfs.Runlist.Lookup.{vcn_to_lcn, vcn_to_lcn_loop}

-- What the `k`-th cluster behind the start of the runlist is mapped to.
unfoldable pub lcn_at : Runlist → ℕ → ℕ
lcn_at [] k = lcn_enoent
lcn_at (e ∷ rl) k =
    let later = lcn_at rl (k - e.length) in
    if e.length == 0
    then e.lcn
    else if ltb k e.length
    then (if is_neg e.lcn then e.lcn else e.lcn + k)
    else later

pub IsRunlist-head : (v : ℕ) (e : RunlistElement) (rl : Runlist) → IsRunlist v (e ∷ rl) → e.vcn ≡ v
IsRunlist-head v e rl (inl t) = t.starts
IsRunlist-head v e rl (inr r) = r.0.starts

pub lcn_at-run :
    (v k : ℕ) (e : RunlistElement) (rl : Runlist)
    → IsRun v e
    → k < e.length
    → lcn_at (e ∷ rl) k ≡ (if is_neg e.lcn then e.lcn else e.lcn + k)
unfolding lcn_at
lcn_at-run v k e rl r h = ground arith

pub lcn_at-later :
    (v k : ℕ) (e : RunlistElement) (rl : Runlist)
    → IsRun v e
    → e.length ≤ k
    → lcn_at (e ∷ rl) k ≡ lcn_at rl (k - e.length)
unfolding lcn_at
lcn_at-later v k e rl r h = ground arith

pub lcn_at-terminator :
    (v k : ℕ) (e : RunlistElement) (rl : Runlist) → IsTerminator v e → lcn_at (e ∷ rl) k ≡ e.lcn
unfolding lcn_at
lcn_at-terminator v k e rl t = ground arith

loop-terminator :
    (v w : ℕ) (e : RunlistElement) (rl : Runlist)
    → IsTerminator v e
    → vcn_to_lcn_loop (e ∷ rl) w ≡ ok e.lcn
unfolding vcn_to_lcn_loop
loop-terminator v w e [] t = ground arith
loop-terminator v w e (n ∷ rl) t = ground arith

loop-run :
    (v k : ℕ) (e n : RunlistElement) (rl : Runlist)
    → IsRun v e
    → n.vcn ≡ v + e.length
    → k < e.length
    → vcn_to_lcn_loop (e ∷ n ∷ rl) (v + k) ≡ ok (if is_neg e.lcn then e.lcn else e.lcn + k)
unfolding vcn_to_lcn_loop
loop-run v k e n rl r next h = ground arith

loop-later :
    (v k : ℕ) (e n : RunlistElement) (rl : Runlist)
    → IsRun v e
    → n.vcn ≡ v + e.length
    → e.length ≤ k
    → v + k < 2 ^ 63
    → vcn_to_lcn_loop (e ∷ n ∷ rl) (v + k) ≡ vcn_to_lcn_loop (n ∷ rl) (v + k)
unfolding vcn_to_lcn_loop
loop-later v k e n rl r next h low = ground arith

vcn_to_lcn_loop_lem :
    (v k : ℕ) (rl : Runlist)
    → IsRunlist v rl
    → v + k < 2 ^ 63
    → vcn_to_lcn_loop rl (v + k) ≡ ok (lcn_at rl k)
vcn_to_lcn_loop_lem v k [] h low = absurd h
vcn_to_lcn_loop_lem v k (e ∷ rl) (inl t) low =
    loop-terminator v (v + k) e rl t ∙ ap ok (sym (lcn_at-terminator v k e rl t))
vcn_to_lcn_loop_lem v k (e ∷ []) (inr (r, h)) low = absurd h
vcn_to_lcn_loop_lem v k (e ∷ n ∷ rl) (inr (r, h)) low =
    let next : n.vcn ≡ v + e.length = IsRunlist-head (v + e.length) n rl h in
    elim (dec_lt k e.length) [
      | yes inside ↦
          loop-run v k e n rl r next inside ∙ ap ok (sym (lcn_at-run v k e (n ∷ rl) r inside))
      | no beyond ↦
          let far : e.length ≤ k = omega arith in
          let same : v + e.length + (k - e.length) ≡ v + k = omega arith in
          loop-later v k e n rl r next far low
          ∙ ap (vcn_to_lcn_loop (n ∷ rl)) (sym same)
          ∙ vcn_to_lcn_loop_lem (v + e.length) (k - e.length) (n ∷ rl) h (omega arith)
          ∙ ap ok (sym (lcn_at-later v k e (n ∷ rl) r far))
    ]

-- On a runlist from `v` on, ntfs_rl_vcn_to_lcn gives for every cluster number from `v` to 2 ^ 63
-- what the lengths of the runs say, and reads nothing behind the terminator.
pub vcn_to_lcn-lcn_at :
    (v k : ℕ) (rl : Runlist)
    → IsRunlist v rl
    → v + k < 2 ^ 63
    → vcn_to_lcn (some rl) (v + k) ≡ ok (lcn_at rl k)
unfolding vcn_to_lcn
vcn_to_lcn-lcn_at v k [] h low = absurd h
vcn_to_lcn-lcn_at v k (e ∷ rl) h low =
    ground (arith, IsRunlist-head v e rl h, vcn_to_lcn_loop_lem v k (e ∷ rl) h low)
