-- ===== src/Runlist/Truncate.antt =====
-- source/runlist.c: ntfs_rl_truncate.
use libntfs.Prelude.{ℕ, zero, suc, ◌+◌, ◌-◌, ◌^◌, ◌≤◌, ◌<◌, ◌≡◌, refl, arith, sym, ◌∙◌}
use libntfs.Prelude.{[], ◌∷◌, Option, none, some, ◌==◌, ltb, if◌then◌else◌, inl, inr, ◌⊎◌}
use libntfs.Prelude.Word.{slt, sub64}
use native.Mathlib.Decide.{dec_lt}
use libntfs.Runlist.{
  RunlistElement, Runlist, Outcome, ok, fails, fault, einval, eio, IsRun, IsTerminator, IsRunlist,
  ◌>>=◌, lcn_enoent,
}
use libntfs.Runlist.Lookup.Spec.{
  lcn_at, IsRunlist-head, lcn_at-run, lcn_at-later, lcn_at-terminator,
}

-- The run `e`, in front of `n`, becomes the terminator, or is cut and `n` becomes it.
unfoldable pub cut : RunlistElement → RunlistElement → Runlist → ℕ → Runlist
cut e n rl start_vcn =
    let left = sub64 start_vcn e.vcn in
    if left == 0
    then record e { length = left; lcn = lcn_enoent } ∷ n ∷ rl
    else record e { length = left } ∷ record { vcn = start_vcn; lcn = lcn_enoent; length = 0 } ∷ rl

unfoldable pub truncate_loop : Runlist → ℕ → Outcome Runlist
truncate_loop [] start_vcn = fault
truncate_loop (e ∷ []) start_vcn = if e.length == 0 then fails eio else fault
truncate_loop (e ∷ n ∷ rl) start_vcn =
    let more = truncate_loop (n ∷ rl) start_vcn >>= λ rest. ok (e ∷ rest) in
    if e.length == 0
    then fails eio
    else if slt start_vcn n.vcn
    then ok (cut e n rl start_vcn)
    else more

-- `none` is a NULL runlist. The result is the array behind the same pointer.
unfoldable pub truncate : Option Runlist → ℕ → Outcome Runlist
truncate none start_vcn = fails einval
truncate (some []) start_vcn = fault
truncate (some (e ∷ rl)) start_vcn =
    if slt start_vcn e.vcn then fails einval else truncate_loop (e ∷ rl) start_vcn

-- The number of clusters in front of the terminator.
unfoldable pub clusters : Runlist → ℕ
clusters [] = 0
clusters (e ∷ rl) = if e.length == 0 then 0 else e.length + clusters rl

cut_vcn : (v k : ℕ) (e : RunlistElement) → IsRun v e → k < e.length → sub64 (v + k) e.vcn ≡ k
cut_vcn v k e r h = omega arith

-- A run that is cut after `k` clusters.
abbrev Cuts : ℕ → ℕ → Runlist → Runlist → Type 0
Cuts v k rl out =
    IsRunlist v out × ((j : ℕ) → lcn_at out j ≡ (if ltb j k then lcn_at rl j else lcn_enoent))

cut_whole :
    (v : ℕ) (e n : RunlistElement) (rl : Runlist)
    → IsRun v e
    → cut e n rl (v + 0) ≡ record e { length = 0; lcn = lcn_enoent } ∷ n ∷ rl
unfolding cut
cut_whole v e n rl r = ground (arith, cut_vcn v 0 e r)

cut_part :
    (v k : ℕ) (e n : RunlistElement) (rl : Runlist)
    → IsRun v e
    → suc k < e.length
    → cut e n rl (v + suc k)
      ≡ record e { length = suc k } ∷ record { vcn = v + suc k; lcn = lcn_enoent; length = 0 } ∷ rl
unfolding cut
cut_part v k e n rl r h = ground (arith, cut_vcn v (suc k) e r h)

-- Only what stands at the cut and behind it is lost.
terminator-Cuts :
    (v : ℕ) (e t : RunlistElement) (rl rest : Runlist)
    → IsRun v e
    → IsTerminator v t
    → t.lcn ≡ lcn_enoent
    → Cuts v 0 rl (t ∷ rest)
terminator-Cuts v e t rl rest r is code =
    (inl is, λ j. lcn_at-terminator v j t rest is ∙ ground arith)

part-Cuts :
    (v k : ℕ) (e n : RunlistElement) (rl : Runlist)
    → IsRun v e
    → suc k < e.length
    → Cuts v (suc k) (e ∷ n ∷ rl) (
        record e { length = suc k } ∷ record { vcn = v + suc k; lcn = lcn_enoent; length = 0 } ∷ rl)
part-Cuts v k e n rl r h = (inr (short, inl end), same)
  where
    short : IsRun v (record e { length = suc k })
    short = record {
      starts = r.starts;
      positive = omega arith;
      ends = omega arith;
      clusters = omega arith;
    }

    end : IsTerminator (v + suc k) (record { vcn = v + suc k; lcn = lcn_enoent; length = 0 })
    end = omega arith

    same :
        (j : ℕ)
        → lcn_at
            (record e { length = suc k }
              ∷ record { vcn = v + suc k; lcn = lcn_enoent; length = 0 }
              ∷ rl)
            j
          ≡ (if ltb j (suc k) then lcn_at (e ∷ n ∷ rl) j else lcn_enoent)
    same j = elim (dec_lt j (suc k)) [
      | yes a ↦
          lcn_at-run v j (record e { length = suc k }) _ short a
          ∙ sym (lcn_at-run v j e (n ∷ rl) r (omega arith))
          ∙ ground arith
      | no b ↦
          lcn_at-later v j (record e { length = suc k }) _ short (omega arith)
          ∙ lcn_at-terminator (v + suc k) (j - suc k) _ rl end
          ∙ ground arith
    ]

cut-Cuts :
    (v k : ℕ) (e n : RunlistElement) (rl : Runlist)
    → IsRun v e
    → k < e.length
    → Cuts v k (e ∷ n ∷ rl) (cut e n rl (v + k))
cut-Cuts v zero e n rl r h =
    rw (cut_whole v e n rl r) (terminator-Cuts v e _ _ _ r (omega arith) refl)
cut-Cuts v (suc k) e n rl r h = rw (cut_part v k e n rl r h) (part-Cuts v k e n rl r h)

truncate_loop-cut :
    (v k : ℕ) (e n : RunlistElement) (rl : Runlist)
    → IsRun v e
    → n.vcn ≡ v + e.length
    → k < e.length
    → truncate_loop (e ∷ n ∷ rl) (v + k) ≡ ok (cut e n rl (v + k))
unfolding truncate_loop
truncate_loop-cut v k e n rl r next h = ground arith

truncate_loop-later :
    (v k : ℕ) (e n : RunlistElement) (rl : Runlist)
    → IsRun v e
    → n.vcn ≡ v + e.length
    → e.length ≤ k
    → v + k < 2 ^ 63
    → truncate_loop (e ∷ n ∷ rl) (v + k)
      ≡ (truncate_loop (n ∷ rl) (v + k) >>= λ rest. ok (e ∷ rest))
unfolding truncate_loop
truncate_loop-later v k e n rl r next h low = ground arith

-- Putting back a run that the cut does not touch.
later-Cuts :
    (v k : ℕ) (e : RunlistElement) (rl out : Runlist)
    → IsRun v e
    → e.length ≤ k
    → Cuts (v + e.length) (k - e.length) rl out
    → Cuts v k (e ∷ rl) (e ∷ out)
later-Cuts v k e rl out r h c = (inr (r, c.0), same)
  where
    same : (j : ℕ) → lcn_at (e ∷ out) j ≡ (if ltb j k then lcn_at (e ∷ rl) j else lcn_enoent)
    same j = elim (dec_lt j e.length) [
      | yes a ↦ lcn_at-run v j e out r a ∙ sym (lcn_at-run v j e rl r a) ∙ ground arith
      | no b ↦
          lcn_at-later v j e out r (omega arith)
          ∙ c.1 (j - e.length)
          ∙ ground (arith, lcn_at-later v j e rl r (omega arith))
    ]

clusters-run :
    (v : ℕ) (e : RunlistElement) (rl : Runlist)
    → IsRun v e
    → clusters (e ∷ rl) ≡ e.length + clusters rl
unfolding clusters
clusters-run v e rl r = ground arith

clusters-terminator :
    (v : ℕ) (e : RunlistElement) (rl : Runlist) → IsTerminator v e → clusters (e ∷ rl) ≡ 0
unfolding clusters
clusters-terminator v e rl t = ground arith

truncate_loop_lem :
    (v k : ℕ) (rl : Runlist)
    → IsRunlist v rl
    → v + k < 2 ^ 63
    → k < clusters rl
    → (out : Runlist) × (truncate_loop rl (v + k) ≡ ok out) × Cuts v k rl out
truncate_loop_lem v k [] h low inside = absurd h
truncate_loop_lem v k (e ∷ rl) (inl t) low inside =
    absurd (omega (arith, clusters-terminator v e rl t))
truncate_loop_lem v k (e ∷ []) (inr (r, h)) low inside = absurd h
truncate_loop_lem v k (e ∷ n ∷ rl) (inr (r, h)) low inside =
    let next : n.vcn ≡ v + e.length = IsRunlist-head (v + e.length) n rl h in
    elim (dec_lt k e.length) [
      | yes here ↦
          (cut e n rl (v + k), truncate_loop-cut v k e n rl r next here, cut-Cuts v k e n rl r here)
      | no beyond ↦
          let same : v + e.length + (k - e.length) ≡ v + k = omega arith in
          let (out, is, cuts) =
            truncate_loop_lem (v + e.length) (k - e.length) (n ∷ rl) h (omega arith)
              (omega (arith, clusters-run v e (n ∷ rl) r)) in
          (
            e ∷ out,
            truncate_loop-later v k e n rl r next (omega arith) low ∙ rw (← same, is),
            later-Cuts v k e (n ∷ rl) out r (omega arith) cuts,
          )
    ]

-- Cutting a runlist from `v` on at one of its clusters `v + k` succeeds; the result is a runlist
-- again, which maps the first `k` clusters as before and says LCN_ENOENT of every other.
pub truncate_lem :
    (v k : ℕ) (rl : Runlist)
    → IsRunlist v rl
    → k < clusters rl
    → v + k < 2 ^ 63
    → (out : Runlist) × (truncate (some rl) (v + k) ≡ ok out)
      × IsRunlist v out
      × ((j : ℕ) → lcn_at out j ≡ (if ltb j k then lcn_at rl j else lcn_enoent))
unfolding truncate
truncate_lem v k [] h inside low = absurd h
truncate_lem v k (e ∷ rl) h inside low =
    let (out, is, cuts) = truncate_loop_lem v k (e ∷ rl) h low inside in
    (out, ground (arith, IsRunlist-head v e rl h, is), cuts.0, cuts.1)

truncate_loop_end :
    (v k : ℕ) (rl : Runlist)
    → IsRunlist v rl
    → v + k < 2 ^ 63
    → clusters rl ≤ k
    → truncate_loop rl (v + k) ≡ fails eio
truncate_loop_end v k [] h low beyond = absurd h
truncate_loop_end v k (e ∷ []) (inl t) low beyond = unfold truncate_loop in ground arith
truncate_loop_end v k (e ∷ n ∷ rl) (inl t) low beyond = unfold truncate_loop in ground arith
truncate_loop_end v k (e ∷ []) (inr (r, h)) low beyond = absurd h
truncate_loop_end v k (e ∷ n ∷ rl) (inr (r, h)) low beyond =
    let same : v + e.length + (k - e.length) ≡ v + k = omega (arith, clusters-run v e (n ∷ rl) r) in
    truncate_loop-later v k e n rl r (IsRunlist-head (v + e.length) n rl h)
      (omega (arith, clusters-run v e (n ∷ rl) r)) low
    ∙ rw (← same) (
        rw (
          truncate_loop_end (v + e.length) (k - e.length) (n ∷ rl) h (omega arith)
            (omega (arith, clusters-run v e (n ∷ rl) r))))

IsRunlist-low : (v : ℕ) (rl : Runlist) → IsRunlist v rl → v < 2 ^ 63
IsRunlist-low v [] h = absurd h
IsRunlist-low v (e ∷ rl) (inl t) = t.low
IsRunlist-low v (e ∷ rl) (inr (r, h)) = omega arith

-- A cut in front of a runlist from `v` on is refused with EINVAL, one at its end or behind it
-- with EIO.
pub truncate_refuses :
    (v w : ℕ) (rl : Runlist)
    → IsRunlist v rl
    → w < 2 ^ 63
    → (w < v) ⊎ (v + clusters rl ≤ w)
    → truncate (some rl) w ≡ (if ltb w v then fails einval else fails eio)
unfolding truncate
truncate_refuses v w [] h low out = absurd h
truncate_refuses v w (e ∷ rl) h low (inl front) =
    ground (arith, IsRunlist-head v e rl h, IsRunlist-low v (e ∷ rl) h)
truncate_refuses v w (e ∷ rl) h low (inr beyond) =
    let same : v + (w - v) ≡ w = omega arith in
    let ends : truncate_loop (e ∷ rl) w ≡ fails eio =
      rw same at (truncate_loop_end v (w - v) (e ∷ rl) h (omega arith) (omega arith)) in
    ground (arith, IsRunlist-head v e rl h, IsRunlist-low v (e ∷ rl) h, ends)
