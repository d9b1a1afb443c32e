-- ===== src/Runlist/Pairs/Builds.antt =====
-- The runs of a list, built into a mapping pairs array and decoded again.
use libntfs.Prelude.{
  ℕ, zero, suc, ◌+◌, ◌-◌, ◌≤◌, ◌<◌, ◌≡◌, ◌≢◌, refl, ap, ◌∙◌, arith, List, [], ◌∷◌, ◌++◌, length,
  Option, none, some, true, false, ◌==◌, Bool-cases, inl, inr, length-append, append_assoc,
}
use libntfs.Prelude.Word.{IsS64}
use libntfs.Runlist.{RunlistElement, Runlist, ok, IsRun, IsTerminator, lcn_rl_not_mapped}
use libntfs.Runlist.Bytes.{written, get_nr_significant_bytes}
use libntfs.Runlist.Pairs.{encode_run, stores_lcn, build_runs, is_bad}
use libntfs.Runlist.Pairs.Decompress.{decode_loop, Runs, put}
use libntfs.Runlist.Pairs.Places.{put_all}
use libntfs.Runlist.Pairs.OnePair.{
  Encoded, IsStored, encode_run-Encoded, encode_run_total, stored_bytes,
}
use libntfs.Runlist.Pairs.Round.{IsMapped, decode_round, change, lcn_after}

-- The number of bytes that the runs take in the array, the terminating zero aside.
unfoldable pub pairs_size : ℕ → ℕ → List RunlistElement → ℕ
pairs_size major_ver prev [] = 0
pairs_size major_ver prev (e ∷ rs) =
    1
    + get_nr_significant_bytes e.length
    + stored_bytes (change major_ver prev e)
    + pairs_size major_ver (lcn_after major_ver prev e) rs

-- The cluster number behind the last run.
unfoldable pub end_of : ℕ → List RunlistElement → ℕ
end_of v [] = v
end_of v (e ∷ rs) = end_of (v + e.length) rs

build_runs-end :
    (major_ver prev room v : ℕ) (t : RunlistElement) (out : List ℕ)
    → IsTerminator v t
    → build_runs major_ver prev room (t ∷ []) out
      ≡ ok (record { ret = none; dst = out ++ (0 ∷ []); stop_rl = some (some (t ∷ [])) })
unfolding build_runs
build_runs-end major_ver prev room v t out is =
    rw (let e : (t.length == 0) ≡ true = ground arith in e)

build_runs-step :
    (major_ver prev room v : ℕ) (e : RunlistElement) (rl : Runlist) (out bytes : List ℕ)
    → IsRun v e
    → e.lcn ≢ lcn_rl_not_mapped
    → encode_run room e.length (change major_ver prev e) ≡ written bytes
    → build_runs major_ver prev room (e ∷ rl) out
      ≡ build_runs major_ver (lcn_after major_ver prev e) (room - length bytes) rl (out ++ bytes)
unfolding build_runs
build_runs-step major_ver prev room v e rl out bytes r mapped enc =
    rw (going, good, enc, build_runs)
  where
    going : (e.length == 0) ≡ false
    going = ground arith

    good : is_bad e ≡ false
    good = ground arith

-- What the builder writes for the runs, and the decoder makes of it.
abbrev pub Decodes : ℕ → ℕ → List RunlistElement → List ℕ → Type 0
Decodes v prev rs bs =
    (fuel : ℕ) (rest : List ℕ) (acc : Runs)
    → length bs ≤ fuel
    → decode_loop (suc fuel) (bs ++ (0 ∷ rest)) v prev acc ≡ some (ok (end_of v rs, put_all acc rs))

Decodes-nil : (v prev : ℕ) → Decodes v prev [] []
unfolding decode_loop end_of put_all
Decodes-nil v prev fuel rest acc h = refl

Decodes-cons :
    (major_ver v prev room : ℕ) (e : RunlistElement) (rs : List RunlistElement) (bytes bs : List ℕ)
    → IsRun v e
    → e.lcn ≢ lcn_rl_not_mapped
    → IsS64 prev
    → Encoded room e.length (change major_ver prev e) bytes
    → 1 ≤ length bytes
    → Decodes (v + e.length) (lcn_after major_ver prev e) rs bs
    → Decodes v prev (e ∷ rs) (bytes ++ bs)
unfolding end_of put_all
Decodes-cons major_ver v prev room e rs bytes bs r mapped hp c pos d zero rest acc h =
    absurd (omega (arith, length-append bytes bs))
Decodes-cons major_ver v prev room e rs bytes bs r mapped hp c pos d (suc fuel) rest acc h =
    rw (append_assoc bytes bs (0 ∷ rest)) (
      decode_round major_ver v prev room (suc fuel) e bytes (bs ++ (0 ∷ rest)) acc r mapped hp c
      ∙ d fuel rest (put acc e) (omega (arith, length-append bytes bs)))

length-Encoded :
    (room n : ℕ) (stored : Option ℕ) (bytes : List ℕ)
    → Encoded room n stored bytes
    → (length bytes ≡ 1 + get_nr_significant_bytes n + stored_bytes stored) × (length bytes < room)
length-Encoded room n none bytes c =
    let no_c : length c.cb ≡ 0 = ap length c.lcn in
    omega (arith, ap length c.is_pair, length-append c.lb c.cb, c.size)
length-Encoded room n (some d) bytes c =
    omega (arith, ap length c.is_pair, length-append c.lb c.cb, c.size, c.lcn.1)

abbrev pub Builds : ℕ → ℕ → ℕ → ℕ → List RunlistElement → RunlistElement → List ℕ → List ℕ → Type 0
Builds major_ver v prev room rs t out bs =
    (build_runs major_ver prev room (rs ++ (t ∷ [])) out
      ≡ ok (record { ret = none; dst = out ++ (bs ++ (0 ∷ [])); stop_rl = some (some (t ∷ [])) }))
    × (length bs ≡ pairs_size major_ver prev rs)
    × Decodes v prev rs bs

change-IsStored : (major_ver prev : ℕ) (e : RunlistElement) → IsStored (change major_ver prev e)
change-IsStored major_ver prev e = elim (Bool-cases (stores_lcn major_ver e.lcn)) [
  | inl kept ↦ rw kept (omega arith)
  | inr dropped ↦ rw dropped tt
]

lcn_after-IsS64 :
    (major_ver prev v : ℕ) (e : RunlistElement)
    → IsRun v e
    → IsS64 prev
    → IsS64 (lcn_after major_ver prev e)
lcn_after-IsS64 major_ver prev v e r hp = ground arith

pub build_runs-Builds :
    (major_ver v prev room : ℕ) (rs : List RunlistElement) (t : RunlistElement) (out : List ℕ)
    → IsMapped v rs
    → IsTerminator (end_of v rs) t
    → IsS64 prev
    → pairs_size major_ver prev rs < room
    → (bs : List ℕ) × Builds major_ver v prev room rs t out bs
unfolding pairs_size end_of
build_runs-Builds major_ver v prev room [] t out m is hp fits =
    ([], (build_runs-end major_ver prev room v t out is, refl, Decodes-nil v prev))
build_runs-Builds major_ver v prev room (e ∷ rs) t out (r, mapped, m) is hp fits =
    let stored = change-IsStored major_ver prev e in
    let (bytes, enc) =
      encode_run_total room e.length (change major_ver prev e) (omega arith) stored (omega arith) in
    let c =
      encode_run-Encoded room e.length (change major_ver prev e) bytes (omega arith) stored enc in
    let size = length-Encoded room e.length (change major_ver prev e) bytes c in
    let (bs, rest_built) =
      build_runs-Builds major_ver (v + e.length) (lcn_after major_ver prev e) (room - length bytes)
        rs t (out ++ bytes) m is (lcn_after-IsS64 major_ver prev v e r hp) (omega (arith, size)) in
    (
      bytes ++ bs,
      (
        build_runs-step major_ver prev room v e (rs ++ (t ∷ [])) out bytes r mapped enc
            ∙ rest_built.0
            ∙ rw (append_assoc out bytes (bs ++ (0 ∷ [])), append_assoc bytes bs (0 ∷ [])),
        omega (arith, length-append bytes bs, size, rest_built.1),
        Decodes-cons major_ver v prev room e rs bytes bs r mapped hp c (omega (arith, size))
            rest_built.2,
      ),
    )
