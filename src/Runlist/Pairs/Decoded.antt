-- ===== src/Runlist/Pairs/Decoded.antt =====
-- ntfs_mapping_pairs_decompress on any bytes: what it accepts is a chain of runs.
use libntfs.Prelude.{
  ℕ, zero, suc, ◌+◌, ◌-◌, ◌^◌, ◌<◌, ◌≡◌, refl, sym, ap, ◌∙◌, arith, List, [], ◌∷◌, ◌++◌, length,
  drop, Option, none, some, ◌==◌, not, ◌||◌, Option-cases, Bool-cases, inl, inr, ◌⊎◌, length-drop,
}
use mathlib.Core.Path.{subst}
use libntfs.Prelude.Word.{IsS64, add64, sub64, is_neg}
use libntfs.Runlist.{
  RunlistElement, Runlist, Outcome, ok, fails, fault, eio, lcn_hole, lcn_rl_not_mapped, lcn_enoent,
}
use libntfs.Runlist.Bytes.RoundTrip.{read_significant_bytes-out}
use libntfs.Runlist.Pairs.Decompress.{
  AttrRecord, Volume, num_clusters, low, high, decode_length, decode_lcn, decode_loop, finish, Runs,
  put, after_loop, new_runlist, terminator, unmapped, enter, or_lcn, start_runs,
}
use libntfs.Runlist.Pairs.Places.{AtEnd, put-append, put-rlpos, put-AtEnd}
use libntfs.Runlist.Pairs.Ends.{Round, Round-cases, Decoding, none≢some}

-- Runs that are not empty, hold clusters, a hole or nothing mapped, and follow one another from
-- `v` to `w`.
abbrev pub IsChain : ℕ → ℕ → List RunlistElement → Type 0
IsChain v w [] = v ≡ w
IsChain v w (e ∷ rs) =
    (e.vcn ≡ v)
    × (0 < e.length)
    × ((e.lcn < 2 ^ 63) ⊎ ((e.lcn ≡ lcn_hole) ⊎ (e.lcn ≡ lcn_rl_not_mapped)))
    × IsChain (add64 v e.length) w rs

IsChain-snoc :
    (u v : ℕ) (rs : List RunlistElement) (e : RunlistElement)
    → IsChain u v rs
    → e.vcn ≡ v
    → 0 < e.length
    → (e.lcn < 2 ^ 63) ⊎ ((e.lcn ≡ lcn_hole) ⊎ (e.lcn ≡ lcn_rl_not_mapped))
    → IsChain u (add64 v e.length) (rs ++ (e ∷ []))
IsChain-snoc u v [] e c at pos valid = (at ∙ sym c, pos, valid, ap (λ x. add64 x e.length) c)
IsChain-snoc u v (r ∷ rs) e (a, b, d, c) at pos valid =
    (a, b, d, IsChain-snoc (add64 u r.length) v rs e c at pos valid)

decoded_lcn :
    (head : ℕ) (buf : List ℕ) (n lcn : ℕ) (l : Option ℕ)
    → decode_lcn head buf n lcn ≡ ok l
    → (or_lcn l lcn_hole < 2 ^ 63) ⊎ (or_lcn l lcn_hole ≡ lcn_hole)
unfolding decode_lcn
decoded_lcn head buf n lcn l h = ground arith

-- The elements so far, while the places do not wrap: `few` bytes are left.
abbrev IsEntered : ℕ → ℕ → ℕ → Runs → Type 0
IsEntered u v few out = IsChain u v out.rl × (v < 2 ^ 64) × AtEnd out × (out.rlpos + few < 2 ^ 16)

enter-IsEntered :
    (u v lcn n few few' : ℕ) (out : Runs)
    → IsEntered u v few out
    → few' < few
    → 0 < few'
    → (lcn < 2 ^ 63) ⊎ (lcn ≡ lcn_hole)
    → IsEntered u (add64 v n) few' (enter out v lcn n)
enter-IsEntered u v lcn n few few' out (c, hv, at, room) less pos valid =
    elim (Bool-cases (n == 0)) [
      | inl empty ↦
          let same : v ≡ add64 v n = ground arith in
          rw empty
            (subst (λ w. IsChain u w out.rl) same c, omega arith, at, omega (arith, room, less))
      | inr run ↦
          let e : RunlistElement = record { vcn = v; lcn = lcn; length = n } in
          let one : out.rlpos + 1 < 2 ^ 16 = omega (arith, room, less, pos) in
          rw run (
            subst (IsChain u (add64 v n)) (sym (put-append out e at)) (
                IsChain-snoc u v out.rl e c refl (ground arith)
                  (elim valid [ inl a ↦ inl a | inr b ↦ inr (inl b) ])),
            omega arith,
            put-AtEnd out e at one,
            omega (arith, room, less, put-rlpos out e one),
          )
    ]

abbrev LoopIsChain : Outcome (ℕ × Runs) → Type 0
LoopIsChain (ok (w, rs)) = IsEntered 0 w 1 rs
LoopIsChain (fails e) = Unit
LoopIsChain fault = Unit

some_outcome : {r s : Outcome (ℕ × Runs)} → ◌≡◌ {A = Decoding} (some r) (some s) → r ≡ s
some_outcome e = cc

decode_loop-IsChain :
    (fuel : ℕ) (buf : List ℕ) (vcn lcn : ℕ) (out : Runs) (r : Outcome (ℕ × Runs))
    → IsEntered 0 vcn (length buf + 1) out
    → decode_loop fuel buf vcn lcn out ≡ some r
    → LoopIsChain r
unfolding Round
decode_loop-IsChain zero buf vcn lcn out r c e =
    absurd (none≢some {r = r} (unfold decode_loop in e))
decode_loop-IsChain (suc fuel) [] vcn lcn out r c e =
    subst LoopIsChain (some_outcome {r = fails eio} {s = r} (unfold decode_loop in e)) tt
decode_loop-IsChain (suc fuel) (head ∷ rest) vcn lcn out r c e =
    elim (Round-cases fuel head rest vcn lcn out) [
      | inl stops ↦
          subst LoopIsChain (some_outcome (sym stops ∙ e)) (c.0, c.1, c.2, omega (arith, c.3))
      | inr (inl stops) ↦ subst LoopIsChain (some_outcome (sym stops ∙ e)) tt
      | inr (inr (inl (x, stops))) ↦ subst LoopIsChain (some_outcome (sym stops ∙ e)) tt
      | inr (inr (inr (n, l, is, at, goes))) ↦
          decode_loop-IsChain fuel (drop (low head + high head + 1) (head ∷ rest)) (add64 vcn n)
            (or_lcn l lcn) (enter out vcn (or_lcn l lcn_hole) n) r
            (enter-IsEntered 0 vcn (or_lcn l lcn_hole) n _ _ out c
              (omega (arith, length-drop (low head + high head + 1) (head ∷ rest))) (omega arith)
              (decoded_lcn head (head ∷ rest) n lcn l at))
            (sym goes ∙ e)
    ]

-- A list that the decoder may return: a chain from 0 and its terminator.
pub record IsDecoded (rl : Runlist) : Type 0 where
  pub runs : List RunlistElement
  pub end : RunlistElement
  pub is_list : rl ≡ runs ++ (end ∷ [])
  pub chain : IsChain 0 end.vcn runs
  pub ends : end.length ≡ 0
  pub code : (end.lcn ≡ lcn_enoent) ⊎ (end.lcn ≡ lcn_rl_not_mapped)

abbrev Finished : Volume → AttrRecord → ℕ → Runs → Runlist → Type 0
Finished vol attr w rs rl =
    (rl ≡ (put rs (terminator w lcn_rl_not_mapped)).rl)
    ⊎ ((rl ≡ (put rs (terminator w lcn_enoent)).rl)
        ⊎ ((0 < sub64 (num_clusters vol attr) w)
            × (rl
                ≡ (put (put rs (unmapped w (sub64 (num_clusters vol attr) w)))
                    (terminator (add64 w (sub64 (num_clusters vol attr) w)) lcn_enoent)).rl)))

finish-Finished :
    (vol : Volume) (attr : AttrRecord) (w : ℕ) (rs : Runs) (rl : Runlist)
    → w < 2 ^ 64
    → finish vol attr w rs ≡ ok rl
    → Finished vol attr w rs rl
unfolding finish
finish-Finished vol attr w rs rl hw e = ground arith

finish-IsDecoded :
    (vol : Volume) (attr : AttrRecord) (w : ℕ) (rs : Runs) (rl : Runlist)
    → IsEntered 0 w 1 rs
    → finish vol attr w rs ≡ ok rl
    → IsDecoded rl
finish-IsDecoded vol attr w rs rl (c, hw, at, few) e =
    elim (finish-Finished vol attr w rs rl hw e) [
      | inl is ↦ record {
        runs = rs.rl;
        end = terminator w lcn_rl_not_mapped;
        is_list = is ∙ put-append rs _ at;
        chain = c;
        ends = refl;
        code = inr refl;
      }
      | inr (inl is) ↦ record {
        runs = rs.rl;
        end = terminator w lcn_enoent;
        is_list = is ∙ put-append rs _ at;
        chain = c;
        ends = refl;
        code = inl refl;
      }
      | inr (inr (more, is)) ↦ record {
        runs = rs.rl ++ (unmapped w (sub64 (num_clusters vol attr) w) ∷ []);
        end = terminator (add64 w (sub64 (num_clusters vol attr) w)) lcn_enoent;
        is_list =
            is
            ∙ put-append _ _ (put-AtEnd rs _ at few)
            ∙ ap
                (λ r. r ++ (terminator (add64 w (sub64 (num_clusters vol attr) w)) lcn_enoent ∷ []))
                (put-append rs (unmapped w (sub64 (num_clusters vol attr) w)) at);
        chain =
            IsChain-snoc 0 w rs.rl (unmapped w (sub64 (num_clusters vol attr) w)) c refl more
              (inr (inr refl));
        ends = refl;
        code = inl refl;
      }
    ]

after_loop-IsDecoded :
    (vol : Volume) (attr : AttrRecord) (r : Decoding) (rl : Runlist)
    → ((x : Outcome (ℕ × Runs)) → r ≡ some x → LoopIsChain x)
    → after_loop vol attr r ≡ some (ok rl)
    → IsDecoded rl
unfolding after_loop
after_loop-IsDecoded vol attr none rl c e = absurd (cc)
after_loop-IsDecoded vol attr (some (ok (w, rs))) rl c e =
    finish-IsDecoded vol attr w rs rl (c (ok (w, rs)) refl) (cc)
after_loop-IsDecoded vol attr (some (fails x)) rl c e = absurd (cc)
after_loop-IsDecoded vol attr (some fault) rl c e = absurd (cc)

start-IsEntered :
    (vcn few : ℕ) → IsS64 vcn → few + 1 < 2 ^ 16 → IsEntered 0 vcn few (start_runs vcn)
start-IsEntered vcn few h short = elim (Bool-cases (vcn == 0)) [
  | inl first ↦
      let same : 0 ≡ vcn = ground arith in
      rw first (same, omega (arith, same), refl, omega (arith, short))
  | inr more ↦
      rw more ((refl, ground arith, inr (inr refl), omega arith), h, refl, omega (arith, short))
]

-- Whatever the bytes of the attribute, if the ones from the mapping pairs on are fewer than 65534, a
-- runlist that ntfs_mapping_pairs_decompress makes of it begins at cluster 0, no run of it is empty or has an lcn below LCN_RL_NOT_MAPPED, each run begins
-- where the one before ends (as 64-bit numbers), and it ends in one terminator.
pub new_runlist-IsDecoded :
    (vol : Volume) (attr : AttrRecord) (rl : Runlist)
    → IsS64 attr.lowest_vcn
    → ((buf : List ℕ) → attr.mapping_pairs ≡ some buf → length buf < 65534)
    → new_runlist vol attr ≡ some (ok rl)
    → IsDecoded rl
unfolding new_runlist
new_runlist-IsDecoded vol attr rl h short e = elim (Option-cases attr.mapping_pairs) [
  | inl out ↦ absurd (ground (arith, out))
  | inr (buf, is) ↦
      let start = start_runs attr.lowest_vcn in
      let loop = decode_loop (suc (length buf)) buf attr.lowest_vcn 0 start in
      let good = not attr.non_resident || is_neg attr.lowest_vcn in
      elim (Bool-cases good) [
        | inl bad ↦ absurd (ground (arith, bad))
        | inr goes ↦
            after_loop-IsDecoded vol attr loop rl
              (λ x.
                decode_loop-IsChain (suc (length buf)) buf attr.lowest_vcn 0 start x (
                  start-IsEntered attr.lowest_vcn (length buf + 1) h (omega (arith, short buf is))))
              (rw (goes, is) at e)
      ]
]

-- The test `buf + b > attr_end` lets a run length through whose last byte stands just behind the
-- attribute: if the low half of a pair's first byte is the number of bytes that are left, this
-- one included, the decoder reads the byte at `attr_end`.
pub decode_length-fault :
    (head : ℕ) (rest : List ℕ)
    → low head ≡ length (head ∷ rest)
    → decode_length head (head ∷ rest) ≡ fault
unfolding decode_length
decode_length-fault head rest h =
    ground (arith, h, read_significant_bytes-out (head ∷ rest) 0 (low head - 1) (omega arith))
