-- ===== src/Runlist/Pairs/Ends.antt =====
-- ntfs_mapping_pairs_decompress on any bytes: the cases of one round of its loop, and its end.
use libntfs.Prelude.{
  ℕ, zero, suc, ◌+◌, ◌<◌, ◌≡◌, ◌≢◌, refl, sym, ◌∙◌, arith, List, [], ◌∷◌, length, drop, length-drop,
  Option, none, some, ◌==◌, Option-cases, Bool-cases, inl, inr, ◌⊎◌,
}
use libntfs.Prelude.Word.{add64}
use libntfs.Runlist.{Outcome, ok, fails, fault, Errno, Outcome-cases, lcn_hole}
use libntfs.Runlist.Pairs.Decompress.{
  AttrRecord, Volume, low, high, decode_length, decode_lcn, decode_loop, after_loop, new_runlist,
  Runs, enter, or_lcn, start_runs,
}

-- One round of the decoder's loop: it stops, or goes on behind the pair.
unfoldable pub Round : ℕ → ℕ → List ℕ → ℕ → ℕ → Runs → Type 0
Round fuel head rest vcn lcn out =
    let loop = decode_loop (suc fuel) (head ∷ rest) vcn lcn out in
    (loop ≡ some (ok (vcn, out)))
    ⊎ ((loop ≡ some fault)
        ⊎ (((e : Errno) × (loop ≡ some (fails e)))
            ⊎ ((n : ℕ) × (l : Option ℕ) × (decode_length head (head ∷ rest) ≡ ok n)
                × (decode_lcn head (head ∷ rest) n lcn ≡ ok l)
                × (loop
                    ≡ decode_loop fuel (drop (low head + high head + 1) (head ∷ rest)) (add64 vcn n)
                        (or_lcn l lcn) (enter out vcn (or_lcn l lcn_hole) n)))))

pub Round-cases :
    (fuel head : ℕ) (rest : List ℕ) (vcn lcn : ℕ) (out : Runs) → Round fuel head rest vcn lcn out
unfolding Round decode_loop
Round-cases fuel head rest vcn lcn out = elim (Bool-cases (head == 0)) [
  | inl end ↦ inl (rw (end, decode_loop))
  | inr going ↦ elim (Outcome-cases (decode_length head (head ∷ rest))) [
    | inr (inr is) ↦ inr (inl (rw (going, is, decode_loop)))
    | inr (inl (e, is)) ↦ inr (inr (inl (e, rw (going, is, decode_loop))))
    | inl (n, is) ↦ elim (Outcome-cases (decode_lcn head (head ∷ rest) n lcn)) [
      | inr (inr at) ↦ inr (inl (rw (going, is, at, decode_loop)))
      | inr (inl (e, at)) ↦ inr (inr (inl (e, rw (going, is, at, decode_loop))))
      | inl (l, at) ↦ inr (inr (inr (n, l, is, at, rw (going, is, at, decode_loop))))
    ]
  ]
]

abbrev pub Decoding : Type 0
Decoding = Option (Outcome (ℕ × Runs))

pub none≢some : {r : Outcome (ℕ × Runs)} → ◌≡◌ {A = Decoding} none (some r) → ⊥
none≢some e = cc

-- Each round takes a byte at least.
decode_loop-some :
    (fuel : ℕ) (buf : List ℕ) (vcn lcn : ℕ) (out : Runs)
    → length buf < fuel
    → decode_loop fuel buf vcn lcn out ≢ none
unfolding Round
decode_loop-some zero buf vcn lcn out h e = absurd (omega arith)
decode_loop-some (suc fuel) [] vcn lcn out h e = unfold decode_loop in cc
decode_loop-some (suc fuel) (head ∷ rest) vcn lcn out h e =
    elim (Round-cases fuel head rest vcn lcn out) [
      | inl stops ↦ none≢some (sym e ∙ stops)
      | inr (inl stops) ↦ none≢some (sym e ∙ stops)
      | inr (inr (inl (x, stops))) ↦ none≢some (sym e ∙ stops)
      | inr (inr (inr (n, l, is, at, goes))) ↦
          decode_loop-some fuel (drop (low head + high head + 1) (head ∷ rest)) (add64 vcn n)
            (or_lcn l lcn) (enter out vcn (or_lcn l lcn_hole) n)
            (omega (arith, length-drop (low head + high head + 1) (head ∷ rest))) (sym goes ∙ e)
    ]

after_loop-some :
    (vol : Volume) (attr : AttrRecord) (r : Decoding) → r ≢ none → after_loop vol attr r ≢ none
unfolding after_loop
after_loop-some vol attr none h e = h refl
after_loop-some vol attr (some (ok (vcn, out))) h e = cc
after_loop-some vol attr (some (fails x)) h e = cc
after_loop-some vol attr (some fault) h e = cc

-- Whatever the attribute, the loop of ntfs_mapping_pairs_decompress ends before its fuel does: the
-- function returns a runlist or an error, or reads behind the attribute.
pub new_runlist-ne-none : (vol : Volume) (attr : AttrRecord) → new_runlist vol attr ≢ none
unfolding new_runlist
new_runlist-ne-none vol attr e = elim (Option-cases attr.mapping_pairs) [
  | inl out ↦ ground (arith, out)
  | inr (buf, is) ↦ ground (
    arith,
    is,
    after_loop-some vol attr
        (decode_loop (suc (length buf)) buf attr.lowest_vcn 0 (start_runs attr.lowest_vcn))
        (decode_loop-some (suc (length buf)) buf attr.lowest_vcn 0 (start_runs attr.lowest_vcn)
          (omega arith)),
  )
]
