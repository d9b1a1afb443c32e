-- ===== src/Runlist/Pairs/Safety.antt =====
-- The mapping pairs functions on any input: the end of the buffer, the end of the loop, and the
-- shape of what the decoder accepts.
use libntfs.Prelude.{
  ℕ, ◌+◌, ◌-◌, ◌≤◌, ◌<◌, ◌≡◌, sym, ◌∙◌, arith, List, [], ◌∷◌, ◌++◌, length, Option, none, some,
  true, false, ◌==◌, if◌then◌else◌, Bool-cases, inl, inr, ◌⊎◌, length-append,
}
use libntfs.Prelude.Word.{sub64}
use libntfs.Runlist.{RunlistElement, Runlist, ok, Outcome-cases}
use libntfs.Prelude.{zero, suc, ◌%◌, Bool, ap, refl}
use libntfs.Prelude.Word.{asr8}
use libntfs.Runlist.Bytes.{
  Writing, written, cut_off, behind, Writing-cases, write_significant_bytes, needs_more,
}
use libntfs.Runlist.Pairs.OnePair.{
  encode_run-none, encode_run-some, encode_run-short_length, encode_run-short_lcn,
}
use libntfs.Runlist.Pairs.{
  skip_to, encode_run, build_runs, build_from, mapping_pairs_build, Built, is_bad, stores_lcn,
  advance,
}

-- All the bytes that are stored.
left_bytes : Writing → List ℕ
left_bytes (written bs) = bs
left_bytes (cut_off bs) = bs

length-behind :
    (x : ℕ) (w : Writing) → length (left_bytes (behind x w)) ≡ suc (length (left_bytes w))
unfolding left_bytes
length-behind x (written bs) = refl
length-behind x (cut_off bs) = refl

length-write_significant_bytes :
    (room n : ℕ) → length (left_bytes (write_significant_bytes room n)) ≤ room
unfolding write_significant_bytes left_bytes
length-write_significant_bytes zero n = omega arith
length-write_significant_bytes (suc room) n = elim (Bool-cases (needs_more n)) [
  | inl more ↦ rw more (
      omega (
        arith,
        length-behind (n % 256) (write_significant_bytes room (asr8 n)),
        length-write_significant_bytes room (asr8 n),
      ))
  | inr last ↦ rw last (omega arith)
]

cut-write :
    (room n : ℕ) (bs : List ℕ) → write_significant_bytes room n ≡ cut_off bs → length bs ≤ room
unfolding left_bytes
cut-write room n bs e =
    omega (arith, length-write_significant_bytes room n, ap (λ w. length (left_bytes w)) e)

whole-write :
    (room n : ℕ) (bs : List ℕ) → write_significant_bytes room n ≡ written bs → length bs ≤ room
unfolding left_bytes
whole-write room n bs e =
    omega (arith, length-write_significant_bytes room n, ap (λ w. length (left_bytes w)) e)

cut_off_inj : (a b : List ℕ) → cut_off a ≡ cut_off b → a ≡ b
cut_off_inj a b e = cc

decided :
    (full : Bool) (a b cs : List ℕ)
    → (if full then cut_off a else written b) ≡ cut_off cs
    → length cs ≡ length a
decided true a b cs e = ap length (sym (cut_off_inj a cs e))
decided false a b cs e = absurd (cc)

-- The bytes of a pair that does not fit stay in the buffer.
cut-encode_run :
    (room n : ℕ) (stored : Option ℕ) (bytes : List ℕ)
    → 1 ≤ room
    → encode_run room n stored ≡ cut_off bytes
    → length bytes < room
cut-encode_run room n none bytes pos e =
    elim (Writing-cases (write_significant_bytes (room - 1) n)) [
      | inl (bs, w) ↦
          let same = cut_off_inj bs bytes (sym (encode_run-short_length room n none bs w) ∙ e) in
          omega (arith, pos, cut-write (room - 1) n bs w, ap length same)
      | inr (lb, w) ↦ omega (
        arith,
        pos,
        whole-write (room - 1) n lb w,
        decided _ lb _ bytes (sym (encode_run-none room n lb w) ∙ e),
      )
    ]
cut-encode_run room n (some d) bytes pos e =
    elim (Writing-cases (write_significant_bytes (room - 1) n)) [
      | inl (bs, w) ↦
          let same =
            cut_off_inj bs bytes (sym (encode_run-short_length room n (some d) bs w) ∙ e) in
          omega (arith, pos, cut-write (room - 1) n bs w, ap length same)
      | inr (lb, w) ↦
          let few = whole-write (room - 1) n lb w in
          elim (Writing-cases (write_significant_bytes (room - 1 - length lb) d)) [
            | inl (bs, v) ↦
                let same =
                  cut_off_inj (lb ++ bs) bytes
                    (sym (encode_run-short_lcn room n d lb bs w v) ∙ e) in
                omega (
                  arith,
                  pos,
                  few,
                  cut-write (room - 1 - length lb) d bs v,
                  ap length same,
                  length-append lb bs,
                )
            | inr (cb, v) ↦ omega (
              arith,
              pos,
              few,
              whole-write (room - 1 - length lb) d cb v,
              decided _ (lb ++ cb) _ bytes (sym (encode_run-some room n d lb cb w v) ∙ e),
              length-append lb cb,
            )
          ]
    ]

length-encode_run :
    (room n : ℕ) (stored : Option ℕ) (bytes : List ℕ)
    → encode_run room n stored ≡ written bytes
    → length bytes < room
unfolding encode_run
length-encode_run room n none bytes e = ground arith
length-encode_run room n (some d) bytes e = grind (arith, length-append)

build_runs-going :
    (major_ver prev room : ℕ) (e : RunlistElement) (rl : Runlist) (out bytes : List ℕ)
    → (e.length == 0) ≡ false
    → is_bad e ≡ false
    → encode_run room e.length
        (if stores_lcn major_ver e.lcn then some (sub64 e.lcn prev) else none)
      ≡ written bytes
    → build_runs major_ver prev room (e ∷ rl) out
      ≡ build_runs major_ver
          (if stores_lcn major_ver e.lcn then e.lcn else prev)
          (room - length bytes)
          rl
          (out ++ bytes)
unfolding build_runs
build_runs-going major_ver prev room e rl out bytes going good enc =
    rw (going, good, enc, build_runs)

build_runs-stops :
    (major_ver prev room : ℕ) (e : RunlistElement) (rl : Runlist) (out : List ℕ) (b : Built)
    → ((e.length == 0) ≡ true)
      ⊎ ((is_bad e ≡ true)
          ⊎ ((bytes : List ℕ) × (length bytes < room)
              × (encode_run room e.length
                    (if stores_lcn major_ver e.lcn then some (sub64 e.lcn prev) else none)
                  ≡ cut_off bytes)))
    → 1 ≤ room
    → build_runs major_ver prev room (e ∷ rl) out ≡ ok b
    → length b.dst ≤ length out + room
unfolding build_runs
build_runs-stops major_ver prev room e rl out b (inl end) pos h =
    ground (arith, end, pos, h, length-append out (0 ∷ []))
build_runs-stops major_ver prev room e rl out b (inr (inl bad)) pos h =
    ground (arith, bad, pos, h, length-append out (0 ∷ []))
build_runs-stops major_ver prev room e rl out b (inr (inr (bytes, few, cut))) pos h =
    ground (arith, cut, few, pos, h, length-append out (0 ∷ []), length-append out (0 ∷ bytes))

-- The bytes in the buffer do not pass its end.
build_runs-fits :
    (major_ver prev room : ℕ) (rl : Runlist) (out : List ℕ) (b : Built)
    → 1 ≤ room
    → build_runs major_ver prev room rl out ≡ ok b
    → length b.dst ≤ length out + room
build_runs-fits major_ver prev room [] out b pos h = unfold build_runs in cc
build_runs-fits major_ver prev room (e ∷ rl) out b pos h =
    let stored = if stores_lcn major_ver e.lcn then some (sub64 e.lcn prev) else none in
    elim (Bool-cases (e.length == 0)) [
      | inl end ↦ omega (arith, build_runs-stops major_ver prev room e rl out b (inl end) pos h)
      | inr going ↦ elim (Bool-cases (is_bad e)) [
        | inl bad ↦
            omega (arith, build_runs-stops major_ver prev room e rl out b (inr (inl bad)) pos h)
        | inr good ↦ elim (Writing-cases (encode_run room e.length stored)) [
          | inl (bs, full) ↦
              let few = cut-encode_run room e.length stored bs pos full in
              build_runs-stops major_ver prev room e rl out b (inr (inr (bs, few, full))) pos h
          | inr (bytes, enc) ↦
              let short = length-encode_run room e.length stored bytes enc in
              let rest =
                build_runs-fits major_ver (if stores_lcn major_ver e.lcn then e.lcn else prev)
                  (room - length bytes) rl (out ++ bytes) b (omega arith)
                  (sym (build_runs-going major_ver prev room e rl out bytes going good enc) ∙ h) in
              omega (arith, rest, length-append out bytes)
        ]
      ]
    ]

build_from-fits :
    (major_ver dst_len start_vcn : ℕ) (rl : Runlist) (b : Built)
    → 1 ≤ dst_len
    → build_from major_ver dst_len rl start_vcn ≡ ok b
    → length b.dst ≤ dst_len
unfolding build_from
build_from-fits major_ver dst_len start_vcn [] b pos h = cc
build_from-fits major_ver dst_len start_vcn (e ∷ rl) b pos h =
    let delta = sub64 start_vcn e.vcn in
    let stored = if stores_lcn major_ver e.lcn then some (advance e.lcn delta) else none in
    elim (Writing-cases (encode_run dst_len (sub64 e.length delta) stored)) [
      | inl (bs, full) ↦ ground (
        arith,
        full,
        cut-encode_run dst_len (sub64 e.length delta) stored bs pos full,
        build_runs-fits major_ver 0 dst_len (e ∷ rl) [] b,
      )
      | inr (pair, enc) ↦ ground (
        arith,
        enc,
        length-encode_run dst_len (sub64 e.length delta) stored pair enc,
        build_runs-fits major_ver 0 dst_len (e ∷ rl) [] b,
        build_runs-fits major_ver (if stores_lcn major_ver e.lcn then advance e.lcn delta else 0)
            (dst_len - length pair) rl pair b,
      )
    ]

-- Whatever the runlist and the starting cluster, all that ntfs_mapping_pairs_build has written when
-- it returns, the terminating zero and the bytes of a pair that did not fit included, lies in the
-- buffer, if that has a byte at all.
pub build-fits :
    (major_ver dst_len start_vcn : ℕ) (rl : Option Runlist) (b : Built)
    → 1 ≤ dst_len
    → mapping_pairs_build major_ver dst_len rl start_vcn ≡ ok b
    → length b.dst ≤ dst_len
unfolding mapping_pairs_build
build-fits major_ver dst_len start_vcn none b pos h = ground arith
build-fits major_ver dst_len start_vcn (some rl) b pos h =
    elim (Outcome-cases (skip_to rl start_vcn)) [
      | inl (found, is) ↦ ground (arith, is, build_from-fits major_ver dst_len start_vcn found b)
      | inr (inl (e, is)) ↦ ground (arith, is)
      | inr (inr is) ↦ ground (arith, is)
    ]
