-- ===== src/Runlist/Bytes/RoundTrip.antt =====
-- The bytes that ntfs_write_significant_bytes writes: their number and their value.
use libntfs.Prelude.{ℕ, zero, suc, ◌+◌, ◌-◌, ◌%◌, ◌≤◌, ◌<◌, ◌≡◌, refl, arith}
use libntfs.Prelude.{
  none, some, List, [], ◌∷◌, ◌++◌, true, false, get_elem?, length, All, append_assoc,
  get_elem?-append_right, get_elem?-out, length-append, ap, sym, ◌∙◌, Bool-cases, inl, inr,
  Option-cases,
}
use mathlib.Core.Path.{subst}
use native.Mathlib.Nat.{add-zero}
use mathlib.Core.Option
use libntfs.Prelude.Word.{IsS64, add64, asr8, sext8, shl64}
use libntfs.Runlist.Bytes.{
  Writing-cases, written, needs_more, write_significant_bytes, get_nr_significant_bytes, read_loop,
  read_significant_bytes,
}
use libntfs.Runlist.Bytes.Counting.{
  get_nr_significant_bytes_bounds, nr_step, nr_last, asr8-IsS64, value_last, value_step,
}

abbrev pub IsByte : ℕ → Type 0
IsByte x = x < 256

-- What a list of bytes, lowest first, stands for as a signed number.
pub signed_value : List ℕ → ℕ
signed_value [] = 0
signed_value (x ∷ []) = sext8 x
signed_value (x ∷ y ∷ bs) = add64 (shl64 (signed_value (y ∷ bs)) 8) x

-- The bytes written stand for the number, and are as many as ntfs_get_nr_significant_bytes says.
abbrev Writes : ℕ → ℕ → List ℕ → Type 0
Writes room n bs =
    (signed_value bs ≡ n)
    × (length bs ≡ get_nr_significant_bytes n)
    × (length bs ≤ room)
    × All IsByte bs

signed_value_cons :
    (x : ℕ) (bs : List ℕ)
    → 1 ≤ length bs
    → signed_value (x ∷ bs) ≡ add64 (shl64 (signed_value bs) 8) x
unfolding signed_value
signed_value_cons x [] h = absurd (omega arith)
signed_value_cons x (y ∷ bs) h = refl

Writes-last : (room n : ℕ) → IsS64 n → needs_more n ≡ false → Writes (suc room) n (n % 256 ∷ [])
unfolding signed_value
Writes-last room n h last =
    (value_last n h last, omega (arith, nr_last n h last), omega arith, (omega arith, tt))

Writes-more :
    (room n : ℕ) (bs : List ℕ)
    → IsS64 n
    → needs_more n ≡ true
    → Writes room (asr8 n) bs
    → Writes (suc room) n (n % 256 ∷ bs)
Writes-more room n bs h more (v, len, fits, bytes) = (
  signed_value_cons (n % 256) bs
        (omega (arith, len, (get_nr_significant_bytes_bounds _ (asr8-IsS64 n h)).0))
      ∙ ap (λ t. add64 (shl64 t 8) (n % 256)) v
      ∙ value_step n h,
  omega (arith, len, nr_step n h more),
  omega arith,
  (omega arith, bytes),
)

written_inj : {a b : List ℕ} → written a ≡ written b → a ≡ b
written_inj e = cc

pub write_significant_bytes_lem :
    (room n : ℕ) (bs : List ℕ)
    → IsS64 n
    → write_significant_bytes room n ≡ written bs
    → Writes room n bs
unfolding write_significant_bytes
write_significant_bytes_lem zero n bs h e = cc
write_significant_bytes_lem (suc room) n bs h e = elim (Bool-cases (needs_more n)) [
  | inl more ↦ elim (Writing-cases (write_significant_bytes room (asr8 n))) [
    | inl (cs, fails) ↦ ground (arith, more, fails)
    | inr (cs, ok) ↦ subst (Writes (suc room) n) (written_inj (rw (more, ok) at e)) (
        Writes-more room n cs h more
          (write_significant_bytes_lem room (asr8 n) cs (asr8-IsS64 n h) ok))
  ]
  | inr last ↦ subst (Writes (suc room) n) (written_inj (rw last at e)) (Writes-last room n h last)
]

-- With the room that the byte count asks for the writer succeeds.
pub write_significant_bytes_total :
    (room n : ℕ)
    → IsS64 n
    → get_nr_significant_bytes n ≤ room
    → (bs : List ℕ) × (write_significant_bytes room n ≡ written bs)
unfolding write_significant_bytes
write_significant_bytes_total zero n h fits =
    absurd (omega (arith, get_nr_significant_bytes_bounds n h))
write_significant_bytes_total (suc room) n h fits = elim (Bool-cases (needs_more n)) [
  | inl more ↦
      let r : (bs : List ℕ) × (write_significant_bytes room (asr8 n) ≡ written bs) =
        write_significant_bytes_total room (asr8 n) (asr8-IsS64 n h)
          (omega (arith, nr_step n h more)) in
      (n % 256 ∷ r.0, rw (more, r.1))
  | inr last ↦ (n % 256 ∷ [], rw last)
]

read_loop_step :
    (buf : List ℕ) (lo n acc i y : ℕ)
    → lo + suc n ≡ i
    → get_elem? buf i ≡ some y
    → read_loop buf lo (suc n) acc ≡ read_loop buf lo n (add64 (shl64 acc 8) y)
unfolding read_loop
read_loop_step buf lo n acc i y at e = rw (at, e, read_loop)

read_loop_fault :
    (buf : List ℕ) (lo n acc i : ℕ)
    → lo + suc n ≡ i
    → get_elem? buf i ≡ none
    → read_loop buf lo (suc n) acc ≡ none
unfolding read_loop
read_loop_fault buf lo n acc i at e = rw (at, e, read_loop)

-- The reader's loop, by its last step instead of its first.
read_loop_last :
    (buf : List ℕ) (lo n acc x : ℕ)
    → get_elem? buf (lo + 1) ≡ some x
    → read_loop buf lo (suc n) acc
      ≡ Option.map (λ a. add64 (shl64 a 8) x) (read_loop buf (lo + 1) n acc)
read_loop_last buf lo zero acc x e =
    read_loop_step buf lo zero acc (lo + 1) x (omega arith) e ∙ unfold read_loop in refl
read_loop_last buf lo (suc n) acc x e = elim (Option-cases (get_elem? buf (lo + 1 + suc n))) [
  | inl out ↦
      read_loop_fault buf lo (suc n) acc (lo + 1 + suc n) (omega arith) out
      ∙ rw (read_loop_fault buf (lo + 1) n acc (lo + 1 + suc n) refl out)
  | inr (y, is) ↦
      read_loop_step buf lo (suc n) acc (lo + 1 + suc n) y (omega arith) is
      ∙ read_loop_last buf lo n (add64 (shl64 acc 8) y) x e
      ∙ rw (read_loop_step buf (lo + 1) n acc (lo + 1 + suc n) y refl is)
]

read_significant_bytes_last :
    (buf : List ℕ) (lo n x : ℕ)
    → get_elem? buf (lo + 1) ≡ some x
    → read_significant_bytes buf lo (suc n)
      ≡ Option.map (λ a. add64 (shl64 a 8) x) (read_significant_bytes buf (lo + 1) n)
unfolding read_significant_bytes
read_significant_bytes_last buf lo n x e =
    let at : lo + suc (suc n) ≡ lo + 1 + suc n = omega arith in
    elim (Option-cases (get_elem? buf (lo + 1 + suc n))) [
      | inl out ↦ rw (at, out, read_significant_bytes)
      | inr (y, is) ↦ rw (at, is, read_significant_bytes) (read_loop_last buf lo n (sext8 y) x e)
    ]

get_at :
    (pre : List ℕ) (x : ℕ) (post : List ℕ) (i : ℕ)
    → length pre ≡ i
    → get_elem? (pre ++ (x ∷ post)) i ≡ some x
get_at pre x post i e = rw (← e, ← add-zero (length pre)) (get_elem?-append_right pre (x ∷ post) 0)

-- Bytes that stand anywhere in the buffer are read back as what they stand for.
pub read_significant_bytes_lem :
    (pre bs post : List ℕ) (lo n : ℕ)
    → length pre ≡ lo + 1
    → length bs ≡ suc n
    → read_significant_bytes (pre ++ (bs ++ post)) lo n ≡ some (signed_value bs)
unfolding signed_value
read_significant_bytes_lem pre [] post lo n e h = absurd (omega arith)
read_significant_bytes_lem pre (x ∷ []) post lo (suc n) e h = absurd (omega arith)
read_significant_bytes_lem pre (x ∷ []) post lo zero e h =
    unfold read_significant_bytes read_loop in
    rw (get_at pre x post (lo + 1) e, read_significant_bytes)
read_significant_bytes_lem pre (x ∷ y ∷ bs) post lo zero e h = absurd (omega arith)
read_significant_bytes_lem pre (x ∷ y ∷ bs) post lo (suc n) e h =
    read_significant_bytes_last (pre ++ (x ∷ y ∷ bs ++ post)) lo n x (get_at pre x _ (lo + 1) e)
    ∙ ap (Option.map (λ a. add64 (shl64 a 8) x)) (
        ap (λ b. read_significant_bytes b (lo + 1) n)
          (sym (append_assoc pre (x ∷ []) (y ∷ bs ++ post)))
        ∙ read_significant_bytes_lem (pre ++ (x ∷ [])) (y ∷ bs) post (lo + 1) n
            (omega (arith, length-append pre (x ∷ []))) (omega arith))

-- A number that would end behind the buffer is a read outside it.
pub read_significant_bytes-out :
    (buf : List ℕ) (lo n : ℕ) → length buf ≤ lo + suc n → read_significant_bytes buf lo n ≡ none
unfolding read_significant_bytes
read_significant_bytes-out buf lo n h =
    rw (get_elem?-out buf (lo + suc n) h, read_significant_bytes)

-- Every s64 is written in as many bytes as ntfs_get_nr_significant_bytes says, at most eight, if
-- there is room for them, and the decoder's loops read it back from wherever the bytes stand.
pub read-write :
    (n room lo : ℕ) (before behind : List ℕ)
    → IsS64 n
    → get_nr_significant_bytes n ≤ room
    → length before ≡ lo + 1
    → (bs : List ℕ) × (write_significant_bytes room n ≡ written bs)
      × (length bs ≡ get_nr_significant_bytes n)
      × (length bs ≤ 8)
      × (read_significant_bytes (before ++ (bs ++ behind)) lo (length bs - 1) ≡ some n)
read-write n room lo before behind h fits at =
    let (bs, w) = write_significant_bytes_total room n h fits in
    let l = write_significant_bytes_lem room n bs h w in
    let bounds = get_nr_significant_bytes_bounds n h in
    (
      bs,
      w,
      l.1,
      omega (arith, l.1, bounds),
      read_significant_bytes_lem before bs behind lo (length bs - 1) at (omega (arith, l.1, bounds))
          ∙ ap some l.0,
    )
