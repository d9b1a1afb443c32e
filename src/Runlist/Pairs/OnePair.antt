-- ===== src/Runlist/Pairs/OnePair.antt =====
-- One run in the mapping pairs array: what encode_run writes, decode_length and decode_lcn read.
use Prim.Native.Nat.{bit_or}
use libntfs.Prelude.{
  ℕ, ◌+◌, ◌-◌, ◌*◌, ◌/◌, ◌^◌, ◌%◌, ◌≤◌, ◌<◌, ◌≡◌, refl, sym, ap, ◌∙◌, arith, List, [], ◌∷◌, ◌++◌,
  length, drop, Option, none, some, ltb, leb, if◌then◌else◌, Bool-cases, inl, inr, ◌⊎◌,
  length-append, append_assoc, append-nil, drop-append_length,
}
use libntfs.Prelude.Bits.{bit_and_low, bit_and_high, bit_or_join}
use libntfs.Prelude.Word.{IsS64, IsNonneg, add64, minus}
use libntfs.Runlist.{ok}
use libntfs.Runlist.Bytes.{
  Writing-cases, written, cut_off, write_significant_bytes, get_nr_significant_bytes,
  read_significant_bytes,
}
use libntfs.Runlist.Bytes.RoundTrip.{
  signed_value, write_significant_bytes_lem, write_significant_bytes_total,
  read_significant_bytes_lem,
}
use libntfs.Runlist.Pairs.{header, encode_run}
use libntfs.Runlist.Pairs.Decompress.{low, high, has_lcn, decode_length, decode_lcn}

header_lem : (a b : ℕ) → a < 16 → b < 16 → header a b ≡ a * 16 + b
unfolding header
header_lem a b ha hb =
    let whole : bit_or ((a * 16 + b) / 16 * 16) ((a * 16 + b) % 16) ≡ a * 16 + b =
      bit_or_join (a * 16 + b) (omega arith) in
    let one : (a * 16 + b) / 16 * 16 ≡ a * 16 = omega arith in
    let two : (a * 16 + b) % 16 ≡ b = omega arith in
    let joined : bit_or (a * 16) b ≡ a * 16 + b = rw (one, two) at whole in rw joined (omega arith)

-- The two halves of the first byte of a pair.
pub header_fields :
    (a b : ℕ)
    → a < 16
    → 1 ≤ b
    → b < 16
    → (low (header a b) ≡ b)
      × (high (header a b) ≡ a)
      × (has_lcn (header a b) ≡ ltb 0 a)
      × (1 ≤ header a b)
      × (header a b < 256)
unfolding low high has_lcn
header_fields a b ha pos hb = rw (header_lem a b ha hb) (
  bit_and_low (a * 16 + b) (omega arith) ∙ omega arith,
  bit_and_low ((a * 16 + b) / 16) (omega arith) ∙ omega arith,
  ground (arith, bit_and_high (a * 16 + b) (omega arith)),
  omega arith,
  omega arith,
)

-- The body of a pair: `lb` are the bytes of the length, `cb` those of the lcn, if any.
module _ (lb cb rest : List ℕ) (few_l : length lb ≤ 8) (some_l : 1 ≤ length lb)
    (few_c : length cb ≤ 8) where
  abbrev head : ℕ
  head = header (length cb) (length lb)

  abbrev pair : List ℕ
  pair = head ∷ (lb ++ cb)

  low-head : low head ≡ length lb
  low-head = (header_fields (length cb) (length lb) (omega arith) some_l (omega arith)).0

  high-head : high head ≡ length cb
  high-head = (header_fields (length cb) (length lb) (omega arith) some_l (omega arith)).1

  length-pair : length (pair ++ rest) ≡ 1 + length lb + length cb + length rest
  length-pair = omega (arith, length-append (lb ++ cb) rest, length-append lb cb)

  read_length : read_significant_bytes (pair ++ rest) 0 (length lb - 1) ≡ some (signed_value lb)
  read_length =
      ap (λ b. read_significant_bytes (head ∷ b) 0 (length lb - 1)) (append_assoc lb cb rest)
      ∙ read_significant_bytes_lem (head ∷ []) lb (cb ++ rest) 0 (length lb - 1) (omega arith)
          (omega arith)

  pub decode_length-pair :
      IsNonneg (signed_value lb) → decode_length head (pair ++ rest) ≡ ok (signed_value lb)
  unfolding decode_length
  decode_length-pair nonneg = rw (low-head, read_length) (ground (arith, length-pair))

  pub decode_lcn-hole : (n lcn : ℕ) → length cb ≡ 0 → decode_lcn head (pair ++ rest) n lcn ≡ ok none
  unfolding decode_lcn
  decode_lcn-hole n lcn none_c =
      ground (arith, (header_fields (length cb) (length lb) (omega arith) some_l (omega arith)).2)

  read_lcn :
      1 ≤ length cb
      → read_significant_bytes (pair ++ rest) (length lb) (length cb - 1) ≡ some (signed_value cb)
  read_lcn some_c =
      ap (λ b. read_significant_bytes (head ∷ b) (length lb) (length cb - 1))
        (append_assoc lb cb rest)
      ∙ read_significant_bytes_lem (head ∷ lb) cb rest (length lb) (length cb - 1) (omega arith)
          (omega arith)

  pub decode_lcn-clusters :
      (n lcn : ℕ)
      → 1 ≤ length cb
      → 0 < n
      → (add64 lcn (signed_value cb) < 2 ^ 63) ⊎ (add64 lcn (signed_value cb) ≡ minus 1)
      → decode_lcn head (pair ++ rest) n lcn ≡ ok (some (add64 lcn (signed_value cb)))
  unfolding decode_lcn
  decode_lcn-clusters n lcn some_c pos fits =
      rw (low-head, high-head, read_lcn some_c)
        (ground (
          arith,
          length-pair,
          (header_fields (length cb) (length lb) (omega arith) some_l (omega arith)).2,
        ))

  pub drop-pair : drop (low head + high head + 1) (pair ++ rest) ≡ rest
  drop-pair =
      let bytes : low head + high head + 1 ≡ length pair =
        omega (arith, low-head, high-head, length-append lb cb) in
      rw bytes (drop-append_length pair rest)

-- The bytes of a run: the length's, and the lcn's if `stored` has it.
abbrev pub IsLcn : Option ℕ → List ℕ → Type 0
IsLcn none cb = cb ≡ []
IsLcn (some d) cb = (signed_value cb ≡ d) × (length cb ≡ get_nr_significant_bytes d)

pub record Encoded (room n : ℕ) (stored : Option ℕ) (bytes : List ℕ) : Type 0 where
  pub lb : List ℕ
  pub cb : List ℕ
  pub value : signed_value lb ≡ n
  pub size : length lb ≡ get_nr_significant_bytes n
  pub lcn : IsLcn stored cb
  pub fits : length lb + length cb + 1 < room
  pub is_pair : bytes ≡ header (length cb) (length lb) ∷ (lb ++ cb)

abbrev pub IsStored : Option ℕ → Type 0
IsStored none = Unit {0}
IsStored (some d) = IsS64 d

pub encode_run-none :
    (room n : ℕ) (lb : List ℕ)
    → write_significant_bytes (room - 1) n ≡ written lb
    → encode_run room n none
      ≡ (if leb room (length lb + 0 + 1) then cut_off lb else written (header 0 (length lb) ∷ lb))
unfolding encode_run
encode_run-none room n lb e = rw (e, encode_run)

pub encode_run-some :
    (room n d : ℕ) (lb cb : List ℕ)
    → write_significant_bytes (room - 1) n ≡ written lb
    → write_significant_bytes (room - 1 - length lb) d ≡ written cb
    → encode_run room n (some d) ≡ (
        if leb room (length lb + length cb + 1)
        then cut_off (lb ++ cb)
        else written (header (length cb) (length lb) ∷ (lb ++ cb)))
unfolding encode_run
encode_run-some room n d lb cb e f = rw (e, f, encode_run)

pub encode_run-short_length :
    (room n : ℕ) (stored : Option ℕ) (bs : List ℕ)
    → write_significant_bytes (room - 1) n ≡ cut_off bs
    → encode_run room n stored ≡ cut_off bs
unfolding encode_run
encode_run-short_length room n none bs e = rw (e, encode_run)
encode_run-short_length room n (some d) bs e = rw (e, encode_run)

pub encode_run-short_lcn :
    (room n d : ℕ) (lb bs : List ℕ)
    → write_significant_bytes (room - 1) n ≡ written lb
    → write_significant_bytes (room - 1 - length lb) d ≡ cut_off bs
    → encode_run room n (some d) ≡ cut_off (lb ++ bs)
unfolding encode_run
encode_run-short_lcn room n d lb bs e f = rw (e, f, encode_run)

cut_off≢written : {bs bytes : List ℕ} → cut_off bs ≡ written bytes → ⊥
cut_off≢written e = cc

pub encode_run-Encoded :
    (room n : ℕ) (stored : Option ℕ) (bytes : List ℕ)
    → IsS64 n
    → IsStored stored
    → encode_run room n stored ≡ written bytes
    → Encoded room n stored bytes
encode_run-Encoded room n none bytes hn hs e =
    elim (Writing-cases (write_significant_bytes (room - 1) n)) [
      | inl (bs, short) ↦
          absurd (cut_off≢written (sym (encode_run-short_length room n none bs short) ∙ e))
      | inr (lb, w) ↦
          let k : (if leb room (length lb + 0 + 1)
                then cut_off lb
                else written (header 0 (length lb) ∷ lb))
              ≡ written bytes =
            sym (encode_run-none room n lb w) ∙ e in
          let l = write_significant_bytes_lem (room - 1) n lb hn w in
          elim (Bool-cases (leb room (length lb + 0 + 1))) [
            | inl t ↦ absurd (cut_off≢written (rw t at k))
            | inr f ↦ record {
              lb = lb;
              cb = [];
              value = l.0;
              size = l.1;
              lcn = refl;
              fits = ground arith;
              is_pair = rw append-nil (ground (arith, k));
            }
          ]
    ]
encode_run-Encoded room n (some d) bytes hn hs e =
    elim (Writing-cases (write_significant_bytes (room - 1) n)) [
      | inl (bs, short) ↦
          absurd (cut_off≢written (sym (encode_run-short_length room n (some d) bs short) ∙ e))
      | inr (lb, w) ↦
          let l = write_significant_bytes_lem (room - 1) n lb hn w in
          elim (Writing-cases (write_significant_bytes (room - 1 - length lb) d)) [
            | inl (bs, short) ↦
                absurd (cut_off≢written (sym (encode_run-short_lcn room n d lb bs w short) ∙ e))
            | inr (cb, v) ↦
                let k : (if leb room (length lb + length cb + 1)
                      then cut_off (lb ++ cb)
                      else written (header (length cb) (length lb) ∷ (lb ++ cb)))
                    ≡ written bytes =
                  sym (encode_run-some room n d lb cb w v) ∙ e in
                let m = write_significant_bytes_lem (room - 1 - length lb) d cb hs v in
                elim (Bool-cases (leb room (length lb + length cb + 1))) [
                  | inl t ↦ absurd (cut_off≢written (rw t at k))
                  | inr f ↦ record {
                    lb = lb;
                    cb = cb;
                    value = l.0;
                    size = l.1;
                    lcn = (m.0, m.1);
                    fits = ground arith;
                    is_pair = ground (arith, k);
                  }
                ]
          ]
    ]

-- The encoder succeeds when the room is more than the bytes that the run takes.
abbrev pub stored_bytes : Option ℕ → ℕ
stored_bytes none = 0
stored_bytes (some d) = get_nr_significant_bytes d

pub encode_run_total :
    (room n : ℕ) (stored : Option ℕ)
    → IsS64 n
    → IsStored stored
    → 1 + get_nr_significant_bytes n + stored_bytes stored < room
    → (bytes : List ℕ) × (encode_run room n stored ≡ written bytes)
encode_run_total room n none hn hs fits =
    let (lb, w) = write_significant_bytes_total (room - 1) n hn (omega arith) in
    let l = write_significant_bytes_lem (room - 1) n lb hn w in
    (header 0 (length lb) ∷ lb, encode_run-none room n lb w ∙ ground (arith, l.1))
encode_run_total room n (some d) hn hs fits =
    let (lb, w) = write_significant_bytes_total (room - 1) n hn (omega arith) in
    let l = write_significant_bytes_lem (room - 1) n lb hn w in
    let (cb, v) = write_significant_bytes_total (room - 1 - length lb) d hs (omega (arith, l.1)) in
    let m = write_significant_bytes_lem (room - 1 - length lb) d cb hs v in
    (
      header (length cb) (length lb) ∷ (lb ++ cb),
      encode_run-some room n d lb cb w v ∙ ground (arith, l.1, m.1),
    )
