-- ===== src/Collate/Order.antt =====
-- source/collate.c: what order each collation function computes.
use libntfs.Prelude.{
  eq_of_test, ℕ, ◌^◌, zero, suc, ◌+◌, ◌-◌, ◌*◌, ◌/◌, ◌%◌, ◌<◌, ◌≡◌, refl, ap, sym, ◌∙◌, arith, [],
  ◌∷◌, length, drop, take, min, ltb, ◌≤◌, inl, inr, Option, some, ◌==◌, Bool-cases, if◌then◌else◌,
}
use Prim.Native.Nat.{compare, Ordering}
use Prim.Native.Nat.compare
use libntfs.Names.{◌then◌}
use libntfs.Names.Order.{then_assoc, then_right, then_ne, compare_ne, lex, compare_self}
use libntfs.Collate.{
  Bytes, collates, from_int, minus_one, by_length, collate_binary, read_pair, three_way_pair,
  collate_ntofs_ulong, ulongs_loop, collate_ntofs_ulongs, collate_second, collate_hashes,
  collate_ntofs_security_hash,
}
use libntfs.Collate.Words.{
  words, Word, le32-Word, no_words, three_way-compare, read_pair-Word, lex_words,
}

-- The sign of an int.
abbrev pub sign : ℕ → Ordering
sign rc = if rc == 0 then Ordering.eq else (if ltb rc (2 ^ 31) then Ordering.gt else Ordering.lt)

-- The contract of memcmp: the sign of its result tells the order of the first bytes.
abbrev pub IsMemcmp : (Bytes → Bytes → ℕ → ℕ) → Type 0
IsMemcmp memcmp =
    (data1 data2 : Bytes) (n : ℕ)
    → n ≤ length data1
    → n ≤ length data2
    → sign (memcmp data1 data2 n) ≡ lex (take n data1) (take n data2)

-- The common bytes, then the lengths.
lex-take :
    (n : ℕ) (xs ys : Bytes)
    → n ≡ min (length xs) (length ys)
    → lex (take n xs) (take n ys) then compare (length xs) (length ys) ≡ lex xs ys
unfolding lex
lex-take zero [] [] h = refl
lex-take zero [] (y ∷ ys) h = ground arith
lex-take zero (x ∷ xs) [] h = ground arith
lex-take zero (x ∷ xs) (y ∷ ys) h = absurd (omega (arith, h))
lex-take (suc n) [] ys h = absurd (omega (arith, h))
lex-take (suc n) (x ∷ xs) [] h = absurd (omega (arith, h))
lex-take (suc n) (x ∷ xs) (y ∷ ys) h =
    then_assoc (compare x y) (lex (take n xs) (take n ys))
      (compare (suc (length xs)) (suc (length ys)))
    ∙ ap (λ o. compare x y then o)
        (ap (λ c. lex (take n xs) (take n ys) then c) (compare.suc-suc (length xs) (length ys))
          ∙ lex-take n xs ys (omega (arith, h)))

sign-by_length : (len1 len2 rc : ℕ) → sign (by_length len1 len2 rc) ≡ sign rc then compare len1 len2
unfolding by_length
sign-by_length len1 len2 rc = ground arith

-- If memcmp tells the order of the bytes by the sign of its result, then so does
-- ntfs_collate_binary, of the whole data: the sign of the int that it returns is their
-- lexicographic order.
pub collate_binary-lex :
    (memcmp : Bytes → Bytes → ℕ → ℕ) (data1 data2 : Bytes)
    → IsMemcmp memcmp
    → (rc : ℕ) × (collate_binary memcmp data1 data2 ≡ from_int rc) × (sign rc ≡ lex data1 data2)
unfolding collate_binary
collate_binary-lex memcmp data1 data2 contract =
    let n = min (length data1) (length data2) in
    let rc = memcmp data1 data2 n in
    (
      by_length (length data1) (length data2) rc,
      refl,
      sign-by_length (length data1) (length data2) rc
          ∙ ap (λ o. o then compare (length data1) (length data2))
              (contract data1 data2 n (omega arith) (omega arith))
          ∙ lex-take n data1 data2 refl,
    )

-- The int of an order.
abbrev pub int_of : Ordering → ℕ
int_of Ordering.lt = minus_one
int_of Ordering.eq = 0
int_of Ordering.gt = 1

-- memcmp returns no int but -1, 0 and 1.
abbrev pub ReturnsUnits : (Bytes → Bytes → ℕ → ℕ) → Type 0
ReturnsUnits memcmp =
    (data1 data2 : Bytes) (n : ℕ) → (o : Ordering) × (memcmp data1 data2 n ≡ int_of o)

from_int-sign :
    (len1 len2 : ℕ) (o : Ordering)
    → from_int (by_length len1 len2 (int_of o)) ≡ collates (sign (by_length len1 len2 (int_of o)))
unfolding by_length
from_int-sign len1 len2 Ordering.lt = refl
from_int-sign len1 len2 Ordering.eq = ground arith
from_int-sign len1 len2 Ordering.gt = refl

pub collate_binary-units :
    (memcmp : Bytes → Bytes → ℕ → ℕ) (data1 data2 : Bytes)
    → IsMemcmp memcmp
    → ReturnsUnits memcmp
    → collate_binary memcmp data1 data2 ≡ collates (lex data1 data2)
unfolding collate_binary
collate_binary-units memcmp data1 data2 contract units =
    let len1 = length data1 in
    let len2 = length data2 in
    let n = min len1 len2 in
    let (o, eq) = units data1 data2 n in
    let signed = ap sign (sym eq) ∙ contract data1 data2 n (omega arith) (omega arith) in
    ap (λ rc. from_int (by_length len1 len2 rc)) eq
    ∙ from_int-sign len1 len2 o
    ∙ ap collates (
        sign-by_length len1 len2 (int_of o)
        ∙ ap (λ s. s then compare len1 len2) signed
        ∙ lex-take n data1 data2 refl)

after_pair :
    (d1 d2 : ℕ) (rest : Option (ℕ × ℕ)) (o : Ordering)
    → three_way_pair rest ≡ collates o
    → three_way_pair (if d1 == d2 then rest else some (d1, d2)) ≡ collates (compare d1 d2 then o)
after_pair d1 d2 rest o h = elim (Bool-cases (d1 == d2)) [
  | inl e ↦ rw e (h ∙ ap collates (rw (eq_of_test d1 d2 e, compare_self d2)))
  | inr e ↦ rw e (
      ap collates (
        three_way-compare d1 d2
        ∙ sym (then_right (compare d1 d2))
        ∙ then_ne (compare d1 d2) Ordering.eq o (compare_ne d1 d2 e)))
]

ulongs_loop-lex :
    (more : ℕ) (p1 p2 : Bytes)
    → length p1 ≡ 4 * more + 4
    → length p2 ≡ 4 * more + 4
    → three_way_pair (ulongs_loop more p1 p2) ≡ collates (lex (words p1) (words p2))
unfolding ulongs_loop lex
ulongs_loop-lex zero p1 p2 h1 h2 =
    let w1 = le32-Word p1 (omega (arith, h1)) in
    let w2 = le32-Word p2 (omega (arith, h2)) in
    rw
      (
        lex_words p1 p2 w1 w2,
        read_pair-Word p1 p2 w1 w2,
        no_words (drop 4 p1) (w1.behind ∙ omega (arith, h1)),
        no_words (drop 4 p2) (w2.behind ∙ omega (arith, h2)),
        three_way-compare w1.value w2.value,
      )
      (ap collates (sym (then_right (compare w1.value w2.value))))
ulongs_loop-lex (suc more) p1 p2 h1 h2 =
    let w1 = le32-Word p1 (omega (arith, h1)) in
    let w2 = le32-Word p2 (omega (arith, h2)) in
    let smaller =
      ulongs_loop-lex more (drop 4 p1) (drop 4 p2) (w1.behind ∙ omega (arith, h1))
        (w2.behind ∙ omega (arith, h2)) in
    rw (lex_words p1 p2 w1 w2, read_pair-Word p1 p2 w1 w2, ulongs_loop)
      (after_pair w1.value w2.value _ _ smaller)

ulongs-valid :
    (data1 data2 : Bytes)
    → length data1 ≡ length data2
    → 0 < length data1
    → length data1 % 4 ≡ 0
    → collate_ntofs_ulongs data1 data2
      ≡ three_way_pair (ulongs_loop (length data1 / 4 - 1) data1 data2)
unfolding collate_ntofs_ulongs
ulongs-valid data1 data2 same some_of whole = ground (arith, same, some_of, whole)

-- On data of one length, a positive multiple of four, ntfs_collate_ntofs_ulongs is the
-- lexicographic order of the numbers.
pub collate_ntofs_ulongs-lex :
    (data1 data2 : Bytes)
    → length data1 ≡ length data2
    → 0 < length data1
    → length data1 % 4 ≡ 0
    → collate_ntofs_ulongs data1 data2 ≡ collates (lex (words data1) (words data2))
collate_ntofs_ulongs-lex data1 data2 same some_of whole =
    ulongs-valid data1 data2 same some_of whole
    ∙ ulongs_loop-lex (length data1 / 4 - 1) data1 data2 (omega (arith, some_of, whole))
        (omega (arith, same, some_of, whole))

hash-valid :
    (data1 data2 : Bytes)
    → length data1 ≡ 8
    → length data2 ≡ 8
    → collate_ntofs_security_hash data1 data2 ≡ collate_hashes data1 data2 (read_pair data1 data2)
unfolding collate_ntofs_security_hash
hash-valid data1 data2 h1 h2 = rw (h1, h2) refl

second_compare : (d1 d2 : ℕ) → collate_second (some (d1, d2)) ≡ collates (compare d1 d2)
unfolding collate_second
second_compare d1 d2 = ground arith

hashes_decide :
    (p1 p2 : Bytes) (d1 d2 : ℕ) (o : Ordering)
    → collate_second (read_pair (drop 4 p1) (drop 4 p2)) ≡ collates o
    → collate_hashes p1 p2 (some (d1, d2)) ≡ collates (compare d1 d2 then o)
unfolding collate_hashes
hashes_decide p1 p2 d1 d2 o h = ground (arith, h)

lex-Word :
    (p1 p2 : Bytes) (w1 : Word p1) (w2 : Word p2)
    → length p1 ≡ 4
    → length p2 ≡ 4
    → lex (words p1) (words p2) ≡ compare w1.value w2.value
unfolding lex
lex-Word p1 p2 w1 w2 h1 h2 =
    lex_words p1 p2 w1 w2
    ∙ rw
        (
          no_words (drop 4 p1) (w1.behind ∙ omega (arith, h1)),
          no_words (drop 4 p2) (w2.behind ∙ omega (arith, h2)),
        )
        (then_right (compare w1.value w2.value))

-- On eight bytes ntfs_collate_ntofs_security_hash is the lexicographic order of the two numbers.
pub security_hash-lex :
    (data1 data2 : Bytes)
    → length data1 ≡ 8
    → length data2 ≡ 8
    → collate_ntofs_security_hash data1 data2 ≡ collates (lex (words data1) (words data2))
unfolding lex
security_hash-lex data1 data2 h1 h2 =
    let w1 = le32-Word data1 (omega (arith, h1)) in
    let w2 = le32-Word data2 (omega (arith, h2)) in
    let v1 = le32-Word (drop 4 data1) (omega (arith, w1.behind, h1)) in
    let v2 = le32-Word (drop 4 data2) (omega (arith, w2.behind, h2)) in
    hash-valid data1 data2 h1 h2
    ∙ ap (collate_hashes data1 data2) (read_pair-Word data1 data2 w1 w2)
    ∙ hashes_decide data1 data2 w1.value w2.value
        (lex (words (drop 4 data1)) (words (drop 4 data2)))
        (ap collate_second (read_pair-Word (drop 4 data1) (drop 4 data2) v1 v2)
          ∙ second_compare v1.value v2.value
          ∙ ap collates (
              sym
                (lex-Word _ _ v1 v2 (omega (arith, w1.behind, h1)) (omega (arith, w2.behind, h2)))))
    ∙ ap collates (sym (lex_words data1 data2 w1 w2))

ulong-valid :
    (data1 data2 : Bytes)
    → length data1 ≡ 4
    → length data2 ≡ 4
    → collate_ntofs_ulong data1 data2 ≡ three_way_pair (read_pair data1 data2)
unfolding collate_ntofs_ulong
ulong-valid data1 data2 h1 h2 = rw (h1, h2) refl

-- On four bytes ntfs_collate_ntofs_ulong compares the two numbers.
pub collate_ntofs_ulong-lex :
    (data1 data2 : Bytes)
    → length data1 ≡ 4
    → length data2 ≡ 4
    → collate_ntofs_ulong data1 data2 ≡ collates (lex (words data1) (words data2))
collate_ntofs_ulong-lex data1 data2 h1 h2 =
    let w1 = le32-Word data1 (omega (arith, h1)) in
    let w2 = le32-Word data2 (omega (arith, h2)) in
    ulong-valid data1 data2 h1 h2
    ∙ ap three_way_pair (read_pair-Word data1 data2 w1 w2)
    ∙ ap collates (three_way-compare w1.value w2.value ∙ sym (lex-Word data1 data2 w1 w2 h1 h2))
