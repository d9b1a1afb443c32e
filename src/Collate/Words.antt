-- ===== src/Collate/Words.antt =====
-- source/collate.c: the numbers of 32 bits in the data.
use libntfs.Prelude.{
  ℕ, ◌+◌, ◌-◌, ◌*◌, ◌≤◌, ◌≡◌, refl, arith, List, [], ◌∷◌, length, drop, some, if◌then◌else◌,
}
use Prim.Native.Nat.{compare}
use libntfs.Names.{◌then◌}
use libntfs.Names.Order.{lex}
use libntfs.Collate.{Bytes, le32_to_cpup, three_way, read_pair}

-- The little endian numbers of 32 bits of a list of bytes.
unfoldable pub words : Bytes → List ℕ
words [] = []
words (a ∷ []) = []
words (a ∷ b ∷ []) = []
words (a ∷ b ∷ c ∷ []) = []
words (a ∷ b ∷ c ∷ d ∷ p) = (a + 0x100 * b + 0x10000 * c + 0x1000000 * d) ∷ words p

pub record Word (p : Bytes) : Type 0 where
  pub value : ℕ
  pub reads : le32_to_cpup p ≡ some value
  pub first : words p ≡ value ∷ words (drop 4 p)
  pub behind : length (drop 4 p) ≡ length p - 4

pub le32-Word : (p : Bytes) → 4 ≤ length p → Word p
unfolding le32_to_cpup words
le32-Word [] h = absurd (omega (arith, h))
le32-Word (a ∷ []) h = absurd (omega (arith, h))
le32-Word (a ∷ b ∷ []) h = absurd (omega (arith, h))
le32-Word (a ∷ b ∷ c ∷ []) h = absurd (omega (arith, h))
le32-Word (a ∷ b ∷ c ∷ d ∷ p) h = record {
  value = a + 0x100 * b + 0x10000 * c + 0x1000000 * d;
  reads = refl;
  first = refl;
  behind = omega arith;
}

pub no_words : (p : Bytes) → length p ≡ 0 → words p ≡ []
unfolding words
no_words [] h = refl
no_words (x ∷ p) h = absurd (omega (arith, h))

pub three_way-compare : (d1 d2 : ℕ) → three_way d1 d2 ≡ compare d1 d2
unfolding three_way
three_way-compare d1 d2 = ground arith

pub read_pair-Word :
    (p1 p2 : Bytes) (w1 : Word p1) (w2 : Word p2) → read_pair p1 p2 ≡ some (w1.value, w2.value)
unfolding read_pair
read_pair-Word p1 p2 w1 w2 = rw (w1.reads, read_pair) (rw w2.reads refl)

pub lex_words :
    (p1 p2 : Bytes) (w1 : Word p1) (w2 : Word p2)
    → lex (words p1) (words p2)
      ≡ compare w1.value w2.value then lex (words (drop 4 p1)) (words (drop 4 p2))
unfolding lex
lex_words p1 p2 w1 w2 = rw (w1.first, w2.first) refl
