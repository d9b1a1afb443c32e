-- ===== src/Names/Order.antt =====
-- The lexicographic order of two lists of numbers, which is what source/unistr.c and
-- source/collate.c compute: the first difference decides, and a prefix comes first.
use libntfs.Prelude.{suc, ◌≢◌, ◌==◌, false, ℕ, ◌≡◌, refl, arith, List, [], ◌∷◌}
use Prim.Native.Nat.{compare, Ordering}
use libntfs.Names.{◌then◌}

unfoldable pub lex : List ℕ → List ℕ → Ordering
lex [] [] = Ordering.eq
lex [] (y ∷ ys) = Ordering.lt
lex (x ∷ xs) [] = Ordering.gt
lex (x ∷ xs) (y ∷ ys) = compare x y then lex xs ys

abbrev pub reversed : Ordering → Ordering
reversed Ordering.lt = Ordering.gt
reversed Ordering.eq = Ordering.eq
reversed Ordering.gt = Ordering.lt

pub compare_self : (x : ℕ) → compare x x ≡ Ordering.eq
compare_self x = ground arith

compare-reversed : (x y : ℕ) → compare y x ≡ reversed (compare x y)
compare-reversed x y = ground arith

pub eq_of_compare : (x y : ℕ) → compare x y ≡ Ordering.eq → x ≡ y
eq_of_compare x y h = ground arith

pub then_assoc : (a b c : Ordering) → (a then b) then c ≡ a then (b then c)
then_assoc Ordering.lt b c = refl
then_assoc Ordering.eq b c = refl
then_assoc Ordering.gt b c = refl

pub then_eq : (a b : Ordering) → a then b ≡ Ordering.eq → (a ≡ Ordering.eq) × (b ≡ Ordering.eq)
then_eq Ordering.lt b h = absurd (cc)
then_eq Ordering.eq b h = (refl, h)
then_eq Ordering.gt b h = absurd (cc)

pub reversed_then : (a b : Ordering) → reversed (a then b) ≡ reversed a then reversed b
reversed_then Ordering.lt b = refl
reversed_then Ordering.eq b = refl
reversed_then Ordering.gt b = refl

pub lex_self : (xs : List ℕ) → lex xs xs ≡ Ordering.eq
unfolding lex
lex_self [] = refl
lex_self (x ∷ xs) = rw compare_self (lex_self xs)

pub lex-reversed : (xs ys : List ℕ) → lex ys xs ≡ reversed (lex xs ys)
unfolding lex
lex-reversed [] [] = refl
lex-reversed [] (y ∷ ys) = refl
lex-reversed (x ∷ xs) [] = refl
lex-reversed (x ∷ xs) (y ∷ ys) = rw (reversed_then, compare-reversed x y, lex-reversed xs ys)

pub eq_of_lex : (xs ys : List ℕ) → lex xs ys ≡ Ordering.eq → xs ≡ ys
unfolding lex
eq_of_lex [] [] h = refl
eq_of_lex [] (y ∷ ys) h = absurd (cc)
eq_of_lex (x ∷ xs) [] h = absurd (cc)
eq_of_lex (x ∷ xs) (y ∷ ys) h =
    let (e, f) = then_eq (compare x y) (lex xs ys) h in rw (eq_of_compare x y e, eq_of_lex xs ys f)

pub then_right : (a : Ordering) → a then Ordering.eq ≡ a
then_right Ordering.lt = refl
then_right Ordering.eq = refl
then_right Ordering.gt = refl

-- What follows a difference does not matter.
pub then_ne : (a b c : Ordering) → a ≢ Ordering.eq → a then b ≡ a then c
then_ne Ordering.lt b c h = refl
then_ne Ordering.eq b c h = absurd (h refl)
then_ne Ordering.gt b c h = refl

pub compare_ne : (x y : ℕ) → (x == y) ≡ false → compare x y ≢ Ordering.eq
compare_ne x y h e = ground arith

pub compare-suc : (a b : ℕ) → compare (suc a) (suc b) ≡ compare a b
compare-suc a b = ground arith

pub compare_zero-suc : (n : ℕ) → compare 0 (suc n) ≡ Ordering.lt
compare_zero-suc n = ground arith

pub compare-suc-zero : (n : ℕ) → compare (suc n) 0 ≡ Ordering.gt
compare-suc-zero n = ground arith
