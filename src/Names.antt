-- ===== src/Names.antt =====
-- source/unistr.c: comparing and folding names. A name is the list of its characters, each as the
-- number that le16_to_cpu gives; a pointer into it is the list from there on, and `none` is a read
-- behind its end. The results -1, 0 and 1 are `lt`, `eq` and `gt`.
pub mod Loops
pub mod Compare
pub mod Order
pub mod Strings
use libntfs.Prelude.{
  ℕ, zero, suc, List, [], ◌∷◌, map, Option, none, some, Bool, true, false, ◌&&◌, not, length,
  get_elem?, take, ◌++◌, min, ltb, leb, ◌==◌, if◌then◌else◌,
}
use Prim.Native.Nat.{compare, Ordering}
use mathlib.Core.Option as Opt

abbrev pub Name : Type 0
Name = List ℕ

pub data IgnoreCase : Type 0 where
  case_sensitive : IgnoreCase
  ignore_case : IgnoreCase

-- `if (u < upcase_len) u = le16_to_cpu(upcase[u]);`
abbrev pub fold : List ℕ → ℕ → ℕ
fold table u = elim (get_elem? table u) [ none ↦ u | some v ↦ v ]

infixr 30 ◌then◌
abbrev pub ◌then◌ : Ordering → Ordering → Ordering
Ordering.lt then o = Ordering.lt
Ordering.eq then o = o
Ordering.gt then o = Ordering.gt

-- `while (--cnt && (*name1 == *name2))`, from the value of `cnt` behind `--cnt`: that value and the
-- two pointers at the end of the loop.
unfoldable pub skip_equal : ℕ → Name → Name → Option (ℕ × Name × Name)
skip_equal zero name1 name2 = some (zero, name1, name2)
skip_equal (suc cnt) [] name2 = none
skip_equal (suc cnt) (x ∷ name1) [] = none
skip_equal (suc cnt) (x ∷ name1) (y ∷ name2) =
    let rest = skip_equal cnt name1 name2 in
    if x == y then rest else some (suc cnt, x ∷ name1, y ∷ name2)

-- While `u1 == u2` and `cnt` characters are left, the next ones are folded.
unfoldable pub fold_loop : List ℕ → ℕ → Name → Name → ℕ → ℕ → Option (ℕ × ℕ)
fold_loop upcase zero name1 name2 u1 u2 = some (u1, u2)
fold_loop upcase (suc cnt) [] name2 u1 u2 = none
fold_loop upcase (suc cnt) (x ∷ name1) [] u1 u2 = none
fold_loop upcase (suc cnt) (x ∷ name1) (y ∷ name2) u1 u2 =
    let rest = fold_loop upcase cnt name1 name2 (fold upcase x) (fold upcase y) in
    if u1 == u2 then rest else some (u1, u2)

-- From the first characters that differ, or the last ones.
unfoldable pub collate_sensitive : List ℕ → ℕ → ℕ → ℕ × Name × Name → Option Ordering
collate_sensitive upcase len1 len2 (cnt, [], name2) = none
collate_sensitive upcase len1 len2 (cnt, c1 ∷ name1, []) = none
collate_sensitive upcase len1 len2 (cnt, c1 ∷ name1, c2 ∷ name2) =
    elim (fold_loop upcase cnt name1 name2 (fold upcase c1) (fold upcase c2)) [
      | none ↦ none
      | some (u1, u2) ↦ some (compare u1 u2 then compare len1 len2 then compare c1 c2)
    ]

unfoldable pub collate_ignoring : List ℕ → ℕ → ℕ → ℕ → Name → Name → Option Ordering
collate_ignoring upcase cnt len1 len2 [] name2 = none
collate_ignoring upcase cnt len1 len2 (c1 ∷ name1) [] = none
collate_ignoring upcase cnt len1 len2 (c1 ∷ name1) (c2 ∷ name2) =
    elim (fold_loop upcase cnt name1 name2 (fold upcase c1) (fold upcase c2)) [
      | none ↦ none
      | some (u1, u2) ↦ some (compare u1 u2 then compare len1 len2)
    ]

-- With `suc cnt` characters to compare.
unfoldable pub collate_names : IgnoreCase → List ℕ → ℕ → Name → Name → Option Ordering
collate_names case_sensitive upcase cnt name1 name2 = elim (skip_equal cnt name1 name2) [
  | none ↦ none
  | some at ↦ collate_sensitive upcase (length name1) (length name2) at
]
collate_names ignore_case upcase cnt name1 name2 =
    collate_ignoring upcase cnt (length name1) (length name2) name1 name2

unfoldable pub names_full_collate : Name → Name → IgnoreCase → List ℕ → Option Ordering
names_full_collate name1 name2 ic upcase = elim (min (length name1) (length name2)) [
  | zero ↦ some (compare (length name1) (length name2))
  | suc cnt ↦ collate_names ic upcase cnt name1 name2
]
