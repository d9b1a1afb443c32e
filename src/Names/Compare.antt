-- ===== src/Names/Compare.antt =====
-- source/unistr.c: ntfs_names_full_collate against the lexicographic order.
use libntfs.Prelude.{
  ℕ, zero, suc, ◌≡◌, ◌≢◌, refl, ap, sym, ◌∙◌, arith, List, [], ◌∷◌, map, length, min, ◌⊎◌, ◌↔◌, inl,
  inr, some, false, ◌==◌, some_inj, if◌then◌else◌,
}
use Prim.Native.Nat.{compare, Ordering}
use libntfs.Names.{
  Name, IgnoreCase, case_sensitive, ignore_case, ◌then◌, fold, fold_loop, collate_sensitive,
  collate_ignoring, collate_names, names_full_collate,
}
use libntfs.Names.Order.{
  lex, reversed, eq_of_compare, then_assoc, then_eq, reversed_then, lex_self, lex-reversed,
  eq_of_lex, then_ne, then_right, compare_ne, compare-suc, compare_zero-suc, compare-suc-zero,
}
use libntfs.Names.Loops.{Folds, fold_loop-Folds, Stops, skip_equal-Stops}

eq_cases : (o : Ordering) → (o ≡ Ordering.eq) ⊎ (o ≢ Ordering.eq)
eq_cases Ordering.lt = inr (λ e. absurd (cc))
eq_cases Ordering.eq = inl refl
eq_cases Ordering.gt = inr (λ e. absurd (cc))

both_empty :
    (name1 name2 : Name)
    → 0 ≡ min (length name1) (length name2)
    → length name1 ≡ length name2
    → lex name1 name2 ≡ Ordering.eq
unfolding lex
both_empty [] [] h e = refl
both_empty [] (y ∷ ys) h e = absurd (omega (arith, e))
both_empty (x ∷ xs) ys h e = absurd (omega (arith, h, e))

-- The characters where the first loop stopped decide between names of one length.
last_decides :
    (left x y : ℕ) (rest1 rest2 : Name)
    → left ≡ min (length rest1) (length rest2)
    → (left ≡ 0) ⊎ ((x == y) ≡ false)
    → length rest1 ≡ length rest2
    → compare x y ≡ lex (x ∷ rest1) (y ∷ rest2)
unfolding lex
last_decides left x y rest1 rest2 h (inl e) same =
    sym (then_right (compare x y)) ∙ rw (both_empty rest1 rest2 (sym e ∙ h) same)
last_decides left x y rest1 rest2 h (inr e) same =
    sym (then_right (compare x y)) ∙ then_ne (compare x y) _ _ (compare_ne x y e)

module _ (upcase : List ℕ) (name1 name2 : Name) where
  abbrev all_folded : Ordering
  all_folded = lex (map (fold upcase) name1) (map (fold upcase) name2)

  collate_as_folds :
      (cnt : ℕ) (s : Stops upcase cnt name1 name2) (v1 v2 : ℕ)
      → fold_loop upcase s.left s.rest1 s.rest2 (fold upcase s.x) (fold upcase s.y) ≡ some (v1, v2)
      → collate_names case_sensitive upcase cnt name1 name2
        ≡ some (compare v1 v2 then compare (length name1) (length name2) then compare s.x s.y)
  unfolding collate_names collate_sensitive
  collate_as_folds cnt s v1 v2 e = rw (s.stops, collate_names) (rw (e, collate_sensitive))

  decides :
      (cnt : ℕ) (s : Stops upcase cnt name1 name2) (v1 v2 : ℕ)
      → compare v1 v2 then compare (length name1) (length name2) ≡ all_folded
      → (compare v1 v2 then compare (length name1) (length name2)) then compare s.x s.y
        ≡ all_folded then lex name1 name2
  decides cnt s v1 v2 c = elim (eq_cases all_folded) [
    | inl e ↦
        ap (λ o. o then compare s.x s.y) c
        ∙ ap (λ o. all_folded then o)
            (last_decides s.left s.x s.y s.rest1 s.rest2 s.as_left s.ends
                (eq_of_compare _ _ (sym s.lengths ∙ (then_eq (compare v1 v2) _ (c ∙ e)).1))
              ∙ sym s.same)
    | inr ne ↦ ap (λ o. o then compare s.x s.y) c ∙ then_ne all_folded _ _ ne
  ]

  sensitive_at :
      (cnt : ℕ)
      → Stops upcase cnt name1 name2
      → collate_names case_sensitive upcase cnt name1 name2 ≡ some (all_folded then lex name1 name2)
  unfolding Folds lex
  sensitive_at cnt s =
      let (v1, v2, e, c) =
        fold_loop-Folds upcase s.left s.rest1 s.rest2 (fold upcase s.x) (fold upcase s.y)
          s.as_left in
      collate_as_folds cnt s v1 v2 e
      ∙ ap some (
          sym (then_assoc (compare v1 v2) (compare (length name1) (length name2)) (compare s.x s.y))
          ∙ decides cnt s v1 v2 (ap (λ o. compare v1 v2 then o) s.lengths ∙ c ∙ sym s.folds))

ignoring_at :
    (upcase : List ℕ) (cnt : ℕ) (name1 name2 : Name)
    → suc cnt ≡ min (length name1) (length name2)
    → collate_names ignore_case upcase cnt name1 name2
      ≡ some (lex (map (fold upcase) name1) (map (fold upcase) name2))
unfolding collate_names collate_ignoring Folds lex
ignoring_at upcase cnt [] ys h = absurd (omega (arith, h))
ignoring_at upcase cnt (x ∷ xs) [] h = absurd (omega (arith, h))
ignoring_at upcase cnt (x ∷ xs) (y ∷ ys) h =
    let (v1, v2, e, c) =
      fold_loop-Folds upcase cnt xs ys (fold upcase x) (fold upcase y) (omega (arith, h)) in
    (rw (e, collate_names, collate_ignoring))
    ∙ ap some (ap (λ o. compare v1 v2 then o) (compare-suc (length xs) (length ys)) ∙ c)

-- The order that ntfs_names_full_collate computes: by the folded characters, and in a case
-- sensitive comparison by the characters where these are equal.
unfoldable pub collation : IgnoreCase → List ℕ → Name → Name → Ordering
collation case_sensitive upcase name1 name2 =
    lex (map (fold upcase) name1) (map (fold upcase) name2) then lex name1 name2
collation ignore_case upcase name1 name2 = lex (map (fold upcase) name1) (map (fold upcase) name2)

zero_cases : (n : ℕ) → (n ≡ 0) ⊎ ((m : ℕ) × (n ≡ suc m))
zero_cases zero = inl refl
zero_cases (suc m) = inr (m, refl)

no_characters :
    (ic : IgnoreCase) (upcase : List ℕ) (name1 name2 : Name)
    → min (length name1) (length name2) ≡ 0
    → compare (length name1) (length name2) ≡ collation ic upcase name1 name2
unfolding collation lex
no_characters case_sensitive upcase [] [] h = refl
no_characters case_sensitive upcase [] (y ∷ ys) h = compare_zero-suc (length ys)
no_characters case_sensitive upcase (x ∷ xs) [] h = compare-suc-zero (length xs)
no_characters ignore_case upcase [] [] h = refl
no_characters ignore_case upcase [] (y ∷ ys) h = compare_zero-suc (length ys)
no_characters ignore_case upcase (x ∷ xs) [] h = compare-suc-zero (length xs)
no_characters ic upcase (x ∷ xs) (y ∷ ys) h = absurd (omega (arith, h))

some_characters :
    (ic : IgnoreCase) (upcase : List ℕ) (cnt : ℕ) (name1 name2 : Name)
    → suc cnt ≡ min (length name1) (length name2)
    → collate_names ic upcase cnt name1 name2 ≡ some (collation ic upcase name1 name2)
unfolding collation
some_characters case_sensitive upcase cnt name1 name2 h =
    sensitive_at upcase name1 name2 cnt (skip_equal-Stops upcase cnt name1 name2 h)
some_characters ignore_case upcase cnt name1 name2 h = ignoring_at upcase cnt name1 name2 h

-- For all names ntfs_names_full_collate returns, reads nothing behind a name's end, and its
-- result is the collation order: by the folded characters, shorter names first, and in a case
-- sensitive comparison by the characters themselves where the folded names are equal.
pub names_full_collate-collation :
    (ic : IgnoreCase) (upcase : List ℕ) (name1 name2 : Name)
    → names_full_collate name1 name2 ic upcase ≡ some (collation ic upcase name1 name2)
unfolding names_full_collate
names_full_collate-collation ic upcase name1 name2 =
    elim (zero_cases (min (length name1) (length name2))) [
      | inl e ↦ rw (e, names_full_collate) (ap some (no_characters ic upcase name1 name2 e))
      | inr (cnt, e) ↦
          rw (e, names_full_collate) (some_characters ic upcase cnt name1 name2 (sym e))
    ]

-- A case sensitive ntfs_names_full_collate finds two names equal exactly if they are the same.
pub names_full_collate_iff :
    (upcase : List ℕ) (name1 name2 : Name)
    → (names_full_collate name1 name2 case_sensitive upcase ≡ some Ordering.eq) ↔ (name1 ≡ name2)
unfolding collation
names_full_collate_iff upcase name1 name2 = (
  λ h.
      eq_of_lex name1 name2
        (then_eq (all_folded upcase name1 name2) _ (
          some_inj _ _
            (sym (names_full_collate-collation case_sensitive upcase name1 name2) ∙ h))).1,
  λ e.
      names_full_collate-collation case_sensitive upcase name1 name2
      ∙ ap some (rw e (rw (lex_self (map (fold upcase) name2), lex_self name2))),
)

collation-reversed :
    (ic : IgnoreCase) (upcase : List ℕ) (name1 name2 : Name)
    → collation ic upcase name2 name1 ≡ reversed (collation ic upcase name1 name2)
unfolding collation
collation-reversed case_sensitive upcase name1 name2 =
    rw (lex-reversed (map (fold upcase) name1) (map (fold upcase) name2), lex-reversed name1 name2)
      (sym (reversed_then (all_folded upcase name1 name2) (lex name1 name2)))
collation-reversed ignore_case upcase name1 name2 =
    lex-reversed (map (fold upcase) name1) (map (fold upcase) name2)

-- Exchanging the names reverses the result of ntfs_names_full_collate.
pub names_full_collate-reversed :
    (ic : IgnoreCase) (upcase : List ℕ) (name1 name2 : Name) (o : Ordering)
    → names_full_collate name1 name2 ic upcase ≡ some o
    → names_full_collate name2 name1 ic upcase ≡ some (reversed o)
names_full_collate-reversed ic upcase name1 name2 o h =
    names_full_collate-collation ic upcase name2 name1
    ∙ ap some (
        collation-reversed ic upcase name1 name2
        ∙ ap reversed (some_inj _ _ (sym (names_full_collate-collation ic upcase name1 name2) ∙ h)))
