-- ===== src/Names/Loops.antt =====
-- source/unistr.c: what the two loops of ntfs_names_full_collate find.
use libntfs.Prelude.{
  ℕ, zero, suc, ◌≡◌, refl, ◌∙◌, arith, List, [], ◌∷◌, map, length, min, ◌⊎◌, inl, inr, some, false,
  ◌==◌, Bool-cases, eq_of_test, if◌then◌else◌,
}
use Prim.Native.Nat.{compare}
use libntfs.Names.{Name, ◌then◌, fold, skip_equal, fold_loop}
use libntfs.Names.Order.{
  lex, compare_self, then_ne, compare_ne, compare-suc, compare_zero-suc, compare-suc-zero,
}

module _ (upcase : List ℕ) where
  abbrev pub folded : Name → Name
  folded name = map (fold upcase) name

  -- The loop over the folded characters, continued from the values `u1` and `u2`.
  unfoldable pub Folds : ℕ → Name → Name → ℕ → ℕ → Type 0
  Folds cnt name1 name2 u1 u2 =
      (v1 : ℕ) × (v2 : ℕ) × (fold_loop upcase cnt name1 name2 u1 u2 ≡ some (v1, v2))
      × (compare v1 v2 then compare (length name1) (length name2)
          ≡ compare u1 u2 then lex (folded name1) (folded name2))

  pub fold_loop-Folds :
      (cnt : ℕ) (name1 name2 : Name) (u1 u2 : ℕ)
      → cnt ≡ min (length name1) (length name2)
      → Folds cnt name1 name2 u1 u2
  unfolding Folds fold_loop lex
  fold_loop-Folds zero [] [] u1 u2 h = (u1, u2, refl, refl)
  fold_loop-Folds zero [] (y ∷ ys) u1 u2 h = (u1, u2, refl, rw (compare_zero-suc (length ys)))
  fold_loop-Folds zero (x ∷ xs) [] u1 u2 h = (u1, u2, refl, rw (compare-suc-zero (length xs)))
  fold_loop-Folds zero (x ∷ xs) (y ∷ ys) u1 u2 h = absurd (omega (arith, h))
  fold_loop-Folds (suc cnt) [] ys u1 u2 h = absurd (omega (arith, h))
  fold_loop-Folds (suc cnt) (x ∷ xs) [] u1 u2 h = absurd (omega (arith, h))
  fold_loop-Folds (suc cnt) (x ∷ xs) (y ∷ ys) u1 u2 h = elim (Bool-cases (u1 == u2)) [
    | inl e ↦
        let (v1, v2, r, c) =
          fold_loop-Folds cnt xs ys (fold upcase x) (fold upcase y) (omega (arith, h)) in
        (
          v1,
          v2,
          rw e r,
          rw (compare-suc (length xs) (length ys), c, eq_of_test u1 u2 e, compare_self u2),
        )
    | inr e ↦ (u1, u2, rw e, then_ne (compare u1 u2) _ _ (compare_ne u1 u2 e))
  ]

  -- Where the loop over equal characters stops: at the first difference, or at the last characters
  -- that both names have.
  pub record Stops (cnt : ℕ) (name1 name2 : Name) : Type 0 where
    pub left : ℕ
    pub x : ℕ
    pub y : ℕ
    pub rest1 : Name
    pub rest2 : Name
    pub stops : skip_equal cnt name1 name2 ≡ some (left, x ∷ rest1, y ∷ rest2)
    pub as_left : left ≡ min (length rest1) (length rest2)
    pub folds : lex (folded name1) (folded name2) ≡ lex (folded (x ∷ rest1)) (folded (y ∷ rest2))
    pub same : lex name1 name2 ≡ lex (x ∷ rest1) (y ∷ rest2)
    pub lengths : compare (length name1) (length name2) ≡ compare (length rest1) (length rest2)
    pub ends : (left ≡ 0) ⊎ ((x == y) ≡ false)

  pub skip_equal-Stops :
      (cnt : ℕ) (name1 name2 : Name)
      → suc cnt ≡ min (length name1) (length name2)
      → Stops cnt name1 name2
  unfolding skip_equal lex
  skip_equal-Stops cnt [] ys h = absurd (omega (arith, h))
  skip_equal-Stops cnt (x ∷ xs) [] h = absurd (omega (arith, h))
  skip_equal-Stops zero (x ∷ xs) (y ∷ ys) h = record {
    left = 0;
    x = x;
    y = y;
    rest1 = xs;
    rest2 = ys;
    stops = refl;
    as_left = omega (arith, h);
    folds = refl;
    same = refl;
    lengths = compare-suc (length xs) (length ys);
    ends = inl refl;
  }
  skip_equal-Stops (suc cnt) (x ∷ xs) (y ∷ ys) h = elim (Bool-cases (x == y)) [
    | inl e ↦
        let s = skip_equal-Stops cnt xs ys (omega (arith, h)) in
        record {
          left = s.left;
          x = s.x;
          y = s.y;
          rest1 = s.rest1;
          rest2 = s.rest2;
          stops = rw e s.stops;
          as_left = s.as_left;
          folds = rw (eq_of_test x y e, compare_self (fold upcase y)) s.folds;
          same = rw (eq_of_test x y e, compare_self y) s.same;
          lengths = compare-suc (length xs) (length ys) ∙ s.lengths;
          ends = s.ends;
        }
    | inr e ↦ record {
      left = suc cnt;
      x = x;
      y = y;
      rest1 = xs;
      rest2 = ys;
      stops = rw e;
      as_left = omega (arith, h);
      folds = refl;
      same = refl;
      lengths = compare-suc (length xs) (length ys);
      ends = inr e;
    }
  ]
