-- ===== src/Names/Strings/Equal.antt =====
-- source/unistr.c: the string comparisons against the lexicographic order.
use libntfs.Prelude.{
  eq_of_test, some_inj, inl, inr, ℕ, zero, suc, ◌≤◌, ◌≡◌, ◌≢◌, refl, ap, sym, ◌∙◌, arith, List, [],
  ◌∷◌, ◌++◌, length, take, ◌↔◌, some, true, false, ◌==◌, Bool-cases, if◌then◌else◌,
}
use Prim.Native.Nat.{Ordering}
use libntfs.Names.{Name, case_sensitive, ignore_case, ◌then◌}
use libntfs.Names.Order.{lex, lex_self, eq_of_lex}
use libntfs.Names.Strings.{
  compare_characters, ucsncmp, ucsncasecmp, is_eq, names_are_equal, ucsnlen, ucsndup, name_upcase,
}

-- The characters in front of the first NUL.
unfoldable pub before_nul : Name → Name
before_nul [] = []
before_nul (x ∷ s) = let rest = before_nul s in if x == 0 then [] else x ∷ rest

step :
    (x y : ℕ) (s1 s2 : Name)
    → compare_characters x y (some (lex (before_nul s1) (before_nul s2)))
      ≡ some (lex (before_nul (x ∷ s1)) (before_nul (y ∷ s2)))
unfolding before_nul lex
step x y s1 s2 = ground arith

-- On two strings that have `n` characters, ntfs_ucsncmp compares what stands in front of the first
-- NUL of these.
pub ucsncmp-lex :
    (s1 s2 : Name) (n : ℕ)
    → n ≤ length s1
    → n ≤ length s2
    → ucsncmp s1 s2 n ≡ some (lex (before_nul (take n s1)) (before_nul (take n s2)))
unfolding ucsncmp before_nul lex
ucsncmp-lex s1 s2 zero h1 h2 = refl
ucsncmp-lex [] s2 (suc n) h1 h2 = absurd (omega (arith, h1))
ucsncmp-lex (x ∷ s1) [] (suc n) h1 h2 = absurd (omega (arith, h2))
ucsncmp-lex (x ∷ s1) (y ∷ s2) (suc n) h1 h2 =
    rw (ucsncmp-lex s1 s2 n (omega (arith, h1)) (omega (arith, h2)))
      (step x y (take n s1) (take n s2))

-- ntfs_ucsncasecmp on two strings is ntfs_ucsncmp on what ntfs_name_upcase makes of them.
pub ucsncasecmp-name_upcase :
    (s1 s2 : Name) (n : ℕ) (upcase : List ℕ)
    → ucsncasecmp s1 s2 n upcase ≡ ucsncmp (name_upcase s1 upcase) (name_upcase s2 upcase) n
unfolding ucsncmp ucsncasecmp name_upcase
ucsncasecmp-name_upcase s1 s2 zero upcase = refl
ucsncasecmp-name_upcase [] s2 (suc n) upcase = refl
ucsncasecmp-name_upcase (x ∷ s1) [] (suc n) upcase = refl
ucsncasecmp-name_upcase (x ∷ s1) (y ∷ s2) (suc n) upcase =
    rw (ucsncasecmp-name_upcase s1 s2 n upcase)

length-name_upcase : (s : Name) (upcase : List ℕ) → length (name_upcase s upcase) ≡ length s
unfolding name_upcase
length-name_upcase [] upcase = refl
length-name_upcase (x ∷ s) upcase = ap suc (length-name_upcase s upcase)

-- Ignoring case, ntfs_names_are_equal answers as it does case sensitively on the names that
-- ntfs_name_upcase makes of the two.
pub names_are_equal-name_upcase :
    (s1 s2 : Name) (upcase : List ℕ)
    → names_are_equal s1 s2 ignore_case upcase
      ≡ names_are_equal (name_upcase s1 upcase) (name_upcase s2 upcase) case_sensitive upcase
unfolding names_are_equal
names_are_equal-name_upcase s1 s2 upcase = rw (
  length-name_upcase s1 upcase,
  length-name_upcase s2 upcase,
  ucsncasecmp-name_upcase s1 s2 (length s1) upcase,
)

==_true : (a b : ℕ) → a ≡ b → (a == b) ≡ true
==_true a b h = ground arith

false_ne_true : some false ≢ some true
false_ne_true e = absurd (cc)

other_length :
    (s1 s2 : Name) (upcase : List ℕ)
    → (length s1 == length s2) ≡ false
    → names_are_equal s1 s2 case_sensitive upcase ≡ some false
unfolding names_are_equal
other_length s1 s2 upcase e = rw e

ucsnlen_lem :
    (s : Name) (maxlen : ℕ)
    → maxlen ≤ length s
    → ucsnlen s maxlen ≡ some (length (before_nul (take maxlen s)))
unfolding ucsnlen before_nul
ucsnlen_lem s zero h = refl
ucsnlen_lem [] (suc n) h = absurd (omega (arith, h))
ucsnlen_lem (x ∷ s) (suc n) h = elim (Bool-cases (x == 0)) [
  | inl e ↦ rw e
  | inr e ↦ rw (e, ucsnlen_lem s n (omega (arith, h)))
]

take-before_nul :
    (s : Name) (n : ℕ) → take (length (before_nul (take n s))) s ≡ before_nul (take n s)
unfolding before_nul
take-before_nul s zero = refl
take-before_nul [] (suc n) = refl
take-before_nul (x ∷ s) (suc n) = elim (Bool-cases (x == 0)) [
  | inl e ↦ rw e
  | inr e ↦ rw e (ap (λ t. x ∷ t) (take-before_nul s n))
]

take-length : (s : Name) (n : ℕ) → n ≡ length s → take n s ≡ s
take-length [] zero h = refl
take-length [] (suc n) h = refl
take-length (x ∷ s) zero h = absurd (omega (arith, h))
take-length (x ∷ s) (suc n) h = ap (λ t. x ∷ t) (take-length s n (omega (arith, h)))

empty_equal : (s1 s2 : Name) → length s1 ≡ 0 → length s1 ≡ length s2 → s1 ≡ s2
empty_equal [] [] h e = refl
empty_equal [] (y ∷ s2) h e = absurd (omega (arith, e))
empty_equal (x ∷ s1) s2 h e = absurd (omega (arith, h))

is_eq_sound : (o : Ordering) → is_eq o ≡ true → o ≡ Ordering.eq
is_eq_sound Ordering.lt h = absurd (cc)
is_eq_sound Ordering.eq h = refl
is_eq_sound Ordering.gt h = absurd (cc)

is_eq-lex : (a b : Name) → (is_eq (lex a b) ≡ true) ↔ (a ≡ b)
is_eq-lex a b = (λ h. eq_of_lex a b (is_eq_sound (lex a b) h), λ e. rw e (rw (lex_self b)))

-- On names of one length the code's answer is the equality of what the first NUL ends.
same_length :
    (s1 s2 : Name) (upcase : List ℕ)
    → length s1 ≡ length s2
    → names_are_equal s1 s2 case_sensitive upcase
      ≡ some (is_eq (lex (before_nul s1) (before_nul s2)))
unfolding names_are_equal
same_length s1 s2 upcase e = elim (Bool-cases (length s1 == 0)) [
  | inl empty ↦
      rw (==_true (length s1) (length s2) e, empty)
        (rw (empty_equal s1 s2 (eq_of_test _ _ empty) e)
          (ap (λ o. some (is_eq o)) (sym (lex_self (before_nul s2)))))
  | inr full ↦
      rw
        (
          ==_true (length s1) (length s2) e,
          full,
          ucsncmp-lex s1 s2 (length s1) (omega arith) (omega (arith, e)),
          take-length s1 (length s1) refl,
          take-length s2 (length s1) e,
        )
        refl
]

-- Case sensitively, ntfs_names_are_equal answers TRUE exactly for names of one length that have the
-- same characters in front of their first NUL; what stands behind it is not compared.
pub names_are_equal_iff :
    (s1 s2 : Name) (upcase : List ℕ)
    → (names_are_equal s1 s2 case_sensitive upcase ≡ some true)
      ↔ (length s1 ≡ length s2) × (before_nul s1 ≡ before_nul s2)
names_are_equal_iff s1 s2 upcase = (
  λ h. elim (Bool-cases (length s1 == length s2)) [
    | inl e ↦
        let same = eq_of_test _ _ e in
        (
          same,
          (is_eq-lex (before_nul s1) (before_nul s2)).0
              (some_inj _ _ (sym (same_length s1 s2 upcase same) ∙ h)),
        )
    | inr ne ↦ absurd (false_ne_true (sym (other_length s1 s2 upcase ne) ∙ h))
  ],
  λ t. same_length s1 s2 upcase t.0 ∙ ap some ((is_eq-lex (before_nul s1) (before_nul s2)).1 t.1),
)

-- Of a string that has `maxlen` characters, ntfs_ucsndup copies those in front of the first NUL among
-- them, and ends the copy in a NUL; ntfs_ucsnlen counts them.
pub ucsndup-ucsnlen :
    (s : Name) (maxlen : ℕ)
    → maxlen ≤ length s
    → (ucsnlen s maxlen ≡ some (length (before_nul (take maxlen s))))
      × (ucsndup s maxlen ≡ some (before_nul (take maxlen s) ++ (0 ∷ [])))
unfolding ucsndup
ucsndup-ucsnlen s maxlen h = (
  ucsnlen_lem s maxlen h,
  rw (ucsnlen_lem s maxlen h) (ap (λ t. some (t ++ (0 ∷ []))) (take-before_nul s maxlen)),
)
