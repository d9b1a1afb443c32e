-- ===== src/PageCache/Replaced.antt =====
-- source/cache2.c: an array of pages in which one is replaced still stands for the sectors.
use libntfs.Prelude.{
  ℕ, zero, suc, ◌+◌, ◌<◌, subst, ◌≡◌, ◌≢◌, ◌⊎◌, inl, inr, sym, ◌∙◌, ap, arith, List, [], ◌∷◌, some,
  Bool-cases, get_elem?, set, get_elem?-set_self, get_elem?-set_ne, lt_of_get_elem?, some_inj,
  eq_of_test, ne_of_test, ltb, ◌==◌,
}
use libntfs.PageCache.{Sector, CacheEntry}
use libntfs.PageCache.Invariant.{Within, Outside, Has, IsPage, Pages}

same_index : (i j : ℕ) → (i ≡ j) ⊎ (i ≢ j)
same_index i j = elim (Bool-cases (i == j)) [
  | inl h ↦ inl (eq_of_test i j h)
  | inr h ↦ inr (ne_of_test i j h)
]

pub Within-cases : (from to k : ℕ) → Within from to k ⊎ Outside from to k
Within-cases from to k = elim (Bool-cases (ltb k from)) [
  | inl h ↦ inr (inl (ground (arith, h)))
  | inr h ↦ elim (Bool-cases (ltb k to)) [
    | inl l ↦ inl (ground (arith, h), ground (arith, l))
    | inr l ↦ inr (inr (ground (arith, l)))
  ]
]

pub Outside-not : (from to k : ℕ) → Outside from to k → ¬ Within from to k
Outside-not from to k (inl h) w = omega (arith, h, w.0)
Outside-not from to k (inr h) w = omega (arith, h, w.1)

pub Has-cases : (e : CacheEntry) (k : ℕ) → Has e k ⊎ (¬ Has e k)
Has-cases e k = elim (Within-cases e.sector (e.sector + e.count) k) [
  | inl h ↦ inl h
  | inr h ↦ inr (Outside-not e.sector (e.sector + e.count) k h)
]

module _ {A : Type 0} where
  -- What stands in a list of which one element is set.
  pub in_set :
      (xs : List A) (i j : ℕ) (x a : A)
      → get_elem? (set xs i x) j ≡ some a
      → ((i ≡ j) × (x ≡ a)) ⊎ ((i ≢ j) × (get_elem? xs j ≡ some a))
  in_set xs i j x a h = elim (same_index i j) [
    | inr ne ↦ inr (ne, sym (get_elem?-set_ne xs x ne) ∙ h)
    | inl eq ↦ inl (eq, in_set_same xs i j x a eq h)
  ]
    where
      in_set_same :
          (xs : List A) (i j : ℕ) (x a : A) → i ≡ j → get_elem? (set xs i x) j ≡ some a → x ≡ a
      in_set_same [] i j x a eq h = absurd (cc)
      in_set_same (y ∷ xs) zero zero x a eq h = some_inj x a h
      in_set_same (y ∷ xs) zero (suc j) x a eq h = absurd (omega (arith, eq))
      in_set_same (y ∷ xs) (suc i) zero x a eq h = absurd (omega (arith, eq))
      in_set_same (y ∷ xs) (suc i) (suc j) x a eq h = in_set_same xs i j x a (omega (arith, eq)) h

module _ {spp end : ℕ} {g f : ℕ → Sector} {from to : ℕ} {entries : List CacheEntry} {i : ℕ}
    {e : CacheEntry} (P : Pages spp end g f from to entries)
    (at : get_elem? entries i ≡ some e) where
  module _ {g' f' : ℕ → Sector} {from' to' : ℕ} {e' : CacheEntry}
      (new : IsPage spp end g' f' from' to' e')
      (same : (k : ℕ) → ¬ Has e k → ¬ Has e' k → (g' k ≡ g k) × (f' k ≡ f k))
      (hole : (k : ℕ) → ¬ Has e' k → Outside from' to' k → Outside from to k)
      (alone : (j : ℕ) (a : CacheEntry) (k : ℕ)
        → i ≢ j
        → get_elem? entries j ≡ some a
        → Has a k
        → ¬ Has e' k)
      (leaves : (k : ℕ) → k < end → Has e k → ¬ Has e' k → g' k ≡ f' k) where
    other-IsPage :
        (j : ℕ) (a : CacheEntry)
        → i ≢ j
        → get_elem? entries j ≡ some a
        → IsPage spp end g' f' from' to' a
    other-IsPage j a ne has =
        let page = P.page j a has in
        let away : (k : ℕ) → Has a k → ¬ Has e k = λ k h l. ne (P.apart i j e a k at has l h) in
        record {
          placed = page.placed;
          cached = λ k h out.
              page.cached k h (hole k (alone j a k ne has h) out)
              ∙ ap some (sym (same k (away k h) (alone j a k ne has h)).1);
          stored = λ k h out.
              let (eg, ef) = same k (away k h) (alone j a k ne has h) in
              eg ∙ page.stored k h out ∙ sym ef;
        }

    pub set-Pages : Pages spp end g' f' from' to' (set entries i e')
    set-Pages = record {
      page = λ j a has. elim (in_set entries i j e' a has) [
        | inl (eq, same_page) ↦ subst (λ x. IsPage spp end g' f' from' to' x) same_page new
        | inr (ne, was) ↦ other-IsPage j a ne was
      ];
      apart = λ j l a b k ha hb ka kb. elim (in_set entries i j e' a ha) [
        | inl (ej, ea) ↦ elim (in_set entries i l e' b hb) [
          | inl (el, eb) ↦ sym ej ∙ el
          | inr (nl, hl) ↦ absurd (alone l b k nl hl kb (subst (λ x. Has x k) (sym ea) ka))
        ]
        | inr (nj, hj) ↦ elim (in_set entries i l e' b hb) [
          | inl (el, eb) ↦ absurd (alone j a k nj hj ka (subst (λ x. Has x k) (sym eb) kb))
          | inr (nl, hl) ↦ P.apart j l a b k hj hl ka kb
        ]
      ];
      rest = λ k below none_has.
          let not_new =
            none_has i e' (get_elem?-set_self entries i e' (lt_of_get_elem? entries i e at)) in
          elim (Has-cases e k) [
            | inl h ↦ leaves k below h not_new
            | inr h ↦
                let (eg, ef) = same k h not_new in
                eg
                ∙ P.rest k below (λ j a has. elim (same_index i j) [
                  | inl eq ↦ λ l. h (
                      subst (λ x. Has x k)
                        (some_inj a e (sym has ∙ ap (λ n. get_elem? entries n) (sym eq) ∙ at)) l)
                  | inr ne ↦ none_has j a (get_elem?-set_ne entries e' ne ∙ has)
                ])
                ∙ sym ef
          ];
    }
