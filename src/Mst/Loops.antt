-- ===== src/Mst/Loops.antt =====
-- What the loops of mst.c do to each word of the record.
use libntfs.Prelude.{
  ℕ, zero, suc, ◌+◌, ◌*◌, ◌≤◌, ◌<◌, ◌≡◌, ◌≢◌, ◌⊎◌, inl, inr, refl, sym, ◌∙◌, arith, some, true,
  false, get_elem?, set, length, length-set, get_elem?-set_self, get_elem?-set_ne,
  get_elem?-in_range, ◌==◌, if◌then◌else◌,
}
use libntfs.Mst.{NtfsRecord, store, check_loop, restore_loop, protect_loop}

abbrev pub data_at : ℕ → ℕ → ℕ
data_at data_pos j = data_pos + 256 * j

-- `n` sectors are protected: the array behind `usa` holds their last words, which are now `usn`.
pub record IsProtected (n usa data_pos usn : ℕ) (b b' : NtfsRecord) : Type 0 where
  pub same_length : length b' ≡ length b
  pub saved : (j : ℕ) → j < n → get_elem? b' (usa + 1 + j) ≡ get_elem? b (data_at data_pos j)
  pub marked : (j : ℕ) → j < n → get_elem? b' (data_at data_pos j) ≡ some usn
  pub others :
      (i : ℕ)
      → (i ≤ usa) ⊎ (usa + n < i)
      → ((j : ℕ) → j < n → i ≢ data_at data_pos j)
      → get_elem? b' i ≡ get_elem? b i

-- `n` sectors are restored from the array behind `usa`.
pub record IsRestored (n usa data_pos : ℕ) (b b' : NtfsRecord) : Type 0 where
  pub same_length : length b' ≡ length b
  pub restored : (j : ℕ) → j < n → get_elem? b' (data_at data_pos j) ≡ get_elem? b (usa + 1 + j)
  pub others : (i : ℕ) → ((j : ℕ) → j < n → i ≢ data_at data_pos j) → get_elem? b' i ≡ get_elem? b i

pub store-in_range : (b : NtfsRecord) (i v : ℕ) → i < length b → store b i v ≡ some (set b i v)
store-in_range b i v h = ground arith

protect_step :
    (n usa data_pos usn x : ℕ) (b : NtfsRecord)
    → usa + 1 < length b
    → data_pos < length b
    → get_elem? b data_pos ≡ some x
    → protect_loop (suc n) usa data_pos usn b
      ≡ protect_loop n (usa + 1) (data_pos + 256) usn (set (set b (usa + 1) x) data_pos usn)
unfolding protect_loop
protect_step n usa data_pos usn x b hu hd e = rw (
  e,
  store-in_range b (usa + 1) x hu,
  store-in_range (set b (usa + 1) x) data_pos usn (omega (arith, length-set b (usa + 1) x)),
)

-- One more sector in front of those that are protected.
module _ (n usa data_pos usn x : ℕ) (b b' : NtfsRecord) (below : usa + suc n < data_pos)
    (room : data_pos < length b) (is : get_elem? b data_pos ≡ some x)
    (c : IsProtected n
      (usa + 1)
      (data_pos + 256)
      usn
      (set (set b (usa + 1) x) data_pos usn)
      b') where
  abbrev stored : NtfsRecord
  stored = set (set b (usa + 1) x) data_pos usn

  untouched : (i : ℕ) → i ≢ usa + 1 → i ≢ data_pos → get_elem? stored i ≡ get_elem? b i
  untouched i h k =
      get_elem?-set_ne (set b (usa + 1) x) usn (λ e. k (sym e))
      ∙ get_elem?-set_ne b x (λ e. h (sym e))

  stored_last : get_elem? stored (usa + 1) ≡ some x
  stored_last =
      get_elem?-set_ne (set b (usa + 1) x) usn (λ e. absurd (omega arith))
      ∙ get_elem?-set_self b (usa + 1) x (omega arith)

  stored_usn : get_elem? stored data_pos ≡ some usn
  stored_usn =
      get_elem?-set_self (set b (usa + 1) x) data_pos usn (omega (arith, length-set b (usa + 1) x))

  step_saved : (j : ℕ) → j < suc n → get_elem? b' (usa + 1 + j) ≡ get_elem? b (data_at data_pos j)
  step_saved zero h =
      let here : usa + 1 + 0 ≡ usa + 1 = omega arith in
      let there : data_pos + 256 * 0 ≡ data_pos = omega arith in
      rw (here, there, is)
        (c.others (usa + 1) (inl (omega arith)) (λ j k e. absurd (omega arith)) ∙ stored_last)
  step_saved (suc j) h =
      let here : usa + 1 + suc j ≡ usa + 1 + 1 + j = omega arith in
      let there : data_pos + 256 * suc j ≡ data_pos + 256 + 256 * j = omega arith in
      rw (here, there)
        (c.saved j (omega arith)
          ∙ untouched (data_pos + 256 + 256 * j) (λ e. absurd (omega arith))
              (λ e. absurd (omega arith)))

  step_marked : (j : ℕ) → j < suc n → get_elem? b' (data_at data_pos j) ≡ some usn
  step_marked zero h =
      let there : data_pos + 256 * 0 ≡ data_pos = omega arith in
      rw there (c.others data_pos (inr (omega arith)) (λ j k e. absurd (omega arith)) ∙ stored_usn)
  step_marked (suc j) h =
      let there : data_pos + 256 * suc j ≡ data_pos + 256 + 256 * j = omega arith in
      rw there (c.marked j (omega arith))

  step_others :
      (i : ℕ)
      → (i ≤ usa) ⊎ (usa + suc n < i)
      → ((j : ℕ) → j < suc n → i ≢ data_at data_pos j)
      → get_elem? b' i ≡ get_elem? b i
  step_others i away k =
      c.others i (elim away [ inl a ↦ inl (omega arith) | inr a ↦ inr (omega arith) ])
        (λ j h e. k (suc j) (omega arith) (omega arith))
      ∙ untouched i (λ e. elim away [ inl a ↦ absurd (omega arith) | inr a ↦ absurd (omega arith) ])
          (λ e. k 0 (omega arith) (omega arith))

  IsProtected-step : IsProtected (suc n) usa data_pos usn b b'
  IsProtected-step = record {
    same_length =
        c.same_length ∙ length-set (set b (usa + 1) x) data_pos usn ∙ length-set b (usa + 1) x;
    saved = step_saved;
    marked = step_marked;
    others = step_others;
  }

-- With the array below the data and all sectors in the record the loop succeeds.
pub protect_loop-IsProtected :
    (n usa data_pos usn : ℕ) (b : NtfsRecord)
    → usa + n < data_pos
    → data_pos + 256 * n < length b + 256
    → (b' : NtfsRecord) × (protect_loop n usa data_pos usn b ≡ some b')
      × IsProtected n usa data_pos usn b b'
protect_loop-IsProtected zero usa data_pos usn b below fits = (
  b,
  unfold protect_loop in refl,
  record {
    same_length = refl;
    saved = λ j h. elim h [ ];
    marked = λ j h. elim h [ ];
    others = λ i h k. refl;
  },
)
protect_loop-IsProtected (suc n) usa data_pos usn b below fits =
    let (x, is) = get_elem?-in_range b data_pos (omega arith) in
    let b1 = set (set b (usa + 1) x) data_pos usn in
    let long : length b1 ≡ length b =
      length-set (set b (usa + 1) x) data_pos usn ∙ length-set b (usa + 1) x in
    let (b', e, c) =
      protect_loop-IsProtected n (usa + 1) (data_pos + 256) usn b1 (omega arith) (omega arith) in
    (
      b',
      protect_step n usa data_pos usn x b (omega arith) (omega arith) is ∙ e,
      IsProtected-step n usa data_pos usn x b b' below (omega arith) is c,
    )

restore_step :
    (n usa data_pos x : ℕ) (b : NtfsRecord)
    → data_pos < length b
    → get_elem? b (usa + 1) ≡ some x
    → restore_loop (suc n) usa data_pos b
      ≡ restore_loop n (usa + 1) (data_pos + 256) (set b data_pos x)
unfolding restore_loop
restore_step n usa data_pos x b hd e = rw (e, store-in_range b data_pos x hd)

module _ (n usa data_pos x : ℕ) (b b' : NtfsRecord) (below : usa + suc n < data_pos)
    (room : data_pos < length b) (is : get_elem? b (usa + 1) ≡ some x)
    (c : IsRestored n (usa + 1) (data_pos + 256) (set b data_pos x) b') where
  step_restored :
      (j : ℕ) → j < suc n → get_elem? b' (data_at data_pos j) ≡ get_elem? b (usa + 1 + j)
  step_restored zero h =
      let here : usa + 1 + 0 ≡ usa + 1 = omega arith in
      let there : data_pos + 256 * 0 ≡ data_pos = omega arith in
      rw (here, there, is)
        (c.others data_pos (λ j k e. absurd (omega arith)) ∙ get_elem?-set_self b data_pos x room)
  step_restored (suc j) h =
      let here : usa + 1 + suc j ≡ usa + 1 + 1 + j = omega arith in
      let there : data_pos + 256 * suc j ≡ data_pos + 256 + 256 * j = omega arith in
      rw (here, there)
        (c.restored j (omega arith) ∙ get_elem?-set_ne b x (λ e. absurd (omega arith)))

  IsRestored-step : IsRestored (suc n) usa data_pos b b'
  IsRestored-step = record {
    same_length = c.same_length ∙ length-set b data_pos x;
    restored = step_restored;
    others = λ i k.
        c.others i (λ j h e. k (suc j) (omega arith) (omega arith))
        ∙ get_elem?-set_ne b x (λ e. k 0 (omega arith) (omega arith));
  }

pub restore_loop-IsRestored :
    (n usa data_pos : ℕ) (b : NtfsRecord)
    → usa + n < data_pos
    → data_pos + 256 * n < length b + 256
    → (b' : NtfsRecord) × (restore_loop n usa data_pos b ≡ some b') × IsRestored n usa data_pos b b'
restore_loop-IsRestored zero usa data_pos b below fits = (
  b,
  unfold restore_loop in refl,
  record { same_length = refl; restored = λ j h. elim h [ ]; others = λ i k. refl },
)
restore_loop-IsRestored (suc n) usa data_pos b below fits =
    let (x, is) = get_elem?-in_range b (usa + 1) (omega arith) in
    let long : length (set b data_pos x) ≡ length b = length-set b data_pos x in
    let (b', e, c) =
      restore_loop-IsRestored n (usa + 1) (data_pos + 256) (set b data_pos x) (omega arith)
        (omega arith) in
    (
      b',
      restore_step n usa data_pos x b (omega arith) is ∙ e,
      IsRestored-step n usa data_pos x b b' below (omega arith) is c,
    )

check_step :
    (n data_pos usn x : ℕ) (b : NtfsRecord)
    → get_elem? b data_pos ≡ some x
    → check_loop (suc n) data_pos usn b
      ≡ (if x == usn then check_loop n (data_pos + 256) usn b else some false)
unfolding check_loop
check_step n data_pos usn x b e = rw (e, check_loop)

next_sector : (data_pos j : ℕ) → data_at data_pos (suc j) ≡ data_at (data_pos + 256) j
next_sector data_pos j = omega arith

first_sector : (data_pos : ℕ) → data_at data_pos 0 ≡ data_pos
first_sector data_pos = omega arith

pub check_loop-marked :
    (n data_pos usn : ℕ) (b : NtfsRecord)
    → ((j : ℕ) → j < n → get_elem? b (data_at data_pos j) ≡ some usn)
    → check_loop n data_pos usn b ≡ some true
check_loop-marked zero data_pos usn b h = unfold check_loop in refl
check_loop-marked (suc n) data_pos usn b h =
    let same : (usn == usn) ≡ true = ground arith in
    check_step n data_pos usn usn b (rw first_sector at (h 0 (omega arith)))
    ∙ rw same (
        check_loop-marked n (data_pos + 256) usn b
          (λ j k. rw (next_sector data_pos j) at (h (suc j) (omega arith))))

-- One sector that does not end in the number is enough for the check to fail.
pub check_loop-torn :
    (n data_pos usn j x : ℕ) (b : NtfsRecord)
    → data_pos + 256 * n < length b + 256
    → j < n
    → get_elem? b (data_at data_pos j) ≡ some x
    → x ≢ usn
    → check_loop n data_pos usn b ≡ some false
check_loop-torn zero data_pos usn j x b fits h e ne = elim h [ ]
check_loop-torn (suc n) data_pos usn zero x b fits h e ne =
    let differs : (x == usn) ≡ false = ground arith in
    check_step n data_pos usn x b (rw first_sector at e) ∙ rw differs
check_loop-torn (suc n) data_pos usn (suc j) x b fits h e ne =
    let (y, is) = get_elem?-in_range b data_pos (omega arith) in
    check_step n data_pos usn y b is
    ∙ ground (
      arith,
      check_loop-torn n (data_pos + 256) usn j x b (omega arith) (omega arith)
          (rw (next_sector data_pos j) at e) ne,
    )
