-- ===== src/Mst/RoundTrip.antt =====
-- ntfs_mst_pre_write_fixup, and ntfs_mst_post_read_fixup or ntfs_mst_post_write_fixup behind it.
use libntfs.Prelude.{
  ℕ, zero, suc, ◌+◌, ◌*◌, ◌/◌, ◌^◌, ◌≤◌, ◌<◌, ◌≡◌, ◌≢◌, ◌⊎◌, inl, inr, refl, ap, ◌∙◌, arith, some,
  true, false, get_elem?, set, length, length-set, get_elem?-set_self, get_elem?-set_ne,
  lt_of_get_elem?,
}
use native.Mathlib.Decide.{ℕ_discrete}
use libntfs.Mst.{
  NtfsRecord, done, eio, check_loop, restore_loop, protect_loop, is_valid_record, rounds,
  read_fields, is_unusable, next_usn, protect, pre_write_fixup, post_read_fixup, post_write_fixup,
  post_read_sectors, deprotect, set_baad, restored,
}
use libntfs.Mst.Loops.{
  data_at, protect_loop-IsProtected, restore_loop-IsRestored, check_loop-marked, check_loop-torn,
  store-in_range,
}

-- A record of `size` bytes whose update sequence array, at `usa_ofs`, stands behind the header and
-- passes is_valid_record.
pub record IsSound (b : NtfsRecord) (size usa_ofs usa_count : ℕ) : Type 0 where
  pub words : length b ≡ size / 2
  pub at_ofs : get_elem? b 2 ≡ some usa_ofs
  pub at_count : get_elem? b 3 ≡ some usa_count
  pub valid : is_valid_record size usa_ofs usa_count ≡ true
  pub behind : 8 ≤ usa_ofs

-- The numbers that is_valid_record fixes.
IsSound-bounds :
    (b : NtfsRecord) (size usa_ofs usa_count : ℕ)
    → IsSound b size usa_ofs usa_count
    → (rounds usa_count ≡ size / 512)
      × (usa_ofs / 2 + size / 512 < 255)
      × (length b ≡ 256 * (size / 512))
      × (4 ≤ usa_ofs / 2)
unfolding is_valid_record
IsSound-bounds b size usa_ofs usa_count s = ground arith

read_fields_sound :
    (b : NtfsRecord) (usa_ofs usa_count : ℕ)
    → get_elem? b 2 ≡ some usa_ofs
    → get_elem? b 3 ≡ some usa_count
    → read_fields b ≡ some (usa_ofs, usa_count)
unfolding read_fields
read_fields_sound b usa_ofs usa_count h k = rw (h, k)

-- The words of the record that a protected copy keeps: all but the array and the sectors' ends.
abbrev pub IsOutside : ℕ → ℕ → ℕ → Type 0
IsOutside usa n i = (i < usa) ⊎ (usa + n < i)

-- What ntfs_mst_pre_write_fixup leaves on a sound record.
record Written (n usa old : ℕ) (b b' : NtfsRecord) : Type 0 where
  same_length : length b' ≡ length b
  number : get_elem? b' usa ≡ some (next_usn old)
  saved : (j : ℕ) → j < n → get_elem? b' (usa + 1 + j) ≡ get_elem? b (data_at 255 j)
  marked : (j : ℕ) → j < n → get_elem? b' (data_at 255 j) ≡ some (next_usn old)
  others :
      (i : ℕ)
      → IsOutside usa n i
      → ((j : ℕ) → j < n → i ≢ data_at 255 j)
      → get_elem? b' i ≡ get_elem? b i

module _ (b : NtfsRecord) (size usa_ofs usa_count old : ℕ) (s : IsSound b size usa_ofs usa_count)
    (at : get_elem? b (usa_ofs / 2) ≡ some old) where
  abbrev usa : ℕ
  usa = usa_ofs / 2

  abbrev n : ℕ
  n = size / 512

  numbered : NtfsRecord
  numbered = set b usa (next_usn old)

  bounds : (rounds usa_count ≡ n) × (usa + n < 255) × (length b ≡ 256 * n) × (4 ≤ usa)
  bounds = IsSound-bounds b size usa_ofs usa_count s

  protect-as_loop : protect b usa_ofs usa_count ≡ protect_loop n usa 255 (next_usn old) numbered
  unfolding protect numbered
  protect-as_loop =
      rw (at, store-in_range b usa (next_usn old) (lt_of_get_elem? b usa old at))
        (ap (λ k. protect_loop k usa 255 (next_usn old) (set b usa (next_usn old))) bounds.0)

  abbrev Protects : Type 0
  Protects = (b' : NtfsRecord) × (protect b usa_ofs usa_count ≡ some b') × Written n usa old b b'

  protect-Written : Protects
  unfolding numbered
  protect-Written =
      let long : length numbered ≡ length b = length-set b usa (next_usn old) in
      let (b', e, c) =
        protect_loop-IsProtected n usa 255 (next_usn old) numbered (omega (arith, bounds))
          (omega (arith, bounds)) in
      (
        b',
        protect-as_loop ∙ e,
        record {
          same_length = c.same_length ∙ long;
          number =
              c.others usa (inl (omega arith)) (λ j h k. absurd (omega (arith, bounds)))
              ∙ get_elem?-set_self b usa (next_usn old) (lt_of_get_elem? b usa old at);
          saved = λ j h.
              c.saved j h ∙ get_elem?-set_ne b (next_usn old) (λ k. absurd (omega (arith, bounds)));
          marked = c.marked;
          others = λ i out h.
              c.others i (elim out [ inl a ↦ inl (omega arith) | inr a ↦ inr a ]) h
              ∙ get_elem?-set_ne b (next_usn old)
                  (λ k. elim out [ inl a ↦ absurd (omega arith) | inr a ↦ absurd (omega arith) ]);
        },
      )

pre_write_as_protect :
    (b : NtfsRecord) (size usa_ofs usa_count : ℕ)
    → IsSound b size usa_ofs usa_count
    → is_unusable b ≡ some false
    → pre_write_fixup b size ≡ restored (protect b usa_ofs usa_count)
unfolding pre_write_fixup
pre_write_as_protect b size usa_ofs usa_count s usable =
    rw (usable, read_fields_sound b usa_ofs usa_count s.at_ofs s.at_count, s.valid, pre_write_fixup)

post_read_as_sectors :
    (b : NtfsRecord) (size usa_ofs usa_count usn : ℕ)
    → IsSound b size usa_ofs usa_count
    → get_elem? b (usa_ofs / 2) ≡ some usn
    → post_read_fixup b size ≡ deprotect b usa_ofs usa_count usn (check_loop (size / 512) 255 usn b)
unfolding post_read_fixup post_read_sectors
post_read_as_sectors b size usa_ofs usa_count usn s at =
    rw (read_fields_sound b usa_ofs usa_count s.at_ofs s.at_count, s.valid, at, post_read_fixup)
      (ap (λ k. deprotect b usa_ofs usa_count usn (check_loop k 255 usn b))
        (IsSound-bounds b size usa_ofs usa_count s).0)

-- If the last word of one sector of a sound record is not the update sequence number,
-- ntfs_mst_post_read_fixup returns EIO, with the record's magic overwritten by "BAAD" and the
-- rest of it as it was.
pub post_read-torn :
    (b : NtfsRecord) (size usa_ofs usa_count usn sector x : ℕ)
    → IsSound b size usa_ofs usa_count
    → get_elem? b (usa_ofs / 2) ≡ some usn
    → sector < size / 512
    → get_elem? b (255 + 256 * sector) ≡ some x
    → x ≢ usn
    → post_read_fixup b size ≡ eio (set_baad b)
post_read-torn b size usa_ofs usa_count usn sector x s at h e ne =
    let k = IsSound-bounds b size usa_ofs usa_count s in
    post_read_as_sectors b size usa_ofs usa_count usn s at
    ∙ rw (check_loop-torn (size / 512) 255 usn sector x b (omega (arith, k)) h e ne)
        (unfold deprotect in refl)

-- What ntfs_mst_post_read_fixup and ntfs_mst_post_write_fixup make of a protected record.
record Unprotected (size usa old : ℕ) (b b'' : NtfsRecord) : Type 0 where
  same_length : length b'' ≡ length b
  number : get_elem? b'' usa ≡ some (next_usn old)
  others : (i : ℕ) → IsOutside usa (size / 512) i → get_elem? b'' i ≡ get_elem? b i

-- A word is the end of a sector, or of none.
sector_cases :
    (n i : ℕ) → ((j : ℕ) × (j < n) × (i ≡ data_at 255 j)) ⊎ ((j : ℕ) → j < n → i ≢ data_at 255 j)
sector_cases zero i = inr (λ j h e. elim h [ ])
sector_cases (suc n) i = elim (sector_cases n i) [
  | inl (j, h, e) ↦ inl (j, omega arith, e)
  | inr k ↦ elim (ℕ_discrete i (data_at 255 n)) [
    | yes e ↦ inl (n, omega arith, e)
    | no ne ↦ inr (λ j h e. elim (ℕ_discrete j n) [
      | yes same ↦ ne (omega arith)
      | no other ↦ k j (omega arith) e
    ])
  ]
]

module _ (b b' : NtfsRecord) (size usa_ofs usa_count old : ℕ) (s : IsSound b size usa_ofs usa_count)
    (w : Written (size / 512) (usa_ofs / 2) old b b') where
  sound : IsSound b' size usa_ofs usa_count
  sound =
      let k = IsSound-bounds b size usa_ofs usa_count s in
      record {
        words = w.same_length ∙ s.words;
        at_ofs = w.others 2 (inl (omega (arith, k))) (λ j h e. absurd (omega arith)) ∙ s.at_ofs;
        at_count = w.others 3 (inl (omega (arith, k))) (λ j h e. absurd (omega arith)) ∙ s.at_count;
        valid = s.valid;
        behind = s.behind;
      }

  abbrev Restores : Type 0
  Restores =
      (b'' : NtfsRecord) × (restore_loop (size / 512) (usa_ofs / 2) 255 b' ≡ some b'')
      × Unprotected size (usa_ofs / 2) old b b''

  restore-Unprotected : Restores
  restore-Unprotected =
      let k = IsSound-bounds b size usa_ofs usa_count s in
      let long = w.same_length in
      let (b'', e, c) =
        restore_loop-IsRestored (size / 512) (usa_ofs / 2) 255 b' (omega (arith, k))
          (omega (arith, k)) in
      (
        b'',
        e,
        record {
          same_length = c.same_length ∙ w.same_length;
          number = c.others (usa_ofs / 2) (λ j h q. absurd (omega (arith, k))) ∙ w.number;
          others = λ i out. elim (sector_cases (size / 512) i) [
            | inl (j, h, at) ↦ rw at (c.restored j h ∙ w.saved j h)
            | inr away ↦ c.others i away ∙ w.others i out away
          ];
        },
      )

  post_read-restores :
      post_read_fixup b' size ≡ restored (restore_loop (size / 512) (usa_ofs / 2) 255 b')
  post_read-restores =
      post_read_as_sectors b' size usa_ofs usa_count (next_usn old) sound w.number
      ∙ rw (check_loop-marked (size / 512) 255 (next_usn old) b' w.marked) (
          unfold deprotect in
          ap (λ k. restored (restore_loop k (usa_ofs / 2) 255 b'))
            (IsSound-bounds b size usa_ofs usa_count s).0)

  post_write-restores :
      post_write_fixup b' ≡ restored (restore_loop (size / 512) (usa_ofs / 2) 255 b')
  unfolding post_write_fixup
  post_write-restores =
      rw (read_fields_sound b' usa_ofs usa_count sound.at_ofs sound.at_count, post_write_fixup)
        (ap (λ k. restored (restore_loop k (usa_ofs / 2) 255 b'))
          (IsSound-bounds b size usa_ofs usa_count s).0)

-- On a sound record that is no "BAAD" or "HOLE" one, ntfs_mst_pre_write_fixup succeeds and ends
-- every sector in the next update sequence number; of its result both ntfs_mst_post_read_fixup
-- and ntfs_mst_post_write_fixup make the same record, which has every word of the first one but
-- those of the update sequence array.
pub pre_write-post_read :
    (b : NtfsRecord) (size usa_ofs usa_count old : ℕ)
    → IsSound b size usa_ofs usa_count
    → is_unusable b ≡ some false
    → get_elem? b (usa_ofs / 2) ≡ some old
    → (b' : NtfsRecord) × (b'' : NtfsRecord) × (pre_write_fixup b size ≡ done b')
      × ((j : ℕ) → j < size / 512 → get_elem? b' (255 + 256 * j) ≡ some (next_usn old))
      × (post_read_fixup b' size ≡ done b'')
      × (post_write_fixup b' ≡ done b'')
      × (length b'' ≡ length b)
      × ((i : ℕ) → IsOutside (usa_ofs / 2) (size / 512) i → get_elem? b'' i ≡ get_elem? b i)
pre_write-post_read b size usa_ofs usa_count old s usable at =
    let (b', e, w) = protect-Written b size usa_ofs usa_count old s at in
    let (b'', f, u) = restore-Unprotected b b' size usa_ofs usa_count old s w in
    (
      b',
      b'',
      pre_write_as_protect b size usa_ofs usa_count s usable ∙ ap restored e,
      w.marked,
      post_read-restores b b' size usa_ofs usa_count old s w ∙ ap restored f,
      post_write-restores b b' size usa_ofs usa_count old s w ∙ ap restored f,
      u.same_length,
      u.others,
    )

-- A write never leaves the update sequence number that it found, nor one of the values 0 and
-- 0xffff that are not used.
pub next_usn_lem :
    (old : ℕ) → old < 2 ^ 16 → (next_usn old ≢ old) × (0 < next_usn old) × (next_usn old < 0xffff)
unfolding next_usn
next_usn_lem old h = ground arith
