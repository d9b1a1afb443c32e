-- ===== src/Bitmap/Laws.antt =====
-- source/bitmap.c: how setting and getting bits interact.
use libntfs.Prelude.{
  eq_of_test, some_inj, ne_of_test, and_true, ℕ, zero, suc, ◌/◌, ◌%◌, ◌^◌, ◌<◌, ◌≡◌, ◌≢◌, refl, sym,
  ◌∙◌, ap, arith, Option, some, length, get_elem?, get_elem?-in_range, set, set_same,
  get_elem?-set_self, get_elem?-set_ne, lt_of_get_elem?, Bool, true, false, ◌&&◌, ltb, ◌==◌,
  if◌then◌else◌, inl, inr, Bool-cases,
}
use libntfs.Bitmap.{
  BitField, clear_in, set_in, toggle_in, bit_in, bit_set, bit_get, was, bit_get_and_set,
}

-- The byte that a call with `value` leaves.
abbrev changed : ℕ → ℕ → ℕ → ℕ
changed byte shift value = if value == 0 then clear_in byte (2 ^ shift) else set_in byte (2 ^ shift)

-- All bytes, all pairs of bits, both values, by evaluation.
expected : ℕ → ℕ → ℕ → ℕ → ℕ
expected byte shift other value = if shift == other then value else bit_in byte other

-- The byte that ntfs_bit_get_and_set leaves.
abbrev toggled : ℕ → ℕ → ℕ → ℕ
toggled byte shift value = if value == bit_in byte shift then byte else toggle_in byte (2 ^ shift)

agrees : ℕ → ℕ → ℕ → ℕ → Bool
agrees byte shift other value =
    bit_in (changed byte shift value) other == expected byte shift other value
    && (toggled byte shift value == changed byte shift value)

below : ℕ → (ℕ → Bool) → Bool
below zero test = true
below (suc n) test = let rest = below n test in if test n then rest else false

below_sound : (n : ℕ) (test : ℕ → Bool) → below n test ≡ true → (i : ℕ) → i < n → test i ≡ true
unfolding below
below_sound zero test h i k = absurd (omega (arith, k))
below_sound (suc n) test h i k = ground (arith, h, k, below_sound n test (ground (arith, h)) i)

abbrev all_agree : Bool
all_agree =
    below 256 (λ byte. below 8 (λ shift. below 8 (λ other. below 2 (agrees byte shift other))))

table : all_agree ≡ true
unfolding below agrees expected bit_in clear_in set_in toggle_in
table = refl

bytes_agree :
    (byte shift other value : ℕ)
    → byte < 256
    → shift < 8
    → other < 8
    → value < 2
    → agrees byte shift other value ≡ true
bytes_agree byte shift other value h1 h2 h3 h4 =
    below_sound 2 _
      (below_sound 8 _ (below_sound 8 _ (below_sound 256 _ table byte h1) shift h2) other h3) value
      h4

bit_in-changed :
    (byte shift other value : ℕ)
    → byte < 256
    → shift < 8
    → other < 8
    → value < 2
    → bit_in (changed byte shift value) other
      ≡ (if shift == other then value else bit_in byte other)
unfolding agrees expected
bit_in-changed byte shift other value h1 h2 h3 h4 =
    eq_of_test _ _ (and_true _ _ (bytes_agree byte shift other value h1 h2 h3 h4)).0

toggled-changed :
    (byte shift value : ℕ)
    → byte < 256
    → shift < 8
    → value < 2
    → toggled byte shift value ≡ changed byte shift value
unfolding agrees
toggled-changed byte shift value h1 h2 h4 =
    eq_of_test _ _ (and_true _ _ (bytes_agree byte shift 0 value h1 h2 (omega arith) h4)).1

-- Behind its tests ntfs_bit_set stores the changed byte.
bit_set-stores :
    (bitmap : BitField) (bit value byte : ℕ)
    → value < 2
    → get_elem? bitmap (bit / 8) ≡ some byte
    → bit_set bitmap bit value ≡ some (set bitmap (bit / 8) (changed byte (bit % 8) value))
unfolding bit_set
bit_set-stores bitmap bit value byte h e =
    let low : ltb 1 value ≡ false = ground (arith, h) in rw (low, bit_set) (rw (e, bit_set) refl)

bit_get-reads :
    (bitmap : BitField) (bit byte : ℕ)
    → get_elem? bitmap (bit / 8) ≡ some byte
    → bit_get bitmap bit ≡ some (bit_in byte (bit % 8))
unfolding bit_get
bit_get-reads bitmap bit byte e = rw (e, bit_get) refl

same_byte :
    (bit other value x y : ℕ)
    → bit / 8 ≡ other / 8
    → x ≡ y
    → (if bit % 8 == other % 8 then value else x) ≡ (if bit == other then value else y)
same_byte bit other value x y at e = ground (arith, at, e)

other_byte : (bit other value x : ℕ) → bit / 8 ≢ other / 8 → (if bit == other then value else x) ≡ x
other_byte bit other value x h = ground (arith, h)

some_if :
    (same : Bool) (a b : ℕ) (o : Option ℕ)
    → o ≡ some b
    → some (if same then a else b) ≡ (if same then some a else o)
some_if true a b o h = refl
some_if false a b o h = sym h

-- A field of bytes.
abbrev pub IsBytes : BitField → Type 0
IsBytes bitmap = (i byte : ℕ) → get_elem? bitmap i ≡ some byte → byte < 256

if_stored :
    (same : Bool) (bitmap : BitField) (i byte v : ℕ)
    → get_elem? bitmap i ≡ some byte
    → (if same then bitmap else set bitmap i v) ≡ set bitmap i (if same then byte else v)
if_stored true bitmap i byte v e = sym (set_same bitmap i byte e)
if_stored false bitmap i byte v e = refl

get_and_set_as :
    (bitmap : BitField) (bit value byte : ℕ)
    → value < 2
    → byte < 256
    → get_elem? bitmap (bit / 8) ≡ some byte
    → bit_get_and_set bitmap bit value
      ≡ was (bit_in byte (bit % 8)) (set bitmap (bit / 8) (changed byte (bit % 8) value))
unfolding bit_get_and_set
get_and_set_as bitmap bit value byte small low e =
    let valid : ltb 1 value ≡ false = ground (arith, small) in
    rw (valid, bit_get_and_set)
      (rw (e, bit_get_and_set)
        (ap (was (bit_in byte (bit % 8))) (
          if_stored (value == bit_in byte (bit % 8)) bitmap (bit / 8) byte _ e
          ∙ ap (set bitmap (bit / 8))
              (toggled-changed byte (bit % 8) value low (omega arith) small))))

get_after :
    (bitmap : BitField) (bit other value byte byte' : ℕ)
    → value < 2
    → byte < 256
    → get_elem? bitmap (bit / 8) ≡ some byte
    → get_elem? bitmap (other / 8) ≡ some byte'
    → bit_get (set bitmap (bit / 8) (changed byte (bit % 8) value)) other
      ≡ some (if bit == other then value else bit_in byte' (other % 8))
get_after bitmap bit other value byte byte' small low e e' =
    elim (Bool-cases (bit / 8 == other / 8)) [
      | inl same ↦
          let at = eq_of_test _ _ same in
          let one = some_inj byte' byte (sym e' ∙ ap (get_elem? bitmap) (sym at) ∙ e) in
          bit_get-reads _ other (changed byte (bit % 8) value) (
            ap (get_elem? (set bitmap (bit / 8) (changed byte (bit % 8) value))) (sym at)
            ∙ get_elem?-set_self bitmap (bit / 8) _ (lt_of_get_elem? bitmap (bit / 8) byte e))
          ∙ ap some (
              bit_in-changed byte (bit % 8) (other % 8) value low (omega arith) (omega arith) small
              ∙ same_byte bit other value _ _ at (ap (λ b. bit_in b (other % 8)) (sym one)))
      | inr apart ↦
          bit_get-reads _ other byte'
            (get_elem?-set_ne bitmap _ (λ at. absurd (ne_of_test _ _ apart at)) ∙ e')
          ∙ ap some (sym (other_byte bit other value _ (ne_of_test _ _ apart)))
    ]

-- After ntfs_bit_set has set a bit inside a field of bytes to 0 or 1, ntfs_bit_get finds that value
-- there and what it was at every other bit inside; ntfs_bit_get_and_set leaves the same field, and returns what
-- ntfs_bit_get found before.
pub bit_set-bit_get :
    (bitmap : BitField) (bit other value : ℕ)
    → IsBytes bitmap
    → bit / 8 < length bitmap
    → other / 8 < length bitmap
    → value < 2
    → (after : BitField) × (old : ℕ) × (bit_set bitmap bit value ≡ some after)
      × (bit_get after other ≡ (if bit == other then some value else bit_get bitmap other))
      × (bit_get bitmap bit ≡ some old)
      × (bit_get_and_set bitmap bit value ≡ was old after)
bit_set-bit_get bitmap bit other value bytes within other_within small =
    let (byte, e) = get_elem?-in_range bitmap (bit / 8) within in
    let (byte', e') = get_elem?-in_range bitmap (other / 8) other_within in
    (
      set bitmap (bit / 8) (changed byte (bit % 8) value),
      bit_in byte (bit % 8),
      bit_set-stores bitmap bit value byte small e,
      get_after bitmap bit other value byte byte' small (bytes _ byte e) e e'
          ∙ some_if (bit == other) value _ (bit_get bitmap other)
              (bit_get-reads bitmap other byte' e'),
      bit_get-reads bitmap bit byte e,
      get_and_set_as bitmap bit value byte small (bytes _ byte e) e,
    )
