-- ===== src/Compress/Ends.antt =====
-- source/compress.c: how the parts of ntfs_decompress end.
use libntfs.Prelude.{
  ℕ, zero, suc, ◌+◌, ◌*◌, ◌^◌, ◌≡◌, refl, ◌∙◌, arith, List, [], ◌∷◌, ◌++◌, Option, none, some, Bool,
  true, false, ◌||◌, length, length-append, get_elem?, get_or, if◌then◌else◌,
}
use libntfs.Compress.{Decompressed, ok, overflow, fault, no_end, and_then, le16_at, copy_back}

-- The function ends, and what it returns satisfies a predicate.
abbrev pub Ends : {A : Type 0} → (A → Type 0) → Decompressed A → Type 0
Ends P (ok a) = P a
Ends P overflow = Unit
Ends P fault = Unit
Ends P no_end = ⊥

pub and_then-Ends :
    {A B : Type 0} (P : A → Type 0) (Q : B → Type 0) (m : Decompressed A)
    (next : A → Decompressed B)
    → Ends P m
    → ((a : A) → P a → Ends Q (next a))
    → Ends Q (and_then m next)
unfolding and_then
and_then-Ends P Q (ok a) next h k = k a h
and_then-Ends P Q overflow next h k = tt
and_then-Ends P Q fault next h k = tt
and_then-Ends P Q no_end next h k = absurd h

pub le16_at-Ends : (cbs : List ℕ) (cb : ℕ) → Ends (λ n. Unit) (le16_at cbs cb)
unfolding le16_at
le16_at-Ends cbs cb = first (get_elem? cbs cb)
  where
    second :
        (low : ℕ) (o : Option ℕ)
        → Ends (λ n. Unit) (elim o [ none ↦ fault | some high ↦ ok (low + high * 2 ^ 8) ])
    second low none = tt
    second low (some high) = tt

    first :
        (o : Option ℕ)
        → Ends
            (λ n. Unit)
            (elim o [
              | none ↦ fault
              | some low ↦ elim (get_elem? cbs (cb + 1)) [
                | none ↦ fault
                | some high ↦ ok (low + high * 2 ^ 8)
              ]
            ])
    first none = tt
    first (some low) = second low (get_elem? cbs (cb + 1))

pub length-copy_back : (n back : ℕ) (out : List ℕ) → length (copy_back n back out) ≡ length out + n
unfolding copy_back
length-copy_back zero back out = omega arith
length-copy_back (suc n) back out =
    length-copy_back n (back + 1) (out ++ (get_or out back 0 ∷ []))
    ∙ omega (arith, length-append out (get_or out back 0 ∷ []))

-- A choice ends if both ways do.
pub if-Ends :
    {A : Type 0} (P : A → Type 0) (b : Bool) (x y : Decompressed A)
    → (b ≡ true → Ends P x)
    → (b ≡ false → Ends P y)
    → Ends P (if b then x else y)
if-Ends P true x y h k = h refl
if-Ends P false x y h k = k refl

pub or_false : (a b : Bool) → (a || b) ≡ false → (a ≡ false) × (b ≡ false)
or_false true b h = absurd (cc)
or_false false b h = (refl, h)
