-- ===== src/Runlist.antt =====
-- source/runlist.h, source/runlist.c and the lcn codes of source/attrib.h: the runlist.
-- An s64 is its 64-bit pattern. A runlist is the list of the array's elements, the terminator
-- and whatever stands behind it included; a read behind the end of the list is a fault.
pub mod Bytes
pub mod Lookup
pub mod Truncate
pub mod Pairs
use libntfs.Prelude.{
  ℕ, ◌+◌, ◌≤◌, ◌<◌, ◌≡◌, ◌⊎◌, List, [], ◌∷◌, Option, some, none, ◌^◌, inl, inr, refl,
}
use libntfs.Prelude.Word.{minus}

pub record RunlistElement : Type 0 where
  pub vcn : ℕ
  pub lcn : ℕ
  pub length : ℕ

abbrev pub Runlist : Type 0
Runlist = List RunlistElement

-- The errors that the functions leave in `errno`.
pub data Errno : Type 0 where
  einval eio enospc erange eintr : Errno

-- What a function returns: a value, -1 or NULL with `errno`, or, which C leaves undefined, a
-- read outside an array.
pub data Outcome {ℓ} (A : Type ℓ) : Type ℓ where
  ok : A → Outcome A
  fails : Errno → Outcome A
  fault : Outcome A

infixl 5 ◌>>=◌
abbrev pub ◌>>=◌ {ℓ κ} : {A : Type ℓ} {B : Type κ} → Outcome A → (A → Outcome B) → Outcome B
ok a >>= f = f a
fails e >>= f = fails e
fault >>= f = fault

-- `none` stands for a read outside an array.
abbrev pub reads {ℓ} : {A : Type ℓ} → Option A → Outcome A
reads none = fault
reads (some a) = ok a

abbrev pub lcn_hole : ℕ
lcn_hole = minus 1

abbrev pub lcn_rl_not_mapped : ℕ
lcn_rl_not_mapped = minus 2

abbrev pub lcn_enoent : ℕ
lcn_enoent = minus 3

abbrev pub lcn_einval : ℕ
lcn_einval = minus 4

-- A run of the list: it starts at `v`, is not empty and ends below 2 ^ 63; it has clusters, whose
-- numbers do not pass 2 ^ 63, or is a hole or not mapped.
pub record IsRun (v : ℕ) (e : RunlistElement) : Type 0 where
  pub starts : e.vcn ≡ v
  pub positive : 0 < e.length
  pub ends : v + e.length < 2 ^ 63
  pub clusters : (e.lcn + e.length ≤ 2 ^ 63) ⊎ ((e.lcn ≡ lcn_hole) ⊎ (e.lcn ≡ lcn_rl_not_mapped))

-- The element that ends the list.
pub record IsTerminator (v : ℕ) (e : RunlistElement) : Type 0 where
  pub starts : e.vcn ≡ v
  pub empty : e.length ≡ 0
  pub low : v < 2 ^ 63
  pub negative : (e.lcn < 2 ^ 64) × (2 ^ 63 ≤ e.lcn)

-- The runs follow one another from `v` on, up to a terminator; what stands behind it is free.
abbrev pub IsRunlist : ℕ → Runlist → Type 0
IsRunlist v [] = ⊥
IsRunlist v (e ∷ rl) = IsTerminator v e ⊎ (IsRun v e × IsRunlist (v + e.length) rl)

pub Outcome-cases {ℓ} :
    {A : Type ℓ} (r : Outcome A)
    → ((a : A) × (r ≡ ok a)) ⊎ (((e : Errno) × (r ≡ fails e)) ⊎ (r ≡ fault))
Outcome-cases (ok a) = inl (a, refl)
Outcome-cases (fails e) = inr (inl (e, refl))
Outcome-cases fault = inr (inr refl)
