-- ===== src/Runlist/Pairs/Places.antt =====
-- ntfs_mapping_pairs_decompress_i: where the elements of the new list are stored, while the u16 of
-- their places does not wrap.
use libntfs.Prelude.{
  ℕ, zero, suc, ◌+◌, ◌^◌, ◌<◌, ◌≡◌, refl, sym, ap, ◌∙◌, arith, List, [], ◌∷◌, ◌++◌, length,
  length-append, append_assoc, append-nil,
}
use libntfs.Runlist.{RunlistElement}
use libntfs.Runlist.Pairs.Decompress.{Runs, store, put}

store-end :
    (rl : List RunlistElement) (rlpos : ℕ) (e : RunlistElement)
    → length rl ≡ rlpos
    → store rl rlpos e ≡ rl ++ (e ∷ [])
unfolding store
store-end [] rlpos e h = refl
store-end (x ∷ rl) zero e h = absurd (omega (arith, h))
store-end (x ∷ rl) (suc rlpos) e h = ap (λ r. x ∷ r) (store-end rl rlpos e (omega (arith, h)))

-- The next place is the one behind the elements.
abbrev pub AtEnd : Runs → Type 0
AtEnd out = length out.rl ≡ out.rlpos

pub put-append : (out : Runs) (e : RunlistElement) → AtEnd out → (put out e).rl ≡ out.rl ++ (e ∷ [])
unfolding put
put-append out e at = store-end out.rl out.rlpos e at

pub put-rlpos :
    (out : Runs) (e : RunlistElement) → out.rlpos + 1 < 2 ^ 16 → (put out e).rlpos ≡ out.rlpos + 1
unfolding put
put-rlpos out e few = omega (arith, few)

pub put-AtEnd :
    (out : Runs) (e : RunlistElement) → AtEnd out → out.rlpos + 1 < 2 ^ 16 → AtEnd (put out e)
put-AtEnd out e at few =
    omega (
      arith,
      at,
      ap length (put-append out e at),
      length-append out.rl (e ∷ []),
      put-rlpos out e few,
    )

-- All the elements, one after the other.
unfoldable pub put_all : Runs → List RunlistElement → Runs
put_all out [] = out
put_all out (e ∷ rs) = put_all (put out e) rs

pub put_all-append :
    (out : Runs) (rs : List RunlistElement)
    → AtEnd out
    → out.rlpos + length rs < 2 ^ 16
    → ((put_all out rs).rl ≡ out.rl ++ rs) × AtEnd (put_all out rs)
unfolding put_all
put_all-append out [] at few = (sym (append-nil out.rl), at)
put_all-append out (e ∷ rs) at few =
    let one : out.rlpos + 1 < 2 ^ 16 = omega (arith, few) in
    let (all, at') =
      put_all-append (put out e) rs (put-AtEnd out e at one)
        (omega (arith, few, put-rlpos out e one)) in
    (all ∙ ap (λ r. r ++ rs) (put-append out e at) ∙ append_assoc out.rl (e ∷ []) rs, at')
