-- ===== src/Names/Strings.antt =====
-- source/unistr.c: the strings that a NUL ends, and mapping a name by a case table. malloc succeeds.
pub mod Equal
use libntfs.Prelude.{
  ℕ, zero, suc, List, [], ◌∷◌, ◌++◌, map, Option, none, some, Bool, true, false, length, get_elem?,
  take, ltb, ◌==◌, if◌then◌else◌,
}
use Prim.Native.Nat.{Ordering}
use mathlib.Core.Option as Opt
use libntfs.Names.{Name, IgnoreCase, case_sensitive, ignore_case, fold}

-- The tests on two characters; `rest` is what the characters behind them give.
abbrev pub compare_characters : ℕ → ℕ → Option Ordering → Option Ordering
compare_characters c1 c2 rest =
    if ltb c1 c2
    then some Ordering.lt
    else (if ltb c2 c1 then some Ordering.gt else (if c1 == 0 then some Ordering.eq else rest))

unfoldable pub ucsncmp : Name → Name → ℕ → Option Ordering
ucsncmp s1 s2 zero = some Ordering.eq
ucsncmp [] s2 (suc n) = none
ucsncmp (x ∷ s1) [] (suc n) = none
ucsncmp (x ∷ s1) (y ∷ s2) (suc n) = let rest = ucsncmp s1 s2 n in compare_characters x y rest

unfoldable pub ucsncasecmp : Name → Name → ℕ → List ℕ → Option Ordering
ucsncasecmp s1 s2 zero upcase = some Ordering.eq
ucsncasecmp [] s2 (suc n) upcase = none
ucsncasecmp (x ∷ s1) [] (suc n) upcase = none
ucsncasecmp (x ∷ s1) (y ∷ s2) (suc n) upcase =
    let rest = ucsncasecmp s1 s2 n upcase in compare_characters (fold upcase x) (fold upcase y) rest

abbrev pub is_eq : Ordering → Bool
is_eq Ordering.lt = false
is_eq Ordering.eq = true
is_eq Ordering.gt = false

abbrev pub matches : Option Ordering → Option Bool
matches none = none
matches (some o) = some (is_eq o)

unfoldable pub names_are_equal : Name → Name → IgnoreCase → List ℕ → Option Bool
names_are_equal s1 s2 case_sensitive upcase =
    if length s1 == length s2
    then (if length s1 == 0 then some true else matches (ucsncmp s1 s2 (length s1)))
    else some false
names_are_equal s1 s2 ignore_case upcase =
    if length s1 == length s2
    then (if length s1 == 0 then some true else matches (ucsncasecmp s1 s2 (length s1) upcase))
    else some false

-- The loop, with the characters counted from the pointer on.
unfoldable pub ucsnlen : Name → ℕ → Option ℕ
ucsnlen s zero = some zero
ucsnlen [] (suc maxlen) = none
ucsnlen (x ∷ s) (suc maxlen) =
    let rest = ucsnlen s maxlen in if x == 0 then some zero else Opt.map suc rest

unfoldable pub ucsndup : Name → ℕ → Option Name
ucsndup s maxlen = Opt.map (λ len. take len s ++ (0 ∷ [])) (ucsnlen s maxlen)

unfoldable pub name_upcase : Name → List ℕ → Name
name_upcase [] upcase = []
name_upcase (u ∷ name) upcase = fold upcase u ∷ name_upcase name upcase

-- `locase` may be NULL.
unfoldable pub name_locase : Name → Option (List ℕ) → Name
name_locase name none = name
name_locase [] (some locase) = []
name_locase (u ∷ name) (some locase) = fold locase u ∷ name_locase name (some locase)
