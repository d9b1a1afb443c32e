-- ===== src/Tests/Names.antt =====
-- source/unistr.c and source/collate.c on concrete names and data.
use libntfs.Prelude.{
  ℕ, ◌-◌, ◌^◌, ◌≡◌, ◌↔◌, refl, arith, List, [], ◌∷◌, ◌++◌, length, take, some, true,
}
use Prim.Native.Nat.{Ordering}
use libntfs.Names.{
  Name, case_sensitive, ignore_case, names_full_collate, skip_equal, fold_loop, collate_sensitive,
  collate_names,
}
use libntfs.Names.Order.{lex, reversed}
use libntfs.Names.Compare.{
  collation, names_full_collate-collation, names_full_collate_iff, names_full_collate-reversed,
}
use libntfs.Names.Strings.{names_are_equal, ucsncmp, ucsnlen, ucsndup, name_upcase}
use libntfs.Names.Strings.Equal.{
  before_nul, ucsncmp-lex, names_are_equal-name_upcase, names_are_equal_iff, ucsndup-ucsnlen,
}
use libntfs.Collate.{
  Bytes, collates, collation_error, from_int, by_length, collate_binary, collate_ntofs_ulongs,
  collate_ntofs_security_hash,
}
use libntfs.Collate.Words.{words}
use libntfs.Collate.Order.{
  sign, int_of, IsMemcmp, collate_binary-lex, collate_ntofs_ulongs-lex, security_hash-lex,
}

-- A table that maps 3 to 2, and two names that differ in that alone.
abbrev table : List ℕ
table = 0 ∷ 1 ∷ 2 ∷ 2 ∷ []

abbrev upper : Name
upper = 7 ∷ 2 ∷ 9 ∷ []

abbrev lower : Name
lower = 7 ∷ 3 ∷ 9 ∷ []

names_full_collate-collation_example :
    names_full_collate upper lower case_sensitive table
    ≡ some (collation case_sensitive table upper lower)
names_full_collate-collation_example = names_full_collate-collation case_sensitive table upper lower

names_full_collate_iff_example :
    (names_full_collate upper lower case_sensitive table ≡ some Ordering.eq) ↔ (upper ≡ lower)
names_full_collate_iff_example = names_full_collate_iff table upper lower

upper_first : names_full_collate upper lower case_sensitive table ≡ some Ordering.lt
unfolding names_full_collate collate_names collate_sensitive skip_equal fold_loop
upper_first = refl

names_full_collate-reversed_example :
    names_full_collate lower upper case_sensitive table ≡ some (reversed Ordering.lt)
names_full_collate-reversed_example =
    names_full_collate-reversed case_sensitive table upper lower Ordering.lt upper_first

names_are_equal-name_upcase_example :
    names_are_equal upper lower ignore_case table
    ≡ names_are_equal (name_upcase upper table) (name_upcase lower table) case_sensitive table
names_are_equal-name_upcase_example = names_are_equal-name_upcase upper lower table

abbrev ended_six : Name
ended_six = 5 ∷ 0 ∷ 6 ∷ []

abbrev ended_seven : Name
ended_seven = 5 ∷ 0 ∷ 7 ∷ []

names_are_equal_iff_example :
    (names_are_equal ended_six ended_seven case_sensitive table ≡ some true)
    ↔ (length ended_six ≡ length ended_seven) × (before_nul ended_six ≡ before_nul ended_seven)
names_are_equal_iff_example = names_are_equal_iff ended_six ended_seven table

ucsncmp-lex_example :
    ucsncmp upper lower 2 ≡ some (lex (before_nul (take 2 upper)) (before_nul (take 2 lower)))
ucsncmp-lex_example = ucsncmp-lex upper lower 2 (omega arith) (omega arith)

ucsndup-ucsnlen_example :
    (ucsnlen ended_six 3 ≡ some (length (before_nul (take 3 ended_six))))
    × (ucsndup ended_six 3 ≡ some (before_nul (take 3 ended_six) ++ (0 ∷ [])))
ucsndup-ucsnlen_example = ucsndup-ucsnlen ended_six 3 (omega arith)

abbrev small_key : Bytes
small_key = 1 ∷ 2 ∷ 3 ∷ 4 ∷ 5 ∷ 6 ∷ 7 ∷ 8 ∷ []

abbrev large_key : Bytes
large_key = 1 ∷ 2 ∷ 3 ∷ 4 ∷ 5 ∷ 6 ∷ 7 ∷ 9 ∷ []

-- A memcmp of -1, 0 and 1.
abbrev memcmp : Bytes → Bytes → ℕ → ℕ
memcmp data1 data2 n = int_of (lex (take n data1) (take n data2))

sign-int_of : (o : Ordering) → sign (int_of o) ≡ o
sign-int_of Ordering.lt = refl
sign-int_of Ordering.eq = refl
sign-int_of Ordering.gt = refl

memcmp-IsMemcmp : IsMemcmp memcmp
memcmp-IsMemcmp data1 data2 n few few' = sign-int_of (lex (take n data1) (take n data2))

collate_binary-lex_example :
    (rc : ℕ) × (collate_binary memcmp small_key large_key ≡ from_int rc)
    × (sign rc ≡ lex small_key large_key)
collate_binary-lex_example = collate_binary-lex memcmp small_key large_key memcmp-IsMemcmp

-- A result of -2 of memcmp is an error of the collation.
error_of_memcmp : collate_binary (λ data1 data2 n. 2 ^ 32 - 2) small_key large_key ≡ collation_error
unfolding collate_binary by_length
error_of_memcmp = refl

collate_ntofs_ulongs-lex_example :
    collate_ntofs_ulongs small_key large_key ≡ collates (lex (words small_key) (words large_key))
collate_ntofs_ulongs-lex_example =
    collate_ntofs_ulongs-lex small_key large_key refl (omega arith) refl

security_hash-lex_example :
    collate_ntofs_security_hash small_key large_key
    ≡ collates (lex (words small_key) (words large_key))
security_hash-lex_example = security_hash-lex small_key large_key refl refl
