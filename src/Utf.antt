-- ===== src/Utf.antt =====
-- source/unistr.c: the conversion of names between UTF-16 and UTF-8, with ALLOW_BROKEN_UNICODE set, as
-- it is by default. A string is the list of its units, or of its bytes, in front of the terminator. The
-- bits that `|` joins are disjoint, so it is a sum. PATH_MAX is a parameter.
pub mod Points
pub mod Encoded
pub mod Sizes
pub mod Measured
pub mod Decoded
pub mod RoundTrip
use libntfs.Prelude.{
  ℕ, zero, suc, ◌+◌, ◌-◌, ◌*◌, ◌/◌, ◌%◌, ◌^◌, List, [], ◌∷◌, ◌++◌, Option, none, some, Bool, true,
  false, not, ◌&&◌, ◌||◌, length, get_or, drop, ltb, leb, ◌==◌, if◌then◌else◌,
}

-- What a conversion ends with, and errno; or no end of the loop within the fuel.
pub data Converted (A : Type 0) : Type 0 where
  ok : A → Converted A
  eilseq : Converted A
  enametoolong : Converted A
  no_end : Converted A

abbrev pub is_low : ℕ → Bool
is_low c = leb 0xdc00 c && ltb c 0xe000

-- A unit that is not preceded by a first half: the new count, and whether the unit is a first half.
unfoldable pub size_one : ℕ → ℕ → Bool × ℕ × Bool
size_one count c =
    if ltb c 0x80
    then (true, count + 1, false)
    else (if ltb c 0x800
        then (true, count + 2, false)
        else (if ltb c 0xd800
            then (true, count + 3, false)
            else (if ltb c 0xdc00 then (true, count, true) else (true, count + 3, false))))

-- One unit; whether the loop goes on. `limit` is outs_len + 1.
unfoldable pub size_step : ℕ → ℕ → Bool → ℕ → Bool × ℕ × Bool
size_step limit count surrog c =
    if c == 0 || not (ltb count limit)
    then (false, count, surrog)
    else (if surrog
        then (if is_low c
            then (true, count + 4, false)
            else (if ltb (count + 3) limit
                then size_one (count + 3) c
                else (false, count + 3, false)))
        else size_one count c)

unfoldable pub size_loop : ℕ → ℕ → Bool → List ℕ → ℕ × Bool
size_loop limit count surrog [] = (count, surrog)
size_loop limit count surrog (c ∷ ins) =
    let (goes_on, count', surrog') = size_step limit count surrog c in
    let rest = size_loop limit count' surrog' ins in if goes_on then rest else (count', surrog')

-- What follows the loop.
unfoldable pub size_end : ℕ → ℕ × Bool → Converted ℕ
size_end limit (count, surrog) =
    let total = if surrog && ltb count limit then count + 3 else count in
    if ltb total limit then ok total else enametoolong

abbrev pub utf16_to_utf8_size : List ℕ → ℕ → Converted ℕ
utf16_to_utf8_size ins limit = size_end limit (size_loop limit 0 false ins)

abbrev pub two_bytes : ℕ → List ℕ
two_bytes c = (0xc0 + c / 64 % 64) ∷ (0x80 + c % 64) ∷ []

abbrev pub three_bytes : ℕ → List ℕ
three_bytes c = (0xe0 + c / 4096) ∷ (0x80 + c / 64 % 64) ∷ (0x80 + c % 64) ∷ []

-- The bytes of a pair.
abbrev pub four_bytes : ℕ → ℕ → List ℕ
four_bytes halfpair c =
    (0xf0 + (halfpair + 64) / 256 % 8)
    ∷ (0x80 + (halfpair + 64) / 4 % 64)
    ∷ (0x80 + c / 64 % 16 + halfpair % 4 * 16)
    ∷ (0x80 + c % 64)
    ∷ []

-- A unit that is not preceded by a first half: its bytes, and the half that is left.
unfoldable pub encode_one : ℕ → List ℕ × ℕ
encode_one c =
    if ltb c 0x80
    then (c ∷ [], 0)
    else (if ltb c 0x800
        then (two_bytes c, 0)
        else (if ltb c 0xd800
            then (three_bytes c, 0)
            else (if ltb c 0xdc00 then ([], c) else (three_bytes c, 0))))

-- One unit; behind a half that has no other the unit is looked at again.
unfoldable pub encode_step : ℕ → ℕ → List ℕ × ℕ
encode_step halfpair c =
    if halfpair == 0
    then encode_one c
    else (if is_low c
        then (four_bytes halfpair c, 0)
        else (three_bytes halfpair ++ (encode_one c).0, (encode_one c).1))

-- A single surrogate at the end.
abbrev pub encode_end : ℕ → List ℕ
encode_end halfpair = if halfpair == 0 then [] else three_bytes halfpair

unfoldable pub encode_loop : ℕ → List ℕ → List ℕ
encode_loop halfpair [] = encode_end halfpair
encode_loop halfpair (c ∷ ins) =
    let (out, halfpair') = encode_step halfpair c in
    let rest = encode_loop halfpair' ins in if c == 0 then encode_end halfpair else out ++ rest

-- A conversion goes on if the size is found.
abbrev pub sized : Converted ℕ → Converted (List ℕ) → Converted (List ℕ)
sized (ok size) converted = converted
sized eilseq converted = eilseq
sized enametoolong converted = enametoolong
sized no_end converted = no_end

-- The size of the buffer; `none` if there is none.
abbrev pub buffer_size : ℕ → Option ℕ → ℕ
buffer_size path_max none = path_max
buffer_size path_max (some outs_len) = outs_len

unfoldable pub utf16_to_utf8 : ℕ → List ℕ → Option ℕ → Converted (List ℕ)
utf16_to_utf8 path_max ins outs_len =
    sized (utf16_to_utf8_size ins (buffer_size path_max outs_len)) (ok (encode_loop 0 ins))

-- One round of the loop of utf8_to_utf16_size behind the byte: the bytes that are passed over, and
-- whether it counts twice; the loop is left at the end of the string.
unfoldable pub size8_loop : ℕ → ℕ → List ℕ → ℕ → Converted ℕ
size8_loop path_max fuel [] count = ok count
size8_loop path_max zero (byte ∷ s) count = no_end
size8_loop path_max (suc fuel) (byte ∷ s) count =
    let one = size8_loop path_max fuel s (count + 1) in
    let two = size8_loop path_max fuel (drop 1 s) (count + 1) in
    let three = size8_loop path_max fuel (drop 2 s) (count + 1) in
    let four = size8_loop path_max fuel (drop 3 s) (count + 2) in
    if leb path_max (count + 1)
    then enametoolong
    else (if ltb byte 0xc0
        then one
        else (if leb 0xf5 byte
            then eilseq
            else (if leb (length s) 1
                then ok (count + 1)
                else (if ltb byte 0xe0
                    then two
                    else (if length s == 2
                        then ok (count + 1)
                        else (if ltb byte 0xf0
                            then three
                            else (if leb path_max (count + 2) then enametoolong else four)))))))

-- A round passes a byte at least.
abbrev pub utf8_to_utf16_size : ℕ → List ℕ → Converted ℕ
utf8_to_utf16_size path_max s = size8_loop path_max (length s) s 0

-- A sequence: its value and its length; the end of the string; or no valid sequence.
pub data Sequence : Type 0 where
  char : ℕ → ℕ → Sequence
  terminator : Sequence
  invalid : Sequence

abbrev pub is_next : ℕ → Bool
is_next byte = byte / 64 == 2

unfoldable pub utf8_to_unicode : List ℕ → Sequence
utf8_to_unicode [] = terminator
utf8_to_unicode (byte ∷ s) =
    let s1 = get_or s 0 0 in
    let s2 = get_or s 1 0 in
    let s3 = get_or s 2 0 in
    if ltb byte 0x80
    then char byte 1
    else (if ltb byte 0xc2
        then invalid
        else (if ltb byte 0xe0
            then (if is_next s1 then char (byte % 32 * 64 + s1 % 64) 2 else invalid)
            else (if ltb byte 0xf0
                then (let wc = byte % 16 * 4096 + s1 % 64 * 64 + s2 % 64 in
                    if is_next s1 && is_next s2 && leb 0x800 wc then char wc 3 else invalid)
                else (let wc = byte % 8 * 2 ^ 18 + s1 % 64 * 4096 + s2 % 64 * 64 + s3 % 64 in
                    if ltb byte 0xf5
                      && is_next s1
                      && is_next s2
                      && is_next s3
                      && leb wc 0x10ffff
                      && leb 0x10000 wc
                    then char wc 4
                    else invalid))))

-- The units of a value.
unfoldable pub units_of : ℕ → List ℕ
units_of wc =
    if ltb wc 0x10000
    then wc ∷ []
    else ((wc - 0x10000) / 1024 + 0xd800) ∷ ((wc - 0x10000) % 1024 + 0xdc00) ∷ []

-- The loop of ntfs_utf8_to_utf16.
unfoldable pub decode_utf8 : ℕ → List ℕ → Converted (List ℕ)
decode_utf8 zero t = no_end
decode_utf8 (suc fuel) t = elim (utf8_to_unicode t) [
  | terminator ↦ ok []
  | invalid ↦ eilseq
  | char wc m ↦ elim (decode_utf8 fuel (drop m t)) [
    | ok outs ↦ ok (units_of wc ++ outs)
    | eilseq ↦ eilseq
    | enametoolong ↦ enametoolong
    | no_end ↦ no_end
  ]
]

-- A round passes a byte at least, but for the last one.
unfoldable pub utf8_to_utf16 : ℕ → List ℕ → Converted (List ℕ)
utf8_to_utf16 path_max ins =
    sized (utf8_to_utf16_size path_max ins) (decode_utf8 (length ins + 1) ins)
