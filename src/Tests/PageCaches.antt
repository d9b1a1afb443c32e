-- ===== src/Tests/PageCaches.antt =====
-- source/cache2.c: a cache over a disc that is a function, and calls of it.
use libntfs.Prelude.{
  ℕ, zero, suc, ◌+◌, ◌-◌, ◌*◌, ◌%◌, ◌^◌, ◌<◌, ◌≡◌, inl, inr, refl, sym, ◌∙◌, ap, arith, List, [],
  ◌∷◌, some, Bool, true, false, some_inj, length, get_elem?, take, drop, replicate,
}
use libntfs.PageCache.{
  Sector, DiscInterface, Cache, State, ok, overwrite, mark, fresh_entries, constructor,
}
use libntfs.PageCache.Pages.{
  scan, accessed, to_read, write_back, loaded, load, after_write_back, replace, use_page, get_page,
  find_loop, find_page,
}
use libntfs.PageCache.Calls.{
  direct_sectors, read_loop, cache_read_sectors, write_loop, cache_write_sectors, cache_flush,
  partial, read_partial_sector, write_partial_sector, erase_write_partial_sector,
}
use libntfs.PageCache.Invariant.{IsDisc, Represents}
use libntfs.PageCache.Arrays.{slice, put, put-Outside, put-Within}
use libntfs.PageCache.Reads.{Reads, cache_read_sectors-Reads}
use libntfs.PageCache.Writes.{Writes, cache_write_sectors-Writes}
use libntfs.PageCache.Partials.{Transfers}
use libntfs.PageCache.Parts.{partial_sectors-Transfers}
use libntfs.PageCache.Values.{
  read_little_endian_value, write_little_endian_value, read_value-write_value,
}
use libntfs.PageCache.Flushed.{cache_flush-on_disc}
use libntfs.PageCache.Invalidated.{constructor-Represents}
use libntfs.PageCache.History.{
  Call, write, read_part, answers, perform, Run, done, next, Run-answers,
}

-- A disc that never fails.
abbrev memory : DiscInterface (ℕ → Sector)
memory = record {
  read_sectors = λ d sector n. (some (slice d sector n), d);
  write_sectors = λ d sector buffer. (true, put d sector buffer);
  flush = λ d. (true, d);
}

get_elem?-slice :
    (f : ℕ → Sector) (sector n j : ℕ)
    → j < n
    → get_elem? (slice f sector n) j ≡ some (f (sector + j))
unfolding slice
get_elem?-slice f sector zero j h = absurd (omega (arith, h))
get_elem?-slice f sector (suc n) zero h = ap (λ k. some (f k)) (omega arith)
get_elem?-slice f sector (suc n) (suc j) h =
    get_elem?-slice f (suc sector) n j (omega (arith, h)) ∙ ap (λ k. some (f k)) (shift sector j)
  where
    shift : (n m : ℕ) → suc n + m ≡ n + suc m
    shift n m = omega arith

length-slice : (f : ℕ → Sector) (sector n : ℕ) → length (slice f sector n) ≡ n
unfolding slice
length-slice f sector zero = refl
length-slice f sector (suc n) = ap suc (length-slice f (suc sector) n)

memory-IsDisc : IsDisc memory
memory-IsDisc = record {
  content = λ d. d;
  read_keeps = λ d sector n k. refl;
  read_length = λ d sector n out h.
      ap length (sym (some_inj (slice d sector n) out h)) ∙ length-slice d sector n;
  reads = λ d sector n out j h less.
      ap (λ xs. get_elem? xs j) (sym (some_inj (slice d sector n) out h))
      ∙ get_elem?-slice d sector n j less;
  write_keeps = λ d sector buffer k out. put-Outside d sector buffer k out;
  writes = λ d sector buffer j x good at.
      put-Within d sector buffer (sector + j) x (omega arith)
        (ap (λ n. get_elem? buffer n) (back sector j) ∙ at);
  flush_keeps = λ d k. refl;
}
  where
    back : (sector j : ℕ) → sector + j - sector ≡ j
    back sector j = omega arith

-- Four pages of 32 sectors of two bytes, of a partition of 100 sectors.
abbrev buffer : List Sector
buffer = replicate 32 []

abbrev buffers : List (List Sector)
buffers = buffer ∷ buffer ∷ buffer ∷ buffer ∷ []

abbrev new_cache : Cache
new_cache = record {
  end_of_partition = 100;
  sectors_per_page = 32;
  bytes_per_sector = 2;
  entries = fresh_entries 4 buffers;
  access_counter = 0;
}

constructs : constructor 4 2 100 2 buffers ≡ some new_cache
unfolding constructor
constructs = refl

abbrev numbers : ℕ → Sector
numbers k = k ∷ k ∷ []

abbrev start : State (ℕ → Sector)
start = record { cache = new_cache; disc = numbers }

start-Represents : Represents memory-IsDisc numbers start
unfolding memory-IsDisc
start-Represents =
    constructor-Represents memory-IsDisc numbers 4 2 100 2 buffers new_cache (omega arith)
      (omega arith) (omega arith, (omega arith, (omega arith, (omega arith, tt)))) constructs

constructor-Represents_example : Represents memory-IsDisc numbers start
unfolding memory-IsDisc
constructor-Represents_example =
    constructor-Represents memory-IsDisc numbers 4 2 100 2 buffers new_cache (omega arith)
      (omega arith) (omega arith, (omega arith, (omega arith, (omega arith, tt)))) constructs

abbrev never : ℕ → Bool
never k = false

abbrev always : ℕ → Bool
always k = true

cache_read_sectors-Reads_example :
    Reads memory-IsDisc numbers
      (slice numbers 30 4)
      start
      (cache_read_sectors memory never start 30 4).0
      (cache_read_sectors memory never start 30 4).1
cache_read_sectors-Reads_example =
    cache_read_sectors-Reads memory-IsDisc never numbers start 30 4 start-Represents (omega arith)

-- The sectors that a call reads across two pages.
reads_numbers :
    (cache_read_sectors memory never start 30 4).0
    ≡ ok ((30 ∷ 30 ∷ []) ∷ (31 ∷ 31 ∷ []) ∷ (32 ∷ 32 ∷ []) ∷ (33 ∷ 33 ∷ []) ∷ [])
unfolding cache_read_sectors read_loop direct_sectors get_page scan accessed to_read write_back
    loaded load after_write_back replace use_page overwrite slice
reads_numbers = refl

abbrev zeros : List Sector
zeros = (0 ∷ 0 ∷ []) ∷ (0 ∷ 0 ∷ []) ∷ (0 ∷ 0 ∷ []) ∷ []

cache_write_sectors-Writes_example :
    Writes memory-IsDisc numbers 31 zeros start
      (cache_write_sectors memory never start 31 zeros).0
      (cache_write_sectors memory never start 31 zeros).1
cache_write_sectors-Writes_example =
    cache_write_sectors-Writes memory-IsDisc never numbers start 31 zeros start-Represents
      (omega arith)

-- The cache behind that write, with two dirty pages.
abbrev warm : State (ℕ → Sector)
warm = (cache_write_sectors memory never start 31 zeros).1

warm-Represents : Represents memory-IsDisc (put numbers 31 zeros) warm
unfolding cache_write_sectors write_loop direct_sectors get_page scan accessed to_read write_back
    loaded load after_write_back replace use_page overwrite slice mark
warm-Represents =
    (cache_write_sectors-Writes memory-IsDisc never numbers start 31 zeros start-Represents
      (omega arith)).0

cache_flush-on_disc_example :
    Represents memory-IsDisc (put numbers 31 zeros) (cache_flush memory warm).1
    × ((cache_flush memory warm).0 ≡ true
        → (k : ℕ) → k < warm.cache.end_of_partition
        → memory-IsDisc.content (cache_flush memory warm).1.disc k ≡ put numbers 31 zeros k)
cache_flush-on_disc_example =
    cache_flush-on_disc memory-IsDisc (put numbers 31 zeros) warm warm-Represents

partial_sectors-Transfers_example :
    Transfers memory-IsDisc numbers
      (take 1 (drop 1 (numbers 40)))
      numbers
      start
      (read_partial_sector memory start 40 1 1).0
      (read_partial_sector memory start 40 1 1).1
    × Transfers memory-IsDisc numbers []
        (put numbers 40 (overwrite (numbers 40) 1 (7 ∷ []) ∷ []))
        start
        (write_partial_sector memory start 40 1 (7 ∷ [])).0
        (write_partial_sector memory start 40 1 (7 ∷ [])).1
    × Transfers memory-IsDisc numbers []
        (put numbers 40 (overwrite (replicate 2 0) 1 (7 ∷ []) ∷ []))
        start
        (erase_write_partial_sector memory start 40 1 (7 ∷ [])).0
        (erase_write_partial_sector memory start 40 1 (7 ∷ [])).1
partial_sectors-Transfers_example =
    partial_sectors-Transfers memory-IsDisc numbers start 40 1 (7 ∷ []) start-Represents
      (omega arith) (omega arith)

-- Two calls: a write past the cache and into it, and a read of a part of what was written.
abbrev two_calls : List Call
two_calls = write always 31 zeros ∷ read_part 32 1 1 ∷ []

abbrev two_answers : List (List Sector)
two_answers = [] ∷ ((0 ∷ []) ∷ []) ∷ []

abbrev after_one : State (ℕ → Sector)
after_one = (cache_write_sectors memory always start 31 zeros).1

two-Run : Run memory start two_calls two_answers (read_partial_sector memory after_one 32 1 1).1
unfolding perform cache_write_sectors write_loop direct_sectors get_page scan accessed to_read
    write_back loaded load after_write_back replace use_page overwrite slice mark find_page
    find_loop read_partial_sector partial
two-Run = next {s' = after_one} refl (next refl done)

Run-answers_example : two_answers ≡ answers 2 two_calls numbers
Run-answers_example =
    Run-answers memory-IsDisc numbers start-Represents
      (omega arith, ((omega arith, omega arith), tt)) two-Run

read_value-write_value_example : 259 ≡ 65795 % 2 ^ (8 * 2)
unfolding write_little_endian_value read_little_endian_value cache_write_sectors write_loop
    direct_sectors get_page scan accessed to_read write_back loaded load after_write_back replace
    use_page overwrite slice mark read_partial_sector write_partial_sector partial
read_value-write_value_example =
    read_value-write_value memory-IsDisc numbers start 65795 40 0 2 259 start-Represents
      (omega arith) (omega arith) (omega arith) (inr (inl refl)) refl refl
