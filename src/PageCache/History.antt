-- ===== src/PageCache/History.antt =====
-- source/cache2.c: a run of calls of the cache, against the array of sectors alone.
use libntfs.Prelude.{
  ℕ, ◌+◌, ◌≤◌, ◌<◌, subst, ◌≡◌, refl, sym, ◌∙◌, ap, List, [], ◌∷◌, Option, some, none, Bool, true,
  false, length, take, drop, replicate, All,
}
use libntfs.PageCache.{
  Sector, DiscInterface, Cache, State, Ended, ok, failed, fault, no_end, overwrite,
}
use libntfs.PageCache.Calls.{
  cache_read_sectors, cache_write_sectors, read_partial_sector, write_partial_sector,
  erase_write_partial_sector, cache_flush,
}
use libntfs.PageCache.Invariant.{IsDisc, Represents}
use libntfs.PageCache.Evicted.{SameGeometry}
use libntfs.PageCache.Arrays.{slice, put}
use libntfs.PageCache.Reads.{Reads, cache_read_sectors-Reads}
use libntfs.PageCache.Writes.{Writes, cache_write_sectors-Writes}
use libntfs.PageCache.Partials.{Transfers}
use libntfs.PageCache.Parts.{reads_part, writes_part, erases_part}
use libntfs.PageCache.Flushed.{flush-Flushes}

-- A call, with what SYS_IsDMAAddress tells of its buffer.
pub data Call : Type 0 where
  read : (ℕ → Bool) → ℕ → ℕ → Call
  write : (ℕ → Bool) → ℕ → List Sector → Call
  read_part : ℕ → ℕ → ℕ → Call
  write_part : ℕ → ℕ → List ℕ → Call
  erase_part : ℕ → ℕ → List ℕ → Call
  flush : Call

-- The call is about sectors of a partition that ends at `end`, and about bytes of one sector.
abbrev pub IsInside : ℕ → ℕ → Call → Type 0
IsInside end bytes (read is_dma sector n) = sector + n ≤ end
IsInside end bytes (write is_dma sector buffer) = sector + length buffer ≤ end
IsInside end bytes (read_part sector offset size) = (sector < end) × (offset + size ≤ bytes)
IsInside end bytes (write_part sector offset buffer) =
    (sector < end) × (offset + length buffer ≤ bytes)
IsInside end bytes (erase_part sector offset buffer) =
    (sector < end) × (offset + length buffer ≤ bytes)
IsInside end bytes flush = Unit

-- What a call returns of the array, and what it leaves of it.
unfoldable pub answer : Call → (ℕ → Sector) → List Sector
answer (read is_dma sector n) f = slice f sector n
answer (write is_dma sector buffer) f = []
answer (read_part sector offset size) f = take size (drop offset (f sector)) ∷ []
answer (write_part sector offset buffer) f = []
answer (erase_part sector offset buffer) f = []
answer flush f = []

unfoldable pub effect : ℕ → Call → (ℕ → Sector) → ℕ → Sector
effect bytes (read is_dma sector n) f = f
effect bytes (write is_dma sector buffer) f = put f sector buffer
effect bytes (read_part sector offset size) f = f
effect bytes (write_part sector offset buffer) f =
    put f sector (overwrite (f sector) offset buffer ∷ [])
effect bytes (erase_part sector offset buffer) f =
    put f sector (overwrite (replicate bytes 0) offset buffer ∷ [])
effect bytes flush f = f

-- What a run of calls returns of the array.
unfoldable pub answers : ℕ → List Call → (ℕ → Sector) → List (List Sector)
answers bytes [] f = []
answers bytes (call ∷ calls) f = answer call f ∷ answers bytes calls (effect bytes call f)

-- The results of a call as a list, if it returned any.
abbrev returned : Ended (List Sector) → Option (List Sector)
returned (ok out) = some out
returned failed = none
returned fault = none
returned no_end = none

abbrev returned_nothing : Ended (Unit {0}) → Option (List Sector)
returned_nothing (ok none_left) = some []
returned_nothing failed = none
returned_nothing fault = none
returned_nothing no_end = none

abbrev returned_part : Ended (List ℕ) → Option (List Sector)
returned_part (ok out) = some (out ∷ [])
returned_part failed = none
returned_part fault = none
returned_part no_end = none

abbrev returned_no_part : Ended (List ℕ) → Option (List Sector)
returned_no_part (ok out) = some []
returned_no_part failed = none
returned_no_part fault = none
returned_no_part no_end = none

abbrev returned_true : Bool → Option (List Sector)
returned_true true = some []
returned_true false = none

module _ {D : Type 0} (io : DiscInterface D) where
  -- The call on the cache.
  unfoldable pub perform : Call → State D → Option (List Sector) × State D
  perform (read is_dma sector n) s =
      let (r, s') = cache_read_sectors io is_dma s sector n in (returned r, s')
  perform (write is_dma sector buffer) s =
      let (r, s') = cache_write_sectors io is_dma s sector buffer in (returned_nothing r, s')
  perform (read_part sector offset size) s =
      let (r, s') = read_partial_sector io s sector offset size in (returned_part r, s')
  perform (write_part sector offset buffer) s =
      let (r, s') = write_partial_sector io s sector offset buffer in (returned_no_part r, s')
  perform (erase_part sector offset buffer) s =
      let (r, s') = erase_write_partial_sector io s sector offset buffer in (returned_no_part r, s')
  perform flush s = let (r, s') = cache_flush io s in (returned_true r, s')

  -- A run of calls that all succeed, with what they return.
  pub data Run : State D → List Call → List (List Sector) → State D → Type 0 where
    done : {s : State D} → Run s [] [] s
    next :
        {s s' s'' : State D} {call : Call} {calls : List Call} {out : List Sector}
        {outs : List (List Sector)}
        → perform call s ≡ (some out, s')
        → Run s' calls outs s''
        → Run s (call ∷ calls) (out ∷ outs) s''

module _ {D : Type 0} {io : DiscInterface D} (disc : IsDisc io) where
  -- What one call that succeeds does.
  abbrev Performs : Call → (ℕ → Sector) → State D → Option (List Sector) → State D → Type 0
  Performs call f s none s' = Unit
  Performs call f s (some out) s' =
      (out ≡ answer call f)
      × Represents disc (effect s.cache.bytes_per_sector call f) s'
      × SameGeometry s.cache s'.cache

  of_read :
      (f : ℕ → Sector) (s s' : State D) (is_dma : ℕ → Bool) (sector n : ℕ) (r : Ended (List Sector))
      → Reads disc f (slice f sector n) s r s'
      → Performs (read is_dma sector n) f s (returned r) s'
  unfolding answer effect
  of_read f s s' is_dma sector n (ok out) h = h
  of_read f s s' is_dma sector n failed h = tt
  of_read f s s' is_dma sector n fault h = tt
  of_read f s s' is_dma sector n no_end h = tt

  of_write :
      (f : ℕ → Sector) (s s' : State D) (is_dma : ℕ → Bool) (sector : ℕ) (buffer : List Sector)
      (r : Ended (Unit {0}))
      → Writes disc f sector buffer s r s'
      → Performs (write is_dma sector buffer) f s (returned_nothing r) s'
  unfolding answer effect
  of_write f s s' is_dma sector buffer (ok none_left) (R, same) = (refl, R, same)
  of_write f s s' is_dma sector buffer failed h = tt
  of_write f s s' is_dma sector buffer fault h = tt
  of_write f s s' is_dma sector buffer no_end h = tt

  of_part :
      (f : ℕ → Sector) (s s' : State D) (sector offset size : ℕ) (r : Ended (List ℕ))
      → Transfers disc f (take size (drop offset (f sector))) f s r s'
      → Performs (read_part sector offset size) f s (returned_part r) s'
  unfolding answer effect
  of_part f s s' sector offset size (ok out) (eq, R, same) = (ap (λ bytes. bytes ∷ []) eq, R, same)
  of_part f s s' sector offset size failed h = tt
  of_part f s s' sector offset size fault h = tt
  of_part f s s' sector offset size no_end h = tt

  of_no_part :
      (f : ℕ → Sector) (s s' : State D) (call : Call) (r : Ended (List ℕ))
      → answer call f ≡ []
      → Transfers disc f [] (effect s.cache.bytes_per_sector call f) s r s'
      → Performs call f s (returned_no_part r) s'
  of_no_part f s s' call (ok out) none_of (eq, R, same) = (sym none_of, R, same)
  of_no_part f s s' call failed none_of h = tt
  of_no_part f s s' call fault none_of h = tt
  of_no_part f s s' call no_end none_of h = tt

  perform-Performs :
      (call : Call) (f : ℕ → Sector) (s : State D)
      → Represents disc f s
      → IsInside s.cache.end_of_partition s.cache.bytes_per_sector call
      → Performs call f s (perform io call s).0 (perform io call s).1
  unfolding perform answer effect
  perform-Performs (read is_dma sector n) f s R inside =
      of_read f s _ is_dma sector n _ (cache_read_sectors-Reads disc is_dma f s sector n R inside)
  perform-Performs (write is_dma sector buffer) f s R inside =
      of_write f s _ is_dma sector buffer _
        (cache_write_sectors-Writes disc is_dma f s sector buffer R inside)
  perform-Performs (read_part sector offset size) f s R (below, fits) =
      of_part f s _ sector offset size _ (reads_part disc f s sector offset size R below fits)
  perform-Performs (write_part sector offset buffer) f s R (below, fits) =
      of_no_part f s _ (write_part sector offset buffer) _ refl
        (writes_part disc f s sector offset buffer R below fits)
  perform-Performs (erase_part sector offset buffer) f s R (below, fits) =
      of_no_part f s _ (erase_part sector offset buffer) _ refl
        (erases_part disc f s sector offset buffer R below fits)
  perform-Performs flush f s R inside =
      let (R', same, is_clean) = flush-Flushes disc f s R in by_result (cache_flush io s).0 R' same
    where
      by_result :
          (good : Bool)
          → Represents disc f (cache_flush io s).1
          → SameGeometry s.cache (cache_flush io s).1.cache
          → Performs flush f s (returned_true good) (cache_flush io s).1
      by_result true R' same = (refl, R', same)
      by_result false R' same = tt

  IsInside-same :
      (c c' : Cache) (calls : List Call)
      → SameGeometry c c'
      → All (IsInside c.end_of_partition c.bytes_per_sector) calls
      → All (IsInside c'.end_of_partition c'.bytes_per_sector) calls
  IsInside-same c c' calls same h =
      subst (λ end. All (IsInside end c'.bytes_per_sector) calls) (sym same.same_end)
        (subst (λ bytes. All (IsInside c.end_of_partition bytes) calls) (sym same.same_bytes) h)

-- Over a disc that keeps its contract, a run of calls that succeed and do nothing that C leaves undefined, each
-- about sectors of the partition, on a cache that stands for an array of sectors, returns what the same calls return of the array alone, whatever of
-- it was cached, evicted, flushed or transferred past the cache in between.
pub Run-answers :
    {D : Type 0} {io : DiscInterface D} (disc : IsDisc io) (f : ℕ → Sector) {s s' : State D}
    {calls : List Call} {outs : List (List Sector)}
    → Represents disc f s
    → All (IsInside s.cache.end_of_partition s.cache.bytes_per_sector) calls
    → Run io s calls outs s'
    → outs ≡ answers s.cache.bytes_per_sector calls f
unfolding answers
Run-answers disc f R inside done = refl
Run-answers {D = D} {io = io} disc f {s = s} R inside
      (next {s' = s'} {call = call} {calls = calls} {out = out} {outs = outs} step run) =
    let performed : Performs disc call f s (some out) s' =
      subst (λ r. Performs disc call f s r.0 r.1) step
        (perform-Performs disc call f s R inside.0) in
    let (eq, R', same) = performed in
    let bytes = s.cache.bytes_per_sector in
    ap (λ o. o ∷ outs) eq
    ∙ ap (λ os. answer call f ∷ os)
        (Run-answers disc (effect bytes call f) R'
            (IsInside-same disc s.cache s'.cache calls same inside.1) run
          ∙ ap (λ b. answers b calls (effect bytes call f)) same.same_bytes)
