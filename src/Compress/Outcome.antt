-- ===== src/Compress/Outcome.antt =====
-- source/compress.c: how ntfs_decompress ends.
use libntfs.Prelude.{
  ℕ, zero, suc, ◌+◌, ◌-◌, ◌/◌, ◌%◌, ◌^◌, ◌≤◌, ◌<◌, ◌≡◌, refl, ◌∙◌, ap, arith, List, [], ◌∷◌, ◌++◌,
  Option, none, some, false, ◌||◌, length, length-append, length-replicate, length-take, get_elem?,
  take, drop, replicate, ltb, leb, ◌==◌, eq_of_test, if◌then◌else◌,
}
use libntfs.Compress.{
  Decompressed, ok, overflow, fault, no_end, and_then, ntfs_sb_size, Progress, le16_at, log2_loop,
  copy_back, symbol, phrase_of, phrase, tokens, next_tag, completed, sub_block, next_sb, decompress,
}
use libntfs.Compress.Ends.{Ends, and_then-Ends, le16_at-Ends, length-copy_back, if-Ends, or_false}

module _ (cbs : List ℕ) (dest_size : ℕ) where
  -- Progress from a position on, within the destination.
  abbrev Advances : ℕ → Progress → Type 0
  Advances cb r = (cb ≤ r.0) × (length r.1 ≤ dest_size)

  symbol-Ends : (cb : ℕ) (out : List ℕ) → Ends (Advances (cb + 1)) (symbol cbs dest_size cb out)
  unfolding symbol
  symbol-Ends cb out = by_byte (get_elem? cbs cb)
    where
      by_byte :
          (o : Option ℕ)
          → Ends (Advances (cb + 1)) (elim o [
            | none ↦ fault
            | some byte ↦
                if leb dest_size (length out) then fault else ok (cb + 1, out ++ (byte ∷ []))
          ])
      by_byte none = tt
      by_byte (some byte) =
          if-Ends (Advances (cb + 1)) (leb dest_size (length out)) fault
            (ok (cb + 1, out ++ (byte ∷ []))) (λ h. tt)
            (λ h. (omega arith, ground (arith, h, length-append out (byte ∷ []))))

  module _ (start : ℕ) (room : start + ntfs_sb_size ≤ dest_size) where
    phrase-Ends :
        (cb : ℕ) (out : List ℕ) → Ends (Advances (cb + 1)) (phrase cbs dest_size start cb out)
    unfolding phrase phrase_of
    phrase-Ends cb out =
        if-Ends (Advances (cb + 1)) (length out == start) overflow _ (λ h. tt)
          (λ h.
            and_then-Ends (λ n. Unit) (Advances (cb + 1)) (le16_at cbs cb)
              (phrase_of cbs dest_size start cb out) (le16_at-Ends cbs cb)
              (λ pt u.
                let lg = log2_loop 16 (length out - start - 1) in
                let back = pt / 2 ^ (12 - lg) + 1 in
                let len = pt % 2 ^ (12 - lg) + 3 in
                if-Ends (Advances (cb + 1))
                  (ltb (length out) (start + back) || ltb (start + ntfs_sb_size) (length out + len))
                  overflow (ok (cb + 2, copy_back len (length out - back) out)) (λ h. tt)
                  (λ h. (
                    omega arith,
                    fits (length out) len (copy_back len (length out - back) out)
                        (or_false (ltb (length out) (start + back)) _ h).1
                        (length-copy_back len (length out - back) out),
                  ))))
      where
        fits :
            (n len : ℕ) (out' : List ℕ)
            → ltb (start + ntfs_sb_size) (n + len) ≡ false
            → length out' ≡ n + len
            → length out' ≤ dest_size
        fits n len out' h e = ground (arith, h, e, room)

    tokens-Ends :
        (cb_sb_end left tag cb : ℕ) (out : List ℕ)
        → length out ≤ dest_size
        → Ends (Advances cb) (tokens cbs dest_size start cb_sb_end left tag cb out)
    unfolding tokens
    tokens-Ends cb_sb_end zero tag cb out h = (omega arith, h)
    tokens-Ends cb_sb_end (suc left) tag cb out h =
        if-Ends (Advances cb) (leb cb_sb_end cb || ltb (start + ntfs_sb_size) (length out))
          (ok (cb, out)) _ (λ stop. (omega arith, h))
          (λ go.
            and_then-Ends (Advances (cb + 1)) (Advances cb)
              (if tag % 2 == 0
                then symbol cbs dest_size cb out
                else phrase cbs dest_size start cb out)
              (λ r. tokens cbs dest_size start cb_sb_end left (tag / 2) r.0 r.1)
              (if-Ends (Advances (cb + 1)) (tag % 2 == 0) (symbol cbs dest_size cb out)
                (phrase cbs dest_size start cb out) (λ e. symbol-Ends cb out)
                (λ e. phrase-Ends cb out))
              (λ r adv.
                later cb r (tokens cbs dest_size start cb_sb_end left (tag / 2) r.0 r.1) adv
                  (tokens-Ends cb_sb_end left (tag / 2) r.0 r.1 adv.1)))
      where
        later :
            (cb : ℕ) (r : Progress) (m : Decompressed Progress)
            → Advances (cb + 1) r
            → Ends (Advances r.0) m
            → Ends (Advances cb) m
        later cb r (ok r') adv h = (omega (arith, adv.0, h.0), h.1)
        later cb r overflow adv h = tt
        later cb r fault adv h = tt
        later cb r no_end adv h = h

    -- The sub-block ends at its end.
    abbrev EndsAt : ℕ → Progress → Type 0
    EndsAt cb_sb_end r = (r.0 ≡ cb_sb_end) × (length r.1 ≤ dest_size)

    next_tag-Ends :
        (cb_sb_end fuel cb : ℕ) (out : List ℕ)
        → cb_sb_end - cb < fuel
        → length out ≤ dest_size
        → Ends (EndsAt cb_sb_end) (next_tag cbs dest_size start cb_sb_end fuel cb out)
    unfolding next_tag
    next_tag-Ends cb_sb_end zero cb out enough h = absurd (omega (arith, enough))
    next_tag-Ends cb_sb_end (suc fuel) cb out enough h =
        if-Ends (EndsAt cb_sb_end) (cb == cb_sb_end)
          (ok (cb, out ++ replicate (start + ntfs_sb_size - length out) 0)) _
          (λ e. (
            eq_of_test cb cb_sb_end e,
            padded (start + ntfs_sb_size - length out) (length out) _
                (length-append out (replicate (start + ntfs_sb_size - length out) 0)
                  ∙ ap (λ n. length out + n)
                      (length-replicate (start + ntfs_sb_size - length out) 0))
                refl h,
          ))
          (λ ne.
            if-Ends (EndsAt cb_sb_end) (ltb cb_sb_end cb || ltb (start + ntfs_sb_size) (length out))
              overflow _ (λ stop. tt)
              (λ go.
                by_tag (get_elem? cbs cb)
                  (before cb_sb_end cb ne (or_false (ltb cb_sb_end cb) _ go).0)
                  (λ cb' out' enough' h'. next_tag-Ends cb_sb_end fuel cb' out' enough' h')))
      where
        padded :
            (n old new : ℕ)
            → new ≡ old + n
            → n ≡ start + ntfs_sb_size - old
            → old ≤ dest_size
            → new ≤ dest_size
        padded n old new e k h = omega (arith, e, k, h, room)

        before :
            (cb_sb_end cb : ℕ)
            → (cb == cb_sb_end) ≡ false
            → ltb cb_sb_end cb ≡ false
            → cb < cb_sb_end
        before cb_sb_end cb ne go = ground (arith, ne, go)

        by_tag :
            (o : Option ℕ)
            → cb < cb_sb_end
            → ((cb' : ℕ) (out' : List ℕ)
                → cb_sb_end - cb' < fuel
                → length out' ≤ dest_size
                → Ends (EndsAt cb_sb_end) (next_tag cbs dest_size start cb_sb_end fuel cb' out'))
            → Ends (EndsAt cb_sb_end) (elim o [
              | none ↦ fault
              | some tag ↦
                  and_then
                    (tokens cbs dest_size start cb_sb_end 8 tag (cb + 1) out)
                    (λ r. next_tag cbs dest_size start cb_sb_end fuel r.0 r.1)
            ])
        by_tag none low rest = tt
        by_tag (some tag) low rest =
            and_then-Ends (Advances (cb + 1)) (EndsAt cb_sb_end)
              (tokens cbs dest_size start cb_sb_end 8 tag (cb + 1) out)
              (λ r. next_tag cbs dest_size start cb_sb_end fuel r.0 r.1)
              (tokens-Ends cb_sb_end 8 tag (cb + 1) out h)
              (λ r adv. rest r.0 r.1 (omega (arith, adv.0, low, enough)) adv.1)

  -- A sub-block lies in the compression block.
  abbrev Passes : ℕ → Progress → Type 0
  Passes cb r = (cb < r.0) × (r.0 ≤ length cbs) × (length r.1 ≤ dest_size)

  at_end :
      (cb cb_sb_end : ℕ) (m : Decompressed Progress)
      → cb < cb_sb_end
      → cb_sb_end ≤ length cbs
      → Ends (λ r. (r.0 ≡ cb_sb_end) × (length r.1 ≤ dest_size)) m
      → Ends (Passes cb) m
  at_end cb cb_sb_end (ok r) low high h = (omega (arith, low, h.0), omega (arith, high, h.0), h.1)
  at_end cb cb_sb_end overflow low high h = tt
  at_end cb cb_sb_end fault low high h = tt
  at_end cb cb_sb_end no_end low high h = h

  sub_block-Ends :
      (cb : ℕ) (out : List ℕ) (header : ℕ)
      → length out ≤ dest_size
      → Ends (Passes cb) (sub_block cbs dest_size cb out header)
  unfolding sub_block
  sub_block-Ends cb out header h =
      let cb_sb_end = cb + header % 0x1000 + 3 in
      if-Ends (Passes cb)
        (ltb dest_size (length out + ntfs_sb_size)
          || ltb (length cbs) (cb + 6)
          || ltb (length cbs) cb_sb_end)
        overflow _ (λ stop. tt)
        (λ go.
          let (first, c) =
            or_false (ltb dest_size (length out + ntfs_sb_size) || ltb (length cbs) (cb + 6))
              (ltb (length cbs) cb_sb_end) go in
          let (a, b) =
            or_false (ltb dest_size (length out + ntfs_sb_size)) (ltb (length cbs) (cb + 6))
              first in
          let room = not_less dest_size (length out + ntfs_sb_size) a in
          let inside = not_less (length cbs) cb_sb_end c in
          if-Ends (Passes cb) (header / 0x8000 % 2 == 1)
            (next_tag cbs dest_size (length out) cb_sb_end (length cbs + 1) (cb + 2) out) _
            (λ e. at_end cb cb_sb_end _ (omega arith) inside (
              next_tag-Ends (length out) room cb_sb_end (length cbs + 1) (cb + 2) out
                (omega (arith, inside)) h))
            (λ e.
              if-Ends (Passes cb) (cb_sb_end - (cb + 2) == ntfs_sb_size)
                (ok (cb + 2 + ntfs_sb_size, out ++ take ntfs_sb_size (drop (cb + 2) cbs))) overflow
                (λ full.
                  let whole = eq_of_test (cb_sb_end - (cb + 2)) ntfs_sb_size full in
                  (
                    omega arith,
                    omega (arith, whole, inside),
                    omega (
                      arith,
                      room,
                      length-append out (take ntfs_sb_size (drop (cb + 2) cbs)),
                      length-take ntfs_sb_size (drop (cb + 2) cbs),
                    ),
                  ))
                (λ other. tt)))
    where
      not_less : (a b : ℕ) → ltb a b ≡ false → b ≤ a
      not_less a b h = ground (arith, h)

  -- The whole destination is written.
  abbrev IsFull : List ℕ → Type 0
  IsFull out = length out ≡ dest_size

  completed-IsFull :
      (out : List ℕ) → length out ≤ dest_size → Ends IsFull (completed cbs dest_size out)
  completed-IsFull out h = omega (
    arith,
    h,
    length-append out (replicate (dest_size - length out) 0),
    length-replicate {A = ℕ} (dest_size - length out) 0,
  )

  next_sb-Ends :
      (fuel cb : ℕ) (out : List ℕ)
      → length cbs - cb < fuel
      → cb ≤ length cbs
      → length out ≤ dest_size
      → Ends IsFull (next_sb cbs dest_size fuel cb out)
  unfolding next_sb
  next_sb-Ends zero cb out enough low h = absurd (omega (arith, enough))
  next_sb-Ends (suc fuel) cb out enough low h =
      if-Ends IsFull (cb == length cbs) (completed cbs dest_size out) _
        (λ e. completed-IsFull out h)
        (λ ne.
          and_then-Ends (λ n. Unit) IsFull (le16_at cbs cb) _ (le16_at-Ends cbs cb)
            (λ header u.
              if-Ends IsFull (header == 0 || (length out == dest_size))
                (completed cbs dest_size out) _ (λ e. completed-IsFull out h)
                (λ go.
                  and_then-Ends (Passes cb) IsFull (sub_block cbs dest_size cb out header)
                    (λ r. next_sb cbs dest_size fuel r.0 r.1) (sub_block-Ends cb out header h)
                    (λ r passes.
                      next_sb-Ends fuel r.0 r.1 (omega (arith, passes.0, passes.1, enough)) passes.1
                        passes.2))))

-- For every compression block and every size of the destination, ntfs_decompress ends; if it succeeds, it has
-- written as many bytes as the destination has. Else it reports an overflow, or has reached outside a buffer.
pub decompress-Ends :
    (cbs : List ℕ) (dest_size : ℕ) → Ends (λ out. length out ≡ dest_size) (decompress cbs dest_size)
unfolding decompress
decompress-Ends cbs dest_size =
    next_sb-Ends cbs dest_size (length cbs + 1) 0 [] (omega arith) (omega arith) (omega arith)
