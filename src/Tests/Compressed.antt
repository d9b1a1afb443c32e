-- ===== src/Tests/Compressed.antt =====
-- source/compress.c: a compression block of three symbols and a phrase.
use libntfs.Prelude.{ℕ, ◌≡◌, refl, List, [], ◌∷◌, length}
use libntfs.Compress.{
  ok, overflow, fault, and_then, le16_at, log2_loop, copy_back, symbol, phrase_of, phrase, tokens,
  decompress,
}
use libntfs.Compress.Ends.{Ends}
use libntfs.Compress.Outcome.{decompress-Ends}

-- The header, the tag, a, b, c, and six bytes from three before.
abbrev block : List ℕ
block = 0x05 ∷ 0x80 ∷ 0x08 ∷ 97 ∷ 98 ∷ 99 ∷ 0x03 ∷ 0x20 ∷ []

repeats :
    tokens block 4096 0 8 8 0x08 3 [] ≡ ok (8, 97 ∷ 98 ∷ 99 ∷ 97 ∷ 98 ∷ 99 ∷ 97 ∷ 98 ∷ 99 ∷ [])
unfolding tokens and_then symbol phrase phrase_of le16_at log2_loop copy_back
repeats = refl

-- A phrase that reaches back before the sub-block.
too_far : tokens block 4096 0 8 8 0x01 6 (97 ∷ 98 ∷ []) ≡ overflow
unfolding tokens and_then symbol phrase phrase_of le16_at log2_loop copy_back
too_far = refl

-- A symbol where the destination is full.
behind_destination : symbol block 2 3 (97 ∷ 98 ∷ []) ≡ fault
unfolding symbol
behind_destination = refl

decompress-Ends_example : Ends (λ out. length out ≡ 4096) (decompress block 4096)
decompress-Ends_example = decompress-Ends block 4096
