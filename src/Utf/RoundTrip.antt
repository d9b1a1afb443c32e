-- ===== src/Utf/RoundTrip.antt =====
-- source/unistr.c: ntfs_utf8_to_utf16 on what ntfs_utf16_to_utf8 returns.
use libntfs.Prelude.{ℕ, ◌+◌, ◌<◌, ◌≡◌, ◌∙◌, ap, arith, List, Option, All, length}
use libntfs.Utf.{
  Converted, ok, eilseq, enametoolong, no_end, utf16_to_utf8_size, encode_loop, sized, buffer_size,
  utf16_to_utf8, utf8_to_utf16_size, decode_utf8, utf8_to_utf16,
}
use libntfs.Utf.Points.{bytes_of, concat_map, points, IsUnit}
use libntfs.Utf.Encoded.{encode_loop-points, concat_map-points, points-IsPoint}
use libntfs.Utf.Decoded.{decode_utf8-bytes_of}
use libntfs.Utf.Sizes.{size8_loop-bytes_of}

sized_ok : (size : Converted ℕ) (out bytes : List ℕ) → sized size (ok out) ≡ ok bytes → bytes ≡ out
sized_ok (ok n) out bytes h = cc
sized_ok eilseq out bytes h = absurd (cc)
sized_ok enametoolong out bytes h = absurd (cc)
sized_ok no_end out bytes h = absurd (cc)

-- What ntfs_utf8_to_utf16 makes of the bytes of a string.
decodes :
    (path_max : ℕ) (ins : List ℕ)
    → All IsUnit ins
    → length ins < path_max
    → utf8_to_utf16 path_max (encode_loop 0 ins) ≡ ok ins
unfolding utf8_to_utf16
decodes path_max ins units short =
    let ps = points 0 ins in
    let valid = points-IsPoint ins units in
    let same = concat_map-points ins units in
    let bytes = concat_map bytes_of ps in
    ap (λ t. sized (utf8_to_utf16_size path_max t) (decode_utf8 (length t + 1) t))
      (encode_loop-points ins units)
    ∙ ap (λ size. sized size (decode_utf8 (length bytes + 1) bytes))
        (size8_loop-bytes_of path_max (length bytes) 0 ps valid (omega arith)
          (omega (arith, short, ap length same)))
    ∙ decode_utf8-bytes_of (length bytes + 1) ps valid (omega arith)
    ∙ ap ok same

-- A string of fewer than PATH_MAX 16-bit units with no terminator among them, surrogates paired or not, that
-- ntfs_utf16_to_utf8 converts, into a given buffer or an allocated one, comes back as the same string from
-- ntfs_utf8_to_utf16.
pub utf8_to_utf16-utf16_to_utf8 :
    (path_max : ℕ) (ins bytes : List ℕ) (outs_len : Option ℕ)
    → All IsUnit ins
    → length ins < path_max
    → utf16_to_utf8 path_max ins outs_len ≡ ok bytes
    → utf8_to_utf16 path_max bytes ≡ ok ins
unfolding utf16_to_utf8
utf8_to_utf16-utf16_to_utf8 path_max ins bytes outs_len units short h =
    ap (utf8_to_utf16 path_max)
      (sized_ok (utf16_to_utf8_size ins (buffer_size path_max outs_len)) _ bytes h)
    ∙ decodes path_max ins units short
