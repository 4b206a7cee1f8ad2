-- ===== src/Network/Channel/Frames.antt =====
-- The layout of a frame: four bytes for the header's length, the header, the rest.
use mathlib.Core.List.{append_assoc}
use real_layer.Base.Bytes.{
  Bytes, to_be_bytes, from_be_bytes, length-to_be_bytes, from_be_bytes-to_be_bytes,
}
use real_layer.Base.{
  ◌+◌, ◌%◌, ◌<◌, ◌≡◌, sym, ◌∙◌, ◌++◌, arith, length, take, drop, length-append, take-append,
  drop-append,
}
use real_layer.Network.Channel.Sending.{frame_of, u32_limit}

module _ (header ciphertext : Bytes) where
  prefix : Bytes
  prefix = to_be_bytes 4 (length header % u32_limit)

  length-prefix : 4 ≡ length prefix
  unfolding prefix
  length-prefix = sym (length-to_be_bytes 4 (length header % u32_limit))

  pub length-frame_of : length (frame_of header ciphertext) ≡ 4 + length header + length ciphertext
  unfolding prefix
  length-frame_of = omega (
    arith,
    length-append prefix (header ++ ciphertext),
    length-append header ciphertext,
    length-prefix,
  )

  pub frame_of-length :
      length header < u32_limit
      → from_be_bytes (take 4 (frame_of header ciphertext)) ≡ length header
  unfolding prefix
  frame_of-length small =
      rw (take-append 4 prefix (header ++ ciphertext) length-prefix)
        (from_be_bytes-to_be_bytes 4 (length header % u32_limit) (omega arith) ∙ omega arith)

  pub frame_of-header : take (length header) (drop 4 (frame_of header ciphertext)) ≡ header
  unfolding prefix
  frame_of-header =
      rw (drop-append 4 prefix (header ++ ciphertext) length-prefix)
        (take-append (length header) header ciphertext (omega arith))

  pub frame_of-ciphertext : drop (4 + length header) (frame_of header ciphertext) ≡ ciphertext
  unfolding prefix
  frame_of-ciphertext = rw (← append_assoc prefix header ciphertext) (
      drop-append (4 + length header) (prefix ++ header) ciphertext
        (omega (arith, length-append prefix header, length-prefix)))
