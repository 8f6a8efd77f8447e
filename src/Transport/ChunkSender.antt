-- ===== src/Transport/ChunkSender.antt =====
-- crates/remoteway-transport/src/chunk_sender.rs: a payload is cut into frames of one message.
pub mod Frames
use remote_way.Prelude.{
  ℕ, zero, suc, ◌+◌, ◌-◌, ◌/◌, ◌%◌, ◌^◌, min, bit_or, Bool, true, false, ◌||◌, List, [], ◌∷◌, ◌++◌,
  Option, none, some, length, take, drop, ltb, ◌==◌, if◌then◌else◌,
}
use remote_way.Proto.Header.{MsgType, FrameHeader, as_bytes, new, last_chunk}

-- The bytes from `from` up to `to`.
abbrev slice : List ℕ → ℕ → ℕ → List ℕ
slice bytes from to = take (to - from) (drop from bytes)

module _ (stream_id : ℕ) (msg_type : MsgType) (extra_flags : ℕ) (payload : List ℕ)
    (timestamp_ns chunk_size : ℕ) where
  -- One frame of the loop, from `offset` up to `end`: `len as u32` keeps 32 bits.
  unfoldable pub chunk_header : ℕ → ℕ → FrameHeader
  chunk_header offset end =
      new stream_id msg_type
        (if end == length payload then bit_or extra_flags last_chunk else extra_flags)
        (length (slice payload offset end) % 2 ^ 32) timestamp_ns

  -- `while offset < payload.len()`. `none` means that the fuel ran out in the loop.
  unfoldable pub chunk_loop : ℕ → ℕ → List ℕ → Option (List ℕ)
  unfolding chunk_header
  chunk_loop zero offset dst = none
  chunk_loop (suc fuel) offset dst =
      let end = min (offset + chunk_size) (length payload) in
      let rest =
        chunk_loop fuel end
          (dst ++ (as_bytes (chunk_header offset end) ++ slice payload offset end)) in
      if ltb offset (length payload) then rest else some dst

  -- With a chunk size of 0 the loop of the source does not end.
  unfoldable pub split_into_chunks : ℕ → List ℕ → Option (List ℕ)
  split_into_chunks fuel dst =
      if length payload == 0
      then some
          (dst ++ as_bytes (new stream_id msg_type (bit_or extra_flags last_chunk) 0 timestamp_ns))
      else chunk_loop fuel 0 dst

unfoldable pub chunk_count : ℕ → ℕ → ℕ
chunk_count payload_len chunk_size =
    if payload_len == 0 || chunk_size == 0 then 1 else (payload_len + chunk_size - 1) / chunk_size
