-- ===== src/Transport/ChunkSender/Frames.antt =====
-- The frames that `split_into_chunks` writes, as a list, and that its loop ends.
use remote_way.Prelude.{
  ℕ, zero, suc, ◌+◌, ◌-◌, ◌/◌, ◌%◌, ◌^◌, ◌≤◌, ◌<◌, min, bit_or, true, false, List, [], ◌∷◌, ◌++◌,
  none, some, length, take, drop, ltb, leb, ◌==◌, if◌then◌else◌, arith, ◌≡◌, refl, sym, ap, ◌∙◌,
  length-append, length-take, length-drop, drop-length, append_assoc, append-nil, ◌≢◌,
  take-append-drop, take-min, lt→ltb, le→not-ltb,
}
use native.Mathlib.Nat.{div-eq-sub-div, div-eq_of_lt}
use native.Mathlib.Decide.{dec_le}
use remote_way.Proto.Header.{MsgType, FrameHeader, as_bytes, new, last_chunk}
use remote_way.Transport.ChunkSender.{
  chunk_header, chunk_loop, split_into_chunks, chunk_count, slice,
}

abbrev pub Frame : Type 0
Frame = FrameHeader × List ℕ

-- The bytes of frames that follow one another.
unfoldable pub encode_all : List Frame → List ℕ
encode_all [] = []
encode_all ((h, pl) ∷ fs) = as_bytes h ++ (pl ++ encode_all fs)

-- Rounding up, one chunk at a time.
ceil_step : (n c : ℕ) → 0 < c → 0 < n → (n + c - 1) / c ≡ (n - c + c - 1) / c + 1
ceil_step n c hc hn =
    let one : (n + c - 1) / c ≡ (n + c - 1 - c) / c + 1 = div-eq-sub-div hc (omega arith) in
    elim (dec_le c n) [
      | yes p ↦
          let same : n + c - 1 - c ≡ n - c + c - 1 = omega arith in one ∙ ap (λ t. t / c + 1) same
      | no p ↦
          let a : (n + c - 1 - c) / c ≡ 0 = div-eq_of_lt (omega arith) in
          let b : (n - c + c - 1) / c ≡ 0 = div-eq_of_lt (omega arith) in omega arith
    ]

module _ (stream_id : ℕ) (msg_type : MsgType) (extra_flags : ℕ) (timestamp_ns chunk_size : ℕ) where
  -- The header of the next frame when `rest` is still to be sent.
  unfoldable pub piece_header : List ℕ → FrameHeader
  piece_header rest =
      new stream_id msg_type
        (if leb (length rest) chunk_size then bit_or extra_flags last_chunk else extra_flags)
        (length (take chunk_size rest) % 2 ^ 32) timestamp_ns

  unfoldable pub pieces : ℕ → List ℕ → List Frame
  pieces fuel [] = []
  pieces zero (x ∷ xs) = []
  pieces (suc fuel) (x ∷ xs) =
      (piece_header (x ∷ xs), take chunk_size (x ∷ xs)) ∷ pieces fuel (drop chunk_size (x ∷ xs))

  -- The frames of one message.
  unfoldable pub message_frames : List ℕ → List Frame
  message_frames [] =
      (new stream_id msg_type (bit_or extra_flags last_chunk) 0 timestamp_ns, []) ∷ []
  message_frames (x ∷ xs) = pieces (length (x ∷ xs)) (x ∷ xs)

  -- One round, where `pre` has been sent and `rest` has not.
  module _ (pre rest payload : List ℕ) (offset end : ℕ) (whole : payload ≡ pre ++ rest)
      (at : offset ≡ length pre) (stop : end ≡ min (offset + chunk_size) (length payload)) where
    slice_rest : slice payload offset end ≡ take chunk_size rest
    slice_rest =
        let width : end - offset ≡ min chunk_size (length rest) =
          omega (arith, ap length whole, length-append pre rest) in
        rw (whole, drop-length pre rest offset at, width) (take-min chunk_size rest)

    end_rest : end ≡ length (pre ++ take chunk_size rest)
    end_rest = omega (
      arith,
      ap length whole,
      length-append pre rest,
      length-append pre (take chunk_size rest),
      length-take chunk_size rest,
    )

    split_rest : payload ≡ (pre ++ take chunk_size rest) ++ drop chunk_size rest
    split_rest =
        whole
        ∙ ap (◌++◌ pre) (sym (take-append-drop chunk_size rest))
        ∙ sym (append_assoc pre (take chunk_size rest) (drop chunk_size rest))

    header_rest :
        chunk_header stream_id msg_type extra_flags payload timestamp_ns chunk_size offset end
        ≡ piece_header rest
    unfolding chunk_header piece_header
    header_rest =
        let same : (end == length payload) ≡ leb (length rest) chunk_size =
          ground (arith, ap length whole, length-append pre rest) in
        rw (slice_rest, same)

  pub chunk_loop-pieces :
      (fuel g : ℕ) (pre rest dst payload : List ℕ) (offset : ℕ)
      → 0 < chunk_size
      → length rest < fuel
      → length rest ≤ g
      → payload ≡ pre ++ rest
      → offset ≡ length pre
      → chunk_loop stream_id msg_type extra_flags payload timestamp_ns chunk_size fuel offset dst
        ≡ some (dst ++ encode_all (pieces g rest))
  unfolding chunk_loop pieces encode_all
  chunk_loop-pieces zero g pre rest dst payload offset c hf hg e o = absurd (omega arith)
  chunk_loop-pieces (suc fuel) g pre [] dst payload offset c hf hg e o =
      let done : ltb offset (length payload) ≡ false =
        le→not-ltb _ _ (omega (arith, ap length e, length-append pre [])) in
      rw (done, append-nil dst)
  chunk_loop-pieces (suc fuel) zero pre (x ∷ xs) dst payload offset c hf hg e o =
      absurd (omega arith)
  chunk_loop-pieces (suc fuel) (suc g) pre (x ∷ xs) dst payload offset c hf hg e o =
      let rest : List ℕ = x ∷ xs in
      let end = min (offset + chunk_size) (length payload) in
      let more : ltb offset (length payload) ≡ true =
        lt→ltb _ _ (omega (arith, ap length e, length-append pre rest)) in
      rw
        (
          more,
          header_rest pre rest payload offset end e o refl,
          slice_rest pre rest payload offset end e o refl,
        )
        (chunk_loop-pieces fuel g (pre ++ take chunk_size rest) (drop chunk_size rest)
            (dst ++ (as_bytes (piece_header rest) ++ take chunk_size rest)) payload end c
            (omega (arith, length-drop chunk_size rest))
            (omega (arith, length-drop chunk_size rest))
            (split_rest pre rest payload offset end e o refl)
            (end_rest pre rest payload offset end e o refl)
          ∙ ap some (simp append_assoc))

  -- Any fuel above the payload's length is enough when the chunk size is not 0, and what is
  -- written behind `dst` is the frames of the message.
  pub split_into_chunks-frames :
      (fuel : ℕ) (payload dst : List ℕ)
      → 0 < chunk_size
      → length payload < fuel
      → split_into_chunks stream_id msg_type extra_flags payload timestamp_ns chunk_size fuel dst
        ≡ some (dst ++ encode_all (message_frames payload))
  unfolding split_into_chunks message_frames encode_all
  split_into_chunks-frames fuel [] dst c h = simp append-nil
  split_into_chunks-frames fuel (x ∷ xs) dst c h =
      let full : (suc (length xs) == 0) ≡ false = ground arith in
      rw full (
        chunk_loop-pieces fuel (length (x ∷ xs)) [] (x ∷ xs) dst (x ∷ xs) 0 c h (omega arith) refl
          refl)

  length-pieces :
      (fuel : ℕ) (rest : List ℕ)
      → 0 < chunk_size
      → length rest ≤ fuel
      → length (pieces fuel rest) ≡ (length rest + chunk_size - 1) / chunk_size
  unfolding pieces
  length-pieces fuel [] c h = sym (div-eq_of_lt (omega arith))
  length-pieces zero (x ∷ xs) c h = absurd (omega arith)
  length-pieces (suc fuel) (x ∷ xs) c h =
      let rec =
        length-pieces fuel (drop chunk_size (x ∷ xs)) c
          (omega (arith, length-drop chunk_size (x ∷ xs))) in
      omega (
        arith,
        rec,
        rw (length-drop chunk_size (x ∷ xs)) at rec,
        ceil_step (length (x ∷ xs)) chunk_size c (omega arith),
      )

  -- `chunk_count` is the number of frames.
  length-message_frames :
      (payload : List ℕ)
      → 0 < chunk_size
      → length (message_frames payload) ≡ chunk_count (length payload) chunk_size
  unfolding message_frames chunk_count
  length-message_frames [] c = refl
  length-message_frames (x ∷ xs) c =
      ground (arith, length-pieces (length (x ∷ xs)) (x ∷ xs) c (omega arith))

  -- With a chunk size that is not 0 and any fuel above the payload's length, what is written behind
  -- `dst` is the bytes of frames, as many as `chunk_count` says.
  split_into_chunks-chunk_count :
      (fuel : ℕ) (payload dst : List ℕ)
      → 0 < chunk_size
      → length payload < fuel
      → (frames : List Frame) × (split_into_chunks stream_id msg_type extra_flags payload
            timestamp_ns chunk_size fuel dst
          ≡ some (dst ++ encode_all frames))
        × (length frames ≡ chunk_count (length payload) chunk_size)
  split_into_chunks-chunk_count fuel payload dst c h = (
    message_frames payload,
    split_into_chunks-frames fuel payload dst c h,
    length-message_frames payload c,
  )

module _ (stream_id : ℕ) (msg_type : MsgType) (extra_flags timestamp_ns : ℕ) where
  chunk_loop_zero :
      (payload : List ℕ) (fuel : ℕ) (dst : List ℕ)
      → 0 < length payload
      → chunk_loop stream_id msg_type extra_flags payload timestamp_ns 0 fuel 0 dst ≡ none
  unfolding chunk_loop
  chunk_loop_zero payload zero dst h = refl
  chunk_loop_zero payload (suc fuel) dst h =
      let more : ltb 0 (length payload) ≡ true = lt→ltb _ _ h in
      let stay : min 0 (length payload) ≡ 0 = omega arith in
      rw (more, stay) (chunk_loop_zero payload fuel _ h)

  -- With a chunk size of 0 and a payload that is not empty, no fuel is enough: the loop of the
  -- source runs for ever.
  pub split_into_chunks_zero :
      (payload : List ℕ) (fuel : ℕ) (dst : List ℕ)
      → payload ≢ []
      → split_into_chunks stream_id msg_type extra_flags payload timestamp_ns 0 fuel dst ≡ none
  unfolding split_into_chunks
  split_into_chunks_zero [] fuel dst h = absurd (h refl)
  split_into_chunks_zero (x ∷ xs) fuel dst h =
      let full : (suc (length xs) == 0) ≡ false = ground arith in
      rw full (chunk_loop_zero (x ∷ xs) fuel dst (omega arith))
