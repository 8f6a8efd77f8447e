-- ===== src/Transport/RoundTrip.antt =====
-- What `split_into_chunks` writes, the parser puts together again.
use remote_way.Prelude.{
  ℕ, zero, suc, ◌%◌, ◌≤◌, ◌<◌, ◌^◌, bit_and, bit_or, true, false, List, [], ◌∷◌, ◌++◌, none, some,
  length, take, drop, leb, ◌≡◌, refl, arith, length-take, length-drop, take_all, drop_all,
  take-append-drop, append_assoc, ◌≢◌, ◌∙◌, ap, All,
}
use remote_way.Prelude.Bits.{bit_and-pow, test_bit-bit_or, bit_or-lt}
use remote_way.Prelude.Table.{
  Table, find, contains_key, insert, find-insert, insert-insert, remove-insert_absent,
}
use native.Mathlib.Decide.{dec_le}
use remote_way.Proto.Wire.{IsU8, IsU16, IsU64}
use remote_way.Proto.Header.{
  FrameHeader, MsgType, TryMsgType, to_u8, try_from, new, decode_msg_type, last_chunk,
}
use remote_way.Transport.ChunkSender.{split_into_chunks}
use remote_way.Transport.ChunkSender.Frames.{
  encode_all, piece_header, pieces, message_frames, split_into_chunks-frames,
}
use remote_way.Transport.Multiplexer.{
  IncomingMessage, PushResult, push, reassemble, extend_entry, is_last, max_payload_len,
}
use remote_way.Transport.Multiplexer.Deliver.{deliver, IsFrame, push-encode_all}

pub try_from-to_u8 : (t : MsgType) → try_from (to_u8 t) ≡ TryMsgType.ok t
unfolding try_from to_u8
try_from-to_u8 MsgType.frame_update = refl
try_from-to_u8 t = refl

to_u8-IsU8 : (t : MsgType) → IsU8 (to_u8 t)
unfolding to_u8
to_u8-IsU8 MsgType.frame_update = omega arith
to_u8-IsU8 t = omega arith

-- What a sender may pass: the flags leave the last-chunk bit to the loop.
pub record Sends (stream_id extra_flags timestamp_ns chunk_size : ℕ) : Type 0 where
  pub stream_fits : IsU16 stream_id
  pub flags_fit : IsU8 extra_flags
  pub unmarked : bit_and extra_flags last_chunk ≡ 0
  pub time_fits : IsU64 timestamp_ns
  pub some_bytes : 0 < chunk_size
  pub not_too_large : chunk_size ≤ max_payload_len

marked : (f : ℕ) → bit_and (bit_or f last_chunk) last_chunk ≢ 0
marked f e = omega (arith, bit_and-pow 1 (bit_or f 2), test_bit-bit_or 1 f 2)

module _ (stream_id : ℕ) (msg_type : MsgType) (extra_flags timestamp_ns chunk_size : ℕ)
    (s : Sends stream_id extra_flags timestamp_ns chunk_size) where
  new-IsFrame :
      (flags len : ℕ) (pl : List ℕ)
      → IsU8 flags
      → len ≡ length pl
      → length pl ≤ max_payload_len
      → IsFrame (new stream_id msg_type flags len timestamp_ns, pl)
  unfolding new decode_msg_type
  new-IsFrame flags len pl f e small = record {
    fits = record {
      stream_id_fits = s.stream_fits;
      msg_type_fits = to_u8-IsU8 msg_type;
      flags_fits = f;
      payload_len_fits = omega arith;
      timestamp_ns_fits = s.time_fits;
    };
    known = (msg_type, try_from-to_u8 msg_type);
    len = e;
    small = small;
  }

  abbrev last_header : ℕ → FrameHeader
  last_header n = new stream_id msg_type (bit_or extra_flags last_chunk) n timestamp_ns

  abbrev inner_header : ℕ → FrameHeader
  inner_header n = new stream_id msg_type extra_flags n timestamp_ns

  abbrev message : ℕ → List ℕ → IncomingMessage
  message n payload = record { header = last_header n; payload = payload }

  last_alone :
      (n : ℕ) (pl : List ℕ) (t : Table (List ℕ))
      → find stream_id t ≡ none
      → n ≡ length pl
      → reassemble t (last_header n) pl ≡ (t, some (message n pl))
  unfolding reassemble is_last new contains_key
  last_alone n pl t absent e = ground (arith, marked extra_flags)

  last_joined :
      (n : ℕ) (pl acc : List ℕ) (t : Table (List ℕ))
      → find stream_id t ≡ none
      → reassemble (insert stream_id acc t) (last_header n) pl ≡ (t, some (message n (acc ++ pl)))
  unfolding reassemble is_last new contains_key extend_entry
  last_joined n pl acc t absent = ground (
    arith,
    marked extra_flags,
    find-insert stream_id stream_id acc t,
    insert-insert stream_id acc (acc ++ pl) t,
    find-insert stream_id stream_id (acc ++ pl) t,
    remove-insert_absent stream_id (acc ++ pl) t,
  )

  inner_first :
      (n : ℕ) (pl : List ℕ) (t : Table (List ℕ))
      → find stream_id t ≡ none
      → reassemble t (inner_header n) pl ≡ (insert stream_id pl t, none)
  unfolding reassemble is_last new contains_key extend_entry
  inner_first n pl t absent = ground (arith, s.unmarked)

  inner_joined :
      (n : ℕ) (pl acc : List ℕ) (t : Table (List ℕ))
      → reassemble (insert stream_id acc t) (inner_header n) pl
        ≡ (insert stream_id (acc ++ pl) t, none)
  unfolding reassemble is_last new contains_key extend_entry
  inner_joined n pl acc t = ground (
    arith,
    s.unmarked,
    find-insert stream_id stream_id acc t,
    insert-insert stream_id acc (acc ++ pl) t,
  )

  piece_last :
      (rest : List ℕ)
      → length rest ≤ chunk_size
      → piece_header stream_id msg_type extra_flags timestamp_ns chunk_size rest
        ≡ last_header (length rest)
  unfolding piece_header
  piece_last rest h =
      let whole : take chunk_size rest ≡ rest = take_all rest chunk_size h in
      let fits : length rest % 2 ^ 32 ≡ length rest = omega (arith, s.not_too_large) in
      let test : leb (length rest) chunk_size ≡ true = ground arith in rw (whole, fits, test)

  piece_inner :
      (rest : List ℕ)
      → chunk_size < length rest
      → piece_header stream_id msg_type extra_flags timestamp_ns chunk_size rest
        ≡ inner_header chunk_size
  unfolding piece_header
  piece_inner rest h =
      let fits : length (take chunk_size rest) % 2 ^ 32 ≡ chunk_size =
        omega (arith, s.not_too_large, length-take chunk_size rest) in
      let test : leb (length rest) chunk_size ≡ false = ground arith in rw (fits, test)

  -- The rest of a message whose first chunks are in the table.
  deliver-pieces :
      (g : ℕ) (rest acc : List ℕ) (t : Table (List ℕ))
      → find stream_id t ≡ none
      → 0 < length rest
      → length rest ≤ g
      → (n : ℕ) × (n ≤ chunk_size)
        × (deliver
              (insert stream_id acc t)
              (pieces stream_id msg_type extra_flags timestamp_ns chunk_size g rest)
            ≡ (t, message n (acc ++ rest) ∷ []))
  unfolding deliver pieces
  deliver-pieces g [] acc t absent pos hg = absurd (omega arith)
  deliver-pieces zero (x ∷ xs) acc t absent pos hg = absurd (omega arith)
  deliver-pieces (suc g) (x ∷ xs) acc t absent pos hg =
      let rest : List ℕ = x ∷ xs in
      elim (dec_le (length rest) chunk_size) [
        | yes short ↦ (
          length rest,
          short,
          rw (
            piece_last rest short,
            take_all rest chunk_size short,
            drop_all rest chunk_size short,
            last_joined (length rest) rest acc t absent,
          ),
        )
        | no long ↦
            let wide : chunk_size < length rest = omega arith in
            let (n, small, rec) =
              deliver-pieces g (drop chunk_size rest) (acc ++ take chunk_size rest) t absent
                (omega (arith, length-drop chunk_size rest))
                (omega (arith, length-drop chunk_size rest, s.some_bytes)) in
            (
              n,
              small,
              rw (piece_inner rest wide, inner_joined chunk_size (take chunk_size rest) acc t, rec)
                  (ap (λ p. (t, message n p ∷ []))
                    (append_assoc acc (take chunk_size rest) (drop chunk_size rest)
                      ∙ ap (◌++◌ acc) (take-append-drop chunk_size rest))),
            )
      ]

  -- The frames of a message, when nothing of its stream is in the table.
  deliver-message_frames :
      (payload : List ℕ) (t : Table (List ℕ))
      → find stream_id t ≡ none
      → (n : ℕ) × (n ≤ chunk_size)
        × (deliver t (message_frames stream_id msg_type extra_flags timestamp_ns chunk_size payload)
            ≡ (t, message n payload ∷ []))
  unfolding deliver message_frames pieces
  deliver-message_frames [] t absent = (0, omega arith, rw (last_alone 0 [] t absent refl))
  deliver-message_frames (x ∷ xs) t absent =
      let rest : List ℕ = x ∷ xs in
      elim (dec_le (length rest) chunk_size) [
        | yes short ↦ (
          length rest,
          short,
          rw (
            piece_last rest short,
            take_all rest chunk_size short,
            drop_all rest chunk_size short,
            last_alone (length rest) rest t absent refl,
          ),
        )
        | no long ↦
            let wide : chunk_size < length rest = omega arith in
            let (n, small, rec) =
              deliver-pieces (length xs) (drop chunk_size rest) (take chunk_size rest) t absent
                (omega (arith, length-drop chunk_size rest))
                (omega (arith, length-drop chunk_size rest, s.some_bytes)) in
            (
              n,
              small,
              rw
                  (
                    piece_inner rest wide,
                    inner_first chunk_size (take chunk_size rest) t absent,
                    rec,
                  )
                  (ap (λ p. (t, message n p ∷ [])) (take-append-drop chunk_size rest)),
            )
      ]

  pieces-IsFrame :
      (g : ℕ) (rest : List ℕ)
      → All IsFrame (pieces stream_id msg_type extra_flags timestamp_ns chunk_size g rest)
  unfolding pieces
  pieces-IsFrame g [] = tt
  pieces-IsFrame zero (x ∷ xs) = tt
  pieces-IsFrame (suc g) (x ∷ xs) =
      let rest : List ℕ = x ∷ xs in
      let tail = pieces-IsFrame g (drop chunk_size rest) in
      let len = length-take chunk_size rest in
      elim (dec_le (length rest) chunk_size) [
        | yes short ↦ (
          rw (piece_last rest short) (
              new-IsFrame (bit_or extra_flags last_chunk) (length rest) (take chunk_size rest)
                (bit_or-lt 8 extra_flags last_chunk s.flags_fit (omega arith)) (omega (arith, len))
                (omega (arith, len, s.not_too_large))),
          tail,
        )
        | no long ↦ (
          rw (piece_inner rest (omega arith)) (
              new-IsFrame extra_flags chunk_size (take chunk_size rest) s.flags_fit
                (omega (arith, len)) (omega (arith, len, s.not_too_large))),
          tail,
        )
      ]

  message_frames-IsFrame :
      (payload : List ℕ)
      → All IsFrame (message_frames stream_id msg_type extra_flags timestamp_ns chunk_size payload)
  unfolding message_frames
  message_frames-IsFrame [] = (
    new-IsFrame (bit_or extra_flags last_chunk) 0 []
        (bit_or-lt 8 extra_flags last_chunk s.flags_fit (omega arith)) refl (omega arith),
    tt,
  )
  message_frames-IsFrame (x ∷ xs) = pieces-IsFrame (length (x ∷ xs)) (x ∷ xs)

  -- With any fuel above the payload's length `split_into_chunks` returns, and the parser gives back
  -- the message from one call with the bytes written: one message with the whole payload, under the
  -- header of the last chunk, and the parser is left as it was. The parser's buffer is empty, no
  -- unfinished message of the stream is in its table, and the sender's arguments satisfy `Sends`.
  pub push-split_into_chunks :
      (payload : List ℕ) (fuel : ℕ) (t : Table (List ℕ))
      → find stream_id t ≡ none
      → length payload < fuel
      → (bytes : List ℕ) × (n : ℕ) × (split_into_chunks stream_id msg_type extra_flags payload
            timestamp_ns chunk_size fuel []
          ≡ some bytes)
        × (n ≤ chunk_size)
        × (push (record { buf = []; chunks = t }) bytes ≡ (
          record { buf = []; chunks = t },
          PushResult.ok (
              record {
                header = new stream_id msg_type (bit_or extra_flags last_chunk) n timestamp_ns;
                payload = payload;
              }
              ∷ []),
        ))
  push-split_into_chunks payload fuel t absent enough =
      let frames = message_frames stream_id msg_type extra_flags timestamp_ns chunk_size payload in
      let written =
        split_into_chunks-frames stream_id msg_type extra_flags timestamp_ns chunk_size fuel payload
          [] s.some_bytes enough in
      let (n, small, delivered) = deliver-message_frames payload t absent in
      (
        encode_all frames,
        n,
        written,
        small,
        rw (push-encode_all frames t (message_frames-IsFrame payload), delivered),
      )
