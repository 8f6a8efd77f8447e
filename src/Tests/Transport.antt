-- ===== src/Tests/Transport.antt =====
-- Headers, chunks, the parser and flow control at concrete inputs.
use remote_way.Prelude.{
  ℕ, ◌≡◌, ◌<◌, ◌≤◌, ◌+◌, ◌-◌, ◌++◌, refl, List, [], ◌∷◌, none, some, length, true, false, All,
  arith, bit_or, ap,
}
use remote_way.Prelude.Table.{find, contains_key, insert, remove}
use remote_way.Proto.Wire.{IsU8, from_le}
use remote_way.Proto.Header.{
  FrameHeader, Fits, as_bytes, ref_from_bytes, MsgType, ProtoError, unknown_msg_type, input_event,
  cursor_move, last_chunk, compressed, new,
}
use remote_way.Proto.Header
use remote_way.Proto.Header.RoundTrip.{ref_from_bytes-as_bytes}
use remote_way.Transport.ChunkSender.{split_into_chunks}
use remote_way.Transport.ChunkSender.Frames.{Frame, split_into_chunks_zero}
use remote_way.Transport.Multiplexer
use remote_way.Transport.Multiplexer.{
  StreamParser, PushResult, ok, err, stuck, IncomingMessage, MultiplexerError, unknown_type, push,
  new_parser, max_payload_len,
}
use remote_way.Transport.Multiplexer.Loop.{prepend}
use remote_way.Transport.Multiplexer.Fragments.{push-append, push_poisoned}
use remote_way.Transport.Multiplexer.Deliver.{deliver, IsFrame}
use remote_way.Transport.Multiplexer.Streams.{frames_of, messages_of, deliver-frames_of}
use remote_way.Transport.Multiplexer.{is_last}
use remote_way.Transport.RoundTrip.{Sends, push-split_into_chunks}
use remote_way.Transport.FlowControl.{
  FlowController, Call, asks, acks, step, should_send, on_sent, run, usize_mod,
}
use remote_way.Transport.FlowControl.Bounds.{anchor_bytes, accepted, Paced, run-pending_bound}

abbrev header : FrameHeader
header = record { stream_id = 258; msg_type = 2; flags = 2; payload_len = 3; timestamp_ns = 70000 }

abbrev header_bytes : List ℕ
header_bytes = 2 ∷ 1 ∷ 2 ∷ 2 ∷ 3 ∷ 0 ∷ 0 ∷ 0 ∷ 112 ∷ 17 ∷ 1 ∷ 0 ∷ 0 ∷ 0 ∷ 0 ∷ 0 ∷ []

header-Fits : Fits header
header-Fits = record {
  stream_id_fits = omega arith;
  msg_type_fits = omega arith;
  flags_fits = omega arith;
  payload_len_fits = omega arith;
  timestamp_ns_fits = omega arith;
}

header_bytes-IsU8 : All IsU8 header_bytes
header_bytes-IsU8 = ground arith

header_parsed : ref_from_bytes header_bytes ≡ some header
unfolding ref_from_bytes from_le
header_parsed = refl

ref_from_bytes-as_bytes_example : ref_from_bytes (as_bytes header) ≡ some header
ref_from_bytes-as_bytes_example = ref_from_bytes-as_bytes header header-Fits

-- A whole frame of stream 258, and the same again on stream 5 as one half of a message.
abbrev whole : Frame
whole = (header, 7 ∷ 8 ∷ 9 ∷ [])

abbrev half : Frame
half = (
  record { stream_id = 5; msg_type = 2; flags = 0; payload_len = 2; timestamp_ns = 1 },
  40 ∷ 41 ∷ [],
)

whole-IsFrame : IsFrame whole
unfolding Header.decode_msg_type Header.try_from
whole-IsFrame = record { fits = header-Fits; known = (_, refl); len = refl; small = omega arith }

half-IsFrame : IsFrame half
unfolding Header.decode_msg_type Header.try_from
half-IsFrame = record {
  fits = record {
    stream_id_fits = omega arith;
    msg_type_fits = omega arith;
    flags_fits = omega arith;
    payload_len_fits = omega arith;
    timestamp_ns_fits = omega arith;
  };
  known = (_, refl);
  len = refl;
  small = omega arith;
}

abbrev two_frames : List Frame
two_frames = half ∷ whole ∷ []

deliver-frames_of_example :
    messages_of 258 (deliver [] two_frames).1
    ≡ messages_of 258 (deliver [] (frames_of 258 two_frames)).1
deliver-frames_of_example = deliver-frames_of 258 two_frames [] [] refl

abbrev bad_header_bytes : List ℕ
bad_header_bytes = 1 ∷ 0 ∷ 255 ∷ 0 ∷ 0 ∷ 0 ∷ 0 ∷ 0 ∷ 0 ∷ 0 ∷ 0 ∷ 0 ∷ 0 ∷ 0 ∷ 0 ∷ 0 ∷ []

abbrev fragment : List ℕ
fragment = 5 ∷ 0 ∷ 2 ∷ 0 ∷ 2 ∷ 0 ∷ 0 ∷ 0 ∷ 1 ∷ 0 ∷ 0 ∷ 0 ∷ 0 ∷ 0 ∷ 0 ∷ 0 ∷ 40 ∷ 41 ∷ 5 ∷ 0 ∷ []

abbrev after_fragment : StreamParser
after_fragment = record { buf = 5 ∷ 0 ∷ []; chunks = (5, 40 ∷ 41 ∷ []) ∷ [] }

fragment_run : push new_parser fragment ≡ (after_fragment, ok [])
unfolding push Multiplexer.push_loop Multiplexer.front Multiplexer.reassemble
    Multiplexer.extend_entry Multiplexer.is_last contains_key insert remove find ref_from_bytes
    from_le Header.decode_msg_type Header.try_from
fragment_run = refl

push-append_example :
    push new_parser (fragment ++ (2 ∷ 2 ∷ [])) ≡ prepend [] (push after_fragment (2 ∷ 2 ∷ []))
push-append_example = push-append new_parser after_fragment fragment (2 ∷ 2 ∷ []) [] fragment_run

abbrev after_bad_header : StreamParser
after_bad_header = record { buf = bad_header_bytes; chunks = [] }

bad_header_run :
    push new_parser bad_header_bytes ≡ (after_bad_header, err (unknown_type (unknown_msg_type 255)))
unfolding push Multiplexer.push_loop Multiplexer.front Multiplexer.reassemble
    Multiplexer.extend_entry Multiplexer.is_last contains_key insert remove find ref_from_bytes
    from_le Header.decode_msg_type Header.try_from
bad_header_run = refl

push_poisoned_example :
    (push new_parser (bad_header_bytes ++ header_bytes) ≡ (
      record { buf = bad_header_bytes ++ header_bytes; chunks = [] },
      err (unknown_type (unknown_msg_type 255)),
    ))
    × (push after_bad_header header_bytes ≡ (
      record { buf = bad_header_bytes ++ header_bytes; chunks = [] },
      err (unknown_type (unknown_msg_type 255)),
    ))
push_poisoned_example =
    push_poisoned new_parser after_bad_header bad_header_bytes header_bytes
      (unknown_type (unknown_msg_type 255)) bad_header_run

-- A payload of ten bytes in chunks of four, compressed, on stream 1.
abbrev payload : List ℕ
payload = 10 ∷ 11 ∷ 12 ∷ 13 ∷ 14 ∷ 15 ∷ 16 ∷ 17 ∷ 18 ∷ 19 ∷ []

sends : Sends 1 compressed 99 4
sends = record {
  stream_fits = omega arith;
  flags_fit = omega arith;
  unmarked = refl;
  time_fits = omega arith;
  some_bytes = omega arith;
  not_too_large = omega arith;
}

absent_stream : find {V = List ℕ} 1 ((5, 40 ∷ []) ∷ []) ≡ none
unfolding find
absent_stream = refl

push-split_into_chunks_example :
    (bytes : List ℕ) × (n : ℕ) × (split_into_chunks 1 MsgType.frame_update compressed payload 99 4
        11 []
      ≡ some bytes)
    × (n ≤ 4)
    × (push (record { buf = []; chunks = (5, 40 ∷ []) ∷ [] }) bytes ≡ (
      record { buf = []; chunks = (5, 40 ∷ []) ∷ [] },
      ok (
          record {
            header = new 1 MsgType.frame_update (bit_or compressed last_chunk) n 99;
            payload = payload;
          }
          ∷ []),
    ))
push-split_into_chunks_example =
    push-split_into_chunks 1 MsgType.frame_update compressed 99 4 sends payload 11
      ((5, 40 ∷ []) ∷ []) absent_stream (omega arith)

split_into_chunks_zero_example :
    split_into_chunks 1 MsgType.frame_update compressed payload 99 0 1000 [] ≡ none
split_into_chunks_zero_example =
    split_into_chunks_zero 1 MsgType.frame_update compressed 99 payload 1000 []
      (λ e. absurd (omega (arith, ap length e)))

-- A frame, a refused frame, an anchor past the watermark, and an acknowledgement.
abbrev calls : List Call
calls = asks 60 false ∷ asks 50 false ∷ asks 70 true ∷ acks 60 ∷ []

abbrev controller : FlowController
controller = record { high_watermark = 100; pending = 0 }

few_anchor_bytes : controller.high_watermark + anchor_bytes calls < usize_mod - 1
unfolding anchor_bytes
few_anchor_bytes = omega arith

run-pending_bound_example :
    (run controller calls).pending ≤ controller.high_watermark + anchor_bytes calls
run-pending_bound_example = run-pending_bound calls controller (omega arith) few_anchor_bytes

calls-Paced : Paced controller calls
unfolding step should_send on_sent
calls-Paced = ground arith

few_bytes : controller.pending + accepted controller calls < usize_mod
unfolding accepted step should_send on_sent
few_bytes = ground arith

header-is_last : is_last header ≡ true
unfolding is_last
header-is_last = refl

nothing_of_stream : find {V = List ℕ} 258 [] ≡ none
unfolding find
nothing_of_stream = refl
