-- ===== src/Transport/Multiplexer.antt =====
-- crates/remoteway-transport/src/multiplexer.rs: frames on one byte stream.
pub mod Frames
pub mod Loop
pub mod Fragments
pub mod Deliver
pub mod Streams
pub mod Whole
use remote_way.Prelude.{
  ℕ, zero, suc, ◌+◌, ◌*◌, bit_and, Bool, true, false, not, ◌&&◌, List, [], ◌∷◌, ◌++◌, Option, none,
  some, length, take, drop, ltb, ◌==◌, if◌then◌else◌,
}
use remote_way.Prelude.Table.{Table, find, contains_key, insert, remove}
use remote_way.Proto.Header.{
  FrameHeader, ProtoError, unknown_msg_type, MsgType, TryMsgType, decode_msg_type, as_bytes,
  ref_from_bytes, size, last_chunk,
}

-- `io` is made by callers that read from a pipe, and nowhere in this file.
pub data MultiplexerError : Type 0 where
  unknown_type : ProtoError → MultiplexerError
  payload_too_large : ℕ → MultiplexerError
  io : MultiplexerError

-- `MAX_PAYLOAD_LEN`, 4 MiB.
abbrev pub max_payload_len : ℕ
max_payload_len = 4194304

pub record IncomingMessage : Type 0 where
  pub header : FrameHeader
  pub payload : List ℕ

pub record StreamParser : Type 0 where
  pub buf : List ℕ
  pub chunks : Table (List ℕ)

-- `ok out`, an error, or, in the model alone, a loop that ran out of fuel.
pub data PushResult : Type 0 where
  ok : List IncomingMessage → PushResult
  err : MultiplexerError → PushResult
  stuck : PushResult

unfoldable pub encode_frame : FrameHeader → List ℕ → List ℕ → List ℕ
encode_frame header payload dst = dst ++ (as_bytes header ++ payload)

abbrev pub new_parser : StreamParser
new_parser = record { buf = []; chunks = [] }

unfoldable pub is_last : FrameHeader → Bool
is_last hdr = not (bit_and hdr.flags last_chunk == 0)

abbrev pub unwrap_or_default : Option (List ℕ) → List ℕ
unwrap_or_default none = []
unwrap_or_default (some v) = v

-- `entry(k).or_insert_with(empty)`, then `extend_from_slice`.
unfoldable pub extend_entry : ℕ → List ℕ → Table (List ℕ) → Table (List ℕ)
extend_entry k bytes chunks = insert k (unwrap_or_default (find k chunks) ++ bytes) chunks

-- `reassemble`, on the one field of the parser that it uses.
unfoldable pub reassemble :
    Table (List ℕ) → FrameHeader → List ℕ → Table (List ℕ) × Option IncomingMessage
reassemble chunks hdr payload =
    if is_last hdr
      && (not (contains_key hdr.stream_id chunks) && (length payload == hdr.payload_len))
    then (chunks, some (record { header = hdr; payload = payload }))
    else let chunks' = extend_entry hdr.stream_id payload chunks in
      if is_last hdr
      then (
        remove hdr.stream_id chunks',
        some (record { header = hdr; payload = unwrap_or_default (find hdr.stream_id chunks') }),
      )
      else (chunks', none)

-- What the loop of `push` finds at the front of the buffer.
pub data Front : Type 0 where
  wait : Front
  fail : MultiplexerError → Front
  frame : FrameHeader → List ℕ → List ℕ → Front

-- The part of a round that does not depend on the header's type byte.
abbrev accept : FrameHeader → List ℕ → TryMsgType → Front
accept hdr buf (TryMsgType.err e) = fail (unknown_type e)
accept hdr buf (TryMsgType.ok t) =
    frame hdr (drop size (take (size + hdr.payload_len) buf)) (drop (size + hdr.payload_len) buf)

abbrev with_header : List ℕ → Option FrameHeader → Front
with_header buf none = fail (unknown_type (unknown_msg_type 0))
with_header buf (some hdr) =
    if ltb max_payload_len hdr.payload_len
    then fail (payload_too_large hdr.payload_len)
    else if ltb (length buf) (size + hdr.payload_len)
    then wait
    else accept hdr buf (decode_msg_type hdr)

unfoldable pub front : List ℕ → Front
front buf = if ltb (length buf) size then wait else with_header buf (ref_from_bytes (take size buf))

abbrev pub emit : List IncomingMessage → Option IncomingMessage → List IncomingMessage
emit out none = out
emit out (some m) = out ++ (m ∷ [])

-- The loop of `push`; each round takes a header at least.
unfoldable pub push_loop :
    ℕ → List ℕ → Table (List ℕ) → List IncomingMessage → StreamParser × PushResult
push_loop zero buf chunks out = (record { buf = buf; chunks = chunks }, stuck)
push_loop (suc fuel) buf chunks out = elim (front buf) [
  | wait ↦ (record { buf = buf; chunks = chunks }, ok out)
  | fail e ↦ (record { buf = buf; chunks = chunks }, err e)
  | frame hdr payload rest ↦
      let (chunks', msg) = reassemble chunks hdr payload in
      push_loop fuel rest chunks' (emit out msg)
]

unfoldable pub push : StreamParser → List ℕ → StreamParser × PushResult
push p bytes = push_loop (suc (length (p.buf ++ bytes))) (p.buf ++ bytes) p.chunks []

unfoldable pub in_progress_streams : StreamParser → ℕ
in_progress_streams p = length p.chunks
