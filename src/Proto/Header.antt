-- ===== src/Proto/Header.antt =====
-- crates/remoteway-proto/src/header.rs and error.rs: the message types and the frame header.
pub mod RoundTrip
use remote_way.Prelude.{
  ℕ, ◌+◌, ◌≡◌, refl, Bool, List, ◌∷◌, ◌++◌, Option, none, some, length, take, drop, ◌==◌,
  if◌then◌else◌, arith,
}
use remote_way.Proto.Wire.{IsU8, IsU16, IsU32, IsU64, le_bytes, from_le, from_le-le_bytes}

pub data MsgType : Type 0 where
  frame_update anchor_frame input_event cursor_move handshake ack : MsgType
  resize clipboard target_resolution : MsgType

pub data ProtoError : Type 0 where
  unknown_msg_type : ℕ → ProtoError

pub data TryMsgType : Type 0 where
  ok : MsgType → TryMsgType
  err : ProtoError → TryMsgType

-- `msg_type as u8`.
unfoldable pub to_u8 : MsgType → ℕ
to_u8 frame_update = 0
to_u8 anchor_frame = 1
to_u8 input_event = 2
to_u8 cursor_move = 3
to_u8 handshake = 4
to_u8 ack = 5
to_u8 resize = 6
to_u8 clipboard = 7
to_u8 target_resolution = 8

unfoldable pub try_from : ℕ → TryMsgType
try_from v =
    if v == 0
    then ok frame_update
    else if v == 1
    then ok anchor_frame
    else if v == 2
    then ok input_event
    else if v == 3
    then ok cursor_move
    else if v == 4
    then ok handshake
    else if v == 5
    then ok ack
    else if v == 6
    then ok resize
    else if v == 7
    then ok clipboard
    else if v == 8
    then ok target_resolution
    else err (unknown_msg_type v)

-- The bits of the `flags` module.
abbrev pub compressed : ℕ
compressed = 1

abbrev pub last_chunk : ℕ
last_chunk = 2

abbrev pub key_frame : ℕ
key_frame = 4

pub record FrameHeader : Type 0 where
  pub stream_id : ℕ
  pub msg_type : ℕ
  pub flags : ℕ
  pub payload_len : ℕ
  pub timestamp_ns : ℕ

-- `FrameHeader::SIZE`.
abbrev pub size : ℕ
size = 16

unfoldable pub new : ℕ → MsgType → ℕ → ℕ → ℕ → FrameHeader
new stream_id msg_type flags payload_len timestamp_ns = record {
  stream_id = stream_id;
  msg_type = to_u8 msg_type;
  flags = flags;
  payload_len = payload_len;
  timestamp_ns = timestamp_ns;
}

-- The method `msg_type()`, which decodes the byte.
unfoldable pub decode_msg_type : FrameHeader → TryMsgType
decode_msg_type h = try_from h.msg_type

unfoldable pub as_bytes : FrameHeader → List ℕ
as_bytes h =
    le_bytes 2 h.stream_id
    ++ (le_bytes 1 h.msg_type
        ++ (le_bytes 1 h.flags ++ (le_bytes 4 h.payload_len ++ le_bytes 8 h.timestamp_ns)))

unfoldable pub ref_from_bytes : List ℕ → Option FrameHeader
ref_from_bytes bs =
    if length bs == size
    then some (record {
      stream_id = from_le (take 2 bs);
      msg_type = from_le (take 1 (drop 2 bs));
      flags = from_le (take 1 (drop 3 bs));
      payload_len = from_le (take 4 (drop 4 bs));
      timestamp_ns = from_le (take 8 (drop 8 bs));
    })
    else none

-- The fields fit their widths.
pub record Fits (h : FrameHeader) : Type 0 where
  pub stream_id_fits : IsU16 h.stream_id
  pub msg_type_fits : IsU8 h.msg_type
  pub flags_fits : IsU8 h.flags
  pub payload_len_fits : IsU32 h.payload_len
  pub timestamp_ns_fits : IsU64 h.timestamp_ns
