-- ===== src/Session/Client.antt =====
-- One message in `recv_decompress_loop`, crates/remoteway-client/src/pipeline.rs, up to the decoded frame:
-- interpolation, upscaling, the counter overlay and the display thread come after it.
use remote_way.Prelude.{
  ℕ, ◌*◌, ◌%◌, ◌^◌, Bool, true, false, not, ◌||◌, List, [], Option, none, some, length, take, ltb,
  if◌then◌else◌,
}
use remote_way.Proto.Header.{MsgType, anchor_frame, frame_update, resize}
use remote_way.Proto.ResizePayload
use remote_way.Proto.ResizePayload.{ResizePayload}
use remote_way.Compress.Compressor.{Codecs, CompressorKind}
use remote_way.Compress.Compressor
use remote_way.Compress.Pipeline.{decompress_frame_into, resize_zero}
use remote_way.Session.Payload.{FramePayload, Parsed, ok, err, panicked, deserialize_frame_payload}

pub record ClientState : Type 0 where
  pub previous_frame : List ℕ
  pub has_previous : Bool

abbrev pub start : ClientState
start = record { previous_frame = []; has_previous = false }

-- A frame that goes on to the display.
pub record Shown : Type 0 where
  pub output : List ℕ
  pub width : ℕ
  pub height : ℕ
  pub stride : ℕ

-- `(stride * height) as usize`, multiplied in 32 bits; the resize of the delta base.
unfoldable pub rebase : Bool → ClientState → FramePayload → ClientState
rebase is_anchor s p =
    if is_anchor || not s.has_previous
    then record s { previous_frame = resize_zero (p.stride * p.height % 2 ^ 32) s.previous_frame }
    else s

-- What becomes of the decoder's answer: an error skips the frame.
abbrev pub show :
    ClientState
    → FramePayload
    → Option (Compressor.Result (List ℕ))
    → Option (ClientState × Option Shown)
show s p none = none
show s p (some (Compressor.Result.err e)) = some (s, none)
show s p (some (Compressor.Result.ok output)) = some (
  record { previous_frame = output; has_previous = true },
  some (record { output = output; width = p.width; height = p.height; stride = p.stride }),
)

-- A resize notification forgets that there is a previous frame.
unfoldable pub on_resize : ClientState → List ℕ → ClientState
on_resize s payload =
    if ltb (length payload) ResizePayload.size
    then s
    else elim (ResizePayload.ref_from_bytes (take ResizePayload.size payload)) [
      | none ↦ s
      | some r ↦ record s { has_previous = false }
    ]

module _ (c : Codecs) (kind : CompressorKind) where
  unfoldable pub decode_frame :
      Bool → ClientState → Parsed FramePayload → Option (ClientState × Option Shown)
  decode_frame is_anchor s (ok p) =
      let based = rebase is_anchor s p in
      show based p
        (decompress_frame_into c p.compressed based.previous_frame p.stride p.regions [] kind)
  decode_frame is_anchor s (err e) = some (s, none)
  decode_frame is_anchor s panicked = none

  -- The message types that the client only logs change nothing.
  unfoldable pub receive : ClientState → MsgType → List ℕ → Option (ClientState × Option Shown)
  receive s anchor_frame payload = decode_frame true s (deserialize_frame_payload payload)
  receive s frame_update payload = decode_frame false s (deserialize_frame_payload payload)
  receive s resize payload = some (on_resize s payload, none)
  receive s t payload = some (s, none)
