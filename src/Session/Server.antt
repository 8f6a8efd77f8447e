-- ===== src/Session/Server.antt =====
-- One round of `compress_send_loop`, crates/remoteway-server/src/pipeline.rs: from the frame that is to
-- be sent to the state that the next round starts from.
use remote_way.Prelude.{
  ℕ, ◌+◌, ◌%◌, max, Bool, true, false, not, ◌&&◌, ◌||◌, List, [], ◌∷◌, Option, length, ltb, ◌==◌,
  if◌then◌else◌,
}
use remote_way.Proto.Header.{MsgType, anchor_frame, frame_update}
use remote_way.Compress.Delta.{DamageRect, ◌>>=◌}
use remote_way.Compress.Compressor.{Codecs, CompressorKind}
use remote_way.Compress.Pipeline.{compress_frame_into, resize_zero}
use remote_way.Session.Payload.{serialize_frame_payload}
use remote_way.Session.Stripes.{stripe_full_frame}

-- `ANCHOR_INTERVAL`
abbrev pub anchor_interval : ℕ
anchor_interval = 300

-- The variables that live across rounds.
pub record ServerState : Type 0 where
  pub previous_frame : List ℕ
  pub is_first : Bool
  pub frame_count : ℕ
  pub need_full_damage : Bool

-- A frame as it stands after draining the capture ring and downscaling: `lost` tells that frames
-- were skipped or dropped before it, `do_downscale` that its bytes were scaled.
pub record Captured : Type 0 where
  pub frame_data : List ℕ
  pub frame_w : ℕ
  pub frame_h : ℕ
  pub frame_stride : ℕ
  pub damage : List DamageRect
  pub do_downscale : Bool
  pub lost : Bool

abbrev pub start : ServerState
start = record { previous_frame = []; is_first = true; frame_count = 0; need_full_damage = false }

unfoldable pub force_anchor : ServerState → Bool
force_anchor s = s.is_first || (ltb 0 s.frame_count && (s.frame_count % anchor_interval == 0))

abbrev pub is_empty : List DamageRect → Bool
is_empty [] = true
is_empty (r ∷ rs) = false

unfoldable pub use_full_damage : ServerState → Captured → Bool
use_full_damage s f = force_anchor s || is_empty f.damage || (s.need_full_damage || f.lost)

unfoldable pub chosen_regions : ℕ → ServerState → Captured → List DamageRect
chosen_regions threads s f =
    if use_full_damage s f || f.do_downscale
    then stripe_full_frame f.frame_w f.frame_h (max threads 1)
    else f.damage

unfoldable pub message_type : ServerState → MsgType
message_type s = if force_anchor s then anchor_frame else frame_update

-- The delta base of this frame: an anchor takes the previous frame at the new length.
unfoldable pub delta_base : ServerState → Captured → List ℕ
delta_base s f =
    if force_anchor s then resize_zero (length f.frame_data) s.previous_frame else s.previous_frame

module _ (c : Codecs) (kind : CompressorKind) (threads : ℕ) where
  -- The payload; `none` is a panic.
  unfoldable pub frame_payload : ServerState → Captured → Option (List ℕ)
  frame_payload s f = do
    let regions = chosen_regions threads s f
    compressed ← compress_frame_into c f.frame_data (delta_base s f) f.frame_stride regions kind 0 0
    serialize_frame_payload f.frame_w f.frame_h f.frame_stride regions compressed

-- The state after the transport took the frame (`sent`) or refused it.
unfoldable pub after_send : ServerState → Captured → Bool → ServerState
after_send s f sent = record {
  previous_frame = if sent then f.frame_data else delta_base s f;
  is_first = false;
  frame_count = s.frame_count + 1;
  need_full_damage = not sent;
}
