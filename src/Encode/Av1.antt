-- ===== src/Encode/Av1.antt =====
-- crates/remoteway-encode/src/backends/av1.rs: what the AV1 encoder asks of the driver, and the
-- temporal delimiter that it writes before each picture. Fields that are the same for every picture
-- are left out.
pub mod References
use remote_way.Prelude.{
  ℕ, ◌+◌, ◌-◌, ◌*◌, ◌%◌, ◌^◌, min, Bool, true, false, not, List, [], ◌∷◌, ◌++◌, Option, none, some,
  get_elem?, set, replicate, if◌then◌else◌,
}
use remote_way.Encode.Params.{RateControl, EncodeParams, Outcome, ok, err}
use remote_way.Encode.Session.{Recorder, EncodedFrame, InputFrame, Device}
use remote_way.Encode.Encoder.{
  Encoder, is_idr, setup_slot, ref_slot, same_size, encode_with, request_keyframe, SessionCall,
  encodes, keyframe, Held, holds, start,
}
use remote_way.Encode.Picture.{SlotInfo, slot_info}

-- `order_hint` is of 8 bits.
pub record Av1Encoder (D : Type 0) : Type 0 where
  pub session : Encoder D
  pub order_hint : ℕ

pub data FrameType : Type 0 where
  key inter : FrameType

pub data PredictionMode : Type 0 where
  intra_only single_reference : PredictionMode

pub data RateControlGroup : Type 0 where
  intra predictive : RateControlGroup

pub record ReferenceInfo : Type 0 where
  pub frame_type : FrameType
  pub order_hint : ℕ

pub record Picture : Type 0 where
  pub error_resilient_mode : Bool
  pub force_integer_mv : Bool
  pub showable_frame : Bool
  pub frame_type : FrameType
  pub order_hint : ℕ
  pub primary_ref_frame : ℕ
  pub refresh_frame_flags : ℕ
  pub render_width_minus_1 : ℕ
  pub render_height_minus_1 : ℕ
  pub ref_order_hint : List ℕ
  pub reference_name_slot_indices : List (Option ℕ)  -- `none` for −1
  pub prediction_mode : PredictionMode
  pub rate_control_group : RateControlGroup
  pub constant_q_index : ℕ
  pub setup_reference_slot : SlotInfo ReferenceInfo
  pub reference_slots : Option (SlotInfo ReferenceInfo)
  pub begin_slots : List (SlotInfo ReferenceInfo)

-- `saturating_mul(4)` of 32 bits
abbrev pub params_q_index : RateControl → ℕ
params_q_index (RateControl.constant_qp qp) = min (min (qp * 4) (2 ^ 32 - 1)) 255
params_q_index _ = 128

-- `wrapping_sub(1)` of 8 bits
abbrev pub hint_before : ℕ → ℕ
hint_before hint = (hint + 255) % 256

abbrev pub ref_order_hint : Option ℕ → ℕ → List ℕ
ref_order_hint none hint = replicate 8 0
ref_order_hint (some _) hint = set (replicate 8 0) 0 (hint_before hint)

abbrev pub reference_name_slot_indices : Option ℕ → List (Option ℕ)
reference_name_slot_indices none = replicate 7 none
reference_name_slot_indices (some prev) = set (replicate 7 none) 0 (some prev)

-- The temporal delimiter, then the driver's bytes.
abbrev pub framed : List ℕ → List ℕ
framed bitstream = 18 ∷ 0 ∷ bitstream

module _ {D : Type 0} (hint : ℕ) where
  unfoldable pub frame_type : Encoder D → FrameType
  frame_type e = if is_idr e then FrameType.key else FrameType.inter

  unfoldable pub setup_info : Encoder D → ReferenceInfo
  unfolding frame_type
  setup_info e = record { frame_type = frame_type e; order_hint = hint }

  unfoldable pub reference_info : Encoder D → ReferenceInfo
  reference_info e = record { frame_type = FrameType.inter; order_hint = hint_before hint }

  abbrev pub reference_slots : Encoder D → Option ℕ → Option (SlotInfo ReferenceInfo)
  reference_slots e none = none
  reference_slots e (some prev) = some (slot_info e (some prev) prev (reference_info e))

  abbrev pub begin_slots :
      Encoder D → Option (SlotInfo ReferenceInfo) → List (SlotInfo ReferenceInfo)
  begin_slots e none = slot_info e none (setup_slot e) (setup_info e) ∷ []
  begin_slots e (some info) = slot_info e none (setup_slot e) (setup_info e) ∷ info ∷ []

  unfoldable pub picture : Encoder D → Picture
  unfolding frame_type setup_info reference_info
  picture e = record {
    error_resilient_mode = is_idr e;
    force_integer_mv = is_idr e;
    showable_frame = not (is_idr e);
    frame_type = frame_type e;
    order_hint = hint;
    primary_ref_frame = if is_idr e then 7 else 0;
    refresh_frame_flags = if is_idr e then 255 else 1;
    render_width_minus_1 = (e.params.width - 1) % 2 ^ 16;
    render_height_minus_1 = (e.params.height - 1) % 2 ^ 16;
    ref_order_hint = ref_order_hint (ref_slot e) hint;
    reference_name_slot_indices = reference_name_slot_indices (ref_slot e);
    prediction_mode =
        if is_idr e then PredictionMode.intra_only else PredictionMode.single_reference;
    rate_control_group = if is_idr e then RateControlGroup.intra else RateControlGroup.predictive;
    constant_q_index = params_q_index e.params.rate_control;
    setup_reference_slot = slot_info e (some (setup_slot e)) (setup_slot e) (setup_info e);
    reference_slots = reference_slots e (ref_slot e);
    begin_slots = begin_slots e (reference_slots e (ref_slot e));
  }

module _ {D : Type 0} where
  -- The counter goes on with each picture that is read back.
  abbrev pub advance : ℕ → Encoder D × Outcome EncodedFrame → Av1Encoder D × Outcome EncodedFrame
  advance hint (session, ok frame) =
      (record { session = session; order_hint = (hint + 1) % 256 }, ok frame)
  advance hint (session, err x) = (record { session = session; order_hint = hint }, err x)

  unfoldable pub encode :
      Device D Picture → InputFrame → Av1Encoder D → Av1Encoder D × Outcome EncodedFrame
  unfolding picture
  encode device frame a =
      advance a.order_hint (encode_with device (picture a.order_hint) framed frame a.session)

  -- The fields that `new` begins with.
  unfoldable pub start_av1 : Recorder D → EncodeParams → List ℕ → List ℕ → Av1Encoder D
  unfolding start
  start_av1 recorder params blob dpb = record {
    session = start recorder params blob dpb;
    order_hint = 0;
  }

  -- A call of a session, with what the slots hold after it.
  unfoldable pub av1_call :
      Device D Picture → Held → Av1Encoder D → SessionCall → Held × Av1Encoder D
  unfolding encode picture
  av1_call device held a (encodes frame) =
      let (a', o) = encode device frame a in
      (
        if same_size frame a.session.params
            then holds device (picture a.order_hint) framed held a.session o
            else held,
        a',
      )
  av1_call device held a keyframe = (held, record a { session = request_keyframe a.session })

  unfoldable pub av1_calls :
      Device D Picture → Held → Av1Encoder D → List SessionCall → Held × Av1Encoder D
  unfolding av1_call
  av1_calls device held a [] = (held, a)
  av1_calls device held a (r ∷ rest) =
      let (held', a') = av1_call device held a r in av1_calls device held' a' rest
