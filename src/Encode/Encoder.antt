-- ===== src/Encode/Encoder.antt =====
-- crates/remoteway-encode/src/backends: the state that the three encoders keep, and their `encode` for
-- a codec's own description of a picture. The line numbers of h264.rs stand for the three; what is
-- the codec's own is in H264, H265 and Av1.
pub mod Previous
pub mod Keyframe
pub mod Created
use remote_way.Prelude.{
  ℕ, zero, suc, ◌+◌, ◌%◌, ◌^◌, Bool, true, false, not, ◌&&◌, ◌||◌, List, [], ◌∷◌, Option, none,
  some, length, get_elem?, ◌==◌, if◌then◌else◌, set, replicate,
}
use remote_way.Encode.Params.{
  VideoCodec, Modes, VideoEncodeCapabilities, same_codec, validate_against, EncodeParams,
  EncodeError, invalid_params, Outcome, ok, err,
}
use remote_way.Encode.Session.{
  FrameKind, EncodedFrame, InputFrame, Device, Recorder, Recording, then_do, submit,
}

-- `DPB_SLOTS`
abbrev pub dpb_slots : ℕ
dpb_slots = 2

-- `dpb` holds the views of its slots. The driver and the cached views are `recorder`; the handles that
-- never change are left out.
pub record Encoder (D : Type 0) : Type 0 where
  pub recorder : Recorder D
  pub params : EncodeParams
  pub parameter_sets_blob : List ℕ
  pub dpb : List ℕ
  pub prior_ref_slot : Option ℕ
  pub frame_index : ℕ  -- u64
  pub force_keyframe : Bool

abbrev pub next_slot : Option ℕ → ℕ → ℕ
next_slot none slots = 0
next_slot (some prev) slots = (prev + 1) % slots

abbrev pub same_size : InputFrame → EncodeParams → Bool
same_size frame params = (frame.width == params.width) && (frame.height == params.height)

module _ {D : Type 0} where
  -- The fields that `new` begins with, once the driver's objects are made.
  unfoldable pub start : Recorder D → EncodeParams → List ℕ → List ℕ → Encoder D
  start recorder params blob dpb = record {
    recorder = recorder;
    params = params;
    parameter_sets_blob = blob;
    dpb = dpb;
    prior_ref_slot = none;
    frame_index = 0;
    force_keyframe = false;
  }

  abbrev pub is_idr : Encoder D → Bool
  is_idr e = (e.frame_index == 0) || e.force_keyframe

  abbrev pub setup_slot : Encoder D → ℕ
  setup_slot e = next_slot e.prior_ref_slot (length e.dpb)

  abbrev pub ref_slot : Encoder D → Option ℕ
  ref_slot e = if is_idr e then none else e.prior_ref_slot

  unfoldable pub request_keyframe : Encoder D → Encoder D
  request_keyframe e = record e { force_keyframe = true }

-- The calls of a session.
pub data SessionCall : Type 0 where
  encodes : InputFrame → SessionCall
  keyframe : SessionCall

-- Which picture each slot of the decoded picture buffer holds, by its `frame_index`: `none` is
-- nothing that may be relied on. A frame that failed may have written its slot.
abbrev pub Held : Type 0
Held = List (Option ℕ)

-- `picture` describes the next picture, and `framed` is what the codec does to the driver's bytes.
module _ {D P : Type 0} (device : Device D P) (picture : Encoder D → P)
    (framed : List ℕ → List ℕ) where
  -- The frame that is returned and the counters, once the bytes are read back.
  abbrev pub encoded :
      InputFrame → Encoder D → Recorder D → List ℕ → Encoder D × Outcome EncodedFrame
  encoded frame e recorder bitstream =
      let next = record e {
        recorder = recorder;
        force_keyframe = false;
        frame_index = (e.frame_index + 1) % 2 ^ 64;
        prior_ref_slot = some (setup_slot e);
      } in
      (
        next,
        ok (record {
          bytes = framed bitstream;
          kind = if is_idr e then FrameKind.idr else FrameKind.p;
          pts_90khz = frame.pts_90khz;
          parameter_sets = if is_idr e then some e.parameter_sets_blob else none;
        }),
      )

  abbrev pub read_back :
      InputFrame → Encoder D → Recorder D × Outcome (List ℕ) → Encoder D × Outcome EncodedFrame
  read_back frame e (recorder, ok bitstream) = encoded frame e recorder bitstream
  read_back frame e (recorder, err x) =
      (record e { recorder = recorder; force_keyframe = false }, err x)

  unfoldable pub encode_with : InputFrame → Encoder D → Encoder D × Outcome EncodedFrame
  encode_with frame e =
      if same_size frame e.params
      then read_back frame e (submit device (picture e) frame.image e.recorder)
      else (e, err invalid_params)

  abbrev pub holds : Held → Encoder D → Outcome EncodedFrame → Held
  holds held e (ok _) = set held (setup_slot e) (some e.frame_index)
  holds held e (err _) = set held (setup_slot e) none

  unfoldable pub session_call : Held → Encoder D → SessionCall → Held × Encoder D
  session_call held e (encodes frame) =
      let (e', o) = encode_with frame e in
      (if same_size frame e.params then holds held e o else held, e')
  session_call held e keyframe = (held, request_keyframe e)

  unfoldable pub session_calls : Held → Encoder D → List SessionCall → Held × Encoder D
  session_calls held e [] = (held, e)
  session_calls held e (r ∷ rest) =
      let (held', e') = session_call held e r in session_calls held' e' rest

-- `new` of each encoder: the tests, then the objects of the driver, whose making is a parameter: the
-- session with its parameter sets, one slot of the decoded picture buffer, and the rest.
module _ {D : Type 0} (vk : Modes) (make_session : Recording D (List ℕ)) (make_slot : Recording D ℕ)
    (make_rest : Recording D (Unit {0})) where
  unfoldable pub create_dpb_pool : ℕ → Recording D (List ℕ)
  create_dpb_pool zero r = (r, ok [])
  create_dpb_pool (suc n) r =
      then_do make_slot
        (λ view. then_do (create_dpb_pool n) (λ views. λ r'. (r', ok (view ∷ views)))) r

  abbrev pub created : EncodeParams → Recorder D × Outcome (List ℕ × List ℕ) → Outcome (Encoder D)
  created params (r, ok (blob, dpb)) = ok (start r params blob dpb)
  created params (r, err x) = err x

  unfoldable pub create : EncodeParams → Recorder D → Outcome (Encoder D)
  unfolding create_dpb_pool start
  create params r = created params (
      then_do make_session
        (λ blob.
          then_do (create_dpb_pool dpb_slots)
            (λ dpb. then_do make_rest (λ _. λ r'. (r', ok (blob, dpb)))))
        r)

  abbrev pub with_queue : Option ℕ → Option ℕ → Outcome (Encoder D) → Outcome (Encoder D)
  with_queue (some family) (some queue) made = made
  with_queue _ _ made = err invalid_params

  abbrev pub validated : Outcome (Unit {0}) → Outcome (Encoder D) → Outcome (Encoder D)
  validated (ok _) next = next
  validated (err x) next = err x

  -- `caps` is what probing the device for the codec gives, `family` and `queue` the context's queue
  -- for encoding.
  unfoldable pub new :
      VideoCodec
      → Outcome VideoEncodeCapabilities
      → Option ℕ
      → Option ℕ
      → EncodeParams
      → Recorder D
      → Outcome (Encoder D)
  unfolding create
  new codec caps family queue params r =
      if not (same_codec params.codec codec) then err invalid_params else elim caps [
        | err x ↦ err x
        | ok c ↦
            validated (validate_against vk params c) (with_queue family queue (create params r))
      ]
