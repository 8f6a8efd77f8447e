-- ===== src/Tests/Encode.antt =====
-- The encoders at concrete sessions, over a driver that counts its submissions and fails at the third.
use remote_way.Prelude.{
  ℕ, suc, ◌+◌, ◌%◌, true, false, not, List, [], ◌∷◌, Option, none, some, ◌==◌, ◌≡◌, ◌⊎◌, ◌↔◌, refl,
}
use remote_way.Prelude.Table.{find, insert}
use remote_way.Encode.Params.{
  VideoCodec, Modes, VideoEncodeCapabilities, RateControl, EncodeParams, Outcome, ok, err,
  invalid_params, validate_against, reject_if,
}
use remote_way.Encode.Params.Supported.{Supported, validate_against-Supported}
use remote_way.Encode.Session.{Device, InputFrame, Recording, submit, input_view}
use remote_way.Encode.Encoder.{
  Encoder, is_idr, start, session_call, create, create_dpb_pool, ref_slot, SessionCall, encodes,
  session_calls, request_keyframe, encode_with, new,
}
use remote_way.Encode.Encoder.Previous.{Ready}
use remote_way.Encode.Encoder.Keyframe.{Answer, encode_with-request_keyframe}
use remote_way.Encode.Encoder.Created.{new-Supported}
use remote_way.Encode.Av1
use remote_way.Encode.Av1.{Av1Encoder, av1_calls, start_av1}
use remote_way.Encode.Av1.References.{HintsAgree, order_hint-av1_calls}
use remote_way.Encode.H264.{Picture, picture, setup_info, reference_info}
use remote_way.Encode.H264.References.{
  DeclaredAsMade, reference_slots-session_calls, frame_num-setup_info,
}

abbrev vk : Modes
vk = record { disabled = 1; cbr = 2; vbr = 4 }

abbrev caps : VideoEncodeCapabilities
caps = record {
  codec = VideoCodec.h264;
  max_coded_extent = (4096, 4096);
  min_coded_extent = (128, 128);
  picture_access_granularity = (16, 16);
  max_dpb_slots = 16;
  max_active_reference_pictures = 8;
  rate_control_modes = 3;
  supports_intra_refresh = false;
  supports_quantization_map = false;
}

abbrev hd : EncodeParams
hd = record {
  codec = VideoCodec.h264;
  width = 1280;
  height = 720;
  frame_rate = (60, 1);
  rate_control = RateControl.constant_qp 26;
  intra_refresh_period = none;
}

hd_accepted : validate_against vk hd caps ≡ ok tt
unfolding validate_against reject_if
hd_accepted = refl

validate_against-Supported_example : (validate_against vk hd caps ≡ ok tt) ↔ Supported vk hd caps
validate_against-Supported_example = validate_against-Supported vk hd caps

hd-Supported : Supported vk hd caps
hd-Supported = (validate_against-Supported vk hd caps).0 hd_accepted

abbrev driver : (P : Type 0) → Device ℕ P
driver P = record {
  reset_command_pool = λ d. (d, true);
  begin_command_buffer = λ d. (d, true);
  create_image_view = λ image d. (d, some (image + 100));
  cmd_encode_video = λ picture view d. d;
  end_command_buffer = λ d. (d, true);
  reset_fences = λ d. (d, true);
  queue_submit = λ d. (suc d, true);
  wait_for_fences = λ d. (d, not (d == 3));
  get_query_pool_results = λ d. (d, some 1);
  map_memory = λ n d. (d, some (d ∷ []));
}

abbrev frame : InputFrame
frame = record { image = 1; width = 1280; height = 720; pts_90khz = 0 }

-- Two pictures, and a third that the driver fails.
abbrev three : List SessionCall
three = encodes frame ∷ encodes frame ∷ encodes frame ∷ []

abbrev first_h264 : Encoder ℕ
first_h264 = start (0, []) hd (7 ∷ []) (10 ∷ 11 ∷ [])

abbrev after_three : List (Option ℕ) × Encoder ℕ
after_three =
    session_calls (driver Picture) picture (λ bytes. bytes) (none ∷ none ∷ []) first_h264 three

after_three_refers : ref_slot after_three.1 ≡ some 1
unfolding session_calls session_call encode_with submit input_view start picture find insert
after_three_refers = refl

reference_slots-session_calls_example : DeclaredAsMade after_three.0 after_three.1 1
reference_slots-session_calls_example =
    reference_slots-session_calls (driver Picture) (0, []) hd (7 ∷ []) 10 11 three 1
      after_three_refers

-- The encoder before its sixth picture, for which a key frame was asked.
abbrev sixth : Encoder ℕ
sixth = record first_h264 { frame_index = 5; force_keyframe = true; prior_ref_slot = some 0 }

frame_num-setup_info_example :
    ((setup_info sixth).frame_num ≡ (reference_info (record sixth { frame_index = 6 })).frame_num)
    ↔ ((is_idr sixth ≡ false) ⊎ (5 % 16 ≡ 0))
frame_num-setup_info_example = frame_num-setup_info sixth (record sixth { frame_index = 6 }) refl

encode_with-request_keyframe_example :
    let result =
      encode_with (driver Picture) picture (λ bytes. bytes) frame (request_keyframe sixth) in
    let driven =
      submit
        (driver Picture)
        (picture (request_keyframe sixth))
        frame.image
        (request_keyframe sixth).recorder in
    ((frame.width ≡ hd.width)
      × (frame.height ≡ hd.height)
      × Answer (driver Picture) picture (λ bytes. bytes) sixth frame driven result)
    ⊎ ((¬ ((frame.width ≡ hd.width) × (frame.height ≡ hd.height)))
        × (result ≡ (request_keyframe sixth, err invalid_params)))
unfolding start
encode_with-request_keyframe_example =
    encode_with-request_keyframe (driver Picture) picture (λ bytes. bytes) frame sixth

abbrev session : Recording ℕ (List ℕ)
session (d, views) = ((d, views), ok (7 ∷ []))

abbrev slot : Recording ℕ ℕ
slot (d, views) = ((suc d, views), ok (10 + d))

abbrev others : Recording ℕ (Unit {0})
others r = (r, ok tt)

abbrev made : Encoder ℕ
made = start (2, []) hd (7 ∷ []) (10 ∷ 11 ∷ [])

makes : new vk session slot others VideoCodec.h264 (ok caps) (some 3) (some 4) hd (0, []) ≡ ok made
unfolding new create create_dpb_pool start validate_against reject_if
makes = refl

new-Supported_example :
    (c : VideoEncodeCapabilities) × (Outcome.ok caps ≡ ok c)
    × Supported vk hd c
    × (hd ≡ hd)
    × Ready (none ∷ none ∷ []) made
unfolding start
new-Supported_example =
    new-Supported vk session slot others VideoCodec.h264 (ok caps) (some 3) (some 4) hd (0, []) made
      makes

abbrev av1 : List (Option ℕ) × Av1Encoder ℕ
av1 =
    av1_calls (driver Av1.Picture) (none ∷ none ∷ []) (start_av1 (0, []) hd (7 ∷ []) (10 ∷ 11 ∷ []))
      three

order_hint-av1_calls_example : HintsAgree av1.0 av1.1
order_hint-av1_calls_example =
    order_hint-av1_calls (driver Av1.Picture) (0, []) hd (7 ∷ []) 10 11 three
