-- ===== src/Encode/Session.antt =====
-- crates/remoteway-encode/src/backends: what the three encoders share line by line: the slots of the
-- decoded picture buffer, the recording, submission and readback of one picture, and the state. The
-- Vulkan driver is not of this repository: its calls are the fields of `Device`, over a state `D` of
-- the driver. Each returns the new state, with `false` or `none` for an error.
use remote_way.Prelude.{ℕ, min, Bool, List, Option, none, some, if◌then◌else◌}
use remote_way.Prelude.Table.{Table, find, insert}
use remote_way.Encode.Params.{EncodeError, submit_failed, readback_failed, Outcome, ok, err}

pub data FrameKind : Type 0 where
  idr i p intra_refresh : FrameKind

-- `bytes` is the field `data`.
pub record EncodedFrame : Type 0 where
  pub bytes : List ℕ
  pub kind : FrameKind
  pub pts_90khz : ℕ
  pub parameter_sets : Option (List ℕ)

pub record InputFrame : Type 0 where
  pub image : ℕ
  pub width : ℕ
  pub height : ℕ
  pub pts_90khz : ℕ

-- `OUTPUT_BUFFER_BYTES`
abbrev pub output_buffer_bytes : ℕ
output_buffer_bytes = 1048576

-- The driver, for pictures described by a `P`; `cmd_encode_video` stands for the commands recorded
-- between beginning and ending the command buffer, which cannot fail.
pub record Device (D P : Type 0) : Type 0 where
  pub reset_command_pool : D → D × Bool
  pub begin_command_buffer : D → D × Bool
  pub create_image_view : ℕ → D → D × Option ℕ
  pub cmd_encode_video : P → ℕ → D → D
  pub end_command_buffer : D → D × Bool
  pub reset_fences : D → D × Bool
  pub queue_submit : D → D × Bool
  pub wait_for_fences : D → D × Bool
  pub get_query_pool_results : D → D × Option ℕ
  pub map_memory : ℕ → D → D × Option (List ℕ)

-- What the recording may change: the driver and the cached views of the input images.
abbrev pub Recorder : Type 0 → Type 0
Recorder D = D × Table ℕ

abbrev pub Recording : Type 0 → Type 0 → Type 0
Recording D A = Recorder D → Recorder D × Outcome A

module _ {D : Type 0} where
  abbrev pub then_do : {A B : Type 0} → Recording D A → (A → Recording D B) → Recording D B
  then_do act next r = let (r', o) = act r in elim o [ ok a ↦ next a r' | err e ↦ (r', err e) ]

  -- A fallible call of the driver, with `?` on its mapped error.
  abbrev pub tried : EncodeError → (D → D × Bool) → Recording D (Unit {0})
  tried e call (d, views) = let (d', good) = call d in ((d', views), if good then ok tt else err e)

  abbrev pub tried_for : {A : Type 0} → EncodeError → (D → D × Option A) → Recording D A
  tried_for e call (d, views) =
      let (d', o) = call d in elim o [ some a ↦ ((d', views), ok a) | none ↦ ((d', views), err e) ]

module _ {D P : Type 0} (device : Device D P) where
  open device use {
    reset_command_pool, begin_command_buffer, create_image_view, cmd_encode_video,
    end_command_buffer, reset_fences, queue_submit, wait_for_fences, get_query_pool_results,
    map_memory,
  }

  -- The cached view of the input image, or a new one.
  unfoldable pub input_view : ℕ → Recording D ℕ
  input_view image (d, views) = elim (find image views) [
    | some v ↦ ((d, views), ok v)
    | none ↦
        then_do (tried_for submit_failed (create_image_view image))
          (λ v. λ (d', views'). ((d', insert image v views'), ok v)) (d, views)
  ]

  -- From `reset_command_pool` to the bytes of the bitstream.
  unfoldable pub submit : P → ℕ → Recording D (List ℕ)
  unfolding input_view
  submit picture image = then_do (tried submit_failed reset_command_pool) λ _.
      then_do (tried submit_failed begin_command_buffer) λ _. then_do (input_view image) λ view.
        then_do (λ (d, views). ((cmd_encode_video picture view d, views), ok tt))
          λ _. then_do (tried submit_failed end_command_buffer) λ _.
            then_do (tried submit_failed reset_fences) λ _.
              then_do (tried submit_failed queue_submit) λ _.
                then_do (tried submit_failed wait_for_fences) λ _.
                  then_do (tried_for readback_failed get_query_pool_results) λ bytes_written.
                    tried_for readback_failed (map_memory (min bytes_written output_buffer_bytes))
