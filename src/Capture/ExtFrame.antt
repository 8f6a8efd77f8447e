-- ===== src/Capture/ExtFrame.antt =====
-- crates/remoteway-capture/src/ext_capture.rs: the session's events and the next frame, with the double buffer of
-- crates/remoteway-capture/src/shm.rs. What the compositor sends while a frame is awaited is a parameter.
pub mod Delivered
pub mod Answered
use remote_way.Prelude.{
  ℕ, zero, suc, ◌+◌, ◌-◌, ◌*◌, ◌/◌, ◌%◌, ◌^◌, ◌≤◌, ◌<◌, min, max, bit_and, bit_or, bit_xor, Bool,
  true, false, not, ◌&&◌, ◌||◌, List, [], ◌∷◌, ◌++◌, map, Option, none, some, length, take, drop,
  set, replicate, get_elem?, leb, ltb, ◌==◌, if◌then◌else◌, ◌≡◌, ◌≢◌, ◌⊎◌, inl, inr, refl, ◌∙◌, sym,
  ap, ap₂, subst, arith, append_assoc, append-nil, length-take, length-drop, length-append,
  drop-drop, take-append-drop, length-set, drop_all, take_all, take-length, drop-length, drop-take,
  take-take, take-set, drop-set, drop_get, All, All-take, All-drop, All-append, Bool-cases,
  Option-cases, ==_iff, ltb→lt, lt→ltb, le→not-ltb, not-ltb→le, length-map, get_of_drop,
  length-replicate,
}
use remote_way.Prelude.Table.{is_some}
use remote_way.Compress.Delta.{DamageRect, ◌>>=◌}
use remote_way.Capture.Frame.{PixelFormat, from_wl_shm, CapturedFrame, flip_rows, mirror_rows}
use remote_way.Capture.ExtCapture.{
  CaptureError, wayland_dispatch, no_backend, session_ended, unsupported_format, capture_failed,
}

-- The buffer that is attached to the next frame, and the other one.
pub record ShmBufferPool : Type 0 where
  pub active : List ℕ
  pub inactive : List ℕ

unfoldable pub swap : ShmBufferPool → ShmBufferPool
swap pool = record { active = pool.inactive; inactive = pool.active }

-- The fields that concern the session and its frames.
pub record ExtCaptureState : Type 0 where
  pub session : Bool
  pub shm_pool : Option ShmBufferPool
  pub buffer_width : ℕ
  pub buffer_height : ℕ
  pub shm_format : Option ℕ
  pub session_ready : Bool
  pub frame_ready : Bool
  pub frame_transform : ℕ
  pub frame_failed : Bool
  pub damage_rects : List DamageRect
  pub timestamp_ns : ℕ
  pub stopped : Bool

-- `shm_format` is `none` for a format that the protocol's library does not know; `writes` is what the
-- compositor puts into the buffer that is attached. The numbers of a damage are those of 32 bits
-- that the casts give.
pub data Event : Type 0 where
  buffer_size : ℕ → ℕ → Event
  shm_format : Option ℕ → Event
  done stopped : Event
  damage : DamageRect → Event
  presentation_time : ℕ → ℕ → ℕ → Event
  transform : ℕ → Event
  ready failed : Event
  writes : List ℕ → Event

-- `Xrgb8888` is preferred, and any other taken if it is the first.
abbrev pub accept_format : Option ℕ → Option ℕ → Option ℕ
accept_format current none = current
accept_format none (some f) = some f
accept_format (some c) (some f) = if f == 1 then some f else some c

abbrev pub written : Option ShmBufferPool → List ℕ → Option ShmBufferPool
written none bytes = none
written (some pool) bytes = some (record pool { active = bytes })

unfoldable pub handle_event : ExtCaptureState → Event → ExtCaptureState
handle_event s (buffer_size width height) = record s {
  buffer_width = width;
  buffer_height = height;
}
handle_event s (shm_format format) = record s { shm_format = accept_format s.shm_format format }
handle_event s done = record s { session_ready = true }
handle_event s stopped = record s { stopped = true }
handle_event s (damage rect) = record s { damage_rects = s.damage_rects ++ (rect ∷ []) }
handle_event s (presentation_time hi lo nsec) = record s {
  timestamp_ns = ((hi * 2 ^ 32 + lo) * 1000000000 + nsec) % 2 ^ 64;
}
handle_event s (transform t) = record s { frame_transform = t }
handle_event s ready = record s { frame_ready = true }
handle_event s failed = record s { frame_failed = true }
handle_event s (writes bytes) = record s { shm_pool = written s.shm_pool bytes }

abbrev pub handle_events : ExtCaptureState → List Event → ExtCaptureState
handle_events s [] = s
handle_events s (e ∷ es) = handle_events (handle_event s e) es

-- `panics` is a stride of 0 where rows are turned; `waits` says that no answer has come in the rounds given.
pub data FrameOutcome : Type 0 where
  delivers : CapturedFrame → FrameOutcome
  fails : CaptureError → FrameOutcome
  panics waits : FrameOutcome

abbrev pub ended : ExtCaptureState → Bool
ended s = s.frame_ready || s.frame_failed || s.stopped

-- Rounds of dispatching until the frame is ready, failed or the session stopped: `none` is a round that
-- fails, `some []` one in which the time runs out.
abbrev pub await_frame :
    ExtCaptureState
    → List (Option (List Event))
    → (ExtCaptureState → ExtCaptureState × FrameOutcome)
    → ExtCaptureState × FrameOutcome
await_frame s [] next = if ended s then next s else (s, waits)
await_frame s (none ∷ rounds) next = if ended s then next s else (s, fails wayland_dispatch)
await_frame s (some events ∷ rounds) next =
    let later = await_frame (handle_events s events) rounds next in
    if ended s then next s else later

abbrev pub full_rect : ExtCaptureState → DamageRect
full_rect s = record { x = 0; y = 0; width = s.buffer_width; height = s.buffer_height }

abbrev pub full_damage : ExtCaptureState → ExtCaptureState
full_damage s = record s { damage_rects = full_rect s ∷ [] }

abbrev pub or_full : ExtCaptureState → List DamageRect → ExtCaptureState
or_full s [] = full_damage s
or_full s (r ∷ rs) = s

abbrev pub stride_of : ExtCaptureState → ℕ
stride_of s = s.buffer_width * 4 % 2 ^ 32

-- The upright pixels of a transformed buffer.
abbrev pub upright : ℕ → ℕ → List ℕ → Option (List ℕ)
upright t stride bytes =
    if t == 2
    then flip_rows bytes stride >>= (λ turned. mirror_rows turned stride)
    else if t == 4
    then mirror_rows bytes stride
    else if t == 6
    then flip_rows bytes stride
    else some bytes

abbrev pub undo_transform : ExtCaptureState → ExtCaptureState
undo_transform s = if s.frame_transform == 0 then s else full_damage s

abbrev pub deliver :
    ExtCaptureState → ShmBufferPool → PixelFormat → Option (List ℕ) → ExtCaptureState × FrameOutcome
deliver s pool format none = (s, panics)
deliver s pool format (some bytes) = (
  record s { shm_pool = some (swap pool); damage_rects = [] },
  delivers (record {
    bytes = bytes;
    damage = s.damage_rects;
    format = format;
    width = s.buffer_width;
    height = s.buffer_height;
    stride = stride_of s;
    timestamp_ns = s.timestamp_ns;
  }),
)

abbrev pub format_raw : Option ℕ → ℕ
format_raw none = 0
format_raw (some f) = f

abbrev pub with_format :
    ExtCaptureState → Option ShmBufferPool → Option PixelFormat → ExtCaptureState × FrameOutcome
with_format s pool none = (s, fails (unsupported_format (format_raw s.shm_format)))
with_format s none (some format) = (s, panics)
with_format s (some pool) (some format) =
    deliver (undo_transform s) pool format (upright s.frame_transform (stride_of s) pool.active)

-- From the end of the wait on.
abbrev pub finish_frame : ExtCaptureState → ExtCaptureState × FrameOutcome
finish_frame s =
    if s.stopped
    then (s, fails session_ended)
    else if s.frame_failed
    then (s, fails capture_failed)
    else (let s' = or_full s s.damage_rects in
        with_format s' s'.shm_pool (from_wl_shm (format_raw s'.shm_format)))

abbrev pub reset_frame : ExtCaptureState → ExtCaptureState
reset_frame s = record s { frame_ready = false; frame_failed = false; damage_rects = [] }

unfoldable pub next_frame :
    ExtCaptureState → List (Option (List Event)) → ExtCaptureState × FrameOutcome
next_frame s rounds =
    if s.stopped
    then (s, fails session_ended)
    else if not s.session
    then (reset_frame s, fails no_backend)
    else if not (is_some s.shm_pool)
    then (reset_frame s, fails capture_failed)
    else await_frame (reset_frame s) rounds finish_frame

unfoldable pub stop : ExtCaptureState → ExtCaptureState
stop s = record s { stopped = true }
