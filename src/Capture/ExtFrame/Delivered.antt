-- ===== src/Capture/ExtFrame/Delivered.antt =====
-- What comes of a request for a frame.
use remote_way.Prelude.{
  ◌⊎◌, inl, inr, Bool-cases, ==_iff, ◌==◌, ◌%◌, ◌*◌, ◌^◌, ℕ, true, false, List, [], ◌∷◌, none, some,
  ◌==◌, ◌≡◌, ◌≢◌, inl, inr, refl, Bool-cases, ==_iff,
}
use remote_way.Capture.Frame.{from_wl_shm, flip_rows, mirror_rows, CapturedFrame}
use remote_way.Capture.ExtCapture.{
  wayland_dispatch, no_backend, no_outputs, session_ended, output_not_found, unsupported_format,
  capture_failed,
}
use remote_way.Capture.ExtFrame.{
  ShmBufferPool, ExtCaptureState, FrameOutcome, delivers, fails, panics, waits, ended, full_rect,
  upright,
}

-- What is to be delivered of a buffer's bytes at each transform: turned by a half, mirrored, flipped, or as
-- they are, at 0 and at the transforms for which the code only warns.
pub data Turned (stride : ℕ) : ℕ → List ℕ → List ℕ → Type 0 where
  normal : {bytes : List ℕ} → Turned stride 0 bytes bytes
  half_turn :
      {bytes flipped turned : List ℕ}
      → flip_rows bytes stride ≡ some flipped
      → mirror_rows flipped stride ≡ some turned
      → Turned stride 2 bytes turned
  mirrored :
      {bytes turned : List ℕ}
      → mirror_rows bytes stride ≡ some turned
      → Turned stride 4 bytes turned
  flipped :
      {bytes turned : List ℕ} → flip_rows bytes stride ≡ some turned → Turned stride 6 bytes turned
  unsupported :
      {t : ℕ} {bytes : List ℕ} → t ≢ 0 → t ≢ 2 → t ≢ 4 → t ≢ 6 → Turned stride t bytes bytes

-- Rows are turned at any stride but 0.
pub upright-total :
    (t stride : ℕ) (bytes : List ℕ)
    → stride == 0 ≡ false
    → (r : List ℕ) × (upright t stride bytes ≡ some r)
unfolding flip_rows mirror_rows
upright-total t stride bytes positive = elim (Bool-cases (t == 2)) [
  | inl two ↦ rw (two, positive) (_, refl)
  | inr not_2 ↦ elim (Bool-cases (t == 4)) [
    | inl four ↦ rw (not_2, four, positive) (_, refl)
    | inr not_4 ↦ elim (Bool-cases (t == 6)) [
      | inl six ↦ rw (not_2, not_4, six, positive) (_, refl)
      | inr not_6 ↦ rw (not_2, not_4, not_6) (bytes, refl)
    ]
  ]
]

-- A delivered frame: there is damage, all of the frame if the buffer was transformed, its size is the
-- session's, its bytes are those of the buffer that was attached, turned as its transform asks, that
-- buffer is not attached any more, and the frame was ready in a session that goes on.
pub record Delivered (s : ExtCaptureState) (f : CapturedFrame) : Type 0 where
  pub has_damage : f.damage ≢ []
  pub turned : s.frame_transform ≢ 0 → f.damage ≡ full_rect s ∷ []
  pub width : f.width ≡ s.buffer_width
  pub stride : f.stride ≡ s.buffer_width * 4 % 2 ^ 32
  pub height : f.height ≡ s.buffer_height
  pub pixels :
      (pool : ShmBufferPool) × (s.shm_pool ≡ some pool)
      × Turned f.stride s.frame_transform pool.inactive f.bytes
  pub is_ready : s.frame_ready ≡ true
  pub goes_on : s.stopped ≡ false

-- What each outcome says of the state.
abbrev pub Told : ExtCaptureState × FrameOutcome → Type 0
Told (s, delivers f) = Delivered s f
Told (s, fails session_ended) = s.stopped ≡ true
Told (s, fails wayland_dispatch) = ended s ≡ false
Told (s, fails no_backend) = (s.stopped ≡ false) × (s.session ≡ false)
Told (s, fails no_outputs) = ⊥
Told (s, fails (output_not_found name)) = ⊥
Told (s, fails (unsupported_format format)) = (s.stopped ≡ false) × (from_wl_shm format ≡ none)
Told (s, fails capture_failed) =
    (s.stopped ≡ false) × ((s.frame_failed ≡ true) ⊎ (s.shm_pool ≡ none))
Told (s, panics) = (s.stopped ≡ false) × ((s.shm_pool ≡ none) ⊎ (s.buffer_width * 4 % 2 ^ 32 ≡ 0))
Told (s, waits) = ended s ≡ false

-- A state whose frame is ready.
record Ready (s : ExtCaptureState) : Type 0 where
  has_damage : s.damage_rects ≢ []
  is_ready : s.frame_ready ≡ true
  goes_on : s.stopped ≡ false
