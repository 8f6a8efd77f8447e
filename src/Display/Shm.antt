-- ===== src/Display/Shm.antt =====
-- crates/remoteway-display/src/shm.rs: the two buffers of a surface in one mapping. The system calls
-- and the Wayland objects are left out; `made` says whether they succeed.
use remote_way.Prelude.{
  ℕ, zero, suc, ◌+◌, ◌-◌, ◌*◌, ◌^◌, min, Bool, true, false, List, ◌++◌, Option, none, some, length,
  take, drop, replicate, ltb, ◌==◌, if◌then◌else◌,
}

pub data DisplayError : Type 0 where
  wayland_connect wayland_dispatch no_compositor no_shm no_xdg_wm_base no_seat : DisplayError
  shm_buffer not_configured thread_spawn session_ended : DisplayError
  surface_not_found : ℕ → DisplayError

pub data DisplayResult {ℓ} (A : Type ℓ) : Type ℓ where
  ok : A → DisplayResult A
  err : DisplayError → DisplayResult A

-- `map` is the mapping; `released` says for each buffer whether the compositor gave it back.
pub record ShmFrameUploader : Type 0 where
  pub map : List ℕ
  pub active : ℕ
  pub released : Bool × Bool
  pub width : ℕ
  pub height : ℕ
  pub stride : ℕ

pub record DamageRegion : Type 0 where
  pub x : ℕ
  pub y : ℕ
  pub width : ℕ
  pub height : ℕ

unfoldable pub pixel_count : DamageRegion → ℕ
pixel_count r = r.width * r.height

-- `checked_mul` of 64 bits
abbrev pub checked_mul : ℕ → ℕ → Option ℕ
checked_mul a b = if ltb (a * b) (2 ^ 64) then some (a * b) else none

abbrev pub or_shm {ℓ} : {A : Type ℓ} → Option ℕ → (ℕ → DisplayResult A) → DisplayResult A
or_shm none f = err shm_buffer
or_shm (some n) f = f n

-- The fields of a new uploader; a fresh memory file is of zeros.
abbrev pub fresh_uploader : ℕ → ℕ → ℕ → ℕ → ShmFrameUploader
fresh_uploader total_size width height stride = record {
  map = replicate total_size 0;
  active = 0;
  released = (true, true);
  width = width;
  height = height;
  stride = stride;
}

unfoldable pub new_uploader : Bool → ℕ → ℕ → ℕ → DisplayResult ShmFrameUploader
new_uploader made width height stride = or_shm (checked_mul width 4) λ min_stride.
    if ltb stride min_stride
    then err shm_buffer
    else (or_shm (checked_mul stride height) λ buf_size.
        or_shm (checked_mul buf_size 2) λ total_size.
          if total_size == 0
          then err shm_buffer
          else if made
          then ok (fresh_uploader total_size width height stride)
          else err shm_buffer)

abbrev pub buffer_size : ShmFrameUploader → ℕ
buffer_size u = u.stride * u.height

unfoldable pub upload : ShmFrameUploader → List ℕ → ShmFrameUploader
upload u bytes =
    let offset = u.active * buffer_size u in
    let copy_len = min (length bytes) (buffer_size u) in
    record u { map = take offset u.map ++ take copy_len bytes ++ drop (offset + copy_len) u.map }

abbrev pub flag : Bool × Bool → ℕ → Bool
flag (a, b) zero = a
flag (a, b) (suc i) = b

abbrev pub set_flag : Bool × Bool → ℕ → Bool → Bool × Bool
set_flag (a, b) zero v = (v, b)
set_flag (a, b) (suc zero) v = (a, v)
set_flag (a, b) (suc (suc i)) v = (a, b)

unfoldable pub swap : ShmFrameUploader → ShmFrameUploader
swap u = record u { released = set_flag u.released u.active false; active = 1 - u.active }

unfoldable pub mark_released : ShmFrameUploader → ℕ → ShmFrameUploader
mark_released u buffer_idx =
    if ltb buffer_idx 2 then record u { released = set_flag u.released buffer_idx true } else u

unfoldable pub can_upload : ShmFrameUploader → Bool
can_upload u = flag u.released u.active
