-- ===== src/Proto/InputEvent.antt =====
-- crates/remoteway-proto/src/input.rs: InputKind and InputEvent.
use remote_way.Prelude.{
  ℕ, ◌-◌, ◌^◌, ◌≤◌, ◌<◌, true, List, ◌++◌, Option, none, some, length, take, drop, replicate, leb,
  ◌==◌, if◌then◌else◌, ◌≡◌, refl, arith, length-append, take-length, length-replicate,
}
use remote_way.Proto.Wire.{le_bytes, from_le, from_le-le_bytes}
use remote_way.Proto.PointerMotion
use remote_way.Proto.PointerMotion.{PointerMotion}
use remote_way.Proto.PointerButton
use remote_way.Proto.PointerButton.{PointerButton}
use remote_way.Proto.PointerAxis
use remote_way.Proto.PointerAxis.{PointerAxis}
use remote_way.Proto.KeyEvent
use remote_way.Proto.KeyEvent.{KeyEvent}

pub data InputKind : Type 0 where
  pointer_motion pointer_button pointer_axis key : InputKind

pub data TryInputKind : Type 0 where
  ok : InputKind → TryInputKind
  err : ℕ → TryInputKind

-- `kind as u8`.
unfoldable pub kind_to_u8 : InputKind → ℕ
kind_to_u8 InputKind.pointer_motion = 0
kind_to_u8 InputKind.pointer_button = 1
kind_to_u8 InputKind.pointer_axis = 2
kind_to_u8 InputKind.key = 3

unfoldable pub kind_try_from : ℕ → TryInputKind
kind_try_from v =
    if v == 0
    then ok InputKind.pointer_motion
    else if v == 1
    then ok InputKind.pointer_button
    else if v == 2
    then ok InputKind.pointer_axis
    else if v == 3
    then ok InputKind.key
    else err v

-- `pad` is the three bytes `_pad`; `payload` has 12 bytes.
pub record InputEvent : Type 0 where
  pub kind : ℕ
  pub pad : ℕ
  pub payload : List ℕ

abbrev pub size : ℕ
size = 16

-- `none` is the panic of a source that is longer than the payload.
unfoldable pub from_bytes_padded : InputKind → List ℕ → Option InputEvent
from_bytes_padded kind src =
    if leb (length src) 12
    then some
        (record { kind = kind_to_u8 kind; pad = 0; payload = src ++ replicate (12 - length src) 0 })
    else none

unfoldable pub from_pointer_motion : PointerMotion → Option InputEvent
from_pointer_motion m = from_bytes_padded InputKind.pointer_motion (PointerMotion.as_bytes m)

unfoldable pub from_pointer_button : PointerButton → Option InputEvent
from_pointer_button b = from_bytes_padded InputKind.pointer_button (PointerButton.as_bytes b)

unfoldable pub from_pointer_axis : PointerAxis → Option InputEvent
from_pointer_axis a = from_bytes_padded InputKind.pointer_axis (PointerAxis.as_bytes a)

unfoldable pub from_key : KeyEvent → Option InputEvent
from_key k = from_bytes_padded InputKind.key (KeyEvent.as_bytes k)

-- The method `kind()`.
unfoldable pub decode_kind : InputEvent → TryInputKind
decode_kind e = kind_try_from e.kind

unfoldable pub as_bytes : InputEvent → List ℕ
as_bytes e = le_bytes 1 e.kind ++ (le_bytes 3 e.pad ++ e.payload)

unfoldable pub ref_from_bytes : List ℕ → Option InputEvent
ref_from_bytes bytes =
    if length bytes == size
    then some (record {
      kind = from_le (take 1 bytes);
      pad = from_le (take 3 (drop 1 bytes));
      payload = drop 4 bytes;
    })
    else none

-- The fields fit their widths.
pub record Fits (e : InputEvent) : Type 0 where
  pub kind_fits : e.kind < 256 ^ 1
  pub pad_fits : e.pad < 256 ^ 3
  pub payload_fits : length e.payload ≡ 12

pub length-as_bytes : (e : InputEvent) → Fits e → length (as_bytes e) ≡ size
unfolding as_bytes le_bytes
length-as_bytes e f = omega (arith, f.payload_fits)

pub ref_from_bytes-as_bytes : (e : InputEvent) → Fits e → ref_from_bytes (as_bytes e) ≡ some e
unfolding as_bytes ref_from_bytes le_bytes
ref_from_bytes-as_bytes e f = ground (
  arith,
  from_le-le_bytes 1 e.kind,
  from_le-le_bytes 3 e.pad,
  f.payload_fits,
  f.kind_fits,
  f.pad_fits,
)

decode_kind-kind_to_u8 : (kind : InputKind) → kind_try_from (kind_to_u8 kind) ≡ ok kind
unfolding kind_try_from kind_to_u8
decode_kind-kind_to_u8 InputKind.pointer_motion = refl
decode_kind-kind_to_u8 InputKind.pointer_button = refl
decode_kind-kind_to_u8 InputKind.pointer_axis = refl
decode_kind-kind_to_u8 InputKind.key = refl

kind_to_u8-lt : (kind : InputKind) → kind_to_u8 kind < 256
unfolding kind_to_u8
kind_to_u8-lt InputKind.pointer_motion = omega arith
kind_to_u8-lt InputKind.pointer_button = omega arith
kind_to_u8-lt InputKind.pointer_axis = omega arith
kind_to_u8-lt InputKind.key = omega arith

-- A padded event carries its source in front.
pub from_bytes_padded_lem :
    (kind : InputKind) (src : List ℕ)
    → length src ≤ 12
    → (e : InputEvent) × (from_bytes_padded kind src ≡ some e)
      × Fits e
      × (decode_kind e ≡ ok kind)
      × (take (length src) e.payload ≡ src)
unfolding from_bytes_padded decode_kind
from_bytes_padded_lem kind src h =
    let room : leb (length src) 12 ≡ true = ground (arith, h) in
    let zeros : List ℕ = replicate (12 - length src) 0 in
    (
      record { kind = kind_to_u8 kind; pad = 0; payload = src ++ zeros },
      rw room,
      record {
        kind_fits = omega (arith, kind_to_u8-lt kind);
        pad_fits = omega arith;
        payload_fits =
            omega (arith, length-append src zeros, length-replicate {A = ℕ} (12 - length src) 0);
      },
      decode_kind-kind_to_u8 kind,
      take-length src zeros (length src) refl,
    )
