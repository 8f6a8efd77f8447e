-- ===== src/Session/Input.antt =====
-- The way of an input event: `make_input_sender` of crates/remoteway-client/src/pipeline.rs,
-- `recv_dispatch_loop` of crates/remoteway-server/src/pipeline.rs, and `dispatch_event` of
-- crates/remoteway-input/src/inject.rs, up to the request to the compositor.
pub mod Delivery
use remote_way.Prelude.{
  ℕ, zero, suc, ◌+◌, ◌-◌, ◌*◌, ◌/◌, ◌%◌, ◌^◌, ◌≤◌, ◌<◌, min, max, bit_and, bit_or, bit_xor, Bool,
  true, false, not, ◌&&◌, ◌||◌, List, [], ◌∷◌, ◌++◌, map, Option, none, some, length, take, drop,
  set, replicate, get_elem?, leb, ltb, ◌==◌, if◌then◌else◌, ◌≡◌, ◌≢◌, ◌⊎◌, inl, inr, refl, ◌∙◌, sym,
  ap, ap₂, subst, arith, append_assoc, append-nil, length-take, length-drop, length-append,
  drop-drop, take-append-drop, length-set, drop_all, take_all, take-length, drop-length, drop-take,
  take-take, take-set, drop-set, drop_get, All, All-take, All-drop, All-append, Bool-cases,
  Option-cases, ==_iff, ltb→lt, lt→ltb, le→not-ltb, not-ltb→le, length-map, get_of_drop,
  length-replicate,
}
use remote_way.Proto.Header.{MsgType, TryMsgType, decode_msg_type, input_event, last_chunk}
use remote_way.Proto.Header
use remote_way.Proto.InputEvent.{
  InputEvent, InputKind, TryInputKind, decode_kind, from_pointer_motion, from_pointer_button,
  from_pointer_axis, from_key,
}
use remote_way.Proto.InputEvent
use remote_way.Proto.PointerMotion
use remote_way.Proto.PointerMotion.{PointerMotion}
use remote_way.Proto.PointerButton
use remote_way.Proto.PointerButton.{PointerButton}
use remote_way.Proto.PointerAxis
use remote_way.Proto.PointerAxis.{PointerAxis}
use remote_way.Proto.KeyEvent
use remote_way.Proto.KeyEvent.{KeyEvent}
use remote_way.Transport.Multiplexer.{IncomingMessage}

-- `make_input_sender`: one message on stream 0.
unfoldable pub input_wire : InputEvent → List ℕ
input_wire event =
    Header.as_bytes (Header.new 0 input_event last_chunk InputEvent.size 0)
    ++ InputEvent.as_bytes event

-- What `recv_dispatch_loop` hands to the injector for an input message.
abbrev pub input_payload : TryMsgType → List ℕ → Option InputEvent
input_payload (TryMsgType.ok input_event) payload =
    if leb InputEvent.size (length payload)
    then InputEvent.ref_from_bytes (take InputEvent.size payload)
    else none
input_payload (TryMsgType.ok t) payload = none
input_payload (TryMsgType.err e) payload = none

unfoldable pub dispatch_message : IncomingMessage → Option InputEvent
dispatch_message m = input_payload (decode_msg_type m.header) m.payload

-- A request to the compositor, and what it is about.
pub data Request : Type 0 where
  motion : PointerMotion → Request
  button : PointerButton → Request
  axis : PointerAxis → Request
  key : KeyEvent → Request

-- `UnknownInputKind` or `InjectFailed`.
pub data Dispatched : Type 0 where
  requests : Request → Dispatched
  unknown_input_kind : ℕ → Dispatched
  inject_failed : Dispatched

abbrev pub or_failed {ℓ} : {A : Type ℓ} → (A → Request) → Option A → Dispatched
or_failed f none = inject_failed
or_failed f (some a) = requests (f a)

abbrev pub dispatch_kind : TryInputKind → List ℕ → Dispatched
dispatch_kind (TryInputKind.err v) payload = unknown_input_kind v
dispatch_kind (TryInputKind.ok InputKind.pointer_motion) payload =
    or_failed Request.motion (PointerMotion.ref_from_bytes (take PointerMotion.size payload))
dispatch_kind (TryInputKind.ok InputKind.pointer_button) payload =
    or_failed Request.button (PointerButton.ref_from_bytes (take PointerButton.size payload))
dispatch_kind (TryInputKind.ok InputKind.pointer_axis) payload =
    or_failed Request.axis (PointerAxis.ref_from_bytes (take PointerAxis.size payload))
dispatch_kind (TryInputKind.ok InputKind.key) payload =
    or_failed Request.key (KeyEvent.ref_from_bytes (take KeyEvent.size payload))

unfoldable pub dispatch_event : InputEvent → Dispatched
dispatch_event event = dispatch_kind (decode_kind event) event.payload

-- The event that the client makes for a request.
unfoldable pub event_of : Request → Option InputEvent
event_of (Request.motion m) = from_pointer_motion m
event_of (Request.button b) = from_pointer_button b
event_of (Request.axis a) = from_pointer_axis a
event_of (Request.key k) = from_key k
