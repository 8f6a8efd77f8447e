-- ===== src/Session/Input/Delivery.antt =====
-- An input event arrives as it was made.
use remote_way.Prelude.{
  ℕ, true, List, [], ◌∷◌, none, some, length, take, leb, if◌then◌else◌, ◌≡◌, refl, ◌∙◌, sym, ap,
  arith, take_all,
}
use remote_way.Prelude.Table.{Table, find}
use remote_way.Proto.Header.{
  FrameHeader, MsgType, TryMsgType, decode_msg_type, input_event, last_chunk,
}
use remote_way.Proto.Header
use remote_way.Proto.InputEvent.{
  InputEvent, InputKind, TryInputKind, decode_kind, from_bytes_padded, from_bytes_padded_lem,
  from_pointer_motion, from_pointer_button, from_pointer_axis, from_key,
}
use remote_way.Proto.InputEvent
use remote_way.Proto.PointerMotion
use remote_way.Proto.PointerButton
use remote_way.Proto.PointerAxis
use remote_way.Proto.KeyEvent
use remote_way.Transport.Multiplexer.{PushResult, IncomingMessage, push, is_last}
use remote_way.Transport.Multiplexer.Deliver.{IsFrame}
use remote_way.Transport.Multiplexer.Whole.{push-as_bytes}
use remote_way.Session.Input.{
  input_wire, dispatch_message, input_payload, Request, requests, dispatch_kind, dispatch_event,
  event_of, or_failed,
}

-- The fields fit their widths.
abbrev pub RequestFits : Request → Type 0
RequestFits (Request.motion m) = PointerMotion.Fits m
RequestFits (Request.button b) = PointerButton.Fits b
RequestFits (Request.axis a) = PointerAxis.Fits a
RequestFits (Request.key k) = KeyEvent.Fits k

event_of-dispatch_event :
    (r : Request)
    → RequestFits r
    → (e : InputEvent) × (event_of r ≡ some e) × InputEvent.Fits e × (dispatch_event e ≡ requests r)
unfolding event_of dispatch_event from_pointer_motion from_pointer_button from_pointer_axis from_key
event_of-dispatch_event (Request.motion m) f =
    let (e, made, fits, kind, front) =
      from_bytes_padded_lem InputKind.pointer_motion (PointerMotion.as_bytes m)
        (omega (arith, PointerMotion.length-as_bytes m)) in
    let read : PointerMotion.ref_from_bytes (take PointerMotion.size e.payload) ≡ some m =
      ap (λ n. PointerMotion.ref_from_bytes (take n e.payload))
        (sym (PointerMotion.length-as_bytes m))
      ∙ ap PointerMotion.ref_from_bytes front
      ∙ PointerMotion.ref_from_bytes-as_bytes m f in
    (e, made, fits, ap (λ t. dispatch_kind t e.payload) kind ∙ ap (or_failed Request.motion) read)
event_of-dispatch_event (Request.button b) f =
    let (e, made, fits, kind, front) =
      from_bytes_padded_lem InputKind.pointer_button (PointerButton.as_bytes b)
        (omega (arith, PointerButton.length-as_bytes b)) in
    let read : PointerButton.ref_from_bytes (take PointerButton.size e.payload) ≡ some b =
      ap (λ n. PointerButton.ref_from_bytes (take n e.payload))
        (sym (PointerButton.length-as_bytes b))
      ∙ ap PointerButton.ref_from_bytes front
      ∙ PointerButton.ref_from_bytes-as_bytes b f in
    (e, made, fits, ap (λ t. dispatch_kind t e.payload) kind ∙ ap (or_failed Request.button) read)
event_of-dispatch_event (Request.axis a) f =
    let (e, made, fits, kind, front) =
      from_bytes_padded_lem InputKind.pointer_axis (PointerAxis.as_bytes a)
        (omega (arith, PointerAxis.length-as_bytes a)) in
    let read : PointerAxis.ref_from_bytes (take PointerAxis.size e.payload) ≡ some a =
      ap (λ n. PointerAxis.ref_from_bytes (take n e.payload)) (sym (PointerAxis.length-as_bytes a))
      ∙ ap PointerAxis.ref_from_bytes front
      ∙ PointerAxis.ref_from_bytes-as_bytes a f in
    (e, made, fits, ap (λ t. dispatch_kind t e.payload) kind ∙ ap (or_failed Request.axis) read)
event_of-dispatch_event (Request.key k) f =
    let (e, made, fits, kind, front) =
      from_bytes_padded_lem InputKind.key (KeyEvent.as_bytes k)
        (omega (arith, KeyEvent.length-as_bytes k)) in
    let read : KeyEvent.ref_from_bytes (take KeyEvent.size e.payload) ≡ some k =
      ap (λ n. KeyEvent.ref_from_bytes (take n e.payload)) (sym (KeyEvent.length-as_bytes k))
      ∙ ap KeyEvent.ref_from_bytes front
      ∙ KeyEvent.ref_from_bytes-as_bytes k f in
    (e, made, fits, ap (λ t. dispatch_kind t e.payload) kind ∙ ap (or_failed Request.key) read)

abbrev input_header : FrameHeader
input_header = Header.new 0 input_event last_chunk InputEvent.size 0

input_header-decode : decode_msg_type input_header ≡ TryMsgType.ok input_event
unfolding decode_msg_type Header.try_from Header.new Header.to_u8
input_header-decode = refl

input-IsFrame : (e : InputEvent) → InputEvent.Fits e → IsFrame (input_header, InputEvent.as_bytes e)
unfolding Header.new Header.to_u8
input-IsFrame e f =
    let len = InputEvent.length-as_bytes e f in
    record {
      fits = record {
        stream_id_fits = omega arith;
        msg_type_fits = omega arith;
        flags_fits = omega arith;
        payload_len_fits = omega arith;
        timestamp_ns_fits = omega arith;
      };
      known = (input_event, input_header-decode);
      len = sym len;
      small = omega (arith, len);
    }

input_header-is_last : is_last input_header ≡ true
unfolding is_last Header.new
input_header-is_last = refl

input_header-stream : (t : Table (List ℕ)) → find 0 t ≡ none → find input_header.stream_id t ≡ none
unfolding Header.new
input_header-stream t absent = absent

dispatch_message_whole :
    (e : InputEvent)
    → InputEvent.Fits e
    → dispatch_message (record { header = input_header; payload = InputEvent.as_bytes e }) ≡ some e
unfolding dispatch_message
dispatch_message_whole e f =
    let bytes = InputEvent.as_bytes e in
    let len = InputEvent.length-as_bytes e f in
    let long : leb InputEvent.size (length bytes) ≡ true = ground (arith, len) in
    let read : InputEvent.ref_from_bytes (take InputEvent.size bytes) ≡ some e =
      ap InputEvent.ref_from_bytes (take_all bytes InputEvent.size (omega (arith, len)))
      ∙ InputEvent.ref_from_bytes-as_bytes e f in
    ap (λ t. input_payload t bytes) input_header-decode
    ∙ ap (λ b. if b then InputEvent.ref_from_bytes (take InputEvent.size bytes) else none) long
    ∙ read

push-input_wire :
    (e : InputEvent) (t : Table (List ℕ))
    → InputEvent.Fits e
    → find 0 t ≡ none
    → push (record { buf = []; chunks = t }) (input_wire e) ≡ (
      record { buf = []; chunks = t },
      PushResult.ok (record { header = input_header; payload = InputEvent.as_bytes e } ∷ []),
    )
unfolding input_wire
push-input_wire e t fits absent =
    push-as_bytes input_header (InputEvent.as_bytes e) t (input-IsFrame e fits) input_header-is_last
      (input_header-stream t absent)

-- Every request that the client captures, whatever it is, reaches the compositor as it was: the event
-- made for it does not overflow its payload, its bytes come out of the server's parser as one
-- message, and that is dispatched to the same request. The parser has no unread bytes and no
-- unfinished message of stream 0, and the request's fields fit their widths.
pub dispatch_event-event_of :
    (r : Request) (t : Table (List ℕ))
    → RequestFits r
    → find 0 t ≡ none
    → (e : InputEvent) × (m : IncomingMessage) × (event_of r ≡ some e)
      × (push (record { buf = []; chunks = t }) (input_wire e)
          ≡ (record { buf = []; chunks = t }, PushResult.ok (m ∷ [])))
      × (dispatch_message m ≡ some e)
      × (dispatch_event e ≡ requests r)
dispatch_event-event_of r t f absent =
    let (e, made, fits, dispatched) = event_of-dispatch_event r f in
    let m : IncomingMessage = record { header = input_header; payload = InputEvent.as_bytes e } in
    (e, m, made, push-input_wire e t fits absent, dispatch_message_whole e fits, dispatched)
