-- ===== src/Tests/Input.antt =====
-- A pointer motion on its way, while another message of stream 1 is unfinished.
use remote_way.Prelude.{ℕ, List, [], ◌∷◌, none, some, ◌≡◌, refl, arith}
use remote_way.Prelude.Table.{Table, find}
use remote_way.Proto.InputEvent.{InputEvent}
use remote_way.Transport.Multiplexer.{PushResult, IncomingMessage, push}
use remote_way.Session.Input.{
  input_wire, dispatch_message, Request, requests, dispatch_event, event_of,
}
use remote_way.Session.Input.Delivery.{RequestFits, dispatch_event-event_of}

abbrev request : Request
request = Request.motion (record { surface_id = 3; pad = 0; x = 1120403456; y = 1128792064 })

request-RequestFits : RequestFits request
request-RequestFits = record {
  surface_id_fits = omega arith;
  pad_fits = omega arith;
  x_fits = omega arith;
  y_fits = omega arith;
}

abbrev unfinished : Table (List ℕ)
unfinished = (1, 5 ∷ 6 ∷ []) ∷ []

no_input_waits : find 0 unfinished ≡ none
unfolding find
no_input_waits = refl

dispatch_event-event_of_example :
    (e : InputEvent) × (m : IncomingMessage) × (event_of request ≡ some e)
    × (push (record { buf = []; chunks = unfinished }) (input_wire e)
        ≡ (record { buf = []; chunks = unfinished }, PushResult.ok (m ∷ [])))
    × (dispatch_message m ≡ some e)
    × (dispatch_event e ≡ requests request)
dispatch_event-event_of_example =
    dispatch_event-event_of request unfinished request-RequestFits no_input_waits
