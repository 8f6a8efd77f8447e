-- ===== src/Transport/Multiplexer/Whole.antt =====
-- A message that is one frame.
use remote_way.Prelude.{
  ℕ, true, List, [], ◌∷◌, ◌++◌, Option, none, some, length, ◌==◌, ◌≡◌, refl, ◌∙◌, sym, ap,
  append-nil, ==_iff,
}
use remote_way.Prelude.Table.{Table, find, contains_key}
use remote_way.Proto.Header.{FrameHeader, as_bytes}
use remote_way.Transport.ChunkSender.Frames.{encode_all}
use remote_way.Transport.Multiplexer.{PushResult, IncomingMessage, push, emit, reassemble, is_last}
use remote_way.Transport.Multiplexer.Deliver.{IsFrame, deliver, push-encode_all}

reassemble_whole :
    (t : Table (List ℕ)) (h : FrameHeader) (pl : List ℕ)
    → is_last h ≡ true
    → length pl ≡ h.payload_len
    → find h.stream_id t ≡ none
    → reassemble t h pl ≡ (t, some (record { header = h; payload = pl }))
unfolding reassemble contains_key
reassemble_whole t h pl last len absent =
    let full : (length pl == h.payload_len) ≡ true = (==_iff _ _).1 len in
    rw (last, absent, full) refl

deliver_whole :
    (t : Table (List ℕ)) (h : FrameHeader) (pl : List ℕ)
    → is_last h ≡ true
    → length pl ≡ h.payload_len
    → find h.stream_id t ≡ none
    → deliver t ((h, pl) ∷ []) ≡ (t, record { header = h; payload = pl } ∷ [])
unfolding deliver
deliver_whole t h pl last len absent =
    ap (λ (r : Table (List ℕ) × Option IncomingMessage). (r.0, emit [] r.1 ++ []))
      (reassemble_whole t h pl last len absent)

one_frame : (h : FrameHeader) (pl : List ℕ) → as_bytes h ++ pl ≡ encode_all ((h, pl) ∷ [])
unfolding encode_all
one_frame h pl = ap (λ l. as_bytes h ++ l) (sym (append-nil pl))

-- The bytes of one frame that is marked as the last, of a stream with no unfinished message, come
-- out of one call as one message, and the parser is left as it was.
pub push-as_bytes :
    (h : FrameHeader) (pl : List ℕ) (t : Table (List ℕ))
    → IsFrame (h, pl)
    → is_last h ≡ true
    → find h.stream_id t ≡ none
    → push (record { buf = []; chunks = t }) (as_bytes h ++ pl)
      ≡ (record { buf = []; chunks = t }, PushResult.ok (record { header = h; payload = pl } ∷ []))
push-as_bytes h pl t frame last absent =
    ap (push (record { buf = []; chunks = t })) (one_frame h pl)
    ∙ push-encode_all ((h, pl) ∷ []) t (frame, tt)
    ∙ ap
        (λ (d : Table (List ℕ) × List IncomingMessage).
          (record { buf = []; chunks = d.0 }, PushResult.ok d.1))
        (deliver_whole t h pl last (sym frame.len) absent)
