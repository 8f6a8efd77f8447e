-- ===== src/Transport/Multiplexer/Deliver.antt =====
-- The parser on whole frames: what it delivers, seen without the bytes.
use remote_way.Prelude.{
  ℕ, zero, suc, ◌+◌, ◌≤◌, ◌<◌, List, [], ◌∷◌, ◌++◌, Option, none, some, length, take, drop, ◌≡◌,
  refl, arith, length-append, take-length, drop-length, append_assoc, ◌∙◌, append-nil, sym, ap, All,
}
use remote_way.Prelude.Table.{Table}
use remote_way.Proto.Header.{
  FrameHeader, size, MsgType, TryMsgType, decode_msg_type, as_bytes, Fits,
}
use remote_way.Proto.Header.RoundTrip.{ref_from_bytes-as_bytes, length-as_bytes}
use remote_way.Transport.ChunkSender.Frames.{Frame, encode_all}
use remote_way.Transport.Multiplexer.{
  wait, frame, front, ok, IncomingMessage, push_loop, push, reassemble, emit, max_payload_len,
}
use remote_way.Transport.Multiplexer.Loop.{push_loop_wait, push_loop-frame}

-- A frame that the parser takes: its header fits, names a message type and tells the payload's length.
pub record IsFrame (f : Frame) : Type 0 where
  pub fits : Fits f.0
  pub known : (t : MsgType) × (decode_msg_type f.0 ≡ TryMsgType.ok t)
  pub len : f.0.payload_len ≡ length f.1
  pub small : length f.1 ≤ max_payload_len

unfoldable pub deliver : Table (List ℕ) → List Frame → Table (List ℕ) × List IncomingMessage
deliver c [] = (c, [])
deliver c ((h, pl) ∷ fs) =
    let r = reassemble c h pl in let rest = deliver r.0 fs in (rest.0, emit [] r.1 ++ rest.1)

pub front-frame :
    (h : FrameHeader) (pl rest : List ℕ)
    → IsFrame (h, pl)
    → front (as_bytes h ++ (pl ++ rest)) ≡ frame h pl rest
unfolding front
front-frame h pl rest f =
    let bytes = as_bytes h in
    let cut : take size (bytes ++ (pl ++ rest)) ≡ bytes =
      take-length bytes (pl ++ rest) size (sym (length-as_bytes h)) in
    let parsed = ref_from_bytes-as_bytes h f.fits in
    let whole : size + h.payload_len ≡ length (bytes ++ pl) =
      omega (arith, length-append bytes pl, length-as_bytes h, f.len) in
    let body : take (size + h.payload_len) (bytes ++ (pl ++ rest)) ≡ bytes ++ pl =
      rw (← append_assoc bytes pl rest) (take-length (bytes ++ pl) rest _ whole) in
    let tail : drop (size + h.payload_len) (bytes ++ (pl ++ rest)) ≡ rest =
      rw (← append_assoc bytes pl rest) (drop-length (bytes ++ pl) rest _ whole) in
    let load : drop size (bytes ++ pl) ≡ pl = drop-length bytes pl size (sym (length-as_bytes h)) in
    ground (
      arith,
      cut,
      parsed,
      f.known.1,
      f.len,
      f.small,
      length-append bytes (pl ++ rest),
      length-append pl rest,
      length-as_bytes h,
      body,
      tail,
      load,
    )

front_empty : front [] ≡ wait
unfolding front
front_empty = refl

emit-append :
    (out : List IncomingMessage) (m : Option IncomingMessage) (ms : List IncomingMessage)
    → emit out m ++ ms ≡ out ++ (emit [] m ++ ms)
emit-append out none ms = refl
emit-append out (some m) ms = append_assoc out (m ∷ []) ms

loop-deliver :
    (fs : List Frame) (g : ℕ) (c : Table (List ℕ)) (out : List IncomingMessage)
    → All IsFrame fs
    → length (encode_all fs) < g
    → push_loop g (encode_all fs) c out
      ≡ (record { buf = []; chunks = (deliver c fs).0 }, ok (out ++ (deliver c fs).1))
unfolding deliver encode_all
loop-deliver [] zero c out all h = absurd (omega arith)
loop-deliver [] (suc g) c out all h = push_loop_wait g [] c out front_empty ∙ simp append-nil
loop-deliver ((hd, pl) ∷ fs) zero c out all h = absurd (omega arith)
loop-deliver ((hd, pl) ∷ fs) (suc g) c out all h =
    let r = reassemble c hd pl in
    push_loop-frame g _ c out hd pl (encode_all fs) (front-frame hd pl (encode_all fs) all.0)
    ∙ loop-deliver fs g r.0 (emit out r.1) all.1 (
        omega (
          arith,
          length-append (as_bytes hd) (pl ++ encode_all fs),
          length-append pl (encode_all fs),
          length-as_bytes hd,
        ))
    ∙ ap (λ ms. (record { buf = []; chunks = (deliver r.0 fs).0 }, ok ms))
        (emit-append out r.1 (deliver r.0 fs).1)

-- A parser whose buffer is empty takes the bytes of any list of frames in one call, leaves nothing
-- in the buffer, and puts out what the frames deliver, in their order.
pub push-encode_all :
    (fs : List Frame) (c : Table (List ℕ))
    → All IsFrame fs
    → push (record { buf = []; chunks = c }) (encode_all fs)
      ≡ (record { buf = []; chunks = (deliver c fs).0 }, ok (deliver c fs).1)
unfolding push
push-encode_all fs c all = loop-deliver fs (suc (length (encode_all fs))) c [] all (omega arith)
