-- ===== src/Session/Sync/History.antt =====
-- Whole sessions: every frame that the transport takes is shown as it was captured.
use remote_way.Prelude.{
  ℕ, suc, ◌*◌, ◌^◌, ◌<◌, bit_or, Bool, true, false, List, [], ◌∷◌, ◌++◌, none, some, length,
  if◌then◌else◌, ◌≡◌, inl, inr, refl, ◌∙◌, sym, ap, arith, Bool-cases,
}
use remote_way.Prelude.Table.{find}
use remote_way.Proto.Wire.{IsU64}
use remote_way.Proto.Header.{MsgType, TryMsgType, decode_msg_type, compressed, last_chunk, new}
use remote_way.Compress.Compressor.{Codecs, Lossless, CompressorKind}
use remote_way.Transport.ChunkSender.{split_into_chunks}
use remote_way.Transport.Multiplexer.{StreamParser, PushResult, IncomingMessage, new_parser, push}
use remote_way.Transport.RoundTrip.{Sends, try_from-to_u8, push-split_into_chunks}
use remote_way.Session.Server.{ServerState, Captured, message_type, frame_payload, after_send}
use remote_way.Session.Server
use remote_way.Session.Client.{ClientState, Shown, receive}
use remote_way.Session.Client
use remote_way.Session.Link.{
  Ends, Event, wire_chunk_size, dispatch, handle, handle_all, wire_bytes, arrive, round, play,
}
use remote_way.Session.Sync.Frame.{Bounded}
use remote_way.Session.Sync.Base.{InStep, Frame, Told, Fresh}
use remote_way.Session.Sync.Round.{shown_frame, frame_payload-receive}

-- The frames that the transport took, as the client is to show them.
abbrev pub taken : ℕ → ℕ → List Event → List Shown
taken w h [] = []
taken w h (e ∷ es) = if e.accepted then shown_frame w h e.captured ∷ taken w h es else taken w h es

-- Frames of the session's size, each with the damage that the capture promises after the one before.
abbrev pub Captures : ℕ → ℕ → List ℕ → List Event → Type 0
Captures w h last [] = Unit {0}
Captures w h last (e ∷ es) =
    Frame w h e.captured
    × Told w last e.captured
    × IsU64 e.timestamp_ns
    × Captures w h e.captured.frame_data es

frame-Sends :
    (timestamp_ns : ℕ) → IsU64 timestamp_ns → Sends 1 compressed timestamp_ns wire_chunk_size
frame-Sends timestamp_ns h = record {
  stream_fits = omega arith;
  flags_fit = omega arith;
  unmarked = refl;
  time_fits = h;
  some_bytes = omega arith;
  not_too_large = omega arith;
}

decode-new :
    (stream_id : ℕ) (t : MsgType) (flags n timestamp_ns : ℕ)
    → decode_msg_type (new stream_id t flags n timestamp_ns) ≡ TryMsgType.ok t
unfolding decode_msg_type new
decode-new stream_id t flags n timestamp_ns = try_from-to_u8 t

after_send-Fresh :
    (s : ServerState) (f : Captured) (sent : Bool) → Fresh (after_send s f sent) f.frame_data
unfolding after_send
after_send-Fresh s f true later clean = refl
after_send-Fresh s f false later clean = cc

find-nothing : (k : ℕ) → find {V = List ℕ} k [] ≡ none
unfolding find
find-nothing k = refl

module _ (c : Codecs) (kind : CompressorKind) where
  handle_one :
      (cl : ClientState) (t : MsgType) (n timestamp_ns flags : ℕ) (payload : List ℕ)
      → handle c kind cl (record { header = new 1 t flags n timestamp_ns; payload = payload })
        ≡ receive c kind cl t payload
  unfolding handle
  handle_one cl t n timestamp_ns flags payload =
      ap (dispatch c kind cl payload) (decode-new 1 t flags n timestamp_ns)

  handle_all_one :
      (cl next : ClientState) (t : MsgType) (x : Shown) (n timestamp_ns flags : ℕ)
      (payload : List ℕ)
      → receive c kind cl t payload ≡ some (next, some x)
      → handle_all c kind cl
          (record { header = new 1 t flags n timestamp_ns; payload = payload } ∷ [])
        ≡ some (next, x ∷ [])
  unfolding handle_all
  handle_all_one cl next t x n timestamp_ns flags payload e =
      rw (handle_one cl t n timestamp_ns flags payload, e)

module _ (c : Codecs) (lossless : Lossless c) (bounded : Bounded c) (kind : CompressorKind)
    (threads w h : ℕ) (small : h * (w * 4) < 2 ^ 31) (narrow : w * 4 < 2 ^ 32)
    (low : h < 2 ^ 32) where
  -- The ends in step, with nothing unread and no unfinished message of the frames' stream.
  pub record Joined (ends : Ends) (last : List ℕ) : Type 0 where
    pub in_step : InStep (h * (w * 4)) ends.server ends.client
    pub fresh : Fresh ends.server last
    pub no_bytes : ends.parser.buf ≡ []
    pub no_chunks : find 1 ends.parser.chunks ≡ none

  wire_made :
      (s : ServerState) (e : Event) (payload bytes : List ℕ)
      → frame_payload c kind threads s e.captured ≡ some payload
      → split_into_chunks 1
          (message_type s)
          compressed
          payload
          e.timestamp_ns
          wire_chunk_size
          (suc (length payload))
          []
        ≡ some bytes
      → wire_bytes c kind threads s e ≡ some bytes
  unfolding wire_bytes
  wire_made s e payload bytes made written = rw made written

  arrive_made :
      (ends : Ends) (e : Event) (bytes : List ℕ) (q : StreamParser) (ms : List IncomingMessage)
      (client : ClientState) (shown : List Shown)
      → push ends.parser bytes ≡ (q, PushResult.ok ms)
      → handle_all c kind ends.client ms ≡ some (client, shown)
      → arrive c kind threads ends e bytes
        ≡ some (
          record { server = after_send ends.server e.captured true; parser = q; client = client },
          shown,
        )
  unfolding arrive
  arrive_made ends e bytes q ms client shown pushed handled = rw pushed (rw handled)

  round_taken :
      (ends next : Ends) (e : Event) (bytes : List ℕ) (shown : List Shown)
      → wire_bytes c kind threads ends.server e ≡ some bytes
      → arrive c kind threads ends e bytes ≡ some (next, shown)
      → e.accepted ≡ true
      → round c kind threads ends e ≡ some (next, shown)
  unfolding round
  round_taken ends next e bytes shown wired arrived accepted = rw wired (
      ap
        (λ b.
          if b
          then arrive c kind threads ends e bytes
          else some (record ends { server = after_send ends.server e.captured false }, []))
        accepted
      ∙ arrived)

  round_refused :
      (ends : Ends) (e : Event) (bytes : List ℕ)
      → wire_bytes c kind threads ends.server e ≡ some bytes
      → e.accepted ≡ false
      → round c kind threads ends e
        ≡ some (record ends { server = after_send ends.server e.captured false }, [])
  unfolding round
  round_refused ends e bytes wired accepted = rw (wired, accepted)

  round-Joined :
      (ends : Ends) (e : Event) (last : List ℕ)
      → Joined ends last
      → Frame w h e.captured
      → Told w last e.captured
      → IsU64 e.timestamp_ns
      → (next : Ends) × (round c kind threads ends e
          ≡ some (next, if e.accepted then shown_frame w h e.captured ∷ [] else []))
        × Joined next e.captured.frame_data
  round-Joined ends e last j fr told time =
      let (payload, client, made, received, after, kept) =
        frame_payload-receive c lossless bounded kind threads w h small narrow low ends.server
          ends.client e.captured last j.in_step fr told j.fresh in
      let (bytes, n, written, few, pushed) =
        push-split_into_chunks 1 (message_type ends.server) compressed e.timestamp_ns
          wire_chunk_size (frame-Sends e.timestamp_ns time) payload (suc (length payload))
          ends.parser.chunks j.no_chunks (omega arith) in
      let handled =
        handle_all_one c kind ends.client client (message_type ends.server)
          (shown_frame w h e.captured) n e.timestamp_ns (bit_or compressed last_chunk) payload
          received in
      let wired = wire_made ends.server e payload bytes made written in
      let held : ends.parser ≡ record { buf = []; chunks = ends.parser.chunks } = cc in
      elim (Bool-cases e.accepted) [
        | inl accepted ↦
            let q : StreamParser = record { buf = []; chunks = ends.parser.chunks } in
            let next : Ends = record {
              server = after_send ends.server e.captured true;
              parser = q;
              client = client;
            } in
            (
              next,
              round_taken ends next e bytes _ wired
                    (arrive_made ends e bytes q _ client _ (ap (λ p. push p bytes) held ∙ pushed)
                      handled)
                    accepted
                  ∙ ap (λ b. some (next, if b then shown_frame w h e.captured ∷ [] else []))
                      (sym accepted),
              record {
                in_step = after;
                fresh = after_send-Fresh ends.server e.captured true;
                no_bytes = refl;
                no_chunks = j.no_chunks;
              },
            )
        | inr refused ↦
            let next : Ends = record ends { server = after_send ends.server e.captured false } in
            (
              next,
              round_refused ends e bytes wired refused
                  ∙ ap (λ b. some (next, if b then shown_frame w h e.captured ∷ [] else []))
                      (sym refused),
              record {
                in_step = kept;
                fresh = after_send-Fresh ends.server e.captured false;
                no_bytes = j.no_bytes;
                no_chunks = j.no_chunks;
              },
            )
      ]

  shown-append :
      (b : Bool) (x : Shown) (rest : List Shown)
      → (if b then x ∷ [] else []) ++ rest ≡ (if b then x ∷ rest else rest)
  shown-append true x rest = refl
  shown-append false x rest = refl

  play-Joined :
      (es : List Event) (ends : Ends) (last : List ℕ)
      → Joined ends last
      → Captures w h last es
      → play c kind threads ends es ≡ some (taken w h es)
  unfolding play
  play-Joined [] ends last j cap = refl
  play-Joined (e ∷ es) ends last j cap =
      let (next, ran, joined) = round-Joined ends e last j cap.0 cap.1 cap.2 in
      let rest = play-Joined es next e.captured.frame_data joined cap.3 in
      rw (ran, rest) (ap some (shown-append e.accepted (shown_frame w h e.captured) (taken w h es)))

  -- From the start of a session the client shows, in order, exactly the frames that the transport
  -- took, each as the server captured it, whichever frames the transport refuses; no frame makes
  -- either side panic, and no parser's fuel runs out. The codecs are lossless, the frames have one
  -- size, of less than 2 GiB and without padding, what the transport takes arrives in order, and each
  -- frame's damage is what the capture promises after the frame before.
  pub play-start :
      (es : List Event) (last : List ℕ)
      → Captures w h last es
      → play c kind threads
          (record { server = Server.start; parser = new_parser; client = Client.start })
          es
        ≡ some (taken w h es)
  play-start es last cap =
      play-Joined es _ last
        (record {
          in_step = record {
            same_base = refl;
            server_len = λ later. cc;
            client_len = λ known. cc;
            server_bytes = tt;
          };
          fresh = λ later clean. cc;
          no_bytes = refl;
          no_chunks = find-nothing 1;
        })
        cap
