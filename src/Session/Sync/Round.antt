-- ===== src/Session/Sync/Round.antt =====
-- One frame from the server's loop to the client's, and the history of a session.
use remote_way.Prelude.{
  ℕ, ◌*◌, ◌%◌, ◌^◌, ◌<◌, Bool, true, false, List, [], some, ◌≡◌, inl, inr, refl, ◌∙◌, sym, arith,
  Bool-cases,
}
use remote_way.Compress.Delta.{DamageRect}
use remote_way.Compress.Compressor.{Codecs, Lossless, CompressorKind}
use remote_way.Compress.Compressor
use remote_way.Session.Payload
use remote_way.Compress.Pipeline.{
  CompressedFrame, resize_zero, compress_frame_into, decompress_frame_into, default_stats,
}
use remote_way.Compress.Pipeline.RoundTrip.{length-resize_zero}
use remote_way.Session.Payload.{FramePayload}
use remote_way.Session.Server.{
  ServerState, Captured, force_anchor, chosen_regions, delta_base, message_type, frame_payload,
  after_send,
}
use remote_way.Session.Client.{ClientState, Shown, rebase, decode_frame, receive}
use remote_way.Session.Sync.Frame.{Bounded, Drawn, arrived, frame_arrives}
use remote_way.Session.Sync.Base.{
  resize_zero-length, All-resize_zero, InStep, Frame, Told, Fresh, delta_base-resize_zero,
  rebase-resize_zero, chosen_regions-Covering,
}

-- What the client hands to the display for a frame of w × h pixels.
abbrev pub shown_frame : ℕ → ℕ → Captured → Shown
shown_frame w h f = record { output = f.frame_data; width = w; height = h; stride = w * 4 }

module _ (c : Codecs) (lossless : Lossless c) (bounded : Bounded c) (kind : CompressorKind)
    (threads w h : ℕ) (small : h * (w * 4) < 2 ^ 31) (narrow : w * 4 < 2 ^ 32)
    (low : h < 2 ^ 32) where
  abbrev size : ℕ
  size = h * (w * 4)

  -- The frame, drawn over the delta base that both ends have.
  server_draws :
      (s : ServerState) (cl : ClientState) (f : Captured) (last : List ℕ)
      → InStep size s cl
      → Frame w h f
      → Told w last f
      → Fresh s last
      → Drawn c lossless bounded kind w h small f.frame_data
          (resize_zero size s.previous_frame)
          (chosen_regions threads s f)
  server_draws s cl f last step fr told fresh =
      let base = resize_zero size s.previous_frame in
      let cover =
        chosen_regions-Covering w h threads s f last base low fr told fresh
          (length-resize_zero size s.previous_frame)
          (λ later. resize_zero-length size s.previous_frame (step.server_len later)) in
      record {
        width_fits = narrow;
        height_fits = low;
        count_fits = cover.few;
        current_len = fr.len;
        base_len = length-resize_zero size s.previous_frame;
        current_bytes = fr.bytes;
        base_bytes = All-resize_zero size s.previous_frame step.server_bytes;
        inside = cover.within;
        agree = cover.agree;
      }

  client_shows :
      (is_anchor : Bool) (s : ServerState) (cl : ClientState) (f : Captured) (g : CompressedFrame)
      (regions : List DamageRect)
      → InStep size s cl
      → decompress_frame_into c
          (record g { stats = default_stats })
          (resize_zero size s.previous_frame)
          (w * 4)
          regions
          []
          kind
        ≡ some (Compressor.Result.ok f.frame_data)
      → decode_frame c kind is_anchor cl
          (Payload.ok (arrived c lossless bounded kind w h small g regions))
        ≡ some (
          record { previous_frame = f.frame_data; has_previous = true },
          some (shown_frame w h f),
        )
  unfolding decode_frame
  client_shows is_anchor s cl f g regions step decoded =
      let p = arrived c lossless bounded kind w h small g regions in
      let area : p.stride * p.height % 2 ^ 32 ≡ size = omega arith in
      let based : (rebase is_anchor cl p).previous_frame ≡ resize_zero size s.previous_frame =
        rebase-resize_zero size is_anchor cl p area step.client_len ∙ sym step.same_base in
      rw (based, decoded)

  receive_frame :
      (s : ServerState) (cl : ClientState) (payload : List ℕ)
      → receive c kind cl (message_type s) payload
        ≡ decode_frame c kind (force_anchor s) cl (Payload.deserialize_frame_payload payload)
  unfolding receive message_type
  receive_frame s cl payload = elim (Bool-cases (force_anchor s)) [
    | inl forced ↦ rw forced
    | inr quiet ↦ rw quiet
  ]

  sent-InStep :
      (s : ServerState) (f : Captured)
      → Frame w h f
      → InStep size
          (after_send s f true)
          (record { previous_frame = f.frame_data; has_previous = true })
  unfolding after_send
  sent-InStep s f fr = record {
    same_base = refl;
    server_len = λ later. fr.len;
    client_len = λ known. fr.len;
    server_bytes = fr.bytes;
  }

  refused-InStep :
      (s : ServerState) (cl : ClientState) (f : Captured)
      → Frame w h f
      → InStep size s cl
      → InStep size (after_send s f false) cl
  unfolding after_send
  refused-InStep s cl f fr step =
      let base : delta_base s f ≡ resize_zero size s.previous_frame =
        delta_base-resize_zero size s f fr.len step.server_len in
      record {
        same_base = rw base (
            resize_zero-length size (resize_zero size s.previous_frame)
              (length-resize_zero size s.previous_frame)
            ∙ step.same_base);
        server_len = λ later. rw base (length-resize_zero size s.previous_frame);
        client_len = step.client_len;
        server_bytes = rw base (All-resize_zero size s.previous_frame step.server_bytes);
      }

  payload_made :
      (s : ServerState) (f : Captured) (base : List ℕ) (regions : List DamageRect)
      (g : CompressedFrame) (payload : List ℕ)
      → Frame w h f
      → delta_base s f ≡ base
      → chosen_regions threads s f ≡ regions
      → compress_frame_into c f.frame_data base (w * 4) regions kind 0 0 ≡ some g
      → Payload.serialize_frame_payload w h (w * 4) regions g ≡ some payload
      → frame_payload c kind threads s f ≡ some payload
  unfolding frame_payload
  payload_made s f base regions g payload fr based chosen made wrote =
      rw (chosen, based, fr.stride_is, fr.width_is, fr.height_is, made) wrote

  -- From ends in step the server makes a payload of the frame without a panic, and the client
  -- decodes it, under the message type that the server gives it, to exactly the frame, and shows
  -- that. The ends are in step again after it, and also if the transport refuses the frame and
  -- the client never sees it. The frame has the session's size, and its damage is what the
  -- capture promises.
  pub frame_payload-receive :
      (s : ServerState) (cl : ClientState) (f : Captured) (last : List ℕ)
      → InStep size s cl
      → Frame w h f
      → Told w last f
      → Fresh s last
      → (payload : List ℕ) × (next : ClientState) × (frame_payload c kind threads s f
          ≡ some payload)
        × (receive c kind cl (message_type s) payload ≡ some (next, some (shown_frame w h f)))
        × InStep size (after_send s f true) next
        × InStep size (after_send s f false) cl
  frame_payload-receive s cl f last step fr told fresh =
      let draws = server_draws s cl f last step fr told fresh in
      let (g, payload, made, wrote, read, decoded) =
        frame_arrives c lossless bounded kind w h small f.frame_data
          (resize_zero size s.previous_frame) (chosen_regions threads s f) draws in
      let base : delta_base s f ≡ resize_zero size s.previous_frame =
        delta_base-resize_zero size s f fr.len step.server_len in
      let shows =
        client_shows (force_anchor s) s cl f g (chosen_regions threads s f) step decoded in
      (
        payload,
        record { previous_frame = f.frame_data; has_previous = true },
        payload_made s f (resize_zero size s.previous_frame) (chosen_regions threads s f) g payload
            fr base refl made wrote,
        receive_frame s cl payload ∙ rw read shows,
        sent-InStep s f fr,
        refused-InStep s cl f fr step,
      )
