-- ===== src/Tests/Sync.antt =====
-- A session of four frames of 1 × 2 pixels: one of them is refused.
use remote_way.Prelude.{
  ℕ, zero, suc, ◌≤◌, ◌<◌, Bool, true, false, List, [], ◌∷◌, some, length, take, get_elem?, ◌≡◌, ◌⊎◌,
  inl, inr, refl, ◌∙◌, sym, ap, arith, All, get_elem?_past,
}
use remote_way.Proto.Wire.{IsU8}
use remote_way.Compress.Delta.{DamageRect}
use remote_way.Compress.Delta.Paint.{covered, in_rows}
use remote_way.Compress.Compressor.{CompressorKind}
use remote_way.Transport.Multiplexer.{new_parser}
use remote_way.Session.Server.{ServerState, Captured, message_type, frame_payload, after_send}
use remote_way.Session.Server
use remote_way.Session.Client.{ClientState, receive}
use remote_way.Session.Client
use remote_way.Session.Link.{Event, play}
use remote_way.Session.Sync.Frame.{Bounded}
use remote_way.Session.Sync.Base.{InStep, Frame}
use remote_way.Session.Sync.Round.{shown_frame, frame_payload-receive}
use remote_way.Session.Sync.History.{taken, Captures, play-start}
use native.Mathlib.Decide.{dec_lt}
use remote_way.Tests.Compress.{codecs, codecs-Lossless}

codecs-Bounded : Bounded codecs
codecs-Bounded = record {
  lz4_small = λ bytes h. omega arith;
  zstd_small = λ bytes packed h e. let same : bytes ≡ packed = cc in omega (arith, ap length same);
}

abbrev second_pixel : List DamageRect
second_pixel = record { x = 0; y = 1; width = 1; height = 1 } ∷ []

abbrev capture : List ℕ → List DamageRect → Bool → Captured
capture bytes damage lost = record {
  frame_data = bytes;
  frame_w = 1;
  frame_h = 2;
  frame_stride = 4;
  damage = damage;
  do_downscale = false;
  lost = lost;
}

abbrev black : List ℕ
black = 0 ∷ 0 ∷ 0 ∷ 255 ∷ 0 ∷ 0 ∷ 0 ∷ 255 ∷ []

abbrev one_red : List ℕ
one_red = 0 ∷ 0 ∷ 0 ∷ 255 ∷ 200 ∷ 0 ∷ 0 ∷ 255 ∷ []

abbrev two_red : List ℕ
two_red = 200 ∷ 0 ∷ 0 ∷ 255 ∷ 200 ∷ 0 ∷ 0 ∷ 255 ∷ []

abbrev events : List Event
events =
    record { captured = capture black [] false; timestamp_ns = 1; accepted = true }
    ∷ record { captured = capture one_red second_pixel false; timestamp_ns = 2; accepted = false }
    ∷ record { captured = capture black second_pixel false; timestamp_ns = 3; accepted = true }
    ∷ record { captured = capture two_red second_pixel true; timestamp_ns = 4; accepted = true }
    ∷ []

get_elem?-take : (n k : ℕ) (xs : List ℕ) → k < n → get_elem? (take n xs) k ≡ get_elem? xs k
get_elem?-take zero k xs h = absurd (omega arith)
get_elem?-take (suc n) k [] h = refl
get_elem?-take (suc n) zero (x ∷ xs) h = refl
get_elem?-take (suc n) (suc k) (x ∷ xs) h = get_elem?-take n k xs (omega arith)

second_pixel-covered :
    (a b : List ℕ) (k : ℕ)
    → take 4 a ≡ take 4 b
    → length a ≡ 8
    → length b ≡ 8
    → covered 4 second_pixel k ≡ false
    → get_elem? a k ≡ get_elem? b k
unfolding covered in_rows
second_pixel-covered a b k same la lb out = elim (dec_lt k 4) [
  | yes first ↦
      sym (get_elem?-take 4 k a first) ∙ ap (λ l. get_elem? l k) same ∙ get_elem?-take 4 k b first
  | no second ↦
      let past : 8 ≤ k = ground arith in
      get_elem?_past a k (omega arith) ∙ sym (get_elem?_past b k (omega arith))
]

capture-Frame :
    (bytes : List ℕ) (damage : List DamageRect) (lost : Bool)
    → length bytes ≡ 8
    → All IsU8 bytes
    → damage ≡ [] ⊎ damage ≡ second_pixel
    → Frame 1 2 (capture bytes damage lost)
capture-Frame bytes damage lost len small which = record {
  width_is = refl;
  height_is = refl;
  stride_is = refl;
  len = len;
  bytes = small;
  inside = elim which [
    | inl none_told ↦ rw none_told tt
    | inr told ↦ rw told ((omega arith, omega arith), tt)
  ];
  count = elim which [
    | inl none_told ↦ rw none_told (omega arith)
    | inr told ↦ rw told (omega arith)
  ];
}

events-Captures : Captures 1 2 [] events
events-Captures = (
  capture-Frame black [] false refl (ground arith) (inl refl),
  (λ kept plain told. cc),
  omega arith,
  (
    capture-Frame one_red second_pixel false refl (ground arith) (inr refl),
    (λ kept plain told k out. second_pixel-covered one_red black k refl refl refl out),
    omega arith,
    (
      capture-Frame black second_pixel false refl (ground arith) (inr refl),
      (λ kept plain told k out. second_pixel-covered black one_red k refl refl refl out),
      omega arith,
      (
        capture-Frame two_red second_pixel true refl (ground arith) (inr refl),
        (λ kept plain told. cc),
        omega arith,
        tt,
      ),
    ),
  ),
)

play-start_example :
    play codecs CompressorKind.lz4 8
      (record { server = Server.start; parser = new_parser; client = Client.start })
      events
    ≡ some (taken 1 2 events)
play-start_example =
    play-start codecs codecs-Lossless codecs-Bounded CompressorKind.lz4 8 1 2 (omega arith)
      (omega arith) (omega arith) events [] events-Captures

-- The server and the client after a black frame.
abbrev server_black : ServerState
server_black = record {
  previous_frame = black;
  is_first = false;
  frame_count = 7;
  need_full_damage = false;
}

abbrev client_black : ClientState
client_black = record { previous_frame = black; has_previous = true }

black-InStep : InStep 8 server_black client_black
black-InStep = record {
  same_base = refl;
  server_len = λ later. refl;
  client_len = λ known. refl;
  server_bytes = ground arith;
}

frame_payload-receive_example :
    (payload : List ℕ) × (next : ClientState) × (frame_payload codecs CompressorKind.zstd 4
        server_black
        (capture one_red second_pixel false)
      ≡ some payload)
    × (receive codecs CompressorKind.zstd client_black (message_type server_black) payload
        ≡ some (next, some (shown_frame 1 2 (capture one_red second_pixel false))))
    × InStep 8 (after_send server_black (capture one_red second_pixel false) true) next
    × InStep 8 (after_send server_black (capture one_red second_pixel false) false) client_black
frame_payload-receive_example =
    frame_payload-receive codecs codecs-Lossless codecs-Bounded CompressorKind.zstd 4 1 2
      (omega arith) (omega arith) (omega arith) server_black client_black
      (capture one_red second_pixel false) black black-InStep
      (capture-Frame one_red second_pixel false refl (ground arith) (inr refl))
      (λ kept plain told k out. second_pixel-covered one_red black k refl refl refl out)
      (λ later clean. refl)
