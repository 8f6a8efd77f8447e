-- ===== src/Capture/ExtFrame/Answered.antt =====
-- When a request for a frame is answered.
use remote_way.Prelude.{
  ℕ, ◌^◌, ◌<◌, Bool, true, false, not, List, [], ◌∷◌, Option, none, some, if◌then◌else◌, ◌≡◌, refl,
  arith, All,
}
use remote_way.Prelude.Table.{is_some}
use remote_way.Capture.Frame.{PixelFormat}
use remote_way.Compress.Delta.{DamageRect}
use remote_way.Capture.ExtFrame.{
  ShmBufferPool, ExtCaptureState, Event, buffer_size, shm_format, done, stopped, damage,
  presentation_time, transform, ready, failed, writes, written, handle_event, handle_events,
  FrameOutcome, delivers, fails, panics, waits, ended, await_frame, or_full, stride_of,
  undo_transform, deliver, with_format, finish_frame, reset_frame, next_frame,
}
use remote_way.Capture.ExtFrame.Delivered.{upright-total}

-- An event that ends the wait.
pub data EndsWait : Event → Type 0 where
  by_ready : EndsWait ready
  by_failed : EndsWait failed
  by_stopped : EndsWait stopped

pub data EndsIn : List Event → Type 0 where
  at_once : {e : Event} {es : List Event} → EndsWait e → EndsIn (e ∷ es)
  after : {e : Event} {es : List Event} → EndsIn es → EndsIn (e ∷ es)

-- A round that fails or brings such an event.
pub data Answered : List (Option (List Event)) → Type 0 where
  answered :
      {events : List Event} {rounds : List (Option (List Event))}
      → EndsIn events
      → Answered (some events ∷ rounds)
  fails_first : {rounds : List (Option (List Event))} → Answered (none ∷ rounds)
  later :
      {events : List Event} {rounds : List (Option (List Event))}
      → Answered rounds
      → Answered (some events ∷ rounds)

-- No event takes an end back.
ended-handle_event :
    (s : ExtCaptureState) (e : Event) → ended s ≡ true → ended (handle_event s e) ≡ true
unfolding handle_event
ended-handle_event s (buffer_size w h) k = k
ended-handle_event s (shm_format f) k = k
ended-handle_event s done k = k
ended-handle_event s stopped k = ground arith
ended-handle_event s (damage r) k = k
ended-handle_event s (presentation_time hi lo n) k = k
ended-handle_event s (transform t) k = k
ended-handle_event s ready k = refl
ended-handle_event s failed k = ground arith
ended-handle_event s (writes bytes) k = k

ended-handle_events :
    (s : ExtCaptureState) (es : List Event) → ended s ≡ true → ended (handle_events s es) ≡ true
ended-handle_events s [] h = h
ended-handle_events s (e ∷ es) h =
    ended-handle_events (handle_event s e) es (ended-handle_event s e h)

EndsWait-handle_event :
    (s : ExtCaptureState) (e : Event) → EndsWait e → ended (handle_event s e) ≡ true
unfolding handle_event
EndsWait-handle_event s _ by_ready = refl
EndsWait-handle_event s _ by_failed = ground arith
EndsWait-handle_event s _ by_stopped = ground arith

EndsIn-handle_events :
    (s : ExtCaptureState) (es : List Event) → EndsIn es → ended (handle_events s es) ≡ true
EndsIn-handle_events s [] h = elim h [ ]
EndsIn-handle_events s (e ∷ es) (at_once h) =
    ended-handle_events (handle_event s e) es (EndsWait-handle_event s e h)
EndsIn-handle_events s (e ∷ es) (after h) = EndsIn-handle_events (handle_event s e) es h

-- Whether a frame or an error is given: neither a panic nor a wait is an answer.
abbrev pub is_answer : FrameOutcome → Bool
is_answer (delivers f) = true
is_answer (fails e) = true
is_answer panics = false
is_answer waits = false

-- A width of which a row has bytes, as many as it is to have.
abbrev pub Wide : ℕ → Type 0
Wide width = (0 < width) × (width < 2 ^ 30)

-- The sizes that the compositor gives are such.
abbrev pub Sized : Event → Type 0
Sized (buffer_size width height) = Wide width
Sized _ = Unit {0}

abbrev pub AllSized : List (Option (List Event)) → Type 0
AllSized [] = Unit {0}
AllSized (none ∷ rounds) = AllSized rounds
AllSized (some events ∷ rounds) = All Sized events × AllSized rounds

-- The width is one and there are buffers.
record Steady (s : ExtCaptureState) : Type 0 where
  wide : Wide s.buffer_width
  buffered : is_some s.shm_pool ≡ true

if-answers :
    (b : Bool) (x y : ExtCaptureState × FrameOutcome)
    → (b ≡ true → is_answer x.1 ≡ true)
    → (b ≡ false → is_answer y.1 ≡ true)
    → is_answer (if b then x else y).1 ≡ true
if-answers true x y told told_else = told refl
if-answers false x y told told_else = told_else refl

deliver-answers :
    (s : ExtCaptureState) (pool : ShmBufferPool) (format : PixelFormat) (bytes : Option (List ℕ))
    → (r : List ℕ) × (bytes ≡ some r)
    → is_answer (deliver s pool format bytes).1 ≡ true
deliver-answers s pool format none (r, e) = absurd cc
deliver-answers s pool format (some bytes) _ = refl

with_format-answers :
    (s : ExtCaptureState) (pool : Option ShmBufferPool) (format : Option PixelFormat)
    → Wide s.buffer_width
    → is_some pool ≡ true
    → is_answer (with_format s pool format).1 ≡ true
with_format-answers s pool none wide h = refl
with_format-answers s none (some format) wide h = absurd cc
with_format-answers s (some pool) (some format) (positive, small) h =
    deliver-answers (undo_transform s) pool format _
      (upright-total s.frame_transform (stride_of s) pool.active (ground (arith, positive, small)))

or_full-Steady :
    (s : ExtCaptureState) (rects : List DamageRect) → Steady s → Steady (or_full s rects)
or_full-Steady s [] h = record { wide = h.wide; buffered = h.buffered }
or_full-Steady s (r ∷ rs) h = h

finish_frame-answers : (s : ExtCaptureState) → Steady s → is_answer (finish_frame s).1 ≡ true
finish_frame-answers s h =
    let h' = or_full-Steady s s.damage_rects h in
    if-answers s.stopped _ _ (λ _. refl)
      (λ _.
        if-answers s.frame_failed _ _ (λ _. refl)
          (λ _. with_format-answers (or_full s s.damage_rects) _ _ h'.wide h'.buffered))

written-is_some :
    (o : Option ShmBufferPool) (bytes : List ℕ)
    → is_some o ≡ true
    → is_some (written o bytes) ≡ true
written-is_some none bytes h = h
written-is_some (some pool) bytes h = refl

handle_event-Steady :
    (s : ExtCaptureState) (e : Event) → Sized e → Steady s → Steady (handle_event s e)
unfolding handle_event
handle_event-Steady s (buffer_size w h) sized k = record { wide = sized; buffered = k.buffered }
handle_event-Steady s (shm_format f) sized k = record { wide = k.wide; buffered = k.buffered }
handle_event-Steady s done sized k = record { wide = k.wide; buffered = k.buffered }
handle_event-Steady s stopped sized k = record { wide = k.wide; buffered = k.buffered }
handle_event-Steady s (damage r) sized k = record { wide = k.wide; buffered = k.buffered }
handle_event-Steady s (presentation_time hi lo n) sized k = record {
  wide = k.wide;
  buffered = k.buffered;
}
handle_event-Steady s (transform t) sized k = record { wide = k.wide; buffered = k.buffered }
handle_event-Steady s ready sized k = record { wide = k.wide; buffered = k.buffered }
handle_event-Steady s failed sized k = record { wide = k.wide; buffered = k.buffered }
handle_event-Steady s (writes bytes) sized k = record {
  wide = k.wide;
  buffered = written-is_some s.shm_pool bytes k.buffered;
}

handle_events-Steady :
    (s : ExtCaptureState) (es : List Event) → All Sized es → Steady s → Steady (handle_events s es)
handle_events-Steady s [] sized h = h
handle_events-Steady s (e ∷ es) (first, rest) h =
    handle_events-Steady (handle_event s e) es rest (handle_event-Steady s e first h)

-- Once the wait is over, whatever rounds would follow.
ended-answers :
    (s : ExtCaptureState) (rounds : List (Option (List Event)))
    → Steady s
    → ended s ≡ true
    → is_answer (await_frame s rounds finish_frame).1 ≡ true
ended-answers s [] k h =
    if-answers (ended s) _ _ (λ _. finish_frame-answers s k) (λ not_yet. absurd cc)
ended-answers s (none ∷ rounds) k h =
    if-answers (ended s) _ _ (λ _. finish_frame-answers s k) (λ not_yet. refl)
ended-answers s (some events ∷ rounds) k h =
    if-answers (ended s) _ _ (λ _. finish_frame-answers s k) (λ not_yet. absurd cc)

await_frame-answers :
    (s : ExtCaptureState) (rounds : List (Option (List Event)))
    → Steady s
    → AllSized rounds
    → Answered rounds
    → is_answer (await_frame s rounds finish_frame).1 ≡ true
await_frame-answers s [] k sized a = elim a [ ]
await_frame-answers s (none ∷ rounds) k sized a =
    if-answers (ended s) _ _ (λ _. finish_frame-answers s k) (λ _. refl)
await_frame-answers s (some events ∷ rounds) k (sized, rest) (answered h) =
    if-answers (ended s) _ _ (λ _. finish_frame-answers s k)
      (λ _.
        ended-answers (handle_events s events) rounds (handle_events-Steady s events sized k)
          (EndsIn-handle_events s events h))
await_frame-answers s (some events ∷ rounds) k (sized, rest) (later a) =
    if-answers (ended s) _ _ (λ _. finish_frame-answers s k)
      (λ _.
        await_frame-answers (handle_events s events) rounds (handle_events-Steady s events sized k)
          rest a)

-- If in some round dispatching fails, the frame becomes ready or fails, or the session stops, the request
-- ends with a frame or an error, however many rounds without an event came before, and does not
-- panic: the width, and each that the compositor gives meanwhile, is more than 0 and less than 2 ^ 30.
pub next_frame-answers :
    (s : ExtCaptureState) (rounds : List (Option (List Event)))
    → Wide s.buffer_width
    → AllSized rounds
    → Answered rounds
    → is_answer (next_frame s rounds).1 ≡ true
unfolding next_frame
next_frame-answers s rounds wide sized a =
    if-answers s.stopped _ _ (λ _. refl)
      (λ _.
        if-answers (not s.session) _ _ (λ _. refl)
          (λ _.
            if-answers (not (is_some s.shm_pool)) _ _ (λ _. refl)
              (λ buffered.
                await_frame-answers (reset_frame s) rounds
                  (record { wide = wide; buffered = ground (arith, buffered) }) sized a)))
