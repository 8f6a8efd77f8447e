-- ===== src/Tests/Display.antt =====
-- The display at concrete frames and events.
use remote_way.Prelude.{
  ℕ, true, false, List, [], ◌∷◌, ◌++◌, Option, none, some, ◌≡◌, inl, refl, arith,
}
use remote_way.Display.Shm.{
  DisplayResult, ok, fresh_uploader, upload, swap, mark_released, can_upload,
}
use remote_way.Display.Surface.{
  ManagedSurface, Commit, DisplayState, buffer_released, callback_done, fit_preserve_aspect,
  present, present_frame, handle_event, handle_events, new_surface,
}
use remote_way.Display.Surface.Fit.{Fitted, fit_preserve_aspect-Fitted}
use remote_way.Display.Surface.Held.{Step, presents, happens, resizes, Flags, steps}
use remote_way.Display.Thread.{DisplayFrame, DisplayLoop, Answers, turn}
use remote_way.Display.Presentation.{new_sync, measure, record_presentation, record_presentations}
use remote_way.Display.Presentation.Interval.{Usable, record_presentations-Usable}
use remote_way.Display.Thread.Newest.{newest, Able, stays, goes, turns-shown}

-- 16:10 in a window of 16:9.
fit_preserve_aspect-Fitted_example :
    Fitted 1280 800 1920 1080 (fit_preserve_aspect 1280 800 1920 1080)
fit_preserve_aspect-Fitted_example =
    fit_preserve_aspect-Fitted 1280 800 1920 1080 (omega arith) (omega arith) (omega arith)
      (omega arith)

abbrev surface : ℕ → ManagedSurface
surface id = record (new_surface id false 1 1) {
  uploader = some (fresh_uploader 8 1 1 4);
  configured = true;
}

abbrev display : List ManagedSurface → DisplayState
display surfaces = record {
  compositor = true;
  shm = true;
  xdg_wm_base = true;
  viewporter = false;
  surfaces = surfaces;
  frame_done = false;
}

abbrev pixel : List ℕ
pixel = 1 ∷ 2 ∷ 3 ∷ 0 ∷ []

-- Two frames with the callback between them, the release of the first buffer, and a resize while the
-- second is held.
abbrev path : List Step
path =
    presents 0 7 pixel []
    ∷ happens (callback_done 7)
    ∷ presents 16 7 pixel []
    ∷ happens (buffer_released 0)
    ∷ happens (callback_done 7)
    ∷ resizes true 7 2 1
    ∷ []

abbrev one_surface : DisplayState × Flags
one_surface = (display (surface 7 ∷ []), (false, false))

abbrev third : DisplayState × DisplayResult (Option Commit)
third = present_frame (steps one_surface path).0 32 7 pixel []

-- With two surfaces, both with buffer 0 at the compositor, its release of one surface's buffer lets the
-- other surface write the buffer that is still held.
abbrev both : DisplayState
both =
    let d = (present_frame (display (surface 7 ∷ surface 8 ∷ [])) 0 7 pixel []).0 in
    let d' = (present_frame d 0 8 pixel []).0 in
    let d2 = handle_events d' (callback_done 8 ∷ []) in
    let d3 = (present_frame d2 16 8 pixel []).0 in
    handle_events d3 (callback_done 8 ∷ buffer_released 0 ∷ [])

held_buffer_written :
    (present_frame both 32 8 pixel []).1
    ≡ ok (
        some (record {
          buffer = 0;
          damage = record { x = 0; y = 0; width = 1; height = 1 } ∷ [];
          bytes = pixel;
        }))
unfolding handle_events handle_event present_frame present can_upload swap upload mark_released
held_buffer_written = refl

abbrev frame : ℕ → DisplayFrame
frame n = record {
  surface_id = 7;
  bytes = n ∷ 0 ∷ 0 ∷ 0 ∷ [];
  damage = [];
  width = 1;
  height = 1;
  stride = 4;
  timestamp_ns = n;
}

-- The first frame is with the compositor, and two more wait.
abbrev waiting : DisplayLoop
waiting = record {
  display = (present_frame (display (surface 7 ∷ [])) 0 7 pixel []).0;
  ring = frame 2 ∷ frame 3 ∷ [];
  pending_frame = none;
  shown = frame 1 ∷ [];
}

abbrev early : Answers
early = record { events = some []; roundtrip = none; made = true; now = 8 }

abbrev later : Answers
later = record { events = some (callback_done 7 ∷ []); roundtrip = none; made = true; now = 16 }

abbrev after_early : DisplayLoop
after_early = (turn waiting early).0

abbrev after_later : DisplayLoop
after_later = (turn after_early later).0

first_answered : turn waiting early ≡ (after_early, ok tt)
unfolding turn handle_events handle_event present_frame present can_upload swap upload
first_answered = refl

second_answered : turn after_early later ≡ (after_later, ok tt)
unfolding turn handle_events handle_event present_frame present can_upload swap upload
second_answered = refl

ready_Able : Able after_early (frame 3) later
unfolding turn handle_events handle_event present_frame present can_upload swap upload
ready_Able = record {
  events = callback_done 7 ∷ [];
  dispatches = refl;
  surface = record (surface 7) { uploader = some (swap (upload (fresh_uploader 8 1 1 4) pixel)) };
  found = refl;
  width = refl;
  height = refl;
  takes = record {
    configured = refl;
    waited = inl refl;
    uploader = swap (upload (fresh_uploader 8 1 1 4) pixel);
    there = refl;
    free = refl;
  };
}

turns-shown_example :
    (after_later.shown ≡ (frame 1 ∷ []) ++ (frame 3 ∷ [])) × (newest after_later ≡ none)
turns-shown_example =
    turns-shown waiting after_early after_later (early ∷ []) later (frame 3) refl
      (goes first_answered stays) ready_Able second_answered

-- Two reports a frame apart, one out of order, and one after a pause.
record_presentations-Usable_example :
    let q = record_presentations new_sync (100000000 ∷ 116000000 ∷ 90000000 ∷ 900000000 ∷ []) in
    Usable q.frame_interval_ns × (q.last_presented_ns ≡ 900000000) × (q.sample_count ≡ 4)
record_presentations-Usable_example =
    record_presentations-Usable new_sync (100000000 ∷ 116000000 ∷ 90000000 ∷ 900000000 ∷ [])
      (omega arith, omega arith) (omega arith)

-- After four samples one eighth of the difference is taken over.
fifth :
    (record_presentations new_sync
      (100000000 ∷ 116000000 ∷ 132000000 ∷ 148000000 ∷ 172000000 ∷ [])).frame_interval_ns
    ≡ 17000000
unfolding record_presentation measure
fifth = refl
