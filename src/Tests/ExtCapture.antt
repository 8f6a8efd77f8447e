-- ===== src/Tests/ExtCapture.antt =====
-- The capture of concrete frames.
use remote_way.Prelude.{
  ℕ, ◌*◌, true, false, List, [], ◌∷◌, map, Option, some, replicate, ◌≡◌, refl, arith,
}
use remote_way.Compress.Delta.{DamageRect}
use remote_way.Capture.Text.{Str, codes}
use remote_way.Capture.Frame.{
  xrgb8888, from_wl_shm, CapturedFrame, flip_rows, flip_loop, mirror_rows, mirror_chunks,
  mirror_row, swap_blocks,
}
use remote_way.Capture.ExtCapture.{
  handle_toplevel, identifier_is, app_id_is, change, ok, DiscoveredToplevel, new_toplevel,
  choose_source, find_first, new_among, session_ended,
}
use remote_way.Capture.ExtCapture.Chosen.{Chosen, choose_source-Chosen}
use remote_way.Capture.ExtFrame.{
  ExtCaptureState, Event, ready, transform, writes, buffer_size, handle_event, delivers, fails,
  next_frame, stop,
}
use remote_way.Capture.Frame.Flipped.{concat, reversed, flip_rows-reversed}
use remote_way.Capture.Frame.Mirrored.{mirror_rows-reversed}
use remote_way.Capture.ExtFrame.Answered.{
  answered, later, at_once, by_ready, is_answer, next_frame-answers,
}

abbrev window : ℕ → Str → DiscoveredToplevel
window handle identifier = record {
  handle = handle;
  app_id = codes "app";
  title = [];
  identifier = identifier;
}

abbrev windows : List DiscoveredToplevel
windows = window 7 (codes "old") ∷ window 8 [] ∷ window 9 (codes "new") ∷ []

the_new_one : choose_source true true [] windows (new_toplevel (codes "old" ∷ [])) ≡ ok 9
unfolding choose_source new_among find_first
the_new_one = refl

choose_source-Chosen_example :
    Chosen true
      (codes "old" ∷ [])
      windows
      (choose_source true true [] windows (new_toplevel (codes "old" ∷ [])))
choose_source-Chosen_example = choose_source-Chosen true true [] (codes "old" ∷ []) windows

-- Two rows of two pixels.
abbrev rows : List ℕ
rows = 1 ∷ 1 ∷ 1 ∷ 1 ∷ 2 ∷ 2 ∷ 2 ∷ 2 ∷ 3 ∷ 3 ∷ 3 ∷ 3 ∷ 4 ∷ 4 ∷ 4 ∷ 4 ∷ []

flipped :
    flip_rows rows 8 ≡ some (3 ∷ 3 ∷ 3 ∷ 3 ∷ 4 ∷ 4 ∷ 4 ∷ 4 ∷ 1 ∷ 1 ∷ 1 ∷ 1 ∷ 2 ∷ 2 ∷ 2 ∷ 2 ∷ [])
unfolding flip_rows flip_loop swap_blocks
flipped = refl

mirrored :
    mirror_rows rows 8 ≡ some (2 ∷ 2 ∷ 2 ∷ 2 ∷ 1 ∷ 1 ∷ 1 ∷ 1 ∷ 4 ∷ 4 ∷ 4 ∷ 4 ∷ 3 ∷ 3 ∷ 3 ∷ 3 ∷ [])
unfolding mirror_rows mirror_chunks mirror_row swap_blocks
mirrored = refl

abbrev session : ExtCaptureState
session = record {
  session = true;
  shm_pool = some (record { active = replicate 16 0; inactive = replicate 16 0 });
  buffer_width = 2;
  buffer_height = 2;
  shm_format = some 1;
  session_ready = true;
  frame_ready = false;
  frame_transform = 0;
  frame_failed = false;
  damage_rects = [];
  timestamp_ns = 0;
  stopped = false;
}

abbrev rounds : List (Option (List Event))
rounds = some [] ∷ some (transform 6 ∷ writes rows ∷ []) ∷ some (ready ∷ []) ∷ []

abbrev full : DamageRect
full = record { x = 0; y = 0; width = 2; height = 2 }

-- The time runs out once, then a frame comes, upside down.
turned_frame :
    (next_frame session rounds).1
    ≡ delivers (record {
      bytes = 3 ∷ 3 ∷ 3 ∷ 3 ∷ 4 ∷ 4 ∷ 4 ∷ 4 ∷ 1 ∷ 1 ∷ 1 ∷ 1 ∷ 2 ∷ 2 ∷ 2 ∷ 2 ∷ [];
      damage = full ∷ [];
      format = xrgb8888;
      width = 2;
      height = 2;
      stride = 8;
      timestamp_ns = 0;
    })
unfolding next_frame handle_event from_wl_shm flip_rows flip_loop swap_blocks
turned_frame = refl

-- A session that grows keeps its buffers: the frame has the new size and the bytes of the old one.
abbrev grown : CapturedFrame
grown = record {
  bytes = rows;
  damage = record { x = 0; y = 0; width = 4; height = 4 } ∷ [];
  format = xrgb8888;
  width = 4;
  height = 4;
  stride = 16;
  timestamp_ns = 0;
}

grown_frame :
    (next_frame session (some (buffer_size 4 4 ∷ writes rows ∷ ready ∷ []) ∷ [])).1 ≡ delivers grown
unfolding next_frame handle_event from_wl_shm
grown_frame = refl

after_stop : (next_frame (stop session) rounds).1 ≡ fails session_ended
unfolding next_frame stop
after_stop = refl

next_frame-answers_example : is_answer (next_frame session rounds).1 ≡ true
next_frame-answers_example =
    next_frame-answers session rounds (omega arith, omega arith)
      (tt, ((tt, (tt, tt)), ((tt, tt), tt))) (later (later (answered (at_once by_ready))))

-- A name that comes before the application's is lost.
early_identifier :
    handle_toplevel (handle_toplevel [] 7 (identifier_is (codes "id"))) 7 (app_id_is (codes "app"))
    ≡ window 7 [] ∷ []
unfolding handle_toplevel change
early_identifier = refl

abbrev high_row : List (List ℕ)
high_row = (1 ∷ 1 ∷ 1 ∷ 1 ∷ []) ∷ (2 ∷ 2 ∷ 2 ∷ 2 ∷ []) ∷ []

abbrev low_row : List (List ℕ)
low_row = (3 ∷ 3 ∷ 3 ∷ 3 ∷ []) ∷ (4 ∷ 4 ∷ 4 ∷ 4 ∷ []) ∷ []

flip_rows-reversed_example :
    flip_rows (concat (map concat (high_row ∷ low_row ∷ []))) 8
    ≡ some (concat (reversed (map concat (high_row ∷ low_row ∷ []))))
flip_rows-reversed_example =
    flip_rows-reversed 8 (map concat (high_row ∷ low_row ∷ [])) (omega arith) (refl, (refl, tt))

mirror_rows-reversed_example :
    mirror_rows (concat (map concat (high_row ∷ low_row ∷ []))) (2 * 4)
    ≡ some (concat (map (λ row. concat (reversed row)) (high_row ∷ low_row ∷ [])))
mirror_rows-reversed_example =
    mirror_rows-reversed 2 (high_row ∷ low_row ∷ []) (omega arith)
      ((refl, (refl, (refl, tt))), ((refl, (refl, (refl, tt))), tt))
