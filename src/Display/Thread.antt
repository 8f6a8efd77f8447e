-- ===== src/Display/Thread.antt =====
-- crates/remoteway-display/src/thread.rs: the ring of frames and the loop that shows them. The thread
-- itself, its stop flag and the wait of an idle turn are left out. What the system answers during a
-- turn is a parameter: the events that it dispatches, the time, and the making of surfaces.
pub mod Newest
use remote_way.Prelude.{
  ℕ, suc, ◌+◌, Bool, true, false, not, ◌&&◌, ◌||◌, List, [], ◌∷◌, ◌++◌, Option, none, some, length,
  ltb, ◌==◌, if◌then◌else◌,
}
use remote_way.Prelude.Table.{is_some}
use remote_way.Display.Shm.{DisplayError, wayland_dispatch, DisplayResult, ok, err, DamageRegion}
use remote_way.Display.Surface.{
  ManagedSurface, Commit, DisplayState, Event, find_surface, handle_events, create_surface,
  resize_surface, present_frame,
}

pub record DisplayFrame : Type 0 where
  pub surface_id : ℕ
  pub bytes : List ℕ
  pub damage : List DamageRegion
  pub width : ℕ
  pub height : ℕ
  pub stride : ℕ
  pub timestamp_ns : ℕ

-- `ring` is what the producer pushed and the loop did not pop, `shown` what was committed, first to
-- last.
pub record DisplayLoop : Type 0 where
  pub display : DisplayState
  pub ring : List DisplayFrame
  pub pending_frame : Option DisplayFrame
  pub shown : List DisplayFrame

-- `false` if the ring is full.
unfoldable pub send_frame : ℕ → DisplayLoop → DisplayFrame → DisplayLoop × Bool
send_frame ring_capacity l frame =
    if ltb (length l.ring) ring_capacity
    then (record l { ring = l.ring ++ (frame ∷ []) }, true)
    else (l, false)

-- A turn of the loop: `events` is `none` if dispatching fails, `created` if the roundtrip of a new
-- surface does, and `made` says whether buffers can be had.
pub record Answers : Type 0 where
  pub events : Option (List Event)
  pub roundtrip : Option (List Event)
  pub made : Bool
  pub now : ℕ

-- Popping until the ring is empty keeps the last frame.
abbrev pub drain : Option DisplayFrame → List DisplayFrame → Option DisplayFrame
drain pending [] = pending
drain pending (f ∷ ring) = drain (some f) ring

-- What presenting leaves of the loop.
abbrev pub after_present :
    DisplayLoop
    → DisplayFrame
    → DisplayState × DisplayResult (Option Commit)
    → DisplayLoop × DisplayResult (Unit {0})
after_present l frame (d, ok (some c)) =
    (record l { display = d; pending_frame = none; shown = l.shown ++ (frame ∷ []) }, ok tt)
after_present l frame (d, ok none) = (record l { display = d; pending_frame = some frame }, ok tt)
after_present l frame (d, err x) = (record l { display = d; pending_frame = none }, err x)

abbrev pub or_present :
    Answers
    → DisplayLoop
    → DisplayFrame
    → DisplayState × DisplayResult (Unit {0})
    → DisplayLoop × DisplayResult (Unit {0})
or_present a l frame (d, err x) = (record l { display = d; pending_frame = none }, err x)
or_present a l frame (d, ok _) =
    after_present l frame (present_frame d a.now frame.surface_id frame.bytes frame.damage)

abbrev pub resize_if :
    Answers
    → DisplayState
    → DisplayFrame
    → Option ManagedSurface
    → DisplayState × DisplayResult (Unit {0})
resize_if a d frame none = (d, ok tt)
resize_if a d frame (some s) =
    if not (s.width == frame.width) || not (s.height == frame.height)
    then resize_surface d a.made frame.surface_id frame.width frame.height
    else (d, ok tt)

abbrev pub or_resize :
    Answers
    → DisplayLoop
    → DisplayFrame
    → DisplayState × DisplayResult (Unit {0})
    → DisplayLoop × DisplayResult (Unit {0})
or_resize a l frame (d, err x) = (record l { display = d; pending_frame = none }, err x)
or_resize a l frame (d, ok _) =
    or_present a l frame (resize_if a d frame (find_surface frame.surface_id d.surfaces))

abbrev pub ensure_surface :
    Answers → DisplayState → DisplayFrame → DisplayState × DisplayResult (Unit {0})
ensure_surface a d frame =
    if is_some (find_surface frame.surface_id d.surfaces)
    then (d, ok tt)
    else create_surface d a.made a.roundtrip frame.surface_id frame.width frame.height

abbrev pub show_frame :
    Answers → DisplayLoop → Option DisplayFrame → DisplayLoop × DisplayResult (Unit {0})
show_frame a l none = (l, ok tt)
show_frame a l (some frame) = or_resize a l frame (ensure_surface a l.display frame)

abbrev pub drained : DisplayLoop → List Event → DisplayLoop
drained l events = record l {
  display = handle_events l.display events;
  ring = [];
  pending_frame = none;
}

abbrev pub dispatched :
    Answers → DisplayLoop → Option (List Event) → DisplayLoop × DisplayResult (Unit {0})
dispatched a l none = (l, err wayland_dispatch)
dispatched a l (some events) = show_frame a (drained l events) (drain l.pending_frame l.ring)

unfoldable pub turn : DisplayLoop → Answers → DisplayLoop × DisplayResult (Unit {0})
turn l a = dispatched a l a.events

-- Turns until one fails, which ends the loop.
abbrev pub go_on :
    DisplayLoop × DisplayResult (Unit {0})
    → (DisplayLoop → DisplayLoop × DisplayResult (Unit {0}))
    → DisplayLoop × DisplayResult (Unit {0})
go_on (l, ok _) next = next l
go_on (l, err x) next = (l, err x)

unfoldable pub turns : DisplayLoop → List Answers → DisplayLoop × DisplayResult (Unit {0})
unfolding turn
turns l [] = (l, ok tt)
turns l (a ∷ rest) = go_on (turn l a) (λ l'. turns l' rest)
