-- ===== src/Display/Surface/Held.antt =====
-- Which buffers the compositor holds: those committed, and neither released nor destroyed since.
use remote_way.Prelude.{
  ℕ, ◌≤◌, ◌<◌, Bool, true, false, not, ◌&&◌, List, [], ◌∷◌, Option, none, some, ◌==◌, if◌then◌else◌,
  ◌≡◌,
}
use remote_way.Display.Shm.{DisplayResult, ok, err, ShmFrameUploader, DamageRegion, flag, set_flag}
use remote_way.Display.Surface.{
  ManagedSurface, Commit, DisplayState, find_surface, Event, buffer_released, resize_surface,
  handle_event, present_frame,
}

pub data Step : Type 0 where
  presents : ℕ → ℕ → List ℕ → List DamageRegion → Step
  happens : Event → Step
  resizes : Bool → ℕ → ℕ → ℕ → Step

abbrev pub Flags : Type 0
Flags = Bool × Bool

abbrev pub committed : Flags → DisplayState × DisplayResult (Option Commit) → DisplayState × Flags
committed held (d, ok (some c)) = (d, set_flag held c.buffer true)
committed held (d, ok none) = (d, held)
committed held (d, err x) = (d, held)

-- New buffers, which nobody holds, if a surface was resized to another size and they could be made; the
-- ones before are destroyed then.
abbrev pub new_held : Flags → ℕ → ℕ → Option ManagedSurface → DisplayResult (Unit {0}) → Flags
new_held held width height none r = held
new_held held width height (some s) (err x) = held
new_held held width height (some s) (ok _) =
    if (s.width == width) && (s.height == height) then held else (false, false)

abbrev pub given_back : Flags → Event → Flags
given_back held (buffer_released idx) = set_flag held idx false
given_back held _ = held

unfoldable pub step : DisplayState × Flags → Step → DisplayState × Flags
step (d, held) (presents now id bytes damage) = committed held (present_frame d now id bytes damage)
step (d, held) (happens e) = (handle_event d e, given_back held e)
step (d, held) (resizes made id width height) =
    let (d', r) = resize_surface d made id width height in
    (d', new_held held width height (find_surface id d.surfaces) r)

unfoldable pub steps : DisplayState × Flags → List Step → DisplayState × Flags
unfolding step
steps w [] = w
steps w (a ∷ rest) = steps (step w a) rest

-- The compositor releases only a buffer that it holds. A release of a buffer that a resize
-- has destroyed is taken not to arrive any more, since events of destroyed objects are discarded.
abbrev pub Holds : Flags → Step → Type 0
Holds held (happens (buffer_released idx)) = (idx < 2) × (flag held idx ≡ true)
Holds held _ = Unit {0}

pub data Proper : DisplayState × Flags → List Step → Type 0 where
  nothing : {w : DisplayState × Flags} → Proper w []
  one :
      {d : DisplayState} {held : Flags} {a : Step} {rest : List Step}
      → Holds held a
      → Proper (step (d, held) a) rest
      → Proper (d, held) (a ∷ rest)

-- The uploader's flags say which of its buffers are not held.
abbrev pub Agrees : Flags → Option ShmFrameUploader → Type 0
Agrees held none = Unit {0}
Agrees (h, k) (some u) = (u.active ≤ 1) × (u.released ≡ (not h, not k))

abbrev pub Single : Flags → List ManagedSurface → Type 0
Single held (s ∷ []) = Agrees held s.uploader
Single held _ = ⊥

-- What a try to present a frame leaves: a commit writes a buffer that was not held.
abbrev Presented : Flags → ManagedSurface × Option Commit → Type 0
Presented held (s, none) = Agrees held s.uploader
Presented held (s, some c) =
    (flag held c.buffer ≡ false) × Agrees (set_flag held c.buffer true) s.uploader

-- What presenting leaves of the display, and what it wrote.
abbrev Kept : Flags → DisplayState × DisplayResult (Option Commit) → Type 0
Kept held (d, err x) = Single held d.surfaces
Kept held (d, ok none) = Single held d.surfaces
Kept held (d, ok (some c)) =
    (flag held c.buffer ≡ false) × Single (set_flag held c.buffer true) d.surfaces

-- A new uploader has two buffers that are free.
abbrev Free : DisplayResult ShmFrameUploader → Type 0
Free (ok u) = Agrees (false, false) (some u)
Free (err x) = Unit {0}

-- What a resize leaves of the display.
abbrev Resized :
    Flags → ℕ → ℕ → Option ManagedSurface → DisplayState × DisplayResult (Unit {0}) → Type 0
Resized held w h o (d, r) = Single (new_held held w h o r) d.surfaces
