-- ===== src/Display/Surface.antt =====
-- crates/remoteway-display/src/surface.rs: the surfaces, what the compositor's events change, and
-- presenting a frame. Requests that only tell the compositor something (titles, viewport sources,
-- pings) are left out; times are in milliseconds. The new surface's configure arrives in `events`,
-- which the roundtrip dispatches.
pub mod Fit
pub mod Held
use remote_way.Prelude.{
  ℕ, zero, suc, ◌+◌, ◌-◌, ◌*◌, ◌/◌, ◌%◌, ◌^◌, max, Bool, true, false, not, ◌&&◌, ◌||◌, List, [],
  ◌∷◌, ◌++◌, map, Option, none, some, length, ltb, leb, ◌==◌, if◌then◌else◌,
}
use remote_way.Prelude.Table.{is_some}
use remote_way.Display.Shm.{
  DisplayError, no_compositor, no_shm, no_xdg_wm_base, surface_not_found, wayland_dispatch,
  DisplayResult, ok, err, ShmFrameUploader, DamageRegion, new_uploader, upload, swap, mark_released,
  can_upload,
}

-- `viewport` says whether the compositor scales, and `destination` to which size it was last told to.
pub record ManagedSurface : Type 0 where
  pub surface_id : ℕ
  pub viewport : Bool
  pub destination : Option (ℕ × ℕ)
  pub uploader : Option ShmFrameUploader
  pub width : ℕ
  pub height : ℕ
  pub stride : ℕ
  pub configured : Bool
  pub frame_callback_pending : Bool
  pub frame_callback_requested_at : Option ℕ
  pub pending_configure_serial : Option ℕ

-- `FRAME_CALLBACK_TIMEOUT`
abbrev pub frame_callback_timeout : ℕ
frame_callback_timeout = 50

-- What a commit showed: the buffer, the damage, and the buffer's uploader before the swap.
pub record Commit : Type 0 where
  pub buffer : ℕ
  pub damage : List DamageRegion
  pub bytes : List ℕ

abbrev pub elapsed : ℕ → Option ℕ → Bool
elapsed now none = false
elapsed now (some t) = leb frame_callback_timeout (now - t)

abbrev pub damaged : ManagedSurface → List DamageRegion → List DamageRegion
damaged s [] = record { x = 0; y = 0; width = s.width; height = s.height } ∷ []
damaged s (r ∷ rs) = r ∷ rs

-- From the test of the uploader on; the callback is no longer pending.
abbrev pub commit_with :
    ℕ
    → List ℕ
    → List DamageRegion
    → ManagedSurface
    → Option ShmFrameUploader
    → ManagedSurface × Option Commit
commit_with now bytes damage s none = (s, none)
commit_with now bytes damage s (some u) = if not (can_upload u) then (s, none) else (
  record s {
    uploader = some (swap (upload u bytes));
    frame_callback_pending = true;
    frame_callback_requested_at = some now;
  },
  some (record { buffer = u.active; damage = damaged s damage; bytes = bytes }),
)

-- `present_frame` of the surface at a time.
unfoldable pub present :
    ℕ → List ℕ → List DamageRegion → ManagedSurface → ManagedSurface × Option Commit
present now bytes damage s =
    if not s.configured
    then (s, none)
    else if s.frame_callback_pending && not (elapsed now s.frame_callback_requested_at)
    then (s, none)
    else if s.frame_callback_pending
    then commit_with now bytes damage
        (record s { frame_callback_pending = false; frame_callback_requested_at = none }) s.uploader
    else commit_with now bytes damage s s.uploader

pub record DisplayState : Type 0 where
  pub compositor : Bool
  pub shm : Bool
  pub xdg_wm_base : Bool
  pub viewporter : Bool
  pub surfaces : List ManagedSurface
  pub frame_done : Bool

abbrev pub find_surface : ℕ → List ManagedSurface → Option ManagedSurface
find_surface id [] = none
find_surface id (s ∷ rest) = if s.surface_id == id then some s else find_surface id rest

-- A change of the first surface with the identifier.
abbrev pub update_surface :
    ℕ → (ManagedSurface → ManagedSurface) → List ManagedSurface → List ManagedSurface
update_surface id f [] = []
update_surface id f (s ∷ rest) =
    let others = update_surface id f rest in if s.surface_id == id then f s ∷ rest else s ∷ others

abbrev pub fit_ratio : ℕ → ℕ → ℕ → ℕ → ℕ × ℕ
fit_ratio src_w src_h dst_w dst_h =
    if leb (src_w * dst_h) (dst_w * src_h)
    then (max (dst_h * src_w / src_h) 1, dst_h)
    else (dst_w, max (dst_w * src_h / src_w) 1)

unfoldable pub fit_preserve_aspect : ℕ → ℕ → ℕ → ℕ → ℕ × ℕ
fit_preserve_aspect src_w src_h dst_w dst_h =
    if (src_w == 0) || (src_h == 0) then (dst_w, dst_h) else fit_ratio src_w src_h dst_w dst_h

-- The events of the compositor: the buffer `usize` is released, the surface is configured with a
-- serial, its window with a size that is positive where it is given, its frame callback is done.
pub data Event : Type 0 where
  buffer_released : ℕ → Event
  configure : ℕ → ℕ → Event
  window : ℕ → ℕ → ℕ → Event
  callback_done : ℕ → Event

abbrev pub released_in : ℕ → Option ShmFrameUploader → Option ShmFrameUploader
released_in idx none = none
released_in idx (some u) = some (mark_released u idx)

abbrev pub release_in : ℕ → ManagedSurface → ManagedSurface
release_in idx s = record s { uploader = released_in idx s.uploader }

abbrev pub set_destination : ℕ → ℕ → ManagedSurface → ManagedSurface
set_destination w h s =
    if s.viewport
    then record s { destination = some (fit_preserve_aspect s.width s.height w h) }
    else s

unfoldable pub handle_event : DisplayState → Event → DisplayState
handle_event d (buffer_released idx) = record d { surfaces = map (release_in idx) d.surfaces }
handle_event d (configure id serial) = record d {
  surfaces =
      update_surface id
        (λ s. record s { pending_configure_serial = some serial; configured = true }) d.surfaces;
}
handle_event d (window id w h) =
    if ltb 0 w && ltb 0 h
    then record d { surfaces = update_surface id (set_destination w h) d.surfaces }
    else d
handle_event d (callback_done id) = record d {
  surfaces =
      update_surface id
        (λ s. record s { frame_callback_pending = false; frame_callback_requested_at = none })
        d.surfaces;
  frame_done = true;
}

unfoldable pub handle_events : DisplayState → List Event → DisplayState
unfolding handle_event
handle_events d [] = d
handle_events d (e ∷ rest) = handle_events (handle_event d e) rest

-- `made` says whether the memory of a new uploader can be had.
abbrev pub with_uploader :
    DisplayState → ℕ → DisplayResult ShmFrameUploader → DisplayState × DisplayResult (Unit {0})
with_uploader d id (err x) = (d, err x)
with_uploader d id (ok u) = (
  record d {
    surfaces =
        update_surface id (λ s. record s { uploader = some u; configured = true }) d.surfaces;
  },
  ok tt,
)

abbrev pub init_found :
    DisplayState → Bool → Option ManagedSurface → ℕ → DisplayState × DisplayResult (Unit {0})
init_found d made none id = (d, err (surface_not_found id))
init_found d made (some s) id =
    if is_some s.uploader
    then (d, ok tt)
    else with_uploader d id (new_uploader made s.width s.height s.stride)

unfoldable pub init_surface_uploader :
    DisplayState → Bool → ℕ → DisplayState × DisplayResult (Unit {0})
init_surface_uploader d made id =
    if not d.shm then (d, err no_shm) else init_found d made (find_surface id d.surfaces) id

abbrev pub new_surface : ℕ → Bool → ℕ → ℕ → ManagedSurface
new_surface id viewport width height = record {
  surface_id = id;
  viewport = viewport;
  destination = none;
  uploader = none;
  width = width;
  height = height;
  stride = width * 4 % 2 ^ 32;
  configured = false;
  frame_callback_pending = false;
  frame_callback_requested_at = none;
  pending_configure_serial = none;
}

-- `events` is what the roundtrip dispatches, `none` if it fails.
abbrev pub after_roundtrip :
    DisplayState → Bool → ℕ → Option (List Event) → DisplayState × DisplayResult (Unit {0})
after_roundtrip d made id none = (d, err wayland_dispatch)
after_roundtrip d made id (some events) = init_surface_uploader (handle_events d events) made id

unfoldable pub create_surface :
    DisplayState → Bool → Option (List Event) → ℕ → ℕ → ℕ → DisplayState × DisplayResult (Unit {0})
unfolding init_surface_uploader handle_events
create_surface d made events id width height =
    if not d.compositor
    then (d, err no_compositor)
    else if not d.xdg_wm_base
    then (d, err no_xdg_wm_base)
    else after_roundtrip
        (record d { surfaces = d.surfaces ++ (new_surface id d.viewporter width height ∷ []) }) made
        id events

abbrev pub remove_surface : ℕ → List ManagedSurface → List ManagedSurface
remove_surface id [] = []
remove_surface id (s ∷ rest) =
    let others = remove_surface id rest in if s.surface_id == id then rest else s ∷ others

unfoldable pub destroy_surface : DisplayState → ℕ → DisplayState
destroy_surface d id = record d { surfaces = remove_surface id d.surfaces }

-- `Ok(true)` is `ok (some commit)`.
abbrev pub present_found :
    DisplayState
    → ℕ
    → ℕ
    → List ℕ
    → List DamageRegion
    → Option ManagedSurface
    → DisplayState × DisplayResult (Option Commit)
present_found d now id bytes damage none = (d, err (surface_not_found id))
present_found d now id bytes damage (some s) =
    let (s', commit) = present now bytes damage s in
    (record d { surfaces = update_surface id (λ _. s') d.surfaces }, ok commit)

unfoldable pub present_frame :
    DisplayState → ℕ → ℕ → List ℕ → List DamageRegion → DisplayState × DisplayResult (Option Commit)
unfolding present
present_frame d now id bytes damage =
    present_found d now id bytes damage (find_surface id d.surfaces)

abbrev pub resized : ℕ → ℕ → ManagedSurface → ManagedSurface
resized width height s = record s { width = width; height = height; stride = width * 4 % 2 ^ 32 }

-- The sizes are changed before the new buffers are made.
abbrev pub replace_uploader :
    DisplayState → ℕ → DisplayResult ShmFrameUploader → DisplayState × DisplayResult (Unit {0})
replace_uploader d id (err x) = (d, err x)
replace_uploader d id (ok u) = (
  record d { surfaces = update_surface id (λ s. record s { uploader = some u }) d.surfaces },
  ok tt,
)

abbrev pub resize_found :
    DisplayState
    → Bool
    → ℕ
    → ℕ
    → ℕ
    → Option ManagedSurface
    → DisplayState × DisplayResult (Unit {0})
resize_found d made id width height none = (d, err (surface_not_found id))
resize_found d made id width height (some s) =
    if (s.width == width) && (s.height == height)
    then (d, ok tt)
    else replace_uploader
        (record d { surfaces = update_surface id (resized width height) d.surfaces }) id
        (new_uploader made width height (width * 4 % 2 ^ 32))

unfoldable pub resize_surface :
    DisplayState → Bool → ℕ → ℕ → ℕ → DisplayState × DisplayResult (Unit {0})
resize_surface d made id width height =
    if not d.shm
    then (d, err no_shm)
    else resize_found d made id width height (find_surface id d.surfaces)
