-- ===== src/Capture/ExtCapture.antt =====
-- crates/remoteway-capture/src/ext_capture.rs: the choice of what is captured, the events of the compositor, and
-- the next frame. Connecting is left out; what the compositor sends is a parameter. Objects of the
-- compositor are numbers.
pub mod Chosen
use remote_way.Prelude.{
  ℕ, zero, suc, ◌+◌, ◌-◌, ◌*◌, ◌/◌, ◌%◌, ◌^◌, ◌≤◌, ◌<◌, min, max, bit_and, bit_or, bit_xor, Bool,
  true, false, not, ◌&&◌, ◌||◌, List, [], ◌∷◌, ◌++◌, map, Option, none, some, length, take, drop,
  set, replicate, get_elem?, leb, ltb, ◌==◌, if◌then◌else◌, ◌≡◌, ◌≢◌, ◌⊎◌, inl, inr, refl, ◌∙◌, sym,
  ap, ap₂, subst, arith, append_assoc, append-nil, length-take, length-drop, length-append,
  drop-drop, take-append-drop, length-set, drop_all, take_all, take-length, drop-length, drop-take,
  take-take, take-set, drop-set, drop_get, All, All-take, All-drop, All-append, Bool-cases,
  Option-cases, ==_iff, ltb→lt, lt→ltb, le→not-ltb, not-ltb→le, length-map, get_of_drop,
  length-replicate,
}
use remote_way.Compress.Delta.{DamageRect, ◌>>=◌}
use remote_way.Capture.Text.{Str, str_eq}
use remote_way.Capture.Frame.{PixelFormat, from_wl_shm, CapturedFrame, flip_rows, mirror_rows}

pub data CaptureError : Type 0 where
  wayland_dispatch no_backend no_outputs session_ended : CaptureError
  output_not_found : Str → CaptureError
  unsupported_format : ℕ → CaptureError
  capture_failed : CaptureError

unfoldable pub is_retriable : CaptureError → Bool
is_retriable capture_failed = true
is_retriable wayland_dispatch = false
is_retriable no_backend = false
is_retriable no_outputs = false
is_retriable session_ended = false
is_retriable (output_not_found name) = false
is_retriable (unsupported_format format) = false

pub data CaptureResult {ℓ} (A : Type ℓ) : Type ℓ where
  ok : A → CaptureResult A
  err : CaptureError → CaptureResult A

pub data CaptureSource : Type 0 where
  output : Option Str → CaptureSource
  toplevel : Str → CaptureSource
  new_toplevel : List Str → CaptureSource

pub record DiscoveredOutput : Type 0 where
  pub wl_output : ℕ
  pub name : Str
  pub global_name : ℕ

pub record DiscoveredToplevel : Type 0 where
  pub handle : ℕ
  pub app_id : Str
  pub title : Str
  pub identifier : Str

-- The first element that passes a test.
unfoldable pub find_first {ℓ} : {A : Type ℓ} → (A → Bool) → List A → Option A
find_first test [] = none
find_first test (x ∷ xs) = let rest = find_first test xs in if test x then some x else rest

abbrev pub contains : List Str → Str → Bool
contains [] s = false
contains (t ∷ ts) s = str_eq t s || contains ts s

abbrev pub no_elements {ℓ} : {A : Type ℓ} → List A → Bool
no_elements [] = true
no_elements (x ∷ xs) = false

abbrev pub first {ℓ} : {A : Type ℓ} → List A → Option A
first [] = none
first (x ∷ xs) = some x

abbrev pub ok_or {ℓ} : {A : Type ℓ} → Option A → CaptureError → CaptureResult A
ok_or (some a) e = ok a
ok_or none e = err e

abbrev pub or_else {ℓ} : {A : Type ℓ} → Option A → Option A → Option A
or_else (some a) o = some a
or_else none o = o

abbrev pub is_new : List Str → DiscoveredToplevel → Bool
is_new known_identifiers t =
    not (no_elements t.identifier) && not (contains known_identifiers t.identifier)

unfoldable pub new_among : List Str → List DiscoveredToplevel → Option DiscoveredToplevel
new_among known_identifiers toplevels =
    or_else (find_first (is_new known_identifiers) toplevels)
      (if no_elements known_identifiers then first toplevels else none)

abbrev pub and_then {ℓ κ} :
    {A : Type ℓ} {B : Type κ} → CaptureResult A → (A → CaptureResult B) → CaptureResult B
and_then (ok a) f = f a
and_then (err e) f = err e

abbrev pub chosen_output : List DiscoveredOutput → Option Str → CaptureResult DiscoveredOutput
chosen_output outputs none = ok_or (first outputs) no_outputs
chosen_output outputs (some name) =
    ok_or (find_first (λ o. str_eq o.name name) outputs) (output_not_found name)

-- The object that is captured. `outputs_can` and `toplevels_can` say whether the compositor has the
-- managers of the sources.
unfoldable pub choose_source :
    Bool → Bool → List DiscoveredOutput → List DiscoveredToplevel → CaptureSource → CaptureResult ℕ
choose_source outputs_can toplevels_can outputs toplevels (output name) =
    if outputs_can
    then and_then (chosen_output outputs name) (λ o. ok o.wl_output)
    else err no_backend
choose_source outputs_can toplevels_can outputs toplevels (toplevel app_id) =
    if toplevels_can
    then and_then (ok_or (find_first (λ t. str_eq t.app_id app_id) toplevels) capture_failed)
        (λ t. ok t.handle)
    else err no_backend
choose_source outputs_can toplevels_can outputs toplevels (new_toplevel known_identifiers) =
    if toplevels_can
    then and_then (ok_or (new_among known_identifiers toplevels) capture_failed) (λ t. ok t.handle)
    else err no_backend

-- What the compositor says of a window or an output.
pub data ToplevelEvent : Type 0 where
  app_id_is title_is identifier_is : Str → ToplevelEvent
  closed : ToplevelEvent

abbrev pub known_handle : ℕ → List DiscoveredToplevel → Bool
known_handle handle [] = false
known_handle handle (t ∷ ts) = (t.handle == handle) || known_handle handle ts

-- The first window of the handle is changed, if there is one.
unfoldable pub change :
    ℕ
    → (DiscoveredToplevel → DiscoveredToplevel)
    → List DiscoveredToplevel
    → List DiscoveredToplevel
change handle f [] = []
change handle f (t ∷ ts) =
    let rest = change handle f ts in if t.handle == handle then f t ∷ ts else t ∷ rest

-- The windows of other handles.
unfoldable pub retain_others : ℕ → List DiscoveredToplevel → List DiscoveredToplevel
retain_others handle [] = []
retain_others handle (t ∷ ts) =
    let rest = retain_others handle ts in if t.handle == handle then rest else t ∷ rest

unfoldable pub handle_toplevel :
    List DiscoveredToplevel → ℕ → ToplevelEvent → List DiscoveredToplevel
handle_toplevel ts handle (app_id_is s) =
    if known_handle handle ts
    then change handle (λ t. record t { app_id = s }) ts
    else ts ++ (record { handle = handle; app_id = s; title = []; identifier = [] } ∷ [])
handle_toplevel ts handle (title_is s) = change handle (λ t. record t { title = s }) ts
handle_toplevel ts handle (identifier_is s) = change handle (λ t. record t { identifier = s }) ts
handle_toplevel ts handle closed = retain_others handle ts

-- The name of an output.
unfoldable pub name_output : List DiscoveredOutput → ℕ → Str → List DiscoveredOutput
name_output [] global_name s = []
name_output (o ∷ os) global_name s =
    let rest = name_output os global_name s in
    if o.global_name == global_name then record o { name = s } ∷ os else o ∷ rest

pub record ToplevelInfo : Type 0 where
  pub app_id : Str
  pub title : Str
  pub identifier : Str

-- Of the list and the windows after the two rounds of events.
unfoldable pub enumerate_toplevels :
    Bool → List DiscoveredToplevel → CaptureResult (List ToplevelInfo)
enumerate_toplevels has_list toplevels =
    if has_list
    then ok (
        map (λ t. record { app_id = t.app_id; title = t.title; identifier = t.identifier })
          toplevels)
    else err no_backend
