-- ===== src/Capture/DesktopDetect.antt =====
-- crates/remoteway-capture/src/desktop_detect.rs: the detection of the desktop. What the system holds
-- is a parameter: the entries of /proc, and the answers of loginctl.
pub mod Components
use remote_way.Prelude.{
  ℕ, zero, suc, Bool, true, false, not, ◌&&◌, ◌||◌, List, [], ◌∷◌, Option, none, some, ◌==◌,
  if◌then◌else◌,
}
use remote_way.Prelude.Table.{is_some}
use remote_way.Capture.Text.{
  Str, codes, str_eq, to_lowercase, trim, trim_start, split, strip_prefix, contains, all_digits,
  is_space,
}

pub data DesktopEnvironment : Type 0 where
  gnome kde wlroots unknown : DesktopEnvironment

unfoldable pub needs_portal : DesktopEnvironment → Bool
needs_portal DesktopEnvironment.gnome = true
needs_portal DesktopEnvironment.kde = true
needs_portal _ = false

unfoldable pub has_wlr_protocols : DesktopEnvironment → Bool
has_wlr_protocols DesktopEnvironment.wlroots = true
has_wlr_protocols _ = false

-- `result != Unknown`
abbrev pub unless_unknown : DesktopEnvironment → Option DesktopEnvironment
unless_unknown DesktopEnvironment.unknown = none
unless_unknown d = some d

abbrev pub one_of : Str → List Str → Bool
one_of s [] = false
one_of s (name ∷ names) = str_eq s name || one_of s names

-- One component of `XDG_CURRENT_DESKTOP`.
unfoldable pub of_component : Str → Option DesktopEnvironment
of_component trimmed =
    if str_eq trimmed (codes "gnome")
    then some DesktopEnvironment.gnome
    else if str_eq trimmed (codes "kde")
    then some DesktopEnvironment.kde
    else if one_of trimmed
        (codes "sway" ∷ codes "hyprland" ∷ codes "river" ∷ codes "wayfire" ∷ codes "niri" ∷ [])
    then some DesktopEnvironment.wlroots
    else none

abbrev pub or_else {ℓ} : {A : Type ℓ} → Option A → Option A → Option A
or_else (some a) o = some a
or_else none o = o

unfoldable pub of_components : List Str → Option DesktopEnvironment
unfolding of_component
of_components [] = none
of_components (c ∷ rest) = or_else (of_component (trim c)) (of_components rest)

-- The test of `XDG_SESSION_DESKTOP`.
unfoldable pub of_session : Str → Option DesktopEnvironment
of_session lower =
    if contains (codes "gnome") lower
    then some DesktopEnvironment.gnome
    else if contains (codes "kde") lower || contains (codes "plasma") lower
    then some DesktopEnvironment.kde
    else if contains (codes "sway") lower || contains (codes "hyprland") lower
    then some DesktopEnvironment.wlroots
    else none

abbrev pub on_some {ℓ κ} : {A : Type ℓ} {B : Type κ} → (A → Option B) → Option A → Option B
on_some f none = none
on_some f (some a) = f a

abbrev pub or_unknown : Option DesktopEnvironment → DesktopEnvironment
or_unknown none = DesktopEnvironment.unknown
or_unknown (some d) = d

unfoldable pub detect_from_env : Option Str → Option Str → DesktopEnvironment
unfolding of_components of_session
detect_from_env xdg_current_desktop xdg_session_desktop = or_unknown (
    or_else (on_some (λ s. of_components (split 58 (to_lowercase s))) xdg_current_desktop)
      (on_some (λ s. of_session (to_lowercase s)) xdg_session_desktop))

-- `COMPOSITOR_PROCESSES`
abbrev pub compositor_processes : List (Str × DesktopEnvironment)
compositor_processes =
    (codes "gnome-shell", DesktopEnvironment.gnome)
    ∷ (codes "gnome-session-b", DesktopEnvironment.gnome)
    ∷ (codes "kwin_wayland", DesktopEnvironment.kde)
    ∷ (codes "plasmashell", DesktopEnvironment.kde)
    ∷ (codes "sway", DesktopEnvironment.wlroots)
    ∷ (codes "Hyprland", DesktopEnvironment.wlroots)
    ∷ (codes "hyprland", DesktopEnvironment.wlroots)
    ∷ (codes "river", DesktopEnvironment.wlroots)
    ∷ (codes "wayfire", DesktopEnvironment.wlroots)
    ∷ (codes "niri", DesktopEnvironment.wlroots)
    ∷ []

-- An entry of /proc; `comm` and `environ` are `none` if they cannot be read.
pub record Process : Type 0 where
  pub name : Str
  pub comm : Option Str
  pub environ : Option Str

abbrev pub compositor_of : Str → List (Str × DesktopEnvironment) → Option DesktopEnvironment
compositor_of comm [] = none
compositor_of comm ((name, d) ∷ table) =
    if str_eq comm name then some d else compositor_of comm table

-- The compositor that an entry of /proc is.
unfoldable pub of_process : Process → Option DesktopEnvironment
of_process p =
    if all_digits p.name
    then on_some (λ comm. compositor_of (trim comm) compositor_processes) p.comm
    else none

abbrev pub first_of : List Process → Option DesktopEnvironment
first_of [] = none
first_of (p ∷ rest) = or_else (of_process p) (first_of rest)

-- `entries` is `none` if /proc cannot be read.
unfoldable pub detect_from_processes : Option (List Process) → Option DesktopEnvironment
unfolding of_process
detect_from_processes entries = on_some first_of entries

-- The output of `loginctl show-session`: `failed` to run, an error status, or its lines.
pub data SessionShown : Type 0 where
  failed : SessionShown
  refused : SessionShown
  properties : List Str → SessionShown

-- What the lines say so far: whether the session is graphical, and its desktop.
abbrev pub graphical_type : Option Str → Bool → Bool
graphical_type none graphical = graphical
graphical_type (some v) graphical = str_eq v (codes "wayland") || str_eq v (codes "x11")

abbrev pub named_desktop : Option Str → Option Str → Option Str
named_desktop none desktop = desktop
named_desktop (some []) desktop = desktop
named_desktop (some (c ∷ v)) desktop = some (c ∷ v)

abbrev pub property : Bool × Option Str → Str → Bool × Option Str
property (graphical, desktop) line = (
  graphical_type (strip_prefix (codes "Type=") line) graphical,
  named_desktop (strip_prefix (codes "Desktop=") line) desktop,
)

abbrev pub all_properties : Bool × Option Str → List Str → Bool × Option Str
all_properties found [] = found
all_properties found (line ∷ lines) = all_properties (property found line) lines

unfoldable pub of_properties : Bool × Option Str → Option DesktopEnvironment
unfolding detect_from_env
of_properties (true, some d) = unless_unknown (detect_from_env (some d) none)
of_properties _ = none

abbrev pub until_space : Str → Str
until_space [] = []
until_space (c ∷ s) = let rest = until_space s in if is_space c then [] else c ∷ rest

abbrev pub some_word : Str → Option Str
some_word [] = none
some_word (c ∷ s) = some (c ∷ s)

-- `split_whitespace().next()`
unfoldable pub first_word : Str → Option Str
first_word line = some_word (until_space (trim_start line))

-- The loop over the sessions: a blank line, or a failure to run `loginctl`, ends the function.
module _ (show_session : Str → SessionShown) where
  abbrev pub session_step : SessionShown → Option DesktopEnvironment → Option DesktopEnvironment
  session_step failed rest = none
  session_step refused rest = rest
  session_step (properties lines) rest =
      or_else (of_properties (all_properties (false, none) lines)) rest

  unfoldable pub of_sessions : List Str → Option DesktopEnvironment
  unfolding of_properties first_word
  of_sessions [] = none
  of_sessions (line ∷ lines) =
      let rest = of_sessions lines in
      on_some (λ id. session_step (show_session id) rest) (first_word line)

  -- `listed` is `none` if `list-sessions` fails.
  unfoldable pub detect_from_loginctl : Option (List Str) → Option DesktopEnvironment
  unfolding of_sessions
  detect_from_loginctl listed = on_some of_sessions listed

  unfoldable pub detect_desktop :
      Option Str → Option Str → Option (List Str) → Option (List Process) → DesktopEnvironment
  unfolding detect_from_env detect_from_loginctl detect_from_processes
  detect_desktop current session listed entries = or_unknown (
      or_else (unless_unknown (detect_from_env current session))
        (or_else (detect_from_loginctl listed) (detect_from_processes entries)))
