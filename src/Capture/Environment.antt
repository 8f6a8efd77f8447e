-- ===== src/Capture/Environment.antt =====
-- crates/remoteway-capture/src/desktop_detect.rs: the discovery of the session's variables. What the
-- system holds is a parameter; the environment of the process is a record of the three variables.
pub mod Kept
use remote_way.Prelude.{
  ℕ, zero, suc, Bool, true, false, not, ◌&&◌, ◌||◌, List, [], ◌∷◌, ◌++◌, Option, none, some, ◌==◌,
  if◌then◌else◌,
}
use remote_way.Prelude.Table.{is_some}
use remote_way.Capture.Text.{
  Str, codes, str_eq, trim, split, strip_prefix, starts_with, ends_with, all_digits,
}
use remote_way.Capture.DesktopDetect.{Process, of_process, or_else, on_some}

pub record Env : Type 0 where
  pub wayland_display : Option Str
  pub xdg_runtime_dir : Option Str
  pub dbus_session_bus_address : Option Str

-- /proc, the entries of a directory with whether each is a socket, which paths exist, and which bytes
-- are UTF-8.
pub record System : Type 0 where
  pub proc : Option (List Process)
  pub read_dir : Str → Option (List (Str × Bool))
  pub exists : Str → Bool
  pub is_utf8 : Str → Bool

-- What the variables of a compositor's environment say.
pub record Found : Type 0 where
  pub display : Option Str
  pub runtime_dir : Option Str
  pub dbus : Option Str

-- `set_var` where `env::var` is an error.
abbrev pub set_absent : Option Str → Option Str → Option Str
set_absent (some v) found = some v
set_absent none found = found

-- `Path::join` with a name that has no slash.
abbrev pub join : Str → Str → Str
join [] name = name
join (c ∷ dir) name =
    if ends_with (codes "/") (c ∷ dir) then (c ∷ dir) ++ name else (c ∷ dir) ++ codes "/" ++ name

abbrev pub readable : Option Str → List (List Str) → List (List Str)
readable none others = others
readable (some environ) others = split 0 environ ∷ others

abbrev pub all_entries : Option (List Process) → List Process
all_entries none = []
all_entries (some ps) = ps

module _ (is_utf8 : Str → Bool) where
  -- One variable: later ones of a name replace earlier ones.
  abbrev pub take_value : (Str → Found) → Option Str → Found → Found
  take_value f none other = other
  take_value f (some v) other = f v

  unfoldable pub read_variable : Found → Str → Found
  read_variable found s =
      if is_utf8 s
      then take_value (λ v. record found { display = some v })
          (strip_prefix (codes "WAYLAND_DISPLAY=") s)
          (take_value (λ v. record found { runtime_dir = some v })
            (strip_prefix (codes "XDG_RUNTIME_DIR=") s)
            (take_value (λ v. record found { dbus = some v })
              (strip_prefix (codes "DBUS_SESSION_BUS_ADDRESS=") s) found))
      else found

  unfoldable pub read_variables : Found → List Str → Found
  unfolding read_variable
  read_variables found [] = found
  read_variables found (s ∷ rest) = read_variables (read_variable found s) rest

  -- The first bus address of a compositor's environment.
  unfoldable pub bus_address : List Str → Option Str
  bus_address [] = none
  bus_address (s ∷ rest) =
      let later = bus_address rest in
      if is_utf8 s
      then if is_some (strip_prefix (codes "DBUS_SESSION_BUS_ADDRESS=") s)
        then strip_prefix (codes "DBUS_SESSION_BUS_ADDRESS=") s
        else later
      else later

-- The environments of the compositors among the entries, those that can be read.
unfoldable pub compositor_environs : List Process → List (List Str)
compositor_environs [] = []
compositor_environs (p ∷ rest) =
    let others = compositor_environs rest in
    if is_some (of_process p) then readable p.environ others else others

-- A socket of Wayland in a directory's entries.
abbrev pub is_wayland : Str × Bool → Bool
is_wayland (name, socket) =
    starts_with (codes "wayland-") name && not (ends_with (codes ".lock") name) && socket

abbrev pub first_socket : List (Str × Bool) → Option Str
first_socket [] = none
first_socket (entry ∷ rest) = if is_wayland entry then some entry.0 else first_socket rest

module _ (system : System) where
  open system use {proc, read_dir, exists, is_utf8}

  unfoldable pub find_wayland_socket : Str → Option Str
  find_wayland_socket dir = on_some first_socket (read_dir dir)

  abbrev pub first_address : List (List Str) → Option Str
  first_address [] = none
  first_address (environ ∷ rest) = or_else (bus_address is_utf8 environ) (first_address rest)

  unfoldable pub inherit_dbus_from_compositor : Env → Env
  inherit_dbus_from_compositor e =
      let found = first_address (compositor_environs (all_entries proc)) in
      record e { dbus_session_bus_address = or_else found e.dbus_session_bus_address }

  -- The variables that a compositor's environment gives, if it has a display.
  abbrev pub adopt : Found → Env → Option Env
  adopt found e =
      on_some
        (λ display. some (record {
          wayland_display = some display;
          xdg_runtime_dir = set_absent e.xdg_runtime_dir found.runtime_dir;
          dbus_session_bus_address = set_absent e.dbus_session_bus_address found.dbus;
        }))
        found.display

  abbrev pub adopt_first : List (List Str) → Env → Option Env
  adopt_first [] e = none
  adopt_first (environ ∷ rest) e =
      or_else
        (adopt
          (read_variables is_utf8 (record { display = none; runtime_dir = none; dbus = none })
            environ)
          e)
        (adopt_first rest e)

  -- `none` for `false`, which changes nothing.
  unfoldable pub inherit_compositor_env : Env → Option Env
  inherit_compositor_env e = adopt_first (compositor_environs (all_entries proc)) e

  abbrev pub probe_bus : Option Str → Option Str
  probe_bus none = none
  probe_bus (some dir) =
      if exists (join dir (codes "bus"))
      then some (codes "unix:path=" ++ join dir (codes "bus"))
      else none

  -- The rest of `try_inherit_dbus_env` after its first early return, and after its second.
  abbrev pub from_bus : Env → Option Str → Env
  from_bus e (some address) = e
  from_bus e none = record e { dbus_session_bus_address = probe_bus e.xdg_runtime_dir }

  abbrev pub from_compositor : Env → Option Str → Env
  from_compositor e (some address) = e
  from_compositor e none =
      let e1 = inherit_dbus_from_compositor e in from_bus e1 e1.dbus_session_bus_address

  unfoldable pub try_inherit_dbus_env : Env → Env
  unfolding inherit_dbus_from_compositor
  try_inherit_dbus_env e = from_compositor e e.dbus_session_bus_address

  abbrev pub scanned : Env → Option Str → Env × Bool
  scanned e none = (e, false)
  scanned e (some display) = (record e { wayland_display = some display }, true)

  abbrev pub inherited : Env → Option Env → Env × Bool
  inherited e (some e') = (e', true)
  inherited e none = scanned e (on_some find_wayland_socket e.xdg_runtime_dir)

  abbrev pub with_display : Env → Option Str → Env × Bool
  with_display e (some display) = (e, true)
  with_display e none = inherited e (inherit_compositor_env e)

  unfoldable pub ensure_wayland_env : Env → Env × Bool
  unfolding try_inherit_dbus_env inherit_compositor_env find_wayland_socket
  ensure_wayland_env e = let e1 = try_inherit_dbus_env e in with_display e1 e1.wayland_display
