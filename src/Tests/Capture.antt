-- ===== src/Tests/Capture.antt =====
-- The detection of the desktop and of its variables at concrete inputs, as in the repository's tests.
use remote_way.Prelude.{true, false, [], ◌∷◌, ◌++◌, none, some, ◌≡◌, refl}
use remote_way.Prelude.Table.{is_some}
use remote_way.Capture.Text.{codes}
use remote_way.Capture.DesktopDetect.{
  DesktopEnvironment, Process, of_component, of_components, of_session, detect_from_env,
  detect_from_processes, detect_from_loginctl, of_process, of_properties, first_word, of_sessions,
  properties,
}
use remote_way.Capture.DesktopDetect.Components.{prefer, detect_from_env-colon}
use remote_way.Capture.Environment.{
  Env, System, ensure_wayland_env, try_inherit_dbus_env, inherit_dbus_from_compositor,
  inherit_compositor_env, find_wayland_socket, read_variable, read_variables, bus_address,
  compositor_environs,
}
use remote_way.Capture.Environment.Kept.{KeepsAll, ensure_wayland_env-KeepsAll}

ubuntu_gnome : detect_from_env (some (codes "ubuntu:GNOME")) none ≡ DesktopEnvironment.gnome
unfolding detect_from_env of_components of_component of_session
ubuntu_gnome = refl

session_desktop : detect_from_env none (some (codes "plasmawayland")) ≡ DesktopEnvironment.kde
unfolding detect_from_env of_components of_component of_session
session_desktop = refl

unknown_desktop : detect_from_env (some (codes "something_else")) none ≡ DesktopEnvironment.unknown
unfolding detect_from_env of_components of_component of_session
unknown_desktop = refl

detect_from_env-colon_example :
    detect_from_env (some (codes "ubuntu" ++ 58 ∷ codes "GNOME")) none
    ≡ prefer
        (detect_from_env (some (codes "ubuntu")) none)
        (detect_from_env (some (codes "GNOME")) none)
detect_from_env-colon_example = detect_from_env-colon (codes "ubuntu") (codes "GNOME") none

-- loginctl lists a session on a terminal and one of sway.
by_loginctl :
    detect_from_loginctl
      (λ id. properties (codes "Type=wayland" ∷ codes "Desktop=sway" ∷ []))
      (some (codes "  3 1000 user seat0" ∷ []))
    ≡ some DesktopEnvironment.wlroots
unfolding detect_from_loginctl of_sessions first_word of_properties detect_from_env of_components
    of_component of_session
by_loginctl = refl

abbrev sway : Process
sway = record {
  name = codes "812";
  comm = some (codes "sway\n");
  environ = some (
      codes "HOME=/root"
      ++ 0 ∷ codes "WAYLAND_DISPLAY=wayland-1"
      ++ 0 ∷ codes "XDG_RUNTIME_DIR=/run/user/0"
      ++ 0 ∷ []);
}

by_process : detect_from_processes (some (sway ∷ [])) ≡ some DesktopEnvironment.wlroots
unfolding detect_from_processes of_process
by_process = refl

abbrev system : System
system = record {
  proc = some (sway ∷ []);
  read_dir = λ dir. some ((codes "wayland-0.lock", false) ∷ (codes "wayland-0", true) ∷ []);
  exists = λ path. true;
  is_utf8 = λ bytes. true;
}

abbrev over_ssh : Env
over_ssh = record {
  wayland_display = none;
  xdg_runtime_dir = some (codes "/run/user/1000");
  dbus_session_bus_address = none;
}

discovered : ensure_wayland_env system over_ssh ≡ (
  record {
    wayland_display = some (codes "wayland-1");
    xdg_runtime_dir = some (codes "/run/user/1000");
    dbus_session_bus_address = some (codes "unix:path=/run/user/1000/bus");
  },
  true,
)
unfolding ensure_wayland_env try_inherit_dbus_env inherit_dbus_from_compositor
    inherit_compositor_env find_wayland_socket read_variables read_variable bus_address
    compositor_environs of_process
discovered = refl

ensure_wayland_env-KeepsAll_example :
    let (e', found) = ensure_wayland_env system over_ssh in
    (is_some e'.wayland_display ≡ found) × KeepsAll over_ssh e'
ensure_wayland_env-KeepsAll_example = ensure_wayland_env-KeepsAll system over_ssh
