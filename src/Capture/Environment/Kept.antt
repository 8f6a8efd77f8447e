-- ===== src/Capture/Environment/Kept.antt =====
-- What the discovery promises of the environment.
use remote_way.Prelude.{
  Bool, true, List, [], ◌∷◌, Option, none, some, ◌≡◌, inl, inr, refl, ◌∙◌, Option-cases,
}
use remote_way.Prelude.Table.{is_some}
use remote_way.Capture.Text.{Str}
use remote_way.Capture.DesktopDetect.{or_else, on_some}
use remote_way.Capture.Environment.{
  Env, System, Found, set_absent, adopt, adopt_first, inherited, scanned,
  inherit_dbus_from_compositor, inherit_compositor_env, try_inherit_dbus_env, ensure_wayland_env,
  from_bus, from_compositor, with_display, find_wayland_socket,
}

-- A variable that was set keeps its value.
abbrev pub Keeps : Option Str → Option Str → Type 0
Keeps before after = (v : Str) → before ≡ some v → after ≡ some v

abbrev pub KeepsAll : Env → Env → Type 0
KeepsAll e e' =
    Keeps e.wayland_display e'.wayland_display
    × Keeps e.xdg_runtime_dir e'.xdg_runtime_dir
    × Keeps e.dbus_session_bus_address e'.dbus_session_bus_address

kept_refl : (o : Option Str) → Keeps o o
kept_refl o v h = h

kept_none : (o after : Option Str) → o ≡ none → Keeps o after
kept_none o after e v h = cc

set_absent-Keeps : (o found : Option Str) → Keeps o (set_absent o found)
set_absent-Keeps none found v h = cc
set_absent-Keeps (some w) found v h = h

module _ (system : System) where
  -- `try_inherit_dbus_env` leaves the other two variables alone.
  abbrev Adopts : Env → Env → Type 0
  Adopts e e' =
      Keeps e.dbus_session_bus_address e'.dbus_session_bus_address
      × (e'.wayland_display ≡ e.wayland_display)
      × (e'.xdg_runtime_dir ≡ e.xdg_runtime_dir)

  from_bus_kept :
      (e : Env) (o : Option Str) → e.dbus_session_bus_address ≡ o → Adopts e (from_bus system e o)
  from_bus_kept e (some address) h = (λ v p. p, refl, refl)
  from_bus_kept e none h = (kept_none _ _ h, refl, refl)

  from_compositor_kept :
      (e : Env) (o : Option Str)
      → e.dbus_session_bus_address ≡ o
      → Adopts e (from_compositor system e o)
  unfolding inherit_dbus_from_compositor
  from_compositor_kept e (some address) h = (λ v p. p, refl, refl)
  from_compositor_kept e none h =
      let e1 = inherit_dbus_from_compositor system e in
      let (_, display, dir) = from_bus_kept e1 e1.dbus_session_bus_address refl in
      (kept_none _ _ h, display, dir)

  dbus_kept : (e : Env) → Adopts e (try_inherit_dbus_env system e)
  unfolding try_inherit_dbus_env
  dbus_kept e = from_compositor_kept e e.dbus_session_bus_address refl

  -- What a compositor's environment adds, if it has a display.
  abbrev Adopted : Env → Option Env → Type 0
  Adopted e none = Unit {0}
  Adopted e (some e') =
      (is_some e'.wayland_display ≡ true)
      × Keeps e.xdg_runtime_dir e'.xdg_runtime_dir
      × Keeps e.dbus_session_bus_address e'.dbus_session_bus_address

  adopt-Adopted :
      (found : Found) (e : Env) (o : Option Env)
      → Adopted e o
      → Adopted e (or_else (adopt system found e) o)
  adopt-Adopted found e o h = elim (Option-cases found.display) [
    | inl none_found ↦ rw none_found h
    | inr (display, some_found) ↦ rw some_found (refl, set_absent-Keeps _ _, set_absent-Keeps _ _)
  ]

  adopt_first-Adopted :
      (environs : List (List Str)) (e : Env) → Adopted e (adopt_first system environs e)
  adopt_first-Adopted [] e = tt
  adopt_first-Adopted (environ ∷ rest) e =
      adopt-Adopted _ e (adopt_first system rest e) (adopt_first-Adopted rest e)

  -- The answer is whether there is a display, and what was set before is kept.
  abbrev Ensured : Env → Env × Bool → Type 0
  Ensured e (e', found) = (is_some e'.wayland_display ≡ found) × KeepsAll e e'

  scanned-Ensured :
      (e : Env) (o : Option Str) → e.wayland_display ≡ none → Ensured e (scanned system e o)
  scanned-Ensured e none h = (rw h refl, (kept_refl _, kept_refl _, kept_refl _))
  scanned-Ensured e (some display) h = (refl, (kept_none _ _ h, kept_refl _, kept_refl _))

  inherited-Ensured :
      (e : Env) (o : Option Env)
      → e.wayland_display ≡ none
      → Adopted e o
      → Ensured e (inherited system e o)
  inherited-Ensured e none h a =
      scanned-Ensured e (on_some (find_wayland_socket system) e.xdg_runtime_dir) h
  inherited-Ensured e (some e') h (display, dir, dbus) = (display, (kept_none _ _ h, dir, dbus))

  with_display-Ensured :
      (e : Env) (o : Option Str) → e.wayland_display ≡ o → Ensured e (with_display system e o)
  unfolding inherit_compositor_env
  with_display-Ensured e (some display) h = (rw h refl, (kept_refl _, kept_refl _, kept_refl _))
  with_display-Ensured e none h = inherited-Ensured e _ h (adopt_first-Adopted _ e)

  -- After the discovery there is a display exactly when it answers true, and each of the three
  -- variables that was set before has its value still.
  pub ensure_wayland_env-KeepsAll :
      (e : Env)
      → let (e', found) = ensure_wayland_env system e in
        (is_some e'.wayland_display ≡ found) × KeepsAll e e'
  unfolding ensure_wayland_env
  ensure_wayland_env-KeepsAll e =
      let e1 = try_inherit_dbus_env system e in
      let (bus, display, dir) = dbus_kept e in
      let (found, (display1, dir1, bus1)) = with_display-Ensured e1 e1.wayland_display refl in
      (found, (λ v h. display1 v (display ∙ h), λ v h. dir1 v (dir ∙ h), λ v h. bus1 v (bus v h)))
