-- ===== src/Capture/DesktopDetect/Components.antt =====
-- Lists of desktops in `XDG_CURRENT_DESKTOP`.
use remote_way.Prelude.{
  ℕ, List, [], ◌∷◌, ◌++◌, Option, none, some, ◌==◌, ◌≡◌, ◌⊎◌, inl, inr, refl, sym, ◌∙◌, ap, arith,
  Bool-cases, Option-cases, ==_refl, ◌≢◌,
}
use remote_way.Capture.Text.{Str, lower, to_lowercase, split, push_front, trim}
use remote_way.Capture.DesktopDetect.{
  DesktopEnvironment, of_component, of_components, or_else, detect_from_env,
}

split_some : (sep : ℕ) (s : Str) → (part : Str) × (parts : List Str) × (split sep s ≡ part ∷ parts)
split_some sep [] = ([], [], refl)
split_some sep (c ∷ s) =
    let (part, parts, e) = split_some sep s in
    elim (Bool-cases (c == sep)) [
      | inl same ↦ rw same ([], split sep s, refl)
      | inr other ↦ rw (other, e) (c ∷ part, parts, refl)
    ]

push_front-append :
    (c sep : ℕ) (s : Str) (ys : List Str)
    → push_front c (split sep s ++ ys) ≡ push_front c (split sep s) ++ ys
push_front-append c sep s ys = let (part, parts, e) = split_some sep s in rw e refl

-- The parts of two texts with a separator between them.
split-append : (sep : ℕ) (s t : Str) → split sep (s ++ sep ∷ t) ≡ split sep s ++ split sep t
split-append sep [] t = rw (==_refl sep) refl
split-append sep (c ∷ s) t = elim (Bool-cases (c == sep)) [
  | inl same ↦ rw same (ap (λ r. [] ∷ r) (split-append sep s t))
  | inr other ↦ rw (other, split-append sep s t) (push_front-append c sep s (split sep t))
]

map-append : (s t : Str) → to_lowercase (s ++ t) ≡ to_lowercase s ++ to_lowercase t
map-append [] t = refl
map-append (c ∷ s) t = ap (λ r. lower c ∷ r) (map-append s t)

of_components-append :
    (xs ys : List Str) → of_components (xs ++ ys) ≡ or_else (of_components xs) (of_components ys)
unfolding of_components
of_components-append [] ys = refl
of_components-append (x ∷ xs) ys = elim (Option-cases (of_component (trim x))) [
  | inl nothing ↦ rw nothing (of_components-append xs ys)
  | inr (d, found) ↦ rw found refl
]

-- What a text names, before the session's variable is asked.
abbrev pub prefer : DesktopEnvironment → DesktopEnvironment → DesktopEnvironment
prefer DesktopEnvironment.unknown d = d
prefer d _ = d

never_unknown :
    (s : Str) (d : DesktopEnvironment) → of_component s ≡ some d → d ≢ DesktopEnvironment.unknown
unfolding of_component
never_unknown s d h = ground arith

-- The answer for a whole text: what the parts name, if anything.
named : Str → Option DesktopEnvironment
named s = of_components (split 58 (to_lowercase s))

named-colon : (s t : Str) → named (s ++ 58 ∷ t) ≡ or_else (named s) (named t)
unfolding named
named-colon s t =
    ap (λ r. of_components (split 58 r)) (map-append s (58 ∷ t))
    ∙ ap of_components (split-append 58 (to_lowercase s) (to_lowercase t))
    ∙ of_components-append (split 58 (to_lowercase s)) (split 58 (to_lowercase t))

either :
    {d : DesktopEnvironment} (o p : Option DesktopEnvironment)
    → or_else o p ≡ some d
    → (o ≡ some d) ⊎ (p ≡ some d)
either none p h = inr h
either (some e) p h = inl h

of_components_known :
    (xs : List Str) (d : DesktopEnvironment)
    → of_components xs ≡ some d
    → d ≢ DesktopEnvironment.unknown
unfolding of_components
of_components_known [] d h = cc
of_components_known (x ∷ xs) d h = elim (either (of_component (trim x)) (of_components xs) h) [
  | inl now ↦ never_unknown (trim x) d now
  | inr later ↦ of_components_known xs d later
]

prefer_known : (d e : DesktopEnvironment) → d ≢ DesktopEnvironment.unknown → prefer d e ≡ d
prefer_known d e h = ground arith

-- A list with colons is read from left to right: what the first part of it names is the answer, and
-- if it names nothing the rest is read as if it stood alone, and the session's variable after it.
pub detect_from_env-colon :
    (s t : Str) (session : Option Str)
    → detect_from_env (some (s ++ 58 ∷ t)) session
      ≡ prefer (detect_from_env (some s) none) (detect_from_env (some t) session)
unfolding detect_from_env named
detect_from_env-colon s t session = elim (Option-cases (named s)) [
  | inl nothing ↦ rw (named-colon s t) (rw nothing refl)
  | inr (d, found) ↦
      rw (named-colon s t) (
        rw found (sym (prefer_known d _ (of_components_known (split 58 (to_lowercase s)) d found))))
]
