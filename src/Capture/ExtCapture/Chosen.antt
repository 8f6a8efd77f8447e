-- ===== src/Capture/ExtCapture/Chosen.antt =====
-- Which window is taken for a new child's.
use remote_way.Prelude.{
  ℕ, Bool, true, false, not, ◌&&◌, List, [], ◌∷◌, Option, none, some, if◌then◌else◌, ◌≡◌, ◌≢◌, ◌⊎◌,
  inl, inr, refl, sym, ap₂, subst, arith, All, Bool-cases,
}
use remote_way.Prelude.{◌↔◌, ==_refl}
use remote_way.Capture.Text.{Str, str_eq}
use remote_way.Capture.ExtCapture.{
  CaptureResult, ok, err, capture_failed, wayland_dispatch, no_backend, no_outputs, session_ended,
  output_not_found, unsupported_format, DiscoveredOutput, DiscoveredToplevel, new_toplevel,
  find_first, contains, no_elements, first, is_new, new_among, or_else, ok_or, and_then,
  choose_source,
}

-- A window of the list with a property.
pub data Has (P : DiscoveredToplevel → Type 0) : List DiscoveredToplevel → Type 0 where
  here : {t : DiscoveredToplevel} {ts : List DiscoveredToplevel} → P t → Has P (t ∷ ts)
  there : {t : DiscoveredToplevel} {ts : List DiscoveredToplevel} → Has P ts → Has P (t ∷ ts)

-- A text is one of a list.
pub data Among (name : Str) : List Str → Type 0 where
  foremost : {names : List Str} → Among name (name ∷ names)
  behind : {other : Str} {names : List Str} → Among name names → Among name (other ∷ names)

-- A window that is to be taken for a new one: its identifier is none of the known ones, and is not
-- empty unless nothing was known.
abbrev pub New : List Str → DiscoveredToplevel → Type 0
New known t = (¬ Among t.identifier known) × ((known ≡ []) ⊎ (t.identifier ≢ []))

-- A window whose identifier is not a new one: it is empty, or known.
abbrev pub Old : List Str → DiscoveredToplevel → Type 0
Old known t = (t.identifier ≡ []) ⊎ Among t.identifier known

-- What the choice of a new child's window tells: the window is one that is there and is new; or no window
-- that is there has a new identifier, and if nothing was known there is no window at all; or the
-- compositor has no such sources.
abbrev pub Chosen : Bool → List Str → List DiscoveredToplevel → CaptureResult ℕ → Type 0
Chosen toplevels_can known toplevels (ok handle) =
    Has (λ t. (t.handle ≡ handle) × New known t) toplevels
Chosen toplevels_can known toplevels (err capture_failed) =
    (toplevels_can ≡ true) × All (Old known) toplevels × ((known ≡ []) → toplevels ≡ [])
Chosen toplevels_can known toplevels (err no_backend) = toplevels_can ≡ false
Chosen toplevels_can known toplevels (err wayland_dispatch) = ⊥
Chosen toplevels_can known toplevels (err no_outputs) = ⊥
Chosen toplevels_can known toplevels (err session_ended) = ⊥
Chosen toplevels_can known toplevels (err (output_not_found name)) = ⊥
Chosen toplevels_can known toplevels (err (unsupported_format format)) = ⊥

str_eq_iff : (s t : Str) → (str_eq s t ≡ true) ↔ (s ≡ t)
str_eq_iff s t = (str_eq_sound s t, λ e. subst (λ u. str_eq s u ≡ true) e (str_eq_refl s))
  where
    str_eq_sound : (s t : Str) → str_eq s t ≡ true → s ≡ t
    str_eq_sound [] [] e = refl
    str_eq_sound [] (d ∷ t) e = absurd cc
    str_eq_sound (c ∷ s) [] e = absurd cc
    str_eq_sound (c ∷ s) (d ∷ t) e =
        let heads : c ≡ d = ground (arith, e) in
        let tails : str_eq s t ≡ true = ground (arith, e) in
        ap₂ (λ a b. a ∷ b) heads (str_eq_sound s t tails)

    str_eq_refl : (s : Str) → str_eq s s ≡ true
    str_eq_refl [] = refl
    str_eq_refl (c ∷ s) = rw (==_refl c) (str_eq_refl s)

contains-Among : (known : List Str) (s : Str) → contains known s ≡ true → Among s known
contains-Among [] s e = absurd cc
contains-Among (k ∷ ks) s e = elim (Bool-cases (str_eq k s)) [
  | inl same ↦ subst (λ n. Among s (n ∷ ks)) (sym ((str_eq_iff k s).0 same)) foremost
  | inr other ↦ behind (contains-Among ks s (rw other at e))
]

not-contains-Among : (known : List Str) (s : Str) → contains known s ≡ false → ¬ Among s known
not-contains-Among [] s e a = elim a [ ]
not-contains-Among (k ∷ ks) s e foremost =
    let same = (str_eq_iff s s).1 refl in absurd (ground (arith, e, same))
not-contains-Among (k ∷ ks) s e (behind a) = not-contains-Among ks s (ground (arith, e)) a

is_new-New : (known : List Str) (t : DiscoveredToplevel) → is_new known t ≡ true → New known t
is_new-New known t e = (
  not-contains-Among known t.identifier (ground (arith, e)),
  inr (named t.identifier (ground (arith, e))),
)
  where
    named : (s : Str) → not (no_elements s) ≡ true → s ≢ []
    named [] h = absurd cc
    named (c ∷ s) h = λ empty. absurd cc

nameless : (s : Str) (b : Bool) → b ≡ false → not (no_elements s) && not b ≡ false → s ≡ []
nameless [] b absent e = refl
nameless (c ∷ s) b absent e = absurd (ground (arith, absent, e))

not-is_new-Old : (known : List Str) (t : DiscoveredToplevel) → is_new known t ≡ false → Old known t
not-is_new-Old known t e = elim (Bool-cases (contains known t.identifier)) [
  | inl there_already ↦ inr (contains-Among known t.identifier there_already)
  | inr absent ↦ inl (nameless t.identifier (contains known t.identifier) absent e)
]

-- A window with a new identifier is found if there is one.
abbrev Found : List Str → List DiscoveredToplevel → Option DiscoveredToplevel → Type 0
Found known ts (some t) = Has (λ u. (u.handle ≡ t.handle) × New known u) ts
Found known ts none = All (Old known) ts

later :
    (known : List Str) (t : DiscoveredToplevel) (ts : List DiscoveredToplevel)
    (o : Option DiscoveredToplevel)
    → Old known t
    → Found known ts o
    → Found known (t ∷ ts) o
later known t ts none old found = (old, found)
later known t ts (some u) old found = there found

find_first-Found :
    (known : List Str) (ts : List DiscoveredToplevel)
    → Found known ts (find_first (is_new known) ts)
unfolding find_first
find_first-Found known [] = tt
find_first-Found known (t ∷ ts) = elim (Bool-cases (is_new known t)) [
  | inl new ↦ rw new (here (refl, is_new-New known t new))
  | inr old ↦ rw old (
      later known t ts (find_first (is_new known) ts) (not-is_new-Old known t old)
        (find_first-Found known ts))
]

among :
    (known : List Str) (ts : List DiscoveredToplevel) (o : Option DiscoveredToplevel)
    → Found known ts o
    → Chosen true known ts (
        and_then
          (ok_or (or_else o (if no_elements known then first ts else none)) capture_failed)
          (λ t. ok t.handle))
among known ts (some t) found = found
among [] [] none found = (refl, tt, λ _. refl)
among [] (t ∷ ts) none found =
    here (refl, ((λ a. not-contains-Among [] t.identifier refl a), inl refl))
among (k ∷ ks) ts none found = (refl, found, λ empty. absurd cc)

-- The window that is captured for a new child is one that is there, whose identifier was not known before
-- and is not empty unless nothing was known. None is found only if each window there has an empty or
-- a known identifier, and, where nothing was known, only if there is no window.
pub choose_source-Chosen :
    (outputs_can toplevels_can : Bool) (outputs : List DiscoveredOutput) (known : List Str)
    (toplevels : List DiscoveredToplevel)
    → Chosen toplevels_can known toplevels
        (choose_source outputs_can toplevels_can outputs toplevels (new_toplevel known))
unfolding choose_source new_among
choose_source-Chosen outputs_can false outputs known toplevels = refl
choose_source-Chosen outputs_can true outputs known toplevels =
    among known toplevels (find_first (is_new known) toplevels) (find_first-Found known toplevels)
