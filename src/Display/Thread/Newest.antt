-- ===== src/Display/Thread/Newest.antt =====
-- Which frames the loop shows.
use remote_way.Prelude.{
  ℕ, true, false, List, [], ◌∷◌, ◌++◌, Option, none, some, ◌==◌, ◌≡◌, ◌⊎◌, inl, inr, refl, sym, ◌∙◌,
  ap, subst, Bool-cases, ==_iff,
}
use remote_way.Display.Shm.{DisplayResult, ok, err, DamageRegion, ShmFrameUploader, can_upload}
use remote_way.Display.Surface.{
  ManagedSurface, Commit, DisplayState, Event, find_surface, handle_events, present_frame, present,
  elapsed,
}
use remote_way.Display.Thread.{
  DisplayFrame, DisplayLoop, Answers, drain, after_present, or_present, resize_if, or_resize,
  ensure_surface, show_frame, drained, dispatched, turn,
}

-- The frame that a turn tries to show.
abbrev pub newest : DisplayLoop → Option DisplayFrame
newest l = drain l.pending_frame l.ring

-- A turn without an error shows the newest frame, or keeps it.
abbrev Progress :
    List DisplayFrame → Option DisplayFrame → DisplayLoop × DisplayResult (Unit {0}) → Type 0
Progress shown o (l, err x) = Unit {0}
Progress shown o (l, ok _) =
    ((f : DisplayFrame) × (o ≡ some f) × (l.shown ≡ shown ++ (f ∷ [])) × (newest l ≡ none))
    ⊎ ((l.shown ≡ shown) × (newest l ≡ o))

after_present-Progress :
    (l : DisplayLoop) (f : DisplayFrame) (r : DisplayState × DisplayResult (Option Commit))
    → l.ring ≡ []
    → Progress l.shown (some f) (after_present l f r)
after_present-Progress l f (d, ok (some c)) e = inl (f, refl, refl, rw e refl)
after_present-Progress l f (d, ok none) e = inr (refl, rw e refl)
after_present-Progress l f (d, err x) e = tt

or_present-Progress :
    (a : Answers) (l : DisplayLoop) (f : DisplayFrame) (r : DisplayState × DisplayResult (Unit {0}))
    → l.ring ≡ []
    → Progress l.shown (some f) (or_present a l f r)
or_present-Progress a l f (d, ok _) e = after_present-Progress l f _ e
or_present-Progress a l f (d, err x) e = tt

or_resize-Progress :
    (a : Answers) (l : DisplayLoop) (f : DisplayFrame) (r : DisplayState × DisplayResult (Unit {0}))
    → l.ring ≡ []
    → Progress l.shown (some f) (or_resize a l f r)
or_resize-Progress a l f (d, ok _) e = or_present-Progress a l f _ e
or_resize-Progress a l f (d, err x) e = tt

show_frame-Progress :
    (a : Answers) (l : DisplayLoop) (events : List Event) (o : Option DisplayFrame)
    → Progress l.shown o (show_frame a (drained l events) o)
show_frame-Progress a l events none = inr (refl, refl)
show_frame-Progress a l events (some f) =
    or_resize-Progress a (drained l events) f (ensure_surface a (drained l events).display f) refl

dispatched-Progress :
    (l : DisplayLoop) (a : Answers) (o : Option (List Event))
    → Progress l.shown (newest l) (dispatched a l o)
dispatched-Progress l a none = tt
dispatched-Progress l a (some events) = show_frame-Progress a l events (newest l)

turn-Progress : (l : DisplayLoop) (a : Answers) → Progress l.shown (newest l) (turn l a)
unfolding turn
turn-Progress l a = dispatched-Progress l a a.events

-- The surface takes a frame at this time: it is configured, waits for no callback or has waited too
-- long, and its next buffer was released.
pub record CanPresent (now : ℕ) (s : ManagedSurface) : Type 0 where
  pub configured : s.configured ≡ true
  pub waited :
      (s.frame_callback_pending ≡ false) ⊎ (elapsed now s.frame_callback_requested_at ≡ true)
  pub uploader : ShmFrameUploader
  pub there : s.uploader ≡ some uploader
  pub free : can_upload uploader ≡ true

-- The turn finds such a surface of the frame's size, once its events are dispatched.
pub record Able (l : DisplayLoop) (f : DisplayFrame) (a : Answers) : Type 0 where
  pub events : List Event
  pub dispatches : a.events ≡ some events
  pub surface : ManagedSurface
  pub found : find_surface f.surface_id (handle_events l.display events).surfaces ≡ some surface
  pub width : surface.width ≡ f.width
  pub height : surface.height ≡ f.height
  pub takes : CanPresent a.now surface

abbrev Shows : List DisplayFrame → DisplayFrame → DisplayLoop × DisplayResult (Unit {0}) → Type 0
Shows shown f (l, ok _) = (l.shown ≡ shown ++ (f ∷ [])) × (newest l ≡ none)
Shows shown f (l, err x) = ⊥

present_commits :
    (now : ℕ) (bytes : List ℕ) (damage : List DamageRegion) (s : ManagedSurface)
    → CanPresent now s
    → (s' : ManagedSurface) × (c : Commit) × (present now bytes damage s ≡ (s', some c))
unfolding present
present_commits now bytes damage s p = elim (Bool-cases s.frame_callback_pending) [
  | inr idle ↦ rw (p.configured, idle, p.there, p.free) (_, _, refl)
  | inl pending ↦ elim p.waited [
    | inl idle ↦ cc
    | inr late ↦ rw (p.configured, pending, late, p.there, p.free) (_, _, refl)
  ]
]

present_frame_commits :
    (a : Answers) (l : DisplayLoop) (d : DisplayState) (f : DisplayFrame) (s : ManagedSurface)
    → l.ring ≡ []
    → find_surface f.surface_id d.surfaces ≡ some s
    → CanPresent a.now s
    → Shows l.shown f (after_present l f (present_frame d a.now f.surface_id f.bytes f.damage))
unfolding present_frame
present_frame_commits a l d f s empty found takes =
    let (s', c, e) = present_commits a.now f.bytes f.damage s takes in
    rw found (rw e (refl, rw empty refl))

show_commits :
    (a : Answers) (l : DisplayLoop) (f : DisplayFrame) (s : ManagedSurface)
    → l.ring ≡ []
    → find_surface f.surface_id l.display.surfaces ≡ some s
    → s.width ≡ f.width
    → s.height ≡ f.height
    → CanPresent a.now s
    → Shows l.shown f (show_frame a l (some f))
show_commits a l f s empty found width height takes =
    let same_width : (s.width == f.width) ≡ true = (==_iff s.width f.width).1 width in
    let same_height : (s.height == f.height) ≡ true = (==_iff s.height f.height).1 height in
    let there : ensure_surface a l.display f ≡ (l.display, ok tt) = rw found refl in
    let sized : resize_if a l.display f (find_surface f.surface_id l.display.surfaces)
        ≡ (l.display, ok tt) =
      rw found (rw (same_width, same_height) refl) in
    subst (λ r. Shows l.shown f (or_resize a l f r)) (sym there)
      (subst (λ r. Shows l.shown f (or_present a l f r)) (sym sized)
        (present_frame_commits a l l.display f s empty found takes))

turn_commits :
    (l : DisplayLoop) (a : Answers) (f : DisplayFrame)
    → newest l ≡ some f
    → Able l f a
    → Shows l.shown f (turn l a)
unfolding turn
turn_commits l a f n able =
    rw (able.dispatches, n)
      (show_commits a (drained l able.events) f able.surface refl able.found able.width able.height
        able.takes)

-- Turns without an error, and where they lead.
pub data Course : DisplayLoop → List Answers → DisplayLoop → Type 0 where
  stays : {l : DisplayLoop} → Course l [] l
  goes :
      {l l' m : DisplayLoop} {a : Answers} {rest : List Answers}
      → turn l a ≡ (l', ok tt)
      → Course l' rest m
      → Course l (a ∷ rest) m

-- Turns in which nothing is left to show show nothing.
nothing_shown :
    (l m : DisplayLoop) (path : List Answers)
    → Course l path m
    → newest l ≡ none
    → (m.shown ≡ l.shown) × (newest m ≡ none)
nothing_shown l _ _ stays n = (refl, n)
nothing_shown l m _ (goes {l' = l'} {a} {rest} e t) n =
    elim (subst (Progress l.shown (newest l)) e (turn-Progress l a)) [
      | inl (f, o, shown, left) ↦ cc
      | inr (shown, left) ↦
          let (shown', left') = nothing_shown l' m rest t (left ∙ n) in (shown' ∙ shown, left')
    ]

-- If no frame is sent any more, then after turns without an error that end with one that finds the
-- surface of the newest frame ready, exactly that frame has been shown since.
pub turns-shown :
    (l m m' : DisplayLoop) (path : List Answers) (last : Answers) (f : DisplayFrame)
    → newest l ≡ some f
    → Course l path m
    → Able m f last
    → turn m last ≡ (m', ok tt)
    → (m'.shown ≡ l.shown ++ (f ∷ [])) × (newest m' ≡ none)
turns-shown l _ m' _ last f n stays able e =
    subst (Shows l.shown f) e (turn_commits l last f n able)
turns-shown l m m' _ last f n (goes {l' = l'} {a} {rest} q t) able e =
    elim (subst (Progress l.shown (newest l)) q (turn-Progress l a)) [
      | inl (g, o, shown, left) ↦
          let (shown', left') = nothing_shown l' m rest t left in
          let (shown2, left2) = nothing_shown m m' (last ∷ []) (goes e stays) left' in
          let same : g ≡ f = cc in
          (shown2 ∙ shown' ∙ shown ∙ ap (λ h. l.shown ++ (h ∷ [])) same, left2)
      | inr (shown, left) ↦
          let (shown', left') = turns-shown l' m m' rest last f (left ∙ n) t able e in
          (shown' ∙ ap (λ k. k ++ (f ∷ [])) shown, left')
    ]
