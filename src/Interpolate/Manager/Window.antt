-- ===== src/Interpolate/Manager/Window.antt =====
-- The window of two frames against the history of calls.
use remote_way.Prelude.{
  subst, ℕ, ◌+◌, ◌%◌, ◌^◌, List, [], ◌∷◌, Option, none, some, if◌then◌else◌, ◌≡◌, refl, arith,
}
use remote_way.Interpolate.Float.{F32}
use remote_way.Interpolate.{GpuFrame, InterpolateResult, ok, err, FrameInterpolator}
use remote_way.Interpolate.Manager.{
  InterpolationManager, new_manager, push_frame, reset_anchor, clear, interpolate, between,
  after_call,
}

-- A call of the manager that changes it.
pub data Call : Type 0 where
  pushes : GpuFrame → Call
  interpolates : F32 → Call
  resets clears : Call

-- The frame pushed last, of calls from the last to the first: a clearing ends the history.
unfoldable pub newest : List Call → Option GpuFrame
newest [] = none
newest (pushes frame ∷ earlier) = some frame
newest (clears ∷ earlier) = none
newest (resets ∷ earlier) = newest earlier
newest (interpolates t ∷ earlier) = newest earlier

-- The frame pushed last, unless a reset has come after it.
unfoldable pub continued : List Call → Option GpuFrame
continued [] = none
continued (pushes frame ∷ earlier) = some frame
continued (clears ∷ earlier) = none
continued (resets ∷ earlier) = none
continued (interpolates t ∷ earlier) = continued earlier

-- The frame that the one pushed last continues.
unfoldable pub previous : List Call → Option GpuFrame
previous [] = none
previous (pushes frame ∷ earlier) = continued earlier
previous (clears ∷ earlier) = none
previous (resets ∷ earlier) = previous earlier
previous (interpolates t ∷ earlier) = previous earlier

-- The frames pushed since the last clearing.
unfoldable pub pushed : List Call → ℕ
pushed [] = 0
pushed (pushes frame ∷ earlier) = pushed earlier + 1
pushed (clears ∷ earlier) = 0
pushed (resets ∷ earlier) = pushed earlier
pushed (interpolates t ∷ earlier) = pushed earlier

module _ {B : Type 0} (interpolator : FrameInterpolator B) (backend : B) where
  abbrev pub call : InterpolationManager B → Call → InterpolationManager B
  call m (pushes frame) = push_frame m frame
  call m (interpolates t) = (interpolate interpolator m t).0
  call m resets = reset_anchor m
  call m clears = clear m

  -- The manager after calls, given from the last to the first.
  abbrev pub after_calls : List Call → InterpolationManager B
  after_calls [] = new_manager backend
  after_calls (c ∷ earlier) = call (after_calls earlier) c

  -- The manager keeps of the history what it is to keep.
  record Kept (m : InterpolationManager B) (calls : List Call) : Type 0 where
    target : m.target ≡ newest calls
    anchor : m.anchor ≡ previous calls
    next : (if m.force_reset then none else m.target) ≡ continued calls
    frame_count : m.frame_count ≡ pushed calls % 2 ^ 64

  after_call-Kept :
      (m : InterpolationManager B) (t : F32) (calls : List Call)
      → Kept m calls
      → (r : B × InterpolateResult GpuFrame) → Kept (after_call m r).0 (interpolates t ∷ calls)
  unfolding newest continued previous pushed
  after_call-Kept m t calls k (b, ok frame) = record {
    target = k.target;
    anchor = k.anchor;
    next = k.next;
    frame_count = k.frame_count;
  }
  after_call-Kept m t calls k (b, err x) = record {
    target = k.target;
    anchor = k.anchor;
    next = k.next;
    frame_count = k.frame_count;
  }

  -- An interpolation changes neither the frames nor what comes next.
  between-Kept :
      (m : InterpolationManager B) (t : F32) (calls : List Call)
      → Kept m calls
      → (anchor target : Option GpuFrame)
      → Kept (between interpolator m t anchor target).0 (interpolates t ∷ calls)
  unfolding newest continued previous pushed
  between-Kept m t calls k (some a) (some b) =
      after_call-Kept m t calls k (interpolator.interpolate m.backend a b t)
  between-Kept m t calls k (some a) none = record {
    target = k.target;
    anchor = k.anchor;
    next = k.next;
    frame_count = k.frame_count;
  }
  between-Kept m t calls k none target = record {
    target = k.target;
    anchor = k.anchor;
    next = k.next;
    frame_count = k.frame_count;
  }

  kept : (calls : List Call) → Kept (after_calls calls) calls
  unfolding new_manager push_frame reset_anchor clear interpolate newest continued previous pushed
  kept [] = record { target = refl; anchor = refl; next = refl; frame_count = refl }
  kept (pushes frame ∷ earlier) =
      let k = kept earlier in
      record {
        target = refl;
        anchor = k.next;
        next = refl;
        frame_count = omega (arith, k.frame_count);
      }
  kept (resets ∷ earlier) =
      let k = kept earlier in
      record { target = k.target; anchor = k.anchor; next = refl; frame_count = k.frame_count }
  kept (clears ∷ earlier) = record { target = refl; anchor = refl; next = refl; frame_count = refl }
  kept (interpolates t ∷ earlier) =
      let m = after_calls earlier in between-Kept m t earlier (kept earlier) m.anchor m.target

  -- The frame of a backend's answer, or its error.
  abbrev pub answer_of : InterpolateResult GpuFrame → InterpolateResult (Option GpuFrame)
  answer_of (ok frame) = ok (some frame)
  answer_of (err x) = err x

  -- One more if the backend has given a frame.
  abbrev pub counted : ℕ → InterpolateResult GpuFrame → ℕ
  counted n (ok frame) = (n + 1) % 2 ^ 64
  counted n (err x) = n

  -- What an interpolation between an earlier and a later frame is to give: the backend's answer for
  -- just these, its new state, and the count; without both frames nothing, and nothing changes.
  abbrev pub Asked :
      InterpolationManager B
      → F32
      → Option GpuFrame
      → Option GpuFrame
      → InterpolationManager B × InterpolateResult (Option GpuFrame)
      → Type 0
  Asked m t (some earlier) (some later) (m', result) =
      let (b, answer) = interpolator.interpolate m.backend earlier later t in
      (result ≡ answer_of answer)
      × (m' ≡ record m { backend = b; interpolated_count = counted m.interpolated_count answer })
  Asked m t (some earlier) none r = r ≡ (m, ok none)
  Asked m t none later r = r ≡ (m, ok none)

  after_call-eq :
      (m : InterpolationManager B) (r : B × InterpolateResult GpuFrame)
      → ((after_call m r).1 ≡ answer_of r.1)
        × ((after_call m r).0
            ≡ record m { backend = r.0; interpolated_count = counted m.interpolated_count r.1 })
  after_call-eq m (b, ok frame) = (refl, refl)
  after_call-eq m (b, err x) = (refl, refl)

  between-Asked :
      (m : InterpolationManager B) (t : F32) (earlier later : Option GpuFrame)
      → Asked m t earlier later (between interpolator m t earlier later)
  between-Asked m t (some a) (some b) = after_call-eq m (interpolator.interpolate m.backend a b t)
  between-Asked m t (some a) none = refl
  between-Asked m t none later = refl

  -- After any calls, given from the last to the first, failed interpolations among them, an interpolation
  -- gives what the backend answers for the frame pushed just before the last one and the one pushed
  -- last, if no reset came between these two, and takes over the backend's state; it gives none and
  -- changes nothing if there is no such pair since the last clearing. The frames counted are those
  -- pushed since then.
  pub after_calls-window :
      (calls : List Call) (t : F32)
      → let m = after_calls calls in
        Asked m t (previous calls) (newest calls) (interpolate interpolator m t)
        × (m.frame_count ≡ pushed calls % 2 ^ 64)
  unfolding interpolate
  after_calls-window calls t =
      let k = kept calls in
      let m = after_calls calls in
      (
        subst (λ a. Asked m t a (newest calls) (between interpolator m t m.anchor m.target))
            k.anchor
            (subst (λ b. Asked m t m.anchor b (between interpolator m t m.anchor m.target)) k.target
              (between-Asked m t m.anchor m.target)),
        k.frame_count,
      )
