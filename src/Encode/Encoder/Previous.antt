-- ===== src/Encode/Encoder/Previous.antt =====
-- The slots of the decoded picture buffer over any calls.
use remote_way.Prelude.{
  ℕ, ◌+◌, ◌-◌, ◌%◌, ◌^◌, ◌<◌, Bool, true, false, List, [], ◌∷◌, Option, none, some, length,
  get_elem?, if◌then◌else◌, set, ◌≡◌, ◌≢◌, inl, inr, refl, arith, get_elem?-set, get_elem?-below,
  get_elem?-set_other, length-set, Bool-cases, sym, subst, ap, ◌∙◌,
}
use remote_way.Encode.Params.{EncodeParams, Outcome, ok, err}
use remote_way.Encode.Session.{InputFrame, Device, Recorder}
use remote_way.Encode.Encoder.{
  Encoder, dpb_slots, start, is_idr, next_slot, setup_slot, ref_slot, request_keyframe, same_size,
  encode_with, read_back, SessionCall, encodes, keyframe, Held, holds, session_call, session_calls,
}

-- Before the first picture no slot is named; afterwards the last picture's slot holds it, until the
-- index of 64 bits begins again at 0.
abbrev pub HoldsLast : Option ℕ → ℕ → Held → Type 0
HoldsLast none n held = n ≡ 0
HoldsLast (some s) n held = (s < dpb_slots) × (n ≢ 0 → get_elem? held s ≡ some (some (n - 1)))

pub record Ready {D : Type 0} (held : Held) (e : Encoder D) : Type 0 where
  pub slots : length e.dpb ≡ dpb_slots
  pub held_slots : length held ≡ dpb_slots
  pub index : e.frame_index < 2 ^ 64
  pub last : HoldsLast e.prior_ref_slot e.frame_index held

-- The reference of the next picture is a slot that the picture does not write, that has a view, and
-- that holds the picture encoded just before.
abbrev pub RefersBack : {D : Type 0} → Held → Encoder D → ℕ → Type 0
RefersBack held e s =
    (s < dpb_slots)
    × (s ≢ setup_slot e)
    × (0 < e.frame_index)
    × (get_elem? held s ≡ some (some (e.frame_index - 1)))
    × (get_elem? e.dpb s ≢ none)

next_slot-lt : (o : Option ℕ) → next_slot o dpb_slots < dpb_slots
next_slot-lt none = omega arith
next_slot-lt (some s) = omega arith

next_slot-ne : (s : ℕ) → s < dpb_slots → next_slot (some s) dpb_slots ≢ s
next_slot-ne s h = omega arith

-- Writing the next slot keeps what the last one holds.
keeps_last :
    (o : Option ℕ) (n : ℕ) (held : Held) (v : Option ℕ)
    → HoldsLast o n held
    → HoldsLast o n (set held (next_slot o dpb_slots) v)
keeps_last none n held v h = h
keeps_last (some s) n held v (below, h) = (
  below,
  λ later.
      rw (get_elem?-set_other held (next_slot (some s) dpb_slots) s v (next_slot-ne s below))
        (h later),
)

takes_over :
    (o : Option ℕ) (n : ℕ) (held : Held)
    → length held ≡ dpb_slots
    → n < 2 ^ 64
    → HoldsLast
        (some (next_slot o dpb_slots))
        ((n + 1) % 2 ^ 64)
        (set held (next_slot o dpb_slots) (some n))
takes_over o n held two below = (
  next_slot-lt o,
  λ later.
      get_elem?-set held (next_slot o dpb_slots) (some n) (omega (arith, next_slot-lt o))
      ∙ ap (λ i. some (some i)) (omega arith),
)

pub start-Ready :
    {D : Type 0} (recorder : Recorder D) (params : EncodeParams) (blob dpb : List ℕ)
    → length dpb ≡ dpb_slots
    → Ready (none ∷ none ∷ []) (start recorder params blob dpb)
unfolding start
start-Ready recorder params blob dpb two = record {
  slots = two;
  held_slots = refl;
  index = omega arith;
  last = refl;
}

module _ {D P : Type 0} (device : Device D P) (picture : Encoder D → P)
    (framed : List ℕ → List ℕ) where
  pub read_back-Ready :
      (held : Held) (frame : InputFrame) (e : Encoder D) (r : Recorder D × Outcome (List ℕ))
      → Ready held e
      → let (e', o) = read_back device picture framed frame e r in
        Ready (holds device picture framed held e o) e'
  read_back-Ready held frame e (recorder, ok bitstream) h = rw h.slots (record {
    slots = h.slots;
    held_slots = length-set held (next_slot e.prior_ref_slot dpb_slots) _ ∙ h.held_slots;
    index = omega arith;
    last = takes_over e.prior_ref_slot e.frame_index held h.held_slots h.index;
  })
  read_back-Ready held frame e (recorder, err x) h = rw h.slots (record {
    slots = h.slots;
    held_slots = length-set held (next_slot e.prior_ref_slot dpb_slots) _ ∙ h.held_slots;
    index = h.index;
    last = keeps_last e.prior_ref_slot e.frame_index held none h.last;
  })

  session_call-Ready :
      (held : Held) (e : Encoder D) (r : SessionCall)
      → Ready held e
      → let (held', e') = session_call device picture framed held e r in Ready held' e'
  unfolding session_call encode_with request_keyframe
  session_call-Ready held e (encodes frame) h = elim (Bool-cases (same_size frame e.params)) [
    | inl same ↦ rw same (read_back-Ready held frame e _ h)
    | inr other ↦ rw other h
  ]
  session_call-Ready held e keyframe h = record {
    slots = h.slots;
    held_slots = h.held_slots;
    index = h.index;
    last = h.last;
  }

  pub session_calls-Ready :
      (rs : List SessionCall) (held : Held) (e : Encoder D)
      → Ready held e
      → let (held', e') = session_calls device picture framed held e rs in Ready held' e'
  unfolding session_calls
  session_calls-Ready [] held e h = h
  session_calls-Ready (r ∷ rest) held e h =
      let (held', e') = session_call device picture framed held e r in
      session_calls-Ready rest held' e' (session_call-Ready held e r h)

  pub ref_slot-Ready :
      (held : Held) (e : Encoder D) (s : ℕ)
      → Ready held e
      → ref_slot e ≡ some s
      → RefersBack held e s
  ref_slot-Ready held e s h r = referred e.prior_ref_slot (is_idr e) refl r h.last
    where
      referred :
          (o : Option ℕ) (key : Bool)
          → is_idr e ≡ key
          → (if key then none else o) ≡ some s
          → HoldsLast o e.frame_index held
          → (s < dpb_slots)
            × (s ≢ next_slot o (length e.dpb))
            × (0 < e.frame_index)
            × (get_elem? held s ≡ some (some (e.frame_index - 1)))
            × (get_elem? e.dpb s ≢ none)
      referred o true k r l = cc
      referred none false k r l = cc
      referred (some t) false k r (below, later) =
          let same : t ≡ s = cc in
          let later' : 0 < e.frame_index = ground arith in
          subst
            (λ u.
              (u < dpb_slots)
              × (u ≢ next_slot (some t) (length e.dpb))
              × (0 < e.frame_index)
              × (get_elem? held u ≡ some (some (e.frame_index - 1)))
              × (get_elem? e.dpb u ≢ none))
            same
            (
              below,
              rw h.slots (λ q. next_slot-ne t below (sym q)),
              later',
              later (omega (arith, later')),
              get_elem?-below e.dpb t (omega (arith, below, h.slots)),
            )

  -- The same over any calls of a new session.
  pub session_calls-RefersBack :
      (recorder : Recorder D) (params : EncodeParams) (blob : List ℕ) (a b : ℕ)
      (rs : List SessionCall)
      → let (held, e) =
          session_calls device picture framed
            (none ∷ none ∷ [])
            (start recorder params blob (a ∷ b ∷ []))
            rs in
        (prev : ℕ) → ref_slot e ≡ some prev → RefersBack held e prev
  session_calls-RefersBack recorder params blob a b rs prev =
      let first = start recorder params blob (a ∷ b ∷ []) in
      let (held, e) = session_calls device picture framed (none ∷ none ∷ []) first rs in
      ref_slot-Ready held e prev (
        session_calls-Ready rs (none ∷ none ∷ []) first
          (start-Ready recorder params blob (a ∷ b ∷ []) refl))
