-- ===== src/Encode/Av1/References.antt =====
-- What the AV1 encoder says of the picture it refers to, against what it said when it made it.
use remote_way.Prelude.{
  ℕ, ◌-◌, ◌%◌, List, [], ◌∷◌, none, some, get_elem?, ◌≡◌, ◌≢◌, inl, inr, refl, arith, Bool-cases,
}
use remote_way.Encode.Session.{InputFrame, Device, Recorder}
use remote_way.Encode.Params.{EncodeParams, Outcome, ok, err}
use remote_way.Encode.Encoder.{
  SessionCall, encodes, keyframe, Held, holds, read_back, encode_with, request_keyframe, same_size,
  setup_slot, ref_slot,
}
use remote_way.Encode.Encoder.Previous.{Ready, start-Ready, read_back-Ready, ref_slot-Ready}
use remote_way.Encode.Av1.{
  Av1Encoder, Picture, picture, framed, advance, av1_call, av1_calls, start_av1, encode,
  reference_info,
}

module _ {D : Type 0} where
  -- The order hint counts the pictures modulo 256.
  abbrev pub InStep : Held → Av1Encoder D → Type 0
  InStep held a = Ready held a.session × (a.order_hint ≡ a.session.frame_index % 256)

  advance-InStep :
      (device : Device D Picture) (held : Held) (frame : InputFrame) (a : Av1Encoder D)
      (r : Recorder D × Outcome (List ℕ))
      → InStep held a
      → let (a', o) =
          advance a.order_hint (read_back device (picture a.order_hint) framed frame a.session r) in
        InStep (holds device (picture a.order_hint) framed held a.session o) a'
  advance-InStep device held frame a (recorder, ok bitstream) (h, e) = (
    read_back-Ready device (picture a.order_hint) framed held frame a.session
        (recorder, ok bitstream) h,
    omega (arith, e),
  )
  advance-InStep device held frame a (recorder, err x) (h, e) = (
    read_back-Ready device (picture a.order_hint) framed held frame a.session (recorder, err x) h,
    e,
  )

  av1_call-InStep :
      (device : Device D Picture) (held : Held) (a : Av1Encoder D) (r : SessionCall)
      → InStep held a
      → let (held', a') = av1_call device held a r in InStep held' a'
  unfolding av1_call encode encode_with request_keyframe
  av1_call-InStep device held a (encodes frame) h =
      elim (Bool-cases (same_size frame a.session.params)) [
        | inl same ↦ rw same (advance-InStep device held frame a _ h)
        | inr other ↦ rw other h
      ]
  av1_call-InStep device held a keyframe (h, e) =
      (record { slots = h.slots; held_slots = h.held_slots; index = h.index; last = h.last }, e)

  av1_calls-InStep :
      (device : Device D Picture) (rs : List SessionCall) (held : Held) (a : Av1Encoder D)
      → InStep held a
      → let (held', a') = av1_calls device held a rs in InStep held' a'
  unfolding av1_calls
  av1_calls-InStep device [] held a h = h
  av1_calls-InStep device (r ∷ rest) held a h =
      let (held', a') = av1_call device held a r in
      av1_calls-InStep device rest held' a' (av1_call-InStep device held a r h)

  -- The hint is in step with the index, and the reference, if there is one, is a slot that is not
  -- written, holds the picture `n` and is declared with that picture's hint.
  abbrev pub HintsAgree : Held → Av1Encoder D → Type 0
  HintsAgree held e =
      (e.order_hint ≡ e.session.frame_index % 256)
      × ((prev : ℕ)
          → ref_slot e.session ≡ some prev
          → (prev ≢ setup_slot e.session)
            × ((n : ℕ) × (get_elem? held prev ≡ some (some n))
                × ((reference_info e.order_hint e.session).order_hint ≡ n % 256)))

  -- Over any calls of a new session, with failed ones among them, the order hint is the index of the
  -- next picture modulo 256. The picture that it refers to lies in another slot than the one that is
  -- written, that slot holds the picture encoded just before, and the order hint of the reference is
  -- that picture's.
  pub order_hint-av1_calls :
      (device : Device D Picture) (recorder : Recorder D) (params : EncodeParams) (blob : List ℕ)
      (a b : ℕ)
      → (rs : List SessionCall)
      → let (held, e) =
          av1_calls device (none ∷ none ∷ []) (start_av1 recorder params blob (a ∷ b ∷ [])) rs in
        HintsAgree held e
  unfolding start_av1 reference_info
  order_hint-av1_calls device recorder params blob a b rs =
      let first = start_av1 recorder params blob (a ∷ b ∷ []) in
      let (held, e) = av1_calls device (none ∷ none ∷ []) first rs in
      let (ready, hint) =
        av1_calls-InStep device rs (none ∷ none ∷ []) first
          (start-Ready recorder params blob (a ∷ b ∷ []) refl, refl) in
      (
        hint,
        λ prev r.
            let (below, other, later, holding, bound) =
              ref_slot-Ready device (picture e.order_hint) framed held e.session prev ready r in
            (other, (e.session.frame_index - 1, holding, omega (arith, hint, later))),
      )
