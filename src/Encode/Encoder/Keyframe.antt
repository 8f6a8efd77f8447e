-- ===== src/Encode/Encoder/Keyframe.antt =====
-- Requests for a key frame.
use remote_way.Prelude.{
  ◌==◌, ◌&&◌, ℕ, true, false, List, some, ◌≡◌, ◌⊎◌, inl, inr, refl, Bool-cases, arith,
}
use remote_way.Encode.Params.{invalid_params, Outcome, ok, err}
use remote_way.Encode.Session.{FrameKind, EncodedFrame, InputFrame, Device, Recorder, submit}
use remote_way.Encode.Encoder.{Encoder, is_idr, request_keyframe, same_size, read_back, encode_with}

module _ {D P : Type 0} (device : Device D P) (picture : Encoder D → P)
    (framed : List ℕ → List ℕ) where
  requested-is_idr : (e : Encoder D) → is_idr (request_keyframe e) ≡ true
  unfolding request_keyframe
  requested-is_idr e = ground arith

  -- What the driver's answer makes of a request: its error is returned and the request forgotten,
  -- its bytes are returned as a key frame with the parameter sets.
  abbrev pub Answer :
      Encoder D
      → InputFrame
      → Recorder D × Outcome (List ℕ)
      → Encoder D × Outcome EncodedFrame
      → Type 0
  Answer e frame (_, err x) (e', o) = (o ≡ err x) × (e'.force_keyframe ≡ false)
  Answer e frame (_, ok bytes) (e', o) =
      o
      ≡ ok (record {
        bytes = framed bytes;
        kind = FrameKind.idr;
        pts_90khz = frame.pts_90khz;
        parameter_sets = some e.parameter_sets_blob;
      })

  answered :
      (frame : InputFrame) (e : Encoder D) (r : Recorder D × Outcome (List ℕ))
      → Answer e frame r (read_back device picture framed frame (request_keyframe e) r)
  unfolding request_keyframe
  answered frame e (recorder, err x) = (refl, refl)
  answered frame e (recorder, ok bytes) = rw (requested-is_idr e) refl

  same_size-eq : (w h p_w p_h : ℕ) → (w == p_w) && (h == p_h) ≡ true → (w ≡ p_w) × (h ≡ p_h)
  same_size-eq w h p_w p_h same = (ground (arith, same), ground (arith, same))

  other_size : (w h p_w p_h : ℕ) → (w == p_w) && (h == p_h) ≡ false → ¬ ((w ≡ p_w) × (h ≡ p_h))
  other_size w h p_w p_h other (w_same, h_same) = ground (arith, other, w_same, h_same)

  -- A frame of the session's size after a request is given to the driver: if the driver fails, its
  -- error is returned and the request is forgotten, and otherwise the frame is a key frame with the
  -- parameter sets and the driver's bytes. A frame of another size is refused and changes nothing.
  pub encode_with-request_keyframe :
      (frame : InputFrame) (e : Encoder D)
      → let result = encode_with device picture framed frame (request_keyframe e) in
        let driven =
          submit device (picture (request_keyframe e)) frame.image (request_keyframe e).recorder in
        ((frame.width ≡ e.params.width)
          × (frame.height ≡ e.params.height)
          × Answer e frame driven result)
        ⊎ ((¬ ((frame.width ≡ e.params.width) × (frame.height ≡ e.params.height)))
            × (result ≡ (request_keyframe e, err invalid_params)))
  unfolding encode_with request_keyframe
  encode_with-request_keyframe frame e = elim (Bool-cases (same_size frame e.params)) [
    | inl same ↦
        let (w, h) = same_size-eq frame.width frame.height e.params.width e.params.height same in
        inl (w, h, rw same (answered frame e _))
    | inr other ↦
        inr
          (other_size frame.width frame.height e.params.width e.params.height other, rw other refl)
  ]
