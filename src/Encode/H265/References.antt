-- ===== src/Encode/H265/References.antt =====
-- What the H.265 encoder says of the picture it refers to, against what it said when it made it.
use remote_way.Prelude.{
  ℕ, ◌+◌, ◌-◌, List, [], ◌∷◌, none, some, get_elem?, ◌≡◌, ◌≢◌, refl, ap, arith, take,
}
use remote_way.Encode.Session.{Device, Recorder}
use remote_way.Encode.Params.{EncodeParams}
use remote_way.Encode.Encoder.{
  Encoder, Held, SessionCall, session_calls, start, setup_slot, ref_slot,
}
use remote_way.Encode.Encoder.Previous.{session_calls-RefersBack}
use remote_way.Encode.H265.{Picture, picture, setup_info, reference_info, pic_order_cnt}
use remote_way.Encode.Picture.{slot_info}

module _ {D : Type 0} where
  pic_order_cnt_agrees :
      (first second : Encoder D)
      → second.frame_index ≡ first.frame_index + 1
      → (setup_info first).pic_order_cnt_val ≡ (reference_info second).pic_order_cnt_val
  unfolding setup_info reference_info pic_order_cnt
  pic_order_cnt_agrees first second next = rw next (omega arith)

  -- The slot `prev` is not the one that is written, comes first in the reference list and has a view;
  -- it holds the picture `n`, and is declared with the picture order count that `n` was made with.
  abbrev pub DeclaredAsMade : Held → Encoder D → ℕ → Type 0
  DeclaredAsMade held e prev =
      (prev ≢ setup_slot e)
      × (take 1 (picture e).ref_pic_list0 ≡ prev ∷ [])
      × ((picture e).reference_slots ≡ some (slot_info e (some prev) prev (reference_info e)))
      × (get_elem? e.dpb prev ≢ none)
      × ((n : ℕ) × (get_elem? held prev ≡ some (some n))
          × ((first : Encoder D)
              → first.frame_index ≡ n
              → (setup_info first).pic_order_cnt_val ≡ (reference_info e).pic_order_cnt_val))

  -- Over any calls of a new session, with failed ones among them, the picture that the next one refers
  -- to lies in another slot than the one that is written, that slot holds the picture encoded just
  -- before, the slot comes first in the reference list and its view is bound, and the picture order
  -- count is the one that the picture before was made with.
  pub reference_slots-agree :
      (device : Device D Picture) (recorder : Recorder D) (params : EncodeParams) (blob : List ℕ)
      (a b : ℕ)
      → (rs : List SessionCall)
      → let (held, e) =
          session_calls device picture
            (λ bytes. bytes)
            (none ∷ none ∷ [])
            (start recorder params blob (a ∷ b ∷ []))
            rs in
        (prev : ℕ) → ref_slot e ≡ some prev → DeclaredAsMade held e prev
  unfolding picture
  reference_slots-agree device recorder params blob a b rs prev r =
      let (held, e) =
        session_calls device picture (λ bytes. bytes) (none ∷ none ∷ [])
          (start recorder params blob (a ∷ b ∷ [])) rs in
      let (below, other, later, holding, bound) =
        session_calls-RefersBack device picture (λ bytes. bytes) recorder params blob a b rs prev
          r in
      (
        other,
        rw r (ap (λ k. k ∷ []) (omega (arith, below))),
        rw r refl,
        bound,
        (
          e.frame_index - 1,
          holding,
          λ first same. pic_order_cnt_agrees first e (omega (arith, same, later)),
        ),
      )
