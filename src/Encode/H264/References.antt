-- ===== src/Encode/H264/References.antt =====
-- What the H.264 encoder says of the picture it refers to, against what it said when it made it.
use remote_way.Prelude.{
  ℕ, ◌+◌, ◌-◌, ◌/◌, ◌%◌, bit_and, Bool, true, false, List, [], ◌∷◌, none, some, get_elem?, ◌≡◌, ◌≢◌,
  ◌⊎◌, ◌↔◌, inl, inr, refl, sym, ap, arith, if◌then◌else◌, take,
}
use remote_way.Prelude.Bits.{bit_and_step, bit_and-zero}
use remote_way.Encode.Session.{Device, Recorder}
use remote_way.Encode.Params.{EncodeParams}
use remote_way.Encode.Encoder.{
  Encoder, Held, SessionCall, session_calls, start, is_idr, setup_slot, ref_slot,
}
use remote_way.Encode.Encoder.Previous.{session_calls-RefersBack}
use remote_way.Encode.H264.{Picture, picture, setup_info, reference_info, frame_num, pic_order_cnt}
use remote_way.Encode.Picture.{slot_info, as_u32, minus_one}

bit_and_15 : (a : ℕ) → bit_and a 15 ≡ a % 16
bit_and_15 a = omega (
  arith,
  bit_and_step a 15,
  bit_and_step (a / 2) 7,
  bit_and_step (a / 2 / 2) 3,
  bit_and_step (a / 2 / 2 / 2) 1,
  bit_and-zero (a / 2 / 2 / 2 / 2),
)

declared_number : (n : ℕ) → bit_and (minus_one (as_u32 (n + 1))) 15 ≡ n % 16
declared_number n = omega (arith, bit_and_15 (minus_one (as_u32 (n + 1))))

recorded_number : (n : ℕ) → bit_and (as_u32 n) 15 ≡ n % 16
recorded_number n = omega (arith, bit_and_15 (as_u32 n))

compared :
    (n : ℕ) (key : Bool)
    → ((if key then 0 else bit_and (as_u32 n) 15) ≡ n % 16) ↔ ((key ≡ false) ⊎ (n % 16 ≡ 0))
compared n true = (λ e. inr (sym e), λ h. elim h [ inl never ↦ cc | inr e ↦ sym e ])
compared n false = (λ _. inl refl, λ _. recorded_number n)

module _ {D : Type 0} where
  -- For two pictures in succession, the second one's reference has the picture order count that the
  -- first was made with.
  pic_order_cnt_agrees :
      (first second : Encoder D)
      → second.frame_index ≡ first.frame_index + 1
      → (setup_info first).pic_order_cnt ≡ (reference_info second).pic_order_cnt
  unfolding setup_info reference_info pic_order_cnt
  pic_order_cnt_agrees first second next = rw next (omega arith)

  -- The frame number of the reference is the one that the first picture was made with exactly when the
  -- first picture was no key frame, or its index is a multiple of 16.
  pub frame_num-setup_info :
      (first second : Encoder D)
      → second.frame_index ≡ first.frame_index + 1
      → ((setup_info first).frame_num ≡ (reference_info second).frame_num)
        ↔ ((is_idr first ≡ false) ⊎ (first.frame_index % 16 ≡ 0))
  unfolding setup_info reference_info frame_num
  frame_num-setup_info first second next =
      rw (next, declared_number first.frame_index) (compared first.frame_index (is_idr first))

  -- The slot `prev` is not the one that is written, comes first in the reference list and has a view;
  -- it holds the picture `n`, and is declared with the picture order count that `n` was made with.
  abbrev pub DeclaredAsMade : Held → Encoder D → ℕ → Type 0
  DeclaredAsMade held e prev =
      (prev ≢ setup_slot e)
      × (take 1 (picture e).ref_pic_list0 ≡ prev ∷ [])
      × ((picture e).reference_slots ≡ some (slot_info e (some prev) prev (reference_info e)))
      × (get_elem? e.dpb prev ≢ none)
      × ((n : ℕ) × (get_elem? held prev ≡ some (some n))
          × ((first : Encoder D)
              → first.frame_index ≡ n
              → (setup_info first).pic_order_cnt ≡ (reference_info e).pic_order_cnt))

  -- Over any calls of a new session, with failed ones among them, the picture that the next one refers
  -- to lies in another slot than the one that is written, that slot holds the picture encoded just
  -- before, the slot comes first in the reference list and its view is bound, and the picture order
  -- count is the one that the picture before was made with.
  pub reference_slots-session_calls :
      (device : Device D Picture) (recorder : Recorder D) (params : EncodeParams) (blob : List ℕ)
      (a b : ℕ)
      → (rs : List SessionCall)
      → let (held, e) =
          session_calls device picture
            (λ bytes. bytes)
            (none ∷ none ∷ [])
            (start recorder params blob (a ∷ b ∷ []))
            rs in
        (prev : ℕ) → ref_slot e ≡ some prev → DeclaredAsMade held e prev
  unfolding picture
  reference_slots-session_calls device recorder params blob a b rs prev r =
      let (held, e) =
        session_calls device picture (λ bytes. bytes) (none ∷ none ∷ [])
          (start recorder params blob (a ∷ b ∷ [])) rs in
      let (below, other, later, holding, bound) =
        session_calls-RefersBack device picture (λ bytes. bytes) recorder params blob a b rs prev
          r in
      (
        other,
        rw r (ap (λ k. k ∷ []) (omega (arith, below))),
        rw r refl,
        bound,
        (
          e.frame_index - 1,
          holding,
          λ first same. pic_order_cnt_agrees first e (omega (arith, same, later)),
        ),
      )
