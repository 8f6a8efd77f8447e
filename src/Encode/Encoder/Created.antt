-- ===== src/Encode/Encoder/Created.antt =====
-- What `new` checks and begins with.
use remote_way.Prelude.{
  ℕ, zero, suc, Bool, true, false, not, List, [], ◌∷◌, Option, none, some, length, if◌then◌else◌,
  ◌≡◌, refl, sym, ap, subst,
}
use remote_way.Encode.Params.{
  VideoCodec, Modes, VideoEncodeCapabilities, EncodeParams, invalid_params, Outcome, ok, err,
  same_codec, validate_against,
}
use remote_way.Encode.Params.Supported.{Supported, validate_against-Supported}
use remote_way.Encode.Session.{Recorder, Recording, then_do}
use remote_way.Encode.Encoder.{
  Encoder, start, dpb_slots, create_dpb_pool, created, create, with_queue, validated, new,
}
use remote_way.Encode.Encoder.Previous.{Ready, start-Ready}

module _ {D : Type 0} (vk : Modes) (make_session : Recording D (List ℕ)) (make_slot : Recording D ℕ)
    (make_rest : Recording D (Unit {0})) where
  -- Nothing is held, and the slots are two.
  abbrev pub Fresh : EncodeParams → Outcome (Encoder D) → Type 0
  Fresh params (err x) = Unit {0}
  Fresh params (ok e) = (e.params ≡ params) × Ready (none ∷ none ∷ []) e

  OkWhen : {A : Type 0} → (A → Type 0) → Recorder D × Outcome A → Type 0
  OkWhen Q (r, ok a) = Q a
  OkWhen Q (r, err x) = Unit {0}

  then_do-OkWhen :
      {A B : Type 0} (Q : B → Type 0) (act : Recording D A) (next : A → Recording D B)
      (r : Recorder D)
      → (P : A → Type 0) → OkWhen P (act r)
      → ((a : A) (r' : Recorder D) → P a → OkWhen Q (next a r'))
      → OkWhen Q (then_do act next r)
  unfolding OkWhen
  then_do-OkWhen {A} Q act next r P h f = go (act r) h
    where
      go :
          (p : Recorder D × Outcome A)
          → OkWhen P p
          → OkWhen Q (elim p.1 [ ok a ↦ next a p.0 | err x ↦ (p.0, err x) ])
      go (r', ok a) q = f a r' q
      go (r', err x) q = tt

  anything : {A : Type 0} (p : Recorder D × Outcome A) → OkWhen (λ _. Unit {0}) p
  unfolding OkWhen
  anything (r, ok a) = tt
  anything (r, err x) = tt

  create_dpb_pool-length :
      (n : ℕ) (r : Recorder D)
      → OkWhen (λ views. length views ≡ n) (create_dpb_pool vk make_session make_slot make_rest n r)
  unfolding create_dpb_pool OkWhen
  create_dpb_pool-length zero r = refl
  create_dpb_pool-length (suc n) r =
      let pool = create_dpb_pool vk make_session make_slot make_rest n in
      let all : List ℕ → Type 0 = λ views. length views ≡ suc n in
      then_do-OkWhen all make_slot (λ view. then_do pool (λ views. λ r2. (r2, ok (view ∷ views)))) r
        (λ _. Unit {0}) (anything (make_slot r))
        (λ view r' _.
          then_do-OkWhen all pool (λ views. λ r2. (r2, ok (view ∷ views))) r'
            (λ views. length views ≡ n) (create_dpb_pool-length n r') (λ views r2 e. ap suc e))

  created-Fresh :
      (params : EncodeParams) (p : Recorder D × Outcome (List ℕ × List ℕ))
      → OkWhen (λ made. length made.1 ≡ dpb_slots) p
      → Fresh params (created vk make_session make_slot make_rest params p)
  unfolding OkWhen start
  created-Fresh params (r, ok (blob, dpb)) two = (refl, start-Ready r params blob dpb two)
  created-Fresh params (r, err x) two = tt

  create-Fresh :
      (params : EncodeParams) (r : Recorder D)
      → Fresh params (create vk make_session make_slot make_rest params r)
  unfolding create OkWhen
  create-Fresh params r =
      let two : List ℕ × List ℕ → Type 0 = λ made. length made.1 ≡ dpb_slots in
      let pool = create_dpb_pool vk make_session make_slot make_rest dpb_slots in
      let rest : List ℕ → List ℕ → Recording D (List ℕ × List ℕ) =
        λ blob dpb. then_do make_rest (λ _. λ r'. (r', ok (blob, dpb))) in
      created-Fresh params _ (
        then_do-OkWhen two make_session (λ blob. then_do pool (rest blob)) r (λ _. Unit {0})
          (anything (make_session r))
          (λ blob r' _.
            then_do-OkWhen two pool (rest blob) r' (λ views. length views ≡ dpb_slots)
              (create_dpb_pool-length dpb_slots r')
              (λ dpb r2 long.
                then_do-OkWhen two make_rest (λ _. λ r'. (r', ok (blob, dpb))) r2 (λ _. Unit {0})
                  (anything (make_rest r2)) (λ _ r3 _. long))))

  module _ {e : Encoder D} where
    unless :
        (b : Bool) (m : Outcome (Encoder D))
        → (if b then err invalid_params else m) ≡ ok e
        → m ≡ ok e
    unless true m h = cc
    unless false m h = h

    queue_ok :
        (family queue : Option ℕ) (m : Outcome (Encoder D))
        → with_queue vk make_session make_slot make_rest family queue m ≡ ok e
        → m ≡ ok e
    queue_ok (some f) (some q) m h = h
    queue_ok (some f) none m h = cc
    queue_ok none q m h = cc

    validated_ok :
        (v : Outcome (Unit {0})) (m : Outcome (Encoder D))
        → validated vk make_session make_slot make_rest v m ≡ ok e
        → (v ≡ ok tt) × (m ≡ ok e)
    validated_ok (ok t) m h = (refl, h)
    validated_ok (err x) m h = cc

  -- What an encoder that `new` returns may rely on.
  pub new-Supported :
      (codec : VideoCodec) (caps : Outcome VideoEncodeCapabilities) (family queue : Option ℕ)
      (params : EncodeParams) (r : Recorder D) (e : Encoder D)
      → new vk make_session make_slot make_rest codec caps family queue params r ≡ ok e
      → (c : VideoEncodeCapabilities) × (caps ≡ ok c)
        × Supported vk e.params c
        × (e.params ≡ params)
        × Ready (none ∷ none ∷ []) e
  unfolding new
  new-Supported codec caps family queue params r e h =
      probed caps (unless (not (same_codec params.codec codec)) _ h)
    where
      probed :
          (caps : Outcome VideoEncodeCapabilities)
          → elim caps [
            | err x ↦ err x
            | ok c ↦ validated vk make_session make_slot make_rest (validate_against vk params c) (
                with_queue vk make_session make_slot make_rest family queue
                  (create vk make_session make_slot make_rest params r))
          ]
            ≡ ok e
          → (c : VideoEncodeCapabilities) × (caps ≡ ok c)
            × Supported vk e.params c
            × (e.params ≡ params)
            × Ready (none ∷ none ∷ []) e
      probed (err x) h = cc
      probed (ok c) h =
          let (valid, made) = validated_ok _ _ h in
          let (same, ready) =
            subst (Fresh params) (queue_ok family queue _ made) (create-Fresh params r) in
          (
            c,
            refl,
            subst (λ p. Supported vk p c) (sym same)
                ((validate_against-Supported vk params c).0 valid),
            same,
            ready,
          )
