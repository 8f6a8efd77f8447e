-- ===== src/Session/Sync/Base.antt =====
-- The delta bases of the two ends, and the regions that the server sends.
use remote_way.Prelude.{
  ℕ, ◌-◌, ◌*◌, ◌%◌, ◌^◌, ◌<◌, max, Bool, true, false, not, ◌||◌, List, length, take, replicate,
  get_elem?, ◌≡◌, inl, inr, ◌∙◌, sym, arith, append-nil, take_all, All, All-take, All-append,
  Bool-cases, All-replicate, get_elem?_past,
}
use native.Mathlib.Decide.{dec_lt}
use remote_way.Proto.Wire.{IsU8}
use remote_way.Compress.Delta.Paint.{covered}
use remote_way.Compress.Pipeline.{resize_zero}
use remote_way.Session.Payload.{FramePayload}
use remote_way.Session.Stripes.{stripe_full_frame}
use remote_way.Session.Stripes.Cover.{stripe_full_frame-Stacked, covered-stripe_full_frame}
use remote_way.Session.Server.{
  ServerState, Captured, force_anchor, use_full_damage, chosen_regions, delta_base, is_empty,
}
use remote_way.Session.Client.{ClientState, rebase}
use remote_way.Session.Sync.Frame.{Inside, Stacked-Inside}

pub resize_zero-length : (n : ℕ) (xs : List ℕ) → length xs ≡ n → resize_zero n xs ≡ xs
resize_zero-length n xs e =
    let none_left : n - length xs ≡ 0 = omega arith in
    rw (take_all xs n (omega arith), none_left) (append-nil xs)

pub All-resize_zero : (n : ℕ) (xs : List ℕ) → All IsU8 xs → All IsU8 (resize_zero n xs)
All-resize_zero n xs h =
    All-append IsU8 (take n xs) (replicate (n - length xs) 0) (All-take IsU8 n xs h)
      (All-replicate IsU8 (n - length xs) 0 (omega arith))

-- The states of the two ends, between frames of `size` bytes.
pub record InStep (size : ℕ) (s : ServerState) (cl : ClientState) : Type 0 where
  pub same_base : resize_zero size s.previous_frame ≡ resize_zero size cl.previous_frame
  pub server_len : s.is_first ≡ false → length s.previous_frame ≡ size
  pub client_len : cl.has_previous ≡ true → length cl.previous_frame ≡ size
  pub server_bytes : All IsU8 s.previous_frame

-- A frame of w × h pixels without padding, and damage inside it.
pub record Frame (w h : ℕ) (f : Captured) : Type 0 where
  pub width_is : f.frame_w ≡ w
  pub height_is : f.frame_h ≡ h
  pub stride_is : f.frame_stride ≡ w * 4
  pub len : length f.frame_data ≡ h * (w * 4)
  pub bytes : All IsU8 f.frame_data
  pub inside : All (Inside w h) f.damage
  pub count : length f.damage < 2 ^ 32

-- What the capture promises of a frame after `last`: if no frame was lost and damage is told, the
-- damage covers all that changed. It promises nothing of a downscaled frame.
abbrev pub Told : ℕ → List ℕ → Captured → Type 0
Told w last f =
    f.lost ≡ false
    → f.do_downscale ≡ false
    → is_empty f.damage ≡ false
    → (k : ℕ) → covered (w * 4) f.damage k ≡ false
    → get_elem? f.frame_data k ≡ get_elem? last k

-- Unless everything is sent anyway, the server's base is the frame captured last.
abbrev pub Fresh : ServerState → List ℕ → Type 0
Fresh s last = s.is_first ≡ false → s.need_full_damage ≡ false → s.previous_frame ≡ last

pub delta_base-resize_zero :
    (size : ℕ) (s : ServerState) (f : Captured)
    → length f.frame_data ≡ size
    → (s.is_first ≡ false → length s.previous_frame ≡ size)
    → delta_base s f ≡ resize_zero size s.previous_frame
unfolding delta_base force_anchor
delta_base-resize_zero size s f len server_len = elim (Bool-cases (force_anchor s)) [
  | inl forced ↦ rw (forced, len)
  | inr quiet ↦
      let later : s.is_first ≡ false = ground arith in
      rw quiet (sym (resize_zero-length size s.previous_frame (server_len later)))
]

pub rebase-resize_zero :
    (size : ℕ) (is_anchor : Bool) (cl : ClientState) (p : FramePayload)
    → p.stride * p.height % 2 ^ 32 ≡ size
    → (cl.has_previous ≡ true → length cl.previous_frame ≡ size)
    → (rebase is_anchor cl p).previous_frame ≡ resize_zero size cl.previous_frame
unfolding rebase
rebase-resize_zero size is_anchor cl p e client_len =
    elim (Bool-cases (is_anchor || not cl.has_previous)) [
      | inl resized ↦ rw (resized, e)
      | inr kept ↦
          let known : cl.has_previous ≡ true = ground arith in
          rw kept (sym (resize_zero-length size cl.previous_frame (client_len known)))
    ]

module _ (w h threads : ℕ) (s : ServerState) (f : Captured) (last : List ℕ) where
  stripes_count : h < 2 ^ 32 → length (stripe_full_frame w h (max threads 1)) < 2 ^ 32
  stripes_count small = omega (arith, (stripe_full_frame-Stacked w h (max threads 1)).0)

  stripes_agree :
      (current base : List ℕ) (k : ℕ)
      → length current ≡ h * (w * 4)
      → length base ≡ h * (w * 4)
      → covered (w * 4) (stripe_full_frame w h (max threads 1)) k ≡ false
      → get_elem? current k ≡ get_elem? base k
  stripes_agree current base k e d out = elim (dec_lt k (h * (w * 4))) [
    | yes within ↦ absurd (let all = covered-stripe_full_frame w h (max threads 1) k within in cc)
    | no past ↦ get_elem?_past current k (omega arith) ∙ sym (get_elem?_past base k (omega arith))
  ]

  -- The regions that are sent with a frame: few enough, inside it, and covering all that differs
  -- from the base.
  pub record Covering (base : List ℕ) : Type 0 where
    pub few : length (chosen_regions threads s f) < 2 ^ 32
    pub within : All (Inside w h) (chosen_regions threads s f)
    pub agree :
        (k : ℕ)
        → covered (w * 4) (chosen_regions threads s f) k ≡ false
        → get_elem? f.frame_data k ≡ get_elem? base k

  pub chosen_regions-Covering :
      (base : List ℕ)
      → h < 2 ^ 32
      → Frame w h f
      → Told w last f
      → Fresh s last
      → length base ≡ h * (w * 4)
      → (s.is_first ≡ false → base ≡ s.previous_frame)
      → Covering base
  unfolding chosen_regions use_full_damage force_anchor
  chosen_regions-Covering base small fr told fresh base_len base_is =
      elim (Bool-cases (use_full_damage s f || f.do_downscale)) [
        | inl full ↦
            let stacked = (stripe_full_frame-Stacked w h (max threads 1)).1 in
            let chosen : chosen_regions threads s f ≡ stripe_full_frame w h (max threads 1) =
              rw (full, fr.width_is, fr.height_is) in
            record {
              few = rw chosen (stripes_count small);
              within = rw chosen (Stacked-Inside w 0 h _ stacked).1;
              agree = λ k out. stripes_agree f.frame_data base k fr.len base_len (rw chosen at out);
            }
        | inr part ↦
            let chosen : chosen_regions threads s f ≡ f.damage = rw part in
            let later : s.is_first ≡ false = ground arith in
            let clean : s.need_full_damage ≡ false = ground arith in
            let kept : f.lost ≡ false = ground arith in
            let plain : f.do_downscale ≡ false = ground arith in
            let some_damage : is_empty f.damage ≡ false = ground arith in
            record {
              few = rw chosen fr.count;
              within = rw chosen fr.inside;
              agree = λ k out.
                  rw (base_is later, fresh later clean)
                    (told kept plain some_damage k (rw chosen at out));
            }
      ]
