-- ===== src/Transport/Multiplexer/Frames.antt =====
-- What the loop of `push` finds at the front of the buffer does not change when bytes are added.
use remote_way.Prelude.{
  ℕ, ◌+◌, List, ◌++◌, length, ◌≡◌, refl, ◌⊎◌, inl, inr, arith, take-append, drop-append,
  length-append, length-drop,
}
use remote_way.Proto.Header.{FrameHeader, size}
use remote_way.Transport.Multiplexer.{Front, wait, fail, frame, front, MultiplexerError}

pub front-cases :
    (f : Front)
    → (f ≡ wait)
      ⊎ ((e : MultiplexerError) × (f ≡ fail e))
      ⊎ ((h : FrameHeader) × (pl : List ℕ) × (rest : List ℕ) × (f ≡ frame h pl rest))
front-cases wait = inl refl
front-cases (fail e) = inr (inl (e, refl))
front-cases (frame h pl rest) = inr (inr (h, pl, rest, refl))

pub front-append_frame :
    (buf more : List ℕ) (h : FrameHeader) (pl rest : List ℕ)
    → front buf ≡ frame h pl rest
    → front (buf ++ more) ≡ frame h pl (rest ++ more)
unfolding front
front-append_frame buf more h pl rest e = ground (
  arith,
  length-append buf more,
  take-append size buf more,
  take-append (size + h.payload_len) buf more,
  drop-append (size + h.payload_len) buf more,
)

pub front-append_fail :
    (buf more : List ℕ) (e : MultiplexerError) → front buf ≡ fail e → front (buf ++ more) ≡ fail e
unfolding front
front-append_fail buf more e h = ground (arith, length-append buf more, take-append size buf more)

-- A frame takes its header and its payload off the buffer.
pub front_shorter :
    (buf : List ℕ) (h : FrameHeader) (pl rest : List ℕ)
    → front buf ≡ frame h pl rest
    → length rest + (size + h.payload_len) ≡ length buf
unfolding front
front_shorter buf h pl rest e = ground (arith, length-drop (size + h.payload_len) buf)
