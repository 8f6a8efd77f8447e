-- ===== src/Transport/Multiplexer/Streams.antt =====
-- Streams do not disturb one another, however their frames are interleaved.
use remote_way.Prelude.{
  ℕ, List, [], ◌∷◌, ◌++◌, ◌==◌, if◌then◌else◌, ◌≡◌, refl, inl, inr, arith, ◌≢◌, ◌∙◌, ap, ap₂,
  Bool-cases, ==_iff,
}
use remote_way.Prelude.Table.{Table, find, contains_key, insert, find-insert, find-remove}
use remote_way.Proto.Header.{FrameHeader}
use remote_way.Transport.ChunkSender.Frames.{Frame}
use remote_way.Transport.Multiplexer.{
  IncomingMessage, reassemble, extend_entry, emit, unwrap_or_default,
}
use remote_way.Transport.Multiplexer.Deliver.{deliver}

-- The frames of one stream, and the messages of one stream.
unfoldable pub frames_of : ℕ → List Frame → List Frame
frames_of s [] = []
frames_of s ((h, pl) ∷ fs) =
    let rest = frames_of s fs in if h.stream_id == s then (h, pl) ∷ rest else rest

unfoldable pub messages_of : ℕ → List IncomingMessage → List IncomingMessage
messages_of s [] = []
messages_of s (m ∷ ms) =
    let rest = messages_of s ms in if m.header.stream_id == s then m ∷ rest else rest

messages_of-append :
    (s : ℕ) (xs ys : List IncomingMessage)
    → messages_of s (xs ++ ys) ≡ messages_of s xs ++ messages_of s ys
unfolding messages_of
messages_of-append s [] ys = refl
messages_of-append s (x ∷ xs) ys = ground (arith, messages_of-append s xs ys)

-- A frame of another stream leaves the entry of `s` alone and puts out nothing for `s`.
reassemble_other :
    (s : ℕ) (c : Table (List ℕ)) (h : FrameHeader) (pl : List ℕ)
    → h.stream_id ≢ s
    → (find s (reassemble c h pl).0 ≡ find s c)
      × (messages_of s (emit [] (reassemble c h pl).1) ≡ [])
unfolding reassemble extend_entry messages_of
reassemble_other s c h pl ne = ground (
  arith,
  find-insert h.stream_id s (unwrap_or_default (find h.stream_id c) ++ pl) c,
  find-remove h.stream_id s (insert h.stream_id (unwrap_or_default (find h.stream_id c) ++ pl) c),
)

-- A frame of `s` sees of the table only the entry of `s`.
reassemble_same :
    (s : ℕ) (c d : Table (List ℕ)) (h : FrameHeader) (pl : List ℕ)
    → h.stream_id ≡ s
    → find s c ≡ find s d
    → (find s (reassemble c h pl).0 ≡ find s (reassemble d h pl).0)
      × ((reassemble c h pl).1 ≡ (reassemble d h pl).1)
unfolding reassemble extend_entry contains_key
reassemble_same s c d h pl e same = ground (
  arith,
  find-insert h.stream_id s (unwrap_or_default (find h.stream_id c) ++ pl) c,
  find-insert h.stream_id s (unwrap_or_default (find h.stream_id d) ++ pl) d,
  find-remove h.stream_id s (insert h.stream_id (unwrap_or_default (find h.stream_id c) ++ pl) c),
  find-remove h.stream_id s (insert h.stream_id (unwrap_or_default (find h.stream_id d) ++ pl) d),
)

-- Whatever the frames of other streams are and wherever they stand between, the messages that come
-- out for stream `s` are, in order, those of its own frames alone. Nothing is asked of the two
-- tables but that they hold the same for `s`.
pub deliver-frames_of :
    (s : ℕ) (fs : List Frame) (c d : Table (List ℕ))
    → find s c ≡ find s d
    → messages_of s (deliver c fs).1 ≡ messages_of s (deliver d (frames_of s fs)).1
unfolding deliver frames_of
deliver-frames_of s [] c d same = refl
deliver-frames_of s ((h, pl) ∷ fs) c d same = elim (Bool-cases (h.stream_id == s)) [
  | inl mine ↦
      let r = reassemble c h pl in
      let t = reassemble d h pl in
      let step = reassemble_same s c d h pl ((==_iff h.stream_id s).0 mine) same in
      rw
        (
          mine,
          messages_of-append s (emit [] r.1) (deliver r.0 fs).1,
          messages_of-append s (emit [] t.1) (deliver t.0 (frames_of s fs)).1,
        )
        (ap₂ ◌++◌ (ap (λ m. messages_of s (emit [] m)) step.1)
          (deliver-frames_of s fs r.0 t.0 step.0))
  | inr other ↦
      let r = reassemble c h pl in
      let step = reassemble_other s c h pl (λ e. cc ((==_iff h.stream_id s).1 e)) in
      rw (other, messages_of-append s (emit [] r.1) (deliver r.0 fs).1, step.1)
        (deliver-frames_of s fs r.0 d (step.0 ∙ same))
]
