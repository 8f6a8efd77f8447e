-- ===== src/Proto/Header/RoundTrip.antt =====
-- The frame header and its 16 bytes determine each other.
use remote_way.Prelude.{
  ℕ, ◌≡◌, ◌++◌, ◌∙◌, sym, append-nil, drop_all, All, All-take, All-drop, List, [], ◌+◌, ◌≤◌,
  length-take, length-drop, drop-drop, take, drop, ◌<◌, ◌^◌, refl, some, length, arith,
}
use remote_way.Proto.Wire.{IsU8, le_bytes, from_le, from_le-le_bytes, from_le-lt, le_bytes-take}
use remote_way.Proto.Header.{FrameHeader, Fits, as_bytes, ref_from_bytes, size}

pub length-as_bytes : (h : FrameHeader) → length (as_bytes h) ≡ size
unfolding as_bytes le_bytes
length-as_bytes h = refl

pub ref_from_bytes-as_bytes : (h : FrameHeader) → Fits h → ref_from_bytes (as_bytes h) ≡ some h
unfolding as_bytes ref_from_bytes le_bytes
ref_from_bytes-as_bytes h f = ground (
  arith,
  from_le-le_bytes 2 h.stream_id,
  from_le-le_bytes 1 h.msg_type,
  from_le-le_bytes 1 h.flags,
  from_le-le_bytes 4 h.payload_len,
  from_le-le_bytes 8 h.timestamp_ns,
)

-- The number read from k bytes at `off`, written back before what follows.
write_back :
    (off k : ℕ) (bs rest : List ℕ)
    → All IsU8 bs
    → off + k ≤ length bs
    → rest ≡ drop (off + k) bs
    → le_bytes k (from_le (take k (drop off bs))) ++ rest ≡ drop off bs
write_back off k bs rest h fits e =
    le_bytes-take k (drop off bs) rest
      (omega (arith, length-take k (drop off bs), length-drop off bs))
      (All-take IsU8 k (drop off bs) (All-drop IsU8 off bs h)) (e ∙ sym (drop-drop off k _ bs refl))

field_fits :
    (off k : ℕ) (bs : List ℕ)
    → All IsU8 bs
    → off + k ≤ length bs
    → from_le (take k (drop off bs)) < 256 ^ k
field_fits off k bs h fits =
    let e : length (take k (drop off bs)) ≡ k =
      omega (arith, length-take k (drop off bs), length-drop off bs) in
    rw e at
      (from_le-lt (take k (drop off bs)) (All-take IsU8 k (drop off bs) (All-drop IsU8 off bs h)))

-- Bytes that parse are the bytes of the header that they parse to, whose fields fit.
as_bytes-ref_from_bytes :
    (bs : List ℕ) (h : FrameHeader)
    → All IsU8 bs
    → ref_from_bytes bs ≡ some h
    → (as_bytes h ≡ bs) × Fits h
unfolding as_bytes ref_from_bytes
as_bytes-ref_from_bytes bs h bytes parsed =
    let len : length bs ≡ 16 = ground arith in
    let last = write_back 8 8 bs [] bytes (omega arith) (sym (drop_all bs 16 (omega arith))) in
    let f3 = write_back 4 4 bs _ bytes (omega arith) (sym (append-nil _) ∙ last) in
    let f2 = write_back 3 1 bs _ bytes (omega arith) f3 in
    let f1 = write_back 2 1 bs _ bytes (omega arith) f2 in
    let f0 = write_back 0 2 bs _ bytes (omega arith) f1 in
    let g0 = field_fits 0 2 bs bytes (omega arith) in
    let g1 = field_fits 2 1 bs bytes (omega arith) in
    let g2 = field_fits 3 1 bs bytes (omega arith) in
    let g3 = field_fits 4 4 bs bytes (omega arith) in
    let g4 = field_fits 8 8 bs bytes (omega arith) in ground arith
