-- ===== src/Transport/Multiplexer/Loop.antt =====
-- The loop of `push`: it ends, its fuel does not matter, and it only adds to what it put out.
use remote_way.Prelude.{
  ℕ, zero, suc, ◌<◌, List, [], ◌++◌, Option, none, some, length, ◌≡◌, refl, inl, inr, arith,
  append_assoc, ◌≢◌, ◌∙◌, append-nil, sym, ap,
}
use remote_way.Prelude.Table.{Table}
use remote_way.Proto.Header.{FrameHeader}
use remote_way.Transport.Multiplexer.{
  wait, fail, frame, front, MultiplexerError, StreamParser, PushResult, ok, err, stuck,
  IncomingMessage, push_loop, reassemble, emit,
}
use remote_way.Transport.Multiplexer.Frames.{front-cases, front_shorter}

module _ (fuel : ℕ) (buf : List ℕ) (chunks : Table (List ℕ)) (out : List IncomingMessage) where
  pub push_loop_wait :
      front buf ≡ wait
      → push_loop (suc fuel) buf chunks out ≡ (record { buf = buf; chunks = chunks }, ok out)
  unfolding push_loop
  push_loop_wait e = rw (e, push_loop)

  pub push_loop_fail :
      (x : MultiplexerError)
      → front buf ≡ fail x
      → push_loop (suc fuel) buf chunks out ≡ (record { buf = buf; chunks = chunks }, err x)
  unfolding push_loop
  push_loop_fail x e = rw (e, push_loop)

  pub push_loop-frame :
      (h : FrameHeader) (pl rest : List ℕ)
      → front buf ≡ frame h pl rest
      → push_loop (suc fuel) buf chunks out
        ≡ push_loop fuel rest (reassemble chunks h pl).0 (emit out (reassemble chunks h pl).1)
  unfolding push_loop
  push_loop-frame h pl rest e = rw (e, push_loop)

pub push_loop-ne-stuck :
    (fuel : ℕ) (buf : List ℕ) (c : Table (List ℕ)) (out : List IncomingMessage)
    → length buf < fuel
    → (push_loop fuel buf c out).1 ≢ stuck
push_loop-ne-stuck zero buf c out h = absurd (omega arith)
push_loop-ne-stuck (suc fuel) buf c out h = elim (front-cases (front buf)) [
  | inl e ↦ rw (push_loop_wait fuel buf c out e) (λ q. cc)
  | inr (inl (x, e)) ↦ rw (push_loop_fail fuel buf c out x e) (λ q. cc)
  | inr (inr (hd, pl, rest, e)) ↦
      rw (push_loop-frame fuel buf c out hd pl rest e)
        (push_loop-ne-stuck fuel rest _ _ (omega (arith, front_shorter buf hd pl rest e)))
]

pub push_loop_fuel :
    (f g : ℕ) (buf : List ℕ) (c : Table (List ℕ)) (out : List IncomingMessage)
    → length buf < f
    → length buf < g
    → push_loop f buf c out ≡ push_loop g buf c out
push_loop_fuel zero g buf c out h k = absurd (omega arith)
push_loop_fuel (suc f) zero buf c out h k = absurd (omega arith)
push_loop_fuel (suc f) (suc g) buf c out h k = elim (front-cases (front buf)) [
  | inl e ↦ push_loop_wait f buf c out e ∙ sym (push_loop_wait g buf c out e)
  | inr (inl (x, e)) ↦ push_loop_fail f buf c out x e ∙ sym (push_loop_fail g buf c out x e)
  | inr (inr (hd, pl, rest, e)) ↦
      push_loop-frame f buf c out hd pl rest e
      ∙ push_loop_fuel f g rest _ _ (omega (arith, front_shorter buf hd pl rest e))
          (omega (arith, front_shorter buf hd pl rest e))
      ∙ sym (push_loop-frame g buf c out hd pl rest e)
]

-- What was put out before stands in front of what the loop puts out.
abbrev pub prepend : List IncomingMessage → StreamParser × PushResult → StreamParser × PushResult
prepend out (p, ok ms) = (p, ok (out ++ ms))
prepend out (p, err e) = (p, err e)
prepend out (p, stuck) = (p, stuck)

prepend-prepend :
    (xs ys : List IncomingMessage) (r : StreamParser × PushResult)
    → prepend xs (prepend ys r) ≡ prepend (xs ++ ys) r
prepend-prepend xs ys (p, ok ms) = rw (append_assoc xs ys ms)
prepend-prepend xs ys (p, err e) = refl
prepend-prepend xs ys (p, stuck) = refl

emit-prepend :
    (out : List IncomingMessage) (m : Option IncomingMessage) → emit out m ≡ out ++ emit [] m
emit-prepend out none = sym (append-nil out)
emit-prepend out (some m) = refl

pub push_loop-prepend :
    (f : ℕ) (buf : List ℕ) (c : Table (List ℕ)) (out : List IncomingMessage)
    → push_loop f buf c out ≡ prepend out (push_loop f buf c [])
push_loop-prepend zero buf c out = unfold push_loop in refl
push_loop-prepend (suc f) buf c out = elim (front-cases (front buf)) [
  | inl e ↦ rw (push_loop_wait f buf c out e, push_loop_wait f buf c [] e, append-nil out)
  | inr (inl (x, e)) ↦ rw (push_loop_fail f buf c out x e, push_loop_fail f buf c [] x e)
  | inr (inr (hd, pl, rest, e)) ↦
      let r = reassemble c hd pl in
      push_loop-frame f buf c out hd pl rest e
      ∙ push_loop-prepend f rest r.0 (emit out r.1)
      ∙ ap (λ o. prepend o (push_loop f rest r.0 [])) (emit-prepend out r.1)
      ∙ sym (prepend-prepend out (emit [] r.1) (push_loop f rest r.0 []))
      ∙ ap (prepend out) (sym (push_loop-prepend f rest r.0 (emit [] r.1)))
      ∙ ap (prepend out) (sym (push_loop-frame f buf c [] hd pl rest e))
]
