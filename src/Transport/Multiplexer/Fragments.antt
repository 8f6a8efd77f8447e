-- ===== src/Transport/Multiplexer/Fragments.antt =====
-- How the wire's bytes are cut into calls of `push` does not matter.
use remote_way.Prelude.{
  ℕ, zero, suc, ◌<◌, List, [], ◌++◌, length, ◌≡◌, inl, inr, arith, length-append, append_assoc, ◌≢◌,
  ◌∙◌, sym, ap,
}
use remote_way.Prelude.Table.{Table}
use remote_way.Transport.Multiplexer.{
  fail, front, MultiplexerError, StreamParser, ok, err, stuck, IncomingMessage, push_loop, push,
  reassemble, emit,
}
use remote_way.Transport.Multiplexer.Frames.{
  front-cases, front-append_frame, front-append_fail, front_shorter,
}
use remote_way.Transport.Multiplexer.Loop.{
  push_loop_wait, push_loop_fail, push_loop-frame, push_loop_fuel, push_loop-ne-stuck,
  push_loop-prepend, prepend,
}

loop-append :
    (f g k : ℕ) (buf more : List ℕ) (c : Table (List ℕ)) (out : List IncomingMessage)
    (p : StreamParser) (ms : List IncomingMessage)
    → length (buf ++ more) < g
    → length (p.buf ++ more) < k
    → push_loop f buf c out ≡ (p, ok ms)
    → push_loop g (buf ++ more) c out ≡ push_loop k (p.buf ++ more) p.chunks ms
loop-append zero g k buf more c out p ms hg hk run = unfold push_loop in cc
loop-append (suc f) zero k buf more c out p ms hg hk run = absurd (omega arith)
loop-append (suc f) (suc g) k buf more c out p ms hg hk run = elim (front-cases (front buf)) [
  | inl e ↦
      let parts : (buf ≡ p.buf) × (c ≡ p.chunks) × (out ≡ ms) =
        ground (arith, push_loop_wait f buf c out e) in
      push_loop_fuel (suc g) k (buf ++ more) c out hg (rw (parts.0) hk) ∙ cc
  | inr (inl (x, e)) ↦ cc (push_loop_fail f buf c out x e)
  | inr (inr (hd, pl, rest, e)) ↦
      push_loop-frame g (buf ++ more) c out hd pl (rest ++ more)
        (front-append_frame buf more hd pl rest e)
      ∙ loop-append f g k rest more _ _ p ms
          (omega (
            arith,
            front_shorter buf hd pl rest e,
            length-append buf more,
            length-append rest more,
          ))
          hk (sym (push_loop-frame f buf c out hd pl rest e) ∙ run)
]

loop-append_fail :
    (f g : ℕ) (buf more : List ℕ) (c : Table (List ℕ)) (out : List IncomingMessage)
    (p : StreamParser) (x : MultiplexerError)
    → length (buf ++ more) < g
    → push_loop f buf c out ≡ (p, err x)
    → (push_loop g (buf ++ more) c out ≡ (record p { buf = p.buf ++ more }, err x))
      × (front p.buf ≡ fail x)
loop-append_fail zero g buf more c out p x hg run = unfold push_loop in cc
loop-append_fail (suc f) zero buf more c out p x hg run = absurd (omega arith)
loop-append_fail (suc f) (suc g) buf more c out p x hg run = elim (front-cases (front buf)) [
  | inl e ↦ cc (push_loop_wait f buf c out e)
  | inr (inl (y, e)) ↦
      let parts : (buf ≡ p.buf) × (c ≡ p.chunks) × (y ≡ x) =
        ground (arith, push_loop_fail f buf c out y e) in
      (
        push_loop_fail g (buf ++ more) c out y (front-append_fail buf more y e)
            ∙ ground (arith, parts),
        cc,
      )
  | inr (inr (hd, pl, rest, e)) ↦
      let rec =
        loop-append_fail f g rest more (reassemble c hd pl).0 (emit out (reassemble c hd pl).1) p x
          (omega (
            arith,
            front_shorter buf hd pl rest e,
            length-append buf more,
            length-append rest more,
          ))
          (sym (push_loop-frame f buf c out hd pl rest e) ∙ run) in
      (
        push_loop-frame g (buf ++ more) c out hd pl (rest ++ more)
              (front-append_frame buf more hd pl rest e)
            ∙ rec.0,
        rec.1,
      )
]

-- `push` never runs out of the fuel that the model gives its loop.
push-ne-stuck : (p : StreamParser) (bytes : List ℕ) → (push p bytes).1 ≢ stuck
unfolding push
push-ne-stuck p bytes =
    push_loop-ne-stuck (suc (length (p.buf ++ bytes))) (p.buf ++ bytes) p.chunks [] (omega arith)

-- Two successive calls of `push`, the first of which succeeds, do what one call with the joined
-- bytes does: the same parser is left, and the messages of both calls come out in order.
pub push-append :
    (p q : StreamParser) (a b : List ℕ) (ms : List IncomingMessage)
    → push p a ≡ (q, ok ms)
    → push p (a ++ b) ≡ prepend ms (push q b)
unfolding push
push-append p q a b ms run =
    ap (λ l. push_loop (suc (length l)) l p.chunks []) (sym (append_assoc p.buf a b))
    ∙ loop-append (suc (length (p.buf ++ a))) (suc (length ((p.buf ++ a) ++ b)))
        (suc (length (q.buf ++ b))) (p.buf ++ a) b p.chunks [] q ms (omega arith) (omega arith) run
    ∙ push_loop-prepend (suc (length (q.buf ++ b))) (q.buf ++ b) q.chunks ms

-- After an error the parser keeps the refused header at the front of its buffer: the same error
-- comes from one call with more bytes, and from every later call, which only lengthens the buffer.
pub push_poisoned :
    (p q : StreamParser) (a b : List ℕ) (x : MultiplexerError)
    → push p a ≡ (q, err x)
    → (push p (a ++ b) ≡ (record q { buf = q.buf ++ b }, err x))
      × (push q b ≡ (record q { buf = q.buf ++ b }, err x))
unfolding push
push_poisoned p q a b x run =
    let one =
      loop-append_fail (suc (length (p.buf ++ a))) (suc (length ((p.buf ++ a) ++ b))) (p.buf ++ a) b
        p.chunks [] q x (omega arith) run in
    (
      ap (λ l. push_loop (suc (length l)) l p.chunks []) (sym (append_assoc p.buf a b)) ∙ one.0,
      push_loop_fail (length (q.buf ++ b)) (q.buf ++ b) q.chunks [] x
          (front-append_fail q.buf b x one.1),
    )
