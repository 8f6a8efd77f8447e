-- ===== src/Transport/FlowControl/Bounds.antt =====
-- The bound on the pending bytes, and where they come from and go.
use remote_way.Prelude.{
  ℕ, ◌+◌, ◌-◌, ◌%◌, ◌≤◌, ◌<◌, Bool, true, false, List, [], ◌∷◌, ◌≡◌, refl, if◌then◌else◌, arith,
  ◌∙◌, ap, Bool-cases, inl, inr,
}
use remote_way.Transport.FlowControl.{
  FlowController, usize_mod, should_send, on_sent, Call, asks, acks, step, run,
}

-- The bytes of the anchor frames that are asked for.
unfoldable pub anchor_bytes : List Call → ℕ
anchor_bytes [] = 0
anchor_bytes (asks bytes true ∷ cs) = bytes + anchor_bytes cs
anchor_bytes (asks bytes false ∷ cs) = anchor_bytes cs
anchor_bytes (acks bytes ∷ cs) = anchor_bytes cs

run-high_watermark :
    (cs : List Call) (fc : FlowController) → (run fc cs).high_watermark ≡ fc.high_watermark
unfolding run step should_send on_sent
run-high_watermark [] fc = refl
run-high_watermark (asks b a ∷ cs) fc = run-high_watermark cs (step fc (asks b a)) ∙ ground arith
run-high_watermark (acks b ∷ cs) fc = run-high_watermark cs (step fc (acks b))

run_within :
    (cs : List Call) (fc : FlowController) (room : ℕ)
    → fc.pending ≤ fc.high_watermark + room
    → fc.high_watermark + room + anchor_bytes cs < usize_mod - 1
    → (run fc cs).pending ≤ fc.high_watermark + room + anchor_bytes cs
unfolding run step should_send on_sent anchor_bytes
run_within [] fc room h k = omega arith
run_within (asks b true ∷ cs) fc room h k =
    let rec = run_within cs (step fc (asks b true)) (room + b) (omega arith) (omega arith) in
    omega (arith, rec)
run_within (asks b false ∷ cs) fc room h k =
    let same : (step fc (asks b false)).high_watermark ≡ fc.high_watermark = ground arith in
    let rec = run_within cs (step fc (asks b false)) room (ground arith) (ground arith) in
    omega (arith, rec, same)
run_within (acks b ∷ cs) fc room h k = run_within cs (step fc (acks b)) room (omega arith) k

-- After any calls the pending bytes exceed the high watermark by no more than the anchor frames
-- that were asked for: without anchors they never exceed it. They start within it, and the
-- watermark with the anchors stays below the largest `usize`.
pub run-pending_bound :
    (cs : List Call) (fc : FlowController)
    → fc.pending ≤ fc.high_watermark
    → fc.high_watermark + anchor_bytes cs < usize_mod - 1
    → (run fc cs).pending ≤ fc.high_watermark + anchor_bytes cs
run-pending_bound cs fc h k = omega (arith, run_within cs fc 0 (omega arith) (omega arith))

-- The bytes let through by the calls, and the bytes acknowledged.
unfoldable pub accepted : FlowController → List Call → ℕ
accepted fc [] = 0
accepted fc (asks b a ∷ cs) =
    let rest = accepted (step fc (asks b a)) cs in if (should_send fc b a).1 then b + rest else rest
accepted fc (acks b ∷ cs) = accepted (step fc (acks b)) cs

unfoldable pub acked : List Call → ℕ
acked [] = 0
acked (asks b a ∷ cs) = acked cs
acked (acks b ∷ cs) = b + acked cs

-- Acknowledgements never run ahead of what is pending.
abbrev pub Paced : FlowController → List Call → Type 0
Paced fc [] = Unit {0}
Paced fc (asks b a ∷ cs) = Paced (step fc (asks b a)) cs
Paced fc (acks b ∷ cs) = (b ≤ fc.pending) × Paced (step fc (acks b)) cs

sent_pending :
    (fc : FlowController) (b : ℕ) (a : Bool)
    → (should_send fc b a).1 ≡ true
    → (should_send fc b a).0.pending ≡ (fc.pending + b) % usize_mod
unfolding should_send
sent_pending fc b a h = ground arith

dropped_lem :
    (fc : FlowController) (b : ℕ) (a : Bool)
    → (should_send fc b a).1 ≡ false
    → (should_send fc b a).0 ≡ fc
unfolding should_send
dropped_lem fc b a h = ground arith

acked_pending : (fc : FlowController) (b : ℕ) → (on_sent fc b).pending ≡ fc.pending - b
unfolding on_sent
acked_pending fc b = refl

-- The pending bytes are those let through and not yet acknowledged, if no acknowledgement runs
-- ahead and the bytes let through in all, with those pending before, fit a `usize`.
run-pending_ledger :
    (cs : List Call) (fc : FlowController)
    → Paced fc cs
    → fc.pending + accepted fc cs < usize_mod
    → (run fc cs).pending + acked cs ≡ fc.pending + accepted fc cs
unfolding run step accepted acked
run-pending_ledger [] fc p h = refl
run-pending_ledger (asks b a ∷ cs) fc p h = elim (Bool-cases (should_send fc b a).1) [
  | inl let_through ↦
      let now : (step fc (asks b a)).pending ≡ (fc.pending + b) % usize_mod =
        sent_pending fc b a let_through in
      let sum : accepted fc (asks b a ∷ cs) ≡ b + accepted (step fc (asks b a)) cs =
        rw let_through in
      omega (arith, run-pending_ledger cs (step fc (asks b a)) p (omega arith))
  | inr dropped ↦
      let now : step fc (asks b a) ≡ fc = dropped_lem fc b a dropped in
      let sum : accepted fc (asks b a ∷ cs) ≡ accepted (step fc (asks b a)) cs = rw dropped in
      let same : (step fc (asks b a)).pending ≡ fc.pending =
        ap (λ (f : FlowController). f.pending) now in
      omega (arith, run-pending_ledger cs (step fc (asks b a)) p (omega arith))
]
run-pending_ledger (acks b ∷ cs) fc p h =
    let now : (step fc (acks b)).pending ≡ fc.pending - b = acked_pending fc b in
    omega (arith, run-pending_ledger cs (step fc (acks b)) p.1 (omega (arith, p.0)), p.0)
