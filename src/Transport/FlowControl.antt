-- ===== src/Transport/FlowControl.antt =====
-- crates/remoteway-transport/src/flow_control.rs: which frames are let through to the wire.
pub mod Bounds
use remote_way.Prelude.{
  ℕ, ◌+◌, ◌-◌, ◌%◌, ◌^◌, min, Bool, true, false, List, [], ◌∷◌, ltb, leb, if◌then◌else◌,
}

-- `usize` has 64 bits.
abbrev pub usize_mod : ℕ
usize_mod = 2 ^ 64

abbrev pub saturating_add : ℕ → ℕ → ℕ
saturating_add a b = min (a + b) (usize_mod - 1)

pub record FlowController : Type 0 where
  pub high_watermark : ℕ
  pub pending : ℕ

unfoldable pub new : ℕ → FlowController
new high_watermark = record { high_watermark = high_watermark; pending = 0 }

-- `pending += bytes` wraps as in a release build.
unfoldable pub should_send : FlowController → ℕ → Bool → FlowController × Bool
should_send fc bytes is_anchor =
    let more = record fc { pending = (fc.pending + bytes) % usize_mod } in
    if is_anchor
    then (more, true)
    else if ltb fc.high_watermark (saturating_add fc.pending bytes)
    then (fc, false)
    else (more, true)

-- `saturating_sub` is the subtraction of ℕ, which stops at 0.
unfoldable pub on_sent : FlowController → ℕ → FlowController
on_sent fc bytes = record fc { pending = fc.pending - bytes }

unfoldable pub pending_bytes : FlowController → ℕ
pending_bytes fc = fc.pending

unfoldable pub is_congested : FlowController → Bool
is_congested fc = leb fc.high_watermark fc.pending

-- The calls that the sender makes, in any order.
pub data Call : Type 0 where
  asks : (bytes : ℕ) (is_anchor : Bool) → Call
  acks : (bytes : ℕ) → Call

unfoldable pub step : FlowController → Call → FlowController
step fc (asks bytes is_anchor) = (should_send fc bytes is_anchor).0
step fc (acks bytes) = on_sent fc bytes

unfoldable pub run : FlowController → List Call → FlowController
run fc [] = fc
run fc (c ∷ cs) = run (step fc c) cs
