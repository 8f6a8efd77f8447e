-- ===== src/Transport/SshTransport.antt =====
-- crates/remoteway-transport/src/ssh_transport.rs: the three queues of outgoing messages and the writer
-- that takes from them. A failed write ends the loop and is not modelled; nor are the tasks.
pub mod Order
use remote_way.Prelude.{
  ℕ, zero, suc, ◌+◌, ◌-◌, ◌*◌, ◌/◌, ◌%◌, ◌^◌, ◌≤◌, ◌<◌, min, max, bit_and, bit_or, bit_xor, Bool,
  true, false, not, ◌&&◌, ◌||◌, List, [], ◌∷◌, ◌++◌, map, Option, none, some, length, take, drop,
  set, replicate, get_elem?, leb, ltb, ◌==◌, if◌then◌else◌, ◌≡◌, ◌≢◌, ◌⊎◌, inl, inr, refl, ◌∙◌, sym,
  ap, ap₂, subst, arith, append_assoc, append-nil, length-take, length-drop, length-append,
  drop-drop, take-append-drop, length-set, drop_all, take_all, take-length, drop-length, drop-take,
  take-take, take-set, drop-set, drop_get, All, All-take, All-drop, All-append, Bool-cases,
  Option-cases, ==_iff, ltb→lt, lt→ltb, le→not-ltb, not-ltb→le, length-map, get_of_drop,
  length-replicate,
}

-- `FRAME_QUEUE_DEPTH`
abbrev pub frame_queue_depth : ℕ
frame_queue_depth = 2

-- Which of the sender's channels a message went to.
pub data Priority : Type 0 where
  input anchor frame : Priority

-- The queues, and what the writer has written, first to last.
pub record SshTransport : Type 0 where
  pub input_rx : List (List ℕ)
  pub anchor_rx : List (List ℕ)
  pub frame_rx : List (List ℕ)
  pub written : List (Priority × List ℕ)

unfoldable pub send_input : SshTransport → List ℕ → SshTransport × Bool
send_input t bytes = (record t { input_rx = t.input_rx ++ (bytes ∷ []) }, true)

unfoldable pub send_anchor : SshTransport → List ℕ → SshTransport × Bool
send_anchor t bytes = (record t { anchor_rx = t.anchor_rx ++ (bytes ∷ []) }, true)

unfoldable pub try_send_frame : SshTransport → List ℕ → SshTransport × Bool
try_send_frame t bytes =
    if ltb (length t.frame_rx) frame_queue_depth
    then (record t { frame_rx = t.frame_rx ++ (bytes ∷ []) }, true)
    else (t, false)

-- The branches of the biased `select!`, in their order; with empty queues the writer waits.
abbrev pub write_frame : SshTransport → List (List ℕ) → SshTransport
write_frame t [] = t
write_frame t (d ∷ ds) = record t {
  frame_rx = ds;
  written = t.written ++ ((Priority.frame, d) ∷ []);
}

abbrev pub write_anchor : SshTransport → List (List ℕ) → SshTransport
write_anchor t [] = write_frame t t.frame_rx
write_anchor t (d ∷ ds) = record t {
  anchor_rx = ds;
  written = t.written ++ ((Priority.anchor, d) ∷ []);
}

abbrev pub write_input : SshTransport → List (List ℕ) → SshTransport
write_input t [] = write_anchor t t.anchor_rx
write_input t (d ∷ ds) = record t {
  input_rx = ds;
  written = t.written ++ ((Priority.input, d) ∷ []);
}

-- One round of `write_loop`.
unfoldable pub write_one : SshTransport → SshTransport
write_one t = write_input t t.input_rx

-- The calls of the sender and the rounds of the writer, in any order.
pub data Action : Type 0 where
  sends : Priority → List ℕ → Action
  writes : Action

unfoldable pub send : SshTransport → Priority → List ℕ → SshTransport × Bool
send t Priority.input bytes = send_input t bytes
send t Priority.anchor bytes = send_anchor t bytes
send t Priority.frame bytes = try_send_frame t bytes

unfoldable pub act : SshTransport → Action → SshTransport
act t (sends p bytes) = (send t p bytes).0
act t writes = write_one t

unfoldable pub act_all : SshTransport → List Action → SshTransport
act_all t [] = t
act_all t (a ∷ rest) = act_all (act t a) rest
