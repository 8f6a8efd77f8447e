-- ===== src/Tests/Writer.antt =====
-- The writer's queues at concrete calls.
use remote_way.Prelude.{List, [], ◌∷◌, ◌++◌, ◌≡◌, refl}
use remote_way.Transport.SshTransport.{SshTransport, Priority, Action, sends, writes, act_all}
use remote_way.Transport.SshTransport.Order.{
  session, accepted, AnchorsAlone, session_line, act_all-session,
}

abbrev idle : SshTransport
idle = record { input_rx = []; anchor_rx = []; frame_rx = []; written = [] }

-- An anchor, three frames of which the last is refused, an input event, and rounds of the writer.
abbrev actions : List Action
actions =
    sends Priority.anchor (1 ∷ [])
    ∷ sends Priority.frame (2 ∷ [])
    ∷ sends Priority.frame (3 ∷ [])
    ∷ sends Priority.frame (4 ∷ [])
    ∷ sends Priority.input (9 ∷ [])
    ∷ writes
    ∷ writes
    ∷ writes
    ∷ []

actions-AnchorsAlone : AnchorsAlone idle actions
actions-AnchorsAlone = (refl, tt)

act_all-session_example :
    session_line (act_all idle actions) ≡ session_line idle ++ session (accepted idle actions)
act_all-session_example = act_all-session actions idle actions-AnchorsAlone
