-- ===== src/Transport/SshTransport/Order.antt =====
-- In which order the messages leave: each queue in order, and where the priorities change it.
use remote_way.Prelude.{
  ℕ, ◌≤◌, Bool, true, false, List, [], ◌∷◌, ◌++◌, length, ltb, if◌then◌else◌, ◌≡◌, inl, inr, refl,
  ◌∙◌, sym, ap, arith, append_assoc, append-nil, length-append, Bool-cases, ltb→lt,
}
use remote_way.Transport.SshTransport.{
  SshTransport, Priority, frame_queue_depth, send_input, send_anchor, try_send_frame, write_one,
  Action, sends, writes, send, act, act_all,
}

-- The messages of frames, which are those of the two lower priorities, and the others.
abbrev pub session : List (Priority × List ℕ) → List (List ℕ)
session [] = []
session ((Priority.input, d) ∷ ms) = session ms
session ((Priority.anchor, d) ∷ ms) = d ∷ session ms
session ((Priority.frame, d) ∷ ms) = d ∷ session ms

abbrev pub inputs : List (Priority × List ℕ) → List (List ℕ)
inputs [] = []
inputs ((Priority.input, d) ∷ ms) = d ∷ inputs ms
inputs ((Priority.anchor, d) ∷ ms) = inputs ms
inputs ((Priority.frame, d) ∷ ms) = inputs ms

-- What the sender's calls accept, in the order of the calls.
unfoldable pub accepted : SshTransport → List Action → List (Priority × List ℕ)
accepted t [] = []
accepted t (writes ∷ rest) = accepted (write_one t) rest
accepted t (sends p bytes ∷ rest) =
    let later = accepted (send t p bytes).0 rest in
    if (send t p bytes).1 then (p, bytes) ∷ later else later

-- Each anchor is sent when no frame waits.
abbrev pub AnchorsAlone : SshTransport → List Action → Type 0
AnchorsAlone t [] = Unit {0}
AnchorsAlone t (writes ∷ rest) = AnchorsAlone (write_one t) rest
AnchorsAlone t (sends Priority.anchor bytes ∷ rest) =
    (t.frame_rx ≡ []) × AnchorsAlone (send_anchor t bytes).0 rest
AnchorsAlone t (sends Priority.input bytes ∷ rest) = AnchorsAlone (send_input t bytes).0 rest
AnchorsAlone t (sends Priority.frame bytes ∷ rest) = AnchorsAlone (try_send_frame t bytes).0 rest

session-append : (xs ys : List (Priority × List ℕ)) → session (xs ++ ys) ≡ session xs ++ session ys
session-append [] ys = refl
session-append ((Priority.input, d) ∷ xs) ys = session-append xs ys
session-append ((Priority.anchor, d) ∷ xs) ys = ap (◌∷◌ d) (session-append xs ys)
session-append ((Priority.frame, d) ∷ xs) ys = ap (◌∷◌ d) (session-append xs ys)

inputs-append : (xs ys : List (Priority × List ℕ)) → inputs (xs ++ ys) ≡ inputs xs ++ inputs ys
inputs-append [] ys = refl
inputs-append ((Priority.input, d) ∷ xs) ys = ap (◌∷◌ d) (inputs-append xs ys)
inputs-append ((Priority.anchor, d) ∷ xs) ys = inputs-append xs ys
inputs-append ((Priority.frame, d) ∷ xs) ys = inputs-append xs ys

-- Written and waiting messages.
abbrev pub session_line : SshTransport → List (List ℕ)
session_line t = session t.written ++ (t.anchor_rx ++ t.frame_rx)

abbrev pub input_line : SshTransport → List (List ℕ)
input_line t = inputs t.written ++ t.input_rx

write_lines :
    (i a f : List (List ℕ)) (w : List (Priority × List ℕ))
    → let t : SshTransport = record { input_rx = i; anchor_rx = a; frame_rx = f; written = w } in
      (session_line (write_one t) ≡ session_line t) × (input_line (write_one t) ≡ input_line t)
unfolding write_one
write_lines (d ∷ i) a f w = (
  rw (session-append w ((Priority.input, d) ∷ []), append-nil (session w)) refl,
  rw (inputs-append w ((Priority.input, d) ∷ [])) (append_assoc (inputs w) (d ∷ []) i),
)
write_lines [] (d ∷ a) f w = (
  rw (session-append w ((Priority.anchor, d) ∷ [])) (append_assoc (session w) (d ∷ []) (a ++ f)),
  rw (inputs-append w ((Priority.anchor, d) ∷ [])) (append-nil (inputs w ++ [])),
)
write_lines [] [] (d ∷ f) w = (
  rw (session-append w ((Priority.frame, d) ∷ [])) (append_assoc (session w) (d ∷ []) f),
  rw (inputs-append w ((Priority.frame, d) ∷ [])) (append-nil (inputs w ++ [])),
)
write_lines [] [] [] w = (refl, refl)

write_one-lines :
    (t : SshTransport)
    → (session_line (write_one t) ≡ session_line t) × (input_line (write_one t) ≡ input_line t)
write_one-lines t = write_lines t.input_rx t.anchor_rx t.frame_rx t.written

frame_line :
    (t : SshTransport) (d : List ℕ)
    → session_line (try_send_frame t d).0
      ≡ session_line t ++ (if (try_send_frame t d).1 then d ∷ [] else [])
unfolding try_send_frame
frame_line t d = elim (Bool-cases (ltb (length t.frame_rx) frame_queue_depth)) [
  | inl room ↦ rw room (simp append_assoc)
  | inr full ↦ rw full (sym (append-nil _))
]

anchor_line :
    (t : SshTransport) (d : List ℕ)
    → t.frame_rx ≡ []
    → session_line (send_anchor t d).0 ≡ session_line t ++ (d ∷ [])
unfolding send_anchor
anchor_line t d alone = rw alone (simp (append_assoc, append-nil))

input_stays : (t : SshTransport) (d : List ℕ) → session_line (send_input t d).0 ≡ session_line t
unfolding send_input
input_stays t d = refl

input_line_grows :
    (t : SshTransport) (d : List ℕ) → input_line (send_input t d).0 ≡ input_line t ++ (d ∷ [])
unfolding send_input
input_line_grows t d = sym (append_assoc (inputs t.written) t.input_rx (d ∷ []))

others-input_line :
    (t : SshTransport) (d : List ℕ)
    → (input_line (send_anchor t d).0 ≡ input_line t)
      × (input_line (try_send_frame t d).0 ≡ input_line t)
unfolding send_anchor try_send_frame
others-input_line t d = (refl, ground arith)

then_line :
    {A : Type 0} (z a b : List A) {x y : List A} → x ≡ y ++ b → y ≡ z ++ a → x ≡ z ++ (a ++ b)
then_line z a b e d = e ∙ ap (λ l. l ++ b) d ∙ append_assoc z a b

frame_if-inputs :
    (b : Bool) (d : List ℕ) (later : List (Priority × List ℕ))
    → inputs (if b then (Priority.frame, d) ∷ later else later) ≡ inputs later
frame_if-inputs true d later = refl
frame_if-inputs false d later = refl

frame_if-session :
    (b : Bool) (d : List ℕ) (later : List (Priority × List ℕ))
    → session (if b then (Priority.frame, d) ∷ later else later)
      ≡ (if b then d ∷ [] else []) ++ session later
frame_if-session true d later = refl
frame_if-session false d later = refl

-- Whatever the order of the calls and of the writer's rounds, the input events written, with those
-- that wait, are those accepted, in order: none is lost, dropped or overtaken by another.
act_all-inputs :
    (actions : List Action) (t : SshTransport)
    → input_line (act_all t actions) ≡ input_line t ++ inputs (accepted t actions)
unfolding act_all act send accepted send_input send_anchor
act_all-inputs [] t = sym (append-nil _)
act_all-inputs (writes ∷ rest) t =
    act_all-inputs rest (write_one t)
    ∙ ap (λ l. l ++ inputs (accepted (write_one t) rest)) (write_one-lines t).1
act_all-inputs (sends Priority.input d ∷ rest) t =
    then_line (input_line t) (d ∷ []) _ (act_all-inputs rest (send_input t d).0)
      (input_line_grows t d)
act_all-inputs (sends Priority.anchor d ∷ rest) t = act_all-inputs rest (send_anchor t d).0
act_all-inputs (sends Priority.frame d ∷ rest) t =
    let later = accepted (try_send_frame t d).0 rest in
    act_all-inputs rest (try_send_frame t d).0
    ∙ ap (λ l. l ++ inputs later) (others-input_line t d).1
    ∙ ap (λ l. input_line t ++ l) (sym (frame_if-inputs (try_send_frame t d).1 d later))

-- If each anchor is sent when no frame waits, anchors and frames leave in the order in which they
-- were accepted, whatever else is sent between.
pub act_all-session :
    (actions : List Action) (t : SshTransport)
    → AnchorsAlone t actions
    → session_line (act_all t actions) ≡ session_line t ++ session (accepted t actions)
unfolding act_all act send accepted send_input send_anchor
act_all-session [] t alone = sym (append-nil _)
act_all-session (writes ∷ rest) t alone =
    act_all-session rest (write_one t) alone
    ∙ ap (λ l. l ++ session (accepted (write_one t) rest)) (write_one-lines t).0
act_all-session (sends Priority.input d ∷ rest) t alone =
    act_all-session rest (send_input t d).0 alone
act_all-session (sends Priority.anchor d ∷ rest) t alone =
    then_line (session_line t) (d ∷ []) _ (act_all-session rest (send_anchor t d).0 alone.1)
      (anchor_line t d alone.0)
act_all-session (sends Priority.frame d ∷ rest) t alone =
    let later = accepted (try_send_frame t d).0 rest in
    then_line (session_line t) _ (session later) (act_all-session rest (try_send_frame t d).0 alone)
      (frame_line t d)
    ∙ ap (λ l. session_line t ++ l) (sym (frame_if-session (try_send_frame t d).1 d later))

-- The writer takes an anchor before the frames that were accepted earlier and wait: with no input
-- event and no other anchor, the two next messages are the anchor and then the first of the frames.
send_anchor-overtakes :
    (f a : List ℕ) (fs : List (List ℕ)) (w : List (Priority × List ℕ))
    → act_all
        (record { input_rx = []; anchor_rx = []; frame_rx = f ∷ fs; written = w })
        (sends Priority.anchor a ∷ writes ∷ writes ∷ [])
      ≡ record {
        input_rx = [];
        anchor_rx = [];
        frame_rx = fs;
        written = w ++ ((Priority.anchor, a) ∷ (Priority.frame, f) ∷ []);
      }
unfolding act_all act send send_anchor write_one
send_anchor-overtakes f a fs w = simp append_assoc

frame_room :
    (t : SshTransport) (d : List ℕ)
    → length t.frame_rx ≤ frame_queue_depth
    → length (try_send_frame t d).0.frame_rx ≤ frame_queue_depth
unfolding try_send_frame
frame_room t d h = elim (Bool-cases (ltb (length t.frame_rx) frame_queue_depth)) [
  | inl room ↦ rw room (omega (arith, ltb→lt _ _ room, length-append t.frame_rx (d ∷ [])))
  | inr full ↦ rw full h
]

write_room :
    (i a f : List (List ℕ)) (w : List (Priority × List ℕ))
    → length
        (write_one (record { input_rx = i; anchor_rx = a; frame_rx = f; written = w })).frame_rx
      ≤ length f
unfolding write_one
write_room (d ∷ i) a f w = omega arith
write_room [] (d ∷ a) f w = omega arith
write_room [] [] (d ∷ f) w = omega arith
write_room [] [] [] w = omega arith

-- No more frames ever wait than the queue's depth.
act_all-frame_queue_depth :
    (actions : List Action) (t : SshTransport)
    → length t.frame_rx ≤ frame_queue_depth
    → length (act_all t actions).frame_rx ≤ frame_queue_depth
unfolding act_all act send send_input send_anchor
act_all-frame_queue_depth [] t h = h
act_all-frame_queue_depth (writes ∷ rest) t h =
    act_all-frame_queue_depth rest (write_one t)
      (omega (arith, write_room t.input_rx t.anchor_rx t.frame_rx t.written))
act_all-frame_queue_depth (sends Priority.input d ∷ rest) t h =
    act_all-frame_queue_depth rest (send_input t d).0 h
act_all-frame_queue_depth (sends Priority.anchor d ∷ rest) t h =
    act_all-frame_queue_depth rest (send_anchor t d).0 h
act_all-frame_queue_depth (sends Priority.frame d ∷ rest) t h =
    act_all-frame_queue_depth rest (try_send_frame t d).0 (frame_room t d h)
