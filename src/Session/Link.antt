-- ===== src/Session/Link.antt =====
-- The two loops joined: what compress_send_loop hands to the transport, in the order in which it hands
-- it over, is read by the client's parser (`read_loop`, crates/remoteway-transport/src/ssh_transport.rs) and
-- goes to recv_decompress_loop. Chunk size and stream are those of crates/remoteway-server/src/pipeline.rs.
use remote_way.Prelude.{
  ℕ, suc, Bool, true, false, List, [], ◌∷◌, ◌++◌, Option, none, some, length, if◌then◌else◌,
}
use remote_way.Proto.Header.{TryMsgType, decode_msg_type, compressed}
use remote_way.Compress.Delta.{◌>>=◌}
use remote_way.Compress.Compressor.{Codecs, CompressorKind}
use remote_way.Transport.ChunkSender.{split_into_chunks}
use remote_way.Transport.Multiplexer.{StreamParser, PushResult, IncomingMessage, push}
use remote_way.Session.Server.{ServerState, Captured, message_type, frame_payload, after_send}
use remote_way.Session.Client.{ClientState, Shown, receive}

-- `CHUNK_SIZE`, 64 KiB.
abbrev pub wire_chunk_size : ℕ
wire_chunk_size = 65536

pub record Ends : Type 0 where
  pub server : ServerState
  pub parser : StreamParser
  pub client : ClientState

-- A drained frame, its time, and whether the transport takes its message.
pub record Event : Type 0 where
  pub captured : Captured
  pub timestamp_ns : ℕ
  pub accepted : Bool

abbrev pub add_shown : Option Shown → List Shown → List Shown
add_shown none shown = shown
add_shown (some x) shown = x ∷ shown

module _ (c : Codecs) (kind : CompressorKind) where
  -- `msg.header.msg_type()`: an unknown type is logged.
  abbrev pub dispatch : ClientState → List ℕ → TryMsgType → Option (ClientState × Option Shown)
  dispatch s payload (TryMsgType.ok t) = receive c kind s t payload
  dispatch s payload (TryMsgType.err e) = some (s, none)

  unfoldable pub handle : ClientState → IncomingMessage → Option (ClientState × Option Shown)
  handle s m = dispatch s m.payload (decode_msg_type m.header)

  unfoldable pub handle_all : ClientState → List IncomingMessage → Option (ClientState × List Shown)
  handle_all s [] = some (s, [])
  handle_all s (m ∷ ms) = do
    (s', shown) ← handle s m
    (last, rest) ← handle_all s' ms
    some (last, add_shown shown rest)

  -- An error of the parser ends `read_loop`: nothing more is shown.
  abbrev pub handle_pushed : ClientState → PushResult → Option (ClientState × List Shown)
  handle_pushed s (PushResult.ok ms) = handle_all s ms
  handle_pushed s (PushResult.err e) = some (s, [])
  handle_pushed s PushResult.stuck = none

  module _ (threads : ℕ) where
    -- The bytes of one round. One more than the payload's length is fuel enough.
    unfoldable pub wire_bytes : ServerState → Event → Option (List ℕ)
    wire_bytes s e = do
      payload ← frame_payload c kind threads s e.captured
      split_into_chunks 1 (message_type s) compressed payload e.timestamp_ns wire_chunk_size
          (suc (length payload)) []

    unfoldable pub arrive : Ends → Event → List ℕ → Option (Ends × List Shown)
    arrive ends e bytes = do
      let (parser, result) = push ends.parser bytes
      (client, shown) ← handle_pushed ends.client result
      some (
        record {
          server = after_send ends.server e.captured true;
          parser = parser;
          client = client;
        },
        shown,
      )

    unfoldable pub round : Ends → Event → Option (Ends × List Shown)
    round ends e = do
      bytes ← wire_bytes ends.server e
      if e.accepted
          then arrive ends e bytes
          else some (record ends { server = after_send ends.server e.captured false }, [])

    -- All that the client hands to the display, in order.
    unfoldable pub play : Ends → List Event → Option (List Shown)
    play ends [] = some []
    play ends (e ∷ es) = do
      (ends', shown) ← round ends e
      rest ← play ends' es
      some (shown ++ rest)
