-- ===== src/Tests/Handshake.antt =====
-- The server's handshake with all backends and zstd.
use remote_way.Prelude.{ℕ, List, [], ◌∷◌, ◌≡◌, some, none, refl}
use remote_way.Prelude.Table.{Table, find}
use remote_way.Proto.Header.{FrameHeader, TryMsgType, decode_msg_type, handshake}
use remote_way.Proto.HandshakePayload
use remote_way.Proto.HandshakePayload.{HandshakePayload}
use remote_way.Transport.Multiplexer.{PushResult, push}
use remote_way.Session.Handshake.{
  CaptureBackendArg, CompressArg, Announces, build_handshake, push-build_handshake,
}

abbrev nothing_waits : Table (List ℕ)
nothing_waits = []

nothing_of_handshakes : find 0 nothing_waits ≡ none
unfolding find
nothing_of_handshakes = refl

push-build_handshake_example :
    (header : FrameHeader) × (payload : List ℕ) × (p : HandshakePayload) × (push
        (record { buf = []; chunks = nothing_waits })
        (build_handshake CaptureBackendArg.auto CompressArg.zstd)
      ≡ (
        record { buf = []; chunks = nothing_waits },
        PushResult.ok (record { header = header; payload = payload } ∷ []),
      ))
    × (decode_msg_type header ≡ TryMsgType.ok handshake)
    × (HandshakePayload.ref_from_bytes payload ≡ some p)
    × Announces CaptureBackendArg.auto CompressArg.zstd p
push-build_handshake_example =
    push-build_handshake CaptureBackendArg.auto CompressArg.zstd nothing_waits nothing_of_handshakes
