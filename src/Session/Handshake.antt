-- ===== src/Session/Handshake.antt =====
-- `build_handshake` of crates/remoteway-server/src/pipeline.rs and of crates/remoteway-client/src/pipeline.rs,
-- with the flags of crates/remoteway-proto/src/handshake.rs. The portal variant is of builds with that feature.
use remote_way.Prelude.{
  ℕ, ◌<◌, bit_or, true, List, [], ◌∷◌, ◌++◌, none, some, ◌≡◌, refl, sym, arith,
}
use remote_way.Prelude.Bits.{test_bit}
use remote_way.Prelude.Table.{Table, find}
use remote_way.Proto.Header.{
  FrameHeader, MsgType, TryMsgType, decode_msg_type, handshake, last_chunk,
}
use remote_way.Proto.Header
use remote_way.Proto.HandshakePayload
use remote_way.Proto.HandshakePayload.{HandshakePayload}
use remote_way.Transport.Multiplexer.{PushResult, push, is_last}
use remote_way.Transport.Multiplexer.Deliver.{IsFrame}
use remote_way.Transport.Multiplexer.Whole.{push-as_bytes}

-- The modules `capture_flags` and `compress_flags`.
abbrev pub wlr_screencopy : ℕ
wlr_screencopy = 1

abbrev pub ext_image_capture : ℕ
ext_image_capture = 2

abbrev pub portal : ℕ
portal = 4

abbrev pub lz4_flag : ℕ
lz4_flag = 1

abbrev pub zstd_flag : ℕ
zstd_flag = 2

abbrev pub none_flag : ℕ
none_flag = 4

pub data CaptureBackendArg : Type 0 where
  auto wlr_screencopy_only ext_image_capture_only portal_only : CaptureBackendArg

pub data CompressArg : Type 0 where
  uncompressed lz4 zstd : CompressArg

unfoldable pub capture_bits : CaptureBackendArg → ℕ
capture_bits CaptureBackendArg.auto = bit_or (bit_or wlr_screencopy ext_image_capture) portal
capture_bits CaptureBackendArg.wlr_screencopy_only = wlr_screencopy
capture_bits CaptureBackendArg.ext_image_capture_only = ext_image_capture
capture_bits CaptureBackendArg.portal_only = portal

unfoldable pub compress_bits : CompressArg → ℕ
compress_bits CompressArg.uncompressed = none_flag
compress_bits CompressArg.lz4 = lz4_flag
compress_bits CompressArg.zstd = bit_or lz4_flag zstd_flag

abbrev handshake_header : FrameHeader
handshake_header = Header.new 0 handshake last_chunk 8 0

abbrev handshake_bytes : ℕ → ℕ → List ℕ
handshake_bytes cap comp =
    Header.as_bytes handshake_header ++ HandshakePayload.as_bytes (HandshakePayload.new cap comp)

-- The server's.
unfoldable pub build_handshake : CaptureBackendArg → CompressArg → List ℕ
build_handshake capture_arg compress_arg =
    handshake_bytes (capture_bits capture_arg) (compress_bits compress_arg)

unfoldable pub client_build_handshake : List ℕ
client_build_handshake = handshake_bytes (bit_or wlr_screencopy ext_image_capture) lz4_flag

handshake_header-decode : decode_msg_type handshake_header ≡ TryMsgType.ok handshake
unfolding decode_msg_type Header.try_from Header.new Header.to_u8
handshake_header-decode = refl

handshake_header-is_last : is_last handshake_header ≡ true
unfolding is_last Header.new
handshake_header-is_last = refl

handshake-IsFrame :
    (cap comp : ℕ)
    → IsFrame (handshake_header, HandshakePayload.as_bytes (HandshakePayload.new cap comp))
unfolding Header.new Header.to_u8
handshake-IsFrame cap comp =
    let len = HandshakePayload.length-as_bytes (HandshakePayload.new cap comp) in
    record {
      fits = record {
        stream_id_fits = omega arith;
        msg_type_fits = omega arith;
        flags_fits = omega arith;
        payload_len_fits = omega arith;
        timestamp_ns_fits = omega arith;
      };
      known = (handshake, handshake_header-decode);
      len = sym len;
      small = omega (arith, len);
    }

handshake_stream : (t : Table (List ℕ)) → find 0 t ≡ none → find handshake_header.stream_id t ≡ none
unfolding Header.new
handshake_stream t absent = absent

capture_bits-lt : (a : CaptureBackendArg) → capture_bits a < 256
unfolding capture_bits
capture_bits-lt CaptureBackendArg.auto = omega arith
capture_bits-lt CaptureBackendArg.wlr_screencopy_only = omega arith
capture_bits-lt CaptureBackendArg.ext_image_capture_only = omega arith
capture_bits-lt CaptureBackendArg.portal_only = omega arith

compress_bits-lt : (a : CompressArg) → compress_bits a < 256
unfolding compress_bits
compress_bits-lt CompressArg.uncompressed = omega arith
compress_bits-lt CompressArg.lz4 = omega arith
compress_bits-lt CompressArg.zstd = omega arith

handshake-Fits :
    (cap comp : ℕ) → cap < 256 → comp < 256 → HandshakePayload.Fits (HandshakePayload.new cap comp)
unfolding HandshakePayload.new
handshake-Fits cap comp a b = record {
  version_fits = omega arith;
  capture_flags_fits = omega (arith, a);
  compress_flags_fits = omega (arith, b);
  reserved_fits = omega arith;
}

-- What a choice offers, one for yes.
abbrev pub offers_wlr : CaptureBackendArg → ℕ
offers_wlr CaptureBackendArg.auto = 1
offers_wlr CaptureBackendArg.wlr_screencopy_only = 1
offers_wlr CaptureBackendArg.ext_image_capture_only = 0
offers_wlr CaptureBackendArg.portal_only = 0

abbrev pub offers_ext : CaptureBackendArg → ℕ
offers_ext CaptureBackendArg.auto = 1
offers_ext CaptureBackendArg.wlr_screencopy_only = 0
offers_ext CaptureBackendArg.ext_image_capture_only = 1
offers_ext CaptureBackendArg.portal_only = 0

abbrev pub offers_portal : CaptureBackendArg → ℕ
offers_portal CaptureBackendArg.auto = 1
offers_portal CaptureBackendArg.wlr_screencopy_only = 0
offers_portal CaptureBackendArg.ext_image_capture_only = 0
offers_portal CaptureBackendArg.portal_only = 1

abbrev pub offers_lz4 : CompressArg → ℕ
offers_lz4 CompressArg.uncompressed = 0
offers_lz4 CompressArg.lz4 = 1
offers_lz4 CompressArg.zstd = 1

abbrev pub offers_zstd : CompressArg → ℕ
offers_zstd CompressArg.uncompressed = 0
offers_zstd CompressArg.lz4 = 0
offers_zstd CompressArg.zstd = 1

abbrev pub offers_none : CompressArg → ℕ
offers_none CompressArg.uncompressed = 1
offers_none CompressArg.lz4 = 0
offers_none CompressArg.zstd = 0

-- A byte whose three low bits are these and whose others are 0.
abbrev pub Bits : ℕ → ℕ → ℕ → ℕ → Type 0
Bits flags a b c =
    (test_bit flags 0 ≡ a) × (test_bit flags 1 ≡ b) × (test_bit flags 2 ≡ c) × (flags < 8)

-- A payload of version 1 that announces what the choices offer: wlr-screencopy, ext-image-capture and
-- the portal in the bits 0, 1 and 2 of one byte, LZ4, zstd and no compression in those of the other.
pub record Announces (capture_arg : CaptureBackendArg) (compress_arg : CompressArg)
    (p : HandshakePayload) : Type 0 where
  pub version_1 : p.version ≡ 1
  pub captures :
      Bits p.capture_flags
        (offers_wlr capture_arg)
        (offers_ext capture_arg)
        (offers_portal capture_arg)
  pub compresses :
      Bits p.compress_flags
        (offers_lz4 compress_arg)
        (offers_zstd compress_arg)
        (offers_none compress_arg)
  pub reserved_0 : p.reserved ≡ 0

capture_bits-Bits :
    (a : CaptureBackendArg) → Bits (capture_bits a) (offers_wlr a) (offers_ext a) (offers_portal a)
unfolding capture_bits
capture_bits-Bits CaptureBackendArg.auto = (refl, refl, refl, omega arith)
capture_bits-Bits CaptureBackendArg.wlr_screencopy_only = (refl, refl, refl, omega arith)
capture_bits-Bits CaptureBackendArg.ext_image_capture_only = (refl, refl, refl, omega arith)
capture_bits-Bits CaptureBackendArg.portal_only = (refl, refl, refl, omega arith)

compress_bits-Bits :
    (a : CompressArg) → Bits (compress_bits a) (offers_lz4 a) (offers_zstd a) (offers_none a)
unfolding compress_bits
compress_bits-Bits CompressArg.uncompressed = (refl, refl, refl, omega arith)
compress_bits-Bits CompressArg.lz4 = (refl, refl, refl, omega arith)
compress_bits-Bits CompressArg.zstd = (refl, refl, refl, omega arith)

new-Announces :
    (a : CaptureBackendArg) (c : CompressArg)
    → Announces a c (HandshakePayload.new (capture_bits a) (compress_bits c))
unfolding HandshakePayload.new
new-Announces a c = record {
  version_1 = refl;
  captures = capture_bits-Bits a;
  compresses = compress_bits-Bits c;
  reserved_0 = refl;
}

-- The server's handshake, for any choice of backend and codec, comes out of the client's parser as
-- one handshake message, whose payload is read as one of version 1 that announces just what the
-- choices offer, bit by bit. The parser has no unread bytes and no unfinished message of stream 0.
pub push-build_handshake :
    (capture_arg : CaptureBackendArg) (compress_arg : CompressArg) (t : Table (List ℕ))
    → find 0 t ≡ none
    → (header : FrameHeader) × (payload : List ℕ) × (p : HandshakePayload) × (push
          (record { buf = []; chunks = t })
          (build_handshake capture_arg compress_arg)
        ≡ (
          record { buf = []; chunks = t },
          PushResult.ok (record { header = header; payload = payload } ∷ []),
        ))
      × (decode_msg_type header ≡ TryMsgType.ok handshake)
      × (HandshakePayload.ref_from_bytes payload ≡ some p)
      × Announces capture_arg compress_arg p
unfolding build_handshake
push-build_handshake capture_arg compress_arg t absent =
    let cap = capture_bits capture_arg in
    let comp = compress_bits compress_arg in
    let made = HandshakePayload.new cap comp in
    (
      handshake_header,
      HandshakePayload.as_bytes made,
      made,
      push-as_bytes handshake_header (HandshakePayload.as_bytes made) t (handshake-IsFrame cap comp)
          handshake_header-is_last (handshake_stream t absent),
      handshake_header-decode,
      HandshakePayload.ref_from_bytes-as_bytes made
          (handshake-Fits cap comp (capture_bits-lt capture_arg) (compress_bits-lt compress_arg)),
      new-Announces capture_arg compress_arg,
    )
