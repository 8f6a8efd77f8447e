-- ===== src/Lib.antt =====
-- RemoteWay streams a Wayland desktop over an SSH connection. The server captures frames, encodes what
-- changed as an XOR delta against the frame before, compresses it region by region, and cuts the
-- result into frames of one byte stream; the client puts the messages together again, parses the
-- payload, decompresses, and decodes over its own copy of the frame before. This library models that
-- path from the captured bytes to the decoded frame, and beside it the detection of the desktop on the
-- server, the display of the frames on the client, and the encoders of H.264, H.265 and AV1.
--
-- Files and code (paths from the root of the repository):
--   Proto/Wire            little-endian integers, as zerocopy lays out the packed structs.
--   Proto/Header          crates/remoteway-proto/src/header.rs and error.rs: MsgType, FrameHeader.
--   Proto/*               one file for each struct of crates/remoteway-proto/src: the fields in order,
--                         as_bytes and ref_from_bytes for the derived IntoBytes and FromBytes.
--   Transport/ChunkSender crates/remoteway-transport/src/chunk_sender.rs.
--   Transport/Multiplexer crates/remoteway-transport/src/multiplexer.rs: StreamParser has the buffer
--                         and the reassembly table; push is push, reassemble is reassemble.
--   Transport/RoundTrip   the sender and the parser together.
--   Transport/FlowControl crates/remoteway-transport/src/flow_control.rs.
--   Transport/SshTransport crates/remoteway-transport/src/ssh_transport.rs: the queues of outgoing
--                         messages and the writer's priorities, as a step function on calls and rounds.
--   Compress/Delta        crates/remoteway-compress/src/delta.rs: the plain and the vectorised encoder
--                         and the decoder.
--   Compress/Compressor   crates/remoteway-compress/src/compressor.rs. lz4_flex and zstd are the
--                         parameter Codecs; Lossless says what is relied on: decoding undoes encoding,
--                         and zstd encodes any bytes in memory.
--   Compress/Pipeline     crates/remoteway-compress/src/pipeline.rs.
--   Session/Stripes       stripe_full_frame of crates/remoteway-server/src/pipeline.rs.
--   Session/Payload       serialize_frame_payload of crates/remoteway-server/src/pipeline.rs and
--                         deserialize_frame_payload of crates/remoteway-client/src/pipeline.rs.
--   Session/Server        one round of compress_send_loop, from the drained frame on.
--   Session/Client        one message of recv_decompress_loop, up to the decoded frame.
--   Session/Input         make_input_sender of crates/remoteway-client/src/pipeline.rs, recv_dispatch_loop of
--                         crates/remoteway-server/src/pipeline.rs, dispatch_event of
--                         crates/remoteway-input/src/inject.rs.
--   Session/Handshake     build_handshake of both sides, and the flags.
--   Session/Link          the two loops joined by the sender, the parser and read_loop: what the transport
--                         takes arrives in the order in which it was handed over.
--   Session/Sync          the invariant of the two ends, one frame, and whole sessions.
--   Core/BufferPool       crates/remoteway-core/src/buffer_pool.rs and frame_handle.rs: the free list, with the
--                         atomic operations of all threads as one sequence of steps.
--   Core/Latency          crates/remoteway-core/src/latency.rs: the ring of samples and the percentiles.
--   Encode/Params         crates/remoteway-encode/src/encoder.rs: validate_against, with the capabilities of
--                         crates/remoteway-vulkan/src/video.rs.
--   Encode/Session        the calls of the Vulkan driver that one encode makes, in their order; the driver is
--                         the parameter Device. Encode/Encoder is what h264.rs, h265.rs and av1.rs of
--                         crates/remoteway-encode/src/backends share, Encode/H264, H265 and Av1 what each
--                         tells the driver of a picture, Encode/ParameterSets the sizes of build_sps and
--                         build_seq_header.
--   Capture/DesktopDetect crates/remoteway-capture/src/desktop_detect.rs, detection; Capture/Environment, its
--                         discovery of the session's variables. /proc, loginctl and directories are parameters.
--   Capture/Frame         crates/remoteway-capture/src/backend.rs, and flip_rows and mirror_rows of ext_capture.rs.
--   Capture/ExtCapture    crates/remoteway-capture/src/ext_capture.rs: the source that is captured, and the windows;
--                         Capture/ExtFrame, its session's events and next_frame, over rounds of events.
--   Display/Shm           crates/remoteway-display/src/shm.rs; Display/Surface, surface.rs with the events of the
--                         compositor; Display/Thread, the turns of display_loop of thread.rs.
--   Display/Presentation  crates/remoteway-display/src/presentation.rs: the measured refresh interval.
--   Session/Downscale     downscale_box and downscale_nearest of crates/remoteway-server/src/pipeline.rs.
--   Interpolate           crates/remoteway-interpolate/src/interpolator.rs: the frames, with the interface of a
--                         backend as a record; Interpolate/LinearBlend, the blend on the processor, and
--                         Interpolate/Float, the numbers of f32 and f64 that it computes with, exactly.
--                         Interpolate/Manager is manager.rs, over any backend; Interpolate/Backend
--                         is backend.rs, the choice of one.
--   Prelude               lists, bits, the association list that stands for HashMap.
--   Tests                 the theorems at concrete inputs.
--
-- How the code is read. Bytes and machine integers are natural numbers; a cast that can lose bits has
-- its `% 2 ^ w`, and hypotheses such as Fits and IsU8 give the range of a field or a byte. The host is
-- little-endian and usize has 64 bits. A slice out of bounds is a panic, and a function that can panic
-- returns none, or `panicked` where it also returns errors. Sums of offsets that the sources form in
-- usize from 32-bit fields do not reach 2 ^ 64 and are kept exact. Elapsed times are arguments. Rayon's
-- parallel maps are maps, since each item is computed by itself and the results are collected in order.
--
-- Loops. push_loop and chunk_loop run on fuel; push gives the loop one more than the bytes in the
-- buffer, and each round takes a header of 16 bytes, so it does not run out; the fuel of
-- split_into_chunks is an argument. The other loops are recursion on a list or on the number of rows.
--
-- Not modelled: the other protocols of capture and of input, the Vulkan driver and what is only passed on to it,
-- GPU interpolation, bicubic scaling in floating point, processes, threads and sockets,
-- logging, and the command line.
pub mod Prelude
pub mod Proto
pub mod Transport
pub mod Compress
pub mod Session
pub mod Capture
pub mod Core
pub mod Display
pub mod Encode
pub mod Interpolate
pub mod Tests
