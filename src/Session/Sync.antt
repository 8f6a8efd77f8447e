-- ===== src/Session/Sync.antt =====
-- The two ends kept in step: the client shows the frames that the server sends.
pub mod Frame
pub mod Base
pub mod Round
pub mod History
