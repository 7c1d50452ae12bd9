-- ===== src/FileSession.antt =====
-- common/file_rpc/np_file_session.c: one long-lived connection that carries many streams.
mod Tests
pub mod State
pub mod Frame
pub mod Streams
pub mod Dispatch
pub mod Calls
pub mod Close
pub mod Reader
pub mod Transfer
pub mod Invariant
pub mod System
