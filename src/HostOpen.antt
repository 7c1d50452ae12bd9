-- ===== src/HostOpen.antt =====
-- guest/compositor/host_open.c: local programs ask the host to open a URL or a file.
pub mod State
pub mod Request
pub mod Io
pub mod Tokens
pub mod Valid
pub mod Reads
pub mod Handlers
pub mod Answers
pub mod Accepting
pub mod Reachable
pub mod Routing
mod Tests
