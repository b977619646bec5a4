-- ===== src/Agent/Files.antt =====
-- agents/roomler-agent/src/files.rs, and the messages of the `files` channel that peer.rs answers
-- with it: files that a controller uploads to the host.
pub mod Names
pub mod Handler
pub mod Transfers
pub mod Uploads
