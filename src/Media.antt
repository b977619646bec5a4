-- ===== src/Media.antt =====
-- crates/services/src/media: the rooms of the media server.
pub mod Rooms
mod Tests
