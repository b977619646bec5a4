-- ===== src/Agent.antt =====
-- agents/roomler-agent: what runs on the controlled host.
pub mod Config
pub mod Files
pub mod Updater
pub mod Watchdog
pub mod Codecs
pub mod Signaling
mod Tests
