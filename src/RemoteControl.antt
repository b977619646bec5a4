-- ===== src/RemoteControl.antt =====
-- The crate crates/remote_control: signaling between agents and controllers.
pub mod Models
pub mod Signaling
pub mod Session
pub mod TurnCreds
pub mod Hub
pub mod Audit
mod Tests
