-- ===== src/RemoteControl/Hub.antt =====
-- crates/remote_control/src/hub.rs.
pub mod State
pub mod Lifecycle
pub mod Connect
pub mod Dispatch
pub mod Effects
pub mod Counted
pub mod Consented
pub mod Trace
pub mod Invariant
pub mod Preserve
pub mod Leave
pub mod Reach
pub mod Calls
pub mod Reconnect
pub mod Forward
