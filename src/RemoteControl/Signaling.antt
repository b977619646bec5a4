-- ===== src/RemoteControl/Signaling.antt =====
-- crates/remote_control/src/signaling.rs: the messages of the `rc:*` protocol.
-- An SDP, an ICE candidate (a JSON value) and a name are texts that the server only forwards.
use roomler.Prelude.{ℕ, Bool, Option, List, Text}
use roomler.RemoteControl.Models.{ObjectId, OsKind, DisplayInfo, AgentCaps, Float32, EndReason}

pub data Role : Type 0 where
  agent controller : Role

pub record IceServer : Type 0 where
  pub urls : List Text
  pub username : Option Text
  pub credential : Option Text

pub data ClientMsg : Type 0 where
  agent_hello :
      (machine_name : Text) (os : OsKind) (agent_version : Text) (displays : List DisplayInfo)
      (caps : AgentCaps)
      → ClientMsg
  agent_heartbeat : (rss_mb : ℕ) (cpu_pct : Float32) (active_sessions : ℕ) → ClientMsg
  sdp_answer : (session_id : ObjectId) (sdp : Text) → ClientMsg
  consent : (session_id : ObjectId) (granted : Bool) → ClientMsg
  session_request :
      (agent_id : ObjectId) (permissions : ℕ) (browser_caps : List Text)
      (preferred_transport : Option Text)
      → ClientMsg
  sdp_offer : (session_id : ObjectId) (sdp : Text) → ClientMsg
  ice : (session_id : ObjectId) (candidate : Text) → ClientMsg
  terminate : (session_id : ObjectId) (reason : EndReason) → ClientMsg
  ping : (id : ℕ) → ClientMsg

pub data ServerMsg : Type 0 where
  session_created : (session_id agent_id : ObjectId) → ServerMsg
  request :
      (session_id controller_user_id : ObjectId) (controller_name : Text) (permissions : ℕ)
      (consent_timeout_secs : ℕ) (browser_caps : List Text) (preferred_transport : Option Text)
      → ServerMsg
  sdp_offer : (session_id : ObjectId) (sdp : Text) (ice_servers : List IceServer) → ServerMsg
  sdp_answer : (session_id : ObjectId) (sdp : Text) (ice_servers : List IceServer) → ServerMsg
  ice : (session_id : ObjectId) (candidate : Text) → ServerMsg
  ready : (session_id : ObjectId) (ice_servers : List IceServer) → ServerMsg
  terminate : (session_id : ObjectId) (reason : EndReason) → ServerMsg
  pong : (id : ℕ) → ServerMsg
  error : (session_id : Option ObjectId) (code message : Text) → ServerMsg
