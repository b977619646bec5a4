-- ===== src/Server/Remote.antt =====
-- crates/api/src/ws/remote_control.rs: the remote-control messages of browsers and of agents.
use roomler.Prelude.{true, false, ℕ, Bool, Option, none, some, ◌++◌, Text, text, if◌then◌else◌, ltb}
use roomler.RemoteControl.Models.{
  ObjectId, OsKind, Error, agent_offline, agent_not_found, session_not_found, bad_phase,
  consent_denied_error, consent_timeout_error, permission_denied, bad_message, agent_busy,
  send_failed, Result, ok, err,
}
use roomler.RemoteControl.Signaling.{ClientMsg, Role, ServerMsg}
use roomler.RemoteControl.Session.{ClientTx}
use roomler.RemoteControl.Hub.State.{Hub, notify}
use roomler.RemoteControl.Hub.Connect.{register_agent, unregister_agent}
use roomler.RemoteControl.Hub.Dispatch.{DispatchCtx, dispatch}
use roomler.Server.{Server, World}

unfoldable pub error_code : Error → Text
error_code (agent_offline agent) = text "agent_offline"
error_code (agent_not_found agent) = text "agent_not_found"
error_code agent_busy = text "agent_busy"
error_code (session_not_found session) = text "session_not_found"
error_code (bad_phase session phase) = text "bad_phase"
error_code consent_denied_error = text "consent_denied"
error_code consent_timeout_error = text "consent_timeout"
error_code (permission_denied reason) = text "permission_denied"
error_code (bad_message reason) = text "bad_message"
error_code send_failed = text "send_failed"

unfoldable pub error_session_id : (Text → Option ObjectId) → Error → Option ObjectId
error_session_id parse (session_not_found hex) = parse hex
error_session_id parse (bad_phase hex phase) = parse hex
error_session_id parse e = none

-- `Error::to_string`.
unfoldable pub error_message : Error → Text
error_message (agent_offline agent) = text "agent " ++ agent ++ text " not online"
error_message (agent_not_found agent) = text "agent " ++ agent ++ text " not found"
error_message agent_busy = text "agent capacity exceeded"
error_message (session_not_found session) = text "session " ++ session ++ text " not found"
error_message (bad_phase session phase) =
    text "session " ++ session ++ text " in wrong phase: " ++ phase
error_message consent_denied_error = text "consent denied by user"
error_message consent_timeout_error = text "consent timed out"
error_message (permission_denied reason) = text "permission denied: " ++ reason
error_message (bad_message reason) = text "invalid signaling message: " ++ reason
error_message send_failed = text "ws send failed"

abbrev pub set_hub : Hub → Server → Server
set_hub hub s = record s { hub = hub }

abbrev pub controller_ctx : ObjectId → Text → ClientTx → DispatchCtx
controller_ctx user_id name tx = record {
  role = Role.controller;
  user_id = some user_id;
  agent_id = none;
  controller_name = some name;
  controller_tx = some tx;
}

abbrev pub agent_ctx : ObjectId → DispatchCtx
agent_ctx agent_id = record {
  role = Role.agent;
  user_id = none;
  agent_id = some agent_id;
  controller_name = none;
  controller_tx = none;
}

module _ (w : World) where
  -- The error is sent to the tab that asked, if its channel takes it.
  abbrev pub surface : ClientTx → Result (Unit {0}) → Hub → Hub
  surface tx (ok _) h = h
  surface tx (err e) h =
      (notify w.env tx
        (ServerMsg.error (error_session_id w.parse_hex e) (error_code e) (error_message e)) h).1

  -- A text that is no remote-control message is not handled here.
  unfoldable pub dispatch_controller_rc :
      ObjectId → Text → ClientTx → Option ClientMsg → Hub → Bool × Hub
  dispatch_controller_rc user_id name tx none h = (false, h)
  dispatch_controller_rc user_id name tx (some msg) h =
      let (answer, h') = dispatch w.env (controller_ctx user_id name tx) msg h in
      (true, surface tx answer h')

  -- `max(1)` of what the agent announces.
  unfoldable pub agent_opened : (agent_id tenant_id owner : ObjectId) → OsKind → ℕ → Server → Server
  agent_opened agent_id tenant_id owner os max_sessions s =
      set_hub
        (register_agent w.env agent_id tenant_id owner os
          (if ltb max_sessions 1 then 1 else max_sessions) s.hub)
        s

  unfoldable pub agent_message : ObjectId → ClientMsg → Server → Server
  agent_message agent_id msg s = set_hub (dispatch w.env (agent_ctx agent_id) msg s.hub).1 s

  unfoldable pub agent_closed : ObjectId → Server → Server
  agent_closed agent_id s = set_hub (unregister_agent w.env agent_id s.hub) s
