-- ===== src/RemoteControl/Hub/Dispatch.antt =====
-- crates/remote_control/src/hub.rs: forwarding between the peers, and the dispatch of a message.
use roomler.Prelude.{ℕ, Option, none, some, List, [], Text, text}
use roomler.RemoteControl.Models.{
  ObjectId, Error, send_failed, permission_denied, bad_message, session_started, active,
}
use roomler.RemoteControl.Signaling.{Role, ClientMsg, ServerMsg}
use roomler.RemoteControl.Session.{ClientTx, LiveSession, transition}
use roomler.RemoteControl.Hub.State.{
  Env, M, pure, raise, ◌>>=◌, ◌>>◌, try_send, audit, agent_tx, read_session, with_session,
  controller_for, ice_servers,
}
use roomler.RemoteControl.Hub.Lifecycle.{create_session, terminate, deliver_consent}

pub record DispatchCtx : Type 0 where
  pub role : Role
  pub user_id : Option ObjectId
  pub agent_id : Option ObjectId
  pub controller_name : Option Text
  pub controller_tx : Option ClientTx

abbrev pub ok_or : {A : Type 0} → Error → Option A → M A
ok_or e none = raise e
ok_or e (some a) = pure a

abbrev pub name_or_default : Option Text → Text
name_or_default none = []
name_or_default (some name) = name

module _ (env : Env) where
  unfoldable pub forward_offer : ObjectId → Text → M (Unit {0})
  forward_offer session_id sdp = do
    agent_id ← read_session env session_id (λ s. s.agent_id)
    tx ← agent_tx env agent_id
    (λ h.
        try_send env tx
          (ServerMsg.sdp_offer session_id sdp (ice_servers env (controller_for env session_id h) h))
          h)

  unfoldable pub forward_answer : ObjectId → Text → M (Unit {0})
  forward_answer session_id sdp = do
    s ← read_session env session_id (λ s. s)
    tx ← ok_or send_failed s.controller_tx
    (λ h.
        try_send env tx
          (ServerMsg.sdp_answer session_id sdp (ice_servers env s.controller_user_id h)) h)
    with_session env session_id (transition env.to_hex env.now active)
    t ← read_session env session_id (λ s. s)
    audit env t.id t.agent_id t.tenant_id session_started

  -- The peer that did not send the candidate.
  unfoldable pub ice_target : Role → LiveSession → M ClientTx
  ice_target Role.controller s = agent_tx env s.agent_id
  ice_target Role.agent s = ok_or send_failed s.controller_tx

  unfoldable pub forward_ice : Role → ObjectId → Text → M (Unit {0})
  unfolding ice_target
  forward_ice role session_id candidate = do
    s ← read_session env session_id (λ s. s)
    tx ← ice_target role s
    try_send env tx (ServerMsg.ice session_id candidate)

  unfoldable pub request_session :
      DispatchCtx → ObjectId → ℕ → List Text → Option Text → M (Unit {0})
  request_session ctx agent_id permissions browser_caps preferred_transport = do
    user_id ← ok_or (permission_denied (text "no user")) ctx.user_id
    tx ← ok_or send_failed ctx.controller_tx
    _ ← create_session env (record {
      agent_id = agent_id;
      controller_user_id = user_id;
      controller_name = name_or_default ctx.controller_name;
      controller_tx = tx;
      permissions = permissions;
      browser_caps = browser_caps;
      preferred_transport = preferred_transport;
    })
    pure tt

  abbrev pub wrong_role : M (Unit {0})
  wrong_role = raise (bad_message (text "wrong role for message"))

  unfoldable pub dispatch_as : Role → DispatchCtx → ClientMsg → M (Unit {0})
  unfolding request_session
  dispatch_as Role.controller ctx (ClientMsg.session_request a p caps transport) =
      request_session ctx a p caps transport
  dispatch_as Role.controller ctx (ClientMsg.sdp_offer session_id sdp) =
      forward_offer session_id sdp
  dispatch_as Role.agent ctx (ClientMsg.sdp_answer session_id sdp) = forward_answer session_id sdp
  dispatch_as Role.agent ctx (ClientMsg.consent session_id decision) =
      deliver_consent env session_id decision
  dispatch_as role ctx (ClientMsg.ice session_id candidate) = forward_ice role session_id candidate
  dispatch_as role ctx (ClientMsg.terminate session_id reason) = terminate env session_id reason
  dispatch_as role ctx (ClientMsg.ping id) = pure tt
  dispatch_as role ctx (ClientMsg.agent_hello name os version displays caps) = pure tt
  dispatch_as role ctx (ClientMsg.agent_heartbeat rss cpu sessions) = pure tt
  dispatch_as role ctx msg = wrong_role

  unfoldable pub dispatch : DispatchCtx → ClientMsg → M (Unit {0})
  unfolding dispatch_as
  dispatch ctx msg = dispatch_as ctx.role ctx msg
