-- ===== src/RemoteControl/Hub/Connect.antt =====
-- crates/remote_control/src/hub.rs: agents and controllers that connect and disconnect.
use roomler.Prelude.{
  ℕ, Bool, true, false, not, Option, none, some, List, [], ◌∷◌, ◌++◌, lookup, insert, remove,
  modify, keys_where, retain, length, ◌==◌, map,
}
use roomler.RemoteControl.Models.{ObjectId, OsKind, EndReason, agent_disconnect, controller_hangup}
use roomler.RemoteControl.Session.{ClientTx, LiveSession}
use roomler.RemoteControl.Hub.State.{Hub, ConnectedAgent, Env}
use roomler.RemoteControl.Hub.Lifecycle.{terminate}

abbrev pub is_agent : ObjectId → LiveSession → Bool
is_agent agent_id s = s.agent_id == agent_id

abbrev pub is_controller : ObjectId → LiveSession → Bool
is_controller user_id s = s.controller_user_id == user_id

abbrev pub or_default : Option (List ClientTx) → List ClientTx
or_default none = []
or_default (some l) = l

-- The entry of an agent that has just connected.
abbrev pub connected : ClientTx → ObjectId → ObjectId → ObjectId → OsKind → ℕ → ConnectedAgent
connected tx agent_id tenant_id owner_user_id os max_sessions = record {
  agent_id = agent_id;
  tenant_id = tenant_id;
  owner_user_id = owner_user_id;
  os = os;
  tx = tx;
  active_sessions = 0;
  max_sessions = max_sessions;
}

module _ (env : Env) where
  unfoldable pub register_agent : ObjectId → ObjectId → ObjectId → OsKind → ℕ → Hub → Hub
  register_agent agent_id tenant_id owner_user_id os max_sessions h = record h {
    agents =
        insert agent_id (connected env.new_tx agent_id tenant_id owner_user_id os max_sessions)
          h.agents;
  }

  -- The loops `for sid in dead` and `for session_id in orphaned`.
  unfoldable pub terminate_all : EndReason → List ObjectId → Hub → Hub
  terminate_all reason [] h = h
  terminate_all reason (session_id ∷ rest) h =
      terminate_all reason rest (terminate env session_id reason h).1

  unfoldable pub unregister_agent : ObjectId → Hub → Hub
  unregister_agent agent_id h = elim (lookup agent_id h.agents) [
    | none ↦ h
    | some _ ↦
        terminate_all agent_disconnect (keys_where (is_agent agent_id) h.sessions)
          (record h { agents = remove agent_id h.agents })
  ]

  unfoldable pub register_controller : ObjectId → Hub → ClientTx × Hub
  register_controller user_id h = (
    env.new_tx,
    record h {
      controllers =
          insert user_id (or_default (lookup user_id h.controllers) ++ env.new_tx ∷ [])
            h.controllers;
    },
  )

  unfoldable pub unregister_controller : ObjectId → ClientTx → Hub → Hub
  unregister_controller user_id tx h =
      terminate_all controller_hangup (keys_where (is_controller user_id) h.sessions)
        (record h { controllers = modify user_id (retain (λ t. not (t == tx))) h.controllers })

unfoldable pub online_agents : Hub → List ObjectId
online_agents h = map (λ (k, a). k) h.agents

unfoldable pub is_agent_online : ObjectId → Hub → Bool
is_agent_online agent_id h = elim (lookup agent_id h.agents) [ none ↦ false | some a ↦ true ]

unfoldable pub live_sessions : Hub → ℕ
live_sessions h = length h.sessions
