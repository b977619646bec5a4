-- ===== src/RemoteControl/Hub/Effects.antt =====
-- What the hub's operations write, as equations on the registry. Messages that are sent change the
-- history `sent` alone.
use roomler.Prelude.{
  ◌≢◌, Option, Bool, ◌⊎◌, modify-insert, remove, Text, ◌<◌, ◌≡◌, none, some, lookup, lookup-insert,
  lookup-modify, insert, modify, arith, ==-refl,
}
use roomler.RemoteControl.Models.{
  session_not_found, active, negotiating, err, EndReason, Error, ObjectId, ok, awaiting_consent,
}
use roomler.RemoteControl.Session
use roomler.RemoteControl.Session.{clear_slot, ConsentSlot, LiveSession, transition}
use roomler.RemoteControl.Hub.State.{
  notify_opt, Hub, Env, ConnectedAgent, notify, audit, with_session, agent_tx,
}
use roomler.RemoteControl.Hub.Dispatch.{forward_answer, forward_offer, forward_ice}
use roomler.RemoteControl.Signaling.{Role}
use roomler.RemoteControl.Hub.State.{read_session, try_send}
use roomler.RemoteControl.Hub.Lifecycle.{
  granted, ready_controller, handle_consent_outcome, sender_alive, wait, ConsentOutcome,
  poll_watcher, deliver_consent, terminate, free_place, reserve, SessionRequest, create_session,
  take_place,
}

-- The session that a request opens, as the caller finds it afterwards.
abbrev pub opened : Env → SessionRequest → ObjectId → LiveSession
opened env r tenant_id =
    record (Session.new env.new_id r.agent_id tenant_id r.controller_user_id r.permissions
      r.controller_tx env.now) { phase = awaiting_consent }

-- Nothing but the histories and the controllers' list changes.
pub record SameRegistry (h h' : Hub) : Type 0 where
  pub agents : h'.agents ≡ h.agents
  pub sessions : h'.sessions ≡ h.sessions
  pub channels : h'.channels ≡ h.channels

pub record Creates (env : Env) (r : SessionRequest) (a : ConnectedAgent) (h h' : Hub) : Type 0 where
  pub agents : h'.agents ≡ modify r.agent_id take_place h.agents
  pub sessions : h'.sessions ≡ insert env.new_id (opened env r a.tenant_id) h.sessions
  pub channels : h'.channels ≡ insert env.new_id none h.channels

module _ (env : Env) (r : SessionRequest) (h : Hub) (a : ConnectedAgent)
    (online : lookup r.agent_id h.agents ≡ some a) where
  pub create_session_lem :
      a.active_sessions < a.max_sessions
      → ((create_session env r h).0 ≡ ok env.new_id) × Creates env r a h (create_session env r h).1
  unfolding create_session transition Session.new notify audit with_session agent_tx
  create_session_lem room = ground (
    arith,
    ==-refl env.new_id,
    ==-refl r.agent_id,
    lookup-insert env.new_id env.new_id fresh_session h.sessions,
    lookup-modify r.agent_id r.agent_id take_place h.agents,
    modify-insert env.new_id
        (λ (t : LiveSession). (transition env.to_hex env.now awaiting_consent t).1) fresh_session
        h.sessions,
  )
    where
      fresh_session : LiveSession
      fresh_session =
          Session.new env.new_id r.agent_id a.tenant_id r.controller_user_id r.permissions
            r.controller_tx env.now

pub record Terminates (env : Env) (id : ObjectId) (s : LiveSession) (h h' : Hub) : Type 0 where
  pub agents : h'.agents ≡ modify s.agent_id free_place h.agents
  pub sessions : h'.sessions ≡ remove id h.sessions
  pub channels : h'.channels ≡ h.channels

-- A request that is refused changes nothing.
pub create_session_refused :
    (env : Env) (h : Hub) (r : SessionRequest) (e : Error)
    → (reserve env r.agent_id h).0 ≡ err e
    → create_session env r h ≡ (err e, h)
unfolding create_session
create_session_refused env h r e refused = ground arith

module _ (env : Env) (id : ObjectId) (h : Hub) where
  pub terminate_lem :
      (reason : EndReason) (s : LiveSession)
      → lookup id h.sessions ≡ some s
      → ((terminate env id reason h).0 ≡ ok tt)
        × Terminates env id s h (terminate env id reason h).1
  unfolding terminate notify_opt audit transition
  terminate_lem reason s at = ground arith

  pub terminate_gone :
      (reason : EndReason) → lookup id h.sessions ≡ none → terminate env id reason h ≡ (ok tt, h)
  unfolding terminate
  terminate_gone reason gone = ground arith

  pub forward_offer-SameRegistry : (sdp : Text) → SameRegistry h (forward_offer env id sdp h).1
  unfolding forward_offer read_session agent_tx try_send
  forward_offer-SameRegistry sdp = ground arith

  pub forward_ice-SameRegistry :
      (role : Role) (candidate : Text) → SameRegistry h (forward_ice env role id candidate h).1
  unfolding forward_ice read_session agent_tx try_send
  forward_ice-SameRegistry Role.agent candidate = ground arith
  forward_ice-SameRegistry Role.controller candidate = ground arith

  pub deliver_again :
      (decision : Bool) (s : LiveSession)
      → lookup id h.sessions ≡ some s
      → s.consent_slot ≡ none
      → (deliver_consent env id decision h).1
        ≡ record h { sessions = modify id clear_slot h.sessions }
  unfolding deliver_consent
  deliver_again decision s at taken = ground arith

  pub deliver_first :
      (decision : Bool) (s : LiveSession) (slot : ConsentSlot)
      → lookup id h.sessions ≡ some s
      → s.consent_slot ≡ some slot
      → lookup slot.tx h.channels ≡ some none
      → deliver_consent env id decision h ≡ (
        ok tt,
        record h {
          sessions = modify id clear_slot h.sessions;
          channels = insert slot.tx (some decision) h.channels;
        },
      )
  unfolding deliver_consent
  deliver_first decision s slot at here waiting = ground arith

  pub deliver_gone :
      (decision : Bool)
      → lookup id h.sessions ≡ none
      → deliver_consent env id decision h ≡ (err (session_not_found (env.to_hex id)), h)
  unfolding deliver_consent
  deliver_gone decision gone = ground arith

  -- An answer touches the registry by one transition at most.
  pub forward_answer_lem :
      (sdp : Text)
      → let h' = (forward_answer env id sdp h).1 in
        SameRegistry h h'
        ⊎ ((h'.agents ≡ h.agents)
            × (h'.sessions ≡ modify id (λ t. (transition env.to_hex env.now active t).1) h.sessions)
            × (h'.channels ≡ h.channels))
  unfolding forward_answer read_session try_send with_session audit
  forward_answer_lem sdp = ground arith

pub record Drops (id : ObjectId) (s : LiveSession) (h h' : Hub) : Type 0 where
  pub agents : h'.agents ≡ modify s.agent_id free_place h.agents
  pub sessions : h'.sessions ≡ remove id h.sessions
  pub channels : h'.channels ≡ remove id h.channels

pub record Negotiates (env : Env) (id : ObjectId) (h h' : Hub) : Type 0 where
  pub agents : h'.agents ≡ h.agents
  pub sessions :
      h'.sessions ≡ modify id (λ t. (transition env.to_hex env.now negotiating t).1) h.sessions
  pub channels : h'.channels ≡ remove id h.channels

module _ (env : Env) (id : ObjectId) (h : Hub) (elapsed : Bool) where
  pub poll_none : lookup id h.channels ≡ none → poll_watcher env id elapsed h ≡ h
  unfolding poll_watcher
  poll_none gone = ground arith

  pub poll_waits :
      (sent : Option Bool)
      → lookup id h.channels ≡ some sent
      → wait env sent (sender_alive env id h) elapsed ≡ none
      → poll_watcher env id elapsed h ≡ h
  unfolding poll_watcher
  poll_waits sent at still = ground arith

  module _ (sent : Option Bool) (outcome : ConsentOutcome) (at : lookup id h.channels ≡ some sent)
      (decided : wait env sent (sender_alive env id h) elapsed ≡ some outcome) where
    poll_lem :
        poll_watcher env id elapsed h
        ≡ handle_consent_outcome env id outcome (record h { channels = remove id h.channels })
    unfolding poll_watcher
    poll_lem = ground arith

    pub poll_sessionless :
        lookup id h.sessions ≡ none
        → poll_watcher env id elapsed h ≡ record h { channels = remove id h.channels }
    unfolding handle_consent_outcome
    poll_sessionless gone = rw poll_lem (ground arith)

    pub poll-Drops :
        (s : LiveSession)
        → lookup id h.sessions ≡ some s
        → outcome ≢ granted
        → Drops id s h (poll_watcher env id elapsed h)
    unfolding handle_consent_outcome terminate notify_opt audit transition
    poll-Drops s there refused = rw poll_lem (ground arith)

    pub poll-Negotiates :
        (s : LiveSession)
        → lookup id h.sessions ≡ some s
        → outcome ≡ granted
        → s.phase ≡ awaiting_consent
        → Negotiates env id h (poll_watcher env id elapsed h)
    unfolding handle_consent_outcome with_session ready_controller notify_opt audit transition
    poll-Negotiates s there given waiting = rw poll_lem (ground arith)
