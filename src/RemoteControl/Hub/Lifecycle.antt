-- ===== src/RemoteControl/Hub/Lifecycle.antt =====
-- crates/remote_control/src/hub.rs: a session from its request to its end.
use roomler.Prelude.{
  ℕ, Bool, true, false, Option, none, some, List, ◌+◌, ◌-◌, Text, lookup, insert, remove, modify,
  leb, if◌then◌else◌, text,
}
use roomler.RemoteControl.Models.{
  ObjectId, EndReason, ok, err, agent_offline, agent_busy, bad_message, session_not_found,
  awaiting_consent, negotiating, closed, session_requested, consent_prompted, consent_granted,
  consent_denied, consent_timed_out, session_ended, user_denied, consent_timeout, error,
}
use roomler.RemoteControl.Signaling.{ServerMsg}
use roomler.RemoteControl.Session
use roomler.RemoteControl.Session.{ClientTx, LiveSession, ConsentSlot, clear_slot, transition}
use roomler.RemoteControl.Hub.State.{
  Hub, ConnectedAgent, Env, M, pure, ◌>>=◌, ◌>>◌, notify, notify_opt, audit, agent_tx, with_session,
  controller_for, ice_servers,
}

-- `DEFAULT_CONSENT_TIMEOUT`, in seconds.
abbrev pub default_consent_timeout : ℕ
default_consent_timeout = 30

pub data ConsentOutcome : Type 0 where
  granted denied timeout : ConsentOutcome

-- What a controller asks for.
pub record SessionRequest : Type 0 where
  pub agent_id : ObjectId
  pub controller_user_id : ObjectId
  pub controller_name : Text
  pub controller_tx : ClientTx
  pub permissions : ℕ
  pub browser_caps : List Text
  pub preferred_transport : Option Text

abbrev pub take_place : ConnectedAgent → ConnectedAgent
take_place a = record a { active_sessions = a.active_sessions + 1 }

-- `saturating_sub(1)`: subtraction stops at zero.
abbrev pub free_place : ConnectedAgent → ConnectedAgent
free_place a = record a { active_sessions = a.active_sessions - 1 }

module _ (env : Env) where
  -- The block that checks the agent's capacity and returns its tenant.
  unfoldable pub reserve : ObjectId → M ObjectId
  reserve agent_id h = elim (lookup agent_id h.agents) [
    | none ↦ (err (agent_offline (env.to_hex agent_id)), h)
    | some a ↦
        if leb a.max_sessions a.active_sessions
        then (err agent_busy, h)
        else (ok a.tenant_id, record h { agents = modify agent_id take_place h.agents })
  ]

  unfoldable pub open_session : LiveSession → M (Unit {0})
  open_session s h = (ok tt, record h { sessions = insert env.new_id s h.sessions })

  -- The task that waits for consent starts with nothing received.
  unfoldable pub spawn_watcher : M (Unit {0})
  spawn_watcher h = (ok tt, record h { channels = insert env.new_id none h.channels })

  unfoldable pub create_session : SessionRequest → M ObjectId
  unfolding reserve open_session spawn_watcher
  create_session r = do
    agent_org ← reserve r.agent_id
    open_session (
        Session.new env.new_id r.agent_id agent_org r.controller_user_id r.permissions
          r.controller_tx env.now)
    notify env r.controller_tx (ServerMsg.session_created env.new_id r.agent_id)
    with_session env env.new_id (transition env.to_hex env.now awaiting_consent)
    tx ← agent_tx env r.agent_id
    notify env tx (
        ServerMsg.request env.new_id r.controller_user_id r.controller_name r.permissions
          default_consent_timeout r.browser_caps r.preferred_transport)
    audit env env.new_id r.agent_id agent_org session_requested
    audit env env.new_id r.agent_id agent_org consent_prompted
    spawn_watcher
    pure env.new_id

  -- `if let Ok(agent_tx) = self.agent_tx(agent_id)`.
  unfoldable pub notify_agent : ObjectId → ServerMsg → M (Unit {0})
  unfolding notify
  notify_agent agent_id msg h = elim (lookup agent_id h.agents) [
    | none ↦ (ok tt, h)
    | some a ↦ notify env a.tx msg h
  ]

  -- The session that `sessions.remove` handed out; its own transition is read by nobody else.
  unfoldable pub finish : ObjectId → EndReason → LiveSession → M (Unit {0})
  unfolding notify_agent
  finish session_id reason s = do
    (λ h. (ok tt, record h { agents = modify s.agent_id free_place h.agents }))
    notify_opt env s.controller_tx (ServerMsg.terminate session_id reason)
    notify_agent s.agent_id (ServerMsg.terminate session_id reason)
    audit env session_id s.agent_id s.tenant_id (session_ended reason)

  unfoldable pub terminate : ObjectId → EndReason → M (Unit {0})
  unfolding finish
  terminate session_id reason h = elim (lookup session_id h.sessions) [
    | none ↦ (ok tt, h)
    | some s ↦
        finish session_id reason (transition env.to_hex env.now closed s).1
          (record h { sessions = remove session_id h.sessions })
  ]

  unfoldable pub ready_controller : ObjectId → Option ClientTx → M (Unit {0})
  ready_controller session_id controller_tx h =
      notify_opt env controller_tx
        (ServerMsg.ready session_id (ice_servers env (controller_for env session_id h) h)) h

  -- The branch for a granted consent: a refused transition ends the session.
  unfoldable pub start_negotiating : ObjectId → LiveSession → M (Unit {0})
  start_negotiating session_id s h =
      let (r, h') = with_session env session_id (transition env.to_hex env.now negotiating) h in
      elim r [
        | ok _ ↦ ready_controller session_id s.controller_tx h'
        | err _ ↦ terminate session_id error h'
      ]

  unfoldable pub act_on : ConsentOutcome → ObjectId → LiveSession → M (Unit {0})
  unfolding start_negotiating
  act_on granted session_id s = do
    audit env session_id s.agent_id s.tenant_id consent_granted
    start_negotiating session_id s
  act_on denied session_id s = do
    audit env session_id s.agent_id s.tenant_id consent_denied
    terminate session_id user_denied
  act_on timeout session_id s = do
    audit env session_id s.agent_id s.tenant_id consent_timed_out
    terminate session_id consent_timeout

  unfoldable pub handle_consent_outcome : ObjectId → ConsentOutcome → Hub → Hub
  unfolding act_on
  handle_consent_outcome session_id outcome h = elim (lookup session_id h.sessions) [
    | none ↦ h
    | some s ↦ (act_on outcome session_id s h).1
  ]

  -- `ConsentSlot::resolve`: the receiver may be gone.
  unfoldable pub resolve : ConsentSlot → Bool → M (Unit {0})
  resolve slot decision h = elim (lookup slot.tx h.channels) [
    | none ↦ (err (bad_message (text "consent waiter dropped")), h)
    | some _ ↦ (ok tt, record h { channels = insert slot.tx (some decision) h.channels })
  ]

  unfoldable pub resolve_taken : Option ConsentSlot → Bool → M (Unit {0})
  unfolding resolve
  resolve_taken none decision h = (err (bad_message (text "consent already delivered")), h)
  resolve_taken (some slot) decision h = resolve slot decision h

  unfoldable pub deliver_consent : ObjectId → Bool → M (Unit {0})
  unfolding resolve_taken
  deliver_consent session_id decision h = elim (lookup session_id h.sessions) [
    | none ↦ (err (session_not_found (env.to_hex session_id)), h)
    | some s ↦
        resolve_taken s.consent_slot decision
          (record h { sessions = modify session_id clear_slot h.sessions })
  ]

  -- `ConsentWaiter::wait`: a value that was sent is read first; a dropped sender or the deadline
  -- is a timeout; otherwise the task still waits.
  unfoldable pub wait : Option Bool → Bool → Bool → Option ConsentOutcome
  wait (some true) sender_alive elapsed = some granted
  wait (some false) sender_alive elapsed = some denied
  wait none sender_alive elapsed =
      if elapsed then some timeout else if sender_alive then none else some timeout

  -- The slot of a session is dropped with it, or when a decision takes it.
  unfoldable pub sender_alive : ObjectId → Hub → Bool
  sender_alive session_id h = elim (lookup session_id h.sessions) [
    | none ↦ false
    | some s ↦ elim s.consent_slot [ none ↦ false | some slot ↦ true ]
  ]

  -- One poll of the spawned task; `elapsed` says that its deadline has passed. The task ends once it
  -- has an outcome, and its receiver goes with it.
  unfoldable pub poll_watcher : ObjectId → Bool → Hub → Hub
  unfolding wait sender_alive handle_consent_outcome
  poll_watcher session_id elapsed h = elim (lookup session_id h.channels) [
    | none ↦ h
    | some sent ↦ elim (wait sent (sender_alive session_id h) elapsed) [
      | none ↦ h
      | some outcome ↦
          handle_consent_outcome session_id outcome
            (record h { channels = remove session_id h.channels })
    ]
  ]
