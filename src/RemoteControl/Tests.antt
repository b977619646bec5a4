-- ===== src/RemoteControl/Tests.antt =====
-- One session from its request to its activity, and the theorems at it.
use roomler.Prelude.{
  ◌++◌, ◌<◌, length, Text, read_decimal, ◌≤◌, ℕ, ◌≡◌, refl, true, false, none, some, [], ◌∷◌, inr,
  lookup, remove, insert, modify, arith, text,
}
use roomler.RemoteControl.Models.{
  RemoteAuditEvent, session_requested, linux, awaiting_consent, negotiating, active,
}
use roomler.RemoteControl.Signaling.{Role, ClientMsg}
use roomler.RemoteControl.Audit.{Flusher, receive, receive_keeps}
use roomler.RemoteControl.TurnCreds.{TurnConfig, issue}
use roomler.RemoteControl.TurnCreds.Username.{issue_reads, split_colon}
use roomler.RemoteControl.Session
use roomler.RemoteControl.Session.{phase_name, LiveSession, ConsentSlot, transition, is_terminal}
use roomler.RemoteControl.Hub.State.{
  notify_opt, Hub, Env, ConnectedAgent, new, notify, with_session, audit, agent_tx, try_send,
  read_session,
}
use roomler.RemoteControl.Hub.Lifecycle.{
  SessionRequest, create_session, terminate, deliver_consent, poll_watcher, ready_controller,
}
use roomler.RemoteControl.Hub.Connect.{is_agent_online, connected, register_agent, unregister_agent}
use roomler.RemoteControl.Hub.Dispatch.{DispatchCtx, dispatch, forward_answer}
use roomler.RemoteControl.Hub.Invariant.{Inv}
use roomler.RemoteControl.Hub.Trace.{
  Event, agent_connects, message, watcher_polled, step, Trace, start, next, Granted,
}
use roomler.RemoteControl.Hub.Reach.{Trace-Inv, Trace-consented}
use roomler.RemoteControl.Hub.Calls.{
  CreateOutcome, create_session_outcome, poll-Settles, Settles, dispatch-session_blind,
}
use roomler.RemoteControl.Hub.Reconnect.{stale_teardown}

-- Every channel takes what it is offered.
abbrev env : Env
env = record {
  now = 5000;
  new_id = 100;
  new_tx = 9;
  default_id = 0;
  to_hex = λ id. id ∷ [];
  sign = λ secret name. name;
  takes = λ sent tx msg. true;
  sink_takes = λ kept entry. true;
}

abbrev later : Env
later = record env { new_id = 101; new_tx = 10 }

abbrev controller_ctx : DispatchCtx
controller_ctx = record {
  role = Role.controller;
  user_id = some 42;
  agent_id = none;
  controller_name = some (text "Ann");
  controller_tx = some 8;
}

abbrev agent_ctx : DispatchCtx
agent_ctx = record {
  role = Role.agent;
  user_id = none;
  agent_id = some 7;
  controller_name = none;
  controller_tx = none;
}

abbrev agent_arrives : Event
agent_arrives = agent_connects 7 1 2 linux 1

abbrev asks : Event
asks = message controller_ctx (ClientMsg.session_request 7 3 [] none)

abbrev agrees : Event
agrees = message agent_ctx (ClientMsg.consent 100 true)

abbrev answers : Event
answers = message agent_ctx (ClientMsg.sdp_answer 100 (text "v=0"))

abbrev idle_hub : Hub
idle_hub = step env agent_arrives (new none)

abbrev asked_hub : Hub
asked_hub = step env asks idle_hub

abbrev active_hub : Hub
active_hub =
    step later answers (step later (watcher_polled 100 false) (step later agrees asked_hub))

abbrev asked_session : LiveSession
unfolding Session.new
asked_session = record (Session.new 100 7 1 42 3 8 5000) { phase = awaiting_consent }

abbrev active_session : LiveSession
unfolding Session.new
active_session = record asked_session {
  phase = active;
  started_at = some 5000;
  consent_slot = none;
}

-- Everything that a run of the hub goes through.
ran : ℕ
unfolding step dispatch register_agent create_session terminate deliver_consent poll_watcher
    ready_controller forward_answer transition Session.new new notify with_session audit agent_tx
    try_send read_session notify_opt lookup insert remove modify
ran = 0

asked-Trace : Trace none (asks ∷ agent_arrives ∷ []) asked_hub
unfolding ran
asked-Trace = next env asks (next env agent_arrives start (refl, refl) refl) (refl, refl) tt

active-Trace :
    Trace none (answers ∷ watcher_polled 100 false ∷ agrees ∷ asks ∷ agent_arrives ∷ []) active_hub
unfolding ran
active-Trace =
    next later answers
      (next later (watcher_polled 100 false) (next later agrees asked-Trace (refl, refl) tt)
        (refl, refl) tt)
      (refl, refl) tt

active_reached : lookup 100 active_hub.sessions ≡ some active_session
unfolding ran
active_reached = refl

Trace-Inv_example :
    Inv
      (Granted (answers ∷ watcher_polled 100 false ∷ agrees ∷ asks ∷ agent_arrives ∷ []))
      active_hub
Trace-Inv_example = Trace-Inv active-Trace

Trace-consented_example :
    Granted (answers ∷ watcher_polled 100 false ∷ agrees ∷ asks ∷ agent_arrives ∷ []) 100
unfolding active_session
Trace-consented_example = Trace-consented active-Trace 100 active_session active_reached (inr refl)

abbrev active_agent : ConnectedAgent
active_agent = record (connected 9 7 1 2 linux 1) { active_sessions = 1 }

active_agent_online : lookup 7 active_hub.agents ≡ some active_agent
unfolding ran
active_agent_online = refl

asked_reached : lookup 100 asked_hub.sessions ≡ some asked_session
unfolding ran
asked_reached = refl

abbrev a_request : SessionRequest
a_request = record {
  agent_id = 7;
  controller_user_id = 42;
  controller_name = text "Ann";
  controller_tx = 8;
  permissions = 3;
  browser_caps = [];
  preferred_transport = none;
}

create_session_outcome_example : CreateOutcome env a_request idle_hub
create_session_outcome_example = create_session_outcome env a_request idle_hub

poll-Settles_example : Settles later asked_hub 100 asked_session
unfolding asked_session
poll-Settles_example =
    poll-Settles later asked_hub (Trace-Inv asked-Trace) 100 asked_session asked_reached refl

-- The agent 55 grants consent to a session of the agent 7.
dispatch-session_blind_example :
    dispatch later agent_ctx (ClientMsg.consent 100 true) asked_hub
    ≡ dispatch later
        (record agent_ctx { agent_id = some 55 })
        (ClientMsg.consent 100 true)
        asked_hub
dispatch-session_blind_example =
    dispatch-session_blind later asked_hub agent_ctx (record agent_ctx { agent_id = some 55 })
      (ClientMsg.consent 100 true) refl tt

stale_teardown_example :
    let h' = unregister_agent env 7 (register_agent later 7 1 2 linux 1 active_hub) in
    (is_agent_online 7 h' ≡ false) × (lookup 100 h'.sessions ≡ none)
unfolding active_session
stale_teardown_example =
    stale_teardown later active_hub (Trace-Inv active-Trace) 7 1 2 linux 1 env 100 active_session
      active_reached

abbrev turn : TurnConfig
turn = record { urls = text "turn:host" ∷ []; shared_secret = text "secret"; ttl_secs = 600 }

issue_reads_example :
    let server = issue env.sign 1000 turn (text "42") in
    (username : Text) × (server.username ≡ some username)
    × (server.credential ≡ some (env.sign (text "secret") username))
    × (read_decimal 0 (split_colon username).0 ≡ 1600)
    × ((split_colon username).1 ≡ text "42")
issue_reads_example = issue_reads env.sign 1000 turn (text "42")

abbrev negotiating_hub : Hub
negotiating_hub = step later (watcher_polled 100 false) (step later agrees asked_hub)

abbrev negotiating_session : LiveSession
unfolding Session.new
negotiating_session = record asked_session { phase = negotiating; consent_slot = none }

negotiating_reached : lookup 100 negotiating_hub.sessions ≡ some negotiating_session
unfolding ran
negotiating_reached = refl

controller_reached : negotiating_session.controller_tx ≡ some 8
unfolding negotiating_session
controller_reached = refl

abbrev asked_agent : ConnectedAgent
asked_agent = record (connected 9 7 1 2 linux 1) { active_sessions = 1 }

asked_agent_online : lookup asked_session.agent_id asked_hub.agents ≡ some asked_agent
unfolding ran asked_session
asked_agent_online = refl

abbrev event : ℕ → RemoteAuditEvent
event at = record {
  session_id = 100;
  agent_id = 7;
  tenant_id = 1;
  at = at;
  event = session_requested;
}

receive_keeps_example :
    let f : Flusher = record { buf = event 1 ∷ []; inserted = [] } in
    let (f', rest) = receive true (event 2) (event 3 ∷ []) f in
    (f'.inserted ++ (f'.buf ++ rest) ≡ event 1 ∷ event 2 ∷ event 3 ∷ [])
    × (length f'.buf < 64)
    × (length f'.inserted ≤ 65)
receive_keeps_example =
    receive_keeps (event 2) (event 3 ∷ []) (record { buf = event 1 ∷ []; inserted = [] })
      (omega arith)
