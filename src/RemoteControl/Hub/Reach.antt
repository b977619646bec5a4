-- ===== src/RemoteControl/Hub/Reach.antt =====
-- What holds of the hub after any orderly sequence of calls.
use roomler.Prelude.{
  ℕ, ◌≡◌, refl, Option, none, some, List, ◌⊎◌, inl, inr, lookup, Option-cases, arith, Text,
}
use roomler.RemoteControl.Models.{err, ok, Result, ObjectId, OsKind, negotiating, active}
use roomler.RemoteControl.Signaling.{Role, ClientMsg}
use roomler.RemoteControl.Session.{LiveSession}
use roomler.RemoteControl.TurnCreds.{TurnConfig}
use roomler.RemoteControl.Hub.State.{pure, continue, Hub, Env, new}
use roomler.RemoteControl.Hub.Lifecycle.{SessionRequest, create_session}
use roomler.RemoteControl.Hub.Connect.{register_agent, register_controller}
use roomler.RemoteControl.Hub.Dispatch.{
  name_or_default, DispatchCtx, dispatch, dispatch_as, request_session,
}
use roomler.RemoteControl.Hub.Counted.{Counted-register, Online-register, none_left}
use roomler.RemoteControl.Hub.Effects.{forward_offer-SameRegistry, forward_ice-SameRegistry}
use roomler.RemoteControl.Hub.Invariant.{Inv, Inv-SameRegistry, terminate-Inv, create_session-Inv}
use roomler.RemoteControl.Hub.Preserve.{
  Holds-mono, deliver_consent-Inv, forward_answer-Inv, poll_watcher-Inv,
}
use roomler.RemoteControl.Hub.Leave.{unregister_agent-Inv, unregister_controller-Inv}
use roomler.RemoteControl.Hub.Trace.{
  Event, agent_connects, agent_leaves, controller_connects, controller_leaves, message,
  watcher_polled, step, IsOrderly, IsFresh, Trace, start, next, GrantsBy, Grants, Granted,
}

new-Inv : {G : ObjectId → Type 0} (turn : Option TurnConfig) → Inv G (new turn)
unfolding new lookup
new-Inv turn = record {
  agents_counted = record { distinct = tt; counted = λ k a e. cc; capacity = λ k a e. cc };
  sessions_online = λ k s e. cc;
  consented = record { sound = λ k s e. cc; honest = λ k e. cc };
}

discard_state : {A : Type 0} (r : Result A) (h : Hub) → (continue r (λ _. pure tt) h).1 ≡ h
discard_state (ok a) h = refl
discard_state (err e) h = refl

module _ {G : ObjectId → Type 0} (env : Env) (h : Hub) (v : Inv G h) where
  register_agent-Inv :
      (k tenant_id owner_user_id : ObjectId) (os : OsKind) (max_sessions : ℕ)
      → lookup k h.agents ≡ none
      → Inv G (register_agent env k tenant_id owner_user_id os max_sessions h)
  unfolding register_agent
  register_agent-Inv k tenant_id owner_user_id os max_sessions gone = record {
    agents_counted =
        Counted-register v.agents_counted k _ refl
          (none_left h.agents h.sessions v.sessions_online k gone v.agents_counted.distinct);
    sessions_online = Online-register h.agents h.sessions v.sessions_online k _;
    consented = v.consented;
  }

  request_session-Inv :
      (ctx : DispatchCtx) (agent_id : ObjectId) (permissions : ℕ) (caps : List Text)
      (transport : Option Text)
      → IsFresh env h
      → Inv G (request_session env ctx agent_id permissions caps transport h).1
  unfolding request_session
  request_session-Inv ctx agent_id permissions caps transport fresh =
      elim (Option-cases ctx.user_id) [
        | inl nobody ↦ rw (nobody, request_session) v
        | inr (user_id, u) ↦ elim (Option-cases ctx.controller_tx) [
          | inl unreachable ↦ rw (u, unreachable, request_session) v
          | inr (tx, t) ↦
              rw (u, t, request_session)
                (let r : SessionRequest = record {
                  agent_id = agent_id;
                  controller_user_id = user_id;
                  controller_name = name_or_default ctx.controller_name;
                  controller_tx = tx;
                  permissions = permissions;
                  browser_caps = caps;
                  preferred_transport = transport;
                } in
                  rw (discard_state (create_session env r h).0 (create_session env r h).1)
                    (create_session-Inv h v env r fresh))
        ]
      ]

  -- A message keeps the invariant; consent that it grants is added to what was granted.
  dispatch_as-Inv :
      {G' : ObjectId → Type 0} (role : Role) (ctx : DispatchCtx) (msg : ClientMsg)
      → ((k : ObjectId) → G k → G' k)
      → ((k : ObjectId) → GrantsBy role k msg → G' k)
      → IsFresh env h
      → Inv G' (dispatch_as env role ctx msg h).1
  unfolding dispatch_as
  dispatch_as-Inv Role.controller ctx (ClientMsg.session_request a p caps transport) grow given
        fresh =
      Holds-mono grow (request_session-Inv ctx a p caps transport fresh)
  dispatch_as-Inv Role.agent ctx (ClientMsg.session_request a p caps transport) grow given fresh =
      Holds-mono grow v
  dispatch_as-Inv Role.controller ctx (ClientMsg.sdp_offer id sdp) grow given fresh =
      Holds-mono grow (Inv-SameRegistry h v _ (forward_offer-SameRegistry env id h sdp))
  dispatch_as-Inv Role.agent ctx (ClientMsg.sdp_offer id sdp) grow given fresh = Holds-mono grow v
  dispatch_as-Inv Role.agent ctx (ClientMsg.sdp_answer id sdp) grow given fresh =
      Holds-mono grow (forward_answer-Inv env id h v sdp)
  dispatch_as-Inv Role.controller ctx (ClientMsg.sdp_answer id sdp) grow given fresh =
      Holds-mono grow v
  dispatch_as-Inv Role.agent ctx (ClientMsg.consent id decision) grow given fresh =
      deliver_consent-Inv env id h v decision grow (λ yes_given. given id (refl, yes_given))
  dispatch_as-Inv Role.controller ctx (ClientMsg.consent id decision) grow given fresh =
      Holds-mono grow v
  dispatch_as-Inv Role.agent ctx (ClientMsg.ice id candidate) grow given fresh =
      Holds-mono grow
        (Inv-SameRegistry h v _ (forward_ice-SameRegistry env id h Role.agent candidate))
  dispatch_as-Inv Role.controller ctx (ClientMsg.ice id candidate) grow given fresh =
      Holds-mono grow
        (Inv-SameRegistry h v _ (forward_ice-SameRegistry env id h Role.controller candidate))
  dispatch_as-Inv Role.agent ctx (ClientMsg.terminate id reason) grow given fresh =
      Holds-mono grow (terminate-Inv h v env id reason)
  dispatch_as-Inv Role.controller ctx (ClientMsg.terminate id reason) grow given fresh =
      Holds-mono grow (terminate-Inv h v env id reason)
  dispatch_as-Inv Role.agent ctx _ grow given fresh = Holds-mono grow v
  dispatch_as-Inv Role.controller ctx _ grow given fresh = Holds-mono grow v

  step-Inv :
      {G' : ObjectId → Type 0} (event : Event)
      → ((k : ObjectId) → G k → G' k)
      → ((k : ObjectId) → Grants k event → G' k)
      → IsFresh env h
      → IsOrderly event h
      → Inv G' (step env event h)
  unfolding step dispatch register_controller
  step-Inv (agent_connects a t o os max) grow given fresh orderly =
      Holds-mono grow (register_agent-Inv a t o os max orderly)
  step-Inv (agent_leaves a) grow given fresh orderly =
      Holds-mono grow (unregister_agent-Inv env h v a)
  step-Inv (controller_connects u) grow given fresh orderly = Holds-mono grow v
  step-Inv (controller_leaves u tx) grow given fresh orderly =
      Holds-mono grow (unregister_controller-Inv env h v u tx)
  step-Inv (message ctx msg) grow given fresh orderly =
      dispatch_as-Inv ctx.role ctx msg grow given fresh
  step-Inv (watcher_polled id elapsed) grow given fresh orderly =
      Holds-mono grow (poll_watcher-Inv env id h v elapsed)

-- After any sequence of calls in which an agent connects only while it is not connected and new
-- identifiers are unused, each connected agent counts its live sessions and stays within its
-- capacity, the agent of a live session is connected, a session that awaits consent has a task
-- waiting for it, and a session past that phase was granted consent.
pub Trace-Inv :
    {turn : Option TurnConfig} {events : List Event} {h : Hub}
    → Trace turn events h
    → Inv (Granted events) h
Trace-Inv start = new-Inv _
Trace-Inv (next {h} env event t fresh orderly) =
    step-Inv env h (Trace-Inv t) event (λ k g. inr g) (λ k g. inl g) fresh orderly

-- After any sequence of calls in which an agent connects only while it is not connected and new
-- identifiers are unused, no session negotiates or is active unless an agent's message granted it
-- consent before.
pub Trace-consented :
    {turn : Option TurnConfig} {events : List Event} {h : Hub} (t : Trace turn events h)
    (id : ObjectId) (s : LiveSession)
    → lookup id h.sessions ≡ some s
    → (s.phase ≡ negotiating) ⊎ (s.phase ≡ active)
    → Granted events id
Trace-consented {h} t id s at past = ground (arith, (Trace-Inv t).consented.sound id s at)
