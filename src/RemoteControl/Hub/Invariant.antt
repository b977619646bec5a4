-- ===== src/RemoteControl/Hub/Invariant.antt =====
-- What holds of the hub between two calls, and the operations that keep it.
use roomler.Prelude.{
  Text, ◌≡◌, ◌<◌, refl, Bool, Option, some, inl, inr, Map, lookup, Option-cases, Bool-cases, arith,
  leb,
}
use roomler.RemoteControl.Models.{
  agent_offline, agent_busy, ObjectId, EndReason, SessionPhase, DateTime,
}
use roomler.RemoteControl.Session.{LiveSession, transition}
use roomler.RemoteControl.Session
use roomler.RemoteControl.Hub.State.{Hub, Env, ConnectedAgent}
use roomler.RemoteControl.Hub.Counted.{
  Online-open, Counted, Online, Counted-open, Counted-close, Online-close,
}
use roomler.RemoteControl.Hub.Consented.{Consented, Consented-close, Consented-open}
use roomler.RemoteControl.Hub.Effects.{
  SameRegistry, terminate_lem, terminate_gone, create_session_lem, create_session_refused, opened,
}
use roomler.RemoteControl.Hub.Lifecycle.{SessionRequest, create_session, terminate, reserve}
use roomler.RemoteControl.Hub.Trace.{IsFresh}

-- `G` says of which sessions the agent's consent has been delivered.
pub record Holds (G : ObjectId → Type 0) (agents : Map ConnectedAgent) (sessions : Map LiveSession)
    (channels : Map (Option Bool)) : Type 0 where
  pub agents_counted : Counted agents sessions
  pub sessions_online : Online agents sessions
  pub consented : Consented G sessions channels

abbrev pub Inv : (ObjectId → Type 0) → Hub → Type 0
Inv G h = Holds G h.agents h.sessions h.channels

pub agent_id-transition :
    (to_hex : ObjectId → Text) (now : DateTime) (to : SessionPhase) (s : LiveSession)
    → (transition to_hex now to s).1.agent_id ≡ s.agent_id
unfolding transition
agent_id-transition to_hex now to s = ground arith

module _ {G : ObjectId → Type 0} (h : Hub) (v : Inv G h) where
  pub Inv-SameRegistry : (h' : Hub) → SameRegistry h h' → Inv G h'
  Inv-SameRegistry h' same = rw (same.agents, same.sessions, same.channels) v

  pub terminate-Inv :
      (env : Env) (id : ObjectId) (reason : EndReason) → Inv G (terminate env id reason h).1
  terminate-Inv env id reason = elim (Option-cases (lookup id h.sessions)) [
    | inl gone ↦ rw (terminate_gone env id h reason gone) v
    | inr (s, at) ↦
        let (_, t) = terminate_lem env id h reason s at in
        rw (t.agents, t.sessions, t.channels)
          (record {
            agents_counted = Counted-close v.agents_counted id s at;
            sessions_online = Online-close h.agents h.sessions v.sessions_online id s.agent_id;
            consented = Consented-close v.consented id;
          })
  ]

  create_session-opens :
      (env : Env) (r : SessionRequest) (a : ConnectedAgent)
      → IsFresh env h
      → lookup r.agent_id h.agents ≡ some a
      → a.active_sessions < a.max_sessions
      → Inv G (create_session env r h).1
  unfolding Session.new
  create_session-opens env r a fresh online room =
      let (_, c) = create_session_lem env r h a online room in
      let s : LiveSession = opened env r a.tenant_id in
      rw (c.agents, c.sessions, c.channels)
        (record {
          agents_counted = Counted-open v.agents_counted env.new_id s a fresh.0 online room;
          sessions_online = Online-open h.agents h.sessions v.sessions_online env.new_id s a online;
          consented = Consented-open v.consented env.new_id s refl refl refl;
        })

  pub create_session-Inv :
      (env : Env) (r : SessionRequest) → IsFresh env h → Inv G (create_session env r h).1
  unfolding reserve
  create_session-Inv env r fresh = elim (Option-cases (lookup r.agent_id h.agents)) [
    | inl gone ↦
        rw (create_session_refused env h r (agent_offline (env.to_hex r.agent_id)) (ground arith)) v
    | inr (a, online) ↦ elim (Bool-cases (leb a.max_sessions a.active_sessions)) [
      | inl busy ↦ rw (create_session_refused env h r agent_busy (ground arith)) v
      | inr room ↦ create_session-opens env r a fresh online (ground arith)
    ]
  ]
