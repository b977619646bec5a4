-- ===== src/RemoteControl/Hub/Reconnect.antt =====
-- An agent that connects again while the hub still has its first connection.
use roomler.Prelude.{
  ℕ, ◌≡◌, ◌<◌, refl, false, none, some, lookup, arith, if◌then◌else◌, lookup-insert, ==-refl,
}
use roomler.RemoteControl.Models.{ObjectId, OsKind}
use roomler.RemoteControl.Session.{LiveSession}
use roomler.RemoteControl.Hub.State.{Hub, Env, ConnectedAgent}
use roomler.RemoteControl.Hub.Connect.{
  connected, is_agent, register_agent, unregister_agent, is_agent_online,
}
use roomler.RemoteControl.Hub.Leave.{unregister_agent_offline, lookup-unregister_agent}
use roomler.RemoteControl.Hub.Counted.{Counted}
use roomler.RemoteControl.Hub.Invariant.{Inv}

module _ {G : ObjectId → Type 0} (env : Env) (h : Hub) (v : Inv G h)
    (k tenant_id owner_user_id : ObjectId) (os : OsKind) (max_sessions : ℕ) where
  -- In a hub that meets the invariant, when an agent that has live sessions connects again, its
  -- counter no longer counts its sessions.
  reconnect-not-Counted :
      (a : ConnectedAgent)
      → lookup k h.agents ≡ some a
      → 0 < a.active_sessions
      → let h' = register_agent env k tenant_id owner_user_id os max_sessions h in
        ¬ Counted h'.agents h'.sessions
  unfolding register_agent
  reconnect-not-Counted a online busy c = omega (
    arith,
    v.agents_counted.counted k a online,
    c.counted k (connected env.new_tx k tenant_id owner_user_id os max_sessions) (
        rw
          (
            lookup-insert k k (connected env.new_tx k tenant_id owner_user_id os max_sessions)
                h.agents,
            ==-refl k,
          )
          refl),
  )

  -- If an agent connects again to a hub that meets the invariant and its first connection is torn
  -- down afterwards, the agent is offline and all of its sessions have ended.
  pub stale_teardown :
      (later : Env) (j : ObjectId) (s : LiveSession)
      → lookup j h.sessions ≡ some s
      → let h' =
          unregister_agent later k
            (register_agent env k tenant_id owner_user_id os max_sessions h) in
        (is_agent_online k h' ≡ false)
        × (lookup j h'.sessions ≡ (if is_agent k s then none else some s))
  unfolding register_agent
  stale_teardown later j s at = (
    unregister_agent_offline later (register_agent env k tenant_id owner_user_id os max_sessions h)
        v.agents_counted.distinct k,
    lookup-unregister_agent later (register_agent env k tenant_id owner_user_id os max_sessions h)
        v.agents_counted.distinct k (connected env.new_tx k tenant_id owner_user_id os max_sessions)
        j s
        (rw
          (
            lookup-insert k k (connected env.new_tx k tenant_id owner_user_id os max_sessions)
                h.agents,
            ==-refl k,
          )
          refl)
        at,
  )
