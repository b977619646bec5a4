-- ===== src/RemoteControl/Hub/Leave.antt =====
-- Agents and controllers that leave: their sessions end, and the invariant is kept.
use roomler.Prelude.{
  ==-refl, ◌⊎◌, keys_where_sound, Distinct, ==_iff, ◌≡◌, ◌≢◌, refl, sym, ◌∙◌, Bool, false, none,
  some, List, [], ◌∷◌, inl, inr, Map, lookup, remove, Option-cases, Bool-cases, arith, keys_where,
  contains, lookup-remove, lookup-modify, keys_where_complete, ◌==◌, if◌then◌else◌,
}
use mathlib.Core.Option.{some-injective}
use roomler.RemoteControl.Models.{ObjectId, EndReason, agent_disconnect, controller_hangup}
use roomler.RemoteControl.Session.{LiveSession, ClientTx}
use roomler.RemoteControl.Hub.State.{Hub, Env, ConnectedAgent}
use roomler.RemoteControl.Hub.Lifecycle.{terminate, free_place}
use roomler.RemoteControl.Hub.Connect.{
  is_agent_online, is_agent, is_controller, terminate_all, unregister_agent, unregister_controller,
}
use roomler.RemoteControl.Hub.Counted.{Counted, Counted-close, Counted-unregister}
use roomler.RemoteControl.Hub.Consented.{Consented, Consented-close}
use roomler.RemoteControl.Hub.Effects.{terminate_lem, terminate_gone}
use roomler.RemoteControl.Hub.Invariant.{Inv, terminate-Inv}

-- The agent of every live session is connected, but for one agent's sessions.
abbrev OnlineBut : ObjectId → Hub → Type 0
OnlineBut k h =
    (id : ObjectId) (s : LiveSession)
    → lookup id h.sessions ≡ some s
    → is_agent k s ≡ false
    → lookup s.agent_id h.agents ≢ none

record Leaving (G : ObjectId → Type 0) (k : ObjectId) (h : Hub) : Type 0 where
  agents_counted : Counted h.agents h.sessions
  online : OnlineBut k h
  consented : Consented G h.sessions h.channels

module _ (env : Env) (reason : EndReason) where
  lookup-terminate :
      (id j : ObjectId) (h : Hub)
      → lookup j (terminate env id reason h).1.sessions
        ≡ (if id == j then none else lookup j h.sessions)
  lookup-terminate id j h = elim (Option-cases (lookup id h.sessions)) [
    | inl gone ↦ rw (terminate_gone env id h reason gone) (ground (arith, ==_iff id j))
    | inr (s, at) ↦
        rw ((terminate_lem env id h reason s at).1.sessions) (lookup-remove id j h.sessions)
  ]

  pub lookup-terminate_all :
      (ids : List ObjectId) (j : ObjectId) (h : Hub)
      → lookup j (terminate_all env reason ids h).sessions
        ≡ (if contains j ids then none else lookup j h.sessions)
  unfolding terminate_all
  lookup-terminate_all [] j h = refl
  lookup-terminate_all (id ∷ ids) j h =
      ground
        (arith, lookup-terminate_all ids j (terminate env id reason h).1, lookup-terminate id j h)

  -- Ending sessions connects no agent.
  agentless-terminate_all :
      (k : ObjectId) (ids : List ObjectId) (h : Hub)
      → lookup k h.agents ≡ none
      → lookup k (terminate_all env reason ids h).agents ≡ none
  unfolding terminate_all
  agentless-terminate_all k [] h gone = gone
  agentless-terminate_all k (id ∷ ids) h gone =
      agentless-terminate_all k ids (terminate env id reason h).1
        (agentless (Option-cases (lookup id h.sessions)))
    where
      agentless :
          (lookup id h.sessions ≡ none) ⊎ ((s : LiveSession) × (lookup id h.sessions ≡ some s))
          → lookup k (terminate env id reason h).1.agents ≡ none
      agentless (inl e) = rw (terminate_gone env id h reason e) gone
      agentless (inr (s, at)) =
          rw ((terminate_lem env id h reason s at).1.agents)
            (ground (arith, lookup-modify s.agent_id k free_place h.agents))

module _ {G : ObjectId → Type 0} (env : Env) (reason : EndReason) where
  pub terminate_all-Inv :
      (ids : List ObjectId) (h : Hub) → Inv G h → Inv G (terminate_all env reason ids h)
  unfolding terminate_all
  terminate_all-Inv [] h v = v
  terminate_all-Inv (id ∷ ids) h v =
      terminate_all-Inv ids (terminate env id reason h).1 (terminate-Inv h v env id reason)

  terminate-Leaving :
      (k id : ObjectId) (h : Hub) → Leaving G k h → Leaving G k (terminate env id reason h).1
  terminate-Leaving k id h v = elim (Option-cases (lookup id h.sessions)) [
    | inl gone ↦ rw (terminate_gone env id h reason gone) v
    | inr (s, at) ↦
        let (_, t) = terminate_lem env id h reason s at in
        record {
          agents_counted = rw (t.agents, t.sessions) (Counted-close v.agents_counted id s at);
          online = λ j u e other. rw t.agents (
              let e' = rw t.sessions at e in
              ground (
                arith,
                lookup-remove id j h.sessions,
                v.online j u,
                lookup-modify s.agent_id u.agent_id free_place h.agents,
              ));
          consented = rw (t.sessions, t.channels) (Consented-close v.consented id);
        }
  ]

  terminate_all-Leaving :
      (k : ObjectId) (ids : List ObjectId) (h : Hub)
      → Leaving G k h
      → Leaving G k (terminate_all env reason ids h)
  unfolding terminate_all
  terminate_all-Leaving k [] h v = v
  terminate_all-Leaving k (id ∷ ids) h v =
      terminate_all-Leaving k ids (terminate env id reason h).1 (terminate-Leaving k id h v)

-- Which of the sessions are left, once those whose value passes the test have ended.
module _ (env : Env) (reason : EndReason) (p : LiveSession → Bool) (h : Hub) where
  ends_where :
      (sessions : Map LiveSession)
      → h.sessions ≡ sessions
      → Distinct sessions
      → (j : ObjectId) (s : LiveSession) → lookup j sessions ≡ some s
      → lookup j (terminate_all env reason (keys_where p sessions) h).sessions
        ≡ (if p s then none else some s)
  ends_where sessions same d j s at = elim (Bool-cases (p s)) [
    | inl passes ↦
        rw
          (
            lookup-terminate_all env reason (keys_where p sessions) j h,
            same,
            keys_where_complete p sessions j s at passes,
            passes,
          )
          refl
    | inr fails ↦ elim (Bool-cases (contains j (keys_where p sessions))) [
      | inl listed ↦
          let (t, e, passes) = keys_where_sound p sessions j d listed in
          absurd (ground (arith, some-injective (sym at ∙ e)))
      | inr unlisted ↦
          rw (lookup-terminate_all env reason (keys_where p sessions) j h, same, unlisted, fails) at
    ]
  ]

offline : (k : ObjectId) (h : Hub) → lookup k h.agents ≡ none → is_agent_online k h ≡ false
unfolding is_agent_online
offline k h gone = ground arith

module _ (env : Env) (h : Hub) (d : Distinct h.sessions) where
  -- When a connected agent leaves a hub that keeps each session once, exactly its own sessions
  -- end; each other session stays as it was.
  pub lookup-unregister_agent :
      (k : ObjectId) (a : ConnectedAgent) (j : ObjectId) (s : LiveSession)
      → lookup k h.agents ≡ some a
      → lookup j h.sessions ≡ some s
      → lookup j (unregister_agent env k h).sessions ≡ (if is_agent k s then none else some s)
  unfolding unregister_agent
  lookup-unregister_agent k a j s e at =
      rw (e, unregister_agent)
        (ends_where env agent_disconnect (is_agent k) (record h { agents = remove k h.agents })
          h.sessions refl d j s at)

  -- When a connection of a controller leaves a hub that keeps each session once, exactly that
  -- user's sessions end; each other session stays as it was.
  lookup-unregister_controller :
      (user_id : ObjectId) (tx : ClientTx) (j : ObjectId) (s : LiveSession)
      → lookup j h.sessions ≡ some s
      → lookup j (unregister_controller env user_id tx h).sessions
        ≡ (if is_controller user_id s then none else some s)
  unfolding unregister_controller
  lookup-unregister_controller user_id tx j s at =
      ends_where env controller_hangup (is_controller user_id) _ h.sessions refl d j s at

  pub unregister_agent_offline :
      (k : ObjectId) → is_agent_online k (unregister_agent env k h) ≡ false
  unfolding unregister_agent
  unregister_agent_offline k = elim (Option-cases (lookup k h.agents)) [
    | inl gone ↦ rw (gone, unregister_agent) (offline k h gone)
    | inr (a, e) ↦
        rw (e, unregister_agent)
          (offline k _ (
            agentless-terminate_all env agent_disconnect k (keys_where (is_agent k) h.sessions)
              (record h { agents = remove k h.agents })
              (ground (arith, lookup-remove k k h.agents, ==-refl k))))
  ]

module _ {G : ObjectId → Type 0} (env : Env) (h : Hub) (v : Inv G h) where
  pub unregister_controller-Inv :
      (user_id : ObjectId) (tx : ClientTx) → Inv G (unregister_controller env user_id tx h)
  unfolding unregister_controller
  unregister_controller-Inv user_id tx =
      terminate_all-Inv env controller_hangup (keys_where (is_controller user_id) h.sessions) _ v

  leave-Inv :
      (k : ObjectId) (a : ConnectedAgent)
      → lookup k h.agents ≡ some a
      → Inv G (unregister_agent env k h)
  unfolding unregister_agent
  leave-Inv k a e =
      let l =
        terminate_all-Leaving env agent_disconnect k (keys_where (is_agent k) h.sessions)
          (record h { agents = remove k h.agents })
          (record {
            agents_counted = Counted-unregister v.agents_counted k;
            online = λ j s at other.
                ground (arith, lookup-remove k s.agent_id h.agents, v.sessions_online j s at);
            consented = v.consented;
          }) in
      rw (e, unregister_agent)
        (record {
          agents_counted = l.agents_counted;
          sessions_online = λ j s at. l.online j s at (stays k j s (at));
          consented = l.consented;
        })
    where
      stays :
          (k j : ObjectId) (s : LiveSession)
          → lookup j
              (terminate_all env agent_disconnect
                (keys_where (is_agent k) h.sessions)
                (record h { agents = remove k h.agents })).sessions
            ≡ some s
          → is_agent k s ≡ false
      stays k j s at = elim (Option-cases (lookup j h.sessions)) [
        | inl gone ↦ ground (
          arith,
          lookup-terminate_all env agent_disconnect (keys_where (is_agent k) h.sessions) j
              (record h { agents = remove k h.agents }),
        )
        | inr (t, there) ↦
            let x =
              ends_where env agent_disconnect (is_agent k) (record h { agents = remove k h.agents })
                h.sessions refl v.agents_counted.distinct j t there in
            ground (arith, sym at ∙ x)
      ]

  pub unregister_agent-Inv : (k : ObjectId) → Inv G (unregister_agent env k h)
  unfolding unregister_agent
  unregister_agent-Inv k = elim (Option-cases (lookup k h.agents)) [
    | inl gone ↦ rw (gone, unregister_agent) v
    | inr (a, e) ↦ leave-Inv k a e
  ]
