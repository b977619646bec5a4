-- ===== src/RemoteControl/Hub/Calls.antt =====
-- What single calls of the hub return, send and leave behind, errors included.
use roomler.Prelude.{
  ◌≡◌, ◌≢◌, ◌<◌, ◌≤◌, refl, Bool, true, false, Option, none, some, List, ◌∷◌, ◌⊎◌, inl, inr, lookup,
  Option-cases, Bool-cases, arith, leb, lookup-insert, lookup-modify, lookup-remove, text, ==-refl,
}
use roomler.RemoteControl.Models.{
  ObjectId, EndReason, ok, err, agent_offline, agent_busy, bad_message, awaiting_consent,
  negotiating,
}
use roomler.RemoteControl.Signaling.{ClientMsg, ServerMsg}
use roomler.RemoteControl.Session
use roomler.RemoteControl.Session.{LiveSession, ConsentSlot, clear_slot, transition}
use roomler.RemoteControl.Hub.State.{
  Hub, Env, ConnectedAgent, Delivery, notify, audit, with_session, agent_tx,
}
use roomler.RemoteControl.Hub.Lifecycle.{
  take_place, SessionRequest, create_session, reserve, terminate, deliver_consent, poll_watcher,
  sender_alive, wait, granted, denied, timeout, ConsentOutcome, default_consent_timeout,
}
use roomler.RemoteControl.Hub.Dispatch.{dispatch_as, DispatchCtx, dispatch}
use roomler.RemoteControl.Hub.Effects.{
  Creates, create_session_lem, create_session_refused, terminate_lem, terminate_gone, poll-Drops,
  poll-Negotiates,
}
use roomler.RemoteControl.Hub.Invariant.{Inv}

-- The two messages of a request that is accepted, newest first.
abbrev pub Offered : Env → SessionRequest → ConnectedAgent → List Delivery → List Delivery → Type 0
Offered env r a before after =
    (b c : Bool) × (after
      ≡ record {
        tx = a.tx;
        msg =
            ServerMsg.request env.new_id r.controller_user_id r.controller_name r.permissions
              default_consent_timeout r.browser_caps r.preferred_transport;
        taken = b;
      }
        ∷ record {
          tx = r.controller_tx;
          msg = ServerMsg.session_created env.new_id r.agent_id;
          taken = c;
        }
        ∷ before)

-- How a request for a session ends.
abbrev pub CreateOutcome : Env → SessionRequest → Hub → Type 0
CreateOutcome env r h =
    ((lookup r.agent_id h.agents ≡ none)
      × (create_session env r h ≡ (err (agent_offline (env.to_hex r.agent_id)), h)))
    ⊎ ((a : ConnectedAgent) × (lookup r.agent_id h.agents ≡ some a)
        × (a.max_sessions ≤ a.active_sessions)
        × (create_session env r h ≡ (err agent_busy, h)))
    ⊎ ((a : ConnectedAgent) × (lookup r.agent_id h.agents ≡ some a)
        × (a.active_sessions < a.max_sessions)
        × ((create_session env r h).0 ≡ ok env.new_id)
        × Creates env r a h (create_session env r h).1
        × Offered env r a h.sent (create_session env r h).1.sent)

module _ (env : Env) (r : SessionRequest) (h : Hub) where
  create_session_offers :
      (a : ConnectedAgent)
      → lookup r.agent_id h.agents ≡ some a
      → a.active_sessions < a.max_sessions
      → Offered env r a h.sent (create_session env r h).1.sent
  unfolding create_session transition Session.new notify audit with_session agent_tx
  create_session_offers a online room = (
    env.takes
        (record {
          tx = r.controller_tx;
          msg = ServerMsg.session_created env.new_id r.agent_id;
          taken =
              env.takes h.sent r.controller_tx (ServerMsg.session_created env.new_id r.agent_id);
        }
          ∷ h.sent)
        a.tx
        (ServerMsg.request env.new_id r.controller_user_id r.controller_name r.permissions
          default_consent_timeout r.browser_caps r.preferred_transport),
    env.takes h.sent r.controller_tx (ServerMsg.session_created env.new_id r.agent_id),
    ground (
      arith,
      ==-refl env.new_id,
      ==-refl r.agent_id,
      lookup-insert env.new_id env.new_id
          (Session.new env.new_id r.agent_id a.tenant_id r.controller_user_id r.permissions
            r.controller_tx env.now)
          h.sessions,
      lookup-modify r.agent_id r.agent_id take_place h.agents,
    ),
  )

  -- A request is refused because the agent is offline or busy, and then changes nothing; otherwise
  -- it returns the new identifier, takes one of the agent's places, opens a session that awaits
  -- consent with a task waiting for it, and offers the controller and then the agent a message.
  pub create_session_outcome : CreateOutcome env r h
  unfolding reserve
  create_session_outcome = elim (Option-cases (lookup r.agent_id h.agents)) [
    | inl gone ↦ inl (
      gone,
      create_session_refused env h r (agent_offline (env.to_hex r.agent_id)) (ground arith),
    )
    | inr (a, online) ↦ elim (Bool-cases (leb a.max_sessions a.active_sessions)) [
      | inl busy ↦
          inr (
            inl (a, online, ground arith, create_session_refused env h r agent_busy (ground arith)))
      | inr room ↦
          let (e, c) = create_session_lem env r h a online (ground arith) in
          inr (inr (a, online, ground arith, e, c, create_session_offers a online (ground arith)))
    ]
  ]

module _ (env : Env) (h : Hub) (id : ObjectId) where
  -- Ending a session that has ended already changes nothing and is no error.
  terminate_twice :
      (reason again : EndReason)
      → terminate env id again (terminate env id reason h).1
        ≡ (ok tt, (terminate env id reason h).1)
  terminate_twice reason again =
      terminate_gone env id _ again (gone (Option-cases (lookup id h.sessions)))
    where
      gone :
          (lookup id h.sessions ≡ none) ⊎ ((s : LiveSession) × (lookup id h.sessions ≡ some s))
          → lookup id (terminate env id reason h).1.sessions ≡ none
      gone (inl e) = rw (terminate_gone env id h reason e) e
      gone (inr (s, at)) =
          rw ((terminate_lem env id h reason s at).1.sessions)
            (ground (arith, lookup-remove id id h.sessions, ==-refl id))

abbrev pub NamesNoAgent : ClientMsg → Type 0
NamesNoAgent (ClientMsg.session_request a p caps transport) = ⊥
NamesNoAgent _ = Unit

-- In a hub that meets the invariant, for a session that has its consent slot, the agent's first
-- decision is sent to the waiting task, and a second one is refused and leaves what was sent.
deliver_consent_once :
    {G : ObjectId → Type 0} (env later : Env) (h : Hub) (v : Inv G h) (id : ObjectId)
    (s : LiveSession) (slot : ConsentSlot) (first second : Bool)
    → lookup id h.sessions ≡ some s
    → s.consent_slot ≡ some slot
    → let (r, h') = deliver_consent env id first h in
      let (r', h'') = deliver_consent later id second h' in
      (r ≡ ok tt)
      × (lookup id h'.channels ≡ some (some first))
      × (r' ≡ err (bad_message (text "consent already delivered")))
      × (h''.channels ≡ h'.channels)
unfolding deliver_consent
deliver_consent_once env later h v id s slot first second at here =
    let sound = v.consented.sound id s at in
    ground (
      arith,
      sound,
      lookup-modify id id clear_slot h.sessions,
      ==-refl id,
      lookup-insert slot.tx id (some first) h.channels,
    )

-- What a task does at its deadline with what it was sent.
abbrev pub Settles : Env → Hub → ObjectId → LiveSession → Type 0
Settles env h id s =
    let h' = poll_watcher env id true h in
    ((lookup id h.channels ≡ some (some true))
      × (lookup id h'.sessions ≡ some (record s { phase = negotiating })))
    ⊎ ((lookup id h.channels ≢ some (some true)) × (lookup id h'.sessions ≡ none))

module _ (env : Env) (h : Hub) (id : ObjectId) (s : LiveSession)
    (at : lookup id h.sessions ≡ some s) (waits : s.phase ≡ awaiting_consent) where
  settle_dropped :
      (sent : Option Bool) (outcome : ConsentOutcome)
      → lookup id h.channels ≡ some sent
      → wait env sent (sender_alive env id h) true ≡ some outcome
      → outcome ≢ granted
      → sent ≢ some true
      → Settles env h id s
  settle_dropped sent outcome there decided refused unsent = inr (
    (λ e. unsent (ground arith)),
    rw (poll-Drops env id h true sent outcome there decided s at refused).sessions
        (ground (arith, lookup-remove id id h.sessions, ==-refl id)),
  )

  settle : (sent : Option Bool) → lookup id h.channels ≡ some sent → Settles env h id s
  unfolding wait transition
  settle (some true) there = inl (
    there,
    rw (poll-Negotiates env id h true (some true) granted there refl s at refl waits).sessions (
        ground (
          arith,
          lookup-modify id id (λ t. (transition env.to_hex env.now negotiating t).1) h.sessions,
          ==-refl id,
        )),
  )
  settle (some false) there = settle_dropped (some false) denied there refl (λ e. cc) (λ e. cc)
  settle none there = settle_dropped none timeout there refl (λ e. cc) (λ e. cc)

-- Once the deadline has passed, the waiting task settles every session that awaits consent in a
-- hub that meets the invariant: it negotiates if consent was granted, and has ended otherwise.
pub poll-Settles :
    {G : ObjectId → Type 0} (env : Env) (h : Hub) (v : Inv G h) (id : ObjectId) (s : LiveSession)
    → lookup id h.sessions ≡ some s
    → s.phase ≡ awaiting_consent
    → Settles env h id s
poll-Settles env h v id s at waits = elim (Option-cases (lookup id h.channels)) [
  | inl taskless ↦ absurd (ground (arith, v.consented.sound id s at))
  | inr (sent, there) ↦ settle env h id s at waits sent there
]

-- Beside a session request, what a message does depends on the role of its sender alone, not on
-- who the sender is.
pub dispatch-session_blind :
    (env : Env) (h : Hub) (ctx other : DispatchCtx) (msg : ClientMsg)
    → ctx.role ≡ other.role
    → NamesNoAgent msg
    → dispatch env ctx msg h ≡ dispatch env other msg h
unfolding dispatch dispatch_as
dispatch-session_blind env h ctx other (ClientMsg.session_request a p caps transport) same n =
    absurd n
dispatch-session_blind env h ctx other _ same n = ground arith
