-- ===== src/RemoteControl/Hub/Preserve.antt =====
-- The consent flow, the answer and the connections keep the hub's invariant.
use roomler.Prelude.{
  ◌∙◌, subst, Text, ◌≡◌, ◌≢◌, refl, ap, Bool, true, Option, none, some, ◌⊎◌, inl, inr, Map, lookup,
  remove, modify, Option-cases, arith, remove_absent,
}
use roomler.RemoteControl.Models.{ObjectId, awaiting_consent, active, negotiating}
use roomler.RemoteControl.Session.{LiveSession, ConsentSlot, clear_slot}
use roomler.RemoteControl.Hub.State.{Hub, Env, ConnectedAgent}
use roomler.RemoteControl.Hub.Lifecycle.{
  deliver_consent, poll_watcher, wait, sender_alive, ConsentOutcome, granted, denied, timeout,
}
use roomler.RemoteControl.Hub.Dispatch.{forward_answer}
use roomler.RemoteControl.Hub.Counted.{Counted-close, Counted-modify, Online-close, Online-modify}
use roomler.RemoteControl.Hub.Consented.{
  Consented, Consented-mono, Consented-clear, Consented-decide, Consented-drop, Consented-grant,
  Consented-answer,
}
use roomler.RemoteControl.Hub.Effects.{
  deliver_again, deliver_first, deliver_gone, forward_answer_lem, poll_none, poll_waits,
  poll_sessionless, poll-Drops, poll-Negotiates,
}
use roomler.RemoteControl.Hub.Invariant.{Holds, Inv, Inv-SameRegistry, agent_id-transition}

pub Holds-mono :
    {G G' : ObjectId → Type 0} {agents : Map ConnectedAgent} {sessions : Map LiveSession}
    {channels : Map (Option Bool)}
    → ((k : ObjectId) → G k → G' k)
    → Holds G agents sessions channels
    → Holds G' agents sessions channels
Holds-mono grow v = record {
  agents_counted = v.agents_counted;
  sessions_online = v.sessions_online;
  consented = Consented-mono grow v.consented;
}

module _ {G : ObjectId → Type 0} (env : Env) (id : ObjectId) (h : Hub) (v : Inv G h) where
  Inv-clear :
      {G' : ObjectId → Type 0} (channels : Map (Option Bool))
      → Consented G' (modify id clear_slot h.sessions) channels
      → Holds G' h.agents (modify id clear_slot h.sessions) channels
  Inv-clear channels c = record {
    agents_counted = Counted-modify v.agents_counted id clear_slot (λ s. refl);
    sessions_online = Online-modify h.agents h.sessions v.sessions_online id clear_slot (λ s. refl);
    consented = c;
  }

  first_slot :
      (s : LiveSession) (slot : ConsentSlot)
      → lookup id h.sessions ≡ some s
      → s.consent_slot ≡ some slot
      → lookup slot.tx h.channels ≡ some none
  first_slot s slot at here = ground (arith, v.consented.sound id s at)

  pub deliver_consent-Inv :
      {G' : ObjectId → Type 0} (decision : Bool)
      → ((k : ObjectId) → G k → G' k)
      → (decision ≡ true → G' id)
      → Inv G' (deliver_consent env id decision h).1
  deliver_consent-Inv {G'} decision grow given = elim (Option-cases (lookup id h.sessions)) [
    | inl gone ↦ rw (deliver_gone env id h decision gone) (Holds-mono grow v)
    | inr (s, at) ↦ elim (Option-cases s.consent_slot) [
      | inl taken ↦
          rw (deliver_again env id h decision s at taken)
            (Inv-clear h.channels (Consented-clear (Consented-mono grow v.consented) id s at taken))
      | inr (slot, here) ↦
          rw (deliver_first env id h decision s slot at here (first_slot s slot at here))
            (Inv-clear _ (Consented-decide v.consented grow id decision s slot at here given))
    ]
  ]

  pub forward_answer-Inv : (sdp : Text) → Inv G (forward_answer env id sdp h).1
  forward_answer-Inv sdp = elim (forward_answer_lem env id h sdp) [
    | inl same ↦ Inv-SameRegistry h v _ same
    | inr (agents, sessions, channels) ↦
        rw (agents, sessions, channels)
          (record {
            agents_counted =
                Counted-modify v.agents_counted id _
                  (agent_id-transition env.to_hex env.now active);
            sessions_online =
                Online-modify h.agents h.sessions v.sessions_online id _
                  (agent_id-transition env.to_hex env.now active);
            consented = Consented-answer v.consented env.to_hex env.now id;
          })
  ]

  -- A session whose task still has a channel awaits consent.
  still_awaits :
      (s : LiveSession) (sent : Option Bool)
      → lookup id h.sessions ≡ some s
      → lookup id h.channels ≡ some sent
      → s.phase ≡ awaiting_consent
  still_awaits s sent there at = ground (arith, v.consented.sound id s there)

  granted_true :
      (sent : Option Bool) (alive elapsed : Bool)
      → wait env sent alive elapsed ≡ some granted
      → sent ≡ some true
  unfolding wait
  granted_true sent alive elapsed e = ground arith

  poll_session-Inv :
      (elapsed : Bool) (sent : Option Bool) (outcome : ConsentOutcome) (s : LiveSession)
      → lookup id h.channels ≡ some sent
      → wait env sent (sender_alive env id h) elapsed ≡ some outcome
      → lookup id h.sessions ≡ some s
      → (outcome ≡ granted) ⊎ (outcome ≢ granted)
      → Inv G (poll_watcher env id elapsed h)
  poll_session-Inv elapsed sent outcome s at decided there (inl given) =
      let n =
        poll-Negotiates env id h elapsed sent outcome at decided s there given
          (still_awaits s sent there at) in
      rw (n.agents, n.sessions, n.channels)
        (record {
          agents_counted =
              Counted-modify v.agents_counted id _
                (agent_id-transition env.to_hex env.now negotiating);
          sessions_online =
              Online-modify h.agents h.sessions v.sessions_online id _
                (agent_id-transition env.to_hex env.now negotiating);
          consented = Consented-grant v.consented env.to_hex env.now id (
              at
              ∙ ap some
                  (granted_true sent (sender_alive env id h) elapsed (decided ∙ ap some given)));
        })
  poll_session-Inv elapsed sent outcome s at decided there (inr refused) =
      let d = poll-Drops env id h elapsed sent outcome at decided s there refused in
      rw (d.agents, d.sessions, d.channels)
        (record {
          agents_counted = Counted-close v.agents_counted id s there;
          sessions_online = Online-close h.agents h.sessions v.sessions_online id s.agent_id;
          consented = Consented-drop v.consented id;
        })

  is_granted : (outcome : ConsentOutcome) → (outcome ≡ granted) ⊎ (outcome ≢ granted)
  is_granted granted = inl refl
  is_granted denied = inr (λ e. cc)
  is_granted timeout = inr (λ e. cc)

  pub poll_watcher-Inv : (elapsed : Bool) → Inv G (poll_watcher env id elapsed h)
  poll_watcher-Inv elapsed = elim (Option-cases (lookup id h.channels)) [
    | inl gone ↦ rw (poll_none env id h elapsed gone) v
    | inr (sent, at) ↦ elim (Option-cases (wait env sent (sender_alive env id h) elapsed)) [
      | inl still ↦ rw (poll_waits env id h elapsed sent at still) v
      | inr (outcome, decided) ↦ elim (Option-cases (lookup id h.sessions)) [
        | inl sessionless ↦
            rw (poll_sessionless env id h elapsed sent outcome at decided sessionless) (record {
              agents_counted = v.agents_counted;
              sessions_online = v.sessions_online;
              consented =
                  subst (λ m. Consented G m (remove id h.channels))
                    (remove_absent id h.sessions sessionless) (Consented-drop v.consented id);
            })
        | inr (s, there) ↦
            poll_session-Inv elapsed sent outcome s at decided there (is_granted outcome)
      ]
    ]
  ]
