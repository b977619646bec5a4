-- ===== src/RemoteControl/Hub/Forward.antt =====
-- Signalling that the hub passes on.
use roomler.Prelude.{
  ◌≡◌, ◌≢◌, ◌⊎◌, true, false, some, ◌∷◌, Text, lookup, arith, Bool-cases, inl, inr, lookup-modify,
  ==-refl,
}
use roomler.RemoteControl.Models.{
  ObjectId, ok, err, send_failed, bad_phase, negotiating, active, SessionPhase,
}
use roomler.RemoteControl.Signaling.{ServerMsg}
use roomler.RemoteControl.Session.{ClientTx, LiveSession, transition, phase_name, is_legal}
use roomler.RemoteControl.Hub.State.{
  Hub, Env, ConnectedAgent, try_send, read_session, with_session, agent_tx, audit, ice_servers,
  controller_for,
}
use roomler.RemoteControl.Hub.Dispatch.{forward_offer, forward_answer}

is_negotiating : (p : SessionPhase) → (p ≡ negotiating) ⊎ (is_legal p active ≡ false)
unfolding is_legal
is_negotiating p = ground arith

legal_negotiating : (p : SessionPhase) → is_legal p active ≡ false → p ≢ negotiating
unfolding is_legal
legal_negotiating p h e = ground (arith, h, e)

module _ (env : Env) (id : ObjectId) (sdp : Text) (h : Hub) (s : LiveSession)
    (at : lookup id h.sessions ≡ some s) where
  -- For a session with a controller, an answer is offered to the controller whatever the phase. If
  -- it is taken and the session negotiates, the session is active from then on; if it is not
  -- taken, or the session does not negotiate, the agent is told so and the session stays as it
  -- was.
  forward_answer_outcome :
      (tx : ClientTx)
      → s.controller_tx ≡ some tx
      → let msg = ServerMsg.sdp_answer id sdp (ice_servers env s.controller_user_id h) in
        let taken = env.takes h.sent tx msg in
        let (r, h') = forward_answer env id sdp h in
        (h'.sent ≡ record { tx = tx; msg = msg; taken = taken } ∷ h.sent)
        × (((taken ≡ true)
              × (s.phase ≡ negotiating)
              × (r ≡ ok tt)
              × (lookup id h'.sessions
                  ≡ some (record s { phase = active; started_at = some env.now })))
            ⊎ ((taken ≡ false) × (r ≡ err send_failed) × (lookup id h'.sessions ≡ some s))
            ⊎ ((taken ≡ true)
                × (s.phase ≢ negotiating)
                × (r ≡ err (bad_phase (env.to_hex s.id) (phase_name s.phase)))
                × (lookup id h'.sessions ≡ some s)))
  unfolding forward_answer read_session try_send with_session audit transition is_legal
  forward_answer_outcome tx reachable =
      let moved =
        lookup-modify id id (λ t. (transition env.to_hex env.now active t).1) h.sessions in
      elim (Bool-cases (
        env.takes h.sent tx
          (ServerMsg.sdp_answer id sdp (ice_servers env s.controller_user_id h)))) [
            | inr full ↦ (
              ground (arith, at, reachable, full),
              inr (
                  inl (
                    full,
                    ground (arith, at, reachable, full),
                    ground (arith, at, reachable, full),
                  )),
            )
            | inl taken ↦ elim (is_negotiating s.phase) [
              | inl negotiates ↦ ground (arith, at, reachable, taken, negotiates, moved, ==-refl id)
              | inr elsewhere ↦ ground (
                arith,
                at,
                reachable,
                taken,
                elsewhere,
                moved,
                ==-refl id,
                legal_negotiating s.phase elsewhere,
              )
            ]
          ]

  -- For a session whose agent is connected, an offer is offered to the agent whatever the phase,
  -- and no session changes.
  forward_offer_outcome :
      (a : ConnectedAgent)
      → lookup s.agent_id h.agents ≡ some a
      → let msg = ServerMsg.sdp_offer id sdp (ice_servers env s.controller_user_id h) in
        let taken = env.takes h.sent a.tx msg in
        let (r, h') = forward_offer env id sdp h in
        (h'.sent ≡ record { tx = a.tx; msg = msg; taken = taken } ∷ h.sent)
        × (h'.sessions ≡ h.sessions)
        × (((taken ≡ true) × (r ≡ ok tt)) ⊎ ((taken ≡ false) × (r ≡ err send_failed)))
  unfolding forward_offer read_session try_send agent_tx controller_for
  forward_offer_outcome a online = ground (arith, at, online)
