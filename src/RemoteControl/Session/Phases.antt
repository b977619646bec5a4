-- ===== src/RemoteControl/Session/Phases.antt =====
-- The life of a session: its phases only move forward.
use roomler.Prelude.{ℕ, ◌+◌, ◌≤◌, ◌≡◌, ◌≢◌, ◌↔◌, refl, List, [], ◌∷◌, arith, Text, true}
use roomler.RemoteControl.Models.{
  Error, ObjectId, DateTime, SessionPhase, Result, ok, err, bad_phase, pending, awaiting_consent,
  negotiating, active, closed,
}
use roomler.RemoteControl.Session.{is_legal, LiveSession, transition, phase_name, is_terminal}

-- The diagram of the phases.
infix 40 ◌⟶◌
pub data ◌⟶◌ : SessionPhase → SessionPhase → Type 0 where
  ask : pending ⟶ awaiting_consent
  consent : awaiting_consent ⟶ negotiating
  answer : negotiating ⟶ active
  close : {p : SessionPhase} → p ≢ closed → p ⟶ closed

legal-⟶ : (p q : SessionPhase) → is_legal p q ≡ true → p ⟶ q
unfolding is_legal
legal-⟶ p q h = grind (arith, ask, consent, answer, close)

⟶-legal : {p q : SessionPhase} → p ⟶ q → is_legal p q ≡ true
unfolding is_legal
⟶-legal ask = refl
⟶-legal consent = refl
⟶-legal answer = refl
⟶-legal (close {p} h) = ground arith

module _ (to_hex : ObjectId → Text) (now : DateTime) (to : SessionPhase) (s : LiveSession) where
  -- A transition is accepted exactly along an edge of the diagram of phases.
  transition-⟶ : ((transition to_hex now to s).0 ≡ ok tt) ↔ (s.phase ⟶ to)
  unfolding transition
  transition-⟶ = (λ e. legal-⟶ s.phase to (ground arith), λ edge. ground (arith, ⟶-legal edge))

  -- A refused transition reports the phase and leaves the session as it was.
  transition_refused :
      (e : Error)
      → (transition to_hex now to s).0 ≡ err e
      → (e ≡ bad_phase (to_hex s.id) (phase_name s.phase)) × ((transition to_hex now to s).1 ≡ s)
  unfolding transition
  transition_refused e h = ground arith

abbrev accepted : {A : Type 0} → Result A → ℕ
accepted (ok a) = 1
accepted (err e) = 0

-- A session under a list of transitions, each with its time, and how many were accepted.
unfoldable pub run :
    (ObjectId → Text) → List (DateTime × SessionPhase) → LiveSession → ℕ × LiveSession
run to_hex [] s = (0, s)
run to_hex ((now, to) ∷ rest) s =
    let (r, s') = transition to_hex now to s in
    let (n, t) = run to_hex rest s' in (accepted r + n, t)

abbrev rank : SessionPhase → ℕ
rank pending = 0
rank awaiting_consent = 1
rank negotiating = 2
rank active = 3
rank closed = 4

rank-transition :
    (to_hex : ObjectId → Text) (now : DateTime) (to : SessionPhase) (s : LiveSession)
    → rank s.phase + accepted (transition to_hex now to s).0
      ≤ rank (transition to_hex now to s).1.phase
unfolding transition
rank-transition to_hex now to s = ground arith

rank-run :
    (to_hex : ObjectId → Text) (steps : List (DateTime × SessionPhase)) (s : LiveSession)
    → rank s.phase + (run to_hex steps s).0 ≤ rank (run to_hex steps s).1.phase
unfolding run
rank-run to_hex [] s = omega arith
rank-run to_hex ((now, to) ∷ rest) s =
    omega
      (arith, rank-transition to_hex now to s, rank-run to_hex rest (transition to_hex now to s).1)

rank-le : (p : SessionPhase) → rank p ≤ 4
rank-le p = ground arith

-- Whatever transitions are tried on a session, at most four of them are accepted.
run-le :
    (to_hex : ObjectId → Text) (steps : List (DateTime × SessionPhase)) (s : LiveSession)
    → (run to_hex steps s).0 ≤ 4
run-le to_hex steps s = omega (arith, rank-run to_hex steps s, rank-le (run to_hex steps s).1.phase)

-- A closed session stays as it is, whatever transitions are tried.
run-is_terminal :
    (to_hex : ObjectId → Text) (steps : List (DateTime × SessionPhase)) (s : LiveSession)
    → is_terminal s ≡ true
    → run to_hex steps s ≡ (0, s)
unfolding run transition is_terminal
run-is_terminal to_hex [] s done = refl
run-is_terminal to_hex ((now, to) ∷ rest) s done = ground (arith, run-is_terminal to_hex rest s)
