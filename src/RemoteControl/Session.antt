-- ===== src/RemoteControl/Session.antt =====
-- crates/remote_control/src/session.rs and the data of consent.rs: the state of one live session.
-- A `ClientTx` is the identity of a channel. `to_hex`, of the bson crate, is an argument.
pub mod Phases
use roomler.Prelude.{ℕ, Bool, true, false, Option, none, some, [], Text, text, Map, if◌then◌else◌}
use roomler.RemoteControl.Models.{
  ObjectId, DateTime, SessionPhase, SessionStats, Result, ok, err, bad_phase, pending,
  awaiting_consent, negotiating, active, closed,
}

abbrev pub ClientTx : Type 0
ClientTx = ℕ

-- The sending half of a session's oneshot channel.
pub record ConsentSlot : Type 0 where
  pub tx : ObjectId

pub record LiveSession : Type 0 where
  pub id : ObjectId
  pub agent_id : ObjectId
  pub tenant_id : ObjectId
  pub controller_user_id : ObjectId
  pub permissions : ℕ
  pub phase : SessionPhase
  pub created_at : DateTime
  pub started_at : Option DateTime
  pub stats : SessionStats
  pub consent_slot : Option ConsentSlot
  pub watchers : Map ClientTx
  pub controller_tx : Option ClientTx

abbrev no_stats : SessionStats
no_stats = record {
  bytes_sent = 0;
  bytes_recv = 0;
  peak_fps = 0;
  avg_rtt_ms = 0;
  keyframe_requests = 0;
  input_events = 0;
}

-- The oneshot channel is named by the session that it serves.
unfoldable pub new :
    ObjectId → ObjectId → ObjectId → ObjectId → ℕ → ClientTx → DateTime → LiveSession
new id agent_id tenant_id controller_user_id permissions controller_tx now = record {
  id = id;
  agent_id = agent_id;
  tenant_id = tenant_id;
  controller_user_id = controller_user_id;
  permissions = permissions;
  phase = pending;
  created_at = now;
  started_at = none;
  stats = no_stats;
  consent_slot = some (record { tx = id });
  watchers = [];
  controller_tx = some controller_tx;
}

-- The pairs that `matches!` lists.
unfoldable pub is_legal : SessionPhase → SessionPhase → Bool
is_legal pending awaiting_consent = true
is_legal awaiting_consent negotiating = true
is_legal awaiting_consent closed = true
is_legal negotiating active = true
is_legal negotiating closed = true
is_legal active closed = true
is_legal pending closed = true
is_legal _ _ = false

unfoldable pub phase_name : SessionPhase → Text
phase_name pending = text "pending"
phase_name awaiting_consent = text "awaiting_consent"
phase_name negotiating = text "negotiating"
phase_name active = text "active"
phase_name closed = text "closed"

abbrev pub started : SessionPhase → DateTime → Option DateTime → Option DateTime
started active now before = some now
started _ now before = before

-- The session comes back beside the result: a refused transition leaves it as it was.
unfoldable pub transition :
    (ObjectId → Text) → DateTime → SessionPhase → LiveSession → Result (Unit {0}) × LiveSession
unfolding is_legal
transition to_hex now to s =
    if is_legal s.phase to
    then (ok tt, record s { phase = to; started_at = started to now s.started_at })
    else (err (bad_phase (to_hex s.id) (phase_name s.phase)), s)

unfoldable pub is_terminal : LiveSession → Bool
is_terminal s = elim s.phase [ closed ↦ true | _ ↦ false ]

-- `consent_slot.take()`.
abbrev pub clear_slot : LiveSession → LiveSession
clear_slot s = record s { consent_slot = none }
