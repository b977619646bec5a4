-- ===== src/RemoteControl/Hub/State.antt =====
-- crates/remote_control/src/hub.rs: the registry, and the steps on it that the operations share.
-- A method that locks the registry is a state transformer with a result. What a call takes from
-- outside is an `Env`: the clock, the next fresh identifiers, and the answers of the tokio channels,
-- which may depend on all that was sent before.
use roomler.Prelude.{
  ℕ, Bool, Option, none, some, List, [], ◌∷◌, ◌/◌, Text, Map, lookup, modify, if◌then◌else◌,
}
use roomler.RemoteControl.Models.{
  ObjectId, DateTime, OsKind, AuditKind, RemoteAuditEvent, Error, Result, ok, err, agent_offline,
  session_not_found, send_failed,
}
use roomler.RemoteControl.Signaling.{ServerMsg, IceServer}
use roomler.RemoteControl.Session.{ClientTx, LiveSession}
use roomler.RemoteControl.TurnCreds.{TurnConfig, ice_servers_for}

pub record ConnectedAgent : Type 0 where
  pub agent_id : ObjectId
  pub tenant_id : ObjectId
  pub owner_user_id : ObjectId
  pub os : OsKind
  pub tx : ClientTx
  pub active_sessions : ℕ
  pub max_sessions : ℕ

-- One `try_send`, and whether the channel took the message.
pub record Delivery : Type 0 where
  pub tx : ClientTx
  pub msg : ServerMsg
  pub taken : Bool

-- One `AuditSink::record`, and whether the sink's channel took the event.
pub record AuditEntry : Type 0 where
  pub entry : RemoteAuditEvent
  pub kept : Bool

-- `channels` holds the oneshot channels whose receiving task still waits, with the value sent.
-- `sent` and `audits` are histories, newest first.
pub record Hub : Type 0 where
  pub agents : Map ConnectedAgent
  pub sessions : Map LiveSession
  pub controllers : Map (List ClientTx)
  pub turn : Option TurnConfig
  pub channels : Map (Option Bool)
  pub sent : List Delivery
  pub audits : List AuditEntry

pub record Env : Type 0 where
  pub now : DateTime
  pub new_id : ObjectId
  pub new_tx : ClientTx
  pub default_id : ObjectId
  pub to_hex : ObjectId → Text
  pub sign : Text → Text → Text
  pub takes : List Delivery → ClientTx → ServerMsg → Bool
  pub sink_takes : List AuditEntry → RemoteAuditEvent → Bool

unfoldable pub new : Option TurnConfig → Hub
new turn = record {
  agents = [];
  sessions = [];
  controllers = [];
  turn = turn;
  channels = [];
  sent = [];
  audits = [];
}

abbrev pub M : Type 0 → Type 0
M A = Hub → Result A × Hub

abbrev pub pure : {A : Type 0} → A → M A
pure a h = (ok a, h)

abbrev pub raise : {A : Type 0} → Error → M A
raise e h = (err e, h)

-- The `?` operator: an error ends the method, and what was written stays written.
abbrev pub continue : {A B : Type 0} → Result A → (A → M B) → M B
continue (ok a) f h = f a h
continue (err e) f h = (err e, h)

infixl 5 ◌>>=◌ ◌>>◌
abbrev pub ◌>>=◌ : {A B : Type 0} → M A → (A → M B) → M B
◌>>=◌ m f h = let (r, h') = m h in continue r f h'

abbrev pub ◌>>◌ : {B : Type 0} → M (Unit {0}) → M B → M B
m >> k = m >>= λ _. k

module _ (env : Env) where
  -- `tx.try_send(msg).map_err(|_| Error::SendFailed)`.
  unfoldable pub try_send : ClientTx → ServerMsg → M (Unit {0})
  try_send tx msg h =
      let taken = env.takes h.sent tx msg in
      (
        if taken then ok tt else err send_failed,
        record h { sent = record { tx = tx; msg = msg; taken = taken } ∷ h.sent },
      )

  -- `let _ = tx.try_send(msg)`.
  unfoldable pub notify : ClientTx → ServerMsg → M (Unit {0})
  unfolding try_send
  notify tx msg h = (ok tt, (try_send tx msg h).1)

  unfoldable pub notify_opt : Option ClientTx → ServerMsg → M (Unit {0})
  unfolding notify
  notify_opt none msg h = (ok tt, h)
  notify_opt (some tx) msg h = notify tx msg h

  unfoldable pub audit : ObjectId → ObjectId → ObjectId → AuditKind → M (Unit {0})
  audit session_id agent_id tenant_id event h =
      let entry : RemoteAuditEvent = record {
        session_id = session_id;
        agent_id = agent_id;
        tenant_id = tenant_id;
        at = env.now;
        event = event;
      } in
      (
        ok tt,
        record h {
          audits = record { entry = entry; kept = env.sink_takes h.audits entry } ∷ h.audits;
        },
      )

  unfoldable pub agent_tx : ObjectId → M ClientTx
  agent_tx agent_id h = elim (lookup agent_id h.agents) [
    | none ↦ (err (agent_offline (env.to_hex agent_id)), h)
    | some a ↦ (ok a.tx, h)
  ]

  -- A closure that only reads the session.
  unfoldable pub read_session : {A : Type 0} → ObjectId → (LiveSession → A) → M A
  read_session session_id f h = elim (lookup session_id h.sessions) [
    | none ↦ (err (session_not_found (env.to_hex session_id)), h)
    | some s ↦ (ok (f s), h)
  ]

  unfoldable pub with_session :
      {A : Type 0} → ObjectId → (LiveSession → Result A × LiveSession) → M A
  with_session session_id f h = elim (lookup session_id h.sessions) [
    | none ↦ (err (session_not_found (env.to_hex session_id)), h)
    | some s ↦ ((f s).0, record h { sessions = modify session_id (λ t. (f t).1) h.sessions })
  ]

  -- `controller_for(..).unwrap_or_default()`; the default is the bson crate's.
  unfoldable pub controller_for : ObjectId → Hub → ObjectId
  controller_for session_id h = elim (lookup session_id h.sessions) [
    | none ↦ env.default_id
    | some s ↦ s.controller_user_id
  ]

  -- `ice_servers_for(&user_id.to_hex(), self.inner.turn.as_ref())`, by the clock in seconds.
  unfoldable pub ice_servers : ObjectId → Hub → List IceServer
  ice_servers user_id h = ice_servers_for env.sign (env.now / 1000) (env.to_hex user_id) h.turn
