-- ===== src/RemoteControl/Hub/Trace.antt =====
-- The hub under any sequence of calls. An operation is one step: interleavings are of whole calls.
use roomler.Prelude.{ℕ, ◌≡◌, Bool, true, Option, none, List, [], ◌∷◌, ◌⊎◌, lookup}
use roomler.RemoteControl.Models.{ObjectId, OsKind}
use roomler.RemoteControl.Signaling.{Role, ClientMsg}
use roomler.RemoteControl.Session.{ClientTx}
use roomler.RemoteControl.TurnCreds.{TurnConfig}
use roomler.RemoteControl.Hub.State.{Hub, Env, new}
use roomler.RemoteControl.Hub.Lifecycle.{poll_watcher}
use roomler.RemoteControl.Hub.Connect.{
  register_agent, unregister_agent, register_controller, unregister_controller,
}
use roomler.RemoteControl.Hub.Dispatch.{DispatchCtx, dispatch}

pub data Event : Type 0 where
  agent_connects :
      (agent_id tenant_id owner_user_id : ObjectId) → OsKind → (max_sessions : ℕ) → Event
  agent_leaves : ObjectId → Event
  controller_connects : ObjectId → Event
  controller_leaves : ObjectId → ClientTx → Event
  message : DispatchCtx → ClientMsg → Event
  watcher_polled : ObjectId → (elapsed : Bool) → Event

unfoldable pub step : Env → Event → Hub → Hub
step env (agent_connects a t o os max) h = register_agent env a t o os max h
step env (agent_leaves a) h = unregister_agent env a h
step env (controller_connects u) h = (register_controller env u h).1
step env (controller_leaves u tx) h = unregister_controller env u tx h
step env (message ctx msg) h = (dispatch env ctx msg h).1
step env (watcher_polled id elapsed) h = poll_watcher env id elapsed h

-- An agent connects while it is not connected already.
abbrev pub IsOrderly : Event → Hub → Type 0
IsOrderly (agent_connects a t o os max) h = lookup a h.agents ≡ none
IsOrderly _ h = Unit

-- `ObjectId::new` returns identifiers that are not in use.
abbrev pub IsFresh : Env → Hub → Type 0
IsFresh env h = (lookup env.new_id h.sessions ≡ none) × (lookup env.new_id h.channels ≡ none)

-- The hub after the events, newest first.
pub data Trace (turn : Option TurnConfig) : List Event → Hub → Type 0 where
  start : Trace turn [] (new turn)
  next :
      {events : List Event} {h : Hub} (env : Env) (event : Event)
      → Trace turn events h
      → IsFresh env h
      → IsOrderly event h
      → Trace turn (event ∷ events) (step env event h)

-- An agent's message that grants consent to the session.
abbrev pub GrantsBy : Role → ObjectId → ClientMsg → Type 0
GrantsBy Role.agent id (ClientMsg.consent session_id decision) =
    (session_id ≡ id) × (decision ≡ true)
GrantsBy _ id _ = ⊥

abbrev pub Grants : ObjectId → Event → Type 0
Grants id (message ctx msg) = GrantsBy ctx.role id msg
Grants id _ = ⊥

abbrev pub Granted : List Event → ObjectId → Type 0
Granted [] id = ⊥
Granted (event ∷ events) id = Grants id event ⊎ Granted events id
