-- ===== src/Agent/Signaling/Loop.antt =====
-- agents/roomler-agent/src/signaling.rs: the loop of a connection, and the loop that reconnects. An
-- attempt is given by what happens in it.
use roomler.Prelude.{
  ℕ, ◌+◌, ◌*◌, Bool, true, false, ◌&&◌, Option, none, some, List, [], ◌∷◌, ltb, leb, ◌==◌,
  if◌then◌else◌,
}
use roomler.RemoteControl.Models.{AgentCaps}
use roomler.RemoteControl.Signaling.{ClientMsg, ServerMsg}
use roomler.Agent.Updater.{u32_max}
use roomler.Agent.Signaling.{
  Conn, Cause, ConnectResult, clean, auth_rejected, transient, ws_connect, sending_hello, ws_ping,
  ws_read, Answers, send_msg, handle_server_msg, close_all_peers,
}

-- What a connection's loop selects. `other` is a frame that it does not look at.
pub data Event : Type 0 where
  shutdown_changed : (signalled : Bool) → Event
  keepalive : (pinged : Bool) → Event
  outbound : (msg : ClientMsg) (delivered : Bool) → Event
  received : (msg : ServerMsg) (a : Answers) → Event
  unreadable ping other close_frame read_error : Event

abbrev pub tick : Conn → Conn
tick c = record c { ticks = c.ticks + 1 }

abbrev pub failed : Option Cause → Option ConnectResult
failed none = none
failed (some cause) = some (transient cause)

-- One turn of the loop: how the connection ends, if it does, and what is left.
unfoldable pub select : AgentCaps → Event → Conn → Option ConnectResult × Conn
select caps (shutdown_changed true) c = (some clean, close_all_peers c)
select caps (shutdown_changed false) c = (none, c)
select caps (keepalive true) c = (none, tick c)
select caps (keepalive false) c = (some (transient ws_ping), close_all_peers c)
select caps (outbound msg delivered) c = (none, tick (send_msg delivered msg c))
select caps (received msg a) c = let (e, d) = handle_server_msg caps msg a (tick c) in (failed e, d)
select caps unreadable c = (none, tick c)
select caps ping c = (none, tick c)
select caps other c = (none, c)
select caps close_frame c = (some clean, close_all_peers c)
select caps read_error c = (some (transient ws_read), close_all_peers c)

abbrev pub unless_ended :
    Option ConnectResult × Conn → Option ConnectResult × Conn → Option ConnectResult × Conn
unless_ended (none, c) rest = rest
unless_ended (some r, c) rest = (some r, c)

-- The loop over what happens on the connection; `none` while it is open.
unfoldable pub serve : AgentCaps → List Event → Conn → Option ConnectResult × Conn
serve caps [] c = (none, c)
serve caps (e ∷ es) c = unless_ended (select caps e c) (serve caps es (select caps e c).1)

pub data Upgrade : Type 0 where
  upgraded unreachable : Upgrade
  refused : (status : ℕ) → Upgrade

pub data Pause : Type 0 where
  slept : Pause
  woken : (signalled : Bool) → Pause

-- `signalled`: the shutdown was signalled before the attempt; `written`: the host takes the
-- sentinel; `pause`: how the sleep after the attempt ends.
pub record Attempt : Type 0 where
  pub signalled : Bool
  pub upgrade : Upgrade
  pub hello_sent : Bool
  pub events : List Event
  pub written : Bool
  pub pause : Pause

-- A new connection has no peers; what was shown, sent, opened and closed stays.
abbrev pub fresh : Conn → Conn
fresh c = record c { peers = []; pending_codecs = []; pending_transports = [] }

abbrev pub greeted : AgentCaps → ClientMsg → Attempt → Conn → Option ConnectResult × Conn
greeted caps hello a c =
    if a.hello_sent
    then serve caps a.events (send_msg true hello (fresh c))
    else (some (transient sending_hello), fresh c)

unfoldable pub connect_once :
    AgentCaps → ClientMsg → Attempt → Upgrade → Conn → Option ConnectResult × Conn
connect_once caps hello a upgraded c = greeted caps hello a c
connect_once caps hello a unreachable c = (some (transient ws_connect), fresh c)
connect_once caps hello a (refused status) c =
    (some (if status == 401 then auth_rejected else transient ws_connect), fresh c)

unfoldable pub auth_backoff_for : ℕ → ℕ
auth_backoff_for consecutive_failures =
    if leb consecutive_failures 1
    then 30
    else if consecutive_failures == 2
    then 60
    else if consecutive_failures == 3
    then 300
    else 3600

-- `attention` is the sentinel file; `waits` and `outcomes` record the sleeps, in seconds, and how
-- the attempts ended, the latest first.
pub record Retry : Type 0 where
  pub backoff : ℕ
  pub auth_failures : ℕ
  pub attention : Bool
  pub waits : List ℕ
  pub outcomes : List ConnectResult

abbrev pub start : Bool → Retry
start attention = record {
  backoff = 1;
  auth_failures = 0;
  attention = attention;
  waits = [];
  outcomes = [];
}

abbrev pub min : ℕ → ℕ → ℕ
min a b = if leb a b then a else b

-- What an outcome changes, the sleep included.
unfoldable pub settle : ConnectResult → Bool → Retry → Retry
settle clean written s = record s {
  backoff = 1;
  auth_failures = 0;
  attention = if ltb 0 s.auth_failures then false else s.attention;
  outcomes = clean ∷ s.outcomes;
}
settle auth_rejected written s =
    let failures = min (s.auth_failures + 1) u32_max in
    record s {
      auth_failures = failures;
      attention = if failures == 3 && written then true else s.attention;
      waits = auth_backoff_for failures ∷ s.waits;
      outcomes = auth_rejected ∷ s.outcomes;
    }
settle (transient cause) written s = record s {
  backoff = min (s.backoff * 2) 60;
  waits = s.backoff ∷ s.waits;
  outcomes = transient cause ∷ s.outcomes;
}

-- Whether the loop returns after a sleep; there is none after a clean close.
abbrev pub returns : ConnectResult → Pause → Bool
returns clean pause = false
returns r slept = false
returns r (woken signalled) = signalled

-- `run`: the attempts that are made, until the last one is still connected or the agent shuts down.
abbrev pub after :
    Attempt → Option ConnectResult × Conn → Retry → (Retry → Retry × Conn) → Retry × Conn
after a (none, c) s next = (s, c)
after a (some r, c) s next =
    if returns r a.pause then (settle r a.written s, c) else next (settle r a.written s)

unfoldable pub run : AgentCaps → ClientMsg → List Attempt → Retry → Conn → Retry × Conn
unfolding connect_once settle
run caps hello [] s c = (s, c)
run caps hello (a ∷ rest) s c =
    let attempt = connect_once caps hello a a.upgrade c in
    let stopped : Retry × Conn = (s, c) in
    let next = λ (s' : Retry). run caps hello rest s' attempt.1 in
    if a.signalled then stopped else after a attempt s next
