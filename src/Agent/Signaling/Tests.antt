-- ===== src/Agent/Signaling/Tests.antt =====
-- An agent that is rejected, connects and loses its connection.
use roomler.Prelude.{
  count_where, ◌≡◌, refl, true, false, Option, some, List, [], ◌∷◌, lookup, text, leb, length,
  insert, remove,
}
use roomler.RemoteControl.Models.{AgentCaps, OsKind}
use roomler.RemoteControl.Signaling.{ClientMsg, ServerMsg}
use roomler.Agent.Updater.{u32_max}
use roomler.Agent.Signaling.{
  EndReason, ConnectResult, Conn, Answers, handle_server_msg, on_request, on_offer, remove_peer,
  built, answered, close_all_peers, connections,
}
use roomler.Agent.Signaling.Loop.{
  Event, Attempt, Retry, Upgrade, upgraded, refused, slept, start, min, settle, auth_backoff_for,
  run, connect_once, select, serve, received, read_error, keepalive,
}
use roomler.Agent.Signaling.Retries.{IsCalledFor, run-IsCalledFor, run-rejected}
use roomler.Agent.Signaling.Peers.{Settled, serve-Settled}
use roomler.Agent.Signaling.Shown.{IsShown, run-IsShown}

abbrev caps : AgentCaps
caps = record {
  hw_encoders = [];
  codecs = text "h264" ∷ text "vp9" ∷ [];
  has_input_permission = true;
  supports_clipboard = false;
  supports_file_transfer = true;
  max_simultaneous_sessions = 1;
  transports = text "data-channel-vp9-444" ∷ [];
}

abbrev hello : ClientMsg
hello = ClientMsg.agent_hello (text "desk") OsKind.linux (text "1") [] caps

abbrev nothing : Conn
nothing = record {
  peers = [];
  pending_codecs = [];
  pending_transports = [];
  overlay = [];
  sent = [];
  opened = [];
  closed = [];
  ticks = 0;
}

abbrev well : Answers
well = record { delivered = true; peer = some 70; answer = some (text "answer") }

abbrev requested : Event
requested =
    received
      (ServerMsg.request 5 9 (text "Ada") 1 30 (text "VP9" ∷ text "H264" ∷ [])
        (some (text "data-channel-vp9-444")))
      well

abbrev offered : Event
offered = received (ServerMsg.sdp_offer 5 (text "offer") []) well

abbrev attempt : Upgrade → List Event → Attempt
attempt upgrade events = record {
  signalled = false;
  upgrade = upgrade;
  hello_sent = true;
  events = events;
  written = true;
  pause = slept;
}

-- The token is rejected, accepted, and rejected twice more; the last rejection is the third.
abbrev attempts : List Attempt
attempts =
    attempt (refused 401) []
    ∷ attempt upgraded (requested ∷ offered ∷ read_error ∷ [])
    ∷ attempt (refused 401) []
    ∷ attempt (refused 401) []
    ∷ []

waited : (run caps hello attempts (start false) nothing).0.waits ≡ 300 ∷ 60 ∷ 1 ∷ 30 ∷ []
unfolding run connect_once serve select handle_server_msg on_request on_offer built answered
    remove_peer close_all_peers connections settle auth_backoff_for
waited = refl

raised : (run caps hello attempts (start false) nothing).0.attention ≡ true
unfolding run connect_once serve select handle_server_msg on_request on_offer built answered
    remove_peer close_all_peers connections settle auth_backoff_for
raised = refl

-- The connection of the peer is closed with the socket.
closes : (run caps hello attempts (start false) nothing).1.closed ≡ 70 ∷ []
unfolding run connect_once serve select handle_server_msg on_request on_offer built answered
    remove_peer close_all_peers connections settle auth_backoff_for insert remove lookup
closes = refl

abbrev tried : Retry × Conn
tried = run caps hello attempts (start false) nothing

run-IsCalledFor_example : IsCalledFor tried.0
run-IsCalledFor_example =
    run-IsCalledFor caps hello attempts nothing (refl, (refl, (refl, (refl, tt))))

abbrev rejected : List Attempt
rejected = attempt (refused 401) [] ∷ attempt (refused 401) [] ∷ []

run-rejected_example :
    let s = (run caps hello rejected (start false) nothing).0 in
    (length s.waits ≡ length rejected)
    × (s.auth_failures ≡ min (length rejected) u32_max)
    × (s.attention ≡ leb 3 (length rejected))
run-rejected_example =
    run-rejected caps hello rejected nothing
      ((refl, refl, refl, refl), ((refl, refl, refl, refl), tt))

abbrev served : Option ConnectResult × Conn
served = serve caps (requested ∷ offered ∷ keepalive false ∷ []) nothing

serve-Settled_example : Settled served.0 served.1
unfolding count_where
serve-Settled_example =
    serve-Settled caps (requested ∷ offered ∷ keepalive false ∷ []) nothing (tt, λ h. refl)

abbrev between : List Event
between = keepalive true ∷ received (ServerMsg.terminate 6 EndReason.controller_hangup) well ∷ []

abbrev shown : Conn
shown = record nothing { overlay = (5, text "Ada") ∷ [] }

run-IsShown_example : IsShown 5 (run caps hello attempts (start false) shown).1
unfolding lookup
run-IsShown_example =
    run-IsShown caps 5 hello attempts (start false) shown
      (tt, ((refl, (refl, (tt, tt))), (tt, (tt, tt)))) refl
