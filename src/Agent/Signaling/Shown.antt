-- ===== src/Agent/Signaling/Shown.antt =====
-- Whom the overlay shows.
use roomler.Prelude.{
  ℕ, ◌≡◌, Bool, true, false, Option, none, some, List, [], ◌∷◌, lookup, All, is_some, Text, arith,
  Bool-cases, Option-cases, inl, inr, ◌==◌, lookup-remove, lookup-insert,
}
use roomler.RemoteControl.Models.{ObjectId, AgentCaps}
use roomler.RemoteControl.Signaling.{ClientMsg, ServerMsg}
use roomler.Agent.Signaling.{
  send_msg, Conn, ConnectResult, Answers, on_request, remove_peer, answered, built, on_offer,
  on_terminate, handle_server_msg, close_all_peers,
}
use roomler.Agent.Signaling.Loop.{
  Event, Attempt, Retry, Upgrade, upgraded, unreachable, refused, fresh, settle, returns, after,
  run, connect_once, select, serve, unless_ended, tick, shutdown_changed, keepalive, outbound,
  received, unreadable, ping, other, close_frame, read_error,
}

-- The event is no message that ends the session.
abbrev pub ends : ObjectId → ServerMsg → Bool
ends sid (ServerMsg.terminate s reason) = s == sid
ends sid msg = false

abbrev pub GoesOn : ObjectId → Event → Type 0
GoesOn sid (received msg a) = ends sid msg ≡ false
GoesOn sid e = Unit

abbrev pub GoesOnIn : ObjectId → Attempt → Type 0
GoesOnIn sid a = All (GoesOn sid) a.events

abbrev pub IsShown : ObjectId → Conn → Type 0
IsShown sid c = is_some (lookup sid c.overlay) ≡ true

module _ (caps : AgentCaps) (sid : ObjectId) where
  remove_peer-IsShown : (s : ObjectId) (c : Conn) → IsShown sid c → IsShown sid (remove_peer s c)
  unfolding remove_peer
  remove_peer-IsShown s c i = elim (Option-cases (lookup s c.peers)) [
    | inl gone ↦ rw (gone) i
    | inr (p, here) ↦ rw (here) i
  ]

  built-IsShown :
      (s : ObjectId) (k : Text) (t : Option Text) (a : Answers) (made : Option ℕ)
      (answer : Option Text) (c : Conn)
      → IsShown sid c
      → IsShown sid (built s k t (record a { answer = answer }) made c).1
  unfolding built answered
  built-IsShown s k t a none answer c i = i
  built-IsShown s k t a (some pc) none c i = i
  built-IsShown s k t a (some pc) (some sdp) c i = elim (Bool-cases a.delivered) [
    | inl sent ↦ rw (sent) i
    | inr lost ↦ rw (lost) i
  ]

  handle_server_msg-IsShown :
      (msg : ServerMsg) (a : Answers) (c : Conn)
      → ends sid msg ≡ false
      → IsShown sid c
      → IsShown sid (handle_server_msg caps msg a c).1
  unfolding handle_server_msg on_request on_offer on_terminate
  handle_server_msg-IsShown (ServerMsg.request s user name p timeout browser preferred) a c away i =
      ground (arith, i, lookup-insert s sid name c.overlay)
  handle_server_msg-IsShown (ServerMsg.sdp_offer s sdp ice) a c away i =
      built-IsShown s _ _ a a.peer a.answer _ (remove_peer-IsShown s c i)
  handle_server_msg-IsShown (ServerMsg.terminate s reason) a c away i =
      let j : IsShown sid (remove_peer s c) = remove_peer-IsShown s c i in
      ground (arith, j, away, lookup-remove s sid (remove_peer s c).overlay)
  handle_server_msg-IsShown (ServerMsg.ice s candidate) a c away i = i
  handle_server_msg-IsShown (ServerMsg.error s code message) a c away i = i
  handle_server_msg-IsShown (ServerMsg.ready s ice) a c away i = i
  handle_server_msg-IsShown (ServerMsg.session_created s agent) a c away i = i
  handle_server_msg-IsShown (ServerMsg.sdp_answer s sdp ice) a c away i = i
  handle_server_msg-IsShown (ServerMsg.pong id) a c away i = i

  select-IsShown :
      (e : Event) (c : Conn) → GoesOn sid e → IsShown sid c → IsShown sid (select caps e c).1
  unfolding select close_all_peers
  select-IsShown (shutdown_changed true) c away i = i
  select-IsShown (shutdown_changed false) c away i = i
  select-IsShown (keepalive true) c away i = i
  select-IsShown (keepalive false) c away i = i
  select-IsShown (outbound msg delivered) c away i = i
  select-IsShown (received msg a) c away i = handle_server_msg-IsShown msg a (tick c) away i
  select-IsShown unreadable c away i = i
  select-IsShown ping c away i = i
  select-IsShown other c away i = i
  select-IsShown close_frame c away i = i
  select-IsShown read_error c away i = i

  unless_ended-IsShown :
      (o rest : Option ConnectResult × Conn)
      → IsShown sid o.1
      → IsShown sid rest.1
      → IsShown sid (unless_ended o rest).1
  unless_ended-IsShown (none, c) rest i j = j
  unless_ended-IsShown (some r, c) rest i j = i

  serve-IsShown :
      (events : List Event) (c : Conn)
      → All (GoesOn sid) events
      → IsShown sid c
      → IsShown sid (serve caps events c).1
  unfolding serve
  serve-IsShown [] c away i = i
  serve-IsShown (e ∷ es) c away i =
      let next = select-IsShown e c away.0 i in
      unless_ended-IsShown (select caps e c) (serve caps es (select caps e c).1) next
        (serve-IsShown es (select caps e c).1 away.1 next)

  connect_once-IsShown :
      (hello : ClientMsg) (a : Attempt) (u : Upgrade) (c : Conn)
      → GoesOnIn sid a
      → IsShown sid c
      → IsShown sid (connect_once caps hello a u c).1
  unfolding connect_once
  connect_once-IsShown hello a unreachable c away i = i
  connect_once-IsShown hello a (refused status) c away i = i
  connect_once-IsShown hello a upgraded c away i = elim (Bool-cases a.hello_sent) [
    | inl sent ↦ rw (sent) (serve-IsShown a.events (send_msg true hello (fresh c)) away i)
    | inr lost ↦ rw (lost) i
  ]

  after-IsShown :
      (a : Attempt) (o : Option ConnectResult × Conn) (s : Retry) (next : Retry → Retry × Conn)
      → IsShown sid o.1
      → ((s' : Retry) → IsShown sid (next s').1)
      → IsShown sid (after a o s next).1
  after-IsShown a (none, c) s next i go = i
  after-IsShown a (some r, c) s next i go = elim (Bool-cases (returns r a.pause)) [
    | inl exits ↦ rw (exits) i
    | inr on ↦ rw (on) (go (settle r a.written s))
  ]

-- Once the overlay shows a session's controller, it does so until the server sends the session's
-- end, however connections end and the agent reconnects.
pub run-IsShown :
    (caps : AgentCaps) (sid : ObjectId) (hello : ClientMsg) (attempts : List Attempt) (s : Retry)
    (c : Conn)
    → All (GoesOnIn sid) attempts
    → IsShown sid c
    → IsShown sid (run caps hello attempts s c).1
unfolding run
run-IsShown caps sid hello [] s c away i = i
run-IsShown caps sid hello (a ∷ rest) s c away i =
    let o = connect_once caps hello a a.upgrade c in
    let next : Retry → Retry × Conn = λ s'. run caps hello rest s' o.1 in
    let j = connect_once-IsShown caps sid hello a a.upgrade c away.0 i in
    elim (Bool-cases a.signalled) [
      | inl stops ↦ rw (stops) i
      | inr on ↦ rw (on) (
          after-IsShown caps sid a o s next j
            (λ s'. run-IsShown caps sid hello rest s' o.1 away.1 j))
    ]
