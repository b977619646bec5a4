-- ===== src/Agent/Signaling/Peers.antt =====
-- What becomes of the WebRTC connections that a connection to the server makes.
use roomler.Prelude.{
  ℕ, ◌+◌, ◌≡◌, refl, Bool, true, false, Option, none, some, List, [], ◌∷◌, ◌++◌, Map, Distinct,
  lookup, remove, count_where, arith, Bool-cases, Option-cases, inl, inr, if◌then◌else◌, ◌==◌,
  count_where-remove, count_where-insert, lookup-remove, Distinct-remove, Distinct-insert, Text,
}
use roomler.RemoteControl.Models.{ObjectId, AgentCaps}
use roomler.RemoteControl.Signaling.{ServerMsg}
use roomler.Agent.Signaling.{
  AgentPeer, Conn, ConnectResult, Answers, clean, auth_rejected, transient, ws_connect,
  sending_hello, sending_consent, sending_answer, ws_ping, ws_read, on_request, remove_peer,
  answered, built, on_offer, on_terminate, handle_server_msg, connections, close_all_peers, or_none,
  or_h264,
}
use roomler.Agent.Signaling.Loop.{
  Event, select, serve, failed, unless_ended, tick, shutdown_changed, keepalive, outbound, received,
  unreadable, ping, other, close_frame, read_error,
}

abbrev pub count : ℕ → List ℕ → ℕ
count h [] = 0
count h (x ∷ xs) = (if x == h then 1 else 0) + count h xs

abbrev pub is_on : ℕ → AgentPeer → Bool
is_on h p = p.pc == h

-- Beside `lost`, each WebRTC connection made was closed, or belongs to a peer of the map.
abbrev pub Accounted : List ℕ → Conn → Type 0
Accounted lost c =
    Distinct c.peers
    × ((h : ℕ) → count h c.opened ≡ count_where (is_on h) c.peers + count h c.closed + count h lost)

count-append : (h : ℕ) (xs ys : List ℕ) → count h (xs ++ ys) ≡ count h xs + count h ys
count-append h [] ys = omega arith
count-append h (x ∷ xs) ys = omega (arith, count-append h xs ys)

count-connections : (h : ℕ) (m : Map AgentPeer) → count h (connections m) ≡ count_where (is_on h) m
unfolding connections count_where
count-connections h [] = refl
count-connections h ((k, p) ∷ m) = ground (arith, count-connections h m)

close_all_peers-Accounted :
    (c : Conn)
    → Accounted [] c
    → Accounted [] (close_all_peers c) × ((close_all_peers c).peers ≡ [])
unfolding close_all_peers count_where
close_all_peers-Accounted c (d, all) = (
  (
    tt,
    λ h.
        omega (
          arith,
          all h,
          count-append h (connections c.peers) c.closed,
          count-connections h c.peers,
        ),
  ),
  refl,
)

remove_peer-Accounted :
    (sid : ObjectId) (c : Conn) → Accounted [] c → Accounted [] (remove_peer sid c)
unfolding remove_peer
remove_peer-Accounted sid c (d, all) = elim (Option-cases (lookup sid c.peers)) [
  | inl gone ↦ rw (gone) (d, all)
  | inr (p, here) ↦ rw (here) (
    Distinct-remove sid c.peers d,
    λ h. omega (arith, all h, count_where-remove (is_on h) sid c.peers p d here),
  )
]

remove_peer_gone : (sid : ObjectId) (c : Conn) → lookup sid (remove_peer sid c).peers ≡ none
unfolding remove_peer
remove_peer_gone sid c = elim (Option-cases (lookup sid c.peers)) [
  | inl gone ↦ rw (gone) gone
  | inr (p, here) ↦ rw (here) (ground (arith, lookup-remove sid sid c.peers))
]

-- What the end of a connection, or its going on, leaves. Neither a rejected token nor a failure
-- before the loop is an end of the loop.
abbrev pub Settled : Option ConnectResult → Conn → Type 0
Settled none c = Accounted [] c
Settled (some clean) c = Accounted [] c × (c.peers ≡ [])
Settled (some (transient ws_ping)) c = Accounted [] c × (c.peers ≡ [])
Settled (some (transient ws_read)) c = Accounted [] c × (c.peers ≡ [])
Settled (some (transient sending_consent)) c = Accounted [] c
Settled (some (transient sending_answer)) c = (pc : ℕ) × Accounted (pc ∷ []) c
Settled (some (transient ws_connect)) c = ⊥
Settled (some (transient sending_hello)) c = ⊥
Settled (some auth_rejected) c = ⊥

answered-Settled :
    (sid : ObjectId) (p : AgentPeer) (a : Answers) (answer : Option Text) (c : Conn)
    → lookup sid c.peers ≡ none
    → Accounted [] c
    → let (e, d) = answered sid p a answer (record c { opened = p.pc ∷ c.opened }) in
      Settled (failed e) d
unfolding answered
answered-Settled sid p a none c free (d, all) = (d, λ h. omega (arith, all h))
answered-Settled sid p a (some sdp) c free (d, all) = elim (Bool-cases a.delivered) [
  | inl sent ↦ rw (sent) (
    Distinct-insert sid p c.peers d,
    λ h. ground (arith, all h, count_where-insert (is_on h) sid p c.peers free),
  )
  | inr lost ↦ rw (lost) (p.pc, (d, λ h. omega (arith, all h)))
]

built-Settled :
    (sid : ObjectId) (codec : Text) (transport : Option Text) (a : Answers) (made : Option ℕ)
    (c : Conn)
    → lookup sid c.peers ≡ none
    → Accounted [] c
    → let (e, d) = built sid codec transport a made c in Settled (failed e) d
unfolding built
built-Settled sid codec transport a none c free i = i
built-Settled sid codec transport a (some pc) c free i =
    let p : AgentPeer = record {
      session_id = sid;
      chosen_codec = codec;
      negotiated_transport = transport;
      pc = pc;
    } in
    answered-Settled sid p a a.answer c free i

on_offer-Settled :
    (sid : ObjectId) (a : Answers) (c : Conn)
    → Accounted [] c
    → let (e, d) = on_offer sid a c in Settled (failed e) d
unfolding on_offer
on_offer-Settled sid a c i =
    let d = remove_peer sid c in
    let taken : Conn = record d {
      pending_codecs = remove sid d.pending_codecs;
      pending_transports = remove sid d.pending_transports;
    } in
    built-Settled sid (or_h264 (lookup sid d.pending_codecs))
      (or_none (lookup sid d.pending_transports)) a a.peer taken (remove_peer_gone sid c)
      (remove_peer-Accounted sid c i)

handle_server_msg-Settled :
    (caps : AgentCaps) (msg : ServerMsg) (a : Answers) (c : Conn)
    → Accounted [] c
    → let (e, d) = handle_server_msg caps msg a c in Settled (failed e) d
unfolding handle_server_msg on_request on_terminate
handle_server_msg-Settled caps (ServerMsg.request sid user name p timeout browser preferred) a c i =
    elim (Bool-cases a.delivered) [ inl sent ↦ rw (sent) i | inr lost ↦ rw (lost) i ]
handle_server_msg-Settled caps (ServerMsg.sdp_offer sid sdp ice) a c i = on_offer-Settled sid a c i
handle_server_msg-Settled caps (ServerMsg.ice sid candidate) a c i = i
handle_server_msg-Settled caps (ServerMsg.terminate sid reason) a c i =
    remove_peer-Accounted sid c i
handle_server_msg-Settled caps (ServerMsg.error sid code message) a c i = i
handle_server_msg-Settled caps (ServerMsg.ready sid ice) a c i = i
handle_server_msg-Settled caps (ServerMsg.session_created sid agent) a c i = i
handle_server_msg-Settled caps (ServerMsg.sdp_answer sid sdp ice) a c i = i
handle_server_msg-Settled caps (ServerMsg.pong id) a c i = i

select-Settled :
    (caps : AgentCaps) (e : Event) (c : Conn)
    → Accounted [] c
    → let (r, d) = select caps e c in Settled r d
unfolding select
select-Settled caps (shutdown_changed true) c i = close_all_peers-Accounted c i
select-Settled caps (shutdown_changed false) c i = i
select-Settled caps (keepalive true) c i = i
select-Settled caps (keepalive false) c i = close_all_peers-Accounted c i
select-Settled caps (outbound msg delivered) c i = i
select-Settled caps (received msg a) c i = handle_server_msg-Settled caps msg a (tick c) i
select-Settled caps unreadable c i = i
select-Settled caps ping c i = i
select-Settled caps other c i = i
select-Settled caps close_frame c i = close_all_peers-Accounted c i
select-Settled caps read_error c i = close_all_peers-Accounted c i

unless_ended-Settled :
    (o rest : Option ConnectResult × Conn)
    → Settled o.0 o.1
    → (Accounted [] o.1 → Settled rest.0 rest.1)
    → Settled (unless_ended o rest).0 (unless_ended o rest).1
unless_ended-Settled (none, c) rest i go = go i
unless_ended-Settled (some r, c) rest i go = i

-- Whatever happens on a connection that starts with each WebRTC connection closed or in the map of
-- peers, at most one for a session: while it lasts, and after a failure to send a consent, that is
-- so again; when it is closed, or a ping or a read fails, the map is empty and all of them are
-- closed; and after a failure to send an answer one more is neither closed nor in the map.
pub serve-Settled :
    (caps : AgentCaps) (events : List Event) (c : Conn)
    → Accounted [] c
    → let (r, d) = serve caps events c in Settled r d
unfolding serve
serve-Settled caps [] c i = i
serve-Settled caps (e ∷ es) c i =
    unless_ended-Settled (select caps e c) (serve caps es (select caps e c).1)
      (select-Settled caps e c i) (λ k. serve-Settled caps es (select caps e c).1 k)
