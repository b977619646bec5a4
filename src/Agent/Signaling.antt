-- ===== src/Agent/Signaling.antt =====
-- agents/roomler-agent/src/signaling.rs: one connection of the agent to the server, as the events
-- that its loop selects. What the socket and WebRTC answer comes with each event. Of a peer
-- (peer.rs), the model has the number of its WebRTC connection and what it was built with, which
-- its media pump takes; of the overlay (indicator/mod.rs), whom it shows.
use roomler.Prelude.{
  ℕ, ◌++◌, Bool, true, Option, none, some, List, [], ◌∷◌, Map, lookup, insert, remove, any, Text,
  text, same_text, if◌then◌else◌,
}
use roomler.RemoteControl.Models.{ObjectId, AgentCaps, EndReason}
use roomler.RemoteControl.Signaling.{ClientMsg, ServerMsg}
use roomler.Agent.Codecs.{pick_best_codec}
pub mod Loop
mod Retries
mod Offers
mod Shown
mod Tests
mod Peers

pub record AgentPeer : Type 0 where
  pub session_id : ObjectId
  pub chosen_codec : Text
  pub negotiated_transport : Option Text
  pub pc : ℕ

-- `opened` and `closed` record the WebRTC connections made and closed so far, `sent` what was
-- written, the latest first, and `ticks` how often the watchdog was told that the pump lives.
pub record Conn : Type 0 where
  pub peers : Map AgentPeer
  pub pending_codecs : Map Text
  pub pending_transports : Map (Option Text)
  pub overlay : Map Text
  pub sent : List ClientMsg
  pub opened : List ℕ
  pub closed : List ℕ
  pub ticks : ℕ

-- What a transient error was met in.
pub data Cause : Type 0 where
  ws_connect sending_hello sending_consent sending_answer ws_ping ws_read : Cause

pub data ConnectResult : Type 0 where
  clean auth_rejected : ConnectResult
  transient : Cause → ConnectResult

-- While a message is handled: whether the socket takes what is written, the connection of a new
-- peer, and that peer's answer to an offer.
pub record Answers : Type 0 where
  pub delivered : Bool
  pub peer : Option ℕ
  pub answer : Option Text

abbrev pub send_msg : Bool → ClientMsg → Conn → Conn
send_msg delivered msg c = record c { sent = if delivered then msg ∷ c.sent else c.sent }

abbrev pub close : AgentPeer → Conn → Conn
close p c = record c { closed = p.pc ∷ c.closed }

abbrev pub negotiate : AgentCaps → Option Text → Option Text
negotiate caps none = none
negotiate caps (some t) = if any (λ s. same_text s t) caps.transports then some t else none

abbrev pub or_h264 : Option Text → Text
or_h264 none = text "h264"
or_h264 (some codec) = codec

abbrev pub or_none : Option (Option Text) → Option Text
or_none none = none
or_none (some t) = t

unfoldable pub on_request :
    AgentCaps → ObjectId → Text → List Text → Option Text → Answers → Conn → Option Cause × Conn
on_request caps session_id controller_name browser_caps preferred_transport a c =
    let chosen = pick_best_codec browser_caps caps.codecs in
    let shown : Conn = record c {
      pending_codecs = insert session_id chosen c.pending_codecs;
      pending_transports =
          insert session_id (negotiate caps preferred_transport) c.pending_transports;
      overlay = insert session_id controller_name c.overlay;
    } in
    (
      if a.delivered then none else some sending_consent,
      send_msg a.delivered (ClientMsg.consent session_id true) shown,
    )

abbrev pub close_removed : ObjectId → Option AgentPeer → Conn → Conn
close_removed session_id none c = c
close_removed session_id (some p) c = close p (record c { peers = remove session_id c.peers })

-- `peers.remove`, and the closing of what it returns.
unfoldable pub remove_peer : ObjectId → Conn → Conn
remove_peer session_id c = close_removed session_id (lookup session_id c.peers) c

abbrev pub give_up : ObjectId → Answers → Conn → Option Cause × Conn
give_up session_id a c =
    (none, send_msg a.delivered (ClientMsg.terminate session_id EndReason.error) c)

unfoldable pub answered : ObjectId → AgentPeer → Answers → Option Text → Conn → Option Cause × Conn
answered session_id p a none c = give_up session_id a (close p c)
answered session_id p a (some sdp) c =
    if a.delivered
    then (
      none,
      record (send_msg true (ClientMsg.sdp_answer session_id sdp) c) {
        peers = insert session_id p c.peers;
      },
    )
    else (some sending_answer, c)

unfoldable pub built :
    ObjectId → Text → Option Text → Answers → Option ℕ → Conn → Option Cause × Conn
built session_id codec transport a none c = give_up session_id a c
built session_id codec transport a (some pc) c =
    answered session_id
      (record {
        session_id = session_id;
        chosen_codec = codec;
        negotiated_transport = transport;
        pc = pc;
      })
      a a.answer (record c { opened = pc ∷ c.opened })

unfoldable pub on_offer : ObjectId → Answers → Conn → Option Cause × Conn
on_offer session_id a c =
    let d = remove_peer session_id c in
    built session_id (or_h264 (lookup session_id d.pending_codecs))
      (or_none (lookup session_id d.pending_transports)) a a.peer
      (record d {
        pending_codecs = remove session_id d.pending_codecs;
        pending_transports = remove session_id d.pending_transports;
      })

unfoldable pub on_terminate : ObjectId → Conn → Conn
on_terminate session_id c =
    let d = remove_peer session_id c in
    record d {
      pending_codecs = remove session_id d.pending_codecs;
      pending_transports = remove session_id d.pending_transports;
      overlay = remove session_id d.overlay;
    }

-- A candidate goes to the peer of its session, where there is one; a failure is only logged.
unfoldable pub handle_server_msg : AgentCaps → ServerMsg → Answers → Conn → Option Cause × Conn
handle_server_msg caps
      (ServerMsg.request session_id user name permissions timeout browser_caps preferred) a c =
    on_request caps session_id name browser_caps preferred a c
handle_server_msg caps (ServerMsg.sdp_offer session_id sdp ice_servers) a c =
    on_offer session_id a c
handle_server_msg caps (ServerMsg.ice session_id candidate) a c = (none, c)
handle_server_msg caps (ServerMsg.terminate session_id reason) a c =
    (none, on_terminate session_id c)
handle_server_msg caps (ServerMsg.error session_id code message) a c = (none, c)
handle_server_msg caps (ServerMsg.ready session_id ice_servers) a c = (none, c)
handle_server_msg caps (ServerMsg.session_created session_id agent_id) a c = (none, c)
handle_server_msg caps (ServerMsg.sdp_answer session_id sdp ice_servers) a c = (none, c)
handle_server_msg caps (ServerMsg.pong id) a c = (none, c)

unfoldable pub connections : Map AgentPeer → List ℕ
connections [] = []
connections ((k, p) ∷ m) = p.pc ∷ connections m

unfoldable pub close_all_peers : Conn → Conn
unfolding connections
close_all_peers c = record c { peers = []; closed = connections c.peers ++ c.closed }
