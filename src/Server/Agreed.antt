-- ===== src/Server/Agreed.antt =====
-- In every reachable state the sockets, the registry and the media rooms agree.
use roomler.Prelude.{
  ◌≢◌, ◌↔◌, sym, ap, ◌∙◌, contains, Option-cases, inl, inr, ◌≡◌, refl, true, false, Option, none,
  some, List, Text, Map, lookup, remove, contains_key, arith, lookup-insert, lookup-remove, ◌==◌,
}
use roomler.RemoteControl.Models.{ObjectId}
use roomler.Conference.{Database}
use roomler.Sockets.{get_senders, WsStorage, add, remove_sender}
use roomler.Sockets.Exact.{new-IsExact, add-IsExact, remove_sender-IsExact}
use roomler.Media.Rooms.{RoomManager}
use roomler.Media.Rooms.Closing.{get_other_connection_ids, get_connection_room, close_participant}
use roomler.Media.Rooms.Placed.{IsPlaced, held, close_participant-Placed}
use roomler.RemoteControl.Hub.Connect.{unregister_controller}
use roomler.Server.{ServerEvent, Server, World, TurnSettings}
use roomler.Server.Media.{leave_room, set_manager}
use roomler.Server.Remote.{agent_opened, agent_message, agent_closed}
use roomler.Server.Socket.{Socket, socket_opened, socket_closed, leave_current}
use roomler.Server.Keeps
use roomler.Server.Tidy.{handle_client_message-Tidy}
use roomler.Server.Routes.{call_start-Tidy, call_join-Tidy, call_leave-Tidy, call_end-Tidy}
use roomler.Server.Reach.{System, Step, Reachable, Agrees, tidied, connect, disconnect, sender_of}

abbrev pub IsAgreed : System → Type 0
IsAgreed s = Agrees s.server.storage s.server.manager s.sockets

-- A sender that no socket has.
unshared :
    (d v x : ObjectId) (sockets : Map Socket)
    → sender_of (lookup d sockets) ≡ some (v, x)
    → ((k : Socket) → lookup d sockets ≡ some k → k.sender ≢ x)
    → ⊥
unshared d v x sockets e fresh = elim (Option-cases (lookup d sockets)) [
  | inl gone ↦ absurd (ground (arith, gone, e))
  | inr (k, here) ↦
      let found : sender_of (lookup d sockets) ≡ some (k.user_id, k.sender) = ap sender_of here in
      let same : k.sender ≡ x = cc (e, found) in fresh k here same
]

connect-IsAgreed :
    (w : World) (u : ObjectId) (username : Text) (s : System)
    → lookup w.connection_id s.sockets ≡ none
    → ((d : ObjectId) (k : Socket) → lookup d s.sockets ≡ some k → k.sender ≢ w.sender)
    → IsAgreed s
    → IsAgreed (connect w u username s)
unfolding socket_opened add
connect-IsAgreed w u username s unknown fresh a =
    let (k, server) = socket_opened w u username s.server in
    record {
      exact =
          add-IsExact u w.connection_id w.sender s.server.storage
            (a.senders w.connection_id ∙ ap sender_of unknown)
            (λ d v e. unshared d v w.sender s.sockets (sym (a.senders d) ∙ e) (fresh d)) a.exact;
      senders = λ c. ground (
        arith,
        a.senders c,
        lookup-insert w.connection_id c (u, w.sender) s.server.storage.connection_map,
        lookup-insert w.connection_id c k s.sockets,
      );
      placed = a.placed;
      listed = λ c r e. ground (arith, a.listed c r e, lookup-insert w.connection_id c k s.sockets);
    }

removed-Agrees :
    (u c x : ObjectId) (t : WsStorage) (m m' : RoomManager) (sockets : Map Socket)
    → lookup c t.connection_map ≡ some (u, x)
    → Agrees t m sockets
    → IsPlaced m'
    → ((d q : ObjectId)
        → lookup d m'.connection_rooms ≡ some q
        → (lookup d m.connection_rooms ≡ some q) × ((c == d) ≡ false))
    → Agrees (remove_sender u c x t) m' (remove c sockets)
unfolding remove_sender
removed-Agrees u c x t m m' sockets known a placed gone = record {
  exact = remove_sender-IsExact u c x t known a.exact;
  senders = λ d.
      ground (arith, a.senders d, lookup-remove c d t.connection_map, lookup-remove c d sockets);
  placed = placed;
  listed = λ d q e.
      let (before, other) = gone d q e in
      ground (arith, a.listed d q before, other, lookup-remove c d sockets);
}

pub leave_room_state :
    (w : World) (u c r : ObjectId) (s : Server)
    → let s' = leave_room w u c r s in
      (s'.storage ≡ s.storage) × (s'.manager ≡ close_participant r c s.manager)
unfolding leave_room
leave_room_state w u c r s =
    Keeps.send_to_connections-Keeps (λ t m. (t ≡ s.storage) × (m ≡ close_participant r c s.manager))
      (get_other_connection_ids r c s.manager) (ServerEvent.peer_left u (some c) r)
      (set_manager (close_participant r c s.manager) s) (refl, refl)

closed-Agrees :
    (w : World) (c : ObjectId) (k : Socket) (s : Server) (m : RoomManager) (t : WsStorage)
    (sockets : Map Socket) (room : Option ObjectId)
    → s.storage ≡ remove_sender k.user_id c k.sender t
    → s.manager ≡ m
    → lookup c m.connection_rooms ≡ room
    → lookup c t.connection_map ≡ some (k.user_id, k.sender)
    → Agrees t m sockets
    → let s' = leave_current w k.user_id c room s in Agrees s'.storage s'.manager (remove c sockets)
unfolding close_participant
closed-Agrees w c k s m t sockets none stored managed unlisted known a =
    rw (stored, managed)
      (removed-Agrees k.user_id c k.sender t m m sockets known a a.placed
        (λ d q e. (e, ground (arith, e, unlisted))))
closed-Agrees w c k s m t sockets (some r) stored managed here known a =
    let (kept, left) = leave_room_state w k.user_id c r s in
    rw (kept, left, stored, managed)
      (removed-Agrees k.user_id c k.sender t m (close_participant r c m) sockets known a
        (close_participant-Placed m a.placed r c)
        (λ d q e. ground (arith, e, lookup-remove c d m.connection_rooms)))

disconnect-IsAgreed :
    (w : World) (c : ObjectId) (k : Socket) (s : System)
    → lookup c s.sockets ≡ some k
    → IsAgreed s
    → IsAgreed (disconnect w c k s)
unfolding socket_closed get_connection_room
disconnect-IsAgreed w c k s here a =
    closed-Agrees w c k
      (record s.server {
        hub = unregister_controller w.env k.user_id k.rc_controller_tx s.server.hub;
        storage = remove_sender k.user_id c k.sender s.server.storage;
      })
      s.server.manager s.server.storage s.sockets (lookup c s.server.manager.connection_rooms) refl
      refl refl (a.senders c ∙ ap sender_of here) a

step-IsAgreed : {s s' : System} → Step s s' → IsAgreed s → IsAgreed s'
unfolding agent_opened agent_message agent_closed
step-IsAgreed {s} (Step.opened w u username unknown fresh) a =
    connect-IsAgreed w u username s unknown fresh a
step-IsAgreed {s} (Step.arrived w c k frame here) a =
    tidied s.server.storage _ s.server.manager _ s.sockets a (
      handle_client_message-Tidy s.server.storage (λ d. contains_key d s.sockets)
        (record w { db = s.db }) c k frame s.server (ground (arith, here))
        (refl, a.placed, a.listed))
step-IsAgreed {s} (Step.closed w c k here) a = disconnect-IsAgreed w c k s here a
step-IsAgreed (Step.agent_connects w agent_id t owner os max) a = a
step-IsAgreed (Step.agent_speaks w agent_id msg) a = a
step-IsAgreed (Step.agent_leaves w agent_id) a = a
step-IsAgreed {s} (Step.starts w t r u) a =
    tidied s.server.storage _ s.server.manager _ s.sockets a (
      call_start-Tidy s.server.storage (λ d. contains_key d s.sockets) w t r u s.server s.db
        (refl, a.placed, a.listed))
step-IsAgreed {s} (Step.joins w t r u) a =
    tidied s.server.storage _ s.server.manager _ s.sockets a (
      call_join-Tidy s.server.storage (λ d. contains_key d s.sockets) w t r u s.server s.db
        (refl, a.placed, a.listed))
step-IsAgreed {s} (Step.leaves w t r u) a =
    tidied s.server.storage _ s.server.manager _ s.sockets a (
      call_leave-Tidy s.server.storage (λ d. contains_key d s.sockets) w t r u s.server s.db
        (refl, a.placed, a.listed))
step-IsAgreed {s} (Step.ends w t r u) a = tidied s.server.storage _ s.server.manager _ s.sockets a (
    call_end-Tidy s.server.storage (λ d. contains_key d s.sockets) w t r u s.server s.db
      (refl, a.placed, a.listed))

Reachable-IsAgreed :
    {turn : TurnSettings} {workers : List ObjectId} {db : Database} {s : System}
    → Reachable turn workers db s
    → IsAgreed s
unfolding lookup
Reachable-IsAgreed Reachable.first = record {
  exact = new-IsExact;
  senders = λ c. refl;
  placed = λ c r e. cc;
  listed = λ c r e. cc;
}
Reachable-IsAgreed (Reachable.next before step) = step-IsAgreed step (Reachable-IsAgreed before)

-- However browsers connect, each with a sender that no open connection has, send requests and
-- disconnect, agents speak and call routes are used: the registry's connections are the open
-- sockets with their users and senders; a user's senders are exactly those of the user's open
-- sockets; and a connection that is listed under a media room is an open socket and takes part in
-- that room.
pub Reachable-listed :
    {turn : TurnSettings} {workers : List ObjectId} {db : Database} {s : System} (c r : ObjectId)
    → Reachable turn workers db s
    → ((d : ObjectId) → lookup d s.server.storage.connection_map ≡ sender_of (lookup d s.sockets))
      × ((u x : ObjectId)
          → (contains x (get_senders u s.server.storage) ≡ true)
            ↔ ((d : ObjectId) × (sender_of (lookup d s.sockets) ≡ some (u, x))))
      × (get_connection_room c s.server.manager ≡ some r
          → (contains_key c s.sockets ≡ true) × (held c (lookup r s.server.manager.rooms) ≡ true))
unfolding get_connection_room
Reachable-listed c r reached =
    let a = Reachable-IsAgreed reached in
    (
      a.senders,
      λ u x. (
        λ e. let (d, there) = a.exact.sound u x e in (d, sym (a.senders d) ∙ there),
        λ (d, there). a.exact.complete d u x (a.senders d ∙ there),
      ),
      λ e. (a.listed c r e, a.placed c r e),
    )
