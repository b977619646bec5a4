-- ===== src/Server/Reach.antt =====
-- The server under any interleaving of whole requests, and what its parts agree on.
use roomler.Prelude.{
  ◌≢◌, ℕ, ◌≡◌, Option, none, some, List, [], Text, Map, lookup, insert, remove, contains_key,
}
use roomler.RemoteControl.Models.{ObjectId, OsKind}
use roomler.RemoteControl.Signaling.{ClientMsg}
use roomler.RemoteControl.Hub.State
use roomler.Conference.{Database}
use roomler.Sockets
use roomler.Sockets.{WsStorage, add, remove_sender}
use roomler.Sockets.Exact.{IsExact}
use roomler.Media.Rooms.{RoomManager}
use roomler.Media.Rooms.Events
use roomler.Media.Rooms.Placed.{IsPlaced}
use roomler.Media.Rooms.Listing.{Within}
use roomler.Server.{Server, World, TurnSettings}
use roomler.Server.Ice.{build_turn_config}
use roomler.Server.Remote.{agent_opened, agent_message, agent_closed}
use roomler.Server.Socket.{Socket, Frame, handle_client_message, socket_opened, socket_closed}
use roomler.Server.Calls.{Answer, call_start, call_join, call_leave, call_end}
use roomler.Server.Tidy.{Tidy}

-- The shared state, the rooms in the database, and the local variables of the tasks that serve the
-- browsers, by connection.
pub record System : Type 0 where
  pub server : Server
  pub db : Database
  pub sockets : Map Socket

abbrev pub answered : System → Answer → System
answered s (result, server, db) = record s { server = server; db = db }

abbrev pub connect : World → ObjectId → Text → System → System
connect w user_id username s =
    let (k, server) = socket_opened w user_id username s.server in
    record s { server = server; sockets = insert w.connection_id k s.sockets }

abbrev pub disconnect : World → ObjectId → Socket → System → System
disconnect w c k s = record s {
  server = socket_closed w c k s.server;
  sockets = remove c s.sockets;
}

-- A browser connects under a new identifier, with a sender that no open connection has (its address,
-- which an open connection holds); an open one sends a frame or disconnects; an agent does; a route
-- is called.
pub data Step (s : System) : System → Type 0 where
  opened :
      (w : World) (user_id : ObjectId) (username : Text)
      → lookup w.connection_id s.sockets ≡ none
      → ((d : ObjectId) (k : Socket) → lookup d s.sockets ≡ some k → k.sender ≢ w.sender)
      → Step s (connect w user_id username s)
  arrived :
      (w : World) (c : ObjectId) (k : Socket) (frame : Frame)
      → lookup c s.sockets ≡ some k
      → Step s
          (record s { server = handle_client_message (record w { db = s.db }) c k frame s.server })
  closed :
      (w : World) (c : ObjectId) (k : Socket)
      → lookup c s.sockets ≡ some k
      → Step s (disconnect w c k s)
  agent_connects :
      (w : World) (agent_id tenant_id owner : ObjectId) (os : OsKind) (max_sessions : ℕ)
      → Step s
          (record s { server = agent_opened w agent_id tenant_id owner os max_sessions s.server })
  agent_speaks :
      (w : World) (agent_id : ObjectId) (msg : ClientMsg)
      → Step s (record s { server = agent_message w agent_id msg s.server })
  agent_leaves :
      (w : World) (agent_id : ObjectId)
      → Step s (record s { server = agent_closed w agent_id s.server })
  starts : (w : World) (t r u : ObjectId) → Step s (answered s (call_start w t r u s.server s.db))
  joins : (w : World) (t r u : ObjectId) → Step s (answered s (call_join w t r u s.server s.db))
  leaves : (w : World) (t r u : ObjectId) → Step s (answered s (call_leave w t r u s.server s.db))
  ends : (w : World) (t r u : ObjectId) → Step s (answered s (call_end w t r u s.server s.db))

abbrev pub start : TurnSettings → List ObjectId → Database → System
start turn workers db = record {
  server = record {
    storage = Sockets.new;
    manager = Events.new workers;
    hub = State.new (build_turn_config turn);
    sent = [];
    published = [];
  };
  db = db;
  sockets = [];
}

pub data Reachable (turn : TurnSettings) (workers : List ObjectId) (db : Database)
    : System → Type 0 where
  first : Reachable turn workers db (start turn workers db)
  next : {s s' : System} → Reachable turn workers db s → Step s s' → Reachable turn workers db s'

-- The user and the sender of an open connection.
abbrev pub sender_of : Option Socket → Option (ObjectId × ObjectId)
sender_of none = none
sender_of (some k) = some (k.user_id, k.sender)

-- The registry knows the open connections, and the rooms list no other.
pub record Agrees (storage : WsStorage) (manager : RoomManager) (sockets : Map Socket)
    : Type 0 where
  pub exact : IsExact storage
  pub senders : (c : ObjectId) → lookup c storage.connection_map ≡ sender_of (lookup c sockets)
  pub placed : IsPlaced manager
  pub listed : Within (λ c. contains_key c sockets) manager

-- A step that changes no socket and keeps the rooms tidy.
pub tidied :
    (t t' : WsStorage) (m m' : RoomManager) (sockets : Map Socket)
    → Agrees t m sockets
    → Tidy t (λ c. contains_key c sockets) t' m'
    → Agrees t' m' sockets
tidied t t' m m' sockets a (same, placed, listed) = record {
  exact = rw (same) a.exact;
  senders = λ c. rw (same) (a.senders c);
  placed = placed;
  listed = listed;
}
