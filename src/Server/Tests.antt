-- ===== src/Server/Tests.antt =====
-- A server with one room and two browsers, and the theorems at it.
use roomler.Prelude.{
  contains, ◌↔◌, ℕ, ◌+◌, ◌≡◌, refl, true, false, none, some, List, [], ◌∷◌, ◌++◌, Text, lookup,
  insert, modify, remove, text, contains_key, arith,
}
use roomler.RemoteControl.Hub.State.{Env}
use roomler.RemoteControl.TurnCreds.{TurnConfig, username_for}
use roomler.RemoteControl.Hub.Connect.{register_controller}
use roomler.Conference.{Database, Room, RoomMember, in_progress, end_call}
use roomler.Sockets.{get_sender_by_connection}
use roomler.Media.Rooms.{Engine, RoomManager, MediaRoom, create_transports}
use roomler.Media.Rooms.Closing.{get_connection_room, get_other_connection_ids, remove_room}
use roomler.Media.Rooms.Placed.{held}
use roomler.Server.{get_senders, Server, ServerEvent, World, TurnSettings}
use roomler.Server.Ice.{ice_servers, build_turn_config, is_plain}
use roomler.Server.Media.{MediaData, Field, handle_media_join, set_manager}
use roomler.Server.Socket.{Socket, Frame, socket_opened, socket_closed, handle_client_message}
use roomler.Server.Calls.{call_start, call_end, done, tell_members}
use roomler.Server.Reach.{System, Step, Reachable, start, sender_of, connect}
use roomler.Server.Agreed.{Reachable-listed}
use roomler.Server.Departure.{deliveries, socket_closed_outcome}
use roomler.Server.Ghost.{Joinable, socket_closed_ghost}
use roomler.Server.Ending.{call_end_lem}
use roomler.Server.Relay.{Shared, ice_servers-build_turn_config}

abbrev engine : Engine
engine = record {
  create_router = λ worker. some 1;
  new_send = λ router. some 10;
  new_recv = λ router. some 11;
  connects = λ transport. true;
  produces = λ transport kind. some 20;
  can_consume = λ router producer. true;
  consumes = λ transport producer. some 30;
  resumes = λ consumer. true;
  describes = λ thing. true;
  direct_transport = λ router. some 12;
}

abbrev env : Env
env = record {
  now = 5000;
  new_id = 100;
  new_tx = 9;
  default_id = 0;
  to_hex = λ id. id ∷ [];
  sign = λ secret name. name;
  takes = λ sent tx msg. true;
  sink_takes = λ kept entry. true;
}

abbrev turn : TurnSettings
turn = record {
  url = some (text "turn:relay:3478");
  username = none;
  password = none;
  shared_secret = some (text "s");
  force_relay = none;
}

-- The users 5 and 6 are both in the call of the room 1.
abbrev attendee : ℕ → RoomMember
attendee user_id = record {
  tenant_id = 7;
  room_id = 1;
  user_id = user_id;
  display_name = none;
  sessions = record { joined_at = 0; left_at = none } ∷ [];
}

abbrev lobby : Room
lobby = record {
  tenant_id = 7;
  parent_id = none;
  name = text "lobby";
  path = text "lobby";
  is_open = true;
  creator_id = 5;
  conference_status = some in_progress;
  member_count = 3;
  participant_count = 2;
}

abbrev db : Database
db = record { rooms = (1, lobby) ∷ []; members = attendee 5 ∷ attendee 6 ∷ [] }

abbrev w : World
w = record {
  engine = engine;
  env = env;
  connection_id = 50;
  sender = 500;
  parse_hex = λ t. none;
  db = db;
  is_member = λ tenant user. true;
  display_name = λ user. some (text "Ana");
  filename = λ tenant file. none;
  turn = turn;
  has_redis = false;
}

abbrev about : ℕ → MediaData
about room = record {
  room_id = Field.given (text "r") room;
  transport_id = Field.missing;
  dtls_parameters = none;
  kind = none;
  rtp_parameters = none;
  source = none;
  producer_id = Field.missing;
  rtp_capabilities = none;
  file_id = Field.missing;
  playback_id = none;
  presence = none;
}

abbrev socket : Socket
socket = record { user_id = 5; username = text "ana"; sender = 500; rc_controller_tx = 9 }

-- The browser connects, the call starts, and the browser joins its media room.
abbrev online : System
unfolding socket_opened
online = connect w 5 (text "ana") (start turn (4 ∷ []) db)

abbrev calling : System
calling =
    let answer = call_start w 7 1 5 online.server online.db in
    record online { server = answer.1; db = answer.2 }

abbrev joined : System
joined = record calling {
  server =
      handle_client_message (record w { db = calling.db }) 50 socket
        (Frame.media_join (some (about 1))) calling.server;
}

here : lookup 50 calling.sockets ≡ some socket
unfolding socket_opened register_controller lookup insert
here = refl

joined-Reachable : Reachable turn (4 ∷ []) db joined
unfolding lookup insert online
joined-Reachable =
    Reachable.next
      (Reachable.next
        (Reachable.next Reachable.first (Step.opened w 5 (text "ana") refl (λ d k e. cc)))
        (Step.starts w 7 1 5))
      (Step.arrived w 50 socket (Frame.media_join (some (about 1))) here)

Reachable-listed_example :
    ((d : ℕ) → lookup d joined.server.storage.connection_map ≡ sender_of (lookup d joined.sockets))
    × ((u x : ℕ)
        → (contains x (get_senders u joined.server.storage) ≡ true)
          ↔ ((d : ℕ) × (sender_of (lookup d joined.sockets) ≡ some (u, x))))
    × (get_connection_room 50 joined.server.manager ≡ some 1
        → (contains_key 50 joined.sockets ≡ true)
          × (held 50 (lookup 1 joined.server.manager.rooms) ≡ true))
Reachable-listed_example = Reachable-listed 50 1 joined-Reachable

-- Two media rooms; the connection 50 is listed under the room 1 with the connection 60.
abbrev empty_room : MediaRoom
empty_room = record { router = 1; participants = []; rtp_taps = [] }

abbrev manager : RoomManager
manager = record {
  rooms = (1, empty_room) ∷ (2, empty_room) ∷ [];
  connection_rooms = [];
  workers = 4 ∷ [];
  next = 0;
}

abbrev server : Server
server = record online.server { manager = manager }

abbrev listed : Server
listed =
    set_manager (create_transports engine 1 6 60 (create_transports engine 1 5 50 manager).1).1
      server

is_listed : get_connection_room 50 listed.manager ≡ some 1
unfolding get_connection_room create_transports lookup insert remove modify
is_listed = refl

socket_closed_outcome_example :
    let s' = socket_closed w 50 socket listed in
    (get_sender_by_connection 50 s'.storage ≡ none)
    × (get_connection_room 50 s'.manager ≡ none)
    × (held 50 (lookup 1 s'.manager.rooms) ≡ false)
    × (s'.sent
        ≡ deliveries s'.storage
            (get_other_connection_ids 1 50 listed.manager)
            (ServerEvent.peer_left 5 (some 50) 1)
          ++ listed.sent)
socket_closed_outcome_example = socket_closed_outcome w 50 1 socket listed is_listed

joinable : (r : ℕ) → lookup r manager.rooms ≡ some empty_room → Joinable engine r manager
joinable r e = (empty_room, e, 10, refl, 11, refl)

stored : (lookup 1 manager.rooms ≡ some empty_room) × (lookup 2 manager.rooms ≡ some empty_room)
unfolding lookup
stored = (refl, refl)

socket_closed_ghost_example :
    let s' =
      handle_media_join w 5 50
        (some (about 2))
        (handle_media_join w 5 50 (some (about 1)) server) in
    held 50 (lookup 1 (socket_closed w 50 socket s').manager.rooms) ≡ true
socket_closed_ghost_example =
    socket_closed_ghost w socket 50 1 2 (text "r") (text "r") (about 1) (about 2) server
      (λ e. omega (arith, e)) refl refl (joinable 1 stored.0) (joinable 2 stored.1)

call_end_lem_example :
    let db' = end_call 1 db in
    let s' = set_manager (remove_room 1 listed.manager).1 listed in
    call_end w 7 1 5 listed db ≡ (done, tell_members w 7 1 5 (ServerEvent.call_ended 1) s' db', db')
call_end_lem_example = call_end_lem w 7 1 5 listed db refl

lobby_stored : lookup 1 db.rooms ≡ some lobby
unfolding lookup
lobby_stored = refl

ice_servers-build_turn_config_example :
    (config : TurnConfig) × (urls : List Text) × (more : List Text) × (build_turn_config turn
      ≡ some config)
    × Shared (text "turn:relay:3478") urls
    × (config.shared_secret ≡ text "s")
    × (config.urls ≡ urls ++ more)
    × (is_plain (text "turn:relay:3478") ≡ false → more ≡ [])
    × (ice_servers env.sign 5 (text "u") turn
        ≡ record {
          urls = urls;
          username = some (username_for (5 + 86400) (text "u"));
          credential = some (env.sign config.shared_secret (username_for (5 + 86400) (text "u")));
        }
          ∷ [])
ice_servers-build_turn_config_example =
    ice_servers-build_turn_config env.sign 5 (text "u") (text "turn:relay:3478") (text "s") turn
      refl refl
