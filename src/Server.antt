-- ===== src/Server.antt =====
-- crates/api/src/ws: the server behind the WebSockets. `Server` is what `AppState` shares between
-- the tasks: the sockets, the media rooms and the remote-control hub. `World` is what one call takes
-- from outside: mediasoup, the clock, the fresh identifiers and the documents of the database.
use roomler.Prelude.{ℕ, Bool, Option, none, some, List, [], ◌∷◌, Text, Map, if◌then◌else◌}
use roomler.RemoteControl.Models.{ObjectId}
use roomler.RemoteControl.Signaling.{IceServer}
use roomler.RemoteControl.Hub.State.{Hub, Env}
use roomler.Conference.{Database}
use roomler.Sockets.{WsStorage, get_senders, get_sender_by_connection}
use roomler.Media.Rooms.{RoomManager, Engine, MediaKind, MediaError}
pub mod Ice
pub mod Media
pub mod Remote
pub mod Socket
pub mod Calls
pub mod Keeps
pub mod Tidy
pub mod Routes
pub mod Reach
pub mod Agreed
pub mod Departure
pub mod Ghost
pub mod Ending
pub mod Relay
mod Tests

-- What a refused media request is answered.
pub data Complaint : Type 0 where
  missing_data missing_room_id invalid_room_id room_does_not_exist : Complaint
  missing_producer_id invalid_producer_id invalid_kind : Complaint
  invalid_rtp_parameters invalid_rtp_capabilities : Complaint
  create_transports_failed produce_failed consume_failed : MediaError → Complaint

-- The messages sent to browsers.
pub data ServerEvent : Type 0 where
  connected : (user : ObjectId) → ServerEvent
  pong : ServerEvent
  typing_start typing_stop : (room : Text) (user : ObjectId) → ServerEvent
  presence_update : (user : ObjectId) (presence : Text) → ServerEvent
  media_error : Complaint → ServerEvent
  router_capabilities : (router : ObjectId) → ServerEvent
  transport_created :
      (send_transport recv_transport : ObjectId) (ice_servers : List IceServer) (force_relay : Bool)
      → ServerEvent
  new_producer :
      (producer user connection : ObjectId) (kind : MediaKind) (source : Text) → ServerEvent
  produce_result : (producer : ObjectId) → ServerEvent
  consumer_created : (consumer producer : ObjectId) → ServerEvent
  producer_closed : (producer user : ObjectId) → ServerEvent
  peer_left : (user : ObjectId) (connection : Option ObjectId) (room : ObjectId) → ServerEvent
  audio_start : (file_url file_id filename room : Text) → ServerEvent
  audio_stop : (playback_id room : Text) → ServerEvent
  call_started : (room : ObjectId) (room_name : Text) (started_by : ObjectId) → ServerEvent
  call_updated : (room : ObjectId) (participant_count : ℕ) → ServerEvent
  call_ended room_closed : (room : ObjectId) → ServerEvent

-- `sent` lists the writes to sockets and `published` the messages to Redis, newest first.
pub record Server : Type 0 where
  pub storage : WsStorage
  pub manager : RoomManager
  pub hub : Hub
  pub sent : List (ℕ × ServerEvent)
  pub published : List (List ObjectId × ServerEvent)

pub record TurnSettings : Type 0 where
  pub url : Option Text
  pub username : Option Text
  pub password : Option Text
  pub shared_secret : Option Text
  pub force_relay : Option Bool

-- Of the database, the rooms are a state of their own and the rest is answers: who belongs to a
-- tenant, the name a user is shown by, and the name of a tenant's file.
pub record World : Type 0 where
  pub engine : Engine
  pub env : Env
  pub connection_id : ObjectId
  pub sender : ℕ
  pub parse_hex : Text → Option ObjectId
  pub db : Database
  pub is_member : ObjectId → ObjectId → Bool
  pub display_name : ObjectId → Option Text
  pub filename : ObjectId → ObjectId → Option Text
  pub turn : TurnSettings
  pub has_redis : Bool

abbrev pub send : ℕ → ServerEvent → Server → Server
send sender event s = record s { sent = (sender, event) ∷ s.sent }

abbrev pub send_all : List ℕ → ServerEvent → Server → Server
send_all [] event s = s
send_all (t ∷ rest) event s = send_all rest event (send t event s)

unfoldable pub broadcast : List ObjectId → ServerEvent → Server → Server
broadcast [] event s = s
broadcast (u ∷ users) event s = broadcast users event (send_all (get_senders u s.storage) event s)

unfoldable pub send_to_user : ObjectId → ServerEvent → Server → Server
send_to_user user_id event s = broadcast (user_id ∷ []) event s

abbrev pub publish : Bool → List ObjectId → ServerEvent → Server → Server
publish has_redis users event s = record s {
  published = if has_redis then (users, event) ∷ s.published else s.published;
}

unfoldable pub broadcast_with_redis : World → List ObjectId → ServerEvent → Server → Server
broadcast_with_redis w users event s = publish w.has_redis users event (broadcast users event s)

unfoldable pub send_to_connection : ObjectId → ServerEvent → Server → Server
send_to_connection connection_id event s = elim (get_sender_by_connection connection_id s.storage) [
  | none ↦ s
  | some sender ↦ send sender event s
]

-- The loops over the other connections of a room.
unfoldable pub send_to_connections : List ObjectId → ServerEvent → Server → Server
send_to_connections [] event s = s
send_to_connections (c ∷ rest) event s =
    send_to_connections rest event (send_to_connection c event s)
