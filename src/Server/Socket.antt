-- ===== src/Server/Socket.antt =====
-- crates/api/src/ws/handler.rs: the life of a browser's WebSocket. The local variables of the
-- running `handle_socket` tasks are the `sockets` of a `System`, by connection.
use roomler.Prelude.{Bool, Option, none, some, Text, ◌==◌, not, retain}
use roomler.RemoteControl.Models.{ObjectId}
use roomler.RemoteControl.Signaling.{ClientMsg}
use roomler.RemoteControl.Session.{ClientTx}
use roomler.RemoteControl.Hub.Connect.{register_controller, unregister_controller}
use roomler.Conference.{find_member_user_ids}
use roomler.Sockets.{add, remove_sender, all_user_ids}
use roomler.Media.Rooms.Closing.{get_connection_room}
use roomler.Server.{Server, ServerEvent, World, send, send_to_user, broadcast_with_redis}
use roomler.Server.Media.{
  MediaData, want, room_of, room_id_of, handle_media_join, handle_media_connect_transport,
  handle_media_produce, handle_media_consume, handle_media_producer_close, leave_room,
  handle_media_leave, handle_play_audio, handle_stop_audio,
}
use roomler.Server.Remote.{set_hub, dispatch_controller_rc}

pub record Socket : Type 0 where
  pub user_id : ObjectId
  pub username : Text
  pub sender : ObjectId
  pub rc_controller_tx : ClientTx

-- A text frame: a remote-control message, a request by its type, or anything else.
pub data Frame : Type 0 where
  remote : ClientMsg → Frame
  ping unknown : Frame
  typing_start typing_stop presence_update : Option MediaData → Frame
  media_join media_connect_transport media_produce media_consume : Option MediaData → Frame
  media_producer_close media_leave media_play_audio media_stop_audio : Option MediaData → Frame

abbrev pub is_other : ObjectId → ObjectId → Bool
is_other user_id id = not (id == user_id)

abbrev pub presence_of : Option MediaData → Option Text
presence_of none = none
presence_of (some d) = d.presence

module _ (w : World) where
  abbrev pub typing : ObjectId → (Text → ServerEvent) → Option MediaData → Server → Server
  typing user_id event payload = want (room_of payload) (λ room.
      want (room_id_of payload) (λ room_id.
        broadcast_with_redis w (retain (is_other user_id) (find_member_user_ids room_id w.db))
          (event room)))

  unfoldable pub handle_client_message : ObjectId → Socket → Frame → Server → Server
  handle_client_message c k (remote msg) s =
      set_hub (dispatch_controller_rc w k.user_id k.username k.rc_controller_tx (some msg) s.hub).1
        s
  handle_client_message c k ping s = send_to_user k.user_id ServerEvent.pong s
  handle_client_message c k unknown s = s
  handle_client_message c k (typing_start payload) s =
      typing k.user_id (λ room. ServerEvent.typing_start room k.user_id) payload s
  handle_client_message c k (typing_stop payload) s =
      typing k.user_id (λ room. ServerEvent.typing_stop room k.user_id) payload s
  handle_client_message c k (presence_update payload) s =
      want (presence_of payload)
        (λ presence s'.
          broadcast_with_redis w (all_user_ids s'.storage)
            (ServerEvent.presence_update k.user_id presence) s')
        s
  handle_client_message c k (media_join payload) s = handle_media_join w k.user_id c payload s
  handle_client_message c k (media_connect_transport payload) s =
      handle_media_connect_transport w k.user_id c payload s
  handle_client_message c k (media_produce payload) s = handle_media_produce w k.user_id c payload s
  handle_client_message c k (media_consume payload) s = handle_media_consume w k.user_id c payload s
  handle_client_message c k (media_producer_close payload) s =
      handle_media_producer_close w k.user_id c payload s
  handle_client_message c k (media_leave payload) s = handle_media_leave w k.user_id c payload s
  handle_client_message c k (media_play_audio payload) s = handle_play_audio w k.user_id c payload s
  handle_client_message c k (media_stop_audio payload) s = handle_stop_audio w k.user_id c payload s

  -- `handle_socket` up to its read loop: the new task's variables, and the server.
  unfoldable pub socket_opened : ObjectId → Text → Server → Socket × Server
  socket_opened user_id username s =
      let (tx, hub) = register_controller w.env user_id s.hub in
      (
        record { user_id = user_id; username = username; sender = w.sender; rc_controller_tx = tx },
        send w.sender (ServerEvent.connected user_id)
            (record s { storage = add user_id w.connection_id w.sender s.storage; hub = hub }),
      )

  abbrev pub leave_current : ObjectId → ObjectId → Option ObjectId → Server → Server
  leave_current user_id c none s = s
  leave_current user_id c (some room_id) s = leave_room w user_id c room_id s

  -- `handle_socket` after its read loop.
  unfoldable pub socket_closed : ObjectId → Socket → Server → Server
  socket_closed c k s =
      let s' : Server = record s {
        hub = unregister_controller w.env k.user_id k.rc_controller_tx s.hub;
        storage = remove_sender k.user_id c k.sender s.storage;
      } in
      leave_current k.user_id c (get_connection_room c s'.manager) s'
