-- ===== src/Server/Tidy.antt =====
-- What every request of a browser keeps: the sockets, and which connections the rooms list.
use roomler.Prelude.{◌≡◌, Bool, true, Option, Text, retain}
use roomler.RemoteControl.Models.{ObjectId}
use roomler.Conference.{find_member_user_ids}
use roomler.Sockets.{all_user_ids, WsStorage}
use roomler.Media.Rooms.{RoomManager, Engine}
use roomler.Media.Rooms.Closing.{remove_rtp_tap}
use roomler.Media.Rooms.Placed.{
  IsPlaced, close_participant-Placed, close_producer-Placed, remove_rtp_tap-Placed,
}
use roomler.Media.Rooms.Joining.{
  create_transports-Placed, connect_transport-Placed, produce-Placed, consume-Placed,
}
use roomler.Media.Rooms.Listing.{
  Within, create_transports-Within, connect_transport-Within, produce-Within, consume-Within,
  close_producer-Within, close_participant-Within,
}
use roomler.Server.{broadcast_with_redis, Server, ServerEvent, World}
use roomler.Server.Media.{want, MediaData}
use roomler.Server.Socket.{Socket, Frame, is_other, presence_of, handle_client_message, typing}
use roomler.Server.Keeps
use roomler.Server.Keeps.{Kept}

-- The connections that the test allows are the only ones listed, under storage that stays as it is.
abbrev pub Tidy : WsStorage → (ObjectId → Bool) → WsStorage → RoomManager → Type 0
Tidy storage allowed t m = (t ≡ storage) × IsPlaced m × Within allowed m

pub Tidy-Closed :
    (storage : WsStorage) (allowed : ObjectId → Bool) (engine : Engine) (c : ObjectId)
    → allowed c ≡ true
    → Keeps.Closed (Tidy storage allowed) engine c
unfolding remove_rtp_tap
Tidy-Closed storage allowed engine c a = record {
  joins = λ t m r u h. (
    h.0,
    create_transports-Placed engine m h.1 r u c,
    create_transports-Within allowed m h.2 engine r u c a,
  );
  connects = λ t m r id h. (
    h.0,
    connect_transport-Placed engine m h.1 r c id,
    connect_transport-Within allowed m h.2 engine r c id,
  );
  produces = λ t m r kind source h. (
    h.0,
    produce-Placed engine m h.1 r c kind source,
    produce-Within allowed m h.2 engine r c kind source,
  );
  consumes = λ t m r p h.
      (h.0, consume-Placed engine m h.1 r c p, consume-Within allowed m h.2 engine r c p);
  closes = λ t m r p h.
      (h.0, close_producer-Placed m h.1 r c p, close_producer-Within allowed m h.2 r c p);
  untaps = λ t m r p h. (h.0, remove_rtp_tap-Placed m h.1 r p, h.2);
  leaves = λ t m r h.
      (h.0, close_participant-Placed m h.1 r c, close_participant-Within allowed m h.2 r c);
}

module _ (storage : WsStorage) (allowed : ObjectId → Bool) where
  abbrev P : WsStorage → RoomManager → Type 0
  P = Tidy storage allowed

  module _ (w : World) where
    typing-Kept :
        (u : ObjectId) (event : Text → ServerEvent) (payload : Option MediaData)
        → Kept P (typing w u event payload)
    typing-Kept u event payload = Keeps.want-Kept P _ _ (λ room. Keeps.want-Kept P _ _ (λ room_id.
        record {
          kept =
              Keeps.broadcast_with_redis-Keeps P w
                (retain (is_other u) (find_member_user_ids room_id w.db)) (event room);
        }))

    presence-Kept :
        (u : ObjectId) (presence : Option Text)
        → Kept P (
            want presence (λ presence' s.
              broadcast_with_redis w
                (all_user_ids s.storage)
                (ServerEvent.presence_update u presence')
                s))
    presence-Kept u presence = Keeps.want-Kept P _ _ (λ presence'. record {
      kept = λ s h.
          Keeps.broadcast_with_redis-Keeps P w (all_user_ids s.storage)
            (ServerEvent.presence_update u presence') s h;
    })

    pub handle_client_message-Tidy :
        (c : ObjectId) (k : Socket) (frame : Frame) (s : Server)
        → allowed c ≡ true
        → Tidy storage allowed s.storage s.manager
        → let s' = handle_client_message w c k frame s in Tidy storage allowed s'.storage s'.manager
    unfolding handle_client_message
    handle_client_message-Tidy c k (Frame.remote msg) s a h = h
    handle_client_message-Tidy c k Frame.ping s a h =
        Keeps.send_to_user-Keeps P k.user_id ServerEvent.pong s h
    handle_client_message-Tidy c k Frame.unknown s a h = h
    handle_client_message-Tidy c k (Frame.typing_start payload) s a h =
        (typing-Kept k.user_id (λ room. ServerEvent.typing_start room k.user_id) payload).kept s h
    handle_client_message-Tidy c k (Frame.typing_stop payload) s a h =
        (typing-Kept k.user_id (λ room. ServerEvent.typing_stop room k.user_id) payload).kept s h
    handle_client_message-Tidy c k (Frame.presence_update payload) s a h =
        (presence-Kept k.user_id (presence_of payload)).kept s h
    handle_client_message-Tidy c k (Frame.media_join payload) s a h =
        (Keeps.handle_media_join-Kept P w k.user_id c (Tidy-Closed storage allowed w.engine c a)
            payload).kept
          s h
    handle_client_message-Tidy c k (Frame.media_connect_transport payload) s a h =
        (Keeps.handle_media_connect_transport-Kept P w k.user_id c
            (Tidy-Closed storage allowed w.engine c a) payload).kept
          s h
    handle_client_message-Tidy c k (Frame.media_produce payload) s a h =
        (Keeps.handle_media_produce-Kept P w k.user_id c (Tidy-Closed storage allowed w.engine c a)
            payload).kept
          s h
    handle_client_message-Tidy c k (Frame.media_consume payload) s a h =
        (Keeps.handle_media_consume-Kept P w k.user_id c (Tidy-Closed storage allowed w.engine c a)
            payload).kept
          s h
    handle_client_message-Tidy c k (Frame.media_producer_close payload) s a h =
        (Keeps.handle_media_producer_close-Kept P w k.user_id c
            (Tidy-Closed storage allowed w.engine c a) payload).kept
          s h
    handle_client_message-Tidy c k (Frame.media_leave payload) s a h =
        (Keeps.handle_media_leave-Kept P w k.user_id c (Tidy-Closed storage allowed w.engine c a)
            payload).kept
          s h
    handle_client_message-Tidy c k (Frame.media_play_audio payload) s a h =
        (Keeps.handle_play_audio-Kept P w k.user_id c (Tidy-Closed storage allowed w.engine c a)
            payload).kept
          s h
    handle_client_message-Tidy c k (Frame.media_stop_audio payload) s a h =
        (Keeps.handle_stop_audio-Kept P w k.user_id c (Tidy-Closed storage allowed w.engine c a)
            payload).kept
          s h
