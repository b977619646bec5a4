-- ===== src/Server/Media.antt =====
-- crates/api/src/ws/handler.rs: the media requests of a browser.
use roomler.Prelude.{
  ◌/◌, Bool, false, Option, none, some, List, [], ◌∷◌, ◌++◌, Text, text, lookup, if◌then◌else◌,
}
use roomler.RemoteControl.Models.{ObjectId}
use roomler.Media.Rooms.{
  MediaResult, ok, err, MediaKind, audio, video, RoomManager, create_transports, connect_transport,
  produce, consume,
}
use roomler.Media.Rooms.Closing.{
  has_room, get_producer_ids, get_other_connection_ids, close_producer, close_participant,
  remove_rtp_tap,
}
use roomler.Server.{
  Server, ServerEvent, Complaint, World, send_to_user, send_to_connection, send_to_connections,
}
use roomler.Server.Ice.{ice_servers}

-- An identifier in a message: absent or no string, a string that does not parse, or one that does.
pub data Field : Type 0 where
  missing : Field
  invalid : Text → Field
  given : Text → ObjectId → Field

abbrev pub raw : Field → Option Text
raw missing = none
raw (invalid t) = some t
raw (given t id) = some t

abbrev pub parsed : Field → Option ObjectId
parsed (given t id) = some id
parsed _ = none

-- The fields of a message's `data`. Of what only mediasoup reads, whether it can be decoded.
pub record MediaData : Type 0 where
  pub room_id : Field
  pub transport_id : Field
  pub dtls_parameters : Option (Unit {0})
  pub kind : Option MediaKind
  pub rtp_parameters : Option (Unit {0})
  pub source : Option Text
  pub producer_id : Field
  pub rtp_capabilities : Option (Unit {0})
  pub file_id : Field
  pub playback_id : Option Text
  pub presence : Option Text

unfoldable pub send_media_error : ObjectId → Complaint → Server → Server
send_media_error user_id complaint s = send_to_user user_id (ServerEvent.media_error complaint) s

-- A value that the handler cannot do without: it complains, or returns silently.
unfoldable pub need :
    {A : Type 0} → ObjectId → Complaint → Option A → (A → Server → Server) → Server → Server
need user_id complaint none f s = send_media_error user_id complaint s
need user_id complaint (some a) f s = f a s

unfoldable pub want : {A : Type 0} → Option A → (A → Server → Server) → Server → Server
want none f s = s
want (some a) f s = f a s

abbrev pub room_of : Option MediaData → Option Text
room_of none = none
room_of (some d) = raw d.room_id

abbrev pub room_id_of : Option MediaData → Option ObjectId
room_id_of none = none
room_id_of (some d) = parsed d.room_id

abbrev pub set_manager : RoomManager → Server → Server
set_manager manager s = record s { manager = manager }

-- `if !conns.is_empty()` around the loop changes nothing.
abbrev pub tell_others : ObjectId → ObjectId → ServerEvent → Server → Server
tell_others room_id connection_id event s =
    send_to_connections (get_other_connection_ids room_id connection_id s.manager) event s

abbrev pub tell_producers :
    ObjectId → List (ObjectId × ObjectId × ObjectId × MediaKind × Text) → Server → Server
tell_producers connection_id [] s = s
tell_producers connection_id ((user, conn, producer, kind, source) ∷ rest) s =
    tell_producers connection_id rest
      (send_to_connection connection_id (ServerEvent.new_producer producer user conn kind source) s)

abbrev pub tell_capabilities : ObjectId → ObjectId → Server → Server
tell_capabilities room_id connection_id s = elim (lookup room_id s.manager.rooms) [
  | none ↦ s
  | some room ↦ send_to_connection connection_id (ServerEvent.router_capabilities room.router) s
]

abbrev pub or_false : Option Bool → Bool
or_false none = false
or_false (some b) = b

abbrev pub default_source : MediaKind → Text
default_source audio = text "audio"
default_source video = text "camera"

abbrev pub source_of : MediaData → MediaKind → Text
source_of d kind = elim d.source [ none ↦ default_source kind | some source ↦ source ]

module _ (w : World) (user_id connection_id : ObjectId) where
  abbrev pub join_answered : ObjectId → MediaResult (ObjectId × ObjectId) → Server → Server
  join_answered room_id (err e) s =
      send_media_error user_id (Complaint.create_transports_failed e) s
  join_answered room_id (ok (send_transport, recv_transport)) s =
      let servers = ice_servers w.env.sign (w.env.now / 1000) (w.env.to_hex user_id) w.turn in
      tell_producers connection_id (get_producer_ids room_id connection_id s.manager) (
        send_to_connection connection_id
          (ServerEvent.transport_created send_transport recv_transport servers
            (or_false w.turn.force_relay))
          (tell_capabilities room_id connection_id s))

  unfoldable pub handle_media_join : Option MediaData → Server → Server
  handle_media_join payload = need user_id Complaint.missing_room_id (room_of payload) (λ _.
      need user_id Complaint.invalid_room_id (room_id_of payload) (λ room_id s.
        let (answer, manager) =
          create_transports w.engine room_id user_id connection_id s.manager in
        if has_room room_id s.manager
        then join_answered room_id answer (set_manager manager s)
        else send_media_error user_id Complaint.room_does_not_exist s))

  unfoldable pub handle_media_connect_transport : Option MediaData → Server → Server
  handle_media_connect_transport payload = want payload (λ d. want (raw d.room_id) (λ _.
      want (raw d.transport_id) (λ _. want d.dtls_parameters (λ _.
        want (parsed d.room_id) (λ room_id s.
          set_manager
            (connect_transport w.engine room_id connection_id (parsed d.transport_id) s.manager).1
            s)))))

  abbrev pub produce_answered : ObjectId → MediaKind → Text → MediaResult ObjectId → Server → Server
  produce_answered room_id kind source (err e) s =
      send_media_error user_id (Complaint.produce_failed e) s
  produce_answered room_id kind source (ok producer) s =
      tell_others room_id connection_id
        (ServerEvent.new_producer producer user_id connection_id kind source)
        (send_to_connection connection_id (ServerEvent.produce_result producer) s)

  unfoldable pub handle_media_produce : Option MediaData → Server → Server
  handle_media_produce payload = need user_id Complaint.missing_data payload (λ d.
      need user_id Complaint.missing_room_id (raw d.room_id) (λ _.
        need user_id Complaint.invalid_kind d.kind (λ kind.
          need user_id Complaint.invalid_rtp_parameters d.rtp_parameters (λ _.
            need user_id Complaint.invalid_room_id (parsed d.room_id) (λ room_id s.
              let source = source_of d kind in
              let (answer, manager) =
                produce w.engine room_id connection_id kind source s.manager in
              produce_answered room_id kind source answer (set_manager manager s))))))

  abbrev pub consume_answered : ObjectId → MediaResult ObjectId → Server → Server
  consume_answered producer (err e) s = send_media_error user_id (Complaint.consume_failed e) s
  consume_answered producer (ok consumer) s =
      send_to_connection connection_id (ServerEvent.consumer_created consumer producer) s

  unfoldable pub handle_media_consume : Option MediaData → Server → Server
  handle_media_consume payload = need user_id Complaint.missing_data payload (λ d.
      need user_id Complaint.missing_room_id (raw d.room_id) (λ _.
        need user_id Complaint.missing_producer_id (raw d.producer_id) (λ _.
          need user_id Complaint.invalid_rtp_capabilities d.rtp_capabilities (λ _.
            need user_id Complaint.invalid_room_id (parsed d.room_id) (λ room_id.
              need user_id Complaint.invalid_producer_id (parsed d.producer_id) (λ producer s.
                let (answer, manager) = consume w.engine room_id connection_id producer s.manager in
                consume_answered producer answer (set_manager manager s)))))))

  unfoldable pub handle_media_producer_close : Option MediaData → Server → Server
  handle_media_producer_close payload = want payload (λ d. want (raw d.room_id) (λ _.
      want (raw d.producer_id) (λ _. want (parsed d.room_id) (λ room_id.
        want (parsed d.producer_id) (λ producer s.
          let (closed, manager) = close_producer room_id connection_id producer s.manager in
          if closed
          then tell_others room_id connection_id (ServerEvent.producer_closed producer user_id)
              (set_manager (remove_rtp_tap room_id producer manager) s)
          else set_manager manager s)))))

  -- The others are read before the participant is closed.
  unfoldable pub leave_room : ObjectId → Server → Server
  leave_room room_id s =
      send_to_connections (get_other_connection_ids room_id connection_id s.manager)
        (ServerEvent.peer_left user_id (some connection_id) room_id)
        (set_manager (close_participant room_id connection_id s.manager) s)

  unfoldable pub handle_media_leave : Option MediaData → Server → Server
  handle_media_leave payload = want (room_of payload) (λ _. want (room_id_of payload) leave_room)

  abbrev pub file_url : ObjectId → ObjectId → Text
  file_url tenant file =
      text "/api/tenant/"
      ++ w.env.to_hex tenant
      ++ text "/file/"
      ++ w.env.to_hex file
      ++ text "/download"

  abbrev pub tell_room : ObjectId → ServerEvent → Server → Server
  tell_room room_id event s =
      tell_others room_id connection_id event (send_to_connection connection_id event s)

  unfoldable pub handle_play_audio : Option MediaData → Server → Server
  handle_play_audio payload = want payload (λ d. want (raw d.room_id) (λ room.
      want (raw d.file_id) (λ file_id. want (parsed d.room_id) (λ room_id.
        want (parsed d.file_id) (λ file. want (lookup room_id w.db.rooms) (λ found.
          want (w.filename found.tenant_id file) (λ filename.
            tell_room room_id
              (ServerEvent.audio_start (file_url found.tenant_id file) file_id filename room))))))))

  unfoldable pub handle_stop_audio : Option MediaData → Server → Server
  handle_stop_audio payload = want payload (λ d. want (raw d.room_id) (λ room.
      want d.playback_id (λ playback_id.
        want (parsed d.room_id)
          (λ room_id. tell_room room_id (ServerEvent.audio_stop playback_id room)))))
