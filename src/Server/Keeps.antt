-- ===== src/Server/Keeps.antt =====
-- A property of the sockets and the media rooms that the room manager's operations keep is kept by
-- every request of a browser.
use roomler.Prelude.{
  ℕ, Option, none, some, List, [], ◌∷◌, Text, lookup, Option-cases, Bool-cases, inl, inr,
  if◌then◌else◌, ◌/◌,
}
use roomler.RemoteControl.Models.{ObjectId}
use roomler.Sockets.{WsStorage, get_senders, get_sender_by_connection}
use roomler.Media.Rooms.{
  RoomManager, Engine, MediaKind, MediaResult, ok, err, create_transports, connect_transport,
  produce, consume,
}
use roomler.Media.Rooms.Closing.{
  close_producer, close_participant, remove_rtp_tap, has_room, get_producer_ids,
  get_other_connection_ids,
}
use roomler.Server.{
  Server, ServerEvent, Complaint, World, send, send_all, broadcast, send_to_user,
  broadcast_with_redis, send_to_connection, send_to_connections,
}
use roomler.Server.Ice.{ice_servers}
use roomler.Server.Media.{
  or_false, parsed, source_of, MediaData, need, want, set_manager, tell_others, tell_producers,
  tell_capabilities, tell_room, join_answered, produce_answered, consume_answered,
  handle_media_join, handle_media_connect_transport, handle_media_produce, handle_media_consume,
  handle_media_producer_close, leave_room, handle_media_leave, handle_play_audio, handle_stop_audio,
  send_media_error,
}

module _ (P : WsStorage → RoomManager → Type 0) where
  abbrev pub Holds : Server → Type 0
  Holds s = P s.storage s.manager

  abbrev pub Keeps : (Server → Server) → Type 0
  Keeps f = (s : Server) → Holds s → Holds (f s)

  pub record Kept (f : Server → Server) : Type 0 where
    pub kept : Keeps f

  send_all-Keeps : (senders : List ℕ) (event : ServerEvent) → Keeps (send_all senders event)
  send_all-Keeps [] event s h = h
  send_all-Keeps (t ∷ rest) event s h = send_all-Keeps rest event (send t event s) h

  pub broadcast-Keeps :
      (users : List ObjectId) (event : ServerEvent) → Keeps (broadcast users event)
  unfolding broadcast
  broadcast-Keeps [] event s h = h
  broadcast-Keeps (u ∷ users) event s h =
      broadcast-Keeps users event (send_all (get_senders u s.storage) event s)
        (send_all-Keeps (get_senders u s.storage) event s h)

  pub send_to_user-Keeps : (u : ObjectId) (event : ServerEvent) → Keeps (send_to_user u event)
  unfolding send_to_user
  send_to_user-Keeps u event = broadcast-Keeps (u ∷ []) event

  pub broadcast_with_redis-Keeps :
      (w : World) (users : List ObjectId) (event : ServerEvent)
      → Keeps (broadcast_with_redis w users event)
  unfolding broadcast_with_redis
  broadcast_with_redis-Keeps w users event = broadcast-Keeps users event

  pub send_to_connection-Keeps :
      (c : ObjectId) (event : ServerEvent) → Keeps (send_to_connection c event)
  unfolding send_to_connection
  send_to_connection-Keeps c event s h =
      elim (Option-cases (get_sender_by_connection c s.storage)) [
        | inl gone ↦ rw (gone, send_to_connection) h
        | inr (t, here) ↦ rw (here, send_to_connection) h
      ]

  pub send_to_connections-Keeps :
      (cs : List ObjectId) (event : ServerEvent) → Keeps (send_to_connections cs event)
  unfolding send_to_connections
  send_to_connections-Keeps [] event s h = h
  send_to_connections-Keeps (c ∷ cs) event s h =
      send_to_connections-Keeps cs event (send_to_connection c event s)
        (send_to_connection-Keeps c event s h)

  pub want-Kept :
      {A : Type 0} (o : Option A) (f : A → Server → Server)
      → ((a : A) → Kept (f a))
      → Kept (want o f)
  unfolding want
  want-Kept none f keeps = record { kept = λ s h. h }
  want-Kept (some a) f keeps = keeps a

  send_media_error-Keeps :
      (u : ObjectId) (complaint : Complaint) → Keeps (send_media_error u complaint)
  unfolding send_media_error
  send_media_error-Keeps u complaint = send_to_user-Keeps u (ServerEvent.media_error complaint)

  need-Kept :
      {A : Type 0} (u : ObjectId) (complaint : Complaint) (o : Option A) (f : A → Server → Server)
      → ((a : A) → Kept (f a))
      → Kept (need u complaint o f)
  unfolding need
  need-Kept u complaint none f keeps = record { kept = send_media_error-Keeps u complaint }
  need-Kept u complaint (some a) f keeps = keeps a

  tell_producers-Keeps :
      (c : ObjectId) (l : List (ObjectId × ObjectId × ObjectId × MediaKind × Text))
      → Keeps (tell_producers c l)
  tell_producers-Keeps c [] s h = h
  tell_producers-Keeps c ((user, conn, producer, kind, source) ∷ rest) s h =
      tell_producers-Keeps c rest
        (send_to_connection c (ServerEvent.new_producer producer user conn kind source) s)
        (send_to_connection-Keeps c (ServerEvent.new_producer producer user conn kind source) s h)

  tell_capabilities-Keeps : (r c : ObjectId) → Keeps (tell_capabilities r c)
  tell_capabilities-Keeps r c s h = elim (Option-cases (lookup r s.manager.rooms)) [
    | inl gone ↦ rw (gone, tell_capabilities) h
    | inr (room, here) ↦
        rw (here, tell_capabilities)
          (send_to_connection-Keeps c (ServerEvent.router_capabilities room.router) s h)
  ]

-- What the room manager's operations on behalf of one connection keep.
pub record Closed (P : WsStorage → RoomManager → Type 0) (engine : Engine) (c : ObjectId)
    : Type 0 where
  pub joins :
      (t : WsStorage) (m : RoomManager) (r u : ObjectId)
      → P t m
      → P t (create_transports engine r u c m).1
  pub connects :
      (t : WsStorage) (m : RoomManager) (r : ObjectId) (id : Option ObjectId)
      → P t m
      → P t (connect_transport engine r c id m).1
  pub produces :
      (t : WsStorage) (m : RoomManager) (r : ObjectId) (kind : MediaKind) (source : Text)
      → P t m
      → P t (produce engine r c kind source m).1
  pub consumes :
      (t : WsStorage) (m : RoomManager) (r p : ObjectId) → P t m → P t (consume engine r c p m).1
  pub closes :
      (t : WsStorage) (m : RoomManager) (r p : ObjectId) → P t m → P t (close_producer r c p m).1
  pub untaps :
      (t : WsStorage) (m : RoomManager) (r p : ObjectId) → P t m → P t (remove_rtp_tap r p m)
  pub leaves :
      (t : WsStorage) (m : RoomManager) (r : ObjectId) → P t m → P t (close_participant r c m)

module _ (P : WsStorage → RoomManager → Type 0) (w : World) (u c : ObjectId) where
  pub join_answered-Keeps :
      (r : ObjectId) (answer : MediaResult (ObjectId × ObjectId))
      → Keeps P (join_answered w u c r answer)
  join_answered-Keeps r (err e) s h =
      send_media_error-Keeps P u (Complaint.create_transports_failed e) s h
  join_answered-Keeps r (ok (send_transport, recv_transport)) s h =
      let servers = ice_servers w.env.sign (w.env.now / 1000) (w.env.to_hex u) w.turn in
      let event =
        ServerEvent.transport_created send_transport recv_transport servers
          (or_false w.turn.force_relay) in
      let between = tell_capabilities r c s in
      tell_producers-Keeps P c (get_producer_ids r c s.manager) (send_to_connection c event between)
        (send_to_connection-Keeps P c event between (tell_capabilities-Keeps P r c s h))

module _ (P : WsStorage → RoomManager → Type 0) (w : World) (u c : ObjectId)
    (closed : Closed P w.engine c) where
  pub handle_media_join-Kept :
      (payload : Option MediaData) → Kept P (handle_media_join w u c payload)
  unfolding handle_media_join
  handle_media_join-Kept payload = need-Kept P u _ _ _ (λ _. need-Kept P u _ _ _ (λ r. record {
    kept = λ s h. elim (Bool-cases (has_room r s.manager)) [
      | inl known ↦ rw (known) (
          join_answered-Keeps P w u c r (create_transports w.engine r u c s.manager).0
            (set_manager (create_transports w.engine r u c s.manager).1 s)
            (closed.joins s.storage s.manager r u h))
      | inr unknown ↦ rw (unknown) (send_media_error-Keeps P u Complaint.room_does_not_exist s h)
    ];
  }))

  pub handle_media_connect_transport-Kept :
      (payload : Option MediaData) → Kept P (handle_media_connect_transport w u c payload)
  unfolding handle_media_connect_transport
  handle_media_connect_transport-Kept payload = want-Kept P _ _ (λ d. want-Kept P _ _ (λ _.
      want-Kept P _ _ (λ _. want-Kept P _ _ (λ _. want-Kept P _ _ (λ r. record {
        kept = λ s h. closed.connects s.storage s.manager r (parsed d.transport_id) h;
      })))))

  produce_answered-Keeps :
      (r : ObjectId) (kind : MediaKind) (source : Text) (answer : MediaResult ObjectId)
      → Keeps P (produce_answered w u c r kind source answer)
  produce_answered-Keeps r kind source (err e) s h =
      send_media_error-Keeps P u (Complaint.produce_failed e) s h
  produce_answered-Keeps r kind source (ok producer) s h =
      let between = send_to_connection c (ServerEvent.produce_result producer) s in
      send_to_connections-Keeps P (get_other_connection_ids r c between.manager)
        (ServerEvent.new_producer producer u c kind source) between
        (send_to_connection-Keeps P c (ServerEvent.produce_result producer) s h)

  pub handle_media_produce-Kept :
      (payload : Option MediaData) → Kept P (handle_media_produce w u c payload)
  unfolding handle_media_produce
  handle_media_produce-Kept payload = need-Kept P u _ _ _ (λ d. need-Kept P u _ _ _ (λ _.
      need-Kept P u _ _ _ (λ kind. need-Kept P u _ _ _ (λ _. need-Kept P u _ _ _ (λ r. record {
        kept = λ s h.
            let made = produce w.engine r c kind (source_of d kind) s.manager in
            produce_answered-Keeps r kind (source_of d kind) made.0 (set_manager made.1 s)
              (closed.produces s.storage s.manager r kind (source_of d kind) h);
      })))))

  consume_answered-Keeps :
      (p : ObjectId) (answer : MediaResult ObjectId) → Keeps P (consume_answered w u c p answer)
  consume_answered-Keeps p (err e) = send_media_error-Keeps P u (Complaint.consume_failed e)
  consume_answered-Keeps p (ok consumer) =
      send_to_connection-Keeps P c (ServerEvent.consumer_created consumer p)

  pub handle_media_consume-Kept :
      (payload : Option MediaData) → Kept P (handle_media_consume w u c payload)
  unfolding handle_media_consume
  handle_media_consume-Kept payload = need-Kept P u _ _ _ (λ d. need-Kept P u _ _ _ (λ _.
      need-Kept P u _ _ _ (λ _. need-Kept P u _ _ _ (λ _. need-Kept P u _ _ _ (λ r.
        need-Kept P u _ _ _ (λ p. record {
          kept = λ s h.
              let made = consume w.engine r c p s.manager in
              consume_answered-Keeps p made.0 (set_manager made.1 s)
                (closed.consumes s.storage s.manager r p h);
        }))))))

  producer_closed-Keeps :
      (r p : ObjectId) (s : Server)
      → Holds P s
      → let (done, m) = close_producer r c p s.manager in
        Holds P (
          if done
          then tell_others r c
              (ServerEvent.producer_closed p u)
              (set_manager (remove_rtp_tap r p m) s)
          else set_manager m s)
  producer_closed-Keeps r p s h =
      let after = closed.closes s.storage s.manager r p h in
      let m = (close_producer r c p s.manager).1 in
      let s' = set_manager (remove_rtp_tap r p m) s in
      elim (Bool-cases (close_producer r c p s.manager).0) [
        | inl done ↦ rw (done) (
            send_to_connections-Keeps P (get_other_connection_ids r c s'.manager)
              (ServerEvent.producer_closed p u) s' (closed.untaps s.storage m r p after))
        | inr refused ↦ rw (refused) after
      ]

  pub handle_media_producer_close-Kept :
      (payload : Option MediaData) → Kept P (handle_media_producer_close w u c payload)
  unfolding handle_media_producer_close
  handle_media_producer_close-Kept payload = want-Kept P _ _ (λ d. want-Kept P _ _ (λ _.
      want-Kept P _ _ (λ _.
        want-Kept P _ _ (λ r. want-Kept P _ _ (λ p. record { kept = producer_closed-Keeps r p })))))

  pub leave_room-Keeps : (r : ObjectId) → Keeps P (leave_room w u c r)
  unfolding leave_room
  leave_room-Keeps r s h =
      send_to_connections-Keeps P (get_other_connection_ids r c s.manager)
        (ServerEvent.peer_left u (some c) r) (set_manager (close_participant r c s.manager) s)
        (closed.leaves s.storage s.manager r h)

  pub handle_media_leave-Kept :
      (payload : Option MediaData) → Kept P (handle_media_leave w u c payload)
  unfolding handle_media_leave
  handle_media_leave-Kept payload =
      want-Kept P _ _ (λ _. want-Kept P _ _ (λ r. record { kept = leave_room-Keeps r }))

  tell_room-Keeps : (r : ObjectId) (event : ServerEvent) → Keeps P (tell_room w u c r event)
  tell_room-Keeps r event s h =
      let between = send_to_connection c event s in
      send_to_connections-Keeps P (get_other_connection_ids r c between.manager) event between
        (send_to_connection-Keeps P c event s h)

  pub handle_play_audio-Kept :
      (payload : Option MediaData) → Kept P (handle_play_audio w u c payload)
  unfolding handle_play_audio
  handle_play_audio-Kept payload = want-Kept P _ _ (λ d. want-Kept P _ _ (λ _. want-Kept P _ _ (λ _.
      want-Kept P _ _ (λ r. want-Kept P _ _ (λ _.
        want-Kept P _ _ (λ _. want-Kept P _ _ (λ _. record { kept = tell_room-Keeps r _ })))))))

  pub handle_stop_audio-Kept :
      (payload : Option MediaData) → Kept P (handle_stop_audio w u c payload)
  unfolding handle_stop_audio
  handle_stop_audio-Kept payload = want-Kept P _ _ (λ d.
      want-Kept P _ _
        (λ _. want-Kept P _ _ (λ _. want-Kept P _ _ (λ r. record { kept = tell_room-Keeps r _ }))))
