-- ===== src/Server/Departure.antt =====
-- What a disconnecting browser leaves behind.
use roomler.Prelude.{
  ℕ, ◌≡◌, refl, false, none, some, List, [], ◌∷◌, ◌++◌, lookup, arith, Option-cases, inl, inr,
  lookup-remove, lookup-modify, lookup-remove_all, ==-refl, append_assoc,
}
use roomler.RemoteControl.Models.{ObjectId}
use roomler.RemoteControl.Hub.Connect.{unregister_controller}
use roomler.Sockets.{WsStorage, remove_sender, get_sender_by_connection}
use roomler.Media.Rooms.{RoomManager}
use roomler.Media.Rooms.Closing.{
  get_connection_room, get_other_connection_ids, close_participant, without,
}
use roomler.Media.Rooms.Placed.{held}
use roomler.Server.{Server, ServerEvent, World, send_to_connection, send_to_connections}
use roomler.Server.Media.{leave_room, set_manager}
use roomler.Server.Socket.{Socket, socket_closed}
use roomler.Server.Agreed.{leave_room_state}

-- What reaches the connections that have a sender, newest first.
abbrev pub deliveries : WsStorage → List ObjectId → ServerEvent → List (ℕ × ServerEvent)
deliveries t [] event = []
deliveries t (c ∷ rest) event =
    deliveries t rest event
    ++ (elim (get_sender_by_connection c t) [ none ↦ [] | some sender ↦ (sender, event) ∷ [] ])

send_to_connection_kept :
    (c : ObjectId) (event : ServerEvent) (s : Server)
    → ((send_to_connection c event s).storage ≡ s.storage)
      × ((send_to_connection c event s).sent ≡ deliveries s.storage (c ∷ []) event ++ s.sent)
unfolding send_to_connection
send_to_connection_kept c event s = elim (Option-cases (get_sender_by_connection c s.storage)) [
  | inl gone ↦ rw (gone, send_to_connection) (refl, refl)
  | inr (t, here) ↦ rw (here, send_to_connection) (refl, refl)
]

send_to_connections_sent :
    (cs : List ObjectId) (event : ServerEvent) (s : Server)
    → (send_to_connections cs event s).sent ≡ deliveries s.storage cs event ++ s.sent
unfolding send_to_connections
send_to_connections_sent [] event s = refl
send_to_connections_sent (c ∷ rest) event s =
    let (stored, wrote) = send_to_connection_kept c event s in
    rw
      (
        send_to_connections_sent rest event (send_to_connection c event s),
        stored,
        wrote,
        append_assoc (deliveries s.storage rest event) (deliveries s.storage (c ∷ []) event) s.sent,
      )
      refl

no_sender :
    (u c x : ObjectId) (t : WsStorage) → get_sender_by_connection c (remove_sender u c x t) ≡ none
unfolding get_sender_by_connection remove_sender
no_sender u c x t =
    rw (lookup-remove c c t.connection_map, ==-refl c, get_sender_by_connection) refl

no_room :
    (c r : ObjectId) (m : RoomManager) → get_connection_room c (close_participant r c m) ≡ none
unfolding get_connection_room close_participant
no_room c r m = ground (arith, lookup-remove c c m.connection_rooms)

not_held :
    (c r : ObjectId) (m : RoomManager) → held c (lookup r (close_participant r c m).rooms) ≡ false
unfolding close_participant
not_held c r m = elim (Option-cases (lookup r m.rooms)) [
  | inl gone ↦ ground (arith, gone, lookup-modify r r (without (c ∷ [])) m.rooms)
  | inr (room, here) ↦ ground (
    arith,
    here,
    ==-refl r,
    ==-refl c,
    lookup-modify r r (without (c ∷ [])) m.rooms,
    lookup-remove_all (c ∷ []) c room.participants,
  )
]

-- When a browser that is listed under a room disconnects, it has no sender and no room any more,
-- the room does not hold it, and exactly the room's other connections are told that it left.
pub socket_closed_outcome :
    (w : World) (c r : ObjectId) (k : Socket) (s : Server)
    → get_connection_room c s.manager ≡ some r
    → let s' = socket_closed w c k s in
      (get_sender_by_connection c s'.storage ≡ none)
      × (get_connection_room c s'.manager ≡ none)
      × (held c (lookup r s'.manager.rooms) ≡ false)
      × (s'.sent
          ≡ deliveries s'.storage
              (get_other_connection_ids r c s.manager)
              (ServerEvent.peer_left k.user_id (some c) r)
            ++ s.sent)
unfolding socket_closed leave_room
socket_closed_outcome w c r k s here =
    let before : Server = record s {
      hub = unregister_controller w.env k.user_id k.rc_controller_tx s.hub;
      storage = remove_sender k.user_id c k.sender s.storage;
    } in
    let (stored, managed) = leave_room_state w k.user_id c r before in
    rw (here) (
      rw (stored) (no_sender k.user_id c k.sender s.storage),
      rw (managed) (no_room c r s.manager),
      rw (managed) (not_held c r s.manager),
      rw (stored) (
          send_to_connections_sent (get_other_connection_ids r c s.manager)
            (ServerEvent.peer_left k.user_id (some c) r)
            (set_manager (close_participant r c s.manager) before)),
    )
