-- ===== src/Media/Rooms/Listing.antt =====
-- Which connections each operation lists: a join lists the connection that joins, and nothing else
-- adds one.
use roomler.Prelude.{
  ◌≡◌, true, Bool, Option, some, Text, lookup, arith, Option-cases, inl, inr, lookup-insert,
  lookup-remove, lookup-remove_all, keys, keys_where, sym,
}
use roomler.Media.Rooms.{
  MediaId, RoomManager, Engine, MediaKind, get_worker, create_room, create_transports,
  connect_transport, produce, consume,
}
use roomler.Media.Rooms.Closing.{
  remove_room, close_producer, close_participant, close_participant_by_user, is_user,
}

-- Every connection that is listed under a room passes the test.
abbrev pub Within : (MediaId → Bool) → RoomManager → Type 0
Within allowed s = (c r : MediaId) → lookup c s.connection_rooms ≡ some r → allowed c ≡ true

module _ (engine : Engine) (s : RoomManager) where
  create_room-connection_rooms :
      (r : MediaId) → (create_room engine r s).1.connection_rooms ≡ s.connection_rooms
  unfolding create_room get_worker
  create_room-connection_rooms r = ground arith

  connect_transport-connection_rooms :
      (r c : MediaId) (t : Option MediaId)
      → (connect_transport engine r c t s).1.connection_rooms ≡ s.connection_rooms
  unfolding connect_transport
  connect_transport-connection_rooms r c t = ground arith

  produce-connection_rooms :
      (r c : MediaId) (kind : MediaKind) (source : Text)
      → (produce engine r c kind source s).1.connection_rooms ≡ s.connection_rooms
  unfolding produce
  produce-connection_rooms r c kind source = ground arith

  consume-connection_rooms :
      (r c p : MediaId) → (consume engine r c p s).1.connection_rooms ≡ s.connection_rooms
  unfolding consume
  consume-connection_rooms r c p = ground arith

close_producer-connection_rooms :
    (r c p : MediaId) (s : RoomManager)
    → (close_producer r c p s).1.connection_rooms ≡ s.connection_rooms
unfolding close_producer
close_producer-connection_rooms r c p s = ground arith

module _ (allowed : MediaId → Bool) (s : RoomManager) (v : Within allowed s) where
  pub create_transports-Within :
      (engine : Engine) (r u c : MediaId)
      → allowed c ≡ true
      → Within allowed (create_transports engine r u c s).1
  unfolding create_transports
  create_transports-Within engine r u c a = elim (Option-cases (lookup r s.rooms)) [
    | inl gone ↦ rw (gone) v
    | inr (room, here) ↦ elim (Option-cases (engine.new_send room.router)) [
      | inl failed ↦ rw (here, failed) v
      | inr (send, made) ↦ elim (Option-cases (engine.new_recv room.router)) [
        | inl failed ↦ rw (here, made, failed) v
        | inr (recv, both) ↦
            rw (here, made, both)
              (λ d q e. ground (arith, a, e, v d q, lookup-insert c d r s.connection_rooms))
      ]
    ]
  ]

  pub close_participant-Within : (r c : MediaId) → Within allowed (close_participant r c s)
  unfolding close_participant
  close_participant-Within r c d q e =
      ground (arith, e, v d q, lookup-remove c d s.connection_rooms)

  pub remove_room-Within : (r : MediaId) → Within allowed (remove_room r s).1
  unfolding remove_room
  remove_room-Within r = elim (Option-cases (lookup r s.rooms)) [
    | inl gone ↦ rw (gone, remove_room) v
    | inr (room, here) ↦
        rw (here, remove_room)
          (λ d q e.
            ground
              (arith, e, v d q, lookup-remove_all (keys room.participants) d s.connection_rooms))
  ]

  pub close_participant_by_user-Within :
      (r u : MediaId) → Within allowed (close_participant_by_user r u s)
  unfolding close_participant_by_user
  close_participant_by_user-Within r u = elim (Option-cases (lookup r s.rooms)) [
    | inl gone ↦ rw (gone, close_participant_by_user) v
    | inr (room, here) ↦
        rw (here, close_participant_by_user)
          (λ d q e. ground (
            arith,
            e,
            v d q,
            lookup-remove_all (keys_where (is_user u) room.participants) d s.connection_rooms,
          ))
  ]

  pub create_room-Within :
      (engine : Engine) (r : MediaId) → Within allowed (create_room engine r s).1
  create_room-Within engine r d q e = v d q (rw (sym (create_room-connection_rooms engine s r)) e)

  pub connect_transport-Within :
      (engine : Engine) (r c : MediaId) (t : Option MediaId)
      → Within allowed (connect_transport engine r c t s).1
  connect_transport-Within engine r c t d q e =
      v d q (rw (sym (connect_transport-connection_rooms engine s r c t)) e)

  pub produce-Within :
      (engine : Engine) (r c : MediaId) (kind : MediaKind) (source : Text)
      → Within allowed (produce engine r c kind source s).1
  produce-Within engine r c kind source d q e =
      v d q (rw (sym (produce-connection_rooms engine s r c kind source)) e)

  pub consume-Within :
      (engine : Engine) (r c p : MediaId) → Within allowed (consume engine r c p s).1
  consume-Within engine r c p d q e = v d q (rw (sym (consume-connection_rooms engine s r c p)) e)

  pub close_producer-Within : (r c p : MediaId) → Within allowed (close_producer r c p s).1
  close_producer-Within r c p d q e = v d q (rw (sym (close_producer-connection_rooms r c p s)) e)
