-- ===== src/Media/Rooms/Placed.antt =====
-- Every connection is in the room that it is listed under.
use roomler.Prelude.{
  ◌≡◌, refl, Bool, true, false, Option, none, some, List, [], ◌∷◌, retain, keys_where, lookup,
  insert, remove, modify, remove_all, keys, contains_key, Map, arith, Option-cases, inl, inr,
  lookup-insert, lookup-modify, lookup-remove, lookup-remove_all, contains-keys,
}
use roomler.Media.Rooms.{MediaId, RoomManager, MediaRoom, ParticipantMedia, update_participant}
use roomler.Media.Rooms.Closing.{
  remove_room, close_producer, close_participant, close_participant_by_user, is_user, is_not,
  remove_rtp_tap, without,
}

abbrev pub held : MediaId → Option MediaRoom → Bool
held c none = false
held c (some room) = contains_key c room.participants

-- A connection that is listed under a room takes part in that room.
abbrev pub Placed : Map MediaId → Map MediaRoom → Type 0
Placed listed rooms = (c r : MediaId) → lookup c listed ≡ some r → held c (lookup r rooms) ≡ true

abbrev pub IsPlaced : RoomManager → Type 0
IsPlaced s = Placed s.connection_rooms s.rooms

-- A change of one room that keeps who takes part in it.
pub held-modify :
    (f : MediaRoom → MediaRoom) (k r c : MediaId) (rooms : Map MediaRoom)
    → ((room : MediaRoom) → contains_key c (f room).participants ≡ contains_key c room.participants)
    → held c (lookup r (modify k f rooms)) ≡ held c (lookup r rooms)
held-modify f k r c rooms same = elim (Option-cases (lookup r rooms)) [
  | inl gone ↦ ground (arith, gone, lookup-modify k r f rooms)
  | inr (room, here) ↦ ground (arith, here, lookup-modify k r f rooms, same room)
]

contains_key-modify :
    (c k : MediaId) (f : ParticipantMedia → ParticipantMedia) (m : Map ParticipantMedia)
    → contains_key c (modify k f m) ≡ contains_key c m
contains_key-modify c k f m = ground (arith, lookup-modify k c f m)

module _ (s : RoomManager) (v : IsPlaced s) where
  pub update_participant-Placed :
      (room_id connection_id : MediaId) (update : ParticipantMedia → ParticipantMedia)
      → IsPlaced (update_participant room_id connection_id update s)
  update_participant-Placed room_id connection_id update c r e =
      rw
        (held-modify (λ q. record q { participants = modify connection_id update q.participants })
          room_id r c s.rooms
          (λ room. contains_key-modify c connection_id update room.participants))
        (v c r e)

  pub remove_room-Placed : (room_id : MediaId) → IsPlaced ((remove_room room_id s).1)
  unfolding remove_room
  remove_room-Placed room_id c r e = elim (Option-cases (lookup room_id s.rooms)) [
    | inl gone ↦ ground (arith, gone, e, v c r)
    | inr (room, here) ↦ ground (
      arith,
      here,
      e,
      v c r,
      lookup-remove_all (keys room.participants) c s.connection_rooms,
      contains-keys c room.participants,
      lookup-remove room_id r s.rooms,
    )
  ]

  pub joined-Placed :
      (p : ParticipantMedia) (room_id connection_id : MediaId) (room : MediaRoom)
      → lookup room_id s.rooms ≡ some room
      → Placed (insert connection_id room_id s.connection_rooms) (
          modify room_id
            (λ r. record r { participants = insert connection_id p r.participants })
            s.rooms)
  joined-Placed p room_id connection_id room here c r e = elim (Option-cases (lookup r s.rooms)) [
    | inl gone ↦
        ground
          (arith, gone, here, e, v c r, lookup-insert connection_id c room_id s.connection_rooms)
    | inr (q, there) ↦ ground (
      arith,
      there,
      e,
      v c r,
      lookup-insert connection_id c room_id s.connection_rooms,
      lookup-insert connection_id c p q.participants,
      lookup-modify room_id r
          (λ x. record x { participants = insert connection_id p x.participants }) s.rooms,
    )
  ]

  pub without-Placed :
      (connections : List MediaId) (room_id : MediaId)
      → Placed
          (remove_all connections s.connection_rooms)
          (modify room_id (without connections) s.rooms)
  without-Placed connections room_id c r e = elim (Option-cases (lookup r s.rooms)) [
    | inl gone ↦ ground (arith, gone, e, v c r, lookup-remove_all connections c s.connection_rooms)
    | inr (room, here) ↦ ground (
      arith,
      here,
      e,
      v c r,
      lookup-remove_all connections c s.connection_rooms,
      lookup-modify room_id r (without connections) s.rooms,
      lookup-remove_all connections c room.participants,
    )
  ]

  pub close_participant-Placed :
      (room_id connection_id : MediaId) → IsPlaced (close_participant room_id connection_id s)
  unfolding close_participant remove_all
  close_participant-Placed room_id connection_id = without-Placed (connection_id ∷ []) room_id

  pub close_participant_by_user-Placed :
      (room_id user_id : MediaId) → IsPlaced (close_participant_by_user room_id user_id s)
  unfolding close_participant_by_user
  close_participant_by_user-Placed room_id user_id = elim (Option-cases (lookup room_id s.rooms)) [
    | inl gone ↦ rw (gone, close_participant_by_user) v
    | inr (room, here) ↦
        rw (here, close_participant_by_user)
          (without-Placed (keys_where (is_user user_id) room.participants) room_id)
  ]

  pub close_producer-Placed :
      (room_id connection_id producer_id : MediaId)
      → IsPlaced (close_producer room_id connection_id producer_id s).1
  unfolding close_producer
  close_producer-Placed room_id connection_id producer_id =
      elim (Option-cases (lookup room_id s.rooms)) [
        | inl gone ↦ rw (gone, close_producer) v
        | inr (room, here) ↦ elim (Option-cases (lookup connection_id room.participants)) [
          | inl absent ↦ rw (here, absent, close_producer) v
          | inr (p, present) ↦
              rw (here, present, close_producer)
                (update_participant-Placed room_id connection_id
                  (λ q. record q { producers = retain (is_not producer_id) q.producers }))
        ]
      ]

  pub remove_rtp_tap-Placed :
      (room_id producer_id : MediaId) → IsPlaced (remove_rtp_tap room_id producer_id s)
  unfolding remove_rtp_tap
  remove_rtp_tap-Placed room_id producer_id c r e =
      rw
        (held-modify (λ q. record q { rtp_taps = remove producer_id q.rtp_taps }) room_id r c
          s.rooms (λ room. refl))
        (v c r e)
