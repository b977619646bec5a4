-- ===== src/Media/Rooms/Closing.antt =====
-- crates/services/src/media/room_manager.rs: what leaves a room, and what is read of it.
use roomler.Prelude.{
  Text, Map, ◌++◌, ℕ, if◌then◌else◌, remove_all, keys, ℕ, Bool, true, false, not, Option, none,
  some, List, [], ◌∷◌, lookup, remove, modify, contains_key, keys_where, retain, length, ltb, ◌==◌,
}
use roomler.Media.Rooms.{
  MediaKind, MediaId, MediaRoom, ParticipantMedia, ProducerEntry, RoomManager, update_participant,
}

unfoldable pub remove_room : MediaId → RoomManager → Bool × RoomManager
unfolding remove_all
remove_room room_id s = elim (lookup room_id s.rooms) [
  | none ↦ (false, s)
  | some room ↦ (
    true,
    record s {
      rooms = remove room_id s.rooms;
      connection_rooms = remove_all (keys room.participants) s.connection_rooms;
    },
  )
]

abbrev pub is_not : MediaId → ProducerEntry → Bool
is_not producer_id e = not (e.producer == producer_id)

unfoldable pub close_producer : MediaId → MediaId → MediaId → RoomManager → Bool × RoomManager
close_producer room_id connection_id producer_id s = elim (lookup room_id s.rooms) [
  | none ↦ (false, s)
  | some room ↦ elim (lookup connection_id room.participants) [
    | none ↦ (false, s)
    | some p ↦ (
      ltb (length (retain (is_not producer_id) p.producers)) (length p.producers),
      update_participant room_id connection_id
          (λ q. record q { producers = retain (is_not producer_id) q.producers }) s,
    )
  ]
]

-- `participants.remove` in the room, if there is one.
abbrev pub without : List MediaId → MediaRoom → MediaRoom
without connections r = record r { participants = remove_all connections r.participants }

unfoldable pub close_participant : MediaId → MediaId → RoomManager → RoomManager
unfolding remove_all
close_participant room_id connection_id s = record s {
  rooms = modify room_id (without (connection_id ∷ [])) s.rooms;
  connection_rooms = remove connection_id s.connection_rooms;
}

abbrev pub is_user : MediaId → ParticipantMedia → Bool
is_user user_id p = p.user_id == user_id

unfoldable pub close_participant_by_user : MediaId → MediaId → RoomManager → RoomManager
unfolding remove_all
close_participant_by_user room_id user_id s = elim (lookup room_id s.rooms) [
  | none ↦ s
  | some room ↦
      let connections = keys_where (is_user user_id) room.participants in
      record s {
        rooms = modify room_id (without connections) s.rooms;
        connection_rooms = remove_all connections s.connection_rooms;
      }
]

unfoldable pub remove_rtp_tap : MediaId → MediaId → RoomManager → RoomManager
remove_rtp_tap room_id producer_id s = record s {
  rooms = modify room_id (λ r. record r { rtp_taps = remove producer_id r.rtp_taps }) s.rooms;
}

unfoldable pub has_room : MediaId → RoomManager → Bool
has_room room_id s = contains_key room_id s.rooms

unfoldable pub room_count : RoomManager → ℕ
room_count s = length s.rooms

unfoldable pub get_other_connection_ids : MediaId → MediaId → RoomManager → List MediaId
get_other_connection_ids room_id connection_id s = elim (lookup room_id s.rooms) [
  | none ↦ []
  | some room ↦ retain (λ k. not (k == connection_id)) (keys room.participants)
]

unfoldable pub get_connection_room : MediaId → RoomManager → Option MediaId
get_connection_room connection_id s = lookup connection_id s.connection_rooms

-- The producers of the other participants: user, connection, producer, kind and source.
abbrev pub entries_of :
    MediaId
    → ParticipantMedia
    → List ProducerEntry
    → List (MediaId × MediaId × MediaId × MediaKind × Text)
entries_of k p [] = []
entries_of k p (e ∷ rest) = (p.user_id, k, e.producer, e.kind, e.source) ∷ entries_of k p rest

abbrev pub producers_of :
    MediaId → Map ParticipantMedia → List (MediaId × MediaId × MediaId × MediaKind × Text)
producers_of connection_id [] = []
producers_of connection_id ((k, p) ∷ m) =
    if k == connection_id
    then producers_of connection_id m
    else entries_of k p p.producers ++ producers_of connection_id m

unfoldable pub get_producer_ids :
    MediaId → MediaId → RoomManager → List (MediaId × MediaId × MediaId × MediaKind × Text)
get_producer_ids room_id connection_id s = elim (lookup room_id s.rooms) [
  | none ↦ []
  | some room ↦ producers_of connection_id room.participants
]

abbrev pub insert_user : ℕ → List ℕ → List ℕ
insert_user x [] = x ∷ []
insert_user x (y ∷ l) =
    let rest = insert_user x l in if ltb x y then x ∷ y ∷ l else if x == y then y ∷ l else y ∷ rest

-- `sort` and `dedup` of the participants' users.
abbrev pub users_of : Map ParticipantMedia → List MediaId
users_of [] = []
users_of ((k, p) ∷ m) = insert_user p.user_id (users_of m)

unfoldable pub get_participant_user_ids : MediaId → RoomManager → List MediaId
get_participant_user_ids room_id s = elim (lookup room_id s.rooms) [
  | none ↦ []
  | some room ↦ users_of room.participants
]
