-- ===== src/Media/Rooms/Events.antt =====
-- The rooms under any sequence of calls. An operation is one
-- step: interleavings are of whole calls.
use roomler.Prelude.{◌≡◌, true, Option, some, List, [], ◌∷◌, Text, lookup}
use roomler.Media.Rooms.{
  MediaId, RoomManager, Engine, MediaKind, create_room, create_transports, connect_transport,
  produce, consume, create_rtp_tap,
}
use roomler.Media.Rooms.Closing.{
  remove_room, close_producer, close_participant, close_participant_by_user, remove_rtp_tap,
  get_connection_room,
}
use roomler.Media.Rooms.Placed.{
  IsPlaced, held, remove_room-Placed, close_participant-Placed, close_participant_by_user-Placed,
  close_producer-Placed, remove_rtp_tap-Placed,
}
use roomler.Media.Rooms.Joining.{
  create_room-Placed, create_transports-Placed, connect_transport-Placed, produce-Placed,
  consume-Placed, create_rtp_tap-Placed,
}

pub data Event : Type 0 where
  room_created room_removed : MediaId → Event
  joined : (room user connection : MediaId) → Event
  connected : (room connection : MediaId) → Option MediaId → Event
  produced : (room connection : MediaId) → MediaKind → Text → Event
  consumed : (room connection producer : MediaId) → Event
  producer_closed : (room connection producer : MediaId) → Event
  left : (room connection : MediaId) → Event
  user_left : (room user : MediaId) → Event
  tap_created tap_removed : (room producer : MediaId) → Event

unfoldable pub step : Engine → Event → RoomManager → RoomManager
step engine (room_created r) s = (create_room engine r s).1
step engine (room_removed r) s = (remove_room r s).1
step engine (joined r u c) s = (create_transports engine r u c s).1
step engine (connected r c t) s = (connect_transport engine r c t s).1
step engine (produced r c kind source) s = (produce engine r c kind source s).1
step engine (consumed r c p) s = (consume engine r c p s).1
step engine (producer_closed r c p) s = (close_producer r c p s).1
step engine (left r c) s = close_participant r c s
step engine (user_left r u) s = close_participant_by_user r u s
step engine (tap_created r p) s = (create_rtp_tap engine r p s).1
step engine (tap_removed r p) s = remove_rtp_tap r p s

unfoldable pub run : List (Engine × Event) → RoomManager → RoomManager
run [] s = s
run ((engine, event) ∷ rest) s = run rest (step engine event s)

abbrev pub new : List MediaId → RoomManager
new workers = record { rooms = []; connection_rooms = []; workers = workers; next = 0 }

step-Placed :
    (engine : Engine) (event : Event) (s : RoomManager)
    → IsPlaced s
    → IsPlaced (step engine event s)
unfolding step
step-Placed engine (room_created r) s v = create_room-Placed engine s v r
step-Placed engine (room_removed r) s v = remove_room-Placed s v r
step-Placed engine (joined r u c) s v = create_transports-Placed engine s v r u c
step-Placed engine (connected r c t) s v = connect_transport-Placed engine s v r c t
step-Placed engine (produced r c kind source) s v = produce-Placed engine s v r c kind source
step-Placed engine (consumed r c p) s v = consume-Placed engine s v r c p
step-Placed engine (producer_closed r c p) s v = close_producer-Placed s v r c p
step-Placed engine (left r c) s v = close_participant-Placed s v r c
step-Placed engine (user_left r u) s v = close_participant_by_user-Placed s v r u
step-Placed engine (tap_created r p) s v = create_rtp_tap-Placed engine s v r p
step-Placed engine (tap_removed r p) s v = remove_rtp_tap-Placed s v r p

run-Placed :
    (events : List (Engine × Event)) (s : RoomManager) → IsPlaced s → IsPlaced (run events s)
unfolding run
run-Placed [] s v = v
run-Placed ((engine, event) ∷ rest) s v =
    run-Placed rest (step engine event s) (step-Placed engine event s v)

-- After any calls on a new manager, the room that a connection is said to be in exists, and the
-- connection takes part in it.
pub run-held :
    (workers : List MediaId) (events : List (Engine × Event)) (c r : MediaId)
    → get_connection_room c (run events (new workers)) ≡ some r
    → held c (lookup r (run events (new workers)).rooms) ≡ true
unfolding get_connection_room lookup
run-held workers events c r e = run-Placed events (new workers) (λ c' r' e'. cc) c r e
