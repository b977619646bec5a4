-- ===== src/Media/Tests.antt =====
-- Two users in a room, and the theorems at them.
use roomler.Prelude.{ℕ, ◌≡◌, refl, true, none, some, List, [], ◌∷◌, lookup, insert, modify, remove}
use roomler.Media.Rooms.{
  RoomManager, MediaRoom, ParticipantMedia, Engine, create_room, create_transports, get_worker,
}
use roomler.Media.Rooms.Closing.{get_connection_room}
use roomler.Media.Rooms.Placed.{held}
use roomler.Media.Rooms.Events.{Event, room_created, joined, step, run, new, run-held}
use roomler.Media.Rooms.Calls.{participant}

abbrev engine : Engine
engine = record {
  create_router = λ worker. some 1;
  new_send = λ router. some 10;
  new_recv = λ router. some 11;
  connects = λ transport. true;
  produces = λ transport kind. some 20;
  can_consume = λ router producer. true;
  consumes = λ transport producer. some 30;
  resumes = λ consumer. true;
  describes = λ thing. true;
  direct_transport = λ router. some 12;
}

-- The users 5 and 6 are in the room 3 with the connections 50 and 60.
abbrev calls : List (Engine × Event)
calls = (engine, room_created 3) ∷ (engine, joined 3 5 50) ∷ (engine, joined 3 6 60) ∷ []

abbrev member : ℕ → ParticipantMedia
member user_id = record {
  user_id = user_id;
  send_transport = 10;
  recv_transport = 11;
  producers = [];
  consumers = [];
}

abbrev room : MediaRoom
room = record { router = 1; participants = (60, member 6) ∷ (50, member 5) ∷ []; rtp_taps = [] }

abbrev manager : RoomManager
manager = record {
  rooms = (3, room) ∷ [];
  connection_rooms = (60, 3) ∷ (50, 3) ∷ [];
  workers = 0 ∷ [];
  next = 1;
}

joined_both : run calls (new (0 ∷ [])) ≡ manager
unfolding run step create_room create_transports get_worker lookup insert modify remove
joined_both = refl

listed : get_connection_room 50 (run calls (new (0 ∷ []))) ≡ some 3
unfolding get_connection_room lookup
listed = rw (joined_both) refl

run-held_example : held 50 (lookup 3 (run calls (new (0 ∷ []))).rooms) ≡ true
run-held_example = run-held (0 ∷ []) calls 50 3 listed

here : lookup 3 manager.rooms ≡ some room
unfolding lookup
here = refl

present : lookup 50 room.participants ≡ some (member 5)
unfolding lookup
present = refl

absent : lookup 60 ((50, member 5) ∷ []) ≡ none
unfolding lookup
absent = refl

nothing : lookup {V = ParticipantMedia} 50 [] ≡ none
unfolding lookup
nothing = refl

taking_part : participant 3 50 manager ≡ some (member 5)
unfolding lookup
taking_part = refl
