-- ===== src/Conference/Tests.antt =====
-- A room of two users, and the theorems at it.
use roomler.Prelude.{suc, ◌≡◌, refl, true, false, none, some, lookup, text, length, modify, insert}
use roomler.Conference.{Database, Room, create, join, join_participant, find_member_user_ids}
use roomler.Conference.Reach.{Event, Reachable, start, next, step, empty, Reachable-member_count}
use roomler.Conference.Reach
use roomler.Conference.Sessions.{Attends, Counts}

abbrev creation : Event
creation = Reach.room_created 1 7 (text "lobby") none 5 true

abbrev arrival : Event
arrival = Reach.joined 7 1 6

abbrev lobby : Room
lobby = record {
  tenant_id = 7;
  parent_id = none;
  name = text "lobby";
  path = text "lobby";
  is_open = true;
  creator_id = 5;
  conference_status = none;
  member_count = 3;
  participant_count = 0;
}

abbrev two_members : Database
unfolding step create join lookup modify insert
two_members = step arrival (step creation empty)

two_members-Reachable : Reachable two_members
unfolding step create join lookup modify insert
two_members-Reachable = next arrival (next creation start (refl, refl)) tt

lobby_stored : lookup 1 two_members.rooms ≡ some lobby
unfolding step create join lookup modify insert
lobby_stored = refl

Reachable-member_count_example :
    lobby.member_count ≡ suc (length (find_member_user_ids 1 two_members))
Reachable-member_count_example = Reachable-member_count 1 lobby two_members-Reachable lobby_stored

idle : Attends 1 6 false two_members
unfolding step create join lookup modify insert
idle = (_, refl, refl)

uncounted : Counts 1 0 two_members
unfolding step create join lookup modify insert
uncounted = (lobby, refl, refl)

abbrev call : Database
unfolding step create join lookup join_participant modify insert
call =
    (join_participant 20 7 1 6 (text "Ana") (join_participant 10 7 1 5 (text "Bo") two_members).1).1
