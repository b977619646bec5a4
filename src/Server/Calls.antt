-- ===== src/Server/Calls.antt =====
-- crates/api/src/routes/room.rs: starting, joining, leaving and ending the call of a room. Push
-- notifications of a call's start are left out.
use roomler.Prelude.{
  ℕ, Bool, true, false, Option, none, some, List, [], ◌∷◌, Text, lookup, if◌then◌else◌, ◌==◌,
}
use roomler.Conference.{
  ObjectId, Database, DaoResult, RoomMember, ok, err, Room, in_progress, start_call, end_call,
  join_participant, leave_participant, find_member_user_ids,
}
use roomler.Media.Rooms.{MediaResult, create_room}
use roomler.Media.Rooms
use roomler.Media.Rooms.Closing.{remove_room, close_participant_by_user, get_participant_user_ids}
use roomler.Server.{Server, ServerEvent, World, broadcast_with_redis}
use roomler.Server.Media.{set_manager}

-- How a request ends, and what it answers.
pub data ApiResult : Type 0 where
  forbidden failed : ApiResult
  done : ApiResult

abbrev pub Answer : Type 0
Answer = ApiResult × Server × Database

-- The room's document, if it is the tenant's.
abbrev pub find_in_tenant : ObjectId → ObjectId → Database → Option Room
find_in_tenant tenant_id room_id db = elim (lookup room_id db.rooms) [
  | none ↦ none
  | some r ↦ if r.tenant_id == tenant_id then some r else none
]

abbrev pub or_unnamed : Option Room → Text
or_unnamed none = []
or_unnamed (some r) = r.name

abbrev pub count_of : Option Room → ℕ
count_of none = 0
count_of (some r) = r.participant_count

-- A call in progress that nobody takes part in any more.
abbrev pub is_deserted : Option Room → Bool
is_deserted none = false
is_deserted (some r) = elim r.conference_status [
  | some in_progress ↦ r.participant_count == 0
  | _ ↦ false
]

module _ (w : World) (tenant_id room_id user_id : ObjectId) where
  -- `if !ids.is_empty()` around a broadcast, which matters for what is published.
  abbrev pub broadcast_some : List ObjectId → ServerEvent → Server → Server
  broadcast_some [] event s = s
  broadcast_some (u ∷ users) event s = broadcast_with_redis w (u ∷ users) event s

  abbrev pub tell_members : ServerEvent → Server → Database → Server
  tell_members event s db = broadcast_some (find_member_user_ids room_id db) event s

  abbrev pub members_only : (Server → Database → Answer) → Server → Database → Answer
  members_only f s db =
      let answer = f s db in if w.is_member tenant_id user_id then answer else (forbidden, s, db)

  abbrev pub call_opened : MediaResult ObjectId → Server → Database → Answer
  call_opened (Rooms.err e) s db = (failed, s, db)
  call_opened (Rooms.ok router) s db = (
    done,
    tell_members
        (ServerEvent.call_started room_id (or_unnamed (find_in_tenant tenant_id room_id db))
          user_id)
        s db,
    db,
  )

  unfoldable pub call_start : Server → Database → Answer
  call_start = members_only (λ s db.
      let (answer, manager) = create_room w.engine room_id s.manager in
      call_opened answer (set_manager manager s) (start_call room_id db))

  abbrev pub call_joined : DaoResult RoomMember × Database → Server → Answer
  call_joined (err e, db) s = (failed, s, db)
  call_joined (ok m, db) s = (
    done,
    tell_members (ServerEvent.call_updated room_id (count_of (find_in_tenant tenant_id room_id db)))
        s db,
    db,
  )

  unfoldable pub call_join : Server → Database → Answer
  call_join = members_only (λ s db. elim (w.display_name user_id) [
    | none ↦ (failed, s, db)
    | some name ↦ call_joined (join_participant w.env.now tenant_id room_id user_id name db) s
  ])

  -- The call of a room that nobody takes part in any more is ended.
  abbrev pub end_deserted : Bool → Server → Database → Answer
  end_deserted false s db = (done, s, db)
  end_deserted true s db =
      let db' = end_call room_id db in
      (
        done,
        tell_members (ServerEvent.call_ended room_id)
            (set_manager (remove_room room_id s.manager).1 s) db',
        db',
      )

  unfoldable pub call_leave : Server → Database → Answer
  call_leave = members_only (λ s db.
      let manager = close_participant_by_user room_id user_id s.manager in
      let told =
        broadcast_some (get_participant_user_ids room_id manager)
          (ServerEvent.peer_left user_id none room_id) (set_manager manager s) in
      let db' = leave_participant w.env.now room_id user_id db in
      end_deserted (is_deserted (find_in_tenant tenant_id room_id db')) told db')

  -- The media room is removed before its participants are read.
  unfoldable pub call_end : Server → Database → Answer
  call_end = members_only (λ s db.
      let db' = end_call room_id db in
      let s' = set_manager (remove_room room_id s.manager).1 s in
      (
        done,
        tell_members (ServerEvent.call_ended room_id)
            (broadcast_some (get_participant_user_ids room_id s'.manager)
              (ServerEvent.room_closed room_id) s')
            db',
        db',
      ))
