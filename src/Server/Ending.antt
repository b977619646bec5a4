-- ===== src/Server/Ending.antt =====
-- crates/api/src/routes/room.rs: how a call ends.
use roomler.Prelude.{
  ℕ, suc, ◌≡◌, ◌≢◌, refl, true, false, some, List, [], ◌∷◌, lookup, arith, Option-cases, inl, inr,
  lookup-modify, lookup-remove, ◌==◌, ==-refl,
}
use roomler.Conference.{
  one_fewer, ObjectId, Database, Room, in_progress, ended, leave_participant, end_call,
  find_member_user_ids,
}
use roomler.Conference.Sessions.{Attends, leave_participant_twice}
use roomler.Media.Rooms.{RoomManager}
use roomler.Media.Rooms.Closing.{remove_room, has_room, get_participant_user_ids}
use roomler.Server.{Server, ServerEvent, World}
use roomler.Server.Media.{set_manager}
use roomler.Server.Calls.{
  done, call_leave, call_end, tell_members, broadcast_some, find_in_tenant, is_deserted,
}
use roomler.Server.Keeps

no_participants :
    (r : ObjectId) (m : RoomManager) → get_participant_user_ids r (remove_room r m).1 ≡ []
unfolding get_participant_user_ids remove_room lookup
no_participants r m = elim (Option-cases (lookup r m.rooms)) [
  | inl gone ↦ rw (gone, get_participant_user_ids) (rw (gone, get_participant_user_ids) refl)
  | inr (room, here) ↦
      rw (here, remove_room)
        (rw (lookup-remove r r m.rooms, ==-refl r, get_participant_user_ids) refl)
]

-- A member who ends a call tells the room's members that it ended, and nobody that the media room
-- closed, whoever takes part in it.
pub call_end_lem :
    (w : World) (t r u : ObjectId) (s : Server) (db : Database)
    → w.is_member t u ≡ true
    → let db' = end_call r db in
      let s' = set_manager (remove_room r s.manager).1 s in
      call_end w t r u s db ≡ (done, tell_members w t r u (ServerEvent.call_ended r) s' db', db')
unfolding call_end
call_end_lem w t r u s db member = rw (member, no_participants r s.manager) refl

-- A room's document after a participant left.
departed_room :
    (now r u : ObjectId) (db : Database) (room : Room)
    → lookup r db.rooms ≡ some room
    → lookup r (leave_participant now r u db).rooms ≡ some (one_fewer room)
unfolding leave_participant
departed_room now r u db room here =
    ground (arith, here, ==-refl r, lookup-modify r r one_fewer db.rooms)

removed_lem : (r : ObjectId) (m : RoomManager) → has_room r (remove_room r m).1 ≡ false
unfolding has_room remove_room
removed_lem r m = elim (Option-cases (lookup r m.rooms)) [
  | inl gone ↦ rw (gone, remove_room) (ground (arith, gone))
  | inr (room, here) ↦ rw (here, remove_room) (ground (arith, lookup-remove r r m.rooms))
]

tell_members-manager :
    (w : World) (t r u : ObjectId) (event : ServerEvent) (s : Server) (db : Database)
    → (tell_members w t r u event s db).manager ≡ s.manager
tell_members-manager w t r u event s db = told (find_member_user_ids r db)
  where
    told : (users : List ObjectId) → (broadcast_some w t r u users event s).manager ≡ s.manager
    told [] = refl
    told (v ∷ users) =
        Keeps.broadcast_with_redis-Keeps (λ st m. m ≡ s.manager) w (v ∷ users) event s refl

-- How leaving a call goes on: not deserted, or deserted.
module _ (w : World) (t r u : ObjectId) (s : Server) (db : Database) (room : Room)
    (member : w.is_member t u ≡ true) (here : lookup r db.rooms ≡ some room)
    (own : room.tenant_id ≡ t) (running : room.conference_status ≡ some in_progress) where
  deserts :
      is_deserted (find_in_tenant t r (leave_participant w.env.now r u db))
      ≡ ((one_fewer room).participant_count == 0)
  deserts =
      let found : find_in_tenant t r (leave_participant w.env.now r u db) ≡ some (one_fewer room) =
        rw (departed_room w.env.now r u db room here, find_in_tenant) (ground (arith, own)) in
      rw (found) (rw (running) refl)

  call_leave_goes_on :
      (n : ℕ)
      → room.participant_count ≡ suc (suc n)
      → (call_leave w t r u s db).2 ≡ leave_participant w.env.now r u db
  unfolding call_leave
  call_leave_goes_on n count =
      let stays : ((one_fewer room).participant_count == 0) ≡ false = ground (arith, count) in
      rw (member, deserts, stays) refl

  call_leave_ends :
      room.participant_count ≡ 1
      → ((call_leave w t r u s db).2 ≡ end_call r (leave_participant w.env.now r u db))
        × (has_room r (call_leave w t r u s db).1.manager ≡ false)
  unfolding call_leave
  call_leave_ends count =
      let empties : ((one_fewer room).participant_count == 0) ≡ true = ground (arith, count) in
      rw (member, deserts, empties)
        (refl, rw (tell_members-manager w t r u _ _ _) (removed_lem r _))

-- In a call of two, one participant's client calls the leave route twice: the call is ended and
-- its media room removed, while the other participant still takes part.
call_leave_twice :
    (w w' : World) (t r u v : ObjectId) (s : Server) (db : Database) (room : Room)
    → u ≢ v
    → w.is_member t u ≡ true
    → w'.is_member t u ≡ true
    → lookup r db.rooms ≡ some room
    → room.tenant_id ≡ t
    → room.conference_status ≡ some in_progress
    → room.participant_count ≡ 2
    → Attends r v true db
    → let once = call_leave w t r u s db in
      let twice = call_leave w' t r u once.1 once.2 in
      Attends r v true twice.2
      × (has_room r twice.1.manager ≡ false)
      × (after : Room) × (lookup r twice.2.rooms ≡ some after)
      × (after.conference_status ≡ some ended)
unfolding end_call
call_leave_twice w w' t r u v s db room other member member' here own running count attends =
    let once = call_leave w t r u s db in
    let first = call_leave_goes_on w t r u s db room member here own running 0 count in
    let between : lookup r once.2.rooms ≡ some (one_fewer room) =
      rw (first) (departed_room w.env.now r u db room here) in
    let (ends, removed) =
      call_leave_ends w' t r u once.1 once.2 (one_fewer room) member' between own running
        (ground (arith, count)) in
    let (present, counted) =
      leave_participant_twice w.env.now w'.env.now r u v db other attends (room, here, count) in
    let last = departed_room w'.env.now r u once.2 (one_fewer room) between in
    (
      rw (ends, first) present,
      removed,
      record (one_fewer (one_fewer room)) { conference_status = some ended },
      rw (ends, lookup-modify r r _ _, last, ==-refl r) refl,
      refl,
    )
