-- ===== src/Server/Routes.antt =====
-- What the routes of crates/api/src/routes/room.rs keep of the sockets and the media rooms.
use roomler.Prelude.{
  Bool, true, false, none, List, [], ◌∷◌, Option-cases, Bool-cases, inl, inr, if◌then◌else◌,
}
use roomler.RemoteControl.Models.{ObjectId}
use roomler.Conference
use roomler.Conference.{
  Database, DaoResult, RoomMember, find_member_user_ids, start_call, end_call, leave_participant,
  join_participant,
}
use roomler.Sockets.{WsStorage}
use roomler.Media.Rooms
use roomler.Media.Rooms.{RoomManager, Engine, MediaResult, create_room}
use roomler.Media.Rooms.Closing.{remove_room, close_participant_by_user, get_participant_user_ids}
use roomler.Media.Rooms.Placed.{remove_room-Placed, close_participant_by_user-Placed}
use roomler.Media.Rooms.Joining.{create_room-Placed}
use roomler.Media.Rooms.Listing.{
  create_room-Within, remove_room-Within, close_participant_by_user-Within,
}
use roomler.Server.{Server, ServerEvent, World}
use roomler.Server.Media.{set_manager}
use roomler.Server.Calls.{
  forbidden, failed, done, Answer, call_start, call_join, call_leave, call_end, broadcast_some,
  tell_members, call_opened, call_joined, end_deserted, is_deserted, find_in_tenant,
}
use roomler.Server.Keeps
use roomler.Server.Tidy.{Tidy}

module _ (storage : WsStorage) (allowed : ObjectId → Bool) (w : World) (t r u : ObjectId) where
  abbrev P : WsStorage → RoomManager → Type 0
  P = Tidy storage allowed

  abbrev pub TidyAnswer : Answer → Type 0
  TidyAnswer (result, s, db) = Tidy storage allowed s.storage s.manager

  broadcast_some-Tidy :
      (users : List ObjectId) (event : ServerEvent) (s : Server)
      → P s.storage s.manager
      → let s' = broadcast_some w t r u users event s in P s'.storage s'.manager
  broadcast_some-Tidy [] event s h = h
  broadcast_some-Tidy (v ∷ users) event s h =
      Keeps.broadcast_with_redis-Keeps P w (v ∷ users) event s h

  tell_members-Tidy :
      (event : ServerEvent) (s : Server) (db : Database)
      → P s.storage s.manager
      → let s' = tell_members w t r u event s db in P s'.storage s'.manager
  tell_members-Tidy event s db = broadcast_some-Tidy (find_member_user_ids r db) event s

  members_only-Tidy :
      (answer : Answer) (s : Server) (db : Database)
      → P s.storage s.manager
      → TidyAnswer answer
      → TidyAnswer (if w.is_member t u then answer else (forbidden, s, db))
  members_only-Tidy answer s db h k = elim (Bool-cases (w.is_member t u)) [
    | inl member ↦ rw (member) k
    | inr stranger ↦ rw (stranger) h
  ]

  call_opened-Tidy :
      (answer : MediaResult ObjectId) (s : Server) (db : Database)
      → P s.storage s.manager
      → TidyAnswer (call_opened w t r u answer s db)
  call_opened-Tidy (Rooms.err e) s db h = h
  call_opened-Tidy (Rooms.ok router) s db h = tell_members-Tidy _ s db h

  pub call_start-Tidy :
      (s : Server) (db : Database) → P s.storage s.manager → TidyAnswer (call_start w t r u s db)
  unfolding call_start
  call_start-Tidy s db h =
      let made = create_room w.engine r s.manager in
      let s' = set_manager made.1 s in
      members_only-Tidy (call_opened w t r u made.0 s' (start_call r db)) s db h (
        call_opened-Tidy made.0 s' (start_call r db) (
          h.0,
          create_room-Placed w.engine s.manager h.1 r,
          create_room-Within allowed s.manager h.2 w.engine r,
        ))

  call_joined-Tidy :
      (answer : DaoResult RoomMember × Database) (s : Server)
      → P s.storage s.manager
      → TidyAnswer (call_joined w t r u answer s)
  call_joined-Tidy (Conference.err e, db) s h = h
  call_joined-Tidy (Conference.ok m, db) s h = tell_members-Tidy _ s db h

  pub call_join-Tidy :
      (s : Server) (db : Database) → P s.storage s.manager → TidyAnswer (call_join w t r u s db)
  unfolding call_join
  call_join-Tidy s db h = elim (Option-cases (w.display_name u)) [
    | inl unknown ↦ rw (unknown) (members_only-Tidy (failed, s, db) s db h h)
    | inr (name, known) ↦
        let joined = join_participant w.env.now t r u name db in
        rw (known)
          (members_only-Tidy (call_joined w t r u joined s) s db h (call_joined-Tidy joined s h))
  ]

  end_deserted-Tidy :
      (deserted : Bool) (s : Server) (db : Database)
      → P s.storage s.manager
      → TidyAnswer (end_deserted w t r u deserted s db)
  end_deserted-Tidy false s db h = h
  end_deserted-Tidy true s db h =
      tell_members-Tidy (ServerEvent.call_ended r) (set_manager (remove_room r s.manager).1 s)
        (end_call r db)
        (h.0, remove_room-Placed s.manager h.1 r, remove_room-Within allowed s.manager h.2 r)

  pub call_leave-Tidy :
      (s : Server) (db : Database) → P s.storage s.manager → TidyAnswer (call_leave w t r u s db)
  unfolding call_leave
  call_leave-Tidy s db h =
      let manager = close_participant_by_user r u s.manager in
      let db' = leave_participant w.env.now r u db in
      let event = ServerEvent.peer_left u none r in
      let users = get_participant_user_ids r manager in
      let told = broadcast_some w t r u users event (set_manager manager s) in
      let deserted = is_deserted (find_in_tenant t r db') in
      members_only-Tidy (end_deserted w t r u deserted told db') s db h (
        end_deserted-Tidy deserted told db' (
          broadcast_some-Tidy users event (set_manager manager s) (
            h.0,
            close_participant_by_user-Placed s.manager h.1 r u,
            close_participant_by_user-Within allowed s.manager h.2 r u,
          )))

  pub call_end-Tidy :
      (s : Server) (db : Database) → P s.storage s.manager → TidyAnswer (call_end w t r u s db)
  unfolding call_end
  call_end-Tidy s db h =
      let db' = end_call r db in
      let s' = set_manager (remove_room r s.manager).1 s in
      let users = get_participant_user_ids r s'.manager in
      let event = ServerEvent.room_closed r in
      let told = broadcast_some w t r u users event s' in
      members_only-Tidy (done, tell_members w t r u (ServerEvent.call_ended r) told db', db') s db h
        (tell_members-Tidy (ServerEvent.call_ended r) told db' (
          broadcast_some-Tidy users event s'
            (h.0, remove_room-Placed s.manager h.1 r, remove_room-Within allowed s.manager h.2 r)))
