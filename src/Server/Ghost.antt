-- ===== src/Server/Ghost.antt =====
-- A browser that joins a second media room without leaving the first.
use roomler.Prelude.{
  ◌≡◌, ◌≢◌, refl, sym, true, some, [], ◌∷◌, Text, lookup, insert, arith, Option-cases, inl, inr,
  lookup-insert, lookup-modify, ==-refl, subst, ◌∙◌,
}
use roomler.RemoteControl.Models.{ObjectId}
use roomler.RemoteControl.Hub.Connect.{unregister_controller}
use roomler.Sockets.{remove_sender}
use roomler.Media.Rooms.{RoomManager, MediaRoom, ParticipantMedia, Engine, create_transports}
use roomler.Media.Rooms.Closing.{has_room, get_connection_room, close_participant, without}
use roomler.Media.Rooms.Placed.{held}
use roomler.Server.{Server, World}
use roomler.Server.Media.{need, MediaData, Field, handle_media_join, set_manager}
use roomler.Server.Socket.{Socket, socket_closed}
use roomler.Server.Keeps
use roomler.Server.Agreed.{leave_room_state}

-- The room exists, and mediasoup makes both transports in it.
abbrev pub Joinable : Engine → ObjectId → RoomManager → Type 0
Joinable engine r m =
    (room : MediaRoom) × (lookup r m.rooms ≡ some room)
    × (send : ObjectId) × (engine.new_send room.router ≡ some send)
    × (recv : ObjectId) × (engine.new_recv room.router ≡ some recv)

-- What joining makes of the room manager, and what stays of the other rooms.
abbrev pub Joined : ObjectId → ObjectId → RoomManager → RoomManager → Type 0
Joined r c m m' =
    (held c (lookup r m'.rooms) ≡ true)
    × (lookup c m'.connection_rooms ≡ some r)
    × ((q : ObjectId) → r ≢ q → lookup q m'.rooms ≡ lookup q m.rooms)

create_transports-Joined :
    (engine : Engine) (r u c : ObjectId) (m : RoomManager)
    → Joinable engine r m
    → Joined r c m (create_transports engine r u c m).1
unfolding create_transports
create_transports-Joined engine r u c m (room, here, send, made, recv, both) =
    let p : ParticipantMedia = record {
      user_id = u;
      send_transport = send;
      recv_transport = recv;
      producers = [];
      consumers = [];
    } in
    let f : MediaRoom → MediaRoom = λ x. record x { participants = insert c p x.participants } in
    rw (here, made, both)
      (
        ground (
          arith,
          here,
          ==-refl r,
          ==-refl c,
          lookup-modify r r f m.rooms,
          lookup-insert c c p room.participants,
        ),
        ground (arith, lookup-insert c c r m.connection_rooms),
        λ q other. elim (Option-cases (lookup q m.rooms)) [
          | inl gone ↦ ground (arith, gone, lookup-modify r q f m.rooms)
          | inr (x, there) ↦ ground (arith, there, other, lookup-modify r q f m.rooms)
        ],
      )

-- The handler, for a message whose room is known.
join_lem :
    (w : World) (u c r : ObjectId) (room : Text) (d : MediaData) (s : Server)
    → d.room_id ≡ Field.given room r
    → has_room r s.manager ≡ true
    → (handle_media_join w u c (some d) s).manager ≡ (create_transports w.engine r u c s.manager).1
unfolding handle_media_join need
join_lem w u c r room d s names known =
    let made = create_transports w.engine r u c s.manager in
    rw (names, known)
      (Keeps.join_answered-Keeps (λ t m. m ≡ made.1) w u c r made.0 (set_manager made.1 s) refl)

Joinable-has_room :
    (engine : Engine) (r : ObjectId) (m : RoomManager) → Joinable engine r m → has_room r m ≡ true
unfolding has_room
Joinable-has_room engine r m j = ground (arith, j.1)

Joinable-same :
    (engine : Engine) (r : ObjectId) (m m' : RoomManager)
    → lookup r m'.rooms ≡ lookup r m.rooms
    → Joinable engine r m
    → Joinable engine r m'
Joinable-same engine r m m' same j = (j.0, same ∙ j.1, j.2, j.3, j.4, j.5)

-- Closing a socket touches only the room that its connection is listed under.
closed_ghost :
    (w : World) (c r q : ObjectId) (k : Socket) (s : Server) (m : RoomManager)
    → q ≢ r
    → s.manager ≡ m
    → lookup c m.connection_rooms ≡ some q
    → held c (lookup r m.rooms) ≡ true
    → held c (lookup r (socket_closed w c k s).manager.rooms) ≡ true
unfolding socket_closed get_connection_room close_participant
closed_ghost w c r q k s m away managed listed holds =
    let before : Server = record s {
      hub = unregister_controller w.env k.user_id k.rc_controller_tx s.hub;
      storage = remove_sender k.user_id c k.sender s.storage;
      manager = m;
    } in
    let (stored, left) = leave_room_state w k.user_id c q before in
    rw (managed, listed)
      (rw (left) (ground (arith, holds, away, lookup-modify q r (without (c ∷ [])) m.rooms)))

-- A browser joins a room, then another one, and disconnects: the first room still holds it.
pub socket_closed_ghost :
    (w : World) (k : Socket) (c r q : ObjectId) (text text' : Text) (d d' : MediaData) (s : Server)
    → r ≢ q
    → d.room_id ≡ Field.given text r
    → d'.room_id ≡ Field.given text' q
    → Joinable w.engine r s.manager
    → Joinable w.engine q s.manager
    → let s' =
        handle_media_join w k.user_id c (some d') (handle_media_join w k.user_id c (some d) s) in
      held c (lookup r (socket_closed w c k s').manager.rooms) ≡ true
socket_closed_ghost w k c r q text text' d d' s other names names' joins joins' =
    let u = k.user_id in
    let m1 = (create_transports w.engine r u c s.manager).1 in
    let m2 = (create_transports w.engine q u c m1).1 in
    let s1 = handle_media_join w u c (some d) s in
    let s2 = handle_media_join w u c (some d') s1 in
    let first : s1.manager ≡ m1 =
      join_lem w u c r text d s names (Joinable-has_room w.engine r s.manager joins) in
    let (held1, listed1, same1) = create_transports-Joined w.engine r u c s.manager joins in
    let joins1 : Joinable w.engine q m1 =
      Joinable-same w.engine q s.manager m1 (same1 q other) joins' in
    let second : s2.manager ≡ m2 =
      subst
        (λ m.
          (handle_media_join w u c (some d') s1).manager ≡ (create_transports w.engine q u c m).1)
        first
        (join_lem w u c q text' d' s1 names'
          (rw (first) (Joinable-has_room w.engine q m1 joins1))) in
    let (held2, listed2, same2) = create_transports-Joined w.engine q u c m1 joins1 in
    let away : q ≢ r = λ e. other (sym e) in
    closed_ghost w c r q k s2 m2 away second listed2 (rw (same2 r away) held1)
