-- ===== src/Conference.antt =====
-- crates/services/src/dao/room.rs: rooms, their members, and who is in a room's call. A `Database`
-- holds the two collections. An operation is a sequence of document updates that all succeed, and
-- the unique index of room_members on room and user (crates/db/src/indexes.rs) refuses a second row.
use roomler.Prelude.{
  ℕ, ◌+◌, ◌-◌, Bool, true, false, not, ◌&&◌, Option, none, some, List, [], ◌∷◌, ◌++◌, Text, Map,
  lookup, insert, modify, remove, map, any, retain, ltb, is_some, ◌==◌, if◌then◌else◌,
}
pub mod Counts
pub mod Reach
pub mod Sessions
mod Tests

abbrev pub ObjectId : Type 0
ObjectId = ℕ

pub data ConferenceStatus : Type 0 where
  in_progress ended : ConferenceStatus

pub record Room : Type 0 where
  pub tenant_id : ObjectId
  pub parent_id : Option ObjectId
  pub name : Text
  pub path : Text
  pub is_open : Bool
  pub creator_id : ObjectId
  pub conference_status : Option ConferenceStatus
  pub member_count : ℕ
  pub participant_count : ℕ

pub record ParticipantSession : Type 0 where
  pub joined_at : ℕ
  pub left_at : Option ℕ

pub record RoomMember : Type 0 where
  pub tenant_id : ObjectId
  pub room_id : ObjectId
  pub user_id : ObjectId
  pub display_name : Option Text
  pub sessions : List ParticipantSession

pub record Database : Type 0 where
  pub rooms : Map Room
  pub members : List RoomMember

pub data DaoError : Type 0 where
  not_found duplicate_key : DaoError

pub data DaoResult (A : Type 0) : Type 0 where
  ok : A → DaoResult A
  err : DaoError → DaoResult A

-- The filters of the queries.
abbrev pub is_of : ObjectId → ObjectId → RoomMember → Bool
is_of room_id user_id m = m.room_id == room_id && m.user_id == user_id

abbrev pub is_open_session : ParticipantSession → Bool
is_open_session session = not (is_some session.left_at)

abbrev pub is_in_call : RoomMember → Bool
is_in_call m = any is_open_session m.sessions

abbrev pub is_in_room : ObjectId → RoomMember → Bool
is_in_room room_id m = m.room_id == room_id

-- `find_one` and `update_one` by a filter that the unique index makes unique.
abbrev pub find : (RoomMember → Bool) → List RoomMember → Option RoomMember
find p [] = none
find p (m ∷ rest) = if p m then some m else find p rest

abbrev pub update_where :
    (RoomMember → Bool) → (RoomMember → RoomMember) → List RoomMember → List RoomMember
update_where p f [] = []
update_where p f (m ∷ rest) = (if p m then f m else m) ∷ update_where p f rest

-- `insert_one` into room_members.
abbrev pub insert_member :
    RoomMember
    → (Database → DaoResult RoomMember × Database)
    → Database
    → DaoResult RoomMember × Database
insert_member m k db =
    let (answer, db') = k (record db { members = m ∷ db.members }) in
    if any (is_of m.room_id m.user_id) db.members then (err duplicate_key, db) else (answer, db')

abbrev pub update_room : ObjectId → (Room → Room) → Database → Database
update_room room_id f db = record db { rooms = modify room_id f db.rooms }

abbrev pub new_member : ObjectId → ObjectId → ObjectId → RoomMember
new_member tenant_id room_id user_id = record {
  tenant_id = tenant_id;
  room_id = room_id;
  user_id = user_id;
  display_name = none;
  sessions = [];
}

unfoldable pub join : ObjectId → ObjectId → ObjectId → Database → DaoResult RoomMember × Database
join tenant_id room_id user_id = insert_member (new_member tenant_id room_id user_id) (λ db. (
  ok (new_member tenant_id room_id user_id),
  update_room room_id (λ r. record r { member_count = r.member_count + 1 }) db,
))

abbrev pub is_row : ObjectId → ObjectId → ObjectId → RoomMember → Bool
is_row tenant_id room_id user_id m = m.tenant_id == tenant_id && is_of room_id user_id m

unfoldable pub leave : ObjectId → ObjectId → ObjectId → Database → Bool × Database
leave tenant_id room_id user_id db =
    let kept : Database = record db {
      members = retain (λ m. not (is_row tenant_id room_id user_id m)) db.members;
    } in
    if any (is_row tenant_id room_id user_id) db.members
    then (true, update_room room_id (λ r. record r { member_count = r.member_count - 1 }) kept)
    else (false, kept)

-- The path of the new room under its parent, which must be of the same tenant.
abbrev pub path_under : ObjectId → Text → Option Room → DaoResult Text
path_under tenant_id name none = err not_found
path_under tenant_id name (some parent) =
    if parent.tenant_id == tenant_id then ok (parent.path ++ b'.' ∷ name) else err not_found

abbrev pub path_of : ObjectId → Text → Option ObjectId → Database → DaoResult Text
path_of tenant_id name none db = ok name
path_of tenant_id name (some parent_id) db = path_under tenant_id name (lookup parent_id db.rooms)

abbrev pub new_room : ObjectId → Text → Option ObjectId → Text → ObjectId → Bool → Room
new_room tenant_id name parent_id path creator_id is_open = record {
  tenant_id = tenant_id;
  parent_id = parent_id;
  name = name;
  path = path;
  is_open = is_open;
  creator_id = creator_id;
  conference_status = none;
  member_count = 1;
  participant_count = 0;
}

abbrev pub created : ObjectId → DaoResult RoomMember × Database → DaoResult ObjectId × Database
created room_id (ok m, db) = (ok room_id, db)
created room_id (err e, db) = (err e, db)

-- `new_id` is the identifier that the database gives the row. The creator joins at once.
unfoldable pub create :
    ObjectId
    → ObjectId
    → Text
    → Option ObjectId
    → ObjectId
    → Bool
    → Database
    → DaoResult ObjectId × Database
unfolding join
create new_id tenant_id name parent_id creator_id is_open db =
    elim (path_of tenant_id name parent_id db) [
      | err e ↦ (err e, db)
      | ok path ↦ created new_id (
          join tenant_id new_id creator_id (record db {
            rooms =
                insert new_id (new_room tenant_id name parent_id path creator_id is_open) db.rooms;
          }))
    ]

unfoldable pub find_member_user_ids : ObjectId → Database → List ObjectId
find_member_user_ids room_id db = map (λ m. m.user_id) (retain (is_in_room room_id) db.members)

unfoldable pub start_call : ObjectId → Database → Database
start_call room_id = update_room room_id (λ r. record r { conference_status = some in_progress })

unfoldable pub end_call : ObjectId → Database → Database
end_call room_id = update_room room_id (λ r. record r { conference_status = some ended })

abbrev pub add_session : ℕ → RoomMember → RoomMember
add_session now m = record m {
  sessions = m.sessions ++ record { joined_at = now; left_at = none } ∷ [];
}

abbrev pub joins_again : ℕ → Text → RoomMember → RoomMember
joins_again now display_name m = record (add_session now m) { display_name = some display_name }

abbrev pub fresh_participant : ℕ → ObjectId → ObjectId → ObjectId → Text → RoomMember
fresh_participant now tenant_id room_id user_id display_name =
    joins_again now display_name (new_member tenant_id room_id user_id)

abbrev pub count_one : Room → Room
count_one r = record r { participant_count = r.participant_count + 1 }

-- In the call already, a member that left it, or no member of the room yet.
unfoldable pub join_participant :
    ℕ → ObjectId → ObjectId → ObjectId → Text → Database → DaoResult RoomMember × Database
join_participant now tenant_id room_id user_id display_name db =
    elim (find (λ m. is_of room_id user_id m && is_in_call m) db.members) [
      | some m ↦ (
        ok (add_session now m),
        record db { members = update_where (is_of room_id user_id) (add_session now) db.members },
      )
      | none ↦ elim (find (is_of room_id user_id) db.members) [
        | some m ↦ (
          ok (joins_again now display_name m),
          update_room room_id count_one (record db {
            members =
                update_where (is_of room_id user_id) (joins_again now display_name) db.members;
          }),
        )
        | none ↦
            let m = fresh_participant now tenant_id room_id user_id display_name in
            insert_member m
              (λ db'. (
                ok m,
                update_room room_id
                    (λ r. record r {
                      member_count = r.member_count + 1;
                      participant_count = r.participant_count + 1;
                    })
                    db',
              ))
              db
      ]
    ]

abbrev pub close_session : ℕ → ParticipantSession → ParticipantSession
close_session now session =
    if is_open_session session then record session { left_at = some now } else session

abbrev pub closed : ℕ → RoomMember → RoomMember
closed now m = record m { sessions = map (close_session now) m.sessions }

-- The guarded decrement of the participant count.
abbrev pub one_fewer : Room → Room
one_fewer r = record r {
  participant_count =
      if ltb 0 r.participant_count then r.participant_count - 1 else r.participant_count;
}

unfoldable pub leave_participant : ℕ → ObjectId → ObjectId → Database → Database
leave_participant now room_id user_id db =
    update_room room_id one_fewer
      (record db { members = update_where (is_of room_id user_id) (closed now) db.members })

unfoldable pub cascade_delete : ObjectId → ObjectId → Database → Database
cascade_delete tenant_id room_id db = record db {
  members = retain (λ m. not (is_in_room room_id m)) db.members;
  rooms = elim (lookup room_id db.rooms) [
    | none ↦ db.rooms
    | some r ↦ if r.tenant_id == tenant_id then remove room_id db.rooms else db.rooms
  ];
}
