-- ===== src/Conference/Reach.antt =====
-- Every reachable state of the rooms' collections.
use roomler.Prelude.{
  suc, lookup-remove, ℕ, ◌+◌, ◌≡◌, refl, false, Option, none, [], ◌∷◌, Text, lookup, any, insert,
  arith, Bool-cases, Option-cases, inl, inr, lookup-insert, ◌&&◌, ◌⊎◌, Bool, ◌≢◌, map, retain,
  remove, length,
}
use roomler.Conference.{
  not, some, is_in_room, List, DaoError, find_member_user_ids, ObjectId, Room, RoomMember, Database,
  DaoResult, ok, err, is_of, is_row, is_in_call, find, update_where, update_room, new_member,
  new_room, created, join, leave, create, path_of, start_call, end_call, join_participant,
  leave_participant, cascade_delete, add_session, joins_again, fresh_participant,
}
use roomler.Conference.Counts.{
  Consistent, KeepsRow, member_rows, member_rows-update_where, Unique-update_where, Unique-retain,
  update_room-Counted, inserted-Counted, left-Counted, kept_same,
}

pub data Event : Type 0 where
  room_created :
      (new_id tenant_id : ObjectId)
      → Text
      → Option ObjectId
      → (creator_id : ObjectId) → Bool
      → Event
  joined left : (tenant_id room_id user_id : ObjectId) → Event
  call_started call_ended : (room_id : ObjectId) → Event
  participated : (now : ℕ) (tenant_id room_id user_id : ObjectId) → Text → Event
  departed : (now : ℕ) (room_id user_id : ObjectId) → Event
  room_deleted : (tenant_id room_id : ObjectId) → Event

unfoldable pub step : Event → Database → Database
step (room_created id t name parent creator is_open) db =
    (create id t name parent creator is_open db).1
step (joined t r u) db = (join t r u db).1
step (left t r u) db = (leave t r u db).1
step (call_started r) db = start_call r db
step (call_ended r) db = end_call r db
step (participated now t r u name) db = (join_participant now t r u name db).1
step (departed now r u) db = leave_participant now r u db
step (room_deleted t r) db = cascade_delete t r db

-- The database gives a room an identifier that nothing uses, and a room is deleted in its own tenant.
abbrev pub IsOrderly : Event → Database → Type 0
IsOrderly (room_created id t name parent creator is_open) db =
    (lookup id db.rooms ≡ none) × (member_rows id db.members ≡ 0)
IsOrderly (room_deleted t id) db = (r : Room) → lookup id db.rooms ≡ some r → r.tenant_id ≡ t
IsOrderly _ db = Unit

abbrev pub empty : Database
empty = record { rooms = []; members = [] }

pub data Reachable : Database → Type 0 where
  start : Reachable empty
  next :
      {db : Database} (event : Event)
      → Reachable db
      → IsOrderly event db
      → Reachable (step event db)

inserted-Consistent :
    (m : RoomMember) (f : Room → Room) (db : Database)
    → ((r : Room) → (f r).member_count ≡ r.member_count + 1)
    → Consistent db
    → any (is_of m.room_id m.user_id) db.members ≡ false
    → Consistent (update_room m.room_id f (record db { members = m ∷ db.members }))
inserted-Consistent m f db more (d, h) free = ((free, d), inserted-Counted m f db more h)

join-Consistent : (t r u : ObjectId) (db : Database) → Consistent db → Consistent (join t r u db).1
unfolding join
join-Consistent t r u db v = elim (Bool-cases (any (is_of r u) db.members)) [
  | inl taken ↦ rw (taken, join) v
  | inr free ↦ rw (free, join) (inserted-Consistent (new_member t r u) _ db (λ r. refl) v free)
]

leave-Consistent :
    (t r u : ObjectId) (db : Database) → Consistent db → Consistent (leave t r u db).1
unfolding leave
leave-Consistent t r u db v = elim (Bool-cases (any (is_row t r u) db.members)) [
  | inl found ↦ rw (found, leave) (Unique-retain _ db.members v.0, left-Counted t r u db v found)
  | inr absent ↦ rw (absent, leave, kept_same t r u db.members absent) v
]

created-Consistent :
    (id : ObjectId) (room : Room) (db : Database)
    → room.member_count ≡ 1
    → member_rows id db.members ≡ 0
    → Consistent db
    → Consistent (record db { rooms = insert id room db.rooms })
created-Consistent id room db one unused (d, h) =
    (d, λ j r e. ground (arith, one, unused, e, h j r, lookup-insert id j room db.rooms))

created_state :
    (id : ObjectId) (answer : DaoResult RoomMember) (db : Database)
    → (created id (answer, db)).1 ≡ db
created_state id (ok m) db = refl
created_state id (err e) db = refl

length-map : {A B : Type 0} (f : A → B) (l : List A) → length (map f l) ≡ length l
length-map f [] = refl
length-map f (x ∷ l) = rw (length-map f l) refl

path-cases : (x : DaoResult Text) → ((path : Text) × (x ≡ ok path)) ⊎ ((e : DaoError) × (x ≡ err e))
path-cases (ok path) = inl (path, refl)
path-cases (err e) = inr (e, refl)

create-Consistent :
    (id t : ObjectId) (name : Text) (parent : Option ObjectId) (creator : ObjectId) (is_open : Bool)
    (db : Database)
    → member_rows id db.members ≡ 0
    → Consistent db
    → Consistent (create id t name parent creator is_open db).1
unfolding create
create-Consistent id t name parent creator is_open db unused v =
    elim (path-cases (path_of t name parent db)) [
      | inr (e, failed) ↦ rw (failed, create) v
      | inl (path, found) ↦
          let room = new_room t name parent path creator is_open in
          let db' : Database = record db { rooms = insert id room db.rooms } in
          rw (found, create)
            (rw (created_state id (join t id creator db').0 (join t id creator db').1)
              (join-Consistent t id creator db' (created-Consistent id room db refl unused v)))
    ]

-- A change of the room's members that keeps their rows, and of its document that keeps the count.
updated-Consistent :
    (id : ObjectId) (f : Room → Room) (p : RoomMember → Bool) (g : RoomMember → RoomMember)
    (db : Database)
    → ((r : Room) → (f r).member_count ≡ r.member_count)
    → KeepsRow g
    → Consistent db
    → Consistent (update_room id f (record db { members = update_where p g db.members }))
updated-Consistent id f p g db same keeps (d, h) = (
  Unique-update_where p g keeps db.members d,
  update_room-Counted id f (record db { members = update_where p g db.members }) same
      (λ j r e. rw (member_rows-update_where p g keeps j db.members) (h j r e)),
)

join_participant-Consistent :
    (now : ℕ) (t r u : ObjectId) (name : Text) (db : Database)
    → Consistent db
    → Consistent (join_participant now t r u name db).1
unfolding join_participant
join_participant-Consistent now t r u name db v =
    elim (Option-cases (find (λ m. is_of r u m && is_in_call m) db.members)) [
      | inr (m, active) ↦
          rw (active, join_participant)
            (
              Unique-update_where (is_of r u) (add_session now) (λ m. (refl, refl)) db.members v.0,
              λ j q e.
                  rw
                    (member_rows-update_where (is_of r u) (add_session now) (λ m. (refl, refl)) j
                      db.members)
                    (v.1 j q e),
            )
      | inl inactive ↦ elim (Option-cases (find (is_of r u) db.members)) [
        | inr (m, known) ↦
            rw (inactive, known, join_participant)
              (updated-Consistent r _ (is_of r u) (joins_again now name) db (λ q. refl)
                (λ m. (refl, refl)) v)
        | inl unknown ↦ elim (Bool-cases (any (is_of r u) db.members)) [
          | inl taken ↦ rw (inactive, unknown, taken, join_participant) v
          | inr free ↦
              rw (inactive, unknown, free, join_participant)
                (inserted-Consistent (fresh_participant now t r u name) _ db (λ q. refl) v free)
        ]
      ]
    ]

member_rows-retain :
    (id j : ObjectId) (l : List RoomMember)
    → id ≢ j
    → member_rows j (retain (λ m. not (is_in_room id m)) l) ≡ member_rows j l
member_rows-retain id j [] other = refl
member_rows-retain id j (m ∷ l) other = ground (arith, other, member_rows-retain id j l other)

cascade_delete-Consistent :
    (t id : ObjectId) (db : Database)
    → ((r : Room) → lookup id db.rooms ≡ some r → r.tenant_id ≡ t)
    → Consistent db
    → Consistent (cascade_delete t id db)
unfolding cascade_delete
cascade_delete-Consistent t id db own (d, h) = (
  Unique-retain _ db.members d,
  λ j r e. elim (Option-cases (lookup id db.rooms)) [
    | inl gone ↦
        let other : id ≢ j = λ same. ground (arith, gone, e, same) in
        rw (member_rows-retain id j db.members other) (h j r (ground (arith, gone, e)))
    | inr (q, here) ↦
        let left : lookup j (remove id db.rooms) ≡ some r = ground (arith, here, e, own q here) in
        let other : id ≢ j = λ same. ground (arith, left, same, lookup-remove id j db.rooms) in
        rw (member_rows-retain id j db.members other)
          (h j r (ground (arith, left, other, lookup-remove id j db.rooms)))
  ],
)

step-Consistent :
    (event : Event) (db : Database)
    → IsOrderly event db
    → Consistent db
    → Consistent (step event db)
unfolding step start_call end_call leave_participant
step-Consistent (room_created id t name parent creator is_open) db (unused, unlisted) v =
    create-Consistent id t name parent creator is_open db unlisted v
step-Consistent (joined t r u) db o v = join-Consistent t r u db v
step-Consistent (left t r u) db o v = leave-Consistent t r u db v
step-Consistent (call_started r) db o v = (v.0, update_room-Counted r _ db (λ q. refl) v.1)
step-Consistent (call_ended r) db o v = (v.0, update_room-Counted r _ db (λ q. refl) v.1)
step-Consistent (participated now t r u name) db o v =
    join_participant-Consistent now t r u name db v
step-Consistent (departed now r u) db o v =
    updated-Consistent r _ (is_of r u) _ db (λ q. refl) (λ m. (refl, refl)) v
step-Consistent (room_deleted t r) db o v = cascade_delete-Consistent t r db o v

pub Reachable-Consistent : {db : Database} → Reachable db → Consistent db
unfolding lookup
Reachable-Consistent start = (tt, λ id r e. cc)
Reachable-Consistent (next {db} event before orderly) =
    step-Consistent event db orderly (Reachable-Consistent before)

length-find_member_user_ids :
    (id : ObjectId) (db : Database)
    → length (find_member_user_ids id db) ≡ member_rows id db.members
unfolding find_member_user_ids
length-find_member_user_ids id db = length-map (λ m. m.user_id) (retain (is_in_room id) db.members)

-- After any sequence of calls from an empty database in which a room is created under an
-- identifier that no room and no member row has, and deleted only under its own tenant: the member
-- count of a room is one more than the number of its members.
pub Reachable-member_count :
    {db : Database} (id : ObjectId) (r : Room)
    → Reachable db
    → lookup id db.rooms ≡ some r
    → r.member_count ≡ suc (length (find_member_user_ids id db))
Reachable-member_count {db} id r reached e =
    rw (length-find_member_user_ids id db) ((Reachable-Consistent reached).1 id r e)
