-- ===== src/Conference/Counts.antt =====
-- The counts that a room's document keeps, under any sequence of calls.
use roomler.Prelude.{
  sym, Bool-cases, ℕ, suc, ◌+◌, ◌≡◌, refl, Bool, false, some, List, [], ◌∷◌, lookup, any, retain,
  length, arith, Option-cases, inl, inr, lookup-modify, if◌then◌else◌, ◌-◌, ◌==◌,
}
use roomler.Conference.{
  true, not, is_row, ObjectId, Room, RoomMember, Database, is_of, is_in_room, update_where,
  update_room,
}

-- The rows of a room.
abbrev pub member_rows : ObjectId → List RoomMember → ℕ
member_rows room_id members = length (retain (is_in_room room_id) members)

-- What the unique index keeps.
abbrev pub Unique : List RoomMember → Type 0
Unique [] = Unit
Unique (m ∷ rest) = (any (is_of m.room_id m.user_id) rest ≡ false) × Unique rest

abbrev pub Counted : Database → Type 0
Counted db =
    (id : ObjectId) (r : Room)
    → lookup id db.rooms ≡ some r
    → r.member_count ≡ suc (member_rows id db.members)

abbrev pub Consistent : Database → Type 0
Consistent db = Unique db.members × Counted db

-- A change of a row that keeps its room and user.
abbrev pub KeepsRow : (RoomMember → RoomMember) → Type 0
KeepsRow f = (m : RoomMember) → ((f m).room_id ≡ m.room_id) × ((f m).user_id ≡ m.user_id)

module _ (p : RoomMember → Bool) (f : RoomMember → RoomMember) (keeps : KeepsRow f) where
  pub any-update_where :
      (r u : ObjectId) (l : List RoomMember)
      → any (is_of r u) (update_where p f l) ≡ any (is_of r u) l
  any-update_where r u [] = refl
  any-update_where r u (m ∷ l) = ground (arith, any-update_where r u l, (keeps m).0, (keeps m).1)

  pub Unique-update_where : (l : List RoomMember) → Unique l → Unique (update_where p f l)
  Unique-update_where [] h = tt
  Unique-update_where (m ∷ l) (h, rest) = (
    ground (
      arith,
      h,
      any-update_where m.room_id m.user_id l,
      any-update_where (f m).room_id (f m).user_id l,
      (keeps m).0,
      (keeps m).1,
    ),
    Unique-update_where l rest,
  )

  pub member_rows-update_where :
      (id : ObjectId) (l : List RoomMember) → member_rows id (update_where p f l) ≡ member_rows id l
  member_rows-update_where id [] = refl
  member_rows-update_where id (m ∷ l) = ground (arith, member_rows-update_where id l, (keeps m).0)

module _ (p : RoomMember → Bool) where
  any-retain :
      (r u : ObjectId) (l : List RoomMember)
      → any (is_of r u) l ≡ false
      → any (is_of r u) (retain p l) ≡ false
  any-retain r u [] h = refl
  any-retain r u (m ∷ l) h = ground (arith, h, any-retain r u l)

  pub Unique-retain : (l : List RoomMember) → Unique l → Unique (retain p l)
  Unique-retain [] h = tt
  Unique-retain (m ∷ l) (h, rest) =
      ground (arith, any-retain m.room_id m.user_id l h, Unique-retain l rest)

-- A room's update that keeps the member count.
pub update_room-Counted :
    (id : ObjectId) (f : Room → Room) (db : Database)
    → ((r : Room) → (f r).member_count ≡ r.member_count)
    → Counted db
    → Counted (update_room id f db)
update_room-Counted id f db same h j r e = elim (Option-cases (lookup j db.rooms)) [
  | inl gone ↦ ground (arith, gone, e, lookup-modify id j f db.rooms)
  | inr (q, here) ↦ ground (arith, here, e, h j q here, same q, lookup-modify id j f db.rooms)
]

-- One more row, and one more on the room's count.
pub inserted-Counted :
    (m : RoomMember) (f : Room → Room) (db : Database)
    → ((r : Room) → (f r).member_count ≡ r.member_count + 1)
    → Counted db
    → Counted (update_room m.room_id f (record db { members = m ∷ db.members }))
inserted-Counted m f db more h j r e = elim (Option-cases (lookup j db.rooms)) [
  | inl gone ↦ ground (arith, gone, e, lookup-modify m.room_id j f db.rooms)
  | inr (q, here) ↦
      ground (arith, here, e, h j q here, more q, lookup-modify m.room_id j f db.rooms)
]

module _ (t r u : ObjectId) where
  abbrev pub kept : List RoomMember → List RoomMember
  kept l = retain (λ m. not (is_row t r u m)) l

  any-is_row : (l : List RoomMember) → any (is_of r u) l ≡ false → any (is_row t r u) l ≡ false
  any-is_row [] h = refl
  any-is_row (m ∷ l) h = ground (arith, h, any-is_row l)

  pub kept_same : (l : List RoomMember) → any (is_row t r u) l ≡ false → kept l ≡ l
  kept_same [] h = refl
  kept_same (m ∷ l) h = ground (arith, h, kept_same l)

  is_of_same :
      (m : RoomMember) (l : List RoomMember)
      → is_row t r u m ≡ true
      → any (is_of m.room_id m.user_id) l ≡ any (is_of r u) l
  is_of_same m l h =
      let same_room : m.room_id ≡ r = ground (arith, h) in
      let same_user : m.user_id ≡ u = ground (arith, h) in rw (same_room, same_user) refl

  -- A row that is found is the only one that goes.
  member_rows-kept :
      (id : ObjectId) (l : List RoomMember)
      → Unique l
      → any (is_row t r u) l ≡ true
      → member_rows id l ≡ member_rows id (kept l) + (if r == id then 1 else 0)
  member_rows-kept id [] d h = cc
  member_rows-kept id (m ∷ l) (d, rest) h = elim (Bool-cases (is_row t r u m)) [
    | inl here ↦
        let gone : any (is_of r u) l ≡ false = rw (sym (is_of_same m l here)) d in
        let same = kept_same l (any-is_row l gone) in
        let same_room : m.room_id ≡ r = ground (arith, here) in
        rw (here, same, same_room) (ground arith)
    | inr other ↦ rw (other) (ground (arith, h, other, member_rows-kept id l rest))
  ]

  pub left-Counted :
      (db : Database)
      → Consistent db
      → any (is_row t r u) db.members ≡ true
      → Counted (
          update_room r
            (λ q. record q { member_count = q.member_count - 1 })
            (record db { members = kept db.members }))
  left-Counted db (d, h) found j q e = elim (Option-cases (lookup j db.rooms)) [
    | inl gone ↦ ground (
      arith,
      gone,
      e,
      lookup-modify r j (λ x. record x { member_count = x.member_count - 1 }) db.rooms,
    )
    | inr (x, here) ↦ ground (
      arith,
      here,
      e,
      h j x here,
      member_rows-kept j db.members d found,
      lookup-modify r j (λ y. record y { member_count = y.member_count - 1 }) db.rooms,
    )
  ]
