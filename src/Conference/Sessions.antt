-- ===== src/Conference/Sessions.antt =====
-- Who is in a call: joining it, leaving it, and deleting its room.
use roomler.Prelude.{
  suc, lookup-modify, ==-refl, ℕ, ◌≡◌, ◌≢◌, refl, sym, true, false, ◌&&◌, none, some, List, [], ◌∷◌,
  ◌++◌, map, any, arith, Bool-cases, inl, inr,
}
use roomler.Conference.{
  count_one, joins_again, one_fewer, not, update_room, lookup, is_in_room, find_member_user_ids,
  closed, Text, retain, leave_participant, join_participant, cascade_delete, Room, Database, Bool,
  ObjectId, RoomMember, ParticipantSession, is_of, is_in_call, is_open_session, find, update_where,
  close_session,
}
use roomler.Conference.Reach.{Reachable, Reachable-Consistent}
use roomler.Conference.Counts.{KeepsRow, Unique}

find-update_where :
    (r u : ObjectId) (f : RoomMember → RoomMember) (l : List RoomMember) (m : RoomMember)
    → KeepsRow f
    → find (is_of r u) l ≡ some m
    → find (is_of r u) (update_where (is_of r u) f l) ≡ some (f m)
find-update_where r u f [] m keeps h = cc
find-update_where r u f (x ∷ l) m keeps h = elim (Bool-cases (is_of r u x)) [
  | inl here ↦ rw (here) (ground (arith, here, h, keeps x))
  | inr other ↦ rw (other) (ground (arith, other, h, find-update_where r u f l m keeps))
]

find_other :
    (r u v : ObjectId) (f : RoomMember → RoomMember) (l : List RoomMember)
    → KeepsRow f
    → u ≢ v
    → find (is_of r v) (update_where (is_of r u) f l) ≡ find (is_of r v) l
find_other r u v f [] keeps other = refl
find_other r u v f (x ∷ l) keeps other = elim (Bool-cases (is_of r u x)) [
  | inl here ↦ rw (here) (ground (arith, here, other, keeps x, find_other r u v f l keeps other))
  | inr away ↦ rw (away) (ground (arith, find_other r u v f l keeps other))
]

any-none :
    (r u : ObjectId) (l : List RoomMember)
    → any (is_of r u) l ≡ false
    → find (λ m. is_of r u m && is_in_call m) l ≡ none
any-none r u [] h = refl
any-none r u (x ∷ l) h = ground (arith, h, any-none r u l)

-- The only row of a user in a room decides whether the user is in its call.
find-is_in_call :
    (r u : ObjectId) (l : List RoomMember) (m : RoomMember)
    → Unique l
    → find (is_of r u) l ≡ some m
    → is_in_call m ≡ false
    → find (λ x. is_of r u x && is_in_call x) l ≡ none
find-is_in_call r u [] m d h idle = refl
find-is_in_call r u (x ∷ l) m (d, rest) h idle = elim (Bool-cases (is_of r u x)) [
  | inl here ↦
      let same_room : x.room_id ≡ r = ground (arith, here) in
      let same_user : x.user_id ≡ u = ground (arith, here) in
      let alone : any (is_of r u) l ≡ false = rw (sym same_room, sym same_user) d in
      let same : some x ≡ some m = rw (sym h, here) refl in
      let idle' : is_in_call x ≡ false = cc (same, idle) in rw (here, idle') (any-none r u l alone)
  | inr other ↦ rw (other) (find-is_in_call r u l m rest (ground (arith, h, other)) idle)
]

any-append :
    (s : ParticipantSession) (l : List ParticipantSession)
    → is_open_session s ≡ true
    → any is_open_session (l ++ s ∷ []) ≡ true
any-append s [] h = ground (arith, h)
any-append s (x ∷ l) h = ground (arith, any-append s l h)

any-close_session :
    (now : ℕ) (l : List ParticipantSession)
    → any is_open_session (map (close_session now) l) ≡ false
any-close_session now [] = refl
any-close_session now (x ∷ l) = elim (Bool-cases (is_open_session x)) [
  | inl here ↦ rw (here) (any-close_session now l)
  | inr other ↦ rw (other, other) (any-close_session now l)
]

-- The room's document, and how many take part in its call.
abbrev pub Counts : ObjectId → ℕ → Database → Type 0
Counts r n db = (room : Room) × (lookup r db.rooms ≡ some room) × (room.participant_count ≡ n)

-- The user's row, and whether the user is in the call.
abbrev pub Attends : ObjectId → ObjectId → Bool → Database → Type 0
Attends r u b db = (m : RoomMember) × (find (is_of r u) db.members ≡ some m) × (is_in_call m ≡ b)

update_room-Counts :
    (r n k : ℕ) (f : Room → Room) (db : Database)
    → ((q : Room) → q.participant_count ≡ n → (f q).participant_count ≡ k)
    → Counts r n db
    → Counts r k (update_room r f db)
update_room-Counts r n k f db changes (room, here, e) =
    (f room, ground (arith, here, ==-refl r, lookup-modify r r f db.rooms), changes room e)

no_rows :
    (r : ObjectId) (l : List RoomMember)
    → retain (is_in_room r) (retain (λ m. not (is_in_room r m)) l) ≡ []
no_rows r [] = refl
no_rows r (m ∷ l) = ground (arith, no_rows r l)

-- A member that is not in the room's call joins it and leaves it again: the user is counted in
-- between, and afterwards the user is not in the call and the count is what it was.
leave_participant-join_participant :
    (now later t r u n : ℕ) (name : Text) (db : Database)
    → Reachable db
    → Attends r u false db
    → Counts r n db
    → let (answer, between) = join_participant now t r u name db in
      let after = leave_participant later r u between in
      Attends r u true between
      × Counts r (suc n) between
      × Attends r u false after
      × Counts r n after
unfolding join_participant leave_participant
leave_participant-join_participant now later t r u n name db reached (m, known, idle) counts =
    let idle_rows = find-is_in_call r u db.members m (Reachable-Consistent reached).0 known idle in
    let joined =
      find-update_where r u (joins_again now name) db.members m (λ x. (refl, refl)) known in
    let more =
      update_room-Counts r n (suc n) count_one
        (record db { members = update_where (is_of r u) (joins_again now name) db.members })
        (λ q e. ground (arith, e)) counts in
    rw (idle_rows, known, join_participant)
      (
        (joins_again now name m, joined, any-append _ m.sessions refl),
        more,
        (
          closed later (joins_again now name m),
          find-update_where r u (closed later) _ _ (λ x. (refl, refl)) joined,
          any-close_session later (joins_again now name m).sessions,
        ),
        update_room-Counts r (suc n) n one_fewer
            (update_room r count_one
              (record db { members = update_where (is_of r u) (joins_again now name) db.members }))
            (λ q e. ground (arith, e)) more,
      )

-- In a call of two, a participant whose client reports twice that it left brings the count to
-- nobody, while the other one still takes part.
pub leave_participant_twice :
    (now later r u v : ℕ) (db : Database)
    → u ≢ v
    → Attends r v true db
    → Counts r 2 db
    → let after = leave_participant later r u (leave_participant now r u db) in
      Attends r v true after × Counts r 0 after
unfolding leave_participant
leave_participant_twice now later r u v db other (m, known, active) counts =
    let keep = find_other r u v (closed now) db.members (λ x. (refl, refl)) other in
    let keep' =
      find_other r u v (closed later) (update_where (is_of r u) (closed now) db.members)
        (λ x. (refl, refl)) other in
    let db' : Database = record db { members = update_where (is_of r u) (closed now) db.members } in
    let once = update_room-Counts r 2 1 one_fewer db' (λ q e. ground (arith, e)) counts in
    (
      (m, rw (keep', keep) known, active),
      update_room-Counts r 1 0 one_fewer
          (record (update_room r one_fewer db') {
            members = update_where (is_of r u) (closed later) db'.members;
          })
          (λ q e. ground (arith, e)) once,
    )

-- Deleting a room under another tenant than its own leaves the room and removes all its members.
cascade_delete_foreign :
    (t r : ℕ) (room : Room) (db : Database)
    → lookup r db.rooms ≡ some room
    → room.tenant_id ≢ t
    → let after = cascade_delete t r db in
      (lookup r after.rooms ≡ some room) × (find_member_user_ids r after ≡ [])
unfolding cascade_delete find_member_user_ids
cascade_delete_foreign t r room db here foreign =
    (rw (here, cascade_delete) (ground (arith, here, foreign)), rw (no_rows r db.members) refl)
