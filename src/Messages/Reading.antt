-- ===== src/Messages/Reading.antt =====
-- What users have read.
use roomler.Prelude.{
  ℕ, zero, suc, ◌+◌, ◌≡◌, ◌≢◌, ◌⊎◌, inl, inr, refl, ap, ◌∙◌, Bool, false, not, ◌&&◌, ◌||◌, Option,
  none, some, List, [], ◌∷◌, ◌++◌, Map, lookup, contains, arith, Bool-cases, ◌==◌, ==-refl,
  if◌then◌else◌,
}
use roomler.Messages.{ObjectId, Message, add_to_set}
use roomler.Messages.Rows.{
  Row, update_rows, count_rows, is_to_read, add_reader, mark_read, is_unread, unread_count, add_one,
  unread_counts_by_room,
}

contains-append :
    (k : ℕ) (xs ys : List ℕ) → contains k (xs ++ ys) ≡ (contains k xs || contains k ys)
contains-append k [] ys = refl
contains-append k (x ∷ xs) ys = ground (arith, contains-append k xs ys)

pub contains-add_to_set :
    (k id : ObjectId) (ids : List ObjectId)
    → contains k (add_to_set id ids) ≡ (contains k ids || id == k)
contains-add_to_set k id ids = elim (Bool-cases (contains id ids)) [
  | inl old ↦ elim (Bool-cases (id == k)) [
    | inl same ↦
        let same' : id ≡ k = ground (arith, same) in
        ground (arith, old, same, ap (λ x. contains x ids) same')
    | inr other ↦ ground (arith, old, other)
  ]
  | inr new ↦ ground (arith, new, contains-append k ids (id ∷ []))
]

-- A count after an update is a count before it.
pub count_rows-update_rows :
    (p q r : Row → Bool) (f : Message → Message) (ms : Map Message)
    → ((id : ObjectId) (m : Message) → p (id, if q (id, m) then f m else m) ≡ r (id, m))
    → count_rows p (update_rows q f ms) ≡ count_rows r ms
count_rows-update_rows p q r f [] same = refl
count_rows-update_rows p q r f ((id, m) ∷ ms) same =
    ground (arith, same id m, count_rows-update_rows p q r f ms same)

count_rows_none :
    (p : Row → Bool) (ms : Map Message) → ((row : Row) → p row ≡ false) → count_rows p ms ≡ 0
count_rows_none p [] none_fits = refl
count_rows_none p (row ∷ ms) none_fits =
    ground (arith, none_fits row, count_rows_none p ms none_fits)

abbrev pub or_zero : Option ℕ → ℕ
or_zero none = 0
or_zero (some n) = n

abbrev pub is_left_unread : ObjectId → ObjectId → List ObjectId → Row → Bool
is_left_unread room_id user_id ids (id, m) =
    is_unread room_id user_id (id, m) && not (contains id ids)

marked_row :
    (room_id user_id : ObjectId) (ids : List ObjectId) (id : ObjectId) (m : Message)
    → is_unread room_id user_id
        (id, if is_to_read room_id user_id ids (id, m) then add_reader user_id m else m)
      ≡ is_left_unread room_id user_id ids (id, m)
marked_row room_id user_id ids id m = elim (Bool-cases (is_to_read room_id user_id ids (id, m))) [
  | inl marks ↦
      rw (marks)
        (ground (arith, marks, contains-add_to_set user_id user_id m.readby, ==-refl user_id))
  | inr leaves ↦ rw (leaves) (ground (arith, leaves))
]

marked_again :
    (room_id user_id : ObjectId) (ids : List ObjectId) (id : ObjectId) (m : Message)
    → is_to_read room_id user_id ids
        (id, if is_to_read room_id user_id ids (id, m) then add_reader user_id m else m)
      ≡ false
marked_again room_id user_id ids id m = elim (Bool-cases (is_to_read room_id user_id ids (id, m))) [
  | inl marks ↦
      rw (marks)
        (ground (arith, marks, contains-add_to_set user_id user_id m.readby, ==-refl user_id))
  | inr leaves ↦ rw (leaves) leaves
]

marked_elsewhere :
    (room_id user_id : ObjectId) (ids : List ObjectId) (other_room other_user : ObjectId)
    → (other_room ≢ room_id) ⊎ (other_user ≢ user_id)
    → (id : ObjectId) (m : Message)
    → is_unread other_room other_user
        (id, if is_to_read room_id user_id ids (id, m) then add_reader user_id m else m)
      ≡ is_unread other_room other_user (id, m)
marked_elsewhere room_id user_id ids other_room other_user (inl elsewhere) id m =
    elim (Bool-cases (is_to_read room_id user_id ids (id, m))) [
      | inl marks ↦ rw (marks) (ground (arith, marks, elsewhere))
      | inr leaves ↦ rw (leaves) refl
    ]
marked_elsewhere room_id user_id ids other_room other_user (inr other) id m =
    elim (Bool-cases (is_to_read room_id user_id ids (id, m))) [
      | inl marks ↦
          rw (marks) (ground (arith, marks, other, contains-add_to_set other_user user_id m.readby))
      | inr leaves ↦ rw (leaves) refl
    ]

-- After a user marks messages of a room as read, unread there for that user are those that were
-- and are not among them; marking them again marks none; and other users' and other rooms' counts
-- stay as they are.
pub mark_read_lem :
    (room_id user_id : ObjectId) (ids : List ObjectId) (ms : Map Message)
    → let (marked, ms') = mark_read room_id user_id ids ms in
      (unread_count room_id user_id ms' ≡ count_rows (is_left_unread room_id user_id ids) ms)
      × ((mark_read room_id user_id ids ms').0 ≡ 0)
      × ((r u : ObjectId)
          → (r ≢ room_id) ⊎ (u ≢ user_id)
          → unread_count r u ms' ≡ unread_count r u ms)
unfolding mark_read unread_count
mark_read_lem room_id user_id ids ms =
    let p = is_to_read room_id user_id ids in
    let f = add_reader user_id in
    (
      count_rows-update_rows (is_unread room_id user_id) p (is_left_unread room_id user_id ids) f ms
          (marked_row room_id user_id ids),
      count_rows-update_rows p p (λ row. false) f ms (marked_again room_id user_id ids)
          ∙ count_rows_none (λ row. false) ms (λ row. refl),
      λ r u apart.
          count_rows-update_rows (is_unread r u) p (is_unread r u) f ms
            (marked_elsewhere room_id user_id ids r u apart),
    )

lookup-add_one :
    (r room_id : ObjectId) (counts : Map ℕ)
    → lookup r (add_one room_id counts)
      ≡ (if room_id == r then some (or_zero (lookup r counts) + 1) else lookup r counts)
unfolding lookup
lookup-add_one r room_id [] = ground arith
lookup-add_one r room_id ((k, n) ∷ counts) = ground (arith, lookup-add_one r room_id counts)

abbrev pub positive : ℕ → Option ℕ
positive zero = none
positive (suc n) = some (suc n)

positive_more : (n : ℕ) → some (or_zero (positive n) + 1) ≡ positive (1 + n)
positive_more zero = refl
positive_more (suc n) = ground arith

-- The counts of several rooms at once are each room's own count, without the rooms that have none.
pub unread_counts_by_room_lem :
    (room_ids : List ObjectId) (user_id room_id : ObjectId) (ms : Map Message)
    → lookup room_id (unread_counts_by_room room_ids user_id ms)
      ≡ (if contains room_id room_ids then positive (unread_count room_id user_id ms) else none)
unfolding lookup unread_counts_by_room unread_count
unread_counts_by_room_lem room_ids user_id room_id [] = ground arith
unread_counts_by_room_lem room_ids user_id room_id ((id, m) ∷ ms) =
    let counts = unread_counts_by_room room_ids user_id ms in
    let n = count_rows (is_unread room_id user_id) ms in
    let rest = unread_counts_by_room_lem room_ids user_id room_id ms in
    elim (Bool-cases (m.room_id == room_id)) [
      | inl same ↦
          let same' : m.room_id ≡ room_id = ground (arith, same) in
          let wanted = ap (λ x. contains x room_ids) same' in
          ground
            (arith, same, wanted, rest, positive_more n, lookup-add_one room_id m.room_id counts)
      | inr other ↦ ground (arith, other, rest, lookup-add_one room_id m.room_id counts)
    ]
