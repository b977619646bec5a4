-- ===== src/Messages/Rows.antt =====
-- crates/services/src/dao/message.rs: the queries and updates of messages.
use roomler.Prelude.{
  ℕ, ◌+◌, Bool, true, false, not, ◌&&◌, Option, none, some, List, [], ◌∷◌, Text, Map, modify,
  contains, is_some, ltb, ◌==◌, if◌then◌else◌,
}
use roomler.Dao.{
  DaoResult, PaginationParams, PaginatedResult, ascending, descending, find_paginated, find_many,
}
use roomler.Messages.{ObjectId, ReactionSummary, Message, add_to_set}

abbrev pub Row : Type 0
Row = ObjectId × Message

abbrev pub is_deleted : Message → Bool
is_deleted m = is_some m.deleted_at

abbrev pub is_before : Option ℕ → ℕ → Bool
is_before none time = true
is_before (some before) time = ltb time before

abbrev pub is_listed : ObjectId → Option ℕ → Row → Bool
is_listed room_id before (id, m) =
    m.room_id == room_id
    && (not (is_deleted m) && (not (is_some m.thread_id) && is_before before m.created_at))

abbrev pub created : Row → ℕ
created (id, m) = m.created_at

unfoldable pub find_in_room :
    ObjectId → PaginationParams → Map Message → DaoResult (PaginatedResult Row)
find_in_room room_id params =
    find_paginated (is_listed room_id params.before) descending created params

abbrev pub is_id : ObjectId → Option ObjectId → Bool
is_id id none = false
is_id id (some other) = other == id

abbrev pub is_reply_to : ObjectId → Row → Bool
is_reply_to thread_id (id, m) = is_id thread_id m.thread_id && not (is_deleted m)

unfoldable pub find_thread_replies :
    ObjectId → PaginationParams → Map Message → DaoResult (PaginatedResult Row)
find_thread_replies thread_id params =
    find_paginated (is_reply_to thread_id) ascending created params

abbrev pub is_pin : ObjectId → Row → Bool
is_pin room_id (id, m) = m.room_id == room_id && (m.is_pinned && not (is_deleted m))

unfoldable pub find_pinned : ObjectId → Map Message → List Row
find_pinned room_id ms = find_many (is_pin room_id) descending created ms

abbrev pub is_own : ObjectId → ObjectId → Message → Bool
is_own tenant_id author_id m =
    m.tenant_id == tenant_id && (m.author_id == author_id && not (is_deleted m))

abbrev pub set_content : Text → ℕ → Message → Message
set_content content now m = record m {
  content = content;
  is_edited = true;
  edited_at = some now;
  updated_at = now;
}

unfoldable pub update_content :
    ObjectId → ObjectId → ObjectId → Text → ℕ → Map Message → Map Message
update_content tenant_id message_id author_id content now =
    modify message_id (λ m. if is_own tenant_id author_id m then set_content content now m else m)

abbrev pub set_pin : Bool → ℕ → Message → Message
set_pin pinned now m = record m { is_pinned = pinned; updated_at = now }

unfoldable pub toggle_pin : ObjectId → ObjectId → Bool → ℕ → Map Message → Map Message
toggle_pin tenant_id message_id pinned now =
    modify message_id (λ m. if m.tenant_id == tenant_id then set_pin pinned now m else m)

abbrev pub set_deleted : ℕ → Message → Message
set_deleted now m = record m { deleted_at = some now; updated_at = now }

unfoldable pub soft_delete_in_tenant : ObjectId → ObjectId → ℕ → Map Message → Map Message
soft_delete_in_tenant tenant_id message_id now =
    modify message_id (λ m. if m.tenant_id == tenant_id then set_deleted now m else m)

-- `update_many` and `count_documents`.
abbrev pub update_rows : (Row → Bool) → (Message → Message) → Map Message → Map Message
update_rows p f [] = []
update_rows p f ((id, m) ∷ rest) = (id, if p (id, m) then f m else m) ∷ update_rows p f rest

abbrev pub count_rows : (Row → Bool) → Map Message → ℕ
count_rows p [] = 0
count_rows p (row ∷ rest) = (if p row then 1 else 0) + count_rows p rest

abbrev pub is_to_read : ObjectId → ObjectId → List ObjectId → Row → Bool
is_to_read room_id user_id message_ids (id, m) =
    contains id message_ids && (m.room_id == room_id && not (contains user_id m.readby))

abbrev pub add_reader : ObjectId → Message → Message
add_reader user_id m = record m { readby = add_to_set user_id m.readby }

unfoldable pub mark_read : ObjectId → ObjectId → List ObjectId → Map Message → ℕ × Map Message
mark_read room_id user_id message_ids ms =
    let p = is_to_read room_id user_id message_ids in
    (count_rows p ms, update_rows p (add_reader user_id) ms)

abbrev pub is_unread : ObjectId → ObjectId → Row → Bool
is_unread room_id user_id (id, m) =
    m.room_id == room_id
    && (not (is_deleted m) && (not (is_some m.thread_id) && not (contains user_id m.readby)))

unfoldable pub unread_count : ObjectId → ObjectId → Map Message → ℕ
unread_count room_id user_id = count_rows (is_unread room_id user_id)

-- `$group` by room with a count.
abbrev pub add_one : ObjectId → Map ℕ → Map ℕ
add_one room_id [] = (room_id, 1) ∷ []
add_one room_id ((r, n) ∷ rest) =
    if r == room_id then (r, n + 1) ∷ rest else (r, n) ∷ add_one room_id rest

abbrev pub is_unread_in : List ObjectId → ObjectId → Row → Bool
is_unread_in room_ids user_id (id, m) =
    contains m.room_id room_ids
    && (not (is_deleted m) && (not (is_some m.thread_id) && not (contains user_id m.readby)))

unfoldable pub unread_counts_by_room : List ObjectId → ObjectId → Map Message → Map ℕ
unread_counts_by_room room_ids user_id [] = []
unread_counts_by_room room_ids user_id ((id, m) ∷ ms) =
    let counts = unread_counts_by_room room_ids user_id ms in
    if is_unread_in room_ids user_id (id, m) then add_one m.room_id counts else counts

unfoldable pub update_reaction_summary :
    ObjectId → List ReactionSummary → ℕ → Map Message → Map Message
update_reaction_summary message_id summary now =
    modify message_id (λ m. record m { reaction_summary = summary; updated_at = now })
