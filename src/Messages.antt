-- ===== src/Messages.antt =====
-- crates/services/src/dao/message.rs: the messages of rooms, with their threads, pins and readers. A
-- collection is an association list, the newest document first. An update that goes through
-- `BaseDao::update_one` also sets `updated_at`.
use roomler.Prelude.{
  ℕ, ◌+◌, Bool, true, false, not, ◌&&◌, Option, none, some, List, [], ◌∷◌, ◌++◌, Text, Map, lookup,
  insert, modify, map, contains, is_some, ltb, ◌==◌, if◌then◌else◌,
}
use roomler.Dao.{
  DaoResult, ok, err, not_found, PaginationParams, PaginatedResult, ascending, descending,
  find_paginated, find_many,
}
pub mod Rows
pub mod Reactions
pub mod Notify
pub mod Routes
pub mod Edits
pub mod Reading
pub mod Summaries
pub mod Kept
pub mod Posted
pub mod Reacted
pub mod Reach
pub mod Access
pub mod Mentioned
mod Tests

abbrev pub ObjectId : Type 0
ObjectId = ℕ

pub data MessageType : Type 0 where
  default system_join system_leave system_pin call reply : MessageType

pub record ThreadMetadata : Type 0 where
  pub reply_count : ℕ
  pub last_reply_at : Option ℕ
  pub last_reply_user_id : Option ObjectId
  pub participant_ids : List ObjectId

pub record MessageAttachment : Type 0 where
  pub file_id : ObjectId
  pub filename : Text
  pub content_type : Text
  pub size : ℕ
  pub url : Text
  pub thumbnail_url : Option Text

pub record Mentions : Type 0 where
  pub users : List ObjectId
  pub everyone : Bool
  pub here : Bool

pub record ReactionSummary : Type 0 where
  pub emoji : Text
  pub count : ℕ

pub record Message : Type 0 where
  pub tenant_id : ObjectId
  pub room_id : ObjectId
  pub thread_id : Option ObjectId
  pub is_thread_root : Bool
  pub thread_metadata : Option ThreadMetadata
  pub author_id : ObjectId
  pub content : Text
  pub message_type : MessageType
  pub attachments : List MessageAttachment
  pub mentions : Mentions
  pub reaction_summary : List ReactionSummary
  pub referenced_message_id : Option ObjectId
  pub is_pinned : Bool
  pub is_edited : Bool
  pub edited_at : Option ℕ
  pub nonce : Option Text
  pub readby : List ObjectId
  pub created_at : ℕ
  pub updated_at : ℕ
  pub deleted_at : Option ℕ

-- What a client sends, with its identifiers parsed.
pub record CreateMessage : Type 0 where
  pub content : Text
  pub thread_id : Option ObjectId
  pub referenced_message_id : Option ObjectId
  pub nonce : Option Text
  pub mentions : Option Mentions
  pub attachment_ids : List ObjectId

abbrev pub no_mentions : Mentions
no_mentions = record { users = []; everyone = false; here = false }

abbrev pub or_no_mentions : Option Mentions → Mentions
or_no_mentions none = no_mentions
or_no_mentions (some m) = m

abbrev pub new_message :
    ℕ → ObjectId → ObjectId → ObjectId → CreateMessage → List MessageAttachment → Message
new_message now tenant_id room_id author_id body attachments = record {
  tenant_id = tenant_id;
  room_id = room_id;
  thread_id = body.thread_id;
  is_thread_root = false;
  thread_metadata = none;
  author_id = author_id;
  content = body.content;
  message_type = if is_some body.referenced_message_id then reply else default;
  attachments = attachments;
  mentions = or_no_mentions body.mentions;
  reaction_summary = [];
  referenced_message_id = body.referenced_message_id;
  is_pinned = false;
  is_edited = false;
  edited_at = none;
  nonce = body.nonce;
  readby = author_id ∷ [];
  created_at = now;
  updated_at = now;
  deleted_at = none;
}

-- `$addToSet`.
abbrev pub add_to_set : ObjectId → List ObjectId → List ObjectId
add_to_set id ids = if contains id ids then ids else ids ++ id ∷ []

abbrev pub no_replies : ThreadMetadata
no_replies = record {
  reply_count = 0;
  last_reply_at = none;
  last_reply_user_id = none;
  participant_ids = [];
}

abbrev pub or_no_replies : Option ThreadMetadata → ThreadMetadata
or_no_replies none = no_replies
or_no_replies (some t) = t

abbrev pub start_thread : Message → Message
start_thread m = record m { thread_metadata = some (or_no_replies m.thread_metadata) }

abbrev pub count_reply : ObjectId → ℕ → ThreadMetadata → ThreadMetadata
count_reply author_id now t = record t {
  reply_count = t.reply_count + 1;
  last_reply_at = some now;
  last_reply_user_id = some author_id;
  participant_ids = add_to_set author_id t.participant_ids;
}

abbrev pub add_reply : ObjectId → ℕ → Message → Message
add_reply author_id now m = record m {
  is_thread_root = true;
  thread_metadata = some (count_reply author_id now (or_no_replies m.thread_metadata));
  updated_at = now;
}

-- The metadata are made where they are missing, and then updated.
unfoldable pub update_thread_metadata : ObjectId → ObjectId → ℕ → Map Message → Map Message
update_thread_metadata parent_id author_id now ms =
    modify parent_id (add_reply author_id now) (modify parent_id start_thread ms)

abbrev pub count_in_parent : Option ObjectId → ObjectId → ℕ → Map Message → Map Message
count_in_parent none author_id now ms = ms
count_in_parent (some parent_id) author_id now ms =
    update_thread_metadata parent_id author_id now ms

abbrev pub find_by_id : ObjectId → Map Message → DaoResult Message
find_by_id id ms = elim (lookup id ms) [ none ↦ err not_found | some m ↦ ok m ]

-- `find_by_id_in_tenant`.
abbrev pub in_tenant : ObjectId → DaoResult Message → DaoResult Message
in_tenant tenant_id (err e) = err e
in_tenant tenant_id (ok m) = if m.tenant_id == tenant_id then ok m else err not_found

-- `id` is the identifier that the database gives the row.
unfoldable pub create_with_attachments :
    ℕ
    → ObjectId
    → ObjectId
    → ObjectId
    → ObjectId
    → CreateMessage
    → List MessageAttachment
    → Map Message
    → Map Message
create_with_attachments now id tenant_id room_id author_id body attachments ms =
    count_in_parent body.thread_id author_id now
      (insert id (new_message now tenant_id room_id author_id body attachments) ms)
