-- ===== src/Messages/Routes.antt =====
-- crates/api/src/routes/message.rs and crates/api/src/routes/reaction.rs. The identifiers of a path
-- and a body are parsed. A call of `broadcast_with_redis` is recorded with its users.
use roomler.Prelude.{
  ℕ, Bool, false, not, Option, none, some, List, [], ◌∷◌, Text, Map, lookup, map, retain, contains,
  ◌==◌, if◌then◌else◌,
}
use roomler.Dao.{
  DaoResult, DaoError, ok, err, mongo, not_found, duplicate_key, forbidden, validation,
  PaginationParams, PaginatedResult,
}
use roomler.Conference.{Database, find_member_user_ids}
use roomler.Messages.{
  ObjectId, Message, MessageType, MessageAttachment, Mentions, ReactionSummary, ThreadMetadata,
  CreateMessage, find_by_id, create_with_attachments,
}
use roomler.Messages.Rows.{Row, find_in_room, find_thread_replies, find_pinned}
use roomler.Messages.Reactions.{Posts}
use roomler.Messages.Notify.{Outside, Outbox, notify_mentions}

pub data ApiError : Type 0 where
  missing bad_request denied conflict internal invalid : ApiError

pub data ApiResult (A : Type 0) : Type 0 where
  done : A → ApiResult A
  fail : ApiError → ApiResult A

abbrev pub api_error : DaoError → ApiError
api_error mongo = internal
api_error not_found = missing
api_error duplicate_key = conflict
api_error forbidden = denied
api_error validation = invalid

pub record MessageResponse : Type 0 where
  pub id : ObjectId
  pub room_id : ObjectId
  pub author_id : ObjectId
  pub author_name : Text
  pub content : Text
  pub message_type : MessageType
  pub is_pinned : Bool
  pub is_edited : Bool
  pub is_thread_root : Bool
  pub thread_id : Option ObjectId
  pub referenced_message_id : Option ObjectId
  pub reaction_summary : List ReactionSummary
  pub attachments : List MessageAttachment
  pub is_read : Bool
  pub reply_count : Option ℕ
  pub last_reply_at : Option ℕ
  pub last_reply_user_id : Option ObjectId
  pub created_at : ℕ
  pub updated_at : ℕ

pub data ChatEvent : Type 0 where
  message_create message_update : MessageResponse → ChatEvent
  message_delete : (id room_id : ObjectId) → ChatEvent
  message_pin message_unpin : (message_id room_id : ObjectId) → ChatEvent
  reaction_added reaction_removed :
      (message_id room_id user_id : ObjectId) (emoji : Text) → ChatEvent

-- What a request finds beside the messages: the rooms, who belongs to a tenant, names of users, the
-- files of a tenant as attachments, and what the notifications need.
pub record Context : Type 0 where
  pub outside : Outside
  pub db : Database
  pub is_member : ObjectId → ObjectId → Bool
  pub display_name : ObjectId → Option Text
  pub find_file : ObjectId → ObjectId → Option MessageAttachment

-- `sent` has the broadcasts, the newest first.
pub record Chat : Type 0 where
  pub posts : Posts
  pub outbox : Outbox
  pub sent : List (List ObjectId × ChatEvent)

abbrev pub broadcast : List ObjectId → ChatEvent → Chat → Chat
broadcast users event s = record s { sent = (users, event) ∷ s.sent }

abbrev pub with_messages : Map Message → Chat → Chat
with_messages ms s = record s { posts = record s.posts { messages = ms } }

abbrev pub is_someone_else : ObjectId → ObjectId → Bool
is_someone_else user_id id = not (id == user_id)

abbrev pub others : ObjectId → List ObjectId → List ObjectId
others user_id ids = retain (is_someone_else user_id) ids

module _ (c : Context) where
  abbrev pub name_of : ObjectId → Text
  name_of user_id = elim (c.display_name user_id) [
    | none ↦ c.outside.to_hex user_id
    | some name ↦ name
  ]

  abbrev pub is_read_by : Option ObjectId → List ObjectId → Bool
  is_read_by none readby = false
  is_read_by (some viewer) readby = contains viewer readby

  abbrev pub reply_count_of : Option ThreadMetadata → Option ℕ
  reply_count_of none = none
  reply_count_of (some t) = some t.reply_count

  abbrev pub last_reply_at_of : Option ThreadMetadata → Option ℕ
  last_reply_at_of none = none
  last_reply_at_of (some t) = t.last_reply_at

  abbrev pub last_reply_user_of : Option ThreadMetadata → Option ObjectId
  last_reply_user_of none = none
  last_reply_user_of (some t) = t.last_reply_user_id

  abbrev pub to_response : Option ObjectId → ObjectId → Message → MessageResponse
  to_response viewer id m = record {
    id = id;
    room_id = m.room_id;
    author_id = m.author_id;
    author_name = name_of m.author_id;
    content = m.content;
    message_type = m.message_type;
    is_pinned = m.is_pinned;
    is_edited = m.is_edited;
    is_thread_root = m.is_thread_root;
    thread_id = m.thread_id;
    referenced_message_id = m.referenced_message_id;
    reaction_summary = m.reaction_summary;
    attachments = m.attachments;
    is_read = is_read_by viewer m.readby;
    reply_count = reply_count_of m.thread_metadata;
    last_reply_at = last_reply_at_of m.thread_metadata;
    last_reply_user_id = last_reply_user_of m.thread_metadata;
    created_at = m.created_at;
    updated_at = m.updated_at;
  }

  abbrev pub row_response : ObjectId → Row → MessageResponse
  row_response viewer (id, m) = to_response (some viewer) id m

  -- A page of rows as a page of responses.
  abbrev pub respond :
      ObjectId → DaoResult (PaginatedResult Row) → ApiResult (PaginatedResult MessageResponse)
  respond viewer (err e) = fail (api_error e)
  respond viewer (ok r) = done (record {
    items = map (row_response viewer) r.items;
    total = r.total;
    page = r.page;
    per_page = r.per_page;
    total_pages = r.total_pages;
  })

  -- The fetched files of the tenant; the others are passed over.
  abbrev pub attachments_of : ObjectId → List ObjectId → List MessageAttachment
  attachments_of tenant_id [] = []
  attachments_of tenant_id (file_id ∷ rest) = elim (c.find_file tenant_id file_id) [
    | none ↦ attachments_of tenant_id rest
    | some file ↦ file ∷ attachments_of tenant_id rest
  ]

  abbrev pub tell_parent : Option ObjectId → List ObjectId → Chat → Chat
  tell_parent none members s = s
  tell_parent (some parent_id) members s = elim (find_by_id parent_id s.posts.messages) [
    | err e ↦ s
    | ok parent ↦ broadcast members (message_update (to_response none parent_id parent)) s
  ]

  abbrev pub mentioned : ObjectId → List ObjectId → Mentions → List ObjectId
  mentioned user_id members m =
      if m.everyone then others user_id members else others user_id m.users

  abbrev pub room_name : ObjectId → Text
  room_name room_id = elim (lookup room_id c.db.rooms) [ none ↦ [] | some r ↦ r.name ]

  abbrev pub tell_mentioned :
      ObjectId
      → ObjectId
      → ObjectId
      → ObjectId
      → List ObjectId
      → CreateMessage
      → Option Mentions
      → Chat
      → Chat
  tell_mentioned id tenant_id room_id user_id members body none s = s
  tell_mentioned id tenant_id room_id user_id members body (some m) s = record s {
    outbox =
        notify_mentions c.outside tenant_id room_id id user_id (mentioned user_id members m)
          (room_name room_id) body.content s.outbox;
  }

  -- `create` after the message is stored.
  abbrev pub announced :
      ObjectId
      → ObjectId
      → ObjectId
      → ObjectId
      → CreateMessage
      → DaoResult Message
      → Chat
      → ApiResult MessageResponse × Chat
  announced id tenant_id room_id user_id body (err e) s = (fail (api_error e), s)
  announced id tenant_id room_id user_id body (ok m) s =
      let response = to_response (some user_id) id m in
      let members = find_member_user_ids room_id c.db in
      let told = broadcast (others user_id members) (message_create response) s in
      (
        done response,
        tell_mentioned id tenant_id room_id user_id members body body.mentions
            (tell_parent body.thread_id members told),
      )

  -- `id` is the identifier that the database gives the message.
  unfoldable pub create :
      ObjectId
      → ObjectId
      → ObjectId
      → ObjectId
      → CreateMessage
      → Chat
      → ApiResult MessageResponse × Chat
  create id tenant_id room_id user_id body s =
      let ms =
        create_with_attachments c.outside.now id tenant_id room_id user_id body
          (attachments_of tenant_id body.attachment_ids) s.posts.messages in
      if c.is_member tenant_id user_id
      then announced id tenant_id room_id user_id body (find_by_id id ms) (with_messages ms s)
      else (fail denied, s)

  unfoldable pub list :
      ObjectId
      → ObjectId
      → ObjectId
      → PaginationParams
      → Chat
      → ApiResult (PaginatedResult MessageResponse)
  list tenant_id room_id user_id params s =
      if c.is_member tenant_id user_id
      then respond user_id (find_in_room room_id params s.posts.messages)
      else fail denied

  unfoldable pub thread_replies :
      ObjectId
      → ObjectId
      → ObjectId
      → PaginationParams
      → Chat
      → ApiResult (PaginatedResult MessageResponse)
  thread_replies tenant_id message_id user_id params s =
      if c.is_member tenant_id user_id
      then respond user_id (find_thread_replies message_id params s.posts.messages)
      else fail denied

  unfoldable pub pinned : ObjectId → ObjectId → ObjectId → Chat → ApiResult (List MessageResponse)
  pinned tenant_id room_id user_id s =
      if c.is_member tenant_id user_id
      then done (map (row_response user_id) (find_pinned room_id s.posts.messages))
      else fail denied
