-- ===== src/Messages/Tests.antt =====
-- Runs of the model of messages on concrete data, and instances of its theorems.
use roomler.Prelude.{
  arith, inl, ◌≡◌, ◌≢◌, ◌⊎◌, refl, Bool, true, none, some, [], ◌∷◌, Text, text, lookup, modify,
  insert, contains, if◌then◌else◌, ◌==◌,
}
use roomler.Conference.{RoomMember, find_member_user_ids}
use roomler.Messages.{
  ObjectId, Message, CreateMessage, new_message, create_with_attachments, update_thread_metadata,
}
use roomler.Messages.Rows.{
  mark_read, update_reaction_summary, unread_count, unread_counts_by_room, count_rows,
}
use roomler.Dao.{sort_rows}
use roomler.Messages.Reactions.{add, add_and_update_summary, get_summary}
use roomler.Messages.Notify.{Outside, notify_mentions}
use roomler.Messages.Routes.{
  Context, Chat, ApiError, done, fail, others, message_update, to_response, create,
}
use roomler.Messages.Edits.{update, delete, add_reaction}
use roomler.Messages.Reading.{is_left_unread, positive, mark_read_lem, unread_counts_by_room_lem}
use roomler.Messages.Kept.{RowKept}
use roomler.Messages.Reach.{Reachable, start, next, post, react, step, empty, Reachable-Kept}
use roomler.Messages.Access.{Deleted, update_foreign, delete_outcome}
use roomler.Messages.Mentioned.{Told, pushes, away, notify_mentions_lem}

-- User 7 and user 8 belong to tenant 1, user 9 to tenant 2; users 7 and 8 are in room 20.
abbrev is_member : ObjectId → ObjectId → Bool
is_member tenant user = if user == 9 then tenant == 2 else tenant == 1

abbrev seat : ObjectId → RoomMember
seat user = record {
  tenant_id = 1;
  room_id = 20;
  user_id = user;
  display_name = none;
  sessions = [];
}

abbrev outside : Outside
outside = record {
  now = 500;
  notification_id = λ i. i;
  is_connected = λ user. user == 8;
  has_push = true;
  has_email = true;
  to_hex = λ id. id ∷ [];
}

abbrev context : Context
context = record {
  outside = outside;
  db = record { rooms = []; members = seat 7 ∷ seat 8 ∷ [] };
  is_member = is_member;
  display_name = λ user. none;
  find_file = λ tenant file. none;
}

abbrev hello : CreateMessage
hello = record {
  content = text "hello";
  thread_id = none;
  referenced_message_id = none;
  nonce = none;
  mentions = none;
  attachment_ids = [];
}

abbrev answer_to : ObjectId → CreateMessage
answer_to parent = record hello { thread_id = some parent }

abbrev first : Message
first = new_message 500 1 20 7 hello []

abbrev chat : Chat
chat = record empty { posts = record { messages = (40, first) ∷ []; reactions = [] } }

first_stored : lookup 40 chat.posts.messages ≡ some first
unfolding lookup
first_stored = refl

abbrev smile : Text
smile = text ":)"

abbrev talk : Chat
talk =
    step context (react 1 20 40 8 smile)
      (step context (post 41 1 20 8 (answer_to 40)) (step context (post 40 1 20 7 hello) empty))

abbrev root : Message
root = record first {
  is_thread_root = true;
  thread_metadata = some (record {
    reply_count = 1;
    last_reply_at = some 500;
    last_reply_user_id = some 8;
    participant_ids = 8 ∷ [];
  });
  reaction_summary = record { emoji = smile; count = 1 } ∷ [];
}

root_stored : lookup 40 talk.posts.messages ≡ some root
unfolding lookup step create add_reaction add_and_update_summary add create_with_attachments
    update_thread_metadata modify insert update_reaction_summary get_summary sort_rows
root_stored = refl

talk-Reachable : Reachable talk
unfolding lookup step create create_with_attachments insert
talk-Reachable =
    next context (react 1 20 40 8 smile)
      (next context (post 41 1 20 8 (answer_to 40))
        (next context (post 40 1 20 7 hello) start (refl, refl, λ emoji. refl, refl))
        (refl, refl, λ emoji. refl, refl))
      tt

Reachable-Kept_example : RowKept talk.posts 40 root
Reachable-Kept_example = Reachable-Kept talk 40 root talk-Reachable root_stored

mark_read_lem_example :
    let (marked, ms') = mark_read 20 8 (40 ∷ []) chat.posts.messages in
    (unread_count 20 8 ms' ≡ count_rows (is_left_unread 20 8 (40 ∷ [])) chat.posts.messages)
    × ((mark_read 20 8 (40 ∷ []) ms').0 ≡ 0)
    × ((r u : ObjectId)
        → (r ≢ 20) ⊎ (u ≢ 8)
        → unread_count r u ms' ≡ unread_count r u chat.posts.messages)
mark_read_lem_example = mark_read_lem 20 8 (40 ∷ []) chat.posts.messages

one_marked : (mark_read 20 8 (40 ∷ []) chat.posts.messages).0 ≡ 1
unfolding mark_read
one_marked = refl

unread_counts_by_room_lem_example :
    lookup 20 (unread_counts_by_room (20 ∷ 21 ∷ []) 8 chat.posts.messages) ≡ (
      if contains 20 (20 ∷ 21 ∷ []) then positive (unread_count 20 8 chat.posts.messages) else none)
unread_counts_by_room_lem_example =
    unread_counts_by_room_lem (20 ∷ 21 ∷ []) 8 20 chat.posts.messages

-- User 9, a stranger to the tenant of the message.
update_foreign_example :
    let (answer, s') = update context 2 30 40 9 (text "bye") chat in
    let response = to_response context (some 9) 40 first in
    (answer ≡ done response)
    × (s'.sent
        ≡ (others 9 (find_member_user_ids 30 context.db), message_update response) ∷ chat.sent)
    × ((id : ObjectId) → lookup id s'.posts.messages ≡ lookup id chat.posts.messages)
update_foreign_example =
    update_foreign context 2 30 40 9 (text "bye") chat first refl first_stored
      (inl (inl (λ e. omega (arith, e))))

delete_outcome_example :
    let (answer, s') = delete context 1 20 40 7 chat in
    ((e : ApiError) × (answer ≡ fail e) × (s' ≡ chat))
    ⊎ ((answer ≡ done tt) × (context.is_member 1 7 ≡ true) × Deleted context 1 20 40 7 chat s')
delete_outcome_example = delete_outcome context 1 20 40 7 chat

deleted_by_author : (delete context 1 20 40 7 chat).0 ≡ done tt
unfolding delete lookup
deleted_by_author = refl

notify_mentions_lem_example :
    let after =
      notify_mentions outside 1 20 40 7
        (7 ∷ 8 ∷ 9 ∷ [])
        (text "lobby")
        (text "hello")
        empty.outbox in
    Told outside true 7 (7 ∷ 8 ∷ 9 ∷ []) empty.outbox after
    × (after.pushed ≡ pushes outside (away outside 7 (7 ∷ 8 ∷ 9 ∷ [])) empty.outbox.pushed)
notify_mentions_lem_example =
    notify_mentions_lem outside 1 20 40 7 (7 ∷ 8 ∷ 9 ∷ []) (text "lobby") (text "hello")
      empty.outbox

only_the_absent : away outside 7 (7 ∷ 8 ∷ 9 ∷ []) ≡ 9 ∷ []
only_the_absent = refl
