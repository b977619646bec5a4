-- ===== src/Messages/Notify.antt =====
-- crates/services/src/dao/notification.rs and crates/api/src/routes/helpers.rs: the notifications of
-- users, and who is told of a mention. A message to sockets is recorded with the users it goes to;
-- what the dispatcher does with it is in Server.
use roomler.Prelude.{
  ℕ, ◌+◌, Bool, true, false, not, ◌&&◌, Option, none, some, List, [], ◌∷◌, ◌++◌, Text, text, length,
  retain, ◌==◌, if◌then◌else◌,
}
use roomler.Dao.{DaoResult, PaginationParams, PaginatedResult, descending, find_paginated, take}
use roomler.Messages.{ObjectId}

pub data NotificationType : Type 0 where
  message mention reaction invite call task_complete : NotificationType

pub record Notification : Type 0 where
  pub id : ObjectId
  pub tenant_id : ObjectId
  pub user_id : ObjectId
  pub notification_type : NotificationType
  pub title : Text
  pub body : Text
  pub link : Text
  pub entity_id : ObjectId
  pub actor_id : ObjectId
  pub is_read : Bool
  pub read_at : Option ℕ
  pub created_at : ℕ

abbrev pub is_for : ObjectId → Notification → Bool
is_for user_id n = n.user_id == user_id

abbrev pub is_unread_for : ObjectId → Notification → Bool
is_unread_for user_id n = n.user_id == user_id && not n.is_read

abbrev pub created_at : Notification → ℕ
created_at n = n.created_at

unfoldable pub find_for_user :
    ObjectId → PaginationParams → List Notification → DaoResult (PaginatedResult Notification)
find_for_user user_id params ns = find_paginated (is_for user_id) descending created_at params ns

unfoldable pub find_unread_for_user :
    ObjectId → PaginationParams → List Notification → DaoResult (PaginatedResult Notification)
find_unread_for_user user_id params ns =
    find_paginated (is_unread_for user_id) descending created_at params ns

unfoldable pub unread_count : ObjectId → List Notification → ℕ
unread_count user_id ns = length (retain (is_unread_for user_id) ns)

abbrev pub set_read : ℕ → Notification → Notification
set_read now n = record n { is_read = true; read_at = some now }

abbrev pub update_where :
    (Notification → Bool) → (Notification → Notification) → List Notification → List Notification
update_where p f [] = []
update_where p f (n ∷ ns) = (if p n then f n else n) ∷ update_where p f ns

unfoldable pub mark_read : ObjectId → ObjectId → ℕ → List Notification → List Notification
mark_read id user_id now = update_where (λ n. n.id == id && n.user_id == user_id) (set_read now)

unfoldable pub mark_all_read : ObjectId → ℕ → List Notification → ℕ × List Notification
mark_all_read user_id now ns =
    (unread_count user_id ns, update_where (is_unread_for user_id) (set_read now) ns)

-- What a request takes from outside: the clock, the identifiers that the database gives to its
-- notifications, who has a socket, the configured services, and the digits of an identifier.
pub record Outside : Type 0 where
  pub now : ℕ
  pub notification_id : ℕ → ObjectId
  pub is_connected : ObjectId → Bool
  pub has_push : Bool
  pub has_email : Bool
  pub to_hex : ObjectId → Text

-- The notifications, those sent to a user's sockets, the mails, and the groups of users that a push
-- goes to, each list with the newest first.
pub record Outbox : Type 0 where
  pub notifications : List Notification
  pub told : List (ObjectId × Notification)
  pub mailed : List ObjectId
  pub pushed : List (List ObjectId)

pub record NotifyParams : Type 0 where
  pub tenant_id : ObjectId
  pub notification_type : NotificationType
  pub title : Text
  pub body : Text
  pub link : Text
  pub entity_id : ObjectId
  pub actor_id : ObjectId

module _ (o : Outside) where
  abbrev pub notification_of : NotifyParams → ObjectId → ObjectId → Notification
  notification_of params id user_id = record {
    id = id;
    tenant_id = params.tenant_id;
    user_id = user_id;
    notification_type = params.notification_type;
    title = params.title;
    body = params.body;
    link = params.link;
    entity_id = params.entity_id;
    actor_id = params.actor_id;
    is_read = false;
    read_at = none;
    created_at = o.now;
  }

  unfoldable pub create_and_send_notification : NotifyParams → ObjectId → ObjectId → Outbox → Outbox
  create_and_send_notification params id user_id box =
      let n = notification_of params id user_id in
      record box { notifications = n ∷ box.notifications; told = (user_id, n) ∷ box.told }

  unfoldable pub spawn_push_for_offline : List ObjectId → Outbox → Outbox
  spawn_push_for_offline [] box = box
  spawn_push_for_offline (u ∷ users) box =
      if o.has_push then record box { pushed = (u ∷ users) ∷ box.pushed } else box

  unfoldable pub spawn_mention_email : ObjectId → Outbox → Outbox
  spawn_mention_email user_id box =
      if o.has_email then record box { mailed = user_id ∷ box.mailed } else box

  abbrev pub is_offline : ObjectId → ObjectId → Bool
  is_offline author_id u = not (u == author_id) && not (o.is_connected u)

  abbrev pub notify_one : Bool → NotifyParams → ObjectId → ObjectId → ObjectId → Outbox → Outbox
  notify_one by_mail params author_id id u box =
      let sent = create_and_send_notification params id u box in
      if u == author_id
      then box
      else if by_mail && not (o.is_connected u)
      then spawn_mention_email u sent
      else sent

  -- The loop over the users, at its `i`th round: the users without a socket, and what was sent.
  abbrev pub notify_each :
      Bool → NotifyParams → ObjectId → ℕ → List ObjectId → Outbox → List ObjectId × Outbox
  notify_each by_mail params author_id i [] box = ([], box)
  notify_each by_mail params author_id i (u ∷ users) box =
      let (offline, sent) =
        notify_each by_mail params author_id (i + 1) users
          (notify_one by_mail params author_id (o.notification_id i) u box) in
      (if is_offline author_id u then u ∷ offline else offline, sent)

  abbrev pub notify_all : Bool → NotifyParams → ObjectId → List ObjectId → Outbox → Outbox
  notify_all by_mail params author_id users box =
      let (offline, sent) = notify_each by_mail params author_id 0 users box in
      spawn_push_for_offline offline sent

  abbrev pub room_link : ObjectId → ObjectId → Text
  room_link tenant_id room_id =
      text "/tenant/" ++ (o.to_hex tenant_id ++ (text "/room/" ++ o.to_hex room_id))

  unfoldable pub notify_mentions :
      ObjectId → ObjectId → ObjectId → ObjectId → List ObjectId → Text → Text → Outbox → Outbox
  notify_mentions tenant_id room_id message_id author_id users room_name content =
      notify_all true
        (record {
          tenant_id = tenant_id;
          notification_type = mention;
          title = text "Mentioned in #" ++ room_name;
          body = take 200 content;
          link = room_link tenant_id room_id ++ (text "?msg=" ++ o.to_hex message_id);
          entity_id = message_id;
          actor_id = author_id;
        })
        author_id users

  unfoldable pub notify_call_started :
      ObjectId → ObjectId → ObjectId → List ObjectId → Text → Text → Outbox → Outbox
  notify_call_started tenant_id room_id caller_id users room_name caller_name =
      notify_all false
        (record {
          tenant_id = tenant_id;
          notification_type = call;
          title = text "Call started in #" ++ room_name;
          body = caller_name ++ text " started a call";
          link = room_link tenant_id room_id ++ text "/call";
          entity_id = room_id;
          actor_id = caller_id;
        })
        caller_id users
