-- ===== src/Messages/Edits.antt =====
-- crates/api/src/routes/message.rs and crates/api/src/routes/reaction.rs: the routes that change a message or its reactions.
use roomler.Prelude.{ℕ, Bool, some, List, Text, ◌==◌, if◌then◌else◌}
use roomler.Dao.{DaoResult, ok, err}
use roomler.Conference.{find_member_user_ids}
use roomler.Messages.{ObjectId, Message, find_by_id, in_tenant}
use roomler.Messages.Rows.{
  update_content, toggle_pin, soft_delete_in_tenant, mark_read, unread_count,
}
use roomler.Messages.Reactions.{Reaction, Posts, add_and_update_summary, remove_and_update_summary}
use roomler.Messages.Routes.{
  to_response, to_response, ApiResult, api_error, MessageResponse, Context, Chat, broadcast,
  with_messages, others, denied, done, fail, message_update, message_delete, message_pin,
  message_unpin, reaction_added, reaction_removed,
}

module _ (c : Context) where
  abbrev pub updated :
      ObjectId → ObjectId → ObjectId → DaoResult Message → Chat → ApiResult MessageResponse × Chat
  updated message_id room_id user_id (err e) s = (fail (api_error e), s)
  updated message_id room_id user_id (ok m) s =
      let response = to_response c (some user_id) message_id m in
      (
        done response,
        broadcast (others user_id (find_member_user_ids room_id c.db)) (message_update response) s,
      )

  -- The answer of `update_content` is not looked at.
  unfoldable pub update :
      ObjectId → ObjectId → ObjectId → ObjectId → Text → Chat → ApiResult MessageResponse × Chat
  update tenant_id room_id message_id user_id content s =
      let ms = update_content tenant_id message_id user_id content c.outside.now s.posts.messages in
      if c.is_member tenant_id user_id
      then updated message_id room_id user_id (find_by_id message_id ms) (with_messages ms s)
      else (fail denied, s)

  abbrev pub deleted :
      ObjectId
      → ObjectId
      → ObjectId
      → ObjectId
      → DaoResult Message
      → Chat
      → ApiResult (Unit {0}) × Chat
  deleted tenant_id room_id message_id user_id (err e) s = (fail (api_error e), s)
  deleted tenant_id room_id message_id user_id (ok m) s =
      let ms = soft_delete_in_tenant tenant_id message_id c.outside.now s.posts.messages in
      if m.author_id == user_id
      then (
        done tt,
        broadcast (others user_id (find_member_user_ids room_id c.db))
            (message_delete message_id room_id) (with_messages ms s),
      )
      else (fail denied, s)

  unfoldable pub delete :
      ObjectId → ObjectId → ObjectId → ObjectId → Chat → ApiResult (Unit {0}) × Chat
  delete tenant_id room_id message_id user_id s =
      if c.is_member tenant_id user_id
      then deleted tenant_id room_id message_id user_id
          (in_tenant tenant_id (find_by_id message_id s.posts.messages)) s
      else (fail denied, s)

  unfoldable pub pin_route :
      ObjectId → ObjectId → ObjectId → ObjectId → Bool → Chat → ApiResult Bool × Chat
  pin_route tenant_id room_id message_id user_id is_pin s =
      if c.is_member tenant_id user_id
      then (
        done is_pin,
        broadcast (find_member_user_ids room_id c.db)
            (if is_pin then message_pin message_id room_id else message_unpin message_id room_id)
            (with_messages (toggle_pin tenant_id message_id is_pin c.outside.now s.posts.messages)
              s),
      )
      else (fail denied, s)

  unfoldable pub mark_read_route :
      ObjectId → ObjectId → ObjectId → List ObjectId → Chat → ApiResult ℕ × Chat
  mark_read_route tenant_id room_id user_id message_ids s =
      let (modified, ms) = mark_read room_id user_id message_ids s.posts.messages in
      if c.is_member tenant_id user_id
      then (done modified, with_messages ms s)
      else (fail denied, s)

  unfoldable pub unread_count_route : ObjectId → ObjectId → ObjectId → Chat → ApiResult ℕ
  unread_count_route tenant_id room_id user_id s =
      if c.is_member tenant_id user_id
      then done (unread_count room_id user_id s.posts.messages)
      else fail denied

  abbrev pub reacted :
      ObjectId
      → ObjectId
      → ObjectId
      → Chat
      → DaoResult Reaction × Posts
      → ApiResult (Unit {0}) × Chat
  reacted room_id message_id user_id s (err e, posts) =
      (fail (api_error e), record s { posts = posts })
  reacted room_id message_id user_id s (ok r, posts) = (
    done tt,
    broadcast (find_member_user_ids room_id c.db)
        (reaction_added message_id room_id user_id r.emoji) (record s { posts = posts }),
  )

  abbrev pub new_reaction : ObjectId → ObjectId → ObjectId → ObjectId → Text → Reaction
  new_reaction tenant_id room_id message_id user_id emoji = record {
    tenant_id = tenant_id;
    room_id = room_id;
    message_id = message_id;
    user_id = user_id;
    emoji = emoji;
    created_at = c.outside.now;
  }

  unfoldable pub add_reaction :
      ObjectId → ObjectId → ObjectId → ObjectId → Text → Chat → ApiResult (Unit {0}) × Chat
  add_reaction tenant_id room_id message_id user_id emoji s =
      if c.is_member tenant_id user_id
      then reacted room_id message_id user_id s
          (add_and_update_summary (new_reaction tenant_id room_id message_id user_id emoji) s.posts)
      else (fail denied, s)

  unfoldable pub remove_reaction :
      ObjectId → ObjectId → ObjectId → ObjectId → Text → Chat → ApiResult Bool × Chat
  remove_reaction tenant_id room_id message_id user_id emoji s =
      let (removed, posts) =
        remove_and_update_summary message_id user_id emoji c.outside.now s.posts in
      let s' : Chat = record s { posts = posts } in
      let told =
        broadcast (find_member_user_ids room_id c.db)
          (reaction_removed message_id room_id user_id emoji) s' in
      if c.is_member tenant_id user_id
      then (done removed, if removed then told else s')
      else (fail denied, s)
