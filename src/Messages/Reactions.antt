-- ===== src/Messages/Reactions.antt =====
-- crates/services/src/dao/reaction.rs: who reacted to a message, and the summary that is kept in it.
use roomler.Prelude.{
  ℕ, ◌+◌, Bool, true, false, not, ◌&&◌, List, [], ◌∷◌, Text, Map, any, retain, same_text, ◌==◌,
  if◌then◌else◌,
}
use roomler.Dao.{DaoResult, ok, err, duplicate_key, descending, sort_rows}
use roomler.Messages.{ObjectId, Message, ReactionSummary}
use roomler.Messages.Rows.{update_reaction_summary}

pub record Reaction : Type 0 where
  pub tenant_id : ObjectId
  pub room_id : ObjectId
  pub message_id : ObjectId
  pub user_id : ObjectId
  pub emoji : Text
  pub created_at : ℕ

-- The collections of messages and of reactions.
pub record Posts : Type 0 where
  pub messages : Map Message
  pub reactions : List Reaction

abbrev pub is_of : ObjectId → ObjectId → Text → Reaction → Bool
is_of message_id user_id emoji r =
    r.message_id == message_id && (r.user_id == user_id && same_text r.emoji emoji)

unfoldable pub add : Reaction → List Reaction → DaoResult Reaction × List Reaction
add r reactions =
    if any (is_of r.message_id r.user_id r.emoji) reactions
    then (err duplicate_key, reactions)
    else (ok r, r ∷ reactions)

abbrev pub is_not_of : ObjectId → ObjectId → Text → Reaction → Bool
is_not_of message_id user_id emoji r = not (is_of message_id user_id emoji r)

unfoldable pub remove : ObjectId → ObjectId → Text → List Reaction → Bool × List Reaction
remove message_id user_id emoji reactions = (
  any (is_of message_id user_id emoji) reactions,
  retain (is_not_of message_id user_id emoji) reactions,
)

-- `$group` by emoji with a count.
abbrev pub add_one : Text → List ReactionSummary → List ReactionSummary
add_one emoji [] = record { emoji = emoji; count = 1 } ∷ []
add_one emoji (s ∷ rest) =
    if same_text s.emoji emoji
    then record s { count = s.count + 1 } ∷ rest
    else s ∷ add_one emoji rest

abbrev pub group : ObjectId → List Reaction → List ReactionSummary
group message_id [] = []
group message_id (r ∷ rest) =
    let summaries = group message_id rest in
    if r.message_id == message_id then add_one r.emoji summaries else summaries

abbrev pub count_of_row : ReactionSummary → ℕ
count_of_row s = s.count

unfoldable pub get_summary : ObjectId → List Reaction → List ReactionSummary
get_summary message_id reactions = sort_rows descending count_of_row (group message_id reactions)

abbrev pub summarise : ObjectId → ℕ → Posts → Posts
summarise message_id now posts = record posts {
  messages =
      update_reaction_summary message_id (get_summary message_id posts.reactions) now
        posts.messages;
}

abbrev pub added :
    Reaction → Posts → DaoResult Reaction × List Reaction → DaoResult Reaction × Posts
added r posts (err e, reactions) = (err e, posts)
added r posts (ok _, reactions) =
    (ok r, summarise r.message_id r.created_at (record posts { reactions = reactions }))

unfoldable pub add_and_update_summary : Reaction → Posts → DaoResult Reaction × Posts
add_and_update_summary r posts = added r posts (add r posts.reactions)

unfoldable pub remove_and_update_summary : ObjectId → ObjectId → Text → ℕ → Posts → Bool × Posts
remove_and_update_summary message_id user_id emoji now posts =
    let (removed, reactions) = remove message_id user_id emoji posts.reactions in
    if removed
    then (true, summarise message_id now (record posts { reactions = reactions }))
    else (false, record posts { reactions = reactions })
