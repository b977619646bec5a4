-- ===== src/Messages/Reach.antt =====
-- Every sequence of requests.
use roomler.Prelude.{
  ◌≡◌, refl, sym, subst, ◌∙◌, Bool, true, false, Option, none, some, List, [], Text, lookup, modify,
  Bool-cases, Option-cases, inl, inr, if◌then◌else◌, ◌==◌,
}
use roomler.Dao.{DaoResult, ok, err}
use roomler.Messages.{
  ObjectId, Message, CreateMessage, Mentions, find_by_id, in_tenant, create_with_attachments,
}
use roomler.Messages.Rows.{
  update_content, toggle_pin, soft_delete_in_tenant, is_own, set_content, set_pin, set_deleted,
}
use roomler.Messages.Reactions.{Reaction, Posts, add_and_update_summary, remove_and_update_summary}
use roomler.Messages.Routes.{
  Context, Chat, create, announced, tell_parent, tell_mentioned, with_messages, attachments_of,
}
use roomler.Messages.Edits.{
  update, updated, delete, deleted, pin_route, mark_read_route, add_reaction, remove_reaction,
  reacted, new_reaction,
}
use roomler.Messages.Kept.{Kept, RowKept, Quiet, Quiet-Kept, mark_read-Kept}
use roomler.Messages.Posted.{Fresh, create-Kept}
use roomler.Messages.Reacted.{add-Kept, remove-Kept}

-- What the routes of messages and reactions are asked. Deleting a room, which removes messages and
-- reactions by their room, is not among it.
pub data Request : Type 0 where
  post : (id tenant_id room_id user_id : ObjectId) → CreateMessage → Request
  edit : (tenant_id room_id message_id user_id : ObjectId) → Text → Request
  drop pin unpin : (tenant_id room_id message_id user_id : ObjectId) → Request
  read : (tenant_id room_id user_id : ObjectId) → List ObjectId → Request
  react unreact : (tenant_id room_id message_id user_id : ObjectId) → Text → Request

unfoldable pub step : Context → Request → Chat → Chat
step c (post id t r u body) s = (create c id t r u body s).1
step c (edit t r m u content) s = (update c t r m u content s).1
step c (drop t r m u) s = (delete c t r m u s).1
step c (pin t r m u) s = (pin_route c t r m u true s).1
step c (unpin t r m u) s = (pin_route c t r m u false s).1
step c (read t r u ids) s = (mark_read_route c t r u ids s).1
step c (react t r m u emoji) s = (add_reaction c t r m u emoji s).1
step c (unreact t r m u emoji) s = (remove_reaction c t r m u emoji s).1

-- The database gives a message an identifier that nothing uses.
abbrev pub IsOrderly : Request → Chat → Type 0
IsOrderly (post id t r u body) s = Fresh id body s.posts
IsOrderly _ s = Unit

abbrev pub empty : Chat
empty = record {
  posts = record { messages = []; reactions = [] };
  outbox = record { notifications = []; told = []; mailed = []; pushed = [] };
  sent = [];
}

pub data Reachable : Chat → Type 0 where
  start : Reachable empty
  next :
      {s : Chat} (c : Context) (request : Request)
      → Reachable s
      → IsOrderly request s
      → Reachable (step c request s)

when-Quiet : (b : Bool) (m m' : Message) → Quiet m m' → Quiet m (if b then m' else m)
when-Quiet true m m' q = q
when-Quiet false m m' q = (λ h. h, refl, refl, refl)

module _ (c : Context) where
  tell_parent_posts :
      (parent : Option ObjectId) (members : List ObjectId) (s : Chat)
      → (tell_parent c parent members s).posts ≡ s.posts
  tell_parent_posts none members s = refl
  tell_parent_posts (some p) members s = elim (Option-cases (lookup p s.posts.messages)) [
    | inl gone ↦ rw (gone, tell_parent) refl
    | inr (m, here) ↦ rw (here, tell_parent) refl
  ]

  tell_mentioned_posts :
      (id t r u : ObjectId) (members : List ObjectId) (body : CreateMessage) (m : Option Mentions)
      (s : Chat)
      → (tell_mentioned c id t r u members body m s).posts ≡ s.posts
  tell_mentioned_posts id t r u members body none s = refl
  tell_mentioned_posts id t r u members body (some m) s = refl

  announced_posts :
      (id t r u : ObjectId) (body : CreateMessage) (found : DaoResult Message) (s : Chat)
      → (announced c id t r u body found s).1.posts ≡ s.posts
  announced_posts id t r u body (err e) s = refl
  announced_posts id t r u body (ok m) s =
      tell_mentioned_posts id t r u _ body body.mentions _ ∙ tell_parent_posts body.thread_id _ _

  updated_posts :
      (m r u : ObjectId) (found : DaoResult Message) (s : Chat)
      → (updated c m r u found s).1.posts ≡ s.posts
  updated_posts m r u (err e) s = refl
  updated_posts m r u (ok x) s = refl

  post-Kept :
      (id t r u : ObjectId) (body : CreateMessage) (s : Chat)
      → Fresh id body s.posts
      → Kept s.posts
      → Kept (create c id t r u body s).1.posts
  unfolding create
  post-Kept id t r u body s fresh v =
      let files = attachments_of c t body.attachment_ids in
      let ms = create_with_attachments c.outside.now id t r u body files s.posts.messages in
      elim (Bool-cases (c.is_member t u)) [
        | inr stranger ↦ rw (stranger, create) v
        | inl member ↦
            rw (member, create)
              (subst Kept
                (sym (announced_posts id t r u body (find_by_id id ms) (with_messages ms s)))
                (create-Kept c.outside.now id t r u body files s.posts fresh v))
      ]

  edit-Kept :
      (t r m u : ObjectId) (content : Text) (s : Chat)
      → Kept s.posts
      → Kept (update c t r m u content s).1.posts
  unfolding update update_content
  edit-Kept t r m u content s v =
      let f : Message → Message =
        λ x. if is_own t u x then set_content content c.outside.now x else x in
      let ms = modify m f s.posts.messages in
      elim (Bool-cases (c.is_member t u)) [
        | inr stranger ↦ rw (stranger, update) v
        | inl member ↦
            rw (member, update)
              (subst Kept (sym (updated_posts m r u (find_by_id m ms) (with_messages ms s))) (
                Quiet-Kept m f s.posts
                  (λ x.
                    when-Quiet (is_own t u x) x (set_content content c.outside.now x)
                      (λ h. h, refl, refl, refl))
                  v))
      ]

  deleted-Kept :
      (t r m u : ObjectId) (found : DaoResult Message) (s : Chat)
      → Kept s.posts
      → Kept (deleted c t r m u found s).1.posts
  unfolding soft_delete_in_tenant
  deleted-Kept t r m u (err e) s v = v
  deleted-Kept t r m u (ok x) s v = elim (Bool-cases (x.author_id == u)) [
    | inr other ↦ rw (other, deleted) v
    | inl own ↦
        let f : Message → Message =
          λ y. if y.tenant_id == t then set_deleted c.outside.now y else y in
        rw (own, deleted)
          (Quiet-Kept m f s.posts
            (λ y.
              when-Quiet (y.tenant_id == t) y (set_deleted c.outside.now y)
                (λ h. h, refl, refl, refl))
            v)
  ]

  drop-Kept : (t r m u : ObjectId) (s : Chat) → Kept s.posts → Kept (delete c t r m u s).1.posts
  unfolding delete
  drop-Kept t r m u s v = elim (Bool-cases (c.is_member t u)) [
    | inr stranger ↦ rw (stranger, delete) v
    | inl member ↦
        rw (member, delete) (deleted-Kept t r m u (in_tenant t (find_by_id m s.posts.messages)) s v)
  ]

  pin-Kept :
      (t r m u : ObjectId) (b : Bool) (s : Chat)
      → Kept s.posts
      → Kept (pin_route c t r m u b s).1.posts
  unfolding pin_route toggle_pin
  pin-Kept t r m u b s v =
      let f : Message → Message = λ y. if y.tenant_id == t then set_pin b c.outside.now y else y in
      elim (Bool-cases (c.is_member t u)) [
        | inr stranger ↦ rw (stranger, pin_route) v
        | inl member ↦
            rw (member, pin_route)
              (Quiet-Kept m f s.posts
                (λ y.
                  when-Quiet (y.tenant_id == t) y (set_pin b c.outside.now y)
                    (λ h. h, refl, refl, refl))
                v)
      ]

  read-Kept :
      (t r u : ObjectId) (ids : List ObjectId) (s : Chat)
      → Kept s.posts
      → Kept (mark_read_route c t r u ids s).1.posts
  unfolding mark_read_route
  read-Kept t r u ids s v = elim (Bool-cases (c.is_member t u)) [
    | inr stranger ↦ rw (stranger, mark_read_route) v
    | inl member ↦ rw (member, mark_read_route) (mark_read-Kept r u ids s.posts v)
  ]

  reacted_posts :
      (r m u : ObjectId) (s : Chat) (answer : DaoResult Reaction) (posts : Posts)
      → (reacted c r m u s (answer, posts)).1.posts ≡ posts
  reacted_posts r m u s (err e) posts = refl
  reacted_posts r m u s (ok x) posts = refl

  react-Kept :
      (t r m u : ObjectId) (emoji : Text) (s : Chat)
      → Kept s.posts
      → Kept (add_reaction c t r m u emoji s).1.posts
  unfolding add_reaction
  react-Kept t r m u emoji s v =
      let reaction = new_reaction c t r m u emoji in
      let (answer, posts) = add_and_update_summary reaction s.posts in
      elim (Bool-cases (c.is_member t u)) [
        | inr stranger ↦ rw (stranger, add_reaction) v
        | inl member ↦
            rw (member, add_reaction)
              (subst Kept (sym (reacted_posts r m u s answer posts)) (add-Kept reaction s.posts v))
      ]

  unreact-Kept :
      (t r m u : ObjectId) (emoji : Text) (s : Chat)
      → Kept s.posts
      → Kept (remove_reaction c t r m u emoji s).1.posts
  unfolding remove_reaction
  unreact-Kept t r m u emoji s v =
      let kept = remove-Kept m u emoji c.outside.now s.posts v in
      elim (Bool-cases (c.is_member t u)) [
        | inr stranger ↦ rw (stranger, remove_reaction) v
        | inl member ↦
            elim (Bool-cases (remove_and_update_summary m u emoji c.outside.now s.posts).0) [
              | inl removed ↦ rw (member, removed, remove_reaction) kept
              | inr nothing ↦ rw (member, nothing, remove_reaction) kept
            ]
      ]

step-Kept :
    (c : Context) (request : Request) (s : Chat)
    → IsOrderly request s
    → Kept s.posts
    → Kept (step c request s).posts
unfolding step
step-Kept c (post id t r u body) s fresh v = post-Kept c id t r u body s fresh v
step-Kept c (edit t r m u content) s o v = edit-Kept c t r m u content s v
step-Kept c (drop t r m u) s o v = drop-Kept c t r m u s v
step-Kept c (pin t r m u) s o v = pin-Kept c t r m u true s v
step-Kept c (unpin t r m u) s o v = pin-Kept c t r m u false s v
step-Kept c (read t r u ids) s o v = read-Kept c t r u ids s v
step-Kept c (react t r m u emoji) s o v = react-Kept c t r m u emoji s v
step-Kept c (unreact t r m u emoji) s o v = unreact-Kept c t r m u emoji s v

all-Kept : {s : Chat} → Reachable s → Kept s.posts
unfolding lookup
all-Kept start = λ id m e. cc
all-Kept (next c request r o) = step-Kept c request _ o (all-Kept r)

-- However members post, edit, delete, pin and read messages and add and remove reactions, in
-- whatever order, while no room is deleted and the database gives new messages identifiers that
-- nothing uses: each message has been read by its author, counts the replies in its thread,
-- deleted ones included, and its summary gives each emoji the number of those reactions, in one
-- row at most.
pub Reachable-Kept :
    (s : Chat) (id : ObjectId) (m : Message)
    → Reachable s
    → lookup id s.posts.messages ≡ some m
    → RowKept s.posts id m
Reachable-Kept s id m r e = all-Kept r id m e
