-- ===== src/Messages/Access.antt =====
-- Who sees and changes messages.
use roomler.Prelude.{
  ℕ, ◌≢◌, ◌≡◌, refl, subst, ◌∙◌, Bool, true, false, ◌⊎◌, Option, none, some, ◌∷◌, Text, Map, lookup,
  arith, Bool-cases, Option-cases, inl, inr, lookup-modify, ==-refl, if◌then◌else◌, ◌==◌,
}
use mathlib.Core.Option
use roomler.Dao.{not_found, ok, err}
use roomler.Conference.{find_member_user_ids}
use roomler.Messages.{ObjectId, Message, find_by_id, in_tenant}
use roomler.Messages.Rows.{is_own, set_content, set_deleted, update_content, soft_delete_in_tenant}
use roomler.Messages.Routes.{
  to_response, to_response, to_response, to_response, to_response, to_response, Context, Chat,
  ApiError, done, fail, denied, missing, message_update, message_delete, to_response, others,
}
use roomler.Messages.Edits.{update, delete, deleted}

foreign_content :
    (t mid u now j : ObjectId) (content : Text) (ms : Map Message) (m : Message)
    → lookup mid ms ≡ some m
    → is_own t u m ≡ false
    → lookup j (update_content t mid u content now ms) ≡ lookup j ms
unfolding update_content
foreign_content t mid u now j content ms m here foreign =
    let f : Message → Message = λ x. if is_own t u x then set_content content now x else x in
    let reads = lookup-modify mid j f ms in
    elim (Bool-cases (mid == j)) [
      | inl same ↦
          let same' : mid ≡ j = ground (arith, same) in
          let there : lookup j ms ≡ some m = subst (λ x. lookup x ms ≡ some m) same' here in
          reads ∙ rw (there, same, foreign) refl
      | inr other ↦ elim (Option-cases (lookup j ms)) [
        | inl gone ↦ reads ∙ rw (gone) refl
        | inr (q, there) ↦ reads ∙ rw (there, other) refl
      ]
    ]

-- Not for this user to edit under this tenant.
abbrev pub IsForeign : ObjectId → ObjectId → Message → Type 0
IsForeign tenant_id user_id m =
    ((m.tenant_id ≢ tenant_id) ⊎ (m.author_id ≢ user_id)) ⊎ ((at : ℕ) × (m.deleted_at ≡ some at))

foreign_own : (t u : ObjectId) (m : Message) → IsForeign t u m → is_own t u m ≡ false
foreign_own t u m (inl (inl tenant)) = ground (arith, tenant)
foreign_own t u m (inl (inr author)) = ground (arith, author)
foreign_own t u m (inr (at, gone)) = ground (arith, gone)

-- A member of some tenant asks to edit a message that the member did not write, or that is deleted
-- or belongs to another tenant: no message changes, but the answer is the message, and so is what
-- the members of the room that the request names are sent.
pub update_foreign :
    (c : Context) (tenant_id room_id message_id user_id : ObjectId) (content : Text) (s : Chat)
    (m : Message)
    → c.is_member tenant_id user_id ≡ true
    → lookup message_id s.posts.messages ≡ some m
    → IsForeign tenant_id user_id m
    → let (answer, s') = update c tenant_id room_id message_id user_id content s in
      let response = to_response c (some user_id) message_id m in
      (answer ≡ done response)
      × (s'.sent
          ≡ (others user_id (find_member_user_ids room_id c.db), message_update response) ∷ s.sent)
      × ((id : ObjectId) → lookup id s'.posts.messages ≡ lookup id s.posts.messages)
unfolding update
update_foreign c t r mid u content s m member here foreign =
    let now = c.outside.now in
    let same = λ (j : ObjectId).
      foreign_content t mid u now j content s.posts.messages m here (foreign_own t u m foreign) in
    let there : lookup mid (update_content t mid u content now s.posts.messages) ≡ some m =
      same mid ∙ here in
    let found : find_by_id mid (update_content t mid u content now s.posts.messages) ≡ ok m =
      rw (there, find_by_id) refl in
    rw (member, found, update) (refl, refl, same)

unchanged :
    (b : Bool) (f : Message → Message) (o : Option Message)
    → b ≡ false
    → Option.map (λ m. if b then f m else m) o ≡ o
unchanged b f none off = refl
unchanged b f (some m) off = rw (off) refl

-- What deleting leaves.
abbrev pub Deleted : Context → ObjectId → ObjectId → ObjectId → ObjectId → Chat → Chat → Type 0
Deleted c tenant_id room_id message_id user_id s s' =
    (m : Message) × (lookup message_id s.posts.messages ≡ some m)
    × (m.tenant_id ≡ tenant_id)
    × (m.author_id ≡ user_id)
    × (lookup message_id s'.posts.messages
        ≡ some (record m { deleted_at = some c.outside.now; updated_at = c.outside.now }))
    × ((id : ObjectId)
        → (message_id == id) ≡ false
        → lookup id s'.posts.messages ≡ lookup id s.posts.messages)
    × (s'.sent
        ≡ (others user_id (find_member_user_ids room_id c.db), message_delete message_id room_id)
          ∷ s.sent)

-- A request to delete a message is refused and changes nothing; or its sender is a member of the
-- tenant and wrote the message there, the message is marked as deleted now and changes in nothing
-- else, no other one changes, and the room's other members are told.
pub delete_outcome :
    (c : Context) (tenant_id room_id message_id user_id : ObjectId) (s : Chat)
    → let (answer, s') = delete c tenant_id room_id message_id user_id s in
      ((e : ApiError) × (answer ≡ fail e) × (s' ≡ s))
      ⊎ ((answer ≡ done tt)
          × (c.is_member tenant_id user_id ≡ true)
          × Deleted c tenant_id room_id message_id user_id s s')
unfolding delete soft_delete_in_tenant
delete_outcome c t r mid u s = elim (Bool-cases (c.is_member t u)) [
  | inr stranger ↦ inl (denied, rw (stranger, delete) refl, rw (stranger, delete) refl)
  | inl member ↦ elim (Option-cases (lookup mid s.posts.messages)) [
    | inl gone ↦
        let found : in_tenant t (find_by_id mid s.posts.messages) ≡ err not_found =
          rw (gone, find_by_id) refl in
        inl (missing, rw (member, found, delete) refl, rw (member, found, delete) refl)
    | inr (m, here) ↦ elim (Bool-cases (m.tenant_id == t)) [
      | inr foreign ↦
          let found : in_tenant t (find_by_id mid s.posts.messages) ≡ err not_found =
            rw (here, foreign, find_by_id, in_tenant) refl in
          inl (missing, rw (member, found, delete) refl, rw (member, found, delete) refl)
      | inl own ↦
          let found : in_tenant t (find_by_id mid s.posts.messages) ≡ ok m =
            rw (here, own, find_by_id, in_tenant) refl in
          elim (Bool-cases (m.author_id == u)) [
            | inr other ↦ inl (
              denied,
              rw (member, found, other, delete, deleted) refl,
              rw (member, found, other, delete, deleted) refl,
            )
            | inl author ↦
                let f : Message → Message =
                  λ x. if x.tenant_id == t then set_deleted c.outside.now x else x in
                let reads = λ (j : ObjectId). lookup-modify mid j f s.posts.messages in
                inr (
                  rw (member, found, author, delete, deleted) refl,
                  member,
                  (
                    m,
                    here,
                    ground (arith, own),
                    ground (arith, author),
                    rw (member, found, author, delete, deleted)
                        (reads mid ∙ rw (here, ==-refl mid, own) refl),
                    λ j other.
                        rw (member, found, author, delete, deleted)
                          (reads j ∙ unchanged (mid == j) f (lookup j s.posts.messages) other),
                    rw (member, found, author, delete, deleted) refl,
                  ),
                )
          ]
    ]
  ]
]
