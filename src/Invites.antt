-- ===== src/Invites.antt =====
-- crates/services/src/dao/invite.rs and crates/api/src/routes/invite.rs, with what they use of
-- crates/services/src/dao/tenant.rs and crates/db/src/models/role.rs: who becomes a member of a
-- tenant by an invite. An operation on one document is one step, which succeeds; the unique index of
-- tenant_members on tenant and user refuses a second row.
use roomler.Prelude.{
  ℕ, ◌+◌, ◌*◌, ◌%◌, Bool, true, false, not, ◌&&◌, ◌||◌, Option, none, some, List, [], ◌∷◌, ◌++◌,
  Text, ◌^◌, text, Map, lookup, insert, modify, any, ltb, leb, same_text, is_some, ◌==◌,
  if◌then◌else◌, contains, length,
}
pub mod Accept
pub mod Outcome
pub mod Routes
pub mod Writes
pub mod Uses
pub mod Race
mod Tests

abbrev pub ObjectId : Type 0
ObjectId = ℕ

pub data InviteStatus : Type 0 where
  active expired revoked exhausted : InviteStatus

-- A time is a number of milliseconds; `expires_at` is an `i64`, as its 64 bits.
pub record Invite : Type 0 where
  pub tenant_id : ObjectId
  pub code : Text
  pub inviter_id : ObjectId
  pub target_email : Option Text
  pub max_uses : Option ℕ
  pub use_count : ℕ
  pub expires_at : Option ℕ
  pub assign_role_ids : List ObjectId
  pub status : InviteStatus

pub record TenantMember : Type 0 where
  pub tenant_id : ObjectId
  pub user_id : ObjectId
  pub role_ids : List ObjectId
  pub invited_by : Option ObjectId

pub record Role : Type 0 where
  pub tenant_id : ObjectId
  pub name : Text
  pub permissions : ℕ

pub record Tenancy : Type 0 where
  pub invites : Map Invite
  pub members : List TenantMember
  pub roles : Map Role

pub data InviteError : Type 0 where
  not_found invalid wrong_email already_member no_role forbidden duplicate : InviteError

pub data InviteResult (A : Type 0) : Type 0 where
  ok : A → InviteResult A
  err : InviteError → InviteResult A

pub record CreateInviteParams : Type 0 where
  pub target_email : Option Text
  pub max_uses : Option ℕ
  pub expires_in_hours : Option ℕ
  pub assign_role_ids : List ObjectId

abbrev pub uses_of : CreateInviteParams → Option ℕ
uses_of params = if is_some params.target_email then some 1 else params.max_uses

-- `hours as i64 * 3600 * 1000` wraps around in a release build.
abbrev pub expiry : ℕ → Option ℕ → Option ℕ
expiry now none = none
expiry now (some hours) = some ((now + hours * 3600000) % 2 ^ 64)

abbrev pub new_invite : ℕ → Text → ObjectId → ObjectId → CreateInviteParams → Invite
new_invite now code tenant_id inviter_id params = record {
  tenant_id = tenant_id;
  code = code;
  inviter_id = inviter_id;
  target_email = params.target_email;
  max_uses = uses_of params;
  use_count = 0;
  expires_at = expiry now params.expires_in_hours;
  assign_role_ids = params.assign_role_ids;
  status = active;
}

-- `id` is the identifier that the database gives the row, `code` the generated code.
unfoldable pub create_invite :
    ℕ → ObjectId → Text → ObjectId → ObjectId → CreateInviteParams → Tenancy → Tenancy
create_invite now id code tenant_id inviter_id params s = record s {
  invites = insert id (new_invite now code tenant_id inviter_id params) s.invites;
}

-- A deadline before 1970 is past.
abbrev pub is_past : ℕ → Option ℕ → Bool
is_past now none = false
is_past now (some deadline) = leb (2 ^ 63) deadline || ltb deadline now

abbrev pub is_used_up : Option ℕ → ℕ → Bool
is_used_up none count = false
is_used_up (some max) count = leb max count

abbrev pub is_active : InviteStatus → Bool
is_active active = true
is_active _ = false

-- `validate(…).is_ok()`.
unfoldable pub validate : ℕ → Invite → Bool
validate now invite =
    is_active invite.status
    && (not (is_past now invite.expires_at) && not (is_used_up invite.max_uses invite.use_count))

abbrev pub count_use : Invite → Invite
count_use invite = record invite { use_count = invite.use_count + 1 }

abbrev pub exhaust : Invite → Invite
exhaust invite =
    if is_used_up invite.max_uses invite.use_count
    then record invite { status = exhausted }
    else invite

-- The filter of the atomic update: active, and below the limit.
abbrev pub can_count : Invite → Bool
can_count invite = is_active invite.status && not (is_used_up invite.max_uses invite.use_count)

unfoldable pub increment_use_count : ObjectId → Tenancy → InviteResult Invite × Tenancy
increment_use_count id s = elim (lookup id s.invites) [
  | none ↦ (err invalid, s)
  | some invite ↦
      if can_count invite
      then (
        ok (count_use invite),
        record s { invites = modify id (λ i. exhaust (count_use i)) s.invites },
      )
      else (err invalid, s)
]

unfoldable pub revoke : ObjectId → ObjectId → Tenancy → Tenancy
revoke id tenant_id s = record s {
  invites =
      modify id (λ i. if i.tenant_id == tenant_id then record i { status = revoked } else i)
        s.invites;
}

abbrev pub is_row : ObjectId → ObjectId → TenantMember → Bool
is_row tenant_id user_id m = m.tenant_id == tenant_id && m.user_id == user_id

unfoldable pub is_member : ObjectId → ObjectId → Tenancy → Bool
is_member tenant_id user_id s = any (is_row tenant_id user_id) s.members

unfoldable pub add_member : TenantMember → Tenancy → InviteResult (Unit {0}) × Tenancy
add_member m s =
    if is_member m.tenant_id m.user_id s
    then (err duplicate, s)
    else (ok tt, record s { members = m ∷ s.members })

abbrev pub find_by_code : Text → Map Invite → Option (ObjectId × Invite)
find_by_code code [] = none
find_by_code code ((id, i) ∷ rest) =
    if same_text i.code code then some (id, i) else find_by_code code rest

abbrev pub get_role_by_name : ObjectId → Text → Map Role → Option ObjectId
get_role_by_name tenant_id name [] = none
get_role_by_name tenant_id name ((id, r) ∷ rest) =
    if r.tenant_id == tenant_id && same_text r.name name
    then some id
    else get_role_by_name tenant_id name rest

abbrev pub roles_or_member : ObjectId → List ObjectId → Map Role → Option (List ObjectId)
roles_or_member tenant_id [] roles = elim (get_role_by_name tenant_id (text "member") roles) [
  | none ↦ none
  | some id ↦ some (id ∷ [])
]
roles_or_member tenant_id (id ∷ rest) roles = some (id ∷ rest)

abbrev pub roles_of : Invite → Map Role → Option (List ObjectId)
roles_of invite roles = roles_or_member invite.tenant_id invite.assign_role_ids roles

abbrev pub is_for : Option Text → Text → Bool
is_for none email = true
is_for (some target) email = same_text target email

-- What `accept_invite` has decided when it starts to write: the invite, and the row to add.
abbrev pub Pending : Type 0
Pending = ObjectId × TenantMember

-- The reads and checks of `accept_invite`.
unfoldable pub check_invite : ℕ → ObjectId → Text → Text → Tenancy → InviteResult Pending
check_invite now user_id email code s = elim (find_by_code code s.invites) [
  | none ↦ err not_found
  | some (id, invite) ↦
      if not (validate now invite)
      then err invalid
      else if not (is_for invite.target_email email)
      then err wrong_email
      else if is_member invite.tenant_id user_id s
      then err already_member
      else elim (roles_of invite s.roles) [
        | none ↦ err no_role
        | some role_ids ↦ ok (
          id,
          record {
            tenant_id = invite.tenant_id;
            user_id = user_id;
            role_ids = role_ids;
            invited_by = some invite.inviter_id;
          },
        )
      ]
]

abbrev pub counted : ObjectId → InviteResult (Unit {0}) × Tenancy → InviteResult Invite × Tenancy
counted id (err e, s) = (err e, s)
counted id (ok _, s) = increment_use_count id s

-- The member is added, and then the use is counted. The tenant that the answer names is read last,
-- and is left out: where it is missing, the route fails after these writes.
unfoldable pub accept_invite : ℕ → ObjectId → Text → Text → Tenancy → InviteResult Invite × Tenancy
accept_invite now user_id email code s = elim (check_invite now user_id email code s) [
  | err e ↦ (err e, s)
  | ok (id, member) ↦ counted id (add_member member s)
]
