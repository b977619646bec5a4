-- ===== src/Invites/Routes.antt =====
-- The routes of crates/api/src/routes/invite.rs that ask for a permission: creating and revoking
-- invites, and adding a member directly. A request that is malformed is `invalid`.
use roomler.Prelude.{
  ℕ, Bool, false, not, ◌||◌, Option, none, some, List, [], ◌∷◌, Text, Map, ltb, ◌==◌, if◌then◌else◌,
  contains, length,
}
use Prim.Native.Nat.{bit_and, bit_or}
use roomler.Invites.{
  ObjectId, TenantMember, Role, Tenancy, InviteResult, CreateInviteParams, create_invite, revoke,
  is_row, is_member, add_member, roles_or_member, invalid, already_member, no_role, forbidden, ok,
  err,
}

abbrev pub administrator : ℕ
administrator = 8388608

abbrev pub invite_members : ℕ
invite_members = 64

unfoldable pub has : ℕ → ℕ → Bool
has permissions flag =
    not (bit_and permissions administrator == 0) || bit_and permissions flag == flag

abbrev pub combine : List ObjectId → Map Role → ℕ
combine role_ids [] = 0
combine role_ids ((id, r) ∷ rest) =
    let others = combine role_ids rest in
    if contains id role_ids then bit_or r.permissions others else others

abbrev pub find_row : ObjectId → ObjectId → List TenantMember → Option TenantMember
find_row tenant_id user_id [] = none
find_row tenant_id user_id (m ∷ rest) =
    if is_row tenant_id user_id m then some m else find_row tenant_id user_id rest

unfoldable pub get_member_permissions : ObjectId → ObjectId → Tenancy → Option ℕ
get_member_permissions tenant_id user_id s = elim (find_row tenant_id user_id s.members) [
  | none ↦ none
  | some m ↦ some (combine m.role_ids s.roles)
]

unfoldable pub require_invite_permission : ObjectId → ObjectId → Tenancy → Bool
require_invite_permission tenant_id user_id s = elim (get_member_permissions tenant_id user_id s) [
  | none ↦ false
  | some permissions ↦ has permissions invite_members
]

-- The routes that a member calls; an invite of a route lasts 168 hours unless it says otherwise.
abbrev pub hours_or_week : Option ℕ → Option ℕ
hours_or_week none = some 168
hours_or_week hours = hours

unfoldable pub create_invite_route :
    ℕ
    → ObjectId
    → Text
    → ObjectId
    → ObjectId
    → CreateInviteParams
    → Tenancy
    → InviteResult (Unit {0}) × Tenancy
create_invite_route now id code tenant_id user_id params s =
    if require_invite_permission tenant_id user_id s
    then (
      ok tt,
      create_invite now id code tenant_id user_id
          (record params { expires_in_hours = hours_or_week params.expires_in_hours }) s,
    )
    else (err forbidden, s)

unfoldable pub revoke_invite :
    ObjectId → ObjectId → ObjectId → Tenancy → InviteResult (Unit {0}) × Tenancy
revoke_invite tenant_id invite_id user_id s =
    if require_invite_permission tenant_id user_id s
    then (ok tt, revoke invite_id tenant_id s)
    else (err forbidden, s)

abbrev pub batch_max : ℕ
batch_max = 50

-- One item of a batch; its identifier and its code are new.
abbrev pub BatchItem : Type 0
BatchItem = ObjectId × Text × CreateInviteParams

abbrev pub create_each : ℕ → ObjectId → ObjectId → List BatchItem → Tenancy → Tenancy
create_each now tenant_id user_id [] s = s
create_each now tenant_id user_id ((id, code, params) ∷ rest) s =
    create_each now tenant_id user_id rest (
      create_invite now id code tenant_id user_id
        (record params { expires_in_hours = hours_or_week params.expires_in_hours }) s)

unfoldable pub batch_create_invite :
    ℕ → ObjectId → ObjectId → List BatchItem → Tenancy → InviteResult (Unit {0}) × Tenancy
batch_create_invite now tenant_id user_id [] s =
    if require_invite_permission tenant_id user_id s then (err invalid, s) else (err forbidden, s)
batch_create_invite now tenant_id user_id (item ∷ rest) s =
    if require_invite_permission tenant_id user_id s
    then if ltb batch_max (length (item ∷ rest))
      then (err invalid, s)
      else (ok tt, create_each now tenant_id user_id (item ∷ rest) s)
    else (err forbidden, s)

-- The route that adds a member without an invite.
unfoldable pub add_member_route :
    ObjectId → ObjectId → ObjectId → List ObjectId → Tenancy → InviteResult (Unit {0}) × Tenancy
add_member_route tenant_id by user_id role_ids s =
    if not (require_invite_permission tenant_id by s)
    then (err forbidden, s)
    else if is_member tenant_id user_id s
    then (err already_member, s)
    else elim (roles_or_member tenant_id role_ids s.roles) [
      | none ↦ (err no_role, s)
      | some ids ↦
          add_member
            (record {
              tenant_id = tenant_id;
              user_id = user_id;
              role_ids = ids;
              invited_by = some by;
            })
            s
    ]
