-- ===== src/Invites/Uses.antt =====
-- How often an invite is used.
use roomler.Prelude.{
  ℕ, ◌≡◌, some, List, [], ◌∷◌, Text, lookup, arith, Option-cases, Bool-cases, inl, inr, length, ltb,
}
use roomler.Invites.{
  roles_or_member, counted, accept_invite, check_invite, InviteResult, add_member, err, ok,
  ObjectId, Invite, TenantMember, Tenancy, CreateInviteParams, increment_use_count, revoke,
  is_member, create_invite,
}
use roomler.Invites.Accept.{result-cases}
use roomler.Invites.Routes.{
  require_invite_permission, hours_or_week, create_invite_route, revoke_invite, batch_max,
  BatchItem, create_each, batch_create_invite, add_member_route,
}
use roomler.Invites.Writes.{
  Bounded, AllBounded, increment-AllBounded, create_invite-AllBounded, add_member-AllBounded,
  revoke-AllBounded,
}

-- The single writes of requests that overlap, and the routes as a whole.
pub data Event : Type 0 where
  created :
      (now id : ℕ) (code : Text) (tenant_id inviter_id : ObjectId) → CreateInviteParams → Event
  member_added : TenantMember → Event
  use_counted : (id : ObjectId) → Event
  invite_revoked : (id tenant_id : ObjectId) → Event
  invite_accepted : (now user_id : ℕ) (email code : Text) → Event
  invite_posted :
      (now id : ℕ) (code : Text) (tenant_id user_id : ObjectId) → CreateInviteParams → Event
  batch_posted : (now : ℕ) (tenant_id user_id : ObjectId) → List BatchItem → Event
  invite_deleted : (tenant_id id user_id : ObjectId) → Event
  member_posted : (tenant_id by user_id : ObjectId) → List ObjectId → Event

unfoldable pub step : Event → Tenancy → Tenancy
step (created now id code t u params) s = create_invite now id code t u params s
step (member_added m) s = (add_member m s).1
step (use_counted id) s = (increment_use_count id s).1
step (invite_revoked id t) s = revoke id t s
step (invite_accepted now u email code) s = (accept_invite now u email code s).1
step (invite_posted now id code t u params) s = (create_invite_route now id code t u params s).1
step (batch_posted now t u items) s = (batch_create_invite now t u items s).1
step (invite_deleted t id u) s = (revoke_invite t id u s).1
step (member_posted t by u role_ids) s = (add_member_route t by u role_ids s).1

unfoldable pub run : List Event → Tenancy → Tenancy
run [] s = s
run (event ∷ rest) s = run rest (step event s)

create_each-AllBounded :
    (now : ℕ) (t u : ObjectId) (items : List BatchItem) (s : Tenancy)
    → AllBounded s
    → AllBounded (create_each now t u items s)
create_each-AllBounded now t u [] s b = b
create_each-AllBounded now t u ((id, code, params) ∷ rest) s b =
    let posted : CreateInviteParams = record params {
      expires_in_hours = hours_or_week params.expires_in_hours;
    } in
    create_each-AllBounded now t u rest (create_invite now id code t u posted s)
      (create_invite-AllBounded now id code t u posted s b)

counted-AllBounded :
    (id : ObjectId) (r : InviteResult (Unit {0})) (s : Tenancy)
    → AllBounded s
    → AllBounded (counted id (r, s)).1
counted-AllBounded id (err e) s b = b
counted-AllBounded id (ok _) s b = increment-AllBounded id s b

accept_invite-AllBounded :
    (now u : ℕ) (email code : Text) (s : Tenancy)
    → AllBounded s
    → AllBounded (accept_invite now u email code s).1
unfolding accept_invite
accept_invite-AllBounded now u email code s b =
    elim (result-cases (check_invite now u email code s)) [
      | inl (e, refused) ↦ rw (refused, accept_invite) b
      | inr ((id, m), passed) ↦
          rw (passed, accept_invite)
            (counted-AllBounded id (add_member m s).0 (add_member m s).1
              (add_member-AllBounded m s b))
    ]

batch_create_invite-AllBounded :
    (now : ℕ) (t u : ObjectId) (items : List BatchItem) (s : Tenancy)
    → AllBounded s
    → AllBounded (batch_create_invite now t u items s).1
unfolding batch_create_invite
batch_create_invite-AllBounded now t u [] s b =
    elim (Bool-cases (require_invite_permission t u s)) [
      | inl may ↦ rw (may, batch_create_invite) b
      | inr may_not ↦ rw (may_not, batch_create_invite) b
    ]
batch_create_invite-AllBounded now t u (item ∷ rest) s b =
    elim (Bool-cases (require_invite_permission t u s)) [
      | inr may_not ↦ rw (may_not, batch_create_invite) b
      | inl may ↦ elim (Bool-cases (ltb batch_max (length (item ∷ rest)))) [
        | inl long ↦ rw (may, long, batch_create_invite) b
        | inr short ↦
            rw (may, short, batch_create_invite) (create_each-AllBounded now t u (item ∷ rest) s b)
      ]
    ]

add_member_route-AllBounded :
    (t by u : ObjectId) (role_ids : List ObjectId) (s : Tenancy)
    → AllBounded s
    → AllBounded (add_member_route t by u role_ids s).1
unfolding add_member_route
add_member_route-AllBounded t by u role_ids s b =
    elim (Bool-cases (require_invite_permission t by s)) [
      | inr may_not ↦ rw (may_not, add_member_route) b
      | inl may ↦ elim (Bool-cases (is_member t u s)) [
        | inl member ↦ rw (may, member, add_member_route) b
        | inr stranger ↦ elim (Option-cases (roles_or_member t role_ids s.roles)) [
          | inl missing ↦ rw (may, stranger, missing, add_member_route) b
          | inr (ids, known) ↦
              let m : TenantMember = record {
                tenant_id = t;
                user_id = u;
                role_ids = ids;
                invited_by = some by;
              } in
              rw (may, stranger, known, add_member_route) (add_member-AllBounded m s b)
        ]
      ]
    ]

step-AllBounded : (event : Event) (s : Tenancy) → AllBounded s → AllBounded (step event s)
unfolding step create_invite_route revoke_invite
step-AllBounded (created now id code t u params) s b =
    create_invite-AllBounded now id code t u params s b
step-AllBounded (member_added m) s b = add_member-AllBounded m s b
step-AllBounded (use_counted id) s b = increment-AllBounded id s b
step-AllBounded (invite_revoked id t) s b = revoke-AllBounded id t s b
step-AllBounded (invite_accepted now u email code) s b =
    accept_invite-AllBounded now u email code s b
step-AllBounded (invite_posted now id code t u params) s b =
    elim (Bool-cases (require_invite_permission t u s)) [
      | inr may_not ↦ rw (may_not, step, create_invite_route) b
      | inl may ↦
          rw (may, step, create_invite_route)
            (create_invite-AllBounded now id code t u
              (record params { expires_in_hours = hours_or_week params.expires_in_hours }) s b)
    ]
step-AllBounded (batch_posted now t u items) s b = batch_create_invite-AllBounded now t u items s b
step-AllBounded (invite_deleted t id u) s b = elim (Bool-cases (require_invite_permission t u s)) [
  | inr may_not ↦ rw (may_not, step, revoke_invite) b
  | inl may ↦ rw (may, step, revoke_invite) (revoke-AllBounded id t s b)
]
step-AllBounded (member_posted t by u role_ids) s b =
    add_member_route-AllBounded t by u role_ids s b

run-AllBounded : (events : List Event) (s : Tenancy) → AllBounded s → AllBounded (run events s)
unfolding run
run-AllBounded [] s b = b
run-AllBounded (event ∷ rest) s b = run-AllBounded rest (step event s) (step-AllBounded event s b)

-- In whatever order invites are created, alone or in batches, accepted and revoked, members added
-- and uses counted, where requests that overlap may mix their writes: no invite has been used more
-- often than its limit, and an invite for an address has the limit 1.
pub run-Bounded :
    (events : List Event) (s : Tenancy) (id : ObjectId) (i : Invite)
    → s.invites ≡ []
    → lookup id (run events s).invites ≡ some i
    → Bounded i
unfolding lookup
run-Bounded events s id i empty e =
    run-AllBounded events s (λ j q h. absurd (ground (arith, empty, h))) id i e
