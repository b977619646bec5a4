-- ===== src/Invites/Tests.antt =====
-- Runs of the model of invites on concrete data, and instances of its theorems.
use roomler.Prelude.{
  ℕ, ◌≡◌, ◌⊎◌, refl, true, false, none, some, List, [], ◌∷◌, Text, text, lookup, modify, Distinct,
  arith, insert,
}
use roomler.Invites.{
  Invite, InviteError, TenantMember, Tenancy, Role, Pending, CreateInviteParams, InviteResult, ok,
  err, invalid, forbidden, active, validate, count_use, increment_use_count, create_invite,
  check_invite, accept_invite, add_member, is_member, find_by_code, revoke,
}
use roomler.Invites.Outcome.{Accepted, accept_invite_outcome}
use roomler.Invites.Writes.{Bounded}
use roomler.Invites.Uses.{
  run-Bounded, Event, created, member_added, use_counted, invite_revoked, run, step, run-Bounded,
}
use roomler.Invites.Routes.{
  batch_create_invite, add_member_route, require_invite_permission, get_member_permissions, has,
}
use roomler.Invites.Race.{accept_race}

abbrev link : Invite
link = record {
  tenant_id = 1;
  code = text "abc";
  inviter_id = 7;
  target_email = none;
  max_uses = some 1;
  use_count = 0;
  expires_at = some 5000;
  assign_role_ids = [];
  status = active;
}

abbrev tenancy : Tenancy
tenancy = record {
  invites = (10, link) ∷ [];
  members = [];
  roles = (3, record { tenant_id = 1; name = text "member"; permissions = 3 }) ∷ [];
}

abbrev row : ℕ → TenantMember
row user = record { tenant_id = 1; user_id = user; role_ids = 3 ∷ []; invited_by = some 7 }

abbrev ann : Text
ann = text "ann"

passes : (user : ℕ) → check_invite 2000 user ann (text "abc") tenancy ≡ ok (10, row user)
unfolding check_invite validate is_member
passes user = refl

tenancy-Distinct : Distinct tenancy.invites
unfolding lookup
tenancy-Distinct = (refl, tt)

too_late : validate 6000 link ≡ false
unfolding validate
too_late = refl

accept_invite_outcome_example :
    let (answer, s') = accept_invite 2000 8 ann (text "abc") tenancy in
    ((e : InviteError) × (answer ≡ err e) × (s' ≡ tenancy))
    ⊎ Accepted 2000 8 ann (text "abc") tenancy answer s'
accept_invite_outcome_example =
    accept_invite_outcome 2000 8 ann (text "abc") tenancy tenancy-Distinct

abbrev empty : Tenancy
empty = record { invites = []; members = []; roles = [] }

abbrev events : List Event
events =
    created 1000 10 (text "abc") 1 7 (record {
      target_email = none;
      max_uses = some 1;
      expires_in_hours = none;
      assign_role_ids = [];
    })
    ∷ member_added (row 8)
    ∷ use_counted 10
    ∷ use_counted 10
    ∷ invite_revoked 10 1
    ∷ []

after_events :
    lookup 10 (run events empty).invites
    ≡ some (record link { use_count = 1; expires_at = none; status = roomler.Invites.revoked })
unfolding lookup run step create_invite add_member increment_use_count revoke is_member modify
    insert
after_events = refl

run-Bounded_example :
    Bounded (record link { use_count = 1; expires_at = none; status = roomler.Invites.revoked })
run-Bounded_example =
    run-Bounded events empty 10
      (record link { use_count = 1; expires_at = none; status = roomler.Invites.revoked }) refl
      after_events

accept_race_example :
    let both = (add_member (row 9) (add_member (row 8) tenancy).1).1 in
    let (first, s1) = increment_use_count 10 both in
    let (second, s2) = increment_use_count 10 s1 in
    (is_member 1 8 s2 ≡ true)
    × (is_member 1 9 s2 ≡ true)
    × (first ≡ ok (count_use link))
    × (second ≡ err invalid)
accept_race_example =
    accept_race 2000 2000 8 9 ann ann (text "abc") tenancy 10 10 (row 8) (row 9) link (omega arith)
      tenancy-Distinct refl refl (passes 8) (passes 9)

abbrev moderated : Tenancy
moderated = record tenancy {
  members = row 7 ∷ [];
  roles = (3, record { tenant_id = 1; name = text "member"; permissions = 64 }) ∷ [];
}

abbrev open_link : CreateInviteParams
open_link = record {
  target_email = none;
  max_uses = none;
  expires_in_hours = none;
  assign_role_ids = [];
}

batch_needs_permission :
    batch_create_invite 1000 1 8 ((11, ann, open_link) ∷ []) moderated ≡ (err forbidden, moderated)
unfolding batch_create_invite require_invite_permission get_member_permissions has
batch_needs_permission = refl

member_posted_test : is_member 1 8 (add_member_route 1 7 8 [] moderated).1 ≡ true
unfolding add_member_route require_invite_permission get_member_permissions has is_member add_member
member_posted_test = refl
