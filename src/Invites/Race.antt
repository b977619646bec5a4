-- ===== src/Invites/Race.antt =====
-- Two requests to accept the last use of one invite, which overlap.
use roomler.Prelude.{
  ℕ, suc, ◌≡◌, ◌≢◌, refl, sym, true, false, ◌||◌, some, ◌∷◌, Text, lookup, modify, arith, Distinct,
  ap, ◌∙◌,
}
use roomler.Invites.{
  ObjectId, Invite, TenantMember, Tenancy, ok, err, invalid, count_use, exhaust, can_count,
  increment_use_count, is_row, is_member, add_member, find_by_code, check_invite,
}
use roomler.Invites.Accept.{
  Usable, check_invite-Checked, find_by_code_stored, increment_counted, can_count-Usable,
}

added_lem :
    (m : TenantMember) (s : Tenancy)
    → is_member m.tenant_id m.user_id s ≡ false
    → add_member m s ≡ (ok tt, record s { members = m ∷ s.members })
unfolding add_member
added_lem m s absent = rw (absent) refl

-- Adding a row makes its user a member and leaves the others as they were.
is_member-added :
    (m : TenantMember) (t u : ObjectId) (s : Tenancy)
    → is_member t u (record s { members = m ∷ s.members }) ≡ (is_row t u m || is_member t u s)
unfolding is_member
is_member-added m t u s = refl

checked_here :
    (now u : ℕ) (email code : Text) (s : Tenancy) (id id' : ObjectId) (p : TenantMember)
    (invite : Invite)
    → find_by_code code s.invites ≡ some (id, invite)
    → check_invite now u email code s ≡ ok (id', p)
    → (id' ≡ id)
      × (p.tenant_id ≡ invite.tenant_id)
      × (p.user_id ≡ u)
      × (is_member invite.tenant_id u s ≡ false)
      × Usable now invite
checked_here now u email code s id id' p invite here passed =
    let (i, found, valid, right, stranger, tenant, user, by, known) =
      check_invite-Checked now u email code s id' p passed in
    let first : ObjectId × Invite = (id, invite) in
    let wanted : ObjectId × Invite = (id', i) in
    let same : some first ≡ some wanted = sym here ∙ found in
    let same' : first ≡ wanted = cc (same) in
    let same_id : id ≡ id' = ap (λ x. x.0) same' in
    let same_invite : invite ≡ i = ap (λ x. x.1) same' in
    (sym same_id, rw (same_invite) tenant, user, rw (same_invite) stranger, rw (same_invite) valid)

increment_refused :
    (id : ObjectId) (i : Invite) (s : Tenancy)
    → lookup id s.invites ≡ some i
    → can_count i ≡ false
    → increment_use_count id s ≡ (err invalid, s)
unfolding increment_use_count
increment_refused id i s here cannot = rw (here, cannot, increment_use_count) refl

exhausted_lem :
    (i : Invite) → i.max_uses ≡ some (suc i.use_count) → can_count (exhaust (count_use i)) ≡ false
exhausted_lem i last = ground (arith, last)

both_members :
    (p q : TenantMember) (t u : ObjectId) (s : Tenancy)
    → p.tenant_id ≡ t
    → p.user_id ≡ u
    → is_member t u (record s { members = q ∷ p ∷ s.members }) ≡ true
unfolding is_member
both_members p q t u s tenant user = ground (arith, tenant, user)

latest_member :
    (p q : TenantMember) (t v : ObjectId) (s : Tenancy)
    → q.tenant_id ≡ t
    → q.user_id ≡ v
    → is_member t v (record s { members = q ∷ p ∷ s.members }) ≡ true
unfolding is_member
latest_member p q t v s tenant user = ground (arith, tenant, user)

-- Two users pass the checks for the last use of an invite before either is added. Both become
-- members, and only then the second one's use is refused.
pub accept_race :
    (now now' u v : ℕ) (email email' code : Text) (s : Tenancy) (id id' : ObjectId)
    (p q : TenantMember) (invite : Invite)
    → u ≢ v
    → Distinct s.invites
    → find_by_code code s.invites ≡ some (id, invite)
    → invite.max_uses ≡ some (suc invite.use_count)
    → check_invite now u email code s ≡ ok (id, p)
    → check_invite now' v email' code s ≡ ok (id', q)
    → let both = (add_member q (add_member p s).1).1 in
      let (first, s1) = increment_use_count id both in
      let (second, s2) = increment_use_count id' s1 in
      (is_member invite.tenant_id u s2 ≡ true)
      × (is_member invite.tenant_id v s2 ≡ true)
      × (first ≡ ok (count_use invite))
      × (second ≡ err invalid)
accept_race now now' u v email email' code s id id' p q invite other d here last passed passed' =
    let (same, tenant, user, stranger, valid) =
      checked_here now u email code s id id p invite here passed in
    let (same', tenant', user', stranger', valid') =
      checked_here now' v email' code s id id' q invite here passed' in
    let first : is_member p.tenant_id p.user_id s ≡ false = rw (tenant, user) stranger in
    let one : Tenancy = record s { members = p ∷ s.members } in
    let absent : is_member q.tenant_id q.user_id one ≡ false =
      rw (is_member-added p q.tenant_id q.user_id s, tenant', user')
        (ground (arith, stranger', other, user)) in
    let both : Tenancy = record s { members = q ∷ p ∷ s.members } in
    let stored = find_by_code_stored code s.invites id invite d here in
    let (counts, kept) =
      increment_counted id invite both stored (can_count-Usable now invite valid) in
    let spent = exhausted_lem invite last in
    let used : Tenancy = record s { invites = modify id (λ x. exhaust (count_use x)) s.invites } in
    let after : Tenancy = record used { members = q ∷ p ∷ s.members } in
    rw (added_lem p s first, added_lem q one absent, counts, same')
      (rw (increment_refused id (exhaust (count_use invite)) after kept spent) (
        both_members p q invite.tenant_id u used tenant user,
        latest_member p q invite.tenant_id v used tenant' user',
        refl,
        refl,
      ))
