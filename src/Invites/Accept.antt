-- ===== src/Invites/Accept.antt =====
-- Accepting an invite, one request at a time.
use roomler.Prelude.{
  ℕ, ◌≡◌, ◌⊎◌, refl, sym, true, false, some, [], ◌∷◌, Text, Map, lookup, modify, arith,
  Option-cases, Bool-cases, inl, inr, lookup-modify, Distinct, ==-refl, same_text, ap, ◌∙◌,
}
use roomler.Invites.{
  is_active, is_past, is_used_up, ObjectId, Invite, InviteResult, InviteError, TenantMember,
  Tenancy, Pending, ok, err, validate, count_use, exhaust, can_count, increment_use_count,
  is_member, add_member, find_by_code, roles_of, is_for, check_invite, accept_invite,
}

-- An invite that can be used.
abbrev pub Usable : ℕ → Invite → Type 0
Usable now invite =
    (is_active invite.status ≡ true)
    × (is_past now invite.expires_at ≡ false)
    × (is_used_up invite.max_uses invite.use_count ≡ false)

validate-Usable : (now : ℕ) (i : Invite) → validate now i ≡ true → Usable now i
unfolding validate
validate-Usable now i h = (ground (arith, h), ground (arith, h), ground (arith, h))

-- What a passed check says.
abbrev pub Checked : ℕ → ObjectId → Text → Text → Tenancy → ObjectId → TenantMember → Type 0
Checked now user_id email code s id m =
    (invite : Invite) × (find_by_code code s.invites ≡ some (id, invite))
    × Usable now invite
    × (is_for invite.target_email email ≡ true)
    × (is_member invite.tenant_id user_id s ≡ false)
    × (m.tenant_id ≡ invite.tenant_id)
    × (m.user_id ≡ user_id)
    × (m.invited_by ≡ some invite.inviter_id)
    × (roles_of invite s.roles ≡ some m.role_ids)

pub result-cases :
    {A : Type 0} (r : InviteResult A) → ((e : InviteError) × (r ≡ err e)) ⊎ ((a : A) × (r ≡ ok a))
result-cases (ok a) = inr (a, refl)
result-cases (err e) = inl (e, refl)

pub check_invite-Checked :
    (now user_id : ℕ) (email code : Text) (s : Tenancy) (id : ObjectId) (m : TenantMember)
    → check_invite now user_id email code s ≡ ok (id, m)
    → Checked now user_id email code s id m
unfolding check_invite
check_invite-Checked now user_id email code s id m h =
    elim (Option-cases (find_by_code code s.invites)) [
      | inl gone ↦ absurd (ground (arith, gone, h))
      | inr ((id', invite), here) ↦ elim (Bool-cases (validate now invite)) [
        | inr stale ↦ absurd (ground (arith, here, stale, h))
        | inl valid ↦ elim (Bool-cases (is_for invite.target_email email)) [
          | inr wrong ↦ absurd (ground (arith, here, valid, wrong, h))
          | inl right ↦ elim (Bool-cases (is_member invite.tenant_id user_id s)) [
            | inl member ↦ absurd (ground (arith, here, valid, right, member, h))
            | inr stranger ↦ elim (Option-cases (roles_of invite s.roles)) [
              | inl missing ↦ absurd (ground (arith, here, valid, right, stranger, missing, h))
              | inr (role_ids, known) ↦
                  let pending : Pending = (
                    id',
                    record {
                      tenant_id = invite.tenant_id;
                      user_id = user_id;
                      role_ids = role_ids;
                      invited_by = some invite.inviter_id;
                    },
                  ) in
                  let done : ok pending ≡ ok (id, m) =
                    rw (sym h, check_invite, here, valid, right, stranger, known) refl in
                  let same : pending ≡ (id, m) = cc (done) in
                  let same_id : id' ≡ id = ap (λ p. p.0) same in
                  (
                    invite,
                    rw (sym same_id) here,
                    validate-Usable now invite valid,
                    right,
                    stranger,
                    ap (λ p. p.1.tenant_id) (sym same),
                    ap (λ p. p.1.user_id) (sym same),
                    ap (λ p. p.1.invited_by) (sym same),
                    known ∙ ap (λ p. some p.1.role_ids) same,
                  )
            ]
          ]
        ]
      ]
    ]

pub find_by_code_stored :
    (code : Text) (invites : Map Invite) (id : ObjectId) (i : Invite)
    → Distinct invites
    → find_by_code code invites ≡ some (id, i)
    → lookup id invites ≡ some i
unfolding lookup
find_by_code_stored code [] id i d h = cc
find_by_code_stored code ((j, q) ∷ rest) id i (absent, d) h =
    elim (Bool-cases (same_text q.code code)) [
      | inl here ↦
          let first : ObjectId × Invite = (j, q) in
          let wanted : ObjectId × Invite = (id, i) in
          let same : some first ≡ some wanted = rw (sym h, here) refl in
          let same' : first ≡ wanted = cc (same) in
          let same_id : j ≡ id = ap (λ p. p.0) same' in
          let same_invite : q ≡ i = ap (λ p. p.1) same' in
          rw (same_id, same_invite, ==-refl id) refl
      | inr other ↦
          let there = find_by_code_stored code rest id i d (ground (arith, other, h)) in
          ground (arith, there, absent)
    ]

pub can_count-Usable : (now : ℕ) (i : Invite) → Usable now i → can_count i ≡ true
can_count-Usable now i (usable, unpast, unused) = ground (arith, usable, unused)

-- Counting a use of an invite that is active and below its limit.
pub increment_counted :
    (id : ObjectId) (i : Invite) (s : Tenancy)
    → lookup id s.invites ≡ some i
    → can_count i ≡ true
    → (increment_use_count id s ≡ (
      ok (count_use i),
      record s { invites = modify id (λ x. exhaust (count_use x)) s.invites },
    ))
      × (lookup id (modify id (λ x. exhaust (count_use x)) s.invites)
          ≡ some (exhaust (count_use i)))
unfolding increment_use_count
increment_counted id i s here can = (
  rw (here, can, increment_use_count) refl,
  rw (lookup-modify id id (λ x. exhaust (count_use x)) s.invites, here, ==-refl id) refl,
)

-- What an accepted invite leaves, as the code's own tests say it.
abbrev pub Taken : ℕ → ObjectId → Text → Text → Tenancy → InviteResult Invite → Tenancy → Type 0
Taken now user_id email code s answer s' =
    (id : ObjectId) × (m : TenantMember) × (invite : Invite) × Checked now user_id email code s id m
    × (lookup id s.invites ≡ some invite)
    × (answer ≡ ok (count_use invite))
    × (s'.members ≡ m ∷ s.members)
    × (lookup id s'.invites ≡ some (exhaust (count_use invite)))

pub accept_invite-Taken :
    (now user_id : ℕ) (email code : Text) (s : Tenancy)
    → Distinct s.invites
    → let (answer, s') = accept_invite now user_id email code s in
      ((e : InviteError) × (answer ≡ err e) × (s' ≡ s)) ⊎ Taken now user_id email code s answer s'
unfolding accept_invite add_member
accept_invite-Taken now user_id email code s d =
    elim (result-cases (check_invite now user_id email code s)) [
      | inl (e, refused) ↦
          inl (e, rw (refused, accept_invite) refl, rw (refused, accept_invite) refl)
      | inr ((id, m), passed) ↦
          let checked = check_invite-Checked now user_id email code s id m passed in
          let (invite, here, valid, right, stranger, tenant, user, by, known) = checked in
          let stored = find_by_code_stored code s.invites id invite d here in
          let absent : is_member m.tenant_id m.user_id s ≡ false = rw (tenant, user) stranger in
          let s1 : Tenancy = record s { members = m ∷ s.members } in
          let (counts, kept) =
            increment_counted id invite s1 stored (can_count-Usable now invite valid) in
          inr (
            id,
            m,
            invite,
            checked,
            stored,
            rw (passed, absent, counts, accept_invite) refl,
            rw (passed, absent, counts, accept_invite) refl,
            rw (passed, absent, counts, accept_invite) kept,
          )
    ]
