-- ===== src/Invites/Writes.antt =====
-- Single writes to the invites and the members keep every invite within its limit.
use roomler.Prelude.{
  ℕ, ◌≤◌, ◌≡◌, true, some, Text, lookup, modify, arith, Option-cases, Bool-cases, inl, inr,
  lookup-insert, lookup-modify, ◌==◌, subst,
}
use roomler.Invites.{
  add_member, ObjectId, Invite, TenantMember, Tenancy, CreateInviteParams, is_used_up, count_use,
  exhaust, can_count, increment_use_count, revoke, is_member, create_invite, new_invite,
}

-- No invite is used more often than it may be, and one for an address once.
abbrev pub Bounded : Invite → Type 0
Bounded i =
    ((max : ℕ) → i.max_uses ≡ some max → i.use_count ≤ max)
    × ((email : Text) → i.target_email ≡ some email → i.max_uses ≡ some 1)

abbrev pub AllBounded : Tenancy → Type 0
AllBounded s = (id : ObjectId) (i : Invite) → lookup id s.invites ≡ some i → Bounded i

pub modified-AllBounded :
    (id : ObjectId) (f : Invite → Invite) (s : Tenancy)
    → ((i : Invite) → lookup id s.invites ≡ some i → Bounded i → Bounded (f i))
    → AllBounded s
    → AllBounded (record s { invites = modify id f s.invites })
modified-AllBounded id f s keeps b j i e = elim (Option-cases (lookup j s.invites)) [
  | inl gone ↦ absurd (ground (arith, gone, e, lookup-modify id j f s.invites))
  | inr (q, here) ↦ elim (Bool-cases (id == j)) [
    | inl same ↦
        let same' : id ≡ j = ground (arith, same) in
        let new : f q ≡ i = ground (arith, here, same, e, lookup-modify id j f s.invites) in
        subst Bounded new (keeps q (rw (same') here) (b j q here))
    | inr other ↦
        let old : q ≡ i = ground (arith, here, other, e, lookup-modify id j f s.invites) in
        subst Bounded old (b j q here)
  ]
]

exhaust-Bounded : (i : Invite) → Bounded i → Bounded (exhaust i)
exhaust-Bounded i b = elim (Bool-cases (is_used_up i.max_uses i.use_count)) [
  | inl used ↦ rw (used) b
  | inr unused ↦ rw (unused) b
]

count_use-Bounded : (i : Invite) → can_count i ≡ true → Bounded i → Bounded (count_use i)
count_use-Bounded i can (b, one) = (λ max e. ground (arith, can, e), one)

new_invite-Bounded :
    (now : ℕ) (code : Text) (t u : ObjectId) (params : CreateInviteParams)
    → Bounded (new_invite now code t u params)
new_invite-Bounded now code t u params = (λ max e. omega arith, λ email e. ground (arith, e))

pub increment-AllBounded :
    (id : ObjectId) (s : Tenancy) → AllBounded s → AllBounded (increment_use_count id s).1
unfolding increment_use_count
increment-AllBounded id s b = elim (Option-cases (lookup id s.invites)) [
  | inl gone ↦ rw (gone, increment_use_count) b
  | inr (i, here) ↦ elim (Bool-cases (can_count i)) [
    | inr no_use ↦ rw (here, no_use, increment_use_count) b
    | inl can ↦
        rw (here, can, increment_use_count)
          (modified-AllBounded id (λ x. exhaust (count_use x)) s
            (λ q e bq.
              let same : i ≡ q = ground (arith, here, e) in
              exhaust-Bounded (count_use q)
                (count_use-Bounded q (subst (λ x. can_count x ≡ true) same can) bq))
            b)
  ]
]

pub create_invite-AllBounded :
    (now id : ℕ) (code : Text) (t u : ObjectId) (params : CreateInviteParams) (s : Tenancy)
    → AllBounded s
    → AllBounded (create_invite now id code t u params s)
unfolding create_invite
create_invite-AllBounded now id code t u params s b = λ j i e. elim (Bool-cases (id == j)) [
  | inl same ↦
      let new : new_invite now code t u params ≡ i =
        ground (arith, same, e, lookup-insert id j (new_invite now code t u params) s.invites) in
      subst Bounded new (new_invite-Bounded now code t u params)
  | inr other ↦
      b j i
        (ground (arith, other, e, lookup-insert id j (new_invite now code t u params) s.invites))
]

pub add_member-AllBounded :
    (m : TenantMember) (s : Tenancy) → AllBounded s → AllBounded (add_member m s).1
unfolding add_member
add_member-AllBounded m s b = elim (Bool-cases (is_member m.tenant_id m.user_id s)) [
  | inl taken ↦ rw (taken, add_member) b
  | inr free ↦ rw (free, add_member) b
]

pub revoke-AllBounded : (id t : ObjectId) (s : Tenancy) → AllBounded s → AllBounded (revoke id t s)
unfolding revoke
revoke-AllBounded id t s b =
    modified-AllBounded id _ s
      (λ i here bi. elim (Bool-cases (i.tenant_id == t)) [
        | inl own ↦ rw (own) bi
        | inr foreign ↦ rw (foreign) bi
      ])
      b
