-- ===== src/Invites/Outcome.antt =====
-- What accepting an invite comes to.
use roomler.Prelude.{
  ◌==◌, ◌&&◌, Option-cases, Bool-cases, Distinct, ℕ, ◌+◌, ◌≤◌, ◌<◌, ◌≡◌, ◌≢◌, ◌⊎◌, refl, sym, ap,
  ◌∙◌, true, false, Option, none, some, List, [], ◌∷◌, Text, text, Map, lookup, any, arith, inl,
  inr, same_text-≡,
}
use mathlib.Core.List.{Memᴰ}
use roomler.Invites.{
  is_member, err, same_text, leb, InviteError, count_use, accept_invite, roles_or_member,
  get_role_by_name, find_by_code, exhaust, active, expired, revoked, exhausted, InviteStatus,
  is_active, is_past, is_used_up, ObjectId, Invite, InviteResult, TenantMember, Role, Tenancy, ok,
  is_row, is_for,
}
use roomler.Invites.Accept.{find_by_code_stored, accept_invite-Taken, Usable}

-- An invite that can still be used: active, before its deadline (an `i64` that is not negative), and
-- below its limit.
abbrev pub IsOpen : ℕ → Invite → Type 0
IsOpen now i =
    (i.status ≡ active)
    × ((i.expires_at ≡ none)
        ⊎ ((deadline : ℕ) × (i.expires_at ≡ some deadline)
            × (now ≤ deadline)
            × (deadline < 9223372036854775808)))
    × ((i.max_uses ≡ none) ⊎ ((max : ℕ) × (i.max_uses ≡ some max) × (i.use_count < max)))

-- The roles that the invite names, or the tenant's role member where it names none.
abbrev pub Grants : Invite → Map Role → List ObjectId → Type 0
Grants i roles granted =
    ((i.assign_role_ids ≢ []) × (granted ≡ i.assign_role_ids))
    ⊎ ((i.assign_role_ids ≡ [])
        × ((id : ObjectId) × (r : Role) × Memᴰ {A = ObjectId × Role} (id, r) roles
            × (r.tenant_id ≡ i.tenant_id)
            × (r.name ≡ text "member")
            × (granted ≡ id ∷ [])))

-- A use is counted, and the invite is exhausted if and only if it is the last.
abbrev pub IsUsedOnce : Invite → Invite → Type 0
IsUsedOnce i j =
    ((i.max_uses ≡ some (i.use_count + 1))
      × (j ≡ record i { use_count = i.use_count + 1; status = exhausted }))
    ⊎ ((i.max_uses ≢ some (i.use_count + 1)) × (j ≡ record i { use_count = i.use_count + 1 }))

abbrev pub Accepted : ℕ → ObjectId → Text → Text → Tenancy → InviteResult Invite → Tenancy → Type 0
Accepted now user_id email code s answer s' =
    (id : ObjectId) × (i : Invite) × (j : Invite) × (granted : List ObjectId) × (lookup id s.invites
      ≡ some i)
    × (i.code ≡ code)
    × IsOpen now i
    × ((i.target_email ≡ none) ⊎ (i.target_email ≡ some email))
    × ((m : TenantMember) → Memᴰ m s.members → m.tenant_id ≡ i.tenant_id → m.user_id ≡ user_id → ⊥)
    × Grants i s.roles granted
    × (s'.members
        ≡ record {
          tenant_id = i.tenant_id;
          user_id = user_id;
          role_ids = granted;
          invited_by = some i.inviter_id;
        }
          ∷ s.members)
    × (lookup id s'.invites ≡ some j)
    × IsUsedOnce i j
    × (answer ≡ ok (record i { use_count = i.use_count + 1 }))

active_lem : (status : InviteStatus) → is_active status ≡ true → status ≡ active
active_lem active h = refl
active_lem expired h = cc
active_lem revoked h = cc
active_lem exhausted h = cc

unpast_lem :
    (now : ℕ) (o : Option ℕ)
    → is_past now o ≡ false
    → (o ≡ none) ⊎ ((d : ℕ) × (o ≡ some d) × (now ≤ d) × (d < 9223372036854775808))
unpast_lem now none h = inl refl
unpast_lem now (some d) h = inr (d, refl, ground (arith, h), ground (arith, h))

unused_lem :
    (o : Option ℕ) (n : ℕ)
    → is_used_up o n ≡ false
    → (o ≡ none) ⊎ ((max : ℕ) × (o ≡ some max) × (n < max))
unused_lem none n h = inl refl
unused_lem (some max) n h = inr (max, refl, ground (arith, h))

Usable-IsOpen : (now : ℕ) (i : Invite) → Usable now i → IsOpen now i
Usable-IsOpen now i (a, p, u) =
    (active_lem i.status a, unpast_lem now i.expires_at p, unused_lem i.max_uses i.use_count u)

is_for_lem :
    (target : Option Text) (email : Text)
    → is_for target email ≡ true
    → (target ≡ none) ⊎ (target ≡ some email)
is_for_lem none email h = inl refl
is_for_lem (some t) email h = inr (ap some (same_text-≡ t email h))

no_row :
    (t u : ObjectId) (members : List TenantMember) (m : TenantMember)
    → any (is_row t u) members ≡ false
    → Memᴰ m members
    → m.tenant_id ≡ t
    → m.user_id ≡ u
    → ⊥
no_row t u [] m h mem a b = elim mem [ ]
no_row t u (x ∷ rest) m h (Memᴰ.head e) a b =
    let a' : x.tenant_id ≡ t = ap (λ y. y.tenant_id) (sym e) ∙ a in
    let b' : x.user_id ≡ u = ap (λ y. y.user_id) (sym e) ∙ b in absurd (ground (arith, h, a', b'))
no_row t u (x ∷ rest) m h (Memᴰ.tail mem) a b = no_row t u rest m (ground (arith, h)) mem a b

member_role :
    (t : ObjectId) (name : Text) (roles : Map Role) (id : ObjectId)
    → get_role_by_name t name roles ≡ some id
    → (r : Role) × Memᴰ {A = ObjectId × Role} (id, r) roles × (r.tenant_id ≡ t) × (r.name ≡ name)
member_role t name [] id h = cc
member_role t name ((j, r) ∷ rest) id h =
    elim (Bool-cases (r.tenant_id == t && same_text r.name name)) [
      | inl here ↦
          let same : id ≡ j = ground (arith, h, here) in
          (
            r,
            Memᴰ.head (ap (λ x. (x, r)) same),
            ground (arith, here),
            same_text-≡ r.name name (ground (arith, here)),
          )
      | inr other ↦
          let (q, m, a, b) = member_role t name rest id (ground (arith, h, other)) in
          (q, Memᴰ.tail m, a, b)
    ]

not_nil : (x : ObjectId) (l : List ObjectId) → x ∷ l ≢ []
not_nil x l e = cc (e)

roles-Grants :
    (i : Invite) (roles : Map Role) (assigned granted : List ObjectId)
    → i.assign_role_ids ≡ assigned
    → roles_or_member i.tenant_id assigned roles ≡ some granted
    → Grants i roles granted
roles-Grants i roles (x ∷ l) granted e h = inl (rw (e) (not_nil x l), rw (e) (cc (h)))
roles-Grants i roles [] granted e h =
    elim (Option-cases (get_role_by_name i.tenant_id (text "member") roles)) [
      | inl gone ↦ absurd (ground (arith, gone, h))
      | inr (id, found) ↦
          let (r, m, t, n) = member_role i.tenant_id (text "member") roles id found in
          inr (e, (id, r, m, t, n, ground (arith, found, h)))
    ]

found_code :
    (code : Text) (invites : Map Invite) (id : ObjectId) (i : Invite)
    → find_by_code code invites ≡ some (id, i)
    → i.code ≡ code
found_code code [] id i h = cc
found_code code ((j, q) ∷ rest) id i h = elim (Bool-cases (same_text q.code code)) [
  | inl here ↦
      let first : ObjectId × Invite = (j, q) in
      let wanted : ObjectId × Invite = (id, i) in
      let e : some first ≡ some wanted = rw (sym h, here) refl in
      let pair : first ≡ wanted = cc (e) in
      ap (λ p. p.1.code) (sym pair) ∙ same_text-≡ q.code code here
  | inr other ↦ found_code code rest id i (ground (arith, h, other))
]

exhaust-IsUsedOnce :
    (i : Invite) (o : Option ℕ)
    → i.max_uses ≡ o
    → (o ≡ none) ⊎ ((max : ℕ) × (o ≡ some max) × (i.use_count < max))
    → IsUsedOnce i (exhaust (count_use i))
exhaust-IsUsedOnce i none e u = inr (rw (e) (λ h. cc (h)), rw (e) refl)
exhaust-IsUsedOnce i (some max) e u = elim (Bool-cases (leb max (i.use_count + 1))) [
  | inl last ↦
      let m : max ≡ i.use_count + 1 = ground (arith, u, last) in
      inl (rw (e, m) refl, simp (e, last) refl)
  | inr more ↦ inr (rw (e) (λ h. ground (arith, h, more)), simp (e, more) refl)
]

-- Where no two invites have one identifier: a request to accept an invite, alone, is refused and
-- changes nothing; or the code is that of an invite that is active, not past its deadline, below
-- its limit and for everybody or that address, the user had no row in its tenant and gets one,
-- with the roles that the invite names or the tenant's role member, the use is counted, which
-- exhausts the invite if and only if it reaches its limit, and the answer is the invite with that
-- count.
pub accept_invite_outcome :
    (now user_id : ℕ) (email code : Text) (s : Tenancy)
    → Distinct s.invites
    → let (answer, s') = accept_invite now user_id email code s in
      ((e : InviteError) × (answer ≡ err e) × (s' ≡ s))
      ⊎ Accepted now user_id email code s answer s'
unfolding is_member
accept_invite_outcome now user_id email code s d =
    elim (accept_invite-Taken now user_id email code s d) [
      | inl refused ↦ inl refused
      | inr
            (
              id,
              m,
              i0,
              (i, here, valid, right, stranger, tenant, user, by, known),
              stored,
              answered,
              joined,
              left,
            ) ↦
          let stored' = find_by_code_stored code s.invites id i d here in
          let same0 : some i0 ≡ some i = sym stored ∙ stored' in
          let same : i0 ≡ i = cc (same0) in
          let row : m ≡ record {
            tenant_id = i.tenant_id;
            user_id = user_id;
            role_ids = m.role_ids;
            invited_by = some i.inviter_id;
          } =
            λ k. record {
              tenant_id = tenant k;
              user_id = user k;
              role_ids = m.role_ids;
              invited_by = by k;
            } in
          inr (
            id,
            i,
            exhaust (count_use i),
            m.role_ids,
            stored',
            found_code code s.invites id i here,
            Usable-IsOpen now i valid,
            is_for_lem i.target_email email right,
            λ q mem a b. no_row i.tenant_id user_id s.members q stranger mem a b,
            roles-Grants i s.roles i.assign_role_ids m.role_ids refl known,
            joined ∙ ap (λ x. x ∷ s.members) row,
            left ∙ ap (λ x. some (exhaust (count_use x))) same,
            exhaust-IsUsedOnce i i.max_uses refl (unused_lem i.max_uses i.use_count valid.2),
            answered ∙ ap (λ x. ok (count_use x)) same,
          )
    ]
