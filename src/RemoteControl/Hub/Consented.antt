-- ===== src/RemoteControl/Hub/Consented.antt =====
-- The sessions against the tasks that wait for consent, as laws of the two maps. `G` says of which
-- sessions the agent's consent has been delivered.
use roomler.Prelude.{
  ◌≡◌, ==_iff, Option, none, some, Map, lookup, lookup-insert, lookup-modify, lookup-remove, insert,
  remove, modify, arith, Option-cases, inl, inr, ◌==◌, Bool, Bool-cases, true, ◌⊎◌, Text,
}
use roomler.RemoteControl.Models.{
  ObjectId, DateTime, SessionPhase, awaiting_consent, negotiating, active,
}
use roomler.RemoteControl.Session.{LiveSession, ConsentSlot, clear_slot, transition}

-- While a session awaits consent its task waits too, and the slot is there until a decision takes
-- it. Past that phase the task is gone and consent was given. No session is pending or closed.
abbrev pub ByPhase :
    Type 0 → ObjectId → SessionPhase → Option ConsentSlot → Option (Option Bool) → Type 0
ByPhase G id awaiting_consent slot channel =
    ((slot ≡ some (record { tx = id })) × (channel ≡ some none))
    ⊎ ((decision : Bool) × (slot ≡ none) × (channel ≡ some (some decision)))
ByPhase G id negotiating slot channel = (slot ≡ none) × (channel ≡ none) × G
ByPhase G id active slot channel = (slot ≡ none) × (channel ≡ none) × G
ByPhase G id _ slot channel = ⊥

abbrev pub Sound : Type 0 → ObjectId → LiveSession → Option (Option Bool) → Type 0
Sound G id s channel = (s.id ≡ id) × ByPhase G id s.phase s.consent_slot channel

pub record Consented (G : ObjectId → Type 0) (sessions : Map LiveSession)
    (channels : Map (Option Bool)) : Type 0 where
  pub sound :
      (id : ObjectId) (s : LiveSession)
      → lookup id sessions ≡ some s
      → Sound (G id) id s (lookup id channels)
  pub honest : (id : ObjectId) → lookup id channels ≡ some (some true) → G id

module _ {G : ObjectId → Type 0} {sessions : Map LiveSession} {channels : Map (Option Bool)}
    (c : Consented G sessions channels) where
  pub Consented-open :
      (id : ObjectId) (s : LiveSession)
      → s.id ≡ id
      → s.phase ≡ awaiting_consent
      → s.consent_slot ≡ some (record { tx = id })
      → Consented G (insert id s sessions) (insert id none channels)
  Consented-open id s i p q = record {
    sound = λ k t e. elim (Bool-cases (id == k)) [
      | inl same ↦
          let w : id ≡ k = (==_iff id k).0 same in
          ground (arith, lookup-insert id k s sessions, lookup-insert id k none channels, w)
      | inr other ↦
          ground
            (arith, lookup-insert id k s sessions, lookup-insert id k none channels, c.sound k t)
    ];
    honest = λ k e. ground (arith, lookup-insert id k none channels, c.honest k);
  }

  -- The session and its task end together, or the task alone if the session is gone.
  pub Consented-drop : (id : ObjectId) → Consented G (remove id sessions) (remove id channels)
  Consented-drop id = record {
    sound = λ k t e.
        ground (arith, lookup-remove id k sessions, lookup-remove id k channels, c.sound k t);
    honest = λ k e. ground (arith, lookup-remove id k channels, c.honest k);
  }

  pub Consented-close : (id : ObjectId) → Consented G (remove id sessions) channels
  Consented-close id = record {
    sound = λ k t e. ground (arith, lookup-remove id k sessions, c.sound k t);
    honest = c.honest;
  }

  module _ (to_hex : ObjectId → Text) (now : DateTime) (id : ObjectId) where
    -- A granted decision reaches the task.
    pub Consented-grant :
        lookup id channels ≡ some (some true)
        → Consented G
            (modify id (λ t. (transition to_hex now negotiating t).1) sessions)
            (remove id channels)
    unfolding transition
    Consented-grant decided = record {
      sound = λ k t e. elim (Option-cases (lookup k sessions)) [
        | inl gone ↦
            ground
              (arith, lookup-modify id k (λ t. (transition to_hex now negotiating t).1) sessions)
        | inr (u, there) ↦ elim (Bool-cases (id == k)) [
          | inl same ↦
              let w : id ≡ k = (==_iff id k).0 same in
              ground (
                arith,
                w,
                lookup-remove id k channels,
                c.sound k u there,
                c.honest k,
                lookup-modify id k (λ t. (transition to_hex now negotiating t).1) sessions,
              )
          | inr other ↦ ground (
            arith,
            lookup-remove id k channels,
            c.sound k u there,
            lookup-modify id k (λ t. (transition to_hex now negotiating t).1) sessions,
          )
        ]
      ];
      honest = λ k e. ground (arith, lookup-remove id k channels, c.honest k);
    }

    -- The agent's answer makes a negotiating session active, and no other.
    pub Consented-answer :
        Consented G (modify id (λ t. (transition to_hex now active t).1) sessions) channels
    unfolding transition
    Consented-answer = record {
      sound = λ k t e. elim (Option-cases (lookup k sessions)) [
        | inl gone ↦
            ground (arith, lookup-modify id k (λ t. (transition to_hex now active t).1) sessions)
        | inr (u, there) ↦ ground (
          arith,
          c.sound k u there,
          lookup-modify id k (λ t. (transition to_hex now active t).1) sessions,
        )
      ];
      honest = c.honest;
    }

-- A decision takes the slot and is sent to the task.
pub Consented-decide :
    {G G' : ObjectId → Type 0} {sessions : Map LiveSession} {channels : Map (Option Bool)}
    (c : Consented G sessions channels) (grow : (k : ObjectId) → G k → G' k) (id : ObjectId)
    (decision : Bool) (s : LiveSession) (slot : ConsentSlot)
    → lookup id sessions ≡ some s
    → s.consent_slot ≡ some slot
    → (decision ≡ true → G' id)
    → Consented G' (modify id clear_slot sessions) (insert slot.tx (some decision) channels)
Consented-decide {sessions} {channels} c grow id decision s slot at taken given = record {
  sound = λ k t e. elim (Option-cases (lookup k sessions)) [
    | inl gone ↦ ground (arith, lookup-modify id k clear_slot sessions)
    | inr (u, there) ↦ elim (Bool-cases (id == k)) [
      | inl same ↦
          let w : id ≡ k = (==_iff id k).0 same in
          ground (
            arith,
            w,
            c.sound id s at,
            grow k,
            lookup-insert slot.tx k (some decision) channels,
            lookup-modify id k clear_slot sessions,
          )
      | inr other ↦ ground (
        arith,
        c.sound id s at,
        c.sound k u there,
        grow k,
        lookup-insert slot.tx k (some decision) channels,
        lookup-modify id k clear_slot sessions,
      )
    ]
  ];
  honest = λ k e. ground (
    arith,
    c.sound id s at,
    c.honest k,
    grow k,
    lookup-insert slot.tx k (some decision) channels,
  );
}

pub Consented-mono :
    {G G' : ObjectId → Type 0} {sessions : Map LiveSession} {channels : Map (Option Bool)}
    → ((k : ObjectId) → G k → G' k)
    → Consented G sessions channels
    → Consented G' sessions channels
Consented-mono grow c = record {
  sound = λ k s e. ground (arith, c.sound k s e, grow k);
  honest = λ k e. grow k (c.honest k e);
}

-- A slot that a decision has taken is not there to be taken again.
pub Consented-clear :
    {G : ObjectId → Type 0} {sessions : Map LiveSession} {channels : Map (Option Bool)}
    (c : Consented G sessions channels) (id : ObjectId) (s : LiveSession)
    → lookup id sessions ≡ some s
    → s.consent_slot ≡ none
    → Consented G (modify id clear_slot sessions) channels
Consented-clear {sessions} {channels} c id s at taken = record {
  sound = λ k t e. elim (Option-cases (lookup k sessions)) [
    | inl gone ↦ ground (arith, lookup-modify id k clear_slot sessions)
    | inr (u, there) ↦ elim (Bool-cases (id == k)) [
      | inl same ↦
          let w : id ≡ k = (==_iff id k).0 same in
          ground (arith, w, c.sound id s at, lookup-modify id k clear_slot sessions)
      | inr other ↦ ground (arith, c.sound k u there, lookup-modify id k clear_slot sessions)
    ]
  ];
  honest = c.honest;
}
