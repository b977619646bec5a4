-- ===== src/RemoteControl/Hub/Counted.antt =====
-- The agents' counters against the sessions that are live, as laws of the two maps.
use roomler.Prelude.{
  count_where-none, ℕ, ◌≤◌, ◌<◌, ◌≡◌, ◌≢◌, ap, ==_iff, none, some, Map, lookup, lookup-insert,
  lookup-modify, lookup-remove, insert, remove, modify, count_where, count_where-insert,
  count_where-remove, count_where-modify, Distinct, Distinct-insert, Distinct-remove,
  Distinct-modify, arith, Option-cases, inl, inr, ◌==◌, Bool-cases,
}
use roomler.RemoteControl.Models.{ObjectId}
use roomler.RemoteControl.Session.{LiveSession}
use roomler.RemoteControl.Hub.State.{ConnectedAgent}
use roomler.RemoteControl.Hub.Lifecycle.{take_place, free_place}
use roomler.RemoteControl.Hub.Connect.{is_agent}

-- Each connected agent counts its live sessions, and has room for them.
pub record Counted (agents : Map ConnectedAgent) (sessions : Map LiveSession) : Type 0 where
  pub distinct : Distinct sessions
  pub counted :
      (agent_id : ObjectId) (a : ConnectedAgent)
      → lookup agent_id agents ≡ some a
      → a.active_sessions ≡ count_where (is_agent agent_id) sessions
  pub capacity :
      (agent_id : ObjectId) (a : ConnectedAgent)
      → lookup agent_id agents ≡ some a
      → a.active_sessions ≤ a.max_sessions

-- The agent of every live session is connected.
abbrev pub Online : Map ConnectedAgent → Map LiveSession → Type 0
Online agents sessions =
    (session_id : ObjectId) (s : LiveSession)
    → lookup session_id sessions ≡ some s
    → lookup s.agent_id agents ≢ none

module _ {agents : Map ConnectedAgent} {sessions : Map LiveSession}
    (c : Counted agents sessions) where
  -- A session is opened at an agent with room.
  pub Counted-open :
      (id : ObjectId) (s : LiveSession) (a : ConnectedAgent)
      → lookup id sessions ≡ none
      → lookup s.agent_id agents ≡ some a
      → a.active_sessions < a.max_sessions
      → Counted (modify s.agent_id take_place agents) (insert id s sessions)
  Counted-open id s a fresh at room = record {
    distinct = Distinct-insert id s sessions c.distinct;
    counted = λ k b e. elim (Option-cases (lookup k agents)) [
      | inl gone ↦ ground (arith, lookup-modify s.agent_id k take_place agents)
      | inr (d, there) ↦ ground (
        arith,
        lookup-modify s.agent_id k take_place agents,
        c.counted k d there,
        count_where-insert (is_agent k) id s sessions fresh,
      )
    ];
    capacity = λ k b e. elim (Option-cases (lookup k agents)) [
      | inl gone ↦ ground (arith, lookup-modify s.agent_id k take_place agents)
      | inr (d, there) ↦
          ground (arith, lookup-modify s.agent_id k take_place agents, c.capacity k d there)
    ];
  }

  -- A session is closed and its place freed.
  pub Counted-close :
      (id : ObjectId) (s : LiveSession)
      → lookup id sessions ≡ some s
      → Counted (modify s.agent_id free_place agents) (remove id sessions)
  Counted-close id s at = record {
    distinct = Distinct-remove id sessions c.distinct;
    counted = λ k b e. elim (Option-cases (lookup k agents)) [
      | inl gone ↦ ground (arith, lookup-modify s.agent_id k free_place agents)
      | inr (d, there) ↦ ground (
        arith,
        lookup-modify s.agent_id k free_place agents,
        c.counted k d there,
        count_where-remove (is_agent k) id sessions s c.distinct at,
      )
    ];
    capacity = λ k b e. elim (Option-cases (lookup k agents)) [
      | inl gone ↦ ground (arith, lookup-modify s.agent_id k free_place agents)
      | inr (d, there) ↦
          ground (arith, lookup-modify s.agent_id k free_place agents, c.capacity k d there)
    ];
  }

  -- A write to a session leaves it with its agent.
  pub Counted-modify :
      (id : ObjectId) (f : LiveSession → LiveSession)
      → ((s : LiveSession) → (f s).agent_id ≡ s.agent_id)
      → Counted agents (modify id f sessions)
  Counted-modify id f same = record {
    distinct = Distinct-modify id f sessions c.distinct;
    counted = λ k b e. ground (
      arith,
      c.counted k b e,
      count_where-modify (is_agent k) id f sessions (λ s. ap (λ (n : ℕ). n == k) (same s)),
    );
    capacity = c.capacity;
  }

  -- An agent that is not connected connects; no session is left from before.
  pub Counted-register :
      (k : ObjectId) (a : ConnectedAgent)
      → a.active_sessions ≡ 0
      → count_where (is_agent k) sessions ≡ 0
      → Counted (insert k a agents) sessions
  Counted-register k a zero_active none_left = record {
    distinct = c.distinct;
    counted = λ j b e. elim (Bool-cases (k == j)) [
      | inl same ↦
          let p : k ≡ j = (==_iff k j).0 same in
          ground
            (arith, lookup-insert k j a agents, ap (λ (n : ℕ). count_where (is_agent n) sessions) p)
      | inr other ↦ ground (arith, lookup-insert k j a agents, c.counted j b)
    ];
    capacity = λ j b e. ground (arith, lookup-insert k j a agents, c.capacity j b);
  }

  pub Counted-unregister : (k : ObjectId) → Counted (remove k agents) sessions
  Counted-unregister k = record {
    distinct = c.distinct;
    counted = λ j b e. ground (arith, lookup-remove k j agents, c.counted j b);
    capacity = λ j b e. ground (arith, lookup-remove k j agents, c.capacity j b);
  }

module _ (agents : Map ConnectedAgent) (sessions : Map LiveSession)
    (o : Online agents sessions) where
  pub Online-open :
      (id : ObjectId) (s : LiveSession) (a : ConnectedAgent)
      → lookup s.agent_id agents ≡ some a
      → Online (modify s.agent_id take_place agents) (insert id s sessions)
  Online-open id s a at k t e = ground (
    arith,
    lookup-insert id k s sessions,
    o k t,
    lookup-modify s.agent_id t.agent_id take_place agents,
  )

  pub Online-close :
      (id agent_id : ObjectId) → Online (modify agent_id free_place agents) (remove id sessions)
  Online-close id agent_id k t e = ground (
    arith,
    lookup-remove id k sessions,
    o k t,
    lookup-modify agent_id t.agent_id free_place agents,
  )

  pub Online-modify :
      (id : ObjectId) (f : LiveSession → LiveSession)
      → ((s : LiveSession) → (f s).agent_id ≡ s.agent_id)
      → Online agents (modify id f sessions)
  Online-modify id f same k t e = elim (Option-cases (lookup k sessions)) [
    | inl gone ↦ ground (arith, lookup-modify id k f sessions)
    | inr (u, there) ↦ ground (arith, lookup-modify id k f sessions, o k u there, same u)
  ]

  pub Online-register : (k : ObjectId) (a : ConnectedAgent) → Online (insert k a agents) sessions
  Online-register k a j t e = ground (arith, lookup-insert k t.agent_id a agents, o j t e)

  -- No session is left of an agent that is not connected.
  pub none_left :
      (k : ObjectId)
      → lookup k agents ≡ none
      → Distinct sessions
      → count_where (is_agent k) sessions ≡ 0
  none_left k gone d = count_where-none (is_agent k) sessions d λ j t e. ground (arith, o j t e)
