-- ===== src/Agent/Signaling/Retries.antt =====
-- How long the agent waits between attempts, and when it asks for attention.
use roomler.Prelude.{
  length, ℕ, zero, suc, ◌+◌, ◌*◌, ◌≡◌, refl, true, false, Option, none, some, List, [], ◌∷◌, All,
  leb, arith, Bool-cases, inl, inr,
}
use roomler.RemoteControl.Models.{AgentCaps}
use roomler.RemoteControl.Signaling.{ClientMsg}
use roomler.Agent.Updater.{u32_max}
use roomler.Agent.Signaling.{Conn, ConnectResult, clean, auth_rejected, transient}
use roomler.Agent.Signaling.Loop.{
  Attempt, Retry, start, min, settle, run, auth_backoff_for, connect_once, returns, after, fresh,
  slept, refused,
}

-- The rejections, and the transient failures, since the last clean close.
abbrev pub rejections : List ConnectResult → ℕ
rejections [] = 0
rejections (clean ∷ rest) = 0
rejections (auth_rejected ∷ rest) = suc (rejections rest)
rejections (transient cause ∷ rest) = rejections rest

abbrev pub failures : List ConnectResult → ℕ
failures [] = 0
failures (clean ∷ rest) = 0
failures (auth_rejected ∷ rest) = failures rest
failures (transient cause ∷ rest) = suc (failures rest)

abbrev pub doubled : ℕ → ℕ
doubled zero = 1
doubled (suc n) = doubled n * 2

-- The ladder of waits after so many rejections.
abbrev pub ladder : ℕ → ℕ
ladder zero = 30
ladder (suc zero) = 30
ladder (suc (suc zero)) = 60
ladder (suc (suc (suc zero))) = 300
ladder (suc (suc (suc (suc n)))) = 3600

-- What was waited for each outcome.
abbrev pub waits_for : List ConnectResult → List ℕ
waits_for [] = []
waits_for (clean ∷ rest) = waits_for rest
waits_for (auth_rejected ∷ rest) = ladder (rejections (auth_rejected ∷ rest)) ∷ waits_for rest
waits_for (transient cause ∷ rest) = min (doubled (failures rest)) 60 ∷ waits_for rest

-- The state is what the outcomes call for.
abbrev pub IsCalledFor : Retry → Type 0
IsCalledFor s =
    (s.backoff ≡ min (doubled (failures s.outcomes)) 60)
    × (s.auth_failures ≡ min (rejections s.outcomes) u32_max)
    × (s.attention ≡ leb 3 (rejections s.outcomes))
    × (s.waits ≡ waits_for s.outcomes)

auth_backoff_for-ladder : (n : ℕ) → auth_backoff_for (min n u32_max) ≡ ladder n
unfolding auth_backoff_for
auth_backoff_for-ladder zero = refl
auth_backoff_for-ladder (suc zero) = refl
auth_backoff_for-ladder (suc (suc zero)) = refl
auth_backoff_for-ladder (suc (suc (suc zero))) = refl
auth_backoff_for-ladder (suc (suc (suc (suc n)))) = ground arith

counts_on : (n : ℕ) → min (min n u32_max + 1) u32_max ≡ min (suc n) u32_max
counts_on n = ground arith

settle-IsCalledFor : (r : ConnectResult) (s : Retry) → IsCalledFor s → IsCalledFor (settle r true s)
unfolding settle
settle-IsCalledFor clean s (b, f, a, w) = (refl, refl, ground (arith, a, f), w)
settle-IsCalledFor auth_rejected s (b, f, a, w) =
    let n = rejections s.outcomes in
    let f' : min (s.auth_failures + 1) u32_max ≡ min (suc n) u32_max = rw (f) (counts_on n) in
    (b, f', rw (f', a) (ground arith), rw (f', w, auth_backoff_for-ladder (suc n)) refl)
settle-IsCalledFor (transient cause) s (b, f, a, w) = (rw (b) (ground arith), f, a, rw (b, w) refl)

abbrev pub CanWrite : Attempt → Type 0
CanWrite a = a.written ≡ true

after-IsCalledFor :
    (a : Attempt) (o : Option ConnectResult × Conn) (s : Retry) (next : Retry → Retry × Conn)
    → CanWrite a
    → IsCalledFor s
    → ((s' : Retry) → IsCalledFor s' → IsCalledFor (next s').0)
    → IsCalledFor (after a o s next).0
after-IsCalledFor a (none, c) s next can i go = i
after-IsCalledFor a (some r, c) s next can i go =
    let settled : IsCalledFor (settle r a.written s) = rw (can) (settle-IsCalledFor r s i) in
    elim (Bool-cases (returns r a.pause)) [
      | inl ends ↦ rw (ends) settled
      | inr on ↦ rw (on) (go (settle r a.written s) settled)
    ]

goes_on :
    (caps : AgentCaps) (hello : ClientMsg) (attempts : List Attempt) (s : Retry) (c : Conn)
    → All CanWrite attempts
    → IsCalledFor s
    → IsCalledFor (run caps hello attempts s c).0
unfolding run
goes_on caps hello [] s c can i = i
goes_on caps hello (a ∷ rest) s c can i =
    let o = connect_once caps hello a a.upgrade c in
    let next : Retry → Retry × Conn = λ s'. run caps hello rest s' o.1 in
    elim (Bool-cases a.signalled) [
      | inl stops ↦ rw (stops) i
      | inr on ↦
          rw (on)
            (after-IsCalledFor a o s next can.0 i (λ s' k. goes_on caps hello rest s' o.1 can.1 k))
    ]

-- However the attempts go, on a host without the sentinel that can write it: the sentinel is there
-- if and only if the server has rejected the token three times or more since the last clean close,
-- whatever else failed between; the wait after a rejection is the ladder's for their number; and
-- the wait after another failure is one second, doubled for each such failure since the last clean
-- close, up to a minute.
pub run-IsCalledFor :
    (caps : AgentCaps) (hello : ClientMsg) (attempts : List Attempt) (c : Conn)
    → All CanWrite attempts
    → IsCalledFor (run caps hello attempts (start false) c).0
run-IsCalledFor caps hello attempts c can =
    goes_on caps hello attempts (start false) c can (refl, refl, refl, refl)

-- The server answers 401, and nothing stops the agent.
abbrev pub IsRejected : Attempt → Type 0
IsRejected a = CanWrite a × (a.signalled ≡ false) × (a.pause ≡ slept) × (a.upgrade ≡ refused 401)

can_write : (attempts : List Attempt) → All IsRejected attempts → All CanWrite attempts
can_write [] h = tt
can_write (a ∷ rest) h = (h.0.0, can_write rest h.1)

counted :
    (caps : AgentCaps) (hello : ClientMsg) (attempts : List Attempt) (s : Retry) (c : Conn)
    → All IsRejected attempts
    → let s' = (run caps hello attempts s c).0 in
      (rejections s'.outcomes ≡ length attempts + rejections s.outcomes)
      × (length s'.waits ≡ length attempts + length s.waits)
unfolding run connect_once settle
counted caps hello [] s c h = (omega arith, omega arith)
counted caps hello (a ∷ rest) s c ((can, on, sleeps, refuses), h) =
    let s' = settle auth_rejected a.written s in
    let (n, w) = counted caps hello rest s' (fresh c) h in
    rw (on, sleeps, refuses) (omega (arith, n), omega (arith, w))

-- An agent whose token the server rejects at every attempt goes on: it waits after each one,
-- counts them, as far as its counter goes, and asks for attention from the third one on.
pub run-rejected :
    (caps : AgentCaps) (hello : ClientMsg) (attempts : List Attempt) (c : Conn)
    → All IsRejected attempts
    → let s = (run caps hello attempts (start false) c).0 in
      (length s.waits ≡ length attempts)
      × (s.auth_failures ≡ min (length attempts) u32_max)
      × (s.attention ≡ leb 3 (length attempts))
run-rejected caps hello attempts c h =
    let (b, f, a, w) = run-IsCalledFor caps hello attempts c (can_write attempts h) in
    let (n, m) = counted caps hello attempts (start false) c h in
    let all : rejections (run caps hello attempts (start false) c).0.outcomes ≡ length attempts =
      omega (arith, n) in
    (omega (arith, m), rw (f, all) refl, rw (a, all) refl)
