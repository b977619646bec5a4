-- ===== src/Agent/Watchdog/Stalls.antt =====
-- Which pumps the watchdog reports.
use roomler.Prelude.{
  ℕ, ◌+◌, ◌-◌, ◌*◌, ◌≤◌, ◌<◌, ◌≡◌, ◌⊎◌, ◌↔◌, refl, true, Option, none, some, List, [], ◌∷◌, Map,
  lookup, Distinct, subst, sym, ◌==◌, arith, inl, inr, Option-cases, Bool-cases, ==-refl, ==_iff,
}
use roomler.Agent.Watchdog.{
  PumpState, Watchdog, stall, scan, scan_at, insert_sorted, insert_stall, reset, reset_all,
  run_round,
}

-- The pump is reported with the duration.
abbrev pub Reports : List (ℕ × ℕ) → ℕ → ℕ → Type 0
Reports [] name elapsed = ⊥
Reports ((n, e) ∷ rest) name elapsed = ((n ≡ name) × (e ≡ elapsed)) ⊎ Reports rest name elapsed

Reports-insert_sorted :
    (n e : ℕ) (l : List (ℕ × ℕ)) (name elapsed : ℕ)
    → Reports (insert_sorted n e l) name elapsed ↔ Reports ((n, e) ∷ l) name elapsed
Reports-insert_sorted n e [] name elapsed = (λ r. r, λ r. r)
Reports-insert_sorted n e ((m, d) ∷ l) name elapsed =
    ground (arith, Reports-insert_sorted n e l name elapsed)

scanned_cons :
    (now n : ℕ) (p : PumpState) (m : Map PumpState) (name elapsed : ℕ)
    → Reports (scan now ((n, p) ∷ m)) name elapsed
    → ((n ≡ name) × (stall now p ≡ some elapsed)) ⊎ Reports (scan now m) name elapsed
unfolding scan
scanned_cons now n p m name elapsed r = elim (Option-cases (stall now p)) [
  | inl quiet ↦ inr (subst (λ o. Reports (insert_stall n o (scan now m)) name elapsed) quiet r)
  | inr (e, silent) ↦
      let r' = subst (λ o. Reports (insert_stall n o (scan now m)) name elapsed) silent r in
      elim ((Reports-insert_sorted n e (scan now m) name elapsed).0 r') [
        | inl ((same, lasts)) ↦ inl (same, ground (arith, silent, lasts))
        | inr rest ↦ inr rest
      ]
]

scan_sound :
    (now : ℕ) (m : Map PumpState) (name elapsed : ℕ)
    → Distinct m
    → Reports (scan now m) name elapsed
    → (p : PumpState) × (lookup name m ≡ some p) × (stall now p ≡ some elapsed)
unfolding scan lookup
scan_sound now [] name elapsed d r = absurd r
scan_sound now ((n, p) ∷ m) name elapsed d r = elim (scanned_cons now n p m name elapsed r) [
  | inl ((same, silent)) ↦ (p, ground (arith, same), silent)
  | inr rest ↦
      let (q, e, s) = scan_sound now m name elapsed d.1 rest in
      (q, ground (arith, e, d.0, ==_iff n name), s)
]

insert_stall-Reports :
    (n : ℕ) (o : Option ℕ) (l : List (ℕ × ℕ)) (name elapsed : ℕ)
    → Reports l name elapsed
    → Reports (insert_stall n o l) name elapsed
insert_stall-Reports n none l name elapsed r = r
insert_stall-Reports n (some e) l name elapsed r =
    (Reports-insert_sorted n e l name elapsed).1 (inr r)

scan_complete :
    (now : ℕ) (m : Map PumpState) (name elapsed : ℕ) (p : PumpState)
    → lookup name m ≡ some p
    → stall now p ≡ some elapsed
    → Reports (scan now m) name elapsed
unfolding scan lookup
scan_complete now [] name elapsed p e s = cc
scan_complete now ((n, q) ∷ m) name elapsed p e s = elim (Bool-cases (n == name)) [
  | inl same ↦
      let silent : stall now q ≡ some elapsed =
        subst (λ x. stall now x ≡ some elapsed) (ground (arith, e, same)) s in
      subst (λ o. Reports (insert_stall n o (scan now m)) name elapsed) (sym silent)
        ((Reports-insert_sorted n elapsed (scan now m) name elapsed).1
          (inl (ground (arith, same), refl)))
  | inr other ↦
      insert_stall-Reports n (stall now q) (scan now m) name elapsed
        (scan_complete now m name elapsed p (ground (arith, e, other)) s)
]

-- A scan of pumps of distinct names reports exactly the pumps that are active and silent for
-- longer than their threshold, each with how long it has been silent.
pub scan_at-Reports :
    (now : ℕ) (w : Watchdog) (name elapsed : ℕ)
    → Distinct w.pumps
    → Reports (scan_at now w) name elapsed ↔ (
        (p : PumpState) × (lookup name w.pumps ≡ some p)
        × (p.active ≡ true)
        × (p.threshold < elapsed)
        × (elapsed ≡ now - p.last_tick))
unfolding scan_at
scan_at-Reports now w name elapsed d = (
  λ r.
      let (p, e, s) = scan_sound now w.pumps name elapsed d r in
      (p, e, ground (arith, s), ground (arith, s), ground (arith, s)),
  λ (p, e, on, long, since).
      scan_complete now w.pumps name elapsed p e (ground (arith, on, long, since)),
)

scan-reset :
    (now later least : ℕ) (m : Map PumpState)
    → Distinct m
    → ((name : ℕ) (p : PumpState) → lookup name m ≡ some p → least ≤ p.threshold)
    → later ≤ now + least
    → scan later (reset now m) ≡ []
unfolding scan reset lookup
scan-reset now later least [] d low soon = refl
scan-reset now later least ((n, p) ∷ m) d low soon =
    let rest =
      scan-reset now later least m d.1
        (λ name q e. low name q (ground (arith, e, d.0, ==_iff n name))) soon in
    let enough = low n p (ground (arith, ==-refl n)) in ground (arith, rest, enough, soon)

-- A round over pumps of distinct names that finds the clock more than 65 seconds further than the
-- last one did reports nothing, and neither does a scan until the smallest threshold has passed
-- after it.
run_round_jump :
    (second now later prev : ℕ) (w : Watchdog) (least : ℕ)
    → Distinct w.pumps
    → 65 * second < now - prev
    → ((name : ℕ) (p : PumpState) → lookup name w.pumps ≡ some p → least ≤ p.threshold)
    → later ≤ now + least
    → let (stalled, w', prev') = run_round second now prev w in
      (stalled ≡ []) × (scan_at later w' ≡ [])
unfolding run_round scan_at reset_all
run_round_jump second now later prev w least d jump low soon =
    ground (arith, jump, scan-reset now later least w.pumps d low soon)

-- A round at most 65 seconds after the last one reports a pump that is active and has not ticked
-- for longer than its threshold, with how long that is.
run_round-Reports :
    (second now prev name : ℕ) (w : Watchdog) (p : PumpState)
    → now - prev ≤ 65 * second
    → lookup name w.pumps ≡ some p
    → p.active ≡ true
    → p.threshold < now - p.last_tick
    → Reports (run_round second now prev w).0 name (now - p.last_tick)
unfolding run_round scan_at
run_round-Reports second now prev name w p steady here on silent =
    subst (λ l. Reports l name (now - p.last_tick)) (ground (arith, steady))
      (scan_complete now w.pumps name (now - p.last_tick) p here (ground (arith, on, silent)))
