-- ===== src/Agent/Watchdog.antt =====
-- agents/roomler-agent/src/watchdog.rs: pumps that must tick, and the loop that finds the stalled
-- ones. A pump's name is a number in the order of the names; an instant and a duration are numbers of
-- one unit, of which `second` many make a second.
use roomler.Prelude.{
  ℕ, ◌+◌, ◌-◌, ◌*◌, ◌%◌, Bool, true, false, not, ◌&&◌, Option, none, some, List, [], ◌∷◌, Map,
  lookup, insert, modify, ltb, leb, if◌then◌else◌,
}
pub mod Stalls

pub record PumpState : Type 0 where
  pub last_tick : ℕ
  pub active : Bool
  pub threshold : ℕ

pub record Watchdog : Type 0 where
  pub pumps : Map PumpState
  pub own_heartbeat : ℕ

abbrev pub new : Watchdog
new = record { pumps = []; own_heartbeat = 0 }

unfoldable pub register : ℕ → ℕ → Bool → ℕ → Watchdog → Watchdog
register name threshold active now w = record w {
  pumps = insert name (record { last_tick = now; active = active; threshold = threshold }) w.pumps;
}

unfoldable pub tick : ℕ → ℕ → Watchdog → Watchdog
tick name now w = record w { pumps = modify name (λ p. record p { last_tick = now }) w.pumps }

abbrev pub gated : Bool → ℕ → PumpState → PumpState
gated active now p = record p {
  last_tick = if active && not p.active then now else p.last_tick;
  active = active;
}

unfoldable pub gate : ℕ → Bool → ℕ → Watchdog → Watchdog
gate name active now w = record w { pumps = modify name (gated active now) w.pumps }

-- How long an active pump that is past its threshold has been silent; `now - p.last_tick` stops at
-- zero, as `saturating_duration_since` does.
abbrev pub stall : ℕ → PumpState → Option ℕ
stall now p =
    if p.active && ltb p.threshold (now - p.last_tick) then some (now - p.last_tick) else none

abbrev pub insert_sorted : ℕ → ℕ → List (ℕ × ℕ) → List (ℕ × ℕ)
insert_sorted name elapsed [] = (name, elapsed) ∷ []
insert_sorted name elapsed ((n, e) ∷ rest) =
    if leb name n then (name, elapsed) ∷ (n, e) ∷ rest else (n, e) ∷ insert_sorted name elapsed rest

abbrev pub insert_stall : ℕ → Option ℕ → List (ℕ × ℕ) → List (ℕ × ℕ)
insert_stall name none rest = rest
insert_stall name (some elapsed) rest = insert_sorted name elapsed rest

unfoldable pub scan : ℕ → Map PumpState → List (ℕ × ℕ)
scan now [] = []
scan now ((name, p) ∷ m) = insert_stall name (stall now p) (scan now m)

unfoldable pub scan_at : ℕ → Watchdog → List (ℕ × ℕ)
unfolding scan
scan_at now w = scan now w.pumps

unfoldable pub reset : ℕ → Map PumpState → Map PumpState
reset now [] = []
reset now ((name, p) ∷ m) = (name, record p { last_tick = now }) ∷ reset now m

unfoldable pub reset_all : ℕ → Watchdog → Watchdog
unfolding reset
reset_all now w = record w { pumps = reset now w.pumps }

-- One round of `run` after its sleep: what is handed to `on_stall`, the watchdog, and the instant that
-- the next round measures from.
unfoldable pub run_round : ℕ → ℕ → ℕ → Watchdog → List (ℕ × ℕ) × Watchdog × ℕ
unfolding scan_at reset_all
run_round second now prev w =
    let beaten = record w { own_heartbeat = (w.own_heartbeat + 1) % 18446744073709551616 } in
    if ltb (5 * second + 60 * second) (now - prev)
    then ([], reset_all now beaten, now)
    else (scan_at now beaten, beaten, now)

-- One round of the thread that watches the watchdog: whether it exits the process, and the count and
-- the instant that it keeps.
unfoldable pub thread_round : ℕ → ℕ → ℕ → ℕ × ℕ → Bool × ℕ × ℕ
thread_round second now_count now_at (prev_count, prev_at) =
    if leb now_count prev_count && leb prev_count now_count
    then (ltb (60 * second) (now_at - prev_at), prev_count, prev_at)
    else (false, now_count, now_at)
