-- ===== src/Agent/Config/Rollback.antt =====
-- The crash-loop detector over the runs of an agent.
use roomler.Prelude.{
  ℕ, ◌+◌, ◌≤◌, ◌<◌, ◌≡◌, ◌≢◌, refl, Bool, true, false, some, List, [], ◌∷◌, ◌++◌, arith, is_some,
  Text, same_text-≡, same_text_refl, trim_end-append,
}
use roomler.Agent.Config.{
  after_last_run, AgentConfig, start_run, mark_clean_shutdown, record_clean_run_at, derive_ws_url,
  record_crash_at, mark_run_starting, mark_rollback_attempted, should_rollback,
}

-- How a run ends: before the clean-run threshold or by a shutdown before it, or after it was reached.
pub data Ending : Type 0 where
  crashed shut_down promoted : Ending

pub record Run : Type 0 where
  pub version : Text
  pub started_at : ℕ
  pub ending : Ending

abbrev pub crash : Text → ℕ → Run
crash version started_at = record { version = version; started_at = started_at; ending = crashed }

unfoldable pub end_run : Ending → Text → AgentConfig → AgentConfig
unfolding mark_clean_shutdown record_clean_run_at
end_run crashed version cfg = cfg
end_run shut_down version cfg = mark_clean_shutdown cfg
end_run promoted version cfg = record_clean_run_at cfg version

abbrev pub as_number : Bool → ℕ
as_number true = 1
as_number false = 0

-- The number of rollbacks that a sequence of runs starts, and the configuration after it.
unfoldable pub run_all : List Run → AgentConfig → ℕ × AgentConfig
run_all [] cfg = (0, cfg)
run_all (r ∷ rest) cfg =
    let (target, started) = start_run cfg r.version r.started_at in
    let (n, after) = run_all rest (end_run r.ending r.version started) in
    (as_number (is_some target) + n, after)

abbrev is_promoted : Ending → Bool
is_promoted promoted = true
is_promoted _ = false

abbrev is_crashed : Ending → Bool
is_crashed crashed = true
is_crashed _ = false

abbrev pub promotions : List Run → ℕ
promotions [] = 0
promotions (r ∷ rest) = as_number (is_promoted r.ending) + promotions rest

abbrev pub crashes : List Run → ℕ
crashes [] = 0
crashes (r ∷ rest) = as_number (is_crashed r.ending) + crashes rest

module _ (cfg : AgentConfig) (version : Text) (now : ℕ) where
  start_run_once :
      let (target, started) = start_run cfg version now in
      as_number (is_some target) + as_number cfg.rollback_attempted
      ≤ as_number started.rollback_attempted
  unfolding start_run after_last_run should_rollback record_crash_at mark_run_starting
      mark_rollback_attempted
  start_run_once = ground arith

  start_run_counts :
      let (target, started) = start_run cfg version now in
      (started.crash_count ≤ cfg.crash_count + as_number cfg.last_run_unhealthy)
      × (started.crash_count < 3 → is_some target ≡ false)
  unfolding start_run after_last_run should_rollback record_crash_at mark_run_starting
      mark_rollback_attempted
  start_run_counts = ground arith

  target_lem :
      (target : Text)
      → (start_run cfg version now).0 ≡ some target
      → (cfg.last_known_good_version ≡ some target)
        × (target ≢ version)
        × (cfg.rollback_attempted ≡ false)
        × (3 ≤ (start_run cfg version now).1.crash_count)
        × ((start_run cfg version now).1.rollback_attempted ≡ true)
  unfolding start_run after_last_run should_rollback record_crash_at mark_run_starting
      mark_rollback_attempted
  target_lem target e = ground (arith, same_text_refl version)

-- Since the last promotion: the version that was promoted, the crashes and the rollbacks.
pub record Since : Type 0 where
  pub good : Text
  pub crashes : ℕ
  pub rollbacks : ℕ

abbrev pub since : Text → Since
since good = record { good = good; crashes = 0; rollbacks = 0 }

-- What a run, which starts with so many rollbacks, adds.
abbrev pub follow : Ending → Text → ℕ → Since → Since
follow crashed version n h = record h { crashes = h.crashes + 1; rollbacks = h.rollbacks + n }
follow shut_down version n h = record h { rollbacks = h.rollbacks + n }
follow promoted version n h = since version

-- What happened in a sequence of runs, and the configuration after it.
unfoldable pub history : List Run → Since → AgentConfig → Since × AgentConfig
history [] h cfg = (h, cfg)
history (r ∷ rest) h cfg =
    let (target, started) = start_run cfg r.version r.started_at in
    history rest (follow r.ending r.version (as_number (is_some target)) h)
      (end_run r.ending r.version started)

abbrev Tells : Since → AgentConfig → Type 0
Tells h cfg =
    (cfg.last_known_good_version ≡ some h.good)
    × (cfg.crash_count + as_number cfg.last_run_unhealthy ≤ h.crashes)
    × (h.rollbacks ≤ as_number cfg.rollback_attempted)

run-Tells :
    (e : Ending) (version : Text) (now : ℕ) (h : Since) (cfg : AgentConfig)
    → Tells h cfg
    → let (target, started) = start_run cfg version now in
      Tells (follow e version (as_number (is_some target)) h) (end_run e version started)
unfolding start_run after_last_run should_rollback record_crash_at mark_run_starting
    mark_rollback_attempted end_run record_clean_run_at mark_clean_shutdown
run-Tells crashed version now h cfg v = ground (arith, v)
run-Tells shut_down version now h cfg v = ground (arith, v)
run-Tells promoted version now h cfg v = (refl, omega arith, omega arith)

history-Tells :
    (runs : List Run) (h : Since) (cfg : AgentConfig)
    → Tells h cfg
    → Tells (history runs h cfg).0 (history runs h cfg).1
unfolding history
history-Tells [] h cfg v = v
history-Tells (r ∷ rest) h cfg v =
    let (target, started) = start_run cfg r.version r.started_at in
    history-Tells rest (follow r.ending r.version (as_number (is_some target)) h)
      (end_run r.ending r.version started) (run-Tells r.ending r.version r.started_at h cfg v)

-- Whatever runs followed a promotion, in whatever order they crashed, were shut down or were
-- promoted: an agent that rolls back at its next start does so to the version promoted last, which
-- is not the one that starts; at least three runs have crashed since that promotion, and no start
-- since then has rolled back.
pub start_run_target :
    (cfg : AgentConfig) (good version target : Text) (runs : List Run) (now : ℕ)
    → let (h, before) = history runs (since good) (record_clean_run_at cfg good) in
      (start_run before version now).0 ≡ some target
      → (target ≡ h.good) × (target ≢ version) × (3 ≤ h.crashes) × (h.rollbacks ≡ 0)
unfolding record_clean_run_at
start_run_target cfg good version target runs now e =
    let b = (history runs (since good) (record_clean_run_at cfg good)).1 in
    let (same, few, once) =
      history-Tells runs (since good) (record_clean_run_at cfg good)
        (refl, omega arith, omega arith) in
    let (kept, other, first, three, marked) = target_lem b version now target e in
    let counts = start_run_counts b version now in
    (cc (same, kept), other, omega (arith, counts.0, few, three), ground (arith, once, first))

run_all_once :
    (runs : List Run) (cfg : AgentConfig)
    → (run_all runs cfg).0 + as_number cfg.rollback_attempted ≤ 1 + promotions runs
unfolding run_all end_run record_clean_run_at mark_clean_shutdown
run_all_once [] cfg = ground arith
run_all_once (r ∷ rest) cfg = ground (
  arith,
  start_run_once cfg r.version r.started_at,
  run_all_once rest (end_run r.ending r.version (start_run cfg r.version r.started_at).1),
)

-- However often an agent starts and crashes, it rolls back at most once more than runs of it are
-- promoted.
run_all-le : (runs : List Run) (cfg : AgentConfig) → (run_all runs cfg).0 ≤ 1 + promotions runs
run_all-le runs cfg = omega (arith, run_all_once runs cfg)

run_all_quiet :
    (runs : List Run) (cfg : AgentConfig)
    → cfg.crash_count + as_number cfg.last_run_unhealthy + crashes runs < 3
    → (run_all runs cfg).0 ≡ 0
unfolding run_all end_run record_clean_run_at mark_clean_shutdown
run_all_quiet [] cfg few = refl
run_all_quiet (r ∷ rest) cfg few = ground (
  arith,
  start_run_counts cfg r.version r.started_at,
  run_all_quiet rest (end_run r.ending r.version (start_run cfg r.version r.started_at).1),
)

-- From a run that was promoted, runs of which fewer than three crash start no rollback.
run_all_few :
    (runs : List Run) (cfg : AgentConfig) (version : Text)
    → crashes runs < 3
    → (run_all runs (record_clean_run_at cfg version)).0 ≡ 0
unfolding record_clean_run_at
run_all_few runs cfg version few =
    run_all_quiet runs (record_clean_run_at cfg version) (omega (arith, few))

-- After a version was promoted, three runs of another one crash. The second start is after the
-- epoch, and each of the two starts that follow it is no earlier than the one before and at most
-- ten minutes later: the fourth start rolls back to the promoted version, and none of the first
-- three does.
pub run_all-crash_loop :
    (cfg : AgentConfig) (good bad : Text) (t0 t1 t2 t3 : ℕ)
    → good ≢ bad
    → 0 < t1
    → t1 ≤ t2
    → t2 ≤ t1 + 600
    → t2 ≤ t3
    → t3 ≤ t2 + 600
    → let before =
        run_all (crash bad t0 ∷ crash bad t1 ∷ crash bad t2 ∷ []) (record_clean_run_at cfg good) in
      (before.0 ≡ 0) × ((start_run before.1 bad t3).0 ≡ some good)
unfolding run_all end_run record_clean_run_at start_run after_last_run should_rollback
    record_crash_at mark_run_starting mark_rollback_attempted
run_all-crash_loop cfg good bad t0 t1 t2 t3 other h1 h12 h12' h23 h23' =
    ground (arith, same_text-≡ good bad)

-- A slash at the end of the server's address makes no difference to the address of the socket.
derive_ws_url-append : (url : Text) → derive_ws_url (url ++ b'/' ∷ []) ≡ derive_ws_url url
unfolding derive_ws_url
derive_ws_url-append url = rw (trim_end-append _ url b'/' refl) refl
