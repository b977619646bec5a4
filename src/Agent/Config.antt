-- ===== src/Agent/Config.antt =====
-- agents/roomler-agent/src/config.rs, and the bookkeeping of main.rs at the start and the end of a
-- run: the agent's configuration and its crash-loop detector.
use roomler.Prelude.{
  ℕ, ◌+◌, ◌-◌, ◌^◌, Bool, true, false, ◌&&◌, Option, none, some, List, [], ◌∷◌, ◌++◌, ltb, leb,
  ◌==◌, if◌then◌else◌, Text, text, same_text, trim_end, strip_prefix,
}
pub mod Rollback

pub data EncoderPreferenceChoice : Type 0 where
  automatic hardware software : EncoderPreferenceChoice

pub record AgentConfig : Type 0 where
  pub server_url : Text
  pub ws_url : Option Text
  pub agent_token : Text
  pub agent_id : Text
  pub tenant_id : Text
  pub machine_id : Text
  pub machine_name : Text
  pub encoder_preference : EncoderPreferenceChoice
  pub update_check_interval_h : Option ℕ
  pub last_known_good_version : Option Text
  pub crash_count : ℕ
  pub last_crash_unix : ℕ
  pub rollback_attempted : Bool
  pub last_run_unhealthy : Bool

abbrev pub crash_window_secs : ℕ
crash_window_secs = 600

abbrev pub rollback_threshold_crashes : ℕ
rollback_threshold_crashes = 3

-- `u32::MAX`.
abbrev pub max_u32 : ℕ
max_u32 = 4294967295

abbrev is_slash : ℕ → Bool
is_slash c = c == b'/'

abbrev with_scheme : Text → Option Text → Text → Text
with_scheme scheme (some rest) otherwise = scheme ++ rest
with_scheme scheme none otherwise = otherwise

unfoldable pub derive_ws_url : Text → Text
derive_ws_url http_url =
    let base = trim_end is_slash http_url in
    with_scheme (text "wss://") (strip_prefix (text "https://") base)
      (with_scheme (text "ws://") (strip_prefix (text "http://") base) base)
    ++ text "/ws"

abbrev pub or_derived : Option Text → Text → Text
or_derived none server_url = derive_ws_url server_url
or_derived (some url) server_url = url

-- `AgentConfig::ws_url`.
unfoldable pub ws_url_of : AgentConfig → Text
ws_url_of cfg = or_derived cfg.ws_url cfg.server_url

unfoldable pub mark_run_starting : AgentConfig → AgentConfig
mark_run_starting cfg = record cfg { last_run_unhealthy = true }

unfoldable pub record_clean_run_at : AgentConfig → Text → AgentConfig
record_clean_run_at cfg current_version = record cfg {
  crash_count = 0;
  last_crash_unix = 0;
  rollback_attempted = false;
  last_run_unhealthy = false;
  last_known_good_version = some current_version;
}

unfoldable pub mark_clean_shutdown : AgentConfig → AgentConfig
mark_clean_shutdown cfg = record cfg { last_run_unhealthy = false }

-- `saturating_add(1)` on `u32`.
abbrev pub saturating_suc : ℕ → ℕ
saturating_suc n = if ltb n max_u32 then n + 1 else max_u32

-- `now_unix.saturating_sub(prior) <= CRASH_WINDOW_SECS` for a crash that was recorded.
abbrev pub in_window : ℕ → ℕ → Bool
in_window prior now_unix = ltb 0 prior && leb (now_unix - prior) crash_window_secs

unfoldable pub record_crash_at : AgentConfig → ℕ → AgentConfig
record_crash_at cfg now_unix = record cfg {
  crash_count =
      if in_window cfg.last_crash_unix now_unix then saturating_suc cfg.crash_count else 1;
  last_crash_unix = now_unix;
}

abbrev pub is_other_version : Option Text → Text → Bool
is_other_version none current_version = false
is_other_version (some target) current_version =
    if same_text target current_version then false else true

unfoldable pub should_rollback : AgentConfig → Text → ℕ → Bool
should_rollback cfg current_version now_unix =
    if cfg.rollback_attempted
    then false
    else if is_other_version cfg.last_known_good_version current_version
    then if ltb cfg.crash_count rollback_threshold_crashes
      then false
      else in_window cfg.last_crash_unix now_unix
    else false

unfoldable pub mark_rollback_attempted : AgentConfig → AgentConfig
mark_rollback_attempted cfg = record cfg { rollback_attempted = true }

unfoldable pub after_last_run : AgentConfig → ℕ → AgentConfig
unfolding record_crash_at
after_last_run cfg now_unix = if cfg.last_run_unhealthy then record_crash_at cfg now_unix else cfg

-- The bookkeeping at the start of a run, and the version to roll back to, if any.
unfoldable pub start_run : AgentConfig → Text → ℕ → Option Text × AgentConfig
unfolding after_last_run should_rollback mark_run_starting mark_rollback_attempted
start_run cfg current_pkg now_unix =
    let started = mark_run_starting (after_last_run cfg now_unix) in
    if should_rollback started current_pkg now_unix
    then (started.last_known_good_version, mark_rollback_attempted started)
    else (none, started)
