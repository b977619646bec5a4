-- ===== src/Agent/Tests.antt =====
-- A configuration, an upload and a watchdog, and the theorems at them.
use roomler.Prelude.{
  ◌<◌, ◌-◌, ◌↔◌, Distinct, lookup, ℕ, ◌≤◌, ◌≡◌, ◌≢◌, refl, true, false, none, some, List, [], ◌∷◌,
  arith, Text, trim_start, trim_end, text, length, All,
}
use roomler.Agent.Codecs.{PickOf, ranking, pick_best_codec, pick_best_codec-PickOf}
use roomler.Agent.Watchdog.{Watchdog, PumpState, scan_at}
use roomler.Agent.Watchdog.Stalls.{Reports, scan_at-Reports}
use roomler.Agent.Config.{
  after_last_run, should_rollback, record_crash_at, mark_run_starting, mark_rollback_attempted,
  mark_clean_shutdown, mark_rollback_attempted, mark_run_starting, record_crash_at, should_rollback,
  after_last_run, AgentConfig, automatic, start_run, record_clean_run_at,
}
use roomler.Agent.Config.Rollback.{
  end_run, since, history, Run, crash, run_all, start_run_target, run_all-crash_loop,
}
use roomler.Agent.Files.Names.{sanitize_filename, sanitize_filename-All, IsKept, unique_path}
use roomler.Agent.Files.Handler.{
  Host, Files, begin, on_message, begin_upload, end_upload, data_chunk, complete, exists, done,
}
use roomler.Agent.Files.Transfers.{serve, serve_complete}
use roomler.Agent.Files.Uploads.{send_chunks, send_chunks_complete}

-- Three crashes of the version 2 were counted after the version 1 ran well.
abbrev config : AgentConfig
config = record {
  server_url = text "https://roomler.live";
  ws_url = none;
  agent_token = text "token";
  agent_id = text "a1";
  tenant_id = text "t1";
  machine_id = text "m1";
  machine_name = text "desk";
  encoder_preference = automatic;
  update_check_interval_h = none;
  last_known_good_version = some (text "1");
  crash_count = 2;
  last_crash_unix = 1000;
  rollback_attempted = false;
  last_run_unhealthy = true;
}

rolls_back : (start_run config (text "2") 1300).0 ≡ some (text "1")
unfolding start_run
rolls_back = refl

-- The version 1 is promoted again, and the version 2 crashes three times.
abbrev three_crashes : List Run
three_crashes = crash (text "2") 1000 ∷ crash (text "2") 1100 ∷ crash (text "2") 1200 ∷ []

rolls_back_then :
    (start_run
      (history three_crashes (since (text "1")) (record_clean_run_at config (text "1"))).1
      (text "2")
      1300).0
    ≡ some (text "1")
unfolding history start_run record_clean_run_at after_last_run should_rollback record_crash_at
    mark_run_starting mark_rollback_attempted end_run mark_clean_shutdown
rolls_back_then = refl

start_run_target_example :
    let h = (history three_crashes (since (text "1")) (record_clean_run_at config (text "1"))).0 in
    (text "1" ≡ h.good) × (text "1" ≢ text "2") × (3 ≤ h.crashes) × (h.rollbacks ≡ 0)
start_run_target_example =
    start_run_target config (text "1") (text "2") (text "1") three_crashes 1300 rolls_back_then

abbrev two_runs : List Run
two_runs = crash (text "2") 1300 ∷ crash (text "2") 1400 ∷ []

one_is_not_two : text "1" ≢ text "2"
one_is_not_two e = ground (arith, e)

run_all-crash_loop_example :
    let before =
      run_all
        (crash (text "2") 1000 ∷ crash (text "2") 1100 ∷ crash (text "2") 1200 ∷ [])
        (record_clean_run_at config (text "1")) in
    (before.0 ≡ 0) × ((start_run before.1 (text "2") 1300).0 ≡ some (text "1"))
run_all-crash_loop_example =
    run_all-crash_loop config (text "1") (text "2") 1000 1100 1200 1300 one_is_not_two (omega arith)
      (omega arith) (omega arith) (omega arith) (omega arith)

sanitize_filename-All_example :
    All IsKept (sanitize_filename (text "../../etc/.passwd"))
    × ((c : ℕ) × (s : Text) × (sanitize_filename (text "../../etc/.passwd") ≡ c ∷ s) × (c ≢ b'.'))
sanitize_filename-All_example = sanitize_filename-All (text "../../etc/.passwd")

abbrev host : Host
host = record {
  download_dir = text "/d";
  makes_folder = true;
  makes_file = true;
  write_fault = none;
  flushes = true;
}

abbrev empty : Files
empty = record { state = none; disk = λ path. none }

-- Every path is taken.
abbrev full : Files
full = record { state = none; disk = λ path. some [] }

send_chunks_complete_example :
    let path = unique_path (exists empty.disk) (text "/d") (sanitize_filename (text "a.txt")) in
    let sent =
      send_chunks host
        ((1 ∷ []) ∷ (2 ∷ 3 ∷ []) ∷ [])
        (on_message host (begin_upload (text "u") (text "a.txt") 3) empty).1 in
    let (replies, after) = on_message host (end_upload (text "u")) sent in
    (replies ≡ complete (text "u") path 3 ∷ []) × (after.disk path ≡ some (1 ∷ 2 ∷ 3 ∷ []))
send_chunks_complete_example =
    send_chunks_complete host (refl, refl, refl, refl) empty (text "u") (text "a.txt")
      ((1 ∷ []) ∷ (2 ∷ 3 ∷ []) ∷ []) (omega arith)

uploaded :
    let f =
      (serve
        ((host, begin_upload (text "u") (text "a.txt") 1) ∷ (host, data_chunk (7 ∷ [])) ∷ [])
        empty
        []).0 in
    (on_message host (end_upload (text "u")) f).0 ≡ complete (text "u") (text "/d/a.txt") 1 ∷ []
unfolding serve on_message unique_path sanitize_filename trim_start trim_end
uploaded = refl

serve_complete_example :
    let (f, bytes) =
      serve
        ((host, begin_upload (text "u") (text "a.txt") 1) ∷ (host, data_chunk (7 ∷ [])) ∷ [])
        empty
        [] in
    ((on_message host (end_upload (text "u")) f).1.disk (text "/d/a.txt") ≡ some bytes)
    × (1 ≡ length bytes)
serve_complete_example =
    serve_complete
      ((host, begin_upload (text "u") (text "a.txt") 1) ∷ (host, data_chunk (7 ∷ [])) ∷ [])
      (λ path. none) host (text "u") (text "/d/a.txt") 1 uploaded

overwrites : (begin host (text "u") (text "a.txt") 1 full).0 ≡ done (text "/d/a.txt")
unfolding begin unique_path sanitize_filename trim_start trim_end
overwrites = refl

-- Two pumps with a threshold of 30, the first of which has not ticked since 0.
abbrev watchdog : Watchdog
watchdog = record {
  pumps =
      (1, record { last_tick = 0; active = true; threshold = 30 })
      ∷ (2, record { last_tick = 40; active = true; threshold = 30 })
      ∷ [];
  own_heartbeat = 0;
}

two_pumps : Distinct watchdog.pumps
unfolding lookup
two_pumps = (refl, (refl, tt))

first_pump :
    lookup 1 watchdog.pumps ≡ some (record { last_tick = 0; active = true; threshold = 30 })
unfolding lookup
first_pump = refl

thresholds : (name : ℕ) (p : PumpState) → lookup name watchdog.pumps ≡ some p → 30 ≤ p.threshold
unfolding lookup
thresholds name p e = ground (arith, e)

scan_at-Reports_example : Reports (scan_at 45 watchdog) 1 45 ↔ (
    (p : PumpState) × (lookup 1 watchdog.pumps ≡ some p)
    × (p.active ≡ true)
    × (p.threshold < 45)
    × (45 ≡ 45 - p.last_tick))
scan_at-Reports_example = scan_at-Reports 45 watchdog 1 45 two_pumps

abbrev browser_codecs : List Text
browser_codecs = text "VP9" ∷ text "h264" ∷ []

abbrev agent_codecs : List Text
agent_codecs = text "h264" ∷ text "vp9" ∷ text "av1" ∷ []

pick_best_codec-PickOf_example :
    PickOf browser_codecs agent_codecs ranking (pick_best_codec browser_codecs agent_codecs)
pick_best_codec-PickOf_example = pick_best_codec-PickOf browser_codecs agent_codecs
