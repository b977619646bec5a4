-- ===== src/Tasks/Tests.antt =====
-- A task that is stored, done and read, while the database answers and while it does not.
use roomler.Prelude.{true, false, none, some, List, [], ◌∷◌, text}
use roomler.Tasks.{BackgroundTask, Call, pending}
use roomler.Tasks.Refines.{Event, inserted, got, progressed, task_completed, cleaned, Refines}

abbrev task : BackgroundTask
task = record {
  tenant_id = 7;
  task_type = text "export";
  status = pending;
  progress = 0;
  logs = [];
  file_path = none;
  file_name = none;
  error = none;
  completed_at = none;
  updated_at = 1;
}

abbrev up : Call
up = record { is_up = true; now = 10; now_in_update = 11 }

abbrev down : Call
down = record up { is_up = false }

abbrev events : List (Call × Event)
events =
    (up, inserted 1 task)
    ∷ (up, progressed 1 50 (some (text "half")))
    ∷ (down, got 1)
    ∷ (up, task_completed 1 (some (text "/tmp/x")) none)
    ∷ (up, cleaned)
    ∷ (down, got 1)
    ∷ (up, got 1)
    ∷ []
