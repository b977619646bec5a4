-- ===== src/Tasks.antt =====
-- crates/services/src/background/task_store.rs: background tasks, in the database and in a cache in
-- front of it. An update of a document sets the fields that the source names, and updated_at by a
-- clock reading of its own (crates/services/src/dao/base.rs, update_one).
use roomler.Prelude.{
  ℕ, Bool, true, false, Option, none, some, List, [], ◌∷◌, ◌++◌, Text, Map, lookup, insert, modify,
  if◌then◌else◌,
}
pub mod Refines
mod Tests

pub data TaskStatus : Type 0 where
  pending processing completed failed expired : TaskStatus

pub record BackgroundTask : Type 0 where
  pub tenant_id : ℕ
  pub task_type : Text
  pub status : TaskStatus
  pub progress : ℕ
  pub logs : List Text
  pub file_path : Option Text
  pub file_name : Option Text
  pub error : Option Text
  pub completed_at : Option ℕ
  pub updated_at : ℕ

-- `db` is the collection; `cache` is the `DashMap`.
pub record TaskStore : Type 0 where
  pub db : Map BackgroundTask
  pub cache : Map BackgroundTask

-- Whether the database answers during one call, and the clock as the store and as the update read it.
pub record Call : Type 0 where
  pub is_up : Bool
  pub now : ℕ
  pub now_in_update : ℕ

pub data Reply : Type 0 where
  unavailable not_found accepted : Reply
  found : BackgroundTask → Reply

abbrev pub push_log : Option Text → List Text → List Text
push_log none logs = logs
push_log (some log) logs = logs ++ log ∷ []

abbrev pub set_progress : ℕ → Option Text → ℕ → BackgroundTask → BackgroundTask
set_progress progress log now t = record t {
  progress = progress;
  logs = push_log log t.logs;
  updated_at = now;
}

abbrev pub set_completed : Option Text → Option Text → ℕ → ℕ → BackgroundTask → BackgroundTask
set_completed file_path file_name at now t = record t {
  status = completed;
  progress = 100;
  file_path = file_path;
  file_name = file_name;
  completed_at = some at;
  updated_at = now;
}

abbrev pub set_failed : Text → ℕ → ℕ → BackgroundTask → BackgroundTask
set_failed error at now t = record t {
  status = failed;
  error = some error;
  completed_at = some at;
  updated_at = now;
}

abbrev pub is_open : BackgroundTask → Bool
is_open t = elim t.status [
  | pending ↦ true
  | processing ↦ true
  | completed ↦ false
  | failed ↦ false
  | expired ↦ false
]

abbrev pub retain_open : Map BackgroundTask → Map BackgroundTask
retain_open [] = []
retain_open ((id, t) ∷ m) = if is_open t then (id, t) ∷ retain_open m else retain_open m

module _ (c : Call) where
  -- The database first; the cache only if that succeeds.
  abbrev pub update : ℕ → (ℕ → BackgroundTask → BackgroundTask) → TaskStore → Reply × TaskStore
  update id f s =
      if c.is_up
      then (
        accepted,
        record { db = modify id (f c.now_in_update) s.db; cache = modify id (f c.now) s.cache },
      )
      else (unavailable, s)

  -- `id` is the identifier that the database gives the row.
  unfoldable pub insert_task : ℕ → BackgroundTask → TaskStore → Reply × TaskStore
  insert_task id task s =
      if c.is_up
      then (accepted, record { db = insert id task s.db; cache = insert id task s.cache })
      else (unavailable, s)

  abbrev pub get_from_db : ℕ → Option BackgroundTask → TaskStore → Reply × TaskStore
  get_from_db id none s = (not_found, s)
  get_from_db id (some task) s = (found task, record s { cache = insert id task s.cache })

  unfoldable pub get : ℕ → TaskStore → Reply × TaskStore
  get id s = elim (lookup id s.cache) [
    | some task ↦ (found task, s)
    | none ↦ if c.is_up then get_from_db id (lookup id s.db) s else (unavailable, s)
  ]

  unfoldable pub update_progress : ℕ → ℕ → Option Text → TaskStore → Reply × TaskStore
  update_progress id progress log = update id (set_progress progress log)

  unfoldable pub complete_task : ℕ → Option Text → Option Text → TaskStore → Reply × TaskStore
  complete_task id file_path file_name = update id (set_completed file_path file_name c.now)

  unfoldable pub fail : ℕ → Text → TaskStore → Reply × TaskStore
  fail id error = update id (set_failed error c.now)

unfoldable pub cleanup_cache : TaskStore → TaskStore
cleanup_cache s = record s { cache = retain_open s.cache }
