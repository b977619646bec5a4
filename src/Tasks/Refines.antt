-- ===== src/Tasks/Refines.antt =====
-- The store with its cache against the collection alone.
use roomler.Prelude.{
  false, ℕ, ◌≡◌, Bool, Option, none, some, List, [], ◌∷◌, ◌⊎◌, Text, Map, lookup, insert, modify,
  if◌then◌else◌, Distinct,
}
use mathlib.Core.Option
use roomler.Tasks.{
  BackgroundTask, TaskStore, Call, Reply, unavailable, not_found, accepted, found, insert_task, get,
  update_progress, complete_task, fail, cleanup_cache, set_progress, set_completed, set_failed,
}

pub data Event : Type 0 where
  inserted : (id : ℕ) → BackgroundTask → Event
  got : (id : ℕ) → Event
  progressed : (id progress : ℕ) (log : Option Text) → Event
  task_completed : (id : ℕ) (file_path file_name : Option Text) → Event
  task_failed : (id : ℕ) (error : Text) → Event
  cleaned : Event

unfoldable pub step : Call → Event → TaskStore → Reply × TaskStore
step c (inserted id task) s = insert_task c id task s
step c (got id) s = get c id s
step c (progressed id progress log) s = update_progress c id progress log s
step c (task_completed id path name) s = complete_task c id path name s
step c (task_failed id error) s = fail c id error s
step c cleaned s = (accepted, cleanup_cache s)

unfoldable pub run : List (Call × Event) → TaskStore → List Reply
run [] s = []
run ((c, event) ∷ rest) s = let (reply, s') = step c event s in reply ∷ run rest s'

-- What a task is but for when it was last written.
abbrev pub view : BackgroundTask → BackgroundTask
view t = record t { updated_at = 0 }

abbrev pub view_reply : Reply → Reply
view_reply (found t) = found (view t)
view_reply reply = reply

-- The specification: one map, without a cache and without the times of writing.
abbrev pub spec_get : Option BackgroundTask → Reply
spec_get none = not_found
spec_get (some t) = found t

abbrev pub when : Bool → Map BackgroundTask → Map BackgroundTask → Map BackgroundTask
when up m' m = if up then m' else m

unfoldable pub spec : Call → Event → Map BackgroundTask → Reply × Map BackgroundTask
spec c (inserted id task) m = (accepted, when c.is_up (insert id (view task) m) m)
spec c (got id) m = (spec_get (lookup id m), m)
spec c (progressed id progress log) m =
    (accepted, when c.is_up (modify id (set_progress progress log 0) m) m)
spec c (task_completed id path name) m =
    (accepted, when c.is_up (modify id (set_completed path name c.now 0) m) m)
spec c (task_failed id error) m =
    (accepted, when c.is_up (modify id (set_failed error c.now 0) m) m)
spec c cleaned m = (accepted, m)

unfoldable pub run_spec : List (Call × Event) → Map BackgroundTask → List Reply
run_spec [] m = []
run_spec ((c, event) ∷ rest) m = let (reply, m') = spec c event m in reply ∷ run_spec rest m'

-- A reply of the store is the specification's, or the database did not answer and the reply says so.
abbrev pub Refines : List (Call × Event) → List Reply → List Reply → Type 0
Refines [] [] [] = Unit
Refines ((c, event) ∷ rest) (r ∷ rs) (q ∷ qs) =
    (((c.is_up ≡ false) × (r ≡ unavailable)) ⊎ (view_reply r ≡ q)) × Refines rest rs qs
Refines _ _ _ = ⊥

-- The collection is the specification's map, and what the cache holds is in the collection.
abbrev pub Related : TaskStore → Map BackgroundTask → Type 0
Related s m =
    ((id : ℕ) → Option.map view (lookup id s.db) ≡ lookup id m)
    × ((id : ℕ) (t : BackgroundTask) → lookup id s.cache ≡ some t → lookup id m ≡ some (view t))
    × Distinct s.cache

-- One call keeps the relation, and its reply refines.
abbrev Simulates : Call → Event → TaskStore → Map BackgroundTask → Type 0
Simulates c event s m =
    let (reply, s') = step c event s in
    let (expected, m') = spec c event m in
    (((c.is_up ≡ false) × (reply ≡ unavailable)) ⊎ (view_reply reply ≡ expected)) × Related s' m'
