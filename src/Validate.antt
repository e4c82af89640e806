-- ===== src/Validate.antt =====
-- scitex_cards/_validate.py: the gate that every write passes. Warnings are left out, and so are
-- the two tests that a store's rows are a list of mappings, which the model's types say.
pub mod Fields
pub mod Passed
pub mod Sound
pub mod Again
unfoldable pub use Fields.{valid_statuses, valid_kinds, valid_blockers, one_of, hashable}
use Fields.{
  Checked, check_status, check_priority, check_name, check_comments, check_labels, text_labels,
  check_schedule, owner_labels, check_log_meta, check_kind, check_compute, compute_labels,
  check_blocker,
}
use scitex_todo.Prelude.{Bool, true, false, not, ◌&&◌, List, [], ◌∷◌, if◌then◌else◌}
use scitex_todo.Py.Dict.{pop}
use scitex_todo.Py.Value.{Value, truthy, is_text, contains}
use scitex_todo.Py.Raise.{Result, ok, raise_if, ◌>>=◌, ◌>>◌, task_validation_error, type_error}
use scitex_todo.Card.{Card, get}
use scitex_todo.Env.{Env}

-- lines 102-112
unfoldable pub check_id : List Value → Card → Checked
check_id seen task = do
  raise_if (not (truthy (get task "id"))) task_validation_error
  raise_if (not (hashable (get task "id"))) type_error
  raise_if (contains seen (get task "id")) task_validation_error
  raise_if (not (truthy (get task "title"))) task_validation_error

-- Every check on one card but those of its id.
unfoldable pub check_fields : Env → Card → Checked
check_fields env task = do
  check_status (get task "status") (get task "blocker")
  check_priority (get task "priority")
  check_name (get task "parent")
  check_comments (get task "comments")
  check_labels task text_labels
  check_schedule env (get task "deadline") (get task "scheduled") (get task "deadlines")
  check_labels task owner_labels
  check_log_meta (get task "_log_meta")
  check_kind (get task "kind")
  check_compute (is_text (get task "kind") "compute") task compute_labels
  check_blocker (get task "status") (get task "blocker")

-- `task.pop("blocker", None)` of the sentinel on a card that is not blocked
unfoldable pub without_sentinel : Card → Card
without_sentinel task =
    if not (is_text (get task "status") "blocked") && is_text (get task "blocker") "none"
    then pop task "blocker"
    else task

-- The loop, from the ids seen so far. The rows come back with their sentinels dropped.
unfoldable pub validate_from : Env → List Value → List Card → Result (List Card)
validate_from env seen [] = ok []
validate_from env seen (task ∷ tasks) = do
  check_id seen task
  check_fields env task
  rest ← validate_from env (get task "id" ∷ seen) tasks
  ok (without_sentinel task ∷ rest)

-- `_validate_tasks`
unfoldable pub validate_tasks : Env → List Card → Result (List Card)
validate_tasks env tasks = validate_from env [] tasks
