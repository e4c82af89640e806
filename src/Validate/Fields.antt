-- ===== src/Validate/Fields.antt =====
-- The checks that `_validate_tasks` makes on one card, each block of them a function, in the order
-- of the code. An unknown status, and a blocked card without a blocker, are only warned about.
use scitex_todo.Prelude.{
  String, Bool, true, false, not, ◌&&◌, xor, Option, some, List, [], ◌∷◌, any, if◌then◌else◌,
}
use scitex_todo.Py.Value.{
  Value, null, int, text, list, dict, nil, elements, entries, truthy, is_null, is_name, is_text,
}
use scitex_todo.Py.Raise.{
  Result, ok, raise, raise_if, ◌>>=◌, ◌>>◌, task_validation_error, type_error, attribute_error,
}
use scitex_todo.Card.{Card, get}
use scitex_todo.Env.{Env, Moment, is_naive, before}
use scitex_todo.Deadlines.{Repeater, parse_deadline_or_raise}

abbrev pub Checked : Type 0
Checked = Result (Unit {0})

abbrev pub valid_statuses : List String
valid_statuses =
    "goal" ∷ "in_progress" ∷ "blocked" ∷ "done" ∷ "deferred" ∷ "failed" ∷ "cancelled" ∷ []

abbrev pub valid_kinds : List String
valid_kinds = "task" ∷ "compute" ∷ "decision" ∷ "status" ∷ []

abbrev pub valid_blockers : List String
valid_blockers = "compute" ∷ "dependency" ∷ "dep" ∷ "operator-decision" ∷ "agent-wait" ∷ "none" ∷ []

-- `v in words`
unfoldable pub one_of : Value → List String → Bool
one_of v words = any (is_text v) words

-- A list or a dict cannot be a member of a set or a key.
abbrev pub hashable : Value → Bool
hashable (list _) = false
hashable (dict _) = false
hashable _ = true

-- A value that is no string has no `strip`.
abbrev has_strip : Value → Bool
has_strip (text _) = true
has_strip v = not (truthy v)

-- lines 114-162
unfoldable pub check_status : Value → Value → Checked
check_status status blocker =
    if one_of status valid_statuses
    then raise_if (is_text status "blocked" && not (has_strip blocker)) attribute_error
    else raise_if (not (hashable status)) type_error

abbrev is_int : Value → Bool
is_int (int _) = true
is_int _ = false

-- lines 163-172
unfoldable pub check_priority : Value → Checked
check_priority priority =
    raise_if (not (is_null priority) && not (is_int priority)) task_validation_error

-- A non-empty string or absent.
unfoldable pub check_name : Value → Checked
check_name v = raise_if (not (is_null v) && not (is_name v)) task_validation_error

abbrev valid_comment : Value → Bool
valid_comment (dict entry) = is_name (get (entries entry) "text")
valid_comment _ = false

abbrev check_entries : List Value → Checked
check_entries [] = ok tt
check_entries (entry ∷ rest) = do
  raise_if (not (valid_comment entry)) task_validation_error
  check_entries rest

-- lines 192-207
unfoldable pub check_comments : Value → Checked
check_comments null = ok tt
check_comments (list comments) = check_entries (elements comments)
check_comments _ = raise task_validation_error

-- `for label in labels:` with the check of a non-empty string
unfoldable pub check_labels : Card → List String → Checked
unfolding check_name
check_labels task [] = ok tt
check_labels task (label ∷ labels) = do check_name (get task label); check_labels task labels

abbrev pub text_labels : List String
text_labels =
    "task" ∷ "project" ∷ "host" ∷ "created_at" ∷ "created_by" ∷ "goal" ∷ "agent" ∷ "last_activity"
    ∷ "pr_url" ∷ "issue_url" ∷ []

abbrev check_each : Env → List Value → Checked
check_each env [] = ok tt
check_each env (entry ∷ rest) = parse_deadline_or_raise env entry >>= λ _. check_each env rest

-- lines 254-271
abbrev check_deadlines : Env → Value → Checked
check_deadlines env null = ok tt
check_deadlines env (list nil) = raise task_validation_error
check_deadlines env (list entries) = check_each env (elements entries)
check_deadlines env _ = raise task_validation_error

-- `deadline_dt < scheduled_dt`: Python refuses to order a naive and an aware datetime.
abbrev check_order : Option (Moment × Option Repeater) → Option (Moment × Option Repeater) → Checked
check_order (some (deadline, _)) (some (scheduled, _)) = do
  raise_if (xor (is_naive deadline) (is_naive scheduled)) type_error
  raise_if (before deadline scheduled) task_validation_error
check_order _ _ = ok tt

-- lines 241-287
unfoldable pub check_schedule : Env → Value → Value → Value → Checked
check_schedule env deadline scheduled deadlines = do
  raise_if (not (is_null deadline) && not (is_null deadlines)) task_validation_error
  check_deadlines env deadlines
  deadline_dt ← parse_deadline_or_raise env deadline
  scheduled_dt ← parse_deadline_or_raise env scheduled
  check_order deadline_dt scheduled_dt

abbrev pub owner_labels : List String
owner_labels = "scope" ∷ "assignee" ∷ "group" ∷ []

abbrev is_dict : Value → Bool
is_dict (dict _) = true
is_dict _ = false

-- lines 310-315
unfoldable pub check_log_meta : Value → Checked
check_log_meta v = raise_if (not (is_null v) && not (is_dict v)) task_validation_error

-- lines 322-326
unfoldable pub check_kind : Value → Checked
check_kind kind =
    raise_if (not (is_null kind) && not (one_of kind valid_kinds)) task_validation_error

abbrev pub compute_labels : List String
compute_labels = "job_id" ∷ "command" ∷ "started_at" ∷ "finished_at" ∷ []

-- lines 334-359
unfoldable pub check_compute : Bool → Card → List String → Checked
check_compute is_compute task [] = ok tt
check_compute is_compute task (label ∷ labels) = do
  raise_if (not (is_null (get task label)) && not is_compute) task_validation_error
  raise_if (not (is_null (get task label)) && not (is_name (get task label))) task_validation_error
  check_compute is_compute task labels

-- lines 378-393: a real blocker on a card that is not blocked is refused.
unfoldable pub check_blocker : Value → Value → Checked
check_blocker status null = ok tt
check_blocker status blocker = do
  raise_if (not (one_of blocker valid_blockers)) task_validation_error
  raise_if (not (is_text status "blocked") && not (is_text blocker "none")) task_validation_error
