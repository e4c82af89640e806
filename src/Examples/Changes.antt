-- ===== src/Examples/Changes.antt =====
-- Tests of adding and updating cards.
use scitex_todo.Prelude.{◌≡◌, ◌≤◌, ◌*◌, refl, none, some, [], ◌∷◌, filter, if◌then◌else◌, str_eq}
use scitex_todo.Py.Dict.{lookup, put, pop}
use scitex_todo.Py.Value.{text, null, py_eq, strings, int, pos}
use scitex_todo.Py.Text.{strip, lstrip, rstrip}
use scitex_todo.Py.Raise.{ok}
use scitex_todo.Card.{Card, get, is_live, is_tombstoned, find_live_task, first, change_first}
use scitex_todo.Validate.{
  check_id, check_fields, without_sentinel, validate_from, validate_tasks, one_of,
}
use scitex_todo.Validate.Fields.{
  check_status, check_priority, check_name, check_comments, check_labels, check_schedule,
  check_log_meta, check_kind, check_compute, check_blocker,
}
use scitex_todo.Deadlines.{parse_deadline_or_raise}
use scitex_todo.Throughput.{count_wip_for_agent, count_open_for_agent, evaluate_wip}
use scitex_todo.Store.State.{row_ids, assert_no_shrink, save_doc, transaction}
use scitex_todo.Store.Actor.{resolve_creator_or_raise}
use scitex_todo.Store.Row.{append_comment, stamp}
use scitex_todo.Store.Enums.{is_clear_sentinel, clear_enum, resolve_enum_clears}
use scitex_todo.Store.Wip.{is_priority_exempt, override_comment, enforce_wip_gate}
use scitex_todo.Store.Mutate.{
  NewTask, put_given, put_extras, owner_in, new_row, prepared_row, add_task,
}
use scitex_todo.Store.Mutate.Added.{add_task-find}
use scitex_todo.Store.Mutate.Bounded.{add_task_bounds}
use scitex_todo.Examples.{rows, small, python, rows-WellFormed, clock}

abbrev fields : Card
fields = ("status", text "deferred") ∷ ("note", text "later") ∷ []

abbrev put_off : Card
put_off =
    ("id", text "b")
    ∷ ("title", text "Ship")
    ∷ ("status", text "deferred")
    ∷ ("depends_on", strings ("a" ∷ []))
    ∷ ("note", text "later")
    ∷ ("last_activity", text clock)
    ∷ ("deferred_at", text clock)
    ∷ []

abbrev asked : NewTask
asked = record {
  id = "d";
  title = "Test";
  status = "in_progress";
  scope = null;
  assignee = text "worker";
  priority = int (pos 3);
  parent = null;
  note = null;
  depends_on = none;
  blocks = none;
  repo = null;
  created_by = none;
  extras = [];
}

abbrev added : Card
added =
    ("id", text "d")
    ∷ ("title", text "Test")
    ∷ ("status", text "in_progress")
    ∷ ("created_at", text clock)
    ∷ ("last_activity", text clock)
    ∷ ("created_by", text "worker")
    ∷ ("assignee", text "worker")
    ∷ ("priority", int (pos 3))
    ∷ ("agent", text "worker")
    ∷ []

add_d : (add_task python asked small).0 ≡ ok added
unfolding add_task prepared_row new_row put_given put_extras owner_in resolve_enum_clears clear_enum
    is_clear_sentinel enforce_wip_gate evaluate_wip count_wip_for_agent count_open_for_agent
    is_priority_exempt override_comment filter transaction find_live_task first is_live
    is_tombstoned resolve_creator_or_raise strip lstrip rstrip stamp append_comment change_first
    save_doc assert_no_shrink row_ids validate_tasks validate_from check_id check_fields
    check_status check_priority check_name check_comments check_labels check_schedule check_log_meta
    check_kind check_compute check_blocker one_of py_eq without_sentinel parse_deadline_or_raise get
    lookup pop put
add_d = refl

add_task-find_example :
    (find_live_task rows "d" ≡ none)
    × (find_live_task (add_task python asked small).1.tasks "d"
        ≡ (if str_eq "d" "d" then some added else find_live_task rows "d"))
unfolding lookup
add_task-find_example = add_task-find python asked small added "d" rows-WellFormed refl refl add_d

add_task_bounds_example :
    count_wip_for_agent (add_task python asked small).1.tasks (get added "agent") ≤ 2 * 20
unfolding get lookup one_of is_priority_exempt
add_task_bounds_example =
    add_task_bounds python asked small added rows-WellFormed refl refl refl add_d
