-- ===== src/Examples/Helped.antt =====
-- Tests of the card of an agent that waits for help.
use scitex_todo.Prelude.{◌≡◌, refl, true, none, some, [], ◌∷◌}
use scitex_todo.Py.Dict.{lookup, put, pop}
use scitex_todo.Py.Value.{dict, field, end, text, py_eq}
use scitex_todo.Py.Text.{strip, lstrip, rstrip}
use scitex_todo.Py.Raise.{ok}
use scitex_todo.Card.{Card, get, is_live, is_tombstoned, find_live_task, first, change_first}
use scitex_todo.Validate.{
  check_id, check_fields, without_sentinel, validate_from, validate_tasks, one_of,
}
use scitex_todo.Validate.Fields.{
  check_status, check_priority, check_name, check_comments, check_labels, check_schedule,
  check_log_meta, check_kind, check_compute, check_blocker,
}
use scitex_todo.Deadlines.{parse_deadline_or_raise}
use scitex_todo.Store.State.{row_ids, assert_no_shrink, save_doc, transaction}
use scitex_todo.Examples.{small, python, clock}
use scitex_todo.Store.State.{Store}
use scitex_todo.Store.Help.{help_wait, help_clear, waiting_row, new_waiting_row, cleared_row}

abbrev waited : Store
waited = (help_wait python "nas" (some " bo ") (some "Which branch?") none small).1

-- The card is there after the call, is blocked, and is cleared by the next.
waiting_found :
    (help_clear python (some "bo") waited).0
    ≡ ok (record {
      task_id = "help-bo-waiting";
      cleared = true;
      task = some (cleared_row python (new_waiting_row python "bo" "nas" "Which branch?"));
    })
unfolding help_clear help_wait waiting_row new_waiting_row cleared_row transaction first strip
    lstrip rstrip change_first save_doc assert_no_shrink row_ids validate_tasks validate_from
    check_id check_fields check_status check_priority check_name check_comments check_labels
    check_schedule check_log_meta check_kind check_compute check_blocker one_of py_eq
    without_sentinel parse_deadline_or_raise get lookup pop put
waiting_found = refl

abbrev deleted_help : Card
deleted_help =
    ("id", text "help-bo-waiting")
    ∷ ("title", text "[help] bo waiting on operator decision")
    ∷ ("status", text "done")
    ∷ ("_log_meta", dict (field "deleted_at" (text clock) end))
    ∷ []

abbrev with_deleted : Store
with_deleted = record { tasks = deleted_help ∷ []; sections = []; effects = [] }

-- A card that was deleted is written and stays deleted: no view shows that the agent waits.
waiting_hidden :
    find_live_task
      (help_wait python "nas" (some "bo") none none with_deleted).1.tasks
      "help-bo-waiting"
    ≡ none
unfolding help_wait waiting_row new_waiting_row transaction first strip lstrip rstrip change_first
    save_doc assert_no_shrink row_ids find_live_task is_live is_tombstoned validate_tasks
    validate_from check_id check_fields check_status check_priority check_name check_comments
    check_labels check_schedule check_log_meta check_kind check_compute check_blocker one_of py_eq
    without_sentinel parse_deadline_or_raise get lookup pop put
waiting_hidden = refl
