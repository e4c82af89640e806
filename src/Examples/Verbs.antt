-- ===== src/Examples/Verbs.antt =====
-- Tests of the store's verbs.
use mathlib.Core.Option.{map as map_option}
use scitex_todo.Prelude.{
  ◌≡◌, refl, true, false, none, some, [], ◌∷◌, filter, if◌then◌else◌, str_eq, ◌++◌,
}
use scitex_todo.Py.Dict.{lookup, put, pop}
use scitex_todo.Py.Value.{text, is_text, py_eq, strings}
use scitex_todo.Py.Text.{strip, lstrip, rstrip}
use scitex_todo.Py.Raise.{ok}
use scitex_todo.Card.{
  Card, get, is_live, is_tombstoned, find_live_task, first, change_first, change_rest, of_list,
  of_dict,
}
use scitex_todo.Validate.{
  check_id, check_fields, without_sentinel, validate_from, validate_tasks, one_of,
}
use scitex_todo.Validate.Fields.{
  check_status, check_priority, check_name, check_comments, check_labels, check_schedule,
  check_log_meta, check_kind, check_compute, check_blocker,
}
use scitex_todo.Deadlines.{parse_deadline_or_raise}
use scitex_todo.Store.State.{row_ids, assert_no_shrink, save_doc, transaction}
use scitex_todo.Store.Actor.{resolve_creator_or_raise}
use scitex_todo.Store.Row.{append_comment, comment, stamp}
use scitex_todo.Store.Complete.{complete_task, complete_locked, completed_row}
use scitex_todo.Store.Completed.{complete_task-find}
use scitex_todo.Store.Atomic.{has_id}
use scitex_todo.Store.Unblock.{unblocked_ids}
use scitex_todo.Store.Unblock.Logged.{IsLoggedIf}
use scitex_todo.Store.Resolve.{resolve_task, resolved_row, resolve_text}
use scitex_todo.Store.Comment.{comment_task, commented_row}
use scitex_todo.Store.Delete.{
  refers, Removed, snapshot, delete_task, tombstoned, scrub, scrub_list, scrub_parent, scrubbed_ids,
}
use scitex_todo.Store.Delete.Gone.{delete_task-find}
use scitex_todo.Store.Delete.Unnamed.{delete_task-refers}
use scitex_todo.Store.Gate.{is_gate, complete_task-gated}
use scitex_todo.Examples.{in_work_as, in_work, gated, rows, small, python, rows-WellFormed, clock}

abbrev worked : Card
worked =
    in_work_as "done"
    ++ ("_log_meta", of_dict (("completed_at", text clock) ∷ ("completed_by", text "worker") ∷ []))
      ∷ []

complete_b : (complete_task python "b" none small).0 ≡ ok worked
unfolding complete_task completed_row transaction find_live_task first is_live is_tombstoned
    resolve_creator_or_raise strip lstrip rstrip stamp append_comment change_first save_doc
    assert_no_shrink row_ids validate_tasks validate_from check_id check_fields check_status
    check_priority check_name check_comments check_labels check_schedule check_log_meta check_kind
    check_compute check_blocker one_of py_eq without_sentinel parse_deadline_or_raise get lookup pop
    put
complete_b = refl

complete_task-find_example :
    (get worked "status" ≡ text "done")
    × IsLoggedIf
        (has_id (unblocked_ids python (complete_locked python "b" none small).1.tasks "b") "b")
        (if str_eq "b" "b" then some worked else find_live_task rows "b")
        (find_live_task (complete_task python "b" none small).1.tasks "b")
complete_task-find_example =
    complete_task-find python "b" none small worked "b" rows-WellFormed complete_b

abbrev signed : Card
signed =
    ("id", text "c")
    ∷ ("title", text "Sign")
    ∷ ("status", text "done")
    ∷ ("depends_on", strings ("b" ∷ []))
    ∷ ("comments", of_list (comment "worker" clock (resolve_text false) ∷ []))
    ∷ []

resolve_c : (resolve_task python "c" none small).0 ≡ ok signed
unfolding resolve_task resolved_row transaction find_live_task first is_live is_tombstoned
    resolve_creator_or_raise strip lstrip rstrip stamp append_comment change_first save_doc
    assert_no_shrink row_ids validate_tasks validate_from check_id check_fields check_status
    check_priority check_name check_comments check_labels check_schedule check_log_meta check_kind
    check_compute check_blocker one_of py_eq without_sentinel parse_deadline_or_raise get lookup pop
    put
resolve_c = refl

abbrev remark : Card
remark = ("author", text "worker") ∷ ("ts", text clock) ∷ ("text", text "half way") ∷ []

comment_b : (comment_task python "b" "half way" none none small).0 ≡ ok remark
unfolding comment_task commented_row transaction find_live_task first is_live is_tombstoned
    resolve_creator_or_raise strip lstrip rstrip stamp append_comment change_first save_doc
    assert_no_shrink row_ids validate_tasks validate_from check_id check_fields check_status
    check_priority check_name check_comments check_labels check_schedule check_log_meta check_kind
    check_compute check_blocker one_of py_eq without_sentinel parse_deadline_or_raise get lookup pop
    put
comment_b = refl

abbrev removal : Removed
removal = record { removed = in_work; refs = text "c" ∷ [] }

delete_b : (delete_task python "b" small).0 ≡ ok removal
unfolding delete_task snapshot tombstoned scrub scrub_list scrub_parent scrubbed_ids change_rest
    filter transaction find_live_task first is_live is_tombstoned resolve_creator_or_raise strip
    lstrip rstrip stamp append_comment change_first save_doc assert_no_shrink row_ids validate_tasks
    validate_from check_id check_fields check_status check_priority check_name check_comments
    check_labels check_schedule check_log_meta check_kind check_compute check_blocker one_of py_eq
    without_sentinel parse_deadline_or_raise get lookup pop put
delete_b = refl

delete_task-find_example :
    (target : Card) × (find_live_task rows "b" ≡ some target)
    × (get in_work "title" ≡ get target "title")
    × (find_live_task (delete_task python "b" small).1.tasks "c"
        ≡ (if str_eq "b" "c" then none else map_option (scrub "b") (find_live_task rows "c")))
delete_task-find_example =
    delete_task-find python "b" small removal "c" "title" rows-WellFormed refl refl delete_b

abbrev freed : Card
freed =
    ("id", text "c")
    ∷ ("title", text "Sign")
    ∷ ("status", text "blocked")
    ∷ ("blocker", text "operator-decision")
    ∷ []

find_freed : find_live_task (delete_task python "b" small).1.tasks "c" ≡ some freed
unfolding delete_task snapshot tombstoned scrub scrub_list scrub_parent scrubbed_ids change_rest
    filter transaction find_live_task first is_live is_tombstoned resolve_creator_or_raise strip
    lstrip rstrip stamp append_comment change_first save_doc assert_no_shrink row_ids validate_tasks
    validate_from check_id check_fields check_status check_priority check_name check_comments
    check_labels check_schedule check_log_meta check_kind check_compute check_blocker one_of py_eq
    without_sentinel parse_deadline_or_raise get lookup pop put
find_freed = refl

delete_task-refers_example : refers "b" freed ≡ false
delete_task-refers_example =
    delete_task-refers python "b" small removal "c" freed rows-WellFormed refl delete_b find_freed

find_c : find_live_task rows "c" ≡ some gated
unfolding find_live_task first is_live is_tombstoned get lookup
find_c = refl

gated_status : is_text (get gated "status") "done" ≡ false
unfolding get lookup
gated_status = refl

gated_blocker : is_gate (get gated "blocker") ≡ true
unfolding get lookup
gated_blocker = refl

complete_task-gated_example : ¬ ((complete_task python "c" none small).0 ≡ ok signed)
complete_task-gated_example =
    complete_task-gated python "c" none small gated signed rows-WellFormed find_c gated_status
      gated_blocker
