-- ===== src/Examples/Restoration.antt =====
-- Tests of restoring a card: one that was deleted, and one of which the store has no row.
use mathlib.Core.Option.{map as map_option}
use scitex_todo.Prelude.{
  ◌≡◌, refl, inl, true, false, none, some, [], ◌∷◌, str_eq, if◌then◌else◌, filter,
}
use scitex_todo.Py.Dict.{lookup, put, pop}
use scitex_todo.Py.Value.{text, py_eq}
use scitex_todo.Py.Text.{strip, lstrip, rstrip}
use scitex_todo.Py.Raise.{ok}
use scitex_todo.Card.{
  Card, get, is_live, is_tombstoned, find_live_task, first, change_first, change_rest, of_dict,
}
use scitex_todo.Validate.{
  check_id, check_fields, without_sentinel, validate_from, validate_tasks, one_of,
}
use scitex_todo.Validate.Fields.{
  check_status, check_priority, check_name, check_comments, check_labels, check_schedule,
  check_log_meta, check_kind, check_compute, check_blocker,
}
use scitex_todo.Deadlines.{parse_deadline_or_raise}
use scitex_todo.Store.State.{Store, row_ids, assert_no_shrink, save_doc, transaction}
use scitex_todo.Store.Atomic.{WellFormed}
use scitex_todo.Store.Actor.{resolve_creator_or_raise}
use scitex_todo.Store.Row.{append_comment, stamp}
use scitex_todo.Store.Delete.{
  Removed, snapshot, is_dict, delete_task, restore_task, tombstoned, scrub, scrub_list,
  scrub_parent, scrubbed_ids,
}
use scitex_todo.Store.Delete.Restored.{restore_task-delete_task}
use scitex_todo.Store.Delete.Stamped.{restore_task-stamped}
use scitex_todo.Examples.{in_work, rows, small, python, rows-WellFormed, clock}

abbrev removal : Removed
removal = record { removed = in_work; refs = text "c" ∷ [] }

delete_in_work : (delete_task python "b" small).0 ≡ ok removal
unfolding delete_task snapshot restore_task tombstoned scrub scrub_list scrub_parent scrubbed_ids
    change_rest filter transaction find_live_task first is_live is_tombstoned
    resolve_creator_or_raise strip lstrip rstrip stamp append_comment change_first save_doc
    assert_no_shrink row_ids validate_tasks validate_from check_id check_fields check_status
    check_priority check_name check_comments check_labels check_schedule check_log_meta check_kind
    check_compute check_blocker one_of py_eq without_sentinel parse_deadline_or_raise get lookup pop
    put
delete_in_work = refl

restore_in_work :
    (restore_task python in_work (text "c" ∷ []) (delete_task python "b" small).1).0
    ≡ ok (in_work, text "c" ∷ [])
unfolding delete_task snapshot restore_task tombstoned scrub scrub_list scrub_parent scrubbed_ids
    change_rest filter transaction find_live_task first is_live is_tombstoned
    resolve_creator_or_raise strip lstrip rstrip stamp append_comment change_first save_doc
    assert_no_shrink row_ids validate_tasks validate_from check_id check_fields check_status
    check_priority check_name check_comments check_labels check_schedule check_log_meta check_kind
    check_compute check_blocker one_of py_eq without_sentinel parse_deadline_or_raise get lookup pop
    put
restore_in_work = refl

find_in_work : find_live_task rows "b" ≡ some in_work
unfolding find_live_task first is_live is_tombstoned get lookup
find_in_work = refl

no_log : is_dict (get in_work "_log_meta") ≡ false
unfolding get lookup
no_log = refl

restore_task-delete_task_example :
    (get in_work "title" ≡ get in_work "title")
    × (find_live_task
          (restore_task python in_work (text "c" ∷ []) (delete_task python "b" small).1).1.tasks
          "b"
        ≡ (if str_eq "b" "b"
            then some in_work
            else map_option (scrub "b") (find_live_task rows "b")))
restore_task-delete_task_example =
    restore_task-delete_task python python "b" small in_work removal (in_work, text "c" ∷ []) "b"
      "title" rows-WellFormed refl find_in_work no_log refl delete_in_work restore_in_work

abbrev shipped_with : Card → Card
shipped_with log =
    ("id", text "w")
    ∷ ("title", text "Done")
    ∷ ("status", text "done")
    ∷ ("_log_meta", of_dict (("completed_at", text clock) ∷ log))
    ∷ []

abbrev log_of_deletion : Card
log_of_deletion = ("deleted_at", text clock) ∷ ("deleted_by", text "worker") ∷ []

abbrev shipping : Store
shipping = record { tasks = shipped_with [] ∷ []; sections = []; effects = [] }

shipping-WellFormed : WellFormed shipping.tasks
unfolding get lookup py_eq one_of
shipping-WellFormed = record {
  distinct = (tt, tt);
  sound = (record { named = refl; titled = refl; priority = inl refl; blocker = inl refl }, tt);
}

abbrev shipped_removal : Removed
shipped_removal = record { removed = shipped_with log_of_deletion; refs = [] }

delete_shipped : (delete_task python "w" shipping).0 ≡ ok shipped_removal
unfolding delete_task snapshot restore_task tombstoned scrub scrub_list scrub_parent scrubbed_ids
    change_rest filter transaction find_live_task first is_live is_tombstoned
    resolve_creator_or_raise strip lstrip rstrip stamp append_comment change_first save_doc
    assert_no_shrink row_ids validate_tasks validate_from check_id check_fields check_status
    check_priority check_name check_comments check_labels check_schedule check_log_meta check_kind
    check_compute check_blocker one_of py_eq without_sentinel parse_deadline_or_raise get lookup pop
    put
delete_shipped = refl

restore_shipped :
    (restore_task python (shipped_with log_of_deletion) [] (delete_task python "w" shipping).1).0
    ≡ ok (shipped_with log_of_deletion, [])
unfolding delete_task snapshot restore_task tombstoned scrub scrub_list scrub_parent scrubbed_ids
    change_rest filter transaction find_live_task first is_live is_tombstoned
    resolve_creator_or_raise strip lstrip rstrip stamp append_comment change_first save_doc
    assert_no_shrink row_ids validate_tasks validate_from check_id check_fields check_status
    check_priority check_name check_comments check_labels check_schedule check_log_meta check_kind
    check_compute check_blocker one_of py_eq without_sentinel parse_deadline_or_raise get lookup pop
    put
restore_shipped = refl

find_shipped : find_live_task shipping.tasks "w" ≡ some (shipped_with [])
unfolding find_live_task first is_live is_tombstoned get lookup
find_shipped = refl

has_log : is_dict (get (shipped_with []) "_log_meta") ≡ true
unfolding get lookup
has_log = refl

restore_task-stamped_example :
    find_live_task
      (restore_task python
        (shipped_with log_of_deletion)
        []
        (delete_task python "w" shipping).1).1.tasks
      "w"
    ≡ none
restore_task-stamped_example =
    restore_task-stamped python python "w" shipping (shipped_with []) shipped_removal
      (shipped_with log_of_deletion, []) shipping-WellFormed refl find_shipped has_log
      delete_shipped restore_shipped

abbrev lost : Card
lost = ("id", text "z") ∷ ("title", text "Lost") ∷ []

lost_id : get lost "id" ≡ text "z"
unfolding get lookup
lost_id = refl

lost_unmarked : is_tombstoned lost ≡ false
unfolding is_tombstoned get lookup
lost_unmarked = refl

restore_lost : (restore_task python lost [] small).0 ≡ ok (lost, [])
unfolding restore_task transaction find_live_task first is_live is_tombstoned
    resolve_creator_or_raise strip lstrip rstrip stamp append_comment change_first save_doc
    assert_no_shrink row_ids validate_tasks validate_from check_id check_fields check_status
    check_priority check_name check_comments check_labels check_schedule check_log_meta check_kind
    check_compute check_blocker one_of py_eq without_sentinel parse_deadline_or_raise get lookup pop
    put
restore_lost = refl
