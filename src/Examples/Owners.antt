-- ===== src/Examples/Owners.antt =====
-- Tests of reopening and of handing over, on a store of one finished card.
use Prim.Native.String.{◌++◌ as append_text}
use scitex_todo.Prelude.{
  ◌≡◌, refl, inl, true, none, some, [], ◌∷◌, ◌++◌, filter, str_eq, if◌then◌else◌,
}
use scitex_todo.Py.Dict.{lookup, put, pop}
use scitex_todo.Py.Value.{text, null, py_eq, contains, strings}
use scitex_todo.Py.Text.{strip, lstrip, rstrip}
use scitex_todo.Py.Raise.{ok}
use scitex_todo.Card.{
  Card, get, is_live, is_tombstoned, find_live_task, first, change_first, of_list, of_dict,
  sequence, mapping,
}
use scitex_todo.Validate.{
  check_id, check_fields, without_sentinel, validate_from, validate_tasks, one_of,
}
use scitex_todo.Validate.Fields.{
  check_status, check_priority, check_name, check_comments, check_labels, check_schedule,
  check_log_meta, check_kind, check_compute, check_blocker,
}
use scitex_todo.Deadlines.{parse_deadline_or_raise}
use scitex_todo.Store.State.{Store, row_ids, assert_no_shrink, save_doc, transaction}
use scitex_todo.Store.Actor.{resolve_creator_or_raise}
use scitex_todo.Store.Row.{append_comment, comment, stamp}
use scitex_todo.Store.Atomic.{WellFormed}
use scitex_todo.Store.Resolve.{reopen_task, reopened_row, clear_completion_stamp, reopen_text}
use scitex_todo.Store.Reopened.{reopen_task-find}
use scitex_todo.Store.Reassign.{
  Moved, move_all, reassign_all, Reassigned, reassign_task, reassigned_row, owner_of, with_owner,
  with_keepers, keep_subscribed, reassign_text,
}
use scitex_todo.Store.Handover.{reassign_task-find, reassign_task-contains}
use scitex_todo.Store.Relations.{add, set_subscriber, set_list_member, with_member, changed_members}
use scitex_todo.Store.Reassign.Emptied.{NoneOwned, reassign_all-NoneOwned}
use scitex_todo.Examples.{python, clock}

abbrev stamped : Card
stamped =
    ("id", text "e")
    ∷ ("title", text "Test")
    ∷ ("status", text "done")
    ∷ ("agent", text "ann")
    ∷ ("_log_meta", of_dict (("completed_at", text clock) ∷ ("completed_by", text "ann") ∷ []))
    ∷ []

abbrev one_card : Store
one_card = record { tasks = stamped ∷ []; sections = []; effects = [] }

stamped-WellFormed : WellFormed (stamped ∷ [])
unfolding get lookup
stamped-WellFormed = record {
  distinct = (tt, tt);
  sound = (record { named = refl; titled = refl; priority = inl refl; blocker = inl refl }, tt);
}

abbrev reopened : Card
reopened =
    ("id", text "e")
    ∷ ("title", text "Test")
    ∷ ("status", text "blocked")
    ∷ ("agent", text "ann")
    ∷ ("blocker", text "operator-decision")
    ∷ ("comments", of_list (comment "worker" clock (reopen_text true) ∷ []))
    ∷ []

reopen_e : (reopen_task python "e" none one_card).0 ≡ ok reopened
unfolding reopen_task reopened_row clear_completion_stamp transaction find_live_task first is_live
    is_tombstoned resolve_creator_or_raise strip lstrip rstrip stamp append_comment change_first
    save_doc assert_no_shrink row_ids validate_tasks validate_from check_id check_fields
    check_status check_priority check_name check_comments check_labels check_schedule check_log_meta
    check_kind check_compute check_blocker one_of py_eq without_sentinel parse_deadline_or_raise get
    lookup pop put
reopen_e = refl

reopen_task-find_example :
    (get reopened "status" ≡ text "blocked")
    × (get reopened "blocker" ≡ text "operator-decision")
    × (get (mapping (get reopened "_log_meta")) "completed_at" ≡ null)
    × (get (mapping (get reopened "_log_meta")) "completed_by" ≡ null)
    × (find_live_task (reopen_task python "e" none one_card).1.tasks "e"
        ≡ (if str_eq "e" "e" then some reopened else find_live_task (stamped ∷ []) "e"))
reopen_task-find_example =
    reopen_task-find python "e" none one_card reopened "e" stamped-WellFormed reopen_e

abbrev handed : Card
handed =
    ("id", text "e")
    ∷ ("title", text "Test")
    ∷ ("status", text "done")
    ∷ ("agent", text "bob")
    ∷ ("_log_meta", of_dict (("completed_at", text clock) ∷ ("completed_by", text "ann") ∷ []))
    ∷ ("assignee", text "bob")
    ∷ ("scope", text "agent:bob")
    ∷ ("comments", of_list (comment "worker" clock (reassign_text "ann" "bob" "worker") ∷ []))
    ∷ ("subscribers", strings ("ann" ∷ []))
    ∷ ("last_activity", text clock)
    ∷ []

abbrev handover : Reassigned
handover = record {
  from_owner = text "ann";
  to_owner = "bob";
  actor = "worker";
  changed = true;
  task = handed;
}

reassign_e : (reassign_task python "e" "bob" none one_card).0 ≡ ok handover
unfolding reassign_task reassigned_row owner_of with_owner with_keepers keep_subscribed transaction
    find_live_task first is_live is_tombstoned resolve_creator_or_raise strip lstrip rstrip stamp
    append_comment change_first save_doc assert_no_shrink row_ids validate_tasks validate_from
    check_id check_fields check_status check_priority check_name check_comments check_labels
    check_schedule check_log_meta check_kind check_compute check_blocker one_of py_eq
    without_sentinel parse_deadline_or_raise get lookup pop put
reassign_e = refl

reassign_task-find_example :
    (get handed "agent" ≡ text "bob")
    × (get handed "assignee" ≡ text "bob")
    × (get handed "scope" ≡ text (append_text "agent:" "bob"))
    × (find_live_task (reassign_task python "e" "bob" none one_card).1.tasks "e"
        ≡ (if str_eq "e" "e" then some handed else find_live_task (stamped ∷ []) "e"))
reassign_task-find_example =
    reassign_task-find python "e" "bob" none one_card handover "e" stamped-WellFormed reassign_e
      refl

reassign_task-contains_example : contains (sequence (get handed "subscribers")) (text "ann") ≡ true
reassign_task-contains_example =
    reassign_task-contains python "e" "bob" "ann" none one_card handover stamped-WellFormed
      reassign_e refl refl refl

abbrev watched : Card
watched = stamped ++ ("subscribers", strings ("bob" ∷ [])) ∷ ("last_activity", text clock) ∷ []

subscribe_bob : (set_subscriber python "e" "bob" add one_card).0 ≡ ok watched
unfolding set_subscriber set_list_member with_member changed_members filter transaction
    find_live_task first is_live is_tombstoned resolve_creator_or_raise strip lstrip rstrip stamp
    append_comment change_first save_doc assert_no_shrink row_ids validate_tasks validate_from
    check_id check_fields check_status check_priority check_name check_comments check_labels
    check_schedule check_log_meta check_kind check_compute check_blocker one_of py_eq
    without_sentinel parse_deadline_or_raise get lookup pop put
subscribe_bob = refl

abbrev moved_ann : Moved
moved_ann = record { count = 1; card_ids = "e" ∷ []; mover = "worker" }

move_ann : (reassign_all python "ann" "bob" none one_card).0 ≡ ok moved_ann
unfolding reassign_all move_all reassigned_row owner_of with_owner with_keepers keep_subscribed
    transaction find_live_task first is_live is_tombstoned resolve_creator_or_raise strip lstrip
    rstrip stamp append_comment change_first save_doc assert_no_shrink row_ids validate_tasks
    validate_from check_id check_fields check_status check_priority check_name check_comments
    check_labels check_schedule check_log_meta check_kind check_compute check_blocker one_of py_eq
    without_sentinel parse_deadline_or_raise get lookup pop put
move_ann = refl

reassign_all-NoneOwned_example :
    NoneOwned "ann" (reassign_all python "ann" "bob" none one_card).1.tasks
reassign_all-NoneOwned_example =
    reassign_all-NoneOwned python "ann" "bob" none one_card moved_ann stamped-WellFormed move_ann
