-- ===== src/Examples/Lists.antt =====
-- Tests of validation and of the views.
use mathlib.Core.List.{Perm}
use scitex_todo.Sort.{IsSorted}
use scitex_todo.Prelude.{
  all, not, ◌||◌, ◌≡◌, refl, false, none, List, [], ◌∷◌, length, filter, All, ◌&&◌, map, ◌+◌,
}
use scitex_todo.Py.Dict.{lookup, put, pop}
use scitex_todo.Py.Value.{text, is_text, is_null, py_eq}
use scitex_todo.Py.Raise.{ok}
use scitex_todo.Card.{Card, get}
use scitex_todo.Validate.{
  check_id, check_fields, without_sentinel, validate_from, validate_tasks, one_of,
}
use scitex_todo.Validate.Fields.{
  check_status, check_priority, check_name, check_comments, check_labels, check_schedule,
  check_log_meta, check_kind, check_compute, check_blocker,
}
use scitex_todo.Deadlines.{parse_deadline_or_raise}
use scitex_todo.Validate.Sound.{IsSound, Distinct, validate_tasks-IsSound}
use scitex_todo.Runnable.Index.{indexed, deps_satisfied}
use scitex_todo.Runnable.Key.{compare_cards}
use scitex_todo.Runnable.Batch.{runnable_tasks, asked_for, matches_agent, matches_group}
use scitex_todo.Runnable.Chosen.{runnable_tasks-perm}
use scitex_todo.Runnable.Diagnose.{blocked_tasks}
use scitex_todo.Runnable.Partition.{blocked_tasks_total}
use scitex_todo.Runnable.Upstream.{AreNamed, is_clear, is_upstream, deps_satisfied-all}
use scitex_todo.Next.{is_runnable, next_task, IsPick, next_task-IsPick}
use scitex_todo.Examples.{in_work, rows, python, rows-WellFormed}

abbrev draft : List Card
draft = (("id", text "d") ∷ ("title", text "Plan") ∷ ("blocker", text "none") ∷ []) ∷ rows

abbrev checked_draft : List Card
checked_draft = (("id", text "d") ∷ ("title", text "Plan") ∷ []) ∷ rows

validate_draft : validate_tasks python draft ≡ ok checked_draft
unfolding validate_tasks validate_from check_id check_fields check_status check_priority check_name
    check_comments check_labels check_schedule check_log_meta check_kind check_compute check_blocker
    one_of py_eq without_sentinel parse_deadline_or_raise get lookup pop put
validate_draft = refl

validate_tasks-IsSound_example :
    Distinct checked_draft
    × All IsSound checked_draft
    × (checked_draft ≡ map without_sentinel draft)
validate_tasks-IsSound_example = validate_tasks-IsSound python draft checked_draft validate_draft

rows_are-IsSound : All IsSound rows
rows_are-IsSound = rows-WellFormed.sound

runnable_tasks-perm_example :
    Perm
      (runnable_tasks python rows none none).tasks
      (filter (λ t. asked_for none none t && deps_satisfied (indexed rows) t) rows)
    × IsSorted (compare_cards python) (runnable_tasks python rows none none).tasks
    × ((runnable_tasks python rows none none).candidate_count
        ≡ length (filter (asked_for none none) rows))
    × ((runnable_tasks python rows none none).candidate_count
        ≡ length (filter (λ t. asked_for none none t && deps_satisfied (indexed rows) t) rows)
          + (runnable_tasks python rows none none).blocked_by_deps_count)
runnable_tasks-perm_example = runnable_tasks-perm python rows none none

blocked_tasks_total_example :
    (blocked_tasks python rows none none).total
    ≡ (runnable_tasks python rows none none).blocked_by_deps_count
      + length (
          filter
            (λ t.
              is_text (get t "status") "blocked" && (matches_agent t none && matches_group t none))
            rows)
blocked_tasks_total_example = blocked_tasks_total python rows none none rows_are-IsSound

b_has_id : is_null (get in_work "id") ≡ false
unfolding get lookup
b_has_id = refl

named_rows : AreNamed rows
unfolding get lookup
named_rows = (refl, (refl, (refl, tt)))

deps_satisfied-all_example :
    deps_satisfied (indexed rows) in_work
    ≡ all (λ z. is_clear z || not (is_upstream in_work z)) rows
deps_satisfied-all_example =
    deps_satisfied-all rows in_work rows-WellFormed.distinct named_rows b_has_id

next_task-IsPick_example :
    IsPick python
      (filter (λ t. is_runnable t none none) rows)
      (next_task python rows none none).task
next_task-IsPick_example = next_task-IsPick python rows none none
