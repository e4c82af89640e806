-- ===== src/Examples/Listings.antt =====
-- Tests of listing and counting cards.
use scitex_todo.Prelude.{◌≡◌, ◌≤◌, refl, true, none, [], ◌∷◌, length}
use scitex_todo.Py.Dict.{lookup}
use scitex_todo.Py.Value.{text, py_eq}
use scitex_todo.Py.Raise.{ok}
use scitex_todo.Card.{get, is_tombstoned}
use scitex_todo.Listing.{
  Summary, scoped, matches_fields, match_task, default_scope, filter_tasks, list_tasks,
  summarize_from, summarize_tasks,
}
use scitex_todo.Listing.Totals.{sum, summarize_tasks-list_tasks}
use scitex_todo.Examples.{rows, python}

abbrev summary : Summary
summary = record {
  total = 3;
  by_status =
      (text "goal", 0)
      ∷ (text "in_progress", 1)
      ∷ (text "blocked", 1)
      ∷ (text "done", 1)
      ∷ (text "deferred", 0)
      ∷ (text "failed", 0)
      ∷ (text "cancelled", 0)
      ∷ [];
  by_scope = (text "", 3) ∷ [];
  by_assignee = (text "", 3) ∷ [];
}

summarizes : summarize_tasks python none none none rows ≡ ok summary
unfolding summarize_tasks summarize_from match_task matches_fields default_scope is_tombstoned get
    lookup py_eq
summarizes = refl

lists : list_tasks python none (λ c. ok true) (scoped none none) rows ≡ ok rows
unfolding list_tasks filter_tasks match_task matches_fields default_scope is_tombstoned get lookup
    py_eq
lists = refl

summarize_tasks-list_tasks_example :
    (summary.total ≡ length rows)
    × (sum summary.by_scope ≡ summary.total)
    × (sum summary.by_assignee ≡ summary.total)
    × (sum summary.by_status ≤ summary.total)
summarize_tasks-list_tasks_example =
    summarize_tasks-list_tasks python (λ c. ok true) none none none rows rows summary summarizes
      lists
