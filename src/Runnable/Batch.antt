-- ===== src/Runnable/Batch.antt =====
-- `runnable_tasks`.
use scitex_todo.Prelude.{
  ℕ, ◌+◌, String, Bool, true, not, ◌&&◌, ◌||◌, Option, none, some, List, [], ◌∷◌, ◌++◌, length,
  if◌then◌else◌, str_eq,
}
use scitex_todo.Py.Value.{Value, truthy, is_text}
use scitex_todo.Card.{Card, get}
use scitex_todo.Env.{Env}
use scitex_todo.Validate.{one_of}
use scitex_todo.Sort.{sort}
use scitex_todo.Runnable.Index.{Indexed, indexed, deps_satisfied}
use scitex_todo.Runnable.Key.{compare_cards}

-- `status in RUNNABLE_STATUSES`
unfoldable pub is_startable : Value → Bool
is_startable status = one_of status ("deferred" ∷ "in_progress" ∷ [])

-- `_passes_base_filter`
unfoldable pub passes_base_filter : Card → Bool
passes_base_filter task = is_startable (get task "status") && not (truthy (get task "blocker"))

-- `_matches_agent`, where an agent is asked for
unfoldable pub matches_agent : Card → Option String → Bool
matches_agent task none = true
matches_agent task (some agent) =
    is_text (get task "agent") agent || is_text (get task "assignee") agent

-- `_matches_group`, where a group is asked for: the empty text asks for the cards without one.
unfoldable pub matches_group : Card → Option String → Bool
matches_group task none = true
matches_group task (some group) =
    if str_eq group "" then not (truthy (get task "group")) else is_text (get task "group") group

pub record RunnableSet : Type 0 where
  pub tasks : List Card
  pub candidate_count : ℕ
  pub blocked_by_deps_count : ℕ

pub record Scan : Type 0 where
  pub base_candidates : List Card
  pub runnable : List Card
  pub blocked_by_deps : ℕ

-- The body of the loop; each `continue` leaves the state as it is.
unfoldable pub visit : Indexed → Option String → Option String → Scan → Card → Scan
visit ix agent group s t =
    if not (passes_base_filter t)
    then s
    else if not (matches_agent t agent)
    then s
    else if not (matches_group t group)
    then s
    else if deps_satisfied ix t
    then record s { base_candidates = s.base_candidates ++ t ∷ []; runnable = s.runnable ++ t ∷ [] }
    else record s {
      base_candidates = s.base_candidates ++ t ∷ [];
      blocked_by_deps = s.blocked_by_deps + 1;
    }

unfoldable pub scan : Indexed → Option String → Option String → Scan → List Card → Scan
scan ix agent group s [] = s
scan ix agent group s (t ∷ ts) = scan ix agent group (visit ix agent group s t) ts

unfoldable pub runnable_tasks : Env → List Card → Option String → Option String → RunnableSet
unfolding scan visit
runnable_tasks env snapshot agent group =
    let s =
      scan (indexed snapshot) agent group
        (record { base_candidates = []; runnable = []; blocked_by_deps = 0 }) snapshot in
    record {
      tasks = sort (compare_cards env) s.runnable;
      candidate_count = length s.base_candidates;
      blocked_by_deps_count = s.blocked_by_deps;
    }

-- A card that the three filters let through.
abbrev pub asked_for : Option String → Option String → Card → Bool
asked_for agent group t = passes_base_filter t && (matches_agent t agent && matches_group t group)
