-- ===== src/Throughput.antt =====
-- The counts behind the work-in-progress gate, and the gate label of a card (_throughput.py).
use scitex_todo.Prelude.{
  ℕ, ◌*◌, Bool, not, ◌&&◌, Option, none, some, List, [], ◌∷◌, leb, if◌then◌else◌, length, filter,
}
use scitex_todo.Py.Value.{Value, truthy, py_eq}
use scitex_todo.Card.{Card, get}
use scitex_todo.Env.{Env}
use scitex_todo.Validate.{one_of}

-- `WIP_STATUSES`
abbrev pub is_wip : Value → Bool
is_wip status = one_of status ("in_progress" ∷ [])

-- `status not in OPEN_EXCLUDED_STATUSES`
abbrev pub is_open : Value → Bool
is_open status = not (one_of status ("done" ∷ "failed" ∷ "cancelled" ∷ "goal" ∷ []))

abbrev pub is_wip_of : Value → Card → Bool
is_wip_of agent t = py_eq (get t "agent") agent && is_wip (get t "status")

unfoldable pub count_wip_for_agent : List Card → Value → ℕ
count_wip_for_agent tasks agent =
    if truthy agent then length (filter (is_wip_of agent) tasks) else 0

unfoldable pub count_open_for_agent : List Card → Value → ℕ
count_open_for_agent tasks agent =
    if truthy agent
    then length (filter (λ t. py_eq (get t "agent") agent && is_open (get t "status")) tasks)
    else 0

pub record WipReport : Type 0 where
  pub agent : Value
  pub wip_count : ℕ
  pub open_count : ℕ
  pub limit : ℕ

abbrev pub is_warn : WipReport → Bool
is_warn rep = leb rep.limit rep.wip_count

abbrev pub is_refuse : WipReport → Bool
is_refuse rep = leb (2 * rep.limit) rep.wip_count

unfoldable pub evaluate_wip : Env → List Card → Value → Option WipReport
evaluate_wip env tasks agent =
    if truthy agent
    then some (record {
      agent = agent;
      wip_count = count_wip_for_agent tasks agent;
      open_count = count_open_for_agent tasks agent;
      limit = env.wip_limit;
    })
    else none
