-- ===== src/Runnable/Key.antt =====
-- `_sort_key` of _runnable.py and of _next.py: priority ascending with none last, then the newest
-- activity, then the newest card, then the id.
use Prim.Native.Nat.{Ordering}
use Prim.Native.String.{compare}
use scitex_todo.Prelude.{String, if◌then◌else◌, Option, none, some}
use scitex_todo.Order.{
  IsOrder, by_then, by_then-IsOrder, key-IsOrder, reversed-IsOrder, compare_ℤ, compare_ℤ-IsOrder,
  text-IsOrder,
}
use scitex_todo.Py.Value.{ℤ, pos, Value, text, truthy, as_int}
use scitex_todo.Card.{Card, get}
use scitex_todo.Env.{Env, str}

abbrev int_or : Option ℤ → ℤ
int_or none = pos 10_000_000
int_or (some z) = z

-- `10_000_000 if priority is None else int(priority)`
unfoldable pub priority_rank : Card → ℤ
priority_rank task = int_or (as_int (get task "priority"))

abbrev text_or_empty : Value → String
text_or_empty (text s) = s
text_or_empty _ = ""

-- `task.get("last_activity") or ""`
unfoldable pub last_activity : Card → String
last_activity task = text_or_empty (get task "last_activity")

unfoldable pub created_at : Card → String
created_at task = text_or_empty (get task "created_at")

-- `str(task.get("id") or "")`
unfoldable pub id_text : Env → Card → String
id_text env task = if truthy (get task "id") then str env (get task "id") else ""

abbrev by_id : Env → Card → Card → Ordering
by_id env a b = compare (id_text env a) (id_text env b)

abbrev by_created : Env → Card → Card → Ordering
by_created env = by_then (λ a b. compare (created_at b) (created_at a)) (by_id env)

abbrev by_activity : Env → Card → Card → Ordering
by_activity env = by_then (λ a b. compare (last_activity b) (last_activity a)) (by_created env)

-- `_sort_key`, as the comparison of two cards; `_NegStr` turns a text's order round.
abbrev pub compare_cards : Env → Card → Card → Ordering
compare_cards env = by_then (λ a b. compare_ℤ (priority_rank a) (priority_rank b)) (by_activity env)

pub compare_cards-IsOrder : (env : Env) → IsOrder (compare_cards env)
compare_cards-IsOrder env =
    by_then-IsOrder (λ a b. compare_ℤ (priority_rank a) (priority_rank b)) (by_activity env)
      (key-IsOrder priority_rank compare_ℤ compare_ℤ-IsOrder)
      (by_then-IsOrder (λ a b. compare (last_activity b) (last_activity a)) (by_created env)
        (reversed-IsOrder _ (key-IsOrder last_activity compare text-IsOrder))
        (by_then-IsOrder (λ a b. compare (created_at b) (created_at a)) (by_id env)
          (reversed-IsOrder _ (key-IsOrder created_at compare text-IsOrder))
          (key-IsOrder (id_text env) compare text-IsOrder)))
