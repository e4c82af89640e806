-- ===== src/Runnable/Index.antt =====
-- The two indexes that the module builds over the snapshot, read by key, and the test on a card's
-- upstream cards.
use scitex_todo.Prelude.{Bool, ◌&&◌, ◌||◌, List, [], ◌∷◌, ◌++◌, all, if◌then◌else◌}
use scitex_todo.Py.Value.{Value, null, truthy, is_null, py_eq}
use scitex_todo.Card.{Card, get, sequence}
use scitex_todo.Validate.{one_of}

-- `{t.get("id"): t.get("status") for t in snapshot if t.get("id")}` read at a key: a later card with
-- the same id overwrites an earlier one, and a missing key reads None.
unfoldable pub status_by_id : Value → List Card → Value → Value
status_by_id found [] key = found
status_by_id found (t ∷ ts) key =
    status_by_id (if truthy (get t "id") && py_eq (get t "id") key then get t "status" else found)
      ts key

-- `for x_id in t.get("blocks") or (): blocks_into.setdefault(x_id, []).append(z_id)`, read at a key.
unfoldable pub appended : Value → List Value → Value → List Value
appended z_id [] key = []
appended z_id (x_id ∷ ids) key =
    if py_eq x_id key then z_id ∷ appended z_id ids key else appended z_id ids key

-- `blocks_into.get(key, ())`
unfoldable pub blocks_into : List Card → Value → List Value
unfolding appended
blocks_into [] key = []
blocks_into (t ∷ ts) key =
    (if truthy (get t "id") then appended (get t "id") (sequence (get t "blocks")) key else [])
    ++ blocks_into ts key

-- The snapshot's two indexes.
pub record Indexed : Type 0 where
  pub status : Value → Value
  pub blockers : Value → List Value

abbrev pub indexed : List Card → Indexed
indexed snapshot = record { status = status_by_id null snapshot; blockers = blocks_into snapshot }

-- `upstream_status in RESOLVED_STATUSES`
unfoldable pub is_resolved : Value → Bool
is_resolved status = one_of status ("done" ∷ "goal" ∷ [])

-- An upstream id holds nothing up: no card has it, or its card is resolved.
unfoldable pub settled : Indexed → Value → Bool
settled ix up = is_null (ix.status up) || is_resolved (ix.status up)

-- The upstream ids of a card: those that it names, and those that name it.
unfoldable pub reverse_upstream : Indexed → Value → List Value
reverse_upstream ix own_id = if is_null own_id then [] else ix.blockers own_id

-- `_deps_satisfied`: two loops that return at the first upstream card that is not resolved.
unfoldable pub deps_satisfied : Indexed → Card → Bool
deps_satisfied ix task =
    all (settled ix) (sequence (get task "depends_on"))
    && all (settled ix) (reverse_upstream ix (get task "id"))
