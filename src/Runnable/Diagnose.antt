-- ===== src/Runnable/Diagnose.antt =====
-- `blocked_tasks`: the cards that are not runnable, each with the reason.
use scitex_todo.Prelude.{
  ℕ, ◌+◌, String, not, ◌&&◌, Option, none, some, List, [], ◌∷◌, ◌++◌, length, filter, if◌then◌else◌,
}
use scitex_todo.Py.Value.{Value, text, truthy, is_text}
use scitex_todo.Card.{Card, get, sequence}
use scitex_todo.Env.{Env, str}
use scitex_todo.Runnable.Index.{Indexed, indexed, settled}
use scitex_todo.Runnable.Batch.{is_startable, matches_agent, matches_group}

-- `BLOCKED_REASONS`
pub data Reason : Type 0 where
  explicit_blocker manual_block depends_on reverse_blocks : Reason

-- `BlockedTask`
pub record BlockedTask : Type 0 where
  pub id : String
  pub title : String
  pub reason : Reason
  pub chain : List Value

-- A histogram over `BLOCKED_REASONS`, which starts with a zero for each.
pub record ByReason : Type 0 where
  pub explicits : ℕ
  pub manuals : ℕ
  pub dependents : ℕ
  pub reverses : ℕ

-- `by_reason[reason] = by_reason.get(reason, 0) + 1`
unfoldable pub count : Reason → ByReason → ByReason
count explicit_blocker r = record r { explicits = r.explicits + 1 }
count manual_block r = record r { manuals = r.manuals + 1 }
count depends_on r = record r { dependents = r.dependents + 1 }
count reverse_blocks r = record r { reverses = r.reverses + 1 }

pub record BlockedSet : Type 0 where
  pub tasks : List BlockedTask
  pub total : ℕ
  pub by_reason : ByReason

-- `[up for up in ids if status.get(up) is not None and status.get(up) not in RESOLVED_STATUSES]`
unfoldable pub unresolved : Indexed → List Value → List Value
unresolved ix ids = filter (λ up. not (settled ix up)) ids

-- `blocks_into.get(own_id or "", [])`
abbrev own_key : Value → Value
own_key own_id = if truthy own_id then own_id else text ""

abbrev upstream_reason : List Value → List Value → Option (Reason × List Value)
upstream_reason (up ∷ ups) rev = some (depends_on, up ∷ ups)
upstream_reason [] (z ∷ zs) = some (reverse_blocks, z ∷ zs)
upstream_reason [] [] = none

-- `_diagnose_blocked`; `none` is `(None, [])`.
unfoldable pub diagnose_blocked : Env → Indexed → Card → Option (Reason × List Value)
diagnose_blocked env ix task =
    if is_text (get task "status") "blocked"
    then if truthy (get task "blocker")
      then some (explicit_blocker, text (str env (get task "blocker")) ∷ [])
      else some (manual_block, [])
    else upstream_reason (unresolved ix (sequence (get task "depends_on")))
        (unresolved ix (ix.blockers (own_key (get task "id"))))

abbrev text_of : Env → Value → String
text_of env v = if truthy v then str env v else ""

abbrev pub blocked_row : Env → Card → Reason × List Value → BlockedTask
blocked_row env t (reason, chain) = record {
  id = text_of env (get t "id");
  title = text_of env (get t "title");
  reason = reason;
  chain = chain;
}

unfoldable pub add_row :
    Env
    → Card
    → Option (Reason × List Value)
    → List BlockedTask × ByReason
    → List BlockedTask × ByReason
add_row env t none s = s
add_row env t (some r) s = (s.0 ++ blocked_row env t r ∷ [], count r.0 s.1)

-- The body of the loop.
unfoldable pub visit_blocked :
    Env
    → Indexed
    → Option String
    → Option String
    → List BlockedTask × ByReason
    → Card
    → List BlockedTask × ByReason
visit_blocked env ix agent group s t =
    if not (is_startable (get t "status")) && not (is_text (get t "status") "blocked")
    then s
    else if not (matches_agent t agent)
    then s
    else if not (matches_group t group)
    then s
    else add_row env t (diagnose_blocked env ix t) s

unfoldable pub scan_blocked :
    Env
    → Indexed
    → Option String
    → Option String
    → List BlockedTask × ByReason
    → List Card
    → List BlockedTask × ByReason
scan_blocked env ix agent group s [] = s
scan_blocked env ix agent group s (t ∷ ts) =
    scan_blocked env ix agent group (visit_blocked env ix agent group s t) ts

unfoldable pub blocked_tasks : Env → List Card → Option String → Option String → BlockedSet
unfolding scan_blocked visit_blocked add_row
blocked_tasks env snapshot agent group =
    let zeros : ByReason = record { explicits = 0; manuals = 0; dependents = 0; reverses = 0 } in
    let (out, by_reason) = scan_blocked env (indexed snapshot) agent group ([], zeros) snapshot in
    record { tasks = out; total = length out; by_reason = by_reason }
