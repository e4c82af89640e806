-- ===== src/Store/Resolve.antt =====
-- `resolve_task` and `reopen_task` (_store_lifecycle.py).
use Prim.Native.String.{◌++◌ as append_text}
use scitex_todo.Prelude.{
  String, Bool, true, false, not, ◌||◌, Option, some, List, [], ◌∷◌, ◌++◌, str_eq, if◌then◌else◌,
}
use scitex_todo.Py.Dict.{put, pop}
use scitex_todo.Py.Value.{Value, text, dict, entries, is_text, is_null}
use scitex_todo.Py.Raise.{Result, ok, raise_if, ◌>>=◌, ◌>>◌, value_error}
use scitex_todo.Card.{Card, get, is_live, find_live_task, change_first, of_dict}
use scitex_todo.Env.{Env}
use scitex_todo.Store.State.{Store, Effect, card_event, status_changed, write, transaction}
use scitex_todo.Store.Actor.{default_agent}
use scitex_todo.Store.Row.{append_comment, comment, or_not_found}
use scitex_todo.Store.Unblock.{emit_unblock_for_dependents, after_lock}

abbrev pub resolve_text : Bool → String
resolve_text true = "[resolve (noop — already done)]"
resolve_text false =
    "[RESOLVED via mcp.resolve_task] flipped status='blocked'->done, blocker cleared."

unfoldable pub resolved_row : Env → String → Card → Result Card
resolved_row env who target =
    append_comment (pop (put target "status" (text "done")) "blocker")
      (comment who (env.now 0) (resolve_text (is_text (get target "status") "done")))

abbrev resolved_effects : Env → String → String → Value → List Card → List Effect
resolved_effects env task_id who prior saved =
    if is_text prior "done"
    then []
    else emit_unblock_for_dependents env saved task_id (some who)
      ++ card_event status_changed task_id (some who) (("from", prior) ∷ ("to", text "done") ∷ [])
        ∷ []

-- The part under the store's lock. A card that was done is only logged: nothing is sent.
abbrev pub resolve_locked :
    Env → String → Option String → Store → Result (Card × List Effect) × Store
resolve_locked env task_id actor = transaction env λ tasks. (do
  raise_if (str_eq task_id "") value_error
  who ← default_agent env actor
  target ← or_not_found (find_live_task tasks task_id)
  row ← resolved_row env who target
  ok (
      write (change_first (is_live task_id) (λ c. row) tasks)
        λ saved. ((row, resolved_effects env task_id who (get target "status") saved), [])))

unfoldable pub resolve_task : Env → String → Option String → Store → Result Card × Store
resolve_task env task_id actor s = after_lock env (resolve_locked env task_id actor s)

abbrev pub without_stamps : Card → Card
without_stamps meta = pop (pop meta "completed_at") "completed_by"

abbrev pub put_meta : Card → Card → Card
put_meta c [] = pop c "_log_meta"
put_meta c (e ∷ meta) = put c "_log_meta" (of_dict (e ∷ meta))

abbrev pub clear_meta : Card → Value → Card × Bool
clear_meta c (dict meta) = (
  put_meta c (without_stamps (entries meta)),
  not (is_null (get (entries meta) "completed_at"))
      || not (is_null (get (entries meta) "completed_by")),
)
clear_meta c _ = (c, false)

-- `clear_completion_stamp`: the card, and whether anything went.
unfoldable pub clear_completion_stamp : Card → Card × Bool
clear_completion_stamp c = clear_meta c (get c "_log_meta")

abbrev pub reopen_text : Bool → String
reopen_text cleared =
    append_text
      "[REOPENED via mcp.reopen_task] flipped status='done'->blocked, blocker=operator-decision restored."
      (if cleared
        then " Cleared _log_meta.completed_{at,by} — the card is no longer completed."
        else "")

unfoldable pub reopened_row : Env → String → Card → Result Card
reopened_row env who target =
    let (c, cleared) =
      clear_completion_stamp
        (put (put target "status" (text "blocked")) "blocker" (text "operator-decision")) in
    append_comment c (comment who (env.now 0) (reopen_text cleared))

unfoldable pub reopen_task : Env → String → Option String → Store → Result Card × Store
reopen_task env task_id by = transaction env λ tasks. (do
  raise_if (str_eq task_id "") value_error
  who ← default_agent env by
  target ← or_not_found (find_live_task tasks task_id)
  row ← reopened_row env who target
  ok (write (change_first (is_live task_id) (λ c. row) tasks) λ saved. (row, [])))
