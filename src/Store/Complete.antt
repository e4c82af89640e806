-- ===== src/Store/Complete.antt =====
-- `complete_task` (_store_lifecycle.py).
use scitex_todo.Prelude.{String, Option, some, List, [], ◌∷◌, ◌++◌, str_eq, if◌then◌else◌}
use scitex_todo.Py.Dict.{put}
use scitex_todo.Py.Value.{text, is_text}
use scitex_todo.Py.Raise.{Result, ok, raise_if, ◌>>=◌, ◌>>◌, type_error}
use scitex_todo.Card.{Card, get, is_live, find_live_task, change_first}
use scitex_todo.Env.{Env}
use scitex_todo.Validate.{without_sentinel}
use scitex_todo.Store.State.{
  Store, Effect, card_event, completed, Outcome, keep, write, transaction,
}
use scitex_todo.Store.Actor.{default_agent}
use scitex_todo.Store.Row.{stamp, or_not_found}
use scitex_todo.Store.Unblock.{emit_unblock_for_dependents, after_lock}

-- The row that is closed: its status and its completion stamp.
unfoldable pub completed_row : Env → String → Card → Card
completed_row env who task =
    stamp (put task "status" (text "done")) "completed_at" (env.now 0) "completed_by" who

-- What is sent once the row is saved and the lock is free.
abbrev pub completed_effects : Env → String → Option String → String → List Card → List Effect
completed_effects env task_id by who saved =
    emit_unblock_for_dependents env saved task_id by
    ++ card_event completed task_id (some who) [] ∷ []

abbrev pub complete_row :
    Env → String → Option String → List Card → Card → Result (Outcome (Card × List Effect))
complete_row env task_id by tasks task =
    if is_text (get task "status") "done" then ok (keep (task, []) []) else (do
      who ← default_agent env by
      let row = completed_row env who task
      ok (
          write (change_first (is_live task_id) (λ c. row) tasks)
            λ saved. ((without_sentinel row, completed_effects env task_id by who saved), [])))

-- The part under the store's lock: the answer, and what is to be sent.
abbrev pub complete_locked :
    Env → String → Option String → Store → Result (Card × List Effect) × Store
complete_locked env task_id by = transaction env λ tasks. (do
  raise_if (str_eq task_id "") type_error
  task ← or_not_found (find_live_task tasks task_id)
  complete_row env task_id by tasks task)

unfoldable pub complete_task : Env → String → Option String → Store → Result Card × Store
complete_task env task_id by s = after_lock env (complete_locked env task_id by s)
