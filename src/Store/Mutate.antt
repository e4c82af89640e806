-- ===== src/Store/Mutate.antt =====
-- `add_task` and `update_task` (_store_mutate.py).
pub mod Updated
pub mod Fields
pub mod Admitted
pub mod Added
pub mod Bounded
use scitex_todo.Prelude.{
  String, not, ◌&&◌, ◌||◌, Option, none, some, List, [], ◌∷◌, ◌++◌, str_eq, if◌then◌else◌,
}
use scitex_todo.Py.Dict.{put, pop, has}
use scitex_todo.Py.Value.{Value, null, text, is_null, is_text, truthy, py_eq}
use scitex_todo.Py.Text.{strip}
use scitex_todo.Py.Raise.{
  Result, ok, raise, raise_if, ◌>>=◌, ◌>>◌, type_error, task_validation_error,
}
use scitex_todo.Card.{Card, get, is_live, find_live_task, change_first, of_list}
use scitex_todo.Env.{Env}
use scitex_todo.Validate.{without_sentinel}
use scitex_todo.Store.State.{
  Store, Effect, card_event, heartbeat, created, completed, status_changed, Outcome, write,
  transaction,
}
use scitex_todo.Store.Actor.{resolve_creator_or_raise}
use scitex_todo.Store.Row.{or_not_found}
use scitex_todo.Store.Unblock.{emit_unblock_for_dependents, after_lock}
use scitex_todo.Store.Enums.{resolve_enum_clears}
use scitex_todo.Store.Wip.{enforce_wip_gate}

-- The arguments of `add_task`; `null` is `None`.
pub record NewTask : Type 0 where
  pub id : String
  pub title : String
  pub status : String
  pub scope : Value
  pub assignee : Value
  pub priority : Value
  pub parent : Value
  pub note : Value
  pub depends_on : Option (List Value)
  pub blocks : Option (List Value)
  pub repo : Value
  pub created_by : Option String
  pub extras : Card

-- `if v is not None: c[k] = v`
unfoldable pub put_given : Card → String → Value → Card
put_given c k v = if is_null v then c else put c k v

abbrev pub listed : Option (List Value) → Value
listed none = null
listed (some vs) = of_list vs

-- `for key, value in extras.items(): ...`
unfoldable pub put_extras : Card → Card → Card
unfolding put_given
put_extras c [] = c
put_extras c ((k, v) ∷ extras) = put_extras (put_given c k v) extras

abbrev stripped : Value → Value
stripped (text s) = text (strip s)
stripped v = v

-- `assignee or _agent_in or ""`, stripped
unfoldable pub owner_in : Value → Value → Value
owner_in assignee agent =
    stripped (if truthy assignee then assignee else if truthy agent then agent else text "")

-- The first fields of `new`.
abbrev pub stamped_row : Env → NewTask → String → Card
stamped_row env t creator =
    ("id", text t.id)
    ∷ ("title", text t.title)
    ∷ ("status", text t.status)
    ∷ ("created_at", text (env.now 0))
    ∷ ("last_activity", text (env.now 0))
    ∷ ("created_by", text creator)
    ∷ []

-- `new`, before the gate
unfoldable pub new_row : Env → NewTask → String → Value → Card → Card
unfolding put_given
new_row env t creator owner extras =
    let owned = put (put_given (stamped_row env t creator) "scope" t.scope) "assignee" owner in
    let placed =
      put_given (put_given (put_given owned "priority" t.priority) "parent" t.parent) "note"
        t.note in
    let linked =
      put_given
        (put_given (put_given placed "depends_on" (listed t.depends_on)) "blocks" (listed t.blocks))
        "repo" t.repo in
    put_extras linked (put extras "agent" owner)

-- The arguments as they are taken: the owner, the creator and the row.
unfoldable pub prepared_row : Env → NewTask → Result Card
prepared_row env t = do
  fields ← resolve_enum_clears (("status", text t.status) ∷ t.extras)
  let extras = pop fields "status"
  let owner = owner_in t.assignee (get extras "agent")
  raise_if (not (truthy owner)) task_validation_error
  creator ← resolve_creator_or_raise env t.created_by
  ok (new_row env t creator owner extras)

abbrev some_text : Value → Option String
some_text (text s) = some s
some_text _ = none

abbrev pub add_row : Env → String → Card → List Card → Result (Outcome Card)
add_row env id new tasks = do
  row ← enforce_wip_gate env new tasks (env.now 0)
  ok (
      write (tasks ++ row ∷ []) λ saved. (
        without_sentinel row,
        card_event created id (some_text (get row "created_by")) []
            ∷ heartbeat (some_text (get row "created_by"))
            ∷ [],
      ))

abbrev pub insert_row : Env → String → Store → Result Card → Result Card × Store
insert_row env id s (raise e) = (raise e, s)
insert_row env id s (ok new) = transaction env (add_row env id new) s

-- The arguments are taken before the store is locked.
unfoldable pub add_task : Env → NewTask → Store → Result Card × Store
add_task env t s = insert_row env t.id s (prepared_row env t)

-- `for key, value in fields.items(): ...`, where `None` deletes
unfoldable pub apply_fields : Card → Card → Card
apply_fields c [] = c
apply_fields c ((k, v) ∷ fields) = apply_fields (if is_null v then pop c k else put c k v) fields

-- `_stamp_deferred_at`
unfoldable pub stamp_deferred_at : String → Value → Card → Card
stamp_deferred_at now prior_status task =
    if not (is_text (get task "status") "deferred") || is_text prior_status "deferred"
    then task
    else put task "deferred_at" (text now)

-- The row after the update.
unfoldable pub updated_row : Env → Card → Card → Card
updated_row env fields task =
    let applied = apply_fields task fields in
    let touched =
      if has fields "last_activity"
      then applied
      else put applied "last_activity" (text (env.now 0)) in
    stamp_deferred_at (env.now (if has fields "last_activity" then 0 else 1)) (get task "status")
      touched

abbrev pub status_effects : String → Card → Value → Value → List Effect
status_effects task_id fields prior now =
    if has fields "status" && not (py_eq now prior)
    then (if is_text now "done"
        then card_event completed task_id none [] ∷ []
        else card_event status_changed task_id none (("from", prior) ∷ ("to", now) ∷ []) ∷ [])
    else []

abbrev pub updated_effects : Env → String → Card → Value → Value → List Card → List Effect
updated_effects env task_id fields prior now saved =
    (if is_text (get fields "status") "done" && not (is_text prior "done")
      then emit_unblock_for_dependents env saved task_id none
      else [])
    ++ status_effects task_id fields prior now
    ++ heartbeat env.agent ∷ []

abbrev pub update_row : Env → String → Card → List Card → Result (Outcome (Card × List Effect))
update_row env task_id fields tasks = do
  task ← or_not_found (find_live_task tasks task_id)
  let row = updated_row env fields task
  ok (
      write (change_first (is_live task_id) (λ c. row) tasks) λ saved. (
        (
          without_sentinel row,
          updated_effects env task_id fields (get task "status") (get row "status") saved,
        ),
        [],
      ))

abbrev pub change_row : Env → String → Store → Result Card → Result (Card × List Effect) × Store
change_row env task_id s (raise e) = (raise e, s)
change_row env task_id s (ok fields) = transaction env (update_row env task_id fields) s

-- The call up to the end of its locked part.
abbrev pub update_locked : Env → String → Card → Store → Result (Card × List Effect) × Store
update_locked env task_id fields s = change_row env task_id s (resolve_enum_clears fields)

unfoldable pub update_task : Env → String → Card → Store → Result Card × Store
update_task env task_id fields s =
    if str_eq task_id ""
    then (raise type_error, s)
    else after_lock env (update_locked env task_id fields s)
