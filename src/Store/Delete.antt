-- ===== src/Store/Delete.antt =====
-- `delete_task` and `restore_task` (_store_lifecycle.py).
pub mod Gone
pub mod Unnamed
pub mod Restored
pub mod Stamped
use scitex_todo.Prelude.{
  String, Bool, true, false, not, ◌&&◌, ◌||◌, Option, none, some, List, [], ◌∷◌, ◌++◌, filter,
  str_eq, if◌then◌else◌,
}
use scitex_todo.Py.Dict.{put, pop}
use scitex_todo.Py.Value.{Value, text, list, dict, elements, truthy, is_text, py_eq, contains}
use scitex_todo.Py.Raise.{Result, ok, raise, raise_if, ◌>>=◌, ◌>>◌, value_error}
use scitex_todo.Card.{
  Card, get, is_live, is_tombstoned, find_live_task, first, change_first, change_rest, of_list,
}
use scitex_todo.Env.{Env}
use scitex_todo.Store.State.{Store, Outcome, keep, write, transaction}
use scitex_todo.Store.Actor.{default_agent}
use scitex_todo.Store.Row.{append_comment, comment, stamp, or_not_found}

abbrev pub without_id : String → List Value → List Value
without_id task_id ids = filter (λ d. not (py_eq d (text task_id))) ids

abbrev pub put_or_pop : Card → String → List Value → Card
put_or_pop c k [] = pop c k
put_or_pop c k (v ∷ vs) = put c k (of_list (v ∷ vs))

abbrev pub names_id : String → Value → Bool
names_id task_id (list ids) = contains (elements ids) (text task_id)
names_id task_id _ = false

abbrev pub members : Value → List Value
members (list ids) = elements ids
members _ = []

-- `if isinstance(t.get(k), list) and task_id in t[k]:`, the id taken out, and an empty list with it
unfoldable pub scrub_list : String → String → Card → Card
scrub_list task_id k c =
    if names_id task_id (get c k)
    then put_or_pop c k (without_id task_id (members (get c k)))
    else c

unfoldable pub scrub_parent : String → Card → Card
scrub_parent task_id c = if is_text (get c "parent") task_id then pop c "parent" else c

-- What happens to a card other than the deleted one.
unfoldable pub scrub : String → Card → Card
unfolding scrub_list scrub_parent
scrub task_id c =
    scrub_parent task_id (scrub_list task_id "blocks" (scrub_list task_id "depends_on" c))

-- `mutated`
abbrev pub refers : String → Card → Bool
refers task_id c =
    names_id task_id (get c "depends_on")
    || (names_id task_id (get c "blocks") || is_text (get c "parent") task_id)

abbrev pub tombstone_text : String
tombstone_text =
    "[TOMBSTONED via delete_task] status -> cancelled, _log_meta.deleted_at stamped. Row retained (never physically removed); restore_task is the Undo."

-- The deleted row: it stays, marked.
unfoldable pub tombstoned : Env → String → Card → Result Card
tombstoned env actor target = do
  let marked =
      stamp (put target "status" (text "cancelled")) "deleted_at" (env.now 0) "deleted_by" actor
  logged ← append_comment marked (comment actor (env.now 0) tombstone_text)
  ok (put logged "last_activity" (text (env.now 0)))

abbrev pub is_dict : Value → Bool
is_dict (dict d) = true
is_dict _ = false

abbrev pub is_list : Value → Bool
is_list (list vs) = true
is_list _ = false

abbrev pub shared : (Value → Bool) → String → Card → Card → Card
shared test k dead c = if test (get c k) then put c k (get dead k) else c

-- `original` when the call returns. `dict(target)` is a shallow copy: a log and a list of comments that
-- the card had are those of the deleted row, with the mark and the comment of the deletion.
unfoldable pub snapshot : Card → Card → Card
snapshot dead target = shared is_list "comments" dead (shared is_dict "_log_meta" dead target)

-- What `delete_task` returns: the snapshot, and the ids of the cards that named it.
pub record Removed : Type 0 where
  pub removed : Card
  pub refs : List Value

abbrev naming_ids : String → List Card → List Value
naming_ids task_id [] = []
naming_ids task_id (u ∷ us) =
    if refers task_id u then get u "id" ∷ naming_ids task_id us else naming_ids task_id us

-- `refs`: the scan skips the deleted row itself.
unfoldable pub scrubbed_ids : String → List Card → List Value
scrubbed_ids task_id [] = []
scrubbed_ids task_id (t ∷ ts) =
    if is_live task_id t
    then naming_ids task_id ts
    else if refers task_id t
    then get t "id" ∷ scrubbed_ids task_id ts
    else scrubbed_ids task_id ts

unfoldable pub delete_task : Env → String → Store → Result Removed × Store
delete_task env task_id = transaction env λ tasks. (do
  raise_if (str_eq task_id "") value_error
  target ← or_not_found (find_live_task tasks task_id)
  actor ← default_agent env none
  dead ← tombstoned env actor target
  ok (
      write (change_rest (is_live task_id) (λ c. dead) (scrub task_id) tasks) λ saved.
        (record { removed = snapshot dead target; refs = scrubbed_ids task_id tasks }, [])))

-- `next((t for t in tasks if t.get("id") == tid), None)`
abbrev pub has_id : Value → Card → Bool
has_id tid c = py_eq (get c "id") tid

abbrev pub restored_rows : Card → List Card → Option Card → Result (List Card)
restored_rows task tasks none = ok (tasks ++ task ∷ [])
restored_rows task tasks (some existing) =
    if is_tombstoned existing
    then ok (change_first (has_id (get task "id")) (λ c. task) tasks)
    else raise value_error

unfoldable pub restore_task : Env → Card → List Value → Store → Result (Card × List Value) × Store
restore_task env task refs = transaction env λ tasks. (do
  raise_if (not (truthy (get task "id"))) value_error
  rows ← restored_rows task tasks (first (has_id (get task "id")) tasks)
  ok (write rows λ saved. ((task, refs), [])))
