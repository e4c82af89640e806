-- ===== src/Store/Relations.antt =====
-- `set_edge`, `set_collaborator` and `set_subscriber` (_store_relations.py).
pub mod Subscribed
use scitex_todo.Prelude.{
  ℕ, String, Bool, not, ◌&&◌, ◌||◌, Option, none, some, List, [], ◌∷◌, ◌++◌, str_eq, if◌then◌else◌,
}
use scitex_todo.Py.Dict.{put}
use scitex_todo.Py.Value.{Value, text, truthy, contains}
use scitex_todo.Py.Text.{strip}
use scitex_todo.Py.Raise.{Result, ok, raise, raise_if, ◌>>=◌, ◌>>◌, value_error, attribute_error}
use scitex_todo.Card.{Card, get, is_live, find_live_task, change_first, of_list, sequence}
use scitex_todo.Env.{Env}
use scitex_todo.Validate.{without_sentinel}
use scitex_todo.Store.State.{Store, write, transaction}
use scitex_todo.Store.Row.{or_not_found}
use scitex_todo.Store.Delete.{without_id, put_or_pop}
use scitex_todo.Store.Reassign.{owner_of}

-- The two values of `action`, and of `kind`: another value raises before the store is read.
pub data Action : Type 0 where
  add remove : Action

pub data EdgeKind : Type 0 where
  depends_on blocks : EdgeKind

abbrev pub key_of : EdgeKind → String
key_of depends_on = "depends_on"
key_of blocks = "blocks"

-- `edges` after the change
unfoldable pub changed_edges : Action → String → List Value → List Value
changed_edges add target edges =
    if contains edges (text target) then edges else edges ++ text target ∷ []
changed_edges remove target edges = without_id target edges

unfoldable pub with_edge : Action → EdgeKind → String → Card → Card
with_edge action kind target c =
    put_or_pop c (key_of kind) (changed_edges action target (sequence (get c (key_of kind))))

-- `(waiter.get("agent") or waiter.get("assignee") or "").strip()`
abbrev stripped_owner : Value → Result String
stripped_owner (text s) = ok (strip s)
stripped_owner v = if truthy v then raise attribute_error else ok ""

-- `subs`, and whether the owner is new among them
unfoldable pub is_subscribed_now : String → Card → Bool
is_subscribed_now owner awaited =
    not (str_eq owner "") && not (contains (sequence (get awaited "subscribers")) (text owner))

unfoldable pub with_subscriber : String → Card → Card
with_subscriber owner awaited =
    if is_subscribed_now owner awaited
    then put awaited "subscribers"
        (of_list (sequence (get awaited "subscribers") ++ text owner ∷ []))
    else awaited

-- The ends of an edge: who waits, and what for.
abbrev waiter_id : EdgeKind → String → String → String
waiter_id depends_on source target = source
waiter_id blocks source target = target

abbrev awaited_id : EdgeKind → String → String → String
awaited_id depends_on source target = target
awaited_id blocks source target = source

-- The subscription that goes with an edge, on the rows that have the edge.
unfoldable pub subscribe_waiter :
    Action → EdgeKind → String → String → List Card → Result (List Card × Option String)
subscribe_waiter remove kind source target rows = ok (rows, none)
subscribe_waiter add kind source target rows = do
  waiter ← or_not_found (find_live_task rows (waiter_id kind source target))
  awaited ← or_not_found (find_live_task rows (awaited_id kind source target))
  owner ← stripped_owner (owner_of waiter)
  ok (
    change_first (is_live (awaited_id kind source target)) (with_subscriber owner) rows,
    if is_subscribed_now owner awaited then some owner else none,
  )

-- The answer is the owner that was subscribed.
unfoldable pub set_edge :
    Env → Action → EdgeKind → String → String → Store → Result (Option String) × Store
set_edge env action kind source target = transaction env λ tasks. (do
  raise_if (str_eq source "" || str_eq target "") value_error
  raise_if (str_eq source target) value_error
  src_task ← or_not_found (find_live_task tasks source)
  tgt_task ← or_not_found (find_live_task tasks target)
  (rows, subscribed) ←
      subscribe_waiter action kind source target
        (change_first (is_live source) (with_edge action kind target) tasks)
  ok (write rows λ saved. (subscribed, [])))

unfoldable pub changed_members : Action → String → List Value → List Value
changed_members remove who members = without_id who members
changed_members add who members = without_id who members ++ text who ∷ []

-- The row after `_set_list_member`.
unfoldable pub with_member : Env → ℕ → String → String → Action → Card → Card
with_member env reading key who action c =
    put (put_or_pop c key (changed_members action who (sequence (get c key)))) "last_activity"
      (text (env.now reading))

unfoldable pub set_list_member :
    Env → ℕ → String → String → String → Action → Store → Result Card × Store
set_list_member env reading task_id key who action = transaction env λ tasks. (do
  task ← or_not_found (find_live_task tasks task_id)
  let row = with_member env reading key who action task
  ok (write (change_first (is_live task_id) (λ c. row) tasks) λ saved. (without_sentinel row, [])))

abbrev pub then_subscribe :
    Env → String → String → Action → Result Card × Store → Result Card × Store
then_subscribe env task_id who add (ok c, s) = set_list_member env 1 task_id "subscribers" who add s
then_subscribe env task_id who _ r = r

-- Two cycles: an error of the second leaves what the first one saved.
unfoldable pub set_collaborator : Env → String → String → Action → Store → Result Card × Store
set_collaborator env task_id who action s =
    if str_eq task_id "" || str_eq who ""
    then (raise value_error, s)
    else then_subscribe env task_id who action
        (set_list_member env 0 task_id "collaborators" who action s)

unfoldable pub set_subscriber : Env → String → String → Action → Store → Result Card × Store
set_subscriber env task_id who action s =
    if str_eq task_id "" || str_eq who ""
    then (raise value_error, s)
    else set_list_member env 0 task_id "subscribers" who action s
