-- ===== src/Store/Mutate/Updated.antt =====
-- What a lookup finds after `update_task`.
use scitex_todo.Prelude.{◌≡◌, Bool, false, All, List, ◌||◌, some, str_eq, String, if◌then◌else◌}
use scitex_todo.Py.Dict.{lookup}
use scitex_todo.Py.Value.{Value}
use scitex_todo.Card.{Card, get, find_live_task}
use scitex_todo.Env.{Env}
use scitex_todo.Validate.{without_sentinel}
use scitex_todo.Store.State.{Store, Effect}
use scitex_todo.Store.Atomic.{has_id}
use scitex_todo.Store.Mutate.{update_locked}
use scitex_todo.Store.Unblock.{unblocked_ids}
use scitex_todo.Store.Unblock.Logged.{IsLoggedIf, Names}
use scitex_todo.Store.ReadBack.{Finds}
use scitex_todo.Store.Mutate.Fields.{IsDict, given, is_stamp}

-- What the enum clears leave alone.
record Cleared (fields cleared : Card) : Type 0 where
  dict : IsDict cleared
  others :
      (k : String)
      → str_eq "blocker" k ≡ false
      → str_eq "kind" k ≡ false
      → lookup cleared k ≡ lookup fields k

-- A card of that row was written, and this is left to send.
record Updated (env : Env) (i : String) (row : Card) (tasks saved : List Card)
    (a : Card × List Effect) : Type 0 where
  found : Finds tasks saved i a.0
  same : without_sentinel row ≡ a.0
  names : All (Names (unblocked_ids env saved i)) a.1

-- The fields that an update may set by itself, and those that it clears.
abbrev pub is_special : String → Bool
is_special k = is_stamp k || (str_eq "blocker" k || str_eq "kind" k)

-- What an update answers and leaves: the answer's field, and the lookups.
abbrev Answers : Env → String → Card → Store → Card → String → String → Store → Type 0
Answers env i fields s a j k t =
    (target : Card) × (find_live_task s.tasks i ≡ some target)
    × (get a k ≡ given (lookup fields k) (get target k))
    × IsLoggedIf (has_id (unblocked_ids env (update_locked env i fields s).1.tasks i) j)
        (if str_eq i j then some a else find_live_task s.tasks j) (find_live_task t.tasks j)
