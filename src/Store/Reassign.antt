-- ===== src/Store/Reassign.antt =====
-- `reassign_task` (_store_lifecycle.py) and `reassign_all` (_store_reassign.py).
pub mod Emptied
use Prim.Native.String.{◌++◌ as append_text}
use scitex_todo.Prelude.{
  ℕ, ◌+◌, String, Bool, true, false, not, ◌&&◌, Option, some, List, [], ◌∷◌, ◌++◌, str_eq,
  if◌then◌else◌, length, map,
}
use scitex_todo.Py.Dict.{put}
use scitex_todo.Py.Value.{Value, text, int, pos, truthy, is_text, py_eq, contains}
use scitex_todo.Py.Text.{is_blank}
use scitex_todo.Py.Raise.{Result, ok, raise_if, ◌>>=◌, ◌>>◌, value_error}
use scitex_todo.Card.{Card, get, is_live, find_live_task, change_first, of_list, sequence}
use scitex_todo.Env.{Env, str}
use scitex_todo.Validate.{without_sentinel}
use scitex_todo.Store.State.{
  Store, card_event, heartbeat, reassigned, reassigned_batch, Outcome, keep, write, transaction,
}
use scitex_todo.Store.Actor.{default_agent}
use scitex_todo.Store.Row.{append_comment, comment, or_not_found}

-- `task.get("agent") or task.get("assignee")`
unfoldable pub owner_of : Card → Value
owner_of c = if truthy (get c "agent") then get c "agent" else get c "assignee"

-- `if keeper and keeper != new_owner and keeper not in subs: subs.append(keeper)`
unfoldable pub keep_subscribed : String → Value → List Value → List Value
keep_subscribed new_owner keeper subs =
    if truthy keeper && (not (py_eq keeper (text new_owner)) && not (contains subs keeper))
    then subs ++ keeper ∷ []
    else subs

abbrev pub put_some : Card → String → List Value → Card
put_some c k [] = c
put_some c k (v ∷ vs) = put c k (of_list (v ∷ vs))

-- The keepers in turn: the owner that was, and the creator.
unfoldable pub with_keepers : String → Value → Card → Card
with_keepers new_owner old_owner c = put_some c "subscribers" (
    keep_subscribed new_owner (get c "created_by")
      (keep_subscribed new_owner old_owner (sequence (get c "subscribers"))))

unfoldable pub with_owner : String → Card → Card
with_owner new_owner c =
    put (put (put c "agent" (text new_owner)) "assignee" (text new_owner)) "scope"
      (text (append_text "agent:" new_owner))

-- `f"reassigned {old} -> {new_owner} by {actor}"`
abbrev pub reassign_text : String → String → String → String
reassign_text old new_owner actor =
    append_text "reassigned "
      (append_text old (append_text " -> " (append_text new_owner (append_text " by " actor))))

-- The clock's `first` reading stamps the comment, and the next one the card.
unfoldable pub reassigned_row : Env → ℕ → String → String → Value → String → Card → Result Card
reassigned_row env reading actor new_owner old_owner old_text target = do
  logged ←
      append_comment (with_owner new_owner target)
        (comment actor (env.now reading) (reassign_text old_text new_owner actor))
  ok (put (with_keepers new_owner old_owner logged) "last_activity" (text (env.now (reading + 1))))

pub record Reassigned : Type 0 where
  pub from_owner : Value
  pub to_owner : String
  pub actor : String
  pub changed : Bool
  pub task : Card

abbrev pub old_owner_text : Env → Value → String
old_owner_text env v = if truthy v then str env v else "(unassigned)"

abbrev pub reassign_row :
    Env → String → String → String → List Card → Card → Result (Outcome Reassigned)
reassign_row env task_id new_owner actor tasks target =
    let answer : Bool → Card → Reassigned = λ changed row. record {
      from_owner = owner_of target;
      to_owner = new_owner;
      actor = actor;
      changed = changed;
      task = row;
    } in
    if py_eq (owner_of target) (text new_owner)
    then ok (keep (answer false target) (heartbeat (some actor) ∷ []))
    else (do
      row ←
          reassigned_row env 0 actor new_owner (owner_of target)
            (old_owner_text env (owner_of target)) target
      ok (
          write (change_first (is_live task_id) (λ c. row) tasks) λ saved. (
            answer true (without_sentinel row),
            card_event reassigned task_id (some actor)
                  (("from_owner", owner_of target) ∷ ("to_owner", text new_owner) ∷ [])
                ∷ heartbeat (some actor)
                ∷ [],
          )))

unfoldable pub reassign_task :
    Env → String → String → Option String → Store → Result Reassigned × Store
reassign_task env task_id new_owner by = transaction env λ tasks. (do
  raise_if (str_eq task_id "") value_error
  raise_if (is_blank new_owner) value_error
  actor ← default_agent env by
  target ← or_not_found (find_live_task tasks task_id)
  reassign_row env task_id new_owner actor tasks target)

-- The rows after the loop of `reassign_all`, and the ids moved. Two readings of the clock go to each
-- card that is moved, the `reading`th being the next. A tombstoned card is moved as well.
unfoldable pub move_all :
    Env → String → String → String → ℕ → List Card → Result (List Card × List String)
move_all env actor old_owner new_owner reading [] = ok ([], [])
move_all env actor old_owner new_owner reading (t ∷ ts) = do
  let mine = is_text (owner_of t) old_owner
  row ←
      if mine then reassigned_row env reading actor new_owner (text old_owner) old_owner t else ok t
  (rows, moved) ← move_all env actor old_owner new_owner (if mine then reading + 2 else reading) ts
  ok (row ∷ rows, if mine && truthy (get t "id") then str env (get t "id") ∷ moved else moved)

pub record Moved : Type 0 where
  pub count : ℕ
  pub card_ids : List String
  pub mover : String

abbrev pub moved_outcome : String → String → String → List Card → List String → Outcome Moved
moved_outcome old_owner new_owner actor rows [] =
    keep (record { count = 0; card_ids = []; mover = actor }) []
moved_outcome old_owner new_owner actor rows (i ∷ ids) =
    let answer : Moved = record { count = length (i ∷ ids); card_ids = i ∷ ids; mover = actor } in
    write rows λ saved. (
      answer,
      card_event reassigned_batch
            (append_text "batch:" (append_text old_owner (append_text "->" new_owner))) (some actor)
            (("from_owner", text old_owner)
              ∷ ("to_owner", text new_owner)
              ∷ ("count", int (pos (length (i ∷ ids))))
              ∷ ("card_ids", of_list (map text (i ∷ ids)))
              ∷ [])
          ∷ [],
    )

unfoldable pub reassign_all : Env → String → String → Option String → Store → Result Moved × Store
reassign_all env old_owner new_owner by = transaction env λ tasks. (do
  raise_if (is_blank old_owner) value_error
  raise_if (is_blank new_owner) value_error
  raise_if (str_eq old_owner new_owner) value_error
  actor ← default_agent env by
  (rows, moved) ← move_all env actor old_owner new_owner 0 tasks
  ok (moved_outcome old_owner new_owner actor rows moved))
