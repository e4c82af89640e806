-- ===== src/Store/Comment.antt =====
-- `comment_task` (_store_comment.py).
use scitex_todo.Prelude.{
  String, not, ◌&&◌, Option, none, some, List, [], ◌∷◌, ◌++◌, str_eq, filter, if◌then◌else◌,
}
use scitex_todo.Py.Dict.{put}
use scitex_todo.Py.Value.{Value, text, dict, entries, is_name, truthy, contains}
use scitex_todo.Py.Text.{is_blank}
use scitex_todo.Py.Raise.{Result, ok, raise_if, ◌>>=◌, ◌>>◌, value_error}
use scitex_todo.Card.{Card, get, is_live, find_live_task, change_first, of_list, of_dict, sequence}
use scitex_todo.Env.{Env}
use scitex_todo.Store.State.{
  Store, card_event, card_message, heartbeat, commented, write, transaction,
}
use scitex_todo.Store.Actor.{default_agent}
use scitex_todo.Store.Row.{append_comment, or_not_found}
use scitex_todo.Store.Reassign.{owner_of}

-- `entry`, with its `kind` where one is given
abbrev with_kind : Card → Option String → Card
with_kind entry none = entry
with_kind entry (some k) = if str_eq k "" then entry else put entry "kind" (text k)

abbrev entry_of : Env → String → String → Option String → Card
entry_of env author body kind =
    with_kind (("author", text author) ∷ ("ts", text (env.now 0)) ∷ ("text", text body) ∷ []) kind

abbrev author_in : Value → List Value
author_in (text s) = text s ∷ []
author_in _ = []

-- `prior_authors`
unfoldable pub authors : List Value → List Value
authors [] = []
authors (dict c ∷ cs) = author_in (get (entries c) "author") ++ authors cs
authors (_ ∷ cs) = authors cs

-- `for a in people: if a and a not in seen: out.append(a); seen.add(a)`
unfoldable pub add_unseen : List Value → List Value → List Value
add_unseen seen [] = []
add_unseen seen (a ∷ people) =
    let fresh = truthy a && not (contains seen a) in
    let rest = add_unseen (if fresh then a ∷ seen else seen) people in
    if fresh then a ∷ rest else rest

abbrev one_if_truthy : Value → List Value
one_if_truthy v = if truthy v then v ∷ [] else []

-- `collaborators`: who wrote before, and the card's own list, less its owner and the author.
unfoldable pub collaborators_of : Card → String → List Value → List Value
collaborators_of target author prior =
    add_unseen (text author ∷ one_if_truthy (owner_of target))
      (prior ++ filter is_name (sequence (get target "collaborators")))

abbrev or_else : List Value → List Value → List Value
or_else [] other = other
or_else (v ∷ vs) other = v ∷ vs

-- `subscribers`: the card's own list, or where it has none the owner and the collaborators.
unfoldable pub subscribers_of : Card → List Value → List Value
subscribers_of target collaborators = add_unseen [] (
    or_else (filter is_name (sequence (get target "subscribers")))
      (one_if_truthy (owner_of target) ++ collaborators))

abbrev message_of : String → Card → String → String → List Value → String → Card
message_of task_id target author body prior ts =
    let collaborators = collaborators_of target author prior in
    ("kind", text "card-message")
    ∷ ("card_id", text task_id)
    ∷ ("author", text author)
    ∷ ("body", text body)
    ∷ ("owner", owner_of target)
    ∷ ("collaborators", of_list collaborators)
    ∷ ("subscribers", of_list (subscribers_of target collaborators))
    ∷ ("created_at", text ts)
    ∷ []

-- The row with the entry at the end of its log.
unfoldable pub commented_row : Env → Card → Card → Result Card
commented_row env entry target = do
  logged ← append_comment target (of_dict entry)
  ok (put logged "last_activity" (text (env.now 0)))

unfoldable pub comment_task :
    Env → String → String → Option String → Option String → Store → Result Card × Store
comment_task env task_id body by kind = transaction env λ tasks. (do
  raise_if (str_eq task_id "") value_error
  raise_if (is_blank body) value_error
  author ← default_agent env by
  let entry = entry_of env author body kind
  target ← or_not_found (find_live_task tasks task_id)
  row ← commented_row env entry target
  ok (
      write (change_first (is_live task_id) (λ c. row) tasks) λ saved. (
        entry,
        card_message (
              message_of task_id target author body (authors (sequence (get target "comments")))
                (env.now 0))
            ∷ card_event commented task_id (some author) (("body", text body) ∷ [])
            ∷ heartbeat (some author)
            ∷ [],
      )))
