-- ===== src/Store/Row.antt =====
-- The writes that the verbs share: a comment at the end of a card's log, and entries of its
-- `_log_meta`.
use scitex_todo.Prelude.{String, Option, none, some, [], ◌∷◌, ◌++◌}
use scitex_todo.Py.Dict.{put, lookup}
use scitex_todo.Py.Value.{Value, text, list, elements}
use scitex_todo.Py.Raise.{Result, ok, raise, attribute_error, task_not_found_error}
use scitex_todo.Card.{Card, get, of_list, of_dict, mapping}

-- `raise TaskNotFoundError` where the scan found no live row
abbrev pub or_not_found : Option Card → Result Card
or_not_found none = raise task_not_found_error
or_not_found (some c) = ok c

abbrev pub extended : Card → Option Value → Value → Result Card
extended c none entry = ok (put c "comments" (of_list (entry ∷ [])))
extended c (some (list vs)) entry = ok (put c "comments" (of_list (elements vs ++ entry ∷ [])))
extended c (some _) entry = raise attribute_error

-- `task.setdefault("comments", []).append(entry)`: what is no list has no `append`.
unfoldable pub append_comment : Card → Value → Result Card
append_comment c entry = extended c (lookup c "comments") entry

-- `{"author": author, "ts": ts, "text": body}`
abbrev pub comment : String → String → String → Value
comment author ts body =
    of_dict (("author", text author) ∷ ("ts", text ts) ∷ ("text", text body) ∷ [])

-- `log_meta = task.get("_log_meta")`, `if not isinstance(log_meta, dict): log_meta = {}`,
-- `log_meta[at] = now`, `log_meta[by] = who`
unfoldable pub stamp : Card → String → String → String → String → Card
stamp c at_key now by_key who =
    put c "_log_meta"
      (of_dict (put (put (mapping (get c "_log_meta")) at_key (text now)) by_key (text who)))
