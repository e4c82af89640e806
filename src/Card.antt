-- ===== src/Card.antt =====
-- A card: the mapping that scitex_cards/_task.py describes, as the store's verbs read and write it.
mod First
unfoldable pub use First.{first, change_first, change_rest}
pub use First.{Found, first-Found}
use scitex_todo.Prelude.{
  String, ◌≡◌, Bool, true, false, not, ◌&&◌, Option, none, some, List, [], ◌∷◌, arith, str_eq,
  if◌then◌else◌,
}
use scitex_todo.Py.Dict.{Dict, lookup, put, pop, lookup-put, lookup-pop}
use scitex_todo.Py.Value.{
  Value, null, dict, list, items_of, fields_of, entries, elements, truthy, is_text,
}

-- A card is a dict, read by `card.get(k)`, where a missing key and `None` read alike.
abbrev pub Card : Type 0
Card = Dict Value

abbrev pub or_null : Option Value → Value
or_null none = null
or_null (some v) = v

unfoldable pub get : Card → String → Value
unfolding lookup
get c k = or_null (lookup c k)

pub get-put :
    (c : Card) (k j : String) (v : Value) → get (put c k v) j ≡ (if str_eq k j then v else get c j)
unfolding get
get-put c k j v = rw lookup-put (ground arith)

pub get-pop : (c : Card) (k j : String) → get (pop c k) j ≡ (if str_eq k j then null else get c j)
unfolding get
get-pop c k j = rw lookup-pop (ground arith)

pub ruleset card_laws = (get-put, get-pop)

-- `isinstance(log_meta, dict) and log_meta.get("deleted_at")`
abbrev pub meta_deleted : Value → Bool
meta_deleted (dict m) = truthy (or_null (lookup (entries m) "deleted_at"))
meta_deleted _ = false

-- `_is_tombstoned`
unfoldable pub is_tombstoned : Card → Bool
is_tombstoned c = meta_deleted (get c "_log_meta")

-- The test that `_find_live_task` makes of a row.
unfoldable pub is_live : String → Card → Bool
is_live task_id c = is_text (get c "id") task_id && not (is_tombstoned c)

-- `_find_live_task`
unfoldable pub find_live_task : List Card → String → Option Card
find_live_task tasks task_id = first (is_live task_id) tasks

-- `d or {}` of a field that should be a mapping, and the write that puts one there:
-- `meta = card.get(k)`, `if not isinstance(meta, dict): meta = {}`, `meta[j] = v`.
abbrev pub mapping : Value → Card
mapping (dict m) = entries m
mapping _ = []

-- `v or []` of a field that should be a list.
abbrev pub sequence : Value → List Value
sequence (list vs) = elements vs
sequence _ = []

abbrev pub of_list : List Value → Value
of_list vs = list (items_of vs)

abbrev pub of_dict : Card → Value
of_dict d = dict (fields_of d)
