-- ===== src/Users/Registry.antt =====
-- The `users` section of the store's document and the verbs that change it (_users/_store_read.py,
-- _users/_store_write.py). The document is the mapping that the file holds; a cycle under the lock is
-- one step, and a call that raises leaves the file as it was. Random ids and the clock are parameters.
use Prim.Native.String.{◌++◌ as append}
use scitex_todo.Prelude.{
  ℕ, zero, suc, String, Bool, true, false, Option, none, some, List, [], ◌∷◌, ◌++◌, length,
  if◌then◌else◌,
}
use scitex_todo.Py.Dict.{Dict, lookup, put}
use scitex_todo.Py.Value.{Value, ℤ, text, list, dict, items_of, fields_of, entries, elements}
use scitex_todo.Py.Raise.{Result, ok, raise, raise_if, ◌>>=◌, ◌>>◌, user_validation_error}
use scitex_todo.Card.{Card, get}
use scitex_todo.Validate.Fields.{Checked}
use scitex_todo.Users.Model.{User, to_dict, validate_user}
use scitex_todo.Users.Identity.{holds}

-- lines 45-49 of _store_read.py
unfoldable pub read_rows : List Value → Result (List Card)
read_rows [] = ok []
read_rows (dict row ∷ vs) = do
  validate_user (entries row)
  rows ← read_rows vs
  ok (entries row ∷ rows)
read_rows (_ ∷ vs) = raise user_validation_error

abbrev pub section_rows : Value → Result (List Card)
section_rows (list vs) = read_rows (elements vs)
section_rows _ = ok []

-- `_load_users_section`
unfoldable pub load_users_section : Card → Result (List Card)
unfolding read_rows
load_users_section doc = section_rows (get doc "users")

unfoldable pub validate_rows : List Card → Checked
validate_rows [] = ok tt
validate_rows (u ∷ us) = do validate_user u; validate_rows us

abbrev pub as_values : List Card → List Value
as_values [] = []
as_values (u ∷ us) = dict (fields_of u) ∷ as_values us

abbrev pub with_tasks : Value → Card → Card
with_tasks (list vs) doc = doc
with_tasks _ doc = put doc "tasks" (list (items_of []))

-- `_save_users_unlocked`: the document as it is written. Other sections stay, and `tasks` becomes an
-- empty list where it is no list.
unfoldable pub save_users : List Card → Card → Result Card
save_users users doc = do
  validate_rows users
  let filled = put doc "users" (list (items_of (as_values users)))
  ok (with_tasks (get filled "tasks") filled)

-- `for name in u.get("names") or []`, of a row that was validated, whose names are strings
abbrev pub texts_in : List Value → List String
texts_in [] = []
texts_in (text s ∷ vs) = s ∷ texts_in vs
texts_in (_ ∷ vs) = texts_in vs

abbrev pub names_under : Value → List String
names_under (list vs) = texts_in (elements vs)
names_under _ = []

unfoldable pub row_names : Card → List String
row_names u = names_under (get u "names")

unfoldable pub put_names : Dict Value → Value → List String → Dict Value
put_names index id [] = index
put_names index id (name ∷ names) = put_names (put index name id) id names

unfoldable pub index_from : Dict Value → List Card → Dict Value
index_from index [] = index
index_from index (u ∷ us) = index_from (put_names index (get u "id") (row_names u)) us

-- `_names_index`
unfoldable pub names_index : List Card → Dict Value
unfolding index_from put_names row_names
names_index users = index_from [] users

-- `{u.get("id") for u in users if u.get("id")}`
unfoldable pub existing_ids : List Card → List String
existing_ids [] = []
existing_ids (u ∷ us) = texts_in (get u "id" ∷ []) ++ existing_ids us

-- What a call takes from outside: the answers of `secrets.token_hex`, and of the clock.
pub record Source : Type 0 where
  pub token : ℕ → String
  pub now : String

-- `while True`, with fuel; `none` is no answer yet
unfoldable pub generate_from : (ℕ → String) → List String → ℕ → ℕ → Option String
generate_from token taken zero i = none
generate_from token taken (suc fuel) i =
    let later = generate_from token taken fuel (suc i) in
    if holds taken (append "u_" (token i)) then later else some (append "u_" (token i))

-- `_generate_user_id`
unfoldable pub generate_user_id : (ℕ → String) → List String → Option String
unfolding generate_from
generate_user_id token taken = generate_from token taken (suc (length taken)) 0

-- The arguments of `register_user`, with `names` a list.
pub record NewUser : Type 0 where
  pub kind : String
  pub names : List String
  pub host_at_name : Option String
  pub notify : Dict Value
  pub turn_url : Option String
  pub a2a_port : Option ℤ

-- The answer of a call that raises or has a row to answer, and the document after it.
abbrev pub settle : Card → Result (User × Card) → Result User × Card
settle doc (raise e) = (raise e, doc)
settle doc (ok (user, after)) = (ok user, after)

abbrev pub found : Option Value → Bool
found none = false
found (some v) = true

-- lines 211-216
unfoldable pub refuse_taken : Dict Value → List String → Checked
refuse_taken index [] = ok tt
refuse_taken index (name ∷ names) = do
  raise_if (found (lookup index name)) user_validation_error
  refuse_taken index names

unfoldable pub new_user : Source → String → NewUser → User
new_user source id n = record {
  id = id;
  kind = n.kind;
  names = n.names;
  host_at_name = n.host_at_name;
  notify = n.notify;
  turn_url = n.turn_url;
  a2a_port = n.a2a_port;
  created_at = text source.now;
  last_seen = none;
}

-- lines 209-230, with the id that was generated
unfoldable pub registered_with : Source → String → NewUser → List Card → Card → Result (User × Card)
registered_with source id n users doc = do
  refuse_taken (names_index users) n.names
  validate_user (to_dict (new_user source id n))
  after ← save_users (users ++ to_dict (new_user source id n) ∷ []) doc
  ok (new_user source id n, after)

abbrev pub register_as :
    Source → NewUser → Card → List Card → Option String → Option (Result User × Card)
register_as source n doc users none = none
register_as source n doc users (some id) = some (settle doc (registered_with source id n users doc))

abbrev pub register_in : Source → NewUser → Card → Result (List Card) → Option (Result User × Card)
register_in source n doc (raise e) = some (raise e, doc)
register_in source n doc (ok users) =
    register_as source n doc users (generate_user_id source.token (existing_ids users))

-- `register_user`; `none` stands for a search for an id that has not ended. The id is generated first
-- here, which changes nothing: the tests before it read no id.
unfoldable pub register_user : Source → NewUser → Card → Option (Result User × Card)
register_user source n doc = register_in source n doc (load_users_section doc)
