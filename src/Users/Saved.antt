-- ===== src/Users/Saved.antt =====
-- What is read back from a document that was saved.
use scitex_todo.Prelude.{
  String, ◌≡◌, refl, ◌∙◌, subst, false, Option, none, some, List, [], ◌∷◌, str_eq, arith,
  if◌then◌else◌,
}
use scitex_todo.Py.Dict.{Dict, lookup, put, lookup-put}
use scitex_todo.Py.Value.{
  Value, null, bool, int, text, list, dict, items_of, elements-items_of, entries-fields_of,
}
use scitex_todo.Py.Raise.{ok, >>-eq-ok, ok_inj}
use scitex_todo.Card.{Card, get, get-put}
use scitex_todo.Users.Identity.{holds}
use scitex_todo.Users.Model.{validate_user}
use scitex_todo.Users.Registry.{
  read_rows, load_users_section, validate_rows, as_values, with_tasks, save_users, row_names,
  put_names, index_from, names_index,
}

-- Rows that pass the validation are read back as they are.
read_rows-as_values : (us : List Card) → validate_rows us ≡ ok tt → read_rows (as_values us) ≡ ok us
unfolding read_rows validate_rows
read_rows-as_values [] h = refl
read_rows-as_values (u ∷ us) h =
    let (a, b) = >>-eq-ok (validate_user u) (validate_rows us) h in
    rw (entries-fields_of u, a, read_rows-as_values us b) refl

get-with_tasks :
    (v : Value) (doc : Card) (k : String)
    → str_eq "tasks" k ≡ false
    → get (with_tasks v doc) k ≡ get doc k
get-with_tasks null doc k e = rw (get-put, e) refl
get-with_tasks (bool b) doc k e = rw (get-put, e) refl
get-with_tasks (int z) doc k e = rw (get-put, e) refl
get-with_tasks (text s) doc k e = rw (get-put, e) refl
get-with_tasks (list vs) doc k e = refl
get-with_tasks (dict d) doc k e = rw (get-put, e) refl

-- Rows that were saved are the rows that the next call reads.
pub load_users_section-save_users :
    (us : List Card) (doc after : Card)
    → save_users us doc ≡ ok after
    → load_users_section after ≡ ok us
unfolding save_users load_users_section
load_users_section-save_users us doc after h =
    let (valid, saved) = >>-eq-ok (validate_rows us) _ h in
    let users : Value = list (items_of (as_values us)) in
    let filled : Card = put doc "users" users in
    let kept =
      get-with_tasks (get filled "tasks") filled "users" refl ∙ get-put doc "users" "users" users in
    subst (λ (d : Card). load_users_section d ≡ ok us) (ok_inj saved)
      (rw (kept, elements-items_of (as_values us)) (read_rows-as_values us valid))

-- A section beside `users` is left as it is, given that `tasks` is a list.
pub get-save_users :
    (us : List Card) (doc after : Card) (k : String) {tasks : _}
    → get doc "tasks" ≡ list tasks
    → str_eq "users" k ≡ false
    → save_users us doc ≡ ok after
    → get after k ≡ get doc k
unfolding save_users
get-save_users us doc after k t e h =
    let (valid, saved) = >>-eq-ok (validate_rows us) _ h in
    let users : Value = list (items_of (as_values us)) in
    let same : get (put doc "users" users) "tasks" ≡ get doc "tasks" =
      get-put doc "users" "tasks" users in
    subst (λ (d : Card). get d k ≡ get doc k) (ok_inj saved) (rw (same ∙ t, get-put, e) refl)

abbrev pub or_value : Option Value → Option Value → Option Value
or_value none later = later
or_value (some v) later = some v

-- The id of the last row that has a name.
unfoldable pub last_owner : List Card → String → Option Value
last_owner [] name = none
last_owner (u ∷ us) name =
    or_value (last_owner us name) (if holds (row_names u) name then some (get u "id") else none)

lookup-put_names :
    (names : List String) (index : Dict Value) (id : Value) (name : String)
    → lookup (put_names index id names) name
      ≡ or_value (if holds names name then some id else none) (lookup index name)
unfolding put_names
lookup-put_names [] index id name = refl
lookup-put_names (n ∷ ns) index id name =
    rw (lookup-put_names ns (put index n id) id name, lookup-put index n name id) (ground arith)

or_value_assoc : (a b c : Option Value) → or_value a (or_value b c) ≡ or_value (or_value a b) c
or_value_assoc none b c = refl
or_value_assoc (some v) b c = refl

lookup-index_from :
    (us : List Card) (index : Dict Value) (name : String)
    → lookup (index_from index us) name ≡ or_value (last_owner us name) (lookup index name)
unfolding index_from last_owner
lookup-index_from [] index name = refl
lookup-index_from (u ∷ us) index name =
    lookup-index_from us (put_names index (get u "id") (row_names u)) name
    ∙ rw (lookup-put_names (row_names u) index (get u "id") name)
        (or_value_assoc (last_owner us name) _ (lookup index name))

-- The index answers the id of the last row that has the name.
pub lookup-names_index :
    (us : List Card) (name : String) → lookup (names_index us) name ≡ last_owner us name
unfolding names_index lookup
lookup-names_index us name = lookup-index_from us [] name ∙ ground arith
