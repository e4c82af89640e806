-- ===== src/Users/Changes.antt =====
-- The verbs that change a registered user: `add_alias`, `set_notify` and `touch_user`
-- (_users/_store_write.py).
use scitex_todo.Prelude.{
  String, Bool, false, not, ◌||◌, Option, none, some, List, [], ◌∷◌, ◌++◌, str_eq, if◌then◌else◌,
}
use scitex_todo.Py.Dict.{Dict, lookup, put}
use scitex_todo.Py.Value.{Value, text, list, dict, items_of, fields_of, is_text}
use scitex_todo.Py.Text.{strip, is_blank}
use scitex_todo.Py.Raise.{Result, ok, raise, raise_if, ◌>>=◌, ◌>>◌, user_validation_error}
use scitex_todo.Card.{Card, get, first, change_first}
use scitex_todo.Users.Model.{User, from_dict, validate_user, texts}
use scitex_todo.Users.Identity.{holds}
use scitex_todo.Users.Registry.{
  load_users_section, save_users, row_names, names_index, Source, settle,
}

abbrev pub has_id : String → Card → Bool
has_id user_id u = is_text (get u "id") user_id

abbrev as_user : Card → Card → Result (User × Card)
as_user row after = do user ← from_dict row; ok (user, after)

-- `target` changed in place, validated and saved.
unfoldable pub save_changed :
    (Card → Bool) → (Card → Card) → Card → List Card → Card → Result (User × Card)
unfolding change_first
save_changed test change target users doc = do
  validate_user (change target)
  after ← save_users (change_first test change users) doc
  as_user (change target) after

abbrev pub owned_by_other : Option Value → String → Bool
owned_by_other none user_id = false
owned_by_other (some owner) user_id = not (is_text owner user_id)

unfoldable pub with_name : String → Card → Card
with_name name row = put row "names" (list (items_of (texts (row_names row ++ name ∷ []))))

-- lines 265-274
unfoldable pub alias_added : String → String → List Card → Card → Option Card → Result (User × Card)
unfolding with_name save_changed row_names
alias_added user_id name users doc none = raise user_validation_error
alias_added user_id name users doc (some target) =
    if holds (row_names target) name
    then as_user target doc
    else save_changed (has_id user_id) (with_name name) target users doc

-- lines 258-274
unfoldable pub alias_in : String → String → Card → List Card → Result (User × Card)
unfolding alias_added first names_index lookup
alias_in user_id name doc users = do
  raise_if (owned_by_other (lookup (names_index users) name) user_id) user_validation_error
  alias_added user_id name users doc (first (has_id user_id) users)

-- `add_alias`
unfoldable pub add_alias : String → String → Card → Result User × Card
unfolding alias_in load_users_section
add_alias user_id name doc = settle doc (do
  raise_if (str_eq name "") user_validation_error
  load_users_section doc >>= alias_in user_id name doc)

unfoldable pub with_notify : Dict Value → Card → Card
with_notify notify row = put row "notify" (dict (fields_of notify))

-- lines 295-301
unfoldable pub notify_set :
    String → Dict Value → List Card → Card → Option Card → Result (User × Card)
notify_set user_id notify users doc none = raise user_validation_error
notify_set user_id notify users doc (some target) =
    save_changed (has_id user_id) (with_notify notify) target users doc

unfoldable pub notify_in : String → Dict Value → Card → List Card → Result (User × Card)
unfolding notify_set first
notify_in user_id notify doc users =
    notify_set user_id notify users doc (first (has_id user_id) users)

-- `set_notify` of a mapping
unfoldable pub set_notify : String → Dict Value → Card → Result User × Card
unfolding notify_in
set_notify user_id notify doc = settle doc (load_users_section doc >>= notify_in user_id notify doc)

-- lines 330 and 335
abbrev pub is_named : String → Card → Bool
is_named key u = has_id key u || holds (row_names u) key

abbrev pub has_host : String → Card → Bool
has_host key u = is_text (get u "host_at_name") key

unfoldable pub with_last_seen : String → Card → Card
with_last_seen now row = put row "last_seen" (text now)

unfoldable pub seen_as :
    Source → String → List Card → Card → Option Card → Option Card → Option (Result (User × Card))
seen_as source key users doc (some target) host =
    some (save_changed (is_named key) (with_last_seen source.now) target users doc)
seen_as source key users doc none (some target) =
    some (save_changed (has_host key) (with_last_seen source.now) target users doc)
seen_as source key users doc none none = none

abbrev pub settle_seen : Card → Option (Result (User × Card)) → Result (Option User) × Card
settle_seen doc none = (ok none, doc)
settle_seen doc (some (raise e)) = (raise e, doc)
settle_seen doc (some (ok (user, after))) = (ok (some user), after)

abbrev pub touched : Source → String → Card → Result (List Card) → Result (Option User) × Card
touched source key doc (raise e) = (raise e, doc)
touched source key doc (ok users) =
    settle_seen doc
      (seen_as source key users doc (first (is_named key) users) (first (has_host key) users))

-- `touch_user`
unfoldable pub touch_user : Source → String → Card → Result (Option User) × Card
unfolding first
touch_user source name_or_id doc =
    if is_blank name_or_id
    then (ok none, doc)
    else touched source (strip name_or_id) doc (load_users_section doc)
