-- ===== src/Users/Lookup.antt =====
-- Who a name on a card is (_users/_store_read.py), and what the resolver of notifications asks of the
-- registry (_notify/_resolver.py).
use scitex_todo.Prelude.{String, false, Option, none, some, List, [], ◌∷◌, str_eq, if◌then◌else◌}
use scitex_todo.Py.Dict.{lookup}
use scitex_todo.Py.Value.{Value, null, text, list, elements}
use scitex_todo.Py.Raise.{Result, ok, raise, ◌>>=◌, notify_config_error}
use scitex_todo.Card.{Card, first, or_null}
use scitex_todo.Users.Model.{User, from_dict}
use scitex_todo.Users.Identity.{
  holds, is_at_host, identity_aliases, known_hosts, canonical_identity,
}
use scitex_todo.Users.Registry.{load_users_section}
use scitex_todo.Recipients.{Preferences, Registry, contains}
use scitex_todo.Recipients.Config.{event_types}

unfoldable pub users_of : List Card → Result (List User)
unfolding from_dict
users_of [] = ok []
users_of (row ∷ rows) = do user ← from_dict row; users ← users_of rows; ok (user ∷ users)

-- `load_users`, without its cache
unfoldable pub load_users : Card → Result (List User)
unfolding users_of load_users_section
load_users doc = do rows ← load_users_section doc; users_of rows

-- `get_user`
unfoldable pub get_user : String → List User → Option User
unfolding first
get_user user_id users = if str_eq user_id "" then none else first (λ u. str_eq u.id user_id) users

abbrev or_user : Option User → Option User → Option User
or_user none later = later
or_user (some u) later = some u

-- `_exact`
unfoldable pub exact : List User → String → Option User
unfolding first
exact users key =
    or_user (first (λ u. holds u.names key) users) (first (λ u. is_at_host u key) users)

-- line 169
unfoldable pub canonical_name : List User → String → Result String
unfolding canonical_identity
canonical_name users name = canonical_identity name users identity_aliases known_hosts false

-- lines 161-172
abbrev pub exact_or_canonical : List User → String → Option User → Result (Option User)
exact_or_canonical users name (some hit) = ok (some hit)
exact_or_canonical users name none = do
  canonical ← canonical_name users name
  ok (if str_eq canonical name then none else exact users canonical)

-- `resolve_user`
unfoldable pub resolve_user : String → List User → Result (Option User)
unfolding exact canonical_name
resolve_user name users =
    if str_eq name "" then ok none else exact_or_canonical users name (exact users name)

abbrev id_or : Option User → String → String
id_or none name = name
id_or (some u) name = u.id

-- lines 63-75
abbrev pub id_or_canonical : List User → String → Option User → Result String
id_or_canonical users name (some u) = ok u.id
id_or_canonical users name none = do
  canonical ← canonical_name users name
  again ← if str_eq canonical name then ok none else resolve_user canonical users
  ok (id_or again name)

-- `_resolve_name_to_id`
unfoldable pub resolve_name_to_id : List User → String → Result String
unfolding resolve_user canonical_name
resolve_name_to_id users name = do user ← resolve_user name users; id_or_canonical users name user

abbrev known_events : List Value → List String
known_events [] = []
known_events (text s ∷ vs) = if contains event_types s then s ∷ known_events vs else known_events vs
known_events (_ ∷ vs) = known_events vs

abbrev events_in : Value → Result (List String)
events_in null = ok []
events_in (list vs) = ok (known_events (elements vs))
events_in _ = raise notify_config_error

-- `_user_event_set`
unfoldable pub user_event_set : User → String → Result (List String)
unfolding lookup
user_event_set u key = events_in (or_null (lookup u.notify key))

-- `_lookup_recipient`
unfoldable pub lookup_recipient : String → List User → Result (Option User)
unfolding get_user resolve_user
lookup_recipient uid users = elim (get_user uid users) [
  | some u ↦ ok (some u)
  | none ↦ resolve_user uid users
]

abbrev preferences_of : Option User → Result Preferences
preferences_of none = ok (record { mute = []; watch = [] })
preferences_of (some u) = do
  mute ← user_event_set u "mute"
  watch ← user_event_set u "watch"
  ok (record { mute = mute; watch = watch })

-- `_user_notify_prefs`
unfoldable pub user_notify_prefs : List User → String → Result Preferences
unfolding lookup_recipient user_event_set
user_notify_prefs users uid = do user ← lookup_recipient uid users; preferences_of user

-- The registry that the resolver reads.
unfoldable pub registry_of : List User → Registry
unfolding resolve_name_to_id user_notify_prefs
registry_of users = record {
  id_of = resolve_name_to_id users;
  preferences = user_notify_prefs users;
}
