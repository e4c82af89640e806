-- ===== src/Recipients.antt =====
-- Who is notified of an event on a card (_notify/_resolver.py). A set is a list, of which only
-- membership is read. What it asks of the registry of users is a record, which Users/Lookup fills.
pub mod Config
pub mod Chosen
use scitex_todo.Prelude.{
  String, Bool, true, false, not, ◌&&◌, ◌||◌, Option, none, some, List, [], ◌∷◌, ◌++◌, map, any,
  filter, str_eq, if◌then◌else◌,
}
use scitex_todo.Py.Dict.{Dict, lookup}
use scitex_todo.Py.Value.{Value, text, list, elements}
use scitex_todo.Py.Raise.{Result, ok, raise, ◌>>=◌}
use scitex_todo.Card.{Card, get}
use scitex_todo.Recipients.Config.{CardNotify, validate_event_type, coerce_card_notify}

-- A user's `mute` and `watch` event types.
pub record Preferences : Type 0 where
  pub mute : List String
  pub watch : List String

pub record Registry : Type 0 where
  -- `_resolve_name_to_id`
  pub id_of : String → Result String
  -- `_user_notify_prefs`, which raises on a malformed entry
  pub preferences : String → Result Preferences

abbrev pub contains : List String → String → Bool
contains xs x = any (λ y. str_eq y x) xs

abbrev names_in : List Value → List String
names_in [] = []
names_in (text s ∷ vs) = if str_eq s "" then names_in vs else s ∷ names_in vs
names_in (v ∷ vs) = names_in vs

-- `_card_field_names`
abbrev names_of : Value → List String
names_of (text s) = if str_eq s "" then [] else s ∷ []
names_of (list vs) = names_in (elements vs)
names_of _ = []

abbrev owner_names : List String → List String → List String
owner_names [] assignees = assignees
owner_names (n ∷ ns) assignees = n ∷ ns

-- `{_resolve_name_to_id(n) for n in names}`
unfoldable pub resolved_ids : Registry → List String → Result (List String)
resolved_ids reg [] = ok []
resolved_ids reg (name ∷ names) = do
  id ← reg.id_of name
  ids ← resolved_ids reg names
  ok (id ∷ ids)

-- `card_role_members`
unfoldable pub card_role_members : Registry → Card → Result (Dict (List String))
unfolding resolved_ids get
card_role_members reg card = do
  owner ←
      resolved_ids reg (owner_names (names_of (get card "agent")) (names_of (get card "assignee")))
  assignee ← resolved_ids reg (names_of (get card "assignee"))
  collaborators ← resolved_ids reg (names_of (get card "collaborators"))
  subscribers ← resolved_ids reg (names_of (get card "subscribers"))
  ok (
      ("owner", owner)
      ∷ ("assignee", assignee)
      ∷ ("collaborators", collaborators)
      ∷ ("subscribers", subscribers)
      ∷ [])

abbrev pub or_empty : Option (List String) → List String
or_empty none = []
or_empty (some xs) = xs

-- `_card_member_ids`
abbrev pub card_member_ids : Dict (List String) → List String
card_member_ids [] = []
card_member_ids ((role, ids) ∷ members) = ids ++ card_member_ids members

abbrev pub in_roles : Dict (List String) → List String → List String
in_roles members [] = []
in_roles members (role ∷ roles) = or_empty (lookup members role) ++ in_roles members roles

-- `for uid in list(recipients): if event_type in prefs["mute"]: recipients.discard(uid)`
unfoldable pub unmuted : Registry → String → List String → Result (List String)
unmuted reg event_type [] = ok []
unmuted reg event_type (uid ∷ uids) = do
  prefs ← reg.preferences uid
  rest ← unmuted reg event_type uids
  ok (if contains prefs.mute event_type then rest else uid ∷ rest)

-- `for uid in card_members: if event_type in prefs["watch"]: recipients.add(uid)`
unfoldable pub watching : Registry → String → List String → Result (List String)
watching reg event_type [] = ok []
watching reg event_type (uid ∷ uids) = do
  prefs ← reg.preferences uid
  rest ← watching reg event_type uids
  ok (if contains prefs.watch event_type then uid ∷ rest else rest)

abbrev pub roles_for : CardNotify → Dict (List String) → String → List String
roles_for notify rules event_type = elim (lookup notify.events event_type) [
  | some roles ↦ roles
  | none ↦ or_empty (lookup rules event_type)
]

-- `resolve_recipients`, of the type of an event and the global rules
unfoldable pub resolve_recipients :
    Registry → Dict (List String) → Value → Card → Result (List String)
unfolding validate_event_type coerce_card_notify
resolve_recipients reg rules event card = do
  event_type ← validate_event_type event
  notify ← coerce_card_notify (get card "notify")
  members ← card_role_members reg card
  kept ← unmuted reg event_type (in_roles members (roles_for notify rules event_type))
  watchers ← watching reg event_type (card_member_ids members)
  named ← resolved_ids reg (or_empty (lookup notify.added event_type))
  silenced ← resolved_ids reg notify.muted
  ok (filter (λ uid. not (contains silenced uid)) ((kept ++ watchers) ++ named))
