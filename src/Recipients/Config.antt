-- ===== src/Recipients/Config.antt =====
-- The notify configuration (_notify/_rules.py, _notify/_config.py), global and of a card, as it is
-- checked and read.
use scitex_todo.Prelude.{
  String, Bool, Option, none, some, List, [], ◌∷◌, any, str_eq, if◌then◌else◌,
}
use scitex_todo.Py.Dict.{Dict, lookup, put}
use scitex_todo.Py.Value.{Value, null, text, list, dict, nil, end, elements, entries}
use scitex_todo.Py.Raise.{Result, ok, raise, raise_if, ◌>>=◌, ◌>>◌, notify_config_error}

abbrev pub event_types : List String
event_types =
    "created" ∷ "reassigned" ∷ "reassigned_batch" ∷ "status_changed" ∷ "commented" ∷ "completed"
    ∷ "rank_changed" ∷ "committed" ∷ "pushed" ∷ "merged" ∷ "released" ∷ "pulled" ∷ "deployed" ∷ []

abbrev pub valid_roles : List String
valid_roles = "owner" ∷ "assignee" ∷ "collaborators" ∷ "subscribers" ∷ []

abbrev pub default_notify_rules : Dict (List String)
default_notify_rules =
    ("created", "assignee" ∷ [])
    ∷ ("reassigned", "owner" ∷ [])
    ∷ ("reassigned_batch", "owner" ∷ [])
    ∷ ("status_changed", "subscribers" ∷ [])
    ∷ ("commented", "owner" ∷ "collaborators" ∷ "subscribers" ∷ [])
    ∷ ("completed", "owner" ∷ "subscribers" ∷ [])
    ∷ ("rank_changed", "owner" ∷ "subscribers" ∷ [])
    ∷ ("committed", "owner" ∷ [])
    ∷ ("pushed", "owner" ∷ [])
    ∷ ("merged", [])
    ∷ ("released", "subscribers" ∷ [])
    ∷ ("pulled", [])
    ∷ ("deployed", "subscribers" ∷ [])
    ∷ []

abbrev among : List String → String → Bool
among words s = any (λ w. str_eq w s) words

-- `isinstance(v, str) and v in words`, else an error
abbrev word_of : List String → Value → Result String
word_of words (text s) = if among words s then ok s else raise notify_config_error
word_of words _ = raise notify_config_error

-- `validate_event_type`
unfoldable pub validate_event_type : Value → Result String
validate_event_type v = word_of event_types v

abbrev each_role : List Value → Result (List String)
each_role [] = ok []
each_role (v ∷ vs) = do role ← word_of valid_roles v; roles ← each_role vs; ok (role ∷ roles)

-- `validate_roles`
unfoldable pub validate_roles : Value → Result (List String)
validate_roles (list vs) = each_role (elements vs)
validate_roles _ = raise notify_config_error

-- `for event_type, roles in raw.items()`
unfoldable pub coerce_rules : Dict (List String) → Dict Value → Result (Dict (List String))
unfolding validate_event_type validate_roles put
coerce_rules coerced [] = ok coerced
coerce_rules coerced ((k, v) ∷ raw) = do
  event_type ← validate_event_type (text k)
  roles ← validate_roles v
  coerce_rules (put coerced event_type roles) raw

-- `coerce_rules_mapping`
unfoldable pub coerce_rules_mapping : Value → Result (Dict (List String))
unfolding coerce_rules
coerce_rules_mapping (dict d) = coerce_rules [] (entries d)
coerce_rules_mapping _ = raise notify_config_error

abbrev each_id : List Value → Result (List String)
each_id [] = ok []
each_id (text s ∷ vs) = do
  raise_if (str_eq s "") notify_config_error
  ids ← each_id vs
  ok (s ∷ ids)
each_id (_ ∷ vs) = raise notify_config_error

-- `coerce_id_list`
unfoldable pub coerce_id_list : Value → Result (List String)
coerce_id_list (list vs) = each_id (elements vs)
coerce_id_list _ = raise notify_config_error

-- `_CardNotify`
pub record CardNotify : Type 0 where
  pub events : Dict (List String)
  pub added : Dict (List String)
  pub muted : List String

abbrev no_notify : CardNotify
no_notify = record { events = []; added = []; muted = [] }

-- `raw.get(k, default)`
abbrev get_or : Dict Value → String → Value → Value
get_or raw k default = elim (lookup raw k) [ none ↦ default | some v ↦ v ]

-- `for event_type, ids in add_raw.items()`
unfoldable pub coerce_added : Dict (List String) → Dict Value → Result (Dict (List String))
unfolding validate_event_type coerce_id_list put
coerce_added added [] = ok added
coerce_added added ((k, v) ∷ raw) = do
  event_type ← validate_event_type (text k)
  ids ← coerce_id_list v
  coerce_added (put added event_type ids) raw

abbrev added_of : Value → Result (Dict (List String))
added_of (dict d) = coerce_added [] (entries d)
added_of _ = raise notify_config_error

-- `_coerce_card_notify`
unfoldable pub coerce_card_notify : Value → Result CardNotify
unfolding coerce_rules_mapping coerce_added coerce_id_list lookup
coerce_card_notify null = ok no_notify
coerce_card_notify (dict raw) = do
  events ← coerce_rules_mapping (get_or (entries raw) "events" (dict end))
  added ← added_of (get_or (entries raw) "add" (dict end))
  muted ← coerce_id_list (get_or (entries raw) "mute" (list nil))
  ok (record { events = events; added = added; muted = muted })
coerce_card_notify _ = raise notify_config_error

-- The rules of a sidecar file, from the JSON it holds; `null` where it is empty (lines 112-119).
unfoldable pub sidecar_rules : Value → Result (Dict (List String))
unfolding coerce_rules_mapping lookup
sidecar_rules null = ok []
sidecar_rules (dict d) = coerce_rules_mapping (get_or (entries d) "rules" (dict d))
sidecar_rules _ = raise notify_config_error

unfoldable pub merge_rules : Dict (List String) → Dict (List String) → Dict (List String)
unfolding put
merge_rules merged [] = merged
merge_rules merged ((event_type, roles) ∷ rules) = merge_rules (put merged event_type roles) rules

-- `load_notify_config`, with the sidecar's JSON where there is a sidecar
unfoldable pub load_notify_config : Option Value → Result (Dict (List String))
unfolding sidecar_rules merge_rules
load_notify_config none = ok default_notify_rules
load_notify_config (some sidecar) = do
  rules ← sidecar_rules sidecar
  ok (merge_rules default_notify_rules rules)
