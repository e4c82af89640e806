-- ===== src/Examples/Notices.antt =====
-- Tests of the recipients of a notification.
use scitex_todo.Prelude.{◌≡◌, refl, not, ◌&&◌, ◌||◌, String, none, some, List, [], ◌∷◌, filter}
use scitex_todo.Py.Dict.{Dict, lookup, put}
use scitex_todo.Py.Text.{strip, lstrip, rstrip}
use scitex_todo.Py.Value.{Value, null, text, dict, strings, field, end}
use scitex_todo.Py.Raise.{ok, raise, notify_config_error}
use scitex_todo.Card.{Card, get, first}
use scitex_todo.Users.Model.{User}
use scitex_todo.Users.Identity.{
  flat_names, flat_from, alias_to_canonical, registered_canonical, remove_prefix, remove_suffix,
  without_prefix, without_host, mechanical_normalize, known_name, canonical_identity,
}
use scitex_todo.Users.Lookup.{
  get_user, exact, canonical_name, resolve_user, resolve_name_to_id, user_event_set,
  lookup_recipient, user_notify_prefs, registry_of,
}
use scitex_todo.Recipients.{
  contains, resolved_ids, card_role_members, card_member_ids, in_roles, roles_for, unmuted,
  watching, resolve_recipients,
}
use scitex_todo.Recipients.Config.{
  validate_event_type, validate_roles, coerce_rules, coerce_rules_mapping, coerce_id_list,
  coerce_added, coerce_card_notify, default_notify_rules, sidecar_rules, merge_rules,
  load_notify_config,
}
use scitex_todo.Recipients.Chosen.{Resolved, resolve_recipients-contains}

abbrev user : String → List String → Dict Value → User
user id names notify = record {
  id = id;
  kind = "agent";
  names = names;
  host_at_name = none;
  notify = notify;
  turn_url = none;
  a2a_port = none;
  created_at = null;
  last_seen = none;
}

-- Whoever leads does not want comments, and the scribe wants all of them.
abbrev users : List User
users =
    user "u_1" ("worker" ∷ []) []
    ∷ user "u_2" ("lead" ∷ []) (("mute", strings ("commented" ∷ [])) ∷ [])
    ∷ user "u_3" ("scribe" ∷ []) (("watch", strings ("commented" ∷ [])) ∷ [])
    ∷ []

abbrev card : Card
card =
    ("agent", text "proj-worker")
    ∷ ("assignee", text "scribe")
    ∷ ("subscribers", strings ("lead" ∷ "ops" ∷ []))
    ∷ ("notify", dict (field "mute" (strings ("ops" ∷ [])) end))
    ∷ []

reached :
    resolve_recipients (registry_of users) default_notify_rules (text "commented") card
    ≡ ok ("u_1" ∷ "u_3" ∷ [])
unfolding resolve_recipients validate_event_type coerce_card_notify coerce_rules_mapping
    coerce_rules coerce_added coerce_id_list lookup put get card_role_members resolved_ids
    registry_of resolve_name_to_id resolve_user exact first canonical_name canonical_identity strip
    lstrip rstrip alias_to_canonical flat_from flat_names known_name registered_canonical
    mechanical_normalize without_prefix without_host remove_prefix remove_suffix user_notify_prefs
    lookup_recipient get_user user_event_set unmuted watching filter
reached = refl

-- A rule of the sidecar takes the place of the built-in one.
merged :
    load_notify_config (some (dict (field "merged" (strings ("owner" ∷ [])) end)))
    ≡ ok (merge_rules default_notify_rules (("merged", "owner" ∷ []) ∷ []))
unfolding load_notify_config sidecar_rules coerce_rules_mapping coerce_rules validate_event_type
    validate_roles lookup put
merged = refl

unknown_event : validate_event_type (text "renamed") ≡ raise notify_config_error
unfolding validate_event_type
unknown_event = refl

quiet : (registry_of users).preferences "u_2" ≡ ok (record { mute = "commented" ∷ []; watch = [] })
unfolding registry_of user_notify_prefs lookup_recipient get_user first user_event_set lookup
quiet = refl

resolve_recipients-contains_example :
    (r : Resolved (registry_of users) (text "commented") card) × (contains
        ("u_1" ∷ "u_3" ∷ [])
        "u_2"
      ≡ (((contains
                  (in_roles r.members (roles_for r.notify default_notify_rules r.event_type))
                  "u_2"
                && not (contains ("commented" ∷ []) r.event_type)
              || (contains (card_member_ids r.members) "u_2" && contains [] r.event_type))
            || contains r.named "u_2")
          && not (contains r.silenced "u_2")))
resolve_recipients-contains_example =
    resolve_recipients-contains (registry_of users) default_notify_rules (text "commented") card
      ("u_1" ∷ "u_3" ∷ []) "u_2" (record { mute = "commented" ∷ []; watch = [] }) quiet reached
