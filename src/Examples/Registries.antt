-- ===== src/Examples/Registries.antt =====
-- Tests of the registry of users.
use scitex_todo.Prelude.{
  ℕ, zero, suc, ◌≡◌, refl, true, false, arith, String, none, some, List, [], ◌∷◌, length,
}
use scitex_todo.Py.Dict.{Dict, lookup, put}
use scitex_todo.Py.Text.{strip, lstrip, rstrip, is_blank}
use scitex_todo.Py.Value.{null, pos, text, list, dict, nil, cons, fields_of, strings}
use scitex_todo.Py.Raise.{Result, ok, raise, unknown_identity_error, user_validation_error}
use scitex_todo.Card.{Card, get, first}
use scitex_todo.Validate.Fields.{one_of}
use scitex_todo.Users.AgentId.{partition, canonical_agent_id}
use scitex_todo.Users.Model.{User, from_dict, to_dict, read_texts, check_names, validate_user}
use scitex_todo.Users.Identity.{
  holds, flat_names, flat_from, alias_to_canonical, registered_canonical, remove_prefix,
  remove_suffix, without_prefix, without_host, mechanical_normalize, known_name, canonical_identity,
  identity_aliases, known_hosts,
}
use scitex_todo.Users.Registry.{
  read_rows, load_users_section, validate_rows, save_users, row_names, put_names, index_from,
  names_index, existing_ids, Source, generate_from, generate_user_id, NewUser, refuse_taken,
  new_user, registered_with, register_user,
}
use scitex_todo.Users.Changes.{alias_in, add_alias}
use scitex_todo.Users.Calls.{Step, Becomes}
use scitex_todo.Users.Owners.{names_index-Becomes}
use scitex_todo.Users.Saved.{last_owner}
use scitex_todo.Users.Apart.{IsRegistry}
use scitex_todo.Users.Unique.{Becomes-IsRegistry}
use scitex_todo.Users.Fresh.{AreDistinct, register_user-some}
use scitex_todo.Users.Lookup.{
  users_of, load_users, exact, canonical_name, resolve_user, resolve_name_to_id,
}
use scitex_todo.Users.Reached.{register_user-resolve_name_to_id}
use scitex_todo.Users.Aliases.{declares, canonical_identity-declares}

abbrev ada : Card
ada = ("id", text "u_1") ∷ ("kind", text "agent") ∷ ("names", strings ("ada" ∷ [])) ∷ []

abbrev ada_user : User
ada_user = record {
  id = "u_1";
  kind = "agent";
  names = "ada" ∷ [];
  host_at_name = none;
  notify = [];
  turn_url = none;
  a2a_port = none;
  created_at = null;
  last_seen = none;
}

abbrev document : Card
document = ("tasks", list nil) ∷ ("users", list (cons (dict (fields_of ada)) nil)) ∷ []

-- The random answers, of which the first is taken.
abbrev answers : ℕ → String
answers zero = "1"
answers (suc n) = "2"

abbrev source : Source
source = record { token = answers; now = "2026-01-01T00:00:00Z" }

abbrev bo : NewUser
bo = record {
  kind = "human";
  names = "bo" ∷ "bob" ∷ [];
  host_at_name = some "nas@bo";
  notify = [];
  turn_url = none;
  a2a_port = some (pos 8080);
}

abbrev bo_user : User
unfolding new_user
bo_user = new_user source "u_2" bo

abbrev after : Card
unfolding to_dict
after =
    ("tasks", list nil)
    ∷ ("users", list (cons (dict (fields_of ada)) (cons (dict (fields_of (to_dict bo_user))) nil)))
    ∷ []

loaded : load_users_section document ≡ ok (ada ∷ [])
unfolding load_users_section read_rows validate_user check_names one_of get lookup
loaded = refl

users_loaded : load_users document ≡ ok (ada_user ∷ [])
unfolding load_users users_of from_dict read_texts load_users_section read_rows validate_user
    check_names one_of get lookup
users_loaded = refl

bo_registered : register_user source bo document ≡ some (ok bo_user, after)
unfolding register_user load_users_section read_rows validate_user check_names one_of get lookup put
    generate_user_id generate_from existing_ids registered_with refuse_taken names_index index_from
    put_names row_names new_user to_dict save_users validate_rows canonical_agent_id partition strip
    lstrip rstrip
bo_registered = refl

-- The name stays taken, and another user's alias is refused.
taken_refused : add_alias "u_2" "ada" after ≡ (raise user_validation_error, after)
unfolding add_alias alias_in load_users_section read_rows validate_user check_names one_of get
    lookup names_index index_from put_names row_names put to_dict new_user canonical_agent_id
    partition strip lstrip rstrip
taken_refused = refl

abbrev later : Card
unfolding add_alias
later = (add_alias "u_2" "robert" after).1

calls : Becomes document later
unfolding add_alias
calls =
    Becomes.then_call
      (Becomes.then_call Becomes.same (Step.registering source bo (ok bo_user) bo_registered))
      (Step.aliasing "u_2" "robert" refl)

ada_owned : lookup (names_index (ada ∷ [])) "ada" ≡ some (text "u_1")
unfolding names_index index_from put_names row_names get lookup put
ada_owned = refl

names_index-Becomes_example :
    (vs : List Card) × (load_users_section later ≡ ok vs)
    × (lookup (names_index vs) "ada" ≡ some (text "u_1"))
names_index-Becomes_example = names_index-Becomes "ada" (text "u_1") loaded ada_owned calls

ada-IsRegistry : IsRegistry (ada ∷ [])
unfolding existing_ids row_names get lookup last_owner
ada-IsRegistry = record { ids = (refl, tt); names = ((refl, tt), (λ name h. refl), tt) }

Becomes-IsRegistry_example : (vs : List Card) × (load_users_section later ≡ ok vs) × IsRegistry vs
Becomes-IsRegistry_example = Becomes-IsRegistry loaded ada-IsRegistry calls

answers_apart : AreDistinct answers (suc (length (existing_ids (ada ∷ []))))
unfolding existing_ids get lookup
answers_apart zero zero p q = absurd (omega arith)
answers_apart zero (suc j) p q = refl
answers_apart (suc i) zero p q = absurd (omega arith)
answers_apart (suc i) (suc j) p q = absurd (omega arith)

register_user-some_example :
    (answer : Result User) × (out : Card) × (register_user source bo document ≡ some (answer, out))
register_user-some_example = register_user-some source bo document (ada ∷ []) loaded answers_apart

register_user-resolve_name_to_id_example :
    (load_users after ≡ ok (ada_user ∷ bo_user ∷ []))
    × ((name : String)
        → holds ("bo" ∷ "bob" ∷ []) name ≡ true
        → resolve_name_to_id (ada_user ∷ bo_user ∷ []) name ≡ ok "u_2")
unfolding new_user
register_user-resolve_name_to_id_example =
    register_user-resolve_name_to_id source bo document after (ada_user ∷ []) bo_user users_loaded
      bo_registered

abbrev flat : Dict String
flat =
    ("scitex-agent-container", "scitex-agent-container")
    ∷ ("sac", "scitex-agent-container")
    ∷ ("scitex-orochi", "scitex-orochi")
    ∷ ("orochi", "scitex-orochi")
    ∷ []

table_accepted : alias_to_canonical identity_aliases ≡ ok flat
unfolding alias_to_canonical flat_from flat_names lookup put
table_accepted = refl

sac_named : is_blank " sac " ≡ false
unfolding strip lstrip rstrip
sac_named = refl

sac_declared : declares identity_aliases (strip " sac ") "scitex-agent-container" ≡ true
unfolding strip lstrip rstrip
sac_declared = refl

canonical_identity-declares_example :
    ((other : String)
      → declares identity_aliases (strip " sac ") other ≡ true
      → other ≡ "scitex-agent-container")
    × (registered_canonical (strip " sac ") (ada_user ∷ []) ≡ none
        → canonical_identity " sac " (ada_user ∷ []) identity_aliases known_hosts true
          ≡ ok "scitex-agent-container")
canonical_identity-declares_example =
    canonical_identity-declares " sac " (ada_user ∷ []) identity_aliases known_hosts true flat
      "scitex-agent-container" table_accepted sac_named sac_declared

-- A name that only loses its prefix is taken for known, strict or not.
prefix_known : canonical_identity "proj-nobody" [] identity_aliases known_hosts true ≡ ok "nobody"
unfolding canonical_identity strip lstrip rstrip alias_to_canonical flat_from flat_names lookup put
    known_name registered_canonical mechanical_normalize without_prefix without_host remove_prefix
    remove_suffix
prefix_known = refl

-- A blank name is refused, strict or not.
blank_refused : resolve_name_to_id (ada_user ∷ []) " " ≡ raise unknown_identity_error
unfolding resolve_name_to_id resolve_user exact first canonical_name canonical_identity strip lstrip
    rstrip
blank_refused = refl
