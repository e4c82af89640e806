-- ===== src/Users/Known.antt =====
-- Rows and users, and whom the names of a registered user reach.
use scitex_todo.Prelude.{
  String, ◌≡◌, refl, ◌∙◌, false, Option, none, some, List, [], ◌∷◌, ◌++◌, str_eq, eq_refl, arith,
}
use scitex_todo.Py.Dict.{Dict, lookup}
use scitex_todo.Py.Value.{Value, ℤ, text, elements-items_of, entries-fields_of}
use scitex_todo.Py.Raise.{ok}
use scitex_todo.Card.{Card, get, or_null}
use scitex_todo.Users.Model.{
  User, from_dict, to_dict, texts, read_texts, read_names, read_text_or_none, read_int_or_none,
  read_notify, given_text, given_int, given_dict,
}

read_texts-texts : (ss : List String) → read_texts (texts ss) ≡ ok ss
unfolding read_texts
read_texts-texts [] = refl
read_texts-texts (s ∷ ss) = rw (read_texts-texts ss) refl

lookup-given_text :
    (k j : String) (o : Option String) (rest : Card)
    → str_eq k j ≡ false
    → lookup (given_text k o ++ rest) j ≡ lookup rest j
unfolding lookup
lookup-given_text k j none rest e = refl
lookup-given_text k j (some s) rest e = rw e refl

lookup-given_int :
    (k j : String) (o : Option ℤ) (rest : Card)
    → str_eq k j ≡ false
    → lookup (given_int k o ++ rest) j ≡ lookup rest j
unfolding lookup
lookup-given_int k j none rest e = refl
lookup-given_int k j (some s) rest e = rw e refl

lookup-given_dict :
    (k j : String) (o : Dict Value) (rest : Card)
    → str_eq k j ≡ false
    → lookup (given_dict k o ++ rest) j ≡ lookup rest j
unfolding lookup
lookup-given_dict k j [] rest e = refl
lookup-given_dict k j (x ∷ xs) rest e = rw e refl

-- What the reader of an optional field makes of what was written.
read_given_text :
    (k : String) (o : Option String) (rest : Card)
    → lookup rest k ≡ none
    → read_text_or_none (or_null (lookup (given_text k o ++ rest) k)) ≡ ok o
unfolding lookup
read_given_text k none rest e = rw e refl
read_given_text k (some s) rest e = rw (eq_refl k) refl

read_given_int :
    (k : String) (o : Option ℤ) (rest : Card)
    → lookup rest k ≡ none
    → read_int_or_none (or_null (lookup (given_int k o ++ rest) k)) ≡ ok o
unfolding lookup
read_given_int k none rest e = rw e refl
read_given_int k (some s) rest e = rw (eq_refl k) refl

read_given_dict :
    (k : String) (o : Dict Value) (rest : Card)
    → lookup rest k ≡ none
    → read_notify (or_null (lookup (given_dict k o ++ rest) k)) ≡ ok o
unfolding lookup
read_given_dict k [] rest e = rw e refl
read_given_dict k (x ∷ xs) rest e = rw (eq_refl k, entries-fields_of (x ∷ xs)) refl

module _ (u : User) where
  abbrev seen_part : Card
  seen_part = given_text "last_seen" u.last_seen

  abbrev port_part : Card
  port_part = given_int "a2a_port" u.a2a_port ++ seen_part

  abbrev url_part : Card
  url_part = given_text "turn_url" u.turn_url ++ port_part

  abbrev notify_part : Card
  notify_part = given_dict "notify" u.notify ++ url_part

  -- A key that no optional field has is not found behind any of them.
  not_seen : (k : String) → str_eq "last_seen" k ≡ false → lookup seen_part k ≡ none
  unfolding lookup
  not_seen k e = ground (arith, e)

  not_port : lookup port_part "turn_url" ≡ none
  not_port =
      lookup-given_int "a2a_port" "turn_url" u.a2a_port seen_part refl ∙ not_seen "turn_url" refl

  not_url :
      (k : String)
      → str_eq "turn_url" k ≡ false
      → str_eq "a2a_port" k ≡ false
      → str_eq "last_seen" k ≡ false
      → lookup url_part k ≡ none
  not_url k a b c =
      lookup-given_text "turn_url" k u.turn_url port_part a
      ∙ lookup-given_int "a2a_port" k u.a2a_port seen_part b
      ∙ not_seen k c

  to_dict-host_at_name : read_text_or_none (get (to_dict u) "host_at_name") ≡ ok u.host_at_name
  unfolding get to_dict lookup
  to_dict-host_at_name = read_given_text "host_at_name" u.host_at_name notify_part (
      lookup-given_dict "notify" "host_at_name" u.notify url_part refl
      ∙ not_url "host_at_name" refl refl refl)

  to_dict-notify : read_notify (get (to_dict u) "notify") ≡ ok u.notify
  unfolding get to_dict lookup
  to_dict-notify =
      rw (lookup-given_text "host_at_name" "notify" u.host_at_name notify_part refl)
        (read_given_dict "notify" u.notify url_part (not_url "notify" refl refl refl))

  -- The keys behind `notify`
  behind_notify :
      (k : String)
      → str_eq "host_at_name" k ≡ false
      → str_eq "notify" k ≡ false
      → lookup (given_text "host_at_name" u.host_at_name ++ notify_part) k ≡ lookup url_part k
  behind_notify k a b =
      lookup-given_text "host_at_name" k u.host_at_name notify_part a
      ∙ lookup-given_dict "notify" k u.notify url_part b

  to_dict-turn_url : read_text_or_none (get (to_dict u) "turn_url") ≡ ok u.turn_url
  unfolding get to_dict lookup
  to_dict-turn_url =
      rw (behind_notify "turn_url" refl refl)
        (read_given_text "turn_url" u.turn_url port_part not_port)

  to_dict-a2a_port : read_int_or_none (get (to_dict u) "a2a_port") ≡ ok u.a2a_port
  unfolding get to_dict lookup
  to_dict-a2a_port =
      rw
        (
          behind_notify "a2a_port" refl refl,
          lookup-given_text "turn_url" "a2a_port" u.turn_url port_part refl,
        )
        (read_given_int "a2a_port" u.a2a_port seen_part (not_seen "a2a_port" refl))

  last_text :
      (o : Option String)
      → read_text_or_none (or_null (lookup (given_text "last_seen" o) "last_seen")) ≡ ok o
  unfolding lookup
  last_text none = refl
  last_text (some s) = refl

  to_dict-last_seen : read_text_or_none (get (to_dict u) "last_seen") ≡ ok u.last_seen
  unfolding get to_dict lookup
  to_dict-last_seen =
      rw
        (
          behind_notify "last_seen" refl refl,
          lookup-given_text "turn_url" "last_seen" u.turn_url port_part refl,
          lookup-given_int "a2a_port" "last_seen" u.a2a_port seen_part refl,
        )
        (last_text u.last_seen)

  to_dict-id : get (to_dict u) "id" ≡ text u.id
  unfolding get to_dict lookup
  to_dict-id = refl

  to_dict-kind : get (to_dict u) "kind" ≡ text u.kind
  unfolding get to_dict lookup
  to_dict-kind = refl

  to_dict-names : read_names (get (to_dict u) "names") ≡ ok u.names
  unfolding get to_dict lookup
  to_dict-names = rw (elements-items_of (texts u.names)) (read_texts-texts u.names)

  to_dict-created_at : get (to_dict u) "created_at" ≡ u.created_at
  unfolding get to_dict lookup
  to_dict-created_at = refl

-- A user that is written as a row and read again is the same user.
pub from_dict-to_dict : (u : User) → from_dict (to_dict u) ≡ ok u
unfolding from_dict
from_dict-to_dict u =
    rw
      (
        to_dict-id u,
        to_dict-kind u,
        to_dict-names u,
        to_dict-host_at_name u,
        to_dict-notify u,
        to_dict-turn_url u,
        to_dict-a2a_port u,
        to_dict-last_seen u,
        to_dict-created_at u,
      )
      refl
