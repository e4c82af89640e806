-- ===== src/Users/Model.antt =====
-- A user and its record in the document (_users/_model.py). The fields have the types of their
-- annotations, but for `created_at`, which no code checks.
use scitex_todo.Prelude.{
  suc, String, true, false, not, ◌&&◌, Option, none, some, List, [], ◌∷◌, ◌++◌, any, str_eq,
}
use scitex_todo.Py.Dict.{Dict}
use scitex_todo.Py.Value.{
  Value, ℤ, pos, null, int, text, list, dict, items_of, fields_of, entries, elements, is_null,
  is_name,
}
use scitex_todo.Py.Raise.{
  Result, ok, raise, raise_if, ◌>>=◌, ◌>>◌, type_error, user_validation_error,
}
use scitex_todo.Card.{Card, get}
use scitex_todo.Validate.Fields.{Checked, one_of}
use scitex_todo.Users.AgentId.{canonical_agent_id}

abbrev pub valid_user_kinds : List String
valid_user_kinds = "human" ∷ "agent" ∷ []

-- `User`
pub record User : Type 0 where
  pub id : String
  pub kind : String
  pub names : List String
  pub host_at_name : Option String
  pub notify : Dict Value
  pub turn_url : Option String
  pub a2a_port : Option ℤ
  pub created_at : Value
  pub last_seen : Option String

-- A field that the annotation gives the type `str`, `str | None`, `int | None`, `list[str]` or `dict`.
-- `User.from_dict` itself checks no types. It is called on rows that passed `validate_user`, which does
-- (Users/Typed is about those): where `type_error` stands here, the code would make a user that the
-- record cannot hold.
abbrev pub read_text : Value → Result String
read_text (text s) = ok s
read_text _ = raise type_error

abbrev pub read_text_or_none : Value → Result (Option String)
read_text_or_none null = ok none
read_text_or_none (text s) = ok (some s)
read_text_or_none _ = raise type_error

abbrev pub read_int_or_none : Value → Result (Option ℤ)
read_int_or_none null = ok none
read_int_or_none (int z) = ok (some z)
read_int_or_none _ = raise type_error

unfoldable pub read_texts : List Value → Result (List String)
read_texts [] = ok []
read_texts (v ∷ vs) = do s ← read_text v; rest ← read_texts vs; ok (s ∷ rest)

abbrev pub read_names : Value → Result (List String)
read_names null = ok []
read_names (list vs) = read_texts (elements vs)
read_names _ = raise type_error

abbrev pub read_notify : Value → Result (Dict Value)
read_notify null = ok []
read_notify (dict d) = ok (entries d)
read_notify _ = raise type_error

-- `User.from_dict`: unknown keys are dropped, and `names` and `notify` have defaults. A row with no
-- `id` or `kind` is refused.
unfoldable pub from_dict : Card → Result User
from_dict d = do
  id ← read_text (get d "id")
  kind ← read_text (get d "kind")
  names ← read_names (get d "names")
  host_at_name ← read_text_or_none (get d "host_at_name")
  notify ← read_notify (get d "notify")
  turn_url ← read_text_or_none (get d "turn_url")
  a2a_port ← read_int_or_none (get d "a2a_port")
  last_seen ← read_text_or_none (get d "last_seen")
  ok (record {
    id = id;
    kind = kind;
    names = names;
    host_at_name = host_at_name;
    notify = notify;
    turn_url = turn_url;
    a2a_port = a2a_port;
    created_at = get d "created_at";
    last_seen = last_seen;
  })

abbrev pub texts : List String → List Value
texts [] = []
texts (s ∷ ss) = text s ∷ texts ss

-- `if x is not None: result[k] = x`
abbrev pub given_text : String → Option String → Card
given_text k none = []
given_text k (some s) = (k, text s) ∷ []

abbrev pub given_int : String → Option ℤ → Card
given_int k none = []
given_int k (some z) = (k, int z) ∷ []

-- `if self.notify: result["notify"] = dict(self.notify)`
abbrev pub given_dict : String → Dict Value → Card
given_dict k [] = []
given_dict k (e ∷ es) = (k, dict (fields_of (e ∷ es))) ∷ []

-- `User.to_dict`
unfoldable pub to_dict : User → Card
to_dict u =
    ("id", text u.id)
      ∷ ("kind", text u.kind)
      ∷ ("names", list (items_of (texts u.names)))
      ∷ ("created_at", u.created_at)
      ∷ given_text "host_at_name" u.host_at_name
    ++ (given_dict "notify" u.notify
        ++ (given_text "turn_url" u.turn_url
            ++ (given_int "a2a_port" u.a2a_port ++ given_text "last_seen" u.last_seen)))

-- lines 190-201
unfoldable pub check_names : List String → List Value → Checked
check_names seen [] = ok tt
check_names seen (text name ∷ names) = do
  raise_if (str_eq name "") user_validation_error
  raise_if (any (λ s. str_eq s name) seen) user_validation_error
  check_names (name ∷ seen) names
check_names seen (_ ∷ names) = raise user_validation_error

-- lines 184-201
abbrev pub check_name_list : Value → Checked
check_name_list (list vs) = do
  raise_if (elim (elements vs) [ [] ↦ true | _ ∷ _ ↦ false ]) user_validation_error
  check_names [] (elements vs)
check_name_list _ = raise user_validation_error

-- `try: canonical_agent_id(...)`, `except AgentIdentityError: raise UserValidationError`
abbrev reraised : Result String → Checked
reraised (ok _) = ok tt
reraised (raise _) = raise user_validation_error

-- lines 203-219
abbrev pub check_host_at_name : Value → Checked
check_host_at_name null = ok tt
check_host_at_name (text s) = do
  raise_if (str_eq s "") user_validation_error
  reraised (canonical_agent_id s none)
check_host_at_name _ = raise user_validation_error

-- lines 221-226
abbrev pub check_notify : Value → Checked
check_notify null = ok tt
check_notify (dict _) = ok tt
check_notify _ = raise user_validation_error

-- lines 228-233, and 245-250: a non-empty string or absent
abbrev pub check_given_text : Value → Checked
check_given_text v = raise_if (not (is_null v) && not (is_name v)) user_validation_error

-- lines 235-243
abbrev pub check_a2a_port : Value → Checked
check_a2a_port null = ok tt
check_a2a_port (int (pos (suc n))) = ok tt
check_a2a_port _ = raise user_validation_error

-- `validate_user` of a row
unfoldable pub validate_user : Card → Checked
validate_user d = do
  raise_if (not (is_name (get d "id"))) user_validation_error
  raise_if (not (one_of (get d "kind") valid_user_kinds)) user_validation_error
  check_name_list (get d "names")
  check_host_at_name (get d "host_at_name")
  check_notify (get d "notify")
  check_given_text (get d "turn_url")
  check_a2a_port (get d "a2a_port")
  check_given_text (get d "last_seen")
