-- ===== src/Users/Typed.antt =====
-- The rows that pass the validation, as users.
use scitex_todo.Prelude.{
  String, ◌≡◌, refl, sym, ◌∙◌, true, not, none, some, List, [], ◌∷◌, any, str_eq, arith,
}
use scitex_todo.Py.Value.{
  Value, null, bool, int, text, list, dict, nil, cons, elements, entries, is_name,
}
use scitex_todo.Py.Raise.{
  Result, ok, raise_if, >>-eq-ok, >>=-eq-ok, raise_if-eq-ok, ok_inj, user_validation_error,
}
use scitex_todo.Card.{Card, get}
use scitex_todo.Validate.Fields.{one_of}
use scitex_todo.Users.Model.{
  User, valid_user_kinds, read_text, read_text_or_none, read_int_or_none, read_texts, read_names,
  read_notify, from_dict, check_names, check_name_list, check_host_at_name, check_notify,
  check_given_text, check_a2a_port, validate_user,
}
use scitex_todo.Users.Registry.{read_rows, section_rows, load_users_section, row_names}
use scitex_todo.Users.Rows.{row_names-from_dict}
use scitex_todo.Users.Lookup.{users_of, load_users}
use scitex_todo.Users.Reached.{load_users-users_of}

-- A result that is an answer.
abbrev pub IsOk {ℓ} : {A : Type ℓ} → Result A → Type ℓ
IsOk {A = A} r = (a : A) × (r ≡ ok a)

name_is_text : (v : Value) → is_name v ≡ true → IsOk (read_text v)
name_is_text (text s) h = (s, refl)
name_is_text null h = cc
name_is_text (bool b) h = cc
name_is_text (int z) h = cc
name_is_text (list vs) h = cc
name_is_text (dict d) h = cc

word_is_text : (v : Value) → one_of v valid_user_kinds ≡ true → IsOk (read_text v)
unfolding one_of
word_is_text (text s) h = (s, refl)
word_is_text null h = cc
word_is_text (bool b) h = cc
word_is_text (int z) h = cc
word_is_text (list vs) h = cc
word_is_text (dict d) h = cc

names_are_texts :
    (seen : List String) (vs : List Value) → check_names seen vs ≡ ok tt → IsOk (read_texts vs)
unfolding check_names read_texts
names_are_texts seen [] h = ([], refl)
names_are_texts seen (text s ∷ vs) h =
    let (a, h1) = >>-eq-ok (raise_if (str_eq s "") user_validation_error) _ h in
    let (b, h2) =
      >>-eq-ok (raise_if (any (λ t. str_eq t s) seen) user_validation_error)
        (check_names (s ∷ seen) vs) h1 in
    let (ss, e) = names_are_texts (s ∷ seen) vs h2 in (s ∷ ss, rw e refl)
names_are_texts seen (null ∷ vs) h = cc
names_are_texts seen (bool b ∷ vs) h = cc
names_are_texts seen (int z ∷ vs) h = cc
names_are_texts seen (list l ∷ vs) h = cc
names_are_texts seen (dict d ∷ vs) h = cc

name_list_is_read : (v : Value) → check_name_list v ≡ ok tt → IsOk (read_names v)
name_list_is_read (list nil) h = cc
name_list_is_read (list (cons v vs)) h = names_are_texts [] (elements (cons v vs)) h
name_list_is_read null h = cc
name_list_is_read (bool b) h = cc
name_list_is_read (int z) h = cc
name_list_is_read (text s) h = cc
name_list_is_read (dict d) h = cc

host_is_text : (v : Value) → check_host_at_name v ≡ ok tt → IsOk (read_text_or_none v)
host_is_text null h = (none, refl)
host_is_text (text s) h = (some s, refl)
host_is_text (bool b) h = cc
host_is_text (int z) h = cc
host_is_text (list vs) h = cc
host_is_text (dict d) h = cc

notify_is_read : (v : Value) → check_notify v ≡ ok tt → IsOk (read_notify v)
notify_is_read null h = ([], refl)
notify_is_read (dict d) h = (_, refl)
notify_is_read (bool b) h = cc
notify_is_read (int z) h = cc
notify_is_read (text s) h = cc
notify_is_read (list vs) h = cc

given_is_text : (v : Value) → check_given_text v ≡ ok tt → IsOk (read_text_or_none v)
given_is_text null h = (none, refl)
given_is_text (text s) h = (some s, refl)
given_is_text (bool b) h = cc
given_is_text (int z) h = cc
given_is_text (list vs) h = cc
given_is_text (dict d) h = cc

port_is_int : (v : Value) → check_a2a_port v ≡ ok tt → IsOk (read_int_or_none v)
port_is_int null h = (none, refl)
port_is_int (int z) h = (some z, refl)
port_is_int (bool b) h = cc
port_is_int (text s) h = cc
port_is_int (list vs) h = cc
port_is_int (dict d) h = cc

-- A row that passes the validation is a user with the row's id and kind.
from_dict-IsOk :
    (row : Card)
    → validate_user row ≡ ok tt
    → (u : User) × (from_dict row ≡ ok u)
      × (read_text (get row "id") ≡ ok u.id)
      × (read_text (get row "kind") ≡ ok u.kind)
unfolding validate_user from_dict
from_dict-IsOk row h =
    let (a, h1) = >>-eq-ok (raise_if (not (is_name (get row "id"))) user_validation_error) _ h in
    let (b, h2) =
      >>-eq-ok (raise_if (not (one_of (get row "kind") valid_user_kinds)) user_validation_error) _
        h1 in
    let (c, h3) = >>-eq-ok (check_name_list (get row "names")) _ h2 in
    let (d, h4) = >>-eq-ok (check_host_at_name (get row "host_at_name")) _ h3 in
    let (e, h5) = >>-eq-ok (check_notify (get row "notify")) _ h4 in
    let (f, h6) = >>-eq-ok (check_given_text (get row "turn_url")) _ h5 in
    let (g, l) = >>-eq-ok (check_a2a_port (get row "a2a_port")) _ h6 in
    let named = raise_if-eq-ok (not (is_name (get row "id"))) user_validation_error a in
    let known =
      raise_if-eq-ok (not (one_of (get row "kind") valid_user_kinds)) user_validation_error b in
    let (id, i) = name_is_text (get row "id") (ground (arith, named)) in
    let (kind, k) = word_is_text (get row "kind") (ground (arith, known)) in
    let (names, n) = name_list_is_read (get row "names") c in
    let (host, o) = host_is_text (get row "host_at_name") d in
    let (notify, p) = notify_is_read (get row "notify") e in
    let (url, q) = given_is_text (get row "turn_url") f in
    let (port, r) = port_is_int (get row "a2a_port") g in
    let (last, s) = given_is_text (get row "last_seen") l in
    (
      record {
        id = id;
        kind = kind;
        names = names;
        host_at_name = host;
        notify = notify;
        turn_url = url;
        a2a_port = port;
        created_at = get row "created_at";
        last_seen = last;
      },
      rw (i, k, n, o, p, q, r, s) refl,
      i,
      k,
    )

-- A user for each row, with the id, the kind and the names of the row.
abbrev pub AreUsers : List Card → List User → Type 0
AreUsers [] [] = Unit
AreUsers (row ∷ rows) (u ∷ us) =
    (read_text (get row "id") ≡ ok u.id)
    × (read_text (get row "kind") ≡ ok u.kind)
    × (row_names row ≡ u.names)
    × AreUsers rows us
AreUsers [] (u ∷ us) = ⊥
AreUsers (row ∷ rows) [] = ⊥

users_of-cons :
    (row : Card) (rows : List Card) (u : User) (users : List User)
    → from_dict row ≡ ok u
    → users_of rows ≡ ok users
    → users_of (row ∷ rows) ≡ ok (u ∷ users)
unfolding users_of
users_of-cons row rows u users e f = rw (e, f) refl

read_rows-AreUsers :
    (vs : List Value) (rows : List Card)
    → read_rows vs ≡ ok rows
    → (users : List User) × (users_of rows ≡ ok users) × AreUsers rows users
unfolding read_rows
read_rows-AreUsers [] rows h = rw (sym (ok_inj h)) ([], unfold users_of in refl, tt)
read_rows-AreUsers (dict d ∷ vs) rows h =
    let (a, h1) = >>-eq-ok (validate_user (entries d)) _ h in
    let (later, b, h2) = >>=-eq-ok (read_rows vs) _ h1 in
    let (u, e, i, k) = from_dict-IsOk (entries d) a in
    let (users, f, g) = read_rows-AreUsers vs later b in
    rw (sym (ok_inj h2)) (
      u ∷ users,
      users_of-cons (entries d) later u users e f,
      (i, k, row_names-from_dict (entries d) u e, g),
    )
read_rows-AreUsers (null ∷ vs) rows h = cc
read_rows-AreUsers (bool b ∷ vs) rows h = cc
read_rows-AreUsers (int z ∷ vs) rows h = cc
read_rows-AreUsers (text s ∷ vs) rows h = cc
read_rows-AreUsers (list l ∷ vs) rows h = cc

section_rows-AreUsers :
    (v : Value) (rows : List Card)
    → section_rows v ≡ ok rows
    → (users : List User) × (users_of rows ≡ ok users) × AreUsers rows users
section_rows-AreUsers (list vs) rows h = read_rows-AreUsers (elements vs) rows h
section_rows-AreUsers null rows h = read_rows-AreUsers [] rows (unfold read_rows in h)
section_rows-AreUsers (bool b) rows h = read_rows-AreUsers [] rows (unfold read_rows in h)
section_rows-AreUsers (int z) rows h = read_rows-AreUsers [] rows (unfold read_rows in h)
section_rows-AreUsers (text s) rows h = read_rows-AreUsers [] rows (unfold read_rows in h)
section_rows-AreUsers (dict d) rows h = read_rows-AreUsers [] rows (unfold read_rows in h)

-- Where the section of users passes its validation, every row of it is a user of the annotated types:
-- `load_users` answers, with one user for each row, in order, which has the id, the kind and the names
-- of the row.
pub load_users-AreUsers :
    (doc : Card) (rows : List Card)
    → load_users_section doc ≡ ok rows
    → (users : List User) × (load_users doc ≡ ok users) × AreUsers rows users
load_users-AreUsers doc rows h =
    let (users, e, a) =
      section_rows-AreUsers (get doc "users") rows (unfold load_users_section in h) in
    (users, load_users-users_of doc rows h ∙ e, a)
