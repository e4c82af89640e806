-- ===== src/Users/Rows.antt =====
-- What is known of a row that was read or validated.
use scitex_todo.Prelude.{
  String, ◌≡◌, refl, sym, ap, ◌∙◌, subst, inl, inr, Bool, true, false, Bool-cases, none, some, List,
  [], ◌∷◌, ◌++◌, any, str_eq, eq_iff, arith,
}
use scitex_todo.Py.Value.{Value, null, bool, int, text, list, dict, nil, cons, elements}
use scitex_todo.Py.Raise.{
  ok, raise_if, >>-eq-ok, >>=-eq-ok, raise_if-eq-ok, ok_inj, user_validation_error,
}
use scitex_todo.Card.{Card, get, first}
use scitex_todo.Users.Identity.{holds}
use scitex_todo.Users.Model.{
  User, from_dict, to_dict, read_text, read_text_or_none, read_texts, read_names, read_notify,
  read_int_or_none, check_names, check_name_list, validate_user,
}
use scitex_todo.Users.Registry.{row_names, texts_in, names_under}
use scitex_todo.Users.Saved.{last_owner}
use scitex_todo.Users.Apart.{names_checked}
use scitex_todo.Users.Lookup.{users_of}
use scitex_todo.Users.Known.{from_dict-to_dict}

-- A user has the names of its row.
texts_in-read_texts :
    (vs : List Value) (ss : List String) → read_texts vs ≡ ok ss → texts_in vs ≡ ss
unfolding read_texts
texts_in-read_texts [] ss h = ok_inj h
texts_in-read_texts (text s ∷ vs) ss h =
    let (rest, a, b) = >>=-eq-ok (read_texts vs) _ h in
    ap (λ (l : List String). s ∷ l) (texts_in-read_texts vs rest a) ∙ ok_inj b
texts_in-read_texts (null ∷ vs) ss h = cc
texts_in-read_texts (bool b ∷ vs) ss h = cc
texts_in-read_texts (int z ∷ vs) ss h = cc
texts_in-read_texts (list l ∷ vs) ss h = cc
texts_in-read_texts (dict d ∷ vs) ss h = cc

names_under-read_names : (v : Value) (ss : List String) → read_names v ≡ ok ss → names_under v ≡ ss
names_under-read_names null ss h = ok_inj h
names_under-read_names (list vs) ss h = texts_in-read_texts (elements vs) ss h
names_under-read_names (bool b) ss h = cc
names_under-read_names (int z) ss h = cc
names_under-read_names (text s) ss h = cc
names_under-read_names (dict d) ss h = cc

pub row_names-from_dict : (row : Card) (u : User) → from_dict row ≡ ok u → row_names row ≡ u.names
unfolding from_dict row_names
row_names-from_dict row u h =
    let (a, b, h1) = >>=-eq-ok (read_text (get row "id")) _ h in
    let (c, d, h2) = >>=-eq-ok (read_text (get row "kind")) _ h1 in
    let (names, e, h3) = >>=-eq-ok (read_names (get row "names")) _ h2 in
    let (f, g, h4) = >>=-eq-ok (read_text_or_none (get row "host_at_name")) _ h3 in
    let (i, j, h5) = >>=-eq-ok (read_notify (get row "notify")) _ h4 in
    let (k, l, h6) = >>=-eq-ok (read_text_or_none (get row "turn_url")) _ h5 in
    let (m, n, h7) = >>=-eq-ok (read_int_or_none (get row "a2a_port")) _ h6 in
    let (o, p, h8) = >>=-eq-ok (read_text_or_none (get row "last_seen")) _ h7 in
    names_under-read_names (get row "names") names e ∙ ap (λ (v : User). v.names) (ok_inj h8)

pub first-last {ℓ} :
    {A : Type ℓ} (p : A → Bool) (xs : List A) (y : A)
    → first p xs ≡ none
    → p y ≡ true
    → first p (xs ++ y ∷ []) ≡ some y
unfolding first
first-last p [] y n h = rw h refl
first-last p (x ∷ xs) y n h = elim (Bool-cases (p x)) [
  | inl e ↦ absurd (let k = rw (e) at n in cc)
  | inr e ↦ rw e (first-last p xs y (rw (e) at n) h)
]

-- A name that no row has is a name of no user.
pub first-users_of :
    (rows : List Card) (users : List User) (name : String)
    → users_of rows ≡ ok users
    → last_owner rows name ≡ none
    → first (λ u. holds u.names name) users ≡ none
unfolding users_of last_owner first
first-users_of [] users name h o = ap (first (λ u. holds u.names name)) (sym (ok_inj h))
first-users_of (row ∷ rows) users name h o =
    let (u, a, h1) = >>=-eq-ok (from_dict row) _ h in
    let (us, b, h2) = >>=-eq-ok (users_of rows) _ h1 in
    let no_later : last_owner rows name ≡ none = ground (arith, o) in
    let no_own : holds (row_names row) name ≡ false = ground (arith, o) in
    subst (λ (l : List User). first (λ v. holds v.names name) l ≡ none) (ok_inj h2)
      (rw (ap (λ (l : List String). holds l name) (sym (row_names-from_dict row u a)) ∙ no_own)
        (first-users_of rows us name b no_later))

pub users_of-append :
    (rows : List Card) (users : List User) (u : User)
    → users_of rows ≡ ok users
    → users_of (rows ++ to_dict u ∷ []) ≡ ok (users ++ u ∷ [])
unfolding users_of
users_of-append [] users u h =
    rw (from_dict-to_dict u) (ap (λ (l : List User). ok (l ++ u ∷ [])) (ok_inj h))
users_of-append (row ∷ rows) users u h =
    let (first_user, a, h1) = >>=-eq-ok (from_dict row) _ h in
    let (us, b, h2) = >>=-eq-ok (users_of rows) _ h1 in
    rw (a, users_of-append rows us u b) (ap (λ (l : List User). ok (l ++ u ∷ [])) (ok_inj h2))

-- A name that passed the validation is not empty.
check_names-named :
    (seen : List String) (vs : List Value) (s : String)
    → check_names seen vs ≡ ok tt
    → holds (texts_in vs) s ≡ true
    → str_eq s "" ≡ false
unfolding check_names
check_names-named seen [] s h k = cc
check_names-named seen (text t ∷ vs) s h k =
    let (a, h1) = >>-eq-ok (raise_if (str_eq t "") user_validation_error) _ h in
    let (b, h2) =
      >>-eq-ok (raise_if (any (λ r. str_eq r t) seen) user_validation_error)
        (check_names (t ∷ seen) vs) h1 in
    elim (Bool-cases (str_eq t s)) [
      | inl e ↦
          ap (λ (r : String). str_eq r "") (sym ((eq_iff t s).0 e))
          ∙ raise_if-eq-ok (str_eq t "") user_validation_error a
      | inr e ↦ check_names-named (t ∷ seen) vs s h2 (ground (arith, k, e))
    ]
check_names-named seen (null ∷ vs) s h k = cc
check_names-named seen (bool b ∷ vs) s h k = cc
check_names-named seen (int z ∷ vs) s h k = cc
check_names-named seen (list l ∷ vs) s h k = cc
check_names-named seen (dict d ∷ vs) s h k = cc

check_name_list-named :
    (v : Value) (s : String)
    → check_name_list v ≡ ok tt
    → holds (names_under v) s ≡ true
    → str_eq s "" ≡ false
check_name_list-named (list nil) s h k = cc
check_name_list-named (list (cons v vs)) s h k = check_names-named [] (elements (cons v vs)) s h k
check_name_list-named null s h k = cc
check_name_list-named (bool b) s h k = cc
check_name_list-named (int z) s h k = cc
check_name_list-named (text t) s h k = cc
check_name_list-named (dict d) s h k = cc

pub validate_user-named :
    (u : Card) (s : String)
    → validate_user u ≡ ok tt
    → holds (row_names u) s ≡ true
    → str_eq s "" ≡ false
unfolding row_names
validate_user-named u s h k = check_name_list-named (get u "names") s (names_checked u h) k
