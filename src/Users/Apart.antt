-- ===== src/Users/Apart.antt =====
-- Lists of texts without repetition, and the names and ids of rows as such lists.
use mathlib.Core.List.{append_assoc}
use scitex_todo.Prelude.{
  String, ◌≡◌, refl, sym, ap, ◌∙◌, inl, inr, Bool, true, false, not, Bool-cases, none, List, [],
  ◌∷◌, ◌++◌, any, str_eq, eq_iff, eq_refl, arith,
}
use scitex_todo.Py.Value.{Value, null, bool, int, text, list, dict, is_name, nil, cons, elements}
use scitex_todo.Py.Raise.{ok, raise_if, >>-eq-ok, raise_if-eq-ok, user_validation_error}
use scitex_todo.Card.{Card, get, change_first}
use scitex_todo.Validate.Fields.{one_of}
use scitex_todo.Users.Identity.{holds}
use scitex_todo.Users.Model.{validate_user, check_names, check_name_list, valid_user_kinds}
use scitex_todo.Users.Registry.{row_names, existing_ids, texts_in, names_under}
use scitex_todo.Users.Saved.{last_owner}
use scitex_todo.Users.Names.{holds-append}

-- Every text of a list once.
abbrev pub NoneTwice : List String → Type 0
NoneTwice [] = Unit
NoneTwice (x ∷ xs) = (holds xs x ≡ false) × NoneTwice xs

-- No row has a name twice, and no two rows share one.
abbrev pub NamesApart : List Card → Type 0
NamesApart [] = Unit
NamesApart (u ∷ us) =
    NoneTwice (row_names u)
    × ((name : String) → holds (row_names u) name ≡ true → last_owner us name ≡ none)
    × NamesApart us

pub record IsRegistry (us : List Card) : Type 0 where
  pub ids : NoneTwice (existing_ids us)
  pub names : NamesApart us

pub NoneTwice-append :
    (xs : List String) (y : String) → NoneTwice xs → holds xs y ≡ false → NoneTwice (xs ++ y ∷ [])
NoneTwice-append [] y n h = (refl, tt)
NoneTwice-append (x ∷ xs) y n h = (
  rw (holds-append xs (y ∷ []) x) (ground (arith, n.0, h, eq_iff x y, eq_iff y x)),
  NoneTwice-append xs y n.1 (ground (arith, h)),
)

pub existing_ids-append :
    (us vs : List Card) → existing_ids (us ++ vs) ≡ existing_ids us ++ existing_ids vs
unfolding existing_ids
existing_ids-append [] vs = refl
existing_ids-append (u ∷ us) vs =
    ap (λ (l : List String). texts_in (get u "id" ∷ []) ++ l) (existing_ids-append us vs)
    ∙ sym (append_assoc (texts_in (get u "id" ∷ [])) (existing_ids us) (existing_ids vs))

pub existing_ids-change_first :
    (p : Card → Bool) (f : Card → Card) (us : List Card)
    → ((u : Card) → get (f u) "id" ≡ get u "id")
    → existing_ids (change_first p f us) ≡ existing_ids us
unfolding existing_ids change_first
existing_ids-change_first p f [] i = refl
existing_ids-change_first p f (u ∷ us) i = elim (Bool-cases (p u)) [
  | inl e ↦ rw (e, i u) refl
  | inr e ↦ rw (e, existing_ids-change_first p f us i) refl
]

-- A row's own names, from its validation.
check_names-NoneTwice :
    (seen : List String) (vs : List Value)
    → check_names seen vs ≡ ok tt
    → NoneTwice (texts_in vs) × ((s : String) → holds seen s ≡ true → holds (texts_in vs) s ≡ false)
unfolding check_names
check_names-NoneTwice seen [] h = (tt, λ s e. refl)
check_names-NoneTwice seen (text s ∷ vs) h =
    let (a, h1) = >>-eq-ok (raise_if (str_eq s "") user_validation_error) _ h in
    let (b, h2) =
      >>-eq-ok (raise_if (any (λ t. str_eq t s) seen) user_validation_error)
        (check_names (s ∷ seen) vs) h1 in
    let new = raise_if-eq-ok (any (λ t. str_eq t s) seen) user_validation_error b in
    let (later, apart) = check_names-NoneTwice (s ∷ seen) vs h2 in
    (
      (apart s (rw (eq_refl s) refl), later),
      λ t e. ground (arith, e, new, apart t, eq_iff s t, ap (holds seen)),
    )
check_names-NoneTwice seen (null ∷ vs) h = cc
check_names-NoneTwice seen (bool b ∷ vs) h = cc
check_names-NoneTwice seen (int z ∷ vs) h = cc
check_names-NoneTwice seen (list l ∷ vs) h = cc
check_names-NoneTwice seen (dict d ∷ vs) h = cc

check_name_list-NoneTwice : (v : Value) → check_name_list v ≡ ok tt → NoneTwice (names_under v)
check_name_list-NoneTwice (list nil) h = tt
check_name_list-NoneTwice (list (cons v vs)) h =
    (check_names-NoneTwice [] (elements (cons v vs)) h).0
check_name_list-NoneTwice null h = cc
check_name_list-NoneTwice (bool b) h = cc
check_name_list-NoneTwice (int z) h = cc
check_name_list-NoneTwice (text s) h = cc
check_name_list-NoneTwice (dict d) h = cc

pub names_checked : (u : Card) → validate_user u ≡ ok tt → check_name_list (get u "names") ≡ ok tt
unfolding validate_user
names_checked u h =
    let (a, h1) = >>-eq-ok (raise_if (not (is_name (get u "id"))) user_validation_error) _ h in
    let (b, h2) =
      >>-eq-ok (raise_if (not (one_of (get u "kind") valid_user_kinds)) user_validation_error) _
        h1 in
    let (c, h3) = >>-eq-ok (check_name_list (get u "names")) _ h2 in c

pub NoneTwice-row_names : (u : Card) → validate_user u ≡ ok tt → NoneTwice (row_names u)
unfolding row_names
NoneTwice-row_names u h = check_name_list-NoneTwice (get u "names") (names_checked u h)
