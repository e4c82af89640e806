-- ===== src/Users/Names.antt =====
-- The names of a row, and the owner of a name after one row is changed.
use scitex_todo.Prelude.{
  String, ◌≡◌, refl, ap, ◌∙◌, inl, inr, Bool, true, false, ◌||◌, Bool-cases, Option, none, some,
  List, [], ◌∷◌, ◌++◌, str_eq, eq_iff, arith, if◌then◌else◌,
}
use scitex_todo.Py.Value.{Value, null, bool, int, text, list, dict, is_text, elements-items_of}
use scitex_todo.Card.{Card, get, get-put, change_first}
use scitex_todo.Users.Identity.{holds}
use scitex_todo.Users.Model.{texts}
use scitex_todo.Users.Registry.{row_names, texts_in, names_under}
use scitex_todo.Users.Changes.{has_id, owned_by_other, with_name}
use scitex_todo.Users.Saved.{or_value, last_owner}
use scitex_todo.Users.Effects.{get-with_name}

pub is_text→eq : (v : Value) (s : String) → is_text v s ≡ true → v ≡ text s
is_text→eq (text t) s h = ap text ((eq_iff t s).0 h)
is_text→eq null s h = cc
is_text→eq (bool b) s h = cc
is_text→eq (int z) s h = cc
is_text→eq (list vs) s h = cc
is_text→eq (dict d) s h = cc

pub holds-append :
    (xs ys : List String) (name : String) → holds (xs ++ ys) name ≡ (holds xs name || holds ys name)
holds-append [] ys name = refl
holds-append (x ∷ xs) ys name = ground (arith, holds-append xs ys name)

pub texts_in-texts : (ss : List String) → texts_in (texts ss) ≡ ss
texts_in-texts [] = refl
texts_in-texts (s ∷ ss) = ap (λ (l : List String). s ∷ l) (texts_in-texts ss)

pub row_names-with_name :
    (name : String) (u : Card) → row_names (with_name name u) ≡ row_names u ++ name ∷ []
unfolding with_name row_names
row_names-with_name name u =
    rw (get-put, elements-items_of (texts (names_under (get u "names") ++ name ∷ [])))
      (texts_in-texts (names_under (get u "names") ++ name ∷ []))

-- A row that is rewritten keeps its names, or takes one that was its owner's already or nobody's.
pub last_owner-change_first :
    (p : Card → Bool) (f : Card → Card) (us : List Card) (name : String)
    → ((u : Card) → get (f u) "id" ≡ get u "id")
    → ((u : Card) → row_names (f u) ≡ row_names u)
    → last_owner (change_first p f us) name ≡ last_owner us name
unfolding last_owner change_first
last_owner-change_first p f [] name i n = refl
last_owner-change_first p f (u ∷ us) name i n = elim (Bool-cases (p u)) [
  | inl e ↦ rw (e, i u, n u) refl
  | inr e ↦ rw (e, last_owner-change_first p f us name i n) refl
]

-- A name that no alias is made of keeps its owner.
pub last_owner-other :
    (user_id name asked : String) (us : List Card)
    → str_eq name asked ≡ false
    → last_owner (change_first (has_id user_id) (with_name name) us) asked ≡ last_owner us asked
unfolding last_owner change_first
last_owner-other user_id name asked [] e = refl
last_owner-other user_id name asked (u ∷ us) e = elim (Bool-cases (has_id user_id u)) [
  | inl p ↦
      rw
        (
          p,
          get-with_name name u,
          row_names-with_name name u,
          holds-append (row_names u) (name ∷ []) asked,
        )
        (ground (arith, e))
  | inr p ↦ rw (p, last_owner-other user_id name asked us e) refl
]

-- A name that becomes an alias keeps its owner where it has one.
pub last_owner-own :
    (user_id name : String) (us : List Card) (v : Value)
    → owned_by_other (last_owner us name) user_id ≡ false
    → last_owner us name ≡ some v
    → last_owner (change_first (has_id user_id) (with_name name) us) name ≡ some v
unfolding last_owner change_first
last_owner-own user_id name [] v free h = cc
last_owner-own user_id name (u ∷ us) v free h = elim (Bool-cases (has_id user_id u)) [
  | inl p ↦
      rw
        (
          p,
          get-with_name name u,
          row_names-with_name name u,
          holds-append (row_names u) (name ∷ []) name,
        )
        (ground (arith, h))
  | inr p ↦ rw p (later p (last_owner-own user_id name us v) (last_owner us name) refl)
]
  where
    later :
        has_id user_id u ≡ false
        → (owned_by_other (last_owner us name) user_id ≡ false
            → last_owner us name ≡ some v
            → last_owner (change_first (has_id user_id) (with_name name) us) name ≡ some v)
        → (o : Option Value) → last_owner us name ≡ o
        → or_value
            (last_owner (change_first (has_id user_id) (with_name name) us) name)
            (if holds (row_names u) name then some (get u "id") else none)
          ≡ some v
    later p ih none e = ground (arith, e, p, h, free)
    later p ih (some w) e = rw (ih (rw (e) (rw (e) at free)) (e ∙ rw (e) at h)) refl
