-- ===== src/Users/Unowned.antt =====
-- Rows whose names stand once, before and after a change of one row.
use scitex_todo.Prelude.{
  String, ◌≡◌, refl, sym, ap, ◌∙◌, subst, inl, inr, Bool, true, false, Bool-cases, Option, none,
  some, some_inj, Option-cases, List, [], ◌∷◌, ◌++◌, str_eq, eq_iff, eq_refl, arith,
}
use scitex_todo.Py.Value.{Value, text}
use scitex_todo.Card.{Card, get, first, change_first}
use scitex_todo.Users.Identity.{holds}
use scitex_todo.Users.Registry.{row_names, existing_ids, texts_in}
use scitex_todo.Users.Changes.{has_id, owned_by_other, with_name}
use scitex_todo.Users.Saved.{last_owner}
use scitex_todo.Users.Names.{
  holds-append, row_names-with_name, last_owner-change_first, last_owner-other, is_text→eq,
}
use scitex_todo.Users.Owners.{last_owner-append}
use scitex_todo.Users.Apart.{NoneTwice, NamesApart, NoneTwice-append}

-- The ids of a row that has one.
own_id : (u : Card) (id : String) → get u "id" ≡ text id → texts_in (get u "id" ∷ []) ≡ id ∷ []
own_id u id e = rw e refl

-- An owner is the id of a row.
last_owner-holds :
    (us : List Card) (name id : String)
    → last_owner us name ≡ some (text id)
    → holds (existing_ids us) id ≡ true
unfolding last_owner existing_ids
last_owner-holds [] name id h = cc
last_owner-holds (u ∷ us) name id h =
    holds-append (texts_in (get u "id" ∷ [])) (existing_ids us) id
    ∙ elim (Option-cases (last_owner us name)) [
      | inr (w, e) ↦
          let later = last_owner-holds us name id (e ∙ rw (e) at h) in ground (arith, later)
      | inl e ↦ elim (Bool-cases (holds (row_names u) name)) [
        | inl b ↦
            let own : get u "id" ≡ text id = some_inj (rw (e, b) at h) in
            rw (own_id u id own, eq_refl id) refl
        | inr b ↦ absurd (let k = rw (e, b) at h in cc)
      ]
    ]

NoneTwice-of_append : (xs ys : List String) → NoneTwice (xs ++ ys) → NoneTwice ys
NoneTwice-of_append [] ys n = n
NoneTwice-of_append (x ∷ xs) ys n = NoneTwice-of_append xs ys n.1

not_other : (v : Value) (id : String) → owned_by_other (some v) id ≡ false → v ≡ text id
not_other v id h = is_text→eq v id (ground (arith, h))

-- Where the ids are apart, a name that the first row of an id has not is not owned by that id.
pub first_unowned :
    (us : List Card) (user_id name : String) (target : Card)
    → NoneTwice (existing_ids us)
    → first (has_id user_id) us ≡ some target
    → holds (row_names target) name ≡ false
    → owned_by_other (last_owner us name) user_id ≡ false
    → last_owner us name ≡ none
unfolding last_owner existing_ids first
first_unowned [] user_id name target n f h free = refl
first_unowned (u ∷ us) user_id name target n f h free = elim (Bool-cases (has_id user_id u)) [
  | inl p ↦ mine p (last_owner us name) refl
  | inr p ↦ other p (first_unowned us user_id name target) (last_owner us name) refl
]
  where
    mine :
        has_id user_id u ≡ true
        → (o : Option Value) → last_owner us name ≡ o
        → last_owner (u ∷ us) name ≡ none
    mine p none e =
        let there : holds (row_names u) name ≡ false =
          subst (λ t. holds (row_names t) name ≡ false) (sym (some_inj (rw (p) at f))) h in
        rw (e, there) refl
    mine p (some v) e =
        let owner : v ≡ text user_id = not_other v user_id (rw (e) at free) in
        let later = last_owner-holds us name user_id (rw (owner) at e) in
        let apart : NoneTwice (user_id ∷ existing_ids us) =
          rw (own_id u user_id (is_text→eq (get u "id") user_id p)) at n in
        absurd (let k = sym later ∙ apart.0 in cc)

    other :
        has_id user_id u ≡ false
        → (NoneTwice (existing_ids us)
            → first (has_id user_id) us ≡ some target
            → holds (row_names target) name ≡ false
            → owned_by_other (last_owner us name) user_id ≡ false
            → last_owner us name ≡ none)
        → (o : Option Value) → last_owner us name ≡ o
        → last_owner (u ∷ us) name ≡ none
    other p ih none e = ground (arith, e, p, free)
    other p ih (some v) e =
        let none_later =
          ih (NoneTwice-of_append (texts_in (get u "id" ∷ [])) (existing_ids us) n) (rw (p) at f) h
            (rw (e) (rw (e) at free)) in
        absurd (let k = sym e ∙ none_later in cc)

-- What a change of one row needs: every name of the new row is a name of the old one, or nobody's.
pub NamesApart-change_first :
    (p : Card → Bool) (f : Card → Card) (us : List Card)
    → ((u : Card) → row_names (f u) ≡ row_names u)
    → ((u : Card) → get (f u) "id" ≡ get u "id")
    → NamesApart us
    → NamesApart (change_first p f us)
unfolding change_first
NamesApart-change_first p f [] n i a = tt
NamesApart-change_first p f (u ∷ us) n i a = elim (Bool-cases (p u)) [
  | inl e ↦ rw (e, n u) a
  | inr e ↦ rw e (
    a.0,
    λ name h. last_owner-change_first p f us name i n ∙ a.1 name h,
    NamesApart-change_first p f us n i a.2,
  )
]

pub NamesApart-with_name :
    (user_id name : String) (us : List Card) (target : Card)
    → first (has_id user_id) us ≡ some target
    → holds (row_names target) name ≡ false
    → last_owner us name ≡ none
    → NamesApart us
    → NamesApart (change_first (has_id user_id) (with_name name) us)
unfolding change_first first last_owner
NamesApart-with_name user_id name [] target f h o a = tt
NamesApart-with_name user_id name (u ∷ us) target f h o a = elim (Bool-cases (has_id user_id u)) [
  | inl p ↦
      let new : holds (row_names u) name ≡ false =
        subst (λ t. holds (row_names t) name ≡ false) (sym (some_inj (rw (p) at f))) h in
      rw (p, row_names-with_name name u)
        (
          NoneTwice-append (row_names u) name a.0 new,
          λ asked k. elim (Bool-cases (holds (row_names u) asked)) [
            | inl b ↦ a.1 asked b
            | inr b ↦
                let same : str_eq name asked ≡ true =
                  ground (arith, b, sym (holds-append (row_names u) (name ∷ []) asked) ∙ k) in
                let free : last_owner us name ≡ none = ground (arith, o) in
                ap (last_owner us) (sym ((eq_iff name asked).0 same)) ∙ free
          ],
          a.2,
        )
  | inr p ↦ rw p (
    a.0,
    λ asked k. elim (Bool-cases (str_eq name asked)) [
      | inl e ↦
          let own : holds (row_names u) name ≡ true =
            ap (holds (row_names u)) ((eq_iff name asked).0 e) ∙ k in
          absurd (ground (arith, own, o))
      | inr e ↦ last_owner-other user_id name asked us e ∙ a.1 asked k
    ],
    NamesApart-with_name user_id name us target (rw (p) at f) h (ground (arith, o)) a.2,
  )
]

pub NamesApart-append :
    (us : List Card) (row : Card)
    → ((name : String) → holds (row_names row) name ≡ true → last_owner us name ≡ none)
    → NoneTwice (row_names row)
    → NamesApart us
    → NamesApart (us ++ row ∷ [])
unfolding last_owner
NamesApart-append [] row free n a = (n, λ name h. refl, tt)
NamesApart-append (u ∷ us) row free n a = (
  a.0,
  λ name h. last_owner-append us (row ∷ []) name ∙ elim (Bool-cases (holds (row_names row) name)) [
    | inl b ↦ absurd (let k = free name b in ground (arith, k, h))
    | inr b ↦ rw b (a.1 name h)
  ],
  NamesApart-append us row (λ name h. ground (arith, free name h)) n a.2,
)
