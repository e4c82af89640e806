-- ===== src/Users/Owners.antt =====
-- Whom a registered name belongs to, through any calls.
use scitex_todo.Prelude.{
  String, ◌≡◌, refl, sym, ap, ◌∙◌, subst, inl, inr, false, Bool-cases, none, some, List, [], ◌∷◌,
  ◌++◌, str_eq, eq_iff, arith, if◌then◌else◌,
}
use scitex_todo.Py.Dict.{lookup}
use scitex_todo.Py.Value.{Value, Items, text, list, elements-items_of}
use scitex_todo.Py.Raise.{ok, raise_if, >>-eq-ok, ok_inj, user_validation_error}
use scitex_todo.Card.{Card, get, change_first}
use scitex_todo.Users.Identity.{holds}
use scitex_todo.Users.Model.{User, to_dict, texts}
use scitex_todo.Users.Registry.{
  load_users_section, row_names, names_index, refuse_taken, new_user, found,
}
use scitex_todo.Users.Changes.{has_id, with_name}
use scitex_todo.Users.Saved.{
  load_users_section-save_users, get-save_users, or_value, last_owner, lookup-names_index,
}
use scitex_todo.Users.Effects.{Step-Done}
use scitex_todo.Users.Calls.{Step, Becomes, Change, Done}
use scitex_todo.Users.Names.{
  texts_in-texts, last_owner-change_first, last_owner-other, last_owner-own,
}

pub refuse_taken-holds :
    (us : List Card) (names : List String) (name : String) (v : Value)
    → refuse_taken (names_index us) names ≡ ok tt
    → last_owner us name ≡ some v
    → holds names name ≡ false
unfolding refuse_taken
refuse_taken-holds us [] name v h o = refl
refuse_taken-holds us (n ∷ ns) name v h o = elim (Bool-cases (str_eq n name)) [
  | inl e ↦
      let taken : lookup (names_index us) n ≡ some v =
        lookup-names_index us n ∙ ap (last_owner us) ((eq_iff n name).0 e) ∙ o in
      absurd (let k = rw (taken) at h in cc)
  | inr e ↦
      let (a, later) =
        >>-eq-ok (raise_if (found (lookup (names_index us) n)) user_validation_error)
          (refuse_taken (names_index us) ns) h in
      rw e (refuse_taken-holds us ns name v later o)
]

pub last_owner-append :
    (us vs : List Card) (name : String)
    → last_owner (us ++ vs) name ≡ or_value (last_owner vs name) (last_owner us name)
unfolding last_owner
last_owner-append [] vs name = ground arith
last_owner-append (u ∷ us) vs name = ground (arith, last_owner-append us vs name)

pub row_names-to_dict : (u : User) → row_names (to_dict u) ≡ u.names
unfolding row_names to_dict get lookup
row_names-to_dict u = rw (elements-items_of (texts u.names)) (texts_in-texts u.names)

pub last_owner-to_dict :
    (u : User) (name : String)
    → last_owner (to_dict u ∷ []) name ≡ (if holds u.names name then some (text u.id) else none)
unfolding last_owner
last_owner-to_dict u name =
    rw (row_names-to_dict u) (unfold to_dict in unfold get in unfold lookup in refl)

-- A call that changes the rows leaves every name with its owner.
last_owner-Change :
    {us vs : List Card} (name : String) (v : Value)
    → Change us vs
    → last_owner us name ≡ some v
    → last_owner vs name ≡ some v
last_owner-Change {us} name v (Change.appended source id n free fresh valid) h =
    let apart : holds (new_user source id n).names name ≡ false =
      unfold new_user in refuse_taken-holds us n.names name v free h in
    rw
      (
        last_owner-append us (to_dict (new_user source id n) ∷ []) name,
        last_owner-to_dict (new_user source id n) name,
        apart,
      )
      h
last_owner-Change {us} name v (Change.aliased user_id alias free there new) h =
    elim (Bool-cases (str_eq alias name)) [
      | inl e ↦
          let same = (eq_iff alias name).0 e in
          subst
            (λ (n : String).
              last_owner (change_first (has_id user_id) (with_name alias) us) n ≡ some v)
            same
            (last_owner-own user_id alias us v (rw (lookup-names_index us alias) at free)
              (rw (same) h))
      | inr e ↦ last_owner-other user_id alias name us e ∙ h
    ]
last_owner-Change {us} name v (Change.altered test change i n) h =
    last_owner-change_first test change us name i n ∙ h

-- Every section of the document beside `users` stays as it is.
get-Step :
    {doc after : Card} (k : String) {tasks : Items}
    → str_eq "users" k ≡ false
    → get doc "tasks" ≡ list tasks
    → Step doc after
    → get after k ≡ get doc k
get-Step {doc} {after} k e t h = elim (Step-Done h) [
  | Done.unchanged u ↦ ap (λ (d : Card). get d k) u
  | Done.saved us vs l c w ↦ get-save_users vs doc after k t e w
]

get-Becomes :
    {doc after : Card} (k : String) {tasks : Items}
    → str_eq "users" k ≡ false
    → get doc "tasks" ≡ list tasks
    → Becomes doc after
    → get after k ≡ get doc k
get-Becomes k e t Becomes.same = refl
get-Becomes k e t (Becomes.then_call b h) =
    get-Step k e (get-Becomes "tasks" refl t b ∙ t) h ∙ get-Becomes k e t b

-- Where the section of users can be read and a name is registered, the section that a sequence of
-- calls leaves can be read, and there the name belongs to the same user.
pub names_index-Becomes :
    {doc after : Card} {us : List Card} (name : String) (v : Value)
    → load_users_section doc ≡ ok us
    → lookup (names_index us) name ≡ some v
    → Becomes doc after
    → (vs : List Card) × (load_users_section after ≡ ok vs)
      × (lookup (names_index vs) name ≡ some v)
names_index-Becomes {us = us} name v l h Becomes.same = (us, l, h)
names_index-Becomes {doc} {after} {us} name v l h (Becomes.then_call {middle = middle} b call) =
    let (ws, m, k) = names_index-Becomes name v l h b in
    elim (Step-Done call) [
      | Done.unchanged u ↦ (ws, ap load_users_section u ∙ m, k)
      | Done.saved xs vs r c w ↦
          let read : xs ≡ ws = ok_inj (sym r ∙ m) in
          (
            vs,
            load_users_section-save_users vs middle after w,
            lookup-names_index vs name
                ∙ last_owner-Change name v c (
                    sym (lookup-names_index xs name)
                    ∙ ap (λ (l : List Card). lookup (names_index l) name) read
                    ∙ k),
          )
    ]
