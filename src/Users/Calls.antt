-- ===== src/Users/Calls.antt =====
-- Sequences of calls that change the registry, and what one call does to the rows.
use Prim.Native.String.{◌++◌ as append}
use scitex_todo.Prelude.{
  ℕ, zero, suc, String, ◌≡◌, refl, sym, ap, ◌∙◌, subst, inl, inr, Bool, false, Bool-cases, Option,
  none, some, some_inj, List, [], ◌∷◌, ◌++◌, length,
}
use scitex_todo.Py.Dict.{Dict, lookup}
use scitex_todo.Py.Value.{Value}
use scitex_todo.Py.Raise.{Exception, Result, ok, raise, >>-eq-ok, >>=-eq-ok, ok_inj}
use scitex_todo.Card.{Card, get, first, change_first}
use scitex_todo.Users.Identity.{holds}
use scitex_todo.Users.Model.{User, from_dict, to_dict, validate_user}
use scitex_todo.Users.Registry.{
  load_users_section, save_users, row_names, names_index, existing_ids, Source, generate_from,
  generate_user_id, NewUser, settle, refuse_taken, new_user, registered_with, register_as,
  register_user,
}
use scitex_todo.Users.Changes.{
  has_id, save_changed, owned_by_other, with_name, add_alias, set_notify, touch_user,
}

-- One call.
pub data Step (doc after : Card) : Type 0 where
  registering :
      (source : Source) (n : NewUser) (answer : Result User)
      → register_user source n doc ≡ some (answer, after)
      → Step doc after
  aliasing : (user_id name : String) → (add_alias user_id name doc).1 ≡ after → Step doc after
  notifying :
      (user_id : String) (notify : Dict Value)
      → (set_notify user_id notify doc).1 ≡ after
      → Step doc after
  touching :
      (source : Source) (name_or_id : String)
      → (touch_user source name_or_id doc).1 ≡ after
      → Step doc after

-- Any number of calls, one after the other.
pub data Becomes : Card → Card → Type 0 where
  same : {doc : Card} → Becomes doc doc
  then_call : {doc middle after : Card} → Becomes doc middle → Step middle after → Becomes doc after

-- What a call does to the rows.
pub data Change : List Card → List Card → Type 0 where
  appended :
      (source : Source) (id : String) (n : NewUser) {us : List Card}
      → refuse_taken (names_index us) n.names ≡ ok tt
      → holds (existing_ids us) id ≡ false
      → validate_user (to_dict (new_user source id n)) ≡ ok tt
      → Change us (us ++ to_dict (new_user source id n) ∷ [])
  aliased :
      (user_id name : String) {us : List Card} {target : Card}
      → owned_by_other (lookup (names_index us) name) user_id ≡ false
      → first (has_id user_id) us ≡ some target
      → holds (row_names target) name ≡ false
      → Change us (change_first (has_id user_id) (with_name name) us)
  altered :
      (test : Card → Bool) (change : Card → Card) {us : List Card}
      → ((u : Card) → get (change u) "id" ≡ get u "id")
      → ((u : Card) → row_names (change u) ≡ row_names u)
      → Change us (change_first test change us)

-- What a call does to the document.
pub data Done (doc after : Card) : Type 0 where
  unchanged : after ≡ doc → Done doc after
  saved :
      (us vs : List Card)
      → load_users_section doc ≡ ok us
      → Change us vs
      → save_users vs doc ≡ ok after
      → Done doc after

-- A body that answers has saved what it computed.
pub settle-Done :
    (doc : Card) (call : Result (User × Card))
    → ((user : User) (after : Card) → call ≡ ok (user, after) → Done doc after)
    → Done doc (settle doc call).1
settle-Done doc (raise e) k = Done.unchanged refl
settle-Done doc (ok (user, after)) k = k user after refl

-- An id that is generated is no id of a row.
generate_from-fresh :
    (token : ℕ → String) (taken : List String) (fuel i : ℕ) {id : String}
    → generate_from token taken fuel i ≡ some id
    → holds taken id ≡ false
unfolding generate_from
generate_from-fresh token taken zero i h = cc
generate_from-fresh token taken (suc fuel) i h =
    elim (Bool-cases (holds taken (append "u_" (token i)))) [
      | inl e ↦ generate_from-fresh token taken fuel (suc i) (rw (e) at h)
      | inr e ↦ subst (λ s. holds taken s ≡ false) (some_inj (rw (e) at h)) e
    ]

generate_user_id-fresh :
    (token : ℕ → String) (taken : List String) {id : String}
    → generate_user_id token taken ≡ some id
    → holds taken id ≡ false
unfolding generate_user_id
generate_user_id-fresh token taken h = generate_from-fresh token taken (suc (length taken)) 0 h

pub save_changed-saved :
    (test : Card → Bool) (change : Card → Card) (target : Card) (us : List Card) (doc after : Card)
    (user : User)
    → save_changed test change target us doc ≡ ok (user, after)
    → save_users (change_first test change us) doc ≡ ok after
unfolding save_changed
save_changed-saved test change target us doc after user h =
    let (a, h1) = >>-eq-ok (validate_user (change target)) _ h in
    let (written, b, h2) = >>=-eq-ok (save_users (change_first test change us) doc) _ h1 in
    let (answer, c, h3) = >>=-eq-ok (from_dict (change target)) _ h2 in
    b ∙ ap (λ (d : Card). ok d) (ap (λ (p : User × Card). p.1) (ok_inj h3))

pub registered_with-saved :
    (source : Source) (id : String) (n : NewUser) (us : List Card) (doc after : Card) (user : User)
    → registered_with source id n us doc ≡ ok (user, after)
    → (refuse_taken (names_index us) n.names ≡ ok tt)
      × (validate_user (to_dict (new_user source id n)) ≡ ok tt)
      × (save_users (us ++ to_dict (new_user source id n) ∷ []) doc ≡ ok after)
      × (user ≡ new_user source id n)
unfolding registered_with
registered_with-saved source id n us doc after user h =
    let (a, h1) = >>-eq-ok (refuse_taken (names_index us) n.names) _ h in
    let (b, h2) = >>-eq-ok (validate_user (to_dict (new_user source id n))) _ h1 in
    let (d, c, h3) = >>=-eq-ok (save_users (us ++ to_dict (new_user source id n) ∷ []) doc) _ h2 in
    let e = ok_inj h3 in
    (
      a,
      b,
      c ∙ ap (λ (d : Card). ok d) (ap (λ (p : User × Card). p.1) e),
      sym (ap (λ (p : User × Card). p.0) e),
    )

-- A registration that comes to an end, by how it ends: the section could not be read, or an id was
-- generated.
pub data Registration (source : Source) (n : NewUser) (doc : Card) (answer : Result User)
    (after : Card) : Type 0 where
  unread :
      (error : Exception)
      → answer ≡ raise error
      → after ≡ doc
      → Registration source n doc answer after
  with_id :
      (us : List Card) (id : String)
      → load_users_section doc ≡ ok us
      → holds (existing_ids us) id ≡ false
      → settle doc (registered_with source id n us doc) ≡ (answer, after)
      → Registration source n doc answer after

pub register_user-Registration :
    (source : Source) (n : NewUser) (doc after : Card) (answer : Result User)
    → register_user source n doc ≡ some (answer, after)
    → Registration source n doc answer after
unfolding register_user
register_user-Registration source n doc after answer h = read (load_users_section doc) refl
  where
    read :
        (r : Result (List Card))
        → load_users_section doc ≡ r
        → Registration source n doc answer after
    read (raise e) l =
        let k = some_inj (rw (l) at h) in
        Registration.unread e (sym (ap (λ (p : Result User × Card). p.0) k))
          (sym (ap (λ (p : Result User × Card). p.1) k))
    read (ok us) l = as_id (generate_user_id source.token (existing_ids us)) refl (rw (l) at h)
      where
        as_id :
            (g : Option String)
            → generate_user_id source.token (existing_ids us) ≡ g
            → register_as source n doc us g ≡ some (answer, after)
            → Registration source n doc answer after
        as_id none e k = cc
        as_id (some id) e k =
            Registration.with_id us id l (generate_user_id-fresh source.token (existing_ids us) e)
              (some_inj k)
