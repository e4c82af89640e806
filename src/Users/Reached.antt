-- ===== src/Users/Reached.antt =====
-- Whom the names of a registered user reach.
use scitex_todo.Prelude.{
  String, ◌≡◌, refl, sym, ap, ◌∙◌, true, false, none, some, List, [], ◌∷◌, ◌++◌, str_eq,
}
use scitex_todo.Py.Raise.{Result, ok, raise, ◌>>=◌, >>=-eq-ok, ok_inj}
use scitex_todo.Card.{Card, first}
use scitex_todo.Users.Identity.{holds}
use scitex_todo.Users.Model.{User, to_dict}
use scitex_todo.Users.Registry.{
  load_users_section, Source, NewUser, settle, new_user, registered_with, register_user,
}
use scitex_todo.Users.Saved.{load_users_section-save_users}
use scitex_todo.Users.Calls.{Registration, register_user-Registration, registered_with-saved}
use scitex_todo.Users.Owners.{row_names-to_dict}
use scitex_todo.Users.Unique.{refuse_taken-none}
use scitex_todo.Users.Lookup.{users_of, load_users, exact, resolve_user, resolve_name_to_id}
use scitex_todo.Users.Rows.{first-last, first-users_of, users_of-append, validate_user-named}

settle-ok :
    (doc after : Card) (user : User) (call : Result (User × Card))
    → settle doc call ≡ (ok user, after)
    → call ≡ ok (user, after)
settle-ok doc after user (raise e) h = cc
settle-ok doc after user (ok (u, d)) h =
    let same = ok_inj (ap (λ (p : Result User × Card). p.0) h) in
    let there = ap (λ (p : Result User × Card). p.1) h in λ i. ok (same i, there i)

-- A name that only the last user has is the last user's.
exact-last :
    (users : List User) (user : User) (name : String)
    → first (λ u. holds u.names name) users ≡ none
    → holds user.names name ≡ true
    → exact (users ++ user ∷ []) name ≡ some user
unfolding exact
exact-last users user name n h = rw (first-last (λ u. holds u.names name) users user n h) refl

resolve_name_to_id-exact :
    (users : List User) (user : User) (name : String)
    → str_eq name "" ≡ false
    → exact users name ≡ some user
    → resolve_name_to_id users name ≡ ok user.id
unfolding resolve_name_to_id resolve_user
resolve_name_to_id-exact users user name e h = rw (e, h) refl

pub load_users-users_of :
    (doc : Card) (us : List Card) → load_users_section doc ≡ ok us → load_users doc ≡ users_of us
unfolding load_users
load_users-users_of doc us h = ap (λ (r : Result (List Card)). r >>= users_of) h

-- Where a registration answers a user, the users that are read afterwards are those that were read
-- before and the new one, and every name that was given reaches the new user.
pub register_user-resolve_name_to_id :
    (source : Source) (n : NewUser) (doc after : Card) (users : List User) (user : User)
    → load_users doc ≡ ok users
    → register_user source n doc ≡ some (ok user, after)
    → (load_users after ≡ ok (users ++ user ∷ []))
      × ((name : String)
          → holds n.names name ≡ true
          → resolve_name_to_id (users ++ user ∷ []) name ≡ ok user.id)
unfolding load_users new_user
register_user-resolve_name_to_id source n doc after users user l h =
    let (rows, r, l1) = >>=-eq-ok (load_users_section doc) _ l in
    elim (register_user-Registration source n doc after (ok user) h) [
      | Registration.unread error e d ↦ cc
      | Registration.with_id us id m fresh e ↦
          let (free, valid, saved, made) =
            registered_with-saved source id n us doc after user
              (settle-ok doc after user (registered_with source id n us doc) e) in
          let same : us ≡ rows = ok_inj (sym m ∙ r) in
          let read : users_of us ≡ ok users = ap users_of same ∙ l1 in
          let row = to_dict (new_user source id n) in
          (
            load_users-users_of after (us ++ row ∷ [])
                  (load_users_section-save_users (us ++ row ∷ []) doc after saved)
                ∙ users_of-append us users (new_user source id n) read
                ∙ ap (λ (u : User). ok (users ++ u ∷ [])) (sym made),
            λ name k.
                let named : str_eq name "" ≡ false = validate_user-named row name valid (
                  ap (λ (l : List String). holds l name) (row_names-to_dict (new_user source id n))
                  ∙ k) in
                resolve_name_to_id-exact (users ++ user ∷ []) user name named (
                  exact-last users user name
                    (first-users_of us users name read (refuse_taken-none us n.names name free k))
                    (rw (made) k)),
          )
    ]
