-- ===== src/Users/Effects.antt =====
-- What each verb of the registry does to the document, and so any call.
use scitex_todo.Prelude.{
  String, ◌≡◌, refl, sym, ap, subst, inl, inr, Bool, false, Bool-cases, Option, none, some,
  some_inj, List, str_eq,
}
use scitex_todo.Py.Dict.{Dict, lookup}
use scitex_todo.Py.Value.{Value}
use scitex_todo.Py.Text.{strip, is_blank}
use scitex_todo.Py.Raise.{
  Result, ok, raise, ◌>>=◌, ◌>>◌, raise_if, >>-eq-ok, >>=-eq-ok, raise_if-eq-ok, ok_inj,
  user_validation_error,
}
use scitex_todo.Card.{Card, get, get-put, first}
use scitex_todo.Users.Identity.{holds}
use scitex_todo.Users.Model.{User, from_dict}
use scitex_todo.Users.Registry.{
  load_users_section, row_names, names_index, Source, NewUser, registered_with, register_user,
}
use scitex_todo.Users.Changes.{
  has_id, save_changed, owned_by_other, with_name, alias_added, alias_in, add_alias, with_notify,
  notify_set, notify_in, set_notify, is_named, has_host, with_last_seen, seen_as, settle_seen,
  touched, touch_user,
}
use scitex_todo.Users.Calls.{
  Step, Change, Done, settle-Done, save_changed-saved, registered_with-saved, Registration,
  register_user-Registration,
}

register_user-Done :
    (source : Source) (n : NewUser) (doc after : Card) (answer : Result User)
    → register_user source n doc ≡ some (answer, after)
    → Done doc after
register_user-Done source n doc after answer h =
    elim (register_user-Registration source n doc after answer h) [
      | Registration.unread error a e ↦ Done.unchanged e
      | Registration.with_id us id l fresh e ↦
          subst (Done doc) (ap (λ (p : Result User × Card). p.1) e) (
            settle-Done doc (registered_with source id n us doc) (λ user out c.
              let (a, b, d, _) = registered_with-saved source id n us doc out user c in
              Done.saved us _ l (Change.appended source id n a fresh b) d))
    ]

-- A row that a change rewrites keeps its id, and its names where another field is written.
pub get-with_name : (name : String) (u : Card) → get (with_name name u) "id" ≡ get u "id"
unfolding with_name
get-with_name name u = rw (get-put) refl

get-with_notify : (notify : Dict Value) (u : Card) → get (with_notify notify u) "id" ≡ get u "id"
unfolding with_notify
get-with_notify notify u = rw (get-put) refl

row_names-with_notify :
    (notify : Dict Value) (u : Card) → row_names (with_notify notify u) ≡ row_names u
unfolding with_notify row_names
row_names-with_notify notify u = rw (get-put) refl

get-with_last_seen : (now : String) (u : Card) → get (with_last_seen now u) "id" ≡ get u "id"
unfolding with_last_seen
get-with_last_seen now u = rw (get-put) refl

row_names-with_last_seen :
    (now : String) (u : Card) → row_names (with_last_seen now u) ≡ row_names u
unfolding with_last_seen row_names
row_names-with_last_seen now u = rw (get-put) refl

alias_in-Done :
    (user_id name : String) (doc after : Card) (us : List Card) (user : User)
    → load_users_section doc ≡ ok us
    → alias_in user_id name doc us ≡ ok (user, after)
    → Done doc after
unfolding alias_in alias_added
alias_in-Done user_id name doc after us user l h =
    let taken = owned_by_other (lookup (names_index us) name) user_id in
    let (a, h1) = >>-eq-ok (raise_if taken user_validation_error) _ h in
    of (first (has_id user_id) us) refl (raise_if-eq-ok taken user_validation_error a) h1
  where
    of :
        (o : Option Card)
        → first (has_id user_id) us ≡ o
        → owned_by_other (lookup (names_index us) name) user_id ≡ false
        → alias_added user_id name us doc o ≡ ok (user, after)
        → Done doc after
    of none e free k = cc
    of (some target) e free k = elim (Bool-cases (holds (row_names target) name)) [
      | inl b ↦
          let (answer, c, k1) = >>=-eq-ok (from_dict target) _ (rw (b) at k) in
          Done.unchanged (sym (ap (λ (p : User × Card). p.1) (ok_inj k1)))
      | inr b ↦ Done.saved us _ l (Change.aliased user_id name free e b) (
          save_changed-saved (has_id user_id) (with_name name) target us doc after user
            (rw (b) at k))
    ]

add_alias-Done : (user_id name : String) (doc : Card) → Done doc (add_alias user_id name doc).1
unfolding add_alias
add_alias-Done user_id name doc =
    settle-Done doc
      (raise_if (str_eq name "") user_validation_error
        >> (load_users_section doc >>= alias_in user_id name doc))
      (λ user out e.
        let (a, h1) = >>-eq-ok (raise_if (str_eq name "") user_validation_error) _ e in
        let (us, l, h2) = >>=-eq-ok (load_users_section doc) (alias_in user_id name doc) h1 in
        alias_in-Done user_id name doc out us user l h2)

-- A change of another field than the id and the names.
save_changed-Done :
    (test : Card → Bool) (change : Card → Card) (target : Card) (us : List Card) (doc after : Card)
    (user : User)
    → ((u : Card) → get (change u) "id" ≡ get u "id")
    → ((u : Card) → row_names (change u) ≡ row_names u)
    → load_users_section doc ≡ ok us
    → save_changed test change target us doc ≡ ok (user, after)
    → Done doc after
save_changed-Done test change target us doc after user i n l h =
    Done.saved us _ l (Change.altered test change i n)
      (save_changed-saved test change target us doc after user h)

notify_set-Done :
    (user_id : String) (notify : Dict Value) (us : List Card) (doc : Card) (o : Option Card)
    → load_users_section doc ≡ ok us
    → (user : User) (after : Card) → notify_set user_id notify us doc o ≡ ok (user, after)
    → Done doc after
unfolding notify_set
notify_set-Done user_id notify us doc none l user after h = cc
notify_set-Done user_id notify us doc (some target) l user after h =
    save_changed-Done (has_id user_id) (with_notify notify) target us doc after user
      (get-with_notify notify) (row_names-with_notify notify) l h

set_notify-Done :
    (user_id : String) (notify : Dict Value) (doc : Card)
    → Done doc (set_notify user_id notify doc).1
unfolding set_notify notify_in
set_notify-Done user_id notify doc =
    settle-Done doc (load_users_section doc >>= notify_in user_id notify doc) (λ user after e.
      let (us, l, h) = >>=-eq-ok (load_users_section doc) (notify_in user_id notify doc) e in
      notify_set-Done user_id notify us doc (first (has_id user_id) us) l user after h)

settle_seen-Done :
    (doc : Card) (call : Option (Result (User × Card)))
    → ((user : User) (after : Card) → call ≡ some (ok (user, after)) → Done doc after)
    → Done doc (settle_seen doc call).1
settle_seen-Done doc none k = Done.unchanged refl
settle_seen-Done doc (some (raise e)) k = Done.unchanged refl
settle_seen-Done doc (some (ok (user, after))) k = k user after refl

seen_as-Done :
    (source : Source) (key : String) (us : List Card) (doc : Card) (o p : Option Card)
    → load_users_section doc ≡ ok us
    → (user : User) (after : Card) → seen_as source key us doc o p ≡ some (ok (user, after))
    → Done doc after
unfolding seen_as
seen_as-Done source key us doc (some target) p l user after h =
    save_changed-Done (is_named key) (with_last_seen source.now) target us doc after user
      (get-with_last_seen source.now) (row_names-with_last_seen source.now) l (some_inj h)
seen_as-Done source key us doc none (some target) l user after h =
    save_changed-Done (has_host key) (with_last_seen source.now) target us doc after user
      (get-with_last_seen source.now) (row_names-with_last_seen source.now) l (some_inj h)
seen_as-Done source key us doc none none l user after h = cc

touch_user-Done :
    (source : Source) (name_or_id : String) (doc : Card)
    → Done doc (touch_user source name_or_id doc).1
unfolding touch_user
touch_user-Done source name_or_id doc = elim (Bool-cases (is_blank name_or_id)) [
  | inl e ↦ rw e (Done.unchanged refl)
  | inr e ↦ rw e (of (load_users_section doc) refl)
]
  where
    of :
        (r : Result (List Card))
        → load_users_section doc ≡ r
        → Done doc (touched source (strip name_or_id) doc r).1
    of (raise error) l = Done.unchanged refl
    of (ok us) l = settle_seen-Done doc _ (λ user after h.
        seen_as-Done source (strip name_or_id) us doc (first (is_named (strip name_or_id)) us)
          (first (has_host (strip name_or_id)) us) l user after h)

-- A call that changes the document saves the rows that it read, changed in one of three ways.
pub Step-Done : {doc after : Card} → Step doc after → Done doc after
Step-Done {doc} {after} (Step.registering source n answer h) =
    register_user-Done source n doc after answer h
Step-Done {doc} (Step.aliasing user_id name h) =
    subst (Done doc) h (add_alias-Done user_id name doc)
Step-Done {doc} (Step.notifying user_id notify h) =
    subst (Done doc) h (set_notify-Done user_id notify doc)
Step-Done {doc} (Step.touching source name_or_id h) =
    subst (Done doc) h (touch_user-Done source name_or_id doc)
