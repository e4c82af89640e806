-- ===== src/Users/Unique.antt =====
-- Ids and names in the registry, through any calls.
use scitex_todo.Prelude.{
  String, ◌≡◌, refl, sym, ap, ◌∙◌, subst, true, Option, none, some, List, [], ◌∷◌,
}
use scitex_todo.Py.Dict.{lookup}
use scitex_todo.Py.Value.{Value}
use scitex_todo.Py.Raise.{ok, ok_inj}
use scitex_todo.Card.{Card, get}
use scitex_todo.Users.Identity.{holds}
use scitex_todo.Users.Model.{User, to_dict}
use scitex_todo.Users.Registry.{
  Source, NewUser, load_users_section, row_names, existing_ids, names_index, refuse_taken, new_user,
}
use scitex_todo.Users.Changes.{has_id, with_name}
use scitex_todo.Users.Saved.{load_users_section-save_users, last_owner, lookup-names_index}
use scitex_todo.Users.Effects.{get-with_name, Step-Done}
use scitex_todo.Users.Calls.{Becomes, Change, Done}
use scitex_todo.Users.Owners.{row_names-to_dict, refuse_taken-holds}
use scitex_todo.Users.Apart.{
  IsRegistry, NoneTwice-append, existing_ids-append, existing_ids-change_first, NoneTwice-row_names,
}
use scitex_todo.Users.Unowned.{
  first_unowned, NamesApart-change_first, NamesApart-with_name, NamesApart-append,
}

pub refuse_taken-none :
    (us : List Card) (names : List String) (name : String)
    → refuse_taken (names_index us) names ≡ ok tt
    → holds names name ≡ true
    → last_owner us name ≡ none
refuse_taken-none us names name free h = of (last_owner us name) refl
  where
    of : (o : Option Value) → last_owner us name ≡ o → last_owner us name ≡ none
    of none e = e
    of (some v) e = absurd (let k = sym h ∙ refuse_taken-holds us names name v free e in cc)

existing_ids-to_dict : (u : User) → existing_ids (to_dict u ∷ []) ≡ u.id ∷ []
unfolding existing_ids to_dict get lookup
existing_ids-to_dict u = refl

IsRegistry-Change : {us vs : List Card} → Change us vs → IsRegistry us → IsRegistry vs
unfolding new_user
IsRegistry-Change {us} (Change.appended source id n free fresh valid) r =
    let row = to_dict (new_user source id n) in
    record {
      ids =
          rw (existing_ids-append us (row ∷ []), existing_ids-to_dict (new_user source id n))
            (NoneTwice-append (existing_ids us) id r.ids fresh);
      names =
          NamesApart-append us row
            (λ name h. refuse_taken-none us n.names name free (row_names-new source id n name h))
            (NoneTwice-row_names row valid) r.names;
    }
  where
    row_names-new :
        (source : Source) (id : String) (n : NewUser) (name : String)
        → holds (row_names (to_dict (new_user source id n))) name ≡ true
        → holds n.names name ≡ true
    row_names-new source id n name h =
        ap (λ (l : List String). holds l name) (sym (row_names-to_dict (new_user source id n))) ∙ h
IsRegistry-Change {us} (Change.aliased user_id name {target = target} free there new) r = record {
  ids =
      rw (existing_ids-change_first (has_id user_id) (with_name name) us (get-with_name name))
        r.ids;
  names =
      NamesApart-with_name user_id name us target there new
        (first_unowned us user_id name target r.ids there new
          (rw (lookup-names_index us name) at free))
        r.names;
}
IsRegistry-Change {us} (Change.altered test change i n) r = record {
  ids = rw (existing_ids-change_first test change us i) r.ids;
  names = NamesApart-change_first test change us n i r.names;
}

-- Where the section of users can be read and no id and no name stands twice in it, the same holds of
-- the section that any sequence of calls leaves.
pub Becomes-IsRegistry :
    {doc after : Card} {us : List Card}
    → load_users_section doc ≡ ok us
    → IsRegistry us
    → Becomes doc after
    → (vs : List Card) × (load_users_section after ≡ ok vs) × IsRegistry vs
Becomes-IsRegistry {us = us} l r Becomes.same = (us, l, r)
Becomes-IsRegistry l r (Becomes.then_call {middle = middle} {after = after} b call) =
    let (ws, m, k) = Becomes-IsRegistry l r b in
    elim (Step-Done call) [
      | Done.unchanged u ↦ (ws, ap load_users_section u ∙ m, k)
      | Done.saved xs vs read c w ↦ (
        vs,
        load_users_section-save_users vs middle after w,
        IsRegistry-Change c (subst IsRegistry (ok_inj (sym m ∙ read)) k),
      )
    ]
