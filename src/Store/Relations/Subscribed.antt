-- ===== src/Store/Relations/Subscribed.antt =====
-- What a lookup finds after `set_subscriber`.
use scitex_todo.Prelude.{
  ℕ, ◌≡◌, refl, subst, Bool, true, false, ◌||◌, inl, inr, Bool-cases, some, List, [], ◌∷◌, str_eq,
  eq_refl, String, if◌then◌else◌,
}
use scitex_todo.Py.Value.{Value, text, contains, py_eq, elements-items_of}
use scitex_todo.Py.Raise.{Exception, ok, raise, >>=-eq-ok}
use scitex_todo.Card.{Card, get, get-put, get-pop, find_live_task, sequence}
use scitex_todo.Env.{Env}
use scitex_todo.Validate.Sound.{get-without_sentinel}
use scitex_todo.Store.State.{Store}
use scitex_todo.Store.Atomic.{WellFormed, transaction-Ended}
use scitex_todo.Store.Frame.{SameLive}
use scitex_todo.Store.Marks.{SameLive-trans, put-SameLive, pop-SameLive}
use scitex_todo.Store.Row.{or_not_found}
use scitex_todo.Store.Delete.{without_id, put_or_pop}
use scitex_todo.Store.Delete.Unnamed.{contains-without_id}
use scitex_todo.Store.Keepers.{contains-last}
use scitex_todo.Store.ReadBack.{Finds, one_row}
use scitex_todo.Store.Relations.{
  Action, add, remove, changed_members, with_member, set_list_member, set_subscriber,
}

abbrev is_add : Action → Bool
is_add add = true
is_add remove = false

contains-changed_members :
    (action : Action) (who : String) (members : List Value)
    → contains (changed_members action who members) (text who) ≡ is_add action
unfolding changed_members py_eq
contains-changed_members add who members =
    contains-last (without_id who members) (text who) (eq_refl who)
contains-changed_members remove who members = contains-without_id who members

sequence-put_or_pop :
    (c : Card) (vs : List Value) → sequence (get (put_or_pop c "subscribers" vs) "subscribers") ≡ vs
sequence-put_or_pop c [] = simp get-pop refl
sequence-put_or_pop c (v ∷ vs) = simp get-put (elements-items_of (v ∷ vs))

put_or_pop-SameLive : (c : Card) (vs : List Value) → SameLive (put_or_pop c "subscribers" vs) c
put_or_pop-SameLive c [] = pop-SameLive c "subscribers" refl
put_or_pop-SameLive c (v ∷ vs) = put-SameLive c "subscribers" _ refl

with_member-SameLive :
    (env : Env) (n : ℕ) (who : String) (action : Action) (c : Card)
    → SameLive (with_member env n "subscribers" who action c) c
unfolding with_member
with_member-SameLive env n who action c =
    SameLive-trans (put-SameLive _ "last_activity" _ refl) (put_or_pop-SameLive c _)

contains-with_member :
    (env : Env) (n : ℕ) (who : String) (action : Action) (c : Card)
    → contains
        (sequence (get (with_member env n "subscribers" who action c) "subscribers"))
        (text who)
      ≡ is_add action
unfolding with_member
contains-with_member env n who action c = simp get-put (
    rw (sequence-put_or_pop c (changed_members action who (sequence (get c "subscribers"))))
      (contains-changed_members action who (sequence (get c "subscribers"))))

listed :
    (env : Env) (i who : String) (action : Action) (s : Store) (a : Card) (j : String)
    → WellFormed s.tasks
    → (set_list_member env 0 i "subscribers" who action s).0 ≡ ok a
    → (contains (sequence (get a "subscribers")) (text who) ≡ is_add action)
      × (find_live_task (set_list_member env 0 i "subscribers" who action s).1.tasks j
          ≡ (if str_eq i j then some a else find_live_task s.tasks j))
unfolding set_list_member
listed env i who action s a j w h =
    let (o, b, e) = transaction-Ended env _ s h in
    let (target, f, b1) = >>=-eq-ok (or_not_found (find_live_task s.tasks i)) _ b in
    let row = with_member env 0 "subscribers" who action target in
    let (found, same) =
      one_row env s i row target (set_list_member env 0 i "subscribers" who action s).1 _ o a w f
        (with_member-SameLive env 0 who action target) b1 e in
    (
      subst (λ x. contains (sequence (get x "subscribers")) (text who) ≡ is_add action) same
          (rw (get-without_sentinel row "subscribers")
            (contains-with_member env 0 who action target)),
      subst (Finds s.tasks (set_list_member env 0 i "subscribers" who action s).1.tasks i) same
          found j,
    )

-- Once `set_subscriber` answers, a well-formed store has at the id the card it answered, which has
-- the agent among its subscribers after `add` and not after `remove`, and at every other id what it
-- had.
set_subscriber-find :
    (env : Env) (i who : String) (action : Action) (s : Store) (a : Card) (j : String)
    → WellFormed s.tasks
    → (set_subscriber env i who action s).0 ≡ ok a
    → (contains (sequence (get a "subscribers")) (text who) ≡ is_add action)
      × (find_live_task (set_subscriber env i who action s).1.tasks j
          ≡ (if str_eq i j then some a else find_live_task s.tasks j))
unfolding set_subscriber
set_subscriber-find env i who action s a j w = elim (Bool-cases (str_eq i "" || str_eq who "")) [
  | inl e ↦ rw (e) (λ h. absurd (raised h))
  | inr e ↦ rw (e) (λ h. listed env i who action s a j w h)
]
  where
    raised : {x : Exception} → ¬ (raise x ≡ ok a)
    raised h = cc
