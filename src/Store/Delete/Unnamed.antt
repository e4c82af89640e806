-- ===== src/Store/Delete/Unnamed.antt =====
-- References to a deleted card, after `scrub` and `delete_task`.
use mathlib.Core.Option.{map as map_option}
use scitex_todo.Prelude.{
  ◌≡◌, refl, sym, subst, ◌∙◌, true, false, inl, inr, Bool-cases, Option, none, some, List, [], ◌∷◌,
  arith, str_eq, eq_iff, eq_refl, String, filter,
}
use scitex_todo.Py.Value.{
  Value, text, null, list, dict, bool, int, is_text, py_eq, contains, elements-items_of,
}
use scitex_todo.Py.Raise.{ok}
use scitex_todo.Card.{Card, get, get-put, get-pop, find_live_task}
use scitex_todo.Env.{Env}
use scitex_todo.Store.State.{Store}
use scitex_todo.Store.Atomic.{WellFormed}
use scitex_todo.Store.Delete.{
  without_id, names_id, members, put_or_pop, refers, scrub_list, scrub_parent, scrub, Removed,
  delete_task,
}
use scitex_todo.Store.Delete.Gone.{delete_task-Deleted, get-scrub_list, get-scrub_parent}

pub str_eq_symm : (s t : String) → str_eq s t ≡ str_eq t s
str_eq_symm s t = ground (arith, eq_iff s t, eq_iff t s)

-- `s == v` and `v == s`
pub py_eq-text : (s : String) (v : Value) → py_eq (text s) v ≡ py_eq v (text s)
unfolding py_eq
py_eq-text s (text t) = str_eq_symm s t
py_eq-text s null = refl
py_eq-text s (bool true) = refl
py_eq-text s (bool false) = refl
py_eq-text s (int z) = refl
py_eq-text s (list vs) = refl
py_eq-text s (dict d) = refl

pub contains-without_id :
    (i : String) (ids : List Value) → contains (without_id i ids) (text i) ≡ false
unfolding filter
contains-without_id i [] = refl
contains-without_id i (v ∷ ids) = ground (arith, py_eq-text i v, contains-without_id i ids)

names_id-put_or_pop :
    (i k : String) (c : Card) (vs : List Value)
    → names_id i (get (put_or_pop c k vs) k) ≡ contains vs (text i)
names_id-put_or_pop i k c [] = simp get-pop (rw eq_refl refl)
names_id-put_or_pop i k c (v ∷ vs) = simp get-put (rw eq_refl (rw (elements-items_of vs) refl))

names_id-scrub_list : (i k : String) (c : Card) → names_id i (get (scrub_list i k c) k) ≡ false
unfolding scrub_list
names_id-scrub_list i k c = ground (
  arith,
  names_id-put_or_pop i k c (without_id i (members (get c k))),
  contains-without_id i (members (get c k)),
)

parent-scrub_parent : (i : String) (c : Card) → is_text (get (scrub_parent i c) "parent") i ≡ false
unfolding scrub_parent
parent-scrub_parent i c = ground (arith, get-pop c "parent" "parent")

refers-scrub : (i : String) (c : Card) → refers i (scrub i c) ≡ false
unfolding scrub
refers-scrub i c =
    let first_pass = scrub_list i "depends_on" c in
    let second_pass = scrub_list i "blocks" first_pass in
    rw
      (
        get-scrub_parent i "depends_on" second_pass refl,
        get-scrub_parent i "blocks" second_pass refl,
        get-scrub_list i "blocks" "depends_on" first_pass refl,
        names_id-scrub_list i "depends_on" c,
        names_id-scrub_list i "blocks" first_pass,
        parent-scrub_parent i second_pass,
      )
      refl

scrubbed-refers :
    (i : String) (o : Option Card) {c : Card} → map_option (scrub i) o ≡ some c → refers i c ≡ false
scrubbed-refers i none h = cc
scrubbed-refers i (some d) {c} h = subst (λ x. refers i x ≡ false) (inj h) (refers-scrub i d)
  where
    inj : {a b : Card} → some a ≡ some b → a ≡ b
    inj h = cc

-- Once `delete_task` answers, with a clock that gives a text that is not empty, no card that a lookup
-- of a well-formed store finds names the deleted one as a dependency, as a card it blocks or as its
-- parent.
pub delete_task-refers :
    (env : Env) (i : String) (s : Store) (r : Removed) (j : String) (c : Card)
    → WellFormed s.tasks
    → str_eq (env.now 0) "" ≡ false
    → (delete_task env i s).0 ≡ ok r
    → find_live_task (delete_task env i s).1.tasks j ≡ some c
    → refers i c ≡ false
delete_task-refers env i s r j c w n h f =
    let now = (delete_task-Deleted env i s r w n h).gone j in
    elim (Bool-cases (str_eq i j)) [
      | inl e ↦ absurd (none_found (sym (rw (e) at now) ∙ f))
      | inr e ↦ scrubbed-refers i (find_live_task s.tasks j) (sym (rw (e) at now) ∙ f)
    ]
  where
    none_found : {d : Card} → ¬ (none ≡ some d)
    none_found h = cc
