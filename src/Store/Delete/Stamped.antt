-- ===== src/Store/Delete/Stamped.antt =====
-- `restore_task` of a card that had a log when it was deleted.
use scitex_todo.Prelude.{
  ◌≡◌, refl, sym, ap, some_inj, subst, ◌∙◌, true, false, not, inl, inr, Bool-cases, none, some,
  List, [], ◌∷◌, ◌++◌, str_eq, eq_refl, Bool, Option, String, map,
}
use scitex_todo.Py.Value.{Value, truthy}
use scitex_todo.Py.Raise.{ok, raise, raise_if, >>=-eq-ok, >>-eq-ok, ok_inj, value_error}
use scitex_todo.Card.{
  Card, get, get-put, meta_deleted, is_live, is_tombstoned, find_live_task, first, change_first,
}
use scitex_todo.Env.{Env}
use scitex_todo.Validate.{without_sentinel}
use scitex_todo.Store.State.{Store}
use scitex_todo.Store.Atomic.{WellFormed, Ended, transaction-Ended}
use scitex_todo.Store.Frame.{is_live-without_sentinel, find-map, save_doc-map}
use scitex_todo.Store.Delete.{
  Removed, is_list, snapshot, is_dict, delete_task, restore_task, restored_rows, has_id,
}
use scitex_todo.Store.Delete.Gone.{dead_is_live, get-shared, delete_task-Deleted}
use scitex_todo.Store.Delete.Restored.{not_empty, delete_task-WellFormed}

-- A snapshot that shares the log of the deleted row.
snapshot-marked :
    (dead target : Card)
    → is_dict (get target "_log_meta") ≡ true
    → is_tombstoned (snapshot dead target) ≡ is_tombstoned dead
unfolding is_tombstoned snapshot
snapshot-marked dead target d = ap meta_deleted (
    get-shared is_list "comments" "_log_meta" dead _ refl
    ∙ rw (d) (get-put target "_log_meta" "_log_meta" (get dead "_log_meta")))

appended_none :
    (i : String) (task : Card) (xs : List Card)
    → is_live i task ≡ false
    → first (is_live i) (map without_sentinel xs) ≡ none
    → first (is_live i) (map without_sentinel (xs ++ task ∷ [])) ≡ none
unfolding first
appended_none i task [] m h = rw (is_live-without_sentinel task i, m) refl
appended_none i task (x ∷ xs) m h = elim (Bool-cases (is_live i (without_sentinel x))) [
  | inl e ↦ absurd (not_empty (rw (e) at h))
  | inr e ↦ rw (e) (appended_none i task xs m (rw (e) at h))
]

replaced_none :
    (i : String) (test : Card → Bool) (task : Card) (xs : List Card)
    → is_live i task ≡ false
    → first (is_live i) (map without_sentinel xs) ≡ none
    → first (is_live i) (map without_sentinel (change_first test (λ c. task) xs)) ≡ none
unfolding first change_first
replaced_none i test task [] m h = refl
replaced_none i test task (x ∷ xs) m h = elim (Bool-cases (is_live i (without_sentinel x))) [
  | inl e ↦ absurd (not_empty (rw (e) at h))
  | inr e ↦ elim (Bool-cases (test x)) [
    | inl t ↦ rw (t, is_live-without_sentinel task i, m) (rw (e) at h)
    | inr t ↦ rw (t, e) (replaced_none i test task xs m (rw (e) at h))
  ]
]

restored_none :
    (i : String) (task : Card) (xs rows : List Card) (o : Option Card)
    → is_live i task ≡ false
    → first (is_live i) (map without_sentinel xs) ≡ none
    → restored_rows task xs o ≡ ok rows
    → first (is_live i) (map without_sentinel rows) ≡ none
restored_none i task xs rows none m h e = rw (sym (ok_inj e)) (appended_none i task xs m h)
restored_none i task xs rows (some old) m h e = elim (Bool-cases (is_tombstoned old)) [
  | inl d ↦ rw (sym (ok_inj (rw (d) at e))) (replaced_none i (has_id (get task "id")) task xs m h)
  | inr d ↦ absurd (raised (rw (d) at e))
]
  where
    raised : ¬ (raise value_error ≡ ok rows)
    raised h = cc

-- A card whose `_log_meta` is a dict is not restored: once its deletion and its
-- restoration have both answered, the first with a clock that gives a text that is not empty, no
-- lookup of a well-formed store finds its id.
pub restore_task-stamped :
    (env later : Env) (i : String) (s : Store) (target : Card) (r : Removed) (a : Card × List Value)
    → WellFormed s.tasks
    → str_eq (env.now 0) "" ≡ false
    → find_live_task s.tasks i ≡ some target
    → is_dict (get target "_log_meta") ≡ true
    → (delete_task env i s).0 ≡ ok r
    → (restore_task later r.removed r.refs (delete_task env i s).1).0 ≡ ok a
    → find_live_task (restore_task later r.removed r.refs (delete_task env i s).1).1.tasks i ≡ none
unfolding restore_task find_live_task
restore_task-stamped env later i s target r a w n f m h b =
    let e = delete_task-Deleted env i s r w n h in
    let t = (delete_task env i s).1 in
    let well = delete_task-WellFormed env i s w in
    let was : r.removed ≡ snapshot e.dead target =
      e.was ∙ ap (snapshot e.dead) (some_inj (sym e.found ∙ f)) in
    let dead : is_live i r.removed ≡ false =
      dead_is_live i r.removed (rw (was) (snapshot-marked e.dead target m ∙ e.marked)) in
    let gone : first (is_live i) t.tasks ≡ none = e.gone i ∙ rw (eq_refl i) refl in
    let (o, b0, ended) = transaction-Ended later _ t b in
    let (u, b1) = >>-eq-ok (raise_if (not (truthy (get r.removed "id"))) value_error) _ b0 in
    let (rows, q, b2) =
      >>=-eq-ok (restored_rows r.removed t.tasks (first (has_id (get r.removed "id")) t.tasks)) _
        b1 in
    let (save, same) =
      subst (λ x. Ended later t x a (restore_task later r.removed r.refs t).1) (sym (ok_inj b2))
        ended in
    rw (save_doc-map later t.tasks _ save)
      (restored_none i r.removed t.tasks rows _ dead (find-map i t.tasks well.sound ∙ gone) q)
