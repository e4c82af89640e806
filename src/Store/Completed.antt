-- ===== src/Store/Completed.antt =====
-- What a lookup finds after `complete_task`.
use scitex_todo.Prelude.{
  ◌≡◌, sym, subst, inl, inr, Bool-cases, Option, some, List, str_eq, String, All, if◌then◌else◌,
}
use scitex_todo.Py.Value.{text, is_text}
use scitex_todo.Py.Raise.{ok, raise_if, >>=-eq-ok, >>-eq-ok, ok_inj, type_error}
use scitex_todo.Card.{Card, get, find_live_task}
use scitex_todo.Env.{Env}
use scitex_todo.Validate.{without_sentinel}
use scitex_todo.Validate.Sound.{get-without_sentinel, is_text→eq}
use scitex_todo.Store.State.{Store, Effect, Outcome}
use scitex_todo.Store.Actor.{default_agent}
use scitex_todo.Store.Row.{or_not_found}
use scitex_todo.Store.Atomic.{WellFormed, Ended, has_id, transaction-Cycled, transaction-Ended}
use scitex_todo.Store.Complete.{complete_task, complete_locked, complete_row, completed_effects}
use scitex_todo.Store.ReadBack.{Finds, Finds-same, written-Finds, or_not_found-eq-ok}
use scitex_todo.Store.ReadBack.Rows.{completed-SameLive, completed-done}
use scitex_todo.Store.Unblock.{unblocked_ids, emit_unblock_for_dependents}
use scitex_todo.Store.Unblock.Calls.{All-append, after_lock-eq-ok}
use scitex_todo.Store.Unblock.Logged.{IsLoggedIf, Names, emit-Names, sent_IsLoggedIf}

without_sentinel-done :
    (c : Card) → get c "status" ≡ text "done" → get (without_sentinel c) "status" ≡ text "done"
without_sentinel-done c h = simp get-without_sentinel h

-- The card that was closed, and what is left to send.
abbrev Closed : Env → List Card → List Card → String → Card × List Effect → Type 0
Closed env tasks saved i (a, es) =
    Finds tasks saved i a
    × (get a "status" ≡ text "done")
    × All (Names (unblocked_ids env saved i)) es

completed_effects-Names :
    (env : Env) (i : String) (by : Option String) (who : String) (saved : List Card)
    → All (Names (unblocked_ids env saved i)) (completed_effects env i by who saved)
completed_effects-Names env i by who saved =
    All-append (Names (unblocked_ids env saved i)) (emit_unblock_for_dependents env saved i by) _
      (emit-Names env saved i by) (tt, tt)

complete_row-Closed :
    (env : Env) (s : Store) (i : String) (by : Option String) (target : Card) (t : Store)
    (o : Outcome (Card × List Effect)) (a : Card × List Effect)
    → WellFormed s.tasks
    → find_live_task s.tasks i ≡ some target
    → complete_row env i by s.tasks target ≡ ok o
    → Ended env s o a t
    → Closed env s.tasks t.tasks i a
complete_row-Closed env s i by target t o a w f h e =
    elim (Bool-cases (is_text (get target "status") "done")) [
      | inl d ↦
          let (same, rows) = subst (λ x. Ended env s x a t) (sym (ok_inj (rw (d) at h))) e in
          subst (Closed env s.tasks t.tasks i) same (
            λ j. rw rows (Finds-same s.tasks i target f j),
            is_text→eq (get target "status") "done" d,
            tt,
          )
      | inr d ↦
          let (who, p, q) = >>=-eq-ok (default_agent env by) _ (rw (d) at h) in
          let (save, same) = subst (λ x. Ended env s x a t) (sym (ok_inj q)) e in
          subst (Closed env s.tasks t.tasks i) same (
            written-Finds env s.tasks i _ target t.tasks w f (completed-SameLive env who target)
                save,
            without_sentinel-done _ (completed-done env who target),
            completed_effects-Names env i by who t.tasks,
          )
    ]

-- Once `complete_task` answers, its answer is done, and every lookup of a well-formed store finds
-- that answer at the id and at every other id what was there, but for the comments and the last
-- activity of the cards that were freed: those that waited on the id and may start once it is saved.
pub complete_task-find :
    (env : Env) (i : String) (by : Option String) (s : Store) (a : Card) (j : String)
    → WellFormed s.tasks
    → (complete_task env i by s).0 ≡ ok a
    → (get a "status" ≡ text "done")
      × IsLoggedIf
          (has_id (unblocked_ids env (complete_locked env i by s).1.tasks i) j)
          (if str_eq i j then some a else find_live_task s.tasks j)
          (find_live_task (complete_task env i by s).1.tasks j)
unfolding complete_task
complete_task-find env i by s a j w h =
    let t = (complete_locked env i by s).1 in
    let freed = unblocked_ids env t.tasks i in
    let (es, h1, q) = after_lock-eq-ok env (complete_locked env i by s) h in
    let (o, b, e) = transaction-Ended env _ s h1 in
    let (u, b1) = >>-eq-ok (raise_if (str_eq i "") type_error) _ b in
    let (target, f, b2) = >>=-eq-ok (or_not_found (find_live_task s.tasks i)) _ b1 in
    let (found, closed, names) =
      complete_row-Closed env s i by target t o (a, es) w (or_not_found-eq-ok _ f) b2 e in
    (
      closed,
      sent_IsLoggedIf env freed es t (complete_task env i by s).1 _ j q (found j) names
          (transaction-Cycled env _ s w).well,
    )
