-- ===== src/Store/Gate.antt =====
-- `complete_task` (_store_lifecycle.py) of a card that waits behind a gate.
use scitex_todo.Prelude.{
  ◌≡◌, refl, ap, subst, ◌∙◌, Bool, true, false, not, ◌&&◌, inl, inr, Bool-cases, Option, some, List,
  [], ◌∷◌, arith, str_eq, eq_refl, String, All,
}
use scitex_todo.Py.Value.{Value, text, is_text, is_null}
use scitex_todo.Py.Raise.{ok, raise_if, >>=-eq-ok, >>-eq-ok, type_error}
use scitex_todo.Card.{Card, get, card_laws, is_live, find_live_task, first}
use scitex_todo.Env.{Env}
use scitex_todo.Validate.{without_sentinel}
use scitex_todo.Validate.Sound.{IsSound, HasBlocker, get-without_sentinel}
use scitex_todo.Store.State.{Store}
use scitex_todo.Store.Actor.{default_agent}
use scitex_todo.Store.Row.{stamp}
use scitex_todo.Store.Atomic.{WellFormed, transaction-Cycled, transaction-Ended}
use scitex_todo.Store.Complete.{complete_task, complete_locked, complete_row, completed_row}
use scitex_todo.Store.ReadBack.{one_row}
use scitex_todo.Store.Unblock.Calls.{after_lock-eq-ok}
use scitex_todo.Store.ReadBack.Rows.{completed-SameLive, completed-done}

pub find-IsSound :
    (i : String) (cs : List Card) {c : Card}
    → All IsSound cs
    → find_live_task cs i ≡ some c
    → IsSound c
unfolding find_live_task first
find-IsSound i [] h f = cc
find-IsSound i (d ∷ cs) {c} h f = elim (Bool-cases (is_live i d)) [
  | inl e ↦ subst IsSound (some_inj (rw (e) at f)) h.0
  | inr e ↦ find-IsSound i cs h.1 (rw (e) at f)
]
  where
    some_inj : {a b : Card} → some a ≡ some b → a ≡ b
    some_inj h = cc

-- A value that names a gate.
abbrev pub is_gate : Value → Bool
is_gate v = not (is_null v) && not (is_text v "none")

done_gate : (v : Value) → is_gate v ≡ true → ¬ HasBlocker (text "done") v
done_gate v g (inl n) = ground (arith, ap is_null n)
done_gate v g (inr (e, known)) = ground (arith, ap (λ x. is_text x "blocked") e)

closed_gate :
    (v : Value) (c : Card)
    → get c "status" ≡ text "done"
    → get c "blocker" ≡ v
    → is_gate v ≡ true
    → ¬ IsSound (without_sentinel c)
closed_gate v c d b g h =
    let s : get (without_sentinel c) "status" ≡ text "done" = get-without_sentinel c "status" ∙ d in
    let k : get (without_sentinel c) "blocker" ≡ v =
      get-without_sentinel c "blocker" ∙ rw (d, b) (ground arith) in
    done_gate v g (rw (s, k) at h.blocker)

completed-blocker :
    (env : Env) (who : String) (c : Card)
    → get (completed_row env who c) "blocker" ≡ get c "blocker"
unfolding completed_row stamp
completed-blocker env who c = simp card_laws refl

-- `complete_task` answers for no card of a well-formed store that is not done and has a blocker other
-- than the sentinel.
pub complete_task-gated :
    (env : Env) (i : String) (by : Option String) (s : Store) (target a : Card)
    → WellFormed s.tasks
    → find_live_task s.tasks i ≡ some target
    → is_text (get target "status") "done" ≡ false
    → is_gate (get target "blocker") ≡ true
    → ¬ ((complete_task env i by s).0 ≡ ok a)
unfolding complete_task
complete_task-gated env i by s target a w f d g h =
    let (es, h1, q) = after_lock-eq-ok env (complete_locked env i by s) h in
    let (o, b, e) = transaction-Ended env _ s h1 in
    let (u, b1) = >>-eq-ok (raise_if (str_eq i "") type_error) _ b in
    let b2 : complete_row env i by s.tasks target ≡ ok o = rw (f) at b1 in
    let (who, p, b3) = >>=-eq-ok (default_agent env by) _ (rw (d) at b2) in
    let (found, same) =
      one_row env s i _ target (complete_locked env i by s).1 _ o (a, es) w (rw f refl)
        (completed-SameLive env who target) b3 e in
    let after = (transaction-Cycled env _ s w).well in
    let at_i = found i ∙ rw eq_refl refl in
    closed_gate (get target "blocker") (completed_row env who target)
      (completed-done env who target) (completed-blocker env who target) g
      (find-IsSound i _ after.sound at_i)
