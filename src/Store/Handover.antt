-- ===== src/Store/Handover.antt =====
-- What a lookup finds after `reassign_task`, and who stays subscribed.
use Prim.Native.String.{◌++◌ as append_text}
use scitex_todo.Prelude.{
  ◌≡◌, refl, sym, ap, subst, ◌∙◌, true, false, inl, inr, Bool-cases, Option, some, str_eq, String,
  if◌then◌else◌,
}
use scitex_todo.Py.Value.{text, py_eq, contains}
use scitex_todo.Py.Text.{is_blank}
use scitex_todo.Py.Raise.{ok, raise_if, >>=-eq-ok, >>-eq-ok, ok_inj, value_error}
use scitex_todo.Card.{Card, get, find_live_task, sequence}
use scitex_todo.Env.{Env}
use scitex_todo.Validate.{without_sentinel}
use scitex_todo.Validate.Sound.{get-without_sentinel}
use scitex_todo.Store.State.{Store, Outcome}
use scitex_todo.Store.Actor.{default_agent}
use scitex_todo.Store.Atomic.{WellFormed, Ended, transaction-Ended}
use scitex_todo.Store.Row.{or_not_found}
use scitex_todo.Store.Reassign.{
  owner_of, reassigned_row, old_owner_text, Reassigned, reassign_row, reassign_task,
}
use scitex_todo.Store.ReadBack.{Finds, one_row}
use scitex_todo.Store.Keepers.{keeps_owner, reassigned_row-HandedOver}

record Handed (env : Env) (s : Store) (i who : String) (r : Reassigned) (t : Store) : Type 0 where
  found : Finds s.tasks t.tasks i r.task
  agent : get r.task "agent" ≡ text who
  assignee : get r.task "assignee" ≡ text who
  scope : get r.task "scope" ≡ text (append_text "agent:" who)
  actor : String
  row : Card
  target : Card
  from : owner_of target ≡ r.from_owner
  other : py_eq r.from_owner (text who) ≡ false
  written :
      reassigned_row env 0 actor who r.from_owner (old_owner_text env r.from_owner) target ≡ ok row
  saved : r.task ≡ without_sentinel row

reassign_row-Handed :
    (env : Env) (i who actor : String) (s : Store) (target : Card) (t : Store)
    (o : Outcome Reassigned) (r : Reassigned)
    → WellFormed s.tasks
    → or_not_found (find_live_task s.tasks i) ≡ ok target
    → reassign_row env i who actor s.tasks target ≡ ok o
    → Ended env s o r t
    → r.changed ≡ true
    → Handed env s i who r t
reassign_row-Handed env i who actor s target t o r w f b e changed =
    elim (Bool-cases (py_eq (owner_of target) (text who))) [
      | inl same ↦
          let (answer, rows) = subst (λ x. Ended env s x r t) (sym (ok_inj (rw (same) at b))) e in
          absurd (unchanged (ap (λ (x : Reassigned). x.changed) answer ∙ changed))
      | inr other ↦
          let (row, p, q) =
            >>=-eq-ok
              (reassigned_row env 0 actor who (owner_of target)
                (old_owner_text env (owner_of target)) target)
              _ (rw (other) at b) in
          let k = reassigned_row-HandedOver env 0 actor who (owner_of target) _ target p in
          let (found, answer) = one_row env s i row target t _ o r w f k.same_live q e in
          subst (λ x. Handed env s i who x t) answer
            (record {
              found = found;
              agent = get-without_sentinel row "agent" ∙ k.agent;
              assignee = get-without_sentinel row "assignee" ∙ k.assignee;
              scope = get-without_sentinel row "scope" ∙ k.scope;
              actor = actor;
              row = row;
              target = target;
              from = refl;
              other = other;
              written = p;
              saved = refl;
            })
    ]
  where
    unchanged : ¬ (false ≡ true)
    unchanged h = cc

reassign_task-Handed :
    (env : Env) (i who : String) (by : Option String) (s : Store) (r : Reassigned)
    → WellFormed s.tasks
    → (reassign_task env i who by s).0 ≡ ok r
    → r.changed ≡ true
    → Handed env s i who r (reassign_task env i who by s).1
unfolding reassign_task
reassign_task-Handed env i who by s r w h changed =
    let (o, b, e) = transaction-Ended env _ s h in
    let (u, b1) = >>-eq-ok (raise_if (str_eq i "") value_error) _ b in
    let (u', b2) = >>-eq-ok (raise_if (is_blank who) value_error) _ b1 in
    let (actor, p, b3) = >>=-eq-ok (default_agent env by) _ b2 in
    let (target, f, b4) = >>=-eq-ok (or_not_found (find_live_task s.tasks i)) _ b3 in
    reassign_row-Handed env i who actor s target (reassign_task env i who by s).1 o r w f b4 e
      changed

-- Once `reassign_task` answers that the owner changed, a well-formed store has at the id the card it
-- answered, whose agent, assignee and scope all say the new owner, and at every other id what it had.
pub reassign_task-find :
    (env : Env) (i who : String) (by : Option String) (s : Store) (r : Reassigned) (j : String)
    → WellFormed s.tasks
    → (reassign_task env i who by s).0 ≡ ok r
    → r.changed ≡ true
    → (get r.task "agent" ≡ text who)
      × (get r.task "assignee" ≡ text who)
      × (get r.task "scope" ≡ text (append_text "agent:" who))
      × (find_live_task (reassign_task env i who by s).1.tasks j
          ≡ (if str_eq i j then some r.task else find_live_task s.tasks j))
reassign_task-find env i who by s r j w h changed =
    let k = reassign_task-Handed env i who by s r w h changed in
    (k.agent, k.assignee, k.scope, k.found j)

-- Delegation keeps responsibility: once `reassign_task` answers on a well-formed store that the owner
-- changed from a named one, that owner is among the subscribers of the card.
pub reassign_task-contains :
    (env : Env) (i who name : String) (by : Option String) (s : Store) (r : Reassigned)
    → WellFormed s.tasks
    → (reassign_task env i who by s).0 ≡ ok r
    → r.changed ≡ true
    → r.from_owner ≡ text name
    → str_eq name "" ≡ false
    → contains (sequence (get r.task "subscribers")) r.from_owner ≡ true
unfolding py_eq
reassign_task-contains env i who name by s r w h changed named full =
    let k = reassign_task-Handed env i who by s r w h changed in
    let other : str_eq name who ≡ false = rw (named) at k.other in
    let written = rw (named) at k.written in
    rw (named, k.saved, get-without_sentinel k.row "subscribers")
      (keeps_owner env 0 k.actor who name _ k.target full other written)
