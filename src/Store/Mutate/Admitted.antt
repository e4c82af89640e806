-- ===== src/Store/Mutate/Admitted.antt =====
-- What the gate does to the fields that lookups read.
use scitex_todo.Prelude.{
  ◌≡◌, subst, not, ◌||◌, inl, inr, Bool-cases, Option, none, some, List, String,
}
use scitex_todo.Py.Value.{truthy}
use scitex_todo.Py.Raise.{ok, raise, ok_inj, task_validation_error}
use scitex_todo.Card.{Card, get}
use scitex_todo.Env.{Env}
use scitex_todo.Throughput.{WipReport, is_refuse, evaluate_wip, is_wip}
use scitex_todo.Store.Frame.{SameLive}
use scitex_todo.Store.Marks.{SameLive-refl, append_comment-SameLive}
use scitex_todo.Store.Wip.{is_priority_exempt, gated, admit, enforce_wip_gate}

admit-SameLive :
    (env : Env) (new : Card) (ts : String) (rep : WipReport) {c : Card}
    → admit env new ts rep ≡ ok c
    → SameLive c new
admit-SameLive env new ts rep {c} h = elim (Bool-cases (is_refuse rep)) [
  | inl e ↦ elim (Bool-cases (is_priority_exempt env (get new "priority"))) [
    | inl d ↦ append_comment-SameLive new _ (rw (e, d) at h)
    | inr d ↦ absurd (raised (rw (e, d) at h))
  ]
  | inr e ↦ subst (λ x. SameLive x new) (ok_inj (rw (e) at h)) (SameLive-refl new)
]
  where
    raised : ¬ (raise task_validation_error ≡ ok c)
    raised h = cc

gated-SameLive :
    (env : Env) (new : Card) (ts : String) (o : Option WipReport) {c : Card}
    → gated env new ts o ≡ ok c
    → SameLive c new
gated-SameLive env new ts none {c} h = subst (λ x. SameLive x new) (ok_inj h) (SameLive-refl new)
gated-SameLive env new ts (some rep) h = admit-SameLive env new ts rep h

pub enforce_wip_gate-SameLive :
    (env : Env) (new : Card) (tasks : List Card) (ts : String) {c : Card}
    → enforce_wip_gate env new tasks ts ≡ ok c
    → SameLive c new
unfolding enforce_wip_gate
enforce_wip_gate-SameLive env new tasks ts {c} h =
    elim (Bool-cases (not (truthy (get new "agent")) || not (is_wip (get new "status")))) [
      | inl e ↦ subst (λ x. SameLive x new) (ok_inj (rw (e) at h)) (SameLive-refl new)
      | inr e ↦ gated-SameLive env new ts (evaluate_wip env tasks (get new "agent")) (rw (e) at h)
    ]
