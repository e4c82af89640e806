-- ===== src/Validate/Again.antt =====
-- `_validate_tasks` of a list that it returned.
use scitex_todo.Prelude.{◌≡◌, refl, subst, true, false, inl, inr, List, [], ◌∷◌, arith, Bool-cases}
use scitex_todo.Py.Dict.{pop}
use scitex_todo.Py.Value.{Value, null, is_text}
use scitex_todo.Py.Raise.{ok, >>=-eq-ok, >>-eq-ok, ok_inj}
use scitex_todo.Card.{Card, get, get-pop}
use scitex_todo.Env.{Env}
use scitex_todo.Validate.{check_id, check_fields, without_sentinel, validate_from, validate_tasks}
use scitex_todo.Validate.Fields.{check_status, check_blocker, check_labels, check_compute}
use scitex_todo.Validate.Passed.{
  IdPassed, Passed, check_id-IdPassed, IdPassed-check_id, check_fields-Passed, Passed-check_fields,
}
use scitex_todo.Validate.Sound.{get-without_sentinel_id, get-without_sentinel, is_sentinel}

check_status_unblocked :
    (status blocker : Value)
    → is_text status "blocked" ≡ false
    → check_status status blocker ≡ ok tt
    → check_status status null ≡ ok tt
unfolding check_status
check_status_unblocked status blocker e h = ground arith

Passed-pop :
    (env : Env) (c : Card)
    → is_text (get c "status") "blocked" ≡ false
    → Passed env c
    → Passed env (pop c "blocker")
unfolding check_blocker check_labels check_compute
Passed-pop env c e p = record {
  status = simp get-pop (check_status_unblocked (get c "status") (get c "blocker") e p.status);
  priority = simp get-pop p.priority;
  parent = simp get-pop p.parent;
  comments = simp get-pop p.comments;
  texts = simp get-pop p.texts;
  schedule = simp get-pop p.schedule;
  owners = simp get-pop p.owners;
  log_meta = simp get-pop p.log_meta;
  kind = simp get-pop p.kind;
  compute = simp get-pop p.compute;
  blocker = simp get-pop refl;
}

not_blocked : (c : Card) → is_sentinel c ≡ true → is_text (get c "status") "blocked" ≡ false
not_blocked c h = ground arith

without_sentinel-Passed : (env : Env) (c : Card) → Passed env c → Passed env (without_sentinel c)
unfolding without_sentinel
without_sentinel-Passed env c p = elim (Bool-cases (is_sentinel c)) [
  | inl e ↦ rw e (Passed-pop env c (not_blocked c e) p)
  | inr e ↦ rw e p
]

without_sentinel-IdPassed :
    (seen : List Value) (c : Card) → IdPassed seen c → IdPassed seen (without_sentinel c)
without_sentinel-IdPassed seen c i = record {
  named = simp get-without_sentinel i.named;
  key = simp get-without_sentinel i.key;
  fresh = simp get-without_sentinel i.fresh;
  titled = simp get-without_sentinel i.titled;
}

without_sentinel_clean : (c : Card) → is_sentinel c ≡ false → without_sentinel c ≡ c
unfolding without_sentinel
without_sentinel_clean c h = rw h

is_sentinel-without_sentinel : (c : Card) → is_sentinel (without_sentinel c) ≡ false
is_sentinel-without_sentinel c = simp get-without_sentinel (ground arith)

without_sentinel_idem : (c : Card) → without_sentinel (without_sentinel c) ≡ without_sentinel c
without_sentinel_idem c =
    without_sentinel_clean (without_sentinel c) (is_sentinel-without_sentinel c)

validate_from_again :
    (env : Env) (seen : List Value) (cs : List Card) {saved : List Card}
    → validate_from env seen cs ≡ ok saved
    → validate_from env seen saved ≡ ok saved
unfolding validate_from
validate_from_again env seen [] h = subst (λ s. validate_from env seen s ≡ ok s) (ok_inj h) refl
validate_from_again env seen (c ∷ cs) h =
    let (a, h1) = >>-eq-ok (check_id seen c) _ h in
    let (b, h2) = >>-eq-ok (check_fields env c) _ h1 in
    let (rest, e, h3) = >>=-eq-ok (validate_from env (get c "id" ∷ seen) cs) _ h2 in
    let i = without_sentinel-IdPassed seen c (check_id-IdPassed seen c a) in
    let p = without_sentinel-Passed env c (check_fields-Passed env c b) in
    let again = validate_from_again env (get c "id" ∷ seen) cs {saved = rest} e in
    subst (λ s. validate_from env seen s ≡ ok s) (ok_inj h3)
      (simp (
        IdPassed-check_id seen (without_sentinel c) i,
        Passed-check_fields env (without_sentinel c) p,
        get-without_sentinel_id,
        again,
        without_sentinel_idem,
      ))

-- Validating what validation returned gives it back unchanged.
validate_tasks_idem :
    (env : Env) (tasks saved : List Card)
    → validate_tasks env tasks ≡ ok saved
    → validate_tasks env saved ≡ ok saved
unfolding validate_tasks
validate_tasks_idem env tasks saved h = validate_from_again env [] tasks h
