-- ===== src/Validate/Passed.antt =====
-- What has passed when the checks of `_validate_tasks` let a card through.
use scitex_todo.Prelude.{◌≡◌, true, false, List, arith}
use scitex_todo.Py.Value.{Value, truthy, is_text, contains}
use scitex_todo.Py.Raise.{ok, >>-eq-ok}
use scitex_todo.Card.{Card, get}
use scitex_todo.Env.{Env}
use scitex_todo.Validate.{hashable, check_id, check_fields}
use scitex_todo.Validate.Fields.{
  check_status, check_priority, check_name, check_comments, check_labels, text_labels,
  check_schedule, owner_labels, check_log_meta, check_kind, check_compute, compute_labels,
  check_blocker,
}

pub record IdPassed (seen : List Value) (c : Card) : Type 0 where
  pub named : truthy (get c "id") ≡ true
  pub key : hashable (get c "id") ≡ true
  pub fresh : contains seen (get c "id") ≡ false
  pub titled : truthy (get c "title") ≡ true

pub check_id-IdPassed : (seen : List Value) (c : Card) → check_id seen c ≡ ok tt → IdPassed seen c
unfolding check_id
check_id-IdPassed seen c h = ground arith

pub IdPassed-check_id : (seen : List Value) (c : Card) → IdPassed seen c → check_id seen c ≡ ok tt
unfolding check_id
IdPassed-check_id seen c h = ground arith

pub record Passed (env : Env) (c : Card) : Type 0 where
  pub status : check_status (get c "status") (get c "blocker") ≡ ok tt
  pub priority : check_priority (get c "priority") ≡ ok tt
  pub parent : check_name (get c "parent") ≡ ok tt
  pub comments : check_comments (get c "comments") ≡ ok tt
  pub texts : check_labels c text_labels ≡ ok tt
  pub schedule :
      check_schedule env (get c "deadline") (get c "scheduled") (get c "deadlines") ≡ ok tt
  pub owners : check_labels c owner_labels ≡ ok tt
  pub log_meta : check_log_meta (get c "_log_meta") ≡ ok tt
  pub kind : check_kind (get c "kind") ≡ ok tt
  pub compute : check_compute (is_text (get c "kind") "compute") c compute_labels ≡ ok tt
  pub blocker : check_blocker (get c "status") (get c "blocker") ≡ ok tt

pub check_fields-Passed : (env : Env) (c : Card) → check_fields env c ≡ ok tt → Passed env c
unfolding check_fields
check_fields-Passed env c h =
    let (a, h1) = >>-eq-ok (check_status _ _) _ h in
    let (b, h2) = >>-eq-ok (check_priority _) _ h1 in
    let (d, h3) = >>-eq-ok (check_name _) _ h2 in
    let (e, h4) = >>-eq-ok (check_comments _) _ h3 in
    let (f, h5) = >>-eq-ok (check_labels c text_labels) _ h4 in
    let (g, h6) = >>-eq-ok (check_schedule env _ _ _) _ h5 in
    let (i, h7) = >>-eq-ok (check_labels c owner_labels) _ h6 in
    let (j, h8) = >>-eq-ok (check_log_meta _) _ h7 in
    let (k, h9) = >>-eq-ok (check_kind _) _ h8 in
    let (l, h10) = >>-eq-ok (check_compute _ c _) _ h9 in
    record {
      status = a;
      priority = b;
      parent = d;
      comments = e;
      texts = f;
      schedule = g;
      owners = i;
      log_meta = j;
      kind = k;
      compute = l;
      blocker = h10;
    }

pub Passed-check_fields : (env : Env) (c : Card) → Passed env c → check_fields env c ≡ ok tt
unfolding check_fields
Passed-check_fields env c p = simp (
  p.status, p.priority, p.parent, p.comments, p.texts, p.schedule, p.owners, p.log_meta, p.kind,
  p.compute, p.blocker,
)
