-- ===== src/Listing/Totals.antt =====
-- The counts of a summary, and the list of the cards that it counts.
use scitex_todo.Prelude.{
  ℕ, ◌+◌, ◌≤◌, ◌≡◌, refl, sym, ap, ◌∙◌, subst, String, Bool, true, false, not, Option, List, [],
  ◌∷◌, arith, length, if◌then◌else◌,
}
use scitex_todo.Py.Value.{Value}
use scitex_todo.Py.Raise.{Result, ok, >>=-eq-ok, >>-eq-ok, ok_inj, raise_if, type_error}
use scitex_todo.Card.{Card, get}
use scitex_todo.Env.{Env}
use scitex_todo.Validate.{hashable}
use scitex_todo.Listing.{
  Filters, match_task, filter_tasks, list_tasks, default_scope, Tally, bump, bump_known, Summary,
  or_blank, with_card, counting, summarize_from, no_summary, scoped, summarize_tasks,
}

-- The sum of a tally.
abbrev pub sum : Tally → ℕ
sum [] = 0
sum ((v, n) ∷ tally) = n + sum tally

bump-sum : (v : Value) (tally : Tally) → sum (bump v tally) ≡ 1 + sum tally
bump-sum v [] = omega arith
bump-sum v ((w, n) ∷ tally) = ground (arith, bump-sum v tally)

bump_known-sum : (v : Value) (tally : Tally) → sum (bump_known v tally) ≤ 1 + sum tally
bump_known-sum v [] = omega arith
bump_known-sum v ((w, n) ∷ tally) = ground (arith, bump_known-sum v tally)

-- The counts by scope and by assignee add up to the total, and those by status do not exceed it.
record IsBalanced (s : Summary) : Type 0 where
  scope : sum s.by_scope ≡ s.total
  assignee : sum s.by_assignee ≡ s.total
  status : sum s.by_status ≤ s.total

record Counted (s t : Summary) (n : ℕ) : Type 0 where
  total : t.total ≡ s.total + n
  balanced : IsBalanced s → IsBalanced t

with_card-Counted : (s : Summary) (task : Card) → Counted s (with_card s task) 1
with_card-Counted s task = record {
  total = omega arith;
  balanced = λ b. (record {
    scope = omega (arith, bump-sum (or_blank (get task "scope")) s.by_scope, b.scope);
    assignee = omega (arith, bump-sum (or_blank (get task "assignee")) s.by_assignee, b.assignee);
    status = omega (arith, bump_known-sum (get task "status") s.by_status, b.status);
  });
}

counting-Counted :
    (s : Summary) (task : Card) {t : Summary} → counting s task ≡ ok t → Counted s t 1
counting-Counted s task {t} h =
    let (u, h1) = >>-eq-ok (raise_if (not (hashable (get task "status"))) type_error) _ h in
    let (v, h2) =
      >>-eq-ok (raise_if (not (hashable (or_blank (get task "scope")))) type_error) _ h1 in
    let (w, h3) =
      >>-eq-ok (raise_if (not (hashable (or_blank (get task "assignee")))) type_error) _ h2 in
    subst (λ x. Counted s x 1) (ok_inj h3) (with_card-Counted s task)

Counted-trans : (s m t : Summary) (a b : ℕ) → Counted s m a → Counted m t b → Counted s t (a + b)
Counted-trans s m t a b x y = record {
  total = omega (arith, x.total, y.total);
  balanced = λ z. y.balanced (x.balanced z);
}

-- A card that is listed is counted, and one that is not is left out.
step-Counted :
    (found : Bool) (s : Summary) (task : Card) (rest : List Card) {t : Summary}
    → (if found then counting s task else ok s) ≡ ok t
    → (n : ℕ) × Counted s t n × (length (if found then task ∷ rest else rest) ≡ n + length rest)
step-Counted true s task rest h = (1, counting-Counted s task h, omega arith)
step-Counted false s task rest {t} h = (
  0,
  subst (λ x. Counted s x 0) (ok_inj h) (record { total = omega arith; balanced = λ b. b }),
  omega arith,
)

summarize_from-Counted :
    (env : Env) (f : Filters) (s t : Summary) (tasks listed : List Card)
    → summarize_from env f s tasks ≡ ok t
    → filter_tasks env (λ c. ok false) f tasks ≡ ok listed
    → Counted s t (length listed)
unfolding summarize_from filter_tasks
summarize_from-Counted env f s t [] listed h k =
    subst (λ x. Counted s x (length listed)) (ok_inj h)
      (subst (λ l. Counted s s (length l)) (ok_inj k)
        (record { total = omega arith; balanced = λ b. b }))
summarize_from-Counted env f s t (c ∷ cs) listed h k =
    let (found, p, h1) = >>=-eq-ok (match_task env (λ c. ok false) f c) _ h in
    let (next, q, h2) = >>=-eq-ok (if found then counting s c else ok s) _ h1 in
    let (found', p', k1) = >>=-eq-ok (match_task env (λ c. ok false) f c) _ k in
    let (rest, r, k2) = >>=-eq-ok (filter_tasks env (λ c. ok false) f cs) _ k1 in
    let same : found' ≡ found = ok_inj (sym p' ∙ p) in
    let (n, step, size) = step-Counted found s c rest q in
    let all =
      Counted-trans s next t n (length rest) step
        (summarize_from-Counted env f next t cs rest h2 r) in
    let longer : length listed ≡ n + length rest =
      ap length (sym (ok_inj k2)) ∙ ap (λ b. length (if b then c ∷ rest else rest)) same ∙ size in
    subst (Counted s t) (sym longer) all

-- Without the filter on overdue cards, no card is asked whether it is overdue.
scoped-filter_tasks :
    (env : Env) (overdue : Card → Result Bool) (scope assignee : Option String) (tasks : List Card)
    → filter_tasks env overdue (scoped scope assignee) tasks
      ≡ filter_tasks env (λ c. ok false) (scoped scope assignee) tasks
unfolding filter_tasks match_task
scoped-filter_tasks env overdue scope assignee [] = refl
scoped-filter_tasks env overdue scope assignee (t ∷ ts) =
    rw (scoped-filter_tasks env overdue scope assignee ts) refl

-- When `summarize_tasks` and `list_tasks` answer for the same store, scope and assignee, the total of
-- the one is the number of cards that the other lists; the counts by scope and those by assignee add
-- up to the total, and those by status to no more.
pub summarize_tasks-list_tasks :
    (env : Env) (overdue : Card → Result Bool) (variable scope assignee : Option String)
    (tasks listed : List Card) (s : Summary)
    → summarize_tasks env variable scope assignee tasks ≡ ok s
    → list_tasks env variable overdue (scoped scope assignee) tasks ≡ ok listed
    → (s.total ≡ length listed)
      × (sum s.by_scope ≡ s.total)
      × (sum s.by_assignee ≡ s.total)
      × (sum s.by_status ≤ s.total)
unfolding summarize_tasks list_tasks
summarize_tasks-list_tasks env overdue variable scope assignee tasks listed s h k =
    let inner = default_scope scope variable in
    let c =
      summarize_from-Counted env (scoped inner assignee) no_summary s tasks listed h
        (sym (scoped-filter_tasks env overdue inner assignee tasks) ∙ k) in
    let b = c.balanced (record { scope = refl; assignee = refl; status = omega arith }) in
    (omega (arith, c.total), b.scope, b.assignee, b.status)
