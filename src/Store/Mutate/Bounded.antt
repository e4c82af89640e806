-- ===== src/Store/Mutate/Bounded.antt =====
-- How far `add_task` fills an agent's share of the work in progress.
use scitex_todo.Prelude.{
  ◌+◌, ◌*◌, ◌≤◌, ◌≡◌, refl, sym, subst, ap, ◌∙◌, String, Bool, true, false, not, ◌||◌, inl, inr,
  Bool-cases, Option, none, some, List, [], ◌∷◌, ◌++◌, map, arith, length, filter, str_eq, All,
}
use scitex_todo.Py.Value.{Value, truthy}
use scitex_todo.Py.Raise.{Result, ok, raise, >>=-eq-ok, ok_inj, task_validation_error}
use scitex_todo.Card.{Card, get}
use scitex_todo.Env.{Env}
use scitex_todo.Validate.{without_sentinel}
use scitex_todo.Validate.Sound.{IsSound, get-without_sentinel}
use scitex_todo.Throughput.{
  WipReport, is_refuse, evaluate_wip, is_wip, is_wip_of, count_wip_for_agent,
}
use scitex_todo.Store.State.{Store}
use scitex_todo.Store.Atomic.{WellFormed, Ended, transaction-Ended}
use scitex_todo.Store.Frame.{IsSound-without_sentinel, save_doc-map}
use scitex_todo.Store.ReadBack.Rows.{append_comment-get}
use scitex_todo.Store.Wip.{is_priority_exempt, gated, admit, enforce_wip_gate}
use scitex_todo.Store.Mutate.{NewTask, prepared_row, add_row, insert_row, add_task}

map-IsSound : (xs : List Card) → All IsSound xs → map without_sentinel xs ≡ xs
map-IsSound [] h = refl
map-IsSound (x ∷ xs) h = rw (IsSound-without_sentinel x h.0, map-IsSound xs h.1) refl

map-append :
    (xs ys : List Card)
    → map without_sentinel (xs ++ ys) ≡ map without_sentinel xs ++ map without_sentinel ys
map-append [] ys = refl
map-append (x ∷ xs) ys = rw (map-append xs ys) refl

-- One more card is at most one more that a test keeps.
length-filter_append {ℓ} :
    {A : Type ℓ} (p : A → Bool) (xs : List A) (a : A)
    → length (filter p (xs ++ a ∷ [])) ≤ 1 + length (filter p xs)
unfolding filter
length-filter_append p [] a = ground arith
length-filter_append p (x ∷ xs) a = ground (arith, length-filter_append p xs a)

admit-get :
    (env : Env) (new : Card) (ts : String) (rep : WipReport) (k : String) {c : Card}
    → str_eq "comments" k ≡ false
    → admit env new ts rep ≡ ok c
    → get c k ≡ get new k
admit-get env new ts rep k {c} n h = elim (Bool-cases (is_refuse rep)) [
  | inl e ↦ elim (Bool-cases (is_priority_exempt env (get new "priority"))) [
    | inl d ↦ append_comment-get new _ k n (rw (e, d) at h)
    | inr d ↦ absurd (raised (rw (e, d) at h))
  ]
  | inr e ↦ ap (λ x. get x k) (sym (ok_inj (rw (e) at h)))
]
  where
    raised : ¬ (raise task_validation_error ≡ ok c)
    raised h = cc

gated-get :
    (env : Env) (new : Card) (ts : String) (o : Option WipReport) (k : String) {c : Card}
    → str_eq "comments" k ≡ false
    → gated env new ts o ≡ ok c
    → get c k ≡ get new k
gated-get env new ts none k n h = ap (λ x. get x k) (sym (ok_inj h))
gated-get env new ts (some rep) k n h = admit-get env new ts rep k n h

-- The gate changes no field but the comments.
enforce_wip_gate-get :
    (env : Env) (new : Card) (tasks : List Card) (ts k : String) {c : Card}
    → str_eq "comments" k ≡ false
    → enforce_wip_gate env new tasks ts ≡ ok c
    → get c k ≡ get new k
unfolding enforce_wip_gate
enforce_wip_gate-get env new tasks ts k n h =
    elim (Bool-cases (not (truthy (get new "agent")) || not (is_wip (get new "status")))) [
      | inl e ↦ ap (λ x. get x k) (sym (ok_inj (rw (e) at h)))
      | inr e ↦ gated-get env new ts (evaluate_wip env tasks (get new "agent")) k n (rw (e) at h)
    ]

admit_bounds :
    (env : Env) (new : Card) (ts : String) (rep : WipReport) {c : Card}
    → is_priority_exempt env (get new "priority") ≡ false
    → admit env new ts rep ≡ ok c
    → 1 + rep.wip_count ≤ 2 * rep.limit
admit_bounds env new ts rep {c} p h = elim (Bool-cases (is_refuse rep)) [
  | inl e ↦ absurd (raised (rw (e, p) at h))
  | inr e ↦ ground arith
]
  where
    raised : ¬ (raise task_validation_error ≡ ok c)
    raised h = cc

-- What the gate lets through without an exemption is below the threshold.
enforce_wip_gate_bounds :
    (env : Env) (new : Card) (tasks : List Card) (ts : String) {c : Card}
    → truthy (get new "agent") ≡ true
    → is_wip (get new "status") ≡ true
    → is_priority_exempt env (get new "priority") ≡ false
    → enforce_wip_gate env new tasks ts ≡ ok c
    → 1 + count_wip_for_agent tasks (get new "agent") ≤ 2 * env.wip_limit
unfolding enforce_wip_gate evaluate_wip
enforce_wip_gate_bounds env new tasks ts a s p h = admit_bounds env new ts _ p (rw (a, s) at h)

count-append :
    (tasks : List Card) (c : Card) (agent : Value)
    → truthy agent ≡ true
    → count_wip_for_agent (tasks ++ c ∷ []) agent ≤ 1 + count_wip_for_agent tasks agent
unfolding count_wip_for_agent
count-append tasks c agent t = rw (t) (length-filter_append (is_wip_of agent) tasks c)

insert_row_bounds :
    (env : Env) (i : String) (s : Store) (new a : Card)
    → WellFormed s.tasks
    → truthy (get a "agent") ≡ true
    → is_wip (get a "status") ≡ true
    → is_priority_exempt env (get a "priority") ≡ false
    → (insert_row env i s (ok new)).0 ≡ ok a
    → count_wip_for_agent (insert_row env i s (ok new)).1.tasks (get a "agent") ≤ 2 * env.wip_limit
insert_row_bounds env i s new a w t st p h =
    let (o, b, e) = transaction-Ended env (add_row env i new) s h in
    let (row, g, b1) = >>=-eq-ok (enforce_wip_gate env new s.tasks (env.now 0)) _ b in
    let (save, same) =
      subst (λ x. Ended env s x a (insert_row env i s (ok new)).1) (sym (ok_inj b1)) e in
    let agent = kept "agent" row refl refl g same in
    let room =
      enforce_wip_gate_bounds env new s.tasks (env.now 0) (ap truthy (sym agent) ∙ t)
        (ap is_wip (sym (kept "status" row refl refl g same)) ∙ st)
        (ap (is_priority_exempt env) (sym (kept "priority" row refl refl g same)) ∙ p) g in
    let rows =
      save_doc-map env s.tasks (s.tasks ++ row ∷ []) save
      ∙ map-append s.tasks (row ∷ [])
      ∙ ap (λ xs. xs ++ without_sentinel row ∷ []) (map-IsSound s.tasks w.sound) in
    let more = count-append s.tasks (without_sentinel row) (get a "agent") t in
    rw (rows) (
      omega (
        arith,
        more,
        subst (λ v. 1 + count_wip_for_agent s.tasks v ≤ 2 * env.wip_limit) (sym agent) room,
      ))
  where
    kept :
        (k : String) (row : Card)
        → str_eq "comments" k ≡ false
        → str_eq "blocker" k ≡ false
        → enforce_wip_gate env new s.tasks (env.now 0) ≡ ok row
        → without_sentinel row ≡ a
        → get a k ≡ get new k
    kept k row n m g same =
        ap (λ x. get x k) (sym same)
        ∙ get-without_sentinel row k
        ∙ rw (m) (enforce_wip_gate-get env new s.tasks (env.now 0) k n g)

-- Once `add_task` answers a card in progress of an agent, with a priority that is not exempt, the
-- agent has in a store that was well-formed no more cards in progress than twice the limit.
pub add_task_bounds :
    (env : Env) (t : NewTask) (s : Store) (a : Card)
    → WellFormed s.tasks
    → truthy (get a "agent") ≡ true
    → is_wip (get a "status") ≡ true
    → is_priority_exempt env (get a "priority") ≡ false
    → (add_task env t s).0 ≡ ok a
    → count_wip_for_agent (add_task env t s).1.tasks (get a "agent") ≤ 2 * env.wip_limit
unfolding add_task
add_task_bounds env t s a w o st p h = go (prepared_row env t) h
  where
    go :
        (r : Result Card)
        → (insert_row env t.id s r).0 ≡ ok a
        → count_wip_for_agent (insert_row env t.id s r).1.tasks (get a "agent") ≤ 2 * env.wip_limit
    go (raise x) h = cc
    go (ok new) h = insert_row_bounds env t.id s new a w o st p h
