-- ===== src/Store/Mutate/Added.antt =====
-- What a lookup finds after `add_task`.
use scitex_todo.Prelude.{
  ◌≡◌, refl, sym, ap, subst, ◌∙◌, Bool, true, false, not, ◌&&◌, inl, inr, Bool-cases, none, some,
  List, [], ◌∷◌, ◌++◌, map, All, arith, str_eq, String, if◌then◌else◌,
}
use scitex_todo.Py.Dict.{lookup, put, pop, lookup-put, lookup-pop}
use scitex_todo.Py.Value.{Value, text, truthy, is_text-eq, py_eq}
use scitex_todo.Py.Raise.{
  Result, ok, raise, raise_if, >>=-eq-ok, >>-eq-ok, ok_inj, task_validation_error,
}
use scitex_todo.Card.{
  Card, get, get-put, find_live_task, is_tombstoned, meta_deleted, is_live, first,
}
use scitex_todo.Env.{Env}
use scitex_todo.Validate.{without_sentinel}
use scitex_todo.Validate.Sound.{Distinct, get-without_sentinel_id}
use scitex_todo.Store.State.{Store}
use scitex_todo.Store.Actor.{resolve_creator_or_raise}
use scitex_todo.Store.Atomic.{WellFormed, Ended, transaction-Ended, transaction-Cycled}
use scitex_todo.Store.Frame.{save_doc-map}
use scitex_todo.Store.Enums.{resolve_enum_clears}
use scitex_todo.Store.Wip.{enforce_wip_gate}
use scitex_todo.Store.Delete.{has_id}
use scitex_todo.Store.Delete.Unnamed.{py_eq-text}
use scitex_todo.Store.Delete.Restored.{find-appended}
use scitex_todo.Store.Mutate.{
  NewTask, put_given, listed, put_extras, owner_in, stamped_row, new_row, prepared_row, add_row,
  insert_row, add_task,
}
use scitex_todo.Store.Mutate.Fields.{resolve_enum_clears-lookup}
use scitex_todo.Store.Mutate.Admitted.{enforce_wip_gate-SameLive}

put_given-get :
    (c : Card) (k j : String) (v : Value) → str_eq k j ≡ false → get (put_given c k v) j ≡ get c j
unfolding put_given
put_given-get c k j v n = ground (arith, get-put c k j v)

put_extras-get :
    (c extras : Card) (j : String) → lookup extras j ≡ none → get (put_extras c extras) j ≡ get c j
unfolding put_extras lookup
put_extras-get c [] j n = refl
put_extras-get c ((k, v) ∷ extras) j n = elim (Bool-cases (str_eq k j)) [
  | inl e ↦ absurd (some_none (rw (e) at n))
  | inr e ↦ put_extras-get (put_given c k v) extras j (rw (e) at n) ∙ put_given-get c k j v e
]
  where
    some_none : ¬ (some v ≡ none)
    some_none h = cc

-- The keys that the row's first fields do not share with the other arguments.
abbrev is_first : String → Bool
is_first j =
    not (str_eq "scope" j)
    && (not (str_eq "assignee" j)
        && (not (str_eq "priority" j)
            && (not (str_eq "parent" j)
                && (not (str_eq "note" j)
                    && (not (str_eq "depends_on" j)
                        && (not (str_eq "blocks" j)
                            && (not (str_eq "repo" j) && not (str_eq "agent" j))))))))

new_row-get :
    (env : Env) (t : NewTask) (creator : String) (owner : Value) (extras : Card) (j : String)
    → is_first j ≡ true
    → lookup extras j ≡ none
    → get (new_row env t creator owner extras) j ≡ get (stamped_row env t creator) j
unfolding new_row
new_row-get env t creator owner extras j f n =
    put_extras-get _ (put extras "agent" owner) j (lookup-put extras "agent" j owner ∙ rw (off f) n)
    ∙ put_given-get _ "repo" j t.repo (ground arith)
    ∙ put_given-get _ "blocks" j (listed t.blocks) (ground arith)
    ∙ put_given-get _ "depends_on" j (listed t.depends_on) (ground arith)
    ∙ put_given-get _ "note" j t.note (ground arith)
    ∙ put_given-get _ "parent" j t.parent (ground arith)
    ∙ put_given-get _ "priority" j t.priority (ground arith)
    ∙ get-put _ "assignee" j owner
    ∙ scope_last (str_eq "assignee" j) owner _ _ (ground arith)
        (put_given-get (stamped_row env t creator) "scope" j t.scope (ground arith))
  where
    off : is_first j ≡ true → str_eq "agent" j ≡ false
    off f = ground arith

    scope_last : (b : Bool) (u v w : Value) → b ≡ false → v ≡ w → (if b then u else v) ≡ w
    scope_last true u v w h e = cc
    scope_last false u v w h e = e

-- What the arguments make: a live row at the id.
record Prepared (t : NewTask) (c : Card) : Type 0 where
  id : get c "id" ≡ text t.id
  unmarked : is_tombstoned c ≡ false

cleared-lookup :
    (t : NewTask) (k : String) (cleared : Card)
    → str_eq "blocker" k ≡ false
    → str_eq "kind" k ≡ false
    → str_eq "status" k ≡ false
    → lookup t.extras k ≡ none
    → resolve_enum_clears (("status", text t.status) ∷ t.extras) ≡ ok cleared
    → lookup (pop cleared "status") k ≡ none
unfolding lookup
cleared-lookup t k cleared b d n e h =
    lookup-pop cleared "status" k
    ∙ rw (n, resolve_enum_clears-lookup (("status", text t.status) ∷ t.extras) k b d h, n) e

prepared_row-Prepared :
    (env : Env) (t : NewTask) {c : Card}
    → lookup t.extras "id" ≡ none
    → lookup t.extras "_log_meta" ≡ none
    → prepared_row env t ≡ ok c
    → Prepared t c
unfolding prepared_row is_tombstoned get lookup
prepared_row-Prepared env t {c} i l h =
    let (cleared, r, h1) =
      >>=-eq-ok (resolve_enum_clears (("status", text t.status) ∷ t.extras)) _ h in
    let owner = owner_in t.assignee (get (pop cleared "status") "agent") in
    let (u, h2) = >>-eq-ok (raise_if (not (truthy owner)) task_validation_error) _ h1 in
    let (creator, p, h3) = >>=-eq-ok (resolve_creator_or_raise env t.created_by) _ h2 in
    let extras = pop cleared "status" in
    subst (Prepared t) (ok_inj h3) (record {
      id =
          new_row-get env t creator owner extras "id" refl
            (cleared-lookup t "id" cleared refl refl refl i r);
      unmarked = ap meta_deleted (
          new_row-get env t creator owner extras "_log_meta" refl
            (cleared-lookup t "_log_meta" cleared refl refl refl l r));
    })

-- The last of several cards has an id of its own.
last_apart :
    (c x : Card) (xs : List Card)
    → All
        (λ d. py_eq (get d "id") (get (without_sentinel x) "id") ≡ false)
        (map without_sentinel (xs ++ c ∷ []))
    → py_eq (get c "id") (get x "id") ≡ false
last_apart c x [] h = let e = h.0 in rw (get-without_sentinel_id c, get-without_sentinel_id x) at e
last_apart c x (y ∷ xs) h = last_apart c x xs h.1

-- No card of a list with distinct ids has the id of its last one.
Distinct-last :
    (i : String) (c : Card) (xs : List Card)
    → get c "id" ≡ text i
    → Distinct (map without_sentinel (xs ++ c ∷ []))
    → first (has_id (text i)) xs ≡ none
unfolding first
Distinct-last i c [] e d = refl
Distinct-last i c (x ∷ xs) e d =
    let apart : py_eq (get x "id") (text i) ≡ false =
      sym (py_eq-text i (get x "id")) ∙ rw (e) at (last_apart c x xs d.0) in
    rw (apart) (Distinct-last i c xs e d.1)

other_is_live : (i : String) (x : Card) → has_id (text i) x ≡ false → is_live i x ≡ false
unfolding is_live
other_is_live i x h = rw (is_text-eq (get x "id") i, h) refl

first_live-none :
    (i : String) (xs : List Card) → first (has_id (text i)) xs ≡ none → first (is_live i) xs ≡ none
unfolding first
first_live-none i [] h = refl
first_live-none i (x ∷ xs) h = elim (Bool-cases (has_id (text i) x)) [
  | inl e ↦ absurd (some_none (rw (e) at h))
  | inr e ↦ rw (other_is_live i x e) (first_live-none i xs (rw (e) at h))
]
  where
    some_none : ¬ (some x ≡ none)
    some_none h = cc

insert_row-find :
    (env : Env) (t : NewTask) (s : Store) (new a : Card) (j : String)
    → WellFormed s.tasks
    → Prepared t new
    → (insert_row env t.id s (ok new)).0 ≡ ok a
    → (find_live_task s.tasks t.id ≡ none)
      × (find_live_task (insert_row env t.id s (ok new)).1.tasks j
          ≡ (if str_eq t.id j then some a else find_live_task s.tasks j))
unfolding find_live_task
insert_row-find env t s new a j w p h =
    let (o, b, e) = transaction-Ended env (add_row env t.id new) s h in
    let (row, g, b1) = >>=-eq-ok (enforce_wip_gate env new s.tasks (env.now 0)) _ b in
    let (save, same) =
      subst (λ x. Ended env s x a (insert_row env t.id s (ok new)).1) (sym (ok_inj b1)) e in
    let m = enforce_wip_gate-SameLive env new s.tasks (env.now 0) g in
    let id = m.same_id ∙ p.id in
    let mark = m.same_mark ∙ p.unmarked in
    let rows = save_doc-map env s.tasks (s.tasks ++ row ∷ []) save in
    let after = (transaction-Cycled env (add_row env t.id new) s w).well in
    let fresh = Distinct-last t.id row s.tasks id (subst Distinct rows after.distinct) in
    let found = find-appended t.id j row s.tasks w.sound id mark fresh in
    (
      first_live-none t.id s.tasks fresh,
      ap (first (is_live j)) rows
          ∙ found
          ∙ ap (λ x. if str_eq t.id j then some x else first (is_live j) s.tasks) same,
    )

-- Once `add_task` answers for arguments whose `extras` set neither the id nor the log, a well-formed
-- store had no live card at the id, has there the card it answered, and has at every other id what it
-- had.
pub add_task-find :
    (env : Env) (t : NewTask) (s : Store) (a : Card) (j : String)
    → WellFormed s.tasks
    → lookup t.extras "id" ≡ none
    → lookup t.extras "_log_meta" ≡ none
    → (add_task env t s).0 ≡ ok a
    → (find_live_task s.tasks t.id ≡ none)
      × (find_live_task (add_task env t s).1.tasks j
          ≡ (if str_eq t.id j then some a else find_live_task s.tasks j))
unfolding add_task
add_task-find env t s a j w i l h = go (prepared_row env t) refl h
  where
    go :
        (r : Result Card)
        → prepared_row env t ≡ r
        → (insert_row env t.id s r).0 ≡ ok a
        → (find_live_task s.tasks t.id ≡ none)
          × (find_live_task (insert_row env t.id s r).1.tasks j
              ≡ (if str_eq t.id j then some a else find_live_task s.tasks j))
    go (raise x) q h = cc
    go (ok new) q h = insert_row-find env t s new a j w (prepared_row-Prepared env t i l q) h
