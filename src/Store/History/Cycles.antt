-- ===== src/Store/History/Cycles.antt =====
-- The cycle of every verb, under one roof.
use scitex_todo.Prelude.{
  ℕ, ◌≡◌, ◌∙◌, refl, ap, ◌||◌, Bool-cases, inl, inr, Option, List, [], ◌∷◌, String, str_eq,
}
use scitex_todo.Py.Value.{Value, null, bool, int, text, list, dict}
use scitex_todo.Py.Raise.{Exception, Result, ok, raise, value_error, type_error}
use scitex_todo.Card.{Card}
use scitex_todo.Env.{Env, str}
use scitex_todo.Store.State.{Store, Effect, row_ids}
use scitex_todo.Store.Atomic.{WellFormed, Kept-refl, Kept-trans, Cycled, transaction-Cycled}
use scitex_todo.Store.Unblock.{send_all, after_lock}
use scitex_todo.Store.Unblock.Calls.{every-Allowed, send_all-keeps}
use scitex_todo.Store.Complete.{complete_task}
use scitex_todo.Store.Delete.{delete_task, restore_task}
use scitex_todo.Store.Resolve.{resolve_task, reopen_task}
use scitex_todo.Store.Reassign.{reassign_task, reassign_all}
use scitex_todo.Store.Comment.{comment_task}
use scitex_todo.Store.Enums.{resolve_enum_clears}
use scitex_todo.Store.Mutate.{NewTask, prepared_row, insert_row, add_task, change_row, update_task}
use scitex_todo.Store.Rescore.{rescore_task}
use scitex_todo.Store.Help.{help_wait, help_clear}
use scitex_todo.Store.Relations.{
  Action, add, remove, set_edge, set_list_member, then_subscribe, set_collaborator, set_subscriber,
}
use scitex_todo.Store.History.{
  Command, complete, delete, restore, resolve, reopen, reassign, reassign_each, comment_on, edge,
  collaborator, subscriber, insert, update, rescore, ask_help, clear_help, answer, execute,
}

module _ {A : Type 0} {env : Env} {s : Store} where
  answer-Cycled : (r : Result A × Store) → Cycled env s r → Cycled env s (ok tt, (answer r).1)
  answer-Cycled (ok a, t) c = record { well = c.well; kept = c.kept; sections = c.sections }
  answer-Cycled (raise e, t) c = record { well = c.well; kept = c.kept; sections = c.sections }

str-repr : (e env : Env) → e.repr ≡ env.repr → (v : Value) → str e v ≡ str env v
str-repr e env q (text s) = refl
str-repr e env q null = ap (λ f. f null) q
str-repr e env q (bool b) = ap (λ f. f (bool b)) q
str-repr e env q (int z) = ap (λ f. f (int z)) q
str-repr e env q (list vs) = ap (λ f. f (list vs)) q
str-repr e env q (dict d) = ap (λ f. f (dict d)) q

row_ids-repr : (e env : Env) → e.repr ≡ env.repr → (cs : List Card) → row_ids e cs ≡ row_ids env cs
unfolding row_ids
row_ids-repr e env q [] = refl
row_ids-repr e env q (c ∷ cs) = rw (str-repr e env q, row_ids-repr e env q cs) refl

module _ (env : Env) where
  raised-Cycled :
      {A : Type 0} (s : Store) (e : Exception)
      → WellFormed s.tasks
      → Cycled env {A = A} s (raise e, s)
  raised-Cycled s e w = record { well = w; kept = Kept-refl (row_ids env s.tasks); sections = refl }

  set_list_member-Cycled :
      (n : ℕ) (task_id key who : String) (action : Action) (s : Store)
      → WellFormed s.tasks
      → Cycled env s (set_list_member env n task_id key who action s)
  unfolding set_list_member
  set_list_member-Cycled n task_id key who action s w = transaction-Cycled env _ s w

  set_subscriber-Cycled :
      (task_id who : String) (action : Action) (s : Store)
      → WellFormed s.tasks
      → Cycled env s (set_subscriber env task_id who action s)
  unfolding set_subscriber
  set_subscriber-Cycled task_id who action s w =
      elim (Bool-cases (str_eq task_id "" || str_eq who "")) [
        | inl e ↦ rw e (raised-Cycled s value_error w)
        | inr e ↦ rw e (set_list_member-Cycled 0 task_id "subscribers" who action s w)
      ]

  then_subscribe-Cycled :
      (task_id who : String) (action : Action) (s : Store) (r : Result Card × Store)
      → Cycled env s r
      → Cycled env s (then_subscribe env task_id who action r)
  then_subscribe-Cycled task_id who add s (ok c, t) h =
      let k = set_list_member-Cycled 1 task_id "subscribers" who add t h.well in
      record {
        well = k.well;
        kept = Kept-trans _ _ _ h.kept k.kept;
        sections = k.sections ∙ h.sections;
      }
  then_subscribe-Cycled task_id who add s (raise e, t) h = h
  then_subscribe-Cycled task_id who remove s (ok c, t) h = h
  then_subscribe-Cycled task_id who remove s (raise e, t) h = h

  set_collaborator-Cycled :
      (task_id who : String) (action : Action) (s : Store)
      → WellFormed s.tasks
      → Cycled env s (set_collaborator env task_id who action s)
  unfolding set_collaborator
  set_collaborator-Cycled task_id who action s w =
      elim (Bool-cases (str_eq task_id "" || str_eq who "")) [
        | inl e ↦ rw e (raised-Cycled s value_error w)
        | inr e ↦ rw e (
            then_subscribe-Cycled task_id who action s _
              (set_list_member-Cycled 0 task_id "collaborators" who action s w))
      ]

  insert_row-Cycled :
      (id : String) (s : Store) (r : Result Card)
      → WellFormed s.tasks
      → Cycled env s (insert_row env id s r)
  insert_row-Cycled id s (raise e) w = raised-Cycled s e w
  insert_row-Cycled id s (ok new) w = transaction-Cycled env _ s w

  change_row-Cycled :
      (task_id : String) (s : Store) (r : Result Card)
      → WellFormed s.tasks
      → Cycled env s (change_row env task_id s r)
  change_row-Cycled task_id s (raise e) w = raised-Cycled s e w
  change_row-Cycled task_id s (ok fields) w = transaction-Cycled env _ s w

  add_task-Cycled : (t : NewTask) (s : Store) → WellFormed s.tasks → Cycled env s (add_task env t s)
  unfolding add_task
  add_task-Cycled t s w = insert_row-Cycled t.id s (prepared_row env t) w

  comment_task-Cycled :
      (env' : Env) (i body : String) (by kind : Option String) (s : Store)
      → env'.repr ≡ env.repr
      → WellFormed s.tasks
      → Cycled env s (ok tt, (comment_task env' i body by kind s).1)
  unfolding comment_task
  comment_task-Cycled env' i body by kind s same w =
      let c = transaction-Cycled env' _ s w in
      record {
        well = c.well;
        kept = rw (row_ids-repr env' env same _, row_ids-repr env' env same s.tasks) at c.kept;
        sections = c.sections;
      }

  then_more :
      {A B : Type 0} (s : Store) (r : Result A × Store) (a : Result B) (t : Store)
      → Cycled env s r
      → Cycled env r.1 (ok tt, t)
      → Cycled env s (a, t)
  then_more s r a t h k = record {
    well = k.well;
    kept = Kept-trans _ _ _ h.kept k.kept;
    sections = k.sections ∙ h.sections;
  }

  send_all-Cycled :
      (es : List Effect) (s : Store) → WellFormed s.tasks → Cycled env s (ok tt, send_all env es s)
  send_all-Cycled es s w =
      send_all-keeps (λ e. e.repr ≡ env.repr) (λ e q. q) (λ t. Cycled env s (ok tt, t))
        (λ t es h. record { well = h.well; kept = h.kept; sections = h.sections }) env es s
        (every-Allowed (λ e. e.repr ≡ env.repr) (λ e q. q) (λ t. Cycled env s (ok tt, t))
          (λ t es h. record { well = h.well; kept = h.kept; sections = h.sections })
          (λ i env' body by kind t q h.
            then_more s (ok tt, t) (ok tt) _ h (comment_task-Cycled env' i body by kind t q h.well))
          es)
        refl (record { well = w; kept = Kept-refl (row_ids env s.tasks); sections = refl })

  after_lock-Cycled :
      (s : Store) (r : Result (Card × List Effect) × Store)
      → Cycled env s r
      → Cycled env s (after_lock env r)
  after_lock-Cycled s (ok (a, es), t) h =
      then_more s (ok (a, es), t) (ok a) _ h (send_all-Cycled es t h.well)
  after_lock-Cycled s (raise e, t) h = record {
    well = h.well;
    kept = h.kept;
    sections = h.sections;
  }

  update_task-Cycled :
      (task_id : String) (fields : Card) (s : Store)
      → WellFormed s.tasks
      → Cycled env s (update_task env task_id fields s)
  unfolding update_task
  update_task-Cycled task_id fields s w = elim (Bool-cases (str_eq task_id "")) [
    | inl e ↦ rw e (raised-Cycled s type_error w)
    | inr e ↦
        rw e (after_lock-Cycled s _ (change_row-Cycled task_id s (resolve_enum_clears fields) w))
  ]

  pub execute-Cycled :
      (cmd : Command) (s : Store) → WellFormed s.tasks → Cycled env s (ok tt, (execute env cmd s).1)
  unfolding execute complete_task delete_task restore_task resolve_task reopen_task reassign_task
      reassign_all comment_task set_edge rescore_task help_wait help_clear
  execute-Cycled (complete task_id by) s w =
      answer-Cycled _ (after_lock-Cycled s _ (transaction-Cycled env _ s w))
  execute-Cycled (delete task_id) s w = answer-Cycled _ (transaction-Cycled env _ s w)
  execute-Cycled (restore task refs) s w = answer-Cycled _ (transaction-Cycled env _ s w)
  execute-Cycled (resolve task_id by) s w =
      answer-Cycled _ (after_lock-Cycled s _ (transaction-Cycled env _ s w))
  execute-Cycled (reopen task_id by) s w = answer-Cycled _ (transaction-Cycled env _ s w)
  execute-Cycled (reassign task_id who by) s w = answer-Cycled _ (transaction-Cycled env _ s w)
  execute-Cycled (reassign_each old who by) s w = answer-Cycled _ (transaction-Cycled env _ s w)
  execute-Cycled (comment_on task_id body by kind) s w =
      answer-Cycled _ (transaction-Cycled env _ s w)
  execute-Cycled (edge action kind source target) s w =
      answer-Cycled _ (transaction-Cycled env _ s w)
  execute-Cycled (collaborator task_id who action) s w =
      answer-Cycled _ (set_collaborator-Cycled task_id who action s w)
  execute-Cycled (subscriber task_id who action) s w =
      answer-Cycled _ (set_subscriber-Cycled task_id who action s w)
  execute-Cycled (insert t) s w = answer-Cycled _ (add_task-Cycled t s w)
  execute-Cycled (update task_id fields) s w =
      answer-Cycled _ (update_task-Cycled task_id fields s w)
  execute-Cycled (rescore task_id urgency importance by) s w =
      answer-Cycled _ (transaction-Cycled env _ s w)
  execute-Cycled (ask_help hostname agent question host) s w =
      answer-Cycled _ (transaction-Cycled env _ s w)
  execute-Cycled (clear_help agent) s w = answer-Cycled _ (transaction-Cycled env _ s w)
