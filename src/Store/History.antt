-- ===== src/Store/History.antt =====
-- The store over time: any number of calls of the verbs, one after another as the lock orders them.
pub mod Cycles
pub mod Safe
use scitex_todo.Prelude.{ℕ, ◌≡◌, String, Bool, Option, List, [], ◌∷◌}
use scitex_todo.Py.Value.{Value}
use scitex_todo.Py.Raise.{Exception, Result, ok, raise}
use scitex_todo.Card.{Card}
use scitex_todo.Env.{Env}
use scitex_todo.Store.State.{Store}
use scitex_todo.Store.Complete.{complete_task}
use scitex_todo.Store.Delete.{delete_task, restore_task}
use scitex_todo.Store.Resolve.{resolve_task, reopen_task}
use scitex_todo.Store.Reassign.{reassign_task, reassign_all}
use scitex_todo.Store.Comment.{comment_task}
use scitex_todo.Store.Mutate.{NewTask, add_task, update_task}
use scitex_todo.Store.Rescore.{rescore_task}
use scitex_todo.Store.Help.{help_wait, help_clear}
use scitex_todo.Store.Relations.{Action, EdgeKind, set_edge, set_collaborator, set_subscriber}

-- A call, with its arguments.
pub data Command : Type 0 where
  complete : String → Option String → Command
  delete : String → Command
  restore : Card → List Value → Command
  resolve : String → Option String → Command
  reopen : String → Option String → Command
  reassign : String → String → Option String → Command
  reassign_each : String → String → Option String → Command
  comment_on : String → String → Option String → Option String → Command
  edge : Action → EdgeKind → String → String → Command
  collaborator : String → String → Action → Command
  subscriber : String → String → Action → Command
  insert : NewTask → Command
  update : String → Card → Command
  rescore : String → Value → Value → Option String → Command
  ask_help : String → Option String → Option String → Option String → Command
  clear_help : Option String → Command

-- What a caller of any verb sees: the error, or that there was none.
pub data Answer : Type 0 where
  done : Answer
  failed : Exception → Answer

abbrev pub answer : {A : Type 0} → Result A × Store → Answer × Store
answer (ok a, s) = (done, s)
answer (raise e, s) = (failed e, s)

unfoldable pub execute : Env → Command → Store → Answer × Store
execute env (complete task_id by) s = answer (complete_task env task_id by s)
execute env (delete task_id) s = answer (delete_task env task_id s)
execute env (restore task refs) s = answer (restore_task env task refs s)
execute env (resolve task_id by) s = answer (resolve_task env task_id by s)
execute env (reopen task_id by) s = answer (reopen_task env task_id by s)
execute env (reassign task_id who by) s = answer (reassign_task env task_id who by s)
execute env (reassign_each old who by) s = answer (reassign_all env old who by s)
execute env (comment_on task_id body by kind) s = answer (comment_task env task_id body by kind s)
execute env (edge action kind source target) s = answer (set_edge env action kind source target s)
execute env (collaborator task_id who action) s = answer (set_collaborator env task_id who action s)
execute env (subscriber task_id who action) s = answer (set_subscriber env task_id who action s)
execute env (insert t) s = answer (add_task env t s)
execute env (update task_id fields) s = answer (update_task env task_id fields s)
execute env (rescore task_id urgency importance by) s =
    answer (rescore_task env task_id urgency importance by s)
execute env (ask_help hostname agent question host) s =
    answer (help_wait env hostname agent question host s)
execute env (clear_help agent) s = answer (help_clear env agent s)

-- The caller of a call: its own clock, agent and limit, in the same Python.
pub record Caller : Type 0 where
  pub now : ℕ → String
  pub agent : Option String
  pub old_agent_set : Bool
  pub wip_limit : ℕ

abbrev pub env_of : Env → Caller → Env
env_of env c = record env {
  now = c.now;
  agent = c.agent;
  old_agent_set = c.old_agent_set;
  wip_limit = c.wip_limit;
}

-- The stores that a store becomes, call by call.
pub data Becomes (env : Env) (s : Store) : Store → Type 0 where
  at_rest : Becomes env s s
  call :
      {t : Store} (c : Caller) (cmd : Command)
      → Becomes env s t
      → Becomes env s (execute (env_of env c) cmd t).1
