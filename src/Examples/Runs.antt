-- ===== src/Examples/Runs.antt =====
-- Tests of sequences of calls.
use scitex_todo.Prelude.{false, none, some}
use scitex_todo.Store.State.{Store, row_ids}
use scitex_todo.Store.Atomic.{WellFormed, Kept}
use scitex_todo.Store.History.{complete, delete, execute, Caller, env_of, Becomes, at_rest, call}
use scitex_todo.Store.History.Safe.{Becomes-WellFormed, Becomes-Kept}
use scitex_todo.Examples.{rows, small, python, rows-WellFormed, clock}

abbrev worker : Caller
worker = record { now = λ n. clock; agent = some "worker"; old_agent_set = false; wip_limit = 20 }

abbrev after_two : Store
after_two =
    (execute (env_of python worker) (delete "b")
      (execute (env_of python worker) (complete "b" none) small).1).1

history : Becomes python small after_two
history = call worker (delete "b") (call worker (complete "b" none) at_rest)

Becomes-WellFormed_example : WellFormed after_two.tasks
Becomes-WellFormed_example = Becomes-WellFormed python small after_two rows-WellFormed history

Becomes-Kept_example : Kept (row_ids python rows) (row_ids python after_two.tasks)
Becomes-Kept_example = Becomes-Kept python small after_two rows-WellFormed history
