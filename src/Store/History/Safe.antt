-- ===== src/Store/History/Safe.antt =====
-- Sequences of calls: the rows and their ids.
use scitex_todo.Prelude.{◌≡◌, refl, List, [], ◌∷◌}
use scitex_todo.Py.Value.{Value, text}
use scitex_todo.Card.{Card}
use scitex_todo.Env.{Env, str}
use scitex_todo.Store.State.{Store, row_ids}
use scitex_todo.Store.Atomic.{WellFormed, Kept, Kept-refl, Kept-trans}
use scitex_todo.Store.History.{Command, execute, Caller, env_of, Becomes, at_rest, call}
use scitex_todo.Store.History.Cycles.{execute-Cycled}

str-env_of : (env : Env) (c : Caller) (v : Value) → str (env_of env c) v ≡ str env v
str-env_of env c (text s) = refl
str-env_of env c _ = refl

row_ids-env_of :
    (env : Env) (c : Caller) (cs : List Card) → row_ids (env_of env c) cs ≡ row_ids env cs
unfolding row_ids
row_ids-env_of env c [] = refl
row_ids-env_of env c (d ∷ cs) = rw (str-env_of, row_ids-env_of env c cs) refl

execute-Kept :
    (env : Env) (c : Caller) (cmd : Command) (s : Store)
    → WellFormed s.tasks
    → Kept (row_ids env s.tasks) (row_ids env (execute (env_of env c) cmd s).1.tasks)
execute-Kept env c cmd s w =
    let k = (execute-Cycled (env_of env c) cmd s w).kept in
    rw (row_ids-env_of env c s.tasks, row_ids-env_of env c (execute (env_of env c) cmd s).1.tasks)
      at k

-- Whatever calls are made on a well-formed store, whoever makes them and whether they succeed or
-- raise, the rows still have distinct ids and are sound.
pub Becomes-WellFormed :
    (env : Env) (s t : Store) → WellFormed s.tasks → Becomes env s t → WellFormed t.tasks
Becomes-WellFormed env s t w at_rest = w
Becomes-WellFormed env s t w (call c cmd b) =
    (execute-Cycled (env_of env c) cmd _ (Becomes-WellFormed env s _ w b)).well

-- Whatever calls are made on a well-formed store, every id that was stored still is: no sequence of
-- calls makes a card disappear.
pub Becomes-Kept :
    (env : Env) (s t : Store)
    → WellFormed s.tasks
    → Becomes env s t
    → Kept (row_ids env s.tasks) (row_ids env t.tasks)
Becomes-Kept env s t w at_rest = Kept-refl (row_ids env s.tasks)
Becomes-Kept env s t w (call c cmd b) =
    Kept-trans _ _ _ (Becomes-Kept env s _ w b)
      (execute-Kept env c cmd _ (Becomes-WellFormed env s _ w b))
