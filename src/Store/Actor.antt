-- ===== src/Store/Actor.antt =====
-- Who acts (_store.py), and the text of a f-string's `{x or "..."}`.
use scitex_todo.Prelude.{String, Option, none, some, str_eq, if◌then◌else◌, ◌||◌}
use scitex_todo.Py.Text.{strip}
use scitex_todo.Py.Raise.{Result, ok, raise_if, ◌>>◌, runtime_error, task_validation_error}
use scitex_todo.Env.{Env}

abbrev or_empty : Option String → String
or_empty none = ""
or_empty (some s) = s

-- `arg or os.environ.get(ENV_AGENT) or ""`
abbrev pub named_actor : Env → Option String → String
named_actor env none = or_empty env.agent
named_actor env (some s) = if str_eq s "" then or_empty env.agent else s

-- `_resolve_creator_or_raise`, which is `_default_agent` too
unfoldable pub resolve_creator_or_raise : Env → Option String → Result String
resolve_creator_or_raise env arg = do
  raise_if env.old_agent_set runtime_error
  let resolved = strip (named_actor env arg)
  raise_if (str_eq resolved "" || str_eq resolved "unknown") task_validation_error
  ok resolved

abbrev pub default_agent : Env → Option String → Result String
default_agent = resolve_creator_or_raise
