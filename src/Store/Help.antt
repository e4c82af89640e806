-- ===== src/Store/Help.antt =====
-- The card of an agent that waits on the operator (_help_wait.py). The name of the host, where the
-- caller gives none, is a parameter.
use Prim.Native.String.{◌++◌ as append_text}
use scitex_todo.Prelude.{
  String, Bool, true, false, Option, none, some, List, [], ◌∷◌, ◌++◌, str_eq, if◌then◌else◌,
}
use scitex_todo.Py.Dict.{put, pop}
use scitex_todo.Py.Value.{text, is_text}
use scitex_todo.Py.Text.{strip, is_blank}
use scitex_todo.Py.Raise.{Result, ok, raise_if, ◌>>=◌, ◌>>◌, value_error}
use scitex_todo.Card.{Card, get, first, change_first}
use scitex_todo.Env.{Env}
use scitex_todo.Validate.{validate_tasks}
use scitex_todo.Store.State.{Store, Outcome, keep, write, transaction}

-- `help_card_id`
abbrev pub help_card_id : String → String
help_card_id agent = append_text "help-" (append_text agent "-waiting")

-- `(agent or "").strip()`
abbrev agent_name : Option String → String
agent_name none = ""
agent_name (some agent) = strip agent

abbrev note_of : Option String → String
note_of none = "(agent is waiting on the operator; no question text captured)"
note_of (some question) =
    if is_blank question
    then "(agent is waiting on the operator; no question text captured)"
    else question

abbrev host_given : Option String → String → String
host_given none hostname = hostname
host_given (some host) hostname = if str_eq host "" then hostname else host

abbrev title_of : String → String
title_of agent = append_text "[help] " (append_text agent " waiting on operator decision")

-- lines 108-115
unfoldable pub waiting_row : Env → String → String → String → Card → Card
waiting_row env agent host note c =
    let blocked =
      put (put (put c "title" (text (title_of agent))) "status" (text "blocked")) "blocker"
        (text "operator-decision") in
    let owned =
      put (put blocked "assignee" (text agent)) "scope" (text (append_text "agent:" agent)) in
    put (put (put owned "host" (text host)) "note" (text note)) "last_activity" (text (env.now 0))

-- lines 118-130
unfoldable pub new_waiting_row : Env → String → String → String → Card
new_waiting_row env agent host note =
    ("id", text (help_card_id agent))
    ∷ ("title", text (title_of agent))
    ∷ ("status", text "blocked")
    ∷ ("blocker", text "operator-decision")
    ∷ ("assignee", text agent)
    ∷ ("scope", text (append_text "agent:" agent))
    ∷ ("host", text host)
    ∷ ("note", text note)
    ∷ ("created_at", text (env.now 0))
    ∷ ("last_activity", text (env.now 0))
    ∷ []

-- `t.get("id") == card_id`, of a deleted card too
abbrev is_help_card : String → Card → Bool
is_help_card agent t = is_text (get t "id") (help_card_id agent)

abbrev waiting : Env → String → String → String → List Card → Option Card → Outcome Card
waiting env agent host note tasks (some existing) =
    write (change_first (is_help_card agent) (waiting_row env agent host note) tasks)
      λ saved. (waiting_row env agent host note existing, [])
waiting env agent host note tasks none =
    write (tasks ++ new_waiting_row env agent host note ∷ [])
      λ saved. (new_waiting_row env agent host note, [])

-- `help_wait`: the rows that are read pass the validation first.
unfoldable pub help_wait :
    Env → String → Option String → Option String → Option String → Store → Result Card × Store
help_wait env hostname agent question host = transaction env λ stored. (do
  raise_if (str_eq (agent_name agent) "") value_error
  tasks ← validate_tasks env stored
  ok (
      waiting env (agent_name agent) (host_given host hostname) (note_of question) tasks
        (first (is_help_card (agent_name agent)) tasks)))

-- The answer of `help_clear`
pub record HelpCleared : Type 0 where
  pub task_id : String
  pub cleared : Bool
  pub task : Option Card

unfoldable pub cleared_row : Env → Card → Card
cleared_row env target =
    put (pop (put target "status" (text "done")) "blocker") "last_activity" (text (env.now 0))

abbrev clearing : Env → String → List Card → Option Card → Outcome HelpCleared
clearing env agent tasks none =
    keep (record { task_id = help_card_id agent; cleared = false; task = none }) []
clearing env agent tasks (some target) =
    write (change_first (is_help_card agent) (cleared_row env) tasks) λ saved. (
      record { task_id = help_card_id agent; cleared = true; task = some (cleared_row env target) },
      [],
    )

-- `help_clear`
unfoldable pub help_clear : Env → Option String → Store → Result HelpCleared × Store
help_clear env agent = transaction env λ stored. (do
  raise_if (str_eq (agent_name agent) "") value_error
  tasks ← validate_tasks env stored
  ok (clearing env (agent_name agent) tasks (first (is_help_card (agent_name agent)) tasks)))
