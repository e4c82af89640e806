-- ===== src/Listing.antt =====
-- Listing and counting cards (_store_list.py). The store is the list of its cards.
pub mod Totals
use package.text.Mathlib.Text.{starts_with}
use scitex_todo.Prelude.{
  ℕ, ◌+◌, String, Bool, true, false, not, ◌&&◌, ◌||◌, Option, none, some, List, [], ◌∷◌, ◌++◌, any,
  filter, str_eq, if◌then◌else◌,
}
use scitex_todo.Py.Dict.{Dict, lookup, put, has}
use scitex_todo.Py.Value.{Value, null, bool, int, list, dict, text, truthy, py_eq, is_text}
use scitex_todo.Py.Raise.{Result, ok, raise, raise_if, ◌>>=◌, ◌>>◌, type_error}
use scitex_todo.Card.{Card, get, is_tombstoned}
use scitex_todo.Env.{Env, str}
use scitex_todo.Validate.{valid_statuses, hashable}

-- The arguments of `_match`; `none` is `None`.
pub record Filters : Type 0 where
  pub scope : Option String
  pub assignee : Option String
  pub status : Option String
  pub statuses : List String
  pub agent : Option String
  pub project : Option String
  pub host : Option String
  pub repo : Option String
  pub blocker : Option String
  pub kind : Option String
  pub id_prefix : Option String
  pub blocking_me : Bool
  pub overdue : Bool

-- `arg is None or task.get(key) == arg`
abbrev pub field_matches : Card → String → Option String → Bool
field_matches task key none = true
field_matches task key (some arg) = py_eq (get task key) (text arg)

-- `if blocker == "__none": if task.get("blocker"): return False`
abbrev blocker_matches : Card → Option String → Bool
blocker_matches task none = true
blocker_matches task (some arg) =
    if str_eq arg "__none"
    then not (truthy (get task "blocker"))
    else py_eq (get task "blocker") (text arg)

abbrev kind_or_task : Value → Value
kind_or_task v = if truthy v then v else text "task"

abbrev kind_matches : Card → Option String → Bool
kind_matches task none = true
kind_matches task (some arg) = py_eq (kind_or_task (get task "kind")) (text arg)

abbrev id_or_empty : Env → Option Value → String
id_or_empty env none = ""
id_or_empty env (some v) = str env v

abbrev prefix_matches : Env → Card → Option String → Bool
prefix_matches env task none = true
prefix_matches env task (some prefix) =
    str_eq prefix "" || starts_with (id_or_empty env (lookup task "id")) prefix

-- The tests of `_match` before that of the status.
unfoldable pub matches_fields : Env → Filters → Card → Bool
matches_fields env f task =
    not (is_tombstoned task)
    && field_matches task "scope" f.scope
    && field_matches task "assignee" f.assignee
    && field_matches task "agent" f.agent
    && field_matches task "project" f.project
    && field_matches task "host" f.host
    && field_matches task "repo" f.repo
    && blocker_matches task f.blocker
    && kind_matches task f.kind
    && prefix_matches env task f.id_prefix

abbrev allowed : Filters → List String
allowed f = elim f.status [ none ↦ f.statuses | some s ↦ s ∷ f.statuses ]

-- `v in keys` of a set: what cannot be hashed raises.
abbrev among : Value → List String → Result Bool
among v keys = if hashable v then ok (any (λ s. py_eq v (text s)) keys) else raise type_error

abbrev matches_status : Value → List String → Result Bool
matches_status v [] = ok true
matches_status v (s ∷ ss) = among v (s ∷ ss)

abbrev blocks_me : Card → Bool
blocks_me task =
    is_text (get task "status") "blocked" && is_text (get task "blocker") "operator-decision"

-- `_match`; whether a card is overdue is asked of the last argument.
unfoldable pub match_task : Env → (Card → Result Bool) → Filters → Card → Result Bool
match_task env overdue f task =
    if not (matches_fields env f task)
    then ok false
    else (matches_status (get task "status") (allowed f) >>= λ found.
        if not found || (f.blocking_me && not (blocks_me task))
        then ok false
        else if f.overdue
        then overdue task
        else ok true)

-- `_default_scope`, with the value of `$SCITEX_TODO_SCOPE`
unfoldable pub default_scope : Option String → Option String → Option String
default_scope (some arg) variable = if str_eq arg "" then none else some arg
default_scope none none = none
default_scope none (some value) = if str_eq value "" then none else some value

unfoldable pub filter_tasks : Env → (Card → Result Bool) → Filters → List Card → Result (List Card)
filter_tasks env overdue f [] = ok []
filter_tasks env overdue f (t ∷ ts) = do
  found ← match_task env overdue f t
  rest ← filter_tasks env overdue f ts
  ok (if found then t ∷ rest else rest)

-- `list_tasks`, with the value of `$SCITEX_TODO_SCOPE`
unfoldable pub list_tasks :
    Env → Option String → (Card → Result Bool) → Filters → List Card → Result (List Card)
list_tasks env variable overdue f tasks =
    filter_tasks env overdue (record f { scope = default_scope f.scope variable }) tasks

-- Counts by a value, as a dict in the order of the first appearance.
abbrev pub Tally : Type 0
Tally = List (Value × ℕ)

abbrev pub bump : Value → Tally → Tally
bump v [] = (v, 1) ∷ []
bump v ((w, n) ∷ tally) = if py_eq v w then (w, 1 + n) ∷ tally else (w, n) ∷ bump v tally

-- `by_status[st] += 1` where the key is there
abbrev pub bump_known : Value → Tally → Tally
bump_known v [] = []
bump_known v ((w, n) ∷ tally) =
    if py_eq v w then (w, 1 + n) ∷ tally else (w, n) ∷ bump_known v tally

pub record Summary : Type 0 where
  pub total : ℕ
  pub by_status : Tally
  pub by_scope : Tally
  pub by_assignee : Tally

abbrev pub or_blank : Value → Value
or_blank v = if truthy v then v else text ""

-- The counts with one card more.
abbrev pub with_card : Summary → Card → Summary
with_card s task = record {
  total = 1 + s.total;
  by_status = bump_known (get task "status") s.by_status;
  by_scope = bump (or_blank (get task "scope")) s.by_scope;
  by_assignee = bump (or_blank (get task "assignee")) s.by_assignee;
}

abbrev pub counting : Summary → Card → Result Summary
counting s task = do
  raise_if (not (hashable (get task "status"))) type_error
  raise_if (not (hashable (or_blank (get task "scope")))) type_error
  raise_if (not (hashable (or_blank (get task "assignee")))) type_error
  ok (with_card s task)

unfoldable pub summarize_from : Env → Filters → Summary → List Card → Result Summary
summarize_from env f s [] = ok s
summarize_from env f s (t ∷ ts) = do
  found ← match_task env (λ c. ok false) f t
  next ← if found then counting s t else ok s
  summarize_from env f next ts

abbrev zeros : List String → Tally
zeros [] = []
zeros (s ∷ ss) = (text s, 0) ∷ zeros ss

abbrev pub no_summary : Summary
no_summary = record { total = 0; by_status = zeros valid_statuses; by_scope = []; by_assignee = [] }

-- The filters of `summarize_tasks`: the scope and the assignee.
abbrev pub scoped : Option String → Option String → Filters
scoped scope assignee = record {
  scope = scope;
  assignee = assignee;
  status = none;
  statuses = [];
  agent = none;
  project = none;
  host = none;
  repo = none;
  blocker = none;
  kind = none;
  id_prefix = none;
  blocking_me = false;
  overdue = false;
}

-- `summarize_tasks`
unfoldable pub summarize_tasks :
    Env → Option String → Option String → Option String → List Card → Result Summary
summarize_tasks env variable scope assignee tasks =
    summarize_from env (scoped (default_scope scope variable) assignee) no_summary tasks
