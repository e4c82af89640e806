-- ===== src/Deadlines.antt =====
-- scitex_cards/_deadlines.py: deadlines with an optional org-mode repeater.
pub mod Occurrence
pub mod Ends
pub mod First
pub mod Overdue
pub mod Recurring
use scitex_todo.Prelude.{ℕ, String, Bool, Option, none, some, ◌==◌, if◌then◌else◌}
use scitex_todo.Py.Value.{Value, null, text}
use scitex_todo.Py.Text.{is_blank, rstrip}
use scitex_todo.Py.Raise.{Result, ok, raise, task_validation_error}
use scitex_todo.Env.{Env, Moment, Repeat}

-- `Repeater`
pub record Repeater : Type 0 where
  pub n : ℕ
  pub unit : String
  pub catchup : Bool

-- The `datetime.fromisoformat` / `date.fromisoformat` attempts on the text before the repeater.
abbrev pub parsed : Option Repeater → Option Moment → Result (Option (Moment × Option Repeater))
parsed r none = raise task_validation_error
parsed r (some m) = ok (some (m, r))

abbrev pub parse_text : Env → String → Option Repeat → Result (Option (Moment × Option Repeater))
parse_text env value none = parsed none (env.iso value)
parse_text env value (some m) =
    if m.count == 0
    then raise task_validation_error
    else parsed (some (record { n = m.count; unit = m.unit; catchup = m.catchup }))
        (env.iso (rstrip m.base))

-- `_parse_deadline_or_raise`; `(None, None)` is `none`.
unfoldable pub parse_deadline_or_raise : Env → Value → Result (Option (Moment × Option Repeater))
parse_deadline_or_raise env null = ok none
parse_deadline_or_raise env (text value) =
    if is_blank value
    then raise task_validation_error
    else parse_text env value (env.repeater value)
parse_deadline_or_raise env _ = raise task_validation_error
