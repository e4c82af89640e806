-- ===== src/Deadlines/Recurring.antt =====
-- Deadlines that repeat, at a given `now`.
use scitex_todo.Prelude.{◌≡◌, Bool, true, false, Option, none, some}
use scitex_todo.Py.Value.{Value}
use scitex_todo.Py.Raise.{Result, ok}
use scitex_todo.Card.{Card}
use scitex_todo.Env.{Env, Moment, before, offset_east, offset_west}
use scitex_todo.Deadlines.{Repeater, parse_deadline_or_raise}
use scitex_todo.Deadlines.Overdue.{has_time_component}

-- The same time of the day, and the same offset.
record SameTime (m e : Moment) : Type 0 where
  micros : e.micros ≡ m.micros
  offset : e.offset ≡ m.offset

-- A deadline without a time of the day is read as a naive midnight.
abbrev pub DatesAreMidnights : Env → Type 0
DatesAreMidnights env =
    (v : Value) (m : Moment) (r : Repeater)
    → has_time_component env v ≡ false
    → parse_deadline_or_raise env v ≡ ok (some (m, some r))
    → (m.micros ≡ 0) × (m.offset ≡ none)

-- An aware `now` in UTC, or a naive one.
abbrev pub IsUtc : Moment → Type 0
IsUtc now = (offset_west now.offset ≡ 0) × (offset_east now.offset ≡ 0)

-- The value parses with a repeater, or gives no deadline.
abbrev repeats : Result (Option (Moment × Option Repeater)) → Bool
repeats (ok (some (m, none))) = false
repeats _ = true

abbrev pub is_recurring : Env → Value → Bool
is_recurring env v = repeats (parse_deadline_or_raise env v)

-- A candidate that is not past.
record Ahead (now : Moment) (c : Moment × Bool) : Type 0 where
  reached : before c.0 now ≡ false
  midnight : c.1 ≡ false → (c.0.micros ≡ 0) × (c.0.offset ≡ none)

abbrev AheadIf : Moment → Option (Moment × Bool) → Type 0
AheadIf now none = Unit
AheadIf now (some c) = Ahead now c
