-- ===== src/Env.antt =====
-- What the store's code takes from outside: the clock, the environment variables, and the parts of
-- Python's library that it calls on text. All of it is a parameter of the verbs.
use scitex_todo.Prelude.{ℕ, ◌+◌, ◌*◌, String, Bool, true, false, Option, none, some, ltb}
use scitex_todo.Py.Value.{ℤ, pos_part, neg_part, Value, text}

-- A `datetime`: a day of the calendar by its ordinal, the microsecond of the day, and the offset
-- from UTC in microseconds; `none` is a naive value.
pub record Moment : Type 0 where
  pub day : ℕ
  pub micros : ℕ
  pub offset : Option ℤ

abbrev pub day_micros : ℕ
day_micros = 86_400_000_000

abbrev pub is_naive : Moment → Bool
is_naive m = elim m.offset [ none ↦ true | some _ ↦ false ]

abbrev pub offset_east : Option ℤ → ℕ
offset_east none = 0
offset_east (some z) = pos_part z

abbrev pub offset_west : Option ℤ → ℕ
offset_west none = 0
offset_west (some z) = neg_part z

-- `a < b` of aware datetimes, and of naive ones read as UTC (`_as_aware_utc`): the instants, with
-- the offsets brought to the other side.
abbrev pub before : Moment → Moment → Bool
before a b =
    ltb (a.day * day_micros + a.micros + offset_west a.offset + offset_east b.offset)
      (b.day * day_micros + b.micros + offset_west b.offset + offset_east a.offset)

-- A match of `\s+(\+\+?)(\d+)([dwmy])$`: the text before it, the number and whether the sign is `++`.
pub record Repeat : Type 0 where
  pub base : String
  pub count : ℕ
  pub unit : String
  pub catchup : Bool

pub record Env : Type 0 where
  -- the answers of `_utc_now_iso()`, one for each call of the verb
  pub now : ℕ → String
  -- `os.environ.get("SCITEX_TODO_AGENT_ID")`
  pub agent : Option String
  -- `os.environ.get("SCITEX_TODO_AGENT") is not None`
  pub old_agent_set : Bool
  -- `int(os.environ.get("SCITEX_TODO_WIP_LIMIT", 20))`
  pub wip_limit : ℕ
  -- `str(v)` of a value that is no string
  pub repr : Value → String
  -- `int(s)` of a string: `none` where it raises
  pub int_of : String → Option ℤ
  -- `datetime.fromisoformat(s)`, else midnight of `date.fromisoformat(s)`: `none` where both raise
  pub iso : String → Option Moment
  -- `re.search` with the repeater's pattern
  pub repeater : String → Option Repeat

-- `str(v)`
abbrev pub str : Env → Value → String
str env (text s) = s
str env v = env.repr v
