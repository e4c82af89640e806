-- ===== src/Deadlines/Occurrence.antt =====
-- scitex_cards/_deadlines.py: the next occurrence of a deadline that repeats. The days of the calendar
-- are numbered; what `datetime` and `calendar` know of months is a parameter.
use scitex_todo.Prelude.{
  ℕ, zero, suc, ◌+◌, ◌-◌, ◌*◌, ◌/◌, ◌%◌, ◌≤◌, ◌<◌, ◌≡◌, min, String, Bool, true, false, Option,
  none, some, leb, str_eq, if◌then◌else◌,
}
use scitex_todo.Py.Raise.{Result, ok, raise, value_error, overflow_error}
use scitex_todo.Env.{Moment, before, day_micros, offset_east, offset_west}
use scitex_todo.Deadlines.{Repeater}

pub record Calendar : Type 0 where
  -- `dt.year`, `dt.month` and `dt.day` of a day
  pub year : ℕ → ℕ
  pub month : ℕ → ℕ
  pub day_of_month : ℕ → ℕ
  -- the day of a year, a month and a day of the month: `none` where `dt.replace` raises
  pub ordinal : ℕ → ℕ → ℕ → Option ℕ
  -- `calendar.monthrange(year, month)[1]`
  pub last_day_of_month : ℕ → ℕ → ℕ

-- Months are numbered from 1 to 12, and a day of a later month is a later day.
pub record IsCalendar (cal : Calendar) : Type 0 where
  pub low : (d : ℕ) → 1 ≤ cal.month d
  pub high : (d : ℕ) → cal.month d ≤ 12
  pub later :
      (d y m k o : ℕ)
      → cal.ordinal y m k ≡ some o
      → cal.year d * 12 + cal.month d < y * 12 + m
      → d < o

-- The ordinal of `date.max`
abbrev pub max_ordinal : ℕ
max_ordinal = 3652059

abbrev pub on_day : Moment → ℕ → Moment
on_day m day = record m { day = day }

-- `dt + timedelta(days=n)`
abbrev pub plus_days : Moment → ℕ → Result Moment
plus_days m n =
    if leb (m.day + n) max_ordinal then ok (on_day m (m.day + n)) else raise overflow_error

-- `dt.replace(year=..., month=..., day=...)`
abbrev pub replaced : Moment → Option ℕ → Result Moment
replaced m none = raise value_error
replaced m (some day) = ok (on_day m day)

abbrev pub replaced_or : Moment → Option ℕ → Option ℕ → Result Moment
replaced_or m none other = replaced m other
replaced_or m (some day) other = ok (on_day m day)

abbrev pub plus_months : Calendar → Moment → ℕ → Result Moment
plus_months cal m n =
    let month_index = cal.month m.day - 1 + n in
    let year = cal.year m.day + month_index / 12 in
    let month = month_index % 12 + 1 in
    let day = min (cal.day_of_month m.day) (cal.last_day_of_month year month) in
    replaced m (cal.ordinal year month day)

-- The 29th of February of a year without one is its 28th.
abbrev pub plus_years : Calendar → Moment → ℕ → Result Moment
plus_years cal m n =
    let year = cal.year m.day + n in
    replaced_or m (cal.ordinal year (cal.month m.day) (cal.day_of_month m.day))
      (cal.ordinal year 2 28)

-- `_add_period`
unfoldable pub add_period : Calendar → Moment → ℕ → String → Result Moment
add_period cal m n unit =
    if str_eq unit "d"
    then plus_days m n
    else if str_eq unit "w"
    then plus_days m (7 * n)
    else if str_eq unit "m"
    then plus_months cal m n
    else if str_eq unit "y"
    then plus_years cal m n
    else raise value_error

-- One test of the loop, and the rest of it from the moment after.
abbrev pub advance :
    Bool → Result Moment → (Moment → Option (Result Moment)) → Moment → Option (Result Moment)
advance false period rest current = some (ok current)
advance true (raise e) rest current = some (raise e)
advance true (ok next) rest current = rest next

-- The `while` loop, on fuel: `none` is a loop that has not ended.
unfoldable pub catch_up : Calendar → ℕ → Repeater → Moment → Moment → Option (Result Moment)
catch_up cal zero r current now = none
catch_up cal (suc fuel) r current now =
    advance (before current now) (add_period cal current r.n r.unit)
      (λ next. catch_up cal fuel r next now) current

-- More steps than there are days until `now`.
abbrev pub enough : Moment → Moment → ℕ
enough base now =
    suc (now.day * day_micros + now.micros + offset_west now.offset + offset_east base.offset)

-- `Repeater.next_occurrence`. Its first test is the loop's.
unfoldable pub next_occurrence : Calendar → Repeater → Moment → Moment → Option (Result Moment)
next_occurrence cal r base now = catch_up cal (enough base now) r base now
