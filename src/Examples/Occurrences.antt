-- ===== src/Examples/Occurrences.antt =====
-- Tests of repeated deadlines, in a calendar whose months all have 31 days.
use scitex_todo.Prelude.{
  ℕ, ◌+◌, ◌*◌, ◌/◌, ◌%◌, ◌<◌, ◌≡◌, refl, none, some, true, false, arith, [], ◌∷◌,
}
use scitex_todo.Py.Value.{text}
use scitex_todo.Py.Dict.{lookup}
use scitex_todo.Card.{Card, get}
use scitex_todo.Py.Text.{strip, lstrip, rstrip}
use scitex_todo.Py.Raise.{ok}
use scitex_todo.Env.{Env, Moment, before}
use scitex_todo.Deadlines.{Repeater, parse_deadline_or_raise}
use scitex_todo.Deadlines.Occurrence.{Calendar, IsCalendar, add_period, catch_up, next_occurrence}
use scitex_todo.Deadlines.Ends.{Ends, next_occurrence-Ends}
use scitex_todo.Deadlines.First.{occurrence, next_occurrence-occurrence}
use scitex_todo.Deadlines.Overdue.{
  Clock, has_time_component, pick_next_dt_typed, candidates, next_deadline_dt_typed, is_overdue,
}
use scitex_todo.Examples.{python}

abbrev even_months : Calendar
even_months = record {
  year = λ d. d / 372;
  month = λ d. d % 372 / 31 + 1;
  day_of_month = λ d. d % 31 + 1;
  ordinal = λ y m k. some (372 * y + 31 * m + k);
  last_day_of_month = λ y m. 31;
}

abbrev week : Repeater
week = record { n = 1; unit = "w"; catchup = false }

abbrev at_day : ℕ → Moment
at_day day = record { day = day; micros = 0; offset = none }

some_inj : (a b : ℕ) → some a ≡ some b → a ≡ b
some_inj a b h = cc

even_months-IsCalendar : IsCalendar even_months
even_months-IsCalendar = record {
  low = λ d. omega arith;
  high = λ d. omega arith;
  later = λ d y m k o e l. omega (arith, l, some_inj (372 * y + 31 * m + k) o e);
}

abbrev with_deadlines : Env
with_deadlines = record python {
  iso = λ s. some (at_day 10);
  repeater = λ s. some (record { base = "2026-07-01"; count = 1; unit = "w"; catchup = false });
}

parses :
    parse_deadline_or_raise with_deadlines (text "2026-07-01 +1w")
    ≡ ok (some (at_day 10, some week))
unfolding parse_deadline_or_raise strip rstrip
parses = refl

next_occurrence-Ends_example : Ends (next_occurrence even_months week (at_day 10) (at_day 20))
next_occurrence-Ends_example =
    next_occurrence-Ends even_months with_deadlines (text "2026-07-01 +1w") (at_day 10) (at_day 20)
      week even_months-IsCalendar parses

finds : next_occurrence even_months week (at_day 10) (at_day 20) ≡ some (ok (at_day 24))
unfolding next_occurrence catch_up add_period
finds = refl

next_occurrence-occurrence_example :
    (k : ℕ) × (occurrence even_months week k (at_day 10) ≡ ok (at_day 24))
    × (before (at_day 24) (at_day 20) ≡ false)
    × ((j : ℕ) (x : Moment)
        → j < k
        → occurrence even_months week j (at_day 10) ≡ ok x
        → before x (at_day 20) ≡ true)
next_occurrence-occurrence_example =
    next_occurrence-occurrence even_months week (at_day 10) (at_day 20) (at_day 24) finds

abbrev weekly : Card
weekly = ("status", text "deferred") ∷ ("deadline", text "2026-07-01 +1w") ∷ []

abbrev at_clock : Clock
at_clock = record { local = at_day 20; utc = at_day 20 }

-- Without a `now`, on a host whose clock is a day behind UTC, the same card is overdue: the search
-- takes the local clock and the test the one in UTC.
abbrev behind : Clock
behind = record { local = at_day 24; utc = at_day 25 }

late_in_the_west : is_overdue even_months with_deadlines behind none weekly ≡ ok true
unfolding is_overdue next_deadline_dt_typed candidates pick_next_dt_typed has_time_component
    parse_deadline_or_raise next_occurrence catch_up add_period strip lstrip rstrip get lookup
late_in_the_west = refl
