-- ===== src/Deadlines/Overdue.antt =====
-- scitex_cards/_deadlines.py: the next deadline of a card, and whether the card is overdue.
use package.text.Mathlib.Text.{find?}
use scitex_todo.Prelude.{
  String, Bool, true, false, ◌||◌, Option, none, some, List, [], ◌∷◌, ltb, str_eq, any,
  if◌then◌else◌,
}
use scitex_todo.Py.Value.{Value, text, list, elements, truthy}
use scitex_todo.Py.Text.{strip}
use scitex_todo.Py.Raise.{Result, ok, raise, ◌>>=◌, attribute_error, runtime_error}
use scitex_todo.Card.{Card, get}
use scitex_todo.Env.{Env, Moment, Repeat, before}
use scitex_todo.Deadlines.{Repeater, parse_deadline_or_raise}
use scitex_todo.Deadlines.Occurrence.{Calendar, next_occurrence}

-- The two clocks: `datetime.now()`, which is naive, and `datetime.now(tz=utc)`.
pub record Clock : Type 0 where
  pub local : Moment
  pub utc : Moment

abbrev pub or_now : Moment → Option Moment → Moment
or_now clock none = clock
or_now clock (some now) = now

abbrev is_some {ℓ} : {A : Type ℓ} → Option A → Bool
is_some none = false
is_some (some a) = true

abbrev base_of : String → Option Repeat → String
base_of value none = value
base_of value (some m) = m.base

-- `_has_time_component`
unfoldable pub has_time_component : Env → Value → Bool
has_time_component env (text value) =
    let base = strip (base_of value (env.repeater value)) in
    is_some (find? base "T") || is_some (find? base " ")
has_time_component env _ = false

-- The answer of the search; the error stands for a search whose fuel ran out.
abbrev pub ended : Option (Result Moment) → Result Moment
ended none = raise runtime_error
ended (some r) = r

abbrev timed : Bool → Result Moment → Result (Option (Moment × Bool))
timed has_time r = r >>= λ m. ok (some (m, has_time))

-- What the parser's answer makes: an unparseable deadline is passed over.
abbrev pub picked :
    Calendar
    → Moment
    → Bool
    → Result (Option (Moment × Option Repeater))
    → Result (Option (Moment × Bool))
picked cal now has_time (raise e) = ok none
picked cal now has_time (ok none) = ok none
picked cal now has_time (ok (some (m, none))) = ok (some (m, has_time))
picked cal now has_time (ok (some (m, some r))) =
    timed has_time (ended (next_occurrence cal r m now))

-- `_pick_next_dt_typed`
unfoldable pub pick_next_dt_typed :
    Calendar → Env → Clock → Option Moment → Value → Result (Option (Moment × Bool))
pick_next_dt_typed cal env clock now value =
    picked cal (or_now clock.local now) (has_time_component env value)
      (parse_deadline_or_raise env value)

abbrev pub with_candidate : Option (Moment × Bool) → List (Moment × Bool) → List (Moment × Bool)
with_candidate none cs = cs
with_candidate (some c) cs = c ∷ cs

-- `candidates`, in the order of the entries
unfoldable pub candidates :
    Calendar → Env → Clock → Option Moment → List Value → Result (List (Moment × Bool))
candidates cal env clock now [] = ok []
candidates cal env clock now (v ∷ vs) = do
  picked ← pick_next_dt_typed cal env clock now v
  rest ← candidates cal env clock now vs
  ok (with_candidate picked rest)

abbrev entries_or : Value → List Value → List Value
entries_or deadline [] = deadline ∷ []
entries_or deadline (v ∷ vs) = v ∷ vs

-- `deadlines` where it is a list with entries, else `deadline`
abbrev pub entries_of : Value → Value → List Value
entries_of deadline (list vs) = entries_or deadline (elements vs)
entries_of deadline _ = deadline ∷ []

-- `min(candidates, key=...)`: the first of the least.
abbrev pub least : Moment × Bool → List (Moment × Bool) → Moment × Bool
least best [] = best
least best (c ∷ cs) = least (if before c.0 best.0 then c else best) cs

abbrev pub least_of : List (Moment × Bool) → Option (Moment × Bool)
least_of [] = none
least_of (c ∷ cs) = some (least c cs)

-- `_next_deadline_dt_typed`
unfoldable pub next_deadline_dt_typed :
    Calendar → Env → Clock → Option Moment → Card → Result (Option (Moment × Bool))
next_deadline_dt_typed cal env clock now task = do
  found ← candidates cal env clock now (entries_of (get task "deadline") (get task "deadlines"))
  ok (least_of found)

-- `(task.get("status") or "").strip()`
abbrev pub stripped_status : Value → Result String
stripped_status (text s) = ok (strip s)
stripped_status v = if truthy v then raise attribute_error else ok ""

abbrev pub is_past : Moment → Option (Moment × Bool) → Bool
is_past cur none = false
is_past cur (some (m, has_time)) = if has_time then before m cur else ltb m.day cur.day

-- A card whose status is closed has no deadline to pass.
abbrev pub open_deadline :
    Calendar → Env → Clock → Option Moment → Card → String → Result (Option (Moment × Bool))
open_deadline cal env clock now task status =
    if any (λ s. str_eq s status) ("done" ∷ "failed" ∷ "cancelled" ∷ "goal" ∷ [])
    then ok none
    else next_deadline_dt_typed cal env clock now task

-- `is_overdue`, for a `now` that is a `datetime`
unfoldable pub is_overdue : Calendar → Env → Clock → Option Moment → Card → Result Bool
is_overdue cal env clock now task = do
  status ← stripped_status (get task "status")
  next ← open_deadline cal env clock now task status
  ok (is_past (or_now clock.utc now) next)
