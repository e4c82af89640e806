-- ===== src/Deadlines/Ends.antt =====
-- Proofs about the end of the search for the next occurrence.
use scitex_todo.Prelude.{
  ℕ, zero, suc, ◌+◌, ◌*◌, ◌≤◌, ◌<◌, ◌≡◌, refl, ap, subst, String, Bool, true, false, inl, inr,
  Bool-cases, Option, none, some, arith, leb, str_eq, ◌==◌,
}
use scitex_todo.Py.Value.{Value, text}
use scitex_todo.Py.Text.{is_blank, rstrip}
use scitex_todo.Py.Raise.{
  Result, ok, raise, ok_inj, value_error, overflow_error, task_validation_error,
}
use scitex_todo.Env.{Env, Moment, Repeat, before, day_micros, offset_east, offset_west}
use scitex_todo.Deadlines.{Repeater, parsed, parse_text, parse_deadline_or_raise}
use scitex_todo.Deadlines.Occurrence.{
  Calendar, IsCalendar, on_day, max_ordinal, plus_days, replaced, replaced_or, plus_months,
  plus_years, add_period, advance, catch_up, next_occurrence,
}

-- A later day, at the same time of the day.
pub record Later (m e : Moment) : Type 0 where
  pub day : m.day < e.day
  pub micros : e.micros ≡ m.micros
  pub offset : e.offset ≡ m.offset

on_day-Later : (m : Moment) (d : ℕ) {e : Moment} → m.day < d → ok (on_day m d) ≡ ok e → Later m e
on_day-Later m d l h = subst (Later m) (ok_inj h) (record { day = l; micros = refl; offset = refl })

plus_days-Later : (m : Moment) (n : ℕ) {e : Moment} → 1 ≤ n → plus_days m n ≡ ok e → Later m e
plus_days-Later m n {e} l h = elim (Bool-cases (leb (m.day + n) max_ordinal)) [
  | inl b ↦ on_day-Later m (m.day + n) (omega (arith, l)) (rw (b) at h)
  | inr b ↦ absurd (raised (rw (b) at h))
]
  where
    raised : ¬ (raise overflow_error ≡ ok e)
    raised h = cc

replaced-Later :
    (m : Moment) (o : Option ℕ) {e : Moment}
    → ((d : ℕ) → o ≡ some d → m.day < d)
    → replaced m o ≡ ok e
    → Later m e
replaced-Later m none l h = cc
replaced-Later m (some d) l h = on_day-Later m d (l d refl) h

replaced_or-Later :
    (m : Moment) (o p : Option ℕ) {e : Moment}
    → ((d : ℕ) → o ≡ some d → m.day < d)
    → ((d : ℕ) → p ≡ some d → m.day < d)
    → replaced_or m o p ≡ ok e
    → Later m e
replaced_or-Later m none p l k h = replaced-Later m p k h
replaced_or-Later m (some d) p l k h = on_day-Later m d (l d refl) h

module _ (cal : Calendar) (c : IsCalendar cal) where
  plus_months-Later :
      (m : Moment) (n : ℕ) {e : Moment} → 1 ≤ n → plus_months cal m n ≡ ok e → Later m e
  plus_months-Later m n l h =
      replaced-Later m _
        (λ d q. c.later m.day _ _ _ d q (omega (arith, l, c.low m.day, c.high m.day))) h

  plus_years-Later :
      (m : Moment) (n : ℕ) {e : Moment} → 1 ≤ n → plus_years cal m n ≡ ok e → Later m e
  plus_years-Later m n l h =
      replaced_or-Later m _ _
        (λ d q. c.later m.day _ _ _ d q (omega (arith, l, c.low m.day, c.high m.day)))
        (λ d q. c.later m.day _ _ _ d q (omega (arith, l, c.low m.day, c.high m.day))) h

  pub add_period-Later :
      (m : Moment) (n : ℕ) (unit : String) {e : Moment}
      → 1 ≤ n
      → add_period cal m n unit ≡ ok e
      → Later m e
  unfolding add_period
  add_period-Later m n unit {e} l h = elim (Bool-cases (str_eq unit "d")) [
    | inl a ↦ plus_days-Later m n l (rw (a) at h)
    | inr a ↦ elim (Bool-cases (str_eq unit "w")) [
      | inl b ↦ plus_days-Later m (7 * n) (omega (arith, l)) (rw (a, b) at h)
      | inr b ↦ elim (Bool-cases (str_eq unit "m")) [
        | inl d ↦ plus_months-Later m n l (rw (a, b, d) at h)
        | inr d ↦ elim (Bool-cases (str_eq unit "y")) [
          | inl y ↦ plus_years-Later m n l (rw (a, b, d, y) at h)
          | inr y ↦ absurd (raised (rw (a, b, d, y) at h))
        ]
      ]
    ]
  ]
    where
      raised : ¬ (raise value_error ≡ ok e)
      raised h = cc

-- The days that may be before `now`, for a moment of the same offset.
abbrev limit : Moment → Moment → ℕ
limit m now = now.day * day_micros + now.micros + offset_west now.offset + offset_east m.offset

before-limit : (m now : Moment) → before m now ≡ true → m.day < limit m now
before-limit m now h = ground arith

Later-limit : (m e now : Moment) → Later m e → limit e now ≡ limit m now
Later-limit m e now l =
    ap (λ o. now.day * day_micros + now.micros + offset_west now.offset + offset_east o) l.offset

-- The loop has ended.
abbrev pub Ends : Option (Result Moment) → Type 0
Ends o = (r : Result Moment) × (o ≡ some r)

advance-Ends :
    (b : Bool) (p : Result Moment) (rest : Moment → Option (Result Moment)) (m : Moment)
    → ((next : Moment) → b ≡ true → p ≡ ok next → Ends (rest next))
    → Ends (advance b p rest m)
advance-Ends false p rest m h = (ok m, refl)
advance-Ends true (raise e) rest m h = (raise e, refl)
advance-Ends true (ok next) rest m h = h next refl refl

catch_up-Ends :
    (cal : Calendar) (c : IsCalendar cal) (fuel : ℕ) (r : Repeater) (m now : Moment)
    → 1 ≤ r.n
    → limit m now ≤ fuel + m.day
    → Ends (catch_up cal (suc fuel) r m now)
unfolding catch_up
catch_up-Ends cal c zero r m now n l =
    advance-Ends (before m now) (add_period cal m r.n r.unit) _ m
      (λ next q a. (absurd (omega (arith, l, before-limit m now q))))
catch_up-Ends cal c (suc fuel) r m now n l =
    advance-Ends (before m now) (add_period cal m r.n r.unit) _ m (λ next q a.
      (let after = add_period-Later cal c m r.n r.unit n a in
        let same : limit next now ≡ limit m now = Later-limit m next now after in
        catch_up-Ends cal c fuel r next now n (omega (arith, l, same, after.day))))

parsed-repeater :
    (o : Option Repeater) (m : Option Moment) (base : Moment) (r : Repeater)
    → parsed o m ≡ ok (some (base, some r))
    → o ≡ some r
parsed-repeater o none base r h = cc
parsed-repeater o (some m) base r h = ap second h
  where
    second : Result (Option (Moment × Option Repeater)) → Option Repeater
    second (ok (some (a, b))) = b
    second _ = o

abbrev Parsed : Type 0
Parsed = Result (Option (Moment × Option Repeater))

not_parsed :
    (base : Moment) (r : Repeater)
    → ¬ (◌≡◌ {A = Parsed} (raise task_validation_error) (ok (some (base, some r))))
not_parsed base r h = cc

-- A repeater that the parser returns has a positive count.
parse_text_bounds :
    (env : Env) (value : String) (o : Option Repeat) (base : Moment) (r : Repeater)
    → parse_text env value o ≡ ok (some (base, some r))
    → 1 ≤ r.n
parse_text_bounds env value none base r h =
    absurd (none_some (parsed-repeater none (env.iso value) base r h))
  where
    none_some : ¬ (none ≡ some r)
    none_some h = cc
parse_text_bounds env value (some m) base r h = elim (Bool-cases (m.count == 0)) [
  | inl e ↦ absurd (not_parsed base r (rw (e) at h))
  | inr e ↦
      let q = parsed-repeater _ (env.iso (rstrip m.base)) base r (rw (e) at h) in
      let same : m.count ≡ r.n = ap count_of q in ground (arith, e, same)
]
  where
    count_of : Option Repeater → ℕ
    count_of none = 0
    count_of (some x) = x.n

pub repeater_bounds :
    (env : Env) (v : Value) (base : Moment) (r : Repeater)
    → parse_deadline_or_raise env v ≡ ok (some (base, some r))
    → 1 ≤ r.n
unfolding parse_deadline_or_raise
repeater_bounds env (text value) base r h = elim (Bool-cases (is_blank value)) [
  | inl e ↦ absurd (not_parsed base r (rw (e) at h))
  | inr e ↦ parse_text_bounds env value (env.repeater value) base r (rw (e) at h)
]
repeater_bounds env _ base r h = cc

-- For a deadline whose repeater the parser accepts, in a calendar whose later months have later days,
-- the search for the next occurrence ends: it finds one or raises, for any `now`.
pub next_occurrence-Ends :
    (cal : Calendar) (env : Env) (v : Value) (base now : Moment) (r : Repeater)
    → IsCalendar cal
    → parse_deadline_or_raise env v ≡ ok (some (base, some r))
    → Ends (next_occurrence cal r base now)
unfolding next_occurrence
next_occurrence-Ends cal env v base now r c h =
    catch_up-Ends cal c (limit base now) r base now (repeater_bounds env v base r h) (omega arith)
