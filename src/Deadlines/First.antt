-- ===== src/Deadlines/First.antt =====
-- Which occurrence of a deadline the search finds.
use scitex_todo.Prelude.{
  ℕ, zero, suc, ◌<◌, ◌≡◌, refl, subst, Bool, true, false, ◌⊎◌, inl, inr, Option, some, arith,
}
use scitex_todo.Py.Raise.{Result, ok, ok_inj, raise, ◌>>=◌}
use scitex_todo.Env.{Moment, before}
use scitex_todo.Deadlines.{Repeater}
use scitex_todo.Deadlines.Occurrence.{
  Calendar, add_period, advance, catch_up, enough, next_occurrence,
}

-- The occurrence after a number of periods.
unfoldable pub occurrence : Calendar → Repeater → ℕ → Moment → Result Moment
occurrence cal r zero m = ok m
occurrence cal r (suc k) m = add_period cal m r.n r.unit >>= λ next. occurrence cal r k next

-- An occurrence that is not before `now`, after ones that are.
record IsFirst (cal : Calendar) (r : Repeater) (now : Moment) (k : ℕ) (m e : Moment) : Type 0 where
  found : occurrence cal r k m ≡ ok e
  reached : before e now ≡ false
  earlier : (j : ℕ) (x : Moment) → j < k → occurrence cal r j m ≡ ok x → before x now ≡ true

advance-eq-ok :
    (b : Bool) (p : Result Moment) (rest : Moment → Option (Result Moment)) (m e : Moment)
    → advance b p rest m ≡ some (ok e)
    → ((b ≡ false) × (m ≡ e))
      ⊎ ((b ≡ true) × ((next : Moment) × (p ≡ ok next) × (rest next ≡ some (ok e))))
advance-eq-ok false p rest m e h = inl (refl, inj h)
  where
    inj : some (ok m) ≡ some (ok e) → m ≡ e
    inj h = cc
advance-eq-ok true (raise x) rest m e h = cc
advance-eq-ok true (ok next) rest m e h = inr (refl, (next, refl, h))

IsFirst-now :
    (cal : Calendar) (r : Repeater) (now m : Moment)
    → before m now ≡ false
    → IsFirst cal r now 0 m m
unfolding occurrence
IsFirst-now cal r now m b = record {
  found = refl;
  reached = b;
  earlier = λ j x l h. (absurd (omega (arith, l)));
}

IsFirst-later :
    (cal : Calendar) (r : Repeater) (now : Moment) (k : ℕ) (m next e : Moment)
    → before m now ≡ true
    → add_period cal m r.n r.unit ≡ ok next
    → IsFirst cal r now k next e
    → IsFirst cal r now (suc k) m e
unfolding occurrence
IsFirst-later cal r now k m next e b p f = record {
  found = rw (p) f.found;
  reached = f.reached;
  earlier = earlier;
}
  where
    earlier : (j : ℕ) (x : Moment) → j < suc k → occurrence cal r j m ≡ ok x → before x now ≡ true
    earlier zero x l h = subst (λ y. before y now ≡ true) (ok_inj h) b
    earlier (suc j) x l h = f.earlier j x (omega (arith, l)) (rw (p) at h)

catch_up-IsFirst :
    (cal : Calendar) (fuel : ℕ) (r : Repeater) (m now e : Moment)
    → catch_up cal fuel r m now ≡ some (ok e)
    → (k : ℕ) × IsFirst cal r now k m e
unfolding catch_up
catch_up-IsFirst cal zero r m now e h = cc
catch_up-IsFirst cal (suc fuel) r m now e h =
    elim (advance-eq-ok (before m now) (add_period cal m r.n r.unit) _ m e h) [
      | inl (b, same) ↦ (0, subst (IsFirst cal r now 0 m) same (IsFirst-now cal r now m b))
      | inr (b, (next, p, rest)) ↦
          let (k, f) = catch_up-IsFirst cal fuel r next now e rest in
          (suc k, IsFirst-later cal r now k m next e b p f)
    ]

-- A moment that the search answers is an occurrence of the deadline that is not before `now`, and
-- every occurrence ahead of it in the sequence is before `now`.
pub next_occurrence-occurrence :
    (cal : Calendar) (r : Repeater) (base now e : Moment)
    → next_occurrence cal r base now ≡ some (ok e)
    → (k : ℕ) × (occurrence cal r k base ≡ ok e)
      × (before e now ≡ false)
      × ((j : ℕ) (x : Moment) → j < k → occurrence cal r j base ≡ ok x → before x now ≡ true)
unfolding next_occurrence
next_occurrence-occurrence cal r base now e h =
    let (k, f) = catch_up-IsFirst cal (enough base now) r base now e h in
    (k, f.found, f.reached, f.earlier)
