-- ===== src/Validate/Sound.antt =====
-- Lists of cards that passed `_validate_tasks`: their ids, and each card.
use scitex_todo.Prelude.{
  ◌≡◌, refl, ap, subst, Bool, true, false, not, ◌&&◌, ◌⊎◌, inl, inr, List, [], ◌∷◌, map, arith, All,
  if◌then◌else◌, str_eq, eq_iff, String,
}
use scitex_todo.Py.Value.{
  Value, null, text, int, ℤ, truthy, is_text, py_eq, contains, bool, list, dict,
}
use scitex_todo.Py.Raise.{ok, >>=-eq-ok, >>-eq-ok, ok_inj}
use scitex_todo.Card.{Card, get, get-pop}
use scitex_todo.Env.{Env}
use scitex_todo.Validate.{
  valid_blockers, one_of, check_id, check_fields, without_sentinel, validate_from, validate_tasks,
}
use scitex_todo.Validate.Fields.{check_priority, check_blocker}
use scitex_todo.Validate.Passed.{IdPassed, Passed, check_id-IdPassed, check_fields-Passed}

-- The sentinel `blocker: none` on a card that is not blocked.
abbrev pub is_sentinel : Card → Bool
is_sentinel c = not (is_text (get c "status") "blocked") && is_text (get c "blocker") "none"

pub get-without_sentinel :
    (c : Card) (k : String)
    → get (without_sentinel c) k ≡ (if str_eq "blocker" k && is_sentinel c then null else get c k)
unfolding without_sentinel
get-without_sentinel c k = ground (arith, get-pop c "blocker" k)

-- No two cards have one id.
abbrev pub Distinct : List Card → Type 0
Distinct [] = Unit
Distinct (c ∷ cs) = All (λ d. py_eq (get d "id") (get c "id") ≡ false) cs × Distinct cs

abbrev pub HasPriority : Value → Type 0
HasPriority v = (v ≡ null) ⊎ ((z : ℤ) × (v ≡ int z))

-- A blocker is on a blocked card only, and is one of the known ones.
abbrev pub HasBlocker : Value → Value → Type 0
HasBlocker status v = (v ≡ null) ⊎ ((status ≡ text "blocked") × (one_of v valid_blockers ≡ true))

pub record IsSound (c : Card) : Type 0 where
  pub named : truthy (get c "id") ≡ true
  pub titled : truthy (get c "title") ≡ true
  pub priority : HasPriority (get c "priority")
  pub blocker : HasBlocker (get c "status") (get c "blocker")

priority-HasPriority : (v : Value) → check_priority v ≡ ok tt → HasPriority v
unfolding check_priority
priority-HasPriority null h = inl refl
priority-HasPriority (int z) h = inr (z, refl)
priority-HasPriority _ h = cc

pub is_text→eq : (v : Value) (s : String) → is_text v s ≡ true → v ≡ text s
is_text→eq (text t) s h = ap text ((eq_iff t s).0 h)
is_text→eq null s h = cc
is_text→eq _ s h = cc

check_blocker_cases :
    (status v : Value)
    → check_blocker status v ≡ ok tt
    → (v ≡ null)
      ⊎ ((one_of v valid_blockers ≡ true)
          × ((is_text status "blocked" ≡ true) ⊎ (is_text v "none" ≡ true)))
unfolding check_blocker
check_blocker_cases status null h = inl refl
check_blocker_cases status (bool b) h = inr (ground arith)
check_blocker_cases status (int b) h = inr (ground arith)
check_blocker_cases status (list b) h = inr (ground arith)
check_blocker_cases status (dict b) h = inr (ground arith)
check_blocker_cases status (text b) h = inr (ground arith)

without_sentinel-HasBlocker :
    (c : Card)
    → check_blocker (get c "status") (get c "blocker") ≡ ok tt
    → HasBlocker (get (without_sentinel c) "status") (get (without_sentinel c) "blocker")
without_sentinel-HasBlocker c h = simp get-without_sentinel (
    ground (
      arith,
      check_blocker_cases (get c "status") (get c "blocker") h,
      is_text→eq (get c "status") "blocked",
    ))

without_sentinel-IsSound :
    (env : Env) (seen : List Value) (c : Card)
    → IdPassed seen c
    → Passed env c
    → IsSound (without_sentinel c)
without_sentinel-IsSound env seen c i p = record {
  named = simp get-without_sentinel i.named;
  titled = simp get-without_sentinel i.titled;
  priority = simp get-without_sentinel (priority-HasPriority _ p.priority);
  blocker = without_sentinel-HasBlocker c p.blocker;
}

-- What the loop returns.
record Loop (env : Env) (seen : List Value) (cs saved : List Card) : Type 0 where
  same : saved ≡ map without_sentinel cs
  sound : All IsSound saved
  apart : All (λ d. contains seen (get d "id") ≡ false) saved
  distinct : Distinct saved

contains-cons :
    (w : Value) (seen : List Value) (cs : List Card)
    → All (λ d. contains (w ∷ seen) (get d "id") ≡ false) cs
    → All (λ d. py_eq (get d "id") w ≡ false) cs × All (λ d. contains seen (get d "id") ≡ false) cs
contains-cons w seen [] h = (tt, tt)
contains-cons w seen (c ∷ cs) h =
    let (a, b) = contains-cons w seen cs h.1 in ((ground arith, a), (ground arith, b))

pub get-without_sentinel_id : (c : Card) → get (without_sentinel c) "id" ≡ get c "id"
get-without_sentinel_id c = get-without_sentinel c "id"

Loop-cons :
    (env : Env) (seen : List Value) (c : Card) (cs rest : List Card)
    → IdPassed seen c
    → Passed env c
    → Loop env (get c "id" ∷ seen) cs rest
    → Loop env seen (c ∷ cs) (without_sentinel c ∷ rest)
Loop-cons env seen c cs rest i p l =
    let (other, apart) = contains-cons (get c "id") seen rest l.apart in
    record {
      same = ap (λ (r : List Card). without_sentinel c ∷ r) l.same;
      sound = (without_sentinel-IsSound env seen c i p, l.sound);
      apart = (rw get-without_sentinel_id i.fresh, apart);
      distinct = (rw get-without_sentinel_id other, l.distinct);
    }

validate_from-Loop :
    (env : Env) (seen : List Value) (cs : List Card) {saved : List Card}
    → validate_from env seen cs ≡ ok saved
    → Loop env seen cs saved
unfolding validate_from
validate_from-Loop env seen [] h =
    subst (Loop env seen []) (ok_inj h)
      (record { same = refl; sound = tt; apart = tt; distinct = tt })
validate_from-Loop env seen (c ∷ cs) {saved} h =
    let (a, h1) = >>-eq-ok (check_id seen c) _ h in
    let (b, h2) = >>-eq-ok (check_fields env c) _ h1 in
    let (rest, e, h3) = >>=-eq-ok (validate_from env (get c "id" ∷ seen) cs) _ h2 in
    let i = check_id-IdPassed seen c a in
    let p = check_fields-Passed env c b in
    let l = validate_from-Loop env (get c "id" ∷ seen) cs {saved = rest} e in
    subst (Loop env seen (c ∷ cs)) (ok_inj h3) (Loop-cons env seen c cs rest i p l)

-- Whatever list `_validate_tasks` lets through, the rows to be saved have distinct ids, each has an
-- id, a title, an integer priority or none, and a blocker only if it is blocked; and they are the
-- given rows, less the sentinel blockers.
pub validate_tasks-IsSound :
    (env : Env) (tasks saved : List Card)
    → validate_tasks env tasks ≡ ok saved
    → Distinct saved × All IsSound saved × (saved ≡ map without_sentinel tasks)
unfolding validate_tasks
validate_tasks-IsSound env tasks saved h =
    let l = validate_from-Loop env [] tasks h in (l.distinct, l.sound, l.same)
