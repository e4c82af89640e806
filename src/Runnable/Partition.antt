-- ===== src/Runnable/Partition.antt =====
-- The counts of `runnable_tasks` beside those of `blocked_tasks`.
use scitex_todo.Prelude.{
  ℕ, ◌+◌, String, ◌≡◌, refl, ◌∙◌, sym, Bool, true, false, not, ◌&&◌, ◌||◌, Option, none, some, List,
  [], ◌∷◌, arith, length, length-append, filter, all, All, Bool-cases, inl, inr, str_eq, eq_iff, ap,
}
use mathlib.Core.Bool.{false≢true}
use scitex_todo.Py.Value.{Value, null, text, truthy, is_text, is_null}
use scitex_todo.Card.{Card, get, sequence}
use scitex_todo.Env.{Env}
use scitex_todo.Validate.{one_of}
use scitex_todo.Validate.Sound.{IsSound}
use scitex_todo.Runnable.Index.{Indexed, indexed, settled, reverse_upstream, deps_satisfied}
use scitex_todo.Runnable.Batch.{
  Scan, is_startable, passes_base_filter, matches_agent, matches_group, asked_for, runnable_tasks,
  scan, visit,
}
use scitex_todo.Runnable.Diagnose.{
  Reason, add_row, blocked_row, BlockedTask, ByReason, unresolved, diagnose_blocked, visit_blocked,
  scan_blocked, blocked_tasks,
}

startable_text :
    (s : String) (b : Bool)
    → str_eq s "blocked" ≡ b
    → is_startable (text s) ≡ true
    → is_text (text s) "blocked" ≡ false
unfolding is_startable one_of
startable_text s false e h = e
startable_text s true e h =
    let h' : is_startable (text "blocked") ≡ true = rw ((eq_iff s "blocked").0 e) at h in cc

startable_not_blocked :
    (status : Value) → is_startable status ≡ true → is_text status "blocked" ≡ false
startable_not_blocked (text s) h = startable_text s _ refl h
startable_not_blocked null h = refl
startable_not_blocked _ h = refl

-- Whether `[...]` is empty.
abbrev is_nil : List Value → Bool
is_nil [] = true
is_nil (v ∷ vs) = false

is_nil-unresolved :
    (ix : Indexed) (ids : List Value) → is_nil (unresolved ix ids) ≡ all (settled ix) ids
unfolding unresolved filter
is_nil-unresolved ix [] = refl
is_nil-unresolved ix (v ∷ vs) = ground (arith, is_nil-unresolved ix vs)

one : Bool → ℕ
one true = 1
one false = 0

abbrev is_none {ℓ} : {A : Type ℓ} → Option A → Bool
is_none none = true
is_none (some a) = false

truthy_not_null : (v : Value) → truthy v ≡ true → is_null v ≡ false
truthy_not_null null h = cc
truthy_not_null _ h = refl

-- Where no card has status `blocked`, the diagnosis finds nothing exactly if the test on the upstream
-- cards passes.
is_none-diagnose :
    (env : Env) (ix : Indexed) (t : Card)
    → truthy (get t "id") ≡ true
    → is_text (get t "status") "blocked" ≡ false
    → is_none (diagnose_blocked env ix t) ≡ deps_satisfied ix t
unfolding diagnose_blocked deps_satisfied reverse_upstream
is_none-diagnose env ix t h e =
    rw (e, h, truthy_not_null (get t "id") h)
      (ground (
        arith,
        is_nil-unresolved ix (sequence (get t "depends_on")),
        is_nil-unresolved ix (ix.blockers (get t "id")),
      ))

is_some-diagnose_blocked :
    (env : Env) (ix : Indexed) (t : Card)
    → is_text (get t "status") "blocked" ≡ true
    → is_none (diagnose_blocked env ix t) ≡ false
unfolding diagnose_blocked
is_some-diagnose_blocked env ix t e = ground arith

unblocked_blocker :
    (t : Card) → IsSound t → is_text (get t "status") "blocked" ≡ false → get t "blocker" ≡ null
unblocked_blocker t s e = elim s.blocker [
  | inl h ↦ h
  | inr h ↦ absurd (false≢true (sym e ∙ ap (λ v. is_text v "blocked") h.0))
]

startable_false : (status : Value) → is_text status "blocked" ≡ true → is_startable status ≡ false
startable_false status h = elim (Bool-cases (is_startable status)) [
  | inl e ↦ absurd (false≢true (sym (startable_not_blocked status e) ∙ h))
  | inr e ↦ e
]

abbrev tally : (Card → Bool) → List Card → ℕ
tally p [] = 0
tally p (t ∷ ts) = one (p t) + tally p ts

module _ (env : Env) (ix : Indexed) (agent group : Option String) where
  -- What `blocked_tasks` puts out a row for.
  abbrev reported : Card → Bool
  reported t =
      (is_startable (get t "status") || is_text (get t "status") "blocked")
      && (matches_agent t agent
          && (matches_group t group && not (is_none (diagnose_blocked env ix t))))

  abbrev parked : Card → Bool
  parked t = is_text (get t "status") "blocked" && (matches_agent t agent && matches_group t group)

  abbrev held_up : Card → Bool
  held_up t = asked_for agent group t && not (deps_satisfied ix t)

  reported_split : (t : Card) → IsSound t → one (reported t) ≡ one (held_up t) + one (parked t)
  unfolding one passes_base_filter
  reported_split t s = elim (Bool-cases (is_text (get t "status") "blocked")) [
    | inl e ↦
        rw (startable_false (get t "status") e, is_some-diagnose_blocked env ix t e, e)
          (ground arith)
    | inr e ↦ rw (is_none-diagnose env ix t s.named e, unblocked_blocker t s e, e) (ground arith)
  ]

  tally_split :
      (ts : List Card) → All IsSound ts → tally reported ts ≡ tally held_up ts + tally parked ts
  tally_split [] h = omega arith
  tally_split (t ∷ ts) h = omega (arith, reported_split t h.0, tally_split ts h.1)

  length-add_row :
      (t : Card) (o : Option (Reason × List Value)) (s : List BlockedTask × ByReason)
      → length (add_row env t o s).0 ≡ length s.0 + one (not (is_none o))
  unfolding add_row one
  length-add_row t none s = omega arith
  length-add_row t (some r) s = length-append s.0 (blocked_row env t r ∷ [])

  length-visit_blocked :
      (s : List BlockedTask × ByReason) (t : Card)
      → length (visit_blocked env ix agent group s t).0 ≡ length s.0 + one (reported t)
  unfolding visit_blocked one
  length-visit_blocked s t = ground (arith, length-add_row t (diagnose_blocked env ix t) s)

  length-scan_blocked :
      (s : List BlockedTask × ByReason) (ts : List Card)
      → length (scan_blocked env ix agent group s ts).0 ≡ length s.0 + tally reported ts
  unfolding scan_blocked
  length-scan_blocked s [] = omega arith
  length-scan_blocked s (t ∷ ts) = omega (
    arith,
    length-scan_blocked (visit_blocked env ix agent group s t) ts,
    length-visit_blocked s t,
  )

  visit-held_up :
      (s : Scan) (t : Card)
      → (visit ix agent group s t).blocked_by_deps ≡ s.blocked_by_deps + one (held_up t)
  unfolding visit one
  visit-held_up s t = ground arith

  scan-held_up :
      (s : Scan) (ts : List Card)
      → (scan ix agent group s ts).blocked_by_deps ≡ s.blocked_by_deps + tally held_up ts
  unfolding scan
  scan-held_up s [] = omega arith
  scan-held_up s (t ∷ ts) =
      omega (arith, scan-held_up (visit ix agent group s t) ts, visit-held_up s t)

tally-filter : (p : Card → Bool) (ts : List Card) → tally p ts ≡ length (filter p ts)
unfolding filter one
tally-filter p [] = refl
tally-filter p (t ∷ ts) = ground (arith, tally-filter p ts)

abbrev zeros : ByReason
zeros = record { explicits = 0; manuals = 0; dependents = 0; reverses = 0 }

abbrev fresh : Scan
fresh = record { base_candidates = []; runnable = []; blocked_by_deps = 0 }

-- On a snapshot of sound cards, the total of `blocked_tasks` is the number of cards that
-- `runnable_tasks` counts as held up by dependencies plus the number of cards of status `blocked`,
-- for the same agent and group.
pub blocked_tasks_total :
    (env : Env) (snapshot : List Card) (agent group : Option String)
    → All IsSound snapshot
    → (blocked_tasks env snapshot agent group).total
      ≡ (runnable_tasks env snapshot agent group).blocked_by_deps_count
        + length (
            filter
              (λ t.
                is_text (get t "status") "blocked"
                && (matches_agent t agent && matches_group t group))
              snapshot)
unfolding blocked_tasks runnable_tasks
blocked_tasks_total env snapshot agent group h =
    let ix = indexed snapshot in
    omega (
      arith,
      length-scan_blocked env ix agent group ([], zeros) snapshot,
      scan-held_up env ix agent group fresh snapshot,
      tally_split env ix agent group snapshot h,
      tally-filter (parked env ix agent group) snapshot,
    )
