-- ===== src/Runnable/Chosen.antt =====
-- `runnable_tasks` against its description: the cards that are asked for and whose upstream cards
-- are settled, in dispatch order, with the counts.
use mathlib.Core.List.{Perm, append_assoc, append-nil}
use scitex_todo.Prelude.{
  ◌+◌, String, ◌≡◌, sym, ◌∙◌, Bool, ◌&&◌, Option, List, [], ◌∷◌, ◌++◌, arith, length, length-append,
  filter, if◌then◌else◌, subst, ap,
}
use scitex_todo.Card.{Card}
use scitex_todo.Env.{Env}
use scitex_todo.Sort.{sort, IsSorted, sort-perm, sort-IsSorted}
use scitex_todo.Runnable.Index.{Indexed, indexed, deps_satisfied}
use scitex_todo.Runnable.Key.{compare_cards, compare_cards-IsOrder}
use scitex_todo.Runnable.Batch.{Scan, visit, scan, runnable_tasks, asked_for}

module _ (ix : Indexed) (agent group : Option String) where
  abbrev wanted : Card → Bool
  wanted = asked_for agent group

  abbrev chosen : Card → Bool
  chosen t = wanted t && deps_satisfied ix t

  visit_base :
      (s : Scan) (t : Card)
      → (visit ix agent group s t).base_candidates
        ≡ s.base_candidates ++ (if wanted t then t ∷ [] else [])
  unfolding visit
  visit_base s t = ground (arith, append-nil s.base_candidates)

  visit_runnable :
      (s : Scan) (t : Card)
      → (visit ix agent group s t).runnable ≡ s.runnable ++ (if chosen t then t ∷ [] else [])
  unfolding visit
  visit_runnable s t = ground (arith, append-nil s.runnable)

  filter-cons :
      (p : Card → Bool) (t : Card) (ts : List Card)
      → filter p (t ∷ ts) ≡ (if p t then t ∷ [] else []) ++ filter p ts
  unfolding filter
  filter-cons p t ts = ground arith

  scan_base :
      (s : Scan) (ts : List Card)
      → (scan ix agent group s ts).base_candidates ≡ s.base_candidates ++ filter wanted ts
  unfolding scan filter
  scan_base s [] = sym (append-nil s.base_candidates)
  scan_base s (t ∷ ts) =
      scan_base (visit ix agent group s t) ts
      ∙ rw (visit_base s t, append_assoc, ← filter-cons wanted t ts)

  scan_runnable :
      (s : Scan) (ts : List Card)
      → (scan ix agent group s ts).runnable ≡ s.runnable ++ filter chosen ts
  unfolding scan filter
  scan_runnable s [] = sym (append-nil s.runnable)
  scan_runnable s (t ∷ ts) =
      scan_runnable (visit ix agent group s t) ts
      ∙ rw (visit_runnable s t, append_assoc, ← filter-cons chosen t ts)

  abbrev IsBalanced : Scan → Type 0
  IsBalanced s = length s.base_candidates ≡ length s.runnable + s.blocked_by_deps

  visit-IsBalanced : (s : Scan) (t : Card) → IsBalanced s → IsBalanced (visit ix agent group s t)
  unfolding visit
  visit-IsBalanced s t h =
      ground (arith, length-append s.base_candidates (t ∷ []), length-append s.runnable (t ∷ []))

  scan-IsBalanced :
      (s : Scan) (ts : List Card) → IsBalanced s → IsBalanced (scan ix agent group s ts)
  unfolding scan
  scan-IsBalanced s [] h = h
  scan-IsBalanced s (t ∷ ts) h =
      scan-IsBalanced (visit ix agent group s t) ts (visit-IsBalanced s t h)

abbrev fresh : Scan
fresh = record { base_candidates = []; runnable = []; blocked_by_deps = 0 }

-- `runnable_tasks` returns exactly the cards that pass the status and blocker filter and the agent
-- and group asked for, and whose upstream cards are settled, each as often as the snapshot holds it,
-- in ascending order of the sort key; the candidate count is that of the cards the filters pass, and
-- is the number of cards returned plus the number counted as blocked by dependencies.
pub runnable_tasks-perm :
    (env : Env) (snapshot : List Card) (agent group : Option String)
    → Perm
        (runnable_tasks env snapshot agent group).tasks
        (filter (λ t. asked_for agent group t && deps_satisfied (indexed snapshot) t) snapshot)
      × IsSorted (compare_cards env) (runnable_tasks env snapshot agent group).tasks
      × ((runnable_tasks env snapshot agent group).candidate_count
          ≡ length (filter (asked_for agent group) snapshot))
      × ((runnable_tasks env snapshot agent group).candidate_count
          ≡ length (
              filter (λ t. asked_for agent group t && deps_satisfied (indexed snapshot) t) snapshot)
            + (runnable_tasks env snapshot agent group).blocked_by_deps_count)
unfolding runnable_tasks
runnable_tasks-perm env snapshot agent group =
    let ix = indexed snapshot in
    let s = scan ix agent group fresh snapshot in
    let runnable = scan_runnable ix agent group fresh snapshot in
    let base = scan_base ix agent group fresh snapshot in
    let balanced = scan-IsBalanced ix agent group fresh snapshot (omega arith) in
    (
      subst (Perm (sort (compare_cards env) s.runnable)) runnable
          (sort-perm (compare_cards env) s.runnable),
      sort-IsSorted (compare_cards env) (compare_cards-IsOrder env) s.runnable,
      ap length base,
      rw (← runnable) balanced,
    )
