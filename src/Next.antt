-- ===== src/Next.antt =====
-- scitex_cards/_next.py: the one card that an agent should pick up.
use scitex_todo.Prelude.{
  ℕ, String, ◌≡◌, sym, Bool, true, false, not, ◌&&◌, Option, none, some, List, [], ◌∷◌, All, length,
  filter,
}
use mathlib.Core.List.{Perm, Mem, mem-cons_self}
use mathlib.Core.List.Perm
use scitex_todo.Py.Value.{truthy, is_text}
use scitex_todo.Card.{Card, get}
use scitex_todo.Env.{Env}
use scitex_todo.Order.{is_gt, le_refl}
use scitex_todo.Membership.{All-of_mem, mem_All}
use scitex_todo.Sort.{sort, IsSorted, sort-perm, sort-IsSorted}
use scitex_todo.Runnable.Key.{compare_cards, compare_cards-IsOrder}
use scitex_todo.Runnable.Batch.{is_startable, matches_agent}

abbrev in_project : Card → Option String → Bool
in_project task none = true
in_project task (some project) = is_text (get task "project") project

-- `_is_runnable`
unfoldable pub is_runnable : Card → Option String → Option String → Bool
is_runnable task assignee project =
    is_startable (get task "status")
    && (not (truthy (get task "blocker"))
        && (matches_agent task assignee && in_project task project))

-- `NextPick`
pub record NextPick : Type 0 where
  pub task : Option Card
  pub candidate_count : ℕ

abbrev head : List Card → Option Card
head [] = none
head (c ∷ cs) = some c

-- `candidates[0]` after the sort; with no candidate there is nothing to sort.
unfoldable pub next_task : Env → List Card → Option String → Option String → NextPick
next_task env tasks assignee project =
    let candidates = filter (λ t. is_runnable t assignee project) tasks in
    record {
      task = head (sort (compare_cards env) candidates);
      candidate_count = length candidates;
    }

-- The pick among some candidates: there is none if there are none, and else it is one of them that
-- no other goes before.
abbrev pub IsPick : Env → List Card → Option Card → Type 0
IsPick env candidates none = candidates ≡ []
IsPick env candidates (some t) =
    Mem t candidates × All (λ c. is_gt (compare_cards env t c) ≡ false) candidates

module _ (env : Env) where
  first_least :
      (t : Card) (ts : List Card)
      → IsSorted (compare_cards env) (t ∷ ts)
      → All (λ c. is_gt (compare_cards env t c) ≡ false) (t ∷ ts)
  first_least t ts s = (le_refl (compare_cards env) (compare_cards-IsOrder env) t, s.0)

  IsPick-of_sorted :
      (candidates sorted : List Card)
      → Perm sorted candidates
      → IsSorted (compare_cards env) sorted
      → IsPick env candidates (head sorted)
  IsPick-of_sorted candidates [] p s = sym (Perm.nil-eq p)
  IsPick-of_sorted candidates (t ∷ ts) p s = (
    Perm.subset p t mem-cons_self,
    All-of_mem (λ c. is_gt (compare_cards env t c) ≡ false) candidates
        λ c m.
          mem_All (λ d. is_gt (compare_cards env t d)) false (t ∷ ts) (first_least t ts s)
            (Perm.subset (Perm.symm p) c m),
  )

-- `next_task` picks nothing exactly where no card passes the filter, and else a card that passes it
-- and that no card that passes it precedes in the order of the sort key.
pub next_task-IsPick :
    (env : Env) (tasks : List Card) (assignee project : Option String)
    → IsPick env
        (filter (λ t. is_runnable t assignee project) tasks)
        (next_task env tasks assignee project).task
unfolding next_task
next_task-IsPick env tasks assignee project =
    let candidates = filter (λ t. is_runnable t assignee project) tasks in
    IsPick-of_sorted env candidates (sort (compare_cards env) candidates)
      (sort-perm (compare_cards env) candidates)
      (sort-IsSorted (compare_cards env) (compare_cards-IsOrder env) candidates)
