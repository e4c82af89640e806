-- ===== src/Store/Rescore.antt =====
-- `rescore_task` and `recompute_ranks` (_store_rescore.py).
pub mod Ranks
pub mod Given
use Prim.Native.Nat.{Ordering, compare as compare_ℕ}
use Prim.Native.String.{compare, ◌++◌ as append_text}
use scitex_todo.Prelude.{
  ℕ, suc, ◌+◌, ◌*◌, String, Bool, true, false, not, ◌&&◌, Option, none, some, List, [], ◌∷◌, ◌++◌,
  leb, ◌==◌, str_eq, if◌then◌else◌, filter, length, map,
}
use scitex_todo.Py.Dict.{put, pop, has}
use scitex_todo.Py.Value.{Value, ℤ, null, bool, int, pos, negsuc, text, list, truthy, as_int}
use scitex_todo.Py.Raise.{Result, ok, raise, raise_if, ◌>>=◌, ◌>>◌, value_error}
use scitex_todo.Order.{by_then}
use scitex_todo.Sort.{sort}
use scitex_todo.Card.{Card, get, is_live, find_live_task, change_first, of_list, of_dict}
use scitex_todo.Env.{Env, str}
use scitex_todo.Validate.{one_of, without_sentinel}
use scitex_todo.Store.State.{Store, card_event, rank_changed, Outcome, write, transaction}
use scitex_todo.Store.Actor.{default_agent}
use scitex_todo.Store.Row.{append_comment, or_not_found}
use scitex_todo.Runnable.Key.{id_text}

-- A number from 1 to 5, the axis' range.
abbrev pub in_range : Option ℤ → Option ℕ
in_range (some (pos n)) = if leb 1 n && leb n 5 then some n else none
in_range _ = none

abbrev axis_or : Option ℕ → Result Value
axis_or none = raise value_error
axis_or (some n) = ok (int (pos n))

-- `_axis_or_raise`: a bool is no axis.
unfoldable pub axis_or_raise : Value → Result Value
axis_or_raise (int z) = axis_or (in_range (some z))
axis_or_raise _ = raise value_error

-- `isinstance(v, int) and AXIS_MIN <= v <= AXIS_MAX`, where a bool is an int
abbrev pub axis : Value → Option ℕ
axis v = in_range (as_int v)

abbrev both : Option ℕ → Option ℕ → Bool
both (some u) (some i) = true
both _ _ = false

-- `_scored`
unfoldable pub is_scored : Card → Bool
is_scored t = both (axis (get t "urgency")) (axis (get t "importance"))

-- `_scored(t) and t.get("status") not in UNRANKED_STATUSES`
unfoldable pub is_ranked : Card → Bool
is_ranked t = is_scored t && not (one_of (get t "status") ("done" ∷ "cancelled" ∷ "failed" ∷ []))

abbrev or_zero : Option ℕ → ℕ
or_zero none = 0
or_zero (some n) = n

abbrev importance_of : Card → ℕ
importance_of t = or_zero (axis (get t "importance"))

-- 0 for a card of high importance, which comes first
abbrev pub quadrant : Card → ℕ
quadrant t = if leb 3 (importance_of t) then 0 else 1

abbrev pub score : Card → ℕ
score t = 2 * importance_of t + or_zero (axis (get t "urgency"))

-- `str(task.get("scored_at") or "9999")`
abbrev pub scored_text : Env → Card → String
scored_text env t = if truthy (get t "scored_at") then str env (get t "scored_at") else "9999"

-- `_order_key`, as the comparison of two cards
abbrev pub compare_ranked : Env → Card → Card → Ordering
compare_ranked env =
    by_then (λ a b. compare_ℕ (quadrant a) (quadrant b))
      (by_then (λ a b. compare_ℕ (score b) (score a))
        (by_then (λ a b. compare (scored_text env a) (scored_text env b))
          (λ a b. compare (id_text env a) (id_text env b))))

-- The rows with their places, which tell them apart as `id(task)` does.
abbrev pub numbered : ℕ → List Card → List (ℕ × Card)
numbered n [] = []
numbered n (c ∷ cs) = (n, c) ∷ numbered (suc n) cs

-- `ranked`, sorted
unfoldable pub ranked : Env → List Card → List (ℕ × Card)
ranked env tasks =
    sort (λ p q. compare_ranked env p.1 q.1) (filter (λ p. is_ranked p.1) (numbered 0 tasks))

-- The place's position in the ranking, counted from `k`.
abbrev pub position : ℕ → ℕ → List (ℕ × Card) → Option ℕ
position place k [] = none
position place k (p ∷ ps) = if p.0 == place then some k else position place (suc k) ps

abbrev set_rank : Card → Option ℕ → Card
set_rank c none = pop c "rank"
set_rank c (some k) = put c "rank" (int (pos k))

unfoldable pub with_rank : List (ℕ × Card) → ℕ × Card → Card
with_rank order p = set_rank p.1 (position p.0 1 order)

-- `recompute_ranks`: the rows, and how many are ranked.
unfoldable pub recompute_ranks : Env → List Card → List Card × ℕ
recompute_ranks env tasks =
    let order = ranked env tasks in (map (with_rank order) (numbered 0 tasks), length order)

-- `target.setdefault("scored_at", now)`
abbrev scored_at_default : String → Card → Card
scored_at_default now c = if has c "scored_at" then c else put c "scored_at" (text now)

unfoldable pub scored_row : String → Value → Value → Card → Card
scored_row now urgency importance c =
    put (scored_at_default now (put (put c "urgency" urgency) "importance" importance))
      "last_activity" (text now)

abbrev change_of : Value → Value → Value
change_of before after = of_list (before ∷ after ∷ [])

-- The old and the new values of a card's axes and rank, and how many cards are ranked.
abbrev changes : Card → Card → ℕ → Card
changes before after count =
    ("urgency", change_of (get before "urgency") (get after "urgency"))
    ∷ ("importance", change_of (get before "importance") (get after "importance"))
    ∷ ("rank", change_of (get before "rank") (get after "rank"))
    ∷ ("of", int (pos count))
    ∷ []

abbrev arrow : Env → Card → Card → String → String → String
arrow env before after key rest =
    append_text (str env (get before key))
      (append_text "->" (append_text (str env (get after key)) rest))

abbrev rescore_text : Env → Card → Card → ℕ → String
rescore_text env before after count = append_text "rescore: urgency " (
    arrow env before after "urgency" (
      append_text ", importance " (
        arrow env before after "importance" (
          append_text ", rank " (
            arrow env before after "rank"
              (append_text " (of " (append_text (str env (int (pos count))) ")")))))))

unfoldable pub rescore_comment : Env → String → Card → Card → ℕ → Value
rescore_comment env actor before after count = of_dict (
    ("author", text actor)
    ∷ ("ts", text (env.now 0))
    ∷ ("text", text (rescore_text env before after count))
    ∷ ("kind", text "rescore")
    ∷ ("rescore", of_dict (changes before after count))
    ∷ [])

pub record Rescored : Type 0 where
  pub task : Card
  pub rank : Value
  pub ranked_count : ℕ

abbrev rescore_rows : Env → String → String → Card → List Card → ℕ → Result (Outcome Rescored)
rescore_rows env task_id actor before rows count = do
  after ← or_not_found (find_live_task rows task_id)
  row ← append_comment after (rescore_comment env actor before after count)
  ok (
      write (change_first (is_live task_id) (λ c. row) rows) λ saved. (
        record { task = without_sentinel row; rank = get after "rank"; ranked_count = count },
        card_event rank_changed task_id (some actor) (changes before after count) ∷ [],
      ))

unfoldable pub rescore_task :
    Env → String → Value → Value → Option String → Store → Result Rescored × Store
rescore_task env task_id urgency importance by = transaction env λ tasks. (do
  raise_if (str_eq task_id "") value_error
  new_u ← axis_or_raise urgency
  new_i ← axis_or_raise importance
  actor ← default_agent env by
  target ← or_not_found (find_live_task tasks task_id)
  let row = scored_row (env.now 0) new_u new_i target
  let (rows, count) = recompute_ranks env (change_first (is_live task_id) (λ c. row) tasks)
  rescore_rows env task_id actor target rows count)
