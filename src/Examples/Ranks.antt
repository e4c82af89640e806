-- ===== src/Examples/Ranks.antt =====
-- Tests of the ranking.
use scitex_todo.Prelude.{◌≡◌, refl, ap, ◌++◌, some, false, String, ℕ, List, [], ◌∷◌, filter, arith}
use scitex_todo.Py.Dict.{lookup, put, pop}
use scitex_todo.Py.Value.{text, int, pos}
use scitex_todo.Card.{Card, get}
use scitex_todo.Order.{is_gt}
use scitex_todo.Validate.{one_of}
use scitex_todo.Sort.{sort, sort_onto, insert}
use scitex_todo.Store.Rescore.{
  is_scored, is_ranked, ranked, with_rank, recompute_ranks, compare_ranked,
}
use scitex_todo.Store.Rescore.Ranks.{row_at, recompute_ranks-is_gt}
use scitex_todo.Store.Rescore.Given.{HasRank, recompute_ranks-HasRank}
use scitex_todo.Examples.{python}

abbrev scored : String → ℕ → ℕ → Card
scored id urgency importance =
    ("id", text id)
    ∷ ("status", text "deferred")
    ∷ ("urgency", int (pos urgency))
    ∷ ("importance", int (pos importance))
    ∷ []

abbrev cards : List Card
cards = scored "x" 5 2 ∷ scored "y" 1 4 ∷ []

abbrev ranked_as : Card → ℕ → Card
ranked_as c rank = c ++ ("rank", int (pos rank)) ∷ []

ranks :
    (recompute_ranks python cards).0
    ≡ ranked_as (scored "x" 5 2) 2 ∷ ranked_as (scored "y" 1 4) 1 ∷ []
unfolding recompute_ranks with_rank ranked is_ranked is_scored sort sort_onto insert filter get
    lookup put pop one_of
ranks = refl

rank_x : get (ranked_as (scored "x" 5 2) 2) "rank" ≡ int (pos 2)
unfolding get lookup
rank_x = refl

rank_y : get (ranked_as (scored "y" 1 4) 1) "rank" ≡ int (pos 1)
unfolding get lookup
rank_y = refl

recompute_ranks-is_gt_example :
    is_gt (compare_ranked python (scored "y" 1 4) (scored "x" 5 2)) ≡ false
recompute_ranks-is_gt_example =
    recompute_ranks-is_gt python cards 1 0 (scored "y" 1 4) (scored "x" 5 2)
      (ranked_as (scored "y" 1 4) 1) (ranked_as (scored "x" 5 2) 2) 1 2 refl refl
      (ap (row_at 1) ranks) (ap (row_at 0) ranks) rank_y rank_x (omega arith)

recompute_ranks-HasRank_example :
    (a' : Card) × (row_at 0 (recompute_ranks python cards).0 ≡ some a')
    × HasRank (is_ranked (scored "x" 5 2)) (get a' "rank") (recompute_ranks python cards).1
recompute_ranks-HasRank_example = recompute_ranks-HasRank python cards 0 (scored "x" 5 2) refl
