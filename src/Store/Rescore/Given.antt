-- ===== src/Store/Rescore/Given.antt =====
-- Which rows get a rank from `recompute_ranks`.
use mathlib.Core.List.{Mem, mem-cons, mem-cons_self, mem-cons_of_mem, not-mem-nil}
use mathlib.Core.List.Perm
use mathlib.Core.Logic.Or
use scitex_todo.Prelude.{
  ℕ, suc, ◌≤◌, ◌≡◌, ap, ◌∙◌, Bool, true, false, inl, inr, Bool-cases, Option-cases, none, some,
  List, [], ◌∷◌, ◌==◌, arith, length, filter,
}
use scitex_todo.Py.Value.{Value, null, int, pos}
use scitex_todo.Card.{Card, get, get-put, get-pop}
use scitex_todo.Env.{Env}
use scitex_todo.Sort.{sort-perm}
use scitex_todo.Store.Rescore.{numbered, is_ranked, ranked, position, with_rank, recompute_ranks}
use scitex_todo.Store.Rescore.Ranks.{
  position_bounds, position-Mem, numbered_unique, ranked-Mem, row_at, row_at-Mem, row_at-with_rank,
}

-- A place without a position is in no entry.
position-none :
    (place k : ℕ) (c : Card) (ps : List (ℕ × Card))
    → position place k ps ≡ none
    → ¬ Mem (place, c) ps
position-none place k c [] h m = not-mem-nil m
position-none place k c (p ∷ ps) h m = elim (Bool-cases (p.0 == place)) [
  | inl e ↦ found (rw (e) at h)
  | inr e ↦
      Or.elim (hlevel) (mem-cons.0 m) (λ same. apart e (ap (λ (q : ℕ × Card). q.0) same))
        (λ later. position-none place (suc k) c ps (rw (e) at h) later)
]
  where
    found : {i : ℕ} → ¬ (some i ≡ none)
    found h = cc

    apart : p.0 == place ≡ false → ¬ (place ≡ p.0)
    apart e same = ground arith

filter-passes :
    (p : ℕ × Card) (xs : List (ℕ × Card)) (test : ℕ × Card → Bool)
    → Mem p (filter test xs)
    → test p ≡ true
unfolding filter
filter-passes p [] test m = absurd (not-mem-nil m)
filter-passes p (x ∷ xs) test m = elim (Bool-cases (test x)) [
  | inl e ↦
      Or.elim (hlevel) (mem-cons.0 (rw (e) at m)) (λ same. rw same e)
        (λ later. filter-passes p xs test later)
  | inr e ↦ filter-passes p xs test (rw (e) at m)
]

filter-keeps :
    (p : ℕ × Card) (xs : List (ℕ × Card)) (test : ℕ × Card → Bool)
    → test p ≡ true
    → Mem p xs
    → Mem p (filter test xs)
unfolding filter
filter-keeps p [] test h m = absurd (not-mem-nil m)
filter-keeps p (x ∷ xs) test h m =
    Or.elim (hlevel) (mem-cons.0 m) (λ same. rw (← same, h) mem-cons_self)
      (λ later. elim (Bool-cases (test x)) [
        | inl e ↦ rw (e) (mem-cons_of_mem x (filter-keeps p xs test h later))
        | inr e ↦ rw (e) (filter-keeps p xs test h later)
      ])

-- A row of the store is in the ranking exactly if it is ranked.
in_ranked :
    (env : Env) (tasks : List Card) (m : ℕ) (a : Card)
    → Mem (m, a) (numbered 0 tasks)
    → is_ranked a ≡ true
    → Mem (m, a) (ranked env tasks)
unfolding ranked
in_ranked env tasks m a p h =
    Perm.subset (Perm.symm (sort-perm _ _)) (m, a)
      (filter-keeps (m, a) (numbered 0 tasks) (λ q. is_ranked q.1) h p)

ranked-is_ranked :
    (env : Env) (tasks : List Card) (m : ℕ) (a c : Card)
    → Mem (m, a) (numbered 0 tasks)
    → Mem (m, c) (ranked env tasks)
    → is_ranked a ≡ true
unfolding ranked
ranked-is_ranked env tasks m a c p q =
    numbered_unique is_ranked 0 m a c tasks p (unfold ranked in ranked-Mem env tasks (m, c) q)
    ∙ filter-passes (m, c) (numbered 0 tasks) (λ x. is_ranked x.1)
        (Perm.subset (sort-perm _ _) (m, c) q)

-- The rank of a row: a number from 1 to the count for a ranked row, and none for another.
abbrev pub HasRank : Bool → Value → ℕ → Type 0
HasRank true v count = (i : ℕ) × (v ≡ int (pos i)) × (1 ≤ i) × (i ≤ count)
HasRank false v count = v ≡ null

with_rank-HasRank :
    (env : Env) (tasks : List Card) (m : ℕ) (a : Card)
    → Mem (m, a) (numbered 0 tasks)
    → HasRank
        (is_ranked a)
        (get (with_rank (ranked env tasks) (m, a)) "rank")
        (length (ranked env tasks))
unfolding with_rank
with_rank-HasRank env tasks m a p = elim (Option-cases (position m 1 (ranked env tasks))) [
  | inl n ↦ elim (Bool-cases (is_ranked a)) [
    | inl e ↦ absurd (position-none m 1 a (ranked env tasks) n (in_ranked env tasks m a p e))
    | inr e ↦ rw (e, n) (get-pop a "rank" "rank")
  ]
  | inr (i, f) ↦
      let (c, q) = position-Mem m 1 (ranked env tasks) {i = i} f in
      let (low, high) = position_bounds m 1 (ranked env tasks) {i = i} f in
      rw (ranked-is_ranked env tasks m a c p q, f)
        (i, get-put a "rank" "rank" (int (pos i)), low, omega (arith, high))
]

-- `recompute_ranks` leaves at the place of every row a row that has a rank if the row is scored and its
-- work is not over, from 1 to the count that it returns, and that has none otherwise.
pub recompute_ranks-HasRank :
    (env : Env) (tasks : List Card) (m : ℕ) (a : Card)
    → row_at m tasks ≡ some a
    → (a' : Card) × (row_at m (recompute_ranks env tasks).0 ≡ some a')
      × HasRank (is_ranked a) (get a' "rank") (recompute_ranks env tasks).1
unfolding recompute_ranks
recompute_ranks-HasRank env tasks m a h = (
  with_rank (ranked env tasks) (m, a),
  row_at-with_rank (ranked env tasks) 0 m m tasks (omega arith) h,
  with_rank-HasRank env tasks m a (row_at-Mem 0 m m tasks (omega arith) h),
)
