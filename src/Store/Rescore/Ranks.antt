-- ===== src/Store/Rescore/Ranks.antt =====
-- The ranks that `recompute_ranks` writes.
use Prim.Native.Nat.{Ordering, compare as compare_ℕ}
use mathlib.Core.List.{Mem, mem-cons, mem-cons_self, mem-cons_of_mem, not-mem-nil}
use mathlib.Core.List.Perm
use mathlib.Core.Logic.Or
use native.Mathlib.Bridge.{le_prop}
use scitex_todo.Membership.{mem_All}
use scitex_todo.Prelude.{
  ℕ, zero, suc, ◌+◌, ◌≤◌, ◌<◌, ◌≡◌, refl, sym, ◌∙◌, ap, subst, Bool, true, false, inl, inr,
  Bool-cases, Option, none, some, List, [], ◌∷◌, ◌==◌, arith, length, filter, map,
}
use scitex_todo.Py.Value.{null, int, pos}
use scitex_todo.Order.{
  is_gt, IsOrder, Joins, by_then-IsOrder, key-IsOrder, reversed-IsOrder, text-IsOrder,
}
use scitex_todo.Py.Order.{flip}
use Prim.Native.String.{compare}
use scitex_todo.Runnable.Key.{id_text}
use scitex_todo.Sort.{sort-perm, sort-IsSorted, IsSorted}
use scitex_todo.Card.{Card, get, get-put, get-pop}
use scitex_todo.Env.{Env}
use scitex_todo.Store.Rescore.{
  quadrant, score, scored_text, compare_ranked, numbered, is_ranked, ranked, position, with_rank,
  recompute_ranks,
}

some_inj {ℓ} : {A : Type ℓ} {a b : A} → some a ≡ some b → a ≡ b
some_inj h = cc

-- A position counts from its start, and stops at the end of the ranking.
pub position_bounds :
    (place k : ℕ) (ps : List (ℕ × Card)) {i : ℕ}
    → position place k ps ≡ some i
    → (k ≤ i) × (i < k + length ps)
position_bounds place k [] h = cc
position_bounds place k (p ∷ ps) {i} h = elim (Bool-cases (p.0 == place)) [
  | inl e ↦ let same = some_inj (rw (e) at h) in omega (arith, same)
  | inr e ↦ let rest = position_bounds place (suc k) ps {i = i} (rw (e) at h) in omega (arith, rest)
]

head-Mem :
    (place : ℕ) (p : ℕ × Card) (ps : List (ℕ × Card))
    → p.0 == place ≡ true
    → Mem (place, p.1) (p ∷ ps)
head-Mem place p ps e =
    let same : p.0 ≡ place = ground arith in subst (λ x. Mem (x, p.1) (p ∷ ps)) same mem-cons_self

-- The entry of a place that has a position.
pub position-Mem :
    (place k : ℕ) (ps : List (ℕ × Card)) {i : ℕ}
    → position place k ps ≡ some i
    → (c : Card) × Mem (place, c) ps
position-Mem place k [] h = cc
position-Mem place k (p ∷ ps) {i} h = elim (Bool-cases (p.0 == place)) [
  | inl e ↦ (p.1, head-Mem place p ps e)
  | inr e ↦
      let (c, m) = position-Mem place (suc k) ps {i = i} (rw (e) at h) in (c, mem-cons_of_mem p m)
]

-- Of two entries of a sorted list, the one of the smaller position is not greater.
IsSorted-position :
    (cmp : Card → Card → Ordering) (m n k i j : ℕ) (ps : List (ℕ × Card))
    → IsSorted (λ p q. cmp p.1 q.1) ps
    → position m k ps ≡ some i
    → position n k ps ≡ some j
    → i < j
    → (a : Card) × (b : Card) × Mem (m, a) ps × Mem (n, b) ps × (is_gt (cmp a b) ≡ false)
IsSorted-position cmp m n k i j [] s h l lt = cc
IsSorted-position cmp m n k i j (p ∷ ps) s h l lt = elim (Bool-cases (p.0 == n)) [
  | inl e ↦
      let same = some_inj (rw (e) at l) in
      let low = position_bounds m k (p ∷ ps) {i = i} h in absurd (omega (arith, same, low, lt))
  | inr e ↦
      let later : position n (suc k) ps ≡ some j = rw (e) at l in
      elim (Bool-cases (p.0 == m)) [
        | inl d ↦
            let (b, q) = position-Mem n (suc k) ps {i = j} later in
            (
              p.1,
              b,
              head-Mem m p ps d,
              mem-cons_of_mem p q,
              mem_All (λ q. is_gt (cmp p.1 q.1)) false ps s.0 q,
            )
        | inr d ↦
            let (a, b, q, r, le) =
              IsSorted-position cmp m n (suc k) i j ps s.1 (rw (d) at h) later lt in
            (a, b, mem-cons_of_mem p q, mem-cons_of_mem p r, le)
      ]
]

-- A place holds one row.
numbered-Mem :
    (n place : ℕ) (c : Card) (cs : List Card) → Mem (place, c) (numbered n cs) → n ≤ place
numbered-Mem n place c [] m = absurd (not-mem-nil m)
numbered-Mem n place c (d ∷ cs) m =
    Or.elim le_prop (mem-cons.0 m) (λ e. omega (arith, ap (λ (x : ℕ × Card). x.0) e))
      (λ later. omega (arith, numbered-Mem (suc n) place c cs later))

pub numbered_unique :
    (f : Card → Bool) (n place : ℕ) (c d : Card) (cs : List Card)
    → Mem (place, c) (numbered n cs)
    → Mem (place, d) (numbered n cs)
    → f c ≡ f d
numbered_unique f n place c d [] m k = absurd (not-mem-nil m)
numbered_unique f n place c d (x ∷ cs) m k =
    Or.elim (hlevel) (mem-cons.0 m)
      (λ e.
        Or.elim (hlevel) (mem-cons.0 k) (λ e'. ap (λ (q : ℕ × Card). f q.1) (e ∙ sym e'))
          (λ later.
            absurd
              (omega (arith, ap (λ (q : ℕ × Card). q.0) e, numbered-Mem (suc n) place d cs later))))
      (λ later.
        Or.elim (hlevel) (mem-cons.0 k)
          (λ e'.
            absurd
              (omega (arith, ap (λ (q : ℕ × Card). q.0) e', numbered-Mem (suc n) place c cs later)))
          (λ later'. numbered_unique f (suc n) place c d cs later later'))

no_rank : {i : ℕ} → ¬ (null ≡ int (pos i))
no_rank h = cc

int_inj : {i j : ℕ} → int (pos i) ≡ int (pos j) → i ≡ j
int_inj h = cc

rank_position :
    (ps : List (ℕ × Card)) (place : ℕ) (c : Card) (i : ℕ)
    → get (with_rank ps (place, c)) "rank" ≡ int (pos i)
    → position place 1 ps ≡ some i
unfolding with_rank
rank_position ps place c i h = go (position place 1 ps) refl
  where
    go : (o : Option ℕ) → position place 1 ps ≡ o → position place 1 ps ≡ some i
    go none e = absurd (no_rank (sym (get-pop c "rank" "rank") ∙ rw (e) at h))
    go (some k) e =
        e ∙ ap some (int_inj (sym (get-put c "rank" "rank" (int (pos k))) ∙ rw (e) at h))

pub filter-Mem :
    (p : ℕ × Card) (xs : List (ℕ × Card)) (test : ℕ × Card → Bool)
    → Mem p (filter test xs)
    → Mem p xs
unfolding filter
filter-Mem p [] test m = absurd (not-mem-nil m)
filter-Mem p (x ∷ xs) test m = elim (Bool-cases (test x)) [
  | inl e ↦
      Or.elim (hlevel) (mem-cons.0 (rw (e) at m)) (λ same. rw same mem-cons_self)
        (λ later. mem-cons_of_mem x (filter-Mem p xs test later))
  | inr e ↦ mem-cons_of_mem x (filter-Mem p xs test (rw (e) at m))
]

pub ranked-Mem :
    (env : Env) (tasks : List Card) (p : ℕ × Card)
    → Mem p (ranked env tasks)
    → Mem p (numbered 0 tasks)
unfolding ranked
ranked-Mem env tasks p m =
    filter-Mem p (numbered 0 tasks) (λ q. is_ranked q.1) (Perm.subset (sort-perm _ _) p m)

join_ℕ : (a b c : ℕ) → Joins (compare_ℕ a b) (compare_ℕ b c) (compare_ℕ a c)
join_ℕ a b c = ground arith

swap_ℕ : (a b : ℕ) → compare_ℕ b a ≡ flip (compare_ℕ a b)
swap_ℕ a b = ground arith

ℕ-IsOrder : IsOrder compare_ℕ
ℕ-IsOrder = record { swap = swap_ℕ; join = join_ℕ }

compare_ranked-IsOrder : (env : Env) → IsOrder (compare_ranked env)
compare_ranked-IsOrder env = by_then-IsOrder _ _ (key-IsOrder quadrant compare_ℕ ℕ-IsOrder) (
    by_then-IsOrder _ _ (reversed-IsOrder _ (key-IsOrder score compare_ℕ ℕ-IsOrder)) (
      by_then-IsOrder _ _ (key-IsOrder (scored_text env) compare text-IsOrder)
        (key-IsOrder (id_text env) compare text-IsOrder)))

ranked-IsSorted :
    (env : Env) (tasks : List Card)
    → IsSorted (λ p q. compare_ranked env p.1 q.1) (ranked env tasks)
unfolding ranked
ranked-IsSorted env tasks =
    sort-IsSorted (λ p q. compare_ranked env p.1 q.1)
      (key-IsOrder (λ (p : ℕ × Card). p.1) (compare_ranked env) (compare_ranked-IsOrder env))
      (filter (λ p. is_ranked p.1) (numbered 0 tasks))

with_rank-is_gt :
    (env : Env) (tasks : List Card) (m n : ℕ) (a b : Card) (i j : ℕ)
    → Mem (m, a) (numbered 0 tasks)
    → Mem (n, b) (numbered 0 tasks)
    → get (with_rank (ranked env tasks) (m, a)) "rank" ≡ int (pos i)
    → get (with_rank (ranked env tasks) (n, b)) "rank" ≡ int (pos j)
    → i < j
    → is_gt (compare_ranked env a b) ≡ false
with_rank-is_gt env tasks m n a b i j p q h k lt =
    let order = ranked env tasks in
    let (a', b', p', q', le) =
      IsSorted-position (compare_ranked env) m n 1 i j order (ranked-IsSorted env tasks)
        (rank_position order m a i h) (rank_position order n b j k) lt in
    numbered_unique (λ c. is_gt (compare_ranked env c b)) 0 m a a' tasks p
      (ranked-Mem env tasks (m, a') p')
    ∙ numbered_unique (λ c. is_gt (compare_ranked env a' c)) 0 n b b' tasks q
        (ranked-Mem env tasks (n, b') q')
    ∙ le

-- The row at a place.
abbrev pub row_at : ℕ → List Card → Option Card
row_at place [] = none
row_at zero (c ∷ cs) = some c
row_at (suc place) (c ∷ cs) = row_at place cs

pub row_at-Mem :
    (k place n : ℕ) (cs : List Card) {c : Card}
    → k + place ≡ n
    → row_at place cs ≡ some c
    → Mem (n, c) (numbered k cs)
row_at-Mem k place n [] e h = cc
row_at-Mem k zero n (d ∷ cs) {c} e h =
    let same : k ≡ n = omega (arith, e) in
    subst (λ x. Mem (n, x) ((k, d) ∷ numbered (suc k) cs)) (some_inj h)
      (subst (λ x. Mem (x, d) ((k, d) ∷ numbered (suc k) cs)) same mem-cons_self)
row_at-Mem k (suc place) n (d ∷ cs) {c} e h =
    mem-cons_of_mem (k, d) (row_at-Mem (suc k) place n cs (omega (arith, e)) h)

pub row_at-with_rank :
    (order : List (ℕ × Card)) (k place n : ℕ) (cs : List Card) {c : Card}
    → k + place ≡ n
    → row_at place cs ≡ some c
    → row_at place (map (with_rank order) (numbered k cs)) ≡ some (with_rank order (n, c))
row_at-with_rank order k place n [] e h = cc
row_at-with_rank order k zero n (x ∷ cs) {c} e h =
    let same : k ≡ n = omega (arith, e) in
    ap (λ y. some (with_rank order (k, y))) (some_inj h)
    ∙ ap (λ y. some (with_rank order (y, c))) same
row_at-with_rank order k (suc place) n (x ∷ cs) e h =
    row_at-with_rank order (suc k) place n cs (omega (arith, e)) h

-- Of two rows that `recompute_ranks` leaves with ranks, the one with the smaller rank was not after the
-- other in the order of the key before: high importance first, then the score, the age and the id.
pub recompute_ranks-is_gt :
    (env : Env) (tasks : List Card) (m n : ℕ) (a b a' b' : Card) (i j : ℕ)
    → row_at m tasks ≡ some a
    → row_at n tasks ≡ some b
    → row_at m (recompute_ranks env tasks).0 ≡ some a'
    → row_at n (recompute_ranks env tasks).0 ≡ some b'
    → get a' "rank" ≡ int (pos i)
    → get b' "rank" ≡ int (pos j)
    → i < j
    → is_gt (compare_ranked env a b) ≡ false
unfolding recompute_ranks
recompute_ranks-is_gt env tasks m n a b a' b' i j p q p' q' h k lt =
    let order = ranked env tasks in
    with_rank-is_gt env tasks m n a b i j (row_at-Mem 0 m m tasks (omega arith) p)
      (row_at-Mem 0 n n tasks (omega arith) q)
      (rw (some_inj (sym p' ∙ row_at-with_rank order 0 m m tasks (omega arith) p)) at h)
      (rw (some_inj (sym q' ∙ row_at-with_rank order 0 n n tasks (omega arith) q)) at k) lt
