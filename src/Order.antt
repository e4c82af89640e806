-- ===== src/Order.antt =====
-- The three-way comparisons that lists of cards are sorted by, and what makes one an order. Python
-- compares tuples by the first part that differs.
use Prim.Native.Nat.{Ordering, compare as compare_ℕ}
use Prim.Native.String.{compare, then}
use scitex_todo.Prelude.{ℕ, ◌+◌, String, ◌≡◌, refl, Bool, true, false, arith, sym, ap, ◌∙◌}
use scitex_todo.Py.Order.{flip, compare-flip, compare_lt_trans}
use scitex_todo.Py.Value.{ℤ, pos_part, neg_part}
use text.Mathlib.TextEquality.{path_by_compare}

-- How the answers for (a, b) and (b, c) decide the one for (a, c).
abbrev pub Joins : Ordering → Ordering → Ordering → Type 0
Joins Ordering.lt Ordering.lt o = o ≡ Ordering.lt
Joins Ordering.lt Ordering.eq o = o ≡ Ordering.lt
Joins Ordering.eq p o = o ≡ p
Joins Ordering.gt Ordering.gt o = o ≡ Ordering.gt
Joins Ordering.gt Ordering.eq o = o ≡ Ordering.gt
Joins _ _ o = Unit

pub record IsOrder {ℓ} {A : Type ℓ} (cmp : A → A → Ordering) : Type ℓ where
  pub swap : (a b : A) → cmp b a ≡ flip (cmp a b)
  pub join : (a b c : A) → Joins (cmp a b) (cmp b c) (cmp a c)

then-Joins :
    (a b c a' b' c' : Ordering)
    → Joins a b c
    → Joins a' b' c'
    → Joins (then a a') (then b b') (then c c')
then-Joins Ordering.lt Ordering.lt c a' b' c' h k = rw h
then-Joins Ordering.lt Ordering.eq c a' Ordering.lt c' h k = rw h
then-Joins Ordering.lt Ordering.eq c a' Ordering.eq c' h k = rw h
then-Joins Ordering.lt Ordering.eq c a' Ordering.gt c' h k = tt
then-Joins Ordering.lt Ordering.gt c a' b' c' h k = tt
then-Joins Ordering.eq Ordering.lt c Ordering.lt b' c' h k = rw h
then-Joins Ordering.eq Ordering.lt c Ordering.eq b' c' h k = rw h
then-Joins Ordering.eq Ordering.lt c Ordering.gt b' c' h k = tt
then-Joins Ordering.eq Ordering.eq c a' b' c' h k = rw h k
then-Joins Ordering.eq Ordering.gt c Ordering.lt b' c' h k = tt
then-Joins Ordering.eq Ordering.gt c Ordering.eq b' c' h k = rw h
then-Joins Ordering.eq Ordering.gt c Ordering.gt b' c' h k = rw h
then-Joins Ordering.gt Ordering.lt c a' b' c' h k = tt
then-Joins Ordering.gt Ordering.eq c a' Ordering.lt c' h k = tt
then-Joins Ordering.gt Ordering.eq c a' Ordering.eq c' h k = rw h
then-Joins Ordering.gt Ordering.eq c a' Ordering.gt c' h k = rw h
then-Joins Ordering.gt Ordering.gt c a' b' c' h k = rw h

flip-then : (o r : Ordering) → flip (then o r) ≡ then (flip o) (flip r)
flip-then Ordering.lt r = refl
flip-then Ordering.eq r = refl
flip-then Ordering.gt r = refl

-- The order by one part, and where it says "equal" by another.
abbrev pub by_then {ℓ} : {A : Type ℓ} → (A → A → Ordering) → (A → A → Ordering) → A → A → Ordering
by_then cmp cmp' a b = then (cmp a b) (cmp' a b)

pub by_then-IsOrder {ℓ} :
    {A : Type ℓ} (cmp cmp' : A → A → Ordering)
    → IsOrder cmp
    → IsOrder cmp'
    → IsOrder (by_then cmp cmp')
by_then-IsOrder cmp cmp' o o' = record {
  swap = λ a b. rw (o.swap a b, o'.swap a b) (sym (flip-then (cmp a b) (cmp' a b)));
  join = λ a b c. then-Joins _ _ _ _ _ _ (o.join a b c) (o'.join a b c);
}

-- The order by a key.
pub key-IsOrder {ℓ κ} :
    {A : Type ℓ} {B : Type κ} (key : A → B) (cmp : B → B → Ordering)
    → IsOrder cmp
    → IsOrder (λ a b. cmp (key a) (key b))
key-IsOrder key cmp o = record {
  swap = λ a b. o.swap (key a) (key b);
  join = λ a b c. o.join (key a) (key b) (key c);
}

-- The order turned round (`_NegStr`).
abbrev pub reversed {ℓ} : {A : Type ℓ} → (A → A → Ordering) → A → A → Ordering
reversed cmp a b = cmp b a

Joins-symm : (a b c : Ordering) → Joins a b c → Joins b a c
Joins-symm Ordering.lt Ordering.lt c h = h
Joins-symm Ordering.lt Ordering.eq c h = h
Joins-symm Ordering.lt Ordering.gt c h = tt
Joins-symm Ordering.eq Ordering.lt c h = h
Joins-symm Ordering.eq Ordering.eq c h = h
Joins-symm Ordering.eq Ordering.gt c h = h
Joins-symm Ordering.gt Ordering.lt c h = tt
Joins-symm Ordering.gt Ordering.eq c h = h
Joins-symm Ordering.gt Ordering.gt c h = h

pub reversed-IsOrder {ℓ} :
    {A : Type ℓ} (cmp : A → A → Ordering) → IsOrder cmp → IsOrder (reversed cmp)
reversed-IsOrder cmp o = record {
  swap = λ a b. o.swap b a;
  join = λ a b c. Joins-symm (cmp c b) (cmp b a) (cmp c a) (o.join c b a);
}

abbrev pub compare_ℤ : ℤ → ℤ → Ordering
compare_ℤ a b = compare_ℕ (pos_part a + neg_part b) (pos_part b + neg_part a)

join_ℕ :
    (a a' b b' c c' : ℕ)
    → Joins
        (compare_ℕ (a + b') (b + a'))
        (compare_ℕ (b + c') (c + b'))
        (compare_ℕ (a + c') (c + a'))
join_ℕ a a' b b' c c' = ground arith

swap_ℕ : (m n : ℕ) → compare_ℕ n m ≡ flip (compare_ℕ m n)
swap_ℕ m n = ground arith

pub compare_ℤ-IsOrder : IsOrder compare_ℤ
compare_ℤ-IsOrder = record {
  swap = λ a b. swap_ℕ (pos_part a + neg_part b) (pos_part b + neg_part a);
  join =
      λ a b c. join_ℕ (pos_part a) (neg_part a) (pos_part b) (neg_part b) (pos_part c) (neg_part c);
}

gt→lt : (s t : String) → compare s t ≡ Ordering.gt → compare t s ≡ Ordering.lt
gt→lt s t h = compare-flip s t ∙ ap flip h

lt→gt : (s t : String) → compare s t ≡ Ordering.lt → compare t s ≡ Ordering.gt
lt→gt s t h = compare-flip s t ∙ ap flip h

text-Joins :
    (s t u : String) (o p : Ordering) → compare s t ≡ o → compare t u ≡ p → Joins o p (compare s u)
text-Joins s t u Ordering.lt Ordering.lt h k = compare_lt_trans s t u h k
text-Joins s t u Ordering.lt Ordering.eq h k = rw (← path_by_compare t u k) h
text-Joins s t u Ordering.lt Ordering.gt h k = tt
text-Joins s t u Ordering.eq p h k = rw (path_by_compare s t h) k
text-Joins s t u Ordering.gt Ordering.lt h k = tt
text-Joins s t u Ordering.gt Ordering.eq h k = rw (← path_by_compare t u k) h
text-Joins s t u Ordering.gt Ordering.gt h k =
    lt→gt u s (compare_lt_trans u t s (gt→lt t u k) (gt→lt s t h))

pub text-IsOrder : IsOrder compare
text-IsOrder = record { swap = compare-flip; join = λ s t u. text-Joins s t u _ _ refl refl }

abbrev pub is_gt : Ordering → Bool
is_gt Ordering.gt = true
is_gt _ = false

gt_join : (o p q : Ordering) → Joins o p q → is_gt o ≡ false → is_gt p ≡ false → is_gt q ≡ false
gt_join Ordering.lt Ordering.lt q j h k = rw j
gt_join Ordering.lt Ordering.eq q j h k = rw j
gt_join Ordering.lt Ordering.gt q j h k = cc
gt_join Ordering.eq p q j h k = rw j k
gt_join Ordering.gt p q j h k = cc

gt_swap : (o : Ordering) → is_gt o ≡ true → is_gt (flip o) ≡ false
gt_swap Ordering.gt h = refl
gt_swap Ordering.lt h = cc
gt_swap Ordering.eq h = cc

module _ {ℓ} {A : Type ℓ} (cmp : A → A → Ordering) (o : IsOrder cmp) where
  pub le_trans :
      (a b c : A) → is_gt (cmp a b) ≡ false → is_gt (cmp b c) ≡ false → is_gt (cmp a c) ≡ false
  le_trans a b c h k = gt_join (cmp a b) (cmp b c) (cmp a c) (o.join a b c) h k

  pub le_of_gt : (a b : A) → is_gt (cmp a b) ≡ true → is_gt (cmp b a) ≡ false
  le_of_gt a b h = rw (o.swap a b) (gt_swap (cmp a b) h)

  le_refl_gt : (p : Ordering) → p ≡ flip p → is_gt p ≡ false
  le_refl_gt Ordering.lt h = refl
  le_refl_gt Ordering.eq h = refl
  le_refl_gt Ordering.gt h = cc

  pub le_refl : (a : A) → is_gt (cmp a a) ≡ false
  le_refl a = le_refl_gt (cmp a a) (o.swap a a)
