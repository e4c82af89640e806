-- ===== src/Sort.antt =====
-- `list.sort(key=...)`: a stable sort by a three-way comparison.
use Prim.Native.Nat.{Ordering}
use mathlib.Core.List.Perm
use mathlib.Core.List.{Perm, perm_middle, append-nil}
use scitex_todo.Prelude.{◌≡◌, false, List, [], ◌∷◌, ◌++◌, All, Bool-cases, inl, inr, if◌then◌else◌}
use scitex_todo.Order.{IsOrder, is_gt, le_trans, le_of_gt}

-- Insertion before the first entry that is greater: equal entries keep their order.
module _ {ℓ} {A : Type ℓ} (cmp : A → A → Ordering) where
  unfoldable pub insert : A → List A → List A
  insert x [] = x ∷ []
  insert x (y ∷ ys) = if is_gt (cmp y x) then x ∷ y ∷ ys else y ∷ insert x ys

  unfoldable pub sort_onto : List A → List A → List A
  unfolding insert
  sort_onto sorted [] = sorted
  sort_onto sorted (x ∷ xs) = sort_onto (insert x sorted) xs

  unfoldable pub sort : List A → List A
  unfolding sort_onto
  sort xs = sort_onto [] xs

  -- Every entry is at most each of those behind it.
  abbrev pub IsSorted : List A → Type ℓ
  IsSorted [] = Unit
  IsSorted (x ∷ xs) = All (λ y. is_gt (cmp x y) ≡ false) xs × IsSorted xs

  insert-perm : (x : A) (xs : List A) → Perm (insert x xs) (x ∷ xs)
  unfolding insert
  insert-perm x [] = Perm.rfl
  insert-perm x (y ∷ ys) = elim (Bool-cases (is_gt (cmp y x))) [
    | inl e ↦ rw e Perm.rfl
    | inr e ↦ rw e (Perm.trans (Perm.cons y (insert-perm x ys)) (Perm.swap x y ys))
  ]

  sort_onto-perm : (sorted xs : List A) → Perm (sort_onto sorted xs) (xs ++ sorted)
  unfolding sort_onto
  sort_onto-perm sorted [] = Perm.rfl
  sort_onto-perm sorted (x ∷ xs) =
      Perm.trans (sort_onto-perm (insert x sorted) xs)
        (Perm.trans (Perm.append_left xs (insert-perm x sorted)) (perm_middle xs sorted))

  -- The sorted list holds the given entries, each as often.
  pub sort-perm : (xs : List A) → Perm (sort xs) xs
  unfolding sort
  sort-perm xs = rw append-nil at (sort_onto-perm [] xs)

  insert-All {κ} : (P : A → Type κ) (x : A) (xs : List A) → P x → All P xs → All P (insert x xs)
  unfolding insert
  insert-All P x [] h k = (h, tt)
  insert-All P x (y ∷ ys) h k = elim (Bool-cases (is_gt (cmp y x))) [
    | inl e ↦ rw e (h, k)
    | inr e ↦ rw e (k.0, insert-All P x ys h k.1)
  ]

  module _ (o : IsOrder cmp) where
    behind :
        (x y : A) (ys : List A)
        → is_gt (cmp x y) ≡ false
        → All (λ z. is_gt (cmp y z) ≡ false) ys
        → All (λ z. is_gt (cmp x z) ≡ false) ys
    behind x y [] h k = tt
    behind x y (z ∷ zs) h k = (le_trans cmp o x y z h k.0, behind x y zs h k.1)

    insert-IsSorted : (x : A) (xs : List A) → IsSorted xs → IsSorted (insert x xs)
    unfolding insert
    insert-IsSorted x [] h = (tt, tt)
    insert-IsSorted x (y ∷ ys) h = elim (Bool-cases (is_gt (cmp y x))) [
      | inl e ↦ let le = le_of_gt cmp o y x e in rw e ((le, behind x y ys le h.0), (h.0, h.1))
      | inr e ↦
          rw e (insert-All (λ z. is_gt (cmp y z) ≡ false) x ys e h.0, insert-IsSorted x ys h.1)
    ]

    sort_onto-IsSorted : (sorted xs : List A) → IsSorted sorted → IsSorted (sort_onto sorted xs)
    unfolding sort_onto
    sort_onto-IsSorted sorted [] h = h
    sort_onto-IsSorted sorted (x ∷ xs) h =
        sort_onto-IsSorted (insert x sorted) xs (insert-IsSorted x sorted h)

    pub sort-IsSorted : (xs : List A) → IsSorted (sort xs)
    unfolding sort
    sort-IsSorted xs = sort_onto-IsSorted [] xs tt
