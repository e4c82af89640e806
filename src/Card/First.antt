-- ===== src/Card/First.antt =====
-- `for t in rows: if test(t): ... break`: the first row that passes a test, and the rows with that
-- one row changed in place.
use scitex_todo.Prelude.{
  ◌≡◌, ap, Bool, true, false, Option, none, some, List, [], ◌∷◌, ◌++◌, arith, All, map,
  if◌then◌else◌, Bool-cases, inl, inr,
}

module _ {ℓ} {A : Type ℓ} where
  unfoldable pub first : (A → Bool) → List A → Option A
  first p [] = none
  first p (x ∷ xs) = if p x then some x else first p xs

  unfoldable pub change_first : (A → Bool) → (A → A) → List A → List A
  change_first p f [] = []
  change_first p f (x ∷ xs) = if p x then f x ∷ xs else x ∷ change_first p f xs

  -- The first row that passes changed one way, and every other row another way.
  unfoldable pub change_rest : (A → Bool) → (A → A) → (A → A) → List A → List A
  change_rest p f g [] = []
  change_rest p f g (x ∷ xs) = if p x then f x ∷ map g xs else g x ∷ change_rest p f g xs

  -- Where the row found stands, and that only it is changed.
  pub record Found (p : A → Bool) (f : A → A) (xs : List A) (x : A) : Type ℓ where
    pub before : List A
    pub after : List A
    pub rows : xs ≡ before ++ x ∷ after
    pub changed : change_first p f xs ≡ before ++ f x ∷ after
    pub passes : p x ≡ true
    pub skipped : All (λ y. p y ≡ false) before

  pub first-Found :
      (p : A → Bool) (f : A → A) (xs : List A) {x : A} → first p xs ≡ some x → Found p f xs x
  unfolding first change_first
  first-Found p f [] h = cc
  first-Found p f (y ∷ ys) {x} h = elim (Bool-cases (p y)) [
    | inl e ↦ record {
      before = [];
      after = ys;
      rows = ground arith;
      changed = ground arith;
      passes = ground arith;
      skipped = tt;
    }
    | inr e ↦
        let r = first-Found p f ys {x = x} (ground arith) in
        record {
          before = y ∷ r.before;
          after = r.after;
          rows = ap (λ (l : List A). y ∷ l) r.rows;
          changed = rw e (ap (λ (l : List A). y ∷ l) r.changed);
          passes = r.passes;
          skipped = (e, r.skipped);
        }
  ]
