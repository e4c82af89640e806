-- ===== src/Store/Atomic.antt =====
-- What every locked read-modify-write cycle has, whatever the verb between its read and its save does.
use scitex_todo.Prelude.{
  ◌≡◌, refl, subst, Bool, true, false, not, String, List, [], ◌∷◌, ◌++◌, any, all, All, arith,
  str_eq, eq_iff, eq_refl,
}
use scitex_todo.Py.Raise.{Exception, Result, ok, raise, raise_if-eq-ok, >>=-eq-ok, >>-eq-ok, ok_inj}
use scitex_todo.Card.{Card}
use scitex_todo.Env.{Env}
use scitex_todo.Validate.{validate_tasks}
use scitex_todo.Validate.Sound.{Distinct, IsSound, validate_tasks-IsSound}
use scitex_todo.Store.State.{
  Store, Effect, row_ids, assert_no_shrink, save_doc, Outcome, keep, write, commit, conclude,
  transaction,
}

-- What the gate at the save promises of a store at rest.
pub record WellFormed (tasks : List Card) : Type 0 where
  pub distinct : Distinct tasks
  pub sound : All IsSound tasks

abbrev pub has_id : List String → String → Bool
has_id ids i = any (λ j. str_eq i j) ids

-- Every id on the left is one on the right.
abbrev pub Kept : List String → List String → Type 0
Kept ids later = All (λ i. has_id later i ≡ true) ids

all-All : (p : String → Bool) (xs : List String) → all p xs ≡ true → All (λ x. p x ≡ true) xs
all-All p [] h = tt
all-All p (x ∷ xs) h = (ground arith, all-All p xs (ground arith))

Kept-cons : (j : String) (ids later : List String) → Kept ids later → Kept ids (j ∷ later)
Kept-cons j [] later h = tt
Kept-cons j (i ∷ ids) later h = (ground arith, Kept-cons j ids later h.1)

pub Kept-refl : (ids : List String) → Kept ids ids
Kept-refl [] = tt
Kept-refl (i ∷ ids) = (rw eq_refl refl, Kept-cons i ids ids (Kept-refl ids))

Kept-has_id :
    (i : String) (ids later : List String)
    → Kept ids later
    → has_id ids i ≡ true
    → has_id later i ≡ true
Kept-has_id i [] later h e = cc
Kept-has_id i (j ∷ ids) later h e = ground (arith, eq_iff i j, h.0, Kept-has_id i ids later h.1)

pub Kept-trans : (a b c : List String) → Kept a b → Kept b c → Kept a c
Kept-trans [] b c h k = tt
Kept-trans (i ∷ a) b c h k = (Kept-has_id i b c k h.0, Kept-trans a b c h.1 k)

not-false : (b : Bool) → not b ≡ false → b ≡ true
not-false true h = refl
not-false false h = cc

record Saved (env : Env) (stored saved : List Card) : Type 0 where
  well : WellFormed saved
  kept : Kept (row_ids env stored) (row_ids env saved)

save_doc-Saved :
    (env : Env) (stored rows : List Card) {saved : List Card}
    → save_doc env stored rows ≡ ok saved
    → Saved env stored saved
unfolding save_doc assert_no_shrink
save_doc-Saved env stored rows {saved} h =
    let (saved', e, h1) = >>=-eq-ok (validate_tasks env rows) _ h in
    let (n, h2) = >>-eq-ok (assert_no_shrink env stored saved') _ h1 in
    let (distinct, sound, same) = validate_tasks-IsSound env rows saved' e in
    subst (Saved env stored) (ok_inj h2) (record {
      well = record { distinct = distinct; sound = sound };
      kept = all-All _ _ (not-false _ (raise_if-eq-ok _ _ n));
    })

-- How the store after a cycle stands to the one before.
pub record Cycled (env : Env) {A : Type 0} (s : Store) (r : Result A × Store) : Type 0 where
  pub well : WellFormed r.1.tasks
  pub kept : Kept (row_ids env s.tasks) (row_ids env r.1.tasks)
  pub sections : r.1.sections ≡ s.sections

module _ {A : Type 0} (env : Env) where
  unchanged-Cycled :
      (s : Store) (o : Result A) (sent : List Effect)
      → WellFormed s.tasks
      → Cycled env s (o, record s { effects = sent })
  unchanged-Cycled s o sent w = record {
    well = w;
    kept = Kept-refl (row_ids env s.tasks);
    sections = refl;
  }

  commit-Cycled :
      (s : Store) (r : Result (List Card)) (finish : List Card → A × List Effect)
      → WellFormed s.tasks
      → ((saved : List Card) → r ≡ ok saved → Saved env s.tasks saved)
      → Cycled env s (commit s r finish)
  commit-Cycled s (raise e) finish w h = unchanged-Cycled s (raise e) s.effects w
  commit-Cycled s (ok saved) finish w h =
      let k = h saved refl in record { well = k.well; kept = k.kept; sections = refl }

  conclude-Cycled :
      (s : Store) (r : Result (Outcome A)) → WellFormed s.tasks → Cycled env s (conclude env s r)
  conclude-Cycled s (raise e) w = unchanged-Cycled s (raise e) s.effects w
  conclude-Cycled s (ok (keep a sent)) w = unchanged-Cycled s (ok a) (s.effects ++ sent) w
  conclude-Cycled s (ok (write rows finish)) w =
      commit-Cycled s (save_doc env s.tasks rows) finish w
        λ saved h. save_doc-Saved env s.tasks rows h

  pub transaction-Cycled :
      (body : List Card → Result (Outcome A)) (s : Store)
      → WellFormed s.tasks
      → Cycled env s (transaction env body s)
  unfolding transaction
  transaction-Cycled body s w = conclude-Cycled s (body s.tasks) w

  commit-raise :
      (s : Store) (r : Result (List Card)) (finish : List Card → A × List Effect) {e : Exception}
      → (commit s r finish).0 ≡ raise e
      → (commit s r finish).1 ≡ s
  commit-raise s (raise e) finish h = refl
  commit-raise s (ok saved) finish h = cc

  conclude-raise :
      (s : Store) (r : Result (Outcome A)) {e : Exception}
      → (conclude env s r).0 ≡ raise e
      → (conclude env s r).1 ≡ s
  conclude-raise s (raise e) h = refl
  conclude-raise s (ok (keep a sent)) h = cc
  conclude-raise s (ok (write rows finish)) h = commit-raise s (save_doc env s.tasks rows) finish h

  pub transaction-raise :
      (body : List Card → Result (Outcome A)) (s : Store) {e : Exception}
      → (transaction env body s).0 ≡ raise e
      → (transaction env body s).1 ≡ s
  unfolding transaction
  transaction-raise body s h = conclude-raise s (body s.tasks) h

  -- A cycle that answers either saved nothing or saved what its body wrote, as the gate lets it
  -- through.
  abbrev pub Ended : Store → Outcome A → A → Store → Type 0
  Ended s (keep b sent) a t = (b ≡ a) × (t.tasks ≡ s.tasks)
  Ended s (write rows finish) a t =
      (save_doc env s.tasks rows ≡ ok t.tasks) × ((finish t.tasks).0 ≡ a)

  commit-Ended :
      (s : Store) (rows : List Card) (finish : List Card → A × List Effect) (r : Result (List Card))
      {a : A}
      → save_doc env s.tasks rows ≡ r
      → (commit s r finish).0 ≡ ok a
      → Ended s (write rows finish) a (commit s r finish).1
  commit-Ended s rows finish (raise e) q h = cc
  commit-Ended s rows finish (ok saved) q h = (q, ok_inj h)

  conclude-Ended :
      (s : Store) (r : Result (Outcome A)) {a : A}
      → (conclude env s r).0 ≡ ok a
      → (o : Outcome A) × (r ≡ ok o) × Ended s o a (conclude env s r).1
  conclude-Ended s (raise e) h = cc
  conclude-Ended s (ok (keep a sent)) h = (keep a sent, refl, (ok_inj h, refl))
  conclude-Ended s (ok (write rows finish)) h =
      (write rows finish, refl, commit-Ended s rows finish (save_doc env s.tasks rows) refl h)

  pub transaction-Ended :
      (body : List Card → Result (Outcome A)) (s : Store) {a : A}
      → (transaction env body s).0 ≡ ok a
      → (o : Outcome A) × (body s.tasks ≡ ok o) × Ended s o a (transaction env body s).1
  unfolding transaction
  transaction-Ended body s h = conclude-Ended s (body s.tasks) h
