-- ===== src/Membership.antt =====
-- `All`, by recursion, against the library's membership.
use mathlib.Core.List.{Mem, not-mem-nil, mem-cons, mem-cons_self, mem-cons_of_mem}
use mathlib.Core.Logic.Or
use scitex_todo.Prelude.{◌≡◌, List, [], ◌∷◌, Bool, All}

module _ {ℓ} {A : Type ℓ} where
  pub All-of_mem {κ} : (P : A → Type κ) (xs : List A) → ((x : A) → Mem x xs → P x) → All P xs
  All-of_mem P [] h = tt
  All-of_mem P (x ∷ xs) h = (h x mem-cons_self, All-of_mem P xs (λ y m. h y (mem-cons_of_mem x m)))

  -- At a test, which is a proposition.
  pub mem_All :
      (p : A → Bool) (b : Bool) {x : A} (xs : List A) → All (λ y. p y ≡ b) xs → Mem x xs → p x ≡ b
  mem_All p b [] h m = absurd (not-mem-nil m)
  mem_All p b (y ∷ ys) h m =
      Or.elim (hlevel) (mem-cons.0 m) (λ e. rw e h.0) (λ later. mem_All p b ys h.1 later)
