-- ===== src/Users/Fresh.antt =====
-- The search for a fresh id, and its fuel.
use Prim.Native.String.{◌++◌ as append}
use Prim.Native.String.append
use Prim.Native.String.compare
use scitex_todo.Prelude.{
  ℕ, zero, suc, ◌<◌, ◌≤◌, ◌+◌, String, ◌≡◌, refl, sym, ap, ◌∙◌, inl, inr, true, false, not,
  Bool-cases, some, List, [], ◌∷◌, length, filter, str_eq, eq_iff, arith,
}
use scitex_todo.Py.Raise.{Result, ok}
use scitex_todo.Card.{Card}
use scitex_todo.Users.Identity.{holds}
use scitex_todo.Users.Model.{User}
use scitex_todo.Users.Registry.{
  load_users_section, existing_ids, Source, generate_from, generate_user_id, NewUser, settle,
  registered_with, register_as, register_user,
}

abbrev less : String → List String → List String
less s taken = filter (λ t. not (str_eq t s)) taken

less_bounds : (s : String) (taken : List String) → length (less s taken) ≤ length taken
unfolding filter
less_bounds s [] = omega arith
less_bounds s (t ∷ ts) = ground (arith, less_bounds s ts)

less_shorter :
    (s : String) (taken : List String) → holds taken s ≡ true → length (less s taken) < length taken
unfolding filter
less_shorter s [] h = cc
less_shorter s (t ∷ ts) h = ground (arith, less_shorter s ts, less_bounds s ts)

holds-less :
    (s t : String) (taken : List String)
    → str_eq s t ≡ false
    → holds (less s taken) t ≡ holds taken t
unfolding filter
holds-less s t [] e = refl
holds-less s t (u ∷ us) e =
    ground (arith, e, eq_iff u s, eq_iff u t, eq_iff s t, holds-less s t us e)

-- The ids that the random answers give.
abbrev candidate : (ℕ → String) → ℕ → String
candidate token i = append "u_" (token i)

-- Answers that differ up to a bound.
abbrev pub AreDistinct : (ℕ → String) → ℕ → Type 0
AreDistinct token bound = (i j : ℕ) → i < j → j < bound → str_eq (token i) (token j) ≡ false

module _ (token : ℕ → String) (bound : ℕ)
    (apart : (i j : ℕ)
      → i < j
      → j < bound
      → str_eq (candidate token i) (candidate token j) ≡ false) where
  -- An id that no later answer gives need not be looked up.
  generate_from-less :
      (taken : List String) (i fuel j : ℕ)
      → i < j
      → fuel + j ≤ bound
      → generate_from token (less (candidate token i) taken) fuel j
        ≡ generate_from token taken fuel j
  unfolding generate_from
  generate_from-less taken i zero j lt le = refl
  generate_from-less taken i (suc fuel) j lt le =
      rw
        (
          holds-less (candidate token i) (candidate token j) taken (apart i j lt (omega arith)),
          generate_from-less taken i fuel (suc j) (omega arith) (omega arith),
        )
        refl

  generate_from-some :
      (fuel : ℕ) (taken : List String) (i : ℕ)
      → length taken < fuel
      → fuel + i ≤ bound
      → (id : String) × (generate_from token taken fuel i ≡ some id)
  unfolding generate_from
  generate_from-some zero taken i lt le = absurd (omega arith)
  generate_from-some (suc fuel) taken i lt le =
      elim (Bool-cases (holds taken (candidate token i))) [
        | inl e ↦
            let shorter = less_shorter (candidate token i) taken e in
            let (id, h) =
              generate_from-some fuel (less (candidate token i) taken) (suc i) (omega arith)
                (omega arith) in
            (
              id,
              rw e (sym (generate_from-less taken i fuel (suc i) (omega arith) (omega arith)) ∙ h),
            )
        | inr e ↦ (candidate token i, rw e refl)
      ]

append_apart : (p s t : String) → str_eq s t ≡ false → str_eq (append p s) (append p t) ≡ false
append_apart String.[] s t e = rw (append.nil s, append.nil t) e
append_apart (String.◌∷◌ c p) s t e =
    let later = append_apart p s t e in
    rw (append.cons c p s, append.cons c p t, compare.cons-cons c c (append p s) (append p t))
      (ground (arith, later))

generate_user_id-some :
    (token : ℕ → String) (taken : List String)
    → AreDistinct token (suc (length taken))
    → (id : String) × (generate_user_id token taken ≡ some id)
unfolding generate_user_id
generate_user_id-some token taken apart =
    generate_from-some token (suc (length taken))
      (λ i j lt le. append_apart "u_" (token i) (token j) (apart i j lt le)) (suc (length taken))
      taken 0 (omega arith) (omega arith)

-- Where the section of users can be read, and the random answers differ among one more of them than
-- there are ids, a registration answers.
pub register_user-some :
    (source : Source) (n : NewUser) (doc : Card) (us : List Card)
    → load_users_section doc ≡ ok us
    → AreDistinct source.token (suc (length (existing_ids us)))
    → (answer : Result User) × (after : Card) × (register_user source n doc ≡ some (answer, after))
unfolding register_user
register_user-some source n doc us l apart =
    let (id, h) = generate_user_id-some source.token (existing_ids us) apart in
    let done = settle doc (registered_with source id n us doc) in
    (done.0, done.1, rw (l) (ap (register_as source n doc us) h))
