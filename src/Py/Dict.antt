-- ===== src/Py/Dict.antt =====
-- A Python dict with string keys: its entries in insertion order. Writing to a key that is there
-- keeps its place, and a new key goes to the end.
use scitex_todo.Prelude.{
  String, ◌≡◌, refl, Bool, true, false, Option, none, some, List, [], ◌∷◌, arith, str_eq, eq_iff,
  if◌then◌else◌,
}

abbrev pub Dict {ℓ} : Type ℓ → Type ℓ
Dict V = List (String × V)

module _ {ℓ} {V : Type ℓ} where
  -- `d.get(k)`, with `none` for a missing key
  unfoldable pub lookup : Dict V → String → Option V
  lookup [] k = none
  lookup ((j, v) ∷ d) k = if str_eq j k then some v else lookup d k

  -- `d[k] = v`
  unfoldable pub put : Dict V → String → V → Dict V
  put [] k v = (k, v) ∷ []
  put ((j, w) ∷ d) k v = if str_eq j k then (j, v) ∷ d else (j, w) ∷ put d k v

  -- `d.pop(k, None)`. A dict holds a key once, so taking out every entry of the key is taking out
  -- the one entry.
  unfoldable pub pop : Dict V → String → Dict V
  pop [] k = []
  pop ((j, w) ∷ d) k = if str_eq j k then pop d k else (j, w) ∷ pop d k

  pub lookup-put :
      (d : Dict V) (k j : String) (v : V)
      → lookup (put d k v) j ≡ (if str_eq k j then some v else lookup d j)
  unfolding lookup put
  lookup-put [] k j v = refl
  lookup-put ((i, w) ∷ d) k j v =
      ground (arith, eq_iff k j, eq_iff i k, eq_iff i j, lookup-put d k j v)

  pub lookup-pop :
      (d : Dict V) (k j : String) → lookup (pop d k) j ≡ (if str_eq k j then none else lookup d j)
  unfolding lookup pop
  lookup-pop [] k j = ground arith
  lookup-pop ((i, w) ∷ d) k j = ground (arith, eq_iff k j, eq_iff i k, eq_iff i j, lookup-pop d k j)

-- `k in d`
abbrev pub has {ℓ} : {V : Type ℓ} → Dict V → String → Bool
has d k = elim (lookup d k) [ none ↦ false | some _ ↦ true ]
