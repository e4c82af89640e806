-- ===== src/Store/Mutate/Fields.antt =====
-- The fields of a card that `update_task` has written.
use scitex_todo.Prelude.{
  ◌≡◌, refl, subst, ◌∙◌, Bool, true, false, ◌||◌, inl, inr, Bool-cases, Option, none, some, [], ◌∷◌,
  arith, str_eq, eq_iff, String, if◌then◌else◌,
}
use scitex_todo.Py.Dict.{lookup, put, pop, has, lookup-put}
use scitex_todo.Py.Value.{Value, null, text, bool, int, list, dict, is_null}
use scitex_todo.Py.Raise.{ok, raise_if, >>-eq-ok, ok_inj, task_validation_error}
use scitex_todo.Card.{Card, get, get-put, get-pop}
use scitex_todo.Env.{Env}
use scitex_todo.Store.Enums.{is_clear_sentinel, clear_enum, resolve_enum_clears}
use scitex_todo.Store.Mutate.{apply_fields, stamp_deferred_at, updated_row}

-- No key stands twice in a dict.
abbrev pub IsDict : Card → Type 0
IsDict [] = Unit
IsDict ((k, v) ∷ d) = (lookup d k ≡ none) × IsDict d

abbrev pub given : Option Value → Value → Value
given none old = old
given (some v) old = v

get_applied :
    (c : Card) (j k : String) (v : Value)
    → get (if is_null v then pop c j else put c j v) k ≡ (if str_eq j k then v else get c k)
get_applied c j k null = get-pop c j k
get_applied c j k (bool b) = get-put c j k (bool b)
get_applied c j k (int z) = get-put c j k (int z)
get_applied c j k (text t) = get-put c j k (text t)
get_applied c j k (list vs) = get-put c j k (list vs)
get_applied c j k (dict d) = get-put c j k (dict d)

apply_fields-get :
    (c fields : Card) (k : String)
    → IsDict fields
    → get (apply_fields c fields) k ≡ given (lookup fields k) (get c k)
unfolding apply_fields lookup
apply_fields-get c [] k u = refl
apply_fields-get c ((j, v) ∷ fields) k u =
    apply_fields-get (if is_null v then pop c j else put c j v) fields k u.1
    ∙ elim (Bool-cases (str_eq j k)) [
      | inl e ↦
          let gone = subst (λ x. lookup fields x ≡ none) ((eq_iff j k).0 e) u.0 in
          rw (gone, get_applied c j k v, e) refl
      | inr e ↦ rw (get_applied c j k v, e) refl
    ]

abbrev pub is_stamp : String → Bool
is_stamp k = str_eq "last_activity" k || str_eq "deferred_at" k

stamp_deferred_at-get :
    (now : String) (prior : Value) (c : Card) (k : String)
    → str_eq "deferred_at" k ≡ false
    → get (stamp_deferred_at now prior c) k ≡ get c k
unfolding stamp_deferred_at
stamp_deferred_at-get now prior c k n = ground (arith, get-put c "deferred_at" k (text now))

pub updated_row-get :
    (env : Env) (fields c : Card) (k : String)
    → IsDict fields
    → is_stamp k ≡ false
    → get (updated_row env fields c) k ≡ given (lookup fields k) (get c k)
unfolding updated_row
updated_row-get env fields c k u n =
    stamp_deferred_at-get _ (get c "status") _ k (ground arith)
    ∙ elim (Bool-cases (has fields "last_activity")) [
      | inl e ↦ rw (e) (apply_fields-get c fields k u)
      | inr e ↦
          let late : str_eq "last_activity" k ≡ false = ground arith in
          rw (e, get-put (apply_fields c fields) "last_activity" k, late)
            (apply_fields-get c fields k u)
    ]

pub clear_enum-lookup :
    (key : String) (fields : Card) (k : String)
    → str_eq key k ≡ false
    → lookup (clear_enum key fields) k ≡ lookup fields k
unfolding clear_enum
clear_enum-lookup key fields k n = ground (arith, lookup-put fields key k null)

put-IsDict : (d : Card) (k : String) (v : Value) → has d k ≡ true → IsDict d → IsDict (put d k v)
unfolding put lookup
put-IsDict [] k v h u = cc
put-IsDict ((j, w) ∷ d) k v h u = elim (Bool-cases (str_eq j k)) [
  | inl e ↦ rw (e) u
  | inr e ↦
      let kept : lookup (put d k v) j ≡ none = lookup-put d k j v ∙ rw (apart j k e) u.0 in
      rw (e) (kept, put-IsDict d k v (rw (has, e) at h) u.1)
]
  where
    apart : (j k : String) → str_eq j k ≡ false → str_eq k j ≡ false
    apart j k e = ground (arith, eq_iff j k, eq_iff k j, e)

pub clear_enum-IsDict :
    (key : String) (fields : Card) → IsDict fields → IsDict (clear_enum key fields)
unfolding clear_enum
clear_enum-IsDict key fields u = elim (Bool-cases (has fields key)) [
  | inl e ↦ elim (Bool-cases (is_clear_sentinel (get fields key))) [
    | inl d ↦ rw (e, d) (put-IsDict fields key null e u)
    | inr d ↦ rw (e, d) u
  ]
  | inr e ↦ rw (e) u
]

pub resolve_enum_clears-lookup :
    (fields : Card) (k : String) {cleared : Card}
    → str_eq "blocker" k ≡ false
    → str_eq "kind" k ≡ false
    → resolve_enum_clears fields ≡ ok cleared
    → lookup cleared k ≡ lookup fields k
unfolding resolve_enum_clears
resolve_enum_clears-lookup fields k {cleared} b d h =
    let (t, e) = >>-eq-ok (raise_if _ task_validation_error) _ h in
    subst (λ c. lookup c k ≡ lookup fields k) (ok_inj e)
      (clear_enum-lookup "kind" _ k d ∙ clear_enum-lookup "blocker" fields k b)
