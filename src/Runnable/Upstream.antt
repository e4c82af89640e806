-- ===== src/Runnable/Upstream.antt =====
-- What `_deps_satisfied` tests, said without the indexes.
use scitex_todo.Prelude.{
  ◌≡◌, refl, sym, ap, subst, eq_refl, ◌∙◌, Bool, true, false, not, ◌&&◌, ◌||◌, Bool-cases, inl, inr,
  String, eq_iff, List, [], ◌∷◌, ◌++◌, arith, All, all, any, if◌then◌else◌,
}
use scitex_todo.Py.Value.{
  Value, null, bool, int, text, list, dict, truthy, is_null, is_text, is_name, py_eq,
}
use scitex_todo.Validate.Fields.{one_of}
use scitex_todo.Validate.Sound.{Distinct}
use scitex_todo.Card.{Card, get, sequence}
use scitex_todo.Runnable.Index.{
  indexed, appended, blocks_into, status_by_id, is_resolved, settled, reverse_upstream,
  deps_satisfied,
}

-- Card `z` names the id `key` in its `blocks`.
abbrev pub blocks_id : Card → Value → Bool
blocks_id z key = truthy (get z "id") && any (λ x. py_eq x key) (sequence (get z "blocks"))

module _ (p : Value → Bool) where
  all-append : (xs ys : List Value) → all p (xs ++ ys) ≡ (all p xs && all p ys)
  all-append [] ys = refl
  all-append (x ∷ xs) ys = ground (arith, all-append xs ys)

  all-appended :
      (z_id : Value) (ids : List Value) (key : Value)
      → all p (appended z_id ids key) ≡ (if any (λ x. py_eq x key) ids then p z_id else true)
  unfolding appended
  all-appended z_id [] key = refl
  all-appended z_id (x ∷ ids) key = ground (arith, all-appended z_id ids key)

  abbrev held : Card → Value → Bool
  held z key = if blocks_id z key then p (get z "id") else true

  all-blocks_into_head :
      (z : Card) (key : Value)
      → all p (
          if truthy (get z "id") then appended (get z "id") (sequence (get z "blocks")) key else [])
        ≡ held z key
  all-blocks_into_head z key =
      ground (arith, all-appended (get z "id") (sequence (get z "blocks")) key)

  all-blocks_into :
      (snapshot : List Card) (key : Value)
      → all p (blocks_into snapshot key) ≡ all (λ z. held z key) snapshot
  unfolding blocks_into
  all-blocks_into [] key = refl
  all-blocks_into (z ∷ zs) key =
      rw (all-append _ (blocks_into zs key), all-blocks_into_head z key, all-blocks_into zs key)

module _ {ℓ} {A : Type ℓ} where
  all-ext : (f g : A → Bool) (xs : List A) → ((x : A) → f x ≡ g x) → all f xs ≡ all g xs
  all-ext f g [] h = refl
  all-ext f g (x ∷ xs) h = rw (h x, all-ext f g xs h) refl

  all-ext_All : (f g : A → Bool) (xs : List A) → All (λ x. f x ≡ g x) xs → all f xs ≡ all g xs
  all-ext_All f g [] h = refl
  all-ext_All f g (x ∷ xs) h = rw (h.0, all-ext_All f g xs h.1) refl

  all_both : (f g : A → Bool) (xs : List A) → (all f xs && all g xs) ≡ all (λ x. f x && g x) xs
  all_both f g [] = refl
  all_both f g (x ∷ xs) = ground (arith, all_both f g xs)

-- A card that holds nothing up: it has no status, or is done, or is a goal.
abbrev pub is_clear : Card → Bool
is_clear z =
    is_null (get z "status") || (is_text (get z "status") "done" || is_text (get z "status") "goal")

-- Card `z` is upstream of the task: the task depends on it, or it blocks the task.
abbrev pub is_upstream : Card → Card → Bool
is_upstream task z =
    any (λ up. py_eq (get z "id") up) (sequence (get task "depends_on"))
    || blocks_id z (get task "id")

abbrev free : Value → Bool
free v = is_null v || is_resolved v

free-is_clear : (z : Card) → free (get z "status") ≡ is_clear z
unfolding is_resolved one_of
free-is_clear z = ground arith

-- The id of a sound card is a text that is not empty.
named_text : (v : Value) → is_name v ≡ true → (s : String) × (v ≡ text s) × (truthy v ≡ true)
named_text (text s) h = (s, refl, ground (arith, h))
named_text null h = cc
named_text (bool b) h = cc
named_text (int z) h = cc
named_text (list vs) h = cc
named_text (dict d) h = cc

same_text : (s : String) (key : Value) → py_eq (text s) key ≡ true → key ≡ text s
unfolding py_eq
same_text s (text t) h = ap text (sym ((eq_iff s t).0 h))
same_text s null h = cc
same_text s (bool b) h = cc
same_text s (int z) h = cc
same_text s (list vs) h = cc
same_text s (dict d) h = cc

status_by_id-none :
    (found key : Value) (xs : List Card)
    → All (λ d. py_eq (get d "id") key ≡ false) xs
    → status_by_id found xs key ≡ found
unfolding status_by_id
status_by_id-none found key [] h = refl
status_by_id-none found key (x ∷ xs) h =
    rw (h.0) (ground (arith, status_by_id-none found key xs h.1))

all_others :
    (key : Value) (xs : List Card)
    → All (λ d. py_eq (get d "id") key ≡ false) xs
    → all (λ z. not (py_eq (get z "id") key) || free (get z "status")) xs ≡ true
all_others key [] h = refl
all_others key (x ∷ xs) h = rw (h.0, all_others key xs h.1) refl

-- The ids are texts that are not empty.
abbrev pub AreNamed : List Card → Type 0
AreNamed cards = All (λ z. is_name (get z "id") ≡ true) cards

others_differ :
    (x : Card) (key : Value) (s : String) (xs : List Card)
    → get x "id" ≡ text s
    → py_eq (get x "id") key ≡ true
    → All (λ d. py_eq (get d "id") (get x "id") ≡ false) xs
    → All (λ d. py_eq (get d "id") key ≡ false) xs
others_differ x key s xs e q h =
    subst (λ k. All (λ d. py_eq (get d "id") k ≡ false) xs)
      (e ∙ sym (same_text s key (rw (e) at q))) h

-- Where ids are distinct, an id is settled exactly if every card that has it is clear.
settled_all :
    (key : Value) (xs : List Card)
    → Distinct xs
    → AreNamed xs
    → free (status_by_id null xs key)
      ≡ all (λ z. not (py_eq (get z "id") key) || free (get z "status")) xs
unfolding status_by_id is_resolved one_of
settled_all key [] u s = refl
settled_all key (x ∷ xs) u s =
    let (name, e, t) = named_text (get x "id") s.0 in
    elim (Bool-cases (py_eq (get x "id") key)) [
      | inl q ↦
          let others = others_differ x key name xs e q u.0 in
          rw (t, q, status_by_id-none (get x "status") key xs others, all_others key xs others)
            (ground arith)
      | inr q ↦ rw (t, q) (settled_all key xs u.1 s.1)
    ]

py_eq_comm : (s : String) (v : Value) → is_name v ≡ true → py_eq (text s) v ≡ py_eq v (text s)
unfolding py_eq
py_eq_comm s (text t) h = ground (arith, eq_iff s t, eq_iff t s)
py_eq_comm s null h = cc
py_eq_comm s (bool b) h = cc
py_eq_comm s (int z) h = cc
py_eq_comm s (list vs) h = cc
py_eq_comm s (dict d) h = cc

py_eq_refl : (v : Value) → is_name v ≡ true → py_eq v v ≡ true
unfolding py_eq
py_eq_refl (text t) h = eq_refl t
py_eq_refl null h = cc
py_eq_refl (bool b) h = cc
py_eq_refl (int z) h = cc
py_eq_refl (list vs) h = cc
py_eq_refl (dict d) h = cc

-- The status of a card is found at its id.
own_status :
    (xs : List Card)
    → Distinct xs
    → AreNamed xs
    → All (λ z. status_by_id null xs (get z "id") ≡ get z "status") xs
unfolding status_by_id
own_status [] u s = tt
own_status (x ∷ xs) u s =
    let (name, e, t) = named_text (get x "id") s.0 in
    (
      rw (t, py_eq_refl (get x "id") s.0) (status_by_id-none (get x "status") (get x "id") xs u.0),
      later xs u.0 s.1 (own_status xs u.1 s.1),
    )
  where
    later :
        (ys : List Card)
        → All (λ d. py_eq (get d "id") (get x "id") ≡ false) ys
        → AreNamed ys
        → All (λ z. status_by_id null xs (get z "id") ≡ get z "status") ys
        → All
            (λ z.
              status_by_id
                (if truthy (get x "id") && py_eq (get x "id") (get z "id")
                  then get x "status"
                  else null)
                xs
                (get z "id")
              ≡ get z "status")
            ys
    later [] d n h = tt
    later (y ∷ ys) d n h =
        let (name, e, t) = named_text (get x "id") s.0 in
        let apart : py_eq (get x "id") (get y "id") ≡ false =
          rw (e) (py_eq_comm name (get y "id") n.0 ∙ rw (e) at d.0) in
        (rw (t, apart) h.0, later ys d.1 n.1 h.1)

all_pass : (f : Card → Bool) (xs : List Card) → ((z : Card) → f z ≡ true) → all f xs ≡ true
all_pass f [] h = refl
all_pass f (x ∷ xs) h = rw (h x, all_pass f xs h) refl

-- The cards that are named, over the names and over the cards.
all_named :
    (ups : List Value) (xs : List Card)
    → all (λ up. all (λ z. not (py_eq (get z "id") up) || free (get z "status")) xs) ups
      ≡ all (λ z. is_clear z || not (any (λ up. py_eq (get z "id") up) ups)) xs
all_named [] xs = sym (all_pass _ xs (λ z. ground arith))
all_named (up ∷ ups) xs = rw (all_named ups xs) (
    all_both _ _ xs
    ∙ all-ext
        (λ z.
          (not (py_eq (get z "id") up) || free (get z "status"))
          && (is_clear z || not (any (λ u. py_eq (get z "id") u) ups)))
        _ xs (λ z. rw (free-is_clear z) (join (is_clear z) (py_eq (get z "id") up) _)))
  where
    join : (c n m : Bool) → ((not n || c) && (c || not m)) ≡ (c || not (n || m))
    join c n m = ground arith

module _ (snapshot : List Card) (u : Distinct snapshot) (n : AreNamed snapshot) where
  deps_clear :
      (ups : List Value)
      → all (settled (indexed snapshot)) ups
        ≡ all (λ z. is_clear z || not (any (λ up. py_eq (get z "id") up) ups)) snapshot
  unfolding settled
  deps_clear ups = all-ext _ _ ups (λ up. settled_all up snapshot u n) ∙ all_named ups snapshot

  held_clear :
      (key : Value) (xs : List Card)
      → All (λ z. status_by_id null snapshot (get z "id") ≡ get z "status") xs
      → all (λ z. held (settled (indexed snapshot)) z key) xs
        ≡ all (λ z. is_clear z || not (blocks_id z key)) xs
  unfolding settled
  held_clear key [] h = refl
  held_clear key (z ∷ xs) h =
      rw (h.0, free-is_clear z, held_clear key xs h.1)
        (ap (λ b. b && all (λ z. is_clear z || not (blocks_id z key)) xs)
          (as_or (blocks_id z key) (is_clear z)))
    where
      as_or : (b c : Bool) → (if b then c else true) ≡ (c || not b)
      as_or b c = ground arith

-- Where the ids of a snapshot are distinct texts that are not empty, a card that has an id passes the
-- dependency test exactly if no card of the snapshot is both upstream of it, as one that it depends on
-- or one that blocks it, and neither done nor a goal nor without a status.
pub deps_satisfied-all :
    (snapshot : List Card) (task : Card)
    → Distinct snapshot
    → AreNamed snapshot
    → is_null (get task "id") ≡ false
    → deps_satisfied (indexed snapshot) task
      ≡ all (λ z. is_clear z || not (is_upstream task z)) snapshot
unfolding deps_satisfied reverse_upstream
deps_satisfied-all snapshot task u n h =
    rw
      (
        h,
        all-blocks_into (settled (indexed snapshot)) snapshot (get task "id"),
        deps_clear snapshot u n (sequence (get task "depends_on")),
        held_clear snapshot u n (get task "id") snapshot (own_status snapshot u n),
      )
      (all_both _ _ snapshot ∙ all-ext _ _ snapshot (λ z. join (is_clear z) _ _))
  where
    join : (c n m : Bool) → ((c || not n) && (c || not m)) ≡ (c || not (n || m))
    join c n m = ground arith
