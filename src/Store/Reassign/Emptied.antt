-- ===== src/Store/Reassign/Emptied.antt =====
-- Who owns what after `reassign_all`.
use scitex_todo.Prelude.{
  ℕ, ◌+◌, ◌≡◌, refl, sym, ap, subst, Bool, true, false, inl, inr, Bool-cases, Option, List, [], ◌∷◌,
  str_eq, eq_iff, String, All, map, if◌then◌else◌,
}
use scitex_todo.Py.Value.{text, truthy, is_text}
use scitex_todo.Py.Raise.{ok, raise_if, raise_if-eq-ok, >>=-eq-ok, >>-eq-ok, ok_inj, value_error}
use scitex_todo.Py.Text.{is_blank, strip, lstrip, rstrip}
use scitex_todo.Card.{Card, get}
use scitex_todo.Env.{Env, str}
use scitex_todo.Validate.{without_sentinel}
use scitex_todo.Validate.Sound.{IsSound, get-without_sentinel}
use scitex_todo.Store.State.{Store}
use scitex_todo.Store.Actor.{default_agent}
use scitex_todo.Store.Atomic.{WellFormed, Ended, transaction-Ended}
use scitex_todo.Store.Frame.{save_doc-map}
use scitex_todo.Store.Keepers.{reassigned_row-HandedOver}
use scitex_todo.Store.Delete.Unnamed.{str_eq_symm}
use scitex_todo.Store.Reassign.{
  owner_of, reassigned_row, move_all, Moved, moved_outcome, reassign_all,
}

-- None of the cards is owned by `old_owner`.
abbrev pub NoneOwned : String → List Card → Type 0
NoneOwned old_owner cards = All (λ c. is_text (owner_of c) old_owner ≡ false) cards

owner_of-agent :
    (who : String) (c : Card)
    → str_eq who "" ≡ false
    → get c "agent" ≡ text who
    → owner_of c ≡ text who
unfolding owner_of
owner_of-agent who c n h = rw (h, n) refl

some_moved :
    (b : Bool) (i : String) (is others : List String)
    → b ≡ true
    → ¬ ((if b then i ∷ is else others) ≡ [])
some_moved true i is others h k = cc
some_moved false i is others h k = cc

module _ (env : Env) (actor old_owner new_owner : String) (full : str_eq new_owner "" ≡ false)
    (apart : str_eq old_owner new_owner ≡ false) where
  moved_row :
      (n : ℕ) (t row : Card)
      → reassigned_row env n actor new_owner (text old_owner) old_owner t ≡ ok row
      → is_text (owner_of row) old_owner ≡ false
  moved_row n t row h =
      let k = reassigned_row-HandedOver env n actor new_owner (text old_owner) old_owner t h in
      rw (owner_of-agent new_owner row full k.agent, str_eq_symm new_owner old_owner) apart

  move_all-NoneOwned :
      (n : ℕ) (ts rows : List Card) (moved : List String)
      → move_all env actor old_owner new_owner n ts ≡ ok (rows, moved)
      → NoneOwned old_owner rows
  unfolding move_all
  move_all-NoneOwned n [] rows moved h =
      subst (NoneOwned old_owner) (ap (λ (x : List Card × List String). x.0) (ok_inj h)) tt
  move_all-NoneOwned n (t ∷ ts) rows moved h = elim (Bool-cases (is_text (owner_of t) old_owner)) [
    | inl mine ↦
        let (row, a, b) =
          >>=-eq-ok (reassigned_row env n actor new_owner (text old_owner) old_owner t) _
            (rw (mine) at h) in
        let (rest, c, d) = >>=-eq-ok (move_all env actor old_owner new_owner (n + 2) ts) _ b in
        subst (NoneOwned old_owner) (ap (λ (x : List Card × List String). x.0) (ok_inj d))
          (moved_row n t row a, move_all-NoneOwned (n + 2) ts rest.0 rest.1 c)
    | inr other ↦
        let (rest, c, d) =
          >>=-eq-ok (move_all env actor old_owner new_owner n ts) _ (rw (other) at h) in
        subst (NoneOwned old_owner) (ap (λ (x : List Card × List String). x.0) (ok_inj d))
          (other, move_all-NoneOwned n ts rest.0 rest.1 c)
  ]

  move_all-none :
      (n : ℕ) (ts rows : List Card)
      → All IsSound ts
      → move_all env actor old_owner new_owner n ts ≡ ok (rows, [])
      → NoneOwned old_owner ts
  unfolding move_all
  move_all-none n [] rows s h = tt
  move_all-none n (t ∷ ts) rows s h = elim (Bool-cases (is_text (owner_of t) old_owner)) [
    | inl mine ↦
        let (row, a, b) =
          >>=-eq-ok (reassigned_row env n actor new_owner (text old_owner) old_owner t) _
            (rw (mine) at h) in
        let (rest, c, d) = >>=-eq-ok (move_all env actor old_owner new_owner (n + 2) ts) _ b in
        absurd (
          some_moved (truthy (get t "id")) (str env (get t "id")) rest.1 rest.1 s.0.named
            (ap (λ (x : List Card × List String). x.1) (ok_inj d)))
    | inr other ↦
        let (rest, c, d) =
          >>=-eq-ok (move_all env actor old_owner new_owner n ts) _ (rw (other) at h) in
        let none_moved : rest.1 ≡ [] = ap (λ (x : List Card × List String). x.1) (ok_inj d) in
        (
          other,
          move_all-none n ts rest.0 s.1 (
              subst (λ m. move_all env actor old_owner new_owner n ts ≡ ok (rest.0, m)) none_moved
                c),
        )
  ]

not_blank : (s : String) → is_blank s ≡ false → str_eq s "" ≡ false
unfolding strip lstrip rstrip
not_blank s h = elim (Bool-cases (str_eq s "")) [
  | inl e ↦ absurd (blank (subst (λ x. is_blank x ≡ false) ((eq_iff s "").0 e) h))
  | inr e ↦ e
]
  where
    blank : ¬ (is_blank "" ≡ false)
    blank h = cc

NoneOwned-saved :
    (old_owner : String) (rows : List Card)
    → NoneOwned old_owner rows
    → NoneOwned old_owner (map without_sentinel rows)
unfolding owner_of
NoneOwned-saved old_owner [] h = tt
NoneOwned-saved old_owner (c ∷ rows) h = (
  rw (get-without_sentinel c "agent", get-without_sentinel c "assignee") h.0,
  NoneOwned-saved old_owner rows h.1,
)

moved_outcome-NoneOwned :
    (env : Env) (old_owner new_owner actor : String) (s t : Store) (rows : List Card)
    (moved : List String) (m : Moved)
    → Ended env s (moved_outcome old_owner new_owner actor rows moved) m t
    → NoneOwned old_owner rows
    → (moved ≡ [] → NoneOwned old_owner s.tasks)
    → NoneOwned old_owner t.tasks
moved_outcome-NoneOwned env old_owner new_owner actor s t rows [] m e h k = rw e.1 (k refl)
moved_outcome-NoneOwned env old_owner new_owner actor s t rows (i ∷ is) m e h k =
    rw (save_doc-map env s.tasks rows e.0) (NoneOwned-saved old_owner rows h)

-- Once `reassign_all` answers on a well-formed store, no row, deleted ones included, is owned by the
-- old owner.
pub reassign_all-NoneOwned :
    (env : Env) (old_owner new_owner : String) (by : Option String) (s : Store) (m : Moved)
    → WellFormed s.tasks
    → (reassign_all env old_owner new_owner by s).0 ≡ ok m
    → NoneOwned old_owner (reassign_all env old_owner new_owner by s).1.tasks
unfolding reassign_all
reassign_all-NoneOwned env old_owner new_owner by s m w h =
    let (o, b, e) = transaction-Ended env _ s h in
    let (u1, b1) = >>-eq-ok (raise_if (is_blank old_owner) value_error) _ b in
    let (u2, b2) = >>-eq-ok (raise_if (is_blank new_owner) value_error) _ b1 in
    let (u3, b3) = >>-eq-ok (raise_if (str_eq old_owner new_owner) value_error) _ b2 in
    let (actor, p, b4) = >>=-eq-ok (default_agent env by) _ b3 in
    let (r, q, b5) = >>=-eq-ok (move_all env actor old_owner new_owner 0 s.tasks) _ b4 in
    let full = not_blank new_owner (raise_if-eq-ok _ _ u2) in
    let apart = raise_if-eq-ok _ _ u3 in
    moved_outcome-NoneOwned env old_owner new_owner actor s
      (reassign_all env old_owner new_owner by s).1 r.0 r.1 m
      (subst (λ x. Ended env s x m (reassign_all env old_owner new_owner by s).1) (sym (ok_inj b5))
        e)
      (move_all-NoneOwned env actor old_owner new_owner full apart 0 s.tasks r.0 r.1 q)
      (λ none_moved.
        move_all-none env actor old_owner new_owner full apart 0 s.tasks r.0 w.sound (
          subst (λ x. move_all env actor old_owner new_owner 0 s.tasks ≡ ok (r.0, x)) none_moved q))
