-- ===== src/Store/Delete/Restored.antt =====
-- What a lookup finds after `restore_task`, and after a deletion and its restoration.
use mathlib.Core.Option.{map as map_option}
use scitex_todo.Prelude.{
  ◌≡◌, refl, sym, ap, some_inj, subst, ◌∙◌, true, false, not, inl, inr, Bool-cases, Option-cases,
  none, some, List, [], ◌∷◌, ◌++◌, arith, str_eq, eq_iff, String, All, map, if◌then◌else◌,
}
use scitex_todo.Py.Value.{Value, text, is_text-eq, truthy}
use scitex_todo.Py.Raise.{ok, raise, raise_if, >>=-eq-ok, >>-eq-ok, ok_inj, value_error}
use scitex_todo.Card.{
  Card, get, get-put, is_live, is_tombstoned, find_live_task, first, change_first,
}
use scitex_todo.Env.{Env}
use scitex_todo.Validate.{without_sentinel}
use scitex_todo.Card.{first-Found}
use scitex_todo.Validate.Sound.{IsSound, is_text→eq}
use scitex_todo.Store.Gate.{find-IsSound}
use scitex_todo.Store.State.{Store}
use scitex_todo.Store.Atomic.{WellFormed, Ended, transaction-Cycled, transaction-Ended}
use scitex_todo.Store.Frame.{
  IsSound-without_sentinel, is_live-without_sentinel, find-map, save_doc-map,
}
use scitex_todo.Store.Delete.{
  Removed, snapshot, is_dict, delete_task, restore_task, restored_rows, has_id, scrub,
}
use scitex_todo.Store.Delete.Gone.{dead_is_live, get-snapshot, delete_task-Deleted}

-- The card of the snapshot is live, at its id only.
snapshot_is_live :
    (i j : String) (task : Card)
    → get task "id" ≡ text i
    → is_tombstoned task ≡ false
    → is_live j (without_sentinel task) ≡ str_eq i j
unfolding is_live
snapshot_is_live i j task h m = is_live-without_sentinel task j ∙ rw (h, m) (ground arith)

other_is_live : (i : String) (x : Card) → has_id (text i) x ≡ false → is_live i x ≡ false
unfolding is_live
other_is_live i x h = rw (is_text-eq (get x "id") i, h) refl

pub not_empty : {c : Card} → ¬ (some c ≡ none)
not_empty h = cc

pub find-appended :
    (i j : String) (task : Card) (xs : List Card)
    → All IsSound xs
    → get task "id" ≡ text i
    → is_tombstoned task ≡ false
    → first (has_id (text i)) xs ≡ none
    → first (is_live j) (map without_sentinel (xs ++ task ∷ []))
      ≡ (if str_eq i j then some (without_sentinel task) else first (is_live j) xs)
unfolding first
find-appended i j task [] s h m e = rw (snapshot_is_live i j task h m) refl
find-appended i j task (x ∷ xs) s h m e = elim (Bool-cases (has_id (text i) x)) [
  | inl t ↦ absurd (not_empty (rw (t) at e))
  | inr t ↦
      rw (IsSound-without_sentinel x s.0, find-appended i j task xs s.1 h m (rw (t) at e))
        (ground (arith, other_is_live i x t, eq_iff i j))
]

find-replaced :
    (i j : String) (task old : Card) (xs : List Card)
    → All IsSound xs
    → get task "id" ≡ text i
    → is_tombstoned task ≡ false
    → is_tombstoned old ≡ true
    → first (has_id (text i)) xs ≡ some old
    → first (is_live j) (map without_sentinel (change_first (has_id (text i)) (λ c. task) xs))
      ≡ (if str_eq i j then some (without_sentinel task) else first (is_live j) xs)
unfolding first change_first
find-replaced i j task old [] s h m d e = cc
find-replaced i j task old (x ∷ xs) s h m d e = elim (Bool-cases (has_id (text i) x)) [
  | inl t ↦
      let dead = subst (λ c. is_tombstoned c ≡ true) (sym (inj (rw (t) at e))) d in
      rw (t, snapshot_is_live i j task h m, find-map j xs s.1, dead_is_live j x dead) refl
  | inr t ↦
      rw (t, IsSound-without_sentinel x s.0, find-replaced i j task old xs s.1 h m d (rw (t) at e))
        (ground (arith, other_is_live i x t, eq_iff i j))
]
  where
    inj : {a b : Card} → some a ≡ some b → a ≡ b
    inj h = cc

restored_rows-find :
    (i j : String) (task : Card) (xs rows : List Card)
    → All IsSound xs
    → get task "id" ≡ text i
    → is_tombstoned task ≡ false
    → restored_rows task xs (first (has_id (text i)) xs) ≡ ok rows
    → first (is_live j) (map without_sentinel rows)
      ≡ (if str_eq i j then some (without_sentinel task) else first (is_live j) xs)
restored_rows-find i j task xs rows s h m e = elim (Option-cases (first (has_id (text i)) xs)) [
  | inl n ↦ rw (sym (ok_inj (rw (n) at e))) (find-appended i j task xs s h m n)
  | inr (old, f) ↦ elim (Bool-cases (is_tombstoned old)) [
    | inl d ↦
        let rows_are = ok_inj (rw (f, d, h) at e) in
        rw (sym rows_are) (find-replaced i j task old xs s h m d f)
    | inr d ↦ absurd (raised (rw (f, d) at e))
  ]
]
  where
    raised : ¬ (raise value_error ≡ ok rows)
    raised h = cc

-- Once `restore_task` answers for a card that is not marked as deleted, a well-formed store has that
-- card at its id, less a sentinel blocker, and at every other id what it had.
restore_task-find :
    (env : Env) (i : String) (task : Card) (refs : List Value) (s : Store) (a : Card × List Value)
    (j : String)
    → WellFormed s.tasks
    → get task "id" ≡ text i
    → is_tombstoned task ≡ false
    → (restore_task env task refs s).0 ≡ ok a
    → find_live_task (restore_task env task refs s).1.tasks j
      ≡ (if str_eq i j then some (without_sentinel task) else find_live_task s.tasks j)
unfolding restore_task find_live_task
restore_task-find env i task refs s a j w h m e =
    let (o, b, ended) = transaction-Ended env _ s e in
    let (u, b1) = >>-eq-ok (raise_if (not (truthy (get task "id"))) value_error) _ b in
    let (rows, r, b2) =
      >>=-eq-ok (restored_rows task s.tasks (first (has_id (get task "id")) s.tasks)) _ b1 in
    let (save, same) =
      subst (λ x. Ended env s x a (restore_task env task refs s).1) (sym (ok_inj b2)) ended in
    rw (save_doc-map env s.tasks _ save) (
      restored_rows-find i j task s.tasks rows w.sound h m
        (subst (λ v. restored_rows task s.tasks (first (has_id v) s.tasks) ≡ ok rows) h r))

-- The row that a lookup finds.
record Live (i : String) (c : Card) : Type 0 where
  id : get c "id" ≡ text i
  unmarked : is_tombstoned c ≡ false
  sound : IsSound c

is_live-Live : (i : String) (c : Card) → is_live i c ≡ true → IsSound c → Live i c
unfolding is_live
is_live-Live i c h s = record {
  id = is_text→eq (get c "id") i (ground arith);
  unmarked = ground arith;
  sound = s;
}

find-Live :
    (i : String) (xs : List Card) {c : Card}
    → All IsSound xs
    → find_live_task xs i ≡ some c
    → Live i c
unfolding find_live_task
find-Live i xs {c} s h =
    is_live-Live i c (first-Found (is_live i) (λ d. d) xs h).passes (find-IsSound i xs s h)

pub delete_task-WellFormed :
    (env : Env) (i : String) (s : Store)
    → WellFormed s.tasks
    → WellFormed (delete_task env i s).1.tasks
unfolding delete_task
delete_task-WellFormed env i s w = (transaction-Cycled env _ s w).well

-- A snapshot of a card that had no log to share.
snapshot-get :
    (dead target : Card) (k : String)
    → is_dict (get target "_log_meta") ≡ false
    → str_eq "comments" k ≡ false
    → get (snapshot dead target) k ≡ get target k
unfolding snapshot
snapshot-get dead target k n d =
    rw (n) (ground (arith, get-put target "comments" k (get dead "comments")))

snapshot-sentinel :
    (dead target : Card)
    → IsSound target
    → without_sentinel (snapshot dead target) ≡ snapshot dead target
unfolding without_sentinel
snapshot-sentinel dead target h =
    rw (get-snapshot dead target "status" refl, get-snapshot dead target "blocker" refl)
      (ground (arith, h.blocker))

snapshot-unmarked :
    (dead target : Card)
    → is_dict (get target "_log_meta") ≡ false
    → is_tombstoned target ≡ false
    → is_tombstoned (snapshot dead target) ≡ false
unfolding is_tombstoned
snapshot-unmarked dead target n m = rw (snapshot-get dead target "_log_meta" n refl) m

-- A deletion and its restoration, once both answer, the first with a clock that gives a text that is
-- not empty, of a card whose `_log_meta` is no dict: the answered card stands at its id in a
-- well-formed store, with every field as it was but for the comments; and the cards at other ids are
-- as the deletion left them, less the references to it.
pub restore_task-delete_task :
    (env later : Env) (i : String) (s : Store) (target : Card) (r : Removed) (a : Card × List Value)
    (j k : String)
    → WellFormed s.tasks
    → str_eq (env.now 0) "" ≡ false
    → find_live_task s.tasks i ≡ some target
    → is_dict (get target "_log_meta") ≡ false
    → str_eq "comments" k ≡ false
    → (delete_task env i s).0 ≡ ok r
    → (restore_task later r.removed r.refs (delete_task env i s).1).0 ≡ ok a
    → (get r.removed k ≡ get target k)
      × (find_live_task (restore_task later r.removed r.refs (delete_task env i s).1).1.tasks j ≡ (
          if str_eq i j then some r.removed else map_option (scrub i) (find_live_task s.tasks j)))
restore_task-delete_task env later i s target r a j k w n f m d h b =
    let e = delete_task-Deleted env i s r w n h in
    let live = find-Live i s.tasks w.sound f in
    let was : r.removed ≡ snapshot e.dead target =
      e.was ∙ ap (snapshot e.dead) (some_inj (sym e.found ∙ f)) in
    let gone = e.gone j in
    let back =
      restore_task-find later i r.removed r.refs (delete_task env i s).1 a j
        (delete_task-WellFormed env i s w)
        (rw (was) (snapshot-get e.dead target "id" m refl ∙ live.id))
        (rw (was) (snapshot-unmarked e.dead target m live.unmarked)) b in
    (
      rw (was) (snapshot-get e.dead target k m d),
      elim (Bool-cases (str_eq i j)) [
        | inl q ↦ rw (q) (
            rw (q) at back
            ∙ ap some
                (ap without_sentinel was ∙ snapshot-sentinel e.dead target live.sound ∙ sym was))
        | inr q ↦ rw (q) (rw (q) at back ∙ rw (q) at gone)
      ],
    )
