-- ===== src/Store/Delete/Gone.antt =====
-- What a lookup finds after `delete_task`.
use scitex_todo.Prelude.{
  ◌≡◌, refl, sym, ap, subst, ◌∙◌, Bool, true, false, not, ◌&&◌, ◌||◌, inl, inr, Bool-cases, none,
  some, List, [], ◌∷◌, arith, str_eq, eq_iff, String, All, map, if◌then◌else◌,
}
use mathlib.Core.Option.{map as map_option}
use scitex_todo.Py.Dict.{put, lookup-put}
use scitex_todo.Py.Value.{Value, text, is_text, is_text-eq, py_eq, entries-fields_of}
use scitex_todo.Py.Raise.{ok, raise_if, >>=-eq-ok, >>-eq-ok, ok_inj, value_error}
use scitex_todo.Card.{
  Card, get, get-put, get-pop, is_live, is_tombstoned, find_live_task, first, change_rest, mapping,
}
use scitex_todo.Env.{Env}
use scitex_todo.Validate.{without_sentinel}
use scitex_todo.Validate.Sound.{IsSound, Distinct, is_text→eq}
use scitex_todo.Store.State.{Store}
use scitex_todo.Store.Actor.{default_agent}
use scitex_todo.Store.Row.{stamp, append_comment, or_not_found}
use scitex_todo.Store.Atomic.{WellFormed, Ended, transaction-Ended}
use scitex_todo.Store.Frame.{
  SameLive, SameLive-is_live, is_live-without_sentinel, is_live_other, save_doc-map,
}
use scitex_todo.Store.Marks.{SameLive-trans, put-SameLive, append_comment-SameLive}
use scitex_todo.Store.ReadBack.{or_not_found-eq-ok}
use scitex_todo.Store.Delete.{
  snapshot, shared, is_dict, is_list, without_id, members, scrub_list, scrub_parent, scrub,
  put_or_pop, tombstoned, Removed, delete_task,
}

-- A write of the scrub reads and writes three keys.
abbrev is_kept : String → Bool
is_kept k = not (str_eq "depends_on" k) && (not (str_eq "blocks" k) && not (str_eq "parent" k))

get-put_or_pop :
    (c : Card) (k j : String) (vs : List Value)
    → str_eq k j ≡ false
    → get (put_or_pop c k vs) j ≡ get c j
get-put_or_pop c k j [] n = simp get-pop (rw n refl)
get-put_or_pop c k j (v ∷ vs) n = simp get-put (rw n refl)

pub get-scrub_list :
    (i k j : String) (c : Card) → str_eq k j ≡ false → get (scrub_list i k c) j ≡ get c j
unfolding scrub_list
get-scrub_list i k j c n = ground (arith, get-put_or_pop c k j (without_id i (members (get c k))) n)

pub get-scrub_parent :
    (i j : String) (c : Card) → str_eq "parent" j ≡ false → get (scrub_parent i c) j ≡ get c j
unfolding scrub_parent
get-scrub_parent i j c n = ground (arith, get-pop c "parent" j)

get-scrub : (i j : String) (c : Card) → is_kept j ≡ true → get (scrub i c) j ≡ get c j
unfolding scrub
get-scrub i j c h =
    get-scrub_parent i j _ (ground arith)
    ∙ get-scrub_list i "blocks" j _ (ground arith)
    ∙ get-scrub_list i "depends_on" j c (ground arith)

scrub-SameLive : (i : String) (c : Card) → SameLive (scrub i c) c
unfolding is_tombstoned
scrub-SameLive i c = record {
  same_id = get-scrub i "id" c refl;
  same_mark = rw (get-scrub i "_log_meta" c refl) refl;
}

scrub-without_sentinel :
    (i : String) (c : Card) → IsSound c → without_sentinel (scrub i c) ≡ scrub i c
unfolding without_sentinel
scrub-without_sentinel i c h =
    rw (get-scrub i "status" c refl, get-scrub i "blocker" c refl) (ground (arith, h.blocker))

find-scrubbed :
    (i j : String) (xs : List Card)
    → All IsSound xs
    → first (is_live j) (map without_sentinel (map (scrub i) xs))
      ≡ map_option (scrub i) (first (is_live j) xs)
unfolding first
find-scrubbed i j [] h = refl
find-scrubbed i j (x ∷ xs) h =
    rw
      (
        scrub-without_sentinel i x h.0,
        SameLive-is_live (scrub i x) x j (scrub-SameLive i x),
        find-scrubbed i j xs h.1,
      )
      (ground arith)

find-distinct :
    (i : String) (c : Card) (xs : List Card)
    → is_live i c ≡ true
    → All (λ d. py_eq (get d "id") (get c "id") ≡ false) xs
    → first (is_live i) xs ≡ none
unfolding first is_live
find-distinct i c [] e h = refl
find-distinct i c (d ∷ xs) e h =
    let n : is_text (get d "id") i ≡ false =
      is_text-eq (get d "id") i ∙ rw (is_text→eq (get c "id") i (ground arith)) at h.0 in
    rw (n) (find-distinct i c xs e h.1)

pub dead_is_live : (j : String) (c : Card) → is_tombstoned c ≡ true → is_live j c ≡ false
unfolding is_live
dead_is_live j c m = rw m (ground arith)

found_dead :
    (i j : String) (x : Card) (xs : List Card)
    → is_live i x ≡ true
    → All (λ d. py_eq (get d "id") (get x "id") ≡ false) xs
    → map_option (scrub i) (first (is_live j) xs)
      ≡ (if str_eq i j then none else map_option (scrub i) (first (is_live j) (x ∷ xs)))
unfolding first
found_dead i j x xs t u = elim (Bool-cases (str_eq i j)) [
  | inl q ↦
      let gone = find-distinct j x xs (subst (λ k. is_live k x ≡ true) ((eq_iff i j).0 q) t) u in
      rw (q, gone) refl
  | inr q ↦ rw (q, is_live_other x i j t q) refl
]

find-rest :
    (i j : String) (dead target : Card) (xs : List Card)
    → All IsSound xs
    → Distinct xs
    → is_tombstoned dead ≡ true
    → first (is_live i) xs ≡ some target
    → first (is_live j) (map without_sentinel (change_rest (is_live i) (λ c. dead) (scrub i) xs))
      ≡ (if str_eq i j then none else map_option (scrub i) (first (is_live j) xs))
unfolding first change_rest
find-rest i j dead target [] h u m e = cc
find-rest i j dead target (x ∷ xs) h u m e = elim (Bool-cases (is_live i x)) [
  | inl t ↦
      rw (t, is_live-without_sentinel dead j, dead_is_live j dead m, find-scrubbed i j xs h.1)
        (found_dead i j x xs t u.0)
  | inr t ↦
      rw (t, scrub-without_sentinel i x h.0, SameLive-is_live (scrub i x) x j (scrub-SameLive i x))
        (ground (arith, find-rest i j dead target xs h.1 u.1 m (rw (t) at e), eq_iff i j))
]

marked-is_tombstoned :
    (c : Card) (now who : String)
    → str_eq now "" ≡ false
    → is_tombstoned (stamp c "deleted_at" now "deleted_by" who) ≡ true
unfolding is_tombstoned stamp
marked-is_tombstoned c now who h = simp get-put (
    rw
      (entries-fields_of
        (put (put (mapping (get c "_log_meta")) "deleted_at" (text now)) "deleted_by" (text who)))
      (simp lookup-put (rw h refl)))

tombstoned-is_tombstoned :
    (env : Env) (actor : String) (c : Card) {d : Card}
    → str_eq (env.now 0) "" ≡ false
    → tombstoned env actor c ≡ ok d
    → is_tombstoned d ≡ true
unfolding tombstoned
tombstoned-is_tombstoned env actor c {d} n h =
    let (logged, a, b) = >>=-eq-ok (append_comment _ _) _ h in
    let same =
      SameLive-trans (put-SameLive logged "last_activity" (text (env.now 0)) refl)
        (append_comment-SameLive _ _ a) in
    subst (λ x. is_tombstoned x ≡ true) (ok_inj b)
      (same.same_mark ∙ marked-is_tombstoned _ (env.now 0) actor n)

-- The keys whose values the snapshot may share with the deleted row.
abbrev pub is_shared : String → Bool
is_shared k = str_eq "_log_meta" k || str_eq "comments" k

pub get-shared :
    (test : Value → Bool) (key k : String) (dead c : Card)
    → str_eq key k ≡ false
    → get (shared test key dead c) k ≡ get c k
get-shared test key k dead c n = ground (arith, get-put c key k (get dead key))

pub get-snapshot :
    (dead target : Card) (k : String)
    → is_shared k ≡ false
    → get (snapshot dead target) k ≡ get target k
unfolding snapshot
get-snapshot dead target k n =
    get-shared is_list "comments" k dead _ (ground arith)
    ∙ get-shared is_dict "_log_meta" k dead target (ground arith)

-- What a deletion answers, and the lookups after it.
pub record Deleted (i : String) (tasks saved : List Card) (removed : Card) : Type 0 where
  pub target : Card
  pub dead : Card
  pub found : find_live_task tasks i ≡ some target
  pub was : removed ≡ snapshot dead target
  pub marked : is_tombstoned dead ≡ true
  pub gone :
      (j : String)
      → find_live_task saved j
        ≡ (if str_eq i j then none else map_option (scrub i) (find_live_task tasks j))

pub delete_task-Deleted :
    (env : Env) (i : String) (s : Store) (r : Removed)
    → WellFormed s.tasks
    → str_eq (env.now 0) "" ≡ false
    → (delete_task env i s).0 ≡ ok r
    → Deleted i s.tasks (delete_task env i s).1.tasks r.removed
unfolding delete_task find_live_task
delete_task-Deleted env i s r w n h =
    let (o, b, e) = transaction-Ended env _ s h in
    let (u, b1) = >>-eq-ok (raise_if (str_eq i "") value_error) _ b in
    let (target, f, b2) = >>=-eq-ok (or_not_found (find_live_task s.tasks i)) _ b1 in
    let (actor, p, b3) = >>=-eq-ok (default_agent env none) _ b2 in
    let (dead, d, b4) = >>=-eq-ok (tombstoned env actor target) _ b3 in
    let (save, same) = subst (λ x. Ended env s x r (delete_task env i s).1) (sym (ok_inj b4)) e in
    let marked = tombstoned-is_tombstoned env actor target n d in
    record {
      target = target;
      dead = dead;
      found = or_not_found-eq-ok _ f;
      was = ap (λ (x : Removed). x.removed) (sym same);
      marked = marked;
      gone = λ j.
          rw (save_doc-map env s.tasks _ save)
            (find-rest i j dead target s.tasks w.sound w.distinct marked (or_not_found-eq-ok _ f));
    }

-- Once `delete_task` answers, with a clock that gives a text that is not empty: there was a card at
-- its id, and a field of the answered card other than the log and the comments is as that card had it;
-- no lookup of a well-formed store finds the id any more, and a lookup of another id finds what it
-- did, less the references to the deleted card.
pub delete_task-find :
    (env : Env) (i : String) (s : Store) (r : Removed) (j k : String)
    → WellFormed s.tasks
    → str_eq (env.now 0) "" ≡ false
    → is_shared k ≡ false
    → (delete_task env i s).0 ≡ ok r
    → (target : Card) × (find_live_task s.tasks i ≡ some target)
      × (get r.removed k ≡ get target k)
      × (find_live_task (delete_task env i s).1.tasks j
          ≡ (if str_eq i j then none else map_option (scrub i) (find_live_task s.tasks j)))
delete_task-find env i s r j k w n d h =
    let e = delete_task-Deleted env i s r w n h in
    (e.target, e.found, ap (λ x. get x k) e.was ∙ get-snapshot e.dead e.target k d, e.gone j)
