-- ===== src/Store/Frame.antt =====
-- A verb that changes one live row in place, seen by the reader's lookup `_find_live_task`.
use scitex_todo.Prelude.{
  some_inj, ◌∙◌, ◌≡◌, refl, sym, true, false, inl, inr, Bool-cases, some, List, [], ◌∷◌, map, All,
  arith, str_eq, eq_iff, String, if◌then◌else◌,
}
use scitex_todo.Py.Raise.{ok, >>=-eq-ok, >>-eq-ok, ok_inj}
use scitex_todo.Card.{Card, get, is_tombstoned, is_live, find_live_task, first, change_first}
use scitex_todo.Env.{Env}
use scitex_todo.Validate.{without_sentinel, validate_tasks}
use scitex_todo.Validate.Sound.{IsSound, is_text→eq, get-without_sentinel, validate_tasks-IsSound}
use scitex_todo.Store.State.{save_doc, assert_no_shrink}
use scitex_todo.Store.Atomic.{WellFormed}

-- Two rows that every lookup treats alike.
pub record SameLive (c d : Card) : Type 0 where
  pub same_id : get c "id" ≡ get d "id"
  pub same_mark : is_tombstoned c ≡ is_tombstoned d

pub SameLive-is_live : (c d : Card) (k : String) → SameLive c d → is_live k c ≡ is_live k d
unfolding is_live
SameLive-is_live c d k h = rw (h.same_id, h.same_mark) refl

pub is_live-without_sentinel :
    (c : Card) (k : String) → is_live k (without_sentinel c) ≡ is_live k c
unfolding is_live is_tombstoned
is_live-without_sentinel c k = simp get-without_sentinel refl

pub IsSound-without_sentinel : (c : Card) → IsSound c → without_sentinel c ≡ c
unfolding without_sentinel
IsSound-without_sentinel c h = ground (arith, h.blocker)

pub is_live_other :
    (c : Card) (i j : String) → is_live i c ≡ true → str_eq i j ≡ false → is_live j c ≡ false
unfolding is_live
is_live_other c i j h n = let e = is_text→eq (get c "id") i (ground arith) in rw e (rw n refl)

pub find-map :
    (j : String) (xs : List Card)
    → All IsSound xs
    → first (is_live j) (map without_sentinel xs) ≡ first (is_live j) xs
unfolding first
find-map j [] h = refl
find-map j (x ∷ xs) h = rw (IsSound-without_sentinel x h.0, find-map j xs h.1) refl

find-change :
    (i j : String) (row target : Card) (xs : List Card)
    → All IsSound xs
    → SameLive row target
    → first (is_live i) xs ≡ some target
    → first (is_live j) (map without_sentinel (change_first (is_live i) (λ c. row) xs))
      ≡ (if str_eq i j then some (without_sentinel row) else first (is_live j) xs)
unfolding first change_first
find-change i j row target [] h m e = cc
find-change i j row target (x ∷ xs) h m e = elim (Bool-cases (is_live i x)) [
  | inl t ↦ rw (t) (
      ground (
        arith,
        is_live-without_sentinel row j,
        SameLive-is_live row target j m,
        is_live_other x i j,
        find-map j xs h.1,
        some_inj (rw (t) at e),
        eq_iff i j,
      ))
  | inr t ↦
      rw (t, IsSound-without_sentinel x h.0)
        (ground (arith, find-change i j row target xs h.1 m (rw (t) at e), eq_iff i j))
]

pub save_doc-map :
    (env : Env) (stored rows : List Card) {saved : List Card}
    → save_doc env stored rows ≡ ok saved
    → saved ≡ map without_sentinel rows
unfolding save_doc
save_doc-map env stored rows {saved} h =
    let (checked, e, h1) = >>=-eq-ok (validate_tasks env rows) _ h in
    let (n, h2) = >>-eq-ok (assert_no_shrink env stored checked) _ h1 in
    let (distinct, sound, same) = validate_tasks-IsSound env rows checked e in
    sym (ok_inj h2) ∙ same

-- The lookup after the save of one changed row: that row at its id, and the rows that were there at
-- every other id.
pub save_doc-find :
    (env : Env) (tasks : List Card) (i j : String) (row target : Card) {saved : List Card}
    → WellFormed tasks
    → SameLive row target
    → find_live_task tasks i ≡ some target
    → save_doc env tasks (change_first (is_live i) (λ c. row) tasks) ≡ ok saved
    → find_live_task saved j
      ≡ (if str_eq i j then some (without_sentinel row) else find_live_task tasks j)
unfolding find_live_task
save_doc-find env tasks i j row target w m f h =
    rw (save_doc-map env tasks _ h) (find-change i j row target tasks w.sound m f)
