-- ===== src/Store/ReadBack.antt =====
-- What the lookup finds after a verb that changes one row.
pub mod Rows
use Rows.{
  completed-SameLive, completed-done, resolved-SameLive, resolved-cleared, cleared-without_sentinel,
  commented-SameLive,
}
use scitex_todo.Prelude.{
  ◌≡◌, refl, sym, subst, ap, ◌∙◌, Bool, true, false, not, ◌&&◌, inl, inr, Bool-cases, Option, none,
  some, List, [], ◌∷◌, arith, str_eq, eq_iff, String, if◌then◌else◌, ◌++◌,
}
use scitex_todo.Py.Value.{Value, text, null, is_text}
use scitex_todo.Py.Text.{is_blank}
use scitex_todo.Py.Raise.{
  Result, ok, raise, raise_if, >>=-eq-ok, >>-eq-ok, ok_inj, type_error, value_error,
}
use scitex_todo.Card.{Card, get, is_live, find_live_task, change_first}
use scitex_todo.Env.{Env}
use scitex_todo.Validate.{without_sentinel}
use scitex_todo.Validate.Sound.{get-without_sentinel, is_text→eq}
use scitex_todo.Store.State.{Store, Effect, Outcome, keep, write, save_doc, transaction}
use scitex_todo.Store.Actor.{default_agent}
use scitex_todo.Store.Atomic.{WellFormed, Ended, transaction-Ended}
use scitex_todo.Store.Frame.{SameLive, save_doc-find}
use scitex_todo.Store.Resolve.{resolve_task, resolved_row}
use scitex_todo.Store.Comment.{comment_task, commented_row}
use scitex_todo.Store.Complete.{complete_task, complete_row, completed_row}
use scitex_todo.Store.Row.{or_not_found}

pub or_not_found-eq-ok : (o : Option Card) {c : Card} → or_not_found o ≡ ok c → o ≡ some c
or_not_found-eq-ok none h = cc
or_not_found-eq-ok (some d) h = ap some (ok_inj h)

-- The lookup of every id, after one row was written at the id `i`.
abbrev pub Finds : List Card → List Card → String → Card → Type 0
Finds tasks saved i row =
    (j : String)
    → find_live_task saved j ≡ (if str_eq i j then some row else find_live_task tasks j)

pub Finds-same :
    (tasks : List Card) (i : String) (row : Card)
    → find_live_task tasks i ≡ some row
    → Finds tasks tasks i row
Finds-same tasks i row h j = ground (arith, eq_iff i j)

-- A row that was written.
pub written-Finds :
    (env : Env) (tasks : List Card) (i : String) (row target : Card) (saved : List Card)
    → WellFormed tasks
    → find_live_task tasks i ≡ some target
    → SameLive row target
    → save_doc env tasks (change_first (is_live i) (λ c. row) tasks) ≡ ok saved
    → Finds tasks saved i (without_sentinel row)
written-Finds env tasks i row target saved w f m h j =
    save_doc-find env tasks i j row target w m f h

-- A body that wrote one row, once it is saved: the lookups and the answer.
pub one_row :
    {A : Type 0} (env : Env) (s : Store) (i : String) (row target : Card) (t : Store)
    (f : List Card → A × List Effect) (o : Outcome A) (a : A)
    → WellFormed s.tasks
    → or_not_found (find_live_task s.tasks i) ≡ ok target
    → SameLive row target
    → ok (write (change_first (is_live i) (λ c. row) s.tasks) f) ≡ ok o
    → Ended env s o a t
    → Finds s.tasks t.tasks i (without_sentinel row) × ((f t.tasks).0 ≡ a)
one_row env s i row target t f o a w h m b e =
    let (save, same) = subst (λ x. Ended env s x a t) (sym (ok_inj b)) e in
    (written-Finds env s.tasks i row target t.tasks w (or_not_found-eq-ok _ h) m save, same)

-- Once `comment_task` answers, a well-formed store has at the id the row that `commented_row` makes of
-- the card that was there and the answered comment, less a sentinel blocker, and at every other id
-- what it had.
pub comment_task-find :
    (env : Env) (i body : String) (by kind : Option String) (s : Store) (entry : Card) (j : String)
    → WellFormed s.tasks
    → (comment_task env i body by kind s).0 ≡ ok entry
    → (row : Card) × (target : Card) × (find_live_task s.tasks i ≡ some target)
      × (commented_row env entry target ≡ ok row)
      × (find_live_task (comment_task env i body by kind s).1.tasks j
          ≡ (if str_eq i j then some (without_sentinel row) else find_live_task s.tasks j))
unfolding comment_task
comment_task-find env i body by kind s entry j w h =
    let (o, b, e) = transaction-Ended env _ s h in
    let (u, b1) = >>-eq-ok (raise_if (str_eq i "") value_error) _ b in
    let (u', b2) = >>-eq-ok (raise_if (is_blank body) value_error) _ b1 in
    let (author, p, b3) = >>=-eq-ok (default_agent env by) _ b2 in
    let (target, f, b4) = >>=-eq-ok (or_not_found (find_live_task s.tasks i)) _ b3 in
    let (row, r, b5) = >>=-eq-ok (commented_row env _ target) _ b4 in
    let (found, same) =
      one_row env s i row target (comment_task env i body by kind s).1 _ o entry w f
        (commented-SameLive env _ target r) b5 e in
    (
      row,
      target,
      or_not_found-eq-ok _ f,
      subst (λ x. commented_row env x target ≡ ok row) same r,
      found j,
    )
