-- ===== src/Store/ReadBack/Rows.antt =====
-- The rows that single verbs write: their id and mark, and the fields that the verb sets.
use scitex_todo.Prelude.{◌≡◌, refl, subst, false, String, Option, none, some, arith, str_eq, ◌∙◌}
use scitex_todo.Py.Dict.{lookup}
use scitex_todo.Py.Value.{Value, text, list, null}
use scitex_todo.Py.Raise.{ok, >>=-eq-ok, ok_inj}
use scitex_todo.Card.{Card, get, get-put, card_laws}
use scitex_todo.Env.{Env}
use scitex_todo.Validate.{without_sentinel}
use scitex_todo.Store.Row.{append_comment, stamp, extended}
use scitex_todo.Store.Frame.{SameLive}
use scitex_todo.Store.Marks.{
  SameLive-trans, put-SameLive, pop-SameLive, stamp-SameLive, append_comment-SameLive,
}
use scitex_todo.Store.Complete.{completed_row}
use scitex_todo.Store.Resolve.{resolved_row}
use scitex_todo.Store.Comment.{commented_row}

pub completed-SameLive :
    (env : Env) (who : String) (c : Card) → SameLive (completed_row env who c) c
unfolding completed_row
completed-SameLive env who c =
    SameLive-trans (stamp-SameLive _ "completed_at" (env.now 0) "completed_by" who refl refl)
      (put-SameLive c "status" _ refl)

-- The row that is closed is done, and its log says when and by whom.
pub completed-done :
    (env : Env) (who : String) (c : Card) → get (completed_row env who c) "status" ≡ text "done"
unfolding completed_row stamp
completed-done env who c = simp card_laws refl

pub resolved-SameLive :
    (env : Env) (who : String) (c : Card) {d : Card} → resolved_row env who c ≡ ok d → SameLive d c
unfolding resolved_row
resolved-SameLive env who c h =
    SameLive-trans (append_comment-SameLive _ _ h)
      (SameLive-trans (pop-SameLive _ "blocker" refl) (put-SameLive c "status" _ refl))

pub commented-SameLive :
    (env : Env) (entry c : Card) {d : Card} → commented_row env entry c ≡ ok d → SameLive d c
unfolding commented_row
commented-SameLive env entry c {d} h =
    let (logged, a, b) = >>=-eq-ok (append_comment c _) _ h in
    subst (λ x. SameLive x c) (ok_inj b)
      (SameLive-trans (put-SameLive logged "last_activity" _ refl) (append_comment-SameLive c _ a))

pub append_comment-get :
    (c : Card) (entry : Value) (k : String) {d : Card}
    → str_eq "comments" k ≡ false
    → append_comment c entry ≡ ok d
    → get d k ≡ get c k
unfolding append_comment
append_comment-get c entry k {d} n h = go (lookup c "comments") h
  where
    go : (o : Option Value) → extended c o entry ≡ ok d → get d k ≡ get c k
    go none h = subst (λ x. get x k ≡ get c k) (ok_inj h) (simp get-put (rw n refl))
    go (some (list vs)) h = subst (λ x. get x k ≡ get c k) (ok_inj h) (simp get-put (rw n refl))
    go (some _) h = cc

-- A resolved row is done and waits for nothing.
pub resolved-cleared :
    (env : Env) (who : String) (c : Card) {d : Card}
    → resolved_row env who c ≡ ok d
    → (get d "status" ≡ text "done") × (get d "blocker" ≡ null)
unfolding resolved_row
resolved-cleared env who c h = (
  append_comment-get _ _ "status" refl h ∙ simp card_laws refl,
  append_comment-get _ _ "blocker" refl h ∙ simp card_laws refl,
)

pub cleared-without_sentinel : (c : Card) → get c "blocker" ≡ null → without_sentinel c ≡ c
unfolding without_sentinel
cleared-without_sentinel c h = ground (arith, h)
