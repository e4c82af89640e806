-- ===== src/Store/Keepers.antt =====
-- The row that `reassign_task` writes: its owner, and who stays subscribed.
use Prim.Native.String.{◌++◌ as append_text}
use scitex_todo.Prelude.{
  ℕ, ◌≡◌, refl, subst, ◌∙◌, true, false, List, [], ◌∷◌, ◌++◌, arith, str_eq, eq_refl, String,
}
use scitex_todo.Py.Value.{Value, text, elements-items_of, py_eq, contains}
use scitex_todo.Py.Raise.{ok, >>=-eq-ok, ok_inj}
use scitex_todo.Card.{Card, get, get-put, card_laws, sequence}
use scitex_todo.Env.{Env}
use scitex_todo.Store.Row.{append_comment}
use scitex_todo.Store.Frame.{SameLive}
use scitex_todo.Store.Marks.{SameLive-trans, SameLive-refl, put-SameLive, append_comment-SameLive}
use scitex_todo.Store.Reassign.{keep_subscribed, put_some, with_keepers, with_owner, reassigned_row}
use scitex_todo.Store.ReadBack.Rows.{append_comment-get}

get-put_some :
    (c : Card) (k j : String) (vs : List Value)
    → str_eq k j ≡ false
    → get (put_some c k vs) j ≡ get c j
get-put_some c k j [] n = refl
get-put_some c k j (v ∷ vs) n = simp get-put (rw n refl)

put_some-SameLive : (c : Card) (vs : List Value) → SameLive (put_some c "subscribers" vs) c
put_some-SameLive c [] = SameLive-refl c
put_some-SameLive c (v ∷ vs) = put-SameLive c "subscribers" _ refl

contains-append :
    (xs ys : List Value) (v : Value) → contains xs v ≡ true → contains (xs ++ ys) v ≡ true
contains-append [] ys v h = cc
contains-append (x ∷ xs) ys v h = ground (arith, contains-append xs ys v)

pub contains-last :
    (xs : List Value) (v : Value) → py_eq v v ≡ true → contains (xs ++ v ∷ []) v ≡ true
contains-last [] v h = ground arith
contains-last (x ∷ xs) v h = ground (arith, contains-last xs v h)

-- A keeper other than the new owner is subscribed, and nobody is dropped.
keep_subscribed-keeper :
    (new_owner keeper : String) (subs : List Value)
    → str_eq keeper "" ≡ false
    → str_eq keeper new_owner ≡ false
    → contains (keep_subscribed new_owner (text keeper) subs) (text keeper) ≡ true
unfolding keep_subscribed py_eq
keep_subscribed-keeper new_owner keeper subs n m =
    ground (arith, contains-last subs (text keeper) (eq_refl keeper))

keep_subscribed-all :
    (new_owner : String) (keeper : Value) (subs : List Value) (v : Value)
    → contains subs v ≡ true
    → contains (keep_subscribed new_owner keeper subs) v ≡ true
unfolding keep_subscribed
keep_subscribed-all new_owner keeper subs v h =
    ground (arith, contains-append subs (keeper ∷ []) v h)

-- What a reassigned row has.
pub record HandedOver (new_owner : String) (old_owner : Value) (target d : Card) : Type 0 where
  pub same_live : SameLive d target
  pub agent : get d "agent" ≡ text new_owner
  pub assignee : get d "assignee" ≡ text new_owner
  pub scope : get d "scope" ≡ text (append_text "agent:" new_owner)

with_keepers-get :
    (new_owner : String) (old_owner : Value) (c : Card) (k : String)
    → str_eq "subscribers" k ≡ false
    → get (with_keepers new_owner old_owner c) k ≡ get c k
unfolding with_keepers
with_keepers-get new_owner old_owner c k n = get-put_some c "subscribers" k _ n

with_keepers-SameLive :
    (new_owner : String) (old_owner : Value) (c : Card)
    → SameLive (with_keepers new_owner old_owner c) c
unfolding with_keepers
with_keepers-SameLive new_owner old_owner c = put_some-SameLive c _

with_owner-SameLive : (new_owner : String) (c : Card) → SameLive (with_owner new_owner c) c
unfolding with_owner
with_owner-SameLive new_owner c =
    SameLive-trans (put-SameLive _ "scope" _ refl)
      (SameLive-trans (put-SameLive _ "assignee" _ refl) (put-SameLive c "agent" _ refl))

pub reassigned_row-HandedOver :
    (env : Env) (n : ℕ) (actor new_owner : String) (old_owner : Value) (old_text : String)
    (target : Card) {d : Card}
    → reassigned_row env n actor new_owner old_owner old_text target ≡ ok d
    → HandedOver new_owner old_owner target d
unfolding reassigned_row with_owner
reassigned_row-HandedOver env n actor new_owner old_owner old_text target {d} h =
    let (logged, a, b) = >>=-eq-ok (append_comment (with_owner new_owner target) _) _ h in
    let kept = with_keepers new_owner old_owner logged in
    subst (HandedOver new_owner old_owner target) (ok_inj b) (record {
      same_live = SameLive-trans (put-SameLive kept "last_activity" _ refl) (
          SameLive-trans (with_keepers-SameLive new_owner old_owner logged) (
            SameLive-trans (append_comment-SameLive _ _ a) (with_owner-SameLive new_owner target)));
      agent =
          get-put kept "last_activity" "agent" _
          ∙ with_keepers-get new_owner old_owner logged "agent" refl
          ∙ append_comment-get _ _ "agent" refl a
          ∙ simp card_laws refl;
      assignee =
          get-put kept "last_activity" "assignee" _
          ∙ with_keepers-get new_owner old_owner logged "assignee" refl
          ∙ append_comment-get _ _ "assignee" refl a
          ∙ simp card_laws refl;
      scope =
          get-put kept "last_activity" "scope" _
          ∙ with_keepers-get new_owner old_owner logged "scope" refl
          ∙ append_comment-get _ _ "scope" refl a
          ∙ simp card_laws refl;
    })

contains-put_some :
    (c : Card) (vs : List Value) (v : Value)
    → contains vs v ≡ true
    → contains (sequence (get (put_some c "subscribers" vs) "subscribers")) v ≡ true
contains-put_some c [] v h = cc
contains-put_some c (w ∷ vs) v h = simp get-put (rw (elements-items_of vs) h)

pub keeps_owner :
    (env : Env) (n : ℕ) (actor new_owner name old_text : String) (target : Card) {d : Card}
    → str_eq name "" ≡ false
    → str_eq name new_owner ≡ false
    → reassigned_row env n actor new_owner (text name) old_text target ≡ ok d
    → contains (sequence (get d "subscribers")) (text name) ≡ true
unfolding reassigned_row with_keepers
keeps_owner env n actor new_owner name old_text target {d} m o h =
    let (logged, a, b) = >>=-eq-ok (append_comment (with_owner new_owner target) _) _ h in
    let before = sequence (get logged "subscribers") in
    let first_pass = keep_subscribed new_owner (text name) before in
    subst (λ x. contains (sequence (get x "subscribers")) (text name) ≡ true) (ok_inj b)
      (simp get-put (
        contains-put_some logged (keep_subscribed new_owner (get logged "created_by") first_pass)
          (text name)
          (keep_subscribed-all new_owner (get logged "created_by") first_pass (text name)
            (keep_subscribed-keeper new_owner name before m o))))

-- The answer of a reassignment that changed the owner, with the row that was written.
