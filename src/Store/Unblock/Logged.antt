-- ===== src/Store/Unblock/Logged.antt =====
-- What a lookup finds once the freed cards have their comments.
use scitex_todo.Prelude.{
  ◌≡◌, refl, sym, subst, ◌∙◌, Bool, true, false, ◌||◌, inl, inr, Bool-cases, Option, none, some,
  List, [], ◌∷◌, arith, str_eq, eq_iff, String, All, if◌then◌else◌,
}
use scitex_todo.Py.Value.{Value, null}
use scitex_todo.Py.Raise.{Exception, Result, ok, raise, >>=-eq-ok, ok_inj}
use scitex_todo.Card.{Card, get, get-put, find_live_task}
use scitex_todo.Env.{Env}
use scitex_todo.Validate.{without_sentinel}
use scitex_todo.Validate.Sound.{IsSound}
use scitex_todo.Store.State.{Store, Effect, card_event, unblock, card_message, heartbeat}
use scitex_todo.Store.Row.{append_comment}
use scitex_todo.Store.Atomic.{WellFormed, has_id, transaction-Cycled, transaction-raise}
use scitex_todo.Store.Comment.{comment_task, commented_row}
use scitex_todo.Store.ReadBack.{comment_task-find}
use scitex_todo.Store.ReadBack.Rows.{append_comment-get}
use scitex_todo.Store.Gate.{find-IsSound}
use scitex_todo.Store.Actor.{default_agent}
use scitex_todo.Store.Unblock.{unblocked_ids, sent, emit_unblock_for_dependents, send_all, sent_on}
use scitex_todo.Store.Unblock.Calls.{Allowed, Keeps, send_all-keeps}

-- The fields that a comment writes.
abbrev pub is_log : String → Bool
is_log k = str_eq "comments" k || str_eq "last_activity" k

-- A field of a card, where it is not one of these.
abbrev pub unlogged : Card → String → Value
unlogged c k = if is_log k then null else get c k

-- The second card is the first, but for its comments and its last activity; where there is none there
-- is none.
abbrev pub IsLogged : Option Card → Option Card → Type 0
IsLogged none none = Unit
IsLogged (some c) (some d) = (k : String) → unlogged d k ≡ unlogged c k
IsLogged none (some d) = ⊥
IsLogged (some c) none = ⊥

-- Where the test does not hold, it is the same card.
abbrev pub IsLoggedIf : Bool → Option Card → Option Card → Type 0
IsLoggedIf true x y = IsLogged x y
IsLoggedIf false x y = y ≡ x

IsLogged-refl : (x : Option Card) → IsLogged x x
IsLogged-refl none = tt
IsLogged-refl (some c) = λ k. refl

pub IsLoggedIf-refl : (b : Bool) (x : Option Card) → IsLoggedIf b x x
IsLoggedIf-refl true x = IsLogged-refl x
IsLoggedIf-refl false x = refl

IsLogged-trans :
    (x : Option Card) (c d : Card)
    → IsLogged x (some c)
    → IsLogged (some c) (some d)
    → IsLogged x (some d)
IsLogged-trans none c d h k = h
IsLogged-trans (some b) c d h k = λ i. k i ∙ h i

commented_row-get :
    (env : Env) (entry target : Card) (k : String) {row : Card}
    → is_log k ≡ false
    → commented_row env entry target ≡ ok row
    → get row k ≡ get target k
unfolding commented_row
commented_row-get env entry target k {row} n h =
    let (logged, a, b) = >>=-eq-ok (append_comment target _) _ h in
    let other : str_eq "last_activity" k ≡ false = ground arith in
    subst (λ x. get x k ≡ get target k) (ok_inj b)
      (get-put logged "last_activity" k _
        ∙ rw (other) (append_comment-get target _ k (ground arith) a))

commented_row-sentinel :
    (env : Env) (entry target : Card) {row : Card}
    → IsSound target
    → commented_row env entry target ≡ ok row
    → without_sentinel row ≡ row
unfolding without_sentinel
commented_row-sentinel env entry target {row} s h =
    rw
      (
        commented_row-get env entry target "status" refl h,
        commented_row-get env entry target "blocker" refl h,
      )
      (ground (arith, s.blocker))

commented_row-IsLogged :
    (env : Env) (entry target : Card) {row : Card}
    → IsSound target
    → commented_row env entry target ≡ ok row
    → IsLogged (some target) (some (without_sentinel row))
commented_row-IsLogged env entry target {row} s h k = elim (Bool-cases (is_log k)) [
  | inl e ↦ rw (e) refl
  | inr e ↦
      rw (e, commented_row-sentinel env entry target s h) (commented_row-get env entry target k e h)
]

-- The store after a comment, at the card and at the others.
logged_at :
    (b : Bool) (x : Option Card) (i j : String) (tasks saved : List Card) (target row : Card)
    → (str_eq i j ≡ true → b ≡ true)
    → find_live_task tasks i ≡ some target
    → IsLogged (some target) (some row)
    → find_live_task saved j ≡ (if str_eq i j then some row else find_live_task tasks j)
    → IsLoggedIf b x (find_live_task tasks j)
    → IsLoggedIf b x (find_live_task saved j)
logged_at b x i j tasks saved target row m f l e h = elim (Bool-cases (str_eq i j)) [
  | inl t ↦
      let there = subst (λ k. find_live_task tasks k ≡ some target) ((eq_iff i j).0 t) f in
      let now : find_live_task saved j ≡ some row = rw (t) at e in
      let before = subst (λ y. IsLoggedIf true x y) there (rw (m t) at h) in
      rw (m t, now) (IsLogged-trans x target row before l)
  | inr t ↦ subst (IsLoggedIf b x) (sym (rw (t) at e)) h
]

-- The property that the comments keep: the store is well formed, and the card at `j` is as it was.
record IsLoggedAt (b : Bool) (x : Option Card) (j : String) (t : Store) : Type 0 where
  well : WellFormed t.tasks
  logged : IsLoggedIf b x (find_live_task t.tasks j)

comment_task-WellFormed :
    (env : Env) (i body : String) (by kind : Option String) (t : Store)
    → WellFormed t.tasks
    → WellFormed (comment_task env i body by kind t).1.tasks
unfolding comment_task
comment_task-WellFormed env i body by kind t w = (transaction-Cycled env _ t w).well

comment_task-raise :
    (env : Env) (i body : String) (by kind : Option String) (t : Store) {e : Exception}
    → (comment_task env i body by kind t).0 ≡ raise e
    → (comment_task env i body by kind t).1 ≡ t
unfolding comment_task
comment_task-raise env i body by kind t h = transaction-raise env _ t h

abbrev AnyEnv : Env → Type 0
AnyEnv env = Unit

comment_task-Keeps :
    (b : Bool) (x : Option Card) (i j : String)
    → (str_eq i j ≡ true → b ≡ true)
    → Keeps AnyEnv
        (λ env q. tt)
        (IsLoggedAt b x j)
        (λ t es h. record { well = h.well; logged = h.logged })
        i
comment_task-Keeps b x i j m env body by kind t q h = record {
  well = comment_task-WellFormed env i body by kind t h.well;
  logged = go (comment_task env i body by kind t).0 refl;
}
  where
    go :
        (r : Result Card)
        → (comment_task env i body by kind t).0 ≡ r
        → IsLoggedIf b x (find_live_task (comment_task env i body by kind t).1.tasks j)
    go (ok entry) e =
        let (row, target, f, r, found) = comment_task-find env i body by kind t entry j h.well e in
        logged_at b x i j t.tasks _ target (without_sentinel row) m f
          (commented_row-IsLogged env entry target (find-IsSound i t.tasks h.well.sound f) r) found
          h.logged
    go (raise e') e =
        subst (λ (u : Store). IsLoggedIf b x (find_live_task u.tasks j))
          (sym (comment_task-raise env i body by kind t e)) h.logged

named :
    (ids : List String) (i j : String)
    → has_id ids i ≡ true
    → str_eq i j ≡ true
    → has_id ids j ≡ true
named ids i j h e = subst (λ k. has_id ids k ≡ true) ((eq_iff i j).0 e) h

-- An unblock is told of no other cards than these.
abbrev pub Names : List String → Effect → Type 0
Names ids (unblock unlocker_id card_ids author) = card_ids ≡ ids
Names ids (card_event type card_id actor extra) = Unit
Names ids (card_message message) = Unit
Names ids (heartbeat who) = Unit

sent-Names :
    (unlocker : String) (ids : List String) (author : Result String)
    → All (Names ids) (sent unlocker ids author)
sent-Names unlocker [] author = tt
sent-Names unlocker (i ∷ ids) (ok author) = (refl, tt)
sent-Names unlocker (i ∷ ids) (raise e) = tt

pub emit-Names :
    (env : Env) (tasks : List Card) (unlocker : String) (by : Option String)
    → All
        (Names (unblocked_ids env tasks unlocker))
        (emit_unblock_for_dependents env tasks unlocker by)
unfolding emit_unblock_for_dependents
emit-Names env tasks unlocker by =
    sent-Names unlocker (unblocked_ids env tasks unlocker) (default_agent env by)

-- The cards but for those told of are as they were, and those told of are but for their logs.
send_all-IsLoggedIf :
    (env : Env) (ids : List String) (es : List Effect) (s : Store) (j : String)
    → All (Names ids) es
    → WellFormed s.tasks
    → IsLoggedIf
        (has_id ids j)
        (find_live_task s.tasks j)
        (find_live_task (send_all env es s).tasks j)
send_all-IsLoggedIf env ids es s j n w =
    (send_all-keeps AnyEnv (λ env q. tt) (IsLoggedAt (has_id ids j) (find_live_task s.tasks j) j)
      more env es s (allowed es n) tt
      (record {
        well = w;
        logged = IsLoggedIf-refl (has_id ids j) (find_live_task s.tasks j);
      })).logged
  where
    more :
        (t : Store) (es : List Effect)
        → IsLoggedAt (has_id ids j) (find_live_task s.tasks j) j t
        → IsLoggedAt (has_id ids j) (find_live_task s.tasks j) j (sent_on t es)
    more t es h = record { well = h.well; logged = h.logged }

    allowed :
        (es : List Effect)
        → All (Names ids) es
        → All
            (Allowed AnyEnv
              (λ env q. tt)
              (IsLoggedAt (has_id ids j) (find_live_task s.tasks j) j)
              more)
            es
    allowed [] n = tt
    allowed (unblock u card_ids author ∷ es) n = (
      λ i m.
          comment_task-Keeps (has_id ids j) (find_live_task s.tasks j) i j
            (named ids i j (subst (λ l. has_id l i ≡ true) n.0 m)),
      allowed es n.1,
    )
    allowed (card_event type card_id actor extra ∷ es) n = (tt, allowed es n.1)
    allowed (card_message message ∷ es) n = (tt, allowed es n.1)
    allowed (heartbeat who ∷ es) n = (tt, allowed es n.1)

-- The lookup after the sends, where the one before them is known.
pub sent_IsLoggedIf :
    (env : Env) (ids : List String) (es : List Effect) (t t' : Store) (x : Option Card) (j : String)
    → t' ≡ send_all env es t
    → find_live_task t.tasks j ≡ x
    → All (Names ids) es
    → WellFormed t.tasks
    → IsLoggedIf (has_id ids j) x (find_live_task t'.tasks j)
sent_IsLoggedIf env ids es t t' x j q f n w =
    subst (λ y. IsLoggedIf (has_id ids j) y (find_live_task t'.tasks j)) f
      (subst
        (λ (u : Store).
          IsLoggedIf (has_id ids j) (find_live_task t.tasks j) (find_live_task u.tasks j))
        (sym q) (send_all-IsLoggedIf env ids es t j n w))
