-- ===== src/Store/Reopened.antt =====
-- What a lookup finds after `reopen_task`.
use scitex_todo.Prelude.{
  ◌≡◌, refl, sym, ap, subst, ◌∙◌, false, Option, some, [], ◌∷◌, str_eq, String, if◌then◌else◌,
}
use scitex_todo.Py.Dict.{lookup, put}
use scitex_todo.Py.Value.{
  Value, text, null, dict, bool, int, list, entries, truthy, entries-fields_of,
}
use scitex_todo.Py.Raise.{ok, raise_if, >>=-eq-ok, >>-eq-ok, value_error}
use scitex_todo.Card.{
  Card, get, get-put, get-pop, card_laws, is_tombstoned, find_live_task, mapping,
}
use scitex_todo.Env.{Env}
use scitex_todo.Validate.{without_sentinel}
use scitex_todo.Store.State.{Store}
use scitex_todo.Store.Actor.{default_agent}
use scitex_todo.Store.Atomic.{WellFormed, transaction-Ended}
use scitex_todo.Store.Frame.{SameLive}
use scitex_todo.Store.Marks.{SameLive-trans, put-SameLive, append_comment-SameLive, mapping-deleted}
use scitex_todo.Store.Row.{or_not_found}
use scitex_todo.Store.Resolve.{
  without_stamps, put_meta, clear_meta, clear_completion_stamp, reopened_row, reopen_task,
}
use scitex_todo.Store.ReadBack.{Finds, one_row}
use scitex_todo.Store.ReadBack.Rows.{append_comment-get}

mapping-put_meta : (c meta : Card) → mapping (get (put_meta c meta) "_log_meta") ≡ meta
mapping-put_meta c [] = simp get-pop refl
mapping-put_meta c (e ∷ meta) = simp get-put (entries-fields_of (e ∷ meta))

get-put_meta :
    (c meta : Card) (k : String) → str_eq "_log_meta" k ≡ false → get (put_meta c meta) k ≡ get c k
get-put_meta c [] k n = simp get-pop (rw n refl)
get-put_meta c (e ∷ meta) k n = simp get-put (rw n refl)

abbrev log_value : Card → String → Value
log_value c k = get (mapping (get c "_log_meta")) k

-- A card with the completion stamp taken out.
record Cleared (c d : Card) : Type 0 where
  same_live : SameLive d c
  others : (k : String) → str_eq "_log_meta" k ≡ false → get d k ≡ get c k
  at_gone : log_value d "completed_at" ≡ null
  by_gone : log_value d "completed_by" ≡ null

deleted_by_mapping :
    (c d : Card)
    → log_value c "deleted_at" ≡ log_value d "deleted_at"
    → is_tombstoned c ≡ is_tombstoned d
unfolding is_tombstoned get
deleted_by_mapping c d h =
    sym (mapping-deleted (get c "_log_meta")) ∙ ap truthy h ∙ mapping-deleted (get d "_log_meta")

put_meta-Cleared :
    (c meta : Card)
    → mapping (get c "_log_meta") ≡ meta
    → Cleared c (put_meta c (without_stamps meta))
put_meta-Cleared c meta h =
    let logs = mapping-put_meta c (without_stamps meta) in
    record {
      same_live = record {
        same_id = get-put_meta c (without_stamps meta) "id" refl;
        same_mark =
            deleted_by_mapping (put_meta c (without_stamps meta)) c
              (rw (logs, h) (simp get-pop refl));
      };
      others = λ k n. get-put_meta c (without_stamps meta) k n;
      at_gone = rw (logs) (simp get-pop refl);
      by_gone = rw (logs) (simp get-pop refl);
    }

plain-Cleared : (c : Card) → mapping (get c "_log_meta") ≡ [] → Cleared c c
unfolding get lookup
plain-Cleared c h = record {
  same_live = record { same_id = refl; same_mark = refl };
  others = λ k n. refl;
  at_gone = ap (λ m. get m "completed_at") h;
  by_gone = ap (λ m. get m "completed_by") h;
}

clear_meta-Cleared : (c : Card) (v : Value) → get c "_log_meta" ≡ v → Cleared c (clear_meta c v).0
clear_meta-Cleared c (dict m) h = put_meta-Cleared c (entries m) (ap mapping h)
clear_meta-Cleared c null h = plain-Cleared c (ap mapping h)
clear_meta-Cleared c (bool b) h = plain-Cleared c (ap mapping h)
clear_meta-Cleared c (int z) h = plain-Cleared c (ap mapping h)
clear_meta-Cleared c (text t) h = plain-Cleared c (ap mapping h)
clear_meta-Cleared c (list vs) h = plain-Cleared c (ap mapping h)

clear_completion_stamp-Cleared : (c : Card) → Cleared c (clear_completion_stamp c).0
unfolding clear_completion_stamp
clear_completion_stamp-Cleared c = clear_meta-Cleared c (get c "_log_meta") refl

-- A reopened row.
record Reopened (target d : Card) : Type 0 where
  same_live : SameLive d target
  status : get d "status" ≡ text "blocked"
  blocker : get d "blocker" ≡ text "operator-decision"
  at_gone : log_value d "completed_at" ≡ null
  by_gone : log_value d "completed_by" ≡ null

reopened_row-Reopened :
    (env : Env) (who : String) (target : Card) {d : Card}
    → reopened_row env who target ≡ ok d
    → Reopened target d
unfolding reopened_row
reopened_row-Reopened env who target {d} h =
    let gated = put (put target "status" (text "blocked")) "blocker" (text "operator-decision") in
    let c = (clear_completion_stamp gated).0 in
    let k = clear_completion_stamp-Cleared gated in
    let logs : get d "_log_meta" ≡ get c "_log_meta" = append_comment-get c _ "_log_meta" refl h in
    record {
      same_live = SameLive-trans (append_comment-SameLive c _ h) (
          SameLive-trans k.same_live (
            SameLive-trans (put-SameLive _ "blocker" _ refl)
              (put-SameLive target "status" _ refl)));
      status =
          append_comment-get c _ "status" refl h ∙ k.others "status" refl ∙ simp card_laws refl;
      blocker =
          append_comment-get c _ "blocker" refl h ∙ k.others "blocker" refl ∙ simp card_laws refl;
      at_gone = rw (logs) k.at_gone;
      by_gone = rw (logs) k.by_gone;
    }

blocked-without_sentinel : (c : Card) → get c "status" ≡ text "blocked" → without_sentinel c ≡ c
unfolding without_sentinel
blocked-without_sentinel c h = rw h refl

-- Once `reopen_task` answers, a well-formed store has at the id the card it answered, blocked on the
-- operator's decision and with no completion stamp left, and at every other id what it had.
pub reopen_task-find :
    (env : Env) (i : String) (by : Option String) (s : Store) (a : Card) (j : String)
    → WellFormed s.tasks
    → (reopen_task env i by s).0 ≡ ok a
    → (get a "status" ≡ text "blocked")
      × (get a "blocker" ≡ text "operator-decision")
      × (get (mapping (get a "_log_meta")) "completed_at" ≡ null)
      × (get (mapping (get a "_log_meta")) "completed_by" ≡ null)
      × (find_live_task (reopen_task env i by s).1.tasks j
          ≡ (if str_eq i j then some a else find_live_task s.tasks j))
unfolding reopen_task
reopen_task-find env i by s a j w h =
    let (o, b, e) = transaction-Ended env _ s h in
    let (u, b1) = >>-eq-ok (raise_if (str_eq i "") value_error) _ b in
    let (who, p, b2) = >>=-eq-ok (default_agent env by) _ b1 in
    let (target, f, b3) = >>=-eq-ok (or_not_found (find_live_task s.tasks i)) _ b2 in
    let (row, r, b4) = >>=-eq-ok (reopened_row env who target) _ b3 in
    let k = reopened_row-Reopened env who target r in
    let (found, same) =
      one_row env s i row target (reopen_task env i by s).1 _ o a w f k.same_live b4 e in
    let plain = blocked-without_sentinel row k.status in
    (
      subst (λ x. get x "status" ≡ text "blocked") same k.status,
      subst (λ x. get x "blocker" ≡ text "operator-decision") same k.blocker,
      subst (λ x. log_value x "completed_at" ≡ null) same k.at_gone,
      subst (λ x. log_value x "completed_by" ≡ null) same k.by_gone,
      subst (λ x. Finds s.tasks (reopen_task env i by s).1.tasks i x) (plain ∙ same) found j,
    )
