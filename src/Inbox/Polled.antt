-- ===== src/Inbox/Polled.antt =====
-- Polls and acknowledgements on the two backends.
use scitex_todo.Prelude.{
  ◌≡◌, refl, ◌∙◌, ap, subst, String, Bool, true, false, not, ◌&&◌, inl, inr, Bool-cases, List, [],
  ◌∷◌, map, filter, arith, str_eq, if◌then◌else◌,
}
use scitex_todo.Py.Dict.{put}
use scitex_todo.Inbox.{Notification}
use scitex_todo.Inbox.File
use scitex_todo.Inbox.File.{
  Inboxes, records_of, superseded, is_duplicate, is_selected, is_wanted, mark_if, wanted_ids,
}
use scitex_todo.Inbox.Table
use scitex_todo.Inbox.Table.{
  Row, every, left_rows, is_to, select, delete, set_seen, is_among, is_polled,
}
use scitex_todo.Inbox.Rows.{filter-cong, select-filter, set_seen-own, set_seen-other}
use scitex_todo.Inbox.Marks.{ids_of, is_polled-is_selected, polled-mark_if, acked-mark_if}
use scitex_todo.Inbox.Twins.{Same, changed-Same, Agrees}

polled_rows :
    (recipient : String) (unseen_only : Bool) (inboxes : Inboxes) (rows : List Row)
    → Same inboxes rows
    → select recipient (is_polled unseen_only) rows
      ≡ filter (is_selected unseen_only) (records_of inboxes recipient)
polled_rows recipient unseen_only inboxes rows s =
    select-filter recipient (is_polled unseen_only) rows
    ∙ filter-cong (is_polled unseen_only) (is_selected unseen_only) _
        (is_polled-is_selected unseen_only)
    ∙ ap (filter (is_selected unseen_only)) (s recipient)

-- Marking a recipient's rows by their ids marks, in the file, what the test selects.
set_seen-Same :
    (recipient : String) (inboxes : Inboxes) (rows : List Row) (ids : List String)
    (test : Notification → Bool)
    → Same inboxes rows
    → map (mark_if (is_among ids)) (records_of inboxes recipient)
      ≡ map (mark_if test) (records_of inboxes recipient)
    → Same
        (put inboxes recipient (map (mark_if test) (records_of inboxes recipient)))
        (set_seen recipient (is_among ids) rows)
set_seen-Same recipient inboxes rows ids test s h =
    changed-Same inboxes rows _ recipient _ s
      (set_seen-own recipient (is_among ids) rows
        ∙ ap (map (mark_if (is_among ids))) (s recipient)
        ∙ h)
      (λ j n. set_seen-other recipient j (is_among ids) rows n)

marked-Agrees :
    (recipient : String) (unseen_only : Bool) (inboxes : Inboxes) (rows : List Row)
    (selected : List Notification)
    → filter (is_selected unseen_only) (records_of inboxes recipient) ≡ selected
    → Same inboxes rows
    → Agrees
        (File.marked recipient unseen_only inboxes selected)
        (Table.marked recipient rows selected)
marked-Agrees recipient unseen_only inboxes rows [] e s = record { answer = refl; state = s }
marked-Agrees recipient unseen_only inboxes rows (r ∷ rs) e s = record {
  answer = refl;
  state = set_seen-Same recipient inboxes rows (ids_of (r ∷ rs)) (is_selected unseen_only) s (
      subst
        (λ x.
          map (mark_if (is_among (ids_of x))) (records_of inboxes recipient)
          ≡ map (mark_if (is_selected unseen_only)) (records_of inboxes recipient))
        e (polled-mark_if unseen_only (records_of inboxes recipient)));
}

pub poll_inbox-Agrees :
    (recipient : String) (unseen_only mark : Bool) (inboxes : Inboxes) (rows : List Row)
    → Same inboxes rows
    → Agrees
        (File.poll_inbox recipient unseen_only mark inboxes)
        (Table.poll_inbox recipient unseen_only mark rows)
unfolding File.poll_inbox Table.poll_inbox
poll_inbox-Agrees recipient unseen_only mark inboxes rows s =
    rw (polled_rows recipient unseen_only inboxes rows s) (elim (Bool-cases (str_eq recipient "")) [
      | inl e ↦ rw (e) (record { answer = refl; state = s })
      | inr e ↦ rw (e) (go mark)
    ])
  where
    go :
        (mark : Bool)
        → Agrees
            (if not mark
              then (filter (is_selected unseen_only) (records_of inboxes recipient), inboxes)
              else File.marked recipient unseen_only inboxes
                  (filter (is_selected unseen_only) (records_of inboxes recipient)))
            (if not mark
              then (filter (is_selected unseen_only) (records_of inboxes recipient), rows)
              else Table.marked recipient rows
                  (filter (is_selected unseen_only) (records_of inboxes recipient)))
    go false = record { answer = refl; state = s }
    go true = marked-Agrees recipient unseen_only inboxes rows _ refl s

wanted_rows :
    (recipient : String) (wanted : List String) (inboxes : Inboxes) (rows : List Row)
    → Same inboxes rows
    → select recipient (λ r. not r.seen && is_among wanted r) rows
      ≡ filter (is_wanted wanted) (records_of inboxes recipient)
wanted_rows recipient wanted inboxes rows s =
    select-filter recipient (λ r. not r.seen && is_among wanted r) rows
    ∙ filter-cong _ (is_wanted wanted) _ (λ r. swapped (not r.seen) (is_among wanted r))
    ∙ ap (filter (is_wanted wanted)) (s recipient)
  where
    swapped : (a b : Bool) → a && b ≡ b && a
    swapped a b = ground arith

flip-Agrees :
    (recipient : String) (wanted : List String) (inboxes : Inboxes) (rows : List Row)
    (found : List Notification)
    → filter (is_wanted wanted) (records_of inboxes recipient) ≡ found
    → Same inboxes rows
    → Agrees (File.flip recipient wanted inboxes found) (Table.flip recipient rows (ids_of found))
flip-Agrees recipient wanted inboxes rows [] e s = record { answer = refl; state = s }
flip-Agrees recipient wanted inboxes rows (r ∷ rs) e s = record {
  answer = refl;
  state = set_seen-Same recipient inboxes rows (ids_of (r ∷ rs)) (is_wanted wanted) s (
      subst
        (λ x.
          map (mark_if (is_among (ids_of x))) (records_of inboxes recipient)
          ≡ map (mark_if (is_wanted wanted)) (records_of inboxes recipient))
        e (acked-mark_if wanted (records_of inboxes recipient)));
}

pub ack-Agrees :
    (recipient : String) (ids : List String) (inboxes : Inboxes) (rows : List Row)
    → Same inboxes rows
    → Agrees (File.ack recipient ids inboxes) (Table.ack recipient ids rows)
unfolding File.ack Table.ack
ack-Agrees recipient ids inboxes rows s =
    rw (wanted_rows recipient (wanted_ids ids) inboxes rows s)
      (elim (Bool-cases (str_eq recipient "")) [
        | inl e ↦ rw (e) (record { answer = refl; state = s })
        | inr e ↦ rw (e) (flip-Agrees recipient (wanted_ids ids) inboxes rows _ refl s)
      ])
