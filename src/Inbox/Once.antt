-- ===== src/Inbox/Once.antt =====
-- Proofs about what a message does to the inbox of its recipient.
use scitex_todo.Prelude.{
  ◌≡◌, refl, sym, ◌∙◌, ap, subst, String, Bool, true, false, not, ◌&&◌, inl, inr, Bool-cases,
  Option, none, some, List, [], ◌∷◌, ◌++◌, map, filter, filter-append, any, arith, str_eq, eq_refl,
}
use scitex_todo.Inbox.{Notification, Message, new_record, is_about, is_same, option_eq}
use scitex_todo.Inbox.File.{mark_if, is_selected}
use scitex_todo.Inbox.Table.{
  Row, left_rows, insert_new, enqueue, marked, poll_inbox, select, is_among, is_polled,
}
use scitex_todo.Inbox.Rows.{inbox_of, select-filter, delete-own, set_seen-own, inbox_of-append}
use scitex_todo.Inbox.Twins.{left_rows-kept}
use scitex_todo.Inbox.Marks.{ids_of, polled-mark_if}

some_inj {ℓ} : {A : Type ℓ} {a b : A} → some a ≡ some b → a ≡ b
some_inj h = cc

-- The pending notifications of a recipient.
abbrev pub pending : String → List Row → List Notification
pending recipient rows = (poll_inbox recipient true false rows).0

none_left :
    (unseen_only : Bool) (rs : List Notification)
    → filter (is_polled true) (map (mark_if (is_selected unseen_only)) rs) ≡ []
unfolding filter
none_left u [] = refl
none_left u (r ∷ rs) = ground (arith, none_left u rs)

-- Where nothing is polled, nothing is unseen.
none_polled :
    (unseen_only : Bool) (rs : List Notification)
    → filter (is_polled unseen_only) rs ≡ []
    → filter (is_polled true) rs ≡ []
unfolding filter
none_polled true rs h = h
none_polled false [] h = refl
none_polled false (r ∷ rs) h = cc

polled_marks :
    (unseen_only : Bool) (rs : List Notification)
    → map (mark_if (is_among (ids_of (filter (is_polled unseen_only) rs)))) rs
      ≡ map (mark_if (is_selected unseen_only)) rs
polled_marks true rs = polled-mark_if true rs
polled_marks false rs = polled-mark_if false rs

marked-filter :
    (unseen_only : Bool) (recipient : String) (rows : List Row) (selected : List Notification)
    → filter (is_polled unseen_only) (inbox_of recipient rows) ≡ selected
    → filter (is_polled true) (inbox_of recipient (marked recipient rows selected).1) ≡ []
marked-filter u recipient rows [] e = none_polled u (inbox_of recipient rows) e
marked-filter u recipient rows (r ∷ rs) e =
    ap (filter (is_polled true)) (
      set_seen-own recipient (is_among (ids_of (r ∷ rs))) rows
      ∙ subst
          (λ x.
            map (mark_if (is_among (ids_of x))) (inbox_of recipient rows)
            ≡ map (mark_if (is_selected u)) (inbox_of recipient rows))
          e (polled_marks u (inbox_of recipient rows)))
    ∙ none_left u (inbox_of recipient rows)

pending-nobody :
    (recipient : String) (rows : List Row)
    → str_eq recipient "" ≡ true
    → pending recipient rows ≡ []
unfolding poll_inbox
pending-nobody recipient rows e = rw (pending, e) refl

pending-filter :
    (recipient : String) (rows : List Row)
    → str_eq recipient "" ≡ false
    → pending recipient rows ≡ filter (is_polled true) (inbox_of recipient rows)
unfolding poll_inbox
pending-filter recipient rows e = rw (pending, e) (select-filter recipient (is_polled true) rows)

poll_inbox-marked :
    (unseen_only : Bool) (recipient : String) (rows : List Row)
    → str_eq recipient "" ≡ false
    → (poll_inbox recipient unseen_only true rows).1
      ≡ (marked recipient rows (select recipient (is_polled unseen_only) rows)).1
unfolding poll_inbox
poll_inbox-marked u recipient rows e = rw (e) refl

-- After a poll that marks what it returns, of the unseen notifications or of all of them, the recipient
-- has nothing pending: a poll of the unseen ones that follows returns none.
pub pending-poll_inbox :
    (recipient : String) (unseen_only : Bool) (rows : List Row)
    → pending recipient (poll_inbox recipient unseen_only true rows).1 ≡ []
pending-poll_inbox recipient u rows = elim (Bool-cases (str_eq recipient "")) [
  | inl e ↦ pending-nobody recipient _ e
  | inr e ↦
      pending-filter recipient _ e
      ∙ ap (λ x. filter (is_polled true) (inbox_of recipient x))
          (poll_inbox-marked u recipient rows e)
      ∙ marked-filter u recipient rows _ (sym (select-filter recipient (is_polled u) rows))
]

left-pending :
    (m : Message) (rs : List Notification)
    → filter (is_polled true) (filter (λ r. not (not r.seen && is_about m r)) rs)
      ≡ filter (λ r. not (true && is_about m r)) (filter (is_polled true) rs)
unfolding filter
left-pending m [] = refl
left-pending m (r ∷ rs) = ground (arith, left-pending m rs)

filter-true {ℓ} :
    {A : Type ℓ} (p : A → Bool) (xs : List A) → ((x : A) → p x ≡ true) → filter p xs ≡ xs
unfolding filter
filter-true p [] h = refl
filter-true p (x ∷ xs) h = rw (h x, filter-true p xs h) refl

-- The pending notifications that a message does not supersede.
abbrev pub is_left : Message → Notification → Bool
is_left m r = not (m.supersede && is_about m r)

left_rows-filter :
    (recipient : String) (m : Message) (rows : List Row)
    → filter (is_polled true) (inbox_of recipient (left_rows recipient m rows))
      ≡ filter (is_left m) (filter (is_polled true) (inbox_of recipient rows))
unfolding left_rows
left_rows-filter recipient m rows = elim (Bool-cases m.supersede) [
  | inl e ↦
      rw (e, delete-own recipient (λ r. not r.seen && is_about m r) rows)
        (left-pending m (inbox_of recipient rows))
  | inr e ↦ rw (e) (sym (filter-true _ _ (λ x. refl)))
]

option_eq_refl : (o : Option String) → option_eq o o ≡ true
option_eq_refl none = refl
option_eq_refl (some s) = eq_refl s

own_message : (m : Message) → is_same m (new_record m) ≡ true
own_message m =
    rw (eq_refl m.event_type, eq_refl m.card_id, eq_refl m.ts, option_eq_refl m.actor) refl

any-append {ℓ} :
    {A : Type ℓ} (p : A → Bool) (xs : List A) (a : A) → p a ≡ true → any p (xs ++ a ∷ []) ≡ true
any-append p [] a h = rw (h) refl
any-append p (x ∷ xs) a h = ground (arith, any-append p xs a h)

own_row :
    (recipient : String) (m : Message) (rows : List Row)
    → inbox_of recipient (rows ++ record { recipient = recipient; note = new_record m } ∷ [])
      ≡ inbox_of recipient rows ++ new_record m ∷ []
own_row recipient m rows = inbox_of-append recipient rows _ ∙ rw (eq_refl recipient) refl

-- A message that is accepted is what its recipient finds pending last, after what was pending before
-- it, less the notifications that it supersedes.
pub pending-enqueue :
    (recipient : String) (m : Message) (rows : List Row) (n : Notification)
    → (enqueue recipient m rows).0 ≡ some n
    → pending recipient (enqueue recipient m rows).1
      ≡ filter (is_left m) (pending recipient rows) ++ n ∷ []
unfolding enqueue filter
pending-enqueue recipient m rows n = elim (Bool-cases (str_eq recipient "")) [
  | inl e ↦ rw (e) (λ h. absurd (none_some h))
  | inr e ↦
      rw (e)
        (elim (Bool-cases (any (is_same m) (inbox_of recipient (left_rows recipient m rows)))) [
          | inl d ↦ rw (d) (λ h. absurd (none_some h))
          | inr d ↦ rw (d) (λ h. accepted e h)
        ])
]
  where
    none_some : ¬ (none ≡ some n)
    none_some h = cc

    accepted :
        str_eq recipient "" ≡ false
        → some (new_record m) ≡ some n
        → pending recipient (
            left_rows recipient m rows
            ++ record { recipient = recipient; note = new_record m } ∷ [])
          ≡ filter (is_left m) (pending recipient rows) ++ n ∷ []
    accepted e h =
        pending-filter recipient _ e
        ∙ ap (filter (is_polled true)) (own_row recipient m (left_rows recipient m rows))
        ∙ filter-append (is_polled true) (inbox_of recipient (left_rows recipient m rows))
            (new_record m ∷ [])
        ∙ ap (λ xs. xs ++ new_record m ∷ [])
            (left_rows-filter recipient m rows
              ∙ ap (filter (is_left m)) (sym (pending-filter recipient rows e)))
        ∙ ap (λ x. filter (is_left m) (pending recipient rows) ++ x ∷ []) (some_inj h)

enqueue-insert_new :
    (recipient : String) (m : Message) (rows : List Row)
    → str_eq recipient "" ≡ false
    → m.supersede ≡ false
    → enqueue recipient m rows ≡ insert_new recipient m rows
unfolding enqueue
enqueue-insert_new recipient m rows e q = rw (e, left_rows-kept recipient m rows q) refl

insert_new-insert_new :
    (recipient : String) (m : Message) (rows : List Row)
    → insert_new recipient m (insert_new recipient m rows).1
      ≡ (none, (insert_new recipient m rows).1)
insert_new-insert_new recipient m rows =
    elim (Bool-cases (any (is_same m) (inbox_of recipient rows))) [
      | inl d ↦ rw (d, d) refl
      | inr d ↦ rw (d) (
          rw
            (
              own_row recipient m rows,
              any-append (is_same m) (inbox_of recipient rows) (new_record m) (own_message m),
            )
            refl)
    ]

enqueue-nobody :
    (recipient : String) (m : Message) (rows : List Row)
    → str_eq recipient "" ≡ true
    → enqueue recipient m rows ≡ (none, rows)
unfolding enqueue
enqueue-nobody recipient m rows e = rw (e) refl

-- A message that does not supersede and is sent twice is refused the second time, which changes
-- nothing.
enqueue_idem :
    (recipient : String) (m : Message) (rows : List Row)
    → m.supersede ≡ false
    → enqueue recipient m (enqueue recipient m rows).1 ≡ (none, (enqueue recipient m rows).1)
enqueue_idem recipient m rows q = elim (Bool-cases (str_eq recipient "")) [
  | inl e ↦ enqueue-nobody recipient m _ e
  | inr e ↦
      ap (λ x. enqueue recipient m x.1) (enqueue-insert_new recipient m rows e q)
      ∙ enqueue-insert_new recipient m _ e q
      ∙ insert_new-insert_new recipient m rows
      ∙ ap (λ x. (none, x.1)) (sym (enqueue-insert_new recipient m rows e q))
]
