-- ===== src/Inbox/Twins.antt =====
-- The two backends of the inboxes, call by call.
use mathlib.Core.List.{append-nil}
use scitex_todo.Prelude.{
  ◌≡◌, refl, sym, ◌∙◌, ap, subst, String, true, false, not, ◌&&◌, ◌||◌, ◌⊎◌, inl, inr, Bool-cases,
  List, [], ◌∷◌, ◌++◌, filter, arith, str_eq, eq_iff, eq_refl, if◌then◌else◌,
}
use scitex_todo.Py.Dict.{put, lookup-put}
use scitex_todo.Inbox.{Notification, Message, new_record, is_about}
use scitex_todo.Inbox.File
use scitex_todo.Inbox.File.{
  Inboxes, records_of, superseded, is_duplicate, is_selected, is_wanted, mark_if, wanted_ids,
}
use scitex_todo.Inbox.Table
use scitex_todo.Inbox.Table.{
  Row, every, left_rows, is_to, select, delete, set_seen, is_among, is_polled,
}
use scitex_todo.Inbox.Rows.{inbox_of, filter-cong, delete-own, delete-other, inbox_of-append}

-- Both backends hold the same inbox for every recipient.
abbrev pub Same : Inboxes → List Row → Type 0
Same inboxes rows = (r : String) → inbox_of r rows ≡ records_of inboxes r

records_of-put :
    (inboxes : Inboxes) (recipient j : String) (records : List Notification)
    → records_of (put inboxes recipient records) j
      ≡ (if str_eq recipient j then records else records_of inboxes j)
unfolding records_of
records_of-put inboxes recipient j records = ground (arith, lookup-put inboxes recipient j records)

-- One inbox is changed in both, and the others are left as they were.
pub changed-Same :
    (inboxes : Inboxes) (rows after : List Row) (recipient : String) (records : List Notification)
    → Same inboxes rows
    → inbox_of recipient after ≡ records
    → ((j : String) → str_eq recipient j ≡ false → inbox_of j after ≡ inbox_of j rows)
    → Same (put inboxes recipient records) after
changed-Same inboxes rows after recipient records s own other j =
    elim (Bool-cases (str_eq recipient j)) [
      | inl e ↦
          let q = (eq_iff recipient j).0 e in
          subst (λ x. inbox_of x after ≡ records) q own
          ∙ sym (records_of-put inboxes recipient j records ∙ rw (e) refl)
      | inr e ↦ other j e ∙ s j ∙ sym (records_of-put inboxes recipient j records ∙ rw (e) refl)
    ]

left_rows-own :
    (recipient : String) (m : Message) (inboxes : Inboxes) (rows : List Row)
    → Same inboxes rows
    → inbox_of recipient (left_rows recipient m rows) ≡ superseded m (records_of inboxes recipient)
unfolding superseded left_rows
left_rows-own recipient m inboxes rows s = elim (Bool-cases m.supersede) [
  | inl e ↦ rw (e) (
      delete-own recipient (λ r. not r.seen && is_about m r) rows
      ∙ filter-cong _ (λ r. r.seen || not (is_about m r)) _ (λ r. unless r)
      ∙ ap (filter (λ r. r.seen || not (is_about m r))) (s recipient))
  | inr e ↦ rw (e) (s recipient)
]
  where
    unless : (r : Notification) → not (not r.seen && is_about m r) ≡ (r.seen || not (is_about m r))
    unless r = ground arith

left_rows-other :
    (recipient j : String) (m : Message) (rows : List Row)
    → str_eq recipient j ≡ false
    → inbox_of j (left_rows recipient m rows) ≡ inbox_of j rows
unfolding left_rows
left_rows-other recipient j m rows n = elim (Bool-cases m.supersede) [
  | inl e ↦ rw (e) (delete-other recipient j _ rows n)
  | inr e ↦ rw (e) refl
]

pub left_rows-kept :
    (recipient : String) (m : Message) (rows : List Row)
    → m.supersede ≡ false
    → left_rows recipient m rows ≡ rows
unfolding left_rows
left_rows-kept recipient m rows q = rw (q) refl

-- A call in both: the same answer, and the same inboxes after it.
pub record Agrees {A : Type 0} (a : A × Inboxes) (b : A × List Row) : Type 0 where
  pub answer : a.0 ≡ b.0
  pub state : Same a.1 b.1

-- The message does not supersede, or it is new among what it leaves.
abbrev pub IsFresh : String → Message → Inboxes → Type 0
IsFresh recipient m inboxes =
    (m.supersede ≡ false) ⊎ (is_duplicate m (superseded m (records_of inboxes recipient)) ≡ false)

appended-Same :
    (recipient : String) (m : Message) (inboxes : Inboxes) (rows : List Row)
    → Same inboxes rows
    → Same
        (put inboxes recipient (superseded m (records_of inboxes recipient) ++ new_record m ∷ []))
        (left_rows recipient m rows ++ record { recipient = recipient; note = new_record m } ∷ [])
appended-Same recipient m inboxes rows s =
    let row : Row = record { recipient = recipient; note = new_record m } in
    changed-Same inboxes rows _ recipient _ s
      (inbox_of-append recipient (left_rows recipient m rows) row
        ∙ rw (eq_refl recipient, left_rows-own recipient m inboxes rows s) refl)
      (λ j n.
        (inbox_of-append j (left_rows recipient m rows) row
          ∙ rw (n, left_rows-other recipient j m rows n) (append-nil _)))

pub enqueue-Agrees :
    (recipient : String) (m : Message) (inboxes : Inboxes) (rows : List Row)
    → IsFresh recipient m inboxes
    → Same inboxes rows
    → Agrees (File.enqueue recipient m inboxes) (Table.enqueue recipient m rows)
unfolding File.enqueue Table.enqueue
enqueue-Agrees recipient m inboxes rows f s = elim (Bool-cases (str_eq recipient "")) [
  | inl e ↦ rw (e) (record { answer = refl; state = s })
  | inr e ↦
      rw (e, left_rows-own recipient m inboxes rows s)
        (elim (Bool-cases (is_duplicate m (superseded m (records_of inboxes recipient)))) [
          | inl d ↦ rw (d) (record { answer = refl; state = unsuperseded d f })
          | inr d ↦
              rw (d) (record { answer = refl; state = appended-Same recipient m inboxes rows s })
        ])
]
  where
    unsuperseded :
        is_duplicate m (superseded m (records_of inboxes recipient)) ≡ true
        → IsFresh recipient m inboxes
        → Same inboxes (left_rows recipient m rows)
    unsuperseded d (inl q) = subst (Same inboxes) (sym (left_rows-kept recipient m rows q)) s
    unsuperseded d (inr q) = cc
