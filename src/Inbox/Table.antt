-- ===== src/Inbox/Table.antt =====
-- The inboxes as one table of a database (_inbox_sqlite.py). A statement works on the list of rows in
-- the order of `rowid`: `SELECT` filters it, `DELETE` filters it out, `INSERT` appends to it, and
-- `UPDATE` changes the rows that its condition holds of.
use scitex_todo.Prelude.{
  String, Bool, true, false, not, ◌&&◌, Option, none, some, List, [], ◌∷◌, ◌++◌, map, any, filter,
  str_eq, if◌then◌else◌,
}
use scitex_todo.Inbox.{Notification, Message, new_record, is_about, is_same, mark_seen}

pub record Row : Type 0 where
  pub recipient : String
  pub note : Notification

-- `recipient = ?`
abbrev pub is_to : String → Row → Bool
is_to recipient r = str_eq r.recipient recipient

-- `SELECT * FROM inbox WHERE recipient = ? AND ... ORDER BY rowid`
unfoldable pub select : String → (Notification → Bool) → List Row → List Notification
select recipient test rows = map (λ r. r.note) (filter (λ r. is_to recipient r && test r.note) rows)

-- `DELETE FROM inbox WHERE recipient = ? AND ...`
unfoldable pub delete : String → (Notification → Bool) → List Row → List Row
delete recipient test rows = filter (λ r. not (is_to recipient r && test r.note)) rows

abbrev pub seen_row : String → (Notification → Bool) → Row → Row
seen_row recipient test r =
    if is_to recipient r && test r.note then record r { note = mark_seen r.note } else r

-- `UPDATE inbox SET seen = 1 WHERE recipient = ? AND ...`
unfoldable pub set_seen : String → (Notification → Bool) → List Row → List Row
set_seen recipient test rows = map (seen_row recipient test) rows

-- `id IN (?, ...)`
abbrev pub is_among : List String → Notification → Bool
is_among ids r = any (λ i. str_eq i r.id) ids

abbrev pub every : Notification → Bool
every r = true

-- The rows after the `DELETE` of a message that supersedes.
unfoldable pub left_rows : String → Message → List Row → List Row
left_rows recipient m rows =
    if m.supersede then delete recipient (λ r. not r.seen && is_about m r) rows else rows

abbrev pub insert_new : String → Message → List Row → Option Notification × List Row
insert_new recipient m rows =
    if any (is_same m) (select recipient every rows)
    then (none, rows)
    else (some (new_record m), rows ++ record { recipient = recipient; note = new_record m } ∷ [])

-- `enqueue`
unfoldable pub enqueue : String → Message → List Row → Option Notification × List Row
enqueue recipient m rows =
    if str_eq recipient ""
    then (none, rows)
    else insert_new recipient m (left_rows recipient m rows)

-- The condition of the two polls: `seen = 0`, or none.
abbrev pub is_polled : Bool → Notification → Bool
is_polled true r = not r.seen
is_polled false r = true

abbrev pub marked : String → List Row → List Notification → List Notification × List Row
marked recipient rows [] = ([], rows)
marked recipient rows (n ∷ ns) =
    (map mark_seen (n ∷ ns), set_seen recipient (is_among (map (λ r. r.id) (n ∷ ns))) rows)

-- `poll_inbox`
unfoldable pub poll_inbox : String → Bool → Bool → List Row → List Notification × List Row
poll_inbox recipient unseen_only mark rows =
    let selected = select recipient (is_polled unseen_only) rows in
    if str_eq recipient ""
    then ([], rows)
    else if not mark
    then (selected, rows)
    else marked recipient rows selected

abbrev pub flip : String → List Row → List String → List String × List Row
flip recipient rows [] = ([], rows)
flip recipient rows (i ∷ is) = (i ∷ is, set_seen recipient (is_among (i ∷ is)) rows)

-- `ack`
unfoldable pub ack : String → List String → List Row → List String × List Row
ack recipient notification_ids rows =
    let wanted = filter (λ nid. not (str_eq nid "")) notification_ids in
    if str_eq recipient ""
    then ([], rows)
    else flip recipient rows
        (map (λ r. r.id) (select recipient (λ r. not r.seen && is_among wanted r) rows))
