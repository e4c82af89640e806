-- ===== src/Inbox/File.antt =====
-- The inboxes as one document (_inbox.py): a list of notifications per recipient. A call locks the
-- document, reads it, and saves it where it changed something.
use scitex_todo.Prelude.{
  String, Bool, not, ◌&&◌, ◌||◌, Option, none, some, List, [], ◌∷◌, ◌++◌, map, any, filter, str_eq,
  if◌then◌else◌,
}
use scitex_todo.Py.Dict.{Dict, lookup, put}
use scitex_todo.Inbox.{Notification, Message, new_record, is_about, is_same, mark_seen}

abbrev pub Inboxes : Type 0
Inboxes = Dict (List Notification)

abbrev or_empty : Option (List Notification) → List Notification
or_empty none = []
or_empty (some records) = records

-- `inboxes.get(recipient_id, [])`
unfoldable pub records_of : Inboxes → String → List Notification
records_of inboxes recipient = or_empty (lookup inboxes recipient)

-- What a message that supersedes leaves of the inbox: the pending ones about the same go.
unfoldable pub superseded : Message → List Notification → List Notification
superseded m records =
    if m.supersede then filter (λ r. r.seen || not (is_about m r)) records else records

-- `_is_duplicate`
abbrev pub is_duplicate : Message → List Notification → Bool
is_duplicate m records = any (is_same m) records

-- `enqueue`: a duplicate returns before the document is saved.
unfoldable pub enqueue : String → Message → Inboxes → Option Notification × Inboxes
enqueue recipient m inboxes =
    let records = superseded m (records_of inboxes recipient) in
    if str_eq recipient ""
    then (none, inboxes)
    else if is_duplicate m records
    then (none, inboxes)
    else (some (new_record m), put inboxes recipient (records ++ new_record m ∷ []))

-- `not unseen_only or not r.get("seen")`
abbrev pub is_selected : Bool → Notification → Bool
is_selected unseen_only r = not unseen_only || not r.seen

abbrev pub mark_if : (Notification → Bool) → Notification → Notification
mark_if test r = if test r then mark_seen r else r

abbrev pub marked : String → Bool → Inboxes → List Notification → List Notification × Inboxes
marked recipient unseen_only inboxes [] = ([], inboxes)
marked recipient unseen_only inboxes (r ∷ rs) = (
  map mark_seen (r ∷ rs),
  put inboxes recipient (map (mark_if (is_selected unseen_only)) (records_of inboxes recipient)),
)

-- `poll_inbox`
unfoldable pub poll_inbox : String → Bool → Bool → Inboxes → List Notification × Inboxes
poll_inbox recipient unseen_only mark inboxes =
    let selected = filter (is_selected unseen_only) (records_of inboxes recipient) in
    if str_eq recipient ""
    then ([], inboxes)
    else if not mark
    then (selected, inboxes)
    else marked recipient unseen_only inboxes selected

-- `r.get("id") in wanted and not r.get("seen")`
abbrev pub is_wanted : List String → Notification → Bool
is_wanted wanted r = any (λ nid. str_eq nid r.id) wanted && not r.seen

abbrev pub flip : String → List String → Inboxes → List Notification → List String × Inboxes
flip recipient wanted inboxes [] = ([], inboxes)
flip recipient wanted inboxes (r ∷ rs) = (
  map (λ n. n.id) (r ∷ rs),
  put inboxes recipient (map (mark_if (is_wanted wanted)) (records_of inboxes recipient)),
)

-- `{nid for nid in (notification_ids or []) if nid}`
abbrev pub wanted_ids : List String → List String
wanted_ids notification_ids = filter (λ nid. not (str_eq nid "")) notification_ids

-- `ack`
unfoldable pub ack : String → List String → Inboxes → List String × Inboxes
ack recipient notification_ids inboxes =
    let wanted = wanted_ids notification_ids in
    if str_eq recipient ""
    then ([], inboxes)
    else flip recipient wanted inboxes (filter (is_wanted wanted) (records_of inboxes recipient))
