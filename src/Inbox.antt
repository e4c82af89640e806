-- ===== src/Inbox.antt =====
-- Inboxes of notifications, in a file (_inbox.py) and in a table (_inbox_sqlite.py).
pub mod File
pub mod Table
pub mod Rows
pub mod Marks
pub mod Twins
pub mod Polled
pub mod Sessions
pub mod Once
use scitex_todo.Prelude.{String, Bool, true, false, Option, none, some, ◌&&◌, str_eq}

pub record Notification : Type 0 where
  pub id : String
  pub event_type : String
  pub card_id : String
  pub body : String
  pub actor : Option String
  pub ts : String
  pub seen : Bool

-- The arguments of `enqueue` beside the recipient. The time stamp is the one given, or the clock's;
-- the id is the one that `_generate_notification_id` makes.
pub record Message : Type 0 where
  pub id : String
  pub event_type : String
  pub card_id : String
  pub body : String
  pub actor : Option String
  pub ts : String
  pub supersede : Bool

abbrev pub option_eq : Option String → Option String → Bool
option_eq none none = true
option_eq (some a) (some b) = str_eq a b
option_eq _ _ = false

abbrev pub new_record : Message → Notification
new_record m = record {
  id = m.id;
  event_type = m.event_type;
  card_id = m.card_id;
  body = m.body;
  actor = m.actor;
  ts = m.ts;
  seen = false;
}

-- The event type and the card of a message.
abbrev pub is_about : Message → Notification → Bool
is_about m r = str_eq r.event_type m.event_type && str_eq r.card_id m.card_id

-- A message with the same event, card, time and actor.
abbrev pub is_same : Message → Notification → Bool
is_same m r =
    str_eq r.event_type m.event_type
    && (str_eq r.card_id m.card_id && (str_eq r.ts m.ts && option_eq r.actor m.actor))

abbrev pub mark_seen : Notification → Notification
mark_seen r = record r { seen = true }
