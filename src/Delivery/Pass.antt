-- ===== src/Delivery/Pass.antt =====
-- One attempt, and one pass over the recipients (_delivery/_loop.py, _delivery/_recipients.py). A
-- channel is a plug-in: what it answers is a function of the calls made so far. The warnings are left
-- out.
use scitex_todo.Prelude.{
  ℕ, ◌+◌, String, Bool, true, not, ◌&&◌, ◌||◌, Option, none, some, List, [], ◌∷◌, ◌++◌, str_eq,
  if◌then◌else◌,
}
use scitex_todo.Py.Dict.{Dict}
use scitex_todo.Card.{Card}
use scitex_todo.Delivery.Ledger.{
  Status, sent, failed, skipped, DeliveryResult, EntryStatus, recorded, failed_terminal, Entry,
  make_key, already_done, is_terminal, has_failure, retry_eligible, record_result,
}

-- A notification; a missing id is the empty text.
pub record Note : Type 0 where
  pub id : String
  pub body : Card

-- What a channel's `deliver` does: it answers, it raises, with the text of its exception, or it
-- answers something else.
pub data Reply : Type 0 where
  answered : DeliveryResult → Reply
  raised : String → Reply
  other : Reply

-- A call of `deliver`: the key of the attempt, and the status that came of it.
pub record Call : Type 0 where
  pub key : String
  pub status : Status

pub record Channel : Type 0 where
  pub name : String
  -- the calls so far, the recipient, the address and the notification
  pub deliver : List Call → String → String → Note → Reply

pub record ChannelConfig : Type 0 where
  pub kind : String
  pub address : String

pub record Recipient : Type 0 where
  pub user : String
  pub channels : List ChannelConfig

-- The ledger, and the calls of channels so far.
pub record Delivery : Type 0 where
  pub entries : Dict Entry
  pub calls : List Call

-- `should_deliver_now`: the policy lets everything through.
abbrev pub should_deliver_now : String → Note → Bool
should_deliver_now user note = true

abbrev failure : String → DeliveryResult
failure detail = record { status = failed; detail = some detail; retry_after = none }

abbrev pub result_of : Reply → DeliveryResult
result_of (answered result) = result
result_of (raised detail) = failure detail
result_of other = failure "channel returned non-DeliveryResult"

abbrev not_now : DeliveryResult
not_now = record { status = skipped; detail = none; retry_after = none }

-- `"noop"`: nothing is tried now.
unfoldable pub is_noop : Dict Entry → String → ℕ → Bool
is_noop entries key now =
    already_done entries key
    || (is_terminal entries key
        || (has_failure entries key && not (retry_eligible entries key now)))

abbrev pub call_made : String → DeliveryResult → ℕ → Delivery → Option EntryStatus × Delivery
call_made key result now st =
    let entries = record_result st.entries key result now in
    (
      some (if is_terminal entries key then failed_terminal else recorded result.status),
      record {
        entries = entries;
        calls = st.calls ++ record { key = key; status = result.status } ∷ [];
      },
    )

-- `_attempt_one`: the outcome, where `none` is `"noop"`, and the state after it
unfoldable pub attempt_one :
    Channel → String → String → Note → ℕ → Delivery → Option EntryStatus × Delivery
attempt_one channel user address note now st =
    let key = make_key user note.id channel.name in
    if is_noop st.entries key now
    then (none, st)
    else if not (should_deliver_now user note)
    then (
      some (recorded skipped),
      record { entries = record_result st.entries key not_now now; calls = st.calls },
    )
    else call_made key (result_of (channel.deliver st.calls user address note)) now st

-- The entry of a pass's `outcomes`.
pub record Attempt : Type 0 where
  pub recipient : String
  pub notification_id : String
  pub channel : String
  pub outcome : EntryStatus

-- What `deliver_pending` answers.
pub record Report : Type 0 where
  pub sent_count : ℕ
  pub failed_count : ℕ
  pub skipped_count : ℕ
  pub terminal_count : ℕ
  pub outcomes : List Attempt

abbrev pub no_report : Report
no_report = record {
  sent_count = 0;
  failed_count = 0;
  skipped_count = 0;
  terminal_count = 0;
  outcomes = [];
}

-- `counts[outcome] += 1`
abbrev pub counted : EntryStatus → Report → Report
counted (recorded sent) r = record r { sent_count = 1 + r.sent_count }
counted (recorded failed) r = record r { failed_count = 1 + r.failed_count }
counted (recorded skipped) r = record r { skipped_count = 1 + r.skipped_count }
counted failed_terminal r = record r { terminal_count = 1 + r.terminal_count }

-- The outcome of an attempt enters the report, unless it is `"noop"`.
unfoldable pub noted : String → String → String → Option EntryStatus → Report → Report
noted user note_id channel none r = r
noted user note_id channel (some outcome) r =
    let attempt : Attempt = record {
      recipient = user;
      notification_id = note_id;
      channel = channel;
      outcome = outcome;
    } in
    record (counted outcome r) { outcomes = r.outcomes ++ attempt ∷ [] }

abbrev pub attempted : Channel → String → String → Note → ℕ → Report × Delivery → Report × Delivery
attempted channel user address note now (r, st) =
    let (outcome, after) = attempt_one channel user address note now st in
    (noted user note.id channel.name outcome r, after)

-- What a pass is over: the inboxes, where a reading may raise, and the channels that are registered.
pub record Surroundings : Type 0 where
  pub poll_inbox : String → Option (List Note)
  pub registered : String → Option Channel

abbrev pub deliver_by :
    Option Channel → String → String → Note → ℕ → Report × Delivery → Report × Delivery
deliver_by none user address note now state = state
deliver_by (some channel) user address note now state =
    attempted channel user address note now state

-- `for channel_cfg in recipient.channels: ...`
unfoldable pub over_channels :
    Surroundings → String → Note → ℕ → List ChannelConfig → Report × Delivery → Report × Delivery
over_channels around user note now [] state = state
over_channels around user note now (c ∷ cs) state =
    over_channels around user note now cs
      (deliver_by (around.registered c.kind) user c.address note now state)

-- `for note in notes: ...`
unfoldable pub over_notes :
    Surroundings → Recipient → ℕ → List Note → Report × Delivery → Report × Delivery
over_notes around to now [] state = state
over_notes around to now (n ∷ ns) state =
    over_notes around to now ns
      (if str_eq n.id "" then state else over_channels around to.user n now to.channels state)

abbrev pub over_inbox :
    Surroundings → Recipient → ℕ → Option (List Note) → Report × Delivery → Report × Delivery
over_inbox around to now none state = state
over_inbox around to now (some notes) state = over_notes around to now notes state

-- `for recipient in recipients: ...`
unfoldable pub over_recipients :
    Surroundings → ℕ → List Recipient → Report × Delivery → Report × Delivery
over_recipients around now [] state = state
over_recipients around now (to ∷ tos) state =
    over_recipients around now tos (over_inbox around to now (around.poll_inbox to.user) state)

-- `deliver_pending`
unfoldable pub deliver_pending : Surroundings → List Recipient → ℕ → Delivery → Report × Delivery
deliver_pending around recipients now st = over_recipients around now recipients (no_report, st)
