-- ===== src/Delivery/Ledger.antt =====
-- The ledger of delivery attempts (_delivery/_ledger.py, _delivery/_channel.py). Its file is left
-- out: an entry is what `record` writes. An instant is a number of microseconds, and a time stamp of
-- the ledger a number of seconds.
use Prim.Native.String.{◌++◌ as append_text}
use scitex_todo.Prelude.{
  ℕ, ◌+◌, ◌-◌, ◌*◌, ◌/◌, ◌^◌, min, String, Bool, true, false, not, ◌&&◌, Option, none, some, leb,
  str_eq, if◌then◌else◌,
}
use scitex_todo.Py.Dict.{Dict, lookup, put}

pub data Status : Type 0 where
  sent failed skipped : Status

-- A float, as far as the code looks: `x > 0`, and `int(x)` where that holds.
pub record Seconds : Type 0 where
  pub is_positive : Bool
  pub whole : ℕ

pub record DeliveryResult : Type 0 where
  pub status : Status
  pub detail : Option String
  pub retry_after : Option Seconds

-- The text under `status` of an entry: that of a result, or `TERMINAL_STATUS`.
pub data EntryStatus : Type 0 where
  recorded : Status → EntryStatus
  failed_terminal : EntryStatus

pub record Entry : Type 0 where
  pub state : EntryStatus
  pub attempts : ℕ
  pub last_ts : ℕ
  pub next_eligible_ts : Option ℕ
  pub note : Option String

abbrev pub max_attempts : ℕ
max_attempts = 5

abbrev pub base_backoff_sec : ℕ
base_backoff_sec = 5

abbrev pub max_backoff_sec : ℕ
max_backoff_sec = 3600

-- `_iso`: the microseconds are dropped.
abbrev pub iso : ℕ → ℕ
iso now = now / 1000000

-- `_make_key`
abbrev pub make_key : String → String → String → String
make_key recipient note_id channel =
    append_text recipient
      (append_text "\u{1f}" (append_text note_id (append_text "\u{1f}" channel)))

abbrev pub in_state : (EntryStatus → Bool) → Option Entry → Bool
in_state test none = false
in_state test (some e) = test e.state

abbrev pub sent_state : EntryStatus → Bool
sent_state (recorded sent) = true
sent_state _ = false

abbrev pub failed_state : EntryStatus → Bool
failed_state (recorded failed) = true
failed_state _ = false

abbrev pub terminal_state : EntryStatus → Bool
terminal_state failed_terminal = true
terminal_state _ = false

abbrev pub is_sent : Option Entry → Bool
is_sent o = in_state sent_state o

abbrev pub is_failed : Option Entry → Bool
is_failed o = in_state failed_state o

abbrev pub is_given_up : Option Entry → Bool
is_given_up o = in_state terminal_state o

-- `int(entry.get("attempts", 0))`
abbrev pub attempts_of : Option Entry → ℕ
attempts_of none = 0
attempts_of (some e) = e.attempts

abbrev due : Option ℕ → ℕ → Bool
due none now = true
due (some ts) now = leb (1000000 * ts) now

abbrev pub is_due : Option Entry → ℕ → Bool
is_due none now = false
is_due (some e) now = not (leb max_attempts e.attempts) && due e.next_eligible_ts now

unfoldable pub already_done : Dict Entry → String → Bool
already_done entries key = is_sent (lookup entries key)

unfoldable pub retry_eligible : Dict Entry → String → ℕ → Bool
retry_eligible entries key now = is_failed (lookup entries key) && is_due (lookup entries key) now

unfoldable pub has_failure : Dict Entry → String → Bool
has_failure entries key = is_failed (lookup entries key)

unfoldable pub is_terminal : Dict Entry → String → Bool
is_terminal entries key = is_given_up (lookup entries key)

abbrev exponential : ℕ → ℕ
exponential attempts =
    min (base_backoff_sec * 2 ^ ((if leb attempts 0 then 1 else attempts) - 1)) max_backoff_sec

unfoldable pub backoff_seconds : ℕ → Option Seconds → ℕ
backoff_seconds attempts none = exponential attempts
backoff_seconds attempts (some after) =
    if after.is_positive then min after.whole max_backoff_sec else exponential attempts

-- `if result.detail: entry["detail"] = result.detail`
abbrev kept_detail : Option Entry → Option String
kept_detail none = none
kept_detail (some e) = e.note

abbrev detailed : Option Entry → Option String → Option String
detailed old none = kept_detail old
detailed old (some detail) = if str_eq detail "" then kept_detail old else some detail

abbrev written : EntryStatus → ℕ → Option ℕ → ℕ → DeliveryResult → Option Entry → Entry
written state attempts next now result old = record {
  state = state;
  attempts = attempts;
  last_ts = iso now;
  next_eligible_ts = next;
  note = detailed old result.detail;
}

-- The entry of a failed attempt, with the number it has: the last one is not tried again.
abbrev failed_entry : ℕ → ℕ → DeliveryResult → Option Entry → Entry
failed_entry attempts now result old =
    if leb max_attempts attempts
    then written failed_terminal attempts none now result old
    else written (recorded failed) attempts
        (some (iso (now + 1000000 * backoff_seconds attempts result.retry_after))) now result old

abbrev pub entry_after : Status → ℕ → DeliveryResult → Option Entry → Entry
entry_after skipped now result old =
    written (recorded skipped) (attempts_of old) none now result old
entry_after failed now result old = failed_entry (1 + attempts_of old) now result old
entry_after sent now result old = written (recorded sent) (1 + attempts_of old) none now result old

-- `Ledger.record`
unfoldable pub record_result : Dict Entry → String → DeliveryResult → ℕ → Dict Entry
record_result entries key result now =
    put entries key (entry_after result.status now result (lookup entries key))
