-- ===== src/Users/Endpoint.antt =====
-- Where a user is reached, and whether the user is alive (_users/_model.py).
use Prim.Native.String.{◌++◌ as append}
use scitex_todo.Prelude.{
  ℕ, zero, suc, ◌-◌, ◌/◌, String, Bool, true, false, Option, none, some, leb, if◌then◌else◌,
}
use scitex_todo.Py.Value.{Value, ℤ, pos, negsuc, null, int, text, leb_ℤ}
use scitex_todo.Py.Text.{strip, is_blank}
use scitex_todo.Py.Raise.{Result, ok, raise}
use scitex_todo.Card.{Card, get}
use scitex_todo.Env.{Env, str}
use scitex_todo.Users.AgentId.{parse_agent_id}

-- lines 283-288
abbrev host_of : Result (String × String) → String
host_of (raise _) = "127.0.0.1"
host_of (ok (host, name)) = if str_empty host then "127.0.0.1" else host
  where
    str_empty : String → Bool
    str_empty String.[] = true
    str_empty (String.◌∷◌ c s) = false

-- lines 280-288
abbrev host_for : Value → String
host_for (text s) = if is_blank s then "127.0.0.1" else host_of (parse_agent_id s)
host_for _ = "127.0.0.1"

-- lines 276-289
abbrev port_url : Env → Value → Value → Option String
port_url env (int (pos (suc n))) host_at_name = some (
    append "http://" (
      append (host_for host_at_name)
        (append ":" (append (str env (int (pos (suc n)))) "/v1/turn"))))
port_url env _ host_at_name = none

-- lines 273-275
abbrev explicit_url : Value → Option String
explicit_url (text s) = if is_blank s then none else some (strip s)
explicit_url _ = none

-- `user_turn_url` of a row
unfoldable pub user_turn_url : Env → Card → Option String
user_turn_url env d = elim (explicit_url (get d "turn_url")) [
  | some url ↦ some url
  | none ↦ port_url env (get d "a2a_port") (get d "host_at_name")
]

pub data LiveStatus : Type 0 where
  alive stale unknown : LiveStatus

-- The answer of `is_alive`
pub record Liveness : Type 0 where
  pub status : LiveStatus
  pub last_seen : Value
  pub age_seconds : Option ℤ

abbrev no_liveness : Liveness
no_liveness = record { status = LiveStatus.unknown; last_seen = null; age_seconds = none }

-- `-n`
abbrev negative : ℕ → ℤ
negative zero = pos zero
negative (suc n) = negsuc n

-- `int((now - parsed).total_seconds())`, of instants in microseconds
abbrev pub seconds_between : ℕ → ℕ → ℤ
seconds_between now seen =
    if leb seen now then pos ((now - seen) / 1_000_000) else negative ((seen - now) / 1_000_000)

abbrev classified : ℕ → ℤ → Value → Option ℕ → Liveness
classified now ttl last_seen none = no_liveness
classified now ttl last_seen (some seen) = record {
  status = if leb_ℤ (seconds_between now seen) ttl then LiveStatus.alive else LiveStatus.stale;
  last_seen = last_seen;
  age_seconds = some (seconds_between now seen);
}

-- `_parse_iso_utc`, with the instant that Python's parser reads in a non-empty string
abbrev parse_iso_utc : (String → Option ℕ) → Value → Option ℕ
parse_iso_utc instant (text String.[]) = none
parse_iso_utc instant (text s) = instant s
parse_iso_utc instant _ = none

-- `is_alive`, of a row or `None`
unfoldable pub is_alive : (String → Option ℕ) → Option Card → ℕ → ℤ → Liveness
is_alive instant none now ttl = no_liveness
is_alive instant (some d) now ttl =
    classified now ttl (get d "last_seen") (parse_iso_utc instant (get d "last_seen"))
