-- ===== src/Threads.antt =====
-- Direct messages between two peers (_threads.py): one list of messages for a pair, in a document of
-- its own. A call locks the document, reads it, and saves it where it changed something; the caches
-- of the readers are left out. A message is a mapping, whose fields this module wrote: `to` and `id`
-- are strings.
pub mod Saved
pub mod Sent
pub mod Counts
pub mod Unread
pub mod Reading
use Prim.Native.String.{◌++◌ as append}
use scitex_todo.Prelude.{
  ℕ, zero, suc, ◌+◌, ◌==◌, String, Bool, true, false, not, ◌&&◌, ◌||◌, Option, none, some, List, [],
  ◌∷◌, ◌++◌, map, any, filter, length, str_eq, if◌then◌else◌,
}
use scitex_todo.Py.Dict.{Dict, lookup, put}
use scitex_todo.Py.Order.{lt_text}
use scitex_todo.Py.Text.{is_blank}
use scitex_todo.Py.Value.{
  Value, text, bool, dict, list, field, end, entries, fields_of, elements, items_of, truthy,
  is_text,
}
use scitex_todo.Py.Raise.{Result, ok, raise, raise_if, ◌>>=◌, ◌>>◌, value_error}
use scitex_todo.Card.{Card, get, or_null}
use scitex_todo.Users.Model.{User}
use scitex_todo.Users.Identity.{remove_prefix}
use scitex_todo.Users.Lookup.{resolve_user}
use scitex_todo.Inbox.{Notification, Message}
use scitex_todo.Inbox.File.{Inboxes, enqueue}

abbrev pub Threads : Type 0
Threads = Dict (List Card)

-- `[r for r in records if isinstance(r, dict)]`
abbrev pub dicts_in : List Value → List Card
dicts_in [] = []
dicts_in (dict d ∷ vs) = entries d ∷ dicts_in vs
dicts_in (_ ∷ vs) = dicts_in vs

abbrev pub records_in : Value → List Card
records_in (list vs) = dicts_in (elements vs)
records_in _ = []

-- `for key, records in raw.items()`
unfoldable pub thread_rows : Dict Value → Threads
thread_rows [] = []
thread_rows ((key, records) ∷ raw) =
    if str_eq key "" then thread_rows raw else (key, records_in records) ∷ thread_rows raw

abbrev pub threads_in : Value → Threads
threads_in (dict raw) = thread_rows (entries raw)
threads_in _ = []

-- `_load_threads`, of the JSON that the file holds
unfoldable pub load_threads : Value → Threads
unfolding thread_rows lookup
load_threads (dict d) = threads_in (or_null (lookup (entries d) "threads"))
load_threads _ = []

abbrev pub as_values : List Card → List Value
as_values [] = []
as_values (r ∷ rs) = dict (fields_of r) ∷ as_values rs

abbrev pub as_raw : Threads → Dict Value
as_raw [] = []
as_raw ((key, records) ∷ threads) = (key, list (items_of (as_values records))) ∷ as_raw threads

-- The document that `_save_threads_unlocked` writes.
unfoldable pub save_threads : Threads → Value
save_threads threads = dict (field "threads" (dict (fields_of (as_raw threads))) end)

abbrev pub join : String → String → String
join lo hi = append "dm:" (append lo (append "::" hi))

-- `thread_key`
unfoldable pub thread_key : String → String → String
thread_key a b = if lt_text b a then join b a else join a b

abbrev headed : Prim.Native.Char.Char → String × String → String × String
headed c (lo, hi) = (String.◌∷◌ c lo, hi)

-- `s.partition("::")`, less the separator
unfoldable pub split_colons : String → String × String
unfolding remove_prefix
split_colons String.[] = (String.[], String.[])
split_colons (String.◌∷◌ c s) =
    let rest = split_colons s in
    elim (remove_prefix "::" (String.◌∷◌ c s)) [ none ↦ headed c rest | some hi ↦ (String.[], hi) ]

-- `peers_of`
unfoldable pub peers_of : String → String × String
unfolding split_colons remove_prefix
peers_of key = split_colons (elim (remove_prefix "dm:" key) [ none ↦ key | some rest ↦ rest ])

abbrev pub or_nothing : Option (List Card) → List Card
or_nothing none = []
or_nothing (some records) = records

-- `threads.get(key, [])`
unfoldable pub messages_of : Threads → String → List Card
unfolding lookup
messages_of threads key = or_nothing (lookup threads key)

-- The arguments of `append_message`.
pub record Outgoing : Type 0 where
  pub sender : String
  pub recipient : String
  pub body : String
  pub msg_id : Option String
  pub ts : Option String

-- `given or computed`
abbrev or_computed : Option String → String → String
or_computed none computed = computed
or_computed (some s) computed = if str_eq s "" then computed else s

-- What a call takes from outside: a fresh id, the clock, and an id for the notification.
pub record Fresh : Type 0 where
  pub id : String
  pub now : String
  pub notification : String

unfoldable pub new_message : Fresh → Outgoing → Card
unfolding thread_key
new_message fresh m =
    ("id", text (or_computed m.msg_id fresh.id))
    ∷ ("thread", text (thread_key m.sender m.recipient))
    ∷ ("from", text m.sender)
    ∷ ("to", text m.recipient)
    ∷ ("body", text m.body)
    ∷ ("ts", text (or_computed m.ts fresh.now))
    ∷ ("read", bool false)
    ∷ []

-- lines 332-336: any error of the lookup leaves the name as it is.
abbrev recipient_id : String → Result (Option User) → String
recipient_id to (ok (some user)) = user.id
recipient_id to _ = to

-- `_dispatch_to_inbox`, with the users that can be read
unfoldable pub dispatch_to_inbox : Fresh → Result (List User) → Outgoing → Inboxes → Inboxes
unfolding resolve_user thread_key
dispatch_to_inbox fresh users m inboxes =
    (enqueue (recipient_id m.recipient (users >>= resolve_user m.recipient))
      (record {
        id = fresh.notification;
        event_type = "dm";
        card_id = thread_key m.sender m.recipient;
        body = m.body;
        actor = some m.sender;
        ts = or_computed m.ts fresh.now;
        supersede = false;
      })
      inboxes).1

-- The document of the threads, and the inboxes.
pub record Messages : Type 0 where
  pub threads : Value
  pub inboxes : Inboxes

abbrev pub with_message : Fresh → Outgoing → Threads → Threads
with_message fresh m threads =
    let key = thread_key m.sender m.recipient in
    put threads key (messages_of threads key ++ new_message fresh m ∷ [])

-- `append_message`
unfoldable pub append_message :
    Fresh → Result (List User) → Outgoing → Messages → Result Card × Messages
unfolding new_message load_threads save_threads put messages_of
append_message fresh users m s =
    if str_eq m.sender "" || str_eq m.recipient "" || is_blank m.body
    then (raise value_error, s)
    else (
      ok (new_message fresh m),
      record {
        threads = save_threads (with_message fresh m (load_threads s.threads));
        inboxes = dispatch_to_inbox fresh users m s.inboxes;
      },
    )

-- `get_thread`
unfoldable pub get_thread : String → String → Messages → List Card
unfolding messages_of thread_key load_threads
get_thread a b s = messages_of (load_threads s.threads) (thread_key a b)
