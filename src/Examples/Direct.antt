-- ===== src/Examples/Direct.antt =====
-- Tests of direct messages.
use scitex_todo.Prelude.{if◌then◌else◌, ◌≡◌, refl, inl, none, some, List, [], ◌∷◌, ◌++◌, str_eq}
use scitex_todo.Py.Dict.{lookup, put}
use scitex_todo.Py.Text.{strip, lstrip, rstrip}
use scitex_todo.Py.Value.{null}
use scitex_todo.Py.Raise.{Result, ok}
use scitex_todo.Card.{Card, get, first}
use scitex_todo.Users.Model.{User}
use scitex_todo.Users.Identity.{
  flat_names, flat_from, alias_to_canonical, registered_canonical, remove_prefix, remove_suffix,
  without_prefix, without_host, mechanical_normalize, known_name, canonical_identity,
}
use scitex_todo.Users.Lookup.{exact, canonical_name, resolve_user}
use scitex_todo.Inbox.File.{enqueue, records_of as inbox_of, superseded}
use scitex_todo.Threads.{
  thread_rows, load_threads, save_threads, thread_key, split_colons, peers_of, messages_of,
  Outgoing, Fresh, new_message, dispatch_to_inbox, Messages, append_message, get_thread,
}
use scitex_todo.Threads.Reading.{
  mark_read, ThreadSummary, bump_unread, count_unread, summary_of, summaries, list_threads,
}
use scitex_todo.Threads.Sent.{append_message-get_thread}
use scitex_todo.Threads.Counts.{Marked, mark_read-list_threads}

abbrev empty : Messages
empty = record { threads = null; inboxes = [] }

abbrev users : Result (List User)
users = ok []

abbrev hello : Outgoing
hello = record { sender = "bo"; recipient = "ada"; body = "hello"; msg_id = none; ts = none }

abbrev fresh : Fresh
fresh = record { id = "m_1"; now = "2026-01-01T00:00:00Z"; notification = "n_1" }

abbrev next : Fresh
next = record { id = "m_2"; now = "2026-01-01T00:00:00Z"; notification = "n_2" }

abbrev message : Card
unfolding new_message
message = new_message fresh hello

accepted : (append_message fresh users hello empty).0 ≡ ok message
unfolding append_message strip lstrip rstrip
accepted = refl

abbrev sent : Messages
sent = (append_message fresh users hello empty).1

append_message-get_thread_example :
    (get_thread "bo" "ada" sent ≡ get_thread "bo" "ada" empty ++ message ∷ [])
    × (get_thread "ada" "bo" sent ≡ get_thread "bo" "ada" empty ++ message ∷ [])
    × (get_thread "cy" "ada" sent ≡ (
        if str_eq (thread_key "bo" "ada") (thread_key "cy" "ada")
        then get_thread "bo" "ada" empty ++ message ∷ []
        else get_thread "cy" "ada" empty))
append_message-get_thread_example =
    append_message-get_thread fresh users hello empty message "cy" "ada" accepted

-- Two pairs with one key.
shared_key : thread_key "a::b" "c" ≡ thread_key "a" "b::c"
unfolding thread_key
shared_key = refl

key_peers : peers_of "dm:ada::bo" ≡ ("ada", "bo")
unfolding peers_of remove_prefix split_colons
key_peers = refl

abbrev listed : ThreadSummary
listed = record { last = some message; count = 1; unread = ("ada", 1) ∷ ("bo", 0) ∷ [] }

sent_listed : lookup (list_threads sent) "dm:ada::bo" ≡ some listed
unfolding lookup list_threads summaries summary_of count_unread bump_unread put get peers_of
    remove_prefix split_colons load_threads thread_rows save_threads append_message strip lstrip
    rstrip messages_of thread_key new_message
sent_listed = refl

ada_peer : "ada" ≡ (peers_of "dm:ada::bo").0
unfolding peers_of remove_prefix split_colons
ada_peer = refl

mark_read-list_threads_example :
    Marked "dm:ada::bo" "ada" listed (mark_read "dm:ada::bo" "ada" none sent)
mark_read-list_threads_example =
    mark_read-list_threads "dm:ada::bo" "ada" sent listed sent_listed (inl ada_peer)

-- A name with the separator in it is read back as another pair.
separator_in_name : peers_of (thread_key "a::b" "c") ≡ ("a", "b::c")
unfolding peers_of remove_prefix split_colons thread_key
separator_in_name = refl

-- A second message within the same second reaches the thread and not the inbox.
second_dropped : (append_message next users hello sent).1.inboxes ≡ sent.inboxes
unfolding append_message strip lstrip rstrip dispatch_to_inbox resolve_user exact first
    canonical_name canonical_identity alias_to_canonical flat_from flat_names lookup put known_name
    registered_canonical mechanical_normalize without_prefix without_host remove_prefix
    remove_suffix enqueue inbox_of superseded thread_key
second_dropped = refl
