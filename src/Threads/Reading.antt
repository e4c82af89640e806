-- ===== src/Threads/Reading.antt =====
-- Marking messages as read, and the summaries of the threads (_threads.py).
use scitex_todo.Prelude.{
  ℕ, suc, ◌==◌, String, Bool, true, false, not, ◌&&◌, Option, none, some, List, [], ◌∷◌, map, any,
  filter, length, if◌then◌else◌,
}
use scitex_todo.Py.Dict.{Dict, lookup, put}
use scitex_todo.Py.Value.{Value, text, bool, truthy, is_text}
use scitex_todo.Card.{Card, get}
use scitex_todo.Threads.{Threads, load_threads, save_threads, peers_of, messages_of, Messages}

-- `wanted is not None and record.get("id") not in wanted`
abbrev is_unwanted : Option (List String) → Card → Bool
is_unwanted none r = false
is_unwanted (some ids) r = not (any (λ i. is_text (get r "id") i) ids)

-- `_is_unread_for`
unfoldable pub is_unread_for : String → Option (List String) → Card → Bool
is_unread_for reader wanted r =
    is_text (get r "to") reader && not (truthy (get r "read")) && not (is_unwanted wanted r)

unfoldable pub with_read : Card → Card
unfolding put
with_read r = put r "read" (bool true)

abbrev pub read_if : String → Option (List String) → Card → Card
read_if reader wanted r = if is_unread_for reader wanted r then with_read r else r

unfoldable pub mark_records : String → String → Option (List String) → Threads → Threads
unfolding messages_of put
mark_records thread reader wanted threads =
    put threads thread (map (read_if reader wanted) (messages_of threads thread))

-- `mark_read`: nothing is written where no message is unread for the reader.
unfoldable pub mark_read : String → String → Option (List String) → Messages → ℕ × Messages
unfolding load_threads messages_of filter is_unread_for mark_records save_threads
mark_read thread reader ids s =
    let threads = load_threads s.threads in
    let unread = filter (is_unread_for reader ids) (messages_of threads thread) in
    if length unread == 0 then (0, s) else (
      length unread,
      record s { threads = save_threads (mark_records thread reader ids threads) },
    )

-- One entry of `list_threads`, less the peers, which are `peers_of` of its key
pub record ThreadSummary : Type 0 where
  pub last : Option Card
  pub count : ℕ
  pub unread : Dict ℕ

abbrev last_of : List Card → Option Card
last_of [] = none
last_of (r ∷ []) = some r
last_of (r ∷ s ∷ rs) = last_of (s ∷ rs)

abbrev pub bumped : Dict ℕ → String → Option ℕ → Dict ℕ
bumped unread to none = unread
bumped unread to (some n) = put unread to (suc n)

-- `unread[to] += 1` where `to` is a key
unfoldable pub bump_unread : Dict ℕ → Value → Dict ℕ
unfolding lookup put
bump_unread unread (text to) = bumped unread to (lookup unread to)
bump_unread unread _ = unread

-- lines 436-438
unfoldable pub count_unread : Dict ℕ → List Card → Dict ℕ
unfolding bump_unread
count_unread unread [] = unread
count_unread unread (r ∷ rs) =
    count_unread (if truthy (get r "read") then unread else bump_unread unread (get r "to")) rs

-- `{a: 0, b: 0}`
abbrev pub no_unread : String × String → Dict ℕ
no_unread (a, b) = put (put [] a 0) b 0

unfoldable pub summary_of : String → List Card → ThreadSummary
unfolding count_unread peers_of
summary_of key records = record {
  last = last_of records;
  count = length records;
  unread = count_unread (no_unread (peers_of key)) records;
}

unfoldable pub summaries : Threads → Dict ThreadSummary
unfolding summary_of
summaries [] = []
summaries ((key, records) ∷ threads) = (key, summary_of key records) ∷ summaries threads

-- `list_threads`
unfoldable pub list_threads : Messages → Dict ThreadSummary
unfolding summaries load_threads
list_threads s = summaries (load_threads s.threads)
