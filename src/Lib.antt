-- ===== src/Lib.antt =====
-- scitex-cards keeps a shared list of cards ("todos") for a fleet of agents: a document of cards in a
-- database, verbs that change it under a lock, and views that say what may be worked on.
--
-- Parts, and the files that model them (paths of the code are under src/scitex_cards/):
--
--   Prelude, Membership   shared names, tests on native numbers, lists
--   Py                    the parts of Python that the code stands on: dicts in insertion order
--                         (Py/Dict), JSON values with Python's equality and truth (Py/Value),
--                         exceptions as results (Py/Raise), strip (Py/Text), order of text (Py/Order)
--   Order, Sort           lexicographic keys, and Python's stable sort by a comparison
--   Env                   clock, environment variables, and the library calls `str`, `int`,
--                         `fromisoformat` and the repeater's pattern: parameters of the verbs
--   Card                  _task.py: a card is its mapping; `get` is `card.get(k)`; `is_tombstoned`,
--                         `find_live_task`
--   Deadlines             _deadlines.py: `_parse_deadline_or_raise`, and the next occurrence of a
--                         repeated deadline (Deadlines/Occurrence); the next deadline of a card and
--                         `is_overdue` (Deadlines/Overdue); Deadlines/Ends, Deadlines/First and
--                         Deadlines/Recurring have the proofs
--   Validate              _validate.py: `_validate_tasks`, the gate of every write; Validate/Fields
--                         has the checks, Validate/Passed, Validate/Sound and Validate/Again the
--                         proofs about them
--   Runnable              _runnable.py: `runnable_tasks` (Runnable/Batch), `blocked_tasks`
--                         (Runnable/Diagnose), their indices (Runnable/Index) and sort key
--                         (Runnable/Key)
--   Next                  _next.py: `next_task`
--   Throughput            _throughput.py: the counts of open cards and of cards in progress
--   Store                 _store.py, _store_write.py, _store_backend.py: the cycle of read, change,
--                         validate, guard, commit (Store/State); _store_events.py and the unblock handler of
--                         _hooks/_handlers.py (Store/Unblock);
--                         _store_lifecycle.py (Store/Complete, Store/Delete, Store/Resolve,
--                         Store/Reassign); _store_reassign.py (Store/Reassign); _store_comment.py
--                         (Store/Comment); _store_relations.py (Store/Relations);
--                         _store_enums.py (Store/Enums); _store_wip.py (Store/Wip);
--                         _store_mutate.py (Store/Mutate); _store_rescore.py (Store/Rescore);
--                         _help_wait.py (Store/Help)
--   Listing               _store_list.py: `_match`, `list_tasks`, `summarize_tasks`; Listing/Totals
--                         has the proof about them
--   Users                 _users/_model.py (Users/Model, Users/Endpoint), _users/_identity.py
--                         (Users/Identity), _users/_store_read.py and _users/_store_write.py
--                         (Users/Registry, Users/Changes, Users/Lookup), the agent ids of _ports.py
--                         (Users/AgentId). Users/Calls has sequences of calls; Users/Saved,
--                         Users/Effects, Users/Names, Users/Owners, Users/Apart, Users/Unowned,
--                         Users/Unique, Users/Fresh, Users/Known, Users/Rows, Users/Reached,
--                         Users/Typed and Users/Aliases have the proofs
--   Recipients            _notify/_resolver.py: `resolve_recipients`, over the registry of Users/Lookup;
--                         _notify/_rules.py and _notify/_config.py (Recipients/Config);
--                         Recipients/Chosen has the proof about it
--   Delivery              _delivery/_ledger.py, _delivery/_channel.py (Delivery/Ledger);
--                         _delivery/_loop.py, _delivery/_recipients.py (Delivery/Pass); sequences of
--                         attempts and of passes (Delivery/Tries, Delivery/Passes), and the proofs
--                         about them (Delivery/Settled, Delivery/Retries, Delivery/Counted)
--   Inbox                 _inbox.py (Inbox/File) and _inbox_sqlite.py (Inbox/Table), the two backends
--                         of the inboxes; a statement of SQL is a filter or a change of the list of
--                         rows. Inbox/Sessions has sequences of calls; Inbox/Rows, Inbox/Marks,
--                         Inbox/Twins, Inbox/Polled and Inbox/Once have the proofs
--   Threads               _threads.py: direct messages, with their dispatch to the inboxes, and their reading
--                         (Threads/Reading); Threads/Saved, Threads/Sent, Threads/Unread and
--                         Threads/Counts have the proofs
--   Store/History         the verbs as one data type of calls, and the stores that a store becomes
--   Store/Atomic, Store/Frame, Store/Marks
--                         what the verbs' proofs share: the cycle, the lookup after a change of one
--                         row, and the writes that no lookup sees
--   Store/ReadBack, Store/Gate, Store/Reopened, Store/Handover, Store/Delete/Gone,
--   Store/Delete/Unnamed, Store/Delete/Restored, Store/Delete/Stamped, Store/Reassign/Emptied,
--   Store/Keepers, Store/Relations/Subscribed, Store/Mutate/Fields, Store/Mutate/Updated,
--   Store/Mutate/Admitted, Store/Mutate/Added, Store/Mutate/Bounded,
--   Store/Rescore/Ranks, Store/Rescore/Given, Store/History/Cycles, Store/History/Safe, Store/Completed,
--   Store/Unblock/Calls, Store/Unblock/Logged
--                         the proofs about single verbs, and about sequences of calls
--   Examples              tests on a small store
--
-- A verb is a function of the environment, its arguments and the store. It answers a `Result` and
-- the store after it, whose `effects` list what was sent to the rest of the system. A verb's cycle is
-- one step, as the lock of `_store_lock` makes it; different orders of calls are different sequences
-- of steps. Clock readings are numbered within a call. Loops run over rows and are structural, but for
-- the search for the next occurrence of a deadline: it has fuel for more steps than there are days
-- until `now`, and a step moves by a day at least. The search for a fresh user id has fuel for one more
-- answer than there are ids.
--
-- Where a verb closes a card, what follows its cycle is part of it: the comments on the cards that are
-- freed, each a cycle of its own, with later answers of the clock. Rows are values, so what two names
-- share in Python is written out where it is seen: the snapshot that `delete_task` answers shares the
-- log and the comments of the deleted row.
--
-- Not modelled: SQLite, files, locks and git, whose part is the step itself; the check that a
-- database carries this store's stamp; messages of exceptions and warnings; floats, of which a
-- `retry_after` alone is read, by the two questions that the code asks of it; the liveness entry in
-- the answers of `reassign_task`, `add_task` and `update_task`; what the gate prints; the files of
-- the ledger and of the recipients, and the channels themselves. Of the registry of users, the read
-- cache and the switch of the strict mode are left out; random ids are a parameter. Of the threads,
-- the caches of the readers and the migration of an old file are left out. Reminders, triage and the
-- checks of idleness are not part of the model: their ages are floats of hours. Of the inboxes, the files and
-- the migration of old records are
-- left out.
mod Prelude
mod Membership
pub mod Py
mod Order
pub mod Sort
pub mod Env
pub mod Card
pub mod Deadlines
pub mod Validate
pub mod Runnable
pub mod Next
pub mod Throughput
pub mod Store
pub mod Listing
pub mod Recipients
pub mod Delivery
pub mod Inbox
mod Examples
pub mod Users
pub mod Threads
