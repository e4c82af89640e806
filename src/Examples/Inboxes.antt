-- ===== src/Examples/Inboxes.antt =====
-- Tests of the inboxes.
use scitex_todo.Prelude.{◌≡◌, refl, true, false, inl, some, List, [], ◌∷◌, ◌++◌, filter}
use scitex_todo.Py.Dict.{lookup}
use scitex_todo.Inbox.{Message, new_record}
use scitex_todo.Inbox.File.{records_of}
use scitex_todo.Inbox.Table.{Row, select, left_rows, enqueue, poll_inbox}
use scitex_todo.Inbox.Twins.{Same}
use scitex_todo.Inbox.Sessions.{
  Operation, enqueues, polls, acks, file_step, table_step, answers, final, answers-Same,
}
use scitex_todo.Inbox.Once.{pending, pending-poll_inbox, is_left, pending-enqueue}

abbrev hello : Message
hello = record {
  id = "n_1";
  event_type = "commented";
  card_id = "b";
  body = "half way";
  actor = some "worker";
  ts = "2026-07-21T09:00:00Z";
  supersede = false;
}

abbrev operations : List Operation
operations =
    enqueues "lead" hello
    ∷ polls "lead" true false
    ∷ acks "lead" ("n_1" ∷ [])
    ∷ polls "lead" true true
    ∷ []

empty-Same : Same [] []
unfolding records_of lookup select filter
empty-Same r = refl

answers-Same_example :
    (answers file_step operations [] ≡ answers table_step operations [])
    × Same (final file_step operations []) (final table_step operations [])
answers-Same_example = answers-Same operations [] [] empty-Same (inl refl, (tt, (tt, (tt, tt))))

abbrev rows : List Row
rows = record { recipient = "lead"; note = new_record hello } ∷ []

accepts_hello : (enqueue "lead" hello []).0 ≡ some (new_record hello)
unfolding enqueue left_rows select filter
accepts_hello = refl

pending-enqueue_example :
    pending "lead" (enqueue "lead" hello []).1
    ≡ filter (is_left hello) (pending "lead" []) ++ new_record hello ∷ []
pending-enqueue_example = pending-enqueue "lead" hello [] (new_record hello) accepts_hello

pending-poll_inbox_example : pending "lead" (poll_inbox "lead" false true rows).1 ≡ []
pending-poll_inbox_example = pending-poll_inbox "lead" false rows
