-- ===== src/Inbox/Sessions.antt =====
-- Sequences of calls on the two backends.
use scitex_todo.Prelude.{◌≡◌, refl, ap, String, Bool, Option, List, [], ◌∷◌}
use scitex_todo.Inbox.{Notification, Message}
use scitex_todo.Inbox.File
use scitex_todo.Inbox.File.{Inboxes}
use scitex_todo.Inbox.Table
use scitex_todo.Inbox.Table.{Row}
use scitex_todo.Inbox.Twins.{Same, Agrees, IsFresh, enqueue-Agrees}
use scitex_todo.Inbox.Polled.{poll_inbox-Agrees, ack-Agrees}

pub data Operation : Type 0 where
  enqueues : String → Message → Operation
  polls : String → Bool → Bool → Operation
  acks : String → List String → Operation

pub data Answer : Type 0 where
  enqueued : Option Notification → Answer
  polled : List Notification → Answer
  acked : List String → Answer

abbrev answer : {S A : Type 0} → (A → Answer) → A × S → Answer × S
answer give (a, s) = (give a, s)

abbrev pub file_step : Operation → Inboxes → Answer × Inboxes
file_step (enqueues recipient m) d = answer enqueued (File.enqueue recipient m d)
file_step (polls recipient unseen_only mark) d =
    answer polled (File.poll_inbox recipient unseen_only mark d)
file_step (acks recipient ids) d = answer acked (File.ack recipient ids d)

abbrev pub table_step : Operation → List Row → Answer × List Row
table_step (enqueues recipient m) rows = answer enqueued (Table.enqueue recipient m rows)
table_step (polls recipient unseen_only mark) rows =
    answer polled (Table.poll_inbox recipient unseen_only mark rows)
table_step (acks recipient ids) rows = answer acked (Table.ack recipient ids rows)

-- The answers of a sequence of calls, and what it leaves.
module _ {S : Type 0} (step : Operation → S → Answer × S) where
  unfoldable pub answers : List Operation → S → List Answer
  answers [] s = []
  answers (o ∷ os) s = (step o s).0 ∷ answers os (step o s).1

  unfoldable pub final : List Operation → S → S
  final [] s = s
  final (o ∷ os) s = final os (step o s).1

abbrev pub IsFreshStep : Operation → Inboxes → Type 0
IsFreshStep (enqueues recipient m) d = IsFresh recipient m d
IsFreshStep _ d = Unit

-- No message of the sequence both supersedes and repeats one that it leaves in place.
abbrev pub AllFresh : List Operation → Inboxes → Type 0
AllFresh [] d = Unit
AllFresh (o ∷ os) d = IsFreshStep o d × AllFresh os (file_step o d).1

answer-Agrees :
    {A : Type 0} (give : A → Answer) (a : A × Inboxes) (b : A × List Row)
    → Agrees a b
    → Agrees (answer give a) (answer give b)
answer-Agrees give a b h = record { answer = ap give h.answer; state = h.state }

step-Agrees :
    (o : Operation) (d : Inboxes) (rows : List Row)
    → IsFreshStep o d
    → Same d rows
    → Agrees (file_step o d) (table_step o rows)
step-Agrees (enqueues recipient m) d rows f s =
    answer-Agrees enqueued _ _ (enqueue-Agrees recipient m d rows f s)
step-Agrees (polls recipient unseen_only mark) d rows f s =
    answer-Agrees polled _ _ (poll_inbox-Agrees recipient unseen_only mark d rows s)
step-Agrees (acks recipient ids) d rows f s =
    answer-Agrees acked _ _ (ack-Agrees recipient ids d rows s)

-- On inboxes that hold the same, the file and the table give the same answers to any sequence of
-- calls and hold the same after it, as long as no message of the sequence both supersedes and repeats
-- one that it leaves in place.
pub answers-Same :
    (os : List Operation) (d : Inboxes) (rows : List Row)
    → Same d rows
    → AllFresh os d
    → (answers file_step os d ≡ answers table_step os rows)
      × Same (final file_step os d) (final table_step os rows)
unfolding answers final
answers-Same [] d rows s f = (refl, s)
answers-Same (o ∷ os) d rows s f =
    let now = step-Agrees o d rows f.0 s in
    let (later, end) = answers-Same os (file_step o d).1 (table_step o rows).1 now.state f.1 in
    (rw (now.answer, later) refl, end)
