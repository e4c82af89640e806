-- ===== src/Delivery/Passes.antt =====
-- Sequences of passes, which are sequences of attempts, and the bound on the attempts they make.
use scitex_todo.Prelude.{
  ℕ, ◌≤◌, refl, String, inl, inr, Bool-cases, Option, none, some, List, [], ◌∷◌, arith, str_eq,
  filter,
}
use scitex_todo.Py.Dict.{lookup}
use scitex_todo.Delivery.Ledger.{max_attempts}
use scitex_todo.Delivery.Pass.{
  Note, Channel, ChannelConfig, Recipient, Surroundings, Report, Delivery, attempted, deliver_by,
  over_channels, over_notes, over_inbox, over_recipients, deliver_pending, no_report,
}
use scitex_todo.Delivery.Tries.{Attempted, start, attempt, tries, Attempted-Tracked}

-- What every attempt keeps of the report and the state, a pass keeps.
module _ (P : Report × Delivery → Type 0) (around : Surroundings) (now : ℕ)
    (step : (channel : Channel) (user address : String) (note : Note) (state : Report × Delivery)
      → P state
      → P (attempted channel user address note now state)) where
  deliver_by-keeps :
      (o : Option Channel) (user address : String) (note : Note) (state : Report × Delivery)
      → P state
      → P (deliver_by o user address note now state)
  deliver_by-keeps none user address note state p = p
  deliver_by-keeps (some channel) user address note state p = step channel user address note state p

  over_channels-keeps :
      (user : String) (note : Note) (cs : List ChannelConfig) (state : Report × Delivery)
      → P state
      → P (over_channels around user note now cs state)
  unfolding over_channels
  over_channels-keeps user note [] state p = p
  over_channels-keeps user note (c ∷ cs) state p =
      over_channels-keeps user note cs _
        (deliver_by-keeps (around.registered c.kind) user c.address note state p)

  over_notes-keeps :
      (to : Recipient) (ns : List Note) (state : Report × Delivery)
      → P state
      → P (over_notes around to now ns state)
  unfolding over_notes
  over_notes-keeps to [] state p = p
  over_notes-keeps to (n ∷ ns) state p = elim (Bool-cases (str_eq n.id "")) [
    | inl e ↦ over_notes-keeps to ns _ (rw (e) p)
    | inr e ↦ over_notes-keeps to ns _ (rw (e) (over_channels-keeps to.user n to.channels state p))
  ]

  over_inbox-keeps :
      (to : Recipient) (o : Option (List Note)) (state : Report × Delivery)
      → P state
      → P (over_inbox around to now o state)
  over_inbox-keeps to none state p = p
  over_inbox-keeps to (some notes) state p = over_notes-keeps to notes state p

  over_recipients-keeps :
      (tos : List Recipient) (state : Report × Delivery)
      → P state
      → P (over_recipients around now tos state)
  unfolding over_recipients
  over_recipients-keeps [] state p = p
  over_recipients-keeps (to ∷ tos) state p =
      over_recipients-keeps tos _ (over_inbox-keeps to (around.poll_inbox to.user) state p)

  pub deliver_pending-keeps :
      (recipients : List Recipient) (st : Delivery)
      → P (no_report, st)
      → P (deliver_pending around recipients now st)
  unfolding deliver_pending
  deliver_pending-keeps recipients st p = over_recipients-keeps recipients (no_report, st) p

-- The states that passes lead to, each with its own recipients, inboxes, channels and time.
pub data Passed (s : Delivery) : Delivery → Type 0 where
  at_first : Passed s s
  pass :
      {t : Delivery} (around : Surroundings) (recipients : List Recipient) (now : ℕ)
      → Passed s t
      → Passed s (deliver_pending around recipients now t).1

deliver_pending-Attempted :
    (s t : Delivery) (around : Surroundings) (recipients : List Recipient) (now : ℕ)
    → Attempted s t
    → Attempted s (deliver_pending around recipients now t).1
deliver_pending-Attempted s t around recipients now a =
    deliver_pending-keeps (λ state. Attempted s state.1) around now
      (λ channel user address note state p. attempt channel user address note now p) recipients t a

pub Passed-Attempted : (s t : Delivery) → Passed s t → Attempted s t
Passed-Attempted s t at_first = start
Passed-Attempted s t (pass around recipients now p) =
    deliver_pending-Attempted s _ around recipients now (Passed-Attempted s _ p)

abbrev pub unused : Delivery
unused = record { entries = []; calls = [] }

-- From an empty ledger, whatever passes are made and at whatever times, and whatever the channels
-- answer, one notification to one recipient over one channel is tried at most five times, not
-- counting the calls that the channel answers with a skip.
pub Passed-bounds :
    (t : Delivery) (key : String) → Passed unused t → tries key t.calls ≤ max_attempts
unfolding lookup tries filter
Passed-bounds t key p =
    let w =
      Attempted-Tracked unused t key
        (record { count = refl; bounded = record { most = omega arith; room = λ n. omega arith } })
        (Passed-Attempted unused t p) in
    omega (arith, w.count, w.bounded.most)
