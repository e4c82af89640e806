-- ===== src/Delivery/Counted.antt =====
-- The report of a pass.
use scitex_todo.Prelude.{
  ℕ, ◌+◌, ◌≡◌, refl, String, Option, none, some, List, arith, length, length-append,
}
use scitex_todo.Delivery.Ledger.{sent, failed, skipped, EntryStatus, recorded, failed_terminal}
use scitex_todo.Delivery.Pass.{
  Recipient, Surroundings, Report, Delivery, noted, attempt_one, counted, deliver_pending,
}
use scitex_todo.Delivery.Passes.{deliver_pending-keeps}

abbrev pub total : Report → ℕ
total r = r.sent_count + r.failed_count + r.skipped_count + r.terminal_count

counted-total : (outcome : EntryStatus) (r : Report) → total (counted outcome r) ≡ 1 + total r
counted-total (recorded sent) r = omega arith
counted-total (recorded failed) r = omega arith
counted-total (recorded skipped) r = omega arith
counted-total failed_terminal r = omega arith

noted-total :
    (user note_id channel : String) (o : Option EntryStatus) (r : Report)
    → total r ≡ length r.outcomes
    → total (noted user note_id channel o r) ≡ length (noted user note_id channel o r).outcomes
unfolding noted
noted-total user note_id channel none r h = h
noted-total user note_id channel (some outcome) r h =
    omega (arith, counted-total outcome r, length-append r.outcomes _, h)

-- The four counts that a pass returns add up to the number of outcomes that it lists.
deliver_pending_total :
    (around : Surroundings) (recipients : List Recipient) (now : ℕ) (st : Delivery)
    → total (deliver_pending around recipients now st).0
      ≡ length (deliver_pending around recipients now st).0.outcomes
deliver_pending_total around recipients now st =
    deliver_pending-keeps (λ state. total state.0 ≡ length state.0.outcomes) around now
      (λ channel user address note state p.
        (noted-total user note.id channel.name (attempt_one channel user address note now state.1).0
          state.0 p))
      recipients st refl
