-- ===== src/Examples/Deliveries.antt =====
-- Tests of the delivery of notifications.
use scitex_todo.Prelude.{◌≡◌, ◌≤◌, refl, true, none, some, String, List, [], ◌∷◌, ℕ, arith}
use scitex_todo.Py.Dict.{lookup, put}
use scitex_todo.Delivery.Ledger.{
  sent, make_key, already_done, is_terminal, has_failure, retry_eligible, record_result,
  backoff_seconds,
}
use scitex_todo.Delivery.Pass.{
  Note, answered, raised, Channel, Recipient, Surroundings, Delivery, is_noop, attempt_one,
  over_channels, over_notes, over_recipients, deliver_pending,
}
use scitex_todo.Delivery.Tries.{is_over, tries}
use scitex_todo.Delivery.Passes.{pass, at_first, unused, Passed-bounds}
use scitex_todo.Delivery.Settled.{calls_for, Passed-is_over}
use scitex_todo.Delivery.Retries.{attempts_at, attempts_at-is_over}

abbrev note : Note
note = record { id = "n_1"; body = [] }

abbrev worker : Recipient
worker = record { user = "worker"; channels = record { kind = "mail"; address = "w" } ∷ [] }

abbrev mail : Channel
mail = record {
  name = "mail";
  deliver = λ calls user address n.
      answered (record { status = sent; detail = none; retry_after = none });
}

abbrev broken : Channel
broken = record { name = "mail"; deliver = λ calls user address n. raised "OSError: down" }

abbrev around : Channel → Surroundings
around channel = record { poll_inbox = λ user. some (note ∷ []); registered = λ kind. some channel }

abbrev key : String
key = make_key "worker" "n_1" "mail"

abbrev after : Delivery
after = (deliver_pending (around mail) (worker ∷ []) 0 unused).1

after-is_over : is_over (lookup after.entries key) ≡ true
unfolding deliver_pending over_recipients over_notes over_channels attempt_one is_noop already_done
    is_terminal has_failure retry_eligible record_result lookup put
after-is_over = refl

Passed-bounds_example : tries key after.calls ≤ 5
Passed-bounds_example = Passed-bounds after key (pass (around mail) (worker ∷ []) 0 at_first)

Passed-is_over_example :
    (lookup (deliver_pending (around broken) (worker ∷ []) 9 after).1.entries key
      ≡ lookup after.entries key)
    × (calls_for key (deliver_pending (around broken) (worker ∷ []) 9 after).1.calls
        ≡ calls_for key after.calls)
Passed-is_over_example =
    Passed-is_over after _ key after-is_over (pass (around broken) (worker ∷ []) 9 at_first)

abbrev nows : List ℕ
nows = 0 ∷ 3600000000 ∷ 7200000000 ∷ 10800000000 ∷ 14400000000 ∷ []

-- The channel stays down, and the ledger gives up.
gives_up : is_terminal (attempts_at broken "worker" "w" note nows unused).entries key ≡ true
unfolding attempt_one is_noop already_done is_terminal has_failure retry_eligible record_result
    backoff_seconds lookup put
gives_up = refl

attempts_at-is_over_example :
    is_over (lookup (attempts_at broken "worker" "w" note nows unused).entries key) ≡ true
unfolding lookup
attempts_at-is_over_example =
    attempts_at-is_over broken "worker" "w" note nows unused (λ calls user address n. refl) refl
      (omega arith, (omega arith, (omega arith, (omega arith, (omega arith, tt))))) refl
