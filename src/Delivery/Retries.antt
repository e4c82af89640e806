-- ===== src/Delivery/Retries.antt =====
-- How a delivery that keeps failing comes to its end.
use scitex_todo.Prelude.{
  ℕ, ◌+◌, ◌*◌, ◌≤◌, ◌<◌, ◌≡◌, refl, sym, subst, String, true, false, not, ◌&&◌, ◌||◌, inl, inr,
  Bool-cases, Option, none, some, List, [], ◌∷◌, arith, leb, length,
}
use scitex_todo.Py.Dict.{Dict, lookup}
use scitex_todo.Delivery.Ledger.{
  Status, sent, failed, skipped, DeliveryResult, EntryStatus, recorded, failed_terminal, Entry,
  Seconds, max_attempts, make_key, attempts_of, is_failed, is_due, failed_state, sent_state,
  terminal_state, already_done, is_terminal, has_failure, retry_eligible, backoff_seconds,
  entry_after, iso,
}
use scitex_todo.Delivery.Pass.{Note, Call, Channel, Delivery, result_of, is_noop, attempt_one}
use scitex_todo.Delivery.Tries.{is_over, counts, own_entry}

-- The wait after a failure is at most the cap.
backoff_seconds_bounds : (n : ℕ) (after : Option Seconds) → backoff_seconds n after ≤ 3600
unfolding backoff_seconds
backoff_seconds_bounds n none = omega arith
backoff_seconds_bounds n (some s) = ground arith

-- The delivery is over, or it may be tried from an instant on, after a number of tries.
data IsReady (from tries : ℕ) (o : Option Entry) : Type 0 where
  over : is_over o ≡ true → IsReady from tries o
  waits :
      is_failed o ≡ true
      → ((now : ℕ) → from ≤ now → is_due o now ≡ true)
      → tries ≤ attempts_of o
      → attempts_of o < max_attempts
      → IsReady from tries o
  fresh : o ≡ none → tries ≡ 0 → IsReady from tries o

abbrev hour : ℕ
hour = 3600000000

failed-IsReady :
    (now n : ℕ) (result : DeliveryResult) (old : Option Entry)
    → n ≤ attempts_of old
    → IsReady (now + hour) (1 + n) (some (entry_after failed now result old))
failed-IsReady now n result old h = elim (Bool-cases (leb max_attempts (1 + attempts_of old))) [
  | inl e ↦ rw (e) (over refl)
  | inr e ↦
      let room : 1 + attempts_of old < 5 = ground arith in
      rw (e) (
        waits refl (λ later l. is_due_later (1 + attempts_of old) later _ room (wait later l))
          (omega (arith, h)) room)
]
  where
    wait :
        (later : ℕ)
        → now + hour ≤ later
        → 1000000 * iso (now + 1000000 * backoff_seconds (1 + attempts_of old) result.retry_after)
          ≤ later
    wait later l = omega (arith, backoff_seconds_bounds (1 + attempts_of old) result.retry_after, l)

    is_due_later :
        (attempts later ts : ℕ)
        → attempts < 5
        → 1000000 * ts ≤ later
        → not (leb max_attempts attempts) && leb (1000000 * ts) later ≡ true
    is_due_later attempts later ts r w = ground arith

entry_after-IsReady :
    (status : Status) (now n : ℕ) (result : DeliveryResult) (old : Option Entry)
    → counts status ≡ 1
    → n ≤ attempts_of old
    → IsReady (now + hour) (1 + n) (some (entry_after status now result old))
entry_after-IsReady skipped now n result old c h = cc
entry_after-IsReady sent now n result old c h = over refl
entry_after-IsReady failed now n result old c h = failed-IsReady now n result old h

failed-not_over : (o : Option Entry) → is_failed o ≡ true → is_over o ≡ false
failed-not_over none h = cc
failed-not_over (some e) h = go e.state h
  where
    go : (x : EntryStatus) → failed_state x ≡ true → (sent_state x || terminal_state x) ≡ false
    go (recorded sent) h = cc
    go (recorded failed) h = refl
    go (recorded skipped) h = cc
    go failed_terminal h = cc

-- What is over is left alone, and what is ready is tried.
over-is_noop :
    (entries : Dict Entry) (key : String) (now : ℕ)
    → is_over (lookup entries key) ≡ true
    → is_noop entries key now ≡ true
unfolding is_noop already_done is_terminal
over-is_noop entries key now h = ground arith

waits-is_noop :
    (entries : Dict Entry) (key : String) (now : ℕ)
    → is_failed (lookup entries key) ≡ true
    → is_due (lookup entries key) now ≡ true
    → is_noop entries key now ≡ false
unfolding is_noop already_done is_terminal has_failure retry_eligible
waits-is_noop entries key now f d = let o = failed-not_over (lookup entries key) f in ground arith

fresh-is_noop :
    (entries : Dict Entry) (key : String) (now : ℕ)
    → lookup entries key ≡ none
    → is_noop entries key now ≡ false
unfolding is_noop already_done is_terminal has_failure retry_eligible
fresh-is_noop entries key now e = rw (e) refl

-- A channel whose answers all count as attempts, whatever it answers.
abbrev pub NeverSkips : Channel → Type 0
NeverSkips channel =
    (calls : List Call) (user address : String) (note : Note)
    → counts (result_of (channel.deliver calls user address note)).status ≡ 1

module _ (channel : Channel) (user address : String) (note : Note) where
  -- Attempts of one delivery, at each of the instants.
  abbrev pub attempts_at : List ℕ → Delivery → Delivery
  attempts_at [] st = st
  attempts_at (now ∷ nows) st = attempts_at nows (attempt_one channel user address note now st).1

  abbrev pub key_of : String
  key_of = make_key user note.id channel.name

  tried-IsReady :
      (now n : ℕ) (st : Delivery)
      → NeverSkips channel
      → is_noop st.entries key_of now ≡ false
      → n ≤ attempts_of (lookup st.entries key_of)
      → IsReady
          (now + hour)
          (1 + n)
          (lookup (attempt_one channel user address note now st).1.entries key_of)
  unfolding attempt_one
  tried-IsReady now n st c e h =
      let result = result_of (channel.deliver st.calls user address note) in
      rw (e) (
        subst (IsReady (now + hour) (1 + n)) (sym (own_entry key_of result now st)) (
          entry_after-IsReady result.status now n result (lookup st.entries key_of)
            (c st.calls user address note) h))

  attempt_one-IsReady :
      (from now n : ℕ) (st : Delivery)
      → NeverSkips channel
      → from ≤ now
      → IsReady from n (lookup st.entries key_of)
      → IsReady
          (now + hour)
          (1 + n)
          (lookup (attempt_one channel user address note now st).1.entries key_of)
  unfolding attempt_one
  attempt_one-IsReady from now n st c l (over o) =
      rw (over-is_noop st.entries key_of now o) (over o)
  attempt_one-IsReady from now n st c l (waits f d h r) =
      tried-IsReady now n st c (waits-is_noop st.entries key_of now f (d now l)) h
  attempt_one-IsReady from now n st c l (fresh e z) =
      tried-IsReady now n st c (fresh-is_noop st.entries key_of now e) (omega (arith, z))

-- Instants from a first one on, each at least an hour after the one before it.
abbrev pub Hourly : ℕ → List ℕ → Type 0
Hourly from [] = Unit
Hourly from (now ∷ nows) = (from ≤ now) × Hourly (now + hour) nows

attempts_at-IsReady :
    (channel : Channel) (user address : String) (note : Note) (nows : List ℕ) (from n : ℕ)
    (st : Delivery)
    → NeverSkips channel
    → Hourly from nows
    → IsReady from n (lookup st.entries (make_key user note.id channel.name))
    → n + length nows ≡ max_attempts
    → is_over (
        lookup
          (attempts_at channel user address note nows st).entries
          (make_key user note.id channel.name))
      ≡ true
attempts_at-IsReady channel user address note [] from n st c h (over o) e = o
attempts_at-IsReady channel user address note [] from n st c h (waits f d l r) e =
    absurd (omega (arith, l, r, e))
attempts_at-IsReady channel user address note [] from n st c h (fresh o z) e =
    absurd (omega (arith, z, e))
attempts_at-IsReady channel user address note (now ∷ nows) from n st c h r e =
    attempts_at-IsReady channel user address note nows (now + hour) (1 + n) _ c h.1
      (attempt_one-IsReady channel user address note from now n st c h.0 r) (omega (arith, e))

-- A delivery that the ledger does not know is over after five attempts at instants an hour apart, or
-- further, whatever the channel answers or raises, unless it answers with a skip: it has been sent, or
-- it is given up for good.
pub attempts_at-is_over :
    (channel : Channel) (user address : String) (note : Note) (nows : List ℕ) (st : Delivery)
    → NeverSkips channel
    → lookup st.entries (make_key user note.id channel.name) ≡ none
    → Hourly 0 nows
    → length nows ≡ max_attempts
    → is_over (
        lookup
          (attempts_at channel user address note nows st).entries
          (make_key user note.id channel.name))
      ≡ true
attempts_at-is_over channel user address note nows st c e h l =
    attempts_at-IsReady channel user address note nows 0 0 st c h (fresh e refl) (omega (arith, l))
