-- ===== src/Delivery/Tries.antt =====
-- Sequences of delivery attempts, and how often one delivery is tried.
use scitex_todo.Prelude.{
  ℕ, ◌+◌, ◌≤◌, ◌<◌, ◌≡◌, refl, sym, ◌∙◌, ap, subst, String, Bool, true, false, ◌&&◌, ◌||◌, inl, inr,
  Bool-cases, Option, some, List, [], ◌∷◌, ◌++◌, arith, leb, str_eq, eq_iff, eq_refl, if◌then◌else◌,
  length, filter, filter-append, length-append,
}
use scitex_todo.Py.Dict.{Dict, lookup, lookup-put}
use scitex_todo.Delivery.Ledger.{
  Status, sent, failed, skipped, DeliveryResult, Entry, max_attempts, make_key, is_sent,
  is_given_up, attempts_of, already_done, is_terminal, entry_after, record_result,
}
use scitex_todo.Delivery.Pass.{Note, Call, Channel, Delivery, is_noop, call_made, attempt_one}

-- The states that any attempts, of any deliveries and at any times, lead to.
pub data Attempted (s : Delivery) : Delivery → Type 0 where
  start : Attempted s s
  attempt :
      {t : Delivery} (channel : Channel) (user address : String) (note : Note) (now : ℕ)
      → Attempted s t
      → Attempted s (attempt_one channel user address note now t).1

abbrev pub is_try : String → Call → Bool
is_try key c = str_eq c.key key && elim c.status [ skipped ↦ false | _ ↦ true ]

-- The calls for a delivery that were not skipped.
unfoldable pub tries : String → List Call → ℕ
tries key calls = length (filter (is_try key) calls)

-- The delivery is over: it succeeded, or it was given up.
abbrev pub is_over : Option Entry → Bool
is_over o = is_sent o || is_given_up o

abbrev pub counts : Status → ℕ
counts skipped = 0
counts _ = 1

record_result-lookup :
    (entries : Dict Entry) (key j : String) (result : DeliveryResult) (now : ℕ)
    → lookup (record_result entries key result now) j ≡ (
        if str_eq key j
        then some (entry_after result.status now result (lookup entries key))
        else lookup entries j)
unfolding record_result
record_result-lookup entries key j result now = lookup-put entries key j _

-- The number of attempts stays below its bound until the delivery is over.
pub record IsBounded (o : Option Entry) : Type 0 where
  pub most : attempts_of o ≤ max_attempts
  pub room : is_over o ≡ false → attempts_of o < max_attempts

entry_after-attempts :
    (status : Status) (now : ℕ) (result : DeliveryResult) (old : Option Entry)
    → attempts_of (some (entry_after status now result old)) ≡ counts status + attempts_of old
entry_after-attempts skipped now result old = omega arith
entry_after-attempts sent now result old = omega arith
entry_after-attempts failed now result old = ground arith

entry_after-IsBounded :
    (status : Status) (now : ℕ) (result : DeliveryResult) (old : Option Entry)
    → attempts_of old < max_attempts
    → IsBounded (some (entry_after status now result old))
entry_after-IsBounded skipped now result old h = record { most = omega arith; room = λ n. h }
entry_after-IsBounded sent now result old h = record { most = omega arith; room = λ n. (cc) }
entry_after-IsBounded failed now result old h =
    elim (Bool-cases (leb max_attempts (1 + attempts_of old))) [
      | inl e ↦ rw (e) (record { most = omega (arith, h); room = λ n. (cc) })
      | inr e ↦ rw (e) (record { most = omega (arith, h); room = λ n. ground arith })
    ]

tries-append :
    (key : String) (calls : List Call) (c : Call)
    → tries key (calls ++ c ∷ []) ≡ tries key calls + (if is_try key c then 1 else 0)
unfolding tries filter
tries-append key calls c =
    ap length (filter-append (is_try key) calls (c ∷ []))
    ∙ length-append (filter (is_try key) calls) _
    ∙ ground arith

-- What the ledger says of a delivery, against the calls that were made.
pub record Tracked (key : String) (st : Delivery) : Type 0 where
  pub count : attempts_of (lookup st.entries key) ≡ tries key st.calls
  pub bounded : IsBounded (lookup st.entries key)

abbrev pub call_of : String → Status → Call
call_of key status = record { key = key; status = status }

tries-own :
    (key : String) (calls : List Call) (status : Status)
    → tries key (calls ++ call_of key status ∷ []) ≡ counts status + tries key calls
tries-own key calls skipped =
    tries-append key calls (call_of key skipped) ∙ ground (arith, eq_refl key)
tries-own key calls sent = tries-append key calls (call_of key sent) ∙ ground (arith, eq_refl key)
tries-own key calls failed =
    tries-append key calls (call_of key failed) ∙ ground (arith, eq_refl key)

tries-other :
    (key j : String) (calls : List Call) (status : Status)
    → str_eq key j ≡ false
    → tries j (calls ++ call_of key status ∷ []) ≡ tries j calls
tries-other key j calls status h = tries-append j calls (call_of key status) ∙ rw (h) (omega arith)

pub own_entry :
    (key : String) (result : DeliveryResult) (now : ℕ) (st : Delivery)
    → lookup (call_made key result now st).1.entries key
      ≡ some (entry_after result.status now result (lookup st.entries key))
own_entry key result now st =
    record_result-lookup st.entries key key result now ∙ rw (eq_refl key) refl

pub other_entry :
    (key j : String) (result : DeliveryResult) (now : ℕ) (st : Delivery)
    → str_eq key j ≡ false
    → lookup (call_made key result now st).1.entries j ≡ lookup st.entries j
other_entry key j result now st h = record_result-lookup st.entries key j result now ∙ rw (h) refl

own_call-Tracked :
    (key : String) (result : DeliveryResult) (now : ℕ) (st : Delivery)
    → attempts_of (lookup st.entries key) < max_attempts
    → Tracked key st
    → Tracked key (call_made key result now st).1
own_call-Tracked key result now st r u = record {
  count =
      ap attempts_of (own_entry key result now st)
      ∙ entry_after-attempts result.status now result (lookup st.entries key)
      ∙ ap (λ n. counts result.status + n) u.count
      ∙ sym (tries-own key st.calls result.status);
  bounded =
      subst IsBounded (sym (own_entry key result now st))
        (entry_after-IsBounded result.status now result (lookup st.entries key) r);
}

call_made-Tracked :
    (key j : String) (result : DeliveryResult) (now : ℕ) (st : Delivery)
    → (str_eq key j ≡ true → attempts_of (lookup st.entries key) < max_attempts)
    → Tracked j st
    → Tracked j (call_made key result now st).1
call_made-Tracked key j result now st room t = elim (Bool-cases (str_eq key j)) [
  | inl e ↦
      subst (λ x. Tracked x st → Tracked x (call_made key result now st).1) ((eq_iff key j).0 e)
        (own_call-Tracked key result now st (room e)) t
  | inr e ↦ record {
    count =
        ap attempts_of (other_entry key j result now st e)
        ∙ t.count
        ∙ sym (tries-other key j st.calls result.status e);
    bounded = subst IsBounded (sym (other_entry key j result now st e)) t.bounded;
  }
]

-- A delivery that is tried now is not over.
pub not_over :
    (entries : Dict Entry) (key : String) (now : ℕ)
    → is_noop entries key now ≡ false
    → is_over (lookup entries key) ≡ false
unfolding is_noop already_done is_terminal
not_over entries key now h = ground arith

attempt_one-Tracked :
    (channel : Channel) (user address : String) (note : Note) (now : ℕ) (st : Delivery) (j : String)
    → Tracked j st
    → Tracked j (attempt_one channel user address note now st).1
unfolding attempt_one
attempt_one-Tracked channel user address note now st j t =
    let key = make_key user note.id channel.name in
    elim (Bool-cases (is_noop st.entries key now)) [
      | inl e ↦ rw (e) t
      | inr e ↦ rw (e) (
          call_made-Tracked key j _ now st
            (λ q.
              (let b : IsBounded (lookup st.entries key) =
                  subst (λ x. IsBounded (lookup st.entries x)) (sym ((eq_iff key j).0 q))
                    t.bounded in
                b.room (not_over st.entries key now e)))
            t)
    ]

pub Attempted-Tracked : (s t : Delivery) (j : String) → Tracked j s → Attempted s t → Tracked j t
Attempted-Tracked s t j w start = w
Attempted-Tracked s t j w (attempt channel user address note now b) =
    attempt_one-Tracked channel user address note now _ j (Attempted-Tracked s _ j w b)
