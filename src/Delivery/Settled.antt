-- ===== src/Delivery/Settled.antt =====
-- Deliveries that are over.
use mathlib.Core.List.{append-nil}
use scitex_todo.Prelude.{
  ℕ, ◌≡◌, refl, sym, ◌∙◌, subst, String, true, false, inl, inr, Bool-cases, List, [], ◌∷◌, ◌++◌,
  str_eq, eq_iff, filter, filter-append,
}
use scitex_todo.Py.Dict.{lookup}
use scitex_todo.Delivery.Ledger.{Status, DeliveryResult, make_key}
use scitex_todo.Delivery.Pass.{Note, Call, Channel, Delivery, is_noop, call_made, attempt_one}
use scitex_todo.Delivery.Tries.{Attempted, start, attempt, is_over, other_entry, call_of, not_over}
use scitex_todo.Delivery.Passes.{Passed, Passed-Attempted}

-- The calls of channels for a delivery.
unfoldable pub calls_for : String → List Call → List Call
calls_for key calls = filter (λ c. str_eq c.key key) calls

calls_for-other :
    (key j : String) (calls : List Call) (status : Status)
    → str_eq key j ≡ false
    → calls_for j (calls ++ call_of key status ∷ []) ≡ calls_for j calls
unfolding calls_for filter
calls_for-other key j calls status h =
    filter-append (λ c. str_eq c.key j) calls (call_of key status ∷ []) ∙ rw (h) (append-nil _)

-- What one state has of a delivery is what the other has.
record SameFor (key : String) (s t : Delivery) : Type 0 where
  entry : lookup t.entries key ≡ lookup s.entries key
  calls : calls_for key t.calls ≡ calls_for key s.calls

call_made-SameFor :
    (key j : String) (result : DeliveryResult) (now : ℕ) (st : Delivery)
    → str_eq key j ≡ false
    → SameFor j st (call_made key result now st).1
call_made-SameFor key j result now st h = record {
  entry = other_entry key j result now st h;
  calls = calls_for-other key j st.calls result.status h;
}

attempt_one-SameFor :
    (channel : Channel) (user address : String) (note : Note) (now : ℕ) (st : Delivery) (j : String)
    → is_over (lookup st.entries j) ≡ true
    → SameFor j st (attempt_one channel user address note now st).1
unfolding attempt_one
attempt_one-SameFor channel user address note now st j h =
    let key = make_key user note.id channel.name in
    elim (Bool-cases (is_noop st.entries key now)) [
      | inl e ↦ rw (e) (record { entry = refl; calls = refl })
      | inr e ↦ rw (e) (call_made-SameFor key j _ now st (apart key e))
    ]
  where
    apart : (key : String) → is_noop st.entries key now ≡ false → str_eq key j ≡ false
    apart key e = elim (Bool-cases (str_eq key j)) [
      | inl q ↦
          let o : is_over (lookup st.entries j) ≡ false =
            subst (λ x. is_over (lookup st.entries x) ≡ false) ((eq_iff key j).0 q)
              (not_over st.entries key now e) in
          cc
      | inr q ↦ q
    ]

Attempted-SameFor :
    (s t : Delivery) (key : String)
    → is_over (lookup s.entries key) ≡ true
    → Attempted s t
    → SameFor key s t
Attempted-SameFor s t key h start = record { entry = refl; calls = refl }
Attempted-SameFor s t key h (attempt {t = m} channel user address note now a) =
    let before = Attempted-SameFor s m key h a in
    let after =
      attempt_one-SameFor channel user address note now m key
        (subst (λ o. is_over o ≡ true) (sym before.entry) h) in
    record { entry = after.entry ∙ before.entry; calls = after.calls ∙ before.calls }

-- Once a delivery has been sent, or has been given up for good, no later sequence of passes changes
-- its entry of the ledger or calls the channel for it again.
pub Passed-is_over :
    (s t : Delivery) (key : String)
    → is_over (lookup s.entries key) ≡ true
    → Passed s t
    → (lookup t.entries key ≡ lookup s.entries key)
      × (calls_for key t.calls ≡ calls_for key s.calls)
Passed-is_over s t key h p =
    let same = Attempted-SameFor s t key h (Passed-Attempted s t p) in (same.entry, same.calls)
