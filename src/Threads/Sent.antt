-- ===== src/Threads/Sent.antt =====
-- Where a message that was sent is found.
use Prim.Native.Nat.{Ordering}
use Prim.Native.String.{compare, ◌++◌ as append}
use Prim.Native.String.append
use Prim.Native.String.compare
use scitex_todo.Prelude.{
  String, ◌≡◌, refl, ap, ◌∙◌, subst, true, false, ◌||◌, inl, inr, Bool-cases, List, [], ◌∷◌, ◌++◌,
  str_eq, eq_iff, eq_refl, arith, if◌then◌else◌,
}
use scitex_todo.Py.Order.{lt_text, compare-flip}
use scitex_todo.Py.Text.{is_blank}
use scitex_todo.Py.Raise.{Result, ok, ok_inj}
use scitex_todo.Card.{Card}
use scitex_todo.Users.Model.{User}
use scitex_todo.Inbox.File.{Inboxes}
use scitex_todo.Threads.{
  Threads, load_threads, save_threads, thread_key, messages_of, Outgoing, Fresh, new_message,
  Messages, dispatch_to_inbox, join, with_message, append_message, get_thread,
}
use scitex_todo.Threads.Saved.{
  load_threads-save_threads, load_threads-Named, put-Named, messages_of-put,
}

-- A pair has one thread, whoever writes.
pub thread_key_comm : (a b : String) → thread_key a b ≡ thread_key b a
unfolding thread_key
thread_key_comm a b = of (compare a b) refl
  where
    of : (o : Ordering) → compare a b ≡ o → thread_key a b ≡ thread_key b a
    of Ordering.lt e =
        let there : lt_text a b ≡ true = ground (arith, e) in
        let not_back : lt_text b a ≡ false = ground (arith, compare-flip a b, e) in
        rw (there, not_back) refl
    of Ordering.gt e =
        let not_there : lt_text a b ≡ false = ground (arith, e) in
        let back : lt_text b a ≡ true = ground (arith, compare-flip a b, e) in
        rw (not_there, back) refl
    of Ordering.eq e =
        let same : a ≡ b = (eq_iff a b).0 (ground (arith, e)) in
        subst (λ (c : String). thread_key a c ≡ thread_key c a) same refl

append_named : (p s : String) → str_eq p "" ≡ false → str_eq (append p s) "" ≡ false
append_named String.[] s h = cc
append_named (String.◌∷◌ c p) s h = rw (append.cons c p s, compare.cons-nil c (append p s)) refl

join_named : (lo hi : String) → str_eq (join lo hi) "" ≡ false
join_named lo hi = append_named "dm:" (append lo (append "::" hi)) refl

thread_key_named : (a b : String) → str_eq (thread_key a b) "" ≡ false
unfolding thread_key
thread_key_named a b = elim (Bool-cases (lt_text b a)) [
  | inl e ↦ rw e (join_named b a)
  | inr e ↦ rw e (join_named a b)
]

load_threads-with_message :
    (fresh : Fresh) (m : Outgoing) (s : Messages)
    → load_threads (save_threads (with_message fresh m (load_threads s.threads)))
      ≡ with_message fresh m (load_threads s.threads)
load_threads-with_message fresh m s =
    let threads = load_threads s.threads in
    let key = thread_key m.sender m.recipient in
    load_threads-save_threads (with_message fresh m threads) (
      put-Named threads key (messages_of threads key ++ new_message fresh m ∷ [])
        (thread_key_named m.sender m.recipient) (load_threads-Named s.threads))

get_thread-sent :
    (fresh : Fresh) (m : Outgoing) (s : Messages) (inboxes : Inboxes) (a b : String)
    → get_thread a b (record {
      threads = save_threads (with_message fresh m (load_threads s.threads));
      inboxes = inboxes;
    })
      ≡ (if str_eq (thread_key m.sender m.recipient) (thread_key a b)
          then get_thread m.sender m.recipient s ++ new_message fresh m ∷ []
          else get_thread a b s)
unfolding get_thread
get_thread-sent fresh m s inboxes a b =
    let key = thread_key m.sender m.recipient in
    let threads = load_threads s.threads in
    ap (λ (t : Threads). messages_of t (thread_key a b)) (load_threads-with_message fresh m s)
    ∙ messages_of-put threads key (thread_key a b)
        (messages_of threads key ++ new_message fresh m ∷ [])

-- Where a message is accepted, the thread of its two peers, asked for in either order, has it at the
-- end of what it had; so has the thread of every pair with the same thread key, and the threads of the
-- pairs with another key are as they were.
pub append_message-get_thread :
    (fresh : Fresh) (users : Result (List User)) (m : Outgoing) (s : Messages) (message : Card)
    (a b : String)
    → (append_message fresh users m s).0 ≡ ok message
    → (get_thread m.sender m.recipient (append_message fresh users m s).1
        ≡ get_thread m.sender m.recipient s ++ message ∷ [])
      × (get_thread m.recipient m.sender (append_message fresh users m s).1
          ≡ get_thread m.sender m.recipient s ++ message ∷ [])
      × (get_thread a b (append_message fresh users m s).1 ≡ (
          if str_eq (thread_key m.sender m.recipient) (thread_key a b)
          then get_thread m.sender m.recipient s ++ message ∷ []
          else get_thread a b s))
unfolding append_message
append_message-get_thread fresh users m s message a b h =
    elim (Bool-cases (str_eq m.sender "" || str_eq m.recipient "" || is_blank m.body)) [
      | inl e ↦ absurd (let k = rw (e) at h in cc)
      | inr e ↦
          let sent : new_message fresh m ≡ message = ok_inj (rw (e) at h) in
          let out = dispatch_to_inbox fresh users m s.inboxes in
          let here = get_thread-sent fresh m s out in
          rw (e, ← sent)
            (
              here m.sender m.recipient ∙ rw (eq_refl (thread_key m.sender m.recipient)) refl,
              here m.recipient m.sender
                  ∙ rw
                      (
                        thread_key_comm m.recipient m.sender,
                        eq_refl (thread_key m.sender m.recipient),
                      )
                      refl,
              here a b,
            )
    ]
