-- ===== src/Threads/Counts.antt =====
-- The unread messages that `list_threads` counts and those that `mark_read` marks.
use scitex_todo.Prelude.{
  ℕ, ◌==◌, String, ◌≡◌, ◌⊎◌, refl, sym, ap, ◌∙◌, subst, Bool, true, false, inl, inr, Bool-cases,
  Option, none, some, some_inj, List, [], ◌∷◌, map, length, str_eq, eq_iff, eq_refl, arith,
  if◌then◌else◌,
}
use scitex_todo.Py.Dict.{Dict, lookup, put, lookup-put}
use scitex_todo.Card.{Card}
use scitex_todo.Threads.{Threads, load_threads, save_threads, peers_of, messages_of, Messages}
use scitex_todo.Threads.Reading.{
  read_if, mark_records, mark_read, ThreadSummary, no_unread, summary_of, list_threads,
}
use scitex_todo.Threads.Saved.{Named, load_threads-save_threads, load_threads-Named, put-Named}
use scitex_todo.Threads.Unread.{
  unread_for, lookup-count_unread, lookup-summaries, own_marked, others_kept, length-map,
}

zero_or : (t : Bool) (o : Option ℕ) → o ≡ some 0 → (if t then some 0 else o) ≡ some 0
zero_or true o h = refl
zero_or false o h = h

no_unread-peer :
    (a b reader : String) → (reader ≡ a) ⊎ (reader ≡ b) → lookup (no_unread (a, b)) reader ≡ some 0
no_unread-peer a b reader h =
    let first : Dict ℕ = put [] a 0 in lookup-put first b reader 0 ∙ peer h
  where
    peer :
        (reader ≡ a) ⊎ (reader ≡ b)
        → if◌then◌else◌ {A = Option ℕ}
            (str_eq b reader)
            (some 0)
            (lookup {V = ℕ} (put [] a 0) reader)
          ≡ some 0
    peer (inr e) = rw (e, eq_refl b) refl
    peer (inl e) =
        zero_or (str_eq b reader) (lookup {V = ℕ} (put [] a 0) reader)
          (lookup-put {V = ℕ} [] a reader 0 ∙ rw (e, eq_refl a) refl)

-- What `list_threads` says of a thread that is there.
summary_of-unread :
    (key reader : String) (rs : List Card)
    → (reader ≡ (peers_of key).0) ⊎ (reader ≡ (peers_of key).1)
    → lookup (summary_of key rs).unread reader ≡ some (unread_for reader rs)
unfolding summary_of
summary_of-unread key reader rs h =
    lookup-count_unread (no_unread (peers_of key)) rs reader
    ∙ rw (no_unread-peer (peers_of key).0 (peers_of key).1 reader h) (ground arith)

summary_of-marked :
    (key reader other : String) (rs : List Card)
    → str_eq reader other ≡ false
    → lookup (summary_of key (map (read_if reader none) rs)).unread other
      ≡ lookup (summary_of key rs).unread other
unfolding summary_of
summary_of-marked key reader other rs e =
    lookup-count_unread (no_unread (peers_of key)) (map (read_if reader none) rs) other
    ∙ rw (others_kept reader other rs e)
        (sym (lookup-count_unread (no_unread (peers_of key)) rs other))

lookup-Named :
    (threads : Threads) (key : String) (rs : List Card)
    → Named threads
    → lookup threads key ≡ some rs
    → str_eq key "" ≡ false
unfolding lookup
lookup-Named [] key rs n h = cc
lookup-Named ((k, old) ∷ threads) key rs n h = elim (Bool-cases (str_eq k key)) [
  | inl e ↦ ap (λ (t : String). str_eq t "") (sym ((eq_iff k key).0 e)) ∙ n.0
  | inr e ↦ lookup-Named threads key rs n.1 (rw (e) at h)
]

lookup-list_threads :
    (s : Messages) (key : String) (rs : List Card)
    → lookup (load_threads s.threads) key ≡ some rs
    → lookup (list_threads s) key ≡ some (summary_of key rs)
unfolding list_threads
lookup-list_threads s key rs h = lookup-summaries (load_threads s.threads) key ∙ rw h refl

lookup-list_threads-none :
    (s : Messages) (key : String)
    → lookup (load_threads s.threads) key ≡ none
    → lookup (list_threads s) key ≡ none
unfolding list_threads
lookup-list_threads-none s key h = lookup-summaries (load_threads s.threads) key ∙ rw h refl

lookup-marked :
    (s : Messages) (key reader : String) (rs : List Card)
    → lookup (load_threads s.threads) key ≡ some rs
    → lookup
        (load_threads (save_threads (mark_records key reader none (load_threads s.threads))))
        key
      ≡ some (map (read_if reader none) rs)
unfolding mark_records messages_of
lookup-marked s key reader rs h =
    let threads = load_threads s.threads in
    let records = map (read_if reader none) (messages_of threads key) in
    let named = lookup-Named threads key rs (load_threads-Named s.threads) h in
    ap (λ (t : Threads). lookup t key)
      (load_threads-save_threads (put threads key records)
        (put-Named threads key records named (load_threads-Named s.threads)))
    ∙ lookup-put threads key key records
    ∙ rw (eq_refl key, h) refl

-- What `mark_read` comes to, for the messages of the thread.
abbrev marked_messages : String → String → Messages → Messages
marked_messages key reader s = record s {
  threads = save_threads (mark_records key reader none (load_threads s.threads));
}

mark_read-if :
    (s : Messages) (key reader : String) (rs : List Card)
    → lookup (load_threads s.threads) key ≡ some rs
    → mark_read key reader none s ≡ (
        if unread_for reader rs == 0
        then (0, s)
        else (unread_for reader rs, marked_messages key reader s))
unfolding mark_read messages_of
mark_read-if s key reader rs h = rw h refl

-- An answer of `mark_read` and the messages after it, against what `list_threads` said before.
pub record Marked (key reader : String) (before : ThreadSummary) (answer : ℕ × Messages)
    : Type 0 where
  pub answered : lookup before.unread reader ≡ some answer.0
  pub after : ThreadSummary
  pub listed : lookup (list_threads answer.1) key ≡ some after
  pub none_left : lookup after.unread reader ≡ some 0
  pub as_many : after.count ≡ before.count
  pub others :
      (other : String)
      → str_eq reader other ≡ false
      → lookup after.unread other ≡ lookup before.unread other

count-summary_of : (key : String) (rs : List Card) → (summary_of key rs).count ≡ length rs
unfolding summary_of
count-summary_of key rs = refl

mark_read-Marked :
    (key reader : String) (s : Messages) (rs : List Card)
    → lookup (load_threads s.threads) key ≡ some rs
    → (reader ≡ (peers_of key).0) ⊎ (reader ≡ (peers_of key).1)
    → Marked key reader (summary_of key rs) (mark_read key reader none s)
mark_read-Marked key reader s rs h peer =
    subst (Marked key reader (summary_of key rs)) (sym (mark_read-if s key reader rs h))
      (elim (Bool-cases (unread_for reader rs == 0)) [
        | inl e ↦
            let nothing : unread_for reader rs ≡ 0 = ground (arith, e) in
            rw e (record {
              answered = summary_of-unread key reader rs peer ∙ ap (λ (n : ℕ). some n) nothing;
              after = summary_of key rs;
              listed = lookup-list_threads s key rs h;
              none_left = summary_of-unread key reader rs peer ∙ ap (λ (n : ℕ). some n) nothing;
              as_many = refl;
              others = λ other apart. refl;
            })
        | inr e ↦
            let marked = map (read_if reader none) rs in
            rw e (record {
              answered = summary_of-unread key reader rs peer;
              after = summary_of key marked;
              listed =
                  lookup-list_threads (marked_messages key reader s) key marked
                    (lookup-marked s key reader rs h);
              none_left =
                  summary_of-unread key reader marked peer
                  ∙ ap (λ (n : ℕ). some n) (own_marked reader rs);
              as_many =
                  count-summary_of key marked
                  ∙ length-map (read_if reader none) rs
                  ∙ sym (count-summary_of key rs);
              others = λ other apart. summary_of-marked key reader other rs apart;
            })
      ])

-- For a thread that `list_threads` has and one of its two peers: `mark_read` without ids answers the
-- number of messages that `list_threads` counted as unread for that peer; afterwards `list_threads`
-- has the thread with none unread for that peer, as many messages as before, and for every other name
-- the count that it had.
pub mark_read-list_threads :
    (key reader : String) (s : Messages) (before : ThreadSummary)
    → lookup (list_threads s) key ≡ some before
    → (reader ≡ (peers_of key).0) ⊎ (reader ≡ (peers_of key).1)
    → Marked key reader before (mark_read key reader none s)
mark_read-list_threads key reader s before h peer = of (lookup (load_threads s.threads) key) refl
  where
    of :
        (o : Option (List Card))
        → lookup (load_threads s.threads) key ≡ o
        → Marked key reader before (mark_read key reader none s)
    of none e =
        let nothing = sym h ∙ lookup-list_threads-none s key e in absurd (let k = nothing in cc)
    of (some rs) e =
        subst (λ (b : ThreadSummary). Marked key reader b (mark_read key reader none s))
          (some_inj (sym (lookup-list_threads s key rs e) ∙ h))
          (mark_read-Marked key reader s rs e peer)
