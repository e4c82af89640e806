-- ===== src/Threads/Saved.antt =====
-- What is read back from the document of the threads.
use scitex_todo.Prelude.{
  String, ◌≡◌, refl, false, inl, inr, Bool-cases, List, [], ◌∷◌, str_eq, arith, if◌then◌else◌, All,
}
use scitex_todo.Py.Dict.{Dict, lookup, put, lookup-put}
use scitex_todo.Py.Value.{
  Value, null, bool, int, text, list, dict, entries, elements-items_of, entries-fields_of,
}
use scitex_todo.Card.{Card, or_null}
use scitex_todo.Threads.{
  Threads, dicts_in, thread_rows, threads_in, load_threads, as_values, as_raw, save_threads,
  messages_of,
}

-- Every key is a text that is not empty.
abbrev pub Named : Threads → Type 0
Named threads = All (λ (t : String × List Card). str_eq t.0 "" ≡ false) threads

dicts_in-as_values : (rs : List Card) → dicts_in (as_values rs) ≡ rs
dicts_in-as_values [] = refl
dicts_in-as_values (r ∷ rs) = rw (entries-fields_of r, dicts_in-as_values rs) refl

thread_rows-as_raw : (threads : Threads) → Named threads → thread_rows (as_raw threads) ≡ threads
unfolding thread_rows
thread_rows-as_raw [] n = refl
thread_rows-as_raw ((key, rs) ∷ threads) n =
    rw
      (n.0, elements-items_of (as_values rs), dicts_in-as_values rs, thread_rows-as_raw threads n.1)
      refl

-- Threads that were saved are the threads that the next call reads.
pub load_threads-save_threads :
    (threads : Threads) → Named threads → load_threads (save_threads threads) ≡ threads
unfolding load_threads save_threads lookup
load_threads-save_threads threads n =
    rw (entries-fields_of (as_raw threads)) (thread_rows-as_raw threads n)

thread_rows-Named : (raw : Dict Value) → Named (thread_rows raw)
unfolding thread_rows
thread_rows-Named [] = tt
thread_rows-Named ((key, records) ∷ raw) = elim (Bool-cases (str_eq key "")) [
  | inl e ↦ rw e (thread_rows-Named raw)
  | inr e ↦ rw e (e, thread_rows-Named raw)
]

threads_in-Named : (v : Value) → Named (threads_in v)
threads_in-Named (dict raw) = thread_rows-Named (entries raw)
threads_in-Named null = tt
threads_in-Named (bool b) = tt
threads_in-Named (int z) = tt
threads_in-Named (text s) = tt
threads_in-Named (list vs) = tt

pub load_threads-Named : (v : Value) → Named (load_threads v)
unfolding load_threads
load_threads-Named (dict d) = threads_in-Named (or_null (lookup (entries d) "threads"))
load_threads-Named null = tt
load_threads-Named (bool b) = tt
load_threads-Named (int z) = tt
load_threads-Named (text s) = tt
load_threads-Named (list vs) = tt

pub put-Named :
    (threads : Threads) (key : String) (rs : List Card)
    → str_eq key "" ≡ false
    → Named threads
    → Named (put threads key rs)
unfolding put
put-Named [] key rs e n = (e, tt)
put-Named ((k, old) ∷ threads) key rs e n = elim (Bool-cases (str_eq k key)) [
  | inl s ↦ rw s (n.0, n.1)
  | inr s ↦ rw s (n.0, put-Named threads key rs e n.1)
]

pub messages_of-put :
    (threads : Threads) (key k : String) (rs : List Card)
    → messages_of (put threads key rs) k ≡ (if str_eq key k then rs else messages_of threads k)
unfolding messages_of
messages_of-put threads key k rs = rw (lookup-put threads key k rs) (ground arith)
