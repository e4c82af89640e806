-- ===== src/Store/State.antt =====
-- The document, and one locked read-modify-write cycle on it (_store.py, _store_write.py,
-- _store_backend.py). What a verb sends out after it saved is a list of effects.
use scitex_todo.Prelude.{String, not, Option, List, [], ◌∷◌, ◌++◌, any, all, str_eq, if◌then◌else◌}
use scitex_todo.Py.Value.{truthy}
use scitex_todo.Py.Raise.{Result, ok, raise, raise_if, ◌>>=◌, ◌>>◌, store_shrink_refused_error}
use scitex_todo.Card.{Card, get}
use scitex_todo.Env.{Env, str}
use scitex_todo.Validate.{validate_tasks}

-- `EventType` of _events.py
pub data EventType : Type 0 where
  created reassigned reassigned_batch status_changed commented completed rank_changed : EventType
  committed pushed merged released pulled deployed : EventType

pub data Effect : Type 0 where
  -- `_emit_card_event(factory, card_id, actor=..., extra=...)`
  card_event : EventType → String → Option String → Card → Effect
  -- the `unblock` event: the card that was closed, the cards that may start, and the author
  unblock : String → List String → String → Effect
  -- the `card-message` event of a comment
  card_message : Card → Effect
  -- `_heartbeat(who, store)`
  heartbeat : Option String → Effect

pub record Store : Type 0 where
  pub tasks : List Card
  -- the sections of the document beside `tasks`
  pub sections : Card
  pub effects : List Effect

-- `str(c["id"])` of the rows that have an id
unfoldable pub row_ids : Env → List Card → List String
row_ids env [] = []
row_ids env (c ∷ cs) =
    if truthy (get c "id") then str env (get c "id") ∷ row_ids env cs else row_ids env cs

-- `_assert_no_shrink`, with no excused ids: every stored id is among the incoming ones.
unfoldable pub assert_no_shrink : Env → List Card → List Card → Result (Unit {0})
assert_no_shrink env stored incoming =
    raise_if (not (all (λ i. any (λ j. str_eq i j) (row_ids env incoming)) (row_ids env stored)))
      store_shrink_refused_error

-- `_save_doc_unlocked` and `write_doc_to_db`: the rows as they are committed. The check that the
-- database is this store's own is outside the model.
unfoldable pub save_doc : Env → List Card → List Card → Result (List Card)
save_doc env stored tasks = do
  saved ← validate_tasks env tasks
  assert_no_shrink env stored saved
  ok saved

-- How a verb's body ends: with nothing to save, or with rows to save and what follows once they are
-- saved.
pub data Outcome (A : Type 0) : Type 0 where
  keep : A → List Effect → Outcome A
  write : List Card → (List Card → A × List Effect) → Outcome A

module _ {A : Type 0} where
  abbrev pub committed_with : Store → List Card → A × List Effect → Result A × Store
  committed_with s saved (a, sent) = (ok a, record s { tasks = saved; effects = s.effects ++ sent })

  abbrev pub commit : Store → Result (List Card) → (List Card → A × List Effect) → Result A × Store
  commit s (raise e) finish = (raise e, s)
  commit s (ok saved) finish = committed_with s saved (finish saved)

  abbrev pub conclude : Env → Store → Result (Outcome A) → Result A × Store
  conclude env s (raise e) = (raise e, s)
  conclude env s (ok (keep a sent)) = (ok a, record s { effects = s.effects ++ sent })
  conclude env s (ok (write rows finish)) = commit s (save_doc env s.tasks rows) finish

  -- `with _store_lock(path): doc, tasks = _read_write_doc(path); ...`
  unfoldable pub transaction : Env → (List Card → Result (Outcome A)) → Store → Result A × Store
  transaction env body s = conclude env s (body s.tasks)
