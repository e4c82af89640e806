-- ===== src/Examples.antt =====
-- A small store for the tests: a finished card, one in work that waited on it, and one behind a
-- gate.
mod Verbs
mod Lists
mod Runs
mod Restoration
mod Owners
mod Changes
mod Ranks
mod Deliveries
mod Inboxes
mod Occurrences
mod Listings
mod Notices
mod Registries
mod Direct
mod Helped
use scitex_todo.Prelude.{refl, inl, inr, false, String, none, some, List, [], ◌∷◌}
use scitex_todo.Py.Dict.{lookup}
use scitex_todo.Py.Value.{text, py_eq, strings}
use scitex_todo.Card.{Card, get}
use scitex_todo.Env.{Env}
use scitex_todo.Validate.{one_of}
use scitex_todo.Store.State.{Store}
use scitex_todo.Store.Atomic.{WellFormed}

abbrev pub finished : Card
finished = ("id", text "a") ∷ ("title", text "Build") ∷ ("status", text "done") ∷ []

abbrev pub in_work_as : String → Card
in_work_as status =
    ("id", text "b")
    ∷ ("title", text "Ship")
    ∷ ("status", text status)
    ∷ ("depends_on", strings ("a" ∷ []))
    ∷ []

abbrev pub in_work : Card
in_work = in_work_as "in_progress"

abbrev pub gated : Card
gated =
    ("id", text "c")
    ∷ ("title", text "Sign")
    ∷ ("status", text "blocked")
    ∷ ("blocker", text "operator-decision")
    ∷ ("depends_on", strings ("b" ∷ []))
    ∷ []

abbrev pub rows : List Card
rows = finished ∷ in_work ∷ gated ∷ []

abbrev pub small : Store
small = record { tasks = rows; sections = []; effects = [] }

abbrev pub python : Env
python = record {
  now = λ n. "2026-07-21T09:00:00Z";
  agent = some "worker";
  old_agent_set = false;
  wip_limit = 20;
  repr = λ v. "None";
  int_of = λ s. none;
  iso = λ s. none;
  repeater = λ s. none;
}

pub rows-WellFormed : WellFormed rows
unfolding get lookup py_eq one_of
rows-WellFormed = record {
  distinct = ((refl, (refl, tt)), ((refl, tt), (tt, tt)));
  sound = (
    record { named = refl; titled = refl; priority = inl refl; blocker = inl refl },
    (
      record { named = refl; titled = refl; priority = inl refl; blocker = inl refl },
      (record { named = refl; titled = refl; priority = inl refl; blocker = inr (refl, refl) }, tt),
    ),
  );
}

abbrev pub clock : String
clock = "2026-07-21T09:00:00Z"
