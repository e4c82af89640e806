-- ===== src/Store/Unblock.antt =====
-- `_emit_unblock_for_dependents` of _store_events.py and `_handle_unblock` of _hooks/_handlers.py: who
-- may start now that a card is closed, and the comments that say so. Both run once the lock is free,
-- and are fail-soft: where the author cannot be resolved, or a comment raises, the rest is left.
pub mod Calls
pub mod Logged
use Prim.Native.Char.{code}
use Prim.Native.String.{◌++◌ as append_text}
use Prim.Native.String.{compare}
use scitex_todo.Prelude.{
  suc, String, Bool, true, false, ◌&&◌, ◌||◌, ◌==◌, Option, none, some, List, [], ◌∷◌, ◌++◌, map,
  filter, str_eq, if◌then◌else◌,
}
use scitex_todo.Py.Value.{Value, text, dict, entries, truthy, is_text, contains}
use scitex_todo.Py.Raise.{Exception, Result, ok, raise, ◌>>=◌, type_error, task_not_found_error}
use scitex_todo.Card.{Card, get, sequence, first, find_live_task}
use scitex_todo.Env.{Env, str}
use scitex_todo.Sort.{sort}
use scitex_todo.Runnable.Batch.{runnable_tasks}
use scitex_todo.Store.State.{Store, Effect, unblock}
use scitex_todo.Store.Actor.{default_agent}
use scitex_todo.Store.Comment.{comment_task}

abbrev blocks_of : Option Card → List Value
blocks_of none = []
blocks_of (some t) = sequence (get t "blocks")

-- The cards that wait on `completed_id`: they name it, or it names them.
unfoldable pub is_dependent : List Card → String → Card → Bool
is_dependent tasks completed_id t =
    truthy (get t "id")
    && (contains (sequence (get t "depends_on")) (text completed_id)
        || contains (blocks_of (first (λ u. is_text (get u "id") completed_id) tasks)) (get t "id"))

-- The sorted texts of the ids that are dependents and runnable now. The ids of a store are distinct,
-- so a set of ids is a list of cards.
unfoldable pub unblocked_ids : Env → List Card → String → List String
unblocked_ids env tasks completed_id =
    let runnable_now = map (λ t. get t "id") (runnable_tasks env tasks none none).tasks in
    sort compare (
      map (λ t. str env (get t "id"))
        (filter (λ t. is_dependent tasks completed_id t && contains runnable_now (get t "id"))
          tasks))

abbrev sent : String → List String → Result String → List Effect
sent completed_id [] author = []
sent completed_id (i ∷ ids) (ok author) = unblock completed_id (i ∷ ids) author ∷ []
sent completed_id (i ∷ ids) (raise e) = []

unfoldable pub emit_unblock_for_dependents : Env → List Card → String → Option String → List Effect
emit_unblock_for_dependents env tasks completed_id by =
    sent completed_id (unblocked_ids env tasks completed_id) (default_agent env by)

abbrev starts_with : String → String → Bool
starts_with String.[] s = true
starts_with (String.◌∷◌ c token) String.[] = false
starts_with (String.◌∷◌ c token) (String.◌∷◌ d s) = code c == code d && starts_with token s

-- `token in s`
unfoldable pub is_within : String → String → Bool
is_within token String.[] = starts_with token String.[]
is_within token (String.◌∷◌ c s) = starts_with token (String.◌∷◌ c s) || is_within token s

-- `token in (c.get("text") or "")`, which no other value than a text has
abbrev token_in : String → Value → Result Bool
token_in token (text s) = ok (is_within token s)
token_in token v = if truthy v then raise type_error else ok (is_within token "")

-- The entries of the log, up to the first that has the token.
unfoldable pub token_among : String → List Value → Result Bool
token_among token [] = ok false
token_among token (dict c ∷ cs) =
    let rest = token_among token cs in
    token_in token (get (entries c) "text") >>= λ found. if found then ok true else rest
token_among token (_ ∷ cs) = token_among token cs

abbrev token_on : String → Option Card → Result Bool
token_on token none = ok false
token_on token (some c) = token_among token (sequence (get c "comments"))

-- `_comment_token_present`
unfoldable pub comment_token_present : String → String → Store → Result Bool
comment_token_present card_id token s = token_on token (find_live_task s.tasks card_id)

abbrev caught : Exception → Result (Unit {0})
caught task_not_found_error = ok tt
caught e = raise e

-- `except TaskNotFoundError`
abbrev pub unless_missing : Result Card × Store → Result (Unit {0}) × Store
unless_missing (ok entry, t) = (ok tt, t)
unless_missing (raise e, t) = (caught e, t)

abbrev pub comment_unless :
    Env → String → String → String → Store → Result Bool → Result (Unit {0}) × Store
comment_unless env token by card_id s (raise e) = (raise e, s)
comment_unless env token by card_id s (ok true) = (ok tt, s)
comment_unless env token by card_id s (ok false) =
    unless_missing (comment_task env card_id token (some by) (some "unblock") s)

-- The verbs that follow in one call have the clock's later answers.
abbrev pub ticked : Env → Env
ticked env = record env { now = λ n. env.now (suc n) }

abbrev pub and_then :
    Result (Unit {0}) × Store → (Store → Result (Unit {0}) × Store) → Result (Unit {0}) × Store
and_then (ok u, t) next = next t
and_then (raise e, t) next = (raise e, t)

-- The loop of `_handle_unblock`: a comment on each card that has none with the token.
unfoldable pub comment_each :
    Env → String → String → List String → Store → Result (Unit {0}) × Store
comment_each env token by [] s = (ok tt, s)
comment_each env token by (i ∷ ids) s =
    and_then (comment_unless env token by i s (comment_token_present i token s))
      (comment_each (ticked env) token by ids)

-- `f"[unblocked by {unlocker_id}]"`
abbrev pub unblock_token : String → String
unblock_token unlocker_id = append_text "[unblocked by " (append_text unlocker_id "]")

-- `_handle_unblock`
unfoldable pub handle_unblock :
    Env → String → List String → String → Store → Result (Unit {0}) × Store
handle_unblock env unlocker_id card_ids author =
    comment_each env (unblock_token unlocker_id) (if str_eq author "" then "<unknown>" else author)
      card_ids

abbrev pub sent_on : Store → List Effect → Store
sent_on s es = record s { effects = s.effects ++ es }

-- The plugins get the event once the built-in handler has returned.
abbrev pub handed_on : Effect → Result (Unit {0}) × Store → Store
handed_on e (ok u, t) = sent_on t (e ∷ [])
handed_on e (raise x, t) = t

unfoldable pub send : Env → Effect → Store → Store
send env (unblock unlocker_id card_ids author) s =
    handed_on (unblock unlocker_id card_ids author)
      (handle_unblock (ticked env) unlocker_id card_ids author s)
send env e s = sent_on s (e ∷ [])

unfoldable pub send_all : Env → List Effect → Store → Store
send_all env [] s = s
send_all env (e ∷ es) s = send_all env es (send env e s)

-- The end of a verb: what it sends once its lock is free, and its answer.
abbrev pub after_lock : Env → Result (Card × List Effect) × Store → Result Card × Store
after_lock env (ok (a, es), t) = (ok a, send_all env es t)
after_lock env (raise e, t) = (raise e, t)
