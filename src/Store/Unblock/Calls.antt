-- ===== src/Store/Unblock/Calls.antt =====
-- What a property of the store needs to outlive the sends of a verb.
use scitex_todo.Prelude.{
  ◌≡◌, refl, ap, Bool, true, false, String, Option, some, List, [], ◌∷◌, ◌++◌, All, arith, eq_refl,
}
use scitex_todo.Py.Raise.{Result, ok, raise, ok_inj}
use scitex_todo.Card.{Card}
use scitex_todo.Env.{Env}
use scitex_todo.Store.State.{Store, Effect, card_event, unblock, card_message, heartbeat}
use scitex_todo.Store.Atomic.{has_id}
use scitex_todo.Store.Comment.{comment_task}
use scitex_todo.Store.Unblock.{
  comment_token_present, unless_missing, comment_unless, ticked, and_then, comment_each,
  handle_unblock, unblock_token, sent_on, handed_on, send, send_all, after_lock,
}

pub All-append :
    (P : Effect → Type 0) (es fs : List Effect) → All P es → All P fs → All P (es ++ fs)
All-append P [] fs h k = k
All-append P (e ∷ es) fs h k = (h.0, All-append P es fs h.1 k)

-- A verb that answers has ended its locked part, and sent what that left to send.
pub after_lock-eq-ok :
    (env : Env) (r : Result (Card × List Effect) × Store) {a : Card}
    → (after_lock env r).0 ≡ ok a
    → (es : List Effect) × (r.0 ≡ ok (a, es)) × ((after_lock env r).1 ≡ send_all env es r.1)
after_lock-eq-ok env (raise e, t) h = cc
after_lock-eq-ok env (ok (c, es), t) h = (es, ap (λ x. ok (x, es)) (ok_inj h), refl)

-- `Q` holds of the environment and is kept as the clock goes on; `P` does not read what was sent.
module _ (Q : Env → Type 0) (tick : (env : Env) → Q env → Q (ticked env)) (P : Store → Type 0)
    (more : (t : Store) (es : List Effect) → P t → P (sent_on t es)) where
  -- A comment on the card keeps the property.
  abbrev pub Keeps : String → Type 0
  Keeps i =
      (env : Env) (body : String) (by kind : Option String) (t : Store)
      → Q env
      → P t
      → P (comment_task env i body by kind t).1

  -- The comments that an effect makes keep the property.
  abbrev pub Allowed : Effect → Type 0
  Allowed (unblock unlocker_id card_ids author) = (i : String) → has_id card_ids i ≡ true → Keeps i
  Allowed (card_event type card_id actor extra) = Unit
  Allowed (card_message message) = Unit
  Allowed (heartbeat who) = Unit

  unless_missing-keeps : (r : Result Card × Store) → P r.1 → P (unless_missing r).1
  unless_missing-keeps (ok c, t) h = h
  unless_missing-keeps (raise e, t) h = h

  comment_unless-keeps :
      (env : Env) (token by i : String) (s : Store) (r : Result Bool)
      → Keeps i
      → Q env
      → P s
      → P (comment_unless env token by i s r).1
  comment_unless-keeps env token by i s (raise e) k q h = h
  comment_unless-keeps env token by i s (ok true) k q h = h
  comment_unless-keeps env token by i s (ok false) k q h =
      unless_missing-keeps _ (k env token (some by) (some "unblock") s q h)

  and_then-keeps :
      (r : Result (Unit {0}) × Store) (next : Store → Result (Unit {0}) × Store)
      → ((t : Store) → P t → P (next t).1)
      → P r.1
      → P (and_then r next).1
  and_then-keeps (ok u, t) next k h = k t h
  and_then-keeps (raise e, t) next k h = h

  comment_each-keeps :
      (env : Env) (token by : String) (ids : List String) (s : Store)
      → ((i : String) → has_id ids i ≡ true → Keeps i)
      → Q env
      → P s
      → P (comment_each env token by ids s).1
  unfolding comment_each
  comment_each-keeps env token by [] s k q h = h
  comment_each-keeps env token by (i ∷ ids) s k q h =
      and_then-keeps (comment_unless env token by i s (comment_token_present i token s))
        (comment_each (ticked env) token by ids)
        (λ t.
          comment_each-keeps (ticked env) token by ids t (λ j m. k j (ground (arith, m)))
            (tick env q))
        (comment_unless-keeps env token by i s _ (k i (rw (eq_refl i) refl)) q h)

  handed_on-keeps : (e : Effect) (r : Result (Unit {0}) × Store) → P r.1 → P (handed_on e r)
  handed_on-keeps e (ok u, t) h = more t _ h
  handed_on-keeps e (raise x, t) h = h

  send-keeps : (env : Env) (e : Effect) (s : Store) → Allowed e → Q env → P s → P (send env e s)
  unfolding send handle_unblock
  send-keeps env (unblock u ids author) s k q h =
      handed_on-keeps (unblock u ids author) _
        (comment_each-keeps (ticked env) (unblock_token u) _ ids s k (tick env q) h)
  send-keeps env (card_event type card_id actor extra) s k q h = more s _ h
  send-keeps env (card_message message) s k q h = more s _ h
  send-keeps env (heartbeat who) s k q h = more s _ h

  pub every-Allowed : ((i : String) → Keeps i) → (es : List Effect) → All Allowed es
  every-Allowed k [] = tt
  every-Allowed k (unblock u ids author ∷ es) = (λ i m. k i, every-Allowed k es)
  every-Allowed k (card_event type card_id actor extra ∷ es) = (tt, every-Allowed k es)
  every-Allowed k (card_message message ∷ es) = (tt, every-Allowed k es)
  every-Allowed k (heartbeat who ∷ es) = (tt, every-Allowed k es)

  pub send_all-keeps :
      (env : Env) (es : List Effect) (s : Store)
      → All Allowed es
      → Q env
      → P s
      → P (send_all env es s)
  unfolding send_all
  send_all-keeps env [] s k q h = h
  send_all-keeps env (e ∷ es) s k q h =
      send_all-keeps env es (send env e s) k.1 q (send-keeps env e s k.0 q h)
