-- ===== src/Store/Wip.antt =====
-- The work-in-progress gate on a card about to be added (_store_wip.py). What it prints is left out.
use Prim.Native.String.{◌++◌ as append_text}
use scitex_todo.Prelude.{
  ℕ, ◌*◌, String, Bool, false, not, ◌||◌, Option, none, some, List, [], ◌∷◌, if◌then◌else◌,
}
use scitex_todo.Py.Value.{Value, ℤ, int, pos, text, truthy, leb_ℤ}
use scitex_todo.Py.Raise.{Result, ok, raise, task_validation_error}
use scitex_todo.Card.{Card, get, of_dict}
use scitex_todo.Env.{Env, str}
use scitex_todo.Throughput.{is_wip, WipReport, is_refuse, evaluate_wip}
use scitex_todo.Store.Row.{append_comment}

abbrev exempt_number : Option ℤ → Bool
exempt_number none = false
exempt_number (some z) = leb_ℤ z (pos 1)

-- `int(priority)` takes a number or a text of one.
unfoldable pub is_priority_exempt : Env → Value → Bool
is_priority_exempt env (int z) = exempt_number (some z)
is_priority_exempt env (text s) = exempt_number (env.int_of s)
is_priority_exempt env _ = false

abbrev or_unknown : Value → Value
or_unknown v = if truthy v then v else text "unknown"

abbrev number_text : Env → ℕ → String
number_text env n = str env (int (pos n))

abbrev override_text : Env → WipReport → Value → String
override_text env rep priority = append_text "[wip-override] Created OVER the WIP cap: " (
    append_text (str env rep.agent) (
      append_text " had " (
        append_text (number_text env rep.wip_count) (
          append_text " tasks in_progress at insert time (limit " (
            append_text (number_text env rep.limit) (
              append_text "; refuse threshold " (
                append_text (number_text env (2 * rep.limit)) (
                  append_text "). Admitted by the emergency-recording exemption because priority=" (
                    append_text (str env priority)
                      " <= 1. Recording an incident is never gated — this stamp exists so the bypass is auditable.")))))))))

unfoldable pub override_comment : Env → WipReport → Value → Value → String → Value
override_comment env rep priority author ts = of_dict (
    ("author", or_unknown author)
    ∷ ("ts", text ts)
    ∷ ("kind", text "wip-override")
    ∷ ("text", text (override_text env rep priority))
    ∷ [])

-- What the gate does with a card whose agent is over the threshold, or not.
abbrev pub admit : Env → Card → String → WipReport → Result Card
admit env new ts rep =
    if is_refuse rep
    then (if is_priority_exempt env (get new "priority")
        then append_comment new
            (override_comment env rep (get new "priority") (get new "created_by") ts)
        else raise task_validation_error)
    else ok new

abbrev pub gated : Env → Card → String → Option WipReport → Result Card
gated env new ts none = ok new
gated env new ts (some rep) = admit env new ts rep

-- The card as it is added, with the audit comment where it was let in over the threshold.
unfoldable pub enforce_wip_gate : Env → Card → List Card → String → Result Card
enforce_wip_gate env new tasks ts =
    if not (truthy (get new "agent")) || not (is_wip (get new "status"))
    then ok new
    else gated env new ts (evaluate_wip env tasks (get new "agent"))
