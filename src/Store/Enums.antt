-- ===== src/Store/Enums.antt =====
-- The empty string on a closed-enum field (_store_enums.py): a clear, or a refusal.
use scitex_todo.Prelude.{String, Bool, false, ◌&&◌, if◌then◌else◌}
use scitex_todo.Py.Dict.{put, has}
use scitex_todo.Py.Value.{Value, null, text}
use scitex_todo.Py.Text.{is_blank}
use scitex_todo.Py.Raise.{Result, ok, raise_if, ◌>>◌, task_validation_error}
use scitex_todo.Card.{Card, get}

unfoldable pub is_clear_sentinel : Value → Bool
is_clear_sentinel (text s) = is_blank s
is_clear_sentinel _ = false

-- `if key in resolved and is_clear_sentinel(resolved[key]): resolved[key] = None`
unfoldable pub clear_enum : String → Card → Card
clear_enum key fields =
    if has fields key && is_clear_sentinel (get fields key) then put fields key null else fields

unfoldable pub resolve_enum_clears : Card → Result Card
resolve_enum_clears fields = do
  raise_if (has fields "status" && is_clear_sentinel (get fields "status")) task_validation_error
  ok (clear_enum "kind" (clear_enum "blocker" fields))
