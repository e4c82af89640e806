-- ===== src/Users/AgentId.antt =====
-- Agent ids `host@name` (_ports.py). The argument is a string, as its annotation says; a host that is
-- `None` is `none`.
use Prim.Native.Char.{Char, code}
use Prim.Native.String.{◌++◌ as append}
use scitex_todo.Prelude.{String, Bool, true, false, ◌||◌, Option, none, some, ◌==◌, if◌then◌else◌}
use scitex_todo.Py.Text.{strip, is_blank}
use scitex_todo.Py.Raise.{Result, ok, raise_if, ◌>>◌, agent_identity_error}

-- `'@' == c`
abbrev pub is_at : Char → Bool
is_at c = code c == 64

abbrev on_left : Char → Option (String × String) → Option (String × String)
on_left c none = none
on_left c (some (left, right)) = some (String.◌∷◌ c left, right)

-- `s.partition("@")`, with `none` where there is no `@` in `s`
unfoldable pub partition : String → Option (String × String)
partition String.[] = none
partition (String.◌∷◌ c s) =
    let rest = partition s in if is_at c then some (String.[], s) else on_left c rest

-- `"@" in s`
abbrev pub has_at : String → Bool
has_at s = elim (partition s) [ none ↦ false | some _ ↦ true ]

abbrev join_at : String → String → String
join_at host name = append host (append "@" name)

abbrev qualified_by : Option String → String → String
qualified_by none name = name
qualified_by (some host) name = if is_blank host then name else join_at (strip host) name

-- lines 360-376
abbrev canonical_of : String → Option String → Option (String × String) → Result String
canonical_of name host none = ok (qualified_by host name)
canonical_of name host (some (host_part, name_part)) = do
  raise_if (is_blank host_part || is_blank name_part) agent_identity_error
  raise_if (has_at name_part) agent_identity_error
  ok (join_at (strip host_part) (strip name_part))

-- `canonical_agent_id`
unfoldable pub canonical_agent_id : String → Option String → Result String
canonical_agent_id name host = do
  raise_if (is_blank name) agent_identity_error
  canonical_of (strip name) host (partition (strip name))

-- lines 402-415
abbrev parsed_of : String → Option (String × String) → Result (String × String)
parsed_of raw none = ok (String.[], raw)
parsed_of raw (some (host_part, name_part)) = do
  raise_if (has_at name_part) agent_identity_error
  raise_if (is_blank host_part || is_blank name_part) agent_identity_error
  ok (strip host_part, strip name_part)

-- `parse_agent_id`
unfoldable pub parse_agent_id : String → Result (String × String)
parse_agent_id host_at_name = do
  raise_if (is_blank host_at_name) agent_identity_error
  parsed_of (strip host_at_name) (partition (strip host_at_name))
