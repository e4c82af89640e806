-- ===== src/Users/Identity.antt =====
-- The canonical name of an identity (_users/_identity.py): a registered user's first name, else the
-- table of aliases, else the name without its `proj-` prefix and its `-<host>` suffix.
use Prim.Native.Char.{Char, code}
use Prim.Native.String.{◌++◌ as append}
use scitex_todo.Prelude.{
  String, Bool, true, false, not, ◌&&◌, ◌||◌, Option, none, some, List, [], ◌∷◌, any, str_eq, ◌==◌,
  if◌then◌else◌,
}
use scitex_todo.Py.Dict.{Dict, lookup, put}
use scitex_todo.Py.Text.{strip, is_blank}
use scitex_todo.Py.Raise.{Result, ok, raise_if, ◌>>=◌, ◌>>◌, value_error, unknown_identity_error}
use scitex_todo.Users.Model.{User}

abbrev pub identity_aliases : Dict (List String)
identity_aliases = ("scitex-agent-container", "sac" ∷ []) ∷ ("scitex-orochi", "orochi" ∷ []) ∷ []

abbrev pub known_hosts : List String
known_hosts = "ywata-note-win" ∷ "spartan" ∷ "orochi" ∷ "mba" ∷ "nas" ∷ []

abbrev pub identity_prefixes : List String
identity_prefixes = "proj-paper-" ∷ "proj-" ∷ []

-- lines 98-104
abbrev pub is_conflict : Option String → String → Bool
is_conflict none canonical = false
is_conflict (some existing) canonical = not (str_eq existing canonical)

-- `for alias in (canonical, *alias_list)`
unfoldable pub flat_names : String → Dict String → List String → Result (Dict String)
flat_names canonical flat [] = ok flat
flat_names canonical flat (alias ∷ names) = do
  raise_if (is_conflict (lookup flat alias) canonical) value_error
  flat_names canonical (put flat alias canonical) names

-- `for canonical, alias_list in aliases.items()`
unfoldable pub flat_from : Dict String → Dict (List String) → Result (Dict String)
flat_from flat [] = ok flat
flat_from flat ((canonical, alias_list) ∷ aliases) = do
  grown ← flat_names canonical flat (canonical ∷ alias_list)
  flat_from grown aliases

-- `_alias_to_canonical`
unfoldable pub alias_to_canonical : Dict (List String) → Result (Dict String)
unfolding flat_from
alias_to_canonical aliases = flat_from [] aliases

abbrev pub holds : List String → String → Bool
holds names name = any (λ n. str_eq n name) names

-- `d.get("host_at_name") and name == d.get("host_at_name")`
abbrev pub is_at_host : User → String → Bool
is_at_host u name = elim u.host_at_name [
  | none ↦ false
  | some h ↦ not (str_eq h "") && str_eq h name
]

abbrev pub is_user : User → String → Bool
is_user u name = holds u.names name || str_eq u.id name || is_at_host u name

abbrev registered_as : Bool → List String → Option String → Option String
registered_as test [] later = later
registered_as false (n ∷ ns) later = later
registered_as true (n ∷ ns) later = some n

-- `_registered_canonical`
unfoldable pub registered_canonical : String → List User → Option String
registered_canonical name [] = none
registered_canonical name (u ∷ us) =
    registered_as (is_user u name) u.names (registered_canonical name us)

-- `s[len(p):]` where `s.startswith(p)`
unfoldable pub remove_prefix : String → String → Option String
remove_prefix String.[] s = some s
remove_prefix (String.◌∷◌ c p) String.[] = none
remove_prefix (String.◌∷◌ c p) (String.◌∷◌ d s) =
    let rest = remove_prefix p s in if code c == code d then rest else none

abbrev with_head : Char → Option String → Option String
with_head c none = none
with_head c (some s) = some (String.◌∷◌ c s)

-- `s[:-len(t)]` where `s.endswith(t)`
unfoldable pub remove_suffix : String → String → Option String
remove_suffix t String.[] = if str_eq t "" then some "" else none
remove_suffix t (String.◌∷◌ c s) =
    let rest = remove_suffix t s in if str_eq (String.◌∷◌ c s) t then some "" else with_head c rest

-- `if ... and len(result) > len(prefix): result = ...; break`
abbrev non_empty : Option String → Option String
non_empty (some (String.◌∷◌ c s)) = some (String.◌∷◌ c s)
non_empty _ = none

abbrev or_later : Option String → String → String
or_later none later = later
or_later (some s) later = s

-- lines 144-147
unfoldable pub without_prefix : List String → String → String
without_prefix [] s = s
without_prefix (p ∷ ps) s = or_later (non_empty (remove_prefix p s)) (without_prefix ps s)

-- lines 148-152
unfoldable pub without_host : List String → String → String
without_host [] s = s
without_host (h ∷ hs) s = or_later (non_empty (remove_suffix (append "-" h) s)) (without_host hs s)

-- `_mechanical_normalize`
unfoldable pub mechanical_normalize : String → List String → String
unfolding without_prefix without_host
mechanical_normalize name hosts = without_host hosts (without_prefix identity_prefixes name)

abbrev or_else : Option String → Option String → Option String
or_else none later = later
or_else (some s) later = some s

-- What is registered or in the table of aliases: lines 220-225, and again lines 230-234.
unfoldable pub known_name : List User → Dict String → String → Option String
unfolding registered_canonical lookup
known_name users flat name = or_else (registered_canonical name users) (lookup flat name)

-- lines 229-248
abbrev unknown_name : Bool → List User → Dict String → String → String → Result String
unknown_name strict users flat key normalized =
    if not (str_eq normalized key)
    then ok (or_later (known_name users flat normalized) normalized)
    else do raise_if strict unknown_identity_error; ok key

-- lines 220-248
abbrev name_or_unknown :
    Option String → Bool → List User → Dict String → List String → String → Result String
name_or_unknown (some hit) strict users flat hosts key = ok hit
name_or_unknown none strict users flat hosts key =
    unknown_name strict users flat key (mechanical_normalize key hosts)

-- `canonical_identity`
unfoldable pub canonical_identity :
    String → List User → Dict (List String) → List String → Bool → Result String
canonical_identity name users aliases hosts strict = do
  raise_if (is_blank name) unknown_identity_error
  flat ← alias_to_canonical aliases
  name_or_unknown (known_name users flat (strip name)) strict users flat hosts (strip name)
