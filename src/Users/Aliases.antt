-- ===== src/Users/Aliases.antt =====
-- The table of aliases, and the canonical name of an alias.
use scitex_todo.Prelude.{
  String, ◌≡◌, refl, sym, ap, ◌∙◌, inl, inr, Bool, true, false, ◌||◌, ◌&&◌, Bool-cases, none, some,
  some_inj, List, [], ◌∷◌, str_eq, eq_iff, arith,
}
use scitex_todo.Py.Dict.{Dict, lookup, put, lookup-put}
use scitex_todo.Py.Text.{strip, is_blank}
use scitex_todo.Py.Raise.{ok, raise_if, >>-eq-ok, >>=-eq-ok, raise_if-eq-ok, ok_inj, value_error}
use scitex_todo.Users.Model.{User}
use scitex_todo.Users.Identity.{
  holds, is_conflict, flat_names, flat_from, alias_to_canonical, registered_canonical, known_name,
  canonical_identity,
}

-- The table has a name under a canonical name, or as that name itself.
abbrev pub declares : Dict (List String) → String → String → Bool
declares [] name canonical = false
declares ((c, aliases) ∷ table) name canonical =
    str_eq c canonical && holds (c ∷ aliases) name || declares table name canonical

-- Where the name was there before, it was there under the same canonical name.
same_canonical :
    (flat : Dict String) (alias canonical k v : String)
    → is_conflict (lookup flat alias) canonical ≡ false
    → lookup flat k ≡ some v
    → lookup (put flat alias canonical) k ≡ some v
same_canonical flat alias canonical k v c h = elim (Bool-cases (str_eq alias k)) [
  | inl e ↦
      let there : lookup flat alias ≡ some v = ap (lookup flat) ((eq_iff alias k).0 e) ∙ h in
      let equal : str_eq v canonical ≡ true = ground (arith, rw (there) at c) in
      lookup-put flat alias k canonical
      ∙ rw e (ap (λ (s : String). some s) (sym ((eq_iff v canonical).0 equal)))
  | inr e ↦ lookup-put flat alias k canonical ∙ rw e h
]

flat_names-keeps :
    (canonical : String) (flat : Dict String) (names : List String) (out : Dict String)
    (k v : String)
    → flat_names canonical flat names ≡ ok out
    → lookup flat k ≡ some v
    → lookup out k ≡ some v
unfolding flat_names
flat_names-keeps canonical flat [] out k v h l =
    ap (λ (d : Dict String). lookup d k) (sym (ok_inj h)) ∙ l
flat_names-keeps canonical flat (n ∷ ns) out k v h l =
    let test = is_conflict (lookup flat n) canonical in
    let (a, h1) =
      >>-eq-ok (raise_if test value_error) (flat_names canonical (put flat n canonical) ns) h in
    flat_names-keeps canonical (put flat n canonical) ns out k v h1
      (same_canonical flat n canonical k v (raise_if-eq-ok test value_error a) l)

flat_names-holds :
    (canonical : String) (flat : Dict String) (names : List String) (out : Dict String) (k : String)
    → flat_names canonical flat names ≡ ok out
    → holds names k ≡ true
    → lookup out k ≡ some canonical
unfolding flat_names
flat_names-holds canonical flat [] out k h t = cc
flat_names-holds canonical flat (n ∷ ns) out k h t =
    let test = is_conflict (lookup flat n) canonical in
    let (a, h1) =
      >>-eq-ok (raise_if test value_error) (flat_names canonical (put flat n canonical) ns) h in
    elim (Bool-cases (str_eq n k)) [
      | inl e ↦
          flat_names-keeps canonical (put flat n canonical) ns out k canonical h1
            (lookup-put flat n k canonical ∙ rw e refl)
      | inr e ↦ flat_names-holds canonical (put flat n canonical) ns out k h1 (ground (arith, t, e))
    ]

flat_from-keeps :
    (flat : Dict String) (table : Dict (List String)) (out : Dict String) (k v : String)
    → flat_from flat table ≡ ok out
    → lookup flat k ≡ some v
    → lookup out k ≡ some v
unfolding flat_from
flat_from-keeps flat [] out k v h l = ap (λ (d : Dict String). lookup d k) (sym (ok_inj h)) ∙ l
flat_from-keeps flat ((c, aliases) ∷ table) out k v h l =
    let (grown, a, h1) = >>=-eq-ok (flat_names c flat (c ∷ aliases)) _ h in
    flat_from-keeps grown table out k v h1 (flat_names-keeps c flat (c ∷ aliases) grown k v a l)

flat_from-declares :
    (flat : Dict String) (table : Dict (List String)) (out : Dict String) (k canonical : String)
    → flat_from flat table ≡ ok out
    → declares table k canonical ≡ true
    → lookup out k ≡ some canonical
unfolding flat_from
flat_from-declares flat [] out k canonical h d = cc
flat_from-declares flat ((c, aliases) ∷ table) out k canonical h d =
    let (grown, a, h1) = >>=-eq-ok (flat_names c flat (c ∷ aliases)) _ h in
    elim (Bool-cases (str_eq c canonical && holds (c ∷ aliases) k)) [
      | inl e ↦
          let here : holds (c ∷ aliases) k ≡ true = ground (arith, e) in
          let same : str_eq c canonical ≡ true = ground (arith, e) in
          flat_from-keeps grown table out k canonical h1 (
            flat_names-holds c flat (c ∷ aliases) grown k a here
            ∙ ap (λ (s : String). some s) ((eq_iff c canonical).0 same))
      | inr e ↦ flat_from-declares grown table out k canonical h1 (ground (arith, d, e))
    ]

-- Where the table of aliases is accepted, no name is declared in it under two canonical names; and a
-- name that no registered user has, which is declared once the space around it is taken off, has the
-- canonical name it is declared under, strict or not.
pub canonical_identity-declares :
    (name : String) (users : List User) (aliases : Dict (List String)) (hosts : List String)
    (strict : Bool) (flat : Dict String) (canonical : String)
    → alias_to_canonical aliases ≡ ok flat
    → is_blank name ≡ false
    → declares aliases (strip name) canonical ≡ true
    → ((other : String) → declares aliases (strip name) other ≡ true → other ≡ canonical)
      × (registered_canonical (strip name) users ≡ none
          → canonical_identity name users aliases hosts strict ≡ ok canonical)
unfolding canonical_identity alias_to_canonical
canonical_identity-declares name users aliases hosts strict flat canonical t b d =
    let found = flat_from-declares [] aliases flat (strip name) canonical t d in
    (
      λ other e. some_inj (sym (flat_from-declares [] aliases flat (strip name) other t e) ∙ found),
      λ none_here.
          let known : known_name users flat (strip name) ≡ some canonical =
            unfold known_name in rw (none_here, found) refl in
          rw (b, t, known) refl,
    )
