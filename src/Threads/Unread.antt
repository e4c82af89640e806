-- ===== src/Threads/Unread.antt =====
-- Counting unread messages, before and after they are marked.
use scitex_todo.Prelude.{
  ℕ, suc, ◌+◌, String, ◌≡◌, refl, sym, ap, ◌∙◌, true, false, inl, inr, Bool-cases, Option, none,
  some, List, [], ◌∷◌, map, filter, length, str_eq, eq_iff, arith, if◌then◌else◌,
}
use scitex_todo.Py.Dict.{Dict, lookup, lookup-put}
use scitex_todo.Py.Value.{Value, null, bool, int, text, list, dict, truthy, is_text}
use scitex_todo.Card.{Card, get, get-put}
use scitex_todo.Threads.{Threads}
use scitex_todo.Threads.Reading.{
  is_unread_for, with_read, read_if, bumped, bump_unread, count_unread, summary_of, summaries,
}

abbrev pub unread_for : String → List Card → ℕ
unread_for reader rs = length (filter (is_unread_for reader none) rs)

abbrev plus : Option ℕ → ℕ → Option ℕ
plus none n = none
plus (some m) n = some (m + n)

lookup-bump_unread :
    (unread : Dict ℕ) (v : Value) (reader : String)
    → lookup (bump_unread unread v) reader
      ≡ plus (lookup unread reader) (if is_text v reader then 1 else 0)
unfolding bump_unread
lookup-bump_unread unread (text to) reader = of (lookup unread to) refl
  where
    of :
        (o : Option ℕ)
        → lookup unread to ≡ o
        → lookup (bumped unread to o) reader
          ≡ plus (lookup unread reader) (if str_eq to reader then 1 else 0)
    of none e = elim (Bool-cases (str_eq to reader)) [
      | inl q ↦
          let there : lookup unread reader ≡ none =
            ap (lookup unread) (sym ((eq_iff to reader).0 q)) ∙ e in
          rw (q, there) refl
      | inr q ↦ rw q (ground arith)
    ]
    of (some n) e = elim (Bool-cases (str_eq to reader)) [
      | inl q ↦
          let there : lookup unread reader ≡ some n =
            ap (lookup unread) (sym ((eq_iff to reader).0 q)) ∙ e in
          lookup-put unread to reader (suc n) ∙ rw (q, there) (ground arith)
      | inr q ↦ lookup-put unread to reader (suc n) ∙ rw q (ground arith)
    ]
lookup-bump_unread unread null reader = ground arith
lookup-bump_unread unread (bool b) reader = ground arith
lookup-bump_unread unread (int z) reader = ground arith
lookup-bump_unread unread (list vs) reader = ground arith
lookup-bump_unread unread (dict d) reader = ground arith

pub lookup-count_unread :
    (unread : Dict ℕ) (rs : List Card) (reader : String)
    → lookup (count_unread unread rs) reader ≡ plus (lookup unread reader) (unread_for reader rs)
unfolding count_unread filter is_unread_for
lookup-count_unread unread [] reader = ground arith
lookup-count_unread unread (r ∷ rs) reader = elim (Bool-cases (truthy (get r "read"))) [
  | inl e ↦ rw (e, lookup-count_unread unread rs reader) (ground arith)
  | inr e ↦
      rw
        (
          e,
          lookup-count_unread (bump_unread unread (get r "to")) rs reader,
          lookup-bump_unread unread (get r "to") reader,
        )
        (ground arith)
]

pub lookup-summaries :
    (threads : Threads) (key : String)
    → lookup (summaries threads) key
      ≡ elim (lookup threads key) [ none ↦ none | some rs ↦ some (summary_of key rs) ]
unfolding summaries lookup
lookup-summaries [] key = refl
lookup-summaries ((k, rs) ∷ threads) key = elim (Bool-cases (str_eq k key)) [
  | inl e ↦ rw e (ap (λ (s : String). some (summary_of s rs)) ((eq_iff k key).0 e))
  | inr e ↦ rw e (lookup-summaries threads key)
]

-- A message that is marked is unread for nobody, and one that is not is as it was.
get-with_read : (r : Card) → get (with_read r) "read" ≡ bool true
unfolding with_read
get-with_read r = get-put r "read" "read" (bool true)

is_unread_for-with_read :
    (reader : String) (r : Card) → is_unread_for reader none (with_read r) ≡ false
unfolding is_unread_for
is_unread_for-with_read reader r = rw (get-with_read r) (ground arith)

is_text-is_unread_for :
    (reader : String) (r : Card)
    → is_unread_for reader none r ≡ true
    → is_text (get r "to") reader ≡ true
unfolding is_unread_for
is_text-is_unread_for reader r h = ground (arith, h)

not_addressed :
    (reader : String) (r : Card)
    → is_text (get r "to") reader ≡ false
    → is_unread_for reader none r ≡ false
unfolding is_unread_for
not_addressed reader r h = ground (arith, h)

is_text_unique :
    (v : Value) (s t : String) → is_text v s ≡ true → is_text v t ≡ true → str_eq s t ≡ true
is_text_unique (text u) s t h k = ground (arith, h, k, eq_iff u s, eq_iff u t, eq_iff s t)
is_text_unique null s t h k = cc
is_text_unique (bool b) s t h k = cc
is_text_unique (int z) s t h k = cc
is_text_unique (list vs) s t h k = cc
is_text_unique (dict d) s t h k = cc

not_unread :
    (reader other : String) (r : Card)
    → is_unread_for reader none r ≡ true
    → str_eq reader other ≡ false
    → is_unread_for other none r ≡ false
not_unread reader other r e h =
    let mine = is_text-is_unread_for reader r e in
    elim (Bool-cases (is_text (get r "to") other)) [
      | inl o ↦
          let same = is_text_unique (get r "to") reader other mine o in
          absurd (let k = sym h ∙ same in cc)
      | inr o ↦ not_addressed other r o
    ]

pub own_marked :
    (reader : String) (rs : List Card) → unread_for reader (map (read_if reader none) rs) ≡ 0
unfolding filter
own_marked reader [] = refl
own_marked reader (r ∷ rs) = elim (Bool-cases (is_unread_for reader none r)) [
  | inl e ↦ rw (e, is_unread_for-with_read reader r) (own_marked reader rs)
  | inr e ↦ rw (e, e) (own_marked reader rs)
]

pub others_kept :
    (reader other : String) (rs : List Card)
    → str_eq reader other ≡ false
    → unread_for other (map (read_if reader none) rs) ≡ unread_for other rs
unfolding filter
others_kept reader other [] h = refl
others_kept reader other (r ∷ rs) h = elim (Bool-cases (is_unread_for reader none r)) [
  | inl e ↦
      let not_other = not_unread reader other r e h in
      rw (e, is_unread_for-with_read other r, not_other) (others_kept reader other rs h)
  | inr e ↦ rw e (ground (arith, others_kept reader other rs h))
]

pub length-map : {A : Type 0} (f : A → A) (rs : List A) → length (map f rs) ≡ length rs
length-map f [] = refl
length-map f (r ∷ rs) = ap suc (length-map f rs)
