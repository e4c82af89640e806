-- ===== src/Inbox/Marks.antt =====
-- Marking rows by their ids, and marking the records that were selected.
use mathlib.Core.List.{Mem, not-mem-nil, mem-cons}
use mathlib.Core.Logic.Or
use scitex_todo.Membership.{All-of_mem}
use scitex_todo.Prelude.{
  ◌≡◌, refl, sym, ap, subst, String, Bool, true, false, inl, inr, Bool-cases, List, [], ◌∷◌, map,
  filter, any, All, arith, str_eq, eq_refl, eq_iff,
}
use scitex_todo.Inbox.{Notification, mark_seen}
use scitex_todo.Inbox.File.{mark_if, is_selected, is_wanted}
use scitex_todo.Inbox.Table.{is_among, is_polled}

abbrev pub ids_of : List Notification → List String
ids_of rs = map (λ r. r.id) rs

-- A record that a test keeps has its id among those kept.
among-filter :
    (p : Notification → Bool) (rs : List Notification) (r : Notification)
    → Mem r rs
    → p r ≡ true
    → is_among (ids_of (filter p rs)) r ≡ true
unfolding filter
among-filter p [] r m h = absurd (not-mem-nil m)
among-filter p (x ∷ xs) r m h =
    Or.elim (hlevel) (mem-cons.0 m) (λ e. own e) (λ later. other (among-filter p xs r later h))
  where
    own : r ≡ x → is_among (ids_of (filter p (x ∷ xs))) r ≡ true
    own e = rw (sym e, h, eq_refl r.id) refl

    other :
        is_among (ids_of (filter p xs)) r ≡ true → is_among (ids_of (filter p (x ∷ xs))) r ≡ true
    other k = ground (arith, k)

seen-mark_seen : (r : Notification) → r.seen ≡ true → mark_seen r ≡ r
seen-mark_seen r h = ap (λ b. record r { seen = b }) (sym h)

-- The ids mark what the test keeps, and besides only what is seen already.
record Marks (p : Notification → Bool) (ids : List String) (r : Notification) : Type 0 where
  kept : p r ≡ true → is_among ids r ≡ true
  rest : p r ≡ false → is_among ids r ≡ true → r.seen ≡ true

mark_if-ids :
    (p : Notification → Bool) (ids : List String) (r : Notification)
    → Marks p ids r
    → mark_if (is_among ids) r ≡ mark_if p r
mark_if-ids p ids r h = elim (Bool-cases (p r)) [
  | inl e ↦ rw (e, h.kept e) refl
  | inr e ↦ elim (Bool-cases (is_among ids r)) [
    | inl k ↦ rw (e, k) (seen-mark_seen r (h.rest e k))
    | inr k ↦ rw (e, k) refl
  ]
]

map-mark_if :
    (p : Notification → Bool) (ids : List String) (rs : List Notification)
    → All (Marks p ids) rs
    → map (mark_if (is_among ids)) rs ≡ map (mark_if p) rs
map-mark_if p ids [] h = refl
map-mark_if p ids (r ∷ rs) h = rw (mark_if-ids p ids r h.0, map-mark_if p ids rs h.1) refl

pub is_polled-is_selected :
    (unseen_only : Bool) (r : Notification) → is_polled unseen_only r ≡ is_selected unseen_only r
is_polled-is_selected true r = refl
is_polled-is_selected false r = refl

pub polled-mark_if :
    (unseen_only : Bool) (rs : List Notification)
    → map (mark_if (is_among (ids_of (filter (is_selected unseen_only) rs)))) rs
      ≡ map (mark_if (is_selected unseen_only)) rs
polled-mark_if unseen_only rs = map-mark_if (is_selected unseen_only) _ rs (
    All-of_mem _ rs λ r m. (record {
      kept = among-filter (is_selected unseen_only) rs r m;
      rest = λ n a. unselected unseen_only r n;
    }))
  where
    unselected : (u : Bool) (r : Notification) → is_selected u r ≡ false → r.seen ≡ true
    unselected u r h = ground arith

-- The ids of records that are wanted are wanted.
among-wanted :
    (wanted : List String) (rs : List Notification) (r : Notification)
    → is_among (ids_of (filter (is_wanted wanted) rs)) r ≡ true
    → is_among wanted r ≡ true
unfolding filter
among-wanted wanted [] r h = cc
among-wanted wanted (x ∷ xs) r h = elim (Bool-cases (is_wanted wanted x)) [
  | inl e ↦ elim (Bool-cases (str_eq x.id r.id)) [
    | inl q ↦
        subst (λ i. any (λ nid. str_eq nid i) wanted ≡ true) ((eq_iff x.id r.id).0 q) (wanted_x e)
    | inr q ↦ among-wanted wanted xs r (later q (rw (e) at h))
  ]
  | inr e ↦ among-wanted wanted xs r (rw (e) at h)
]
  where
    wanted_x : is_wanted wanted x ≡ true → is_among wanted x ≡ true
    wanted_x e = ground arith

    later :
        str_eq x.id r.id ≡ false
        → is_among (x.id ∷ ids_of (filter (is_wanted wanted) xs)) r ≡ true
        → is_among (ids_of (filter (is_wanted wanted) xs)) r ≡ true
    later q h = rw (q) at h

pub acked-mark_if :
    (wanted : List String) (rs : List Notification)
    → map (mark_if (is_among (ids_of (filter (is_wanted wanted) rs)))) rs
      ≡ map (mark_if (is_wanted wanted)) rs
acked-mark_if wanted rs = map-mark_if (is_wanted wanted) _ rs (
    All-of_mem _ rs λ r m. (record {
      kept = among-filter (is_wanted wanted) rs r m;
      rest = λ n a. unwanted r (among-wanted wanted rs r a) n;
    }))
  where
    unwanted :
        (r : Notification) → is_among wanted r ≡ true → is_wanted wanted r ≡ false → r.seen ≡ true
    unwanted r h n = ground arith
