-- ===== src/Recipients/Chosen.antt =====
-- Which users a notification reaches.
use scitex_todo.Prelude.{
  ◌≡◌, refl, sym, ap, ◌∙◌, subst, String, Bool, true, false, not, ◌&&◌, ◌||◌, inl, inr, Bool-cases,
  List, [], ◌∷◌, ◌++◌, filter, arith, str_eq, eq_iff, eq_refl,
}
use scitex_todo.Py.Dict.{Dict, lookup}
use scitex_todo.Py.Raise.{ok, >>=-eq-ok, ok_inj}
use scitex_todo.Card.{Card, get}
use scitex_todo.Recipients.Config.{CardNotify, validate_event_type, coerce_card_notify}
use scitex_todo.Py.Value.{Value}
use scitex_todo.Recipients.{
  Preferences, Registry, contains, resolved_ids, card_role_members, or_empty, card_member_ids,
  in_roles, unmuted, watching, roles_for, resolve_recipients,
}

contains-append :
    (xs ys : List String) (u : String) → contains (xs ++ ys) u ≡ (contains xs u || contains ys u)
contains-append [] ys u = refl
contains-append (x ∷ xs) ys u = ground (arith, contains-append xs ys u)

contains-filter :
    (p : String → Bool) (xs : List String) (u : String)
    → contains (filter p xs) u ≡ (contains xs u && p u)
unfolding filter
contains-filter p [] u = refl
contains-filter p (x ∷ xs) u = elim (Bool-cases (str_eq x u)) [
  | inl e ↦
      let same = (eq_iff x u).0 e in
      subst (λ y. contains (filter p (y ∷ xs)) u ≡ (contains (y ∷ xs) u && p u)) (sym same)
        (own u (contains-filter p xs u))
  | inr e ↦ ground (arith, contains-filter p xs u, e)
]
  where
    own :
        (u : String)
        → contains (filter p xs) u ≡ (contains xs u && p u)
        → contains (filter p (u ∷ xs)) u ≡ (contains (u ∷ xs) u && p u)
    own u h = ground (arith, eq_refl u, h)

module _ (reg : Registry) (event_type u : String) (p : Preferences)
    (known : reg.preferences u ≡ ok p) where
  -- The preferences of an entry that is the user are the user's.
  own_preferences :
      (x : String) (q : Preferences) → str_eq x u ≡ true → reg.preferences x ≡ ok q → q ≡ p
  own_preferences x q e h = ok_inj (sym h ∙ ap reg.preferences ((eq_iff x u).0 e) ∙ known)

  contains-unmuted :
      (xs ys : List String)
      → unmuted reg event_type xs ≡ ok ys
      → contains ys u ≡ (contains xs u && not (contains p.mute event_type))
  unfolding unmuted
  contains-unmuted [] ys h = subst (λ l. contains l u ≡ false) (ok_inj h) refl
  contains-unmuted (x ∷ xs) ys h =
      let (q, a, h1) = >>=-eq-ok (reg.preferences x) _ h in
      let (rest, b, h2) = >>=-eq-ok (unmuted reg event_type xs) _ h1 in
      let later = contains-unmuted xs rest b in
      subst (λ l. contains l u ≡ (contains (x ∷ xs) u && not (contains p.mute event_type)))
        (ok_inj h2)
        (elim (Bool-cases (str_eq x u)) [
          | inl e ↦
              let same = ap (λ r. contains r.mute event_type) (own_preferences x q e a) in
              ground (arith, e, same, later)
          | inr e ↦ ground (arith, e, later)
        ])

  contains-watching :
      (xs ys : List String)
      → watching reg event_type xs ≡ ok ys
      → contains ys u ≡ (contains xs u && contains p.watch event_type)
  unfolding watching
  contains-watching [] ys h = subst (λ l. contains l u ≡ false) (ok_inj h) refl
  contains-watching (x ∷ xs) ys h =
      let (q, a, h1) = >>=-eq-ok (reg.preferences x) _ h in
      let (rest, b, h2) = >>=-eq-ok (watching reg event_type xs) _ h1 in
      let later = contains-watching xs rest b in
      subst (λ l. contains l u ≡ (contains (x ∷ xs) u && contains p.watch event_type)) (ok_inj h2)
        (elim (Bool-cases (str_eq x u)) [
          | inl e ↦
              let same = ap (λ r. contains r.watch event_type) (own_preferences x q e a) in
              ground (arith, e, same, later)
          | inr e ↦ ground (arith, e, later)
        ])

-- What `resolve_recipients` read on its way to an answer.
pub record Resolved (reg : Registry) (event : Value) (card : Card) : Type 0 where
  pub event_type : String
  pub notify : CardNotify
  pub members : Dict (List String)
  pub named : List String
  pub silenced : List String
  pub its_event : validate_event_type event ≡ ok event_type
  pub its_notify : coerce_card_notify (get card "notify") ≡ ok notify
  pub its_members : card_role_members reg card ≡ ok members
  pub its_named : resolved_ids reg (or_empty (lookup notify.added event_type)) ≡ ok named
  pub its_silenced : resolved_ids reg notify.muted ≡ ok silenced

-- Where `resolve_recipients` answers, the event is of a known type and the card's configuration and
-- every name on it were read; and a user with readable preferences is among the recipients just when
-- the card does not mute the user, and the user is one of those the card adds for the event, or
-- watches the event and is attached to the card, or has a role that the event goes to and does not
-- mute the event.
pub resolve_recipients-contains :
    (reg : Registry) (rules : Dict (List String)) (event : Value) (card : Card) (rs : List String)
    (u : String) (p : Preferences)
    → reg.preferences u ≡ ok p
    → resolve_recipients reg rules event card ≡ ok rs
    → (r : Resolved reg event card) × (contains rs u ≡ (
        ((contains (in_roles r.members (roles_for r.notify rules r.event_type)) u
              && not (contains p.mute r.event_type)
            || (contains (card_member_ids r.members) u && contains p.watch r.event_type))
          || contains r.named u)
        && not (contains r.silenced u)))
unfolding resolve_recipients
resolve_recipients-contains reg rules event card rs u p known h =
    let (event_type, e0, g0) = >>=-eq-ok (validate_event_type event) _ h in
    let (notify, e1, g1) = >>=-eq-ok (coerce_card_notify (get card "notify")) _ g0 in
    let (members, e2, g2) = >>=-eq-ok (card_role_members reg card) _ g1 in
    let (kept, a, g3) =
      >>=-eq-ok (unmuted reg event_type (in_roles members (roles_for notify rules event_type))) _
        g2 in
    let (watchers, b, g4) = >>=-eq-ok (watching reg event_type (card_member_ids members)) _ g3 in
    let (named, e3, g5) =
      >>=-eq-ok (resolved_ids reg (or_empty (lookup notify.added event_type))) _ g4 in
    let (silenced, e4, g6) = >>=-eq-ok (resolved_ids reg notify.muted) _ g5 in
    (
      record {
        event_type = event_type;
        notify = notify;
        members = members;
        named = named;
        silenced = silenced;
        its_event = e0;
        its_notify = e1;
        its_members = e2;
        its_named = e3;
        its_silenced = e4;
      },
      ap (λ l. contains l u) (sym (ok_inj g6))
          ∙ contains-filter _ ((kept ++ watchers) ++ named) u
          ∙ rw
              (
                contains-append (kept ++ watchers) named u,
                contains-append kept watchers u,
                contains-unmuted reg event_type u p known _ kept a,
                contains-watching reg event_type u p known _ watchers b,
              )
              refl,
    )
