-- ===== src/Inbox/Rows.antt =====
-- What a select finds after a statement has changed the table.
use scitex_todo.Prelude.{
  ◌≡◌, refl, String, Bool, true, false, not, List, [], ◌∷◌, ◌++◌, map, filter, arith, str_eq,
  eq_iff, if◌then◌else◌,
}
use scitex_todo.Inbox.{Notification}
use scitex_todo.Inbox.File.{mark_if}
use scitex_todo.Inbox.Table.{Row, every, is_to, select, delete, set_seen}

-- The inbox of a recipient, in the table.
abbrev pub inbox_of : String → List Row → List Notification
inbox_of recipient rows = select recipient every rows

pub filter-cong {ℓ} :
    {A : Type ℓ} (p q : A → Bool) (xs : List A) → ((x : A) → p x ≡ q x) → filter p xs ≡ filter q xs
unfolding filter
filter-cong p q [] h = refl
filter-cong p q (x ∷ xs) h = rw (h x, filter-cong p q xs h) refl

pub select-filter :
    (recipient : String) (test : Notification → Bool) (rows : List Row)
    → select recipient test rows ≡ filter test (inbox_of recipient rows)
unfolding select filter
select-filter recipient test [] = refl
select-filter recipient test (r ∷ rows) = ground (arith, select-filter recipient test rows)

pub delete-own :
    (recipient : String) (test : Notification → Bool) (rows : List Row)
    → inbox_of recipient (delete recipient test rows)
      ≡ filter (λ n. not (test n)) (inbox_of recipient rows)
unfolding select delete filter
delete-own recipient test [] = refl
delete-own recipient test (r ∷ rows) = ground (arith, delete-own recipient test rows)

-- A row is to one recipient.
apart : (i j : String) (r : Row) → str_eq i j ≡ false → is_to i r ≡ true → is_to j r ≡ false
apart i j r n h = ground (arith, eq_iff r.recipient i, eq_iff r.recipient j, eq_iff i j)

pub delete-other :
    (recipient other : String) (test : Notification → Bool) (rows : List Row)
    → str_eq recipient other ≡ false
    → inbox_of other (delete recipient test rows) ≡ inbox_of other rows
unfolding select delete filter
delete-other recipient other test [] n = refl
delete-other recipient other test (r ∷ rows) n =
    ground (arith, delete-other recipient other test rows n, apart recipient other r n)

pub set_seen-own :
    (recipient : String) (test : Notification → Bool) (rows : List Row)
    → inbox_of recipient (set_seen recipient test rows)
      ≡ map (mark_if test) (inbox_of recipient rows)
unfolding select set_seen filter
set_seen-own recipient test [] = refl
set_seen-own recipient test (r ∷ rows) = ground (arith, set_seen-own recipient test rows)

pub set_seen-other :
    (recipient other : String) (test : Notification → Bool) (rows : List Row)
    → str_eq recipient other ≡ false
    → inbox_of other (set_seen recipient test rows) ≡ inbox_of other rows
unfolding select set_seen filter
set_seen-other recipient other test [] n = refl
set_seen-other recipient other test (r ∷ rows) n =
    ground (arith, set_seen-other recipient other test rows n, apart recipient other r n)

pub inbox_of-append :
    (recipient : String) (rows : List Row) (row : Row)
    → inbox_of recipient (rows ++ row ∷ [])
      ≡ inbox_of recipient rows ++ (if is_to recipient row then row.note ∷ [] else [])
unfolding select filter
inbox_of-append recipient [] row = ground arith
inbox_of-append recipient (r ∷ rows) row = ground (arith, inbox_of-append recipient rows row)
