-- ===== src/Store/Marks.antt =====
-- Ids and tombstone marks under the writes of the verbs.
use scitex_todo.Prelude.{
  ◌≡◌, refl, subst, ◌∙◌, Bool, true, false, not, ◌&&◌, Option, none, some, arith, str_eq, String,
}
use scitex_todo.Py.Dict.{put, pop, lookup, lookup-put}
use scitex_todo.Py.Value.{Value, text, truthy, dict, entries-fields_of, list}
use scitex_todo.Py.Raise.{ok, ok_inj}
use scitex_todo.Card.{
  Card, get, get-put, get-pop, is_tombstoned, meta_deleted, mapping, of_dict, or_null,
}
use scitex_todo.Store.Row.{stamp, append_comment, extended}
use scitex_todo.Store.Frame.{SameLive}

-- A write to a key that no lookup reads.
abbrev pub is_free : String → Bool
is_free k = not (str_eq k "id") && not (str_eq k "_log_meta")

pub SameLive-trans : {c d e : Card} → SameLive c d → SameLive d e → SameLive c e
SameLive-trans h k = record {
  same_id = h.same_id ∙ k.same_id;
  same_mark = h.same_mark ∙ k.same_mark;
}

pub put-SameLive : (c : Card) (k : String) (v : Value) → is_free k ≡ true → SameLive (put c k v) c
unfolding is_tombstoned
put-SameLive c k v h = record {
  same_id = simp get-put (ground arith);
  same_mark = simp get-put (ground arith);
}

pub pop-SameLive : (c : Card) (k : String) → is_free k ≡ true → SameLive (pop c k) c
unfolding is_tombstoned
pop-SameLive c k h = record {
  same_id = simp get-pop (ground arith);
  same_mark = simp get-pop (ground arith);
}

pub mapping-deleted :
    (v : Value) → truthy (or_null (lookup (mapping v) "deleted_at")) ≡ meta_deleted v
unfolding lookup
mapping-deleted (dict m) = refl
mapping-deleted _ = refl

meta_deleted-mapping :
    (v : Value) (i j : String) (x y : Value)
    → str_eq i "deleted_at" ≡ false
    → str_eq j "deleted_at" ≡ false
    → meta_deleted (of_dict (put (put (mapping v) i x) j y)) ≡ meta_deleted v
meta_deleted-mapping v i j x y h k =
    rw (entries-fields_of (put (put (mapping v) i x) j y))
      (simp lookup-put (rw (h, k) (mapping-deleted v)))

pub stamp-SameLive :
    (c : Card) (i now j who : String)
    → str_eq i "deleted_at" ≡ false
    → str_eq j "deleted_at" ≡ false
    → SameLive (stamp c i now j who) c
unfolding stamp is_tombstoned
stamp-SameLive c i now j who h k = record {
  same_id = simp get-put refl;
  same_mark = simp get-put (meta_deleted-mapping (get c "_log_meta") i j (text now) (text who) h k);
}

extended-SameLive :
    (c : Card) (o : Option Value) (entry : Value) {d : Card}
    → extended c o entry ≡ ok d
    → SameLive d c
extended-SameLive c none entry {d} h =
    subst (λ x. SameLive x c) (ok_inj h) (put-SameLive c "comments" _ refl)
extended-SameLive c (some (list vs)) entry {d} h =
    subst (λ x. SameLive x c) (ok_inj h) (put-SameLive c "comments" _ refl)
extended-SameLive c (some _) entry h = cc

pub append_comment-SameLive :
    (c : Card) (entry : Value) {d : Card} → append_comment c entry ≡ ok d → SameLive d c
unfolding append_comment
append_comment-SameLive c entry h = extended-SameLive c (lookup c "comments") entry h

pub SameLive-refl : (c : Card) → SameLive c c
SameLive-refl c = record { same_id = refl; same_mark = refl }
