-- ===== src/Py/Value.antt =====
-- The values of a card's fields: what a JSON document holds, less floats. No code that is modelled
-- reads a float.
use scitex_todo.Prelude.{
  ℕ, zero, suc, ◌+◌, String, ◌≡◌, refl, ap, Bool, true, false, not, ◌&&◌, Option, none, some, List,
  [], ◌∷◌, leb, ◌==◌, str_eq, if◌then◌else◌,
}
use scitex_todo.Py.Dict.{Dict, lookup}

-- A Python int; `negsuc n` is -(n + 1).
pub data ℤ : Type 0 where
  pos : ℕ → ℤ
  negsuc : ℕ → ℤ

abbrev pub pos_part : ℤ → ℕ
pos_part (pos n) = n
pos_part (negsuc n) = 0

abbrev pub neg_part : ℤ → ℕ
neg_part (pos n) = 0
neg_part (negsuc n) = suc n

abbrev pub leb_ℤ : ℤ → ℤ → Bool
leb_ℤ a b = leb (pos_part a + neg_part b) (pos_part b + neg_part a)

abbrev pub eq_ℤ : ℤ → ℤ → Bool
eq_ℤ a b = leb_ℤ a b && leb_ℤ b a

mutual
  pub data Value : Type 0 where
    null : Value
    bool : Bool → Value
    int : ℤ → Value
    text : String → Value
    list : Items → Value
    dict : Fields → Value

  pub data Items : Type 0 where
    nil : Items
    cons : Value → Items → Items

  pub data Fields : Type 0 where
    end : Fields
    field : String → Value → Fields → Fields

abbrev pub elements : Items → List Value
elements nil = []
elements (cons v vs) = v ∷ elements vs

abbrev pub items_of : List Value → Items
items_of [] = nil
items_of (v ∷ vs) = cons v (items_of vs)

abbrev pub entries : Fields → Dict Value
entries end = []
entries (field k v fs) = (k, v) ∷ entries fs

abbrev pub fields_of : Dict Value → Fields
fields_of [] = end
fields_of ((k, v) ∷ d) = field k v (fields_of d)

pub elements-items_of : (vs : List Value) → elements (items_of vs) ≡ vs
elements-items_of [] = refl
elements-items_of (v ∷ vs) = ap (λ (l : List Value). v ∷ l) (elements-items_of vs)

pub entries-fields_of : (d : Dict Value) → entries (fields_of d) ≡ d
entries-fields_of [] = refl
entries-fields_of ((k, v) ∷ d) = ap (λ (l : Dict Value). (k, v) ∷ l) (entries-fields_of d)

abbrev pub strings : List String → Value
strings ss = list (strs ss)
  where
    strs : List String → Items
    strs [] = nil
    strs (s ∷ r) = cons (text s) (strs r)

-- `bool(v)`
abbrev pub truthy : Value → Bool
truthy null = false
truthy (bool b) = b
truthy (int (pos zero)) = false
truthy (int _) = true
truthy (text s) = not (str_eq s "")
truthy (list nil) = false
truthy (list _) = true
truthy (dict end) = false
truthy (dict _) = true

abbrev pub is_null : Value → Bool
is_null null = true
is_null _ = false

-- `isinstance(v, str) and v`: a non-empty string
abbrev pub is_name : Value → Bool
is_name (text s) = not (str_eq s "")
is_name _ = false

-- A bool is the int 0 or 1.
abbrev pub as_int : Value → Option ℤ
as_int (bool true) = some (pos 1)
as_int (bool false) = some (pos 0)
as_int (int z) = some z
as_int _ = none

abbrev num_eq : Option ℤ → Option ℤ → Bool
num_eq (some a) (some b) = eq_ℤ a b
num_eq _ _ = false

abbrev fields_size : Fields → ℕ
fields_size end = 0
fields_size (field k v fs) = suc (fields_size fs)

-- `a == b`: ints and bools by number, lists in order, dicts whatever the order of their keys.
unfoldable mutual
  pub py_eq : Value → Value → Bool
  py_eq null b = is_null b
  py_eq (bool x) b = num_eq (as_int (bool x)) (as_int b)
  py_eq (int x) b = num_eq (some x) (as_int b)
  py_eq (text s) (text t) = str_eq s t
  py_eq (text s) _ = false
  py_eq (list xs) (list ys) = eq_items xs ys
  py_eq (list xs) _ = false
  py_eq (dict xs) (dict ys) = fields_size xs == fields_size ys && within xs ys
  py_eq (dict xs) _ = false

  pub eq_items : Items → Items → Bool
  eq_items nil nil = true
  eq_items (cons a as') (cons b bs) = py_eq a b && eq_items as' bs
  eq_items _ _ = false

  pub within : Fields → Fields → Bool
  within end ys = true
  within (field k v fs) ys =
      elim (lookup (entries ys) k) [ none ↦ false | some w ↦ py_eq v w ] && within fs ys

-- `s == v` for a string `s`
abbrev pub is_text : Value → String → Bool
is_text (text t) s = str_eq t s
is_text _ s = false

pub is_text-eq : (v : Value) (s : String) → is_text v s ≡ py_eq v (text s)
unfolding py_eq
is_text-eq null s = refl
is_text-eq (bool true) s = refl
is_text-eq (bool false) s = refl
is_text-eq (int x) s = refl
is_text-eq (text t) s = refl
is_text-eq (list xs) s = refl
is_text-eq (dict xs) s = refl

-- `v in vs`
abbrev pub contains : List Value → Value → Bool
contains [] v = false
contains (w ∷ ws) v = if py_eq v w then true else contains ws v
