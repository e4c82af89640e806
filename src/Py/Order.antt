-- ===== src/Py/Order.antt =====
-- The order of Python's strings, by code points, and the keys that lists of cards are sorted by.
use Prim.Native.Nat.{compare as compare_ℕ, Ordering}
use Prim.Native.Char.{code}
use Prim.Native.String.{compare, then}
use Prim.Native.String.compare
use scitex_todo.Prelude.{ℕ, String, ◌≡◌, refl, ◌∙◌, sym, Bool, true, false, arith}

-- `s < t`
abbrev pub lt_text : String → String → Bool
lt_text s t = elim (compare s t) [ Ordering.lt ↦ true | _ ↦ false ]

abbrev pub flip : Ordering → Ordering
flip Ordering.lt = Ordering.gt
flip Ordering.eq = Ordering.eq
flip Ordering.gt = Ordering.lt

compare_ℕ-flip : (m n : ℕ) → compare_ℕ n m ≡ flip (compare_ℕ m n)
compare_ℕ-flip m n = ground arith

flip-then : (o r : Ordering) → flip (then o r) ≡ then (flip o) (flip r)
flip-then Ordering.lt r = refl
flip-then Ordering.eq r = refl
flip-then Ordering.gt r = refl

pub compare-flip : (s t : String) → compare t s ≡ flip (compare s t)
compare-flip String.[] String.[] = refl
compare-flip String.[] (String.◌∷◌ d t) = rw (compare.nil-cons d t, compare.cons-nil d t)
compare-flip (String.◌∷◌ c s) String.[] = rw (compare.nil-cons c s, compare.cons-nil c s)
compare-flip (String.◌∷◌ c s) (String.◌∷◌ d t) =
    simp (compare.cons-cons, flip-then, compare_ℕ-flip (code c) (code d), compare-flip s t)

then_lt_trans :
    (a b c : ℕ) (r s t : Ordering)
    → (r ≡ Ordering.lt → s ≡ Ordering.lt → t ≡ Ordering.lt)
    → then (compare_ℕ a b) r ≡ Ordering.lt
    → then (compare_ℕ b c) s ≡ Ordering.lt
    → then (compare_ℕ a c) t ≡ Ordering.lt
then_lt_trans a b c r s t h p q = ground arith

pub compare_lt_trans :
    (s t u : String)
    → compare s t ≡ Ordering.lt
    → compare t u ≡ Ordering.lt
    → compare s u ≡ Ordering.lt
compare_lt_trans String.[] String.[] u p q = cc
compare_lt_trans String.[] (String.◌∷◌ d t) String.[] p q = cc (compare.cons-nil d t)
compare_lt_trans String.[] (String.◌∷◌ d t) (String.◌∷◌ e u) p q = compare.nil-cons e u
compare_lt_trans (String.◌∷◌ c s) String.[] u p q = cc (compare.cons-nil c s)
compare_lt_trans (String.◌∷◌ c s) (String.◌∷◌ d t) String.[] p q = cc (compare.cons-nil d t)
compare_lt_trans (String.◌∷◌ c s) (String.◌∷◌ d t) (String.◌∷◌ e u) p q =
    compare.cons-cons c e s u
    ∙ then_lt_trans (code c) (code d) (code e) (compare s t) (compare t u) (compare s u)
        (compare_lt_trans s t u) (sym (compare.cons-cons c d s t) ∙ p)
        (sym (compare.cons-cons d e t u) ∙ q)
