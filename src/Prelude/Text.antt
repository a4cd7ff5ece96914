-- ===== src/Prelude/Text.antt =====
-- Go's operations on strings: `<` as the order of the bytes, and `strings.TrimSpace`.
use Prim.Native.Nat.{ℕ, Ordering, compare as compare_ℕ}
use Prim.Native.Char.{Char, code}
use Prim.Native.String.{String, compare, then as or_next}
use Prim.Native.String.compare
use mathlib.Core.Path.{◌≡◌, refl, sym}
use mathlib.Core.Bool.{Bool, true, false, ◌||◌, ◌&&◌}
use mathlib.Core.Logic.{inl, inr}
use native.Mathlib.Omega.{arith}
use text.Mathlib.Text.{is_lt}
use text.Mathlib.TextEquality.{path_by_compare}
use text.Mathlib.TextPositions.{compare_refl}
pub use text.Mathlib.Text.{◌==◌ as str_eq}
use sing_box_webui.Prelude.Tests.{if◌then◌else◌, leb, ◌==◌, Bool-cases}

-- s < t
unfoldable pub str_ltb : String → String → Bool
str_ltb s t = is_lt (compare s t)

pub str_ltb_irrefl : (s : String) → str_ltb s s ≡ false
unfolding str_ltb
str_ltb_irrefl s = rw (compare_refl s)

abbrev flip : Ordering → Ordering
flip Ordering.lt = Ordering.gt
flip Ordering.eq = Ordering.eq
flip Ordering.gt = Ordering.lt

flip-compare_ℕ : (m n : ℕ) → compare_ℕ n m ≡ flip (compare_ℕ m n)
flip-compare_ℕ m n = ground arith

flip-or_next : (a b : Ordering) → flip (or_next a b) ≡ or_next (flip a) (flip b)
flip-or_next Ordering.lt b = refl
flip-or_next Ordering.eq b = refl
flip-or_next Ordering.gt b = refl

pub flip-compare : (s t : String) → compare t s ≡ flip (compare s t)
flip-compare String.[] String.[] = rw compare.nil-nil
flip-compare String.[] (String.◌∷◌ d t) = rw (compare.nil-cons, compare.cons-nil)
flip-compare (String.◌∷◌ c s) String.[] = rw (compare.nil-cons, compare.cons-nil)
flip-compare (String.◌∷◌ c s) (String.◌∷◌ d t) =
    rw
      (
        compare.cons-cons c d s t,
        compare.cons-cons d c t s,
        flip-compare s t,
        flip-compare_ℕ (code c) (code d),
      )
      (sym (flip-or_next (compare_ℕ (code c) (code d)) (compare s t)))

or_next_trans :
    (a b c : ℕ) (o p q : Ordering)
    → (o ≡ Ordering.lt → p ≡ Ordering.lt → q ≡ Ordering.lt)
    → or_next (compare_ℕ a b) o ≡ Ordering.lt
    → or_next (compare_ℕ b c) p ≡ Ordering.lt
    → or_next (compare_ℕ a c) q ≡ Ordering.lt
or_next_trans a b c o p q ih h k = ground arith

lt_trans_of_compare :
    (s t u : String)
    → compare s t ≡ Ordering.lt
    → compare t u ≡ Ordering.lt
    → compare s u ≡ Ordering.lt
lt_trans_of_compare String.[] String.[] u h k = cc
lt_trans_of_compare String.[] (String.◌∷◌ d t) String.[] h k = cc (compare.cons-nil d t)
lt_trans_of_compare String.[] (String.◌∷◌ d t) (String.◌∷◌ e u) h k = compare.nil-cons e u
lt_trans_of_compare (String.◌∷◌ c s) String.[] u h k = cc (compare.cons-nil c s)
lt_trans_of_compare (String.◌∷◌ c s) (String.◌∷◌ d t) String.[] h k = cc (compare.cons-nil d t)
lt_trans_of_compare (String.◌∷◌ c s) (String.◌∷◌ d t) (String.◌∷◌ e u) h k =
    rw (compare.cons-cons c e s u) (
      or_next_trans (code c) (code d) (code e) (compare s t) (compare t u) (compare s u)
        (lt_trans_of_compare s t u) (rw (compare.cons-cons c d s t) at h)
        (rw (compare.cons-cons d e t u) at k))

lt_of_is_lt : (o : Ordering) → is_lt o ≡ true → o ≡ Ordering.lt
lt_of_is_lt Ordering.lt h = refl
lt_of_is_lt Ordering.eq h = cc
lt_of_is_lt Ordering.gt h = cc

pub str_ltb_trans : (s t u : String) → str_ltb s t ≡ true → str_ltb t u ≡ true → str_ltb s u ≡ true
unfolding str_ltb
str_ltb_trans s t u h k = rw (lt_trans_of_compare s t u (lt_of_is_lt _ h) (lt_of_is_lt _ k))

eq_of_neither : (o : Ordering) → is_lt o ≡ false → is_lt (flip o) ≡ false → o ≡ Ordering.eq
eq_of_neither Ordering.lt h k = cc
eq_of_neither Ordering.eq h k = refl
eq_of_neither Ordering.gt h k = cc

pub str_ltb_total : (s t : String) → str_ltb s t ≡ false → str_ltb t s ≡ false → s ≡ t
unfolding str_ltb
str_ltb_total s t h k =
    path_by_compare s t (eq_of_neither (compare s t) h (rw (flip-compare s t) at k))

pub str_ltb_asym : (s t : String) → str_ltb s t ≡ true → str_ltb t s ≡ false
unfolding str_ltb
str_ltb_asym s t h = rw (flip-compare s t, lt_of_is_lt _ h)

-- unicode.IsSpace
is_space : Char → Bool
is_space ch =
    let c = code ch in
    (leb 9 c && leb c 13)
    || c == 32
    || c == 0x85
    || c == 0xA0
    || c == 0x1680
    || (leb 0x2000 c && leb c 0x200a)
    || c == 0x2028
    || c == 0x2029
    || c == 0x202f
    || c == 0x205f
    || c == 0x3000

trim_left : String → String
trim_left String.[] = String.[]
trim_left (String.◌∷◌ c s) = if is_space c then trim_left s else String.◌∷◌ c s

keep_unless_blank : Char → String → String
keep_unless_blank c String.[] = if is_space c then String.[] else String.◌∷◌ c String.[]
keep_unless_blank c (String.◌∷◌ d s) = String.◌∷◌ c (String.◌∷◌ d s)

trim_right : String → String
trim_right String.[] = String.[]
trim_right (String.◌∷◌ c s) = keep_unless_blank c (trim_right s)

-- strings.TrimSpace
unfoldable pub trim_space : String → String
unfolding is_space trim_left trim_right keep_unless_blank
trim_space s = trim_right (trim_left s)

abbrev IsClean : String → Type 0
IsClean String.[] = Unit
IsClean (String.◌∷◌ c s) = is_space c ≡ false

trim_left-IsClean : (s : String) → IsClean (trim_left s)
unfolding trim_left
trim_left-IsClean String.[] = tt
trim_left-IsClean (String.◌∷◌ c s) = elim (Bool-cases (is_space c)) [
  | inl e ↦ rw e (trim_left-IsClean s)
  | inr e ↦ rw e e
]

keep-IsClean : (c : Char) (s : String) → is_space c ≡ false → IsClean (keep_unless_blank c s)
unfolding keep_unless_blank
keep-IsClean c String.[] h = rw h h
keep-IsClean c (String.◌∷◌ d s) h = h

trim_right-IsClean : (s : String) → IsClean s → IsClean (trim_right s)
unfolding trim_right
trim_right-IsClean String.[] h = tt
trim_right-IsClean (String.◌∷◌ c s) h = keep-IsClean c (trim_right s) h

trim_left-IsClean_id : (s : String) → IsClean s → trim_left s ≡ s
unfolding trim_left
trim_left-IsClean_id String.[] h = refl
trim_left-IsClean_id (String.◌∷◌ c s) h = rw h

trim_right-keep :
    (c : Char) (s : String)
    → trim_right s ≡ s
    → trim_right (keep_unless_blank c s) ≡ keep_unless_blank c s
unfolding trim_right keep_unless_blank
trim_right-keep c String.[] h = elim (Bool-cases (is_space c)) [
  | inl e ↦ rw e
  | inr e ↦ rw (e, keep_unless_blank) (rw e)
]
trim_right-keep c (String.◌∷◌ d s) h = rw (h, keep_unless_blank)

trim_right_idem : (s : String) → trim_right (trim_right s) ≡ trim_right s
unfolding trim_right
trim_right_idem String.[] = refl
trim_right_idem (String.◌∷◌ c s) = trim_right-keep c (trim_right s) (trim_right_idem s)

-- What is trimmed has nothing left to trim.
pub trim_space_idem : (s : String) → trim_space (trim_space s) ≡ trim_space s
unfolding trim_space
trim_space_idem s =
    rw
      (trim_left-IsClean_id (trim_right (trim_left s))
        (trim_right-IsClean (trim_left s) (trim_left-IsClean s)))
      (trim_right_idem (trim_left s))
