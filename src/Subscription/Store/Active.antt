-- ===== src/Subscription/Store/Active.antt =====
-- Exactly one of the stored subscriptions is active, as soon as there are any.
use mathlib.Core.List.{Perm}
use mathlib.Core.List.{Permᴰ}
use mathlib.Core.Logic.{∥∥₁_elim}
use native.Mathlib.Nat.{ℕ_set}
use sing_box_webui.Prelude.{
  ℕ, ◌+◌, suc, String, ◌≡◌, refl, sym, ap, ◌∙◌, Bool, true, false, List, [], ◌∷◌, ◌++◌, map, some,
  arith, length, if◌then◌else◌, Bool-cases, inl, inr, str_eq,
}
use sing_box_webui.Storage.{find, replace, remove}
use sing_box_webui.Subscription.Model.{Subscription}
use sing_box_webui.Subscription.Store.{sub_id, is_empty, activate_only, pass_on}

pub count_active : List Subscription → ℕ
count_active [] = 0
count_active (s ∷ ss) = if s.active then count_active ss + 1 else count_active ss

-- None of none, one of any others.
pub IsOneActive : List Subscription → Type 0
IsOneActive [] = Unit {0}
IsOneActive (s ∷ ss) = count_active (s ∷ ss) ≡ 1

count_active-append :
    (xs ys : List Subscription) → count_active (xs ++ ys) ≡ count_active xs + count_active ys
unfolding count_active
count_active-append [] ys = omega arith
count_active-append (x ∷ xs) ys = let h = count_active-append xs ys in ground arith

count_active-replace :
    (id : String) (x y : Subscription) (xs : List Subscription)
    → find sub_id id xs ≡ some x
    → y.active ≡ x.active
    → count_active (replace sub_id id y xs) ≡ count_active xs
unfolding count_active find replace
count_active-replace id x y [] = λ h a. refl
count_active-replace id x y (z ∷ zs) = elim (Bool-cases (str_eq z.id id)) [
  | inl e ↦ rw e (λ h a. let q : z ≡ x = cc h in rw (a, sym q) refl)
  | inr e ↦ rw e (λ h a. let k = count_active-replace id x y zs h a in ground arith)
]

count_active-remove :
    (id : String) (x : Subscription) (xs : List Subscription)
    → find sub_id id xs ≡ some x
    → count_active xs ≡ (
        if x.active
        then count_active (remove sub_id id xs) + 1
        else count_active (remove sub_id id xs))
unfolding count_active find remove
count_active-remove id x [] = λ h. cc h
count_active-remove id x (z ∷ zs) = elim (Bool-cases (str_eq z.id id)) [
  | inl e ↦ rw e (λ h. let q : z ≡ x = cc h in rw (sym q) refl)
  | inr e ↦ rw e (λ h. let k = count_active-remove id x zs h in ground arith)
]

none_active :
    (ss : List Subscription)
    → count_active (map (λ (t : Subscription). record t { active = false }) ss) ≡ 0
unfolding count_active
none_active [] = refl
none_active (s ∷ ss) = none_active ss

count_active-activate_only :
    (id : String) (x : Subscription) (xs : List Subscription)
    → find sub_id id xs ≡ some x
    → count_active (activate_only id xs) ≡ 1
unfolding count_active find activate_only
count_active-activate_only id x [] = λ h. absurd (ground arith)
count_active-activate_only id x (z ∷ zs) = elim (Bool-cases (str_eq z.id id)) [
  | inl e ↦ rw e (λ h. let k = none_active zs in omega arith)
  | inr e ↦ rw e (λ h. count_active-activate_only id x zs h)
]

-- A list with one active item has one; and a list in which an item is found is not empty.
pub one_of_count : (xs : List Subscription) → count_active xs ≡ 1 → IsOneActive xs
unfolding IsOneActive
one_of_count [] h = tt
one_of_count (x ∷ xs) h = h

pub count_of_one :
    (id : String) (x : Subscription) (xs : List Subscription)
    → find sub_id id xs ≡ some x
    → IsOneActive xs
    → count_active xs ≡ 1
unfolding IsOneActive find
count_of_one id x [] f h = absurd (ground arith)
count_of_one id x (y ∷ ys) f h = h

pub replace-IsOneActive :
    (id : String) (x y : Subscription) (xs : List Subscription)
    → find sub_id id xs ≡ some x
    → y.active ≡ x.active
    → IsOneActive xs
    → IsOneActive (replace sub_id id y xs)
replace-IsOneActive id x y xs f a h =
    one_of_count (replace sub_id id y xs)
      (count_active-replace id x y xs f a ∙ count_of_one id x xs f h)

pub activate_only-IsOneActive :
    (id : String) (x : Subscription) (xs : List Subscription)
    → find sub_id id xs ≡ some x
    → IsOneActive (activate_only id xs)
activate_only-IsOneActive id x xs f =
    one_of_count (activate_only id xs) (count_active-activate_only id x xs f)

passed_on : (xs : List Subscription) → count_active xs ≡ 0 → IsOneActive (pass_on true xs)
unfolding pass_on IsOneActive count_active
passed_on [] h = tt
passed_on (x ∷ xs) h = ground arith

kept_on : (xs : List Subscription) → pass_on false xs ≡ xs
unfolding pass_on
kept_on [] = refl
kept_on (x ∷ xs) = refl

pass_on-IsOneActive :
    (b : Bool) (xs : List Subscription)
    → 1 ≡ (if b then count_active xs + 1 else count_active xs)
    → IsOneActive (pass_on b xs)
pass_on-IsOneActive true xs h = passed_on xs (omega (arith, h))
pass_on-IsOneActive false xs h = rw (kept_on xs) (one_of_count xs (sym h))

pub delete-IsOneActive :
    (id : String) (x : Subscription) (xs : List Subscription)
    → find sub_id id xs ≡ some x
    → IsOneActive xs
    → IsOneActive (pass_on x.active (remove sub_id id xs))
delete-IsOneActive id x xs f h =
    pass_on-IsOneActive x.active (remove sub_id id xs)
      (sym (count_of_one id x xs f h) ∙ count_active-remove id x xs f)

pub insert-IsOneActive :
    (xs : List Subscription) (x : Subscription)
    → x.active ≡ is_empty xs
    → IsOneActive xs
    → IsOneActive (xs ++ x ∷ [])
unfolding IsOneActive is_empty count_active
insert-IsOneActive [] x a h = rw a refl
insert-IsOneActive (y ∷ ys) x a h = let k = count_active-append ys (x ∷ []) in ground arith

perm_count : {xs ys : List Subscription} → Permᴰ xs ys → count_active xs ≡ count_active ys
unfolding count_active
perm_count Permᴰ.nil = refl
perm_count (Permᴰ.cons {a} {b} e d) = let k = perm_count d in rw (e, k) refl
perm_count (Permᴰ.swap {a} {b} {a'} {b'} {l} e f) = rw (e, f) (ground arith)
perm_count (Permᴰ.trans d e) = perm_count d ∙ perm_count e

perm_length : {xs ys : List Subscription} → Permᴰ xs ys → length xs ≡ length ys
perm_length Permᴰ.nil = refl
perm_length (Permᴰ.cons e d) = ap suc (perm_length d)
perm_length (Permᴰ.swap e f) = refl
perm_length (Permᴰ.trans d e) = perm_length d ∙ perm_length e

none_of_length : (ys : List Subscription) → 0 ≡ length ys → IsOneActive ys
unfolding IsOneActive
none_of_length [] h = tt
none_of_length (y ∷ ys) h = absurd (omega (arith, h))

-- Whether one is active does not depend on the order.
pub Perm-IsOneActive : (xs ys : List Subscription) → Perm xs ys → IsOneActive xs → IsOneActive ys
unfolding IsOneActive
Perm-IsOneActive [] ys p h = none_of_length ys (∥∥₁_elim p (ℕ_set 0 (length ys)) perm_length)
Perm-IsOneActive (x ∷ xs) ys p h =
    one_of_count ys
      (sym (∥∥₁_elim p (ℕ_set (count_active (x ∷ xs)) (count_active ys)) perm_count) ∙ h)

pub none_is_one : IsOneActive []
unfolding IsOneActive
none_is_one = tt
