-- ===== src/PoolHealth/Order.antt =====
-- Strict linear orders with their laws, and the lexicographic order of two: what the comparison of
-- `bestSelectionLocked` is built from.
use sing_box_webui.Prelude.{
  ℕ, String, ◌≡◌, refl, Bool, true, false, not, ◌&&◌, arith, ltb, ◌==◌, if◌then◌else◌, Bool-cases,
  inl, inr, str_eq, str_ltb, str_ltb_asym, str_ltb_trans, str_ltb_total, eq_iff, eq_refl,
}
use sing_box_webui.Prelude.Int.{
  ℤ, pos, negsuc, ltb_ℤ, eqb_ℤ, eqb_ℤ→eq, eqb_ℤ_refl, le→not_ltb_ℤ, ltb_ℤ-false, eq_of_parts,
}

pub record Order {ℓ} (A : Type ℓ) : Type ℓ where
  pub same : A → A → Bool
  pub less : A → A → Bool
  pub same→eq : (a b : A) → same a b ≡ true → a ≡ b
  pub same_refl : (a : A) → same a a ≡ true
  pub asym : (a b : A) → less a b ≡ true → less b a ≡ false
  -- "not less" is transitive
  pub not_less_trans : (a b c : A) → less a b ≡ false → less b c ≡ false → less a c ≡ false
  pub total : (a b : A) → less a b ≡ false → less b a ≡ false → a ≡ b

module _ {ℓ κ} {A : Type ℓ} {B : Type κ} (o : Order A) (p : Order B) where
  abbrev pub lex_same : A × B → A × B → Bool
  lex_same (a, b) (a', b') = if o.same a a' then p.same b b' else false

  abbrev pub lex_less : A × B → A × B → Bool
  lex_less (a, b) (a', b') = if o.same a a' then p.less b b' else o.less a a'

  pub lex_same→eq : (x y : A × B) → lex_same x y ≡ true → x ≡ y
  lex_same→eq (a, b) (a', b') h = ground (arith, o.same→eq a a', p.same→eq b b')

  pub lex_asym : (x y : A × B) → lex_less x y ≡ true → lex_less y x ≡ false
  lex_asym (a, b) (a', b') h =
      ground (arith, o.same→eq a a', o.same→eq a' a, o.same_refl a, p.asym b b', o.asym a a')

  pub lex_not_less_trans :
      (x y z : A × B) → lex_less x y ≡ false → lex_less y z ≡ false → lex_less x z ≡ false
  lex_not_less_trans (a, b) (a', b') (a'', b'') h k = ground (
    arith,
    o.same→eq a a',
    o.same→eq a' a'',
    o.same→eq a a'',
    o.same_refl a,
    o.same_refl a',
    o.not_less_trans a a' a'',
    p.not_less_trans b b' b'',
    o.total a a',
    o.total a' a'',
  )

  pub lex_total : (x y : A × B) → lex_less x y ≡ false → lex_less y x ≡ false → x ≡ y
  lex_total (a, b) (a', b') h k =
      ground (arith, o.same→eq a a', o.same→eq a' a, o.same_refl a, o.total a a', p.total b b')

  pub lex_same_refl : (x : A × B) → lex_same x x ≡ true
  lex_same_refl (a, b) = ground (arith, o.same_refl a, p.same_refl b)

  abbrev pub lex_order : Order (A × B)
  lex_order = record {
    same = lex_same;
    less = lex_less;
    same→eq = lex_same→eq;
    same_refl = lex_same_refl;
    asym = lex_asym;
    not_less_trans = lex_not_less_trans;
    total = lex_total;
  }

pub flag_same→eq : (a b : Bool) → (if a then b else not b) ≡ true → a ≡ b
flag_same→eq a b h = ground arith

pub flag_same_refl : (a : Bool) → (if a then a else not a) ≡ true
flag_same_refl a = ground arith

pub flag_asym : (a b : Bool) → (a && not b) ≡ true → (b && not a) ≡ false
flag_asym a b h = ground arith

pub flag_not_less_trans :
    (a b c : Bool) → (a && not b) ≡ false → (b && not c) ≡ false → (a && not c) ≡ false
flag_not_less_trans a b c h k = ground arith

pub flag_total : (a b : Bool) → (a && not b) ≡ false → (b && not a) ≡ false → a ≡ b
flag_total a b h k = ground arith

-- `true` first.
abbrev pub flag_order : Order Bool
flag_order = record {
  same = λ a b. if a then b else not b;
  less = λ a b. a && not b;
  same→eq = flag_same→eq;
  same_refl = flag_same_refl;
  asym = flag_asym;
  not_less_trans = flag_not_less_trans;
  total = flag_total;
}

pub count_same→eq : (a b : ℕ) → (a == b) ≡ true → a ≡ b
count_same→eq a b h = ground arith

pub count_same_refl : (a : ℕ) → (a == a) ≡ true
count_same_refl a = ground arith

pub count_asym : (a b : ℕ) → (ltb b a) ≡ true → (ltb a b) ≡ false
count_asym a b h = ground arith

pub count_not_less_trans : (a b c : ℕ) → (ltb b a) ≡ false → (ltb c b) ≡ false → (ltb c a) ≡ false
count_not_less_trans a b c h k = ground arith

pub count_total : (a b : ℕ) → (ltb b a) ≡ false → (ltb a b) ≡ false → a ≡ b
count_total a b h k = ground arith

-- The larger number first.
abbrev pub count_order : Order ℕ
count_order = record {
  same = ◌==◌;
  less = λ a b. ltb b a;
  same→eq = count_same→eq;
  same_refl = count_same_refl;
  asym = count_asym;
  not_less_trans = count_not_less_trans;
  total = count_total;
}

pub ltb_ℤ_asym : (a b : ℤ) → ltb_ℤ a b ≡ true → ltb_ℤ b a ≡ false
ltb_ℤ_asym (pos a) (pos b) h = ground arith
ltb_ℤ_asym (pos a) (negsuc b) h = cc
ltb_ℤ_asym (negsuc a) (pos b) h = refl
ltb_ℤ_asym (negsuc a) (negsuc b) h = ground arith

pub not_ltb_ℤ_trans : (a b c : ℤ) → ltb_ℤ a b ≡ false → ltb_ℤ b c ≡ false → ltb_ℤ a c ≡ false
not_ltb_ℤ_trans a b c h k = le→not_ltb_ℤ a c (omega (arith, ltb_ℤ-false a b h, ltb_ℤ-false b c k))

pub int_total : (a b : ℤ) → ltb_ℤ a b ≡ false → ltb_ℤ b a ≡ false → a ≡ b
int_total a b h k = eq_of_parts a b (omega (arith, ltb_ℤ-false a b h, ltb_ℤ-false b a k))

-- The smaller integer first.
abbrev pub int_order : Order ℤ
int_order = record {
  same = eqb_ℤ;
  less = ltb_ℤ;
  same→eq = eqb_ℤ→eq;
  same_refl = eqb_ℤ_refl;
  asym = ltb_ℤ_asym;
  not_less_trans = not_ltb_ℤ_trans;
  total = int_total;
}

pub not_str_ltb_trans :
    (a b c : String) → str_ltb a b ≡ false → str_ltb b c ≡ false → str_ltb a c ≡ false
not_str_ltb_trans a b c h k = elim (Bool-cases (str_ltb a c)) [
  | inr e ↦ e
  | inl e ↦ elim (Bool-cases (str_ltb b a)) [
    | inl f ↦ cc (str_ltb_trans b a c f e)
    | inr f ↦ cc (str_ltb_total a b h f)
  ]
]

abbrev pub text_order : Order String
text_order = record {
  same = str_eq;
  less = str_ltb;
  same→eq = λ a b. (eq_iff a b).0;
  same_refl = eq_refl;
  asym = str_ltb_asym;
  not_less_trans = not_str_ltb_trans;
  total = str_ltb_total;
}
