-- ===== src/PoolHealth/Selection/Ranking.antt =====
-- The comparison is a strict linear order on the candidates, and the sort puts its least first.
use sing_box_webui.Prelude.{
  ℕ, String, ◌≡◌, refl, inl, inr, Bool, true, false, List, [], ◌∷◌, arith, Bool-cases, All, Among,
  sym, ap, ◌∙◌,
}
use sing_box_webui.Prelude.Int.{ℤ}
use sing_box_webui.PoolHealth.Model.{healthy, same_status, MemberState}
use mathlib.Core.Path.{subst}
use sing_box_webui.PoolHealth.Order.{
  Order, lex_order, flag_order, count_order, int_order, text_order,
}
use sing_box_webui.PoolHealth.Selection.{
  effective_latency, is_active, is_candidate, ranks_before, candidates, insert_ranked, sort_ranked,
}

-- What the comparison reads of a member.
abbrev pub Key : Type 0
Key = Bool × (ℕ × (ℤ × String))

abbrev pub key : MemberState → Key
key m = (same_status m.status healthy, (m.passed_tests, (effective_latency m, m.target.tag)))

abbrev pub key_order : Order Key
key_order = lex_order flag_order (lex_order count_order (lex_order int_order text_order))

abbrev pub IsActive : MemberState → Type 0
IsActive m = is_active m.status ≡ true

ranks_before-key :
    (a b : MemberState)
    → IsActive a
    → IsActive b
    → ranks_before a b ≡ key_order.less (key a) (key b)
unfolding ranks_before
ranks_before-key a b ha hb = ground arith

-- No element of the list ranks before `b`, which is one of them.
abbrev pub NotBefore : MemberState → MemberState → Type 0
NotBefore b m = key_order.less (key m) (key b) ≡ false

abbrev pub IsLeast : MemberState → List MemberState → Type 0
IsLeast b xs = Among b xs × All (NotBefore b) xs

abbrev HeadsLeast : List MemberState → List MemberState → Type 0
HeadsLeast xs [] = xs ≡ []
HeadsLeast xs (b ∷ _) = IsLeast b xs

NotBefore-self : (m : MemberState) → NotBefore m m
NotBefore-self m = elim (Bool-cases (key_order.less (key m) (key m))) [
  | inl e ↦ key_order.asym (key m) (key m) e
  | inr e ↦ e
]

NotBefore-trans :
    (b m : MemberState) (xs : List MemberState)
    → NotBefore m b
    → All (NotBefore b) xs
    → All (NotBefore m) xs
NotBefore-trans b m [] h a = tt
NotBefore-trans b m (x ∷ xs) h a =
    (key_order.not_less_trans (key x) (key b) (key m) a.0 h, NotBefore-trans b m xs h a.1)

pub All-Among {ℓ} :
    {A : Type 0} (P : A → Type ℓ) (a : A) (xs : List A) → All P xs → Among a xs → P a
All-Among P a [] h w = absurd w
All-Among P a (x ∷ xs) h (inl e) = subst P (sym e) h.0
All-Among P a (x ∷ xs) h (inr w) = All-Among P a xs h.1 w

insert_least :
    (m : MemberState) (xs s : List MemberState)
    → IsActive m
    → All IsActive xs
    → HeadsLeast xs s
    → HeadsLeast (m ∷ xs) (insert_ranked m s)
unfolding insert_ranked
insert_least m xs [] am axs h = (inl refl, (NotBefore-self m, rw h tt))
insert_least m xs (b ∷ r) am axs h =
    let ab = All-Among IsActive b xs axs h.0 in
    let same = ranks_before-key b m ab am in
    elim (Bool-cases (ranks_before b m)) [
      | inl e ↦ rw e (inr h.0, (key_order.asym (key b) (key m) (sym same ∙ e), h.1))
      | inr e ↦ rw e (inl refl, (NotBefore-self m, NotBefore-trans b m xs (sym same ∙ e) h.1))
    ]

sort_least : (xs : List MemberState) → All IsActive xs → HeadsLeast xs (sort_ranked xs)
unfolding sort_ranked
sort_least [] a = refl
sort_least (x ∷ xs) a = insert_least x xs (sort_ranked xs) a.0 a.1 (sort_least xs a.1)

IsActive-of_candidate : (m : MemberState) → is_candidate m ≡ true → IsActive m
unfolding is_candidate
IsActive-of_candidate m h = ground arith

abbrev pub IsCandidate : MemberState → Type 0
IsCandidate m = is_candidate m ≡ true

candidates-IsCandidate : (ms : List MemberState) → All IsCandidate (candidates ms)
unfolding candidates
candidates-IsCandidate [] = tt
candidates-IsCandidate (m ∷ ms) = elim (Bool-cases (is_candidate m)) [
  | inl e ↦ rw e (e, candidates-IsCandidate ms)
  | inr e ↦ rw e (candidates-IsCandidate ms)
]

candidates-IsActive : (ms : List MemberState) → All IsActive (candidates ms)
unfolding candidates
candidates-IsActive [] = tt
candidates-IsActive (m ∷ ms) = elim (Bool-cases (is_candidate m)) [
  | inl e ↦ rw e (IsActive-of_candidate m e, candidates-IsActive ms)
  | inr e ↦ rw e (candidates-IsActive ms)
]

-- The candidates are the eligible members of the list.
pub Among-candidates :
    (c : MemberState) (ms : List MemberState) → Among c (candidates ms) → Among c ms × IsCandidate c
unfolding candidates
Among-candidates c [] = λ w. absurd w
Among-candidates c (m ∷ ms) = elim (Bool-cases (is_candidate m)) [
  | inl e ↦ rw e (elim [
    | inl p ↦ (inl p, rw p e)
    | inr w ↦ (inr (Among-candidates c ms w).0, (Among-candidates c ms w).1)
  ])
  | inr e ↦ rw e (λ w. (inr (Among-candidates c ms w).0, (Among-candidates c ms w).1))
]

pub candidates-Among :
    (c : MemberState) (ms : List MemberState) → Among c ms → IsCandidate c → Among c (candidates ms)
unfolding candidates
candidates-Among c [] w h = absurd w
candidates-Among c (m ∷ ms) (inl p) h = rw (ap is_candidate (sym p) ∙ h) (inl p)
candidates-Among c (m ∷ ms) (inr w) h = elim (Bool-cases (is_candidate m)) [
  | inl e ↦ rw e (inr (candidates-Among c ms w h))
  | inr e ↦ rw e (candidates-Among c ms w h)
]

-- The candidate that the sort puts first: none where there is no candidate, and else one that no
-- candidate ranks before.
abbrev pub Sorts : List MemberState → List MemberState → Type 0
Sorts ms [] = candidates ms ≡ []
Sorts ms (b ∷ _) = IsLeast b (candidates ms)

pub sort_candidates : (ms : List MemberState) → Sorts ms (sort_ranked (candidates ms))
sort_candidates ms = sort_least (candidates ms) (candidates-IsActive ms)
