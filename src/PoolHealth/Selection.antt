-- ===== src/PoolHealth/Selection.antt =====
-- `bestSelectionLocked` and `effectiveLatency`: which member the selector points to. The members of
-- the Go map are listed in some iteration order.
pub mod Ranking
pub mod Choice
pub mod Listing
use sing_box_webui.Prelude.{
  ℕ, ◌-◌, ◌/◌, ◌^◌, String, Bool, true, false, not, ◌&&◌, ◌||◌, List, [], ◌∷◌, Option, none, some,
  leb, ltb, ◌==◌, if◌then◌else◌, str_eq, str_ltb,
}
use sing_box_webui.Prelude.Int.{ℤ, pos, ◌+ℤ◌, leb_ℤ, ltb_ℤ, eqb_ℤ, quot_ℤ, wrap_i64}
use sing_box_webui.PoolHealth.Model.{
  Status, healthy, degraded, same_status, millisecond, Config, MemberState,
}

unfoldable pub effective_latency : MemberState → ℤ
effective_latency m = if leb_ℤ m.latency_ms (pos 0) then pos (2 ^ 63 - 1) else m.latency_ms

-- Healthy or degraded.
abbrev pub is_active : Status → Bool
is_active s = same_status s healthy || same_status s degraded

unfoldable pub is_candidate : MemberState → Bool
is_candidate m = is_active m.status && (m.total_tests == 0 || ltb 0 m.passed_tests)

-- The comparison that the candidates are sorted by.
unfoldable pub ranks_before : MemberState → MemberState → Bool
ranks_before a b =
    if not (same_status a.status b.status)
    then same_status a.status healthy
    else if not (a.passed_tests == b.passed_tests)
    then ltb b.passed_tests a.passed_tests
    else if not (eqb_ℤ (effective_latency a) (effective_latency b))
    then ltb_ℤ (effective_latency a) (effective_latency b)
    else str_ltb a.target.tag b.target.tag

unfoldable pub candidates : List MemberState → List MemberState
candidates [] = []
candidates (m ∷ ms) = let rest = candidates ms in if is_candidate m then m ∷ rest else rest

-- sort.SliceStable, as an insertion sort: an element goes in front of the first that does not rank
-- before it.
unfoldable pub insert_ranked : MemberState → List MemberState → List MemberState
insert_ranked m [] = m ∷ []
insert_ranked m (x ∷ xs) =
    let rest = insert_ranked m xs in if ranks_before x m then x ∷ rest else m ∷ x ∷ xs

unfoldable pub sort_ranked : List MemberState → List MemberState
sort_ranked [] = []
sort_ranked (m ∷ ms) = insert_ranked m (sort_ranked ms)

-- m.members[tag]
unfoldable pub find_member : String → List MemberState → Option MemberState
find_member tag [] = none
find_member tag (m ∷ ms) = if str_eq m.target.tag tag then some m else find_member tag ms

-- The current member is kept while it ties with the best on status and passed tests and is no slower
-- than the best by more than the tolerance. The sum is of int64s.
unfoldable pub choose : Config → Option MemberState → MemberState → String
choose config none best = best.target.tag
choose config (some current) best =
    if not (is_active current.status)
    then best.target.tag
    else if not (same_status current.status best.status)
    then best.target.tag
    else if not (current.passed_tests == best.passed_tests)
    then best.target.tag
    else if leb_ℤ (effective_latency current)
        (wrap_i64 (effective_latency best +ℤ quot_ℤ config.tolerance millisecond))
    then current.target.tag
    else best.target.tag

choose_first : Config → Option MemberState → List MemberState → String
choose_first config current [] = "block"
choose_first config current (best ∷ _) = choose config current best

unfoldable pub best_selection : Config → String → List MemberState → String
unfolding choose_first
best_selection config selected members =
    choose_first config (find_member selected members) (sort_ranked (candidates members))
