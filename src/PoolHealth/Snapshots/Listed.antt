-- ===== src/PoolHealth/Snapshots/Listed.antt =====
-- The published list of members: each member once, in the order of the names.
use mathlib.Core.List.Perm
use mathlib.Core.List.{Perm}
use sing_box_webui.Prelude.{
  String, ◌≡◌, refl, arith, false, List, [], ◌∷◌, Bool-cases, inl, inr, map, All, str_ltb,
  str_ltb_asym, str_ltb_trans, str_ltb_total,
}
use sing_box_webui.PoolHealth.Model.{MemberState, MemberSnapshot}
use sing_box_webui.PoolHealth.Snapshots.{member_snapshot, insert_by_name, sort_by_name}

-- The published entry shows this member.
pub record Shows (m : MemberState) (s : MemberSnapshot) : Type 0 where
  pub subscription_id : s.subscription_id ≡ m.target.subscription_id
  pub node_id : s.node_id ≡ m.target.node_id
  pub name : s.name ≡ m.target.name
  pub status : s.status ≡ m.status
  pub latency_ms : s.latency_ms ≡ m.latency_ms
  pub passed_tests : s.passed_tests ≡ m.passed_tests
  pub total_tests : s.total_tests ≡ m.total_tests
  pub failures : s.failures ≡ m.failures
  pub last_checked_at : s.last_checked_at ≡ m.last_checked_at
  pub next_probe_at : s.next_probe_at ≡ m.next_probe_at

-- One entry for each member
pub ShowsAll : List MemberState → List MemberSnapshot → Type 0
ShowsAll [] [] = Unit {0}
ShowsAll [] (s ∷ ss) = ⊥
ShowsAll (m ∷ ms) [] = ⊥
ShowsAll (m ∷ ms) (s ∷ ss) = Shows m s × ShowsAll ms ss

-- No entry stands behind one whose name is greater.
pub IsByName : List MemberSnapshot → Type 0
IsByName [] = Unit {0}
IsByName (s ∷ ss) = All (λ (t : MemberSnapshot). str_ltb t.name s.name ≡ false) ss × IsByName ss

-- The entries show the members, each once, by name.
pub record IsListing (ms : List MemberState) (ss : List MemberSnapshot) : Type 0 where
  pub order : List MemberState
  pub rearranged : Perm ms order
  pub shown : ShowsAll order ss
  pub by_name : IsByName ss

member_snapshot-Shows : (m : MemberState) → Shows m (member_snapshot m)
unfolding member_snapshot
member_snapshot-Shows m = record {
  subscription_id = refl;
  node_id = refl;
  name = refl;
  status = refl;
  latency_ms = refl;
  passed_tests = refl;
  total_tests = refl;
  failures = refl;
  last_checked_at = refl;
  next_probe_at = refl;
}

insert_by_name-shown :
    (m : MemberState) (s : MemberSnapshot) (ms : List MemberState) (ss : List MemberSnapshot)
    → Shows m s
    → ShowsAll ms ss
    → (order : List MemberState) × Perm (m ∷ ms) order × ShowsAll order (insert_by_name s ss)
unfolding insert_by_name ShowsAll
insert_by_name-shown m s [] [] h k = (m ∷ [], Perm.refl (m ∷ []), (h, tt))
insert_by_name-shown m s [] (x ∷ xs) h k = absurd k
insert_by_name-shown m s (y ∷ ys) [] h k = absurd k
insert_by_name-shown m s (y ∷ ys) (x ∷ xs) h (e, k) = elim (Bool-cases (str_ltb x.name s.name)) [
  | inl c ↦
      let (order, p, all) = insert_by_name-shown m s ys xs h k in
      rw c (y ∷ order, Perm.trans (Perm.swap y m ys) (Perm.cons y p), (e, all))
  | inr c ↦ rw c (m ∷ y ∷ ys, Perm.refl (m ∷ y ∷ ys), (h, (e, k)))
]

insert_by_name-All :
    (P : MemberSnapshot → Type 0) (s : MemberSnapshot) (ss : List MemberSnapshot)
    → P s
    → All P ss
    → All P (insert_by_name s ss)
unfolding insert_by_name
insert_by_name-All P s [] h k = (h, tt)
insert_by_name-All P s (x ∷ xs) h k = elim (Bool-cases (str_ltb x.name s.name)) [
  | inl c ↦ rw c (k.0, insert_by_name-All P s xs h k.1)
  | inr c ↦ rw c (h, k)
]

-- What is not before `b`, which is not before `a`, is not before `a`.
not_before : (a b c : String) → str_ltb b a ≡ false → str_ltb c b ≡ false → str_ltb c a ≡ false
not_before a b c h k = elim (Bool-cases (str_ltb c a)) [
  | inr e ↦ e
  | inl e ↦ elim (Bool-cases (str_ltb b c)) [
    | inl f ↦ let t = str_ltb_trans b c a f e in absurd (ground arith)
    | inr f ↦ let t = str_ltb_total c b k f in absurd (grind arith)
  ]
]

all_not_before :
    (a b : String) (ss : List MemberSnapshot)
    → str_ltb b a ≡ false
    → All (λ (t : MemberSnapshot). str_ltb t.name b ≡ false) ss
    → All (λ (t : MemberSnapshot). str_ltb t.name a ≡ false) ss
all_not_before a b [] h k = tt
all_not_before a b (t ∷ ts) h k = (not_before a b t.name h k.0, all_not_before a b ts h k.1)

insert_by_name-IsByName :
    (s : MemberSnapshot) (ss : List MemberSnapshot) → IsByName ss → IsByName (insert_by_name s ss)
unfolding insert_by_name IsByName
insert_by_name-IsByName s [] k = (tt, tt)
insert_by_name-IsByName s (x ∷ xs) k = elim (Bool-cases (str_ltb x.name s.name)) [
  | inl c ↦ rw c (
    insert_by_name-All (λ (t : MemberSnapshot). str_ltb t.name x.name ≡ false) s xs
        (str_ltb_asym x.name s.name c) k.0,
    insert_by_name-IsByName s xs k.1,
  )
  | inr c ↦ rw c ((c, all_not_before s.name x.name xs c k.0), k)
]

-- The list that is published is one of the members.
pub sort_by_name-IsListing :
    (ms : List MemberState) → IsListing ms (sort_by_name (map member_snapshot ms))
unfolding sort_by_name ShowsAll IsByName
sort_by_name-IsListing [] = record {
  order = [];
  rearranged = Perm.refl [];
  shown = tt;
  by_name = tt;
}
sort_by_name-IsListing (m ∷ ms) =
    let ih = sort_by_name-IsListing ms in
    let (order, p, all) =
      insert_by_name-shown m (member_snapshot m) ih.order (sort_by_name (map member_snapshot ms))
        (member_snapshot-Shows m) ih.shown in
    record {
      order = order;
      rearranged = Perm.trans (Perm.cons m ih.rearranged) p;
      shown = all;
      by_name =
          insert_by_name-IsByName (member_snapshot m) (sort_by_name (map member_snapshot ms))
            ih.by_name;
    }
