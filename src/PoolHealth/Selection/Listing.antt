-- ===== src/PoolHealth/Selection/Listing.antt =====
-- A Go map lists its entries in an unspecified order: the selection does not depend on it.
use mathlib.Core.Path.{subst}
use sing_box_webui.Prelude.{
  String, ◌≡◌, ◌≢◌, refl, sym, ap, ◌∙◌, ◌↔◌, inl, inr, List, [], ◌∷◌, Option, none, some,
  Bool-cases, Among, str_eq, eq_iff,
}
use sing_box_webui.PoolHealth.Model.{Config, MemberState}
use sing_box_webui.PoolHealth.Selection.{
  candidates, sort_ranked, find_member, choose, choose_first, best_selection,
}
use sing_box_webui.PoolHealth.Selection.Ranking.{
  key, key_order, NotBefore, Sorts, sort_candidates, Among-candidates, candidates-Among, All-Among,
}
use sing_box_webui.PoolHealth.Selection.Choice.{find_member-Among}

-- A tag has one state: the members are the values of a map that the tags key.
abbrev pub TagsKey : List MemberState → Type 0
TagsKey ms = (a b : MemberState) → Among a ms → Among b ms → a.target.tag ≡ b.target.tag → a ≡ b

-- Two listings of the same map.
abbrev pub SameMembers : List MemberState → List MemberState → Type 0
SameMembers xs ys = (m : MemberState) → Among m xs ↔ Among m ys

find_member-none :
    (tag : String) (ms : List MemberState) (m : MemberState)
    → find_member tag ms ≡ none
    → Among m ms
    → m.target.tag ≢ tag
unfolding find_member
find_member-none tag [] m h w e = absurd w
find_member-none tag (x ∷ xs) m h (inl p) e =
    cc (h, (eq_iff x.target.tag tag).1 (ap (λ (y : MemberState). y.target.tag) (sym p) ∙ e))
find_member-none tag (x ∷ xs) m h (inr w) e = elim (Bool-cases (str_eq x.target.tag tag)) [
  | inl t ↦ let h' : some x ≡ none = rw t at h in cc h'
  | inr t ↦ find_member-none tag xs m (rw t at h) w e
]

module _ (xs ys : List MemberState) (same : SameMembers xs ys) (keyed : TagsKey ys) where
  find_member_same :
      (tag : String) (o p : Option MemberState)
      → find_member tag xs ≡ o
      → find_member tag ys ≡ p
      → o ≡ p
  find_member_same tag none none h k = refl
  find_member_same tag none (some b) h k =
      let w = find_member-Among tag ys b k in
      absurd (find_member-none tag xs b h ((same b).1 w.0) w.1)
  find_member_same tag (some a) none h k =
      let w = find_member-Among tag xs a h in
      absurd (find_member-none tag ys a k ((same a).0 w.0) w.1)
  find_member_same tag (some a) (some b) h k =
      let w = find_member-Among tag xs a h in
      let v = find_member-Among tag ys b k in
      ap some (keyed a b ((same a).0 w.0) v.0 (w.1 ∙ sym v.1))

  Among-candidates_same : (m : MemberState) → Among m (candidates xs) → Among m (candidates ys)
  Among-candidates_same m w =
      let c = Among-candidates m xs w in candidates-Among m ys ((same m).0 c.0) c.1

  candidates_same-Among : (m : MemberState) → Among m (candidates ys) → Among m (candidates xs)
  candidates_same-Among m w =
      let c = Among-candidates m ys w in candidates-Among m xs ((same m).1 c.0) c.1

  choose_first_same :
      (config : Config) (o : Option MemberState) (s t : List MemberState)
      → Sorts xs s
      → Sorts ys t
      → choose_first config o s ≡ choose_first config o t
  unfolding choose_first
  choose_first_same config o [] [] h k = refl
  choose_first_same config o [] (b ∷ t) h k =
      absurd (subst (Among b) h (candidates_same-Among b k.0))
  choose_first_same config o (a ∷ s) [] h k =
      absurd (subst (Among a) k (Among-candidates_same a h.0))
  choose_first_same config o (a ∷ s) (b ∷ t) h k = ap (choose config o) (keyed a b in_a in_b tags)
    where
      in_a : Among a ys
      in_a = (Among-candidates a ys (Among-candidates_same a h.0)).0

      in_b : Among b ys
      in_b = (Among-candidates b ys k.0).0

      keys : key a ≡ key b
      keys =
          key_order.total (key a) (key b)
            (All-Among (NotBefore b) a (candidates ys) k.1 (Among-candidates_same a h.0))
            (All-Among (NotBefore a) b (candidates xs) h.1 (candidates_same-Among b k.0))

      tags : a.target.tag ≡ b.target.tag
      tags = ap (λ k. k.1.1.1) keys

  -- Two listings of the same members, whose tags tell them apart, give the same selection.
  pub best_selection_listing :
      (config : Config) (tag : String) → best_selection config tag xs ≡ best_selection config tag ys
  unfolding best_selection
  best_selection_listing config tag =
      rw (find_member_same tag (find_member tag xs) (find_member tag ys) refl refl) (
        choose_first_same config (find_member tag ys) (sort_ranked (candidates xs))
          (sort_ranked (candidates ys)) (sort_candidates xs) (sort_candidates ys))
