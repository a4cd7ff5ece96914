-- ===== src/NodePool/Validate/Valid.antt =====
-- The pools that `validatePool` returns: `IsValid` states it field by field.
use sing_box_webui.Prelude.{
  ℕ, ◌≤◌, String, ◌≡◌, refl, false, ◌||◌, List, [], ◌∷◌, arith, ltb, length, has, Bool-cases, inl,
  inr, str_eq, trim_space, trim_space_idem, Result, ok, err, ◌>>=◌,
}
use sing_box_webui.Prelude.Int.{ℤ, pos, ◌≤ℤ◌}
use sing_box_webui.NodePool.Model.{
  Member, PoolError, default_probe_interval_seconds, default_tolerance_ms, max_members,
}
use sing_box_webui.NodePool.Validate.{
  Basics, member_key, trim_member, clean_members, or_default, outside, bad_length, validate,
}

abbrev pub InRange : ℤ → ℕ → ℕ → Type 0
InRange v low high = (pos low ≤ℤ v) × (v ≤ℤ pos high)

-- Trimmed, with no empty part, and with keys that differ from those seen and from one another.
abbrev pub IsClean : List String → List Member → Type 0
IsClean seen [] = Unit
IsClean seen (m ∷ ms) =
    (trim_member m ≡ m)
    × ((str_eq m.subscription_id "" || str_eq m.node_id "") ≡ false)
    × (has (member_key m) seen ≡ false)
    × IsClean (member_key m ∷ seen) ms

pub validate-ok :
    (name : String) (members : List Member) (i t : ℤ) (b : Basics)
    → validate name members i t ≡ ok b
    → (bad_length b.name ≡ false)
      × (b.name ≡ trim_space name)
      × (ltb max_members (length members) ≡ false)
      × (b.interval ≡ or_default i default_probe_interval_seconds)
      × (outside b.interval 15 3600 ≡ false)
      × (b.tolerance ≡ or_default t default_tolerance_ms)
      × (outside b.tolerance 0 1000 ≡ false)
      × (clean_members [] members ≡ ok b.members)
unfolding validate
validate-ok name members i t b h = ground arith

trim_member_idem : (m : Member) → trim_member (trim_member m) ≡ trim_member m
unfolding trim_member
trim_member_idem m = rw (trim_space_idem m.subscription_id, trim_space_idem m.node_id)

abbrev pub Cleaned : List String → List Member → List Member → Type 0
Cleaned seen ms out = IsClean seen out × (length out ≤ length ms)

pub clean_members-Cleaned :
    (seen : List String) (ms out : List Member)
    → clean_members seen ms ≡ ok out
    → Cleaned seen ms out
unfolding clean_members
clean_members-Cleaned seen [] [] = λ h. (tt, omega arith)
clean_members-Cleaned seen [] (o ∷ out) = λ h. cc h
clean_members-Cleaned seen (m ∷ ms) out =
    elim (Bool-cases (str_eq c.subscription_id "" || str_eq c.node_id "")) [
      | inl e ↦ rw e (λ h. cc h)
      | inr e ↦ elim (Bool-cases (has (member_key c) seen)) [
        | inl d ↦ rw (e, d) (λ h. let r = clean_members-Cleaned seen ms out h in (r.0, omega arith))
        | inr d ↦
            rw (e, d)
              (kept (clean_members (member_key c ∷ seen) ms) out e d
                (clean_members-Cleaned (member_key c ∷ seen) ms))
      ]
    ]
  where
    c : Member
    c = trim_member m

    kept :
        (r : Result PoolError (List Member)) (out : List Member)
        → (str_eq c.subscription_id "" || str_eq c.node_id "") ≡ false
        → has (member_key c) seen ≡ false
        → ((rest : List Member) → r ≡ ok rest → Cleaned (member_key c ∷ seen) ms rest)
        → (r >>= λ rest. ok (c ∷ rest)) ≡ ok out
        → Cleaned seen (m ∷ ms) out
    kept (err x) out e d ih h = cc
    kept (ok rest) out e d ih h =
        let p : c ∷ rest ≡ out = cc h in
        let r = ih rest refl in rw (← p) ((trim_member_idem m, e, d, r.0), omega (arith, r.1))

pub IsClean-clean_members :
    (seen : List String) (ms : List Member) → IsClean seen ms → clean_members seen ms ≡ ok ms
unfolding clean_members
IsClean-clean_members seen [] h = refl
IsClean-clean_members seen (m ∷ ms) h =
    rw (h.0, h.1, h.2, IsClean-clean_members (member_key m ∷ seen) ms h.3)
