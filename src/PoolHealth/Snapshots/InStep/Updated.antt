-- ===== src/PoolHealth/Snapshots/InStep/Updated.antt =====
-- `updateSnapshotLocked` and the state that its snapshot shows.
use sing_box_webui.Prelude.{
  ℕ, String, ◌≡◌, refl, sym, ap, ◌∙◌, arith, Bool, true, false, ◌&&◌, ◌⊎◌, inl, inr, List, [], ◌∷◌,
  Option, none, Bool-cases, ltb, length, str_eq, eq_iff, if◌then◌else◌,
}
use sing_box_webui.Prelude.Int.{ℤ}
use sing_box_webui.PoolHealth.Model.{
  Status, unknown, healthy, degraded, quarantined, outage, same_status, MemberState,
}
use sing_box_webui.PoolHealth.Snapshots.{
  Monitor, count_status, selected_target, is_zero, overall_state, make_snapshot, update_snapshot,
}
use sing_box_webui.PoolHealth.Snapshots.Listed.{sort_by_name-IsListing}
use sing_box_webui.PoolHealth.Snapshots.InStep.{Counts, Has, IsChosen, IsAbsent, IsState, IsInStep}

of_healthy : (a : Status) → same_status a healthy ≡ true → a ≡ healthy
of_healthy unknown h = absurd (ground arith)
of_healthy healthy h = refl
of_healthy degraded h = absurd (ground arith)
of_healthy quarantined h = absurd (ground arith)
of_healthy outage h = absurd (ground arith)

of_degraded : (a : Status) → same_status a degraded ≡ true → a ≡ degraded
of_degraded unknown h = absurd (ground arith)
of_degraded healthy h = absurd (ground arith)
of_degraded degraded h = refl
of_degraded quarantined h = absurd (ground arith)
of_degraded outage h = absurd (ground arith)

count_status-Counts :
    (s : Status)
    → ((a : Status) → same_status a s ≡ true → a ≡ s)
    → same_status s s ≡ true
    → (ms : List MemberState) → Counts s ms (count_status s ms)
unfolding count_status Counts
count_status-Counts s f r [] = refl
count_status-Counts s f r (m ∷ ms) = elim (Bool-cases (same_status m.status s)) [
  | inl e ↦ rw e (inl (f m.status e, count_status s ms, refl, count_status-Counts s f r ms))
  | inr e ↦ rw e (
      inr (
        (λ k. let t = sym (ap (λ (a : Status). same_status a s) k) ∙ e in absurd (ground arith)),
        count_status-Counts s f r ms,
      ))
]

Counts-some :
    (s : Status) (ms : List MemberState) (n : ℕ) → Counts s ms n → Has s ms → ltb 0 n ≡ true
unfolding Counts Has
Counts-some s [] n c h = absurd h
Counts-some s (m ∷ ms) n (inl (e, k, q, c)) h = ground arith
Counts-some s (m ∷ ms) n (inr (d, c)) (inl e) = absurd (d e)
Counts-some s (m ∷ ms) n (inr (d, c)) (inr h) = Counts-some s ms n c h

Counts-none :
    (s : Status) (ms : List MemberState) (n : ℕ) → Counts s ms n → (Has s ms → ⊥) → ltb 0 n ≡ false
unfolding Counts Has
Counts-none s [] n c h = ground arith
Counts-none s (m ∷ ms) n (inl (e, k, q, c)) h = absurd (h (inl e))
Counts-none s (m ∷ ms) n (inr (d, c)) h = Counts-none s ms n c (λ k. h (inr k))

length-some : (ms : List MemberState) → (ms ≡ [] → ⊥) → ltb 0 (length ms) ≡ true
length-some [] h = absurd (h refl)
length-some (m ∷ ms) h = ground arith

str_eq-differs : (a b : String) → (a ≡ b → ⊥) → str_eq a b ≡ false
str_eq-differs a b h = elim (Bool-cases (str_eq a b)) [
  | inl e ↦ absurd (h ((eq_iff a b).0 e))
  | inr e ↦ e
]

make_snapshot-IsState :
    (e : String) (t : Option ℤ) (m : Monitor) → IsState m.members (make_snapshot e t m)
unfolding make_snapshot overall_state count_status
make_snapshot-IsState e t m =
    let h = count_status-Counts healthy of_healthy refl m.members in
    let d = count_status-Counts degraded of_degraded refl m.members in
    record {
      after_error = λ k. rw (str_eq-differs e "" k) refl;
      some_healthy = λ k a. rw ((eq_iff e "").1 k, Counts-some healthy m.members _ h a) refl;
      some_degraded = λ k a b.
          rw
            (
              (eq_iff e "").1 k,
              Counts-none healthy m.members _ h a,
              Counts-some degraded m.members _ d b,
            )
            refl;
      all_down = λ i k a b c f.
          rw
            (
              (eq_iff e "").1 k,
              Counts-none healthy m.members _ h a,
              Counts-none degraded m.members _ d b,
              length-some m.members c,
              f,
            )
            refl;
      no_members = λ k a. rw ((eq_iff e "").1 k, a) refl;
      not_checked = λ k a b f.
          rw
            (
              (eq_iff e "").1 k,
              Counts-none healthy m.members _ h a,
              Counts-none degraded m.members _ d b,
              f,
            )
            (unchecked (ltb 0 (length m.members)));
    }
  where
    unchecked :
        (b : Bool)
        → ◌≡◌ {A = Status}
            (if b && is_zero none then unknown else if b then outage else unknown)
            unknown
    unchecked true = refl
    unchecked false = refl

later :
    (tag id name : String) (m : MemberState) (ms : List MemberState)
    → IsChosen tag ms id name
    → IsChosen tag (m ∷ ms) id name
later tag id name m ms c = record {
  member = c.member;
  among = inr c.among;
  tagged = c.tagged;
  same_id = c.same_id;
  same_name = c.same_name;
}

-- The search finds a member, or no member has the tag and it returns what it started with.
Finds : String → String × String → List MemberState → String × String → Type 0
Finds tag found ms r =
    IsChosen tag ms r.0 r.1 ⊎ (IsAbsent tag ms × (r.0 ≡ found.0) × (r.1 ≡ found.1))

Finds-here :
    (tag : String) (found r : String × String) (m : MemberState) (ms : List MemberState)
    → m.target.tag ≡ tag
    → Finds tag (m.target.node_id, m.target.name) ms r
    → Finds tag found (m ∷ ms) r
unfolding Finds
Finds-here tag found r m ms e (inl c) = inl (later tag r.0 r.1 m ms c)
Finds-here tag found r m ms e (inr (a, p, q)) =
    inl (record { member = m; among = inl refl; tagged = e; same_id = p; same_name = q })

Finds-there :
    (tag : String) (found r : String × String) (m : MemberState) (ms : List MemberState)
    → str_eq m.target.tag tag ≡ false
    → Finds tag found ms r
    → Finds tag found (m ∷ ms) r
unfolding Finds
Finds-there tag found r m ms e (inl c) = inl (later tag r.0 r.1 m ms c)
Finds-there tag found r m ms e (inr (a, p, q)) =
    inr (((λ k. let t = (eq_iff m.target.tag tag).1 k in absurd (ground arith)), a), p, q)

selected_target-Finds :
    (tag : String) (found : String × String) (ms : List MemberState)
    → Finds tag found ms (selected_target tag found ms)
unfolding selected_target Finds
selected_target-Finds tag found [] = inr (tt, refl, refl)
selected_target-Finds tag found (m ∷ ms) =
    step (λ f. selected_target-Finds tag f ms) (str_eq m.target.tag tag) refl
  where
    step :
        ((f : String × String) → Finds tag f ms (selected_target tag f ms))
        → (b : Bool) → str_eq m.target.tag tag ≡ b
        → Finds tag found
            (m ∷ ms)
            (selected_target tag (if b then (m.target.node_id, m.target.name) else found) ms)
    step ih true e =
        let own : String × String = (m.target.node_id, m.target.name) in
        Finds-here tag found (selected_target tag own ms) m ms ((eq_iff m.target.tag tag).0 e)
          (ih own)
    step ih false e = Finds-there tag found (selected_target tag found ms) m ms e (ih found)

-- What `updateSnapshotLocked` publishes is in step with the state.
pub updated : (e : String) (t : Option ℤ) (m : Monitor) → IsInStep (update_snapshot e t m)
unfolding make_snapshot
updated e t m = record {
  healthy_members = count_status-Counts healthy of_healthy refl m.members;
  degraded_members = count_status-Counts degraded of_degraded refl m.members;
  listing = sort_by_name-IsListing m.members;
  state_shown = make_snapshot-IsState e t m;
  selected_node = unfold Finds in selected_target-Finds m.selected ("", "") m.members;
  idle_shown = refl;
  upload_shown = refl;
  download_shown = refl;
  connections_shown = refl;
  traffic_at_shown = refl;
}
