-- ===== src/PoolHealth/Snapshots/InStep.antt =====
-- What a published snapshot says of the monitor's state.
pub mod Updated
use sing_box_webui.Prelude.{
  ℕ, suc, String, ◌≡◌, Bool, ◌⊎◌, List, [], ◌∷◌, Option, none, some, All, Among,
}
use sing_box_webui.Prelude.Int.{ℤ}
use sing_box_webui.PoolHealth.Model.{
  Status, unknown, healthy, degraded, outage, MemberState, Snapshot,
}
use sing_box_webui.PoolHealth.Snapshots.{Monitor}
use sing_box_webui.PoolHealth.Snapshots.Listed.{IsListing}

-- This many members have the status.
pub Counts : Status → List MemberState → ℕ → Type 0
Counts s [] n = n ≡ 0
Counts s (m ∷ ms) n =
    ((m.status ≡ s) × (k : ℕ) × (n ≡ suc k) × Counts s ms k) ⊎ ((m.status ≡ s → ⊥) × Counts s ms n)

-- Some member has the status.
pub Has : Status → List MemberState → Type 0
Has s [] = ⊥
Has s (m ∷ ms) = (m.status ≡ s) ⊎ Has s ms

-- The node is that of one of the members, which has the tag.
pub record IsChosen (tag : String) (ms : List MemberState) (id name : String) : Type 0 where
  pub member : MemberState
  pub among : Among member ms
  pub tagged : member.target.tag ≡ tag
  pub same_id : id ≡ member.target.node_id
  pub same_name : name ≡ member.target.name

-- No member has the tag.
abbrev pub IsAbsent : String → List MemberState → Type 0
IsAbsent tag ms = All (λ (m : MemberState). m.target.tag ≡ tag → ⊥) ms

-- The node is that of a member with the tag, or empty where no member has it.
abbrev pub IsSelected : String → List MemberState → String → String → Type 0
IsSelected tag ms id name = IsChosen tag ms id name ⊎ (IsAbsent tag ms × (id ≡ "") × (name ≡ ""))

-- The state that the snapshot gives the pool.
pub record IsState (ms : List MemberState) (s : Snapshot) : Type 0 where
  pub after_error : (s.last_error ≡ "" → ⊥) → s.state ≡ degraded
  pub some_healthy : s.last_error ≡ "" → Has healthy ms → s.state ≡ healthy
  pub some_degraded :
      s.last_error ≡ "" → (Has healthy ms → ⊥) → Has degraded ms → s.state ≡ degraded
  pub all_down :
      (t : ℤ)
      → s.last_error ≡ ""
      → (Has healthy ms → ⊥)
      → (Has degraded ms → ⊥)
      → (ms ≡ [] → ⊥)
      → s.last_checked_at ≡ some t
      → s.state ≡ outage
  pub no_members : s.last_error ≡ "" → ms ≡ [] → s.state ≡ unknown
  pub not_checked :
      s.last_error ≡ ""
      → (Has healthy ms → ⊥)
      → (Has degraded ms → ⊥)
      → s.last_checked_at ≡ none
      → s.state ≡ unknown

-- The snapshot shows these members, this selected tag and these figures of the traffic.
pub record IsView (ms : List MemberState) (selected : String) (idle : Bool) (upload download : ℤ)
    (connections : ℕ) (traffic_at : Option ℤ) (s : Snapshot) : Type 0 where
  pub healthy_members : Counts healthy ms s.healthy_count
  pub degraded_members : Counts degraded ms s.degraded_count
  pub listing : IsListing ms s.members
  pub state_shown : IsState ms s
  pub selected_node : IsSelected selected ms s.selected_node_id s.selected_name
  pub idle_shown : s.idle ≡ idle
  pub upload_shown : s.upload_total ≡ upload
  pub download_shown : s.download_total ≡ download
  pub connections_shown : s.connections ≡ connections
  pub traffic_at_shown : s.traffic_at ≡ traffic_at

-- The published snapshot shows the state of the monitor.
abbrev pub IsInStep : Monitor → Type 0
IsInStep m =
    IsView m.members m.selected m.idle m.last_upload m.last_download m.connections m.traffic_at
      m.snapshot
