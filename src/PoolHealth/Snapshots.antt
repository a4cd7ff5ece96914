-- ===== src/PoolHealth/Snapshots.antt =====
-- `updateSnapshotLocked`: the published view of the monitor's state. `sort.Slice` is an insertion sort
-- here; it leaves the order of members that share a name open, and so does every theorem.
pub mod Listed
pub mod InStep
use sing_box_webui.Prelude.{
  ℕ, suc, String, Bool, true, false, not, ◌&&◌, List, [], ◌∷◌, Option, none, some, ltb,
  if◌then◌else◌, length, map, str_eq, str_ltb,
}
use sing_box_webui.Prelude.Int.{ℤ}
use sing_box_webui.PoolHealth.Model.{
  Status, unknown, healthy, degraded, outage, same_status, Config, MemberState, MemberSnapshot,
  Snapshot,
}

-- The fields of `Manager`; `running` says that `cancel` and `done` are set, and the API client is the
-- address and secret of `config`.
pub record Monitor : Type 0 where
  pub running : Bool
  pub config : Config
  pub members : List MemberState
  pub selected : String
  pub snapshot : Snapshot
  pub last_activity_at : ℤ
  pub last_upload : ℤ
  pub last_download : ℤ
  pub idle : Bool
  pub connections : ℕ
  pub traffic_at : Option ℤ
  pub dormant_probe_at : Option ℤ

pub member_snapshot : MemberState → MemberSnapshot
member_snapshot m = record {
  subscription_id = m.target.subscription_id;
  node_id = m.target.node_id;
  name = m.target.name;
  status = m.status;
  latency_ms = m.latency_ms;
  passed_tests = m.passed_tests;
  total_tests = m.total_tests;
  failures = m.failures;
  last_checked_at = m.last_checked_at;
  next_probe_at = m.next_probe_at;
}

pub count_status : Status → List MemberState → ℕ
count_status s [] = 0
count_status s (m ∷ ms) =
    if same_status m.status s then suc (count_status s ms) else count_status s ms

-- The last member of the iteration whose tag is the selected one.
selected_target : String → String × String → List MemberState → String × String
selected_target tag found [] = found
selected_target tag found (m ∷ ms) =
    selected_target tag
      (if str_eq m.target.tag tag then (m.target.node_id, m.target.name) else found) ms

insert_by_name : MemberSnapshot → List MemberSnapshot → List MemberSnapshot
insert_by_name m [] = m ∷ []
insert_by_name m (x ∷ xs) =
    let rest = insert_by_name m xs in if str_ltb x.name m.name then x ∷ rest else m ∷ x ∷ xs

pub sort_by_name : List MemberSnapshot → List MemberSnapshot
sort_by_name [] = []
sort_by_name (m ∷ ms) = insert_by_name m (sort_by_name ms)

-- `checkedAt.IsZero()`
abbrev pub is_zero : Option ℤ → Bool
is_zero none = true
is_zero (some t) = false

-- The chain of tests that sets `snapshot.State`.
pub overall_state : String → Option ℤ → ℕ → ℕ → ℕ → Status
overall_state last_error checked_at healthy_count degraded_count members =
    if not (str_eq last_error "")
    then degraded
    else if ltb 0 healthy_count
    then healthy
    else if ltb 0 degraded_count
    then degraded
    else if ltb 0 members && is_zero checked_at
    then unknown
    else if ltb 0 members
    then outage
    else unknown

pub make_snapshot : String → Option ℤ → Monitor → Snapshot
unfolding selected_target sort_by_name insert_by_name
make_snapshot last_error checked_at m =
    let chosen = selected_target m.selected ("", "") m.members in
    record {
      state =
          overall_state last_error checked_at (count_status healthy m.members)
            (count_status degraded m.members) (length m.members);
      selected_node_id = chosen.0;
      selected_name = chosen.1;
      healthy_count = count_status healthy m.members;
      degraded_count = count_status degraded m.members;
      members = sort_by_name (map member_snapshot m.members);
      last_checked_at = checked_at;
      last_error = last_error;
      idle = m.idle;
      upload_total = m.last_upload;
      download_total = m.last_download;
      connections = m.connections;
      traffic_at = m.traffic_at;
    }

abbrev pub update_snapshot : String → Option ℤ → Monitor → Monitor
update_snapshot last_error checked_at m = record m {
  snapshot = make_snapshot last_error checked_at m;
}

-- `setError`, at the time `now`.
abbrev pub set_error : String → ℤ → Monitor → Monitor
set_error message now m = update_snapshot message (some now) m
