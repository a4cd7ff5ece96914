-- ===== src/PoolHealth/Model.antt =====
-- The types and constants of internal/poolhealth/manager.go.
use sing_box_webui.Prelude.{ℕ, ◌*◌, String, Bool, true, false, Option, List}
use sing_box_webui.Prelude.Int.{ℤ, pos}

pub data Status : Type 0 where
  unknown healthy degraded quarantined outage : Status

-- Equality of status strings.
abbrev pub same_status : Status → Status → Bool
same_status unknown unknown = true
same_status healthy healthy = true
same_status degraded degraded = true
same_status quarantined quarantined = true
same_status outage outage = true
same_status _ _ = false

-- Durations are in nanoseconds.
abbrev pub second : ℕ
second = 1_000_000_000

abbrev pub millisecond : ℕ
millisecond = 1_000_000

abbrev pub fast_retry : ℤ
fast_retry = pos second

abbrev pub initial_backoff : ℤ
initial_backoff = pos (15 * second)

pub record Target : Type 0 where
  pub tag : String
  pub subscription_id : String
  pub node_id : String
  pub name : String

pub record Config : Type 0 where
  pub address : String
  pub secret : String
  pub selector_tag : String
  pub probe_urls : List String
  pub interval : ℤ
  pub tolerance : ℤ
  pub idle_timeout : ℤ
  pub high_latency_threshold : ℤ
  pub consecutive_failures : ℤ
  pub recovery_successes : ℤ
  pub max_backoff : ℤ
  pub targets : List Target

pub record MemberSnapshot : Type 0 where
  pub subscription_id : String
  pub node_id : String
  pub name : String
  pub status : Status
  pub latency_ms : ℤ
  pub passed_tests : ℕ
  pub total_tests : ℕ
  pub failures : ℕ
  pub last_checked_at : Option ℤ
  pub next_probe_at : Option ℤ

pub record Snapshot : Type 0 where
  pub state : Status
  pub selected_node_id : String
  pub selected_name : String
  pub healthy_count : ℕ
  pub degraded_count : ℕ
  pub members : List MemberSnapshot
  pub last_checked_at : Option ℤ
  pub last_error : String
  pub idle : Bool
  pub upload_total : ℤ
  pub download_total : ℤ
  pub connections : ℕ
  pub traffic_at : Option ℤ

pub record MemberState : Type 0 where
  pub target : Target
  pub status : Status
  pub latency_ms : ℤ
  pub passed_tests : ℕ
  pub total_tests : ℕ
  pub failures : ℕ
  pub recovery_successes : ℕ
  pub last_checked_at : Option ℤ
  pub next_probe_at : Option ℤ

pub record ProbeResult : Type 0 where
  pub tag : String
  pub successes : ℕ
  pub total : ℕ
  pub latency_ms : ℤ
