-- ===== src/NodePool/Model.antt =====
-- The types and constants of internal/nodepool/manager.go. An input field of a pointer type is `none`
-- where the pointer is nil. A nil list of fallback URLs and an empty one are both `[]`.
use sing_box_webui.Prelude.{ℕ, String, Bool, List, Option}
use sing_box_webui.Prelude.Int.{ℤ, pos}

abbrev pub default_probe_interval_seconds : ℤ
default_probe_interval_seconds = pos 60

abbrev pub default_tolerance_ms : ℤ
default_tolerance_ms = pos 80

abbrev pub default_probe_url : String
default_probe_url = "https://cp.cloudflare.com/generate_204"

abbrev pub default_idle_timeout_seconds : ℤ
default_idle_timeout_seconds = pos 1800

abbrev pub default_high_latency_ms : ℤ
default_high_latency_ms = pos 3000

abbrev pub default_consecutive_failures : ℤ
default_consecutive_failures = pos 2

abbrev pub default_recovery_successes : ℤ
default_recovery_successes = pos 2

abbrev pub default_max_backoff_seconds : ℤ
default_max_backoff_seconds = pos 300

abbrev pub max_fallback_probe_urls : ℕ
max_fallback_probe_urls = 4

abbrev pub max_members : ℕ
max_members = 128

pub record Member : Type 0 where
  pub subscription_id : String
  pub node_id : String

pub record Pool : Type 0 where
  pub id : String
  pub name : String
  pub members : List Member
  pub probe_interval_seconds : ℤ
  pub tolerance_ms : ℤ
  pub probe_url : String
  pub fallback_probe_urls : List String
  pub idle_timeout_seconds : ℤ
  pub high_latency_threshold_ms : ℤ
  pub consecutive_failures : ℤ
  pub recovery_successes : ℤ
  pub max_backoff_seconds : ℤ
  pub interrupt_existing_connections : Bool
  pub created_at : ℤ
  pub updated_at : ℤ

pub record CreateInput : Type 0 where
  pub name : String
  pub members : List Member
  pub probe_interval_seconds : ℤ
  pub tolerance_ms : ℤ
  pub probe_url : String
  pub fallback_probe_urls : List String
  pub idle_timeout_seconds : ℤ
  pub high_latency_threshold_ms : ℤ
  pub consecutive_failures : ℤ
  pub recovery_successes : ℤ
  pub max_backoff_seconds : ℤ
  pub interrupt_existing_connections : Bool

pub record UpdateInput : Type 0 where
  pub name : Option String
  pub members : Option (List Member)
  pub probe_interval_seconds : Option ℤ
  pub tolerance_ms : Option ℤ
  pub probe_url : Option String
  pub fallback_probe_urls : Option (List String)
  pub idle_timeout_seconds : Option ℤ
  pub high_latency_threshold_ms : Option ℤ
  pub consecutive_failures : Option ℤ
  pub recovery_successes : Option ℤ
  pub max_backoff_seconds : Option ℤ
  pub interrupt_existing_connections : Option Bool

pub record MemberView : Type 0 where
  pub subscription_id : String
  pub subscription_name : String
  pub node_id : String
  pub node_name : String
  pub type : String
  pub server : String
  pub port : ℕ
  pub available : Bool

pub record View : Type 0 where
  pub pool : Pool
  pub members : List MemberView
  pub member_count : ℕ
  pub available_count : ℕ

pub data PoolError : Type 0 where
  not_found bad_name too_many_members bad_interval bad_tolerance bad_member : PoolError
  bad_probe_url bad_idle_timeout interval_exceeds_idle too_many_urls bad_fallback_url : PoolError
  bad_high_latency bad_failures bad_recovery bad_backoff : PoolError
  member_unavailable order_incomplete order_unknown order_duplicate : PoolError
  too_few_members not_saved : PoolError
