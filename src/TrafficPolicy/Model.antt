-- ===== src/TrafficPolicy/Model.antt =====
-- The types of internal/trafficpolicy/manager.go, and those of internal/control/service.go that it
-- reads and sends. A zero time is `none`, a time is in nanoseconds.
use sing_box_webui.Prelude.{String, Bool, List, Option}
use sing_box_webui.Prelude.Int.{ℤ}
use sing_box_webui.Supervisor

pub data State : Type 0 where
  disabled waiting monitoring triggering active recovering cooldown failed : State

pub record Config : Type 0 where
  pub enabled : Bool
  pub download_pool_id : String
  pub trigger_rate : ℤ
  pub trigger_duration : ℤ
  pub release_rate : ℤ
  pub release_duration : ℤ
  pub cooldown_seconds : ℤ

pub record Event : Type 0 where
  pub timestamp : ℤ
  pub type : String
  pub message : String

-- control.ApplyInput
pub record ApplyInput : Type 0 where
  pub subscription_id : String
  pub node_id : String
  pub pool_id : String
  pub chain_id : String
  pub direct : Bool
  pub mode : String
  pub allow_lan : Bool

-- What the policy reads of the traffic of `poolhealth.Snapshot`.
pub record Traffic : Type 0 where
  pub download_total : ℤ
  pub traffic_at : Option ℤ
  pub connections : ℤ

-- What the policy reads of `control.Runtime`.
pub record Runtime : Type 0 where
  pub state : Supervisor.State
  pub mode : String
  pub target_type : String
  pub pool_id : String
  pub pool_name : String
  pub allow_lan : Bool
  pub pool_health : Option Traffic

-- `Manager` with its snapshot, whose configuration is a copy of the manager's, and the file.
pub record Manager : Type 0 where
  pub config : Config
  pub shown_config : Config
  pub disk : Config
  pub state : State
  pub current_download_bps : ℤ
  pub active_connections : ℤ
  pub trigger_progress : ℤ
  pub release_progress : ℤ
  pub original_pool_id : String
  pub original_pool_name : String
  pub activated_at : Option ℤ
  pub cooldown_until : Option ℤ
  pub last_error : String
  pub events : List Event
  pub original : ApplyInput
  pub last_total : ℤ
  pub last_sample : Option ℤ
  pub above_since : Option ℤ
  pub below_since : Option ℤ

-- A call of `Apply` that is under way, with the lock released: the switch to the download pool, its
-- rollback after an error, the return after the traffic has dropped, and the return because the policy
-- was disabled. The time is that of the tick.
pub data Flight : Type 0 where
  switches : ℤ → ApplyInput → Flight
  rolls_back : ℤ → String → ApplyInput → Flight
  returns : ℤ → ApplyInput → Flight
  disables : ApplyInput → Flight
