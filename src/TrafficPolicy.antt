-- ===== src/TrafficPolicy.antt =====
-- internal/trafficpolicy/manager.go: the policy that hands the traffic over to a download pool while
-- there is much of it. `rate_of` stands for the rate of some bytes over some nanoseconds, which the
-- code computes in floating point; `clock` is the time of an event. What is between two locks is one
-- step.
pub mod Model
pub mod Calls
pub mod Takeover
pub mod Runs
pub mod Examples
use Prim.Native.String.{◌++◌}
use sing_box_webui.Prelude.{
  ℕ, String, Bool, true, false, not, ◌&&◌, ◌||◌, List, [], ◌∷◌, Option, none, some, take,
  if◌then◌else◌, str_eq, leb, ltb, Result, ok, err,
}
use sing_box_webui.Prelude.Int.{ℤ, pos, ◌+ℤ◌, ◌-ℤ◌, ◌*ℤ◌, ltb_ℤ, leb_ℤ, quot_ℤ}
use sing_box_webui.Supervisor
use sing_box_webui.TrafficPolicy.Model.{
  State, disabled, waiting, monitoring, triggering, active, recovering, cooldown, failed, Config,
  Event, ApplyInput, Traffic, Runtime, Manager, Flight, switches, rolls_back, returns, disables,
}

abbrev pub second : ℕ
second = 1_000_000_000

abbrev pub is_active : State → Bool
is_active active = true
is_active _ = false

abbrev is_cooldown : State → Bool
is_cooldown cooldown = true
is_cooldown _ = false

-- Triggering or recovering: the policy is switching.
abbrev pub is_switching : State → Bool
is_switching triggering = true
is_switching recovering = true
is_switching _ = false

abbrev is_running : Supervisor.State → Bool
is_running Supervisor.State.running = true
is_running _ = false

abbrev pub no_apply : ApplyInput
no_apply = record {
  subscription_id = "";
  node_id = "";
  pool_id = "";
  chain_id = "";
  direct = false;
  mode = "";
  allow_lan = false;
}

-- addEventLocked
pub add_event : ℤ → String → String → Manager → Manager
add_event clock kind message m = record m {
  events = take 32 (record { timestamp = clock; type = kind; message = message } ∷ m.events);
}

-- resetRateLocked
pub reset_rate : Manager → Manager
reset_rate m = record m {
  last_total = pos 0;
  last_sample = none;
  above_since = none;
  below_since = none;
}

-- resetSamplesLocked
pub reset_samples : Manager → Manager
unfolding reset_rate
reset_samples m = record (reset_rate m) {
  original = no_apply;
  current_download_bps = pos 0;
  active_connections = pos 0;
  trigger_progress = pos 0;
  release_progress = pos 0;
}

-- finishCycleLocked
pub finish_cycle : ℤ → Manager → Manager
unfolding reset_samples
finish_cycle now m = reset_samples (record m {
  state = cooldown;
  cooldown_until = some (now +ℤ m.config.cooldown_seconds *ℤ pos second);
  activated_at = none;
  original_pool_id = "";
  original_pool_name = "";
})

-- failLocked
pub fail : ℤ → String → String → Manager → Manager
unfolding add_event reset_rate
fail clock message e m =
    reset_rate
      (add_event clock "error" (message ++ "：" ++ e) (record m { state = failed; last_error = e }))

-- Whole seconds since a time
seconds_since : ℤ → ℤ → ℤ
seconds_since now since = quot_ℤ (now -ℤ since) second

since_or : ℤ → Option ℤ → ℤ
since_or now none = now
since_or now (some t) = t

-- A sample: the total, its time and the connections, if the runtime is one that the policy watches.
pub sample_of : Runtime → Option (ℤ × ℤ × ℤ)
sample_of r =
    if is_running r.state && str_eq r.target_type "pool"
    then elim r.pool_health [
      | none ↦ none
      | some h ↦ elim h.traffic_at [
        | none ↦ none
        | some at ↦ some (h.download_total, at, h.connections)
      ]
    ]
    else none

pub is_cooling : ℤ → Option ℤ → Bool
is_cooling now none = false
is_cooling now (some t) = ltb_ℤ now t

-- No sample before, one that is not newer, or a total that has gone back
pub is_first : ℤ → ℤ → ℤ → Option ℤ → Bool
is_first total at last_total none = true
is_first total at last_total (some last) = not (ltb_ℤ last at) || ltb_ℤ total last_total

-- The part of `tick` for an active policy, once there is a rate
pub measured_release : ℤ → ℤ → Manager → Manager
unfolding since_or seconds_since
measured_release now rate m =
    if leb_ℤ rate m.config.release_rate
    then (let since = since_or now m.below_since in
        record m { below_since = some since; release_progress = seconds_since now since })
    else record m { below_since = none; release_progress = pos 0 }

pub release_step : ℤ → Manager → Manager × Option Flight
release_step now m =
    if leb_ℤ m.config.release_duration m.release_progress
    then (record m { state = recovering }, some (returns now m.original))
    else (m, none)

pub measured_trigger : ℤ → ℤ → Manager → Manager
unfolding since_or seconds_since
measured_trigger now rate m =
    if leb_ℤ m.config.trigger_rate rate
    then (let since = since_or now m.above_since in
        record m { above_since = some since; trigger_progress = seconds_since now since })
    else record m { above_since = none; trigger_progress = pos 0 }

pub trigger_step : ℤ → Runtime → Manager → Manager × Option Flight
trigger_step now r m =
    let here = record no_apply { mode = r.mode; pool_id = r.pool_id; allow_lan = r.allow_lan } in
    if ltb_ℤ m.trigger_progress m.config.trigger_duration then (m, none) else (
      record m {
        original = here;
        original_pool_id = r.pool_id;
        original_pool_name = r.pool_name;
        state = triggering;
      },
      some (switches now (record here { pool_id = m.config.download_pool_id })),
    )

pub monitor_step : ℤ → Runtime → ℤ → Manager → Manager × Option Flight
unfolding measured_trigger trigger_step
monitor_step now r rate m =
    if str_eq r.pool_id m.config.download_pool_id
    then (record m { above_since = none; trigger_progress = pos 0 }, none)
    else trigger_step now r (measured_trigger now rate m)

pub rated_step : ℤ → Runtime → ℤ → Manager → Manager × Option Flight
unfolding measured_release release_step monitor_step
rated_step now r rate m =
    if is_active m.state
    then release_step now (measured_release now rate m)
    else monitor_step now r rate (record m { state = monitoring })

pub first_sampled : ℤ → ℤ → ℤ → Manager → Manager
first_sampled total at connections m = record m {
  last_total = total;
  last_sample = some at;
  active_connections = connections;
  state = if is_active m.state then m.state else monitoring;
}
