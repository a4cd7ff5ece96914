-- ===== src/TrafficPolicy/Examples.antt =====
-- The theorem on the traffic policy, applied to three ticks with much traffic, the last of which
-- switches to the download pool.
use sing_box_webui.Prelude.{true, false, none, some}
use sing_box_webui.Prelude.Int.{ℤ, pos, ◌-ℤ◌, quot_ℤ}
use sing_box_webui.Supervisor
use sing_box_webui.TrafficPolicy.Model.{Config, Runtime, Manager}
use sing_box_webui.TrafficPolicy.Calls.{tick}
use sing_box_webui.TrafficPolicy.Takeover.{IsSafe}
use sing_box_webui.TrafficPolicy.Runs.{opened, ticks, here, there, policy-IsSafe}

abbrev config : Config
config = record {
  enabled = true;
  download_pool_id = "d";
  trigger_rate = pos 65_536;
  trigger_duration = pos 2;
  release_rate = pos 0;
  release_duration = pos 5;
  cooldown_seconds = pos 60;
}

abbrev runtime : ℤ → ℤ → Runtime
runtime total at = record {
  state = Supervisor.State.running;
  mode = "tun";
  target_type = "pool";
  pool_id = "p";
  pool_name = "home";
  allow_lan = false;
  pool_health = some (record { download_total = total; traffic_at = some at; connections = pos 3 });
}

-- The bytes are taken to be those of one second.
abbrev rate_of : ℤ → ℤ → ℤ
rate_of bytes elapsed = bytes

abbrev first : Manager
first =
    (tick rate_of (pos 1) (pos 1_000_000_000) (runtime (pos 0) (pos 1_000_000_000))
      (opened config)).0

abbrev second_one : Manager
second_one =
    (tick rate_of (pos 2) (pos 2_000_000_000) (runtime (pos 900_000) (pos 2_000_000_000)) first).0

-- Tests

policy-IsSafe_example :
    let w =
      tick rate_of
        (pos 4)
        (pos 4_000_000_000)
        (runtime (pos 2_000_000) (pos 4_000_000_000))
        second_one in
    IsSafe w.0 w.1
unfolding tick opened ◌-ℤ◌ quot_ℤ
policy-IsSafe_example =
    policy-IsSafe rate_of config
      (tick rate_of (pos 4) (pos 4_000_000_000) (runtime (pos 2_000_000) (pos 4_000_000_000))
        second_one).0
      (tick rate_of (pos 4) (pos 4_000_000_000) (runtime (pos 2_000_000) (pos 4_000_000_000))
        second_one).1
      (there _ (first, none) _
        (ticks (pos 1) (pos 1_000_000_000) (runtime (pos 0) (pos 1_000_000_000)) (opened config))
        (there _ (second_one, none) _
          (ticks (pos 2) (pos 2_000_000_000) (runtime (pos 900_000) (pos 2_000_000_000)) first)
          (there _ _ _
            (ticks (pos 4) (pos 4_000_000_000) (runtime (pos 2_000_000) (pos 4_000_000_000))
              second_one)
            (here _))))
