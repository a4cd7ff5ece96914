-- ===== src/PoolHealth/Monitor/Policy.antt =====
-- What `validateConfig` accepts.
use sing_box_webui.Prelude.{
  ℕ, ◌≤◌, ◌<◌, ◌≡◌, Bool, false, ◌||◌, arith, ltb, ◌==◌, length, str_eq, trim_space, ok, or_false,
}
use sing_box_webui.Prelude.Int.{pos, leb_ℤ, ltb_ℤ, ◌<ℤ◌, ◌≤ℤ◌, ltb_ℤ-false, leb_ℤ-false}
use sing_box_webui.PoolHealth.Model.{Config, initial_backoff}
use sing_box_webui.PoolHealth.Monitor.{validate_config, no_controller, no_targets, bad_policy}

-- A usable configuration, in the terms of the configuration alone.
pub record IsUsable (c : Config) : Type 0 where
  pub has_address : str_eq (trim_space c.address) "" ≡ false
  pub has_secret : str_eq (trim_space c.secret) "" ≡ false
  pub has_urls : 0 < length c.probe_urls
  pub has_targets : 2 ≤ length c.targets
  pub interval_pos : pos 0 <ℤ c.interval
  pub tolerance_nonneg : pos 0 ≤ℤ c.tolerance
  pub idle_after_interval : c.interval ≤ℤ c.idle_timeout
  pub threshold_pos : pos 0 <ℤ c.high_latency_threshold
  pub failures_pos : pos 1 ≤ℤ c.consecutive_failures
  pub recovery_pos : pos 1 ≤ℤ c.recovery_successes
  pub backoff_min : initial_backoff ≤ℤ c.max_backoff

validate_config-tests :
    (c : Config)
    → validate_config c ≡ ok tt
    → (no_controller c ≡ false) × (no_targets c ≡ false) × (bad_policy c ≡ false)
unfolding validate_config
validate_config-tests c h = ground arith

policy_tests :
    (a b c d e f g : Bool)
    → (a || (b || (c || (d || (e || (f || g)))))) ≡ false
    → (a ≡ false)
      × (b ≡ false)
      × (c ≡ false)
      × (d ≡ false)
      × (e ≡ false)
      × (f ≡ false)
      × (g ≡ false)
policy_tests a b c d e f g h = ground arith

-- A configuration that `validateConfig` accepts is usable.
pub validate_config-IsUsable : (c : Config) → validate_config c ≡ ok tt → IsUsable c
unfolding no_controller no_targets bad_policy
validate_config-IsUsable c h =
    let t = validate_config-tests c h in
    let controller =
      or_false (str_eq (trim_space c.address) "") (str_eq (trim_space c.secret) "") t.0 in
    let targets = or_false (length c.probe_urls == 0) (ltb (length c.targets) 2) t.1 in
    let policy =
      policy_tests (leb_ℤ c.interval (pos 0)) (ltb_ℤ c.tolerance (pos 0))
        (ltb_ℤ c.idle_timeout c.interval) (leb_ℤ c.high_latency_threshold (pos 0))
        (ltb_ℤ c.consecutive_failures (pos 1)) (ltb_ℤ c.recovery_successes (pos 1))
        (ltb_ℤ c.max_backoff initial_backoff) t.2 in
    record {
      has_address = controller.0;
      has_secret = controller.1;
      has_urls = nonzero (length c.probe_urls) targets.0;
      has_targets = ge_two (length c.targets) targets.1;
      interval_pos = leb_ℤ-false c.interval (pos 0) policy.0;
      tolerance_nonneg = ltb_ℤ-false c.tolerance (pos 0) policy.1;
      idle_after_interval = ltb_ℤ-false c.idle_timeout c.interval policy.2;
      threshold_pos = leb_ℤ-false c.high_latency_threshold (pos 0) policy.3;
      failures_pos = ltb_ℤ-false c.consecutive_failures (pos 1) policy.4;
      recovery_pos = ltb_ℤ-false c.recovery_successes (pos 1) policy.5;
      backoff_min = ltb_ℤ-false c.max_backoff initial_backoff policy.6;
    }
  where
    nonzero : (n : ℕ) → (n == 0) ≡ false → 0 < n
    nonzero n e = ground arith

    ge_two : (n : ℕ) → ltb n 2 ≡ false → 2 ≤ n
    ge_two n e = ground arith
