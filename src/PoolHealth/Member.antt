-- ===== src/PoolHealth/Member.antt =====
-- `applyResultLocked`: what one probe result does to a pool member.
pub mod Invariant
pub mod Runs
use sing_box_webui.Prelude.{
  ℕ, ◌+◌, ◌≡◌, Bool, ◌&&◌, ◌||◌, List, [], ◌∷◌, some, leb, ltb, ◌==◌, if◌then◌else◌,
}
use sing_box_webui.Prelude.Int.{ℤ, pos, ◌+ℤ◌, ◌-ℤ◌, ◌*ℤ◌, leb_ℤ, ltb_ℤ, wrap_i64}
use sing_box_webui.PoolHealth.Model.{
  Status, healthy, degraded, quarantined, same_status, millisecond, fast_retry, Config, MemberState,
  ProbeResult,
}
use sing_box_webui.PoolHealth.Backoff.{backoff_for}

-- Not every test passed, or the mean latency reaches the threshold. The product is of int64s.
unfoldable pub is_partial : Config → ProbeResult → Bool
is_partial config result =
    ltb result.successes result.total
    || leb_ℤ config.high_latency_threshold (wrap_i64 (result.latency_ms *ℤ pos millisecond))

apply_failure : Config → MemberState → ProbeResult → ℤ → MemberState
apply_failure config member result now =
    let failures = member.failures + 1 in
    if leb_ℤ config.consecutive_failures (pos failures)
    then record member {
      last_checked_at = some now;
      passed_tests = result.successes;
      total_tests = result.total;
      failures = failures;
      recovery_successes = 0;
      status = quarantined;
      next_probe_at =
          some
            (now +ℤ backoff_for (pos failures -ℤ config.consecutive_failures) config.max_backoff);
    }
    else record member {
      last_checked_at = some now;
      passed_tests = result.successes;
      total_tests = result.total;
      failures = failures;
      recovery_successes = 0;
      status = degraded;
      next_probe_at = some (now +ℤ fast_retry);
    }

apply_success : Config → MemberState → ProbeResult → ℤ → MemberState
apply_success config member result now =
    if same_status member.status quarantined
      && ltb_ℤ (pos (member.recovery_successes + 1)) config.recovery_successes
    then record member {
      last_checked_at = some now;
      passed_tests = result.successes;
      total_tests = result.total;
      latency_ms = result.latency_ms;
      recovery_successes = member.recovery_successes + 1;
      next_probe_at = some (now +ℤ fast_retry);
    }
    else record member {
      last_checked_at = some now;
      passed_tests = result.successes;
      total_tests = result.total;
      latency_ms = result.latency_ms;
      failures = 0;
      recovery_successes = 0;
      status = if is_partial config result then degraded else healthy;
      next_probe_at = some (now +ℤ config.interval);
    }

unfoldable pub apply_result : Config → MemberState → ProbeResult → ℤ → MemberState
unfolding apply_failure apply_success
apply_result config member result now =
    if result.successes == 0
    then apply_failure config member result now
    else apply_success config member result now

-- Successive rounds of one member: each result with the time at which it is applied.
pub apply_results : Config → MemberState → List (ProbeResult × ℤ) → MemberState
apply_results config member [] = member
apply_results config member ((result, now) ∷ rest) =
    apply_results config (apply_result config member result now) rest
