-- ===== src/PoolHealth/Examples.antt =====
-- The theorems on the pool monitor, applied to a pool of two targets.
use sing_box_webui.Prelude.{
  Among, String, ap, str_eq, sym, ◌∙◌, eq_iff, ℕ, ◌*◌, ◌≡◌, refl, true, false, List, [], ◌∷◌, none,
  some, arith, inl, inr, ok, trim_space,
}
use sing_box_webui.Prelude.Int.{pos, wrap_i64, ◌*ℤ◌, quot_ℤ, ◌+ℤ◌}
use sing_box_webui.PoolHealth.Model.{
  Status, unknown, healthy, degraded, quarantined, second, millisecond, Target, Config, MemberState,
  Snapshot, ProbeResult,
}
use sing_box_webui.PoolHealth.Backoff.{backoff_for, backoff_for_closed}
use sing_box_webui.PoolHealth.Member.{is_partial, apply_result, apply_results}
use sing_box_webui.PoolHealth.Member.Invariant.{
  IsWell, IsDueWithin, apply_result-IsWell, next_probe_within,
}
use sing_box_webui.PoolHealth.Member.Runs.{
  status_after_failures, status_of_failures, recovery_exact,
}
use sing_box_webui.PoolHealth.Selection.{
  best_selection, is_candidate, sort_ranked, candidates, insert_ranked, find_member, choose,
  ranks_before, effective_latency,
}
use sing_box_webui.PoolHealth.Selection.Listing.{TagsKey, best_selection_listing}
use sing_box_webui.PoolHealth.Selection.Choice.{FailsClosed, best_selection-FailsClosed}
use sing_box_webui.PoolHealth.Snapshots.{Monitor}
use sing_box_webui.PoolHealth.Monitor.{
  Outcome, apply_round, apply_to, idle_selection, no_controller, no_targets, bad_policy,
  probe_targets, Round, check_targets, Turn, run_turn, validate_config, start,
}
use sing_box_webui.PoolHealth.Monitor.Soundness.{IsSound, run_turn-IsSound}
use sing_box_webui.PoolHealth.Monitor.FailClosed.{
  IsClosed, IsStarted, check_targets-IsClosed, start-IsStarted,
}

abbrev first : Target
first = record { tag = "a"; subscription_id = "s"; node_id = "n1"; name = "one" }

abbrev second_target : Target
second_target = record { tag = "b"; subscription_id = "s"; node_id = "n2"; name = "two" }

abbrev policy : Config
policy = record {
  address = "127.0.0.1:9090";
  secret = "key";
  selector_tag = "pool";
  probe_urls = "https://example.com/204" ∷ [];
  interval = pos (60 * second);
  tolerance = pos (50 * millisecond);
  idle_timeout = pos (600 * second);
  high_latency_threshold = pos (800 * millisecond);
  consecutive_failures = pos 2;
  recovery_successes = pos 3;
  max_backoff = pos (300 * second);
  targets = first ∷ second_target ∷ [];
}

abbrev seen_member : Target → Status → ℕ → MemberState
seen_member t s failures = record {
  target = t;
  status = s;
  latency_ms = pos 120;
  passed_tests = 1;
  total_tests = 1;
  failures = failures;
  recovery_successes = 0;
  last_checked_at = some (pos 5);
  next_probe_at = some (pos 7);
}

abbrev failed : ProbeResult
failed = record { tag = "a"; successes = 0; total = 1; latency_ms = pos 0 }

abbrev passed : ProbeResult
passed = record { tag = "a"; successes = 1; total = 1; latency_ms = pos 90 }

abbrev healthy_member : MemberState
healthy_member = seen_member first healthy 0

abbrev quarantined_member : MemberState
quarantined_member = seen_member first quarantined 2

-- Tests

backoff_for_closed_example : backoff_for (pos 2) (pos (300 * second)) ≡ pos (60 * second)
backoff_for_closed_example = backoff_for_closed 2 (300 * second) (omega arith) refl

apply_result-IsWell_example : IsWell policy (apply_result policy healthy_member failed (pos 9))
apply_result-IsWell_example =
    apply_result-IsWell policy healthy_member failed (pos 9)
      (record { failures_pos = omega arith; recovery_pos = omega arith })
      (record { fits = (refl, refl, omega arith) })

next_probe_within_example :
    IsDueWithin
      (pos 9)
      (pos (300 * second))
      (apply_result policy healthy_member failed (pos 9)).next_probe_at
next_probe_within_example =
    next_probe_within policy healthy_member failed (pos 9) (pos (300 * second))
      (record { interval_pos = omega arith; backoff_min = omega arith; backoff_max = omega arith })
      (omega arith) (omega arith)

status_of_failures_example :
    (apply_results policy healthy_member ((failed, pos 9) ∷ (failed, pos 10) ∷ [])).status
    ≡ status_after_failures policy (pos 2)
status_of_failures_example =
    status_of_failures policy healthy_member (failed, pos 9) ((failed, pos 10) ∷ [])
      (refl, (refl, tt))

recovery_exact_example :
    (apply_results policy quarantined_member ((passed, pos 9) ∷ (passed, pos 10) ∷ [])).status
    ≡ quarantined
recovery_exact_example =
    recovery_exact policy quarantined_member ((passed, pos 9) ∷ []) passed (pos 10) refl
      (omega arith, tt) (omega arith) (omega arith)

best_selection-FailsClosed_example :
    FailsClosed
      (healthy_member ∷ quarantined_member ∷ [])
      (best_selection policy "b" (healthy_member ∷ quarantined_member ∷ []))
best_selection-FailsClosed_example =
    best_selection-FailsClosed policy "b" (healthy_member ∷ quarantined_member ∷ [])
      (λ _. omega arith, (λ _. omega arith, tt))

abbrev answers : List Outcome
answers = record { tag = "a"; delay = some (pos 80) } ∷ record { tag = "b"; delay = none } ∷ []

abbrev good_round : Round
good_round = record { probed = ok answers; select_error = none; now = pos 20 }

abbrev empty_snapshot : Snapshot
empty_snapshot = record {
  state = unknown;
  selected_node_id = "";
  selected_name = "";
  healthy_count = 0;
  degraded_count = 0;
  members = [];
  last_checked_at = none;
  last_error = "";
  idle = false;
  upload_total = pos 0;
  download_total = pos 0;
  connections = 0;
  traffic_at = none;
}

abbrev monitor : Monitor
monitor = record {
  running = true;
  config = policy;
  members = healthy_member ∷ seen_member second_target quarantined 2 ∷ [];
  selected = "a";
  snapshot = empty_snapshot;
  last_activity_at = pos 0;
  last_upload = pos 0;
  last_download = pos 0;
  idle = false;
  connections = 0;
  traffic_at = none;
  dormant_probe_at = none;
}

monitor-IsSound : IsSound monitor
monitor-IsSound = record {
  policy = record { failures_pos = omega arith; recovery_pos = omega arith };
  urls = omega arith;
  good = (
    (record { fits = (refl, refl, omega arith) }, λ _. omega arith),
    ((record { fits = (omega arith, omega arith) }, λ _. omega arith), tt),
  );
}

abbrev quiet_turn : Turn
quiet_turn = record {
  traffic = some (record { upload_total = pos 1; download_total = pos 1; active_connections = 2 });
  auto_error = none;
  now = pos 20;
  round = good_round;
}

run_turn-IsSound_example : IsSound (run_turn quiet_turn monitor)
run_turn-IsSound_example = run_turn-IsSound quiet_turn monitor monitor-IsSound

check_targets-IsClosed_example : IsClosed false (check_targets good_round (first ∷ []) monitor).0
unfolding check_targets probe_targets apply_round apply_to idle_selection apply_result is_partial
    best_selection sort_ranked candidates insert_ranked find_member choose ranks_before
    effective_latency is_candidate wrap_i64 ◌*ℤ◌ quot_ℤ ◌+ℤ◌
check_targets-IsClosed_example =
    check_targets-IsClosed good_round first [] monitor monitor-IsSound refl

start-IsStarted_example : IsStarted (start policy (pos 10) none good_round monitor).0
unfolding start validate_config no_controller trim_space no_targets bad_policy check_targets
    probe_targets apply_round apply_to idle_selection apply_result is_partial best_selection
    sort_ranked candidates insert_ranked find_member choose ranks_before effective_latency
    is_candidate wrap_i64 ◌*ℤ◌ quot_ℤ ◌+ℤ◌
start-IsStarted_example = start-IsStarted policy (pos 10) none good_round monitor refl

abbrev other_member : MemberState
other_member = seen_member second_target degraded 1

abbrev one_listing : List MemberState
one_listing = healthy_member ∷ other_member ∷ []

abbrev other_listing : List MemberState
other_listing = other_member ∷ healthy_member ∷ []

swapped : (x y m : MemberState) → Among m (x ∷ y ∷ []) → Among m (y ∷ x ∷ [])
swapped x y m (inl e) = inr (inl e)
swapped x y m (inr (inl e)) = inl e
swapped x y m (inr (inr h)) = absurd h

differ : (a b : String) → str_eq a b ≡ false → a ≡ b → ⊥
differ a b d e = let t = (eq_iff a b).1 e in absurd (ground arith)

other_listing-TagsKey : TagsKey other_listing
other_listing-TagsKey a b (inl e) (inl f) t = e ∙ sym f
other_listing-TagsKey a b (inl e) (inr (inl f)) t = absurd (
    differ "b" "a" refl (
      ap (λ (m : MemberState). m.target.tag) (sym e)
      ∙ t
      ∙ ap (λ (m : MemberState). m.target.tag) f))
other_listing-TagsKey a b (inr (inl e)) (inl f) t = absurd (
    differ "a" "b" refl (
      ap (λ (m : MemberState). m.target.tag) (sym e)
      ∙ t
      ∙ ap (λ (m : MemberState). m.target.tag) f))
other_listing-TagsKey a b (inr (inl e)) (inr (inl f)) t = e ∙ sym f
other_listing-TagsKey a b (inr (inr h)) g t = absurd h
other_listing-TagsKey a b (inl e) (inr (inr h)) t = absurd h
other_listing-TagsKey a b (inr (inl e)) (inr (inr h)) t = absurd h

best_selection_listing_example :
    best_selection policy "b" one_listing ≡ best_selection policy "b" other_listing
best_selection_listing_example =
    best_selection_listing one_listing other_listing
      (λ m. (swapped healthy_member other_member m, swapped other_member healthy_member m))
      other_listing-TagsKey policy "b"
