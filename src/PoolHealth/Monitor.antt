-- ===== src/PoolHealth/Monitor.antt =====
-- The handlers of the monitor: `StartContext`, `refreshActivity`, `checkDue`, `checkDormantDue`,
-- `checkTargets`, `probeTargets` and one turn of `run`. What the controller answers in a call and the
-- clock are the arguments of the call; the goroutines of `probeTargets` deliver their outcomes in any
-- order, so the outcomes are a list.
pub mod Probes
pub mod FailClosed
pub mod Policy
pub mod Soundness
pub mod Synced
use sing_box_webui.Prelude.{
  ℕ, ◌+◌, ◌/◌, String, ◌≡◌, Bool, true, false, not, ◌&&◌, ◌||◌, List, [], ◌∷◌, ◌++◌, map, Option,
  none, some, leb, ltb, ◌==◌, if◌then◌else◌, length, str_eq, trim_space, Result, ok, err, ◌>>=◌,
  ◌>>◌, refuse,
}
use sing_box_webui.Prelude.Int.{ℤ, pos, negsuc, ◌+ℤ◌, ◌-ℤ◌, leb_ℤ, ltb_ℤ, eqb_ℤ, quot_ℤ, wrap_i64}
use sing_box_webui.PoolHealth.Model.{
  unknown, initial_backoff, Target, Config, MemberState, Snapshot, ProbeResult,
}
use sing_box_webui.PoolHealth.Member.{apply_result}
use sing_box_webui.PoolHealth.Selection.{best_selection}
use sing_box_webui.PoolHealth.Snapshots.{Monitor, update_snapshot, set_error}

-- One answer of a delay probe: the test passed with this delay in milliseconds, or failed.
pub record Outcome : Type 0 where
  pub tag : String
  pub delay : Option ℤ

-- The counts of one target over the outcomes received.
unfoldable pub successes_of : String → List Outcome → ℕ
successes_of tag [] = 0
successes_of tag (o ∷ os) = elim o.delay [
  | none ↦ successes_of tag os
  | some d ↦ if str_eq o.tag tag then successes_of tag os + 1 else successes_of tag os
]

-- `delayTotals[tag]`, an int64 sum.
unfoldable pub delay_total : String → List Outcome → ℤ
delay_total tag [] = pos 0
delay_total tag (o ∷ os) = elim o.delay [
  | none ↦ delay_total tag os
  | some d ↦ if str_eq o.tag tag then wrap_i64 (delay_total tag os +ℤ d) else delay_total tag os
]

unfoldable pub probe_result : ℕ → List Outcome → Target → ProbeResult
probe_result total outcomes target =
    let n = successes_of target.tag outcomes in
    record {
      tag = target.tag;
      successes = n;
      total = total;
      latency_ms = if ltb 0 n then quot_ℤ (delay_total target.tag outcomes) n else pos 0;
    }

-- What a probe round meets: the outcomes, or the error of an incomplete round; the error of the
-- selector call, if any; the time at which the results are applied.
pub record Round : Type 0 where
  pub probed : Result String (List Outcome)
  pub select_error : Option String
  pub now : ℤ

unfoldable pub probe_targets :
    List Target → List String → Result String (List Outcome) → Result String (List ProbeResult)
unfolding probe_result successes_of delay_total
probe_targets targets urls (err e) = err e
probe_targets targets urls (ok outcomes) = ok (map (probe_result (length urls) outcomes) targets)

-- `m.members[result.tag]` is changed in place where it exists.
unfoldable pub apply_to : Config → ProbeResult → ℤ → List MemberState → List MemberState
apply_to config result now [] = []
apply_to config result now (m ∷ ms) =
    if str_eq m.target.tag result.tag
    then apply_result config m result now ∷ ms
    else m ∷ apply_to config result now ms

unfoldable pub apply_round : Config → List ProbeResult → ℤ → List MemberState → List MemberState
apply_round config [] now members = members
apply_round config (r ∷ rs) now members = apply_round config rs now (apply_to config r now members)

-- The selection while idle is `auto`, unless nothing can be selected.
unfoldable pub idle_selection : Bool → String → String
idle_selection idle selection = if idle && not (str_eq selection "block") then "auto" else selection

-- The selector call, made unless the selection is empty.
select_outbound : Option String → String → Option String
select_outbound error selection = if str_eq selection "" then none else error

finish_round : Round → String → Option String → Monitor → Monitor × Option String
finish_round round selection (some e) m = (set_error e round.now m, some e)
finish_round round selection none m =
    (update_snapshot "" (some round.now) (record m { selected = selection }), none)

-- The part of `checkTargets` after `probeTargets`.
unfoldable pub apply_probes :
    Round → Result String (List ProbeResult) → Monitor → Monitor × Option String
unfolding finish_round select_outbound idle_selection
apply_probes round (err e) m = (set_error e round.now m, some e)
apply_probes round (ok results) m =
    let members = apply_round m.config results round.now m.members in
    let selection = idle_selection m.idle (best_selection m.config m.selected members) in
    finish_round round selection (select_outbound round.select_error selection)
      (record m { members = members })

-- The monitor after the round, and the error that `checkTargets` returns.
unfoldable pub check_targets : Round → List Target → Monitor → Monitor × Option String
unfolding apply_probes
check_targets round [] m = (m, none)
check_targets round (t ∷ ts) m =
    apply_probes round (probe_targets (t ∷ ts) m.config.probe_urls round.probed) m

pub is_due : ℤ → MemberState → Bool
is_due now m = elim m.next_probe_at [ none ↦ true | some t ↦ leb_ℤ t now ]

pub due_targets : ℤ → List MemberState → List Target
due_targets now [] = []
due_targets now (m ∷ ms) =
    if is_due now m then m.target ∷ due_targets now ms else due_targets now ms

all_targets : List MemberState → List Target
all_targets = map λ m. m.target

pub check_due : ℤ → Round → Monitor → Monitor
unfolding check_targets due_targets is_due
check_due now round m = (check_targets round (due_targets now m.members) m).0

dormant_ready : ℤ → Option ℤ → Bool
dormant_ready now none = false
dormant_ready now (some t) = leb_ℤ t now

pub check_dormant_due : ℤ → Round → Monitor → Monitor
unfolding check_targets dormant_ready all_targets
check_dormant_due now round m =
    if dormant_ready now m.dormant_probe_at
    then (check_targets round (all_targets m.members)
        (record m { dormant_probe_at = some (now +ℤ m.config.max_backoff) })).0
    else m

pub record Traffic : Type 0 where
  pub upload_total : ℤ
  pub download_total : ℤ
  pub active_connections : ℕ

wake : ℤ → List MemberState → List MemberState
wake now [] = []
wake now (m ∷ ms) = record m { next_probe_at = some now } ∷ wake now ms

-- The fields that an answer of the traffic call sets, the snapshot left aside.
pub observe : Traffic → ℤ → Monitor → Monitor
unfolding wake
observe traffic now m =
    let moved =
      not (eqb_ℤ traffic.upload_total m.last_upload)
      || not (eqb_ℤ traffic.download_total m.last_download)
      || ltb 0 traffic.active_connections in
    let last_activity_at = if moved then now else m.last_activity_at in
    let idle = leb_ℤ m.config.idle_timeout (now -ℤ last_activity_at) in
    record m {
      last_activity_at = last_activity_at;
      last_upload = traffic.upload_total;
      last_download = traffic.download_total;
      connections = traffic.active_connections;
      traffic_at = some now;
      idle = idle;
      members = if m.idle && not idle then wake now m.members else m.members;
      dormant_probe_at =
          if m.idle && not idle
          then none
          else if not m.idle && idle
          then some (now +ℤ m.config.max_backoff)
          else m.dormant_probe_at;
    }

-- The call that points the selector to `auto` on entering idleness, and its answer.
return_to_auto : Option String → ℤ → Monitor → Monitor
return_to_auto (some e) now m = set_error e now m
return_to_auto none now m =
    update_snapshot "" m.snapshot.last_checked_at (record m { selected = "auto" })

-- `if enteringIdle`
pub enter_idle : Bool → Option String → ℤ → Monitor → Monitor
unfolding return_to_auto
enter_idle true select_error now m = return_to_auto select_error now m
enter_idle false select_error now m = m

-- The monitor, and whether the turn goes on as idle. No answer changes nothing.
pub refresh_activity : Option Traffic → Option String → ℤ → Monitor → Monitor × Bool
refresh_activity none select_error now m = (m, false)
refresh_activity (some traffic) select_error now m =
    let seen = observe traffic now m in
    let next = update_snapshot "" m.snapshot.last_checked_at seen in
    (enter_idle (not m.idle && seen.idle) select_error now next, seen.idle)

-- What one turn of `run` meets.
pub record Turn : Type 0 where
  pub traffic : Option Traffic
  pub auto_error : Option String
  pub now : ℤ
  pub round : Round

pub run_turn : Turn → Monitor → Monitor
run_turn turn m =
    let (m', idle) = refresh_activity turn.traffic turn.auto_error turn.now m in
    if idle then check_dormant_due turn.now turn.round m' else check_due turn.now turn.round m'

pub run_turns : List Turn → Monitor → Monitor
run_turns [] m = m
run_turns (t ∷ ts) m = run_turns ts (run_turn t m)

pub data ConfigError : Type 0 where
  missing_controller missing_targets invalid_policy : ConfigError

unfoldable pub no_controller : Config → Bool
no_controller c = str_eq (trim_space c.address) "" || str_eq (trim_space c.secret) ""

unfoldable pub no_targets : Config → Bool
no_targets c = length c.probe_urls == 0 || ltb (length c.targets) 2

unfoldable pub bad_policy : Config → Bool
bad_policy c =
    leb_ℤ c.interval (pos 0)
    || (ltb_ℤ c.tolerance (pos 0)
        || (ltb_ℤ c.idle_timeout c.interval
            || (leb_ℤ c.high_latency_threshold (pos 0)
                || (ltb_ℤ c.consecutive_failures (pos 1)
                    || (ltb_ℤ c.recovery_successes (pos 1)
                        || ltb_ℤ c.max_backoff initial_backoff)))))

-- `validateConfig`
unfoldable pub validate_config : Config → Result ConfigError (Unit {0})
validate_config c = do
  refuse (no_controller c) missing_controller
  refuse (no_targets c) missing_targets
  refuse (bad_policy c) invalid_policy
  ok tt

new_member : ℤ → Target → MemberState
new_member now target = record {
  target = target;
  status = unknown;
  latency_ms = pos 0;
  passed_tests = 0;
  total_tests = 0;
  failures = 0;
  recovery_successes = 0;
  last_checked_at = none;
  next_probe_at = some now;
}

-- `members[target.Tag] = …`: a later target with the same tag takes the place of an earlier one.
put_member : MemberState → List MemberState → List MemberState
put_member m [] = m ∷ []
put_member m (x ∷ xs) = if str_eq x.target.tag m.target.tag then m ∷ xs else x ∷ put_member m xs

new_members : ℤ → List Target → List MemberState → List MemberState
new_members now [] members = members
new_members now (t ∷ ts) members = new_members now ts (put_member (new_member now t) members)

-- The state that `StartContext` installs before it waits for the controller.
pub install : Config → ℤ → Monitor → Monitor
unfolding new_members put_member new_member
install config now m = update_snapshot "" none (record m {
  running = true;
  config = config;
  members = new_members now config.targets [];
  selected = "";
  last_activity_at = now;
  last_upload = pos 0;
  last_download = pos 0;
  idle = false;
  dormant_probe_at = none;
})

pub data StartError : Type 0 where
  bad_config : ConfigError → StartError
  not_ready : String → StartError

-- The controller's readiness, an error or none, and then the first round.
first_round : Option String → Round → Monitor → Monitor × Option String
first_round (some e) round m = (m, some e)
first_round none round m = check_targets round m.config.targets m

settle : ℤ → Monitor × Option String → Monitor × Option StartError
settle now (m, none) = (m, none)
settle now (m, some e) = (record (set_error e now m) { running = false }, some (not_ready e))

-- The part of `StartContext` after the validation.
start_with :
    Result ConfigError (Unit {0})
    → Config
    → ℤ
    → Option String
    → Round
    → Monitor
    → Monitor × Option StartError
unfolding install first_round settle
start_with (err e) config now ready round m = (m, some (bad_config e))
start_with (ok _) config now ready round m =
    settle round.now (first_round ready round (install config now m))

-- `StartContext`. A refused configuration leaves the running monitor alone.
unfoldable pub start : Config → ℤ → Option String → Round → Monitor → Monitor × Option StartError
unfolding start_with
start config now ready round m = start_with (validate_config config) config now ready round m
