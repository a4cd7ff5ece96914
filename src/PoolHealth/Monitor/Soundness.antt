-- ===== src/PoolHealth/Monitor/Soundness.antt =====
-- The invariant of the monitor: every member's status fits its counters, and an active member has
-- been probed. From a configuration that `validateConfig` accepts, it holds after any turns.
use sing_box_webui.Prelude.{
  ℕ, ◌<◌, String, ◌≡◌, refl, ◌⊎◌, inl, inr, Bool, true, false, not, ◌&&◌, List, [], ◌∷◌, Option,
  none, some, arith, length, All, map, Bool-cases, str_eq, Result, ok, err, if◌then◌else◌,
}
use sing_box_webui.Prelude.Int.{ℤ}
use sing_box_webui.PoolHealth.Model.{
  Status, unknown, healthy, degraded, quarantined, outage, Target, Config, MemberState, ProbeResult,
}
use sing_box_webui.PoolHealth.Member.{apply_result}
use sing_box_webui.PoolHealth.Member.Invariant.{Fits, IsWell, IsPolicy, apply_result-IsWell}
use sing_box_webui.PoolHealth.Selection.{best_selection}
use sing_box_webui.PoolHealth.Selection.Choice.{IsProbed}
use sing_box_webui.PoolHealth.Snapshots.{Monitor, update_snapshot}
use sing_box_webui.PoolHealth.Monitor.Policy.{IsUsable, validate_config-IsUsable}
use sing_box_webui.PoolHealth.Monitor.{
  Outcome, Round, Turn, Traffic, probe_result, probe_targets, apply_to, apply_round, finish_round,
  apply_probes, check_targets, check_due, check_dormant_due, observe, wake, return_to_auto,
  enter_idle, refresh_activity, run_turn, run_turns, ConfigError, start_with, validate_config,
  new_member, put_member, new_members, install, first_round, settle, start, all_targets,
  due_targets, dormant_ready, idle_selection, select_outbound,
}

abbrev pub IsGood : Config → MemberState → Type 0
IsGood config m = IsWell config m × IsProbed m

total_tests_lem :
    (config : Config) (m : MemberState) (r : ProbeResult) (now : ℤ)
    → (apply_result config m r now).total_tests ≡ r.total
unfolding apply_result
total_tests_lem config m r now = ground arith

abbrev HasTests : ProbeResult → Type 0
HasTests r = 0 < r.total

module _ (config : Config) (p : IsPolicy config) (now : ℤ) where
  apply_to-IsGood :
      (r : ProbeResult) (ms : List MemberState)
      → HasTests r
      → All (IsGood config) ms
      → All (IsGood config) (apply_to config r now ms)
  unfolding apply_to
  apply_to-IsGood r [] h g = tt
  apply_to-IsGood r (m ∷ ms) h g = elim (Bool-cases (str_eq m.target.tag r.tag)) [
    | inl e ↦ rw e (
      (
        apply_result-IsWell config m r now p g.0.0,
        λ a. omega (arith, total_tests_lem config m r now),
      ),
      g.1,
    )
    | inr e ↦ rw e (g.0, apply_to-IsGood r ms h g.1)
  ]

  pub apply_round-IsGood :
      (rs : List ProbeResult) (ms : List MemberState)
      → All HasTests rs
      → All (IsGood config) ms
      → All (IsGood config) (apply_round config rs now ms)
  unfolding apply_round
  apply_round-IsGood [] ms h g = g
  apply_round-IsGood (r ∷ rs) ms h g =
      apply_round-IsGood rs (apply_to config r now ms) h.1 (apply_to-IsGood r ms h.0 g)

pub record IsSound (m : Monitor) : Type 0 where
  pub policy : IsPolicy m.config
  pub urls : 0 < length m.config.probe_urls
  pub good : All (IsGood m.config) m.members

pub map-HasTests :
    (total : ℕ) (os : List Outcome) (ts : List Target)
    → 0 < total
    → All HasTests (map (probe_result total os) ts)
unfolding probe_result
map-HasTests total os [] h = tt
map-HasTests total os (t ∷ ts) h = (h, map-HasTests total os ts h)

finish_round-IsSound :
    (round : Round) (s : String) (e : Option String) (m : Monitor)
    → IsSound m
    → IsSound (finish_round round s e m).0
unfolding finish_round
finish_round-IsSound round s none m h = record { policy = h.policy; urls = h.urls; good = h.good }
finish_round-IsSound round s (some e) m h = record {
  policy = h.policy;
  urls = h.urls;
  good = h.good;
}

apply_probes-IsSound :
    (round : Round) (outcomes : Result String (List Outcome)) (ts : List Target) (m : Monitor)
    → IsSound m
    → IsSound (apply_probes round (probe_targets ts m.config.probe_urls outcomes) m).0
unfolding apply_probes probe_targets
apply_probes-IsSound round (err e) ts m h = record {
  policy = h.policy;
  urls = h.urls;
  good = h.good;
}
apply_probes-IsSound round (ok os) ts m h =
    let members =
      apply_round m.config (map (probe_result (length m.config.probe_urls) os) ts) round.now
        m.members in
    let selection = idle_selection m.idle (best_selection m.config m.selected members) in
    finish_round-IsSound round selection (select_outbound round.select_error selection)
      (record m { members = members })
      (record {
        policy = h.policy;
        urls = h.urls;
        good =
            apply_round-IsGood m.config h.policy round.now
              (map (probe_result (length m.config.probe_urls) os) ts) m.members
              (map-HasTests (length m.config.probe_urls) os ts h.urls) h.good;
      })

pub check_targets-IsSound :
    (round : Round) (ts : List Target) (m : Monitor)
    → IsSound m
    → IsSound (check_targets round ts m).0
unfolding check_targets
check_targets-IsSound round [] m h = h
check_targets-IsSound round (t ∷ ts) m h = apply_probes-IsSound round round.probed (t ∷ ts) m h

check_due-IsSound :
    (now : ℤ) (round : Round) (m : Monitor) → IsSound m → IsSound (check_due now round m)
unfolding check_due
check_due-IsSound now round m h = check_targets-IsSound round (due_targets now m.members) m h

check_dormant_due-IsSound :
    (now : ℤ) (round : Round) (m : Monitor) → IsSound m → IsSound (check_dormant_due now round m)
unfolding check_dormant_due
check_dormant_due-IsSound now round m h = elim (Bool-cases (dormant_ready now m.dormant_probe_at)) [
  | inl e ↦ rw e (
      check_targets-IsSound round (all_targets m.members) _
        (record { policy = h.policy; urls = h.urls; good = h.good }))
  | inr e ↦ rw e h
]

wake-IsGood :
    (config : Config) (now : ℤ) (ms : List MemberState)
    → All (IsGood config) ms
    → All (IsGood config) (wake now ms)
unfolding wake
wake-IsGood config now [] g = tt
wake-IsGood config now (m ∷ ms) g =
    ((record { fits = refit config m.status m _ g.0.0.fits }, g.0.1), wake-IsGood config now ms g.1)
  where
    refit :
        (c : Config) (s : Status) (x : MemberState) (t : Option ℤ)
        → Fits c s x
        → Fits c s (record x { next_probe_at = t })
    refit c unknown x t f = f
    refit c healthy x t f = f
    refit c degraded x t f = f
    refit c quarantined x t f = f
    refit c outage x t f = f

if-IsGood :
    (config : Config) (b : Bool) (xs ys : List MemberState)
    → All (IsGood config) xs
    → All (IsGood config) ys
    → All (IsGood config) (if b then xs else ys)
if-IsGood config true xs ys g h = g
if-IsGood config false xs ys g h = h

observe-IsSound :
    (traffic : Traffic) (now : ℤ) (m : Monitor) → IsSound m → IsSound (observe traffic now m)
unfolding observe
observe-IsSound traffic now m h = record {
  policy = h.policy;
  urls = h.urls;
  good = if-IsGood m.config _ _ _ (wake-IsGood m.config now m.members h.good) h.good;
}

return_to_auto-IsSound :
    (e : Option String) (now : ℤ) (m : Monitor) → IsSound m → IsSound (return_to_auto e now m)
unfolding return_to_auto
return_to_auto-IsSound none now m h = record { policy = h.policy; urls = h.urls; good = h.good }
return_to_auto-IsSound (some e) now m h = record { policy = h.policy; urls = h.urls; good = h.good }

enter_idle-IsSound :
    (b : Bool) (e : Option String) (now : ℤ) (m : Monitor)
    → IsSound m
    → IsSound (enter_idle b e now m)
unfolding enter_idle
enter_idle-IsSound true e now m h = return_to_auto-IsSound e now m h
enter_idle-IsSound false e now m h = h

refresh_activity-IsSound :
    (t : Option Traffic) (e : Option String) (now : ℤ) (m : Monitor)
    → IsSound m
    → IsSound (refresh_activity t e now m).0
unfolding refresh_activity
refresh_activity-IsSound none e now m h = h
refresh_activity-IsSound (some t) e now m h =
    let s = observe-IsSound t now m h in
    enter_idle-IsSound (not m.idle && (observe t now m).idle) e now
      (update_snapshot "" m.snapshot.last_checked_at (observe t now m))
      (record { policy = s.policy; urls = s.urls; good = s.good })

-- One turn of the monitor keeps the invariant, whatever the controller answers.
pub run_turn-IsSound : (turn : Turn) (m : Monitor) → IsSound m → IsSound (run_turn turn m)
unfolding run_turn
run_turn-IsSound turn m h =
    let next = refresh_activity turn.traffic turn.auto_error turn.now m in
    let kept = refresh_activity-IsSound turn.traffic turn.auto_error turn.now m h in
    elim (Bool-cases next.1) [
      | inl e ↦ rw e (check_dormant_due-IsSound turn.now turn.round next.0 kept)
      | inr e ↦ rw e (check_due-IsSound turn.now turn.round next.0 kept)
    ]

run_turns-IsSound : (turns : List Turn) (m : Monitor) → IsSound m → IsSound (run_turns turns m)
unfolding run_turns
run_turns-IsSound [] m h = h
run_turns-IsSound (t ∷ ts) m h = run_turns-IsSound ts (run_turn t m) (run_turn-IsSound t m h)

put_member-IsGood :
    (config : Config) (m : MemberState) (ms : List MemberState)
    → IsGood config m
    → All (IsGood config) ms
    → All (IsGood config) (put_member m ms)
unfolding put_member
put_member-IsGood config m [] g h = (g, tt)
put_member-IsGood config m (x ∷ xs) g h = elim (Bool-cases (str_eq x.target.tag m.target.tag)) [
  | inl e ↦ rw e (g, h.1)
  | inr e ↦ rw e (h.0, put_member-IsGood config m xs g h.1)
]

new_members-IsGood :
    (config : Config) (now : ℤ) (ts : List Target) (ms : List MemberState)
    → All (IsGood config) ms
    → All (IsGood config) (new_members now ts ms)
unfolding new_members
new_members-IsGood config now [] ms h = h
new_members-IsGood config now (t ∷ ts) ms h =
    new_members-IsGood config now ts (put_member (new_member now t) ms)
      (put_member-IsGood config (new_member now t) ms fresh h)
  where
    fresh : IsGood config (new_member now t)
    fresh = unfold new_member in (record { fits = (refl, refl, refl) }, λ a. cc a)

usable-IsPolicy : (c : Config) → IsUsable c → IsPolicy c
usable-IsPolicy c u = record {
  failures_pos = omega (arith, u.failures_pos);
  recovery_pos = omega (arith, u.recovery_pos);
}

pub install-IsSound :
    (config : Config) (now : ℤ) (m : Monitor) → IsUsable config → IsSound (install config now m)
unfolding install
install-IsSound config now m u = record {
  policy = usable-IsPolicy config u;
  urls = u.has_urls;
  good = new_members-IsGood config now config.targets [] tt;
}

first_round-IsSound :
    (e : Option String) (round : Round) (m : Monitor)
    → IsSound m
    → IsSound (first_round e round m).0
unfolding first_round
first_round-IsSound none round m h = check_targets-IsSound round m.config.targets m h
first_round-IsSound (some e) round m h = h

settle-IsSound : (now : ℤ) (r : Monitor × Option String) → IsSound r.0 → IsSound (settle now r).0
unfolding settle
settle-IsSound now (m, none) h = h
settle-IsSound now (m, some e) h = record { policy = h.policy; urls = h.urls; good = h.good }

-- A start, whether the first round succeeds or fails, leaves a sound monitor, or the monitor as it was.
pub start-IsSound :
    (config : Config) (now : ℤ) (ready : Option String) (round : Round) (m : Monitor)
    → (IsSound (start config now ready round m).0) ⊎ ((start config now ready round m).0 ≡ m)
unfolding start
start-IsSound config now ready round m = go (validate_config config) refl
  where
    go :
        (r : Result ConfigError (Unit {0}))
        → validate_config config ≡ r
        → (IsSound (start_with r config now ready round m).0)
          ⊎ ((start_with r config now ready round m).0 ≡ m)
    go (err e) p = inr refl
    go (ok tt) p = inl (
        settle-IsSound round.now (first_round ready round (install config now m)) (
          first_round-IsSound ready round (install config now m)
            (install-IsSound config now m (validate_config-IsUsable config p))))
