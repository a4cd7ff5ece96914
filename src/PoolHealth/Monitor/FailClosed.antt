-- ===== src/PoolHealth/Monitor/FailClosed.antt =====
-- What a probe round that ends without an error has selected.
use sing_box_webui.Prelude.{
  String, ◌≤◌, arith, ◌≡◌, refl, ◌⊎◌, inl, inr, Bool, true, false, List, [], ◌∷◌, Option, none,
  some, All, map, length, Bool-cases, str_eq, Result, ok, err, ◌∙◌,
}
use sing_box_webui.Prelude.Int.{ℤ}
use sing_box_webui.PoolHealth.Model.{Target, Config, MemberState, ProbeResult}
use sing_box_webui.PoolHealth.Selection.{best_selection}
use sing_box_webui.PoolHealth.Selection.Choice.{IsProbed, FailsClosed, best_selection-FailsClosed}
use sing_box_webui.PoolHealth.Snapshots.{Monitor}
use sing_box_webui.PoolHealth.Monitor.{
  Outcome, Round, probe_result, probe_targets, apply_round, idle_selection, select_outbound,
  finish_round, apply_probes, check_targets, first_round, settle, start_with, start, install,
  ConfigError, validate_config,
}
use sing_box_webui.PoolHealth.Monitor.Soundness.{
  IsGood, IsSound, apply_round-IsGood, map-HasTests, install-IsSound,
}
use sing_box_webui.PoolHealth.Monitor.Policy.{validate_config-IsUsable}

good-IsProbed : (config : Config) (ms : List MemberState) → All (IsGood config) ms → All IsProbed ms
good-IsProbed config [] g = tt
good-IsProbed config (m ∷ ms) g = (g.0.1, good-IsProbed config ms g.1)

idle_selection_cases :
    (b : Bool) (s : String)
    → (idle_selection b s ≡ s) ⊎ ((b ≡ true) × (idle_selection b s ≡ "auto"))
unfolding idle_selection
idle_selection_cases false s = inl refl
idle_selection_cases true s = elim (Bool-cases (str_eq s "block")) [
  | inl e ↦ inl (rw e)
  | inr e ↦ inr (refl, rw e)
]

-- Fails closed, or the automatic group is selected in an idle monitor.
abbrev pub IsClosed : Bool → Monitor → Type 0
IsClosed idle m = FailsClosed m.members m.selected ⊎ ((idle ≡ true) × (m.selected ≡ "auto"))

finish_round-IsClosed :
    (round : Round) (selection : String) (e : Option String) (m : Monitor) (idle : Bool)
    → FailsClosed m.members selection ⊎ ((idle ≡ true) × (selection ≡ "auto"))
    → (finish_round round selection e m).1 ≡ none
    → IsClosed idle (finish_round round selection e m).0
unfolding finish_round
finish_round-IsClosed round selection none m idle h e = h
finish_round-IsClosed round selection (some x) m idle h e = cc

apply_probes-IsClosed :
    (round : Round) (outcomes : Result String (List Outcome)) (ts : List Target) (m : Monitor)
    → IsSound m
    → (apply_probes round (probe_targets ts m.config.probe_urls outcomes) m).1 ≡ none
    → IsClosed m.idle (apply_probes round (probe_targets ts m.config.probe_urls outcomes) m).0
unfolding apply_probes probe_targets
apply_probes-IsClosed round (err e) ts m h n = cc
apply_probes-IsClosed round (ok os) ts m h n =
    finish_round-IsClosed round selection (select_outbound round.select_error selection)
      (record m { members = members }) m.idle closed n
  where
    members : List MemberState
    members =
        apply_round m.config (map (probe_result (length m.config.probe_urls) os) ts) round.now
          m.members

    best : String
    best = best_selection m.config m.selected members

    selection : String
    selection = idle_selection m.idle best

    probed : All IsProbed members
    probed = good-IsProbed m.config members (
        apply_round-IsGood m.config h.policy round.now
          (map (probe_result (length m.config.probe_urls) os) ts) m.members
          (map-HasTests (length m.config.probe_urls) os ts h.urls) h.good)

    closed : FailsClosed members selection ⊎ ((m.idle ≡ true) × (selection ≡ "auto"))
    closed = elim (idle_selection_cases m.idle best) [
      | inl e ↦ rw e (inl (best_selection-FailsClosed m.config m.selected members probed))
      | inr e ↦ inr e
    ]

-- From a sound monitor, a round over some targets that returns no error has selected a candidate, or
-- `block` if there is none; or `auto`, if the monitor was idle.
pub check_targets-IsClosed :
    (round : Round) (t : Target) (ts : List Target) (m : Monitor)
    → IsSound m
    → (check_targets round (t ∷ ts) m).1 ≡ none
    → IsClosed m.idle (check_targets round (t ∷ ts) m).0
unfolding check_targets
check_targets-IsClosed round t ts m h n = apply_probes-IsClosed round round.probed (t ∷ ts) m h n

finish_round-running :
    (round : Round) (s : String) (e : Option String) (m : Monitor)
    → (finish_round round s e m).0.running ≡ m.running
unfolding finish_round
finish_round-running round s none m = refl
finish_round-running round s (some e) m = refl

apply_probes-running :
    (round : Round) (r : Result String (List ProbeResult)) (m : Monitor)
    → (apply_probes round r m).0.running ≡ m.running
unfolding apply_probes
apply_probes-running round (err e) m = refl
apply_probes-running round (ok rs) m =
    let members = apply_round m.config rs round.now m.members in
    let selection = idle_selection m.idle (best_selection m.config m.selected members) in
    finish_round-running round selection (select_outbound round.select_error selection)
      (record m { members = members })

-- What a monitor that has been started shows.
abbrev pub IsStarted : Monitor → Type 0
IsStarted m = (m.running ≡ true) × FailsClosed m.members m.selected

settle-IsStarted :
    (now : ℤ) (r : Monitor × Option String)
    → (r.1 ≡ none → IsStarted r.0)
    → (settle now r).1 ≡ none
    → IsStarted (settle now r).0
unfolding settle
settle-IsStarted now (m, none) h n = h refl
settle-IsStarted now (m, some e) h n = cc

first_check :
    (round : Round) (ts : List Target) (m : Monitor)
    → IsSound m
    → 2 ≤ length ts
    → m.idle ≡ false
    → m.running ≡ true
    → (check_targets round ts m).1 ≡ none
    → IsStarted (check_targets round ts m).0
unfolding check_targets
first_check round [] m h l idle run n = absurd (omega arith)
first_check round (t ∷ ts) m h l idle run n = (
  apply_probes-running round (probe_targets (t ∷ ts) m.config.probe_urls round.probed) m ∙ run,
  elim (apply_probes-IsClosed round round.probed (t ∷ ts) m h n) [
    | inl c ↦ c
    | inr c ↦ cc (c.0, idle)
  ],
)

first_round-IsStarted :
    (e : Option String) (round : Round) (m : Monitor)
    → IsSound m
    → 2 ≤ length m.config.targets
    → m.idle ≡ false
    → m.running ≡ true
    → (first_round e round m).1 ≡ none
    → IsStarted (first_round e round m).0
unfolding first_round
first_round-IsStarted none round m h l idle run n =
    first_check round m.config.targets m h l idle run n
first_round-IsStarted (some e) round m h l idle run n = cc

start_with-IsStarted :
    (r : Result ConfigError (Unit {0})) (config : Config) (now : ℤ) (ready : Option String)
    (round : Round) (m : Monitor)
    → validate_config config ≡ r
    → (start_with r config now ready round m).1 ≡ none
    → IsStarted (start_with r config now ready round m).0
unfolding start_with install
start_with-IsStarted (err e) config now ready round m p n = cc
start_with-IsStarted (ok tt) config now ready round m p n =
    let u = validate_config-IsUsable config p in
    settle-IsStarted round.now (first_round ready round (install config now m))
      (first_round-IsStarted ready round (install config now m) (install-IsSound config now m u)
        u.has_targets refl refl)
      n

-- A start that returns no error leaves a running monitor whose selection is made: a candidate's tag,
-- or `block` where no member is a candidate.
pub start-IsStarted :
    (config : Config) (now : ℤ) (ready : Option String) (round : Round) (m : Monitor)
    → (start config now ready round m).1 ≡ none
    → IsStarted (start config now ready round m).0
unfolding start
start-IsStarted config now ready round m n =
    start_with-IsStarted (validate_config config) config now ready round m refl n
