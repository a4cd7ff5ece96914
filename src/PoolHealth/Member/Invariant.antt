-- ===== src/PoolHealth/Member/Invariant.antt =====
-- What holds of every member that the monitor keeps, and when it is probed next.
use sing_box_webui.Prelude.{
  ◌+◌, ◌-◌, ◌^◌, ◌<◌, ◌≡◌, refl, true, ◌&&◌, List, [], ◌∷◌, Option, none, some, arith, Bool-cases,
  inl, inr, ◌==◌,
}
use sing_box_webui.Prelude.Int.{
  ℤ, pos, negsuc, ◌+ℤ◌, ◌≤ℤ◌, ◌<ℤ◌, leb_ℤ, ltb_ℤ, int_laws, leb_ℤ→le, ltb_ℤ→lt, leb_ℤ-false,
}
use sing_box_webui.PoolHealth.Model.{
  Status, unknown, healthy, degraded, quarantined, outage, same_status, fast_retry, initial_backoff,
  Config, MemberState, ProbeResult,
}
use sing_box_webui.PoolHealth.Backoff.{backoff_for, backoff_for_bounds}
use sing_box_webui.PoolHealth.Member.{
  is_partial, apply_failure, apply_success, apply_result, apply_results,
}

-- What the status of a member says of its counters, under a policy.
abbrev pub Fits : Config → Status → MemberState → Type 0
Fits config unknown m = (m.failures ≡ 0) × (m.recovery_successes ≡ 0) × (m.total_tests ≡ 0)
Fits config healthy m = (m.failures ≡ 0) × (m.recovery_successes ≡ 0) × (0 < m.passed_tests)
Fits config degraded m =
    (pos m.failures <ℤ config.consecutive_failures) × (m.recovery_successes ≡ 0)
Fits config quarantined m =
    (config.consecutive_failures ≤ℤ pos m.failures)
    × (pos m.recovery_successes <ℤ config.recovery_successes)
Fits config outage m = ⊥

pub record IsWell (config : Config) (m : MemberState) : Type 0 where
  pub fits : Fits config m.status m

-- A policy that `validateConfig` accepts, as far as one member depends on it.
pub record IsPolicy (config : Config) : Type 0 where
  pub failures_pos : pos 0 <ℤ config.consecutive_failures
  pub recovery_pos : pos 0 <ℤ config.recovery_successes

module _ (config : Config) (m : MemberState) (r : ProbeResult) (now : ℤ) (p : IsPolicy config) where
  failure-IsWell : IsWell config (apply_failure config m r now)
  unfolding apply_failure
  failure-IsWell = elim (Bool-cases (leb_ℤ config.consecutive_failures (pos (m.failures + 1)))) [
    | inl e ↦ rw e (record {
      fits = (leb_ℤ→le config.consecutive_failures (pos (m.failures + 1)) e, p.recovery_pos);
    })
    | inr e ↦
        rw e (record {
          fits = (leb_ℤ-false config.consecutive_failures (pos (m.failures + 1)) e, refl);
        })
  ]

  -- A passing result in quarantine keeps the status, and counts towards the recovery.
  recovering-Fits :
      (s : Status)
      → Fits config s m
      → (same_status s quarantined
          && ltb_ℤ (pos (m.recovery_successes + 1)) config.recovery_successes)
        ≡ true
      → Fits config s (record m {
        last_checked_at = some now;
        passed_tests = r.successes;
        total_tests = r.total;
        latency_ms = r.latency_ms;
        recovery_successes = m.recovery_successes + 1;
        next_probe_at = some (now +ℤ fast_retry);
      })
  recovering-Fits unknown f h = cc
  recovering-Fits healthy f h = cc
  recovering-Fits degraded f h = cc
  recovering-Fits quarantined f h =
      (f.0, ltb_ℤ→lt (pos (m.recovery_successes + 1)) config.recovery_successes h)
  recovering-Fits outage f h = cc

  success-IsWell : IsWell config m → 0 < r.successes → IsWell config (apply_success config m r now)
  unfolding apply_success
  success-IsWell w h =
      elim (Bool-cases (
        same_status m.status quarantined
        && ltb_ℤ (pos (m.recovery_successes + 1)) config.recovery_successes)) [
          | inl e ↦ rw e (record { fits = recovering-Fits m.status w.fits e })
          | inr e ↦ rw e (elim (Bool-cases (is_partial config r)) [
            | inl partial ↦ rw partial (record { fits = (p.failures_pos, refl) })
            | inr full ↦ rw full (record { fits = (refl, refl, h) })
          ])
        ]

  -- One result, whichever it is, leaves the status of a member in step with its counters.
  pub apply_result-IsWell : IsWell config m → IsWell config (apply_result config m r now)
  unfolding apply_result
  apply_result-IsWell w = elim (Bool-cases (r.successes == 0)) [
    | inl e ↦ rw e failure-IsWell
    | inr e ↦ rw e (success-IsWell w (ground arith))
  ]

pub apply_results-IsWell :
    (config : Config) (m : MemberState) (rs : List (ProbeResult × ℤ))
    → IsPolicy config
    → IsWell config m
    → IsWell config (apply_results config m rs)
unfolding apply_results
apply_results-IsWell config m [] p w = w
apply_results-IsWell config m ((r, now) ∷ rs) p w =
    apply_results-IsWell config (apply_result config m r now) rs p
      (apply_result-IsWell config m r now p w)

-- A policy whose durations make the next probe a later one.
pub record IsTimed (config : Config) : Type 0 where
  pub interval_pos : pos 0 <ℤ config.interval
  pub backoff_min : initial_backoff ≤ℤ config.max_backoff
  pub backoff_max : config.max_backoff ≤ℤ pos (2 ^ 63 - 1)

abbrev pub IsDueWithin : ℤ → ℤ → Option ℤ → Type 0
IsDueWithin now span none = ⊥
IsDueWithin now span (some t) = (now <ℤ t) × (t ≤ℤ now +ℤ span)

backoff_in_range :
    (e b : ℤ)
    → initial_backoff ≤ℤ b
    → b ≤ℤ pos (2 ^ 63 - 1)
    → (initial_backoff ≤ℤ backoff_for e b) × (backoff_for e b ≤ℤ b)
backoff_in_range e (pos m) h k = backoff_for_bounds e m (omega arith) (omega arith)
backoff_in_range e (negsuc m) h k = absurd (omega arith)

-- Where the interval is positive, the maximal backoff is at least the initial backoff and fits an int64,
-- and `span` is at least both, the member is after any result due strictly later than now and at most
-- `span` later.
pub next_probe_within :
    (config : Config) (m : MemberState) (r : ProbeResult) (now span : ℤ)
    → IsTimed config
    → config.interval ≤ℤ span
    → config.max_backoff ≤ℤ span
    → IsDueWithin now span (apply_result config m r now).next_probe_at
unfolding apply_result
next_probe_within config m r now span t hi hb = elim (Bool-cases (r.successes == 0)) [
  | inl e ↦ rw e (elim (Bool-cases (leb_ℤ config.consecutive_failures (pos (m.failures + 1)))) [
    | inl q ↦ rw q (in_span _ (backed_off _))
    | inr q ↦ rw q (in_span _ retried)
  ])
  | inr e ↦
      rw e
        (elim (Bool-cases (
          same_status m.status quarantined
          && ltb_ℤ (pos (m.recovery_successes + 1)) config.recovery_successes)) [
            | inl q ↦ rw q (in_span _ retried)
            | inr q ↦ rw q (in_span _ (t.interval_pos, hi))
          ])
]
  where
    in_span : (d : ℤ) → (pos 0 <ℤ d) × (d ≤ℤ span) → (now <ℤ now +ℤ d) × (now +ℤ d ≤ℤ now +ℤ span)
    in_span d h = (omega int_laws, omega int_laws)

    retried : (pos 0 <ℤ fast_retry) × (fast_retry ≤ℤ span)
    retried = (omega arith, omega (arith, t.backoff_min))

    backed_off :
        (e : ℤ)
        → (pos 0 <ℤ backoff_for e config.max_backoff) × (backoff_for e config.max_backoff ≤ℤ span)
    backed_off e =
        let b = backoff_in_range e config.max_backoff t.backoff_min t.backoff_max in
        (omega arith, omega arith)
