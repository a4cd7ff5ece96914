-- ===== src/TrafficPolicy/Takeover.antt =====
-- What holds of the policy between its steps: while a call of `Apply` is under way the policy says so,
-- and what it applies is the download pool or the pool from which it has taken over.
pub mod Updates
use sing_box_webui.Prelude.{
  ℕ, String, ◌≡◌, refl, ap, ◌∙◌, Bool, true, false, not, ◌&&◌, Option, none, some, arith,
  if◌then◌else◌, str_eq, Result, ok, err, Bool-cases, inl, inr,
}
use sing_box_webui.Prelude.Int.{ℤ, leb_ℤ, ltb_ℤ, ◌-ℤ◌}
use sing_box_webui.TrafficPolicy.Model.{
  State, disabled, waiting, monitoring, triggering, active, recovering, cooldown, failed, Config,
  Runtime, Manager, Flight, switches, rolls_back, returns, disables,
}
use sing_box_webui.TrafficPolicy.{
  is_active, is_cooldown, is_switching, add_event, reset_samples, finish_cycle, fail, sample_of,
  is_cooling, is_first, rated_step, first_sampled, measured_release, release_step, measured_trigger,
  trigger_step, monitor_step,
}
use sing_box_webui.TrafficPolicy.Calls.{
  since_last, sampled, watched, warmed, tick, validate, UpdateError, updated, update, landed,
}

-- The policy is enabled, and has taken over from a pool other than the download pool, which it shows.
pub record IsTakeover (m : Manager) : Type 0 where
  pub enabled : m.config.enabled ≡ true
  pub elsewhere : str_eq m.original.pool_id m.config.download_pool_id ≡ false
  pub shown : m.original.pool_id ≡ m.original_pool_id

-- By the call that is under way, if one is.
unfoldable pub IsSafe : Manager → Option Flight → Type 0
IsSafe m none = (is_switching m.state ≡ false) × (is_active m.state ≡ true → IsTakeover m)
IsSafe m (some (switches now target)) =
    (m.state ≡ triggering) × IsTakeover m × (target.pool_id ≡ m.config.download_pool_id)
IsSafe m (some (rolls_back now e target)) =
    (m.state ≡ recovering) × IsTakeover m × (target ≡ m.original)
IsSafe m (some (returns now target)) = (m.state ≡ recovering) × IsTakeover m × (target ≡ m.original)
IsSafe m (some (disables target)) = (m.config.enabled ≡ false) × (is_active m.state ≡ false)

abbrev pub Safe : Manager × Option Flight → Type 0
Safe (m, f) = IsSafe m f

release-IsSafe :
    (now : ℤ) (m : Manager) → m.state ≡ active → IsTakeover m → Safe (release_step now m)
unfolding release_step IsSafe
release-IsSafe now m s t = elim (Bool-cases (leb_ℤ m.config.release_duration m.release_progress)) [
  | inl e ↦
      rw e (refl, record { enabled = t.enabled; elsewhere = t.elsewhere; shown = t.shown }, refl)
  | inr e ↦ rw e (ap is_switching s, λ _. t)
]

measured_release-IsSafe :
    (now rate : ℤ) (m : Manager)
    → m.state ≡ active
    → IsTakeover m
    → Safe (release_step now (measured_release now rate m))
unfolding measured_release
measured_release-IsSafe now rate m s t = elim (Bool-cases (leb_ℤ rate m.config.release_rate)) [
  | inl e ↦ rw e (
      release-IsSafe now _ s
        (record { enabled = t.enabled; elsewhere = t.elsewhere; shown = t.shown }))
  | inr e ↦ rw e (
      release-IsSafe now _ s
        (record { enabled = t.enabled; elsewhere = t.elsewhere; shown = t.shown }))
]

trigger-IsSafe :
    (now : ℤ) (r : Runtime) (m : Manager)
    → m.state ≡ monitoring
    → m.config.enabled ≡ true
    → str_eq r.pool_id m.config.download_pool_id ≡ false
    → Safe (trigger_step now r m)
unfolding trigger_step IsSafe
trigger-IsSafe now r m s e d =
    elim (Bool-cases (ltb_ℤ m.trigger_progress m.config.trigger_duration)) [
      | inl f ↦ rw (f, s) (refl, λ h. absurd (ground arith))
      | inr f ↦ rw f (refl, record { enabled = e; elsewhere = d; shown = refl }, refl)
    ]

measured_trigger-IsSafe :
    (now rate : ℤ) (r : Runtime) (m : Manager)
    → m.state ≡ monitoring
    → m.config.enabled ≡ true
    → str_eq r.pool_id m.config.download_pool_id ≡ false
    → Safe (trigger_step now r (measured_trigger now rate m))
unfolding measured_trigger
measured_trigger-IsSafe now rate r m s e d = elim (Bool-cases (leb_ℤ m.config.trigger_rate rate)) [
  | inl f ↦ rw f (trigger-IsSafe now r _ s e d)
  | inr f ↦ rw f (trigger-IsSafe now r _ s e d)
]

monitor-IsSafe :
    (now rate : ℤ) (r : Runtime) (m : Manager)
    → m.state ≡ monitoring
    → m.config.enabled ≡ true
    → Safe (monitor_step now r rate m)
unfolding monitor_step
monitor-IsSafe now rate r m s e = elim (Bool-cases (str_eq r.pool_id m.config.download_pool_id)) [
  | inl f ↦
      rw f
        (unfold IsSafe in (ap is_switching s, λ h. let g = ap is_active s in absurd (ground arith)))
  | inr f ↦ rw f (measured_trigger-IsSafe now rate r m s e f)
]

active_state : (s : State) → is_active s ≡ true → s ≡ active
active_state active h = refl
active_state disabled h = absurd (ground arith)
active_state waiting h = absurd (ground arith)
active_state monitoring h = absurd (ground arith)
active_state triggering h = absurd (ground arith)
active_state recovering h = absurd (ground arith)
active_state cooldown h = absurd (ground arith)
active_state failed h = absurd (ground arith)

rated-IsSafe :
    (now rate : ℤ) (r : Runtime) (m : Manager)
    → m.config.enabled ≡ true
    → (is_active m.state ≡ true → IsTakeover m)
    → Safe (rated_step now r rate m)
unfolding rated_step
rated-IsSafe now rate r m e t = elim (Bool-cases (is_active m.state)) [
  | inl a ↦ rw a (measured_release-IsSafe now rate m (active_state m.state a) (t a))
  | inr a ↦ rw a (monitor-IsSafe now rate r (record m { state = monitoring }) refl e)
]

module _ (rate_of : ℤ → ℤ → ℤ) where
  since-IsSafe :
      (now : ℤ) (r : Runtime) (total at connections : ℤ) (o : Option ℤ) (m : Manager)
      → m.config.enabled ≡ true
      → IsSafe m none
      → Safe (since_last rate_of now r total at connections o m)
  unfolding since_last IsSafe
  since-IsSafe now r total at connections none m e h = h
  since-IsSafe now r total at connections (some last) m e h =
      rated-IsSafe now (rate_of (total -ℤ m.last_total) (at -ℤ last)) r
        (record m {
          last_total = total;
          last_sample = some at;
          current_download_bps = rate_of (total -ℤ m.last_total) (at -ℤ last);
          active_connections = connections;
        })
        e
        (λ a.
          let t = h.1 a in record { enabled = t.enabled; elsewhere = t.elsewhere; shown = t.shown })

  first-IsSafe :
      (total at connections : ℤ) (m : Manager)
      → IsSafe m none
      → IsSafe (first_sampled total at connections m) none
  unfolding first_sampled IsSafe
  first-IsSafe total at connections m h = elim (Bool-cases (is_active m.state)) [
    | inl a ↦ rw a (
      h.0,
      λ _.
          let t = h.1 a in record { enabled = t.enabled; elsewhere = t.elsewhere; shown = t.shown },
    )
    | inr a ↦ rw a (refl, λ b. absurd (ground arith))
  ]

  sampled-IsSafe :
      (now : ℤ) (r : Runtime) (total at connections : ℤ) (m : Manager)
      → m.config.enabled ≡ true
      → IsSafe m none
      → Safe (sampled rate_of now r total at connections m)
  unfolding sampled
  sampled-IsSafe now r total at connections m e h =
      elim (Bool-cases (is_first total at m.last_total m.last_sample)) [
        | inl f ↦ rw f (first-IsSafe total at connections m h)
        | inr f ↦ rw f (since-IsSafe now r total at connections m.last_sample m e h)
      ]

  watched-IsSafe :
      (clock now : ℤ) (r : Runtime) (o : Option (ℤ × ℤ × ℤ)) (m : Manager)
      → m.config.enabled ≡ true
      → IsSafe m none
      → Safe (watched rate_of clock now r o m)
  unfolding watched
  watched-IsSafe clock now r none m e h =
      unfold IsSafe reset_samples in (refl, λ b. absurd (ground arith))
  watched-IsSafe clock now r (some (total, at, connections)) m e h =
      elim (Bool-cases (is_active m.state && not (str_eq r.pool_id m.config.download_pool_id))) [
        | inl f ↦
            rw f (unfold IsSafe finish_cycle reset_samples in (refl, λ b. absurd (ground arith)))
        | inr f ↦ rw f (sampled-IsSafe now r total at connections m e h)
      ]

  warmed-IsSafe : (m : Manager) → IsSafe m none → IsSafe (warmed rate_of m) none
  unfolding warmed IsSafe
  warmed-IsSafe m h = elim (Bool-cases (is_cooldown m.state)) [
    | inl e ↦ rw e (
      h.0,
      λ a.
          let t = h.1 a in record { enabled = t.enabled; elsewhere = t.elsewhere; shown = t.shown },
    )
    | inr e ↦ rw e h
  ]

  warmed_config : (m : Manager) → (warmed rate_of m).config ≡ m.config
  unfolding warmed
  warmed_config m = elim (Bool-cases (is_cooldown m.state)) [
    | inl e ↦ rw e refl
    | inr e ↦ rw e refl
  ]

  tick_by :
      (clock now : ℤ) (r : Runtime) (m : Manager) (on cool : Bool)
      → m.config.enabled ≡ on
      → IsSafe m none
      → Safe (
          if not on
          then (record m { state = disabled }, none)
          else if cool
          then (record m { state = cooldown }, none)
          else watched rate_of clock now r (sample_of r) (warmed rate_of m))
  tick_by clock now r m false cool e h = unfold IsSafe in (refl, λ a. absurd (ground arith))
  tick_by clock now r m true true e h = unfold IsSafe in (refl, λ a. absurd (ground arith))
  tick_by clock now r m true false e h =
      watched-IsSafe clock now r (sample_of r) (warmed rate_of m)
        (ap (λ (c : Config). c.enabled) (warmed_config m) ∙ e) (warmed-IsSafe m h)

  pub tick-IsSafe :
      (clock now : ℤ) (r : Runtime) (m : Manager)
      → IsSafe m none
      → Safe (tick rate_of clock now r m)
  unfolding tick
  tick-IsSafe clock now r m h =
      tick_by clock now r m m.config.enabled (is_cooling now m.cooldown_until) refl h

  -- A tick of a policy that is disabled makes no call.
  pub idle-tick :
      (clock now : ℤ) (r : Runtime) (m : Manager)
      → m.config.enabled ≡ false
      → tick rate_of clock now r m ≡ (record m { state = disabled }, none)
  unfolding tick
  idle-tick clock now r m e = rw e refl
