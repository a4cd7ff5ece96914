-- ===== src/TrafficPolicy/Takeover/Updates.antt =====
-- An update, and the end of a call of `Apply`, keep the policy safe.
use sing_box_webui.Prelude.{
  ℕ, String, ◌≡◌, refl, Bool, true, false, ◌&&◌, Option, none, some, arith, Result, ok, err,
  Bool-cases, inl, inr,
}
use sing_box_webui.Prelude.Int.{ℤ}
use sing_box_webui.TrafficPolicy.Model.{
  Config, Manager, Flight, switches, rolls_back, returns, disables,
}
use sing_box_webui.TrafficPolicy.{
  is_active, is_switching, add_event, reset_samples, finish_cycle, fail,
}
use sing_box_webui.TrafficPolicy.Calls.{validate, UpdateError, updated, update, landed}
use sing_box_webui.TrafficPolicy.Takeover.{IsSafe, Safe}

updated-IsSafe :
    (clock : ℤ) (input : Config) (m : Manager) (b : Bool)
    → (b && input.enabled) ≡ false
    → Safe (updated clock input m b)
unfolding updated IsSafe add_event reset_samples
updated-IsSafe clock input m true h = (h, refl)
updated-IsSafe clock input m false h = elim (Bool-cases input.enabled) [
  | inl e ↦ rw e (refl, λ a. absurd (ground arith))
  | inr e ↦ rw e (refl, λ a. absurd (ground arith))
]

pub landed-IsSafe :
    (clock : ℤ) (f : Flight) (o : Option String) (m : Manager)
    → IsSafe m (some f)
    → Safe (landed clock f o m)
unfolding landed IsSafe finish_cycle reset_samples fail add_event
landed-IsSafe clock (switches now target) none m (s, t, p) =
    (refl, λ _. record { enabled = t.enabled; elsewhere = t.elsewhere; shown = t.shown })
landed-IsSafe clock (switches now target) (some e) m (s, t, p) =
    (refl, record { enabled = t.enabled; elsewhere = t.elsewhere; shown = t.shown }, refl)
landed-IsSafe clock (rolls_back now e target) none m h = (refl, λ a. absurd (ground arith))
landed-IsSafe clock (rolls_back now e target) (some f) m h = (refl, λ a. absurd (ground arith))
landed-IsSafe clock (returns now target) none m h = (refl, λ a. absurd (ground arith))
landed-IsSafe clock (returns now target) (some e) m h = (refl, λ a. absurd (ground arith))
landed-IsSafe clock (disables target) none m h = (refl, λ a. absurd (ground arith))
landed-IsSafe clock (disables target) (some e) m h = (refl, λ a. absurd (ground arith))

-- What an update leaves under way: nothing new where it is refused.
abbrev pub SafeUpdate : Manager × Result UpdateError (Option Flight) → Type 0
SafeUpdate (m, ok f) = IsSafe m f
SafeUpdate (m, err e) = IsSafe m none

module _ (available : String → Option ℕ) where
  pub update-IsSafe :
      (saved : Bool) (clock : ℤ) (input : Config) (m : Manager)
      → IsSafe m none
      → SafeUpdate (update available saved clock input m)
  unfolding update IsSafe
  update-IsSafe saved clock input m h = elim (Bool-cases (validate available input)) [
    | inr v ↦ rw v h
    | inl v ↦ elim (Bool-cases (is_active m.state && input.enabled)) [
      | inl a ↦ rw (v, h.0, a) h
      | inr a ↦ elim (Bool-cases saved) [
        | inr s ↦ rw (v, h.0, a, s) h
        | inl s ↦ rw (v, h.0, a, s) (updated-IsSafe clock input m (is_active m.state) a)
      ]
    ]
  ]

  -- While a call of a tick is under way, an update is refused.
  pub update_refused :
      (saved : Bool) (clock : ℤ) (input : Config) (m : Manager)
      → is_switching m.state ≡ true
      → (update available saved clock input m).0 ≡ m
  unfolding update
  update_refused saved clock input m h = elim (Bool-cases (validate available input)) [
    | inr v ↦ rw v refl
    | inl v ↦ rw (v, h) refl
  ]
