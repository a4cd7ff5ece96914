-- ===== src/TrafficPolicy/Runs.antt =====
-- The policy over time: the ticks of `Run`, which waits for the calls that it makes itself, the
-- updates, and the ends of the calls of `Apply`. No update is made while the call of an earlier
-- update is under way; a tick may come then.
use sing_box_webui.Prelude.{
  ℕ, String, ◌≡◌, refl, sym, ap, subst, Bool, true, false, [], Option, none, some, arith,
  if◌then◌else◌, Result, ok, err,
}
use sing_box_webui.Prelude.Int.{ℤ, pos}
use sing_box_webui.TrafficPolicy.Model.{
  disabled, waiting, Config, ApplyInput, Runtime, Manager, Flight, switches, rolls_back, returns,
  disables,
}
use sing_box_webui.TrafficPolicy.{is_switching, is_active, no_apply}
use sing_box_webui.TrafficPolicy.Calls.{tick, UpdateError, update, landed}
use sing_box_webui.TrafficPolicy.Takeover.{IsTakeover, IsSafe, Safe, tick-IsSafe, idle-tick}
use sing_box_webui.TrafficPolicy.Takeover.Updates.{
  SafeUpdate, update-IsSafe, update_refused, landed-IsSafe,
}

-- Open, with the configuration that is stored, or the default one
unfoldable pub opened : Config → Manager
opened c = record {
  config = c;
  shown_config = c;
  disk = c;
  state = if c.enabled then waiting else disabled;
  current_download_bps = pos 0;
  active_connections = pos 0;
  trigger_progress = pos 0;
  release_progress = pos 0;
  original_pool_id = "";
  original_pool_name = "";
  activated_at = none;
  cooldown_until = none;
  last_error = "";
  events = [];
  original = no_apply;
  last_total = pos 0;
  last_sample = none;
  above_since = none;
  below_since = none;
}

pub started : Manager × Result UpdateError (Option Flight) → Manager × Option Flight
started (m, ok f) = (m, f)
started (m, err e) = (m, none)

-- The call of a tick that comes while the call of an update is under way would be lost here: there is
-- none, since the policy is then disabled.
pub or_flight : Option Flight → Flight → Option Flight
or_flight none f = some f
or_flight (some g) f = some g

-- A call that a tick makes
abbrev pub IsOfTick : Flight → Type 0
IsOfTick (switches now target) = Unit {0}
IsOfTick (rolls_back now e target) = Unit {0}
IsOfTick (returns now target) = Unit {0}
IsOfTick (disables target) = ⊥

module _ (rate_of : ℤ → ℤ → ℤ) where
  pub data Step : Manager × Option Flight → Manager × Option Flight → Type 0 where
    ticks :
        (clock now : ℤ) (r : Runtime) (m : Manager) → Step (m, none) (tick rate_of clock now r m)
    ticks_on :
        (clock now : ℤ) (r : Runtime) (m : Manager) (target : ApplyInput)
        → Step
            (m, some (disables target))
            (
              (tick rate_of clock now r m).0,
              or_flight (tick rate_of clock now r m).1 (disables target),
            )
    updates :
        (available : String → Option ℕ) (saved : Bool) (clock : ℤ) (input : Config) (m : Manager)
        → Step (m, none) (started (update available saved clock input m))
    updates_on :
        (available : String → Option ℕ) (saved : Bool) (clock : ℤ) (input : Config) (m : Manager)
        (f : Flight)
        → IsOfTick f
        → Step (m, some f) ((update available saved clock input m).0, some f)
    lands :
        (clock : ℤ) (f : Flight) (o : Option String) (m : Manager)
        → Step (m, some f) (landed clock f o m)

  pub data Reaches : Manager × Option Flight → Manager × Option Flight → Type 0 where
    here : (w : Manager × Option Flight) → Reaches w w
    there : (u v w : Manager × Option Flight) → Step u v → Reaches v w → Reaches u w

  started-IsSafe :
      (r : Manager × Result UpdateError (Option Flight)) → SafeUpdate r → Safe (started r)
  unfolding started
  started-IsSafe (m, ok f) h = h
  started-IsSafe (m, err e) h = h

  tick_switching :
      (f : Flight) (m : Manager) → IsOfTick f → IsSafe m (some f) → is_switching m.state ≡ true
  unfolding IsSafe
  tick_switching (switches now target) m k h = ap is_switching h.0
  tick_switching (rolls_back now e target) m k h = ap is_switching h.0
  tick_switching (returns now target) m k h = ap is_switching h.0
  tick_switching (disables target) m k h = absurd k

  Step-IsSafe : {u v : Manager × Option Flight} → Step u v → Safe u → Safe v
  Step-IsSafe (ticks clock now r m) h = tick-IsSafe rate_of clock now r m h
  Step-IsSafe (ticks_on clock now r m target) h =
      unfold IsSafe or_flight in rw (idle-tick rate_of clock now r m h.0) (h.0, refl)
  Step-IsSafe (updates available saved clock input m) h =
      started-IsSafe (update available saved clock input m)
        (update-IsSafe available saved clock input m h)
  Step-IsSafe (updates_on available saved clock input m f k) h =
      subst (λ n. IsSafe n (some f))
        (sym (update_refused available saved clock input m (tick_switching f m k h))) h
  Step-IsSafe (lands clock f o m) h = landed-IsSafe clock f o m h

  reached-IsSafe : {u v : Manager × Option Flight} → Reaches u v → Safe u → Safe v
  reached-IsSafe (here w) h = h
  reached-IsSafe (there u v w s r) h = reached-IsSafe r (Step-IsSafe s h)

  opened-IsSafe : (c : Config) → IsSafe (opened c) none
  unfolding IsSafe opened
  opened-IsSafe c = by_enabled c.enabled
    where
      by_enabled :
          (b : Bool)
          → (is_switching (if b then waiting else disabled) ≡ false)
            × (is_active (if b then waiting else disabled) ≡ true → IsTakeover (opened c))
      by_enabled true = (refl, λ a. absurd (ground arith))
      by_enabled false = (refl, λ a. absurd (ground arith))

  -- After any ticks, updates and ends of calls, where no update is made while the call of an earlier one
  -- is under way: a call that a tick has under way is the switch to the configured download pool, with
  -- the state triggering, or the return to the pool taken over from, with the state recovering; with no
  -- call under way the state is neither; during such a call, and where the policy is active, it is
  -- enabled, and has taken over from a pool that is not the download pool and that it shows; and while the
  -- call of an update is under way, the policy is disabled and not active.
  pub policy-IsSafe :
      (c : Config) (m : Manager) (f : Option Flight) → Reaches (opened c, none) (m, f) → IsSafe m f
  policy-IsSafe c m f r = reached-IsSafe r (opened-IsSafe c)
