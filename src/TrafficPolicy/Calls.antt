-- ===== src/TrafficPolicy/Calls.antt =====
-- `tick`, `Update` and `validate`, and the steps of the policy.
use Prim.Native.String.{◌++◌}
use sing_box_webui.Prelude.{
  ℕ, String, Bool, true, false, not, ◌&&◌, ◌||◌, Option, none, some, if◌then◌else◌, str_eq, Result,
  ok, err, ltb,
}
use sing_box_webui.Prelude.Int.{ℤ, pos, ◌-ℤ◌, ltb_ℤ, leb_ℤ}
use sing_box_webui.TrafficPolicy.Model.{
  disabled, waiting, active, recovering, cooldown, Config, Runtime, Manager, Flight, switches,
  rolls_back, returns, disables,
}
use sing_box_webui.TrafficPolicy.{
  is_active, is_cooldown, is_switching, add_event, reset_rate, reset_samples, finish_cycle, fail,
  sample_of, is_cooling, is_first, rated_step, first_sampled,
}

module _ (rate_of : ℤ → ℤ → ℤ) where
  unfoldable pub since_last : ℤ → Runtime → ℤ → ℤ → ℤ → Option ℤ → Manager → Manager × Option Flight
  unfolding rated_step
  since_last now r total at connections none m = (m, none)
  since_last now r total at connections (some last) m =
      let rate = rate_of (total -ℤ m.last_total) (at -ℤ last) in
      rated_step now r rate (record m {
        last_total = total;
        last_sample = some at;
        current_download_bps = rate;
        active_connections = connections;
      })

  unfoldable pub sampled : ℤ → Runtime → ℤ → ℤ → ℤ → Manager → Manager × Option Flight
  unfolding is_first first_sampled since_last
  sampled now r total at connections m =
      if is_first total at m.last_total m.last_sample
      then (first_sampled total at connections m, none)
      else since_last now r total at connections m.last_sample m

  unfoldable pub watched : ℤ → ℤ → Runtime → Option (ℤ × ℤ × ℤ) → Manager → Manager × Option Flight
  unfolding reset_samples finish_cycle add_event sampled
  watched clock now r none m =
      (reset_samples (record m { state = waiting; current_download_bps = pos 0 }), none)
  watched clock now r (some (total, at, connections)) m =
      if is_active m.state && not (str_eq r.pool_id m.config.download_pool_id)
      then (finish_cycle now (add_event clock "cancelled" "运行目标已被手动更改，自动下载状态已结束" m), none)
      else sampled now r total at connections m

  unfoldable pub warmed : Manager → Manager
  warmed m = if is_cooldown m.state then record m { cooldown_until = none } else m

  -- `tick` up to its first call of `Apply`, if it makes one
  unfoldable pub tick : ℤ → ℤ → Runtime → Manager → Manager × Option Flight
  unfolding is_cooling watched warmed sample_of
  tick clock now r m =
      if not m.config.enabled
      then (record m { state = disabled }, none)
      else if is_cooling now m.cooldown_until
      then (record m { state = cooldown }, none)
      else watched clock now r (sample_of r) (warmed m)

pub data UpdateError : Type 0 where
  invalid switching taken_over not_saved : UpdateError

-- validate; `available` is the count of available nodes of a pool, if there is the pool.
pub validate : (String → Option ℕ) → Config → Bool
validate available c =
    not (ltb_ℤ c.trigger_rate (pos 65_536) || ltb_ℤ (pos 10_737_418_240) c.trigger_rate)
    && (not (ltb_ℤ c.release_rate (pos 0) || leb_ℤ c.trigger_rate c.release_rate)
        && (not (
              ltb_ℤ c.trigger_duration (pos 2)
              || ltb_ℤ (pos 300) c.trigger_duration
              || ltb_ℤ c.release_duration (pos 5)
              || ltb_ℤ (pos 3600) c.release_duration
              || ltb_ℤ c.cooldown_seconds (pos 0)
              || ltb_ℤ (pos 86_400) c.cooldown_seconds)
            && (not c.enabled || enough (available c.download_pool_id))))
  where
    enough : Option ℕ → Bool
    enough none = false
    enough (some n) = not (ltb n 2)

-- What `Update` does once the configuration is saved, up to its call of `Apply`, if it makes one
unfoldable pub updated : ℤ → Config → Manager → Bool → Manager × Option Flight
unfolding add_event reset_samples
updated clock input m true =
    let n = record m {
      config = input;
      disk = input;
      shown_config = input;
      last_error = "";
      state = recovering;
    } in
    (add_event clock "configuration" "流量策略配置已更新" n, some (disables m.original))
updated clock input m false =
    let n = record (reset_samples m) {
      config = input;
      disk = input;
      shown_config = input;
      last_error = "";
      state = if input.enabled then waiting else disabled;
    } in
    (add_event clock "configuration" "流量策略配置已更新" n, none)

-- Update, up to its call of `Apply`
unfoldable pub update :
    (String → Option ℕ) → Bool → ℤ → Config → Manager → Manager × Result UpdateError (Option Flight)
unfolding updated validate
update available saved clock input m =
    if not (validate available input)
    then (m, err invalid)
    else if is_switching m.state
    then (m, err switching)
    else if is_active m.state && input.enabled
    then (m, err taken_over)
    else if not saved
    then (m, err not_saved)
    else accepted (updated clock input m (is_active m.state))
  where
    accepted : Manager × Option Flight → Manager × Result UpdateError (Option Flight)
    accepted (n, f) = (n, ok f)

-- What follows a call of `Apply` that returns with an error, or with none: the manager, and a further
-- call.
unfoldable pub landed : ℤ → Flight → Option String → Manager → Manager × Option Flight
unfolding reset_rate finish_cycle fail add_event reset_samples
landed clock (switches now target) none m =
    let n =
      reset_rate (record m { state = active; activated_at = some now; trigger_progress = pos 0 }) in
    (add_event clock "activated" "检测到持续大流量，已切换到下载代理池" n, none)
landed clock (switches now target) (some e) m =
    (record m { state = recovering }, some (rolls_back now e m.original))
landed clock (rolls_back now e target) none m =
    (finish_cycle now (add_event clock "error" ("切换下载代理池失败，已恢复原代理池：" ++ e) m), none)
landed clock (rolls_back now e target) (some f) m =
    (fail clock "切换下载代理池失败，且无法恢复原代理池" ("切换失败: " ++ e ++ "; 回滚失败: " ++ f) m, none)
landed clock (returns now target) none m =
    (finish_cycle now (add_event clock "recovered" "下载流量已回落，已恢复原代理池" m), none)
landed clock (returns now target) (some e) m = (fail clock "恢复原代理池失败" e m, none)
landed clock (disables target) none m =
    let n = reset_samples (record m {
      state = disabled;
      activated_at = none;
      original_pool_id = "";
      original_pool_name = "";
    }) in
    (add_event clock "recovered" "策略已停用，已恢复原代理池" n, none)
landed clock (disables target) (some e) m = (fail clock "停用策略时恢复原代理池失败" e m, none)
