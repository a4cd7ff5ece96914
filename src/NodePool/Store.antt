-- ===== src/NodePool/Store.antt =====
-- `Create`, `Update`, `Delete`, `Reorder` and `load`: the operations on the stored pools. Each takes
-- the state, what it meets (`Env`), and the stored subscriptions.
pub mod Keeps
use sing_box_webui.Prelude.{
  ℕ, String, Bool, List, [], ◌∷◌, ◌++◌, map, Option, none, some, Result, ok, err, ◌>>=◌, ◌>>◌,
}
use sing_box_webui.Subscription.Model.{Subscription}
use sing_box_webui.Storage.{
  Stored, Env, OrderError, incomplete, unknown_id, duplicate_id, commit, drop_last, find, replace,
  remove, reordered,
}
use sing_box_webui.NodePool.Model.{
  Pool, CreateInput, UpdateInput, View, PoolError, not_found, not_saved, order_incomplete,
  order_unknown, order_duplicate,
}
use sing_box_webui.NodePool.Validate.{Net, validate_pool, normalize_pool_defaults}
use sing_box_webui.NodePool.Resolve.{pool_id, validate_members, to_view}

abbrev pub Pools : Type 0
Pools = Stored Pool

new_pool : Env → CreateInput → Pool
new_pool env i = record {
  id = env.id;
  name = i.name;
  members = i.members;
  probe_interval_seconds = i.probe_interval_seconds;
  tolerance_ms = i.tolerance_ms;
  probe_url = i.probe_url;
  fallback_probe_urls = i.fallback_probe_urls;
  idle_timeout_seconds = i.idle_timeout_seconds;
  high_latency_threshold_ms = i.high_latency_threshold_ms;
  consecutive_failures = i.consecutive_failures;
  recovery_successes = i.recovery_successes;
  max_backoff_seconds = i.max_backoff_seconds;
  interrupt_existing_connections = i.interrupt_existing_connections;
  created_at = env.now;
  updated_at = env.now;
}

-- `if input.X != nil { updated.X = *input.X }`
abbrev pub given {ℓ} : {A : Type ℓ} → Option A → A → A
given none old = old
given (some new) old = new

apply_input : UpdateInput → Pool → Pool
apply_input i p = record p {
  name = given i.name p.name;
  members = given i.members p.members;
  probe_interval_seconds = given i.probe_interval_seconds p.probe_interval_seconds;
  tolerance_ms = given i.tolerance_ms p.tolerance_ms;
  probe_url = given i.probe_url p.probe_url;
  fallback_probe_urls = given i.fallback_probe_urls p.fallback_probe_urls;
  idle_timeout_seconds = given i.idle_timeout_seconds p.idle_timeout_seconds;
  high_latency_threshold_ms = given i.high_latency_threshold_ms p.high_latency_threshold_ms;
  consecutive_failures = given i.consecutive_failures p.consecutive_failures;
  recovery_successes = given i.recovery_successes p.recovery_successes;
  max_backoff_seconds = given i.max_backoff_seconds p.max_backoff_seconds;
  interrupt_existing_connections =
      given i.interrupt_existing_connections p.interrupt_existing_connections;
}

-- Goes on from an accepted value, and stops with the state as it is at an error.
pub with_ok :
    {A B : Type 0}
    → Pools
    → (A → Pools × Result PoolError B)
    → Result PoolError A
    → Pools × Result PoolError B
with_ok s next (err e) = (s, err e)
with_ok s next (ok a) = next a

module _ (net : Net) (subs : List Subscription) where
  -- The checks that `Create` and `Update` make of a pool.
  pub checked : Pool → Result PoolError Pool
  checked p = do valid ← validate_pool net p; validate_members subs valid.members; ok valid

  unfoldable pub create : Env → CreateInput → Pools → Pools × Result PoolError View
  unfolding new_pool with_ok
  create env input s =
      with_ok s
        (λ pool. commit env.saved not_saved (s.items ++ pool ∷ []) drop_last (to_view subs pool) s)
        (checked (new_pool env input))

  update_found : Env → UpdateInput → String → Pools → Option Pool → Pools × Result PoolError View
  unfolding apply_input with_ok
  update_found env input id s none = (s, err not_found)
  update_found env input id s (some old) =
      with_ok s
        (λ valid.
          let updated = record valid { updated_at = env.now } in
          commit env.saved not_saved (replace pool_id id updated s.items) (replace pool_id id old)
            (to_view subs updated) s)
        (checked (apply_input input old))

  unfoldable pub update : Env → String → UpdateInput → Pools → Pools × Result PoolError View
  unfolding update_found
  update env id input s = update_found env input id s (find pool_id id s.items)

delete_found : Env → String → Pools → Option Pool → Pools × Result PoolError (Unit {0})
delete_found env id s none = (s, err not_found)
delete_found env id s (some old) =
    commit env.saved not_saved (remove pool_id id s.items) (λ _. s.items) tt s

unfoldable pub delete : Env → String → Pools → Pools × Result PoolError (Unit {0})
unfolding delete_found
delete env id s = delete_found env id s (find pool_id id s.items)

order_error : OrderError → PoolError
order_error incomplete = order_incomplete
order_error unknown_id = order_unknown
order_error duplicate_id = order_duplicate

reorder_to :
    Env
    → List Subscription
    → Pools
    → Result OrderError (List Pool)
    → Pools × Result PoolError (List View)
unfolding order_error
reorder_to env subs s (err e) = (s, err (order_error e))
reorder_to env subs s (ok ordered) =
    commit env.saved not_saved ordered (λ _. s.items) (map (to_view subs) ordered) s

unfoldable pub reorder :
    Env → List Subscription → List String → Pools → Pools × Result PoolError (List View)
unfolding reorder_to
reorder env subs ids s = reorder_to env subs s (reordered pool_id s.items ids)

-- `load`, from the content of the file, if there is one.
pub load : Option (List Pool) → List Pool
load none = []
load (some items) = map normalize_pool_defaults items
