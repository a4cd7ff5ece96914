-- ===== src/Wiring/Examples.antt =====
-- The theorem on the subscriptions with their pools, applied to a refresh that renames a node's id,
-- and to a deletion after it.
use sing_box_webui.Prelude.{String, ◌≡◌, refl, subst, true, [], ◌∷◌, false, is_some, has, eq_iff}
use sing_box_webui.Prelude.Int.{pos}
use sing_box_webui.Storage.{Env, find, commit, replace, remove, find_last}
use sing_box_webui.Subscription.Model.{Node}
use sing_box_webui.Subscription.Lookup.{find_node}
use sing_box_webui.Subscription.Refresh.{World, refresh, delete, cleanup_dependencies}
use sing_box_webui.Subscription.Store.{delete_item}
use sing_box_webui.Subscription.Merge
use sing_box_webui.Subscription.Examples.{redaction, no_sinks, fetches, stored}
use sing_box_webui.NodePool.Model.{Pool, PoolError}
use sing_box_webui.NodePool.Store.{Pools}
use sing_box_webui.NodePool.Reconcile.{reconcile_subscription_nodes, delete_subscription_members}
use sing_box_webui.NodePool.Reconcile.Lands.{IsOn, AllMembers}
use sing_box_webui.Wiring.{nodes_of, set_pool_sink, error_text, IsLinked}
use sing_box_webui.Wiring.Linked.{attached, refreshes, deletes, stays, reachable-IsLinked}

abbrev pool : Pool
pool = record {
  id = "p";
  name = "fast";
  members = record { subscription_id = "s"; node_id = "a" } ∷ [];
  probe_interval_seconds = pos 60;
  tolerance_ms = pos 50;
  probe_url = "https://example.com/204";
  fallback_probe_urls = [];
  idle_timeout_seconds = pos 600;
  high_latency_threshold_ms = pos 800;
  consecutive_failures = pos 2;
  recovery_successes = pos 3;
  max_backoff_seconds = pos 300;
  interrupt_existing_connections = false;
  created_at = pos 1;
  updated_at = pos 1;
}

abbrev world : World Pools (Unit {0})
world = record {
  subs = record { items = stored ∷ []; disk = stored ∷ [] };
  pools = record { items = pool ∷ []; disk = pool ∷ [] };
  rules = tt;
}

abbrev env : Env
env = record { saved = true; now = pos 5; id = "" }

-- All nodes are taken to be the same but for their ids.
abbrev digest : Node → String
digest _ = "same"

abbrev render : PoolError → String
render _ = "pool error"

world-IsLinked : IsLinked world
unfolding IsLinked AllMembers IsOn nodes_of find find_node is_some
world-IsLinked id = (
  (
    λ e.
        subst (λ i. is_some (find_node "a" (nodes_of i world.subs.items)) ≡ true)
          ((eq_iff "s" id).0 e) refl,
    tt,
  ),
  tt,
)

-- Tests

abbrev refreshed : World Pools (Unit {0})
refreshed =
    (refresh redaction (attached redaction digest render no_sinks env) (fetches "b") "s" world).0

abbrev deleted : World Pools (Unit {0})
deleted = (delete redaction (attached redaction digest render no_sinks env) env "s" refreshed).0

reachable-IsLinked_example : IsLinked deleted
unfolding refresh delete reconcile_subscription_nodes delete_subscription_members find commit
    attached set_pool_sink error_text find_node replace remove find_last
    sing_box_webui.Subscription.Merge.refreshed has delete_item cleanup_dependencies
reachable-IsLinked_example =
    reachable-IsLinked {R = Unit {0}} redaction digest render no_sinks
      (refreshes {w = world} env (fetches "b") "s" refl
        (deletes {w = refreshed} env env "s" refl stays))
      world-IsLinked
