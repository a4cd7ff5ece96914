-- ===== src/Wiring.antt =====
-- The subscription manager with the node pool manager as its pool sink, as cmd/webui/main.go
-- connects them. `digest` stands for the SHA-256 sum of a node's JSON, and `render` for the texts of
-- the errors.
pub mod Finds
pub mod Linked
pub mod Examples
use sing_box_webui.Prelude.{
  String, ◌≡◌, true, List, [], Option, none, some, All, str_eq, is_some, Result, ok, err,
}
use sing_box_webui.Storage.{Env, find}
use sing_box_webui.Subscription.Model.{Node, Subscription}
use sing_box_webui.Subscription.Store.{sub_id}
use sing_box_webui.Subscription.Refresh.{Sinks, World}
use sing_box_webui.NodePool.Model.{PoolError}
use sing_box_webui.NodePool.Store.{Pools}
use sing_box_webui.NodePool.Reconcile.{reconcile_subscription_nodes, delete_subscription_members}
use sing_box_webui.NodePool.Reconcile.Lands.{IsOn, AllMembers}

unfoldable pub error_text :
    (PoolError → String) → Pools × Result PoolError (Unit {0}) → Pools × Option String
error_text render (s, ok _) = (s, none)
error_text render (s, err e) = (s, some (render e))

-- subscriptions.SetPoolSink(pools); `env` is what the pools' save and clock answer.
unfoldable pub set_pool_sink :
    {R : Type 0} → (Node → String) → (PoolError → String) → Env → Sinks Pools R → Sinks Pools R
unfolding error_text
set_pool_sink digest render env sinks = record sinks {
  reconcile_nodes = λ id previous current s.
      error_text render (reconcile_subscription_nodes digest env id previous current s);
  delete_members = λ id s. error_text render (delete_subscription_members env id s);
}

unfoldable pub nodes_found : Option Subscription → List Node
nodes_found none = []
nodes_found (some x) = x.nodes

-- The nodes stored under an id
unfoldable pub nodes_of : String → List Subscription → List Node
unfolding nodes_found
nodes_of id subs = nodes_found (find sub_id id subs)

-- Every member of every pool is on a node of a stored subscription.
unfoldable pub IsLinked : {R : Type 0} → World Pools R → Type 0
IsLinked w = (id : String) → All (AllMembers (IsOn id (nodes_of id w.subs.items))) w.pools.items
