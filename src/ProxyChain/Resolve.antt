-- ===== src/ProxyChain/Resolve.antt =====
-- `get`, `resolve`, `Resolve` and `toView` of internal/proxychain/manager.go.
pub mod Apart
pub mod LoopFree
use sing_box_webui.Prelude.{
  ℕ, String, Bool, true, false, ◌||◌, List, [], ◌∷◌, Option, none, some, if◌then◌else◌, length,
  str_eq, Result, ok, err, ◌>>=◌,
}
use sing_box_webui.Subscription.Model.{Node, Subscription}
use sing_box_webui.Subscription.Lookup.{selected_node}
use sing_box_webui.Storage.{find}
use sing_box_webui.NodePool.Model.{Member, Pool, PoolError}
use sing_box_webui.NodePool.Resolve
use sing_box_webui.NodePool.Resolve.{resolve_with_members}
use sing_box_webui.ProxyChain.Model.{
  NodeRef, Chain, View, Resolved, ChainError, entry_node_type, entry_pool_type, not_found,
  bad_entry_type, exit_unavailable, same_nodes, entry_unavailable, exit_in_pool, pool_unavailable,
}
use sing_box_webui.ProxyChain.Validate.{same_node}

abbrev pub chain_id : Chain → String
chain_id c = c.id

or_missing : Option Chain → Result ChainError Chain
or_missing none = err not_found
or_missing (some c) = ok c

get : List Chain → String → Result ChainError Chain
unfolding or_missing
get items id = or_missing (find chain_id id items)

-- The loop over the members of the entry pool
pub has_exit : NodeRef → List Member → Bool
has_exit exit [] = false
has_exit exit (m ∷ ms) =
    same_node (record { subscription_id = m.subscription_id; node_id = m.node_id }) exit
    || has_exit exit ms

plain : Chain → Node → Resolved
plain c exit = record {
  chain = c;
  entry_node = none;
  entry_pool = none;
  entry_members = [];
  entry_nodes = [];
  exit_node = exit;
}

pub with_entry : Chain → Node → Option (Subscription × Node) → Result ChainError Resolved
unfolding plain
with_entry c exit none = err entry_unavailable
with_entry c exit (some (s, entry)) = ok (record (plain c exit) { entry_node = some entry })

pub with_pool : Chain → Node → Result PoolError Resolve.Resolved → Result ChainError Resolved
unfolding plain has_exit
with_pool c exit (err e) = err (pool_unavailable e)
with_pool c exit (ok r) =
    if has_exit c.exit_node r.members
    then err exit_in_pool
    else ok (record (plain c exit) {
      entry_pool = some r.pool;
      entry_members = r.members;
      entry_nodes = r.nodes;
    })

module _ (subs : List Subscription) (pools : List Pool) where
  -- The switch of `resolve`, once the exit node is found
  resolve_entry : Chain → Node → Result ChainError Resolved
  unfolding with_entry with_pool
  resolve_entry c exit =
      if str_eq c.entry_type entry_node_type
      then (if same_node c.entry_node c.exit_node
          then err same_nodes
          else with_entry c exit
              (selected_node subs c.entry_node.subscription_id c.entry_node.node_id))
      else if str_eq c.entry_type entry_pool_type
      then with_pool c exit (resolve_with_members pools subs c.entry_pool_id)
      else err bad_entry_type

  resolve_exit : Chain → Option (Subscription × Node) → Result ChainError Resolved
  unfolding resolve_entry
  resolve_exit c none = err exit_unavailable
  resolve_exit c (some (s, exit)) = resolve_entry c exit

  -- resolve
  unfoldable pub resolve_chain : Chain → Result ChainError Resolved
  unfolding resolve_exit
  resolve_chain c =
      resolve_exit c (selected_node subs c.exit_node.subscription_id c.exit_node.node_id)

  -- Resolve
  pub resolve : List Chain → String → Result ChainError Resolved
  unfolding get resolve_chain
  resolve items id = do c ← get items id; resolve_chain c

  pool_name : View → Resolved → Option Pool → View
  pool_name v r none = v
  pool_name v r (some p) = record v {
    entry_name = p.name;
    entry_member_count = length r.entry_nodes;
  }

  entry_shown : View → Resolved → Option Node → View
  unfolding pool_name
  entry_shown v r none = pool_name v r r.entry_pool
  entry_shown v r (some n) = record v { entry_name = n.name }

  view_of : Chain → Result ChainError Resolved → View
  unfolding entry_shown
  view_of c (err e) = record {
    chain = c;
    entry_name = "";
    entry_member_count = 0;
    exit_name = "";
    available = false;
    unavailable_reason = some e;
  }
  view_of c (ok r) =
      entry_shown
        (record {
          chain = c;
          entry_name = "";
          entry_member_count = 0;
          exit_name = r.exit_node.name;
          available = true;
          unavailable_reason = none;
        })
        r r.entry_node

  -- toView
  pub to_view : Chain → View
  unfolding view_of resolve_chain
  to_view c = view_of c (resolve_chain c)
