-- ===== src/NodePool/Examples.antt =====
-- The theorems on node pools, applied to a store with one pool and a subscription with two nodes.
use sing_box_webui.Prelude.{
  String, ◌≡◌, refl, true, false, List, [], ◌∷◌, none, some, All, ltb, has, trim_space, ok,
}
use sing_box_webui.Prelude.Int.{pos}
use sing_box_webui.Subscription.Model.{Node, Subscription}
use sing_box_webui.Storage.{Env}
use sing_box_webui.NodePool.Model.{Member, Pool, CreateInput}
use sing_box_webui.NodePool.Validate.{
  Net, validate_pool, validate, bad_length, outside, clean_members, trim_member, member_key,
  bad_url, clean_urls, check_pool, normalize_pool_defaults, blocked_probe_host,
}
use sing_box_webui.NodePool.Validate.Normal.{IsValid, validate_pool-IsValid, IsValid-validate_pool}
use sing_box_webui.NodePool.Resolve.{get, is_available, to_view, resolve_with_members}
use sing_box_webui.NodePool.Resolve.Available.{Resolves, resolve_with_members-Resolves}
use sing_box_webui.NodePool.Store.{Pools, load}
use sing_box_webui.NodePool.Store.Keeps.{
  Inv, creates, deletes, step, run, no_pools, step-Inv, load-run,
}
use sing_box_webui.NodePool.Reconcile.{
  is_elsewhere, delete_subscription_members, reconcile_references, reconcile_subscription_nodes,
}
use sing_box_webui.NodePool.Reconcile.Follows.{
  AllKept, delete_subscription_members-AllKept, reconcile_references_converges,
}
use sing_box_webui.NodePool.Reconcile.Moves.{HasSettled, reconcile_subscription_nodes-HasSettled}

-- Every URL is taken to be https://example.com/204, and no host is an address.
abbrev net : Net
net = record {
  parse_request_uri =
      λ _. some (record { scheme = "https"; host = "example.com"; hostname = "example.com" });
  parse_addr = λ _. none;
}

abbrev node : String → Node
node id = record {
  id = id;
  original_link = "";
  name = id;
  type = "vless";
  server = "203.0.114.7";
  port = 443;
  username = "";
  password = "";
  uuid = "";
  method = "";
  security = "";
  alter_id = pos 0;
  flow = "";
  tls = record {
    enabled = false;
    server_name = "";
    insecure = false;
    alpn = [];
    utls_fingerprint = "";
    reality = record { enabled = false; public_key = ""; short_id = "" };
  };
  transport = record { type = ""; path = ""; headers = []; service_name = "" };
  congestion_control = "";
  udp_relay_mode = "";
  obfs = "";
  obfs_password = "";
}

abbrev subs : List Subscription
subs =
    record {
      id = "s";
      name = "subscription";
      url = "https://example.com/sub";
      auto_update = false;
      update_interval_minutes = pos 60;
      active = true;
      selected_node_id = "n1";
      last_updated = none;
      last_error = "";
      last_fetch_path = "";
      etag = "";
      last_modified = "";
      manual_node_ids = [];
      nodes = node "n1" ∷ node "n2" ∷ [];
    }
    ∷ []

abbrev members : List Member
members =
    record { subscription_id = "s"; node_id = "n1" }
    ∷ record { subscription_id = "s"; node_id = "n3" }
    ∷ []

abbrev pool : Pool
pool = record {
  id = "p";
  name = "fast";
  members = members;
  probe_interval_seconds = pos 60;
  tolerance_ms = pos 50;
  probe_url = "https://example.com/204";
  fallback_probe_urls = [];
  idle_timeout_seconds = pos 600;
  high_latency_threshold_ms = pos 800;
  consecutive_failures = pos 2;
  recovery_successes = pos 3;
  max_backoff_seconds = pos 300;
  interrupt_existing_connections = false;
  created_at = pos 1;
  updated_at = pos 1;
}

abbrev input : CreateInput
input = record {
  name = " fast ";
  members = members;
  probe_interval_seconds = pos 0;
  tolerance_ms = pos 0;
  probe_url = "";
  fallback_probe_urls = [];
  idle_timeout_seconds = pos 0;
  high_latency_threshold_ms = pos 0;
  consecutive_failures = pos 0;
  recovery_successes = pos 0;
  max_backoff_seconds = pos 0;
  interrupt_existing_connections = false;
}

abbrev env : Env
env = record { saved = true; now = pos 5; id = "p" }

abbrev pools : Pools
pools = record { items = pool ∷ []; disk = pool ∷ [] }

pool_validated : validate_pool net pool ≡ ok pool
unfolding validate_pool validate bad_length trim_space outside clean_members trim_member has
    member_key bad_url clean_urls check_pool normalize_pool_defaults blocked_probe_host
pool_validated = refl

pool-IsValid : IsValid net pool
pool-IsValid = validate_pool-IsValid net pool pool pool_validated

-- Tests

load-run_example :
    load (some (run net ((subs, env, creates input) ∷ (subs, env, deletes "p") ∷ []) no_pools).disk)
    ≡ (run net ((subs, env, creates input) ∷ (subs, env, deletes "p") ∷ []) no_pools).items
load-run_example = load-run net ((subs, env, creates input) ∷ (subs, env, deletes "p") ∷ [])

step-Inv_example : Inv net (step net subs env (creates input) no_pools)
step-Inv_example =
    step-Inv net subs env (creates input) no_pools (record { synced = refl; valid = tt })

delete_subscription_members-AllKept_example :
    All (AllKept (is_elsewhere "s")) (delete_subscription_members env "s" pools).0.items
delete_subscription_members-AllKept_example = delete_subscription_members-AllKept env "s" pools refl

reconcile_references_converges_example :
    let t = (reconcile_references env subs pools).0 in
    All (AllKept (is_available subs)) t.items × (reconcile_references env subs t ≡ (t, ok tt))
reconcile_references_converges_example = reconcile_references_converges env env subs pools refl

reconcile_subscription_nodes-HasSettled_example :
    All
      (HasSettled (λ n. n.server) "s" (node "n3" ∷ []) (node "n4" ∷ []))
      (reconcile_subscription_nodes
        (λ n. n.server)
        env
        "s"
        (node "n3" ∷ [])
        (node "n4" ∷ [])
        pools).0.items
reconcile_subscription_nodes-HasSettled_example =
    reconcile_subscription_nodes-HasSettled (λ n. n.server) env "s" (node "n3" ∷ [])
      (node "n4" ∷ []) pools refl

resolve_with_members-Resolves_example :
    Resolves subs pool
      (ltb (to_view subs pool).available_count 2)
      (resolve_with_members (pool ∷ []) subs "p")
resolve_with_members-Resolves_example =
    resolve_with_members-Resolves (pool ∷ []) subs "p" pool (unfold get in refl) (refl, (refl, tt))

validate_pool-IsValid_example : IsValid net pool
validate_pool-IsValid_example = validate_pool-IsValid net pool pool pool_validated

IsValid-validate_pool_example : validate_pool net pool ≡ ok pool
IsValid-validate_pool_example = IsValid-validate_pool net pool pool-IsValid
