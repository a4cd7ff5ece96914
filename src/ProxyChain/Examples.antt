-- ===== src/ProxyChain/Examples.antt =====
-- The theorems on proxy chains, applied to a chain that enters by one node and leaves by another.
use sing_box_webui.Prelude.{
  String, ◌≡◌, refl, true, false, List, [], ◌∷◌, none, some, trim_space, ok,
}
use sing_box_webui.Prelude.Int.{pos}
use sing_box_webui.Subscription.Model.{Node, Subscription}
use sing_box_webui.Subscription.Lookup.{selected_node}
use sing_box_webui.NodePool.Validate.{bad_length}
use sing_box_webui.ProxyChain.Model.{NodeRef, Chain, Resolved}
use sing_box_webui.ProxyChain.Validate.{validate, same_node}
use sing_box_webui.ProxyChain.Validate.Idempotent.{validate_idempotent}
use sing_box_webui.ProxyChain.Resolve.{resolve_chain}
use sing_box_webui.ProxyChain.Resolve.LoopFree.{IsLoopFree, resolve_chain-IsLoopFree}
use sing_box_webui.ProxyChain.Store.{load}
use sing_box_webui.ProxyChain.Store.Sound.{
  Meets, creates, deletes, run_calls, no_chains, load-run_calls,
}

abbrev node : String → Node
node id = record {
  id = id;
  original_link = "";
  name = id;
  type = "vless";
  server = "203.0.114.7";
  port = 443;
  username = "";
  password = "";
  uuid = "";
  method = "";
  security = "";
  alter_id = pos 0;
  flow = "";
  tls = record {
    enabled = false;
    server_name = "";
    insecure = false;
    alpn = [];
    utls_fingerprint = "";
    reality = record { enabled = false; public_key = ""; short_id = "" };
  };
  transport = record { type = ""; path = ""; headers = []; service_name = "" };
  congestion_control = "";
  udp_relay_mode = "";
  obfs = "";
  obfs_password = "";
}

abbrev subs : List Subscription
subs =
    record {
      id = "s";
      name = "subscription";
      url = "https://example.com/sub";
      auto_update = false;
      update_interval_minutes = pos 60;
      active = true;
      selected_node_id = "n1";
      last_updated = none;
      last_error = "";
      last_fetch_path = "";
      etag = "";
      last_modified = "";
      manual_node_ids = [];
      nodes = node "n1" ∷ node "n2" ∷ [];
    }
    ∷ []

abbrev ref : String → NodeRef
ref id = record { subscription_id = "s"; node_id = id }

abbrev chain : Chain
chain = record {
  id = "c";
  name = "relay";
  entry_type = "node";
  entry_node = ref "n1";
  entry_pool_id = "";
  exit_node = ref "n2";
  created_at = pos 1;
  updated_at = pos 1;
}

abbrev untrimmed : Chain
untrimmed = record chain { name = " relay "; entry_pool_id = "unused" }

abbrev resolved : Resolved
resolved = record {
  chain = chain;
  entry_node = some (node "n1");
  entry_pool = none;
  entry_members = [];
  entry_nodes = [];
  exit_node = node "n2";
}

abbrev calls : List Meets
calls =
    record {
      subs = subs;
      pools = [];
      env = record { saved = true; now = pos 1; id = "c" };
      call = creates (record {
        name = " relay ";
        entry_type = "node";
        entry_node = ref "n1";
        entry_pool_id = "";
        exit_node = ref "n2";
      });
    }
    ∷ record {
      subs = subs;
      pools = [];
      env = record { saved = false; now = pos 2; id = "" };
      call = deletes "c";
    }
    ∷ []

-- Tests

validate_idempotent_example : validate chain ≡ ok chain
unfolding validate trim_space bad_length
validate_idempotent_example = validate_idempotent untrimmed chain refl

resolve_chain-IsLoopFree_example : IsLoopFree subs [] chain resolved
unfolding resolve_chain selected_node same_node validate trim_space bad_length
resolve_chain-IsLoopFree_example =
    resolve_chain-IsLoopFree subs [] chain chain resolved refl tt refl

load-run_calls_example :
    load (some (run_calls calls no_chains).disk) ≡ ok (run_calls calls no_chains).items
load-run_calls_example = load-run_calls calls
