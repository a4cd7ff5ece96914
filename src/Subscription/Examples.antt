-- ===== src/Subscription/Examples.antt =====
-- The theorems on subscriptions, applied to one that is created with a node, renamed in vain, and
-- deleted.
use sing_box_webui.Prelude.{
  String, ◌≡◌, refl, true, false, List, [], ◌∷◌, none, some, ok, err, trim_space,
}
use sing_box_webui.Prelude.Int.{pos}
use sing_box_webui.Storage.{Env, find, replace}
use sing_box_webui.Subscription.Model.{Node, Subscription, CreateInput, bad_interval}
use sing_box_webui.Subscription.Shown.{Redaction}
use sing_box_webui.Subscription.Store.{Urls, sub_id, outside_interval, update}
use sing_box_webui.Subscription.Store.Orderly.{IsOrderly}
use sing_box_webui.Subscription.Store.Orderly.Calls.{refused_update_renames}
use sing_box_webui.Subscription.Merge.{merge_node_lists}
use sing_box_webui.Subscription.Merge.Unique.{IsUnique, merge_node_lists-IsUnique}
use sing_box_webui.Subscription.Refresh.{Sinks, World, RefreshInput}
use sing_box_webui.NodePool.Validate.{bad_length}
use sing_box_webui.Subscription.Manager.{Call, creates, updates, deletes, Setup, run}
use sing_box_webui.Subscription.Manager.Runs.{no_subs, manager_stays-IsOrderly}

abbrev pub node : String → Node
node id = record {
  id = id;
  original_link = "";
  name = id;
  type = "vless";
  server = "203.0.114.7";
  port = 443;
  username = "";
  password = "";
  uuid = "";
  method = "";
  security = "";
  alter_id = pos 0;
  flow = "";
  tls = record {
    enabled = false;
    server_name = "";
    insecure = false;
    alpn = [];
    utls_fingerprint = "";
    reality = record { enabled = false; public_key = ""; short_id = "" };
  };
  transport = record { type = ""; path = ""; headers = []; service_name = "" };
  congestion_control = "";
  udp_relay_mode = "";
  obfs = "";
  obfs_password = "";
}

abbrev pub redaction : Redaction
redaction = record { redact_url = λ url. url; redact_text = λ text url. text }

-- Every text is taken to be a URL of example.com.
abbrev pub urls : Urls
urls = record {
  parse = λ _.
      some (record { scheme = "https"; hostname = "example.com"; has_user = false; port = "" });
  parse_port = λ _. none;
  parse_addr = λ _. none;
}

abbrev pub no_sinks : {P R : Type 0} → Sinks P R
no_sinks = record {
  reconcile_nodes = λ _ _ _ p. (p, none);
  delete_members = λ _ p. (p, none);
  sync_rules = λ _ _ _ r. (r, none);
  delete_rules = λ _ r. (r, none);
  reload_rules = λ r. (r, none);
}

abbrev env : Env
env = record { saved = true; now = pos 5; id = "s" }

-- A refresh that fetches a node with this id
abbrev pub fetches : String → RefreshInput
fetches id = record {
  direct =
      ok (
        "content",
        record { etag = ""; last_modified = ""; not_modified = false; path = "direct" },
      );
  proxy = none;
  parse = λ _. ok (record { nodes = node id ∷ []; imported_rules = []; warnings = [] });
  now = pos 5;
  saved = true;
  noted = true;
}

abbrev created : CreateInput
created = record {
  name = "home";
  url = "https://example.com/sub";
  auto_update = true;
  update_interval_minutes = pos 60;
}

abbrev pub stored : Subscription
stored = record {
  id = "s";
  name = "home";
  url = "https://example.com/sub";
  auto_update = false;
  update_interval_minutes = pos 60;
  active = true;
  selected_node_id = "a";
  last_updated = none;
  last_error = "";
  nodes = node "a" ∷ [];
  etag = "";
  last_modified = "";
  last_fetch_path = "";
  manual_node_ids = [];
}

abbrev setup : Setup (Unit {0}) (Unit {0})
setup = record {
  urls = urls;
  redaction = redaction;
  parse_link = λ _. err "no link";
  sinks = no_sinks;
}

abbrev calls : List (Env × Call)
calls =
    (env, creates env (fetches "a") created)
    ∷ (
      env,
      updates "s"
          (record { name = some "work"; auto_update = none; update_interval_minutes = none }),
    )
    ∷ (env, deletes "s")
    ∷ []

abbrev start : World (Unit {0}) (Unit {0})
start = record { subs = no_subs; pools = tt; rules = tt }

-- Tests

manager_stays-IsOrderly_example :
    IsOrderly (run setup calls true start).1 (run setup calls true start).0.subs
manager_stays-IsOrderly_example = manager_stays-IsOrderly setup calls tt tt

merge_node_lists-IsUnique_example :
    IsUnique [] (merge_node_lists (node "a" ∷ node "b" ∷ []) (node "b" ∷ node "c" ∷ []))
merge_node_lists-IsUnique_example =
    merge_node_lists-IsUnique (node "a" ∷ node "b" ∷ []) (node "b" ∷ node "c" ∷ [])

refused_update_renames_example :
    update env "s"
      (record { name = some "work"; auto_update = none; update_interval_minutes = some (pos 4) })
      (record { items = stored ∷ []; disk = stored ∷ [] })
    ≡ (
      record {
        items = replace sub_id "s" (record stored { name = trim_space "work" }) (stored ∷ []);
        disk = stored ∷ [];
      },
      err bad_interval,
    )
unfolding outside_interval find bad_length trim_space
refused_update_renames_example =
    refused_update_renames env "s" "work" (pos 4) stored
      (record { items = stored ∷ []; disk = stored ∷ [] }) refl refl refl
