-- ===== src/Subscription/Shown.antt =====
-- `toView` and `toNodeView` of internal/subscription/model.go. `redact_url` and `redact_text` stand
-- for `redactURL` and `redactURLInText`, which parse with net/url.
use sing_box_webui.Prelude.{String, Bool, [], map, if◌then◌else◌, length, str_eq}
use sing_box_webui.Subscription.Model.{Node, Subscription, NodeView, View}

pub record Redaction : Type 0 where
  pub redact_url : String → String
  -- of a message, and the URL in it
  pub redact_text : String → String → String

pub to_node_view : String → Node → NodeView
to_node_view selected_node_id n = record {
  id = n.id;
  name = n.name;
  type = n.type;
  server = n.server;
  port = n.port;
  tls = n.tls.enabled;
  selected = str_eq n.id selected_node_id;
}

pub to_view : Redaction → Bool → Subscription → View
unfolding to_node_view
to_view redaction include_nodes s = record {
  id = s.id;
  name = s.name;
  url = redaction.redact_url s.url;
  auto_update = s.auto_update;
  update_interval_minutes = s.update_interval_minutes;
  active = s.active;
  selected_node_id = s.selected_node_id;
  last_updated = s.last_updated;
  last_error = redaction.redact_text s.last_error s.url;
  last_fetch_path = s.last_fetch_path;
  node_count = length s.nodes;
  nodes = if include_nodes then map (to_node_view s.selected_node_id) s.nodes else [];
}
