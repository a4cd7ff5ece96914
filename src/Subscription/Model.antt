-- ===== src/Subscription/Model.antt =====
-- The types of internal/subscription/model.go. A port is a number below 2 ^ 16; an optional time is
-- `none` where the pointer is nil.
use sing_box_webui.Prelude.{ℕ, String, Bool, List, Option}
use sing_box_webui.Prelude.Int.{ℤ}

pub record Reality : Type 0 where
  pub enabled : Bool
  pub public_key : String
  pub short_id : String

pub record Tls : Type 0 where
  pub enabled : Bool
  pub server_name : String
  pub insecure : Bool
  pub alpn : List String
  pub utls_fingerprint : String
  pub reality : Reality

pub record Transport : Type 0 where
  pub type : String
  pub path : String
  pub headers : List (String × String)
  pub service_name : String

pub record Node : Type 0 where
  pub id : String
  pub original_link : String
  pub name : String
  pub type : String
  pub server : String
  pub port : ℕ
  pub username : String
  pub password : String
  pub uuid : String
  pub method : String
  pub security : String
  pub alter_id : ℤ
  pub flow : String
  pub tls : Tls
  pub transport : Transport
  pub congestion_control : String
  pub udp_relay_mode : String
  pub obfs : String
  pub obfs_password : String

pub record Subscription : Type 0 where
  pub id : String
  pub name : String
  pub url : String
  pub auto_update : Bool
  pub update_interval_minutes : ℤ
  pub active : Bool
  pub selected_node_id : String
  pub last_updated : Option ℤ
  pub last_error : String
  pub last_fetch_path : String
  pub etag : String
  pub last_modified : String
  pub manual_node_ids : List String
  pub nodes : List Node

pub record ImportedRuleCondition : Type 0 where
  pub type : String
  pub values : List String

pub record ImportedRule : Type 0 where
  pub name : String
  pub conditions : List ImportedRuleCondition
  pub action : String
  pub supported : Bool
  pub unsupported_reason : String
  pub source : String

-- parser.go
pub record ParseResult : Type 0 where
  pub nodes : List Node
  pub imported_rules : List ImportedRule
  pub warnings : List String

-- fetcher.go
pub record FetchMetadata : Type 0 where
  pub etag : String
  pub last_modified : String
  pub not_modified : Bool
  pub path : String

pub record NodeView : Type 0 where
  pub id : String
  pub name : String
  pub type : String
  pub server : String
  pub port : ℕ
  pub tls : Bool
  pub selected : Bool

pub record View : Type 0 where
  pub id : String
  pub name : String
  pub url : String
  pub auto_update : Bool
  pub update_interval_minutes : ℤ
  pub active : Bool
  pub selected_node_id : String
  pub last_updated : Option ℤ
  pub last_error : String
  pub last_fetch_path : String
  pub node_count : ℕ
  pub nodes : List NodeView

-- manager.go
pub record CreateInput : Type 0 where
  pub name : String
  pub url : String
  pub auto_update : Bool
  pub update_interval_minutes : ℤ

-- A nil pointer is `none`.
pub record UpdateInput : Type 0 where
  pub name : Option String
  pub auto_update : Option Bool
  pub update_interval_minutes : Option ℤ

pub data SubscriptionError : Type 0 where
  not_found node_not_found bad_name bad_url bad_interval url_exists not_saved : SubscriptionError
  order_incomplete order_unknown order_duplicate : SubscriptionError
  too_large too_many_links no_links : SubscriptionError
  -- The text of an error that a fetch, a parser or a sink returned
  failed : String → SubscriptionError
  -- The errors of a cleanup, after the deletion or for an item that is not there
  cleanup_failed missing_cleanup_failed : List String → SubscriptionError
  -- The error of `Create`, and that of its rollback
  rollback_failed : SubscriptionError → SubscriptionError → SubscriptionError
