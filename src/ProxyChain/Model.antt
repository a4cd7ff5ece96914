-- ===== src/ProxyChain/Model.antt =====
-- The types of internal/proxychain/manager.go. An entry type is a text, as the JSON has it.
use sing_box_webui.Prelude.{ℕ, String, Bool, List, Option}
use sing_box_webui.Prelude.Int.{ℤ}
use sing_box_webui.Subscription.Model.{Node}
use sing_box_webui.NodePool.Model.{Member, Pool, PoolError}

abbrev pub entry_node_type : String
entry_node_type = "node"

abbrev pub entry_pool_type : String
entry_pool_type = "pool"

pub record NodeRef : Type 0 where
  pub subscription_id : String
  pub node_id : String

pub record Chain : Type 0 where
  pub id : String
  pub name : String
  pub entry_type : String
  pub entry_node : NodeRef
  pub entry_pool_id : String
  pub exit_node : NodeRef
  pub created_at : ℤ
  pub updated_at : ℤ

pub record CreateInput : Type 0 where
  pub name : String
  pub entry_type : String
  pub entry_node : NodeRef
  pub entry_pool_id : String
  pub exit_node : NodeRef

-- A nil pointer is `none`.
pub record UpdateInput : Type 0 where
  pub name : Option String
  pub entry_type : Option String
  pub entry_node : Option NodeRef
  pub entry_pool_id : Option String
  pub exit_node : Option NodeRef

pub data ChainError : Type 0 where
  not_found not_saved bad_name bad_exit bad_entry_node bad_entry_pool bad_entry_type : ChainError
  exit_unavailable same_nodes entry_unavailable exit_in_pool : ChainError
  pool_unavailable : PoolError → ChainError

-- The field `chain` is embedded; the reason is the error's text.
pub record View : Type 0 where
  pub chain : Chain
  pub entry_name : String
  pub entry_member_count : ℕ
  pub exit_name : String
  pub available : Bool
  pub unavailable_reason : Option ChainError

pub record Resolved : Type 0 where
  pub chain : Chain
  pub entry_node : Option Node
  pub entry_pool : Option Pool
  pub entry_members : List Member
  pub entry_nodes : List Node
  pub exit_node : Node
