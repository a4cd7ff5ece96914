-- ===== src/ProxyChain/Validate.antt =====
-- `validate`, `cleanNodeRef` and `sameNode` of internal/proxychain/manager.go.
pub mod Idempotent
pub mod Named
use sing_box_webui.Prelude.{
  ℕ, String, Bool, ◌||◌, ◌&&◌, if◌then◌else◌, str_eq, trim_space, Result, ok, err,
}
use sing_box_webui.NodePool.Validate.{bad_length}
use sing_box_webui.ProxyChain.Model.{
  NodeRef, Chain, ChainError, entry_node_type, entry_pool_type, bad_name, bad_exit, bad_entry_node,
  bad_entry_pool, bad_entry_type,
}

unfoldable clean_node_ref : NodeRef → NodeRef
clean_node_ref r = record {
  subscription_id = trim_space r.subscription_id;
  node_id = trim_space r.node_id;
}

unfoldable pub same_node : NodeRef → NodeRef → Bool
same_node left right =
    str_eq left.subscription_id right.subscription_id && str_eq left.node_id right.node_id

is_incomplete : NodeRef → Bool
is_incomplete r = str_eq r.subscription_id "" || str_eq r.node_id ""

abbrev no_node : NodeRef
no_node = record { subscription_id = ""; node_id = "" }

-- The first lines of `validate`
cleaned : Chain → Chain
unfolding clean_node_ref
cleaned c = record c {
  name = trim_space c.name;
  entry_pool_id = trim_space c.entry_pool_id;
  entry_node = clean_node_ref c.entry_node;
  exit_node = clean_node_ref c.exit_node;
}

-- switch chain.EntryType
validate_entry : Chain → Result ChainError Chain
unfolding is_incomplete
validate_entry c =
    if str_eq c.entry_type entry_node_type
    then (if is_incomplete c.entry_node
        then err bad_entry_node
        else ok (record c { entry_pool_id = "" }))
    else if str_eq c.entry_type entry_pool_type
    then (if str_eq c.entry_pool_id ""
        then err bad_entry_pool
        else ok (record c { entry_node = no_node }))
    else err bad_entry_type

validate_cleaned : Chain → Result ChainError Chain
unfolding validate_entry is_incomplete
validate_cleaned c =
    if bad_length c.name
    then err bad_name
    else if is_incomplete c.exit_node
    then err bad_exit
    else validate_entry c

unfoldable pub validate : Chain → Result ChainError Chain
unfolding cleaned validate_cleaned
validate c = validate_cleaned (cleaned c)
