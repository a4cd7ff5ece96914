-- ===== src/Subscription/Merge.antt =====
-- `mergeNodeLists`, `nodesByID` and the item that `refresh` stores, of
-- internal/subscription/manager.go.
pub mod Unique
use sing_box_webui.Prelude.{
  String, Bool, true, false, List, [], ◌∷◌, ◌++◌, Option, none, some, if◌then◌else◌, has, str_eq,
}
use sing_box_webui.Prelude.Int.{ℤ}
use sing_box_webui.Storage.{find_last}
use sing_box_webui.Subscription.Model.{Node, Subscription, ParseResult, FetchMetadata}
use sing_box_webui.Subscription.Lookup.{find_node}

abbrev pub node_id : Node → String
node_id n = n.id

keep_found : Option Node → List Node → List Node
keep_found none rest = rest
keep_found (some n) rest = n ∷ rest

-- nodesByID
pub nodes_by_id : List Node → List String → List Node
unfolding keep_found
nodes_by_id nodes [] = []
nodes_by_id nodes (id ∷ ids) = keep_found (find_last node_id id nodes) (nodes_by_id nodes ids)

-- The inner loop of `mergeNodeLists`: the nodes that are not in `seen`, and what has been seen.
merge_one : List String → List Node → List Node × List String
merge_one seen [] = ([], seen)
merge_one seen (n ∷ ns) =
    let skip = merge_one seen ns in
    let (rest, after) = merge_one (n.id ∷ seen) ns in
    if has n.id seen then skip else (n ∷ rest, after)

-- mergeNodeLists
pub merge_node_lists : List Node → List Node → List Node
unfolding merge_one
merge_node_lists primary additional =
    let (first, seen) = merge_one [] primary in first ++ (merge_one seen additional).0

first_id : List Node → String
first_id [] = ""
first_id (n ∷ ns) = n.id

-- The selection after the nodes have changed
reselect : String → List Node → Option Node → String
unfolding first_id
reselect previous nodes none = first_id nodes
reselect previous nodes (some n) = if str_eq previous "" then first_id nodes else previous

or_old : String → String → String
or_old new old = if str_eq new "" then old else new

with_nodes : ParseResult → Subscription → Subscription
unfolding reselect nodes_by_id merge_node_lists
with_nodes result item =
    let nodes = merge_node_lists result.nodes (nodes_by_id item.nodes item.manual_node_ids) in
    record item {
      nodes = nodes;
      selected_node_id =
          reselect item.selected_node_id nodes (find_node item.selected_node_id nodes);
    }

-- The nodes are left alone where the content was not modified.
changed_nodes : Bool → ParseResult → Subscription → Subscription
unfolding with_nodes
changed_nodes true result item = item
changed_nodes false result item = with_nodes result item

-- The item as `refresh` stores it
unfoldable pub refreshed : ParseResult → FetchMetadata → ℤ → Subscription → Subscription
unfolding changed_nodes or_old
refreshed result metadata now item =
    let changed = changed_nodes metadata.not_modified result item in
    record changed {
      last_updated = some now;
      last_error = "";
      last_fetch_path = or_old metadata.path item.last_fetch_path;
      etag = or_old metadata.etag item.etag;
      last_modified = or_old metadata.last_modified item.last_modified;
    }
