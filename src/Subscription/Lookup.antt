-- ===== src/Subscription/Lookup.antt =====
-- `indexOf` and `SelectedNode` of internal/subscription/manager.go.
use sing_box_webui.Prelude.{String, List, [], ◌∷◌, Option, none, some, if◌then◌else◌, str_eq}
use sing_box_webui.Subscription.Model.{Node, Subscription}

-- m.items[m.indexOf(id)], where the index is not negative
unfoldable pub find_subscription : String → List Subscription → Option Subscription
find_subscription id [] = none
find_subscription id (s ∷ ss) = if str_eq s.id id then some s else find_subscription id ss

unfoldable pub find_node : String → List Node → Option Node
find_node id [] = none
find_node id (n ∷ ns) = if str_eq n.id id then some n else find_node id ns

-- An empty node id stands for the subscription's selected node. `none` is either error.
unfoldable pub selected_node : List Subscription → String → String → Option (Subscription × Node)
unfolding find_subscription find_node
selected_node items subscription_id node_id = elim (find_subscription subscription_id items) [
  | none ↦ none
  | some s ↦ elim (find_node (if str_eq node_id "" then s.selected_node_id else node_id) s.nodes) [
    | none ↦ none
    | some n ↦ some (s, n)
  ]
]
