-- ===== src/ProxyChain/Resolve/Apart.antt =====
-- The stored nodes that references name, and the references that differ.
use sing_box_webui.Prelude.{
  String, ◌≡◌, refl, sym, ap, ◌∙◌, arith, Bool, true, false, ◌&&◌, List, [], ◌∷◌, Option, none,
  some, inl, inr, Bool-cases, str_eq, eq_iff, if◌then◌else◌,
}
use sing_box_webui.Subscription.Model.{Node, Subscription}
use sing_box_webui.Subscription.Lookup.{find_subscription, find_node, selected_node}
use sing_box_webui.ProxyChain.Model.{NodeRef}
use sing_box_webui.ProxyChain.Validate.{same_node}

-- The node is the stored one that a subscription's id and a node's id name, and has that id.
pub record IsNode (subs : List Subscription) (subscription_id node_id : String) (n : Node)
    : Type 0 where
  pub owner : Subscription
  pub stored : selected_node subs subscription_id node_id ≡ some (owner, n)
  pub same_id : n.id ≡ node_id

-- The traffic enters by `n`, of this subscription, and leaves by the exit, which is another node.
pub record IsApart (subscription_id : String) (n : Node) (exit : NodeRef) (x : Node) : Type 0 where
  pub apart : (str_eq subscription_id exit.subscription_id && str_eq n.id x.id) ≡ false

-- A node that is found by an id has it.
find_node_id : (id : String) (ns : List Node) (n : Node) → find_node id ns ≡ some n → n.id ≡ id
unfolding find_node
find_node_id id [] n = λ h. absurd (ground arith)
find_node_id id (x ∷ xs) n = elim (Bool-cases (str_eq x.id id)) [
  | inl e ↦
      rw e (λ h. let q : x ≡ n = cc h in ap (λ (y : Node). y.id) (sym q) ∙ (eq_iff x.id id).0 e)
  | inr e ↦ rw e (find_node_id id xs n)
]

in_subscription :
    (id : String) (x s : Subscription) (n : Node) (o : Option Node)
    → find_node id x.nodes ≡ o
    → ◌≡◌ {A = Option (Subscription × Node)}
        (elim o [ none ↦ none | some y ↦ some (x, y) ])
        (some (s, n))
    → n.id ≡ id
in_subscription id x s n none e h = absurd (ground arith)
in_subscription id x s n (some y) e h =
    let q : y ≡ n = cc h in ap (λ (z : Node). z.id) (sym q) ∙ find_node_id id x.nodes y e

node_by :
    (id : String) (s : Subscription) (n : Node) (o : Option Subscription) (b : Bool)
    → b ≡ false
    → ◌≡◌ {A = Option (Subscription × Node)}
        (elim o [
          | none ↦ none
          | some x ↦ elim (find_node (if b then x.selected_node_id else id) x.nodes) [
            | none ↦ none
            | some y ↦ some (x, y)
          ]
        ])
        (some (s, n))
    → n.id ≡ id
node_by id s n none b e h = absurd (ground arith)
node_by id s n (some x) true e h = absurd (ground arith)
node_by id s n (some x) false e h = in_subscription id x s n (find_node id x.nodes) refl h

-- A node that an id, not the empty one, selects has it.
node_of :
    (subs : List Subscription) (subscription_id node_id : String) (s : Subscription) (n : Node)
    → str_eq node_id "" ≡ false
    → selected_node subs subscription_id node_id ≡ some (s, n)
    → n.id ≡ node_id
unfolding selected_node
node_of subs k id s n e h = node_by id s n (find_subscription k subs) (str_eq id "") e h

pub to_node :
    (subs : List Subscription) (subscription_id node_id : String) (s : Subscription) (n : Node)
    → str_eq node_id "" ≡ false
    → selected_node subs subscription_id node_id ≡ some (s, n)
    → IsNode subs subscription_id node_id n
to_node subs k id s n e h = record { owner = s; stored = h; same_id = node_of subs k id s n e h }

-- References that differ name nodes that do.
pub refs-IsApart :
    (exit : NodeRef) (k id : String) (n x : Node)
    → n.id ≡ id
    → x.id ≡ exit.node_id
    → same_node (record { subscription_id = k; node_id = id }) exit ≡ false
    → IsApart k n exit x
unfolding same_node
refs-IsApart exit k id n x e f d = record { apart = rw (e, f) d }
