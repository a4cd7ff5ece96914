-- ===== src/NodePool/Resolve.antt =====
-- `get`, `toView`, `validateMembers`, `ResolveWithMembers`: the reads that look members up among the
-- stored subscriptions. `Get` and `SelectedNode` of the subscriptions are those of `Subscription`.
pub mod Available
use sing_box_webui.Prelude.{
  ℕ, ◌+◌, String, Bool, true, false, List, [], ◌∷◌, Option, none, some, ltb, if◌then◌else◌, length,
  str_eq, Result, ok, err, ◌>>=◌, ◌>>◌, refuse,
}
use sing_box_webui.Subscription.Model.{Node, Subscription}
use sing_box_webui.Subscription.Lookup.{find_subscription, find_node, selected_node}
use sing_box_webui.Storage.{find}
use sing_box_webui.NodePool.Model.{
  Member, Pool, MemberView, View, PoolError, not_found, member_unavailable, too_few_members,
}

abbrev pub pool_id : Pool → String
pool_id p = p.id

unfoldable pub or_missing : Option Pool → Result PoolError Pool
or_missing none = err not_found
or_missing (some p) = ok p

unfoldable pub get : List Pool → String → Result PoolError Pool
unfolding or_missing find
get items id = or_missing (find pool_id id items)

unfoldable pub is_available : List Subscription → Member → Bool
is_available subs m = elim (selected_node subs m.subscription_id m.node_id) [
  | none ↦ false
  | some r ↦ true
]

-- validateMembers
unfoldable pub validate_members : List Subscription → List Member → Result PoolError (Unit {0})
unfolding is_available
validate_members subs [] = ok tt
validate_members subs (m ∷ ms) =
    let rest = validate_members subs ms in
    if is_available subs m then rest else err member_unavailable

plain_view : Member → MemberView
plain_view m = record {
  subscription_id = m.subscription_id;
  subscription_name = "";
  node_id = m.node_id;
  node_name = "";
  type = "";
  server = "";
  port = 0;
  available = false;
}

node_view : MemberView → Option Node → MemberView
node_view v none = v
node_view v (some n) = record v {
  node_name = n.name;
  type = n.type;
  server = n.server;
  port = n.port;
  available = true;
}

subscription_view : Member → Option Subscription → MemberView
unfolding plain_view node_view
subscription_view m none = plain_view m
subscription_view m (some s) =
    node_view (record (plain_view m) { subscription_name = s.name }) (find_node m.node_id s.nodes)

pub member_view : List Subscription → Member → MemberView
unfolding subscription_view
member_view subs m = subscription_view m (find_subscription m.subscription_id subs)

pub member_views : List Subscription → List Member → List MemberView
member_views subs [] = []
member_views subs (m ∷ ms) = member_view subs m ∷ member_views subs ms

-- view.AvailableCount
pub count_available : List MemberView → ℕ
count_available [] = 0
count_available (v ∷ vs) = if v.available then count_available vs + 1 else count_available vs

-- toView; the fields that the view copies are those of `pool`
pub to_view : List Subscription → Pool → View
unfolding member_views member_view count_available
to_view subs p =
    let views = member_views subs p.members in
    record {
      pool = p;
      members = views;
      member_count = length p.members;
      available_count = count_available views;
    }

-- The members that still resolve, and their nodes.
pub resolve_members : List Subscription → List Member → List Member × List Node
resolve_members subs [] = ([], [])
resolve_members subs (m ∷ ms) =
    let (members, nodes) = resolve_members subs ms in
    elim (selected_node subs m.subscription_id m.node_id) [
      | none ↦ (members, nodes)
      | some (s, n) ↦ (m ∷ members, n ∷ nodes)
    ]

pub record Resolved : Type 0 where
  pub pool : Pool
  pub members : List Member
  pub nodes : List Node

enough : Pool → List Member × List Node → Result PoolError Resolved
enough p (members, nodes) =
    if ltb (length nodes) 2
    then err too_few_members
    else ok (record { pool = p; members = members; nodes = nodes })

-- ResolveWithMembers
unfoldable pub resolve_with_members :
    List Pool → List Subscription → String → Result PoolError Resolved
unfolding get resolve_members enough
resolve_with_members items subs id = do p ← get items id; enough p (resolve_members subs p.members)
