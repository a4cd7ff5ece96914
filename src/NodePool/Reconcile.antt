-- ===== src/NodePool/Reconcile.antt =====
-- `ReconcileSubscriptionNodes`, `DeleteSubscriptionMembers` and `ReconcileReferences`: how the pools
-- follow the nodes of the subscriptions. `digest` stands for the SHA-256 sum, in hex, of a node's
-- JSON.
pub mod Follows
pub mod Identity
pub mod Moves
pub mod Lands
pub mod Removes
use sing_box_webui.Prelude.{
  ℕ, String, Bool, true, false, not, ◌||◌, List, [], ◌∷◌, map, Option, none, some, ◌==◌,
  if◌then◌else◌, length, has, str_eq, Result, ok, err,
}
use sing_box_webui.Prelude.Int.{ℤ}
use sing_box_webui.Subscription.Model.{Node, Subscription}
use sing_box_webui.Subscription.Lookup.{find_node}
use sing_box_webui.Storage.{Env, commit, find_last}
use sing_box_webui.NodePool.Model.{Member, Pool, PoolError, not_saved}
use sing_box_webui.NodePool.Resolve.{is_available}
use sing_box_webui.NodePool.Store.{Pools}

-- What the three operations share: nothing is saved where no pool changed, and a failed save takes the
-- copies of the pools back.
pub save_changed : Env → List Pool → Pools → Bool → Pools × Result PoolError (Unit {0})
save_changed env items s false = (s, ok tt)
save_changed env items s true = commit env.saved not_saved items (λ _. s.items) tt s

-- The loop over a pool's members that keeps some of them.
pub sift : (Member → Bool) → List Member → List Member
sift keep [] = []
sift keep (m ∷ ms) = let rest = sift keep ms in if keep m then m ∷ rest else rest

pub drops_any : (Member → Bool) → List Member → Bool
drops_any keep [] = false
drops_any keep (m ∷ ms) = not (keep m) || drops_any keep ms

-- A pool is written to only where its number of members changed.
pub sift_pool : (Member → Bool) → ℤ → Pool → Pool
unfolding sift
sift_pool keep now p =
    let members = sift keep p.members in
    if length members == length p.members
    then p
    else record p { members = members; updated_at = now }

any_pool : (Pool → Bool) → List Pool → Bool
any_pool f [] = false
any_pool f (p ∷ ps) = f p || any_pool f ps

-- The whole of `DeleteSubscriptionMembers` and of `ReconcileReferences`, but for which members stay.
pub sift_pools : (Member → Bool) → Env → Pools → Pools × Result PoolError (Unit {0})
unfolding save_changed sift_pool drops_any any_pool
sift_pools keep env s =
    save_changed env (map (sift_pool keep env.now) s.items) s
      (any_pool (λ p. drops_any keep p.members) s.items)

abbrev pub is_elsewhere : String → Member → Bool
is_elsewhere subscription_id m = not (str_eq m.subscription_id subscription_id)

unfoldable pub delete_subscription_members :
    Env → String → Pools → Pools × Result PoolError (Unit {0})
unfolding sift_pools
delete_subscription_members env subscription_id s = sift_pools (is_elsewhere subscription_id) env s

pub reconcile_references : Env → List Subscription → Pools → Pools × Result PoolError (Unit {0})
unfolding sift_pools is_available
reconcile_references env subs s = sift_pools (is_available subs) env s

abbrev node_id_of : Node → String
node_id_of n = n.id

note_id : Node → Option String → Option String
note_id n none = some n.id
note_id n (some _) = some ""

-- A missing key of the map gives the empty string.
pub or_empty : Option String → String
or_empty none = ""
or_empty (some s) = s

-- The member as it stays, if it does, and the ids taken: the keys of `seen` all start with the
-- subscription's id, and so are told apart by the node's.
follow_id : Member → List String → String → Option Member × List String
follow_id m seen id =
    if str_eq id "" || has id seen
    then (none, seen)
    else (some (record m { node_id = id }), id ∷ seen)

pub join_one : Member → Option Member → List Member × Bool → List Member × Bool
join_one m none (rest, changed) = (rest, true)
join_one m (some n) (rest, changed) = (n ∷ rest, not (str_eq n.node_id m.node_id) || changed)

next_of : String → String → Option Node → String
next_of id moved none = moved
next_of id moved (some _) = id

module _ (digest : Node → String) where
  node_identity : Node → String
  node_identity n = digest (record n { id = ""; name = "" })

  -- currentByIdentity[identity], while the loop fills the map
  pub by_identity : String → Option String → List Node → Option String
  unfolding node_identity note_id
  by_identity identity entry [] = entry
  by_identity identity entry (n ∷ ns) =
      by_identity identity (if str_eq (node_identity n) identity then note_id n entry else entry) ns

  pub moved_id : List Node → String → Option Node → String
  unfolding by_identity or_empty
  moved_id current id none = id
  moved_id current id (some old) = or_empty (by_identity (node_identity old) none current)

  -- nextID of a member of the subscription
  pub next_id : List Node → List Node → String → String
  unfolding moved_id next_of
  next_id previous current id =
      next_of id (moved_id current id (find_last node_id_of id previous)) (find_node id current)

  pub follow_one :
      String → List Node → List Node → List String → Member → Option Member × List String
  unfolding next_id follow_id
  follow_one subscription_id previous current seen m =
      if str_eq m.subscription_id subscription_id
      then follow_id m seen (next_id previous current m.node_id)
      else (some m, seen)

  -- The loop over a pool's members: those that stay, and poolChanged.
  pub follow : String → List Node → List Node → List String → List Member → List Member × Bool
  unfolding follow_one join_one
  follow subscription_id previous current seen [] = ([], false)
  follow subscription_id previous current seen (m ∷ ms) =
      let (kept, taken) = follow_one subscription_id previous current seen m in
      join_one m kept (follow subscription_id previous current taken ms)

  pub follow_pool : String → List Node → List Node → ℤ → Pool → Pool × Bool
  unfolding follow
  follow_pool subscription_id previous current now p =
      let (members, moved) = follow subscription_id previous current [] p.members in
      let changed = moved || not (length members == length p.members) in
      (record p { members = members; updated_at = if changed then now else p.updated_at }, changed)

  unfoldable pub reconcile_subscription_nodes :
      Env → String → List Node → List Node → Pools → Pools × Result PoolError (Unit {0})
  unfolding save_changed follow_pool any_pool
  reconcile_subscription_nodes env subscription_id previous current s =
      let f = follow_pool subscription_id previous current env.now in
      save_changed env (map (λ p. (f p).0) s.items) s (any_pool (λ p. (f p).1) s.items)
