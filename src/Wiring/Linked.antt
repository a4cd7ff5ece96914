-- ===== src/Wiring/Linked.antt =====
-- A refresh and a deletion that report no error leave no member of a pool without its node.
use sing_box_webui.Prelude.{
  String, ◌≡◌, refl, subst, ap, ◌∙◌, List, All, Bool-cases, inl, inr, str_eq, eq_iff, ok,
}
use sing_box_webui.Storage.{Env, remove}
use sing_box_webui.Storage.Keeps.{find_id}
use sing_box_webui.Subscription.Model.{Node}
use sing_box_webui.Subscription.Shown.{Redaction}
use sing_box_webui.Subscription.Model.{CreateInput}
use sing_box_webui.Subscription.Refresh.Outcome.Created.{Creates, create-Creates}
use sing_box_webui.Subscription.Store.{Urls}
use sing_box_webui.Subscription.Store.{sub_id}
use sing_box_webui.Subscription.Refresh.{Sinks, World, RefreshInput, refresh, delete, create}
use sing_box_webui.Subscription.Refresh.Outcome.{
  Refreshes, Deletes, refresh-Refreshes, delete-Deletes,
}
use sing_box_webui.NodePool.Model.{PoolError}
use sing_box_webui.NodePool.Store.{Pools}
use sing_box_webui.NodePool.Reconcile.{reconcile_subscription_nodes, delete_subscription_members}
use sing_box_webui.NodePool.Reconcile.Lands.{
  IsOn, AllMembers, reconcile_subscription_nodes-IsOn, reconcile_subscription_nodes-others,
}
use sing_box_webui.NodePool.Reconcile.Removes.{
  delete_subscription_members-IsOn, delete_subscription_members-others,
}
use sing_box_webui.Wiring.{set_pool_sink, nodes_found, nodes_of, IsLinked}
use sing_box_webui.Wiring.Finds.{
  no_text, found_replaced, other_replaced, other_removed, nodes_passed, nodes_added_of, IsOn-any,
}

module _ {R : Type 0} (redaction : Redaction) (digest : Node → String) (render : PoolError → String)
    (env : Env) (rest : Sinks Pools R) where
  abbrev pub sinks : Sinks Pools R
  unfolding set_pool_sink
  sinks = set_pool_sink digest render env rest

  -- The pools after a refresh, for the subscription that it changes and for another.
  refreshed_nodes :
      (id k : String) (w v : World Pools R)
      → Refreshes redaction sinks id w v
      → IsLinked w
      → All (AllMembers (IsOn k (nodes_of k v.subs.items))) v.pools.items
  unfolding set_pool_sink IsLinked
  refreshed_nodes id k w v r h =
      let s = reconcile_subscription_nodes digest env id r.old.nodes r.new.nodes w.pools in
      let (p, a) = no_text render s r.accepted in
      let e = (eq_iff r.new.id id).1 (r.same_id ∙ find_id sub_id id w.subs.items r.old r.found) in
      elim (Bool-cases (str_eq id k)) [
        | inl d ↦
            let q = (eq_iff id k).0 d in
            let g = found_replaced id r.old r.new w.subs.items r.found e in
            let n : nodes_of id v.subs.items ≡ r.new.nodes =
              unfold nodes_of nodes_found in rw (r.stored, g) refl in
            let o : nodes_of id w.subs.items ≡ r.old.nodes =
              unfold nodes_of nodes_found in rw (r.found) refl in
            subst
              (λ (i : String). All (AllMembers (IsOn i (nodes_of i v.subs.items))) v.pools.items) q
              (rw (n, r.pools, p)
                (reconcile_subscription_nodes-IsOn digest env id r.old.nodes r.new.nodes w.pools a (
                  subst (λ (ns : List Node). All (AllMembers (IsOn id ns)) w.pools.items) o
                    (h id))))
        | inr d ↦
            let g = other_replaced id k r.new w.subs.items d e in
            let n : nodes_of k v.subs.items ≡ nodes_of k w.subs.items =
              unfold nodes_of in rw (r.stored, g) refl in
            rw (n, r.pools, p)
              (reconcile_subscription_nodes-others digest env id k r.old.nodes r.new.nodes
                (nodes_of k w.subs.items) w.pools d a (h k))
      ]

  deleted_nodes :
      (id k : String) (w v : World Pools R)
      → Deletes redaction sinks id w v
      → IsLinked w
      → All (AllMembers (IsOn k (nodes_of k v.subs.items))) v.pools.items
  unfolding set_pool_sink IsLinked
  deleted_nodes id k w v r h =
      let s = delete_subscription_members env id w.pools in
      let (p, a) = no_text render s r.accepted in
      elim (Bool-cases (str_eq id k)) [
        | inl d ↦
            let q = (eq_iff id k).0 d in
            let gone =
              delete_subscription_members-IsOn env id (nodes_of id w.subs.items) w.pools a (h id) in
            subst
              (λ (i : String). All (AllMembers (IsOn i (nodes_of i v.subs.items))) v.pools.items) q
              (rw (r.pools, p) (IsOn-any id (nodes_of id v.subs.items) s.0.items gone))
        | inr d ↦
            let n : nodes_of k v.subs.items ≡ nodes_of k w.subs.items =
              ap (nodes_of k) r.stored
              ∙ nodes_passed k r.was_active (remove sub_id id w.subs.items)
              ∙ (unfold nodes_of in ap nodes_found (other_removed id k w.subs.items d)) in
            rw (n, r.pools, p)
              (delete_subscription_members-others env id k (nodes_of k w.subs.items) w.pools a
                (h k))
      ]

  -- A refresh that reports no error, with every pool member on a stored node before it, leaves every
  -- pool member on a stored node.
  pub refresh-IsLinked :
      (input : RefreshInput) (id : String) (w : World Pools R)
      → IsLinked w
      → (refresh redaction sinks input id w).1 ≡ ok tt
      → IsLinked (refresh redaction sinks input id w).0
  unfolding IsLinked
  refresh-IsLinked input id w h e k =
      refreshed_nodes id k w (refresh redaction sinks input id w).0
        (refresh-Refreshes redaction sinks input id w e) h

  -- A deletion that reports no error does too.
  pub delete-IsLinked :
      (back : Env) (id : String) (w : World Pools R)
      → IsLinked w
      → (delete redaction sinks back id w).1 ≡ ok tt
      → IsLinked (delete redaction sinks back id w).0
  unfolding IsLinked
  delete-IsLinked back id w h e k =
      deleted_nodes id k w (delete redaction sinks back id w).0
        (delete-Deletes redaction sinks back id w e) h

  -- The nodes under an id are those before a subscription without nodes was added.
  created-IsLinked : (w v : World Pools R) → Creates redaction sinks w v → IsLinked w → IsLinked v
  unfolding IsLinked
  created-IsLinked w v r h k = refreshed_nodes r.id k r.between v r.refreshes (λ i.
      let n : nodes_of i r.between.subs.items ≡ nodes_of i w.subs.items =
        unfold nodes_of in rw (r.appended) (nodes_added_of i r.added w.subs.items r.empty) in
      rw (n, r.same_pools) (h i))

  -- A creation that reports no error does too.
  pub create-IsLinked :
      (urls : Urls) (added back : Env) (input : RefreshInput) (i : CreateInput) (w : World Pools R)
      → IsLinked w
      → (create redaction sinks urls added back input i w).1 ≡ ok tt
      → IsLinked (create redaction sinks urls added back input i w).0
  create-IsLinked urls added back input i w h e =
      created-IsLinked w (create redaction sinks urls added back input i w).0
        (create-Creates redaction sinks urls added back input i w e) h

-- A sequence of calls that each report no error, the pools' saves and clock as each call meets them.
module _ {R : Type 0} (redaction : Redaction) (digest : Node → String) (render : PoolError → String)
    (rest : Sinks Pools R) where
  unfoldable pub attached : Env → Sinks Pools R
  unfolding set_pool_sink
  attached env = set_pool_sink digest render env rest

  pub data Reaches : World Pools R → World Pools R → Type 0 where
    stays : {w : World Pools R} → Reaches w w
    refreshes :
        {w v : World Pools R} (env : Env) (input : RefreshInput) (id : String)
        → (refresh redaction (attached env) input id w).1 ≡ ok tt
        → Reaches (refresh redaction (attached env) input id w).0 v
        → Reaches w v
    deletes :
        {w v : World Pools R} (env back : Env) (id : String)
        → (delete redaction (attached env) back id w).1 ≡ ok tt
        → Reaches (delete redaction (attached env) back id w).0 v
        → Reaches w v
    creates :
        {w v : World Pools R} (env added back : Env) (urls : Urls) (input : RefreshInput)
        (i : CreateInput)
        → (create redaction (attached env) urls added back input i w).1 ≡ ok tt
        → Reaches (create redaction (attached env) urls added back input i w).0 v
        → Reaches w v

  -- Where every member of every pool is on a node of a stored subscription, it is so after any
  -- refreshes, deletions and creations of subscriptions that each report no error.
  pub reachable-IsLinked : {w v : World Pools R} → Reaches w v → IsLinked w → IsLinked v
  unfolding sinks attached
  reachable-IsLinked stays h = h
  reachable-IsLinked (refreshes {w} env input id e r) h =
      reachable-IsLinked r (refresh-IsLinked redaction digest render env rest input id w h e)
  reachable-IsLinked (deletes {w} env back id e r) h =
      reachable-IsLinked r (delete-IsLinked redaction digest render env rest back id w h e)
  reachable-IsLinked (creates {w} env added back urls input i e r) h =
      reachable-IsLinked r
        (create-IsLinked redaction digest render env rest urls added back input i w h e)
