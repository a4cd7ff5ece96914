-- ===== src/NodePool/Reconcile/Lands.antt =====
-- `ReconcileSubscriptionNodes` where every member of the subscription is on one of its old nodes.
use sing_box_webui.Prelude.{
  String, ◌≡◌, refl, ap, subst, Bool, true, false, ◌||◌, List, [], ◌∷◌, map, Option, none, some,
  arith, Bool-cases, inl, inr, str_eq, eq_iff, has, All, is_some, ok,
}
use sing_box_webui.Prelude.Int.{ℤ}
use sing_box_webui.Subscription.Model.{Node}
use sing_box_webui.Subscription.Lookup.{find_node}
use sing_box_webui.Storage.{Env, find_last}
use sing_box_webui.Storage.Sync.{commit_saved, commit_failed}
use sing_box_webui.NodePool.Model.{Member, Pool, not_saved}
use sing_box_webui.NodePool.Store.{Pools}
use sing_box_webui.NodePool.Reconcile.{
  save_changed, any_pool, node_id_of, node_identity, by_identity, or_empty, moved_id, next_id,
  join_one, follow, follow_pool, reconcile_subscription_nodes,
}
use sing_box_webui.NodePool.Reconcile.Identity.{
  by_identity_known, next_some, next_none, follow_at, one_elsewhere, one_dropped, one_kept,
}
use sing_box_webui.NodePool.Reconcile.Moves.{follow_same}

last_found_step :
    (id : String) (n : Node) (ns : List Node)
    → (is_some (find_node id ns) ≡ true → is_some (find_last node_id_of id ns) ≡ true)
    → (o : Option Node) → find_last node_id_of id ns ≡ o
    → is_some (find_node id (n ∷ ns)) ≡ true
    → is_some (find_last node_id_of id (n ∷ ns)) ≡ true
unfolding find_node find_last is_some
last_found_step id n ns k (some x) e = rw e (λ h. refl)
last_found_step id n ns k none e = elim (Bool-cases (str_eq n.id id)) [
  | inl f ↦ rw (e, f) (λ h. refl)
  | inr f ↦
      rw (e, f)
        (λ h. absurd (
          let p = k h in
          let q : is_some (find_last node_id_of id ns) ≡ false = rw e refl in ground arith))
]

-- An id that the first search finds is found by the last.
last_found :
    (id : String) (ns : List Node)
    → is_some (find_node id ns) ≡ true
    → is_some (find_last node_id_of id ns) ≡ true
last_found id [] = unfold find_node is_some in λ h. absurd (ground arith)
last_found id (n ∷ ns) =
    last_found_step id n ns (last_found id ns) (find_last node_id_of id ns) refl

-- What holds of a pool's members.
unfoldable pub AllMembers : (Member → Type 0) → Pool → Type 0
AllMembers P p = All P p.members

-- What held where nothing changed, and holds of the new list, holds where no error is reported.
pub save_changed-All :
    (Q : Member → Type 0) (env : Env) (items : List Pool) (s : Pools) (b : Bool)
    → (save_changed env items s b).1 ≡ ok tt
    → (b ≡ false → All (AllMembers Q) s.items)
    → All (AllMembers Q) items
    → All (AllMembers Q) (save_changed env items s b).0.items
unfolding save_changed
save_changed-All Q env items s false = λ e k h. k refl
save_changed-All Q env items s true = elim (Bool-cases env.saved) [
  | inl f ↦ rw (f, commit_saved not_saved items (λ _. s.items) tt s) (λ e k h. h)
  | inr f ↦
      rw (f, commit_failed not_saved items (λ _. s.items) tt s refl) (λ e. absurd (ground arith))
]

abbrev Lands : List Node → String → Type 0
Lands current id = (str_eq id "" || is_some (find_node id current)) ≡ true

module _ (digest : Node → String) (previous current : List Node) where
  moved-Lands :
      (id : String) (p : Option Node)
      → is_some p ≡ true
      → Lands current (moved_id digest current id p)
  unfolding is_some
  moved-Lands id none h = absurd (ground arith)
  moved-Lands id (some old) h =
      let r = or_empty (by_identity digest (node_identity digest old) none current) in
      let k = by_identity_known digest (node_identity digest old) none current r refl in
      unfold moved_id or_empty in ground arith

  next-Lands_of :
      (id : String) (o : Option Node)
      → find_node id current ≡ o
      → is_some (find_node id previous) ≡ true
      → Lands current (next_id digest previous current id)
  unfolding is_some
  next-Lands_of id (some n) e h = rw (next_some digest id previous current n e, e) (ground arith)
  next-Lands_of id none e h =
      rw (next_none digest id previous current e)
        (moved-Lands id (find_last node_id_of id previous) (last_found id previous h))

  next-Lands :
      (id : String)
      → is_some (find_node id previous) ≡ true
      → Lands current (next_id digest previous current id)
  next-Lands id h = next-Lands_of id (find_node id current) refl h

-- A member that is of the subscription is on one of the nodes.
unfoldable pub IsOn : String → List Node → Member → Type 0
IsOn id nodes m = str_eq m.subscription_id id ≡ true → is_some (find_node m.node_id nodes) ≡ true

module _ (digest : Node → String) (subscription_id : String) (previous current : List Node)
    (P Q : Member → Type 0)
    (elsewhere : (m : Member) → str_eq m.subscription_id subscription_id ≡ false → P m → Q m)
    (lands : (m : Member)
      → let id = next_id digest previous current m.node_id in
        str_eq m.subscription_id subscription_id ≡ true
        → P m
        → str_eq id "" ≡ false
        → Q (record m { node_id = id })) where
  abbrev walk : List String → List Member → List Member × Bool
  walk = follow digest subscription_id previous current

  join_kept :
      (m n : Member) (r : List Member × Bool) → Q n → All Q r.0 → All Q (join_one m (some n) r).0
  unfolding join_one
  join_kept m n (rest, c) q h = (q, h)

  join_dropped : (m : Member) (r : List Member × Bool) → All Q r.0 → All Q (join_one m none r).0
  unfolding join_one
  join_dropped m (rest, c) h = h

  follow-All : (seen : List String) (ms : List Member) → All P ms → All Q (walk seen ms).0
  follow-All seen [] h = unfold follow in tt
  follow-All seen (m ∷ ms) h =
      let id = next_id digest previous current m.node_id in
      elim (Bool-cases (str_eq m.subscription_id subscription_id)) [
        | inr e ↦
            rw
              (follow_at digest subscription_id previous current seen m ms (some m, seen)
                (one_elsewhere digest subscription_id previous current seen m e))
              (join_kept m m (walk seen ms) (elsewhere m e h.0) (follow-All seen ms h.1))
        | inl e ↦ elim (Bool-cases (str_eq id "" || has id seen)) [
          | inl f ↦
              rw
                (follow_at digest subscription_id previous current seen m ms (none, seen)
                  (one_dropped digest subscription_id previous current seen m e f))
                (join_dropped m (walk seen ms) (follow-All seen ms h.1))
          | inr f ↦
              rw
                (follow_at digest subscription_id previous current seen m ms
                  (some (record m { node_id = id }), id ∷ seen)
                  (one_kept digest subscription_id previous current seen m e f))
                (join_kept m (record m { node_id = id }) (walk (id ∷ seen) ms)
                  (lands m e h.0 (ground arith)) (follow-All (id ∷ seen) ms h.1))
        ]
      ]

  abbrev one : ℤ → Pool → Pool × Bool
  one = follow_pool digest subscription_id previous current

  pool-All : (now : ℤ) (p : Pool) → AllMembers P p → AllMembers Q (one now p).0
  unfolding follow_pool AllMembers
  pool-All now p h = follow-All [] p.members h

  pool_unmoved : (now : ℤ) (p : Pool) → (one now p).1 ≡ false → AllMembers P p → AllMembers Q p
  unfolding follow_pool AllMembers
  pool_unmoved now p e h =
      subst (λ (ms : List Member). All Q ms)
        (follow_same digest subscription_id previous current [] p.members (ground arith))
        (follow-All [] p.members h)

  pools-All :
      (now : ℤ) (ps : List Pool)
      → All (AllMembers P) ps
      → All (AllMembers Q) (map (λ p. (one now p).0) ps)
  pools-All now [] h = tt
  pools-All now (p ∷ ps) h = (pool-All now p h.0, pools-All now ps h.1)

  pools_unmoved :
      (now : ℤ) (ps : List Pool)
      → any_pool (λ p. (one now p).1) ps ≡ false
      → All (AllMembers P) ps
      → All (AllMembers Q) ps
  unfolding any_pool
  pools_unmoved now [] = λ _ h. tt
  pools_unmoved now (p ∷ ps) =
      λ e h. (pool_unmoved now p (ground arith) h.0, pools_unmoved now ps (ground arith) h.1)

  pub reconcile_subscription_nodes-All :
      (env : Env) (s : Pools)
      → (reconcile_subscription_nodes digest env subscription_id previous current s).1 ≡ ok tt
      → All (AllMembers P) s.items
      → All
          (AllMembers Q)
          (reconcile_subscription_nodes digest env subscription_id previous current s).0.items
  unfolding reconcile_subscription_nodes
  reconcile_subscription_nodes-All env s e h =
      save_changed-All Q env _ s _ e (λ b. pools_unmoved env.now s.items b h)
        (pools-All env.now s.items h)

-- Where `ReconcileSubscriptionNodes` reports no error, the members of the subscription, all of them on
-- its old nodes before, are all on its new ones.
pub reconcile_subscription_nodes-IsOn :
    (digest : Node → String) (env : Env) (id : String) (previous current : List Node) (s : Pools)
    → (reconcile_subscription_nodes digest env id previous current s).1 ≡ ok tt
    → All (AllMembers (IsOn id previous)) s.items
    → All
        (AllMembers (IsOn id current))
        (reconcile_subscription_nodes digest env id previous current s).0.items
unfolding IsOn
reconcile_subscription_nodes-IsOn digest env id previous current s e h =
    reconcile_subscription_nodes-All digest id previous current (IsOn id previous) (IsOn id current)
      (λ m f k g. absurd (ground arith))
      (λ m f k n g. let l = next-Lands digest previous current m.node_id (k f) in ground arith) env
      s e h

-- The members of another subscription stay where they are.
pub reconcile_subscription_nodes-others :
    (digest : Node → String) (env : Env) (id k : String) (previous current nodes : List Node)
    (s : Pools)
    → str_eq id k ≡ false
    → (reconcile_subscription_nodes digest env id previous current s).1 ≡ ok tt
    → All (AllMembers (IsOn k nodes)) s.items
    → All
        (AllMembers (IsOn k nodes))
        (reconcile_subscription_nodes digest env id previous current s).0.items
unfolding IsOn
reconcile_subscription_nodes-others digest env id k previous current nodes s d e h =
    reconcile_subscription_nodes-All digest id previous current (IsOn k nodes) (IsOn k nodes)
      (λ m f p. p)
      (λ m f p n g.
        absurd (let q = (eq_iff m.subscription_id id).0 f in cc (ap (λ x. str_eq x k) q, d, g)))
      env s e h
