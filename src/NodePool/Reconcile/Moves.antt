-- ===== src/NodePool/Reconcile/Moves.antt =====
-- `ReconcileSubscriptionNodes` on all the stored pools.
use sing_box_webui.Prelude.{
  String, ◌≡◌, refl, subst, ap, ◌∙◌, Bool, true, false, ◌||◌, List, [], ◌∷◌, map, none, some, All,
  arith, has, Bool-cases, inl, inr, str_eq, eq_iff,
}
use sing_box_webui.Prelude.Int.{ℤ}
use sing_box_webui.Subscription.Model.{Node}
use sing_box_webui.Storage.{Env}
use sing_box_webui.Storage.Sync.{commit_saved}
use sing_box_webui.NodePool.Model.{Member, Pool, not_saved}
use sing_box_webui.NodePool.Store.{Pools}
use sing_box_webui.NodePool.Reconcile.{
  save_changed, any_pool, next_id, join_one, follow, follow_pool, reconcile_subscription_nodes,
}
use sing_box_webui.NodePool.Reconcile.Identity.{
  IsSettled, follow_at, one_elsewhere, one_dropped, one_kept, follow-IsSettled,
}

join_same :
    (m n : Member) (r : List Member × Bool)
    → (join_one m (some n) r).1 ≡ false
    → (str_eq n.node_id m.node_id ≡ true) × (r.1 ≡ false)
unfolding join_one
join_same m n (rest, c) h = (ground arith, ground arith)

join_kept_lem : (m n : Member) (r : List Member × Bool) → (join_one m (some n) r).0 ≡ n ∷ r.0
unfolding join_one
join_kept_lem m n (rest, c) = refl

join_changes : (m : Member) (r : List Member × Bool) → (join_one m none r).1 ≡ true
unfolding join_one
join_changes m (rest, c) = refl

module _ (digest : Node → String) (subscription_id : String) (previous current : List Node) where
  abbrev walk : List String → List Member → List Member × Bool
  walk = follow digest subscription_id previous current

  join_unmoved :
      (m n : Member) (ms : List Member) (r : List Member × Bool)
      → (str_eq n.node_id m.node_id ≡ true → n ≡ m)
      → (r.1 ≡ false → r.0 ≡ ms)
      → (join_one m (some n) r).1 ≡ false
      → (join_one m (some n) r).0 ≡ m ∷ ms
  join_unmoved m n ms r k l h =
      let (e, f) = join_same m n r h in join_kept_lem m n r ∙ cc (k e, l f)

  join_not_dropped :
      (m : Member) (ms : List Member) (r : List Member × Bool)
      → (join_one m none r).1 ≡ false
      → (join_one m none r).0 ≡ m ∷ ms
  join_not_dropped m ms r h = let c = join_changes m r in absurd (ground arith)

  pub follow_same :
      (seen : List String) (ms : List Member) → (walk seen ms).1 ≡ false → (walk seen ms).0 ≡ ms
  follow_same seen [] = unfold follow in λ _. refl
  follow_same seen (m ∷ ms) =
      let id = next_id digest previous current m.node_id in
      elim (Bool-cases (str_eq m.subscription_id subscription_id)) [
        | inr e ↦
            rw
              (follow_at digest subscription_id previous current seen m ms (some m, seen)
                (one_elsewhere digest subscription_id previous current seen m e))
              (join_unmoved m m ms (walk seen ms) (λ _. refl) (follow_same seen ms))
        | inl e ↦ elim (Bool-cases (str_eq id "" || has id seen)) [
          | inl f ↦
              rw
                (follow_at digest subscription_id previous current seen m ms (none, seen)
                  (one_dropped digest subscription_id previous current seen m e f))
                (join_not_dropped m ms (walk seen ms))
          | inr f ↦
              rw
                (follow_at digest subscription_id previous current seen m ms
                  (some (record m { node_id = id }), id ∷ seen)
                  (one_kept digest subscription_id previous current seen m e f))
                (join_unmoved m (record m { node_id = id }) ms (walk (id ∷ seen) ms)
                  (λ k. ap (λ (i : String). record m { node_id = i }) ((eq_iff id m.node_id).0 k))
                  (follow_same (id ∷ seen) ms))
        ]
      ]

  abbrev pub HasSettled : Pool → Type 0
  HasSettled p = IsSettled digest subscription_id previous current [] p.members

  abbrev one : ℤ → Pool → Pool × Bool
  one = follow_pool digest subscription_id previous current

  pool-HasSettled : (now : ℤ) (p : Pool) → HasSettled (one now p).0
  unfolding follow_pool
  pool-HasSettled now p = follow-IsSettled digest subscription_id previous current [] p.members

  pool_unmoved : (now : ℤ) (p : Pool) → (one now p).1 ≡ false → HasSettled p
  unfolding follow_pool
  pool_unmoved now p h =
      let e = follow_same [] p.members (ground arith) in
      subst (λ (ms : List Member). IsSettled digest subscription_id previous current [] ms) e
        (follow-IsSettled digest subscription_id previous current [] p.members)

  pools-HasSettled : (now : ℤ) (ps : List Pool) → All HasSettled (map (λ p. (one now p).0) ps)
  pools-HasSettled now [] = tt
  pools-HasSettled now (p ∷ ps) = (pool-HasSettled now p, pools-HasSettled now ps)

  pools_unmoved :
      (now : ℤ) (ps : List Pool) → any_pool (λ p. (one now p).1) ps ≡ false → All HasSettled ps
  unfolding any_pool
  pools_unmoved now [] = λ _. tt
  pools_unmoved now (p ∷ ps) =
      λ h. (pool_unmoved now p (ground arith), pools_unmoved now ps (ground arith))

  changed-HasSettled :
      (env : Env) (items : List Pool) (s : Pools) (b : Bool)
      → env.saved ≡ true
      → (b ≡ false → All HasSettled s.items)
      → All HasSettled items
      → All HasSettled (save_changed env items s b).0.items
  unfolding save_changed
  changed-HasSettled env items s false e k h = k refl
  changed-HasSettled env items s true e k h =
      rw (e, commit_saved not_saved items (λ _. s.items) tt s) h

-- Once `ReconcileSubscriptionNodes` has saved, the members that any pool has of the subscription have
-- distinct node ids, and each is the id of a node of the new list or of no node of the old one.
pub reconcile_subscription_nodes-HasSettled :
    (digest : Node → String) (env : Env) (id : String) (previous current : List Node) (s : Pools)
    → env.saved ≡ true
    → All
        (HasSettled digest id previous current)
        (reconcile_subscription_nodes digest env id previous current s).0.items
unfolding reconcile_subscription_nodes
reconcile_subscription_nodes-HasSettled digest env id previous current s e =
    changed-HasSettled digest id previous current env _ s _ e
      (pools_unmoved digest id previous current env.now s.items)
      (pools-HasSettled digest id previous current env.now s.items)
