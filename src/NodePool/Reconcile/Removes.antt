-- ===== src/NodePool/Reconcile/Removes.antt =====
-- What the members that `DeleteSubscriptionMembers` leaves keep.
use sing_box_webui.Prelude.{
  String, ◌≡◌, Bool, true, false, List, [], ◌∷◌, map, All, arith, length, ◌==◌, Bool-cases, inl,
  inr, ok, ==_iff,
}
use sing_box_webui.Prelude.Int.{ℤ}
use sing_box_webui.Subscription.Model.{Node}
use sing_box_webui.Storage.{Env}
use sing_box_webui.NodePool.Model.{Member, Pool}
use sing_box_webui.NodePool.Store.{Pools}
use sing_box_webui.NodePool.Reconcile.{
  sift, drops_any, sift_pool, any_pool, sift_pools, is_elsewhere, delete_subscription_members,
}
use sing_box_webui.NodePool.Reconcile.Follows.{IsKept, sift_same, no_drops}
use sing_box_webui.NodePool.Reconcile.Lands.{IsOn, AllMembers, save_changed-All}

module _ (keep : Member → Bool) (P Q : Member → Type 0)
    (kept : (m : Member) → keep m ≡ true → P m → Q m) where
  both : (ms : List Member) → All (IsKept keep) ms → All P ms → All Q ms
  both [] k h = tt
  both (m ∷ ms) k h = (kept m (unfold IsKept in k.0) h.0, both ms k.1 h.1)

  sift-All : (ms : List Member) → All P ms → All Q (sift keep ms)
  unfolding sift
  sift-All [] h = tt
  sift-All (m ∷ ms) h = elim (Bool-cases (keep m)) [
    | inl e ↦ rw e (kept m e h.0, sift-All ms h.1)
    | inr e ↦ rw e (sift-All ms h.1)
  ]

  pool-All : (now : ℤ) (p : Pool) → AllMembers P p → AllMembers Q (sift_pool keep now p)
  unfolding sift_pool AllMembers
  pool-All now p h = elim (Bool-cases (length (sift keep p.members) == length p.members)) [
    | inl e ↦ rw e (
        both p.members
          (sift_same keep p.members
            ((==_iff (length (sift keep p.members)) (length p.members)).0 e))
          h)
    | inr e ↦ rw e (sift-All p.members h)
  ]

  pools-All :
      (now : ℤ) (ps : List Pool)
      → All (AllMembers P) ps
      → All (AllMembers Q) (map (sift_pool keep now) ps)
  pools-All now [] h = tt
  pools-All now (p ∷ ps) h = (pool-All now p h.0, pools-All now ps h.1)

  none_dropped :
      (ps : List Pool)
      → any_pool (λ p. drops_any keep p.members) ps ≡ false
      → All (AllMembers P) ps
      → All (AllMembers Q) ps
  unfolding any_pool
  none_dropped [] = λ _ h. tt
  none_dropped (p ∷ ps) = elim (Bool-cases (drops_any keep p.members)) [
    | inl e ↦ rw e (λ g. absurd (ground arith))
    | inr e ↦ rw e (λ g h. (
      unfold AllMembers in both p.members (no_drops keep p.members e) h.0,
      none_dropped ps g h.1,
    ))
  ]

  sift_pools-All :
      (env : Env) (s : Pools)
      → (sift_pools keep env s).1 ≡ ok tt
      → All (AllMembers P) s.items
      → All (AllMembers Q) (sift_pools keep env s).0.items
  unfolding sift_pools
  sift_pools-All env s e h =
      save_changed-All Q env _ s _ e (λ g. none_dropped s.items g h) (pools-All env.now s.items h)

-- Where the removal of a subscription's members reports no error, none is left, and those of another
-- stay where they are.
pub delete_subscription_members-IsOn :
    (env : Env) (id : String) (nodes : List Node) (s : Pools)
    → (delete_subscription_members env id s).1 ≡ ok tt
    → All (AllMembers (IsOn id nodes)) s.items
    → All (AllMembers (IsOn id [])) (delete_subscription_members env id s).0.items
unfolding delete_subscription_members IsOn
delete_subscription_members-IsOn env id nodes s e h =
    sift_pools-All (is_elsewhere id) (IsOn id nodes) (IsOn id []) (λ m k u g. absurd (ground arith))
      env s e h

pub delete_subscription_members-others :
    (env : Env) (id : String) (k : String) (nodes : List Node) (s : Pools)
    → (delete_subscription_members env id s).1 ≡ ok tt
    → All (AllMembers (IsOn k nodes)) s.items
    → All (AllMembers (IsOn k nodes)) (delete_subscription_members env id s).0.items
unfolding delete_subscription_members
delete_subscription_members-others env id k nodes s e h =
    sift_pools-All (is_elsewhere id) (IsOn k nodes) (IsOn k nodes) (λ m f p. p) env s e h
