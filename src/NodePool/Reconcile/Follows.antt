-- ===== src/NodePool/Reconcile/Follows.antt =====
-- After a subscription's members are removed, or the dangling ones are, none of them is left.
use sing_box_webui.Prelude.{
  ◌≤◌, String, ◌≡◌, refl, Bool, true, false, List, [], ◌∷◌, map, All, arith, length, ◌==◌,
  Bool-cases, inl, inr, ok, ==_iff,
}
use sing_box_webui.Prelude.Int.{ℤ}
use sing_box_webui.Subscription.Model.{Subscription}
use sing_box_webui.Storage.{Env}
use sing_box_webui.Storage.Sync.{commit_saved}
use sing_box_webui.NodePool.Model.{Member, Pool, not_saved}
use sing_box_webui.NodePool.Resolve.{is_available}
use sing_box_webui.NodePool.Store.{Pools}
use sing_box_webui.NodePool.Reconcile.{
  save_changed, sift, drops_any, sift_pool, any_pool, sift_pools, is_elsewhere,
  delete_subscription_members, reconcile_references,
}

module _ (keep : Member → Bool) where
  unfoldable pub IsKept : Member → Type 0
  IsKept m = keep m ≡ true

  pub AllKept : Pool → Type 0
  unfolding IsKept
  AllKept p = All IsKept p.members

  pub sift-All : (ms : List Member) → All IsKept (sift keep ms)
  unfolding sift IsKept
  sift-All [] = tt
  sift-All (m ∷ ms) = elim (Bool-cases (keep m)) [
    | inl e ↦ rw e (e, sift-All ms)
    | inr e ↦ rw e (sift-All ms)
  ]

  sift_shorter : (ms : List Member) → length (sift keep ms) ≤ length ms
  unfolding sift
  sift_shorter [] = omega arith
  sift_shorter (m ∷ ms) = let h = sift_shorter ms in ground arith

  pub sift_same : (ms : List Member) → length (sift keep ms) ≡ length ms → All IsKept ms
  unfolding sift IsKept
  sift_same [] = λ _. tt
  sift_same (m ∷ ms) =
      let l = sift_shorter ms in
      elim (Bool-cases (keep m)) [
        | inl e ↦ rw e (λ h. (refl, sift_same ms (omega arith)))
        | inr e ↦ rw e (λ h. absurd (omega arith))
      ]

  pub no_drops : (ms : List Member) → drops_any keep ms ≡ false → All IsKept ms
  unfolding drops_any IsKept
  no_drops [] = λ _. tt
  no_drops (m ∷ ms) = elim (Bool-cases (keep m)) [
    | inl e ↦ rw e (λ h. (refl, no_drops ms h))
    | inr e ↦ rw e (λ h. absurd (ground arith))
  ]

  All-kept : (ms : List Member) → All IsKept ms → drops_any keep ms ≡ false
  unfolding drops_any IsKept
  All-kept [] h = refl
  All-kept (m ∷ ms) h = rw (h.0) (All-kept ms h.1)

  sift_pool-AllKept : (now : ℤ) (p : Pool) → AllKept (sift_pool keep now p)
  unfolding sift_pool AllKept
  sift_pool-AllKept now p = elim (Bool-cases (length (sift keep p.members) == length p.members)) [
    | inl e ↦
        rw e (sift_same p.members ((==_iff (length (sift keep p.members)) (length p.members)).0 e))
    | inr e ↦ rw e (sift-All p.members)
  ]

  sift_pools-All : (now : ℤ) (ps : List Pool) → All AllKept (map (sift_pool keep now) ps)
  sift_pools-All now [] = tt
  sift_pools-All now (p ∷ ps) = (sift_pool-AllKept now p, sift_pools-All now ps)

  none_dropped :
      (ps : List Pool) → any_pool (λ p. drops_any keep p.members) ps ≡ false → All AllKept ps
  unfolding any_pool AllKept
  none_dropped [] = λ _. tt
  none_dropped (p ∷ ps) = elim (Bool-cases (drops_any keep p.members)) [
    | inl e ↦ rw e (λ h. absurd (ground arith))
    | inr e ↦ rw e (λ h. (no_drops p.members e, none_dropped ps h))
  ]

  All-pools :
      (ps : List Pool) → All AllKept ps → any_pool (λ p. drops_any keep p.members) ps ≡ false
  unfolding any_pool AllKept
  All-pools [] h = refl
  All-pools (p ∷ ps) h = rw (All-kept p.members h.0) (All-pools ps h.1)

  save_changed-AllKept :
      (env : Env) (items : List Pool) (s : Pools) (b : Bool)
      → env.saved ≡ true
      → (b ≡ false → All AllKept s.items)
      → All AllKept items
      → All AllKept (save_changed env items s b).0.items
  unfolding save_changed
  save_changed-AllKept env items s false e k h = k refl
  save_changed-AllKept env items s true e k h =
      rw (e, commit_saved not_saved items (λ _. s.items) tt s) h

  sift_pools-AllKept :
      (env : Env) (s : Pools) → env.saved ≡ true → All AllKept (sift_pools keep env s).0.items
  unfolding sift_pools
  sift_pools-AllKept env s e =
      save_changed-AllKept env (map (sift_pool keep env.now) s.items) s _ e (none_dropped s.items)
        (sift_pools-All env.now s.items)

  sift_pools_settled :
      (env : Env) (s : Pools) → All AllKept s.items → sift_pools keep env s ≡ (s, ok tt)
  unfolding sift_pools save_changed
  sift_pools_settled env s h = rw (All-pools s.items h) refl

-- Once `DeleteSubscriptionMembers` has saved, no pool has a member of the subscription.
pub delete_subscription_members-AllKept :
    (env : Env) (id : String) (s : Pools)
    → env.saved ≡ true
    → All (AllKept (is_elsewhere id)) (delete_subscription_members env id s).0.items
unfolding delete_subscription_members
delete_subscription_members-AllKept env id s e = sift_pools-AllKept (is_elsewhere id) env s e

-- Once `ReconcileReferences` has saved, every member of every pool resolves to a stored node, and
-- running it again, whether or not a save would succeed, changes nothing and reports no error.
pub reconcile_references_converges :
    (env later : Env) (subs : List Subscription) (s : Pools)
    → env.saved ≡ true
    → let t = (reconcile_references env subs s).0 in
      All (AllKept (is_available subs)) t.items × (reconcile_references later subs t ≡ (t, ok tt))
unfolding reconcile_references
reconcile_references_converges env later subs s e =
    let h = sift_pools-AllKept (is_available subs) env s e in
    (h, sift_pools_settled (is_available subs) later (sift_pools (is_available subs) env s).0 h)
